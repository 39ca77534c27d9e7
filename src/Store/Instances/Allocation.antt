-- ===== src/Store/Instances/Allocation.antt =====
-- A creation takes its port for the new instance alone.
use openclaw_manager.Common.{
  ℕ, suc, String, true, false, ◌||◌, none, some, ◌==◌, nat_eq, string_eq, option_eq, find, insert,
  any, ◌≡◌, ◌≢◌, refl, sym, ap, subst, ◌∙◌, inl, inr, arith, Bool-cases, Option-cases,
}
use openclaw_manager.Store.Rows.{
  Time, Db, User, Instance, Endpoint, EndpointStatus, Port, allocated,
}
use openclaw_manager.Store.Error.{ok, err, ◌>>◌, pure, sequence-inv, integrity_error}
use openclaw_manager.Store.Ports.{product_name, port_row, put_port, has_endpoint, put_endpoint}
use openclaw_manager.Store.Instances.{
  NewInstance, new_instance_row, is_allocated, unique_violation, insert_instance, claim_port,
  create_instance,
}
use openclaw_manager.Store.Ports.Records.{port_row-put_port, put_endpoint-rows, put_port-instances}

insert_instance-inv :
    (new : Instance) (db db' : Db)
    → insert_instance new db ≡ ok (tt, db')
    → (unique_violation new db.instances ≡ none)
      × (db' ≡ record db { instances = insert new db.instances; next_instance_id = suc new.id })
unfolding insert_instance
insert_instance-inv new db db' h = elim (Option-cases (unique_violation new db.instances)) [
  | inl e ↦ (e, cc (rw (e, insert_instance) at h))
  | inr (x, e) ↦ absurd (cc (rw (e, insert_instance) at h))
]

abbrev new_endpoint : Instance → ℕ → Endpoint
new_endpoint row port = record {
  instance_id = row.id;
  external_port = port;
  access_url = row.access_url;
  status = EndpointStatus.active;
}

abbrev pub new_port : Instance → ℕ → Port
new_port row port = record {
  port = port;
  instance_id = some row.id;
  status = allocated;
  released_at = none;
}

module _ (row : Instance) (now : Time) (port : ℕ) (db : Db) where
  claims :
      row.port ≡ some port
      → any (has_endpoint row.id) db.endpoints ≡ false
      → claim_port row now db
        ≡ put_port (new_port row port) (put_endpoint (new_endpoint row port) db)
  unfolding claim_port
  claims e n = rw (e, claim_port) (rw n refl)

  taken :
      row.port ≡ some port
      → any (has_endpoint row.id) db.endpoints ≡ true
      → claim_port row now db ≡ err integrity_error
  unfolding claim_port
  taken e n = rw (e, claim_port) (rw n refl)

-- What the endpoint and port of a new instance leave.
claim_port-port :
    (row : Instance) (now : Time) (port : ℕ) (db db' : Db)
    → row.port ≡ some port
    → claim_port row now db ≡ ok (tt, db')
    → (port_row db' port ≡ some (new_port row port))
      × ((p : ℕ) → p ≢ port → port_row db' p ≡ port_row db p)
      × (db'.instances ≡ db.instances)
claim_port-port row now port db db' e h =
    elim (Bool-cases (any (has_endpoint row.id) db.endpoints)) [
      | inl n ↦ absurd (cc (h, taken row now port db e n))
      | inr n ↦
          let k = sym (claims row now port db e n) ∙ h in
          let (mine, others) =
            port_row-put_port (new_port row port) (put_endpoint (new_endpoint row port) db) db' k in
          let (ports, instances) = put_endpoint-rows (new_endpoint row port) db in
          (
            mine,
            λ p ne. others p ne ∙ ports p,
            put_port-instances (new_port row port) (put_endpoint (new_endpoint row port) db) db' k
                ∙ instances,
          )
    ]

module _ (public_dir public_id : String) (now : Time) (new : NewInstance) (db db' : Db)
    (row : Instance) where
  abbrev inserted : Instance → Db
  inserted r = record db { instances = insert r db.instances; next_instance_id = suc r.id }

  create_instance-inv :
      create_instance public_dir public_id now new db ≡ ok (row, db')
      → (owner : User) × (find (λ (u : User). u.public_id == new.owner_public_id) db.users
          ≡ some owner)
        × (is_allocated db new.port ≡ false)
        × (row ≡ new_instance_row public_dir public_id now new owner db.next_instance_id)
        × (unique_violation row db.instances ≡ none)
        × (claim_port row now (inserted row) ≡ ok (tt, db'))
  unfolding create_instance
  create_instance-inv h =
      elim (Bool-cases (
        product_name new.product == ""
        || new.instance_name == ""
        || new.runtime_identifier == "")) [
          | inl e ↦ absurd (cc (rw (e, create_instance) at h))
          | inr e ↦
              elim (Option-cases
                (find (λ (u : User). u.public_id == new.owner_public_id) db.users)) [
                  | inl n ↦ absurd (cc (rw n at (rw (e, create_instance) at h)))
                  | inr (owner, n) ↦ elim (Bool-cases (is_allocated db new.port)) [
                    | inl a ↦ absurd (cc (rw a at (rw n at (rw (e, create_instance) at h))))
                    | inr a ↦
                        let r =
                          new_instance_row public_dir public_id now new owner db.next_instance_id in
                        let k = rw a at (rw n at (rw (e, create_instance) at h)) in
                        let (_, d, first, rest) =
                          sequence-inv (insert_instance r) (λ _. claim_port r now >> pure r) db db'
                            row k in
                        let (_, d', second, last) =
                          sequence-inv (claim_port r now) (λ _. pure r) d db' row rest in
                        let same : row ≡ r = ground (arith, last) in
                        let final : d' ≡ db' = ground (arith, last) in
                        let (v, inserts) = insert_instance-inv r db d first in
                        (
                          owner,
                          n,
                          a,
                          same,
                          subst (λ x. unique_violation x db.instances ≡ none) (sym same) v,
                          subst (λ x. claim_port x now (inserted x) ≡ ok (tt, db')) (sym same)
                              (subst (λ x. claim_port r now x ≡ ok (tt, db')) inserts
                                (cc (second, final))),
                        )
                  ]
                ]
        ]

  -- A creation with a port ends well only if the port was free; it leaves the port allocated to the
  -- new instance, every other port as it was, and the new instance as the only added row.
  pub create_instance-port :
      (port : ℕ)
      → new.port ≡ some port
      → create_instance public_dir public_id now new db ≡ ok (row, db')
      → (is_allocated db (some port) ≡ false)
        × (port_row db' port ≡ some (new_port row port))
        × ((p : ℕ) → p ≢ port → port_row db' p ≡ port_row db p)
        × (db'.instances ≡ insert row db.instances)
  create_instance-port port e h =
      let (owner, _, free, same, unique, claimed) = create_instance-inv h in
      let (mine, others, rows) =
        claim_port-port row now port (inserted row) db' (ap (λ (i : Instance). i.port) same ∙ e)
          claimed in
      (subst (λ o. is_allocated db o ≡ false) e free, mine, others, rows)

-- In the state that a creation with a port leaves, no creation with the same port ends well: of two
-- creations in a row with one port, the second is refused.
pub create_instance_twice :
    (public_dir first second : String) (now later : Time) (new other : NewInstance)
    (db db' db'' : Db) (row row' : Instance) (port : ℕ)
    → new.port ≡ some port
    → other.port ≡ some port
    → create_instance public_dir first now new db ≡ ok (row, db')
    → create_instance public_dir second later other db' ≢ ok (row', db'')
create_instance_twice public_dir first second now later new other db db' db'' row row' port e e' h
      h' =
    let (_, mine, _, _) = create_instance-port public_dir first now new db db' row port e h in
    let (free, _, _, _) =
      create_instance-port public_dir second later other db' db'' row' port e' h' in
    absurd (cc (rw (mine, is_allocated) at free))
