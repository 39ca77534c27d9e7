-- ===== src/Store/Lifecycle/Retained.antt =====
-- Deletion that keeps the instance for a restore, and the restore.
use openclaw_manager.Common.{
  ℕ, String, none, some, ◌==◌, nat_eq, string_eq, option_eq, find, rowcount, ◌≡◌, refl, ap, subst,
  ◌∙◌, inl, inr, arith, find-update_key, Bool-cases, Option-cases,
}
use openclaw_manager.Store.Rows.{
  Time, Db, Instance, active, deleted, not_applicable, restorable, Port, allocated,
}
use openclaw_manager.Store.Error.{no_conflict, ok}
use openclaw_manager.Store.Jobs.{has_public_id, instance_row}
use openclaw_manager.Store.Ports.{port_conflict, port_row, put_port, record_port}
use openclaw_manager.Store.Ports.Records.{port_row-put_port, put_port-instances}
use openclaw_manager.Store.Lifecycle.{
  Retention, delete, restore, retained, retain_rows, retain_endpoints, retain_port,
  set_instance_retention_state,
}

abbrev pub held_port : Instance → ℕ → Port
held_port i port = record {
  port = port;
  instance_id = some i.id;
  status = allocated;
  released_at = none;
}

retain_port-rows :
    (i : Instance) (now : Time) (db db' : Db)
    → retain_port i now db ≡ ok (tt, db')
    → (db'.instances ≡ db.instances)
      × ((port : ℕ) → i.port ≡ some port → port_row db' port ≡ some (held_port i port))
unfolding retain_port record_port
retain_port-rows i now db db' h = elim (Option-cases i.port) [
  | inl e ↦ (cc (rw (e, retain_port) at h), λ port k. absurd (cc (k, e)))
  | inr (q, e) ↦
      let k : put_port (held_port i q) db ≡ ok (tt, db') = rw (e, retain_port, record_port) at h in
      (
        put_port-instances (held_port i q) db db' k,
        λ port f.
            let same : q ≡ port = ground (arith, f, e) in
            subst (λ x. port_row db' x ≡ some (held_port i x)) same
              (port_row-put_port (held_port i q) db db' k).0,
      )
]

retained-fields :
    (action : Retention) (now : Time) (i : Instance)
    → ((retained action now i).public_id ≡ i.public_id)
      × ((retained action now i).id ≡ i.id)
      × ((retained action now i).port ≡ i.port)
retained-fields delete now i = (refl, refl, refl)
retained-fields restore now i = (refl, refl, refl)

module _ (public_id : String) (action : Retention) (now : Time) where
  -- What a change of the retention state leaves of the instance and of its port.
  pub set_instance_retention_state-rows :
      (db db' : Db)
      → set_instance_retention_state public_id action now db ≡ ok (tt, db')
      → (i : Instance) × (instance_row db public_id ≡ some i)
        × (instance_row db' public_id ≡ some (retained action now i))
        × ((port : ℕ) → i.port ≡ some port → port_row db' port ≡ some (held_port i port))
  unfolding set_instance_retention_state retain_rows retain_endpoints
  set_instance_retention_state-rows db db' h =
      elim (Bool-cases (rowcount (has_public_id public_id) db.instances == 1)) [
        | inr e ↦ absurd (cc (rw (e, set_instance_retention_state) at h))
        | inl e ↦
            elim (Option-cases (instance_row (retain_rows action public_id now db) public_id)) [
              | inl n ↦ absurd (cc (rw n at (rw (e, set_instance_retention_state) at h)))
              | inr (j, n) ↦
                  let k =
                    no_conflict
                      (port_conflict public_id j (retain_rows action public_id now db).instances) _
                      (tt, db') (rw n at (rw (e, set_instance_retention_state) at h)) in
                  let found =
                    find-update_key (has_public_id public_id) (retained action now)
                      (λ x q. ap (λ t. t == public_id) (retained-fields action now x).0 ∙ q)
                      db.instances in
                  elim (Option-cases (instance_row db public_id)) [
                    | inl q ↦ absurd (cc (n, found, q))
                    | inr (i, q) ↦
                        let same : retained action now i ≡ j = ground (arith, found, q, n) in
                        let (_, same_id, same_port) = retained-fields action now i in
                        let (rows, ports) =
                          retain_port-rows j now
                            (retain_endpoints action j.id (retain_rows action public_id now db)) db'
                            k in
                        (
                          i,
                          q,
                          ap (λ r. find (has_public_id public_id) r) rows ∙ cc (n, same),
                          λ port e.
                              ports port (cc (same, same_port, e))
                              ∙ ap
                                  (λ (x : ℕ). some (record {
                                    port = port;
                                    instance_id = some x;
                                    status = allocated;
                                    released_at = none;
                                  }))
                                  (cc (same, same_id)),
                        )
                  ]
            ]
      ]

-- A deletion followed by a restore, both without an error, gives the instance back as it was, but
-- for the status, which is active, the restore state, which is not applicable, and the times; in
-- between the instance is deleted and restorable, and its port stays allocated to it throughout.
pub restore-delete :
    (public_id : String) (deleted_at restored_at : Time) (db db' db'' : Db)
    → set_instance_retention_state public_id delete deleted_at db ≡ ok (tt, db')
    → set_instance_retention_state public_id restore restored_at db' ≡ ok (tt, db'')
    → (i : Instance) × (instance_row db public_id ≡ some i)
      × (instance_row db' public_id
          ≡ some (record i {
            status = deleted;
            restore_state = restorable;
            updated_at = deleted_at;
            deleted_at = some deleted_at;
          }))
      × (instance_row db'' public_id
          ≡ some (record i {
            status = active;
            restore_state = not_applicable;
            updated_at = restored_at;
            deleted_at = none;
          }))
      × ((port : ℕ)
          → i.port ≡ some port
          → (port_row db' port ≡ some (held_port i port))
            × (port_row db'' port ≡ some (held_port i port)))
restore-delete public_id deleted_at restored_at db db' db'' h k =
    let (i, found, between, ports) =
      set_instance_retention_state-rows public_id delete deleted_at db db' h in
    let (j, found', after, ports') =
      set_instance_retention_state-rows public_id restore restored_at db' db'' k in
    let same : j ≡ retained delete deleted_at i = ground (arith, found', between) in
    (
      i,
      found,
      between,
      after ∙ ap (λ x. some (retained restore restored_at x)) same,
      λ port e. (ports port e, ports' port (cc (same, e)) ∙ ap (λ x. some (held_port x port)) same),
    )
