-- ===== src/Store/Ports/Records.antt =====
-- What a write of `ports` leaves of each port.
use openclaw_manager.Common.{
  ℕ, some, nat_eq, string_eq, option_eq, upsert, ◌≡◌, ◌≢◌, refl, ap, ◌∙◌, inl, inr, arith,
  find-upsert_other, find-upsert_replaced, Bool-cases, ==_refl,
}
use openclaw_manager.Store.Rows.{Db, Endpoint, Port}
use openclaw_manager.Store.Error.{ok}
use openclaw_manager.Store.Ports.{has_port, port_row, instance_exists, put_port, put_endpoint}

put_port-inv :
    (row : Port) (db db' : Db)
    → put_port row db ≡ ok (tt, db')
    → (db' ≡ record db { ports = upsert (has_port row.port) (λ _. row) row db.ports })
unfolding put_port
put_port-inv row db db' h = elim (Bool-cases (instance_exists db row.instance_id)) [
  | inl e ↦ cc (rw (e, put_port) at h)
  | inr e ↦ absurd (cc (rw (e, put_port) at h))
]

pub port_row-put_port :
    (row : Port) (db db' : Db)
    → put_port row db ≡ ok (tt, db')
    → (port_row db' row.port ≡ some row) × ((p : ℕ) → p ≢ row.port → port_row db' p ≡ port_row db p)
port_row-put_port row db db' h =
    let final = put_port-inv row db db' h in
    (
      ap (λ (d : Db). port_row d row.port) final
          ∙ find-upsert_replaced (has_port row.port) row db.ports (==_refl row.port),
      λ p ne.
          ap (λ (d : Db). port_row d p) final
          ∙ find-upsert_other (has_port p) (has_port row.port) (λ _. row) row db.ports
              (λ y e. (ground arith, ground arith)) (ground arith),
    )

-- A write of an endpoint leaves the ports and the instances alone.
pub put_endpoint-rows :
    (row : Endpoint) (db : Db)
    → ((p : ℕ) → port_row (put_endpoint row db) p ≡ port_row db p)
      × ((put_endpoint row db).instances ≡ db.instances)
unfolding put_endpoint
put_endpoint-rows row db = (λ p. refl, refl)

pub put_port-instances :
    (row : Port) (db db' : Db) → put_port row db ≡ ok (tt, db') → db'.instances ≡ db.instances
put_port-instances row db db' h = ap (λ (d : Db). d.instances) (put_port-inv row db db' h)

pub put_port-jobs : (row : Port) (db db' : Db) → put_port row db ≡ ok (tt, db') → db'.jobs ≡ db.jobs
put_port-jobs row db db' h = ap (λ (d : Db). d.jobs) (put_port-inv row db db' h)
