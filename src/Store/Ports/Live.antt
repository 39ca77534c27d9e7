-- ===== src/Store/Ports/Live.antt =====
-- The unique index on the ports of live instances.
use openclaw_manager.Common.{
  ℕ, true, false, some, List, [], ◌∷◌, ◌==◌, nat_eq, string_eq, option_eq, All, ◌≡◌, ◌≢◌, refl, ap,
  ◌∙◌, arith, ==_refl, ==_false,
}
use openclaw_manager.Store.Rows.{Instance, InstanceStatus, deleted}
use openclaw_manager.Store.Ports.{holds_port, takes_port, port_conflict}

-- No other instance but a deleted one has the port of this one.
abbrev pub IsSoleHolder : Instance → List Instance → Type 0
IsSoleHolder new rows =
    All
      (λ (row : Instance).
        row.public_id ≢ new.public_id
        → (port : ℕ) → new.port ≡ some port
        → row.port ≡ some port
        → row.status ≡ deleted)
      rows

holds_port-false : (s : InstanceStatus) → holds_port s ≡ false → s ≡ deleted
holds_port-false deleted h = refl
holds_port-false _ h = absurd (cc h)

takes_port-false :
    (new row : Instance) (port : ℕ)
    → takes_port new.port new.status row ≡ false
    → holds_port new.status ≡ true
    → new.port ≡ some port
    → row.port ≡ some port
    → row.status ≡ deleted
takes_port-false new row port t live e f =
    let same : (row.port == some port) ≡ true = ap (λ o. o == some port) f ∙ ==_refl (some port) in
    holds_port-false row.status (ground (arith, rw e at t, live, same))

pub port_conflict-IsSoleHolder :
    (new : Instance) (rows : List Instance)
    → holds_port new.status ≡ true
    → port_conflict new.public_id new rows ≡ false
    → IsSoleHolder new rows
port_conflict-IsSoleHolder new [] live h = tt
port_conflict-IsSoleHolder new (row ∷ rows) live h = (
  λ ne port e f.
      takes_port-false new row port (ground (arith, h, ==_false row.public_id new.public_id ne))
        live e f,
  port_conflict-IsSoleHolder new rows live (ground (arith, h)),
)
