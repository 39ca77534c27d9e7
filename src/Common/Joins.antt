-- ===== src/Common/Joins.antt =====
-- Rows of a SELECT with joins: each table contributes a row or the whole has none.
use mathlib.Core.Path.{◌≡◌, refl}
use mathlib.Core.Bool.{Bool, true, false}
use mathlib.Core.Option.{Option, none, some}
use openclaw_manager.Common.Tests.{if◌then◌else◌}

module _ {ℓ κ} {A : Type ℓ} {B : Type κ} where
  abbrev pub join : Option A → (A → Option B) → Option B
  join none f = none
  join (some a) f = f a

  pub join-inv :
      (o : Option A) (f : A → Option B) (b : B)
      → join o f ≡ some b
      → (a : A) × (o ≡ some a) × (f a ≡ some b)
  join-inv none f b h = absurd (cc h)
  join-inv (some a) f b h = (a, refl, h)

module _ {ℓ} {A : Type ℓ} where
  -- the WHERE of the statement
  abbrev pub where_true : Bool → A → Option A
  where_true q a = if q then some a else none

  pub where_true-inv : (q : Bool) (a b : A) → where_true q a ≡ some b → (q ≡ true) × (a ≡ b)
  where_true-inv true a b h = (refl, cc h)
  where_true-inv false a b h = absurd (cc h)
