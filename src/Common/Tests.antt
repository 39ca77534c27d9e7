-- ===== src/Common/Tests.antt =====
-- Boolean tests: on numbers, on texts, on optional values, and the conditional.
use Prim.Native.Nat.{ℕ, compare, Ordering}
use Prim.Native.String.{String}
use mathlib.Core.Path.{◌≡◌, refl, ap, subst}
use mathlib.Core.Logic.{◌⊎◌, inl, inr, ◌≢◌}
use mathlib.Core.Bool.{Bool, true, false}
use mathlib.Core.Option.{Option, none, some}
use native.Mathlib.Omega.{arith}
use text.Mathlib.Text.{◌==◌ as str_eq}
use text.Mathlib.TextEquality.{eq_iff}

abbrev pub ltb : ℕ → ℕ → Bool
ltb a b = elim (compare a b) [ Ordering.lt ↦ true | _ ↦ false ]

abbrev pub leb : ℕ → ℕ → Bool
leb a b = elim (compare a b) [ Ordering.gt ↦ false | _ ↦ true ]

abbrev nat_beq : ℕ → ℕ → Bool
nat_beq a b = elim (compare a b) [ Ordering.eq ↦ true | _ ↦ false ]

infix 1 if◌then◌else◌
abbrev pub if◌then◌else◌ {ℓ} : {A : Type ℓ} → Bool → A → A → A
if true then x else y = x
if false then x else y = y

pub nat_beq_sound : (a b : ℕ) → nat_beq a b ≡ true → a ≡ b
nat_beq_sound a b h = ground arith

pub nat_beq_refl : (a : ℕ) → nat_beq a a ≡ true
nat_beq_refl a = ground arith

pub Bool-cases : (b : Bool) → (b ≡ true) ⊎ (b ≡ false)
Bool-cases true = inl refl
Bool-cases false = inr refl

pub Option-cases {ℓ} : {A : Type ℓ} (o : Option A) → (o ≡ none) ⊎ ((a : A) × (o ≡ some a))
Option-cases none = inl refl
Option-cases (some a) = inr (a, refl)

-- What the program compares with `==`: a test, and that it decides equality in both directions.
pub record EqTest {ℓ} (T : Type ℓ) : Type ℓ where
  pub same : T → T → Bool
  pub same-sound : (x y : T) → same x y ≡ true → x ≡ y
  pub same-refl : (x : T) → same x x ≡ true

infix 50 ◌==◌
abbrev pub ◌==◌ {ℓ} : {T : Type ℓ} ⦃test : EqTest T⦄ → T → T → Bool
◌==◌ ⦃test⦄ x y = test.same x y

abbrev option_beq {ℓ} : {A : Type ℓ} → (A → A → Bool) → Option A → Option A → Bool
option_beq f none none = true
option_beq f none (some b) = false
option_beq f (some a) none = false
option_beq f (some a) (some b) = f a b

pub option_beq_sound {ℓ} :
    {A : Type ℓ} (f : A → A → Bool)
    → ((x y : A) → f x y ≡ true → x ≡ y)
    → (a b : Option A) → option_beq f a b ≡ true
    → a ≡ b
option_beq_sound f h none none _ = refl
option_beq_sound f h none (some y) k = absurd (cc k)
option_beq_sound f h (some x) none k = absurd (cc k)
option_beq_sound f h (some x) (some y) k = ap some (h x y k)

pub option_beq_refl {ℓ} :
    {A : Type ℓ} (f : A → A → Bool)
    → ((x : A) → f x x ≡ true)
    → (a : Option A) → option_beq f a a ≡ true
option_beq_refl f h none = refl
option_beq_refl f h (some x) = h x

abbrev optional_test {ℓ} : {A : Type ℓ} → EqTest A → EqTest (Option A)
optional_test e = record {
  same = option_beq e.same;
  same-sound = option_beq_sound e.same e.same-sound;
  same-refl = option_beq_refl e.same e.same-refl;
}

instance abbrev pub option_eq {ℓ} : {A : Type ℓ} ⦃e : EqTest A⦄ → EqTest (Option A)
option_eq ⦃e⦄ = optional_test e

instance abbrev pub string_eq : EqTest String
string_eq = record {
  same = str_eq;
  same-sound = λ x y. (eq_iff x y).0;
  same-refl = λ x. (eq_iff x x).1 refl;
}

instance abbrev pub nat_eq : EqTest ℕ
nat_eq = record { same = nat_beq; same-sound = nat_beq_sound; same-refl = nat_beq_refl }

pub ==_refl {ℓ} : {A : Type ℓ} ⦃e : EqTest A⦄ (a : A) → (a == a) ≡ true
==_refl ⦃e⦄ a = e.same-refl a

pub eq_of_== {ℓ} : {A : Type ℓ} ⦃e : EqTest A⦄ (a b : A) → (a == b) ≡ true → a ≡ b
eq_of_== ⦃e⦄ a b h = e.same-sound a b h

pub ne_of_== {ℓ} : {A : Type ℓ} ⦃e : EqTest A⦄ (a b : A) → (a == b) ≡ false → a ≢ b
ne_of_== ⦃e⦄ a b h p = absurd (cc (h, subst (λ x. e.same a x ≡ true) p (e.same-refl a)))

pub ==_false {ℓ} : {A : Type ℓ} ⦃e : EqTest A⦄ (a b : A) → a ≢ b → (a == b) ≡ false
==_false a b h = elim (Bool-cases (a == b)) [ inl e ↦ absurd (h (eq_of_== a b e)) | inr e ↦ e ]

-- SQL's COALESCE, and Python's `or` on optional values that are never empty.
abbrev pub coalesce {ℓ} : {A : Type ℓ} → Option A → Option A → Option A
coalesce none old = old
coalesce (some a) old = some a

abbrev pub is_some {ℓ} : {A : Type ℓ} → Option A → Bool
is_some none = false
is_some (some a) = true
