-- ===== src/Common/Table.antt =====
-- A table is the list of its rows, oldest first. The four kinds of statement that the program
-- issues: the first row that passes a test, UPDATE and DELETE under a WHERE, and INSERT at the end.
use Prim.Native.Nat.{ℕ}
use mathlib.Core.Path.{◌≡◌, refl, subst, ◌∙◌, ap}
use mathlib.Core.Bool.{Bool, true, false}
use mathlib.Core.Logic.{inl, inr}
use mathlib.Core.Option
use mathlib.Core.Option.{Option, none, some}
use mathlib.Core.List.{List, [], ◌∷◌, ◌++◌, map}
use native.Mathlib.Omega.{arith}
use openclaw_manager.Common.Tests.{if◌then◌else◌, Bool-cases, Option-cases}
use openclaw_manager.Common.Lists.{All, any, length}

module _ {ℓ} {A : Type ℓ} where
  abbrev pub find : (A → Bool) → List A → Option A
  find p [] = none
  find p (x ∷ xs) = if p x then some x else find p xs

  abbrev pub when : (A → Bool) → (A → A) → A → A
  when q f x = if q x then f x else x

  abbrev pub update_where : (A → Bool) → (A → A) → List A → List A
  update_where q f = map (when q f)

  abbrev pub delete_where : (A → Bool) → List A → List A
  delete_where q [] = []
  delete_where q (x ∷ xs) = let rest = delete_where q xs in if q x then rest else x ∷ rest

  abbrev pub select : (A → Bool) → List A → List A
  select q [] = []
  select q (x ∷ xs) = let rest = select q xs in if q x then x ∷ rest else rest

  abbrev pub insert : A → List A → List A
  insert x xs = xs ++ x ∷ []

  -- The `rowcount` of an UPDATE or DELETE.
  abbrev pub rowcount : (A → Bool) → List A → ℕ
  rowcount q xs = length (select q xs)

  -- INSERT … ON CONFLICT DO UPDATE: the conflicting row is rewritten, or the new one is added.
  abbrev pub upsert : (A → Bool) → (A → A) → A → List A → List A
  upsert q f x xs = if any q xs then update_where q f xs else insert x xs

  pub when_keeps {κ} :
      (P : A → Type κ) (q : A → Bool) (f : A → A) (x : A) → (P x → P (f x)) → P x → P (when q f x)
  when_keeps P q f x h p = elim (Bool-cases (q x)) [ inl e ↦ rw e (h p) | inr e ↦ rw e p ]

  -- what an UPDATE does not write
  pub when_field {κ} :
      {B : Type κ} (field : A → B) (q : A → Bool) (f : A → A) (x : A)
      → field (f x) ≡ field x
      → field (when q f x) ≡ field x
  when_field field q f x h = elim (Bool-cases (q x)) [ inl e ↦ rw e h | inr e ↦ rw e refl ]

  pub find-map :
      (p : A → Bool) (g : A → A)
      → ((x : A) → p (g x) ≡ p x)
      → (xs : List A) → find p (map g xs) ≡ Option.map g (find p xs)
  find-map p g h [] = refl
  find-map p g h (x ∷ xs) = elim (Bool-cases (p x)) [
    | inl e ↦ rw (h x, e) refl
    | inr e ↦ rw (h x, e) (find-map p g h xs)
  ]

  -- a row that the rewriting leaves alone is found where it was
  pub find-map_fixed :
      (p : A → Bool) (g : A → A) (xs : List A) (x : A)
      → ((y : A) → p (g y) ≡ p y)
      → g x ≡ x
      → find p xs ≡ some x
      → find p (map g xs) ≡ some x
  find-map_fixed p g xs x h fixed found = cc (find-map p g h xs, found, fixed)

  pub find_sound : (p : A → Bool) (xs : List A) (a : A) → find p xs ≡ some a → p a ≡ true
  find_sound p [] a h = cc
  find_sound p (x ∷ xs) a h = ground (arith, find_sound p xs a)

  pub find-All {κ} :
      (P : A → Type κ) (p : A → Bool) (xs : List A) (a : A) → All P xs → find p xs ≡ some a → P a
  find-All P p [] a _ h = absurd (cc)
  find-All P p (x ∷ xs) a (px, pxs) h = elim (Bool-cases (p x)) [
    | inl e ↦ subst P (cc (e, h)) px
    | inr e ↦ find-All P p xs a pxs (cc (e, h))
  ]

  -- an UPDATE of the rows that a key selects, and of rows that the key does not select
  pub find-update_same :
      (p : A → Bool) (f : A → A)
      → ((x : A) → p (f x) ≡ p x)
      → (xs : List A) → find p (update_where p f xs) ≡ Option.map f (find p xs)
  find-update_same p f h [] = refl
  find-update_same p f h (x ∷ xs) = elim (Bool-cases (p x)) [
    | inl e ↦ rw (e, h x, e) refl
    | inr e ↦ rw (e, e) (find-update_same p f h xs)
  ]

  pub find-update_other :
      (p q : A → Bool) (f : A → A)
      → ((x : A) → p (f x) ≡ p x)
      → ((x : A) → p x ≡ true → q x ≡ false)
      → (xs : List A) → find p (update_where q f xs) ≡ find p xs
  find-update_other p q f h d [] = refl
  find-update_other p q f h d (x ∷ xs) = elim (Bool-cases (p x)) [
    | inl e ↦ rw (d x e, e) refl
    | inr e ↦ elim (Bool-cases (q x)) [
      | inl t ↦ rw (t, h x, e) (find-update_other p q f h d xs)
      | inr t ↦ rw (t, e) (find-update_other p q f h d xs)
    ]
  ]

  pub any-find : (p : A → Bool) (xs : List A) → any p xs ≡ true → (a : A) × (find p xs ≡ some a)
  any-find p [] h = absurd (cc)
  any-find p (x ∷ xs) h = elim (Bool-cases (p x)) [
    | inl e ↦ (x, rw e refl)
    | inr e ↦ let (a, k) = any-find p xs (rw e at h) in (a, rw e k)
  ]

  pub find-insert :
      (p : A → Bool) (x : A) (xs : List A)
      → find p (insert x xs)
        ≡ elim (find p xs) [ none ↦ if p x then some x else none | some y ↦ some y ]
  find-insert p x [] = ground arith
  find-insert p x (y ∷ ys) = ground (arith, find-insert p x ys)

  pub find-delete_where :
      (p q : A → Bool)
      → ((x : A) → q x ≡ true → p x ≡ false)
      → (xs : List A) → find p (delete_where q xs) ≡ find p xs
  find-delete_where p q h [] = refl
  find-delete_where p q h (x ∷ xs) = ground (arith, h x, find-delete_where p q h xs)

  pub All-update_where {κ} :
      (P : A → Type κ) (q : A → Bool) (f : A → A)
      → ((x : A) → P x → P (f x))
      → (xs : List A) → All P xs
      → All P (update_where q f xs)
  All-update_where P q f h [] _ = tt
  All-update_where P q f h (x ∷ xs) (p, ps) =
      (when_keeps P q f x (h x) p, All-update_where P q f h xs ps)

  pub All-delete_where {κ} :
      (P : A → Type κ) (q : A → Bool) (xs : List A) → All P xs → All P (delete_where q xs)
  All-delete_where P q [] _ = tt
  All-delete_where P q (x ∷ xs) (p, ps) = elim (Bool-cases (q x)) [
    | inl e ↦ rw e (All-delete_where P q xs ps)
    | inr e ↦ rw e (p, All-delete_where P q xs ps)
  ]

  pub any-find-none : (p : A → Bool) (xs : List A) → any p xs ≡ false → find p xs ≡ none
  any-find-none p [] h = refl
  any-find-none p (x ∷ xs) h = ground (arith, any-find-none p xs)

  -- an UPDATE of the rows under a key, where the written row is under that key as well
  pub find-update_key :
      (p : A → Bool) (f : A → A)
      → ((x : A) → p x ≡ true → p (f x) ≡ true)
      → (xs : List A) → find p (update_where p f xs) ≡ Option.map f (find p xs)
  find-update_key p f h [] = refl
  find-update_key p f h (x ∷ xs) = elim (Bool-cases (p x)) [
    | inl e ↦ rw (e, h x e) refl
    | inr e ↦ rw (e, e) (find-update_key p f h xs)
  ]

  -- an UPDATE that takes and leaves no row under a key
  pub find-update_apart :
      (p q : A → Bool) (f : A → A)
      → ((x : A) → q x ≡ true → (p x ≡ false) × (p (f x) ≡ false))
      → (xs : List A) → find p (update_where q f xs) ≡ find p xs
  find-update_apart p q f h [] = refl
  find-update_apart p q f h (x ∷ xs) = elim (Bool-cases (q x)) [
    | inl e ↦ rw (e, (h x e).0, (h x e).1) (find-update_apart p q f h xs)
    | inr e ↦ rw e (ap (λ o. if p x then some x else o) (find-update_apart p q f h xs))
  ]

  -- the row under its key after an INSERT … ON CONFLICT DO UPDATE, and the rows under other keys
  pub find-upsert_same :
      (p : A → Bool) (f : A → A) (x : A) (xs : List A)
      → ((y : A) → p y ≡ true → p (f y) ≡ true)
      → p x ≡ true
      → find p (upsert p f x xs) ≡ some (elim (find p xs) [ none ↦ x | some y ↦ f y ])
  find-upsert_same p f x xs keeps px = elim (Bool-cases (any p xs)) [
    | inl e ↦
        let (a, found) = any-find p xs e in rw e (find-update_key p f keeps xs ∙ rw found refl)
    | inr e ↦
        let missing = any-find-none p xs e in rw e (find-insert p x xs ∙ rw missing (rw px refl))
  ]

  -- where the conflicting row is replaced whole
  pub find-upsert_replaced :
      (p : A → Bool) (x : A) (xs : List A) → p x ≡ true → find p (upsert p (λ _. x) x xs) ≡ some x
  find-upsert_replaced p x xs px = elim (Option-cases (find p xs)) [
    | inl e ↦ find-upsert_same p (λ _. x) x xs (λ _ _. px) px ∙ rw e refl
    | inr (y, e) ↦ find-upsert_same p (λ _. x) x xs (λ _ _. px) px ∙ rw e refl
  ]

  pub find-upsert_other :
      (p q : A → Bool) (f : A → A) (x : A) (xs : List A)
      → ((y : A) → q y ≡ true → (p y ≡ false) × (p (f y) ≡ false))
      → p x ≡ false
      → find p (upsert q f x xs) ≡ find p xs
  find-upsert_other p q f x xs apart px = elim (Bool-cases (any q xs)) [
    | inl e ↦ rw e (find-update_apart p q f apart xs)
    | inr e ↦ rw e (find-insert p x xs ∙ ground (arith, px))
  ]

  pub find-delete_self : (p : A → Bool) (xs : List A) → find p (delete_where p xs) ≡ none
  find-delete_self p [] = refl
  find-delete_self p (x ∷ xs) = elim (Bool-cases (p x)) [
    | inl e ↦ rw e (find-delete_self p xs)
    | inr e ↦ rw (e, e) (find-delete_self p xs)
  ]

  select-any : (p : A → Bool) (xs : List A) → rowcount p xs ≡ 1 → any p xs ≡ true
  select-any p [] h = absurd (ground (arith, h))
  select-any p (x ∷ xs) h = ground (arith, h, select-any p xs)

  any-updated :
      (p q : A → Bool) (f : A → A)
      → ((x : A) → p x ≡ true → q (f x) ≡ true)
      → (xs : List A) → any p xs ≡ true
      → any q (update_where p f xs) ≡ true
  any-updated p q f h [] k = k
  any-updated p q f h (x ∷ xs) k = elim (Bool-cases (p x)) [
    | inl e ↦ rw e (rw (h x e) refl)
    | inr e ↦ ground (arith, e, any-updated p q f h xs (rw e at k))
  ]

  -- an UPDATE that finds a row leaves a row with what it has written
  pub any-update_where :
      (p q : A → Bool) (f : A → A)
      → ((x : A) → p x ≡ true → q (f x) ≡ true)
      → (xs : List A) → rowcount p xs ≡ 1
      → any q (update_where p f xs) ≡ true
  any-update_where p q f h xs e = any-updated p q f h xs (select-any p xs e)
