-- ===== src/Store/Jobs/Listing/Order.antt =====
-- What a list of jobs holds, and in which order.
use openclaw_manager.Common.{
  ℕ, zero, suc, ◌≤◌, ◌<◌, Bool, true, false, List, [], ◌∷◌, ◌++◌, nat_eq, select, length, ◌≡◌, ◌≢◌,
  ◌⊎◌, ◌↔◌, refl, sym, ap, subst, inl, inr, arith, All, All-imp, Bool-cases,
}
use mathlib.Core.List.{Perm}
use mathlib.Core.List.Perm
use openclaw_manager.Store.Rows.{Db, Job}
use openclaw_manager.Store.Jobs.Listing.{
  JobFilter, is_listed, precedes, place, order_by, limited, list_execution_jobs,
}
use openclaw_manager.Store.Jobs.Listing.Filter.{IsListed, is_listed-IsListed}

-- Created earlier, or at the same time with no greater id.
abbrev pub IsOlder : Job → Job → Type 0
IsOlder a b = (a.created_at < b.created_at) ⊎ ((a.created_at ≡ b.created_at) × (a.id ≤ b.id))

abbrev pub MayPrecede : Bool → Job → Job → Type 0
MayPrecede true a b = IsOlder b a
MayPrecede false a b = IsOlder a b

-- Every job of the list may stand before all that follow it.
abbrev pub IsOrdered : Bool → List Job → Type 0
IsOrdered newest_first [] = Unit
IsOrdered newest_first (job ∷ jobs) =
    All (MayPrecede newest_first job) jobs × IsOrdered newest_first jobs

-- A list of at most so many jobs of a table: the jobs that pass the filter are those of the list and
-- a rest, which stands behind it in the order and is empty unless the list is full.
abbrev pub IsListing : JobFilter → Bool → ℕ → Db → List Job → Type 0
IsListing filter newest_first limit db jobs =
    (rest : List Job) × Perm (jobs ++ rest) (select (is_listed filter db) db.jobs)
    × IsOrdered newest_first (jobs ++ rest)
    × (length jobs ≤ limit)
    × (rest ≢ [] → length jobs ≡ limit)

precedes_sound :
    (newest_first : Bool) (a b : Job)
    → precedes newest_first a b ≡ true
    → MayPrecede newest_first a b
precedes_sound true a b h = ground (arith, h)
precedes_sound false a b h = ground (arith, h)

precedes_complete :
    (newest_first : Bool) (a b : Job)
    → precedes newest_first a b ≡ false
    → MayPrecede newest_first b a
precedes_complete true a b h = ground (arith, h)
precedes_complete false a b h = ground (arith, h)

IsOlder-trans : (a b c : Job) → IsOlder a b → IsOlder b c → IsOlder a c
IsOlder-trans a b c h k = ground (arith, h, k)

MayPrecede-trans :
    (newest_first : Bool) (a b c : Job)
    → MayPrecede newest_first a b
    → MayPrecede newest_first b c
    → MayPrecede newest_first a c
MayPrecede-trans true a b c h k = IsOlder-trans c b a k h
MayPrecede-trans false a b c h k = IsOlder-trans a b c h k

abbrev unlisted : ℕ → List Job → List Job
unlisted zero jobs = jobs
unlisted (suc n) [] = []
unlisted (suc n) (job ∷ jobs) = unlisted n jobs

limited-unlisted : (n : ℕ) (jobs : List Job) → limited n jobs ++ unlisted n jobs ≡ jobs
limited-unlisted zero jobs = refl
limited-unlisted (suc n) [] = refl
limited-unlisted (suc n) (job ∷ jobs) = ap (λ xs. job ∷ xs) (limited-unlisted n jobs)

length-limited : (n : ℕ) (jobs : List Job) → length (limited n jobs) ≤ n
length-limited zero jobs = omega arith
length-limited (suc n) [] = omega arith
length-limited (suc n) (x ∷ xs) = let h = length-limited n xs in omega arith

length-limited_full : (n : ℕ) (jobs : List Job) → unlisted n jobs ≢ [] → length (limited n jobs) ≡ n
length-limited_full zero jobs ne = refl
length-limited_full (suc n) [] ne = absurd (ne refl)
length-limited_full (suc n) (x ∷ xs) ne = ap suc (length-limited_full n xs ne)

module _ (newest_first : Bool) where
  place-Perm : (job : Job) (jobs : List Job) → Perm (place newest_first job jobs) (job ∷ jobs)
  place-Perm job [] = Perm.refl (job ∷ [])
  place-Perm job (x ∷ xs) = elim (Bool-cases (precedes newest_first x job)) [
    | inl e ↦ rw e (Perm.trans (Perm.cons x (place-Perm job xs)) (Perm.swap job x xs))
    | inr e ↦ rw e (Perm.refl (job ∷ x ∷ xs))
  ]

  order_by-Perm : (jobs : List Job) → Perm (order_by newest_first jobs) jobs
  order_by-Perm [] = Perm.refl []
  order_by-Perm (x ∷ xs) =
      Perm.trans (place-Perm x (order_by newest_first xs)) (Perm.cons x (order_by-Perm xs))

  place-All {κ} :
      (P : Job → Type κ) (job : Job) (jobs : List Job)
      → P job
      → All P jobs
      → All P (place newest_first job jobs)
  place-All P job [] p _ = (p, tt)
  place-All P job (x ∷ xs) p (q, qs) = elim (Bool-cases (precedes newest_first x job)) [
    | inl e ↦ rw e (q, place-All P job xs p qs)
    | inr e ↦ rw e (p, (q, qs))
  ]

  place-IsOrdered :
      (job : Job) (jobs : List Job)
      → IsOrdered newest_first jobs
      → IsOrdered newest_first (place newest_first job jobs)
  place-IsOrdered job [] _ = (tt, tt)
  place-IsOrdered job (x ∷ xs) (first, ordered) = elim (Bool-cases (precedes newest_first x job)) [
    | inl e ↦ rw e (
      place-All (MayPrecede newest_first x) job xs (precedes_sound newest_first x job e) first,
      place-IsOrdered job xs ordered,
    )
    | inr e ↦
        let before = precedes_complete newest_first x job e in
        rw e (
          (
            before,
            All-imp _ (MayPrecede newest_first job)
                (λ l k. MayPrecede-trans newest_first job x l before k) xs first,
          ),
          (first, ordered),
        )
  ]

  order_by-IsOrdered : (jobs : List Job) → IsOrdered newest_first (order_by newest_first jobs)
  order_by-IsOrdered [] = tt
  order_by-IsOrdered (x ∷ xs) = place-IsOrdered x (order_by newest_first xs) (order_by-IsOrdered xs)

-- A list of jobs holds the first so many, up to the limit, of all the jobs that pass the filter, in
-- the order of their creation and then of their ids, oldest or newest first as asked: none but these
-- jobs, each as often as in the table, and none is left out that would stand before one of the list,
-- nor any at all while the list is not full. A job passes exactly if every argument that is given
-- holds of it.
pub list_execution_jobs-IsListing :
    (filter : JobFilter) (newest_first : Bool) (limit : ℕ) (db : Db)
    → IsListing filter newest_first limit db (list_execution_jobs filter newest_first limit db)
      × ((job : Job) → (is_listed filter db job ≡ true) ↔ IsListed filter db job)
unfolding list_execution_jobs
list_execution_jobs-IsListing filter newest_first limit db =
    let chosen = select (is_listed filter db) db.jobs in
    let sorted = order_by newest_first chosen in
    let whole = limited-unlisted limit sorted in
    (
      (
        unlisted limit sorted,
        subst (λ xs. Perm xs chosen) (sym whole) (order_by-Perm newest_first chosen),
        subst (IsOrdered newest_first) (sym whole) (order_by-IsOrdered newest_first chosen),
        length-limited limit sorted,
        length-limited_full limit sorted,
      ),
      is_listed-IsListed filter db,
    )
