-- ===== src/Store/Jobs/Listing/Empty.antt =====
-- An empty list of jobs says that no job passes the filter.
use openclaw_manager.Common.{
  ℕ, suc, Bool, false, List, [], ◌∷◌, All, select, ◌≡◌, refl, inl, inr, Bool-cases,
}
use openclaw_manager.Store.Rows.{Db, Job}
use openclaw_manager.Store.Jobs.Listing.{
  JobFilter, is_listed, precedes, place, order_by, limited, list_execution_jobs,
}

select-none {ℓ} :
    {A : Type ℓ} (q : A → Bool) (xs : List A) → select q xs ≡ [] → All (λ x. q x ≡ false) xs
select-none q [] h = tt
select-none q (x ∷ xs) h = elim (Bool-cases (q x)) [
  | inl e ↦ absurd (cc (rw e at h))
  | inr e ↦ (e, select-none q xs (rw e at h))
]

place_some :
    (newest_first : Bool) (job : Job) (jobs : List Job) → (place newest_first job jobs ≡ []) → ⊥
place_some newest_first job [] h = cc h
place_some newest_first job (other ∷ jobs) h = elim (Bool-cases (precedes newest_first other job)) [
  | inl e ↦ cc (rw e at h)
  | inr e ↦ cc (rw e at h)
]

order_by-none :
    (newest_first : Bool) (jobs : List Job) → order_by newest_first jobs ≡ [] → jobs ≡ []
order_by-none newest_first [] h = refl
order_by-none newest_first (job ∷ jobs) h =
    absurd (place_some newest_first job (order_by newest_first jobs) h)

limited-none : (n : ℕ) (jobs : List Job) → limited (suc n) jobs ≡ [] → jobs ≡ []
limited-none n [] h = refl
limited-none n (job ∷ jobs) h = absurd (cc h)

pub list_execution_jobs-none :
    (filter : JobFilter) (newest_first : Bool) (n : ℕ) (db : Db)
    → list_execution_jobs filter newest_first (suc n) db ≡ []
    → All (λ job. is_listed filter db job ≡ false) db.jobs
unfolding list_execution_jobs
list_execution_jobs-none filter newest_first n db h = select-none (is_listed filter db) db.jobs (
    order_by-none newest_first (select (is_listed filter db) db.jobs)
      (limited-none n (order_by newest_first (select (is_listed filter db) db.jobs)) h))
