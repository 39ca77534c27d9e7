-- ===== src/Store/Jobs/Claim/Exclusive.antt =====
-- At most one job runs after a claim.
use openclaw_manager.Common.{
  ℕ, String, true, false, Option, none, some, List, [], ◌∷◌, ◌==◌, nat_eq, string_eq, option_eq,
  find, select, any, map, ◌≡◌, refl, subst, sym, ap, ◌∙◌, inl, inr, arith, All, All-map, find_sound,
  Bool-cases, Option-cases, eq_of_==,
}
use mathlib.Core.Option
use openclaw_manager.Store.Rows.{Time, Db, Job, Instance}
use openclaw_manager.Store.Jobs.{is_running}
use openclaw_manager.Store.Jobs.Claim.{
  Readings, sweep, oldest, is_ready, start_job, Claimed, read_claimed, actor_of, start_oldest,
  claim_next_execution_job,
}

module _ (now : Readings) (db : Db) where
  pub busy :
      any (λ (j : Job). is_running j.status) db.jobs ≡ true → start_oldest now db ≡ (none, db)
  unfolding start_oldest
  busy e = rw (e, start_oldest) refl

  pub idle :
      any (λ (j : Job). is_running j.status) db.jobs ≡ false
      → oldest (select (is_ready db.instances) db.jobs) ≡ none
      → start_oldest now db ≡ (none, db)
  unfolding start_oldest
  idle e n = rw (e, n, start_oldest) refl

  pub starts :
      any (λ (j : Job). is_running j.status) db.jobs ≡ false
      → (job : Job) → oldest (select (is_ready db.instances) db.jobs) ≡ some job
      → start_oldest now db ≡ (
        read_claimed job.id job.instance_id
            (record db { jobs = map (start_job job.id now.claim) db.jobs }),
        record db { jobs = map (start_job job.id now.claim) db.jobs },
      )
  unfolding start_oldest
  starts e job n = rw (e, n, start_oldest) refl

  -- What a claim that returns a job has found in the table.
  start_oldest-inv :
      (c : Claimed)
      → (start_oldest now db).0 ≡ some c
      → (job : Job) × (any (λ (j : Job). is_running j.status) db.jobs ≡ false)
        × (oldest (select (is_ready db.instances) db.jobs) ≡ some job)
        × ((start_oldest now db).1 ≡ record db { jobs = map (start_job job.id now.claim) db.jobs })
        × (read_claimed job.id job.instance_id (start_oldest now db).1 ≡ some c)
  unfolding start_oldest
  start_oldest-inv c h = elim (Bool-cases (any (λ (j : Job). is_running j.status) db.jobs)) [
    | inl e ↦ absurd (cc (ap (λ (r : Option Claimed × Db). r.0) (busy e), h))
    | inr e ↦ elim (Option-cases (oldest (select (is_ready db.instances) db.jobs))) [
      | inl n ↦ absurd (cc (ap (λ (r : Option Claimed × Db). r.0) (idle e n), h))
      | inr (job, n) ↦ (
        job,
        e,
        n,
        ap (λ (r : Option Claimed × Db). r.1) (starts e job n),
        rw (starts e job n) (sym (ap (λ (r : Option Claimed × Db). r.0) (starts e job n)) ∙ h),
      )
    ]
  ]

idle_rows :
    (jobs : List Job)
    → any (λ (j : Job). is_running j.status) jobs ≡ false
    → All (λ (j : Job). is_running j.status ≡ false) jobs
idle_rows [] h = tt
idle_rows (j ∷ jobs) h = (ground arith, idle_rows jobs (ground arith))

start_job_alone :
    (id : ℕ) (now : Time) (j : Job)
    → is_running j.status ≡ false
    → is_running (start_job id now j).status ≡ true
    → (start_job id now j).id ≡ id
unfolding start_job
start_job_alone id now j h = ground arith

claimed_job :
    (j : Job) (actor : Option String) (x : Instance) (c : Claimed)
    → some (record { job = j; actor_user_public_id = actor; instance_row = x }) ≡ some c
    → c.job ≡ j
claimed_job j actor x c h =
    cc (ap (λ (o : Option Claimed). Option.map (λ (d : Claimed). d.job) o) h)

read_claimed_id :
    (id : ℕ) (i : Option ℕ) (db : Db) (c : Claimed) → read_claimed id i db ≡ some c → c.job.id ≡ id
read_claimed_id id i db c h = elim (Option-cases (find (λ (j : Job). j.id == id) db.jobs)) [
  | inl e ↦ absurd (cc (rw (e, read_claimed) at h))
  | inr (j, e) ↦ elim (Option-cases (find (λ (x : Instance). some x.id == i) db.instances)) [
    | inl n ↦ absurd (cc (rw (n) at (rw (e, read_claimed) at h)))
    | inr (x, n) ↦
        let same : some (record { job = j; actor_user_public_id = actor_of db j; instance_row = x })
            ≡ some c =
          rw (n) at (rw (e, read_claimed) at h) in
        ap (λ (y : Job). y.id) (claimed_job j (actor_of db j) x c same)
        ∙ eq_of_== j.id id (find_sound (λ (y : Job). y.id == id) db.jobs j e)
  ]
]

module _ (stale_seconds : ℕ) (now : Readings) (db : Db) (c : Claimed) where
  -- When a claim returns a job, no other job is running in the state that it leaves.
  pub claim_is_exclusive :
      (claim_next_execution_job stale_seconds now db).0 ≡ some c
      → All
          (λ (j : Job). is_running j.status ≡ true → j.id ≡ c.job.id)
          (claim_next_execution_job stale_seconds now db).1.jobs
  unfolding claim_next_execution_job
  claim_is_exclusive h =
      let (job, idle_before, _, state, read) =
        start_oldest-inv now (sweep stale_seconds now db) c h in
      let same =
        read_claimed_id job.id job.instance_id (start_oldest now (sweep stale_seconds now db)).1 c
          read in
      subst (λ (d : Db). All (λ (j : Job). is_running j.status ≡ true → j.id ≡ c.job.id) d.jobs)
        (sym state)
        (subst
          (λ (k : ℕ).
            All (λ (j : Job). is_running j.status ≡ true → j.id ≡ k)
              (map (start_job job.id now.claim) (sweep stale_seconds now db).jobs))
          (sym same)
          (All-map _ _ (start_job job.id now.claim) (λ j. start_job_alone job.id now.claim j)
            (sweep stale_seconds now db).jobs (idle_rows _ idle_before)))
