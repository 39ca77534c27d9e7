-- ===== src/Store/Jobs/Claim/Oldest.antt =====
-- A claim takes the oldest of the jobs that are ready.
use openclaw_manager.Common.{
  ℕ, ◌-◌, Bool, true, false, Option, none, some, List, [], ◌∷◌, ◌==◌, nat_eq, string_eq, option_eq,
  find, select, any, map, ◌≡◌, refl, subst, sym, ap, ◌∙◌, ◌⊎◌, inl, inr, arith, All, All-map,
  All-imp, find-map, find-All, any-find, Bool-cases, Option-cases,
}
use mathlib.Core.Option
use openclaw_manager.Store.Rows.{Time, Db, Job, running, Instance}
use openclaw_manager.Store.Jobs.{is_running}
use openclaw_manager.Store.Jobs.Claim.{
  Readings, fail_interrupted, requeue_stale, fail_orphan, sweep, comes_before, oldest, is_ready,
  start_job, Claimed, read_claimed, actor_of, claim_next_execution_job,
}
use openclaw_manager.Store.Jobs.Claim.Exclusive.{busy, idle, starts}

comes_before_trans :
    (a b c : Job) → comes_before a b ≡ false → comes_before b c ≡ false → comes_before a c ≡ false
comes_before_trans a b c h k = ground arith

comes_before_asym : (a b : Job) → comes_before a b ≡ true → comes_before b a ≡ false
comes_before_asym a b h = ground arith

comes_before_irrefl : (a : Job) → comes_before a a ≡ false
comes_before_irrefl a = ground arith

-- Nothing in the list comes before the chosen row.
abbrev IsFirst : Job → List Job → Type 0
IsFirst a = All (λ (b : Job). comes_before b a ≡ false)

IsFirst-trans :
    (a b : Job) (jobs : List Job) → comes_before b a ≡ false → IsFirst b jobs → IsFirst a jobs
IsFirst-trans a b jobs h =
    All-imp _ (λ (c : Job). comes_before c a ≡ false) (λ c k. comes_before_trans c b a k h) jobs

oldest-none : (jobs : List Job) → oldest jobs ≡ none → jobs ≡ []
unfolding oldest
oldest-none [] h = refl
oldest-none (j ∷ jobs) h = absurd (cc)

oldest-IsFirst : (jobs : List Job) (a : Job) → oldest jobs ≡ some a → IsFirst a jobs
unfolding oldest
oldest-IsFirst [] a h = tt
oldest-IsFirst (j ∷ jobs) a h = elim (Option-cases (oldest jobs)) [
  | inl e ↦
      let one : j ≡ a = cc (rw e at h) in
      subst (λ x. IsFirst x (j ∷ jobs)) one
        (comes_before_irrefl j, subst (IsFirst j) (sym (oldest-none jobs e)) tt)
  | inr (b, e) ↦ elim (Bool-cases (comes_before b j)) [
    | inl t ↦
        let one : b ≡ a = cc (rw (e, t) at h) in
        subst (λ x. IsFirst x (j ∷ jobs)) one (comes_before_asym b j t, oldest-IsFirst jobs b e)
    | inr t ↦
        let one : j ≡ a = cc (rw (e, t) at h) in
        subst (λ x. IsFirst x (j ∷ jobs)) one
          (comes_before_irrefl j, IsFirst-trans j b jobs t (oldest-IsFirst jobs b e))
  ]
]

-- No two rows share their primary key.
abbrev HasUniqueIds : List Job → Type 0
HasUniqueIds [] = Unit
HasUniqueIds (j ∷ jobs) = All (λ (k : Job). (k.id == j.id) ≡ false) jobs × HasUniqueIds jobs

abbrev has_id : ℕ → Job → Bool
has_id id job = job.id == id

module _ (g : Job → Job) (keeps : (j : Job) → (g j).id ≡ j.id) where
  HasUniqueIds-map : (jobs : List Job) → HasUniqueIds jobs → HasUniqueIds (map g jobs)
  HasUniqueIds-map [] u = tt
  HasUniqueIds-map (j ∷ jobs) (fresh, u) = (
    All-map (λ (k : Job). (k.id == j.id) ≡ false) _ g (λ k h. cc (keeps k, keeps j, h)) jobs fresh,
    HasUniqueIds-map jobs u,
  )

sweep-HasUniqueIds :
    (stale_seconds : ℕ) (now : Readings) (db : Db)
    → HasUniqueIds db.jobs
    → HasUniqueIds (sweep stale_seconds now db).jobs
unfolding sweep fail_orphan requeue_stale fail_interrupted
sweep-HasUniqueIds stale_seconds now db u =
    let stale = now.start - stale_seconds in
    HasUniqueIds-map (fail_orphan now.sweep) (λ j. ground arith) _
      (HasUniqueIds-map (requeue_stale stale now.recover) (λ j. ground arith) _
        (HasUniqueIds-map (fail_interrupted stale now.fail) (λ j. ground arith) db.jobs u))

has_id_self : (a : Job) → has_id a.id a ≡ true
has_id_self a = ground arith

find_below :
    (j a : Job) (jobs : List Job)
    → All (λ (k : Job). (k.id == j.id) ≡ false) jobs
    → find (has_id a.id) jobs ≡ some a
    → find (has_id a.id) (j ∷ jobs) ≡ some a
find_below j a jobs fresh h =
    let other = find-All (λ (k : Job). (k.id == j.id) ≡ false) (has_id a.id) jobs a fresh h in
    let e : (j.id == a.id) ≡ false = ground arith in rw e h

-- The chosen row is one of the table, it passes the test, and its key finds it.
oldest_found :
    (p : Job → Bool) (jobs : List Job) (a : Job)
    → HasUniqueIds jobs
    → oldest (select p jobs) ≡ some a
    → (find (has_id a.id) jobs ≡ some a) × (p a ≡ true)
unfolding oldest
oldest_found p [] a u h = absurd (cc)
oldest_found p (j ∷ jobs) a (fresh, u) h = elim (Bool-cases (p j)) [
  | inr e ↦
      let (found, good) = oldest_found p jobs a u (rw e at h) in
      (find_below j a jobs fresh found, good)
  | inl e ↦ elim (Option-cases (oldest (select p jobs))) [
    | inl n ↦
        let one : j ≡ a = cc (rw (e, n) at h) in
        subst (λ x. (find (has_id x.id) (j ∷ jobs) ≡ some x) × (p x ≡ true)) one
          (rw (has_id_self j) refl, e)
    | inr (b, n) ↦ elim (Bool-cases (comes_before b j)) [
      | inl t ↦
          let one : b ≡ a = cc (rw (e, n, t) at h) in
          let (found, good) = oldest_found p jobs b u n in
          subst (λ x. (find (has_id x.id) (j ∷ jobs) ≡ some x) × (p x ≡ true)) one
            (find_below j b jobs fresh found, good)
      | inr t ↦
          let one : j ≡ a = cc (rw (e, n, t) at h) in
          subst (λ x. (find (has_id x.id) (j ∷ jobs) ≡ some x) × (p x ≡ true)) one
            (rw (has_id_self j) refl, e)
    ]
  ]
]

-- A row that no ready row precedes.
abbrev pub IsNextReady : List Instance → List Job → Job → Type 0
IsNextReady instances jobs job =
    (is_ready instances job ≡ true)
    × All (λ (b : Job). is_ready instances b ≡ true → comes_before b job ≡ false) jobs

All-ready :
    (p : Job → Bool) (a : Job) (jobs : List Job)
    → IsFirst a (select p jobs)
    → All (λ (b : Job). p b ≡ true → comes_before b a ≡ false) jobs
All-ready p a [] h = tt
All-ready p a (j ∷ jobs) h = elim (Bool-cases (p j)) [
  | inl e ↦ let k = rw e at h in ((λ _. k.0), All-ready p a jobs k.1)
  | inr e ↦ ((λ t. absurd (cc (e, t))), All-ready p a jobs (rw e at h))
]

is_ready-instance :
    (instances : List Instance) (job : Job)
    → is_ready instances job ≡ true
    → (i : Instance) × (find (λ (x : Instance). some x.id == job.instance_id) instances ≡ some i)
is_ready-instance instances job h = any-find _ instances (ground arith)

abbrev pub started : Time → Job → Job
started now job = record job {
  status = running;
  started_at = some now;
  heartbeat_at = some now;
  updated_at = now;
}

start_job_ready :
    (instances : List Instance) (now : Time) (job : Job)
    → is_ready instances job ≡ true
    → start_job job.id now job ≡ started now job
unfolding start_job
start_job_ready instances now job h = ground arith

id-start_job : (id : ℕ) (now : Time) (job : Job) → has_id id (start_job id now job) ≡ has_id id job
unfolding start_job
id-start_job id now job = ground arith

read_claimed_found :
    (id : ℕ) (target : Option ℕ) (t : Db) (job : Job) (i : Instance)
    → find (has_id id) t.jobs ≡ some job
    → find (λ (x : Instance). some x.id == target) t.instances ≡ some i
    → read_claimed id target t
      ≡ some (record { job = job; actor_user_public_id = actor_of t job; instance_row = i })
read_claimed_found id target t job i e n = rw (e, read_claimed) (rw n refl)

module _ (stale_seconds : ℕ) (now : Readings) (db : Db) where
  -- The outcome of a claim, where no two jobs share an id, over the table that its sweeps left.
  -- Either it returns nothing and leaves that table, and then a job is running or no queued job has
  -- an instance. Or it returns the ready job that comes first by creation time and then by id,
  -- marked as running.
  pub claim_outcome :
      HasUniqueIds db.jobs
      → ((claim_next_execution_job stale_seconds now db ≡ (none, sweep stale_seconds now db))
          × ((any (λ (j : Job). is_running j.status) (sweep stale_seconds now db).jobs ≡ true)
              ⊎ (select
                    (is_ready (sweep stale_seconds now db).instances)
                    (sweep stale_seconds now db).jobs
                  ≡ [])))
        ⊎ ((job : Job) × (c : Claimed) × ((claim_next_execution_job stale_seconds now db).0
              ≡ some c)
            × IsNextReady
                (sweep stale_seconds now db).instances
                (sweep stale_seconds now db).jobs
                job
            × (c.job ≡ started now.claim job))
  unfolding claim_next_execution_job
  claim_outcome u =
      let s = sweep stale_seconds now db in
      elim (Bool-cases (any (λ (j : Job). is_running j.status) s.jobs)) [
        | inl e ↦ inl (busy now s e, inl e)
        | inr e ↦ elim (Option-cases (oldest (select (is_ready s.instances) s.jobs))) [
          | inl n ↦ inl (idle now s e n, inr (oldest-none _ n))
          | inr (job, n) ↦
              let (found, ready) =
                oldest_found (is_ready s.instances) s.jobs job
                  (sweep-HasUniqueIds stale_seconds now db u) n in
              let (i, located) = is_ready-instance s.instances job ready in
              let t : Db = record s { jobs = map (start_job job.id now.claim) s.jobs } in
              let marked = started now.claim job in
              inr (
                job,
                record { job = marked; actor_user_public_id = actor_of t marked; instance_row = i },
                ap (λ (r : Option Claimed × Db). r.0) (starts now s e job n)
                    ∙ read_claimed_found job.id job.instance_id t marked i
                        (find-map (has_id job.id) (start_job job.id now.claim)
                            (id-start_job job.id now.claim) s.jobs
                          ∙ ap (Option.map (start_job job.id now.claim)) found
                          ∙ ap some (start_job_ready s.instances now.claim job ready))
                        located,
                (ready, All-ready (is_ready s.instances) job s.jobs (oldest-IsFirst _ job n)),
                refl,
              )
        ]
      ]
