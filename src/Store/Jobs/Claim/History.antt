-- ===== src/Store/Jobs/Claim/History.antt =====
-- Every change of the jobs table is one of three steps; what no sequence of them can undo.
use openclaw_manager.Common.{
  ℕ, ◌-◌, String, true, Option, some, ◌==◌, nat_eq, string_eq, option_eq, find, insert, select, any,
  map, ◌≡◌, ap, ◌∙◌, ◌⊎◌, inl, inr, arith, find-map_fixed, find-insert, Bool-cases, Option-cases,
  eq_of_==, ne_of_==, subst,
}
use openclaw_manager.Store.Rows.{Time, Db, Job, JobStatus, Action}
use openclaw_manager.Store.Error.{ok}
use openclaw_manager.Store.Jobs.{
  has_request_id, job_row, create_execution_job, transitions, is_running, is_finished,
  update_execution_job,
}
use openclaw_manager.Store.Jobs.Transitions.{update-inv, job_row-updated_other}
use openclaw_manager.Store.Jobs.Create.{create-inv, insert_job-inv}
use openclaw_manager.Store.Jobs.Claim.Exclusive.{busy, idle, starts}
use openclaw_manager.Store.Jobs.Claim.{
  Readings, fail_interrupted, requeue_stale, fail_orphan, sweep, oldest, is_ready, start_job,
  Claimed, start_oldest, claim_next_execution_job,
}

-- One call of the three operations that write execution jobs, by whichever service.
pub data Step (s t : Db) : Type 0 where
  creates :
      (rid : String) (action : Action) (actor : Option ℕ) (target : Option String) (params : String)
      (parent : Option String) (now : Time) (job : Job)
      → create_execution_job rid action actor target params parent now s ≡ ok (job, t)
      → Step s t
  updates :
      (rid : String) (status : JobStatus) (step error output : Option String) (now : Time)
      (job : Job)
      → update_execution_job rid status step error output now s ≡ ok (job, t)
      → Step s t
  claims :
      (stale_seconds : ℕ) (now : Readings)
      → t ≡ (claim_next_execution_job stale_seconds now s).1
      → Step s t

pub data Reach (s : Db) : Db → Type 0 where
  here : Reach s s
  next : {t u : Db} → Reach s t → Step t u → Reach s u

module _ (j : Job) (h : is_finished j.status ≡ true) where
  fail_interrupted_finished : (stale now : Time) → fail_interrupted stale now j ≡ j
  unfolding fail_interrupted
  fail_interrupted_finished stale now = ground arith

  requeue_stale_finished : (stale now : Time) → requeue_stale stale now j ≡ j
  unfolding requeue_stale
  requeue_stale_finished stale now = ground arith

  fail_orphan_finished : (now : Time) → fail_orphan now j ≡ j
  unfolding fail_orphan
  fail_orphan_finished now = ground arith

  start_job_finished : (id : ℕ) (now : Time) → start_job id now j ≡ j
  unfolding start_job
  start_job_finished id now = ground arith

-- No statement of a claim writes a request id.
module _ (k : String) (j : Job) where
  key-fail_interrupted :
      (stale now : Time) → has_request_id k (fail_interrupted stale now j) ≡ has_request_id k j
  unfolding fail_interrupted
  key-fail_interrupted stale now = ground arith

  key-requeue_stale :
      (stale now : Time) → has_request_id k (requeue_stale stale now j) ≡ has_request_id k j
  unfolding requeue_stale
  key-requeue_stale stale now = ground arith

  key-fail_orphan : (now : Time) → has_request_id k (fail_orphan now j) ≡ has_request_id k j
  unfolding fail_orphan
  key-fail_orphan now = ground arith

  key-start_job : (id : ℕ) (now : Time) → has_request_id k (start_job id now j) ≡ has_request_id k j
  unfolding start_job
  key-start_job id now = ground arith

-- The jobs after a claim are those before, row by row, or those that the sweep left.
pub start_oldest-jobs :
    (now : Readings) (db : Db)
    → ((start_oldest now db).1.jobs ≡ db.jobs)
      ⊎ ((id : ℕ) × ((start_oldest now db).1.jobs ≡ map (start_job id now.claim) db.jobs))
start_oldest-jobs now db = elim (Bool-cases (any (λ (j : Job). is_running j.status) db.jobs)) [
  | inl e ↦ inl (ap (λ (r : Option Claimed × Db). r.1.jobs) (busy now db e))
  | inr e ↦ elim (Option-cases (oldest (select (is_ready db.instances) db.jobs))) [
    | inl n ↦ inl (ap (λ (r : Option Claimed × Db). r.1.jobs) (idle now db e n))
    | inr (job, n) ↦
        inr (job.id, ap (λ (r : Option Claimed × Db). r.1.jobs) (starts now db e job n))
  ]
]

finished_moves :
    (j j' : Job) (st : JobStatus)
    → is_finished j.status ≡ true
    → j' ≡ j
    → transitions j'.status st ≡ true
    → ⊥
unfolding transitions
finished_moves j j' st h e t = ground arith

module _ (k : String) (j : Job) (finished : is_finished j.status ≡ true) where
  sweep_keeps :
      (stale_seconds : ℕ) (now : Readings) (db : Db)
      → job_row db k ≡ some j
      → job_row (sweep stale_seconds now db) k ≡ some j
  unfolding sweep
  sweep_keeps stale_seconds now db h =
      let stale = now.start - stale_seconds in
      find-map_fixed (has_request_id k) (fail_orphan now.sweep) _ j
        (λ x. key-fail_orphan k x now.sweep) (fail_orphan_finished j finished now.sweep)
        (find-map_fixed (has_request_id k) (requeue_stale stale now.recover) _ j
          (λ x. key-requeue_stale k x stale now.recover)
          (requeue_stale_finished j finished stale now.recover)
          (find-map_fixed (has_request_id k) (fail_interrupted stale now.fail) db.jobs j
            (λ x. key-fail_interrupted k x stale now.fail)
            (fail_interrupted_finished j finished stale now.fail) h))

  start_oldest_keeps :
      (now : Readings) (db : Db)
      → job_row db k ≡ some j
      → job_row (start_oldest now db).1 k ≡ some j
  start_oldest_keeps now db h = elim (start_oldest-jobs now db) [
    | inl same ↦ ap (find (has_request_id k)) same ∙ h
    | inr (id, e) ↦
        ap (find (has_request_id k)) e
        ∙ find-map_fixed (has_request_id k) (start_job id now.claim) db.jobs j
            (λ x. key-start_job k x id now.claim) (start_job_finished j finished id now.claim) h
  ]

  claim_keeps :
      (stale_seconds : ℕ) (now : Readings) (db : Db)
      → job_row db k ≡ some j
      → job_row (claim_next_execution_job stale_seconds now db).1 k ≡ some j
  unfolding claim_next_execution_job
  claim_keeps stale_seconds now db h =
      start_oldest_keeps now (sweep stale_seconds now db) (sweep_keeps stale_seconds now db h)

  insert_keeps :
      (x : Job) (db : Db)
      → job_row db k ≡ some j
      → find (has_request_id k) (insert x db.jobs) ≡ some j
  insert_keeps x db h = cc (find-insert (has_request_id k) x db.jobs, h)

  Step-keeps : {s t : Db} → Step s t → job_row s k ≡ some j → job_row t k ≡ some j
  Step-keeps {s} {t} (creates rid action actor target params parent now job e) h =
      let (i, _, ins, _, _, _) = create-inv rid action actor target params parent now s t job e in
      elim (insert_job-inv rid action actor target params parent now s t i ins) [
        | inl same ↦ rw same h
        | inr more ↦ rw more (insert_keeps _ s h)
      ]
  Step-keeps {s} {t} (updates rid status step error output now job e) h =
      let (j', found, allowed, _, state) = update-inv rid status step error output now s job t e in
      elim (Bool-cases (k == rid)) [
        | inl e ↦
            let same = eq_of_== k rid e in
            let one : j' ≡ j = cc (found, subst (λ r. job_row s r ≡ some j) same h) in
            absurd (finished_moves j j' status finished one allowed)
        | inr e ↦ rw state (
            job_row-updated_other rid status step error output now s k (λ q. ne_of_== k rid e q)
            ∙ h)
      ]
  Step-keeps {s} {t} (claims stale_seconds now e) h = rw e (claim_keeps stale_seconds now s h)

  -- Once a job is finished, no sequence of creations, updates and claims, by any service and in any
  -- order, ever changes its row: a read by its request id finds exactly that row.
  pub finished_is_final : {s t : Db} → Reach s t → job_row s k ≡ some j → job_row t k ≡ some j
  finished_is_final here h = h
  finished_is_final (next r st) h = Step-keeps st (finished_is_final r h)
