-- ===== src/Store/Jobs/Claim.antt =====
-- `claim_next_execution_job` of services/manager-web/metadata_store.py, the scheduler's step: one
-- write transaction that ends or requeues stale jobs and then starts the oldest queued one.
pub mod Exclusive
pub mod Fresh
pub mod History
pub mod Oldest
use openclaw_manager.Common.{
  ℕ, ◌-◌, String, Bool, true, false, not, ◌&&◌, ◌||◌, Option, none, some, List, [], ◌∷◌, ◌==◌,
  nat_eq, string_eq, option_eq, if◌then◌else◌, is_some, find, when, insert, select, any, ltb, map,
}
use openclaw_manager.Store.Rows.{
  Time, Db, User, Job, JobStatus, queued, running, failed, Action, create, delete, restore,
  Instance, InstanceStatus, provisioning, Operation, OperationStatus,
}
use openclaw_manager.Store.Jobs.{is_running, is_queued}

-- The readings of the clock in the order in which the function takes them.
pub record Readings : Type 0 where
  pub start : Time
  pub fail : Time
  pub recover : Time
  pub sweep : Time
  pub claim : Time

abbrev interrupted_summary : String
interrupted_summary = "execution interrupted; manual confirmation required"

-- action IN ('instance.create', 'instance.delete', 'instance.restore')
abbrev needs_confirmation : Action → Bool
needs_confirmation create = true
needs_confirmation delete = true
needs_confirmation restore = true
needs_confirmation _ = false

-- heartbeat_at < ?; NULL is not below anything
abbrev beats_before : Time → Option Time → Bool
beats_before stale_before none = false
beats_before stale_before (some t) = ltb t stale_before

abbrev pub is_stale : Time → Job → Bool
is_stale stale_before job = is_running job.status && beats_before stale_before job.heartbeat_at

-- UPDATE … SET status = 'failed', error_summary = 'execution interrupted; …'
unfoldable pub fail_interrupted : Time → Time → Job → Job
fail_interrupted stale_before now =
    when (λ job. is_stale stale_before job && needs_confirmation job.action)
      (λ job. record job {
        status = failed;
        error_summary = some interrupted_summary;
        updated_at = now;
        finished_at = some now;
      })

abbrev pub is_failed : JobStatus → Bool
is_failed failed = true
is_failed _ = false

-- The jobs whose row says that they were interrupted.
abbrev was_interrupted : Job → Bool
was_interrupted job = is_failed job.status && job.error_summary == some interrupted_summary

-- INSERT INTO operation_records … ON CONFLICT DO NOTHING, for one selected job
unfoldable pub record_interruption : List Operation → Job → List Operation
record_interruption operations job =
    if any (λ (o : Operation). o.request_id == some job.request_id) operations
    then operations
    else insert
        (record {
          request_id = some job.request_id;
          actor = none;
          actor_user_id = job.actor_user_id;
          source_service = some "manager-executor";
          action = job.action;
          user_id = none;
          instance_id = job.instance_id;
          status = OperationStatus.failed;
          message = some interrupted_summary;
        })
        operations

unfoldable pub record_interruptions : List Job → List Operation → List Operation
record_interruptions [] operations = operations
record_interruptions (job ∷ jobs) operations = record_interruptions jobs (
    if was_interrupted job && needs_confirmation job.action
    then record_interruption operations job
    else operations)

abbrev pub is_create : Action → Bool
is_create create = true
is_create _ = false

-- id IN (SELECT instance_id FROM execution_jobs WHERE action = 'instance.create' AND …)
abbrev creation_interrupted : List Job → ℕ → Bool
creation_interrupted jobs id =
    any (λ (job : Job). is_create job.action && was_interrupted job && job.instance_id == some id)
      jobs

abbrev pub is_provisioning : InstanceStatus → Bool
is_provisioning provisioning = true
is_provisioning _ = false

unfoldable pub fail_provisioning : List Job → Time → Instance → Instance
fail_provisioning jobs now =
    when (λ instance'. is_provisioning instance'.status && creation_interrupted jobs instance'.id)
      (λ instance'. record instance' { status = InstanceStatus.failed; updated_at = now })

-- UPDATE … SET status = 'queued', current_step = 'recovered after stale heartbeat'
unfoldable pub requeue_stale : Time → Time → Job → Job
requeue_stale stale_before now = when (is_stale stale_before) (λ job. record job {
  status = queued;
  current_step = some "recovered after stale heartbeat";
  updated_at = now;
})

-- UPDATE … SET status = 'failed' WHERE status = 'queued' AND instance_id IS NULL
unfoldable pub fail_orphan : Time → Job → Job
fail_orphan now =
    when (λ job. is_queued job.status && not (is_some job.instance_id))
      (λ job. record job {
        status = failed;
        error_summary = some "instance not found";
        updated_at = now;
        finished_at = some now;
      })

-- The sweeps before a job is chosen.
unfoldable pub sweep : ℕ → Readings → Db → Db
unfolding fail_interrupted record_interruptions fail_provisioning requeue_stale fail_orphan
sweep stale_seconds now db =
    let stale_before = now.start - stale_seconds in
    let marked = map (fail_interrupted stale_before now.fail) db.jobs in
    record db {
      operations = record_interruptions marked db.operations;
      instances = map (fail_provisioning marked now.fail) db.instances;
      jobs = map (fail_orphan now.sweep) (map (requeue_stale stale_before now.recover) marked);
    }

-- ORDER BY job.created_at, job.id
abbrev pub comes_before : Job → Job → Bool
comes_before a b = ltb a.created_at b.created_at || a.created_at == b.created_at && ltb a.id b.id

abbrev earlier : Job → Option Job → Job
earlier a none = a
earlier a (some b) = if comes_before b a then b else a

-- The first row in that order.
unfoldable pub oldest : List Job → Option Job
oldest [] = none
oldest (job ∷ jobs) = some (earlier job (oldest jobs))

-- A queued job whose instance is there (the JOIN).
abbrev pub is_ready : List Instance → Job → Bool
is_ready instances job =
    is_queued job.status && any (λ (i : Instance). some i.id == job.instance_id) instances

unfoldable pub start_job : ℕ → Time → Job → Job
start_job id now =
    when (λ job. job.id == id && is_queued job.status)
      (λ job. record job {
        status = running;
        started_at = some now;
        heartbeat_at = some now;
        updated_at = now;
      })

-- The claimed job, with the public id of its actor, and its instance.
pub record Claimed : Type 0 where
  pub job : Job
  pub actor_user_public_id : Option String
  pub instance_row : Instance

abbrev pub actor_of : Db → Job → Option String
actor_of db job = elim (find (λ (u : User). some u.id == job.actor_user_id) db.users) [
  | none ↦ none
  | some u ↦ some u.public_id
]

-- The rows that the last two SELECTs read.
abbrev read_claimed : ℕ → Option ℕ → Db → Option Claimed
read_claimed id instance_id db = elim (find (λ (j : Job). j.id == id) db.jobs) [
  | none ↦ none
  | some job ↦ elim (find (λ (i : Instance). some i.id == instance_id) db.instances) [
    | none ↦ none
    | some i ↦ some (record { job = job; actor_user_public_id = actor_of db job; instance_row = i })
  ]
]

unfoldable pub start_oldest : Readings → Db → Option Claimed × Db
unfolding oldest start_job
start_oldest now db =
    if any (λ (job : Job). is_running job.status) db.jobs
    then (none, db)
    else elim (oldest (select (is_ready db.instances) db.jobs)) [
      | none ↦ (none, db)
      | some job ↦
          let db' = record db { jobs = map (start_job job.id now.claim) db.jobs } in
          (read_claimed job.id job.instance_id db', db')
    ]

unfoldable pub claim_next_execution_job : ℕ → Readings → Db → Option Claimed × Db
unfolding sweep start_oldest
claim_next_execution_job stale_seconds now db = start_oldest now (sweep stale_seconds now db)
