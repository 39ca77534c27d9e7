-- ===== src/Store/Jobs.antt =====
-- The execution jobs of services/manager-web/metadata_store.py: creation, status updates and reads.
-- `now` is the reading of `utc_now()`. The INSERT checks the foreign keys of db/schema.sql.
pub mod Claim
pub mod Listing
pub mod Rewritten
pub mod Transitions
pub mod Create
use openclaw_manager.Common.{
  ℕ, suc, String, Bool, true, false, ◌&&◌, ◌||◌, Option, none, some, ◌==◌, nat_eq, string_eq,
  option_eq, if◌then◌else◌, coalesce, is_some, find, update_where, insert, any,
}
use openclaw_manager.Store.Rows.{
  Time, Db, User, Job, JobStatus, queued, running, succeeded, failed, partial_failure, interrupted,
  cancelled, Action, create, start, stop, restart, set_basic_auth, update_version, install_skill,
  set_model_provider, refresh_devices, approve_latest_device, delete, restore, purge_deleted,
  cleanup_failed, wechat_bind, refresh_ingress, other, Instance,
}
use openclaw_manager.Store.Error.{
  Result, ok, err, Tx, request_id_and_action_required, instance_not_found, execution_job_not_found,
  request_id_already_used, invalid_job_transition, integrity_error,
}

-- The text of the column `action`.
abbrev pub action_name : Action → String
action_name create = "instance.create"
action_name start = "instance.start"
action_name stop = "instance.stop"
action_name restart = "instance.restart"
action_name set_basic_auth = "instance.set_basic_auth"
action_name update_version = "instance.update_version"
action_name install_skill = "instance.install_skill"
action_name set_model_provider = "instance.set_model_provider"
action_name refresh_devices = "instance.refresh_devices"
action_name approve_latest_device = "instance.approve_latest_device"
action_name delete = "instance.delete"
action_name restore = "instance.restore"
action_name purge_deleted = "instance.purge_deleted"
action_name cleanup_failed = "instance.cleanup_failed"
action_name wechat_bind = "instance.wechat_bind"
action_name refresh_ingress = "instance.refresh_ingress"
action_name (other text) = text

abbrev pub has_request_id : String → Job → Bool
has_request_id request_id job = job.request_id == request_id

abbrev pub has_public_id : String → Instance → Bool
has_public_id public_id instance' = instance'.public_id == public_id

-- SELECT * FROM execution_jobs WHERE request_id = ?
abbrev pub job_row : Db → String → Option Job
job_row db request_id = find (has_request_id request_id) db.jobs

abbrev pub instance_row : Db → String → Option Instance
instance_row db public_id = find (has_public_id public_id) db.instances

-- The id of the instance that the caller names, if any; an unknown one raises.
unfoldable pub resolve_instance : Option String → Db → Result (Option ℕ)
resolve_instance none db = ok none
resolve_instance (some public_id) db = elim (instance_row db public_id) [
  | none ↦ err instance_not_found
  | some instance' ↦ ok (some instance'.id)
]

-- The foreign keys of the inserted row; a job may name itself as its parent.
abbrev references_exist : Db → String → Option String → Option ℕ → Bool
references_exist db request_id parent actor =
    elim parent [ none ↦ true | some p ↦ p == request_id || any (has_request_id p) db.jobs ]
    && elim actor [ none ↦ true | some a ↦ any (λ (u : User). u.id == a) db.users ]

abbrev pub same_operation : Job → Action → Option ℕ → Option ℕ → String → Option String → Bool
same_operation job action actor instance_id params_json parent =
    action_name job.action == action_name action
    && job.actor_user_id == actor
    && job.instance_id == instance_id
    && job.params_json == params_json
    && job.parent_request_id == parent

abbrev pub new_job : ℕ → String → Option String → Option ℕ → Option ℕ → Action → String → Time → Job
new_job id request_id parent actor instance_id action params_json now = record {
  id = id;
  request_id = request_id;
  parent_request_id = parent;
  actor_user_id = actor;
  instance_id = instance_id;
  action = action;
  params_json = params_json;
  status = queued;
  current_step = none;
  heartbeat_at = none;
  error_summary = none;
  output = none;
  created_at = now;
  updated_at = now;
  started_at = none;
  finished_at = none;
}

-- INSERT … ON CONFLICT(request_id) DO NOTHING
unfoldable pub insert_job :
    String → Option String → Option ℕ → Option ℕ → Action → String → Time → Db → Result Db
insert_job request_id parent actor instance_id action params_json now db =
    if is_some (job_row db request_id)
    then ok db
    else if references_exist db request_id parent actor
    then ok (record db {
      jobs =
          insert (new_job db.next_job_id request_id parent actor instance_id action params_json now)
            db.jobs;
      next_job_id = suc db.next_job_id;
    })
    else err integrity_error

-- The row that is there after the INSERT must be the requested operation.
unfoldable pub check_job :
    String → Option String → Option ℕ → Option ℕ → Action → String → Db → Result (Job × Db)
check_job request_id parent actor instance_id action params_json db = elim (job_row db request_id) [
  | none ↦ err execution_job_not_found
  | some job ↦
      if same_operation job action actor instance_id params_json parent
      then ok (job, db)
      else err request_id_already_used
]

unfoldable pub create_execution_job :
    String → Action → Option ℕ → Option String → String → Option String → Time → Tx Job
unfolding resolve_instance insert_job check_job
create_execution_job request_id action actor instance_public_id params_json parent now db =
    if request_id == "" || action_name action == ""
    then err request_id_and_action_required
    else elim (resolve_instance instance_public_id db) [
      | err e ↦ err e
      | ok instance_id ↦
          elim (insert_job request_id parent actor instance_id action params_json now db) [
            | err e ↦ err e
            | ok db' ↦ check_job request_id parent actor instance_id action params_json db'
          ]
    ]

-- `status in transitions.get(job["status"], set())`
unfoldable pub transitions : JobStatus → JobStatus → Bool
transitions queued running = true
transitions queued cancelled = true
transitions running running = true
transitions running succeeded = true
transitions running failed = true
transitions running partial_failure = true
transitions running interrupted = true
transitions running cancelled = true
transitions _ _ = false

abbrev pub is_running : JobStatus → Bool
is_running running = true
is_running _ = false

abbrev is_queued : JobStatus → Bool
is_queued queued = true
is_queued _ = false

-- The statuses that end a job.
abbrev pub is_finished : JobStatus → Bool
is_finished succeeded = true
is_finished failed = true
is_finished partial_failure = true
is_finished interrupted = true
is_finished cancelled = true
is_finished _ = false

-- The columns that the UPDATE writes.
unfoldable pub written_job :
    JobStatus → Option String → Option String → Option String → Time → Job → Job
written_job status current_step error_summary output now job = record job {
  status = status;
  current_step = coalesce current_step job.current_step;
  heartbeat_at = if is_running status then some now else job.heartbeat_at;
  error_summary = coalesce error_summary job.error_summary;
  output = coalesce output job.output;
  updated_at = now;
  started_at = coalesce job.started_at (if is_running status then some now else none);
  finished_at = if is_finished status then some now else none;
}

unfoldable pub update_execution_job :
    String → JobStatus → Option String → Option String → Option String → Time → Tx Job
unfolding transitions written_job
update_execution_job request_id status current_step error_summary output now db =
    elim (job_row db request_id) [
      | none ↦ err execution_job_not_found
      | some job ↦
          if transitions job.status status
          then ok (
            written_job status current_step error_summary output now job,
            record db {
              jobs =
                  update_where (has_request_id request_id)
                    (written_job status current_step error_summary output now) db.jobs;
            },
          )
          else err (invalid_job_transition job.status status)
    ]
