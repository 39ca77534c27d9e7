-- ===== src/Control/Updates.antt =====
-- `update_execution_job` of services/manager-control/app.py: the executor's report on a job. What
-- `json.loads` makes of the stored parameters, the texts and the column values that are made of a JSON
-- value, the folding of user names and the directory of the
-- nginx configuration are arguments. `now` and `later` are the readings of the clock for the job and
-- for the instance. The job that the handler reads a second time is the one that it has read.
pub mod Audit
pub mod Steps
pub mod Atomic
pub mod Reached
pub mod Tests
use openclaw_manager.Common.{
  String, Bool, true, false, not, ◌&&◌, Option, none, some, List, [], ◌∷◌, ◌==◌, nat_eq, string_eq,
  option_eq, if◌then◌else◌, find, all,
}
use openclaw_manager.Json.{Value, Fields, get, has_only, text_of, is_missing, truth}
use openclaw_manager.Store.Rows.{
  Time, Db, Job, JobStatus, Action, create, start, stop, restart, set_basic_auth, update_version,
  delete, restore, cleanup_failed, purge_deleted, Instance, InstanceStatus,
}
use openclaw_manager.Store.Error.{
  ok, err, Tx, ◌>>=◌, ◌>>◌, pure, instance_not_found, key_error, unstorable_value,
}
use openclaw_manager.Store.Jobs.{job_row, instance_row, update_execution_job}
use openclaw_manager.Store.Provisioning.{CreationResult, no_result, finish_instance_provisioning}
use openclaw_manager.Store.Lifecycle.{
  Retention, set_instance_basic_auth, set_instance_version, set_instance_runtime_status,
  set_instance_retention_state, purge_failed_instance, purge_deleted_instance,
}
use openclaw_manager.Control.Replies.{Reply, done, refused, fault, reply_to_error}
use openclaw_manager.Control.Creation.{
  Verdict, valid, invalid, unknown_product, check_creation, reported,
}
use openclaw_manager.Control.Updates.Audit.{Tools, record_end}

-- The status that a text names.
abbrev pub job_status : String → JobStatus
job_status name =
    if name == "queued"
    then JobStatus.queued
    else if name == "running"
    then JobStatus.running
    else if name == "succeeded"
    then JobStatus.succeeded
    else if name == "failed"
    then JobStatus.failed
    else if name == "partial_failure"
    then JobStatus.partial_failure
    else if name == "interrupted"
    then JobStatus.interrupted
    else if name == "cancelled"
    then JobStatus.cancelled
    else JobStatus.other name

abbrev pub is_succeeded : JobStatus → Bool
is_succeeded JobStatus.succeeded = true
is_succeeded _ = false

-- The instance of the LEFT JOIN in `get_execution_job`, by its public id.
abbrev pub target_of : Db → Job → Option String
target_of db job = elim (find (λ (i : Instance). some i.id == job.instance_id) db.instances) [
  | none ↦ none
  | some i ↦ some i.public_id
]

abbrev pub target_row : Db → Option String → Option Instance
target_row db none = none
target_row db (some public_id) = instance_row db public_id

-- A statement on a public id that is NULL finds no row.
abbrev pub on_target : Option String → (String → Tx (Unit {0})) → Tx (Unit {0})
on_target none change = λ db. err instance_not_found
on_target (some public_id) change = change public_id

abbrev pub raise_key_error : Tx (Unit {0})
raise_key_error db = err key_error

-- What the end of a creation writes.
unfoldable pub end_creation :
    String → JobStatus → CreationResult → Time → Option String → Tx (Unit {0})
end_creation conf_dir status result later target = elim status [
  | JobStatus.succeeded ↦
      on_target target
        (λ id. finish_instance_provisioning conf_dir id InstanceStatus.active result later)
  | JobStatus.failed ↦
      on_target target
        (λ id. finish_instance_provisioning conf_dir id InstanceStatus.failed no_result later)
  | _ ↦ pure tt
]

-- What the success of another action writes on the instance.
unfoldable pub end_success : Tools → Fields → Time → Option String → Action → Tx (Unit {0})
end_success tools params later target set_basic_auth = elim (get "enabled" params) [
  | none ↦ raise_key_error
  | some value ↦ on_target target (λ id. set_instance_basic_auth id (truth value) later)
]
end_success tools params later target update_version = elim (get "version" params) [
  | none ↦ raise_key_error
  | some value ↦ elim (tools.stored value) [
    | none ↦ λ db. err unstorable_value
    | some version ↦ on_target target (λ id. set_instance_version id version later)
  ]
]
end_success tools params later target start =
    on_target target (λ id. set_instance_runtime_status id InstanceStatus.active later)
end_success tools params later target restart =
    on_target target (λ id. set_instance_runtime_status id InstanceStatus.active later)
end_success tools params later target stop =
    on_target target (λ id. set_instance_runtime_status id InstanceStatus.stopped later)
end_success tools params later target delete =
    on_target target (λ id. set_instance_retention_state id Retention.delete later)
end_success tools params later target restore =
    on_target target (λ id. set_instance_retention_state id Retention.restore later)
end_success tools params later target cleanup_failed =
    on_target target (λ id. purge_failed_instance id later)
end_success tools params later target purge_deleted =
    on_target target (λ id. purge_deleted_instance id later)
end_success tools params later target _ = pure tt

abbrev pub is_create : Action → Bool
is_create create = true
is_create _ = false

-- What a report writes on the instance of the job.
unfoldable pub end_job :
    Tools
    → String
    → JobStatus
    → CreationResult
    → Fields
    → Time
    → Option String
    → Action
    → Tx (Unit {0})
unfolding end_creation end_success
end_job tools conf_dir status result params later target action =
    if is_create action
    then end_creation conf_dir status result later target
    else if is_succeeded status
    then end_success tools params later target action
    else pure tt

-- The fields of the report that are texts.
pub record Report : Type 0 where
  pub status : String
  pub current_step : Option String
  pub error_summary : Option String
  pub output : Option String

-- The body of the `with` block.
unfoldable pub commit_update :
    String
    → Tools
    → String
    → Report
    → CreationResult
    → Fields
    → Job
    → Option String
    → Time
    → Time
    → Tx (Unit {0})
unfolding end_job
commit_update conf_dir tools request_id report result params job target now later = do
  update_execution_job request_id (job_status report.status) report.current_step
      report.error_summary report.output now
  end_job tools conf_dir (job_status report.status) result params later target job.action
  record_end tools request_id (job_status report.status) report.output params job

abbrev pub is_optional_text : Option Value → Bool
is_optional_text (some (Value.text t)) = true
is_optional_text value = is_missing value

-- The object under "result", none where it is missing, or a value of another type.
pub data Given : Type 0 where
  no_object : Given
  object : Fields → Given
  malformed : Given

abbrev pub given : Option Value → Given
given none = no_object
given (some Value.null) = no_object
given (some (Value.obj fields)) = object fields
given (some _) = malformed

abbrev pub report_fields : List String
report_fields = "status" ∷ "current_step" ∷ "error_summary" ∷ "output" ∷ "result" ∷ []

abbrev pub reported_by : Given → CreationResult
reported_by (object fields) = reported fields
reported_by _ = no_result

-- The check of a creation's result, which is made only of a creation that succeeded.
unfoldable pub check_result : Job → Option String → String → Given → Db → Verdict
check_result job target status result db =
    if is_create job.action && status == "succeeded"
    then elim (target_row db target) [
      -- TypeError: there is no instance to read the product of
      | none ↦ unknown_product
      | some i ↦ elim result [ object fields ↦ check_creation i.product fields | _ ↦ invalid ]
    ]
    else valid

-- The reply, with the row of the job, for a report that is well formed.
unfoldable pub apply_report :
    String → Tools → (String → Fields) → String → Report → Given → Time → Time → Db → Reply Job × Db
unfolding check_result commit_update
apply_report conf_dir tools loads request_id report result now later db =
    elim (job_row db request_id) [
      | none ↦ (refused 404, db)
      | some job ↦ elim (check_result job (target_of db job) report.status result db) [
        | invalid ↦ (refused 400, db)
        | unknown_product ↦ (fault, db)
        | valid ↦
            elim (commit_update conf_dir tools request_id report (reported_by result)
              (loads job.params_json) job (target_of db job) now later db) [
                | err e ↦ (reply_to_error e, db)
                | ok (_, db') ↦ elim (job_row db' request_id) [
                  | none ↦ (fault, db')
                  | some row ↦ (done row, db')
                ]
              ]
      ]
    ]

unfoldable pub update_job :
    String → Tools → (String → Fields) → String → Fields → Time → Time → Db → Reply Job × Db
unfolding apply_report
update_job conf_dir tools loads request_id payload now later db =
    if not (has_only report_fields payload)
    then (refused 400, db)
    else elim (text_of (get "status" payload)) [
      | none ↦ (refused 400, db)
      | some status ↦
          if not (
            all (λ name. is_optional_text (get name payload))
              ("current_step" ∷ "error_summary" ∷ "output" ∷ []))
          then (refused 400, db)
          else elim (given (get "result" payload)) [
            | malformed ↦ (refused 400, db)
            | result ↦
                apply_report conf_dir tools loads request_id
                  (record {
                    status = status;
                    current_step = text_of (get "current_step" payload);
                    error_summary = text_of (get "error_summary" payload);
                    output = text_of (get "output" payload);
                  })
                  result now later db
          ]
    ]
