-- ===== src/Control/Updates/Audit.antt =====
-- The operation records that `update_execution_job` of services/manager-control/app.py writes when a
-- job ends.
use Prim.Native.String
use openclaw_manager.Common.{
  ℕ, String, Bool, false, Option, none, some, string_eq, if◌then◌else◌, contains, ◌≡◌, refl, ◌⊎◌,
  inl, inr,
}
use openclaw_manager.Json.{Value, Fields, get, truth}
use openclaw_manager.Store.Rows.{
  Job, JobStatus, Action, create, set_basic_auth, update_version, install_skill, set_model_provider,
  refresh_devices, approve_latest_device, delete, restore, cleanup_failed, purge_deleted,
  OperationStatus, success, skipped,
}
use openclaw_manager.Store.Error.{err, Tx, pure, key_error}
use openclaw_manager.Store.Operations.{record_operation}

-- The folding of a user name, `str(value)`, and what the database stores of a value in a column of
-- texts, which is none for a value that the driver refuses.
pub record Tools : Type 0 where
  pub normalize : String → String
  pub str : Value → String
  pub stored : Value → Option (Option String)

-- Both texts under their keys, or a KeyError.
abbrev pub join_texts : Option String → Option String → String → String → Option String
join_texts (some a) (some b) first second =
    some (String.◌++◌ first (String.◌++◌ a (String.◌++◌ second b)))
join_texts _ _ first second = none

abbrev pub labelled : String → Option String → Option String
labelled label none = none
labelled label (some t) = some (String.◌++◌ label t)

pub data Entry : Type 0 where
  -- an action that is not recorded
  unrecorded : Entry
  -- the message, or none for a KeyError
  message : Option String → Entry

-- `message`, with its spelling.
abbrev printed : (Value → String) → Option Value → Option String
printed str none = none
printed str (some value) = some (str value)

unfoldable pub message_of : (Value → String) → Action → Fields → Entry
message_of str set_basic_auth params = message (elim (get "enabled" params) [
  | none ↦ none
  | some v ↦ some (if truth v then "Basic Auth enabled" else "Basic Auth disabled")
])
message_of str update_version params =
    message (labelled "version=" (printed str (get "version" params)))
message_of str install_skill params =
    message (labelled "skill=" (printed str (get "skill_id" params)))
message_of str set_model_provider params = message (
    join_texts (printed str (get "model_provider_id" params)) (printed str (get "model_id" params))
      "provider=" " model=")
message_of str refresh_devices params = message (some "device cache refreshed")
message_of str approve_latest_device params = message (some "latest device request approved")
message_of str delete params = message (some "instance deleted")
message_of str restore params = message (some "instance restored")
message_of str cleanup_failed params = message (some "instance cleanup_failedd")
message_of str purge_deleted params = message (some "instance purge_deletedd")
message_of str _ params = unrecorded

abbrev pub no_device : String
no_device = "No pending device request found"

abbrev pub is_skipped : Action → Option String → Bool
is_skipped approve_latest_device (some output) = contains no_device output
is_skipped _ _ = false

pub Entry-cases : (e : Entry) → (e ≡ unrecorded) ⊎ ((t : Option String) × (e ≡ message t))
Entry-cases unrecorded = inl refl
Entry-cases (message t) = inr (t, refl)

-- The instance of a job that removes it is not named.
abbrev pub recorded_instance : Job → Option ℕ
recorded_instance job = elim job.action [
  | cleanup_failed ↦ none
  | purge_deleted ↦ none
  | _ ↦ job.instance_id
]

abbrev pub write_record : Tools → String → Job → OperationStatus → String → Tx (Unit {0})
write_record tools request_id job status text =
    record_operation tools.normalize job.action status none job.actor_user_id
      (recorded_instance job) (some request_id) (some "manager-executor") none (some text)

-- The record of a job that ended with a status.
unfoldable pub record_result :
    Tools → String → OperationStatus → Option String → Fields → Job → Tx (Unit {0})
unfolding message_of
record_result tools request_id status output params job =
    elim (message_of tools.str job.action params) [
      | unrecorded ↦ pure tt
      | message none ↦ λ db. err key_error
      | message (some text) ↦
          if is_skipped job.action output
          then write_record tools request_id job skipped "No pending device request found."
          else write_record tools request_id job status text
    ]

unfoldable pub record_creation : Tools → String → OperationStatus → String → Job → Tx (Unit {0})
record_creation tools request_id status text job = write_record tools request_id job status text

-- The record of a job that ended, which of a creation names no version and no skill.
unfoldable pub record_end_of :
    Tools
    → String
    → OperationStatus
    → String
    → Option String
    → Fields
    → Job
    → Action
    → Tx (Unit {0})
unfolding record_result record_creation
record_end_of tools request_id status text output params job create =
    record_creation tools request_id status text job
record_end_of tools request_id status text output params job _ =
    record_result tools request_id status output params job

-- Only the ends `succeeded` and `failed` are recorded.
unfoldable pub record_end :
    Tools → String → JobStatus → Option String → Fields → Job → Tx (Unit {0})
unfolding record_end_of
record_end tools request_id JobStatus.succeeded output params job =
    record_end_of tools request_id success "instance created" output params job job.action
record_end tools request_id JobStatus.failed output params job =
    record_end_of tools request_id OperationStatus.failed "instance creation failed" output params
      job job.action
record_end tools request_id status output params job = pure tt
