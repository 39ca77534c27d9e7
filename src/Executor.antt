-- ===== src/Executor.antt =====
-- services/manager-executor/executor.py: the worker, which runs one job at a time. What it asks of
-- manager-control, of the product adapters and of Docker changes a world that is not modelled: each
-- such call is a function of `Services`, which returns a value or raises.
pub mod Calls
pub mod Binding
pub mod Creation
pub mod Actions
pub mod Run
pub mod Settled
pub mod Branches
pub mod Installer
pub mod Outcome
pub mod Limits
pub mod Tests
use openclaw_manager.Common.{ℕ, String, Bool, Option, List}
use openclaw_manager.Json.{Value, Fields}
use openclaw_manager.Store.Rows.{InstanceStatus, RestoreState, Product, Action, JobStatus}

-- The body of a report to manager-control.
pub record Update : Type 0 where
  pub status : JobStatus
  pub current_step : Option String
  pub error_summary : Option String
  pub output : Option String
  pub result : Option Fields

-- The parts of a claimed job and of its instance that the worker reads.
pub record ClaimedJob : Type 0 where
  pub request_id : String
  pub action : Action
  pub params : Fields

pub record ClaimedInstance : Type 0 where
  pub product : Product
  pub status : InstanceStatus
  pub restore_state : RestoreState
  pub access_role : Option String
  pub basic_auth_enabled : Bool

-- The calls that return a code and an output: a method of an adapter, or a command that it runs. What
-- such a method runs itself is behind it.
pub data Command : Type 0 where
  run_cleanup_failed run_refresh_devices run_approve_latest_device : Command
  run_delete run_purge_deleted run_start run_stop run_restart : Command
  compose_up connect_networks reload_nginx : Command
  configure_created rollback_by_delete rollback_by_script : Command
  -- the version, whether Basic Auth is on, and the password
  run_create : Option Value → Bool → String → Command
  -- whether the adapter may make a client of the Hermes bridge
  run_restore : Bool → Command
  run_set_basic_auth : Value → Command
  run_configure_ingress : Option Value → Command
  run_update_version : Value → Value → Command
  run_install_skill : Value → Command
  run_set_model_provider : Value → Value → Value → Value → Command

pub data Try {ℓ} (A : Type ℓ) : Type ℓ where
  returned : A → Try A
  -- the text of the exception
  raised : String → Try A

-- What the process of a binding to WeChat writes until it ends: an empty wait or a line. Then its
-- code and the rest of its output; `timeout 300s` ends it.
pub record Process : Type 0 where
  pub lines : List (Option String)
  pub code : ℕ
  pub rest : String

pub record Services (W : Type 0) : Type 0 where
  -- POST .../claim
  pub claim : W → Try (Option (ClaimedJob × ClaimedInstance)) × W
  -- PATCH: none, or the text of the exception
  pub send : Update → W → Option String × W
  -- GET of the job's status, none where the call raises
  pub read_status : W → Option String × W
  pub command : Command → W → Try (ℕ × String) × W
  -- whether the adapter can be made
  pub make_adapter : W → Try (Unit {0}) × W
  -- `adapter.status(instance)`
  pub status_text : W → Try String × W
  pub read_runtime_target : W → Try (Unit {0}) × W
  pub read_runtime_instance : W → Try ClaimedInstance × W
  pub consume_secret : Value → W → Try String × W
  pub describe_creation : W → Try Fields × W
  -- `instance.pop("_hermes_auth_client_created", False)`
  pub pop_client_created : W → Bool × W
  pub delete_hermes_client : W → Try (Unit {0}) × W
  pub open_process : W → Try Process × W
  pub wait_process : W → Try (Unit {0}) × W
  pub stop_process : W → Try (Unit {0}) × W
  pub kill_installer : W → Try (Unit {0}) × W

-- Functions on texts: `output[-MAX_OUTPUT_LENGTH:]`, sanitize_creation_error, `rstrip`, the search
-- for WECHAT_URL_RE, and `str.startswith("Up")`.
pub record Texts : Type 0 where
  pub tail : String → String
  pub sanitize : String → String → String
  pub rstrip : String → String
  pub find_url : String → Option String
  -- an attempt's number, as text
  pub number : ℕ → String

-- What manager-control has been told and has answered, latest first.
pub data Event : Type 0 where
  sent : Update → Event
  -- it raised
  rejected : Update → Event
  -- it answered that the job is cancelled
  saw_cancelled : Event

pub record State (W : Type 0) : Type 0 where
  pub world : W
  pub events : List Event
  pub commands : List Command

abbrev pub M {ℓ} : Type 0 → Type ℓ → Type ℓ
M W A = State W → Try A × State W

module _ {ℓ} {W : Type 0} {A : Type ℓ} where
  abbrev pub give : A → M W A
  give a s = (returned a, s)

  abbrev pub throw : String → M W A
  throw text s = (raised text, s)

module _ {ℓ κ} {W : Type 0} {A : Type ℓ} {B : Type κ} where
  infixl 5 ◌>>=◌ ◌>>◌
  unfoldable pub ◌>>=◌ : M W A → (A → M W B) → M W B
  ◌>>=◌ m f s =
      let (t, s') = m s in elim t [ returned a ↦ f a s' | raised text ↦ (raised text, s') ]

  abbrev pub ◌>>◌ : M W A → M W B → M W B
  m >> k = m >>= λ _. k
