-- ===== src/Store/Tests.antt =====
-- Sample states of the store, and runs of its operations on them.
pub mod JobRuns
pub mod AccountRuns
pub mod InstanceRuns
use openclaw_manager.Common.{ℕ, Option, none, some, List, [], ◌∷◌, String, true, false}
use openclaw_manager.Store.Rows.{
  Db, User, UserRole, UserStatus, Instance, InstanceStatus, RestoreState, Product, hermes, openclaw,
  Job, Action, Credential, Member, MemberRole, Session, Port, PortStatus,
}
use openclaw_manager.Store.Error.{Result, ok, err}
use openclaw_manager.Store.Jobs.{new_job}

abbrev alice : User
alice = record {
  id = 1;
  public_id = "u-1";
  username = "Alice";
  normalized_username = "alice";
  role = UserRole.admin;
  status = UserStatus.active;
}

abbrev bob : User
bob = record {
  id = 2;
  public_id = "u-2";
  username = "Bob";
  normalized_username = "bob";
  role = UserRole.user;
  status = UserStatus.active;
}

abbrev box : ℕ → String → InstanceStatus → RestoreState → Option ℕ → Instance
box id public_id status restore_state port = record {
  id = id;
  public_id = public_id;
  legacy_user_id = none;
  owner_user_id = 1;
  product = hermes;
  instance_name = public_id;
  runtime_identifier = public_id;
  port = port;
  status = status;
  restore_state = restore_state;
  openclaw_version = none;
  basic_auth_enabled = true;
  access_url = none;
  admin_url = none;
  data_path = some public_id;
  nginx_conf_path = none;
  updated_at = 50;
  deleted_at = none;
}

abbrev running_box : Instance
running_box = box 1 "i-1" InstanceStatus.active RestoreState.not_applicable (some 8001)

abbrev broken_box : Instance
broken_box = box 2 "i-2" InstanceStatus.failed RestoreState.not_applicable (some 8002)

abbrev coming_box : Instance
coming_box = box 3 "i-3" InstanceStatus.provisioning RestoreState.not_applicable none

abbrev deleted_box : Instance
deleted_box = box 4 "i-4" InstanceStatus.deleted RestoreState.restorable none

abbrev start_request : Job
start_request = new_job 1 "r-1" none (some 1) (some 1) Action.start "{}" 100

abbrev password_row : Credential
password_row = record {
  user_id = 1;
  password_hash = "scrypt";
  password_changed_at = 10;
  must_change_password = false;
  failed_login_count = 0;
  locked_until = none;
}

-- An office of two people with four instances and one queued job.
abbrev pub office : Db
office = record {
  users = alice ∷ bob ∷ [];
  identities = [];
  credentials = password_row ∷ [];
  sessions = [];
  external_tokens = [];
  settings = ("active_provider", "local") ∷ [];
  instances = running_box ∷ broken_box ∷ coming_box ∷ deleted_box ∷ [];
  members = [];
  instance_credentials = [];
  endpoints = [];
  ports =
      record {
        port = 8001;
        instance_id = some 1;
        status = PortStatus.allocated;
        released_at = none;
      }
      ∷ record {
        port = 8002;
        instance_id = some 2;
        status = PortStatus.allocated;
        released_at = none;
      }
      ∷ [];
  operations = [];
  jobs = start_request ∷ [];
  next_user_id = 3;
  next_instance_id = 5;
  next_job_id = 2;
}

-- The state that an operation leaves.
abbrev left_by {ℓ} : {A : Type ℓ} → Result (A × Db) → Db
left_by (ok (_, db)) = db
left_by (err _) = office

abbrev given_by {ℓ} : {A : Type ℓ} → A → Result (A × Db) → A
given_by default (ok (a, _)) = a
given_by default (err _) = default
