-- ===== src/Store/Rows.antt =====
-- The tables of db/schema.sql, with the columns that services/manager-web/metadata_store.py reads
-- and writes. A row id is a number. A timestamp is the number of seconds that its ISO text stands
-- for: the program writes all of them in UTC with the same layout, so texts compare as numbers do.
use openclaw_manager.Common.{ℕ, String, Bool, Option, List}

abbrev pub Time : Type 0
Time = ℕ

-- The column texts of CHECK constraints. `other` is a text that no constraint admits.
pub data UserStatus : Type 0 where
  active disabled locked deleted : UserStatus

pub data UserRole : Type 0 where
  admin user : UserRole

pub data InstanceStatus : Type 0 where
  provisioning active stopped deleted failed : InstanceStatus

pub data RestoreState : Type 0 where
  not_applicable restorable incomplete : RestoreState

pub data MemberRole : Type 0 where
  manager operator viewer : MemberRole
  other : String → MemberRole

pub data EndpointStatus : Type 0 where
  active inactive failed : EndpointStatus

pub data PortStatus : Type 0 where
  allocated released reserved : PortStatus

pub data OperationStatus : Type 0 where
  success failed skipped running : OperationStatus

pub data JobStatus : Type 0 where
  queued running succeeded failed partial_failure interrupted cancelled : JobStatus
  other : String → JobStatus

-- The actions "instance.create", …; `other` is any other text.
pub data Action : Type 0 where
  create start stop restart set_basic_auth update_version install_skill : Action
  set_model_provider refresh_devices approve_latest_device delete restore : Action
  purge_deleted cleanup_failed wechat_bind refresh_ingress : Action
  other : String → Action

pub data Product : Type 0 where
  openclaw evoscientist hermes : Product
  other : String → Product

pub record User : Type 0 where
  pub id : ℕ
  pub public_id : String
  pub username : String
  pub normalized_username : String
  pub role : UserRole
  pub status : UserStatus

pub record Credential : Type 0 where
  pub user_id : ℕ
  pub password_hash : String
  pub password_changed_at : Time
  pub must_change_password : Bool
  pub failed_login_count : ℕ
  pub locked_until : Option Time

pub record Identity : Type 0 where
  pub user_id : ℕ
  pub provider : String
  pub subject : String

pub record Session : Type 0 where
  pub token_hash : String
  pub user_id : ℕ
  pub provider : String
  pub session_kind : String
  pub csrf_token : String
  pub expires_at : Time

pub record ExternalToken : Type 0 where
  pub external_token_hash : String
  pub session_token_hash : String

pub record Instance : Type 0 where
  pub id : ℕ
  pub public_id : String
  pub legacy_user_id : Option String
  pub owner_user_id : ℕ
  pub product : Product
  pub instance_name : String
  pub runtime_identifier : String
  pub port : Option ℕ
  pub status : InstanceStatus
  pub restore_state : RestoreState
  pub openclaw_version : Option String
  pub basic_auth_enabled : Bool
  pub access_url : Option String
  pub admin_url : Option String
  pub data_path : Option String
  pub nginx_conf_path : Option String
  pub updated_at : Time
  pub deleted_at : Option Time

pub record Member : Type 0 where
  pub instance_id : ℕ
  pub user_id : ℕ
  pub role : MemberRole
  pub created_by_user_id : Option ℕ

pub record InstanceCredential : Type 0 where
  pub instance_id : ℕ
  pub basic_auth_username : Option String
  pub basic_auth_password_ref : Option String
  pub openclaw_token : Option String

-- The endpoints that the program writes are all of the type 'legacy_port'.
pub record Endpoint : Type 0 where
  pub instance_id : ℕ
  pub external_port : ℕ
  pub access_url : Option String
  pub status : EndpointStatus

pub record Port : Type 0 where
  pub port : ℕ
  pub instance_id : Option ℕ
  pub status : PortStatus
  pub released_at : Option Time

pub record Operation : Type 0 where
  pub request_id : Option String
  pub actor : Option String
  pub actor_user_id : Option ℕ
  pub source_service : Option String
  pub action : Action
  pub user_id : Option String
  pub instance_id : Option ℕ
  pub status : OperationStatus
  pub message : Option String

-- `params_json` is the text that `json.dumps` gave, with sorted keys.
pub record Job : Type 0 where
  pub id : ℕ
  pub request_id : String
  pub parent_request_id : Option String
  pub actor_user_id : Option ℕ
  pub instance_id : Option ℕ
  pub action : Action
  pub params_json : String
  pub status : JobStatus
  pub current_step : Option String
  pub heartbeat_at : Option Time
  pub error_summary : Option String
  pub output : Option String
  pub created_at : Time
  pub updated_at : Time
  pub started_at : Option Time
  pub finished_at : Option Time

-- `next_*_id` is the AUTOINCREMENT counter of a table.
pub record Db : Type 0 where
  pub users : List User
  pub identities : List Identity
  pub credentials : List Credential
  pub sessions : List Session
  pub external_tokens : List ExternalToken
  pub settings : List (String × String)
  pub instances : List Instance
  pub members : List Member
  pub instance_credentials : List InstanceCredential
  pub endpoints : List Endpoint
  pub ports : List Port
  pub operations : List Operation
  pub jobs : List Job
  pub next_user_id : ℕ
  pub next_instance_id : ℕ
  pub next_job_id : ℕ
