-- ===== src/Store/Legacy.antt =====
-- `upsert_instance`, `get_instance` and `get_credentials` of services/manager-web/metadata_store.py,
-- which know an instance by its legacy user id. `now` is the reading of `utc_now()`; the UUIDs of a
-- new user and of a new instance are arguments.
pub mod Lookup
use Prim.Native.String
use openclaw_manager.Common.{
  ℕ, suc, String, Bool, true, Option, none, some, ◌==◌, nat_eq, string_eq, option_eq, if◌then◌else◌,
  is_some, find, update_where, delete_where, insert,
}
use openclaw_manager.Store.Rows.{
  Time, Db, Instance, InstanceStatus, Product, RestoreState, not_applicable, incomplete,
  EndpointStatus, inactive, active, InstanceCredential,
}
use openclaw_manager.Store.Error.{ok, err, Tx, integrity_error}
use openclaw_manager.Store.Ports.{
  product_name, is_deleted, has_endpoint, put_endpoint, instance_id_for_legacy_user,
}
use openclaw_manager.Store.Instances.{unique_violation}
use openclaw_manager.Store.Users.{ensure_legacy_user}

-- The keyword arguments of `upsert_instance`.
pub record LegacyInstance : Type 0 where
  pub user_id : String
  pub product : Product
  pub port : Option ℕ
  pub status : InstanceStatus
  pub openclaw_version : Option String
  pub basic_auth_enabled : Bool
  pub container_name : Option String
  pub access_url : Option String
  pub admin_url : Option String
  pub data_path : Option String
  pub nginx_conf_path : Option String
  pub deleted_at : Option Time
  pub restore_state : Option RestoreState

abbrev pub is_legacy : String → Instance → Bool
is_legacy user_id i = i.legacy_user_id == some user_id

pub get_instance : String → Db → Option Instance
get_instance user_id db = find (is_legacy user_id) db.instances

get_credentials : String → Db → Option InstanceCredential
get_credentials user_id db = elim (find (is_legacy user_id) db.instances) [
  | none ↦ none
  | some i ↦ find (λ (c : InstanceCredential). c.instance_id == i.id) db.instance_credentials
]

abbrev pub resolved_restore_state : LegacyInstance → Option Instance → RestoreState
resolved_restore_state new existing = elim new.restore_state [
  | some state ↦ state
  | none ↦ elim existing [
    | some i ↦ i.restore_state
    | none ↦ if is_deleted new.status then incomplete else not_applicable
  ]
]

-- `container_name or f"{product}_{user_id}"`
abbrev runtime_name : LegacyInstance → String
runtime_name new =
    let made = String.◌++◌ (product_name new.product) (String.◌++◌ "_" new.user_id) in
    elim new.container_name [ none ↦ made | some name ↦ if name == "" then made else name ]

-- The columns of DO UPDATE SET.
unfoldable pub legacy_columns : LegacyInstance → ℕ → RestoreState → Time → Instance → Instance
legacy_columns new owner_id restore_state now row = record row {
  owner_user_id = owner_id;
  product = new.product;
  runtime_identifier = runtime_name new;
  port = new.port;
  status = new.status;
  restore_state = restore_state;
  openclaw_version = new.openclaw_version;
  basic_auth_enabled = new.basic_auth_enabled;
  access_url = new.access_url;
  admin_url = new.admin_url;
  data_path = new.data_path;
  nginx_conf_path = new.nginx_conf_path;
  updated_at = now;
  deleted_at = new.deleted_at;
}

abbrev blank_row : ℕ → String → LegacyInstance → ℕ → Time → Instance
blank_row id public_id new owner_id now = record {
  id = id;
  public_id = public_id;
  legacy_user_id = some new.user_id;
  owner_user_id = owner_id;
  product = new.product;
  instance_name = new.user_id;
  runtime_identifier = runtime_name new;
  port = none;
  status = new.status;
  restore_state = not_applicable;
  openclaw_version = none;
  basic_auth_enabled = true;
  access_url = none;
  admin_url = none;
  data_path = none;
  nginx_conf_path = none;
  updated_at = now;
  deleted_at = none;
}

-- INSERT INTO instances … ON CONFLICT(legacy_user_id) DO UPDATE, under the other constraints
unfoldable pub put_legacy_instance : String → LegacyInstance → ℕ → Time → Tx (Unit {0})
unfolding legacy_columns
put_legacy_instance public_id new owner_id now db =
    let existing = find (is_legacy new.user_id) db.instances in
    let written = legacy_columns new owner_id (resolved_restore_state new existing) now in
    elim existing [
      | some i ↦
          if is_some
            (unique_violation (written i) (delete_where (is_legacy new.user_id) db.instances))
          then err integrity_error
          else ok (
            tt,
            record db { instances = update_where (is_legacy new.user_id) written db.instances },
          )
      | none ↦
          let row = written (blank_row db.next_instance_id public_id new owner_id now) in
          if is_some (unique_violation row db.instances)
          then err integrity_error
          else ok (
            tt,
            record db {
              instances = insert row db.instances;
              next_instance_id = suc db.next_instance_id;
            },
          )
    ]

abbrev endpoint_status : InstanceStatus → EndpointStatus
endpoint_status status = if is_deleted status then inactive else active

-- The endpoint of an instance with a port, or the end of it when an instance is deleted.
unfoldable pub put_legacy_endpoint : LegacyInstance → Db → Db
unfolding put_endpoint instance_id_for_legacy_user
put_legacy_endpoint new db = elim (instance_id_for_legacy_user new.user_id db) [
  | none ↦ db
  | some id ↦ elim new.port [
    | some port ↦
        put_endpoint
          (record {
            instance_id = id;
            external_port = port;
            access_url = new.access_url;
            status = endpoint_status new.status;
          })
          db
    | none ↦
        if is_deleted new.status
        then record db {
          endpoints =
              update_where (has_endpoint id) (λ e. record e { status = inactive }) db.endpoints;
        }
        else db
  ]
]

unfoldable pub upsert_instance :
    (String → String) → String → String → LegacyInstance → Time → Tx (Unit {0})
unfolding ensure_legacy_user put_legacy_instance put_legacy_endpoint
upsert_instance normalize user_public_id public_id new now db =
    elim (ensure_legacy_user normalize user_public_id new.user_id db) [
      | err e ↦ err e
      | ok (owner_id, d) ↦ elim (put_legacy_instance public_id new owner_id now d) [
        | err e ↦ err e
        | ok (_, d') ↦ ok (tt, put_legacy_endpoint new d')
      ]
    ]
