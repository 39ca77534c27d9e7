-- ===== src/Store/Provisioning.antt =====
-- `finish_instance_provisioning` and `upsert_credentials` of
-- services/manager-web/metadata_store.py. The row that the first also returns is what `instance_row`
-- reads afterwards. The directory of the nginx configuration is an argument.
pub mod Finish
pub mod Jobs
use Prim.Native.String
use openclaw_manager.Common.{
  ℕ, String, Bool, true, false, not, ◌||◌, Option, none, some, ◌++◌, ◌==◌, nat_eq, string_eq,
  option_eq, if◌then◌else◌, coalesce, update_where, upsert,
}
use openclaw_manager.Store.Rows.{
  Time, Instance, InstanceStatus, active, failed, InstanceCredential, EndpointStatus, allocated,
}
use openclaw_manager.Store.Error.{
  ◌>>◌, ok, err, Tx, integrity_error, instance_not_found, invalid_provisioning_result,
  invalid_provisioning_transition, legacy_instance_not_found,
}
use openclaw_manager.Store.Jobs.{has_public_id, instance_row}
use openclaw_manager.Store.Ports.{
  is_failed, is_active, is_provisioning, is_evoscientist, instance_id_for_legacy_user, record_port,
  put_endpoint, port_conflict,
}

abbrev has_credential : ℕ → InstanceCredential → Bool
has_credential instance_id row = row.instance_id == instance_id

upsert_credentials : String → Option String → Option String → Option String → Tx (Unit {0})
unfolding instance_id_for_legacy_user
upsert_credentials user_id username password_ref token db =
    elim (instance_id_for_legacy_user user_id db) [
      | none ↦ err legacy_instance_not_found
      | some id ↦
          let row : InstanceCredential = record {
            instance_id = id;
            basic_auth_username = username;
            basic_auth_password_ref = password_ref;
            openclaw_token = token;
          } in
          ok (
            tt,
            record db {
              instance_credentials =
                  upsert (has_credential id) (λ _. row) row db.instance_credentials;
            },
          )
    ]

-- What a finished creation reports.
pub record CreationResult : Type 0 where
  pub port : Option ℕ
  pub openclaw_version : Option String
  pub access_url : Option String
  pub admin_url : Option String
  pub basic_auth_password_ref : Option String
  pub openclaw_token : Option String

abbrev pub no_result : CreationResult
no_result = record {
  port = none;
  openclaw_version = none;
  access_url = none;
  admin_url = none;
  basic_auth_password_ref = none;
  openclaw_token = none;
}

-- The columns that the end of provisioning writes.
abbrev pub provisioned : String → InstanceStatus → CreationResult → Time → Instance → Instance
provisioned conf_dir status result now i = record i {
  status = status;
  port = coalesce result.port i.port;
  openclaw_version = coalesce result.openclaw_version i.openclaw_version;
  access_url = coalesce result.access_url i.access_url;
  admin_url = coalesce result.admin_url i.admin_url;
  nginx_conf_path =
      if is_evoscientist i.product
      then some
          (String.◌++◌ conf_dir (String.◌++◌ "/evoscientist-" (String.◌++◌ i.public_id ".conf")))
      else i.nginx_conf_path;
  updated_at = now;
}

unfoldable pub provisioned_port : CreationResult → Instance → Time → Tx (Unit {0})
unfolding record_port put_endpoint
provisioned_port result i now db = elim result.port [
  | none ↦ ok (tt, db)
  | some port ↦ elim (record_port port i.legacy_user_id allocated (some i.id) now db) [
    | err e ↦ err e
    | ok (_, db') ↦ ok (
      tt,
      put_endpoint
          (record {
            instance_id = i.id;
            external_port = port;
            access_url = result.access_url;
            status = EndpointStatus.active;
          })
          db',
    )
  ]
]

unfoldable pub provisioned_credentials : CreationResult → Instance → Tx (Unit {0})
unfolding upsert_credentials
provisioned_credentials result i db = elim i.legacy_user_id [
  | none ↦ ok (tt, db)
  | some user_id ↦
      upsert_credentials user_id (some user_id) result.basic_auth_password_ref result.openclaw_token
        db
]

abbrev same_end : InstanceStatus → InstanceStatus → Bool
same_end active active = true
same_end failed failed = true
same_end _ _ = false

-- The rest of the function, when the instance has become active.
unfoldable pub activate_provisioned : String → CreationResult → Time → Tx (Unit {0})
unfolding provisioned_port provisioned_credentials
activate_provisioned public_id result now db = elim (instance_row db public_id) [
  | none ↦ err instance_not_found
  | some i ↦ (do provisioned_port result i now; provisioned_credentials result i) db
]

unfoldable pub finish_instance_provisioning :
    String → String → InstanceStatus → CreationResult → Time → Tx (Unit {0})
unfolding activate_provisioned
finish_instance_provisioning conf_dir public_id status result now db =
    if not (is_active status || is_failed status)
    then err invalid_provisioning_result
    else elim (instance_row db public_id) [
      | none ↦ err instance_not_found
      | some i ↦
          if same_end i.status status
          then ok (tt, db)
          else if not (is_provisioning i.status)
          then err invalid_provisioning_transition
          else if port_conflict public_id (provisioned conf_dir status result now i) db.instances
          then err integrity_error
          else let db' = record db {
            instances =
                update_where (has_public_id public_id) (provisioned conf_dir status result now)
                  db.instances;
          } in
            if is_active status then activate_provisioned public_id result now db' else ok (tt, db')
    ]
