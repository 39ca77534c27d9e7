-- ===== src/Store/Instances.antt =====
-- `create_instance` of services/manager-web/metadata_store.py. `now` is the reading of `utc_now()`;
-- the uuid and the public directory of the environment are arguments.
pub mod Allocation
use Prim.Native.String
use openclaw_manager.Common.{
  ℕ, suc, String, Bool, true, false, not, ◌&&◌, ◌||◌, Option, none, some, List, ◌++◌, ◌==◌, nat_eq,
  string_eq, option_eq, if◌then◌else◌, coalesce, coalesce, is_some, find, insert, any,
}
use openclaw_manager.Store.Rows.{
  Time, Db, User, Product, Instance, InstanceStatus, active, deleted, not_applicable,
  EndpointStatus, allocated,
}
use openclaw_manager.Store.Error.{
  ◌>>◌, Error, ok, err, Tx, pure, integrity_error, owner_user_not_found, port_already_allocated,
  runtime_identifier_exists, data_path_exists, instance_fields_required,
}
use openclaw_manager.Store.Ports.{
  product_name, is_released, port_row, put_port, takes_port, has_endpoint, put_endpoint,
}

-- The UNIQUE constraints of the table, in the order of the schema.
abbrev pub unique_violation : Instance → List Instance → Option Error
unique_violation new rows =
    if any (λ (i : Instance). i.public_id == new.public_id) rows
    then some integrity_error
    else if any
        (λ (i : Instance). is_some new.legacy_user_id && i.legacy_user_id == new.legacy_user_id)
        rows
    then some integrity_error
    else if any (λ (i : Instance). i.runtime_identifier == new.runtime_identifier) rows
    then some runtime_identifier_exists
    else if any
        (λ (i : Instance).
          i.owner_user_id == new.owner_user_id
          && product_name i.product == product_name new.product
          && i.instance_name == new.instance_name)
        rows
    then some integrity_error
    else if any (λ (i : Instance). is_some new.data_path && i.data_path == new.data_path) rows
    then some data_path_exists
    else if any (takes_port new.port new.status) rows
    then some integrity_error
    else none

unfoldable pub insert_instance : Instance → Tx (Unit {0})
insert_instance new db = elim (unique_violation new db.instances) [
  | some e ↦ err e
  | none ↦ ok (tt, record db { instances = insert new db.instances; next_instance_id = suc new.id })
]

-- `port is already allocated`
abbrev pub is_allocated : Db → Option ℕ → Bool
is_allocated db none = false
is_allocated db (some port) = elim (port_row db port) [
  | none ↦ false
  | some row ↦ not (is_released row.status)
]

pub record NewInstance : Type 0 where
  pub owner_public_id : String
  pub product : Product
  pub instance_name : String
  pub runtime_identifier : String
  pub legacy_user_id : Option String
  pub data_path : Option String
  pub status : InstanceStatus
  pub basic_auth_enabled : Bool
  pub port : Option ℕ
  pub access_url : Option String

abbrev new_instance_row : String → String → Time → NewInstance → User → ℕ → Instance
new_instance_row public_dir public_id now new owner id = record {
  id = id;
  public_id = public_id;
  legacy_user_id = new.legacy_user_id;
  owner_user_id = owner.id;
  product = new.product;
  instance_name = new.instance_name;
  runtime_identifier = new.runtime_identifier;
  port = new.port;
  status = new.status;
  restore_state = not_applicable;
  openclaw_version = none;
  basic_auth_enabled = new.basic_auth_enabled;
  access_url = new.access_url;
  admin_url = none;
  data_path = coalesce new.data_path (
      some (
        String.◌++◌ public_dir (
          String.◌++◌ "/instances/"
            (String.◌++◌ (product_name new.product) (String.◌++◌ "/" public_id)))));
  nginx_conf_path = none;
  updated_at = now;
  deleted_at = none;
}

-- The endpoint and the port of a new instance.
unfoldable pub claim_port : Instance → Time → Tx (Unit {0})
unfolding put_endpoint put_port
claim_port row now db = elim row.port [
  | none ↦ ok (tt, db)
  | some port ↦
      if any (has_endpoint row.id) db.endpoints
      then err integrity_error
      else put_port
          (record {
            port = port;
            instance_id = some row.id;
            status = allocated;
            released_at = none;
          })
          (put_endpoint
            (record {
              instance_id = row.id;
              external_port = port;
              access_url = row.access_url;
              status = EndpointStatus.active;
            })
            db)
]

unfoldable pub create_instance : String → String → Time → NewInstance → Tx Instance
unfolding insert_instance claim_port
create_instance public_dir public_id now new db =
    if product_name new.product == "" || new.instance_name == "" || new.runtime_identifier == ""
    then err instance_fields_required
    else elim (find (λ (u : User). u.public_id == new.owner_public_id) db.users) [
      | none ↦ err owner_user_not_found
      | some owner ↦
          if is_allocated db new.port
          then err port_already_allocated
          else let row = new_instance_row public_dir public_id now new owner db.next_instance_id in
            (do insert_instance row; claim_port row now; pure row) db
    ]
