-- ===== src/Store/Ports.antt =====
-- The tables `ports` and `instance_endpoints` in services/manager-web/metadata_store.py, and the
-- texts of products. `now` is the reading of `utc_now()`.
pub mod Records
pub mod Live
use openclaw_manager.Common.{
  ℕ, String, Bool, true, false, not, ◌&&◌, List, Option, none, some, ◌==◌, nat_eq, string_eq,
  option_eq, if◌then◌else◌, find, any, upsert,
}
use openclaw_manager.Store.Rows.{
  Time, Db, User, Product, Instance, InstanceStatus, provisioning, active, stopped, deleted, failed,
  RestoreState, restorable, Endpoint, Port, PortStatus, released, openclaw, evoscientist, hermes,
  other,
}
use openclaw_manager.Store.Error.{ok, err, Tx, integrity_error}

abbrev pub product_name : Product → String
product_name openclaw = "openclaw"
product_name evoscientist = "evoscientist"
product_name hermes = "hermes"
product_name (other text) = text

abbrev pub is_evoscientist : Product → Bool
is_evoscientist evoscientist = true
is_evoscientist _ = false

abbrev pub is_failed : InstanceStatus → Bool
is_failed failed = true
is_failed _ = false

abbrev pub is_deleted : InstanceStatus → Bool
is_deleted deleted = true
is_deleted _ = false

abbrev pub is_restorable : RestoreState → Bool
is_restorable restorable = true
is_restorable _ = false

abbrev pub is_active : InstanceStatus → Bool
is_active active = true
is_active _ = false

abbrev pub is_provisioning : InstanceStatus → Bool
is_provisioning provisioning = true
is_provisioning _ = false

-- status IN ('active', 'stopped')
abbrev pub is_live : InstanceStatus → Bool
is_live active = true
is_live stopped = true
is_live _ = false

abbrev pub is_released : PortStatus → Bool
is_released released = true
is_released _ = false

-- A Python text is true when it is not empty.
abbrev pub truthy : Option String → Option String
truthy none = none
truthy (some text) = if text == "" then none else some text

abbrev pub has_port : ℕ → Port → Bool
has_port port row = row.port == port

abbrev pub port_row : Db → ℕ → Option Port
port_row db port = find (has_port port) db.ports

abbrev pub instance_exists : Db → Option ℕ → Bool
instance_exists db none = true
instance_exists db (some id) = any (λ (i : Instance). i.id == id) db.instances

-- SELECT id FROM instances WHERE legacy_user_id = ?
unfoldable pub instance_id_for_legacy_user : String → Db → Option ℕ
instance_id_for_legacy_user user_id db =
    elim (find (λ (i : Instance). i.legacy_user_id == some user_id) db.instances) [
      | none ↦ none
      | some i ↦ some i.id
    ]

-- A foreign key on the users.
abbrev pub user_exists : Db → Option ℕ → Bool
user_exists db none = true
user_exists db (some id) = any (λ (u : User). u.id == id) db.users

-- INSERT INTO ports … ON CONFLICT(port) DO UPDATE writes every column; the foreign key holds.
unfoldable pub put_port : Port → Tx (Unit {0})
put_port row db =
    if instance_exists db row.instance_id
    then ok (tt, record db { ports = upsert (has_port row.port) (λ _. row) row db.ports })
    else err integrity_error

abbrev pub owner_of_port : Option String → Option ℕ → Db → Option ℕ
owner_of_port user_id (some id) db = some id
owner_of_port user_id none db = elim (truthy user_id) [
  | none ↦ none
  | some legacy ↦ instance_id_for_legacy_user legacy db
]

unfoldable pub record_port : ℕ → Option String → PortStatus → Option ℕ → Time → Tx (Unit {0})
unfolding put_port instance_id_for_legacy_user
record_port port user_id status instance_id now db =
    put_port
      (record {
        port = port;
        instance_id = owner_of_port user_id instance_id db;
        status = status;
        released_at = if is_released status then some now else none;
      })
      db

-- A status under which the unique index on ports counts an instance.
abbrev pub holds_port : InstanceStatus → Bool
holds_port deleted = false
holds_port _ = true

abbrev pub takes_port : Option ℕ → InstanceStatus → Instance → Bool
takes_port none status row = false
takes_port (some port) status row =
    holds_port status && holds_port row.status && row.port == some port

-- Whether a rewritten row would break the index, given the rows of the table.
abbrev pub port_conflict : String → Instance → List Instance → Bool
port_conflict public_id new rows =
    any (λ (row : Instance). not (row.public_id == public_id) && takes_port new.port new.status row)
      rows

abbrev pub has_endpoint : ℕ → Endpoint → Bool
has_endpoint instance_id row = row.instance_id == instance_id

-- INSERT INTO instance_endpoints … ON CONFLICT(instance_id, endpoint_type) DO UPDATE
unfoldable pub put_endpoint : Endpoint → Db → Db
put_endpoint row db = record db {
  endpoints = upsert (has_endpoint row.instance_id) (λ _. row) row db.endpoints;
}
