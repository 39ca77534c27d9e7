-- ===== src/Store/Lifecycle.antt =====
-- The states of an instance after its provisioning, in services/manager-web/metadata_store.py:
-- basic auth, version, runtime status, retention, and removal with what refers to the instance.
pub mod Retained
pub mod Removal
pub mod Frame
use openclaw_manager.Common.{
  ℕ, String, Bool, not, ◌&&◌, ◌||◌, Option, none, some, ◌==◌, nat_eq, string_eq, option_eq,
  if◌then◌else◌, is_some, update_where, rowcount, delete_where, map,
}
use openclaw_manager.Store.Rows.{
  Time, Db, Job, Instance, InstanceStatus, active, deleted, not_applicable, restorable, Member,
  InstanceCredential, EndpointStatus, Port, allocated, released, Operation,
}
use openclaw_manager.Store.Error.{
  ok, err, Tx, integrity_error, instance_not_found, invalid_runtime_status, only_failed_cleaned,
  only_restorable_purged,
}
use openclaw_manager.Store.Jobs.{has_public_id, instance_row}
use openclaw_manager.Store.Ports.{
  is_live, is_failed, is_deleted, is_restorable, record_port, has_endpoint, port_conflict,
}

pub get_instance_by_public_id : String → Db → Option Instance
get_instance_by_public_id public_id db = instance_row db public_id

pub set_instance_basic_auth : String → Bool → Time → Tx (Unit {0})
set_instance_basic_auth public_id enabled now db =
    if rowcount (has_public_id public_id) db.instances == 1
    then ok (
      tt,
      record db {
        instances =
            update_where (has_public_id public_id)
              (λ i. record i { basic_auth_enabled = enabled; updated_at = now }) db.instances;
      },
    )
    else err instance_not_found

pub set_instance_version : String → Option String → Time → Tx (Unit {0})
set_instance_version public_id version now db =
    if rowcount (has_public_id public_id) db.instances == 1
    then ok (
      tt,
      record db {
        instances =
            update_where (has_public_id public_id)
              (λ i. record i { openclaw_version = version; updated_at = now }) db.instances;
      },
    )
    else err instance_not_found

unfoldable pub set_instance_runtime_status : String → InstanceStatus → Time → Tx (Unit {0})
set_instance_runtime_status public_id status now db =
    if not (is_live status)
    then err invalid_runtime_status
    else if rowcount (λ i. has_public_id public_id i && is_live i.status) db.instances == 1
    then ok (
      tt,
      record db {
        instances =
            update_where (λ i. has_public_id public_id i && is_live i.status)
              (λ i. record i { status = status; updated_at = now }) db.instances;
      },
    )
    else err instance_not_found

-- The two retention actions; any other text raises before anything is written.
pub data Retention : Type 0 where
  delete restore : Retention

abbrev pub retained : Retention → Time → Instance → Instance
retained delete now i = record i {
  status = deleted;
  restore_state = restorable;
  updated_at = now;
  deleted_at = some now;
}
retained restore now i = record i {
  status = active;
  restore_state = not_applicable;
  updated_at = now;
  deleted_at = none;
}

abbrev retained_endpoint : Retention → EndpointStatus
retained_endpoint delete = EndpointStatus.inactive
retained_endpoint restore = EndpointStatus.active

unfoldable pub retain_rows : Retention → String → Time → Db → Db
retain_rows action public_id now db = record db {
  instances = update_where (has_public_id public_id) (retained action now) db.instances;
}

unfoldable pub retain_endpoints : Retention → ℕ → Db → Db
retain_endpoints action id db = record db {
  endpoints =
      update_where (has_endpoint id) (λ e. record e { status = retained_endpoint action })
        db.endpoints;
}

unfoldable pub retain_port : Instance → Time → Tx (Unit {0})
unfolding record_port
retain_port i now db = elim i.port [
  | none ↦ ok (tt, db)
  | some port ↦ record_port port none allocated (some i.id) now db
]

unfoldable pub set_instance_retention_state : String → Retention → Time → Tx (Unit {0})
unfolding retain_rows retain_endpoints retain_port
set_instance_retention_state public_id action now db =
    if rowcount (has_public_id public_id) db.instances == 1
    then (let db' = retain_rows action public_id now db in
        elim (instance_row db' public_id) [
          | none ↦ err instance_not_found
          | some i ↦
              if port_conflict public_id i db'.instances
              then err integrity_error
              else retain_port i now (retain_endpoints action i.id db')
        ])
    else err instance_not_found

abbrev pub frees : Instance → Port → Bool
frees i row = row.instance_id == some i.id || is_some i.port && some row.port == i.port

abbrev pub unlink : ℕ → Option ℕ → Option ℕ
unlink id target = if target == some id then none else target

-- UPDATE ports … released, then DELETE FROM instances with the ON DELETE actions of the schema:
-- CASCADE for members, credentials and endpoints, SET NULL for ports, operations and jobs.
pub remove_instance : Instance → Time → Db → Db
remove_instance i now db = record db {
  instances = delete_where (λ (row : Instance). row.id == i.id) db.instances;
  members = delete_where (λ (m : Member). m.instance_id == i.id) db.members;
  instance_credentials =
      delete_where (λ (c : InstanceCredential). c.instance_id == i.id) db.instance_credentials;
  endpoints = delete_where (has_endpoint i.id) db.endpoints;
  ports =
      map (λ (p : Port). record p { instance_id = unlink i.id p.instance_id })
        (update_where (frees i)
          (λ p. record p { instance_id = none; status = released; released_at = some now })
          db.ports);
  operations =
      map (λ (o : Operation). record o { instance_id = unlink i.id o.instance_id }) db.operations;
  jobs = map (λ (j : Job). record j { instance_id = unlink i.id j.instance_id }) db.jobs;
}

pub purge_failed_instance : String → Time → Tx (Unit {0})
unfolding remove_instance
purge_failed_instance public_id now db = elim (instance_row db public_id) [
  | none ↦ err instance_not_found
  | some i ↦
      if is_failed i.status then ok (tt, remove_instance i now db) else err only_failed_cleaned
]

pub purge_deleted_instance : String → Time → Tx (Unit {0})
unfolding remove_instance
purge_deleted_instance public_id now db = elim (instance_row db public_id) [
  | none ↦ err instance_not_found
  | some i ↦
      if is_deleted i.status && is_restorable i.restore_state
      then ok (tt, remove_instance i now db)
      else err only_restorable_purged
]
