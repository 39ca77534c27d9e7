-- ===== src/Store/Tests/InstanceRuns.antt =====
-- Runs of the operations on instances.
use openclaw_manager.Common.{
  ℕ, String, true, false, none, some, nat_eq, string_eq, insert, ◌≡◌, ◌≢◌, refl, ◌⊎◌,
}
use openclaw_manager.Store.Rows.{
  openclaw, Db, Instance, provisioning, active, deleted, failed, restorable, not_applicable, hermes,
}
use openclaw_manager.Store.Error.{Error, ok, err}
use openclaw_manager.Store.Jobs.{instance_row}
use openclaw_manager.Store.Ports.{
  instance_id_for_legacy_user, port_row, put_port, put_endpoint, record_port,
  instance_id_for_legacy_user,
}
use openclaw_manager.Store.Instances.{
  NewInstance, create_instance, insert_instance, claim_port, is_allocated,
}
use openclaw_manager.Store.Instances.Allocation.{
  new_port, create_instance-port, create_instance_twice,
}
use openclaw_manager.Store.Lifecycle.{
  delete, restore, set_instance_retention_state, retain_rows, retain_endpoints, retain_port,
  purge_failed_instance, purge_deleted_instance,
}
use openclaw_manager.Store.Lifecycle.Removal.{
  IsRemoved, purge_failed_instance_outcome, purge_deleted_instance_outcome,
}
use openclaw_manager.Store.Lifecycle.Retained.{held_port, restore-delete}
use openclaw_manager.Store.Provisioning.{
  CreationResult, no_result, finish_instance_provisioning, activate_provisioned, provisioned_port,
  provisioned_credentials,
}
use openclaw_manager.Store.Provisioning.Finish.{HasEnded, finish_instance_provisioning_once}
use openclaw_manager.Store.Users.{ensure_legacy_user, insert_user}
use openclaw_manager.Store.Legacy.{
  LegacyInstance, get_instance, upsert_instance, put_legacy_instance, legacy_columns,
  put_legacy_endpoint,
}
use openclaw_manager.Store.Legacy.Lookup.{IsWritten, get_instance-upsert_instance}
use openclaw_manager.Store.Tests.{office, running_box, left_by, given_by}

abbrev wanted : String → NewInstance
wanted name = record {
  owner_public_id = "u-2";
  product = hermes;
  instance_name = name;
  runtime_identifier = name;
  legacy_user_id = none;
  data_path = none;
  status = provisioning;
  basic_auth_enabled = true;
  port = some 8003;
  access_url = none;
}

abbrev made : Instance
made = given_by running_box (create_instance "/data" "i-5" 300 (wanted "new") office)

abbrev with_new : Db
with_new = left_by (create_instance "/data" "i-5" 300 (wanted "new") office)

create_instance-port_example :
    (is_allocated office (some 8003) ≡ false)
    × (port_row with_new 8003 ≡ some (new_port made 8003))
    × ((p : ℕ) → p ≢ 8003 → port_row with_new p ≡ port_row office p)
    × (with_new.instances ≡ insert made office.instances)
unfolding create_instance insert_instance claim_port put_port put_endpoint
create_instance-port_example =
    create_instance-port "/data" "i-5" 300 (wanted "new") office with_new made 8003 refl refl

create_instance_twice_example :
    create_instance "/data" "i-6" 301 (wanted "newer") with_new ≢ ok (running_box, with_new)
unfolding create_instance insert_instance claim_port put_port put_endpoint
create_instance_twice_example =
    create_instance_twice "/data" "i-5" "i-6" 300 301 (wanted "new") (wanted "newer") office
      with_new with_new made running_box 8003 refl refl refl

purge_failed_instance_outcome_example :
    ((i : Instance) × (db' : Db) × (instance_row office "i-2" ≡ some i)
      × (i.status ≡ failed)
      × (purge_failed_instance "i-2" 400 office ≡ ok (tt, db'))
      × IsRemoved i 400 office db')
    ⊎ ((e : Error) × (purge_failed_instance "i-2" 400 office ≡ err e)
        × ((i : Instance) → instance_row office "i-2" ≡ some i → i.status ≢ failed))
purge_failed_instance_outcome_example = purge_failed_instance_outcome "i-2" 400 office

purge_deleted_instance_outcome_example :
    ((i : Instance) × (db' : Db) × (instance_row office "i-4" ≡ some i)
      × (i.status ≡ deleted)
      × (i.restore_state ≡ restorable)
      × (purge_deleted_instance "i-4" 400 office ≡ ok (tt, db'))
      × IsRemoved i 400 office db')
    ⊎ ((e : Error) × (purge_deleted_instance "i-4" 400 office ≡ err e)
        × ((i : Instance)
            → instance_row office "i-4" ≡ some i
            → i.status ≡ deleted
            → i.restore_state ≢ restorable))
purge_deleted_instance_outcome_example = purge_deleted_instance_outcome "i-4" 400 office

abbrev put_away : Db
put_away = left_by (set_instance_retention_state "i-1" delete 300 office)

abbrev taken_back : Db
taken_back = left_by (set_instance_retention_state "i-1" restore 400 put_away)

restore-delete_example :
    (i : Instance) × (instance_row office "i-1" ≡ some i)
    × (instance_row put_away "i-1"
        ≡ some (record i {
          status = deleted;
          restore_state = restorable;
          updated_at = 300;
          deleted_at = some 300;
        }))
    × (instance_row taken_back "i-1"
        ≡ some (record i {
          status = active;
          restore_state = not_applicable;
          updated_at = 400;
          deleted_at = none;
        }))
    × ((port : ℕ)
        → i.port ≡ some port
        → (port_row put_away port ≡ some (held_port i port))
          × (port_row taken_back port ≡ some (held_port i port)))
unfolding set_instance_retention_state retain_rows retain_endpoints retain_port record_port put_port
restore-delete_example = restore-delete "i-1" 300 400 office put_away taken_back refl refl

abbrev report : CreationResult
report = record no_result { port = some 8003; openclaw_version = some "1.0" }

abbrev delivered : Db
delivered = left_by (finish_instance_provisioning "/etc/nginx" "i-3" active report 300 office)

finish_instance_provisioning_once_example :
    HasEnded "/etc/nginx" "i-3" active report 300 office delivered
    × (finish_instance_provisioning "/etc/nginx" "i-3" active no_result 400 delivered
        ≡ ok (tt, delivered))
unfolding finish_instance_provisioning activate_provisioned provisioned_port provisioned_credentials
    record_port put_port put_endpoint instance_id_for_legacy_user
finish_instance_provisioning_once_example =
    finish_instance_provisioning_once "/etc/nginx" "i-3" active report no_result 300 400 office
      delivered refl

abbrev migrated : LegacyInstance
migrated = record {
  user_id = "carol";
  product = openclaw;
  port = some 8009;
  status = deleted;
  openclaw_version = some "1.0";
  basic_auth_enabled = true;
  container_name = none;
  access_url = none;
  admin_url = none;
  data_path = some "/data/carol";
  nginx_conf_path = none;
  deleted_at = some 40;
  restore_state = none;
}

abbrev imported : Db
imported = left_by (upsert_instance (λ name. name) "u-9" "i-9" migrated 60 office)

get_instance-upsert_instance_example :
    ((row : Instance) × (get_instance "carol" imported ≡ some row)
      × IsWritten migrated (get_instance "carol" office) row)
    × ((k : String) → k ≢ "carol" → get_instance k imported ≡ get_instance k office)
unfolding upsert_instance ensure_legacy_user insert_user put_legacy_instance legacy_columns
    put_legacy_endpoint put_endpoint instance_id_for_legacy_user
get_instance-upsert_instance_example =
    get_instance-upsert_instance (λ name. name) "u-9" "i-9" migrated 60 office imported refl
