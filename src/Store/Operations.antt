-- ===== src/Store/Operations.antt =====
-- `record_operation` of services/manager-web/metadata_store.py, the audit log.
pub mod Frame
use openclaw_manager.Common.{
  ℕ, String, Bool, true, not, ◌&&◌, Option, none, some, ◌==◌, nat_eq, string_eq, option_eq,
  if◌then◌else◌, coalesce, is_some, find, insert, any,
}
use openclaw_manager.Store.Rows.{Db, User, Instance, Action, Operation, OperationStatus}
use openclaw_manager.Store.Error.{ok, err, Tx, integrity_error}
use openclaw_manager.Store.Ports.{
  user_exists, instance_exists, truthy, instance_id_for_legacy_user, owner_of_port,
}

-- The UNIQUE index on the request id and the foreign keys of a new record.
abbrev pub fits_operation : Operation → Db → Bool
fits_operation new db =
    not (
      is_some new.request_id
      && any (λ (o : Operation). o.request_id == new.request_id) db.operations)
    && user_exists db new.actor_user_id
    && instance_exists db new.instance_id

unfoldable pub insert_operation : Operation → Tx (Unit {0})
insert_operation new db =
    if fits_operation new db
    then ok (tt, record db { operations = insert new db.operations })
    else err integrity_error

-- `normalize` is `normalize_username`, the Unicode folding of a name.
unfoldable pub record_operation :
    (String → String)
    → Action
    → OperationStatus
    → Option String
    → Option ℕ
    → Option ℕ
    → Option String
    → Option String
    → Option String
    → Option String
    → Tx (Unit {0})
unfolding instance_id_for_legacy_user insert_operation
record_operation normalize action status actor actor_user_id instance_id request_id source_service
      user_id message db =
    let by_name : Option ℕ = elim (truthy actor) [
      | none ↦ none
      | some name ↦ elim (find (λ (u : User). u.normalized_username == normalize name) db.users) [
        | none ↦ none
        | some u ↦ some u.id
      ]
    ] in
    insert_operation
      (record {
        request_id = request_id;
        actor = actor;
        actor_user_id = coalesce actor_user_id by_name;
        source_service = source_service;
        action = action;
        user_id = user_id;
        instance_id = owner_of_port user_id instance_id db;
        status = status;
        message = message;
      })
      db
