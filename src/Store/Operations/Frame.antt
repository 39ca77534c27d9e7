-- ===== src/Store/Operations/Frame.antt =====
-- A write of the audit log changes that table alone.
use openclaw_manager.Common.{
  ℕ, String, Option, string_eq, option_eq, ◌≡◌, inl, inr, arith, Bool-cases,
}
use openclaw_manager.Store.Rows.{Db, Action, Operation, OperationStatus}
use openclaw_manager.Store.Error.{ok}
use openclaw_manager.Store.Operations.{fits_operation, insert_operation, record_operation}

insert_operation-frame :
    (new : Operation) (db db' : Db)
    → insert_operation new db ≡ ok (tt, db')
    → (db'.jobs ≡ db.jobs) × (db'.instances ≡ db.instances)
unfolding insert_operation
insert_operation-frame new db db' h = elim (Bool-cases (fits_operation new db)) [
  | inr e ↦ absurd (cc (rw (e, insert_operation) at h))
  | inl e ↦ let k = rw (e, insert_operation) at h in (ground (arith, k), ground (arith, k))
]

module _ (normalize : String → String) (action : Action) (status : OperationStatus)
    (actor : Option String) (actor_user_id instance_id : Option ℕ)
    (request_id source_service user_id message : Option String) (db db' : Db) where
  pub record_operation-frame :
      record_operation normalize action status actor actor_user_id instance_id request_id
          source_service user_id message db
        ≡ ok (tt, db')
      → (db'.jobs ≡ db.jobs) × (db'.instances ≡ db.instances)
  unfolding record_operation
  record_operation-frame h = insert_operation-frame _ db db' h
