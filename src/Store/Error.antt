-- ===== src/Store/Error.antt =====
-- The exceptions that services/manager-web/metadata_store.py raises, one constructor for each
-- message, and transactions: `connect` commits what a block did, or rolls all of it back.
use openclaw_manager.Common.{◌≡◌, refl, ◌⊎◌, inl, inr, Bool, true, false, if◌then◌else◌}
use openclaw_manager.Store.Rows.{Db, JobStatus}

pub data Error : Type 0 where
  request_id_and_action_required instance_not_found execution_job_not_found : Error
  request_id_already_used : Error
  invalid_job_transition : JobStatus → JobStatus → Error
  owner_user_not_found port_already_allocated runtime_identifier_exists data_path_exists : Error
  instance_fields_required invalid_provisioning_result invalid_provisioning_transition : Error
  invalid_runtime_status invalid_retention_action only_failed_cleaned : Error
  only_restorable_purged legacy_instance_not_found : Error
  invalid_member_role active_member_user_not_found owner_cannot_be_member : Error
  invalid_session_kind : Error
  username_required username_collision legacy_identity_conflict identity_linked : Error
  -- sqlite3.IntegrityError and psycopg.IntegrityError
  integrity_error : Error
  -- KeyError, where a service reads JSON
  key_error : Error
  -- the ProgrammingError of a driver that cannot store a value
  unstorable_value : Error

-- `"not found" in str(exc)`
abbrev pub mentions_not_found : Error → Bool
mentions_not_found instance_not_found = true
mentions_not_found execution_job_not_found = true
mentions_not_found owner_user_not_found = true
mentions_not_found legacy_instance_not_found = true
mentions_not_found active_member_user_not_found = true
mentions_not_found _ = false

pub data Result {ℓ} (A : Type ℓ) : Type ℓ where
  ok : A → Result A
  err : Error → Result A

-- What runs inside one `with connect(...) as conn:` block. An exception leaves no state behind.
abbrev pub Tx {ℓ} : Type ℓ → Type ℓ
Tx A = Db → Result (A × Db)

infixl 5 ◌>>=◌ ◌>>◌
abbrev pub ◌>>=◌ {ℓ κ} : {A : Type ℓ} {B : Type κ} → Tx A → (A → Tx B) → Tx B
◌>>=◌ m f db = elim (m db) [ ok (a, db') ↦ f a db' | err e ↦ err e ]

abbrev pub ◌>>◌ {ℓ κ} : {A : Type ℓ} {B : Type κ} → Tx A → Tx B → Tx B
m >> k = m >>= λ _. k

abbrev pub pure {ℓ} : {A : Type ℓ} → A → Tx A
pure a db = ok (a, db)

-- The value that a transaction returns or raises, and the state that it leaves.
connect {ℓ} : {A : Type ℓ} → Tx A → Db → Result A × Db
connect m db = elim (m db) [ ok (a, db') ↦ (ok a, db') | err e ↦ (err e, db) ]

pub Result-cases {ℓ} :
    {A : Type ℓ} (r : Result A) → ((a : A) × (r ≡ ok a)) ⊎ ((e : Error) × (r ≡ err e))
Result-cases (ok a) = inl (a, refl)
Result-cases (err e) = inr (e, refl)

-- A sequence ends well only if both parts do.
pub sequence-inv {ℓ κ} :
    {A : Type ℓ} {B : Type κ} (m : Tx A) (f : A → Tx B) (db db' : Db) (b : B)
    → (m >>= f) db ≡ ok (b, db')
    → (a : A) × (d : Db) × (m db ≡ ok (a, d)) × (f a d ≡ ok (b, db'))
sequence-inv m f db db' b h = elim (Result-cases (m db)) [
  | inl ((a, d), e) ↦ (a, d, e, rw (e, ◌>>=◌) at h)
  | inr (x, e) ↦ absurd (cc (rw (e, ◌>>=◌) at h))
]

-- A statement that breaks no constraint.
pub no_conflict {ℓ} :
    {A : Type ℓ} (conflict : Bool) (change : Result (A × Db)) (r : A × Db)
    → (if conflict then err integrity_error else change) ≡ ok r
    → change ≡ ok r
no_conflict true change r h = absurd (cc h)
no_conflict false change r h = h

pub no_conflict_inv {ℓ} :
    {A : Type ℓ} (conflict : Bool) (change : Result (A × Db)) (r : A × Db)
    → (if conflict then err integrity_error else change) ≡ ok r
    → conflict ≡ false
no_conflict_inv true change r h = absurd (cc h)
no_conflict_inv false change r h = refl
