-- ===== src/Store/Credentials.antt =====
-- Local passwords and their lockout, in services/manager-web/metadata_store.py. `now` is the reading
-- of the clock, in seconds.
pub mod Lockout
use openclaw_manager.Common.{
  ℕ, ◌+◌, ◌*◌, String, Bool, Option, none, some, ◌==◌, nat_eq, string_eq, option_eq, if◌then◌else◌,
  any, find, update_where, upsert, leb,
}
use mathlib.Core.Option
use openclaw_manager.Store.Rows.{Time, Db, User, Credential}
use openclaw_manager.Store.Error.{ok, err, Tx, integrity_error}

abbrev has_user : ℕ → Credential → Bool
has_user user_id row = row.user_id == user_id

unfoldable pub get_local_credential : ℕ → Db → Option Credential
get_local_credential user_id db = find (has_user user_id) db.credentials

-- The foreign key of the table is its primary key.
set_local_credential : ℕ → String → Bool → Time → Tx (Unit {0})
set_local_credential user_id password_hash must_change now db =
    let row : Credential = record {
      user_id = user_id;
      password_hash = password_hash;
      password_changed_at = now;
      must_change_password = must_change;
      failed_login_count = 0;
      locked_until = none;
    } in
    if any (λ (u : User). u.id == user_id) db.users
    then ok
        (tt, record db { credentials = upsert (has_user user_id) (λ _. row) row db.credentials })
    else err integrity_error

-- One failure, given the count that was read.
failed_once : ℕ → ℕ → Time → ℕ → Credential → Credential
failed_once max_failures lock_minutes now count row =
    if leb max_failures (count + 1)
    then record row { failed_login_count = 0; locked_until = some (now + lock_minutes * 60) }
    else record row { failed_login_count = count + 1; locked_until = none }

unfoldable pub record_login_failure : ℕ → ℕ → ℕ → Time → Db → Db
unfolding failed_once
record_login_failure user_id max_failures lock_minutes now db =
    elim (find (has_user user_id) db.credentials) [
      | none ↦ db
      | some credential ↦ record db {
        credentials =
            update_where (has_user user_id)
              (failed_once max_failures lock_minutes now credential.failed_login_count)
              db.credentials;
      }
    ]

reset_login_failures : ℕ → Db → Db
reset_login_failures user_id db = record db {
  credentials =
      update_where (has_user user_id)
        (λ row. record row { failed_login_count = 0; locked_until = none }) db.credentials;
}
