-- ===== src/Store/Users.antt =====
-- Users and their identities, in services/manager-web/metadata_store.py. `normalize` is
-- `normalize_username`, the Unicode folding of a name, and `strip` Python's `str.strip`; a generated
-- UUID is an argument. A role is one of the two that `set_user_role` accepts.
pub mod Legacy
use openclaw_manager.Common.{
  ℕ, suc, String, Bool, ◌&&◌, Option, none, some, ◌==◌, nat_eq, string_eq, if◌then◌else◌, find,
  update_where, insert, any,
}
use openclaw_manager.Store.Rows.{Db, User, UserRole, user, UserStatus, active, Identity}
use openclaw_manager.Store.Error.{
  ok, err, Tx, integrity_error, username_required, username_collision, legacy_identity_conflict,
  identity_linked,
}

abbrev pub has_name : String → User → Bool
has_name normalized u = u.normalized_username == normalized

get_user_by_username : (String → String) → String → Db → Option User
get_user_by_username normalize username db = find (has_name (normalize username)) db.users

unfoldable pub get_user_by_public_id : String → Db → Option User
get_user_by_public_id public_id db = find (λ (u : User). u.public_id == public_id) db.users

abbrev pub is_identity : String → String → Identity → Bool
is_identity provider subject i = i.provider == provider && i.subject == subject

get_user_by_identity : String → String → Db → Option User
get_user_by_identity provider subject db =
    elim (find (is_identity provider subject) db.identities) [
      | none ↦ none
      | some i ↦ find (λ (u : User). u.id == i.user_id) db.users
    ]

-- INSERT … ON CONFLICT(provider, subject) leaves the user of a row that is there, and the function
-- raises, with everything rolled back, when that is another user.
upsert_identity : ℕ → String → String → Tx (Unit {0})
upsert_identity user_id provider subject db =
    elim (find (is_identity provider subject) db.identities) [
      | some i ↦ if i.user_id == user_id then ok (tt, db) else err identity_linked
      | none ↦
          if any (λ (u : User). u.id == user_id) db.users
          then ok (
            tt,
            record db {
              identities =
                  insert (record { user_id = user_id; provider = provider; subject = subject })
                    db.identities;
            },
          )
          else err integrity_error
    ]

set_user_role : ℕ → UserRole → Db → Db
set_user_role user_id role db = record db {
  users = update_where (λ (u : User). u.id == user_id) (λ u. record u { role = role }) db.users;
}

-- INSERT INTO users; the names are UNIQUE after folding, and so are the public ids.
unfoldable pub insert_user : String → String → String → UserStatus → Tx User
insert_user public_id username normalized status db =
    if any (λ (u : User). u.public_id == public_id) db.users
    then err integrity_error
    else if any (has_name normalized) db.users
    then err integrity_error
    else let row : User = record {
      id = db.next_user_id;
      public_id = public_id;
      username = username;
      normalized_username = normalized;
      role = user;
      status = status;
    } in
      ok (row, record db { users = insert row db.users; next_user_id = suc db.next_user_id })

create_user : (String → String) → (String → String) → String → String → UserStatus → Tx User
unfolding insert_user
create_user strip normalize public_id text status db =
    let username = strip text in
    if username == ""
    then err username_required
    else elim (find (has_name (normalize username)) db.users) [
      | some existing ↦ err username_collision
      | none ↦ insert_user public_id username (normalize username) status db
    ]

abbrev pub legacy_identity : ℕ → String → Identity
legacy_identity user_id username = record {
  user_id = user_id;
  provider = "legacy";
  subject = username;
}

-- The user of a legacy name: the one of its identity, the one of that very name, or a new one.
unfoldable pub ensure_legacy_user : (String → String) → String → String → Tx ℕ
unfolding insert_user
ensure_legacy_user normalize public_id username db =
    let row = find (has_name (normalize username)) db.users in
    elim (find (is_identity "legacy" username) db.identities) [
      | some identity ↦ elim row [
        | none ↦ ok (identity.user_id, db)
        | some u ↦
            if u.id == identity.user_id
            then ok (identity.user_id, db)
            else err legacy_identity_conflict
      ]
      | none ↦ elim row [
        | some u ↦
            if u.username == username
            then ok (
              u.id,
              record db { identities = insert (legacy_identity u.id username) db.identities },
            )
            else err username_collision
        | none ↦ elim (insert_user public_id username (normalize username) active db) [
          | err e ↦ err e
          | ok (u, db') ↦ ok (
            u.id,
            record db' { identities = insert (legacy_identity u.id username) db'.identities },
          )
        ]
      ]
    ]
