-- ===== src/Store/Sessions.antt =====
-- Login sessions, the active provider and the settings, in services/manager-web/metadata_store.py.
-- `now` is the reading of `utc_now()`.
pub mod Lifetime
pub mod Activation
use openclaw_manager.Common.{
  ℕ, String, Bool, true, false, not, ◌&&◌, ◌||◌, Option, none, some, List, [], ◌==◌, nat_eq,
  string_eq, option_eq, if◌then◌else◌, find, update_where, delete_where, insert, any, upsert, ltb,
  leb, map,
}
use mathlib.Core.Option
use openclaw_manager.Store.Rows.{Time, Db, User, Session, ExternalToken}
use openclaw_manager.Store.Error.{ok, err, Tx, invalid_session_kind, integrity_error}

abbrev has_token : String → Session → Bool
has_token token_hash s = s.token_hash == token_hash

abbrev is_session_kind : String → Bool
is_session_kind kind = kind == "user" || kind == "admin" || kind == "emergency"

-- ON DELETE CASCADE of external_session_tokens
abbrev drop_sessions : (Session → Bool) → Db → Db
drop_sessions gone db = record db {
  sessions = delete_where gone db.sessions;
  external_tokens =
      delete_where
        (λ (t : ExternalToken).
          any (λ s. gone s && s.token_hash == t.session_token_hash) db.sessions)
        db.external_tokens;
}

-- The primary key and the foreign key of a new session.
abbrev fits_session : Session → Db → Bool
fits_session s db =
    not (any (has_token s.token_hash) db.sessions) && any (λ (u : User). u.id == s.user_id) db.users

unfoldable pub insert_session : Session → Tx (Unit {0})
insert_session s db =
    if fits_session s db
    then ok (tt, record db { sessions = insert s db.sessions })
    else err integrity_error

-- An empty text counts as none. The session's hash is UNIQUE in the table.
unfoldable pub link_external : Option String → String → Tx (Unit {0})
link_external none token_hash db = ok (tt, db)
link_external (some external) token_hash db =
    if external == ""
    then ok (tt, db)
    else if any (λ (t : ExternalToken). t.session_token_hash == token_hash) db.external_tokens
    then err integrity_error
    else ok (
      tt,
      record db {
        external_tokens =
            insert (record { external_token_hash = external; session_token_hash = token_hash })
              db.external_tokens;
      },
    )

unfoldable pub create_session :
    String → ℕ → String → String → Time → String → Option String → Time → Tx (Unit {0})
unfolding insert_session link_external
create_session token_hash user_id provider csrf_token expires_at session_kind external now db =
    if not (is_session_kind session_kind)
    then err invalid_session_kind
    else let s : Session = record {
      token_hash = token_hash;
      user_id = user_id;
      provider = provider;
      session_kind = session_kind;
      csrf_token = csrf_token;
      expires_at = expires_at;
    } in
      elim (insert_session s (drop_sessions (λ s. leb s.expires_at now) db)) [
        | err e ↦ err e
        | ok (_, db') ↦ link_external external token_hash db'
      ]

-- The row of the join: the session and its user.
unfoldable pub get_session : String → Time → Db → Option (Session × User)
get_session token_hash now db =
    elim (find (λ s. has_token token_hash s && ltb now s.expires_at) db.sessions) [
      | none ↦ none
      | some s ↦ Option.map (λ u. (s, u)) (find (λ (u : User). u.id == s.user_id) db.users)
    ]

pub delete_session : String → Db → Db
delete_session token_hash db = drop_sessions (has_token token_hash) db

-- token_hash IN (SELECT session_token_hash …)
abbrev is_linked : List ExternalToken → String → Session → Bool
is_linked tokens external s =
    any
      (λ (t : ExternalToken).
        t.external_token_hash == external && t.session_token_hash == s.token_hash)
      tokens

delete_session_by_external_token : String → Db → Db
delete_session_by_external_token external db =
    drop_sessions (is_linked db.external_tokens external) db

abbrev has_key : String → String × String → Bool
has_key key row = row.0 == key

pub get_setting : String → Option String → Db → Option String
get_setting key default db = elim (find (has_key key) db.settings) [
  | none ↦ default
  | some row ↦ some row.1
]

set_setting : String → String → Db → Db
set_setting key value db = record db {
  settings = upsert (has_key key) (λ _. (key, value)) (key, value) db.settings;
}

abbrev pub active_provider : String
active_provider = "active_provider"

-- The result says whether the provider changed.
pub activate_auth_provider : String → Db → Bool × Db
activate_auth_provider provider db = elim (find (has_key active_provider) db.settings) [
  | none ↦ (false, record db { settings = insert (active_provider, provider) db.settings })
  | some row ↦ if row.1 == provider then (false, db) else (
    true,
    record db {
      sessions = [];
      external_tokens = [];
      settings =
          update_where (has_key active_provider) (λ _. (active_provider, provider)) db.settings;
    },
  )
]
