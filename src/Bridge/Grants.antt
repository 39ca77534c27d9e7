-- ===== src/Bridge/Grants.antt =====
-- `issue_grant`: an authorization code for a user with a session of the university's login.
use openclaw_manager.Common.{
  ℕ, String, Bool, true, not, ◌&&◌, ◌||◌, Option, none, some, ◌==◌, nat_eq, string_eq,
  if◌then◌else◌, ◌+◌, any, find, insert, ltb, join, where_true,
}
use openclaw_manager.Store.Rows.{Time, Db, Instance, User, Session, Member}
use openclaw_manager.Store.Ports.{is_active}
use openclaw_manager.Store.Members.{is_active_user}
use openclaw_manager.Control.Access.{is_admin}
use openclaw_manager.Control.Creation.{is_hermes}
use openclaw_manager.Bridge.{
  Client, Grant, BridgeDb, invalid_client, invalid_grant_metadata, integrity_error, Answer, answer,
  raised, is_challenge, is_unrevoked, has_code, has_client_id,
}

-- The user is an administrator, the owner of the instance or one of its members.
abbrev pub may_use : Db → Instance → User → Bool
may_use db i u =
    is_admin u.role
    || i.owner_user_id == u.id
    || any (λ (m : Member). m.instance_id == i.id && m.user_id == u.id) db.members

abbrev pub admits : Db → Time → Client → Instance → Session → User → Bool
admits db clock c i s u =
    is_unrevoked c
    && is_hermes i.product
    && is_active i.status
    && is_active_user u.status
    && s.provider == "campus-uis"
    && ltb clock s.expires_at
    && may_use db i u

-- The row of the SELECT; `clock` is `utc_now()`.
unfoldable pub grant_row : String → String → Time → BridgeDb → Option (Client × User)
grant_row session_id client_id clock db = join (find (has_client_id client_id) db.clients) (λ c.
    join (find (λ (i : Instance). i.id == c.instance_id) db.store.instances) (λ i.
      join (find (λ (s : Session). s.token_hash == session_id) db.store.sessions) (λ s.
        join (find (λ (u : User). u.id == s.user_id) db.store.users)
          (λ u. where_true (admits db.store clock c i s u) (c, u)))))

-- Whether an optional value, where it is given, is the one.
abbrev pub agrees : Option ℕ → ℕ → Bool
agrees none n = true
agrees (some m) n = n == m

abbrev pub new_grant : String → Client → User → String → String → String → ℕ → ℕ → Grant
new_grant code_hash c u session_id redirect_uri code_challenge ttl now = record {
  code_hash = code_hash;
  client_id = c.id;
  instance_id = c.instance_id;
  user_id = u.id;
  manager_session_id = session_id;
  redirect_uri = redirect_uri;
  code_challenge = code_challenge;
  created_at = now;
  expires_at = now + ttl;
  consumed_at = none;
}

-- The code is drawn before the SELECT.
unfoldable pub issue_grant :
    (String → String)
    → String
    → String
    → Option ℕ
    → Option ℕ
    → String
    → String
    → String
    → ℕ
    → ℕ
    → Time
    → BridgeDb
    → Answer String × BridgeDb
unfolding grant_row
issue_grant sha256 code client_id instance_id user_id session_id redirect_uri code_challenge ttl now
      clock db =
    if not (is_challenge code_challenge) || ttl == 0
    then (raised invalid_grant_metadata, db)
    else elim (grant_row session_id client_id clock db) [
      | none ↦ (raised invalid_client, db)
      | some (c, u) ↦
          if not (c.redirect_uri == redirect_uri)
            || not (agrees instance_id c.instance_id)
            || not (agrees user_id u.id)
          then (raised invalid_client, db)
          else if any (has_code (sha256 code)) db.grants
          then (raised integrity_error, db)
          else (
            answer code,
            record db {
              grants =
                  insert
                    (new_grant (sha256 code) c u session_id redirect_uri code_challenge ttl now)
                    db.grants;
            },
          )
    ]
