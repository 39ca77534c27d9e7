-- ===== src/Store/Tests/AccountRuns.antt =====
-- Runs of the operations on memberships, passwords and sessions.
use openclaw_manager.Common.{
  ℕ, ◌+◌, ◌*◌, ◌%◌, true, none, some, List, [], ◌∷◌, ◌==◌, nat_eq, string_eq, if◌then◌else◌, ltb,
  length, ◌≡◌, refl, arith,
}
use openclaw_manager.Store.Rows.{Db, Credential, Session, viewer, Instance, User}
use openclaw_manager.Store.Jobs.{instance_row}
use openclaw_manager.Store.Members.{
  get_instance_for_user, add_instance_member, put_member, remove_instance_member, is_active_user,
  user_row, owner, member,
}
use openclaw_manager.Store.Members.Access.{
  Reaches, get_instance_for_user_sound, get_instance_for_user-add, get_instance_for_user-remove,
}
use openclaw_manager.Store.Credentials.{get_local_credential}
use openclaw_manager.Store.Credentials.Lockout.{lockout, record_login_failures}
use openclaw_manager.Store.Sessions.{
  create_session, insert_session, link_external, get_session, delete_session,
  activate_auth_provider,
}
use openclaw_manager.Store.Sessions.Lifetime.{
  get_session-create_session, get_session-delete_session, user_of,
}
use openclaw_manager.Store.Sessions.Activation.{IsActivated, activate_auth_provider-IsActivated}
use openclaw_manager.Store.Users.{ensure_legacy_user, insert_user}
use openclaw_manager.Store.Users.Legacy.{ensure_legacy_user_idempotent}
use openclaw_manager.Store.Error.{ok}
use openclaw_manager.Store.Tests.{office, running_box, bob, password_row, left_by}

get_instance_for_user_sound_example :
    (u : User) × (user_row office "u-1" ≡ some u)
    × (instance_row office "i-1" ≡ some running_box)
    × (is_active_user u.status ≡ true)
    × Reaches office running_box u owner
unfolding get_instance_for_user
get_instance_for_user_sound_example =
    get_instance_for_user_sound "i-1" "u-1" office running_box owner refl

abbrev joined : Db
joined = left_by (add_instance_member "i-1" "u-2" viewer (some 1) office)

get_instance_for_user-add_example :
    (i : Instance) × (instance_row office "i-1" ≡ some i)
    × (get_instance_for_user "i-1" "u-2" joined ≡ some (i, member viewer))
unfolding add_instance_member put_member
get_instance_for_user-add_example =
    get_instance_for_user-add "i-1" "u-2" office viewer (some 1) joined refl

get_instance_for_user-remove_example :
    get_instance_for_user "i-1" "u-2" (remove_instance_member "i-1" "u-2" joined).1 ≡ none
unfolding add_instance_member put_member
get_instance_for_user-remove_example =
    get_instance_for_user-remove "i-1" "u-2" joined bob running_box refl refl (omega arith)

abbrev first_failures : List ℕ
first_failures = 100 ∷ 110 ∷ []

lockout_example :
    (c' : Credential) × (get_local_credential 1
        (record_login_failures 1 3 15 (100 ∷ 110 ∷ 120 ∷ []) office)
      ≡ some c')
    × (c'.failed_login_count ≡ (password_row.failed_login_count + length first_failures + 1) % 3)
    × (c'.locked_until ≡ (if c'.failed_login_count == 0 then some (120 + 15 * 60) else none))
    × (c'.password_hash ≡ password_row.password_hash)
unfolding get_local_credential
lockout_example = lockout 1 3 15 first_failures 120 office password_row refl (omega arith)

abbrev browser : Session
browser = record {
  token_hash = "t-1";
  user_id = 1;
  provider = "local";
  session_kind = "user";
  csrf_token = "c-1";
  expires_at = 900;
}

abbrev signed_in : Db
signed_in = left_by (create_session "t-1" 1 "local" "c-1" 900 "user" (some "x-1") 100 office)

get_session-create_session_example :
    (u : User) × (user_of office browser ≡ some u)
    × (get_session "t-1" 500 signed_in
        ≡ (if ltb 500 browser.expires_at then some (browser, u) else none))
unfolding create_session insert_session link_external
get_session-create_session_example =
    get_session-create_session browser (some "x-1") 100 office signed_in 500 refl

get_session-delete_session_example :
    get_session "t-1" 500 (delete_session "t-1" signed_in)
    ≡ (if browser.token_hash == browser.token_hash then none else get_session "t-1" 500 signed_in)
get_session-delete_session_example = get_session-delete_session "t-1" "t-1" 500 signed_in

activate_auth_provider-IsActivated_example :
    IsActivated "ldap" signed_in (activate_auth_provider "ldap" signed_in)
activate_auth_provider-IsActivated_example = activate_auth_provider-IsActivated "ldap" signed_in

abbrev with_carol : Db
with_carol = left_by (ensure_legacy_user (λ name. name) "u-3" "carol" office)

ensure_legacy_user_idempotent_example :
    ensure_legacy_user (λ name. name) "u-4" "carol" with_carol ≡ ok (3, with_carol)
unfolding ensure_legacy_user insert_user
ensure_legacy_user_idempotent_example =
    ensure_legacy_user_idempotent (λ name. name) "u-3" "u-4" "carol" office with_carol 3 refl
