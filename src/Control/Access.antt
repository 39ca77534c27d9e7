-- ===== src/Control/Access.antt =====
-- `instance_for_entry`, `require_instance_auth`, `resolve_auth_session` and
-- `authorize_instance_access` of services/manager-control/app.py. What a request and the environment
-- hold is an argument, and so is `is_hex`, the test of a token hash by a regular expression.
pub mod Entry
pub mod Tests
use openclaw_manager.Common.{
  String, Bool, true, false, not, ◌&&◌, ◌||◌, Option, none, some, ◌==◌, string_eq, if◌then◌else◌,
}
use mathlib.Core.Option
use openclaw_manager.Store.Rows.{Time, Db, User, UserRole, Session, Instance}
use openclaw_manager.Store.Jobs.{instance_row}
use openclaw_manager.Store.Ports.{is_live}
use openclaw_manager.Store.Members.{get_instance_for_user, is_active_user, AccessRole}
use openclaw_manager.Store.Sessions.{get_session, activate_auth_provider}

-- A response that is not 200, with its status code and message.
pub data Refusal : Type 0 where
  -- 503
  token_not_configured : Refusal
  -- 401
  invalid_service_token active_session_required : Refusal
  -- 400
  invalid_token_hash session_arguments_required : Refusal
  -- 404
  active_session_not_found : Refusal
  -- 403
  access_forbidden administrator_required : Refusal

pub data Response {ℓ} (A : Type ℓ) : Type ℓ where
  reply : A → Response A
  refuse : Refusal → Response A

abbrev pub is_admin : UserRole → Bool
is_admin UserRole.admin = true
is_admin UserRole.user = false

-- The instance that a user may enter: any one for an administrator.
unfoldable pub instance_for_entry : String → User → Db → Option Instance
instance_for_entry instance_public_id u db =
    if is_admin u.role
    then instance_row db instance_public_id
    else Option.map (λ (row : Instance × AccessRole). row.0)
        (get_instance_for_user instance_public_id u.public_id db)

-- `required_provider in {"", "local", "nginx-basic"}`
abbrev pub is_internal_provider : String → Bool
is_internal_provider provider = provider == "" || provider == "local" || provider == "nginx-basic"

-- The rest of the handler, for the user of the session.
unfoldable pub authorize_user : String → String → Option (Session × User) → Db → Response String
unfolding instance_for_entry
authorize_user required_provider instance_public_id found db = elim found [
  | none ↦ refuse active_session_required
  | some (s, u) ↦
      if not (is_active_user u.status)
        || is_internal_provider required_provider
        || not (s.provider == required_provider)
      then refuse active_session_required
      else elim (instance_for_entry instance_public_id u db) [
        | none ↦ refuse access_forbidden
        | some i ↦ if is_live i.status then reply u.public_id else refuse access_forbidden
      ]
]

-- The reply is the identity of the user.
unfoldable pub authorize_instance_access :
    (String → Bool) → String → String → String → Time → Db → Response String
unfolding authorize_user
authorize_instance_access is_hex required_provider instance_public_id token_hash now db =
    if not (is_hex token_hash)
    then refuse invalid_token_hash
    else authorize_user required_provider instance_public_id (get_session token_hash now db) db

-- The guard of that handler; the expected token comes from the environment.
unfoldable pub require_instance_auth {ℓ} : {A : Type ℓ} → String → String → Response A → Response A
require_instance_auth expected provided view =
    if expected == ""
    then refuse token_not_configured
    else if provided == "" || not (provided == expected)
    then refuse invalid_service_token
    else view

-- `mixed` is MIXED_AUTH_ENABLED, and `for_admin` says that the caller is manager-admin-web.
unfoldable pub resolve_auth_session :
    Bool → Bool → String → String → Time → Db → Response (Session × User) × Db
resolve_auth_session mixed for_admin token_hash provider now db =
    if token_hash == "" || provider == ""
    then (refuse session_arguments_required, db)
    else let db' = if mixed then db else (activate_auth_provider provider db).1 in
      (
        elim (get_session token_hash now db') [
          | none ↦ refuse active_session_not_found
          | some (s, u) ↦
              if not (s.provider == provider) || not (is_active_user u.status)
              then refuse active_session_not_found
              else if for_admin && not (is_admin u.role)
              then refuse administrator_required
              else reply (s, u)
        ],
        db',
      )
