-- ===== src/Control/Submission.antt =====
-- `create_execution_job` of services/manager-control/app.py: a web front asks for a job. The regular
-- expressions of versions, the configured skills and `validate_model_provider_params` are arguments,
-- and so is the JSON text of the parameters.
pub mod Handler
pub mod Entitled
pub mod Alone
pub mod Tests
use openclaw_manager.Common.{
  ℕ, String, Bool, true, false, not, ◌&&◌, ◌||◌, Option, none, some, List, [], ◌∷◌, ◌==◌, nat_eq,
  string_eq, option_eq, if◌then◌else◌, find, any, all, length, codes, leb, is_some,
}
use openclaw_manager.Capabilities.{product_supports, execution_action_capability}
use openclaw_manager.Json.{Value, text, flag, obj, Fields, end, get}
use openclaw_manager.Store.Rows.{
  Db, User, Instance, Product, evoscientist, MemberRole, Action, start, stop, restart,
  set_basic_auth, update_version, install_skill, set_model_provider, refresh_devices,
  approve_latest_device, delete, restore, purge_deleted, cleanup_failed, wechat_bind,
  refresh_ingress,
}
use openclaw_manager.Store.Jobs.{action_name, instance_row}
use openclaw_manager.Store.Members.{
  is_active_user, AccessRole, owner, member, get_instance_for_user,
}
use openclaw_manager.Store.Ports.{is_deleted, is_failed, is_restorable, product_name}
use openclaw_manager.Control.Access.{is_admin}
use openclaw_manager.Control.Creation.{is_hermes}

-- The service that calls, with the header X-Actor-User-Public-Id of a user's page.
pub data Caller : Type 0 where
  admin_web : Caller
  user_web : String → Caller

pub record Formats : Type 0 where
  pub is_version : String → Bool
  pub is_skill_preset : String → Bool
  pub is_model_provider : Fields → Bool
  pub dumps : Fields → String

-- The early returns of the handler: the status of the first condition that holds.
abbrev pub first_refusal : List (Bool × ℕ) → Option ℕ
first_refusal [] = none
first_refusal ((holds, status) ∷ more) = if holds then some status else first_refusal more

abbrev pub is_letter_or_digit : ℕ → Bool
is_letter_or_digit c = (leb 65 c && leb c 90) || (leb 97 c && leb c 122) || (leb 48 c && leb c 57)

abbrev pub is_one_of : String → ℕ → Bool
is_one_of marks c = any (λ m. m == c) (codes marks)

-- REQUEST_ID_RE
abbrev pub is_request_id : String → Bool
is_request_id t =
    leb 1 (length (codes t))
    && leb (length (codes t)) 128
    && all (λ c. is_letter_or_digit c || is_one_of "._:-" c) (codes t)

abbrev pub fits_text : (String → Bool) → Option Value → Bool
fits_text test (some (text t)) = test t
fits_text test _ = false

-- The actions of JOB_ACTION_PARAMS; each of them matches ACTION_RE.
abbrev pub job_actions : List Action
job_actions =
    start ∷ stop ∷ restart ∷ set_basic_auth ∷ update_version ∷ install_skill ∷ set_model_provider
    ∷ refresh_devices ∷ approve_latest_device ∷ delete ∷ restore ∷ purge_deleted ∷ cleanup_failed
    ∷ wechat_bind ∷ refresh_ingress ∷ []

abbrev pub job_action_params : Action → List String
job_action_params restart = "reason" ∷ []
job_action_params set_basic_auth = "enabled" ∷ []
job_action_params update_version = "version" ∷ "restore_model_provider" ∷ []
job_action_params install_skill = "skill_id" ∷ []
job_action_params set_model_provider =
    "model_provider_id" ∷ "model_id" ∷ "model_base_url" ∷ "model_alias" ∷ []
job_action_params refresh_ingress = "hermes_upload_max_body_size" ∷ []
job_action_params _ = []

abbrev pub named_action : Option String → Option Action
named_action none = none
named_action (some name) = find (λ action. action_name action == name) job_actions

-- `payload.get("params", {})`, where it is an object
abbrev pub given_params : Option Value → Option Fields
given_params none = some end
given_params (some (obj params)) = some params
given_params (some _) = none

abbrev pub is_unit : List ℕ → Bool
is_unit [] = true
is_unit (c ∷ []) = (leb 48 c && leb c 57) || is_one_of "kKmMgG" c
is_unit (c ∷ cs) = leb 48 c && leb c 57 && is_unit cs

-- `[1-9][0-9]*(?:[kKmMgG])?`
abbrev pub is_upload_size : List ℕ → Bool
is_upload_size [] = false
is_upload_size (c ∷ cs) = leb 49 c && leb c 57 && is_unit cs

abbrev pub is_flag : Option Value → Bool
is_flag (some (flag b)) = true
is_flag _ = false

-- The check of the parameters that the action takes.
abbrev pub has_bad_params : Formats → Action → Fields → Bool
has_bad_params formats refresh_ingress params =
    is_some (get "hermes_upload_max_body_size" params)
    && not (fits_text (λ t. is_upload_size (codes t)) (get "hermes_upload_max_body_size" params))
has_bad_params formats restart params =
    is_some (get "reason" params)
    && not (fits_text (λ t. leb (length (codes t)) 500) (get "reason" params))
has_bad_params formats set_basic_auth params = not (is_flag (get "enabled" params))
has_bad_params formats update_version params =
    not (fits_text formats.is_version (get "version" params))
    || not (is_flag (get "restore_model_provider" params))
has_bad_params formats install_skill params =
    not (fits_text formats.is_skill_preset (get "skill_id" params))
has_bad_params formats set_model_provider params = not (formats.is_model_provider params)
has_bad_params formats _ params = false

abbrev pub is_action : Action → Action → Bool
is_action a b = action_name a == action_name b

abbrev pub is_user_web : Caller → Bool
is_user_web admin_web = false
is_user_web (user_web actor) = true

abbrev pub impersonates : Caller → String → Bool
impersonates admin_web actor = false
impersonates (user_web header) actor = not (header == actor)

-- The checks on the caller and its actor, all of them 403.
abbrev pub actor_checks : Caller → Action → User → List (Bool × ℕ)
actor_checks caller action actor =
    (not (is_active_user actor.status), 403)
    ∷ (impersonates caller actor.public_id, 403)
    ∷ (is_user_web caller && not (is_action action wechat_bind), 403)
    ∷ (not (is_user_web caller) && not (is_admin actor.role), 403)
    ∷ (is_action action wechat_bind && not (is_user_web caller), 403)
    ∷ []

-- `access_role in {"owner", "manager"}`
abbrev pub can_pair : AccessRole → Bool
can_pair owner = true
can_pair (member MemberRole.manager) = true
can_pair (member _) = false

-- The instance, or the status of the refusal.
unfoldable pub target_for : Action → String → String → Db → Option Instance
target_for action instance_public_id actor_public_id db =
    if is_action action wechat_bind
    then elim (get_instance_for_user instance_public_id actor_public_id db) [
      | none ↦ none
      | some (i, role) ↦ if can_pair role then some i else none
    ]
    else instance_row db instance_public_id

abbrev pub supports : Action → Instance → Bool
supports action i = elim (execution_action_capability (action_name action)) [
  | none ↦ false
  | some capability ↦ product_supports (product_name i.product) capability
]

abbrev pub is_evoscientist : Product → Bool
is_evoscientist evoscientist = true
is_evoscientist _ = false

abbrev pub can_return : Instance → Bool
can_return i = is_deleted i.status && is_restorable i.restore_state

-- The checks on the state of the instance, which a request that is sent again does not meet.
abbrev pub state_checks : Action → Instance → List (Bool × ℕ)
state_checks action i =
    (is_action action refresh_ingress && not (is_hermes i.product), 400)
    ∷ (is_action action delete && is_deleted i.status, 409)
    ∷ (
      is_action action cleanup_failed
          && (not (is_failed i.status) || not (is_evoscientist i.product)),
      409,
    )
    ∷ (is_action action purge_deleted && not (can_return i), 409)
    ∷ (is_deleted i.status && not (is_action action restore || is_action action purge_deleted), 409)
    ∷ (is_action action restore && not (can_return i), 409)
    ∷ []
