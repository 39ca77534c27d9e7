-- ===== src/Control/Submission/Handler.antt =====
-- The handler itself: the refusals in their order, and the store's `create_execution_job` behind them.
use openclaw_manager.Common.{
  ℕ, String, Bool, true, false, not, ◌&&◌, ◌||◌, Option, none, some, List, [], ◌∷◌, ◌==◌, nat_eq,
  string_eq, option_eq, if◌then◌else◌, any, is_some,
}
use openclaw_manager.Json.{Fields, get, has_only, text_of, is_missing}
use openclaw_manager.Store.Rows.{
  Time, Db, User, Instance, Job, queued, running, Action, approve_latest_device, delete, restore,
  purge_deleted, cleanup_failed, wechat_bind,
}
use openclaw_manager.Store.Error.{Error, ok, err, request_id_already_used}
use openclaw_manager.Store.Jobs.{job_row, create_execution_job}
use openclaw_manager.Store.Jobs.Listing.{JobFilter, list_execution_jobs}
use openclaw_manager.Store.Users.{get_user_by_public_id}
use openclaw_manager.Control.Replies.{Reply, done, refused, fault, is_uncaught}
use openclaw_manager.Control.Submission.{
  Caller, Formats, first_refusal, is_request_id, fits_text, job_action_params, named_action,
  given_params, has_bad_params, is_action, actor_checks, target_for, supports, state_checks,
}

abbrev pub exclusive_actions : List Action
exclusive_actions = delete ∷ restore ∷ purge_deleted ∷ cleanup_failed ∷ []

abbrev pub is_exclusive : Action → Bool
is_exclusive action = any (λ a. is_action a action) exclusive_actions

abbrev pub open_jobs_of : String → Option Action → JobFilter
open_jobs_of instance_public_id action = record {
  status = none;
  statuses = queued ∷ running ∷ [];
  actor_user_public_id = none;
  instance_public_id = some instance_public_id;
  action = action;
  parent_request_id = none;
}

abbrev pub is_filled : List Job → Bool
is_filled [] = false
is_filled (job ∷ jobs) = true

abbrev pub has_open_job : String → Db → Option Action → Bool
has_open_job instance_public_id db action =
    is_filled (list_execution_jobs (open_jobs_of instance_public_id action) false 1 db)

-- A retention job is refused beside any open job of the instance, any other job beside an open
-- retention job, and a binding or an approval beside another one.
unfoldable pub is_blocked : Action → String → Db → Bool
is_blocked action instance_public_id db =
    (not (is_exclusive action)
      && any (λ a. has_open_job instance_public_id db (some a)) exclusive_actions)
    || (has_open_job instance_public_id db (if is_exclusive action then none else some action)
        && (is_action action wechat_bind
            || is_action action approve_latest_device
            || is_exclusive action))

-- What a job is asked for with.
pub record Submission : Type 0 where
  pub request_id : String
  pub parent_request_id : Option String
  pub action : Action
  pub instance_public_id : String
  pub params_json : String

abbrev pub error_status : Error → ℕ
error_status request_id_already_used = 409
error_status _ = 400

abbrev pub repeated_reply : Error → Reply Job
repeated_reply e = if is_uncaught e then fault else refused 409

unfoldable pub submit_job : Submission → User → Instance → Time → Db → Reply Job × Db
unfolding is_blocked
submit_job o actor i now db =
    let created =
      create_execution_job o.request_id o.action (some actor.id) (some o.instance_public_id)
        o.params_json o.parent_request_id now db in
    if is_some (job_row db o.request_id)
    then elim created [ ok (job, db') ↦ (done job, db') | err e ↦ (repeated_reply e, db) ]
    else elim (first_refusal (state_checks o.action i)) [
      | some status ↦ (refused status, db)
      | none ↦
          if is_blocked o.action o.instance_public_id db then (refused 409, db) else elim created [
            | ok (job, db') ↦ (done job, db')
            | err e ↦ (refused (error_status e), db)
          ]
    ]

abbrev pub actor_row : Option String → Db → Option User
actor_row none db = none
actor_row (some public_id) db = get_user_by_public_id public_id db

-- The checks from the actor on, for a payload whose fields are well formed.
unfoldable pub submit_for : Caller → Submission → Option String → Time → Db → Reply Job × Db
unfolding submit_job target_for
submit_for caller o actor_public_id now db = elim (actor_row actor_public_id db) [
  | none ↦ (refused 403, db)
  | some actor ↦ elim (first_refusal (actor_checks caller o.action actor)) [
    | some status ↦ (refused status, db)
    | none ↦ elim (target_for o.action o.instance_public_id actor.public_id db) [
      | none ↦ (refused (if is_action o.action wechat_bind then 403 else 404), db)
      | some i ↦ if supports o.action i then submit_job o actor i now db else (refused 400, db)
    ]
  ]
]

-- The fields of the payload, none for a 400.
unfoldable pub read_submission : Formats → Fields → Option Submission
read_submission formats payload = elim (text_of (get "request_id" payload)) [
  | none ↦ none
  | some request_id ↦ elim (named_action (text_of (get "action" payload))) [
    | none ↦ none
    | some action ↦ elim (given_params (get "params" payload)) [
      | none ↦ none
      | some params ↦ elim (text_of (get "instance_public_id" payload)) [
        | none ↦ none
        | some instance_public_id ↦
            if not (is_request_id request_id)
              || (not (is_missing (get "parent_request_id" payload))
                  && not (fits_text is_request_id (get "parent_request_id" payload)))
              || not (has_only (job_action_params action) params)
              || has_bad_params formats action params
              || instance_public_id == ""
            then none
            else some (record {
              request_id = request_id;
              parent_request_id = text_of (get "parent_request_id" payload);
              action = action;
              instance_public_id = instance_public_id;
              params_json = formats.dumps params;
            })
      ]
    ]
  ]
]

unfoldable pub submit : Formats → Caller → Fields → Time → Db → Reply Job × Db
unfolding read_submission submit_for
submit formats caller payload now db = elim (read_submission formats payload) [
  | none ↦ (refused 400, db)
  | some o ↦ submit_for caller o (text_of (get "actor_user_public_id" payload)) now db
]
