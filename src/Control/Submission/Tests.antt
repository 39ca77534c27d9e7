-- ===== src/Control/Submission/Tests.antt =====
-- An administrator asks for a restart.
use openclaw_manager.Common.{true, false, none, some, ◌≡◌, refl}
use openclaw_manager.Json.{text, Fields, end, entry}
use openclaw_manager.Store.Rows.{Db, Job, User, Instance, restart}
use openclaw_manager.Store.Error.{ok}
use openclaw_manager.Store.Jobs.{
  new_job, job_row, create_execution_job, insert_job, check_job, resolve_instance,
}
use openclaw_manager.Store.Jobs.Listing.{list_execution_jobs}
use openclaw_manager.Capabilities.{
  product_capabilities, product_supports, execution_action_capability,
}
use openclaw_manager.Store.Users.{get_user_by_public_id}
use openclaw_manager.Store.Tests.{office}
use openclaw_manager.Control.Submission.{admin_web, Formats, target_for, state_checks}
use openclaw_manager.Control.Submission.Handler.{
  Submission, submit, submit_for, submit_job, read_submission, is_blocked,
}
use openclaw_manager.Control.Submission.Entitled.{PassesAll, IsSubmitted, submit-IsSubmitted}

abbrev formats : Formats
formats = record {
  is_version = λ t. true;
  is_skill_preset = λ t. false;
  is_model_provider = λ params. false;
  dumps = λ params. "{}";
}

abbrev wish : Fields
wish = entry "request_id" (text "r-9") (
    entry "action" (text "instance.restart")
      (entry "actor_user_public_id" (text "u-1") (entry "instance_public_id" (text "i-1") end)))

abbrev restarting : Job
restarting = new_job 2 "r-9" none (some 1) (some 1) restart "{}" 300

abbrev asked : Db
asked = (submit formats admin_web wish 300 office).1

submit-IsSubmitted_example :
    (o : Submission) × (actor : User) × (i : Instance) × IsSubmitted formats admin_web wish 300
      office asked restarting o actor i
    × (create_execution_job o.request_id o.action
          (some actor.id)
          (some o.instance_public_id)
          o.params_json
          o.parent_request_id
          300
          office
        ≡ ok (restarting, asked))
    × (job_row office o.request_id ≡ none
        → PassesAll (state_checks o.action i)
          × (is_blocked o.action o.instance_public_id office ≡ false))
unfolding submit submit_for submit_job read_submission target_for is_blocked create_execution_job
    insert_job check_job resolve_instance list_execution_jobs get_user_by_public_id
    product_capabilities product_supports execution_action_capability
submit-IsSubmitted_example =
    submit-IsSubmitted formats admin_web wish 300 office asked restarting refl
