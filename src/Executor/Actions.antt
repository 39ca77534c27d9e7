-- ===== src/Executor/Actions.antt =====
-- The other branches of `run_once`, one for each action.
use Prim.Native.String
use openclaw_manager.Common.{
  ℕ, zero, suc, String, Bool, true, false, not, ◌&&◌, some, ◌==◌, nat_eq, string_eq, if◌then◌else◌,
  ◌+◌,
}
use openclaw_manager.Json.{Fields, get}
use openclaw_manager.Store.Rows.{Action, delete, restore}
use openclaw_manager.Store.Ports.{is_deleted, is_restorable}
use openclaw_manager.Executor.{
  ClaimedInstance, Command, run_cleanup_failed, run_delete, run_purge_deleted, run_restore,
  run_set_basic_auth, run_configure_ingress, run_update_version, run_install_skill,
  run_set_model_provider, returned, raised, Services, Texts, M, ◌>>=◌, ◌>>◌,
}
use openclaw_manager.Executor.Calls.{
  ask, update, run, param, running_at, success_with, failure_with, require, when_true, report_end,
}
use openclaw_manager.Executor.Binding.{is_up}
use openclaw_manager.Executor.Creation.{is_hermes_product, drop_client}

module _ {W : Type 0} (services : Services W) (texts : Texts) where
  -- The report of a command, with the end of its output.
  abbrev pub run_reported : Command → String → M W (Unit {0})
  run_reported c summary = do
    (code, output) ← run services c
    report_end services summary (code, texts.tail output)

  unfoldable pub clean_failed : M W (Unit {0})
  clean_failed = do
    update services (running_at "cleaning failed instance")
    (code, output) ← run services run_cleanup_failed
    if code == 0
        then update services (success_with "failed instance resources cleaned")
        else update services (failure_with "failed instance cleanup failed" (some output))

  unfoldable pub change_basic_auth : Fields → M W (Unit {0})
  change_basic_auth params = do
    update services (running_at "updating Basic Auth")
    enabled ← param "enabled" params
    run_reported (run_set_basic_auth enabled) "Basic Auth update failed"

  unfoldable pub configure_ingress : Fields → M W (Unit {0})
  configure_ingress params = do
    update services (running_at "refreshing Hermes ingress")
    run_reported (run_configure_ingress (get "hermes_upload_max_body_size" params))
        "Hermes ingress refresh failed"

  unfoldable pub change_version : Fields → M W (Unit {0})
  change_version params = do
    update services (running_at "updating version")
    version ← param "version" params
    restore_model_provider ← param "restore_model_provider" params
    run_reported (run_update_version version restore_model_provider) "version update failed"

  -- A branch that needs a running instance, and reports a failure where there is none.
  abbrev pub where_up : String → M W (Unit {0}) → M W (Unit {0})
  where_up refusal m = do
    status ← ask services.status_text
    if is_up status
        then m
        else update services (failure_with "instance is not running" (some refusal))

  unfoldable pub add_skill : Fields → M W (Unit {0})
  add_skill params = do
    update services (running_at "installing skill")
    where_up "Skill installation requires a running instance." (do
      skill ← param "skill_id" params
      run_reported (run_install_skill skill) "skill installation failed")

  unfoldable pub change_model_provider : Fields → M W (Unit {0})
  change_model_provider params = do
    update services (running_at "setting model provider")
    where_up "Model provider update requires a running instance." (do
      provider ← param "model_provider_id" params
      model ← param "model_id" params
      base_url ← param "model_base_url" params
      alias ← param "model_alias" params
      run_reported (run_set_model_provider provider model base_url alias)
          "model provider update failed")

  -- `action.replace("_", " ")` is written out.
  unfoldable pub change_devices : Command → String → M W (Unit {0})
  change_devices c name = do
    update services (running_at name)
    where_up "Device operation requires a running instance."
        (run_reported c (String.◌++◌ name " failed"))

  abbrev pub retention_guard : Action → ClaimedInstance → M W (Unit {0})
  retention_guard delete instance' =
      require (not (is_deleted instance'.status)) "instance is already deleted"
  retention_guard restore instance' =
      require (is_deleted instance'.status && is_restorable instance'.restore_state)
        "instance is not restorable"
  retention_guard _ instance' =
      require (is_deleted instance'.status && is_restorable instance'.restore_state)
        "instance is not eligible for permanent deletion"

  abbrev pub retention_command : Action → ClaimedInstance → Command
  retention_command delete instance' = run_delete
  retention_command restore instance' = run_restore (is_hermes_product instance'.product)
  retention_command _ instance' = run_purge_deleted

  abbrev pub is_delete : Action → Bool
  is_delete delete = true
  is_delete _ = false

  abbrev pub end_retention : Action → String → ClaimedInstance → ℕ × String → M W (Unit {0})
  end_retention action name instance' (code, output) =
      if code == 0
      then (do
        when_true (is_delete action && is_hermes_product instance'.product)
            (ask services.delete_hermes_client)
        update services (success_with output))
      else (do
        drop_client services texts
        update services
            (failure_with (String.◌++◌ "instance " (String.◌++◌ name " failed")) (some output)))

  -- `delete`, `restore` and `purge_deleted`
  unfoldable pub change_retention : Action → String → ClaimedInstance → M W (Unit {0})
  change_retention action name instance' = do
    update services (running_at (String.◌++◌ name " instance"))
    retention_guard action instance'
    (code, output) ← run services (retention_command action instance')
    end_retention action name instance' (code, texts.tail output)

  -- A try of a runtime command; an exception counts as the code 1.
  unfoldable pub try_command : Command → M W (ℕ × String)
  try_command c s =
      let (answer, s') = run services c s in
      elim answer [ returned a ↦ (returned a, s') | raised text ↦ (returned (1, text), s') ]

  abbrev pub step_text : String → ℕ → ℕ → String
  step_text name attempt attempts = String.◌++◌ name (
      String.◌++◌ " attempt "
        (String.◌++◌ (texts.number attempt) (String.◌++◌ "/" (texts.number attempts))))

  -- The loop over the attempts that are left, and the report of the last failure.
  unfoldable pub attempt_runtime : Command → String → ℕ → ℕ → ℕ → String → M W (Unit {0})
  unfolding try_command
  attempt_runtime c name attempts attempt zero output = update services (
      failure_with
        (String.◌++◌ name
          (String.◌++◌ " failed after " (String.◌++◌ (texts.number attempts) " attempt(s)")))
        (some output))
  attempt_runtime c name attempts attempt (suc left) output = do
    update services (running_at (step_text name attempt attempts))
    (code, text) ← try_command c
    if code == 0
        then update services (success_with (texts.tail text))
        else attempt_runtime c name attempts (attempt + 1) left (texts.tail text)

  unfoldable pub change_runtime : Command → String → Bool → Bool → ℕ → M W (Unit {0})
  unfolding attempt_runtime
  change_runtime c name is_start is_stop attempts = do
    status ← ask services.status_text
    if is_start && is_up status
        then update services (success_with "instance already running")
        else if is_stop && status == "STOPPED"
        then update services (success_with "instance already stopped")
        else attempt_runtime c name attempts 1 attempts ""
