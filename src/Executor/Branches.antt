-- ===== src/Executor/Branches.antt =====
-- Every branch of `run_once` settles its job.
use openclaw_manager.Common.{
  ℕ, zero, suc, String, Bool, true, false, ◌&&◌, some, ◌==◌, nat_eq, string_eq, option_eq, refl,
  inl, inr, ◌+◌,
}
use openclaw_manager.Json.{Fields}
use openclaw_manager.Store.Rows.{Action, Product}
use openclaw_manager.Executor.{
  ClaimedInstance, Command, run_set_basic_auth, run_update_version, run_install_skill,
  run_set_model_provider, Services, Texts, M,
}
use openclaw_manager.Executor.Calls.{success_with, failure_with}
use openclaw_manager.Executor.Binding.{is_up}
use openclaw_manager.Executor.Creation.{
  give_up, report_created, finish_creation, after_create, perform_creation, creation_report,
  creation_failure,
}
use openclaw_manager.Executor.Actions.{
  run_reported, clean_failed, change_basic_auth, configure_ingress, change_version, where_up,
  add_skill, change_model_provider, change_devices, change_retention, end_retention,
  attempt_runtime, change_runtime,
}
use openclaw_manager.Executor.Settled.{
  IsSettled, Settles, Try-cases, sequence-Settles, if-Settles, update-Settles, report_end-Settles,
}

module _ {W : Type 0} (services : Services W) (texts : Texts) where
  run_reported-Settles :
      (c : Command) (summary : String) → Settles (run_reported services texts c summary)
  run_reported-Settles c summary =
      sequence-Settles _ _
        (λ (code, output). report_end-Settles services summary (code, texts.tail output))

  pub clean_failed-Settles : Settles (clean_failed services texts)
  unfolding clean_failed
  clean_failed-Settles = sequence-Settles _ _ (λ _. sequence-Settles _ _ (λ (code, output).
      if-Settles (code == 0) _ _ (update-Settles services _ refl) (update-Settles services _ refl)))

  pub change_basic_auth-Settles :
      (params : Fields) → Settles (change_basic_auth services texts params)
  unfolding change_basic_auth
  change_basic_auth-Settles params = sequence-Settles _ _ (λ _.
      sequence-Settles _ _
        (λ enabled. run_reported-Settles (run_set_basic_auth enabled) "Basic Auth update failed"))

  pub configure_ingress-Settles :
      (params : Fields) → Settles (configure_ingress services texts params)
  unfolding configure_ingress
  configure_ingress-Settles params =
      sequence-Settles _ _ (λ _. run_reported-Settles _ "Hermes ingress refresh failed")

  pub change_version-Settles : (params : Fields) → Settles (change_version services texts params)
  unfolding change_version
  change_version-Settles params = sequence-Settles _ _ (λ _. sequence-Settles _ _ (λ version.
      sequence-Settles _ _ (λ restored.
        run_reported-Settles (run_update_version version restored) "version update failed")))

  where_up-Settles :
      (refusal : String) (m : M W (Unit {0}))
      → Settles m
      → Settles (where_up services texts refusal m)
  where_up-Settles refusal m h = sequence-Settles _ _ (λ status.
      if-Settles (is_up status) _ _ h
        (update-Settles services (failure_with "instance is not running" (some refusal)) refl))

  pub add_skill-Settles : (params : Fields) → Settles (add_skill services texts params)
  unfolding add_skill
  add_skill-Settles params = sequence-Settles _ _ (λ _. where_up-Settles _ _ (
      sequence-Settles _ _
        (λ skill. run_reported-Settles (run_install_skill skill) "skill installation failed")))

  pub change_model_provider-Settles :
      (params : Fields) → Settles (change_model_provider services texts params)
  unfolding change_model_provider
  change_model_provider-Settles params = sequence-Settles _ _ (λ _. where_up-Settles _ _ (
      sequence-Settles _ _ (λ provider. sequence-Settles _ _ (λ model.
        sequence-Settles _ _ (λ base_url. sequence-Settles _ _ (λ alias.
          run_reported-Settles (run_set_model_provider provider model base_url alias)
            "model provider update failed"))))))

  pub change_devices-Settles :
      (c : Command) (name : String) → Settles (change_devices services texts c name)
  unfolding change_devices
  change_devices-Settles c name =
      sequence-Settles _ _ (λ _. where_up-Settles _ _ (run_reported-Settles c _))

  end_retention-Settles :
      (action : Action) (name : String) (instance' : ClaimedInstance) (answer : ℕ × String)
      → Settles (end_retention services texts action name instance' answer)
  end_retention-Settles action name instance' (code, output) =
      if-Settles (code == 0) _ _
        (sequence-Settles _ _ (λ _. update-Settles services (success_with output) refl))
        (sequence-Settles _ _ (λ _. update-Settles services (failure_with _ (some output)) refl))

  pub change_retention-Settles :
      (action : Action) (name : String) (instance' : ClaimedInstance)
      → Settles (change_retention services texts action name instance')
  unfolding change_retention
  change_retention-Settles action name instance' = sequence-Settles _ _ (λ _.
      sequence-Settles _ _ (λ _.
        sequence-Settles _ _ (λ (code, output).
          end_retention-Settles action name instance' (code, texts.tail output))))

  attempt_runtime-Settles :
      (c : Command) (name : String) (attempts attempt left : ℕ) (output : String)
      → Settles (attempt_runtime services texts c name attempts attempt left output)
  unfolding attempt_runtime
  attempt_runtime-Settles c name attempts attempt zero output =
      update-Settles services (failure_with _ (some output)) refl
  attempt_runtime-Settles c name attempts attempt (suc left) output = sequence-Settles _ _ (λ _.
      sequence-Settles _ _ (λ (code, text).
        if-Settles (code == 0) _ _ (update-Settles services (success_with (texts.tail text)) refl)
          (attempt_runtime-Settles c name attempts (attempt + 1) left (texts.tail text))))

  pub change_runtime-Settles :
      (c : Command) (name : String) (is_start is_stop : Bool) (attempts : ℕ)
      → Settles (change_runtime services texts c name is_start is_stop attempts)
  unfolding change_runtime
  change_runtime-Settles c name is_start is_stop attempts = sequence-Settles _ _ (λ status.
      if-Settles (is_start && is_up status) _ _
        (update-Settles services (success_with "instance already running") refl)
        (if-Settles (is_stop && status == "STOPPED") _ _
          (update-Settles services (success_with "instance already stopped") refl)
          (attempt_runtime-Settles c name attempts 1 attempts "")))

  give_up-Settles :
      (product : Product) (created : Bool) (password output : String)
      → Settles (give_up services texts product created password output)
  unfolding give_up
  give_up-Settles product created password output = sequence-Settles _ _ (λ _.
      sequence-Settles _ _ (λ code.
        update-Settles services (creation_failure services texts product created code _) refl))

  report_created-Settles : Settles (report_created services texts)
  unfolding report_created
  report_created-Settles =
      sequence-Settles _ _ (λ result. update-Settles services (creation_report result) refl)

  finish_creation-Settles :
      (product : Product) (password : String)
      → Settles (finish_creation services texts product password)
  unfolding finish_creation
  finish_creation-Settles product password = record {
    settled = λ s. elim (Try-cases (report_created services texts s).0) [
      | inl (a, e) ↦
          rw (e, finish_creation) (rw (e, IsSettled) at (report_created-Settles.settled s))
      | inr (text, e) ↦
          rw (e, finish_creation)
            ((give_up-Settles product true password text).settled
              (report_created services texts s).1)
    ];
  }

  after_create-Settles :
      (product : Product) (password : String) (answer : ℕ × String)
      → Settles (after_create services texts product password answer)
  after_create-Settles product password (code, output) =
      if-Settles (code == 0) _ _
        (sequence-Settles _ _ (λ ingress.
          if-Settles (ingress.0 == 0) _ _ (finish_creation-Settles product password)
            (give_up-Settles product true password ingress.1)))
        (give_up-Settles product false password output)

  pub perform_creation-Settles :
      (instance' : ClaimedInstance) (params : Fields)
      → Settles (perform_creation services texts instance' params)
  unfolding perform_creation
  perform_creation-Settles instance' params = sequence-Settles _ _ (λ _.
      sequence-Settles _ _ (λ password.
        sequence-Settles _ _ (λ answer. after_create-Settles instance'.product password answer)))
