-- ===== src/Executor/Limits/Branches.antt =====
-- The commands that each branch of `run_once` can cost.
use openclaw_manager.Common.{
  ℕ, zero, suc, String, Bool, Bool-cases, true, false, ◌&&◌, some, ◌==◌, nat_eq, string_eq,
  option_eq, if◌then◌else◌, inl, inr, arith, ◌+◌,
}
use openclaw_manager.Json.{Fields}
use openclaw_manager.Store.Rows.{Action, delete, restore, Product}
use openclaw_manager.Executor.{
  ClaimedInstance, Command, compose_up, connect_networks, reload_nginx, configure_created,
  run_cleanup_failed, run_set_basic_auth, run_update_version, run_install_skill,
  run_set_model_provider, Services, Texts, M,
}
use openclaw_manager.Executor.Calls.{run, success_with, failure_with}
use openclaw_manager.Executor.Binding.{is_up}
use openclaw_manager.Executor.Creation.{
  is_hermes_product, has_own_ingress, reload_nginx_after_create, open_ingress, give_up,
  report_created, finish_creation, after_create, perform_creation, creation_password,
  creation_report, creation_failure, rollback_code, drop_client,
}
use openclaw_manager.Executor.Actions.{
  run_reported, clean_failed, change_basic_auth, configure_ingress, change_version, where_up,
  add_skill, change_model_provider, change_devices, retention_guard, change_retention,
  end_retention, attempt_runtime, try_command, change_runtime, is_delete,
}
use openclaw_manager.Executor.Settled.{Try-cases}
use openclaw_manager.Executor.Limits.{
  Costs, give-Costs, weaken, sequence-Costs, sequence-Costs_later, if-Costs, ask-Costs,
  require-Costs, when_true-Costs, param-Costs, update-Costs, run-Costs, report_end-Costs,
}

-- The commands that make a new instance reachable, and those of its creation with one for the script
-- and one for the rollback.
abbrev pub ingress_limit : Product → ℕ
ingress_limit product = if has_own_ingress product then 1 else 3

abbrev pub creation_limit : Product → ℕ
creation_limit product = 1 + (ingress_limit product + 1)

module _ {W : Type 0} (services : Services W) (texts : Texts) where
  run_reported-Costs :
      (c : Command) (summary : String) → Costs 1 (run_reported services texts c summary)
  run_reported-Costs c summary =
      sequence-Costs 1 0 _ _ (run-Costs services c)
        (λ (code, output). report_end-Costs services summary (code, texts.tail output))

  pub clean_failed-Costs : Costs 1 (clean_failed services texts)
  unfolding clean_failed
  clean_failed-Costs = sequence-Costs_later 1 _ _ (update-Costs services _) (λ _.
      sequence-Costs 1 0 _ _ (run-Costs services run_cleanup_failed) (λ (code, output).
        if-Costs 0 (code == 0) _ _ (update-Costs services _) (update-Costs services _)))

  pub change_basic_auth-Costs :
      (params : Fields) → Costs 1 (change_basic_auth services texts params)
  unfolding change_basic_auth
  change_basic_auth-Costs params = sequence-Costs_later 1 _ _ (update-Costs services _) (λ _.
      sequence-Costs_later 1 _ _ (param-Costs "enabled" params)
        (λ enabled. run_reported-Costs (run_set_basic_auth enabled) "Basic Auth update failed"))

  pub configure_ingress-Costs :
      (params : Fields) → Costs 1 (configure_ingress services texts params)
  unfolding configure_ingress
  configure_ingress-Costs params =
      sequence-Costs_later 1 _ _ (update-Costs services _)
        (λ _. run_reported-Costs _ "Hermes ingress refresh failed")

  pub change_version-Costs : (params : Fields) → Costs 1 (change_version services texts params)
  unfolding change_version
  change_version-Costs params = sequence-Costs_later 1 _ _ (update-Costs services _) (λ _.
      sequence-Costs_later 1 _ _ (param-Costs "version" params) (λ version.
        sequence-Costs_later 1 _ _ (param-Costs "restore_model_provider" params) (λ restored.
          run_reported-Costs (run_update_version version restored) "version update failed")))

  where_up-Costs :
      (refusal : String) (m : M W (Unit {0}))
      → Costs 1 m
      → Costs 1 (where_up services texts refusal m)
  where_up-Costs refusal m h =
      sequence-Costs_later 1 _ _ (ask-Costs services.status_text) (λ status.
        if-Costs 1 (is_up status) _ _ h (
          weaken 0 1 _ (omega arith)
            (update-Costs services (failure_with "instance is not running" (some refusal)))))

  pub add_skill-Costs : (params : Fields) → Costs 1 (add_skill services texts params)
  unfolding add_skill
  add_skill-Costs params = sequence-Costs_later 1 _ _ (update-Costs services _) (λ _.
      where_up-Costs _ _ (
        sequence-Costs_later 1 _ _ (param-Costs "skill_id" params)
          (λ skill. run_reported-Costs (run_install_skill skill) "skill installation failed")))

  pub change_model_provider-Costs :
      (params : Fields) → Costs 1 (change_model_provider services texts params)
  unfolding change_model_provider
  change_model_provider-Costs params = sequence-Costs_later 1 _ _ (update-Costs services _) (λ _.
      where_up-Costs _ _ (
        sequence-Costs_later 1 _ _ (param-Costs "model_provider_id" params) (λ provider.
          sequence-Costs_later 1 _ _ (param-Costs "model_id" params) (λ model.
            sequence-Costs_later 1 _ _ (param-Costs "model_base_url" params) (λ base_url.
              sequence-Costs_later 1 _ _ (param-Costs "model_alias" params) (λ alias.
                run_reported-Costs (run_set_model_provider provider model base_url alias)
                  "model provider update failed"))))))

  pub change_devices-Costs :
      (c : Command) (name : String) → Costs 1 (change_devices services texts c name)
  unfolding change_devices
  change_devices-Costs c name =
      sequence-Costs_later 1 _ _ (update-Costs services _)
        (λ _. where_up-Costs _ _ (run_reported-Costs c _))

  drop_client-Costs : Costs 0 (drop_client services texts)
  unfolding drop_client
  drop_client-Costs =
      sequence-Costs_later 0 _ _ (record { bound = λ s. omega arith })
        (λ created. when_true-Costs 0 created _ (ask-Costs services.delete_hermes_client))

  end_retention-Costs :
      (action : Action) (name : String) (instance' : ClaimedInstance) (answer : ℕ × String)
      → Costs 0 (end_retention services texts action name instance' answer)
  end_retention-Costs action name instance' (code, output) =
      if-Costs 0 (code == 0) _ _
        (sequence-Costs_later 0 _ _
          (when_true-Costs 0
            (is_delete services texts action && is_hermes_product instance'.product) _
            (ask-Costs services.delete_hermes_client))
          (λ _. update-Costs services (success_with output)))
        (sequence-Costs_later 0 _ _ drop_client-Costs
          (λ _. update-Costs services (failure_with _ (some output))))

  retention_guard-Costs :
      (action : Action) (instance' : ClaimedInstance)
      → Costs 0 (retention_guard services texts action instance')
  retention_guard-Costs delete instance' = require-Costs _ _
  retention_guard-Costs restore instance' = require-Costs _ _
  retention_guard-Costs _ instance' = require-Costs _ _

  pub change_retention-Costs :
      (action : Action) (name : String) (instance' : ClaimedInstance)
      → Costs 1 (change_retention services texts action name instance')
  unfolding change_retention
  change_retention-Costs action name instance' =
      sequence-Costs_later 1 _ _ (update-Costs services _) (λ _.
        sequence-Costs_later 1 _ _ (retention_guard-Costs action instance') (λ _.
          sequence-Costs 1 0 _ _ (run-Costs services _) (λ (code, output).
            end_retention-Costs action name instance' (code, texts.tail output))))

  try_command-Costs : (c : Command) → Costs 1 (try_command services texts c)
  unfolding try_command
  try_command-Costs c = record {
    bound = λ s.
        let spent = (run-Costs services c).bound s in
        elim (Try-cases (run services c s).0) [
          | inl (a, e) ↦ rw (e, try_command) spent
          | inr (text, e) ↦ rw (e, try_command) spent
        ];
  }

  attempt_runtime-Costs :
      (c : Command) (name : String) (attempts attempt left : ℕ) (output : String)
      → Costs left (attempt_runtime services texts c name attempts attempt left output)
  unfolding attempt_runtime
  attempt_runtime-Costs c name attempts attempt zero output = update-Costs services _
  attempt_runtime-Costs c name attempts attempt (suc left) output =
      sequence-Costs_later (suc left) _ _ (update-Costs services _) (λ _.
        weaken (1 + left) (suc left) _ (omega arith) (
          sequence-Costs 1 left _ _ (try_command-Costs c) (λ (code, text).
            if-Costs left (code == 0) _ _ (weaken 0 left _ (omega arith) (update-Costs services _))
              (attempt_runtime-Costs c name attempts (attempt + 1) left (texts.tail text)))))

  pub change_runtime-Costs :
      (c : Command) (name : String) (is_start is_stop : Bool) (attempts : ℕ)
      → Costs attempts (change_runtime services texts c name is_start is_stop attempts)
  unfolding change_runtime
  change_runtime-Costs c name is_start is_stop attempts =
      sequence-Costs_later attempts _ _ (ask-Costs services.status_text) (λ status.
        if-Costs attempts (is_start && is_up status) _ _
          (weaken 0 attempts _ (omega arith) (update-Costs services _))
          (if-Costs attempts (is_stop && status == "STOPPED") _ _
            (weaken 0 attempts _ (omega arith) (update-Costs services _))
            (attempt_runtime-Costs c name attempts 1 attempts "")))

  rollback_code-Costs :
      (product : Product) (created : Bool)
      → Costs (if created then 1 else 0) (rollback_code services texts product created)
  rollback_code-Costs product true =
      sequence-Costs 1 0 _ _ (run-Costs services _) (λ (code, output). give-Costs code)
  rollback_code-Costs product false = give-Costs 0

  give_up-Costs :
      (product : Product) (created : Bool) (password output : String)
      → Costs 1 (give_up services texts product created password output)
  unfolding give_up
  give_up-Costs product created password output = sequence-Costs_later 1 _ _ drop_client-Costs (λ _.
      sequence-Costs 1 0 _ _
        (weaken (if created then 1 else 0) 1 _ (ground arith) (rollback_code-Costs product created))
        (λ code. update-Costs services (creation_failure services texts product created code _)))

  report_created-Costs : Costs 0 (report_created services texts)
  unfolding report_created
  report_created-Costs =
      sequence-Costs_later 0 _ _ (ask-Costs services.describe_creation)
        (λ result. update-Costs services (creation_report result))

  finish_creation-Costs :
      (product : Product) (password : String)
      → Costs 1 (finish_creation services texts product password)
  unfolding finish_creation
  finish_creation-Costs product password = record {
    bound = λ s.
        let spent = report_created-Costs.bound s in
        let after = (report_created services texts s).1 in
        elim (Try-cases (report_created services texts s).0) [
          | inl (a, e) ↦ rw (e, finish_creation) (omega arith)
          | inr (text, e) ↦
              let more = (give_up-Costs product true password text).bound after in
              rw (e, finish_creation) (omega arith)
        ];
  }

  reload_nginx_after_create-Costs : Costs 3 (reload_nginx_after_create services texts)
  unfolding reload_nginx_after_create
  reload_nginx_after_create-Costs = sequence-Costs 1 2 _ _ (run-Costs services compose_up) (λ up.
      if-Costs 2 (up.0 == 0) _ _
        (sequence-Costs 1 1 _ _ (run-Costs services connect_networks) (λ connected.
          if-Costs 1 (connected.0 == 0) _ _
            (sequence-Costs 1 0 _ _ (run-Costs services reload_nginx) (λ reloaded. give-Costs _))
            (weaken 0 1 _ (omega arith) (give-Costs connected))))
        (weaken 0 2 _ (omega arith) (give-Costs up)))

  open_ingress-Costs :
      (product : Product) → Costs (ingress_limit product) (open_ingress services texts product)
  open_ingress-Costs product = elim (Bool-cases (has_own_ingress product)) [
    | inl e ↦ rw e (run-Costs services configure_created)
    | inr e ↦ rw e reload_nginx_after_create-Costs
  ]

  after_create-Costs :
      (product : Product) (password : String) (answer : ℕ × String)
      → Costs (ingress_limit product + 1) (after_create services texts product password answer)
  after_create-Costs product password (code, output) =
      if-Costs (ingress_limit product + 1) (code == 0) _ _
        (sequence-Costs (ingress_limit product) 1 _ _ (open_ingress-Costs product) (λ ingress.
          if-Costs 1 (ingress.0 == 0) _ _ (finish_creation-Costs product password)
            (give_up-Costs product true password ingress.1)))
        (weaken 1 (ingress_limit product + 1) _ (omega arith)
          (give_up-Costs product false password output))

  creation_password-Costs :
      (product : Product) (params : Fields)
      → Costs 0 (creation_password services texts product params)
  creation_password-Costs product params =
      if-Costs 0 (is_hermes_product product) _ _ (give-Costs "") (
        sequence-Costs_later 0 _ _ (param-Costs "secret_path" params)
          (λ path. ask-Costs (services.consume_secret path)))

  pub perform_creation-Costs :
      (instance' : ClaimedInstance) (params : Fields)
      → Costs (creation_limit instance'.product) (perform_creation services texts instance' params)
  unfolding perform_creation
  perform_creation-Costs instance' params =
      let n = creation_limit instance'.product in
      sequence-Costs_later n _ _ (update-Costs services _) (λ _.
        sequence-Costs_later n _ _ (creation_password-Costs instance'.product params) (λ password.
          sequence-Costs 1 (ingress_limit instance'.product + 1) _ _ (run-Costs services _)
            (λ answer. after_create-Costs instance'.product password answer)))
