-- ===== src/Executor/Limits/Total.antt =====
-- The commands that a whole run can cost.
use openclaw_manager.Common.{
  ℕ, String, true, false, none, some, nat_eq, string_eq, option_eq, ◌≡◌, inl, inr, arith,
  Option-cases, ◌+◌, ◌≤◌, length,
}
use openclaw_manager.Capabilities.{execution_action_capability}
use openclaw_manager.Store.Jobs.{action_name}
use openclaw_manager.Store.Rows.{
  Product, Action, create, start, stop, restart, set_basic_auth, update_version, install_skill,
  set_model_provider, refresh_devices, approve_latest_device, delete, restore, purge_deleted,
  cleanup_failed, wechat_bind, refresh_ingress, other,
}
use openclaw_manager.Executor.{
  ClaimedJob, ClaimedInstance, run_refresh_devices, run_approve_latest_device, run_start, run_stop,
  run_restart, returned, Services, Texts, State,
}
use openclaw_manager.Executor.Calls.{job_cancelled, failure_with}
use openclaw_manager.Executor.Run.{
  perform, check_capability, attempt_job, report_exception, run_once,
}
use openclaw_manager.Executor.Settled.{Try-cases}
use openclaw_manager.Executor.Limits.{
  count, Costs, throw-Costs, sequence-Costs_later, ask-Costs, require-Costs, update-Costs,
  job_cancelled-Costs,
}
use openclaw_manager.Executor.Limits.Branches.{
  clean_failed-Costs, change_basic_auth-Costs, configure_ingress-Costs, change_version-Costs,
  add_skill-Costs, change_model_provider-Costs, change_devices-Costs, change_retention-Costs,
  change_runtime-Costs, perform_creation-Costs, creation_limit,
}
use openclaw_manager.Executor.Limits.Installer.{bind_wechat-Costs}

-- A start or a stop is tried as often as the setting says.
abbrev pub command_limit : ℕ → Product → Action → ℕ
command_limit max_attempts product create = creation_limit product
command_limit max_attempts product start = max_attempts
command_limit max_attempts product stop = max_attempts
command_limit max_attempts product wechat_bind = 0
command_limit max_attempts product (other name) = 0
command_limit max_attempts product _ = 1

module _ {W : Type 0} (services : Services W) (texts : Texts) (max_attempts : ℕ) where
  perform-Costs :
      (job : ClaimedJob) (instance' : ClaimedInstance) (action : Action)
      → Costs
          (command_limit max_attempts instance'.product action)
          (perform services texts max_attempts job instance' action)
  unfolding perform
  perform-Costs job instance' cleanup_failed = clean_failed-Costs services texts
  perform-Costs job instance' create = perform_creation-Costs services texts instance' job.params
  perform-Costs job instance' wechat_bind = bind_wechat-Costs services texts
  perform-Costs job instance' set_basic_auth = change_basic_auth-Costs services texts job.params
  perform-Costs job instance' refresh_ingress = configure_ingress-Costs services texts job.params
  perform-Costs job instance' update_version = change_version-Costs services texts job.params
  perform-Costs job instance' install_skill = add_skill-Costs services texts job.params
  perform-Costs job instance' set_model_provider =
      change_model_provider-Costs services texts job.params
  perform-Costs job instance' refresh_devices =
      change_devices-Costs services texts run_refresh_devices "refresh devices"
  perform-Costs job instance' approve_latest_device =
      change_devices-Costs services texts run_approve_latest_device "approve latest device"
  perform-Costs job instance' delete =
      change_retention-Costs services texts delete "delete" instance'
  perform-Costs job instance' restore =
      change_retention-Costs services texts restore "restore" instance'
  perform-Costs job instance' purge_deleted =
      change_retention-Costs services texts purge_deleted "purge_deleted" instance'
  perform-Costs job instance' start =
      change_runtime-Costs services texts run_start "start" true false max_attempts
  perform-Costs job instance' stop =
      change_runtime-Costs services texts run_stop "stop" false true max_attempts
  perform-Costs job instance' restart =
      change_runtime-Costs services texts run_restart "restart" false false 1
  perform-Costs job instance' _ = throw-Costs _

  check_capability-Costs :
      (job : ClaimedJob) (instance' : ClaimedInstance)
      → Costs 0 (check_capability services texts max_attempts job instance')
  unfolding check_capability
  check_capability-Costs job instance' =
      elim (Option-cases (execution_action_capability (action_name job.action))) [
        | inl e ↦ rw (e, check_capability) (throw-Costs _)
        | inr (capability, e) ↦ rw (e, check_capability) (require-Costs _ _)
      ]

  attempt_job-Costs :
      (job : ClaimedJob) (instance' : ClaimedInstance)
      → Costs
          (command_limit max_attempts instance'.product job.action)
          (attempt_job services texts max_attempts job instance')
  unfolding attempt_job
  attempt_job-Costs job instance' =
      let n = command_limit max_attempts instance'.product job.action in
      sequence-Costs_later n _ _ (ask-Costs services.make_adapter) (λ _.
        sequence-Costs_later n _ _ (check_capability-Costs job instance') (λ _.
          sequence-Costs_later n _ _ (require-Costs _ _)
            (λ _. perform-Costs job instance' job.action)))

  report_exception-commands :
      (text : String) (s : State W)
      → count (report_exception services texts max_attempts text s) ≤ count s
  unfolding report_exception
  report_exception-commands text s =
      let asked = (job_cancelled-Costs services).bound s in
      let told =
        (update-Costs services (failure_with text none)).bound (job_cancelled services s).1 in
      elim (Try-cases (job_cancelled services s).0) [
        | inl (true, e) ↦ rw (e, report_exception) (omega arith)
        | inl (false, e) ↦ rw (e, report_exception) (omega arith)
        | inr (_, e) ↦ rw (e, report_exception) (omega arith)
      ]

  -- A run costs a bounded number of commands, whatever they answer, where a command is a call of an
  -- adapter that returns a code and an output. A creation costs at most three for a product with an
  -- ingress of its own, which are the script, the ingress and the rollback, and at most five for
  -- another one, as its ingress takes the containers, the networks and the reload of nginx. A start
  -- or a stop costs at most as many as the setting of the attempts, a binding to WeChat or an unknown
  -- action none, and any other action at most one, so that a restart is never repeated. The questions
  -- for the status of an instance are not counted.
  pub run_once-command_limit :
      (s : State W) (job : ClaimedJob) (instance' : ClaimedInstance)
      → (services.claim s.world).0 ≡ returned (some (job, instance'))
      → length (run_once services texts max_attempts s).1.commands
        ≤ length s.commands + command_limit max_attempts instance'.product job.action
  unfolding run_once
  run_once-command_limit s job instance' h =
      let t : State W = record s { world = (services.claim s.world).1 } in
      let spent = (attempt_job-Costs job instance').bound t in
      elim (Try-cases (attempt_job services texts max_attempts job instance' t).0) [
        | inl (a, e) ↦ rw (h, run_once) (rw e spent)
        | inr (text, e) ↦
            let more =
              report_exception-commands text
                (attempt_job services texts max_attempts job instance' t).1 in
            rw (h, run_once) (rw e (omega arith))
      ]
