-- ===== src/Executor/Run.antt =====
-- `run_once`: one job, from the claim to its last report.
use Prim.Native.String
use openclaw_manager.Common.{ℕ, String, Bool, true, false, not, ◌||◌, none, some, if◌then◌else◌}
use openclaw_manager.Capabilities.{product_supports, execution_action_capability}
use openclaw_manager.Store.Rows.{
  Action, create, start, stop, restart, set_basic_auth, update_version, install_skill,
  set_model_provider, refresh_devices, approve_latest_device, delete, restore, purge_deleted,
  cleanup_failed, wechat_bind, refresh_ingress,
}
use openclaw_manager.Store.Jobs.{action_name}
use openclaw_manager.Store.Ports.{is_deleted, product_name}
use openclaw_manager.Executor.{
  ClaimedJob, ClaimedInstance, run_refresh_devices, run_approve_latest_device, run_start, run_stop,
  run_restart, Try, returned, raised, Services, Texts, State, M, throw, ◌>>◌,
}
use openclaw_manager.Executor.Calls.{ask, update, job_cancelled, failure_with, require}
use openclaw_manager.Executor.Binding.{bind_wechat}
use openclaw_manager.Executor.Creation.{perform_creation}
use openclaw_manager.Executor.Actions.{
  clean_failed, change_basic_auth, configure_ingress, change_version, add_skill,
  change_model_provider, change_devices, change_retention, change_runtime,
}

-- `action in {"restore", "purge_deleted"}`
abbrev pub suits_deleted : Action → Bool
suits_deleted restore = true
suits_deleted purge_deleted = true
suits_deleted _ = false

module _ {W : Type 0} (services : Services W) (texts : Texts) (max_attempts : ℕ) where
  -- The branch of the action.
  unfoldable pub perform : ClaimedJob → ClaimedInstance → Action → M W (Unit {0})
  unfolding clean_failed perform_creation bind_wechat change_basic_auth configure_ingress
      change_version add_skill change_model_provider change_devices change_retention change_runtime
  perform job instance' cleanup_failed = clean_failed services texts
  perform job instance' create = perform_creation services texts instance' job.params
  perform job instance' wechat_bind = bind_wechat services texts
  perform job instance' set_basic_auth = change_basic_auth services texts job.params
  perform job instance' refresh_ingress = configure_ingress services texts job.params
  perform job instance' update_version = change_version services texts job.params
  perform job instance' install_skill = add_skill services texts job.params
  perform job instance' set_model_provider = change_model_provider services texts job.params
  perform job instance' refresh_devices =
      change_devices services texts run_refresh_devices "refresh devices"
  perform job instance' approve_latest_device =
      change_devices services texts run_approve_latest_device "approve latest device"
  perform job instance' delete = change_retention services texts delete "delete" instance'
  perform job instance' restore = change_retention services texts restore "restore" instance'
  perform job instance' purge_deleted =
      change_retention services texts purge_deleted "purge_deleted" instance'
  perform job instance' start =
      change_runtime services texts run_start "start" true false max_attempts
  perform job instance' stop = change_runtime services texts run_stop "stop" false true max_attempts
  perform job instance' restart = change_runtime services texts run_restart "restart" false false 1
  perform job instance' _ =
      throw (String.◌++◌ "unsupported execution action: " (action_name job.action))

  -- The checks before the branches.
  unfoldable pub check_capability : ClaimedJob → ClaimedInstance → M W (Unit {0})
  check_capability job instance' = elim (execution_action_capability (action_name job.action)) [
    | none ↦ throw (String.◌++◌ "instance product does not support " (action_name job.action))
    | some capability ↦
        require (product_supports (product_name instance'.product) capability)
          (String.◌++◌ "instance product does not support " capability)
  ]

  -- The `try` block.
  unfoldable pub attempt_job : ClaimedJob → ClaimedInstance → M W (Unit {0})
  unfolding perform check_capability
  attempt_job job instance' = do
    ask services.make_adapter
    check_capability job instance'
    require (not (is_deleted instance'.status) || suits_deleted job.action)
        "deleted instance only supports restore or permanent deletion"
    perform job instance' job.action

  -- The `except` block: the failure is reported, unless the user has taken the job back, and an
  -- exception of that report is swallowed.
  unfoldable pub report_exception : String → State W → State W
  unfolding job_cancelled update
  report_exception text s =
      let (answer, s') = job_cancelled services s in
      elim answer [
        | returned cancelled ↦
            if cancelled then s' else (update services (failure_with text none) s').1
        | raised _ ↦ (update services (failure_with text none) s').1
      ]

  -- Whether there was a job; the claim itself may raise.
  unfoldable pub run_once : State W → Try Bool × State W
  unfolding attempt_job report_exception
  run_once s =
      let (claimed, s) = ask services.claim s in
      elim claimed [
        | raised text ↦ (raised text, s)
        | returned none ↦ (returned false, s)
        | returned (some (job, instance')) ↦
            let (answer, s') = attempt_job job instance' s in
            elim answer [
              | returned _ ↦ (returned true, s')
              | raised text ↦ (returned true, report_exception text s')
            ]
      ]
