-- ===== src/Executor/Outcome.antt =====
-- `run_once` as a whole.
use openclaw_manager.Common.{
  ℕ, String, true, false, none, some, string_eq, option_eq, ◌≡◌, refl, inl, inr, Option-cases,
}
use openclaw_manager.Store.Rows.{
  Action, create, start, stop, restart, set_basic_auth, update_version, install_skill,
  set_model_provider, refresh_devices, approve_latest_device, delete, restore, purge_deleted,
  cleanup_failed, wechat_bind, refresh_ingress,
}
use openclaw_manager.Executor.{
  Update, ClaimedJob, ClaimedInstance, run_refresh_devices, run_approve_latest_device, run_start,
  run_stop, run_restart, returned, Services, Texts, State,
}
use openclaw_manager.Executor.Calls.{job_cancelled, update, failure_with}
use openclaw_manager.Executor.Run.{perform, attempt_job, report_exception, run_once}
use openclaw_manager.Executor.Settled.{
  is_end, is_final, IsSettled, Settles, Try-cases, throw-Settles, sequence-Settles,
}
use openclaw_manager.Executor.Branches.{
  clean_failed-Settles, change_basic_auth-Settles, configure_ingress-Settles,
  change_version-Settles, add_skill-Settles, change_model_provider-Settles, change_devices-Settles,
  change_retention-Settles, change_runtime-Settles, perform_creation-Settles,
}
use openclaw_manager.Executor.Installer.{IsStopped, job_cancelled-IsStopped, bind_wechat-Settles}

module _ {W : Type 0} (services : Services W) (texts : Texts) (max_attempts : ℕ) where
  perform-Settles :
      (job : ClaimedJob) (instance' : ClaimedInstance) (action : Action)
      → Settles (perform services texts max_attempts job instance' action)
  unfolding perform
  perform-Settles job instance' cleanup_failed = clean_failed-Settles services texts
  perform-Settles job instance' create =
      perform_creation-Settles services texts instance' job.params
  perform-Settles job instance' wechat_bind = bind_wechat-Settles services texts
  perform-Settles job instance' set_basic_auth = change_basic_auth-Settles services texts job.params
  perform-Settles job instance' refresh_ingress =
      configure_ingress-Settles services texts job.params
  perform-Settles job instance' update_version = change_version-Settles services texts job.params
  perform-Settles job instance' install_skill = add_skill-Settles services texts job.params
  perform-Settles job instance' set_model_provider =
      change_model_provider-Settles services texts job.params
  perform-Settles job instance' refresh_devices =
      change_devices-Settles services texts run_refresh_devices "refresh devices"
  perform-Settles job instance' approve_latest_device =
      change_devices-Settles services texts run_approve_latest_device "approve latest device"
  perform-Settles job instance' delete =
      change_retention-Settles services texts delete "delete" instance'
  perform-Settles job instance' restore =
      change_retention-Settles services texts restore "restore" instance'
  perform-Settles job instance' purge_deleted =
      change_retention-Settles services texts purge_deleted "purge_deleted" instance'
  perform-Settles job instance' start =
      change_runtime-Settles services texts run_start "start" true false max_attempts
  perform-Settles job instance' stop =
      change_runtime-Settles services texts run_stop "stop" false true max_attempts
  perform-Settles job instance' restart =
      change_runtime-Settles services texts run_restart "restart" false false 1
  perform-Settles job instance' _ = throw-Settles _

  attempt_job-Settles :
      (job : ClaimedJob) (instance' : ClaimedInstance)
      → Settles (attempt_job services texts max_attempts job instance')
  unfolding attempt_job
  attempt_job-Settles job instance' = sequence-Settles _ _ (λ _.
      sequence-Settles _ _
        (λ _. sequence-Settles _ _ (λ _. perform-Settles job instance' job.action)))

  update-final :
      (u : Update) (s : State W) → is_end u ≡ true → is_final (update services u s).1.events ≡ true
  unfolding update
  update-final u s h = elim (Option-cases (services.send u s.world).0) [
    | inl k ↦ rw (k, update) h
    | inr (refusal, k) ↦ rw (k, update) h
  ]

  report_exception-final :
      (text : String) (s : State W)
      → is_final (report_exception services texts max_attempts text s).events ≡ true
  unfolding report_exception
  report_exception-final text s =
      let asked = job_cancelled services s in
      elim (Try-cases asked.0) [
        | inl (true, e) ↦
            rw (e, report_exception)
              (rw (e, IsStopped) at (job_cancelled-IsStopped services texts s))
        | inl (false, e) ↦
            rw (e, report_exception) (update-final (failure_with text none) asked.1 refl)
        | inr (_, e) ↦ rw (e, report_exception) (update-final (failure_with text none) asked.1 refl)
      ]

  -- Every job that is claimed is brought to an end, whatever the adapters, Docker and
  -- manager-control do: `run_once` returns true and raises nothing, and the last that manager-control
  -- has heard of the job is a report that it succeeded or failed, accepted or refused, unless
  -- manager-control has last answered that the job is cancelled.
  pub run_once_final :
      (s : State W) (job : ClaimedJob) (instance' : ClaimedInstance)
      → (services.claim s.world).0 ≡ returned (some (job, instance'))
      → ((run_once services texts max_attempts s).0 ≡ returned true)
        × (is_final (run_once services texts max_attempts s).1.events ≡ true)
  unfolding run_once
  run_once_final s job instance' h =
      let t : State W = record s { world = (services.claim s.world).1 } in
      elim (Try-cases (attempt_job services texts max_attempts job instance' t).0) [
        | inl (a, e) ↦
            rw (h, run_once)
              (rw e (refl, rw (e, IsSettled) at ((attempt_job-Settles job instance').settled t)))
        | inr (text, e) ↦
            rw (h, run_once)
              (rw e (
                refl,
                report_exception-final text
                    (attempt_job services texts max_attempts job instance' t).1,
              ))
      ]
