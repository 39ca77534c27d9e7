-- ===== src/Control/Updates/Steps.antt =====
-- What the parts of a report's transaction leave of the job and of the instances.
use openclaw_manager.Common.{
  ℕ, String, Option, none, some, nat_eq, string_eq, option_eq, find, ◌≡◌, refl, ap, ◌∙◌, inl, inr,
  arith, Bool-cases, Option-cases,
}
use mathlib.Core.Option
use openclaw_manager.Json.{Fields, get, truth}
use openclaw_manager.Store.Rows.{
  Time, Db, Job, JobStatus, Action, create, start, stop, restart, set_basic_auth, update_version,
  delete, restore, cleanup_failed, purge_deleted, InstanceStatus, OperationStatus, success, skipped,
}
use openclaw_manager.Store.Error.{ok, Tx, sequence-inv, ◌>>◌}
use openclaw_manager.Store.Jobs.{has_request_id, job_row, update_execution_job}
use openclaw_manager.Store.Jobs.Transitions.{update_execution_job-frame}
use openclaw_manager.Store.Provisioning.{CreationResult, no_result, finish_instance_provisioning}
use openclaw_manager.Store.Provisioning.Jobs.{finish_instance_provisioning-jobs}
use openclaw_manager.Store.Lifecycle.{
  Retention, set_instance_basic_auth, set_instance_version, set_instance_runtime_status,
  set_instance_retention_state, purge_failed_instance, purge_deleted_instance,
}
use openclaw_manager.Store.Lifecycle.Frame.{
  set_instance_basic_auth-jobs, set_instance_version-jobs, set_instance_runtime_status-rows,
  set_instance_retention_state-jobs, unlinked, purge_failed_instance-job,
  purge_deleted_instance-job,
}
use openclaw_manager.Store.Operations.Frame.{record_operation-frame}
use openclaw_manager.Control.Updates.Audit.{
  Tools, Entry-cases, message_of, is_skipped, recorded_instance, write_record, record_result,
  record_creation, record_end_of, record_end,
}
use openclaw_manager.Control.Updates.{
  Report, job_status, is_succeeded, is_create, on_target, end_creation, end_success, end_job,
  commit_update,
}

-- The status of a job, where there is one.
abbrev pub status_in : String → Db → Option JobStatus
status_in key db = Option.map (λ (j : Job). j.status) (job_row db key)

on_target-some :
    (target : Option String) (change : String → Tx (Unit {0})) (db db' : Db)
    → on_target target change db ≡ ok (tt, db')
    → (id : String) × (target ≡ some id) × (change id db ≡ ok (tt, db'))
on_target-some none change db db' h = absurd (cc h)
on_target-some (some id) change db db' h = (id, refl, h)

module _ (key : String) (db db' : Db) where
  status_in-jobs : db'.jobs ≡ db.jobs → status_in key db' ≡ status_in key db
  status_in-jobs e =
      ap (λ jobs. Option.map (λ (j : Job). j.status) (find (has_request_id key) jobs)) e

  status_in-unlinked :
      (id : ℕ)
      → job_row db' key ≡ Option.map (unlinked id) (job_row db key)
      → status_in key db' ≡ status_in key db
  status_in-unlinked id e =
      ap (Option.map (λ (j : Job). j.status)) e
      ∙ elim (Option-cases (job_row db key)) [ inl n ↦ rw n refl | inr (j, n) ↦ rw n refl ]

module _ (key : String) (params : Fields) (later : Time) (target : Option String)
    (db db' : Db) where
  runtime-status :
      (status : InstanceStatus)
      → on_target target (λ id. set_instance_runtime_status id status later) db ≡ ok (tt, db')
      → status_in key db' ≡ status_in key db
  runtime-status status h =
      let (id, _, k) =
        on_target-some target (λ id. set_instance_runtime_status id status later) db db' h in
      status_in-jobs key db db' (set_instance_runtime_status-rows id later db db' status k).0

  retention-status :
      (action : Retention)
      → on_target target (λ id. set_instance_retention_state id action later) db ≡ ok (tt, db')
      → status_in key db' ≡ status_in key db
  retention-status action h =
      let (id, _, k) =
        on_target-some target (λ id. set_instance_retention_state id action later) db db' h in
      status_in-jobs key db db' (set_instance_retention_state-jobs id later db db' action k)

  end_success-status :
      (tools : Tools) (action : Action)
      → end_success tools params later target action db ≡ ok (tt, db')
      → status_in key db' ≡ status_in key db
  unfolding end_success
  end_success-status tools set_basic_auth h = elim (Option-cases (get "enabled" params)) [
    | inl e ↦ absurd (cc (rw (e, end_success) at h))
    | inr (v, e) ↦
        let (id, _, k) =
          on_target-some target (λ id. set_instance_basic_auth id (truth v) later) db db'
            (rw (e, end_success) at h) in
        status_in-jobs key db db' (set_instance_basic_auth-jobs id later db db' (truth v) k)
  ]
  end_success-status tools update_version h = elim (Option-cases (get "version" params)) [
    | inl e ↦ absurd (cc (rw (e, end_success) at h))
    | inr (v, e) ↦ elim (Option-cases (tools.stored v)) [
      | inl n ↦ absurd (cc (rw n at (rw (e, end_success) at h)))
      | inr (version, n) ↦
          let (id, _, k) =
            on_target-some target (λ id. set_instance_version id version later) db db'
              (rw n at (rw (e, end_success) at h)) in
          status_in-jobs key db db' (set_instance_version-jobs id later db db' version k)
    ]
  ]
  end_success-status tools start h = runtime-status InstanceStatus.active h
  end_success-status tools restart h = runtime-status InstanceStatus.active h
  end_success-status tools stop h = runtime-status InstanceStatus.stopped h
  end_success-status tools delete h = retention-status Retention.delete h
  end_success-status tools restore h = retention-status Retention.restore h
  end_success-status tools cleanup_failed h =
      let (id, _, k) = on_target-some target (λ id. purge_failed_instance id later) db db' h in
      let (i, _, e, _) = purge_failed_instance-job id later db db' key k in
      status_in-unlinked key db db' i.id e
  end_success-status tools purge_deleted h =
      let (id, _, k) = on_target-some target (λ id. purge_deleted_instance id later) db db' h in
      let (i, _, e, _) = purge_deleted_instance-job id later db db' key k in
      status_in-unlinked key db db' i.id e
  end_success-status tools _ h = status_in-jobs key db db' (ground (arith, h))

  end_creation-status :
      (conf_dir : String) (status : JobStatus) (result : CreationResult)
      → end_creation conf_dir status result later target db ≡ ok (tt, db')
      → status_in key db' ≡ status_in key db
  unfolding end_creation
  end_creation-status conf_dir JobStatus.succeeded result h =
      let (id, _, k) =
        on_target-some target
          (λ id. finish_instance_provisioning conf_dir id InstanceStatus.active result later) db db'
          h in
      status_in-jobs key db db'
        (finish_instance_provisioning-jobs conf_dir id InstanceStatus.active result later db db' k)
  end_creation-status conf_dir JobStatus.failed result h =
      let (id, _, k) =
        on_target-some target
          (λ id. finish_instance_provisioning conf_dir id InstanceStatus.failed no_result later) db
          db' h in
      status_in-jobs key db db' (
        finish_instance_provisioning-jobs conf_dir id InstanceStatus.failed no_result later db db'
          k)
  end_creation-status conf_dir _ result h = status_in-jobs key db db' (ground (arith, h))

  end_job-status :
      (tools : Tools) (conf_dir : String) (status : JobStatus) (result : CreationResult)
      (action : Action)
      → end_job tools conf_dir status result params later target action db ≡ ok (tt, db')
      → status_in key db' ≡ status_in key db
  unfolding end_job
  end_job-status tools conf_dir status result action h = elim (Bool-cases (is_create action)) [
    | inl e ↦ end_creation-status conf_dir status result (rw (e, end_job) at h)
    | inr e ↦ elim (Bool-cases (is_succeeded status)) [
      | inl t ↦ end_success-status tools action (rw t at (rw (e, end_job) at h))
      | inr t ↦ status_in-jobs key db db' (ground (arith, rw t at (rw (e, end_job) at h)))
    ]
  ]

-- The audit log is on its own.
abbrev pub LeavesRows : Db → Db → Type 0
LeavesRows db db' = (db'.jobs ≡ db.jobs) × (db'.instances ≡ db.instances)

module _ (tools : Tools) (request_id : String) (output : Option String) (params : Fields)
    (job : Job) (db db' : Db) where
  write_record-rows :
      (status : OperationStatus) (text : String)
      → write_record tools request_id job status text db ≡ ok (tt, db')
      → LeavesRows db db'
  write_record-rows status text h =
      record_operation-frame tools.normalize job.action status none job.actor_user_id
        (recorded_instance job) (some request_id) (some "manager-executor") none (some text) db db'
        h

  record_result-rows :
      (status : OperationStatus)
      → record_result tools request_id status output params job db ≡ ok (tt, db')
      → LeavesRows db db'
  unfolding record_result
  record_result-rows status h = elim (Entry-cases (message_of tools.str job.action params)) [
    | inl e ↦
        (ground (arith, rw (e, record_result) at h), ground (arith, rw (e, record_result) at h))
    | inr (none, e) ↦ absurd (cc (rw (e, record_result) at h))
    | inr (some t, e) ↦ elim (Bool-cases (is_skipped job.action output)) [
      | inl k ↦
          write_record-rows skipped "No pending device request found."
            (rw k at (rw (e, record_result) at h))
      | inr k ↦ write_record-rows status t (rw k at (rw (e, record_result) at h))
    ]
  ]

  record_end_of-rows :
      (status : OperationStatus) (text : String) (action : Action)
      → record_end_of tools request_id status text output params job action db ≡ ok (tt, db')
      → LeavesRows db db'
  unfolding record_end_of record_creation
  record_end_of-rows status text create h = write_record-rows status text h
  record_end_of-rows status text _ h = record_result-rows status h

  pub record_end-rows :
      (status : JobStatus)
      → record_end tools request_id status output params job db ≡ ok (tt, db')
      → LeavesRows db db'
  unfolding record_end
  record_end-rows JobStatus.succeeded h = record_end_of-rows success "instance created" job.action h
  record_end-rows JobStatus.failed h =
      record_end_of-rows OperationStatus.failed "instance creation failed" job.action h
  record_end-rows _ h = (ground (arith, h), ground (arith, h))

module _ (conf_dir : String) (tools : Tools) (request_id : String) (report : Report)
    (result : CreationResult) (params : Fields) (job : Job) (target : Option String)
    (now later : Time) (db db' : Db) where
  -- The three parts of a report's transaction.
  pub commit_update-inv :
      commit_update conf_dir tools request_id report result params job target now later db
        ≡ ok (tt, db')
      → (row : Job) × (before : Db) × (after : Db) × (update_execution_job request_id
            (job_status report.status)
            report.current_step
            report.error_summary
            report.output
            now
            db
          ≡ ok (row, before))
        × (end_job tools conf_dir
              (job_status report.status)
              result
              params
              later
              target
              job.action
              before
            ≡ ok (tt, after))
        × LeavesRows after db'
  unfolding commit_update
  commit_update-inv h =
      let status = job_status report.status in
      let (row, before, first, rest) =
        sequence-inv
          (update_execution_job request_id status report.current_step report.error_summary
            report.output now)
          (λ _. do
            end_job tools conf_dir status result params later target job.action
            record_end tools request_id status report.output params job)
          db db' tt h in
      let (_, after, second, third) =
        sequence-inv (end_job tools conf_dir status result params later target job.action)
          (λ _. record_end tools request_id status report.output params job) before db' tt rest in
      (
        row,
        before,
        after,
        first,
        second,
        record_end-rows tools request_id report.output params job after db' status third,
      )

  pub commit_update-status :
      commit_update conf_dir tools request_id report result params job target now later db
        ≡ ok (tt, db')
      → status_in request_id db' ≡ some (job_status report.status)
  commit_update-status h =
      let status = job_status report.status in
      let (row, before, after, first, second, (jobs, _)) = commit_update-inv h in
      let (found, same, _, _) =
        update_execution_job-frame request_id status report.current_step report.error_summary
          report.output now db row before first in
      status_in-jobs request_id after db' jobs
      ∙ end_job-status request_id params later target before after tools conf_dir status result
          job.action second
      ∙ ap (Option.map (λ (j : Job). j.status)) found
      ∙ ap some same
