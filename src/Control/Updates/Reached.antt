-- ===== src/Control/Updates/Reached.antt =====
-- What a report of success leaves of the instance of the job.
use openclaw_manager.Common.{
  String, Bool, true, false, ◌&&◌, some, List, ◌==◌, nat_eq, string_eq, option_eq, any, find, ◌≡◌,
  refl, sym, ap, subst, ◌∙◌, inl, inr, arith, All, any-update_where, Option-cases, Bool-cases,
  Option, rowcount, update_where, any-find, find-update_same,
}
use mathlib.Core.Option
use openclaw_manager.Json.{Value, Fields, get, text_of, truth}
use openclaw_manager.Store.Rows.{
  Time, Db, Job, JobStatus, Action, create, start, stop, restart, set_basic_auth, update_version,
  delete, restore, cleanup_failed, purge_deleted, Instance, InstanceStatus, RestoreState,
}
use openclaw_manager.Store.Error.{ok}
use openclaw_manager.Store.Jobs.{has_public_id, instance_row, job_row}
use openclaw_manager.Store.Jobs.Transitions.{update-inv}
use openclaw_manager.Store.Ports.{is_active, is_live}
use openclaw_manager.Store.Lifecycle.{
  Retention, set_instance_basic_auth, set_instance_version, set_instance_runtime_status, retained,
}
use openclaw_manager.Store.Lifecycle.Retained.{set_instance_retention_state-rows}
use openclaw_manager.Store.Lifecycle.Removal.{remove_instance-IsRemoved}
use openclaw_manager.Store.Lifecycle.Frame.{
  set_instance_basic_auth-rows, set_instance_version-rows, set_instance_runtime_status-rows,
  purge_failed_instance-job, purge_deleted_instance-job,
}
use openclaw_manager.Store.Provisioning.{CreationResult, finish_instance_provisioning, provisioned}
use openclaw_manager.Store.Provisioning.Finish.{finish-inv}
use openclaw_manager.Control.Replies.{done}
use openclaw_manager.Control.Updates.{
  Report, reported_by, job_status, is_create, end_creation, end_success, end_job, update_job,
  target_of,
}
use openclaw_manager.Control.Updates.Audit.{Tools}
use openclaw_manager.Control.Updates.Steps.{commit_update-inv}
use openclaw_manager.Control.Updates.Atomic.{Committed, Refused, update_job-cases}

abbrev pub is_stopped : InstanceStatus → Bool
is_stopped InstanceStatus.stopped = true
is_stopped _ = false

abbrev pub HasRow : (InstanceStatus → Bool) → String → List Instance → Type 0
HasRow q id rows = any (λ (i : Instance). has_public_id id i && q i.status) rows ≡ true

abbrev pub IsKept : InstanceStatus → RestoreState → String → List Instance → Type 0
IsKept status state id rows =
    (i : Instance) × (find (has_public_id id) rows ≡ some i)
    × (i.status ≡ status)
    × (i.restore_state ≡ state)

abbrev pub IsGone : String → List Instance → List Instance → Type 0
IsGone id rows rows' =
    (i : Instance) × (find (has_public_id id) rows ≡ some i)
    × All (λ (j : Instance). (j.id == i.id) ≡ false) rows'

-- The first row with the public id, and what holds of it.
abbrev pub Shows : (Instance → Type 0) → String → List Instance → Type 0
Shows P id rows = (i : Instance) × (find (has_public_id id) rows ≡ some i) × P i

-- The state that each action is for, of the rows before and after.
abbrev pub IsReached : Tools → Fields → Action → String → List Instance → List Instance → Type 0
IsReached tools params create id rows rows' = Shows (λ i. i.status ≡ InstanceStatus.active) id rows'
IsReached tools params start id rows rows' = HasRow is_active id rows'
IsReached tools params restart id rows rows' = HasRow is_active id rows'
IsReached tools params stop id rows rows' = HasRow is_stopped id rows'
IsReached tools params set_basic_auth id rows rows' =
    (value : Value) × (get "enabled" params ≡ some value)
    × Shows (λ i. i.basic_auth_enabled ≡ truth value) id rows'
IsReached tools params update_version id rows rows' =
    (value : Value) × (version : Option String) × (get "version" params ≡ some value)
    × (tools.stored value ≡ some version)
    × Shows (λ i. i.openclaw_version ≡ version) id rows'
IsReached tools params delete id rows rows' =
    IsKept InstanceStatus.deleted RestoreState.restorable id rows'
IsReached tools params restore id rows rows' =
    IsKept InstanceStatus.active RestoreState.not_applicable id rows'
IsReached tools params cleanup_failed id rows rows' = IsGone id rows rows'
IsReached tools params purge_deleted id rows rows' = IsGone id rows rows'
IsReached tools params _ id rows rows' = rows' ≡ rows

-- A row that an UPDATE by the public id has written.
written_row :
    (id : String) (f : Instance → Instance)
    → ((x : Instance) → has_public_id id (f x) ≡ has_public_id id x)
    → (rows : List Instance) → rowcount (has_public_id id) rows ≡ 1
    → (j : Instance) × (find (has_public_id id) (update_where (has_public_id id) f rows)
        ≡ some (f j))
written_row id f keeps rows one =
    let found = find-update_same (has_public_id id) f keeps rows in
    let (i, there) =
      any-find (has_public_id id) (update_where (has_public_id id) f rows)
        (any-update_where (has_public_id id) (has_public_id id) f (λ x k. keeps x ∙ k) rows one) in
    elim (Option-cases (find (has_public_id id) rows)) [
      | inl e ↦ absurd (cc (found, e, there))
      | inr (j, e) ↦ (j, found ∙ ap (Option.map f) e)
    ]

is_create_sound : (action : Action) → is_create action ≡ true → action ≡ create
is_create_sound create e = refl
is_create_sound _ e = absurd (cc e)

module _ (id : String) (later : Time) (db db' : Db) where
  runtime-HasRow :
      (q : InstanceStatus → Bool) (status : InstanceStatus)
      → q status ≡ true
      → set_instance_runtime_status id status later db ≡ ok (tt, db')
      → HasRow q id db'.instances
  runtime-HasRow q status e h =
      let (_, rows, one) = set_instance_runtime_status-rows id later db db' status h in
      ap (any (λ (i : Instance). has_public_id id i && q i.status)) rows
      ∙ any-update_where (λ (i : Instance). has_public_id id i && is_live i.status)
          (λ i. has_public_id id i && q i.status)
          (λ i. record i { status = status; updated_at = later }) (λ x k. ground (arith, k, e))
          db.instances one

  created-IsReached :
      (tools : Tools) (params : Fields) (conf_dir : String) (result : CreationResult)
      → finish_instance_provisioning conf_dir id InstanceStatus.active result later db
        ≡ ok (tt, db')
      → IsReached tools params create id db.instances db'.instances
  created-IsReached tools params conf_dir result h =
      let (i, found, ended) = finish-inv conf_dir id InstanceStatus.active result later db db' h in
      elim ended [
        | inl (same, final) ↦ (i, ap (λ d. instance_row d id) final ∙ found, same)
        | inr (_, row, _) ↦ (provisioned conf_dir InstanceStatus.active result later i, row, refl)
      ]

  set_instance_basic_auth-IsReached :
      (value : Value)
      → set_instance_basic_auth id (truth value) later db ≡ ok (tt, db')
      → Shows (λ i. i.basic_auth_enabled ≡ truth value) id db'.instances
  set_instance_basic_auth-IsReached value h =
      let (one, rows) = set_instance_basic_auth-rows id later db db' (truth value) h in
      let write =
        λ (i : Instance). record i { basic_auth_enabled = truth value; updated_at = later } in
      let (j, found) = written_row id write (λ x. refl) db.instances one in
      (write j, ap (find (has_public_id id)) rows ∙ found, refl)

  set_instance_version-IsReached :
      (version : Option String)
      → set_instance_version id version later db ≡ ok (tt, db')
      → Shows (λ i. i.openclaw_version ≡ version) id db'.instances
  set_instance_version-IsReached version h =
      let (one, rows) = set_instance_version-rows id later db db' version h in
      let write = λ (i : Instance). record i { openclaw_version = version; updated_at = later } in
      let (j, found) = written_row id write (λ x. refl) db.instances one in
      (write j, ap (find (has_public_id id)) rows ∙ found, refl)

  success-IsReached :
      (tools : Tools) (params : Fields) (action : Action)
      → is_create action ≡ false
      → end_success tools params later (some id) action db ≡ ok (tt, db')
      → IsReached tools params action id db.instances db'.instances
  unfolding end_success
  success-IsReached tools params create e h = absurd (cc e)
  success-IsReached tools params set_basic_auth e h = elim (Option-cases (get "enabled" params)) [
    | inl n ↦ absurd (cc (rw (n, end_success) at h))
    | inr (v, n) ↦ (v, n, set_instance_basic_auth-IsReached v (rw (n, end_success) at h))
  ]
  success-IsReached tools params update_version e h = elim (Option-cases (get "version" params)) [
    | inl n ↦ absurd (cc (rw (n, end_success) at h))
    | inr (v, n) ↦ elim (Option-cases (tools.stored v)) [
      | inl q ↦ absurd (cc (rw q at (rw (n, end_success) at h)))
      | inr (t, q) ↦
          (v, t, n, q, set_instance_version-IsReached t (rw q at (rw (n, end_success) at h)))
    ]
  ]
  success-IsReached tools params start e h = runtime-HasRow is_active InstanceStatus.active refl h
  success-IsReached tools params restart e h = runtime-HasRow is_active InstanceStatus.active refl h
  success-IsReached tools params stop e h = runtime-HasRow is_stopped InstanceStatus.stopped refl h
  success-IsReached tools params delete e h =
      let (i, _, row, _) = set_instance_retention_state-rows id Retention.delete later db db' h in
      (retained Retention.delete later i, row, refl, refl)
  success-IsReached tools params restore e h =
      let (i, _, row, _) = set_instance_retention_state-rows id Retention.restore later db db' h in
      (retained Retention.restore later i, row, refl, refl)
  success-IsReached tools params cleanup_failed e h =
      let (i, found, _, final) = purge_failed_instance-job id later db db' "" h in
      (
        i,
        found,
        subst (λ (d : Db). All (λ (j : Instance). (j.id == i.id) ≡ false) d.instances) (sym final)
            (remove_instance-IsRemoved i later db).0.0,
      )
  success-IsReached tools params purge_deleted e h =
      let (i, found, _, final) = purge_deleted_instance-job id later db db' "" h in
      (
        i,
        found,
        subst (λ (d : Db). All (λ (j : Instance). (j.id == i.id) ≡ false) d.instances) (sym final)
            (remove_instance-IsRemoved i later db).0.0,
      )
  success-IsReached tools params _ e h = ground (arith, h)

  end_job-IsReached :
      (tools : Tools) (conf_dir : String) (result : CreationResult) (params : Fields)
      (action : Action)
      → end_job tools conf_dir JobStatus.succeeded result params later (some id) action db
        ≡ ok (tt, db')
      → IsReached tools params action id db.instances db'.instances
  unfolding end_job end_creation
  end_job-IsReached tools conf_dir result params action h = elim (Bool-cases (is_create action)) [
    | inl e ↦
        rw (is_create_sound action e)
          (created-IsReached tools params conf_dir result (rw (e, end_job) at h))
    | inr e ↦ success-IsReached tools params action e (rw (e, end_job) at h)
  ]

module _ (conf_dir : String) (tools : Tools) (loads : String → Fields) (request_id : String)
    (payload : Fields) (now later : Time) (db db' : Db) (row : Job) where
  Committed-IsReached :
      (report : Report) (job : Job) (id : String)
      → Committed conf_dir tools loads request_id now later db report (done row, db')
      → report.status ≡ "succeeded"
      → job_row db request_id ≡ some job
      → target_of db job ≡ some id
      → IsReached tools (loads job.params_json) job.action id db.instances db'.instances
  Committed-IsReached report job id (job', _, result, found, commit, _, _) said e target =
      let same : job' ≡ job = ground (arith, found, e) in
      let params = loads job.params_json in
      let (_, before, after, first, second, (_, rows)) =
        commit_update-inv conf_dir tools request_id report (reported_by result)
          (loads job'.params_json) job' (target_of db job') now later db db' commit in
      let (_, _, _, _, written) =
        update-inv request_id (job_status report.status) report.current_step report.error_summary
          report.output now db _ before first in
      let status : job_status report.status ≡ JobStatus.succeeded = ap job_status said in
      let ended : end_job tools conf_dir JobStatus.succeeded (reported_by result) params later
            (some id) job.action before
          ≡ ok (tt, after) =
        subst
          (λ (x : Job).
            end_job tools conf_dir JobStatus.succeeded (reported_by result) (loads x.params_json)
              later (some id) x.action before
            ≡ ok (tt, after))
          same (rw status at (rw (ap (target_of db) same ∙ target) at second)) in
      subst (λ (d : Db). IsReached tools params job.action id d.instances db'.instances) written
        (subst (IsReached tools params job.action id before.instances) (sym rows) (
          end_job-IsReached id later before after tools conf_dir (reported_by result) params
            job.action ended))

  -- After the executor's report that a job has succeeded is answered with the row of the job, the
  -- instance of the job is in the state that the action is for: after a creation it is active, after a
  -- start or a restart a row with its public id is active, after a stop such a row is stopped, after a
  -- deletion it is deleted and restorable, after a restore it is active again with nothing to
  -- restore, and after the two removals no row with its id is left. After a change of Basic Auth or
  -- of the version the job's parameters have the value, and the instance has it as its own. Any other
  -- action leaves every instance as it was.
  pub update_job-IsReached :
      (job : Job) (id : String)
      → update_job conf_dir tools loads request_id payload now later db ≡ (done row, db')
      → text_of (get "status" payload) ≡ some "succeeded"
      → job_row db request_id ≡ some job
      → target_of db job ≡ some id
      → IsReached tools (loads job.params_json) job.action id db.instances db'.instances
  update_job-IsReached job id h said e target =
      elim (update_job-cases conf_dir tools loads request_id now later db payload) [
        | inl (report, s, c) ↦
            Committed-IsReached report job id
              (subst (Committed conf_dir tools loads request_id now later db report) h c)
              (ground (arith, s, said)) e target
        | inr r ↦ absurd ((subst (Refused conf_dir tools loads request_id now later db) h r).1)
      ]
