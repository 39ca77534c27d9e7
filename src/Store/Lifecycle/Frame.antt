-- ===== src/Store/Lifecycle/Frame.antt =====
-- What the changes of an instance leave of the execution jobs, and the status that they leave.
use openclaw_manager.Common.{
  ℕ, String, Bool, Option, not, ◌&&◌, some, ◌==◌, nat_eq, string_eq, option_eq, update_where,
  rowcount, ◌≡◌, refl, sym, ap, ◌∙◌, inl, inr, arith, find-map, Bool-cases, Option-cases,
}
use mathlib.Core.Option
use openclaw_manager.Store.Rows.{Time, Db, Job, Instance, InstanceStatus}
use openclaw_manager.Store.Error.{no_conflict, ok}
use openclaw_manager.Store.Jobs.{has_public_id, instance_row, has_request_id, job_row}
use openclaw_manager.Store.Ports.{
  port_conflict, is_live, is_failed, is_deleted, is_restorable, record_port,
}
use openclaw_manager.Store.Ports.Records.{put_port-jobs}
use openclaw_manager.Store.Lifecycle.{
  set_instance_basic_auth, set_instance_version, set_instance_runtime_status, Retention,
  retain_rows, retain_endpoints, retain_port, set_instance_retention_state, unlink, remove_instance,
  purge_failed_instance, purge_deleted_instance,
}
use openclaw_manager.Store.Lifecycle.Retained.{held_port}

module _ (public_id : String) (now : Time) (db db' : Db) where
  pub set_instance_basic_auth-jobs :
      (enabled : Bool)
      → set_instance_basic_auth public_id enabled now db ≡ ok (tt, db')
      → db'.jobs ≡ db.jobs
  unfolding set_instance_basic_auth
  set_instance_basic_auth-jobs enabled h =
      elim (Bool-cases (rowcount (has_public_id public_id) db.instances == 1)) [
        | inl e ↦ ground (arith, rw (e, set_instance_basic_auth) at h)
        | inr e ↦ absurd (cc (rw (e, set_instance_basic_auth) at h))
      ]

  pub set_instance_version-jobs :
      (version : Option String)
      → set_instance_version public_id version now db ≡ ok (tt, db')
      → db'.jobs ≡ db.jobs
  unfolding set_instance_version
  set_instance_version-jobs version h =
      elim (Bool-cases (rowcount (has_public_id public_id) db.instances == 1)) [
        | inl e ↦ ground (arith, rw (e, set_instance_version) at h)
        | inr e ↦ absurd (cc (rw (e, set_instance_version) at h))
      ]

  pub set_instance_basic_auth-rows :
      (enabled : Bool)
      → set_instance_basic_auth public_id enabled now db ≡ ok (tt, db')
      → (rowcount (has_public_id public_id) db.instances ≡ 1)
        × (db'.instances
            ≡ update_where
                (has_public_id public_id)
                (λ i. record i { basic_auth_enabled = enabled; updated_at = now })
                db.instances)
  unfolding set_instance_basic_auth
  set_instance_basic_auth-rows enabled h =
      elim (Bool-cases (rowcount (has_public_id public_id) db.instances == 1)) [
        | inl e ↦ (ground (arith, e), ground (arith, rw (e, set_instance_basic_auth) at h))
        | inr e ↦ absurd (cc (rw (e, set_instance_basic_auth) at h))
      ]

  pub set_instance_version-rows :
      (version : Option String)
      → set_instance_version public_id version now db ≡ ok (tt, db')
      → (rowcount (has_public_id public_id) db.instances ≡ 1)
        × (db'.instances
            ≡ update_where
                (has_public_id public_id)
                (λ i. record i { openclaw_version = version; updated_at = now })
                db.instances)
  unfolding set_instance_version
  set_instance_version-rows version h =
      elim (Bool-cases (rowcount (has_public_id public_id) db.instances == 1)) [
        | inl e ↦ (ground (arith, e), ground (arith, rw (e, set_instance_version) at h))
        | inr e ↦ absurd (cc (rw (e, set_instance_version) at h))
      ]

  -- the jobs are as before, and a row of the instance was live and has the new status
  pub set_instance_runtime_status-rows :
      (status : InstanceStatus)
      → set_instance_runtime_status public_id status now db ≡ ok (tt, db')
      → (db'.jobs ≡ db.jobs)
        × (db'.instances
            ≡ update_where
                (λ i. has_public_id public_id i && is_live i.status)
                (λ i. record i { status = status; updated_at = now })
                db.instances)
        × (rowcount (λ i. has_public_id public_id i && is_live i.status) db.instances ≡ 1)
  unfolding set_instance_runtime_status
  set_instance_runtime_status-rows status h = elim (Bool-cases (not (is_live status))) [
    | inl l ↦ absurd (cc (rw (l, set_instance_runtime_status) at h))
    | inr l ↦
        elim (Bool-cases
          (rowcount (λ i. has_public_id public_id i && is_live i.status) db.instances == 1)) [
            | inl e ↦
                let k = rw e at (rw (l, set_instance_runtime_status) at h) in
                (ground (arith, k), ground (arith, k), ground (arith, e))
            | inr e ↦ absurd (cc (rw e at (rw (l, set_instance_runtime_status) at h)))
          ]
  ]

  retain_port-jobs :
      (i : Instance) (d : Db) → retain_port i now d ≡ ok (tt, db') → db'.jobs ≡ d.jobs
  unfolding retain_port record_port
  retain_port-jobs i d h = elim (Option-cases i.port) [
    | inl e ↦ cc (rw (e, retain_port) at h)
    | inr (q, e) ↦ put_port-jobs (held_port i q) d db' (rw (e, retain_port, record_port) at h)
  ]

  pub set_instance_retention_state-jobs :
      (action : Retention)
      → set_instance_retention_state public_id action now db ≡ ok (tt, db')
      → db'.jobs ≡ db.jobs
  unfolding set_instance_retention_state retain_rows retain_endpoints
  set_instance_retention_state-jobs action h =
      elim (Bool-cases (rowcount (has_public_id public_id) db.instances == 1)) [
        | inr e ↦ absurd (cc (rw (e, set_instance_retention_state) at h))
        | inl e ↦
            elim (Option-cases (instance_row (retain_rows action public_id now db) public_id)) [
              | inl n ↦ absurd (cc (rw n at (rw (e, set_instance_retention_state) at h)))
              | inr (j, n) ↦
                  retain_port-jobs j
                    (retain_endpoints action j.id (retain_rows action public_id now db))
                    (no_conflict
                      (port_conflict public_id j (retain_rows action public_id now db).instances) _
                      (tt, db') (rw n at (rw (e, set_instance_retention_state) at h)))
            ]
      ]

-- A row of the job, but for its link to the instance.
abbrev pub unlinked : ℕ → Job → Job
unlinked id job = record job { instance_id = unlink id job.instance_id }

module _ (public_id : String) (now : Time) (db db' : Db) (key : String) where
  removed-job :
      (i : Instance)
      → job_row (remove_instance i now db) key ≡ Option.map (unlinked i.id) (job_row db key)
  unfolding remove_instance
  removed-job i = find-map (has_request_id key) (unlinked i.id) (λ x. refl) db.jobs

  pub purge_failed_instance-job :
      purge_failed_instance public_id now db ≡ ok (tt, db')
      → (i : Instance) × (instance_row db public_id ≡ some i)
        × (job_row db' key ≡ Option.map (unlinked i.id) (job_row db key))
        × (db' ≡ remove_instance i now db)
  unfolding purge_failed_instance
  purge_failed_instance-job h = elim (Option-cases (instance_row db public_id)) [
    | inl e ↦ absurd (cc (rw (e, purge_failed_instance) at h))
    | inr (i, e) ↦ elim (Bool-cases (is_failed i.status)) [
      | inr f ↦ absurd (cc (rw f at (rw (e, purge_failed_instance) at h)))
      | inl f ↦
          let k = rw f at (rw (e, purge_failed_instance) at h) in
          let final : remove_instance i now db ≡ db' = ground (arith, k) in
          (i, e, ap (λ d. job_row d key) (sym final) ∙ removed-job i, sym final)
    ]
  ]

  pub purge_deleted_instance-job :
      purge_deleted_instance public_id now db ≡ ok (tt, db')
      → (i : Instance) × (instance_row db public_id ≡ some i)
        × (job_row db' key ≡ Option.map (unlinked i.id) (job_row db key))
        × (db' ≡ remove_instance i now db)
  unfolding purge_deleted_instance
  purge_deleted_instance-job h = elim (Option-cases (instance_row db public_id)) [
    | inl e ↦ absurd (cc (rw (e, purge_deleted_instance) at h))
    | inr (i, e) ↦ elim (Bool-cases (is_deleted i.status && is_restorable i.restore_state)) [
      | inr f ↦ absurd (cc (rw f at (rw (e, purge_deleted_instance) at h)))
      | inl f ↦
          let k = rw f at (rw (e, purge_deleted_instance) at h) in
          let final : remove_instance i now db ≡ db' = ground (arith, k) in
          (i, e, ap (λ d. job_row d key) (sym final) ∙ removed-job i, sym final)
    ]
  ]
