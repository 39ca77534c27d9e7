-- ===== src/Control/Cancellation/Effect.antt =====
-- What a cancellation does.
use openclaw_manager.Common.{
  String, not, ◌||◌, none, some, ◌==◌, string_eq, option_eq, ◌≡◌, ◌≢◌, refl, sym, ap, ◌∙◌, subst,
  ◌⊎◌, inl, inr, arith, Bool-cases, Option-cases, eq_of_==,
}
use openclaw_manager.Store.Rows.{Time, Db, Job, JobStatus, cancelled, queued, running, wechat_bind}
use openclaw_manager.Store.Error.{ok, Result-cases}
use openclaw_manager.Store.Jobs.{job_row, action_name, update_execution_job}
use openclaw_manager.Store.Jobs.Transitions.{
  CanBecome, withdrawn, stopped, update_execution_job_outcome, update_execution_job-frame,
}
use openclaw_manager.Store.Jobs.Claim.{actor_of}
use openclaw_manager.Control.Cancellation.{done, cancel_execution_job}

could_be_cancelled : {s : JobStatus} → CanBecome s cancelled → (s ≡ queued) ⊎ (s ≡ running)
could_be_cancelled withdrawn = inl refl
could_be_cancelled stopped = inr refl

status_before :
    (request_id : String) (now : Time) (db d : Db) (job r : Job)
    → job_row db request_id ≡ some job
    → update_execution_job request_id cancelled none none none now db ≡ ok (r, d)
    → (job.status ≡ queued) ⊎ (job.status ≡ running)
status_before request_id now db d job r e u =
    elim (update_execution_job_outcome request_id cancelled none none none now db) [
      | inl (j, found, can, _) ↦
          let same : j ≡ job = ground (arith, found, e) in
          could_be_cancelled (subst (λ (x : Job). CanBecome x.status cancelled) same can)
      | inr (inl (_, x)) ↦ absurd (cc (x, u))
      | inr (inr (_, _, _, x)) ↦ absurd (cc (x, u))
    ]

-- A cancellation that is done was asked for by the user who had queued the job, of a binding to
-- WeChat that was queued or running. Afterwards the job reads as cancelled, and every other job is
-- as it was.
pub cancel_execution_job_sound :
    (actor : String) (request_id : String) (now : Time) (db db' : Db) (row : Job)
    → cancel_execution_job actor request_id now db ≡ (done row, db')
    → (job : Job) × (job_row db request_id ≡ some job)
      × (actor_of db job ≡ some actor)
      × (action_name job.action ≡ "instance.wechat_bind")
      × ((job.status ≡ queued) ⊎ (job.status ≡ running))
      × (job_row db' request_id ≡ some row)
      × (row.status ≡ cancelled)
      × ((k : String) → k ≢ request_id → job_row db' k ≡ job_row db k)
unfolding cancel_execution_job
cancel_execution_job_sound actor request_id now db db' row h =
    elim (Option-cases (job_row db request_id)) [
      | inl e ↦ absurd (cc (rw (e, cancel_execution_job) at h))
      | inr (job, e) ↦
          elim (Bool-cases (
            not (actor_of db job == some actor)
            || not (action_name job.action == action_name wechat_bind))) [
              | inl b ↦ absurd (cc (rw b at (rw (e, cancel_execution_job) at h)))
              | inr b ↦
                  elim (Result-cases
                    (update_execution_job request_id cancelled none none none now db)) [
                      | inr (x, u) ↦
                          absurd (cc (rw u at (rw b at (rw (e, cancel_execution_job) at h))))
                      | inl ((r, d), u) ↦
                          let k = rw u at (rw b at (rw (e, cancel_execution_job) at h)) in
                          let same : r ≡ row = ground (arith, k) in
                          let final : d ≡ db' = ground (arith, k) in
                          let (read, status, _, others) =
                            update_execution_job-frame request_id cancelled none none none now db r
                              d u in
                          (
                            job,
                            e,
                            eq_of_== (actor_of db job) (some actor) (ground (arith, b)),
                            eq_of_== (action_name job.action) (action_name wechat_bind)
                                (ground (arith, b)),
                            status_before request_id now db d job r e u,
                            subst (λ x. job_row x request_id ≡ some row) final
                                (read ∙ ap some same),
                            ap (λ (x : Job). x.status) (sym same) ∙ status,
                            λ key ne. ap (λ x. job_row x key) (sym final) ∙ others key ne,
                          )
                    ]
            ]
    ]
