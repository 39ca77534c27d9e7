-- ===== src/Store/Jobs/Transitions.antt =====
-- What an update of an execution job does, on every branch.
use openclaw_manager.Common.{
  String, true, false, Option, none, some, nat_eq, string_eq, option_eq, when, update_where, ◌≡◌,
  ◌≢◌, refl, sym, ap, subst, ◌∙◌, ◌⊎◌, inl, inr, arith, eq_iff, find-map, find-update_same,
  find-update_other, Bool-cases, Option-cases,
}
use mathlib.Core.Option
use openclaw_manager.Store.Rows.{
  Time, Db, Job, JobStatus, queued, running, succeeded, failed, partial_failure, interrupted,
  cancelled,
}
use openclaw_manager.Store.Error.{ok, err, execution_job_not_found, invalid_job_transition}
use openclaw_manager.Store.Jobs.Rewritten.{
  IsSameJob, IsRewritten, written_job-IsSameJob, written_job-IsRewritten,
}
use openclaw_manager.Store.Jobs.{
  has_request_id, job_row, transitions, written_job, update_execution_job,
}

-- A status change that the program allows to a job.
pub data CanBecome : JobStatus → JobStatus → Type 0 where
  picked : CanBecome queued running
  withdrawn : CanBecome queued cancelled
  beats : CanBecome running running
  succeeds : CanBecome running succeeded
  fails : CanBecome running failed
  fails_partly : CanBecome running partial_failure
  breaks_off : CanBecome running interrupted
  stopped : CanBecome running cancelled

pub CanBecome-sound : (a b : JobStatus) → transitions a b ≡ true → CanBecome a b
unfolding transitions
CanBecome-sound queued running h = picked
CanBecome-sound queued cancelled h = withdrawn
CanBecome-sound running running h = beats
CanBecome-sound running succeeded h = succeeds
CanBecome-sound running failed h = fails
CanBecome-sound running partial_failure h = fails_partly
CanBecome-sound running interrupted h = breaks_off
CanBecome-sound running cancelled h = stopped
CanBecome-sound _ _ h = absurd (cc)

CanBecome-complete : {a b : JobStatus} → CanBecome a b → transitions a b ≡ true
unfolding transitions
CanBecome-complete picked = refl
CanBecome-complete withdrawn = refl
CanBecome-complete beats = refl
CanBecome-complete succeeds = refl
CanBecome-complete fails = refl
CanBecome-complete fails_partly = refl
CanBecome-complete breaks_off = refl
CanBecome-complete stopped = refl

has_request_id-written_job :
    (k rid : String) (st : JobStatus) (cs es out : Option String) (now : Time) (j : Job)
    → has_request_id k (when (has_request_id rid) (written_job st cs es out now) j)
      ≡ has_request_id k j
unfolding written_job
has_request_id-written_job k rid st cs es out now j = ground arith

module _ (rid : String) (st : JobStatus) (cs es out : Option String) (now : Time) (db : Db) where
  abbrev pub updated : Db
  updated = record db {
    jobs = update_where (has_request_id rid) (written_job st cs es out now) db.jobs;
  }

  pub missing :
      job_row db rid ≡ none
      → update_execution_job rid st cs es out now db ≡ err execution_job_not_found
  unfolding update_execution_job
  missing e = rw (e, update_execution_job) refl

  is_ok :
      (j : Job)
      → job_row db rid ≡ some j
      → transitions j.status st ≡ true
      → update_execution_job rid st cs es out now db ≡ ok (written_job st cs es out now j, updated)
  unfolding update_execution_job
  is_ok j e t = rw (e, t, update_execution_job) refl

  is_invalid :
      (j : Job)
      → job_row db rid ≡ some j
      → transitions j.status st ≡ false
      → update_execution_job rid st cs es out now db ≡ err (invalid_job_transition j.status st)
  unfolding update_execution_job
  is_invalid j e t = rw (e, t, update_execution_job) refl

  pub update-inv :
      (job : Job) (db' : Db)
      → update_execution_job rid st cs es out now db ≡ ok (job, db')
      → (j : Job) × (job_row db rid ≡ some j)
        × (transitions j.status st ≡ true)
        × (job ≡ written_job st cs es out now j)
        × (db' ≡ updated)
  unfolding update_execution_job
  update-inv job db' h = elim (Option-cases (job_row db rid)) [
    | inl e ↦ absurd (cc (h, missing e))
    | inr (j, e) ↦ elim (Bool-cases (transitions j.status st)) [
      | inl t ↦ (j, e, t, cc (h, is_ok j e t), cc (h, is_ok j e t))
      | inr t ↦ absurd (cc (h, is_invalid j e t))
    ]
  ]

  job_row-updated :
      (k : String)
      → job_row updated k
        ≡ Option.map (when (has_request_id rid) (written_job st cs es out now)) (job_row db k)
  job_row-updated k =
      find-map (has_request_id k) _ (has_request_id-written_job k rid st cs es out now) db.jobs

  job_row-updated_self :
      job_row updated rid ≡ Option.map (written_job st cs es out now) (job_row db rid)
  unfolding written_job
  job_row-updated_self =
      find-update_same (has_request_id rid) (written_job st cs es out now) (λ x. refl) db.jobs

  pub job_row-updated_other : (k : String) → k ≢ rid → job_row updated k ≡ job_row db k
  unfolding written_job
  job_row-updated_other k ne =
      find-update_other (has_request_id k) (has_request_id rid) (written_job st cs es out now)
        (λ x. refl) (λ x e. ground (arith, eq_iff x.request_id k, eq_iff x.request_id rid)) db.jobs

  -- An update has one of three outcomes. The job is there and its status may change so: the update
  -- returns a row of the same job with the new status and the time of the update, with an end exactly
  -- where the new status is final, with a heartbeat of that time where it is running, with the time
  -- of the first start kept, and with each text that is given in place of the one before; no table
  -- but that of the jobs changes. No job has the request id: it raises. The change is not allowed: it
  -- raises, naming both statuses.
  pub update_execution_job_outcome :
      ((j : Job) × (job_row db rid ≡ some j)
        × CanBecome j.status st
        × ((row : Job) × (db' : Db) × (update_execution_job rid st cs es out now db ≡ ok (row, db'))
            × IsSameJob j row
            × IsRewritten st cs es out now j row
            × (db' ≡ record db { jobs = db'.jobs })))
      ⊎ ((job_row db rid ≡ none)
          × (update_execution_job rid st cs es out now db ≡ err execution_job_not_found))
      ⊎ ((j : Job) × (job_row db rid ≡ some j)
          × (¬ CanBecome j.status st)
          × (update_execution_job rid st cs es out now db
              ≡ err (invalid_job_transition j.status st)))
  update_execution_job_outcome = elim (Option-cases (job_row db rid)) [
    | inl e ↦ inr (inl (e, missing e))
    | inr (j, e) ↦ elim (Bool-cases (transitions j.status st)) [
      | inl t ↦ inl (
        j,
        e,
        CanBecome-sound j.status st t,
        (
          written_job st cs es out now j,
          updated,
          is_ok j e t,
          written_job-IsSameJob st cs es out now j,
          written_job-IsRewritten st cs es out now j,
          refl,
        ),
      )
      | inr t ↦ inr (inr (j, e, λ c. absurd (cc (t, CanBecome-complete c)), is_invalid j e t))
    ]
  ]

  -- After an update that ends well, a read by the request id finds the row that was returned, which
  -- has the new status and is that of the job before in its id, request id, parent, actor, instance,
  -- action, parameters and time of creation, and every other job is as it was.
  pub update_execution_job-frame :
      (job : Job) (db' : Db)
      → update_execution_job rid st cs es out now db ≡ ok (job, db')
      → (job_row db' rid ≡ some job)
        × (job.status ≡ st)
        × ((j : Job) × (job_row db rid ≡ some j) × IsSameJob j job)
        × ((k : String) → k ≢ rid → job_row db' k ≡ job_row db k)
  unfolding written_job
  update_execution_job-frame job db' h =
      let (j, found, allowed, same, state) = update-inv job db' h in
      (
        rw state (job_row-updated_self ∙ (rw found (ap some (sym same)))),
        ap (λ (x : Job). x.status) same,
        (j, found, subst (IsSameJob j) (sym same) (written_job-IsSameJob st cs es out now j)),
        λ k ne. rw state (job_row-updated_other k ne),
      )
