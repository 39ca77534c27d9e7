-- ===== src/Control/Cancellation/Tests.antt =====
-- A user takes back a binding to WeChat before the worker has claimed it.
use openclaw_manager.Common.{String, none, some, [], ◌∷◌, ◌≡◌, ◌≢◌, refl, ◌⊎◌}
use openclaw_manager.Store.Rows.{Db, Job, cancelled, queued, running, wechat_bind}
use openclaw_manager.Store.Jobs.{
  new_job, job_row, action_name, update_execution_job, transitions, written_job,
}
use openclaw_manager.Store.Jobs.Claim.{actor_of}
use openclaw_manager.Store.Tests.{office}
use openclaw_manager.Control.Cancellation.{cancel_execution_job}
use openclaw_manager.Control.Cancellation.Effect.{cancel_execution_job_sound}

abbrev binding : Job
binding = new_job 1 "r-7" none (some 2) (some 1) wechat_bind "{}" 100

abbrev waiting : Db
waiting = record office { jobs = binding ∷ [] }

abbrev taken_back : Job
taken_back = record binding { status = cancelled; updated_at = 130; finished_at = some 130 }

abbrev withdrawn_state : Db
withdrawn_state = record office { jobs = taken_back ∷ [] }

cancel_execution_job_sound_example :
    (job : Job) × (job_row waiting "r-7" ≡ some job)
    × (actor_of waiting job ≡ some "u-2")
    × (action_name job.action ≡ "instance.wechat_bind")
    × ((job.status ≡ queued) ⊎ (job.status ≡ running))
    × (job_row withdrawn_state "r-7" ≡ some taken_back)
    × (taken_back.status ≡ cancelled)
    × ((k : String) → k ≢ "r-7" → job_row withdrawn_state k ≡ job_row waiting k)
unfolding cancel_execution_job update_execution_job transitions written_job
cancel_execution_job_sound_example =
    cancel_execution_job_sound "u-2" "r-7" 130 waiting withdrawn_state taken_back refl
