-- ===== src/Control/Cancellation.antt =====
-- `cancel_execution_job` of services/manager-control/app.py. The actor that the
-- header of the request names is an argument; it is empty when there is none.
pub mod Effect
pub mod Tests
use openclaw_manager.Common.{
  String, not, ◌||◌, none, some, ◌==◌, string_eq, option_eq, if◌then◌else◌,
}
use openclaw_manager.Store.Rows.{Time, Db, Job, cancelled, wechat_bind}
use openclaw_manager.Store.Error.{Error, ok, err}
use openclaw_manager.Store.Jobs.{job_row, action_name, update_execution_job}
use openclaw_manager.Store.Jobs.Claim.{actor_of}

-- 200 with the job, 404, 403, and 409 with the error of the store.
pub data Cancelled : Type 0 where
  done : Job → Cancelled
  job_not_found job_not_available : Cancelled
  conflict : Error → Cancelled

unfoldable pub cancel_execution_job : String → String → Time → Db → Cancelled × Db
cancel_execution_job actor request_id now db = elim (job_row db request_id) [
  | none ↦ (job_not_found, db)
  | some job ↦
      if not (actor_of db job == some actor)
        || not (action_name job.action == action_name wechat_bind)
      then (job_not_available, db)
      else elim (update_execution_job request_id cancelled none none none now db) [
        | err e ↦ (conflict e, db)
        | ok (row, db') ↦ (done row, db')
      ]
]
