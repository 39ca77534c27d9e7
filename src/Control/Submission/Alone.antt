-- ===== src/Control/Submission/Alone.antt =====
-- What the handler `create_execution_job` of services/manager-control/app.py admits beside a retention
-- job.
use openclaw_manager.Common.{
  String, true, ◌&&◌, Option, none, some, nat_eq, string_eq, option_eq, any, All, ◌==◌, ◌≢◌, ◌⊎◌,
  ◌≡◌,
}
use openclaw_manager.Store.Rows.{queued, running, Instance, Db, Job, Action}
use openclaw_manager.Store.Jobs.{action_name}
use openclaw_manager.Control.Submission.Handler.{Submission}

-- A queued or running job of an instance.
abbrev pub IsOpenOn : String → Db → Job → Type 0
IsOpenOn instance_public_id db job =
    ((job.status ≡ queued) ⊎ (job.status ≡ running))
    × (any (λ (i : Instance). some i.id == job.instance_id && i.public_id == instance_public_id)
          db.instances
        ≡ true)

-- No job of the instance is queued or running, or none with the action where one is given.
abbrev pub HasNone : String → Db → Option Action → Type 0
HasNone instance_public_id db none = All (λ job. ¬ IsOpenOn instance_public_id db job) db.jobs
HasNone instance_public_id db (some action) =
    All (λ job. IsOpenOn instance_public_id db job → action_name job.action ≢ action_name action)
      db.jobs
