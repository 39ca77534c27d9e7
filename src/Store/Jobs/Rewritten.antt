-- ===== src/Store/Jobs/Rewritten.antt =====
-- The row that an update of an execution job makes of the row of the job, column by column.
use openclaw_manager.Common.{String, Option, none, some, if◌then◌else◌, coalesce, ◌≡◌, refl}
use openclaw_manager.Store.Rows.{
  Time, Job, JobStatus, queued, running, succeeded, failed, partial_failure, interrupted, cancelled,
  other,
}
use openclaw_manager.Store.Jobs.{is_running, is_finished, written_job}

-- The columns that say which job it is, and that no update writes.
abbrev pub IsSameJob : Job → Job → Type 0
IsSameJob j row =
    (row.id ≡ j.id)
    × (row.request_id ≡ j.request_id)
    × (row.parent_request_id ≡ j.parent_request_id)
    × (row.actor_user_id ≡ j.actor_user_id)
    × (row.instance_id ≡ j.instance_id)
    × (row.action ≡ j.action)
    × (row.params_json ≡ j.params_json)
    × (row.created_at ≡ j.created_at)

-- A job has an end from the moment it has a final status.
abbrev pub IsEnd : JobStatus → Time → Option Time → Type 0
IsEnd succeeded now t = t ≡ some now
IsEnd failed now t = t ≡ some now
IsEnd partial_failure now t = t ≡ some now
IsEnd interrupted now t = t ≡ some now
IsEnd cancelled now t = t ≡ some now
IsEnd _ now t = t ≡ none

-- A job beats when it is set to running, and only then.
abbrev pub IsHeartbeat : JobStatus → Time → Option Time → Option Time → Type 0
IsHeartbeat running now before t = t ≡ some now
IsHeartbeat _ now before t = t ≡ before

-- A job starts the first time that it is set to running.
abbrev pub IsStart : JobStatus → Time → Option Time → Option Time → Type 0
IsStart status now (some started) t = t ≡ some started
IsStart running now none t = t ≡ some now
IsStart _ now none t = t ≡ none

-- A text that is given replaces the one before.
abbrev pub IsReplaced : Option String → Option String → Option String → Type 0
IsReplaced (some given) before t = t ≡ some given
IsReplaced none before t = t ≡ before

abbrev pub IsRewritten :
    JobStatus → Option String → Option String → Option String → Time → Job → Job → Type 0
IsRewritten st cs es out now j row =
    (row.status ≡ st)
    × (row.updated_at ≡ now)
    × IsEnd st now row.finished_at
    × IsHeartbeat st now j.heartbeat_at row.heartbeat_at
    × IsStart st now j.started_at row.started_at
    × IsReplaced cs j.current_step row.current_step
    × IsReplaced es j.error_summary row.error_summary
    × IsReplaced out j.output row.output

finished-IsEnd :
    (st : JobStatus) (now : Time) → IsEnd st now (if is_finished st then some now else none)
finished-IsEnd queued now = refl
finished-IsEnd running now = refl
finished-IsEnd succeeded now = refl
finished-IsEnd failed now = refl
finished-IsEnd partial_failure now = refl
finished-IsEnd interrupted now = refl
finished-IsEnd cancelled now = refl
finished-IsEnd (other text) now = refl

running-IsHeartbeat :
    (st : JobStatus) (now : Time) (before : Option Time)
    → IsHeartbeat st now before (if is_running st then some now else before)
running-IsHeartbeat running now before = refl
running-IsHeartbeat _ now before = refl

running-IsStart :
    (st : JobStatus) (now : Time) (before : Option Time)
    → IsStart st now before (coalesce before (if is_running st then some now else none))
running-IsStart st now (some started) = refl
running-IsStart running now none = refl
running-IsStart _ now none = refl

coalesce-IsReplaced :
    (given before : Option String) → IsReplaced given before (coalesce given before)
coalesce-IsReplaced (some given) before = refl
coalesce-IsReplaced none before = refl

module _ (st : JobStatus) (cs es out : Option String) (now : Time) (j : Job) where
  pub written_job-IsSameJob : IsSameJob j (written_job st cs es out now j)
  unfolding written_job
  written_job-IsSameJob = (refl, refl, refl, refl, refl, refl, refl, refl)

  pub written_job-IsRewritten : IsRewritten st cs es out now j (written_job st cs es out now j)
  unfolding written_job
  written_job-IsRewritten = (
    refl,
    refl,
    finished-IsEnd st now,
    running-IsHeartbeat st now j.heartbeat_at,
    running-IsStart st now j.started_at,
    coalesce-IsReplaced cs j.current_step,
    coalesce-IsReplaced es j.error_summary,
    coalesce-IsReplaced out j.output,
  )
