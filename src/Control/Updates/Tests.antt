-- ===== src/Control/Updates/Tests.antt =====
-- The executor reports that it has stopped an instance.
use openclaw_manager.Common.{String, none, some, [], ◌∷◌, ◌≡◌, refl, ◌⊎◌, nat_eq, string_eq}
use openclaw_manager.Json.{text, Fields, end, entry, get, text_of}
use openclaw_manager.Store.Rows.{Db, Job, JobStatus, running, stop}
use openclaw_manager.Store.Jobs.{new_job, job_row, update_execution_job, transitions, written_job}
use openclaw_manager.Store.Jobs.Transitions.{CanBecome}
use openclaw_manager.Store.Lifecycle.{set_instance_runtime_status}
use openclaw_manager.Store.Tests.{office}
use openclaw_manager.Control.Replies.{Reply, done}
use openclaw_manager.Control.Updates.Audit.{
  Tools, record_end, record_end_of, record_result, message_of,
}
use openclaw_manager.Control.Updates.{
  job_status, update_job, apply_report, commit_update, check_result, end_job, end_success,
}
use openclaw_manager.Control.Updates.Atomic.{IsRefusal, update_job_outcome}
use openclaw_manager.Control.Updates.Reached.{IsReached, update_job-IsReached}

abbrev stopping : Job
stopping = record (new_job 1 "r-8" none (some 1) (some 1) stop "{}" 100) { status = running }

abbrev at_work : Db
at_work = record office { jobs = stopping ∷ [] }

abbrev success_report : Fields
success_report = entry "status" (text "succeeded") (entry "output" (text "stopped") end)

abbrev plain : Tools
plain = record {
  normalize = λ name. name;
  str = λ value. "";
  stored = λ value. some (text_of (some value));
}

abbrev answer : Fields → Reply Job × Db
answer payload = update_job "/conf" plain (λ params. end) "r-8" payload 200 201 at_work

abbrev stopped_job : Job
stopped_job = written_job JobStatus.succeeded none none (some "stopped") 200 stopping

abbrev rested : Db
rested = (answer success_report).1

update_job_outcome_example :
    let (reply, db') = answer success_report in
    ((status : String) × (job : Job) × (row : Job) × (text_of (get "status" success_report)
        ≡ some status)
      × (job_row at_work "r-8" ≡ some job)
      × CanBecome job.status (job_status status)
      × (job_row db' "r-8" ≡ some row)
      × (row.status ≡ job_status status)
      × (reply ≡ done row))
    ⊎ ((db' ≡ at_work) × IsRefusal reply)
update_job_outcome_example =
    update_job_outcome "/conf" plain (λ params. end) "r-8" 200 201 at_work success_report

update_job-IsReached_example : IsReached plain end stop "i-1" at_work.instances rested.instances
unfolding update_job apply_report commit_update check_result end_job end_success record_end
    record_end_of record_result message_of update_execution_job transitions written_job
    set_instance_runtime_status
update_job-IsReached_example =
    update_job-IsReached "/conf" plain (λ params. end) "r-8" success_report 200 201 at_work rested
      stopped_job stopping "i-1" refl refl refl refl
