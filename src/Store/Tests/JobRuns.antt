-- ===== src/Store/Tests/JobRuns.antt =====
-- Runs of the operations on execution jobs.
use openclaw_manager.Common.{
  ℕ, String, true, false, Option, none, some, [], ◌∷◌, ◌-◌, nat_eq, string_eq, option_eq, any,
  select, ◌≡◌, ◌≢◌, ◌↔◌, refl, ◌⊎◌, All, arith,
}
use openclaw_manager.Store.Rows.{Db, Job, running, queued, succeeded, Action}
use openclaw_manager.Store.Error.{Result, ok, err, execution_job_not_found, invalid_job_transition}
use openclaw_manager.Store.Jobs.{
  job_row, update_execution_job, written_job, transitions, create_execution_job, resolve_instance,
  insert_job, check_job, same_operation, is_running,
}
use openclaw_manager.Store.Jobs.Rewritten.{IsSameJob, IsRewritten}
use openclaw_manager.Store.Jobs.Transitions.{
  CanBecome, update_execution_job_outcome, update_execution_job-frame,
}
use openclaw_manager.Store.Jobs.Create.{
  create_execution_job_existing, create_execution_job_idempotent,
}
use openclaw_manager.Store.Jobs.Claim.{
  Readings, Claimed, claim_next_execution_job, sweep, start_oldest, oldest, start_job,
  fail_interrupted, record_interruptions, record_interruption, fail_provisioning, requeue_stale,
  fail_orphan, is_stale, is_ready,
}
use openclaw_manager.Store.Jobs.Claim.Exclusive.{claim_is_exclusive}
use openclaw_manager.Store.Jobs.Claim.Fresh.{claim_leaves_no_stale_job}
use openclaw_manager.Store.Jobs.Claim.Oldest.{claim_outcome, IsNextReady, started}
use openclaw_manager.Store.Jobs.Claim.History.{claims, next, here, finished_is_final}
use openclaw_manager.Store.Jobs.Listing.{JobFilter, is_listed, list_execution_jobs}
use openclaw_manager.Store.Jobs.Listing.Filter.{IsListed}
use openclaw_manager.Store.Jobs.Listing.Order.{IsListing, list_execution_jobs-IsListing}
use openclaw_manager.Store.Tests.{office, start_request, running_box, left_by, given_by}

update_execution_job_outcome_example :
    ((j : Job) × (job_row office "r-1" ≡ some j)
      × CanBecome j.status running
      × ((row : Job) × (db' : Db) × (update_execution_job "r-1" running none none none 200 office
            ≡ ok (row, db'))
          × IsSameJob j row
          × IsRewritten running none none none 200 j row
          × (db' ≡ record office { jobs = db'.jobs })))
    ⊎ ((job_row office "r-1" ≡ none)
        × (update_execution_job "r-1" running none none none 200 office
            ≡ err execution_job_not_found))
    ⊎ ((j : Job) × (job_row office "r-1" ≡ some j)
        × (¬ CanBecome j.status running)
        × (update_execution_job "r-1" running none none none 200 office
            ≡ err (invalid_job_transition j.status running)))
update_execution_job_outcome_example =
    update_execution_job_outcome "r-1" running none none none 200 office

abbrev begun : Job
begun = record start_request {
  status = running;
  heartbeat_at = some 200;
  updated_at = 200;
  started_at = some 200;
}

abbrev at_work : Db
at_work = record office { jobs = begun ∷ [] }

update_execution_job-frame_example :
    (job_row at_work "r-1" ≡ some begun)
    × (begun.status ≡ running)
    × ((j : Job) × (job_row office "r-1" ≡ some j) × IsSameJob j begun)
    × ((k : String) → k ≢ "r-1" → job_row at_work k ≡ job_row office k)
unfolding update_execution_job transitions written_job
update_execution_job-frame_example =
    update_execution_job-frame "r-1" running none none none 200 office begun at_work refl

create_execution_job_existing_example :
    (start_request ≡ start_request)
    × (office ≡ office)
    × ((i : Option ℕ) × (resolve_instance (some "i-1") office ≡ ok i)
        × (same_operation start_request Action.start (some 1) i "{}" none ≡ true))
unfolding create_execution_job resolve_instance insert_job check_job
create_execution_job_existing_example =
    create_execution_job_existing "r-1" Action.start (some 1) (some "i-1") "{}" none 300 office
      office start_request start_request refl refl

abbrev stop_run : Result (Job × Db)
stop_run = create_execution_job "r-2" Action.stop (some 2) (some "i-1") "{}" none 300 office

create_execution_job_idempotent_example :
    create_execution_job "r-2" Action.stop (some 2) (some "i-1") "{}" none 400 (left_by stop_run)
    ≡ ok (given_by start_request stop_run, left_by stop_run)
unfolding create_execution_job resolve_instance insert_job check_job
create_execution_job_idempotent_example =
    create_execution_job_idempotent "r-2" Action.stop (some 2) (some "i-1") "{}" none 300 400 office
      (left_by stop_run) (given_by start_request stop_run) refl

abbrev clock : Readings
clock = record { start = 500; fail = 501; recover = 502; sweep = 503; claim = 504 }

abbrev claimed_start : Claimed
claimed_start = record {
  job = record start_request {
    status = running;
    heartbeat_at = some 504;
    updated_at = 504;
    started_at = some 504;
  };
  actor_user_public_id = some "u-1";
  instance_row = running_box;
}

claim_is_exclusive_example :
    All
      (λ (j : Job). is_running j.status ≡ true → j.id ≡ claimed_start.job.id)
      (claim_next_execution_job 60 clock office).1.jobs
unfolding claim_next_execution_job sweep start_oldest oldest start_job fail_interrupted
    record_interruptions record_interruption fail_provisioning requeue_stale fail_orphan
claim_is_exclusive_example = claim_is_exclusive 60 clock office claimed_start refl

claim_leaves_no_stale_job_example :
    All
      (λ (j : Job). is_stale (clock.start - 60) j ≡ false)
      (claim_next_execution_job 60 clock at_work).1.jobs
claim_leaves_no_stale_job_example = claim_leaves_no_stale_job 60 clock at_work (omega arith)

claim_outcome_example :
    ((claim_next_execution_job 60 clock office ≡ (none, sweep 60 clock office))
      × ((any (λ (j : Job). is_running j.status) (sweep 60 clock office).jobs ≡ true)
          ⊎ (select (is_ready (sweep 60 clock office).instances) (sweep 60 clock office).jobs
              ≡ [])))
    ⊎ ((job : Job) × (c : Claimed) × ((claim_next_execution_job 60 clock office).0 ≡ some c)
        × IsNextReady (sweep 60 clock office).instances (sweep 60 clock office).jobs job
        × (c.job ≡ started clock.claim job))
claim_outcome_example = claim_outcome 60 clock office (tt, tt)

abbrev ended : Job
ended = record begun { status = succeeded; finished_at = some 300 }

abbrev after_work : Db
after_work = record office { jobs = ended ∷ [] }

finished_is_final_example :
    job_row (claim_next_execution_job 60 clock after_work).1 "r-1" ≡ some ended
finished_is_final_example =
    finished_is_final "r-1" ended refl (next here (claims 60 clock refl)) refl

abbrev queued_ones : JobFilter
queued_ones = record {
  status = some queued;
  statuses = [];
  actor_user_public_id = some "u-1";
  instance_public_id = none;
  action = none;
  parent_request_id = none;
}

list_execution_jobs-IsListing_example :
    IsListing queued_ones true 10 office (list_execution_jobs queued_ones true 10 office)
    × ((job : Job) → (is_listed queued_ones office job ≡ true) ↔ IsListed queued_ones office job)
list_execution_jobs-IsListing_example = list_execution_jobs-IsListing queued_ones true 10 office
