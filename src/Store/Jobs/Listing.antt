-- ===== src/Store/Jobs/Listing.antt =====
-- `list_execution_jobs` of services/manager-web/metadata_store.py: the jobs that pass a filter, in
-- the order of their creation or the reverse, up to a limit.
pub mod Filter
pub mod Order
pub mod Empty
use openclaw_manager.Common.{
  ℕ, zero, suc, String, Bool, true, ◌&&◌, ◌||◌, Option, none, some, List, [], ◌∷◌, ◌==◌, nat_eq,
  string_eq, option_eq, if◌then◌else◌, any, select,
}
use openclaw_manager.Store.Rows.{Db, Job, JobStatus, Action, User, Instance}
use openclaw_manager.Store.Jobs.{action_name}
use openclaw_manager.Store.Jobs.Claim.{comes_before}

-- The text of the column `status`.
abbrev pub status_name : JobStatus → String
status_name JobStatus.queued = "queued"
status_name JobStatus.running = "running"
status_name JobStatus.succeeded = "succeeded"
status_name JobStatus.failed = "failed"
status_name JobStatus.partial_failure = "partial_failure"
status_name JobStatus.interrupted = "interrupted"
status_name JobStatus.cancelled = "cancelled"
status_name (JobStatus.other text) = text

-- The arguments that narrow the list. One that is none or empty does not count.
pub record JobFilter : Type 0 where
  pub status : Option JobStatus
  pub statuses : List JobStatus
  pub actor_user_public_id : Option String
  pub instance_public_id : Option String
  pub action : Option Action
  pub parent_request_id : Option String

abbrev pub passes {ℓ} : {A : Type ℓ} → (A → String) → (A → Bool) → Option A → Bool
passes name test none = true
passes name test (some a) = name a == "" || test a

abbrev pub itself : String → String
itself text = text

abbrev pub is_actor : List User → Job → String → Bool
is_actor users job public_id =
    any (λ (u : User). some u.id == job.actor_user_id && u.public_id == public_id) users

abbrev pub is_target : List Instance → Job → String → Bool
is_target instances job public_id =
    any (λ (i : Instance). some i.id == job.instance_id && i.public_id == public_id) instances

abbrev pub has_status : Job → JobStatus → Bool
has_status job status = status_name job.status == status_name status

abbrev pub among : Job → List JobStatus → Bool
among job [] = true
among job (status ∷ more) = any (has_status job) (status ∷ more)

-- The conditions of the WHERE clause.
abbrev pub is_listed : JobFilter → Db → Job → Bool
is_listed filter db job =
    passes status_name (has_status job) filter.status
    && among job filter.statuses
    && passes itself (is_actor db.users job) filter.actor_user_public_id
    && passes itself (is_target db.instances job) filter.instance_public_id
    && passes action_name (λ a. action_name job.action == action_name a) filter.action
    && passes itself (λ p. job.parent_request_id == some p) filter.parent_request_id

-- ORDER BY created_at, id, both ascending or both descending
abbrev precedes : Bool → Job → Job → Bool
precedes newest_first a b = if newest_first then comes_before b a else comes_before a b

abbrev place : Bool → Job → List Job → List Job
place newest_first job [] = job ∷ []
place newest_first job (other ∷ rest) =
    let later = place newest_first job rest in
    if precedes newest_first other job then other ∷ later else job ∷ other ∷ rest

abbrev order_by : Bool → List Job → List Job
order_by newest_first [] = []
order_by newest_first (job ∷ jobs) = place newest_first job (order_by newest_first jobs)

abbrev limited : ℕ → List Job → List Job
limited zero jobs = []
limited (suc n) [] = []
limited (suc n) (job ∷ jobs) = job ∷ limited n jobs

unfoldable pub list_execution_jobs : JobFilter → Bool → ℕ → Db → List Job
list_execution_jobs filter newest_first limit db =
    limited limit (order_by newest_first (select (is_listed filter db) db.jobs))
