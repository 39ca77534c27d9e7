-- ===== src/Store/Jobs/Claim/Fresh.antt =====
-- After a claim every running job has a recent heartbeat.
use openclaw_manager.Common.{
  ℕ, ◌-◌, ◌≤◌, false, nat_eq, string_eq, option_eq, map, ◌≡◌, subst, sym, inl, inr, arith, All,
  All-map, All-intro,
}
use openclaw_manager.Store.Rows.{Time, Db, Job}
use openclaw_manager.Store.Jobs.Claim.{
  Readings, is_stale, fail_interrupted, requeue_stale, fail_orphan, sweep, start_job,
  claim_next_execution_job,
}
use openclaw_manager.Store.Jobs.Claim.History.{start_oldest-jobs}

abbrev IsFresh : Time → Job → Type 0
IsFresh stale j = is_stale stale j ≡ false

requeue_stale-IsFresh : (stale now : Time) (j : Job) → IsFresh stale (requeue_stale stale now j)
unfolding requeue_stale
requeue_stale-IsFresh stale now j = ground arith

fail_orphan-IsFresh :
    (stale now : Time) (j : Job) → IsFresh stale j → IsFresh stale (fail_orphan now j)
unfolding fail_orphan
fail_orphan-IsFresh stale now j h = ground arith

start_job-IsFresh :
    (stale : Time) (id : ℕ) (now : Time) (j : Job)
    → stale ≤ now
    → IsFresh stale j
    → IsFresh stale (start_job id now j)
unfolding start_job
start_job-IsFresh stale id now j le h = ground arith

sweep-IsFresh :
    (stale_seconds : ℕ) (now : Readings) (db : Db)
    → All (IsFresh (now.start - stale_seconds)) (sweep stale_seconds now db).jobs
unfolding sweep
sweep-IsFresh stale_seconds now db =
    let stale = now.start - stale_seconds in
    All-map (IsFresh stale) (IsFresh stale) (fail_orphan now.sweep)
      (λ j. fail_orphan-IsFresh stale now.sweep j) _
      (All-map (λ _. Unit {0}) (IsFresh stale) (requeue_stale stale now.recover)
        (λ j _. requeue_stale-IsFresh stale now.recover j)
        (map (fail_interrupted stale now.fail) db.jobs)
        (All-intro (λ _. Unit {0}) (λ _. tt) (map (fail_interrupted stale now.fail) db.jobs)))

-- After a claim, whatever the state before it and whether or not it returns a job, no running job
-- has a heartbeat older than the limit, if the clock does not run backwards during the claim.
pub claim_leaves_no_stale_job :
    (stale_seconds : ℕ) (now : Readings) (db : Db)
    → now.start ≤ now.claim
    → All
        (λ (j : Job). is_stale (now.start - stale_seconds) j ≡ false)
        (claim_next_execution_job stale_seconds now db).1.jobs
unfolding claim_next_execution_job
claim_leaves_no_stale_job stale_seconds now db le =
    let stale = now.start - stale_seconds in
    let s = sweep stale_seconds now db in
    elim (start_oldest-jobs now s) [
      | inl same ↦ subst (All (IsFresh stale)) (sym same) (sweep-IsFresh stale_seconds now db)
      | inr (id, e) ↦ subst (All (IsFresh stale)) (sym e) (
          All-map (IsFresh stale) (IsFresh stale) (start_job id now.claim)
            (λ j. start_job-IsFresh stale id now.claim j (omega arith)) s.jobs
            (sweep-IsFresh stale_seconds now db))
    ]
