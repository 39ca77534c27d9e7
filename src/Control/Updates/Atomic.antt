-- ===== src/Control/Updates/Atomic.antt =====
-- A report that is refused writes nothing.
use openclaw_manager.Common.{
  String, some, [], ◌∷◌, nat_eq, string_eq, option_eq, all, ◌≡◌, refl, subst, ◌⊎◌, inl, inr, arith,
  Bool-cases, Option-cases,
}
use openclaw_manager.Json.{Fields, get, has_only, text_of}
use openclaw_manager.Store.Rows.{Time, Db, Job}
use openclaw_manager.Store.Error.{Error, ok, Result-cases}
use openclaw_manager.Store.Jobs.{job_row}
use openclaw_manager.Store.Jobs.Transitions.{CanBecome, update-inv, CanBecome-sound}
use openclaw_manager.Control.Replies.{Reply, done, is_uncaught, reply_to_error}
use openclaw_manager.Control.Creation.{Verdict, valid, invalid, unknown_product}
use openclaw_manager.Control.Updates.{
  Report, Given, no_object, object, malformed, given, reported_by, check_result, commit_update,
  apply_report, update_job, report_fields, target_of, is_optional_text, job_status,
}
use openclaw_manager.Control.Updates.Audit.{Tools}
use openclaw_manager.Control.Updates.Steps.{commit_update-inv, commit_update-status}

Verdict-cases : (v : Verdict) → (v ≡ valid) ⊎ (v ≡ invalid) ⊎ (v ≡ unknown_product)
Verdict-cases valid = inl refl
Verdict-cases invalid = inr (inl refl)
Verdict-cases unknown_product = inr (inr refl)

Given-cases :
    (g : Given) → (g ≡ no_object) ⊎ ((fields : Fields) × (g ≡ object fields)) ⊎ (g ≡ malformed)
Given-cases no_object = inl refl
Given-cases (object fields) = inr (inl (fields, refl))
Given-cases malformed = inr (inr refl)

abbrev pub IsRefusal : Reply Job → Type 0
IsRefusal (done row) = ⊥
IsRefusal _ = Unit

reply_to_error-IsRefusal : (e : Error) → IsRefusal (reply_to_error e)
reply_to_error-IsRefusal e = elim (Bool-cases (is_uncaught e)) [ inl u ↦ rw u tt | inr u ↦ rw u tt ]

module _ (conf_dir : String) (tools : Tools) (loads : String → Fields) (request_id : String)
    (now later : Time) (db : Db) where
  -- the report was committed, and the reply is the row of the job
  abbrev pub Committed : Report → Reply Job × Db → Type 0
  Committed report (reply, db') =
      (job : Job) × (row : Job) × (result : Given) × (job_row db request_id ≡ some job)
      × (commit_update conf_dir tools request_id report (reported_by result) (loads job.params_json)
            job (target_of db job) now later db
          ≡ ok (tt, db'))
      × (job_row db' request_id ≡ some row)
      × (reply ≡ done row)

  abbrev pub Refused : Reply Job × Db → Type 0
  Refused (reply, db') = (db' ≡ db) × IsRefusal reply

  apply_report-outcome :
      (report : Report) (result : Given)
      → Committed report (apply_report conf_dir tools loads request_id report result now later db)
        ⊎ Refused (apply_report conf_dir tools loads request_id report result now later db)
  unfolding apply_report
  apply_report-outcome report result = elim (Option-cases (job_row db request_id)) [
    | inl e ↦ inr (rw (e, apply_report) (refl, tt))
    | inr (job, e) ↦
        elim (Verdict-cases (check_result job (target_of db job) report.status result db)) [
          | inr (inl v) ↦ inr (rw (e, apply_report) (rw v (refl, tt)))
          | inr (inr v) ↦ inr (rw (e, apply_report) (rw v (refl, tt)))
          | inl v ↦
              elim (Result-cases (
                commit_update conf_dir tools request_id report (reported_by result)
                  (loads job.params_json) job (target_of db job) now later db)) [
                    | inr (x, r) ↦
                        inr (rw (e, apply_report) (rw v (rw r (refl, reply_to_error-IsRefusal x))))
                    | inl ((_, db'), r) ↦ elim (Option-cases (job_row db' request_id)) [
                      | inl n ↦ absurd (
                          cc (
                            rw n at (
                              commit_update-status conf_dir tools request_id report
                                (reported_by result) (loads job.params_json) job (target_of db job)
                                now later db db' r)))
                      | inr (row, n) ↦ inl (
                          rw (e, apply_report)
                            (rw v (rw r (rw n (job, row, result, refl, r, n, refl)))))
                    ]
                  ]
        ]
  ]

  pub update_job-cases :
      (payload : Fields)
      → ((report : Report) × (text_of (get "status" payload) ≡ some report.status)
          × Committed report (update_job conf_dir tools loads request_id payload now later db))
        ⊎ Refused (update_job conf_dir tools loads request_id payload now later db)
  unfolding update_job
  update_job-cases payload = elim (Bool-cases (has_only report_fields payload)) [
    | inr e ↦ inr (rw (e, update_job) (refl, tt))
    | inl e ↦ elim (Option-cases (text_of (get "status" payload))) [
      | inl s ↦ inr (rw (e, update_job) (rw s (refl, tt)))
      | inr (status, s) ↦
          elim (Bool-cases (
            all (λ name. is_optional_text (get name payload))
              ("current_step" ∷ "error_summary" ∷ "output" ∷ []))) [
                | inr t ↦ inr (rw (e, update_job) (rw s (rw t (refl, tt))))
                | inl t ↦
                    let report : Report = record {
                      status = status;
                      current_step = text_of (get "current_step" payload);
                      error_summary = text_of (get "error_summary" payload);
                      output = text_of (get "output" payload);
                    } in
                    elim (Given-cases (given (get "result" payload))) [
                      | inr (inr g) ↦ inr (rw (e, update_job) (rw s (rw t (rw g (refl, tt)))))
                      | inl g ↦ elim (apply_report-outcome report no_object) [
                        | inl c ↦ inl (report, s, rw (e, update_job) (rw s (rw t (rw g c))))
                        | inr c ↦ inr (rw (e, update_job) (rw s (rw t (rw g c))))
                      ]
                      | inr (inl (fields, g)) ↦ elim (apply_report-outcome report (object fields)) [
                        | inl c ↦ inl (report, s, rw (e, update_job) (rw s (rw t (rw g c))))
                        | inr c ↦ inr (rw (e, update_job) (rw s (rw t (rw g c))))
                      ]
                    ]
              ]
    ]
  ]

  -- A report of the executor is either accepted or refused. It is accepted only if its status is one
  -- that the status of the job may become: then the reply is the row of the job, which has that status
  -- afterwards. A report that is refused, with whatever error, changes nothing in the database.
  pub update_job_outcome :
      (payload : Fields)
      → let (reply, db') = update_job conf_dir tools loads request_id payload now later db in
        ((status : String) × (job : Job) × (row : Job) × (text_of (get "status" payload)
            ≡ some status)
          × (job_row db request_id ≡ some job)
          × CanBecome job.status (job_status status)
          × (job_row db' request_id ≡ some row)
          × (row.status ≡ job_status status)
          × (reply ≡ done row))
        ⊎ ((db' ≡ db) × IsRefusal reply)
  update_job_outcome payload = elim (update_job-cases payload) [
    | inr r ↦ inr r
    | inl (report, s, (job, row, result, found, commit, final, replied)) ↦
        let (_, db') = update_job conf_dir tools loads request_id payload now later db in
        let params = loads job.params_json in
        let (_, before, _, first, _, _) =
          commit_update-inv conf_dir tools request_id report (reported_by result) params job
            (target_of db job) now later db _ commit in
        let (j, there, allowed, _, _) =
          update-inv request_id (job_status report.status) report.current_step report.error_summary
            report.output now db _ before first in
        let same : j ≡ job = ground (arith, there, found) in
        let status =
          commit_update-status conf_dir tools request_id report (reported_by result) params job
            (target_of db job) now later db _ commit in
        inl (
          report.status,
          job,
          row,
          s,
          found,
          subst (λ (x : Job). CanBecome x.status (job_status report.status)) same
              (CanBecome-sound j.status (job_status report.status) allowed),
          final,
          ground (arith, rw final at status),
          replied,
        )
  ]
