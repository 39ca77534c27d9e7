-- ===== src/Store/Jobs/Create.antt =====
-- Creating an execution job twice under one request id.
use openclaw_manager.Common.{
  ℕ, suc, String, true, false, ◌||◌, Option, none, some, ◌==◌, nat_eq, string_eq, option_eq,
  is_some, find, insert, ◌≡◌, refl, sym, ap, subst, ◌∙◌, ◌⊎◌, inl, inr, arith, Bool-cases,
  Option-cases,
}
use openclaw_manager.Store.Rows.{Time, Db, Job, Action}
use openclaw_manager.Store.Error.{Error, Result-cases, request_id_and_action_required, ok, err}
use openclaw_manager.Store.Jobs.{
  has_public_id, job_row, same_operation, new_job, create_execution_job, action_name,
  resolve_instance, insert_job, check_job, references_exist,
}

module _ (rid : String) (action : Action) (actor : Option ℕ) (target : Option String)
    (params : String) (parent : Option String) (now : Time) where
  module _ (db : Db) where
    unnamed :
        (rid == "" || action_name action == "") ≡ true
        → create_execution_job rid action actor target params parent now db
          ≡ err request_id_and_action_required
    unfolding create_execution_job
    unnamed e = rw (e, create_execution_job) refl

    unresolved :
        (rid == "" || action_name action == "") ≡ false
        → (e : Error) → resolve_instance target db ≡ err e
        → create_execution_job rid action actor target params parent now db ≡ err e
    unfolding create_execution_job
    unresolved n e r = rw (n, create_execution_job) (rw (r, create_execution_job) refl)

    refused :
        (rid == "" || action_name action == "") ≡ false
        → (i : Option ℕ) → resolve_instance target db ≡ ok i
        → (e : Error) → insert_job rid parent actor i action params now db ≡ err e
        → create_execution_job rid action actor target params parent now db ≡ err e
    unfolding create_execution_job
    refused n i r e s =
        rw (n, create_execution_job)
          (rw (r, create_execution_job) (rw (s, create_execution_job) refl))

    checked :
        (rid == "" || action_name action == "") ≡ false
        → (i : Option ℕ) → resolve_instance target db ≡ ok i
        → (db' : Db) → insert_job rid parent actor i action params now db ≡ ok db'
        → create_execution_job rid action actor target params parent now db
          ≡ check_job rid parent actor i action params db'
    unfolding create_execution_job
    checked n i r db' s =
        rw (n, create_execution_job)
          (rw (r, create_execution_job) (rw (s, create_execution_job) refl))

  check_job-inv :
      (i : Option ℕ) (db' t : Db) (job : Job)
      → check_job rid parent actor i action params db' ≡ ok (job, t)
      → (job_row db' rid ≡ some job)
        × (same_operation job action actor i params parent ≡ true)
        × (db' ≡ t)
  unfolding check_job
  check_job-inv i db' t job h = elim (Option-cases (job_row db' rid)) [
    | inl e ↦ absurd (cc (rw (e, check_job) at h))
    | inr (j, e) ↦ elim (Bool-cases (same_operation j action actor i params parent)) [
      | inl s ↦ ground (arith, rw (e, check_job) at h, rw (s) at (rw (e, check_job) at h))
      | inr s ↦ absurd (cc (rw (s) at (rw (e, check_job) at h)))
    ]
  ]

  pub create-inv :
      (db db' : Db) (job : Job)
      → create_execution_job rid action actor target params parent now db ≡ ok (job, db')
      → (i : Option ℕ) × (resolve_instance target db ≡ ok i)
        × (insert_job rid parent actor i action params now db ≡ ok db')
        × (job_row db' rid ≡ some job)
        × (same_operation job action actor i params parent ≡ true)
        × ((rid == "" || action_name action == "") ≡ false)
  create-inv db db' job h = elim (Bool-cases (rid == "" || action_name action == "")) [
    | inl e ↦ absurd (cc (h, unnamed db e))
    | inr n ↦ elim (Result-cases (resolve_instance target db)) [
      | inr (e, r) ↦ absurd (cc (h, unresolved db n e r))
      | inl (i, r) ↦ elim (Result-cases (insert_job rid parent actor i action params now db)) [
        | inr (e, s) ↦ absurd (cc (h, refused db n i r e s))
        | inl (d, s) ↦
            let (row, same, final) = check_job-inv i d db' job (sym (checked db n i r d s) ∙ h) in
            (i, r, s ∙ ap ok final, rw final at row, same, n)
      ]
    ]
  ]

  insert_job_existing :
      (db : Db) (job : Job) (i : Option ℕ)
      → job_row db rid ≡ some job
      → insert_job rid parent actor i action params now db ≡ ok db
  unfolding insert_job
  insert_job_existing db job i e = rw (e, insert_job) refl

  pub insert_job-inv :
      (db db' : Db) (i : Option ℕ)
      → insert_job rid parent actor i action params now db ≡ ok db'
      → (db' ≡ db)
        ⊎ (db' ≡ record db {
          jobs = insert (new_job db.next_job_id rid parent actor i action params now) db.jobs;
          next_job_id = suc db.next_job_id;
        })
  unfolding insert_job
  insert_job-inv db db' i h = elim (Bool-cases (is_some (job_row db rid))) [
    | inl e ↦ inl (cc (rw (e, insert_job) at h))
    | inr e ↦ elim (Bool-cases (references_exist db rid parent actor)) [
      | inl r ↦ inr (cc (rw (r) at (rw (e, insert_job) at h)))
      | inr r ↦ absurd (cc (rw (r) at (rw (e, insert_job) at h)))
    ]
  ]

  -- Where a job has the request id already, a creation under it that ends well returns that job,
  -- changes nothing, and asks for the very operation that the job records, on the same instance.
  pub create_execution_job_existing :
      (db db' : Db) (job job' : Job)
      → job_row db rid ≡ some job
      → create_execution_job rid action actor target params parent now db ≡ ok (job', db')
      → (job' ≡ job)
        × (db' ≡ db)
        × ((i : Option ℕ) × (resolve_instance target db ≡ ok i)
            × (same_operation job action actor i params parent ≡ true))
  create_execution_job_existing db db' job job' e h =
      let (i, r, ins, row, same, _) = create-inv db db' job' h in
      let there = insert_job_existing db job i e in
      let final : db' ≡ db = cc (there, ins) in
      let one : job' ≡ job = cc (subst (λ (d : Db). job_row d rid ≡ some job') final row, e) in
      (
        one,
        final,
        (i, r, subst (λ (x : Job). same_operation x action actor i params parent ≡ true) one same),
      )

resolve_instance_same :
    (target : Option String) (a b : Db)
    → a.instances ≡ b.instances
    → resolve_instance target a ≡ resolve_instance target b
unfolding resolve_instance
resolve_instance_same none a b e = refl
resolve_instance_same (some p) a b e = rw (ap (find (has_public_id p)) e, resolve_instance) refl

module _ (rid : String) (action : Action) (actor : Option ℕ) (target : Option String)
    (params : String) (parent : Option String) where
  check_job_found :
      (i : Option ℕ) (db : Db) (job : Job)
      → job_row db rid ≡ some job
      → same_operation job action actor i params parent ≡ true
      → check_job rid parent actor i action params db ≡ ok (job, db)
  unfolding check_job
  check_job_found i db job e s = rw (e, check_job) (rw s refl)

  insert_job-instances :
      (now : Time) (db db' : Db) (i : Option ℕ)
      → insert_job rid parent actor i action params now db ≡ ok db'
      → db'.instances ≡ db.instances
  insert_job-instances now db db' i h =
      elim (insert_job-inv rid action actor target params parent now db db' i h) [
        | inl e ↦ ap (λ (d : Db). d.instances) e
        | inr e ↦ ap (λ (d : Db). d.instances) e
      ]

  -- A request that is sent again, whenever that is, gets the job that the first one created, and
  -- changes nothing.
  pub create_execution_job_idempotent :
      (now later : Time) (db db' : Db) (job : Job)
      → create_execution_job rid action actor target params parent now db ≡ ok (job, db')
      → create_execution_job rid action actor target params parent later db' ≡ ok (job, db')
  create_execution_job_idempotent now later db db' job h =
      let (i, r, ins, row, same, n) =
        create-inv rid action actor target params parent now db db' job h in
      let r' = resolve_instance_same target db' db (insert_job-instances now db db' i ins) ∙ r in
      checked rid action actor target params parent later db' n i r' db'
        (insert_job_existing rid action actor target params parent later db' job i row)
      ∙ check_job_found i db' job row same
