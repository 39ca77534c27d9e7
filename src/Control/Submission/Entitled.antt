-- ===== src/Control/Submission/Entitled.antt =====
-- Whose requests for a job are granted.
use openclaw_manager.Common.{
  ℕ, String, Bool, true, false, not, ◌&&◌, none, some, List, [], ◌∷◌, ◌==◌, nat_eq, string_eq,
  option_eq, is_some, ◌≡◌, refl, ap, ◌∙◌, inl, inr, Bool-cases, Option-cases,
}
use openclaw_manager.Json.{Fields, get, text_of}
use openclaw_manager.Store.Rows.{Time, Db, User, Instance, Job, Action, wechat_bind}
use openclaw_manager.Store.Error.{Result, ok, Result-cases}
use openclaw_manager.Store.Jobs.{job_row, instance_row, create_execution_job}
use openclaw_manager.Store.Members.{is_active_user, AccessRole, get_instance_for_user}
use openclaw_manager.Control.Access.{is_admin}
use openclaw_manager.Control.Replies.{done, is_uncaught}
use openclaw_manager.Control.Submission.{
  Caller, admin_web, user_web, Formats, first_refusal, is_action, actor_checks, can_pair,
  target_for, supports, state_checks,
}
use openclaw_manager.Control.Submission.Handler.{
  Submission, is_blocked, submit_job, actor_row, submit_for, read_submission, submit,
}

-- No early return is taken.
abbrev pub PassesAll : List (Bool × ℕ) → Type 0
PassesAll [] = Unit
PassesAll ((holds, status) ∷ more) = (holds ≡ false) × PassesAll more

first_refusal-PassesAll :
    (checks : List (Bool × ℕ)) → first_refusal checks ≡ none → PassesAll checks
first_refusal-PassesAll [] h = tt
first_refusal-PassesAll ((true, status) ∷ more) h = absurd (cc h)
first_refusal-PassesAll ((false, status) ∷ more) h = (refl, first_refusal-PassesAll more h)

-- An administrator through the administrators' pages, for anything but a binding to WeChat; a user
-- through its own pages, as itself, for a binding on an instance of which it is owner or manager.
abbrev pub IsGranted : Caller → Submission → User → Instance → Db → Type 0
IsGranted admin_web o actor i db =
    (is_admin actor.role ≡ true)
    × (is_action o.action wechat_bind ≡ false)
    × (instance_row db o.instance_public_id ≡ some i)
IsGranted (user_web header) o actor i db =
    ((header == actor.public_id) ≡ true)
    × (is_action o.action wechat_bind ≡ true)
    × ((role : AccessRole) × (get_instance_for_user o.instance_public_id actor.public_id db
          ≡ some (i, role))
        × (can_pair role ≡ true))

target_for-pairing :
    (action : Action) (instance_public_id actor : String) (db : Db) (i : Instance)
    → is_action action wechat_bind ≡ true
    → target_for action instance_public_id actor db ≡ some i
    → (role : AccessRole) × (get_instance_for_user instance_public_id actor db ≡ some (i, role))
      × (can_pair role ≡ true)
unfolding target_for
target_for-pairing action instance_public_id actor db i b h =
    elim (Option-cases (get_instance_for_user instance_public_id actor db)) [
      | inl e ↦ absurd (cc (rw e at (rw (b, target_for) at h)))
      | inr ((j, role), e) ↦ elim (Bool-cases (can_pair role)) [
        | inr r ↦ absurd (cc (rw r at (rw e at (rw (b, target_for) at h))))
        | inl r ↦
            let same : j ≡ i = cc (rw r at (rw e at (rw (b, target_for) at h))) in
            (role, e ∙ ap (λ (x : Instance). some (x, role)) same, r)
      ]
    ]

target_for-row :
    (action : Action) (instance_public_id actor : String) (db : Db) (i : Instance)
    → is_action action wechat_bind ≡ false
    → target_for action instance_public_id actor db ≡ some i
    → instance_row db instance_public_id ≡ some i
unfolding target_for
target_for-row action instance_public_id actor db i b h = rw (b, target_for) at h

true_where_not : (b : Bool) → not b ≡ false → b ≡ true
true_where_not true h = refl
true_where_not false h = absurd (cc h)

false_where_and : (b : Bool) → (b && true) ≡ false → b ≡ false
false_where_and true h = absurd (cc h)
false_where_and false h = refl

granted :
    (caller : Caller) (o : Submission) (actor : User) (i : Instance) (db : Db)
    → PassesAll (actor_checks caller o.action actor)
    → target_for o.action o.instance_public_id actor.public_id db ≡ some i
    → IsGranted caller o actor i db
granted admin_web o actor i db checks h =
    let (_, more) = checks in
    let (_, more) = more in
    let (_, more) = more in
    let (admin, more) = more in
    let other = false_where_and (is_action o.action wechat_bind) more.0 in
    (
      true_where_not (is_admin actor.role) admin,
      other,
      target_for-row o.action o.instance_public_id actor.public_id db i other h,
    )
granted (user_web header) o actor i db checks h =
    let (_, more) = checks in
    let (self, more) = more in
    let bind = true_where_not (is_action o.action wechat_bind) more.0 in
    (
      true_where_not (header == actor.public_id) self,
      bind,
      target_for-pairing o.action o.instance_public_id actor.public_id db i bind h,
    )

module _ (formats : Formats) (caller : Caller) (payload : Fields) (now : Time) (db db' : Db)
    (job : Job) where
  -- what stands behind a job that is granted
  abbrev pub IsSubmitted : Submission → User → Instance → Type 0
  IsSubmitted o actor i =
      (read_submission formats payload ≡ some o)
      × (actor_row (text_of (get "actor_user_public_id" payload)) db ≡ some actor)
      × (is_active_user actor.status ≡ true)
      × IsGranted caller o actor i db
      × (supports o.action i ≡ true)

  submit-inv :
      submit formats caller payload now db ≡ (done job, db')
      → (o : Submission) × (actor : User) × (i : Instance) × IsSubmitted o actor i
        × (submit_job o actor i now db ≡ (done job, db'))
  unfolding submit submit_for
  submit-inv h = elim (Option-cases (read_submission formats payload)) [
    | inl e ↦ absurd (cc (rw (e, submit) at h))
    | inr (o, e) ↦
        elim (Option-cases (actor_row (text_of (get "actor_user_public_id" payload)) db)) [
          | inl a ↦ absurd (cc (rw (a, submit_for) at (rw (e, submit) at h)))
          | inr (actor, a) ↦
              elim (Option-cases (first_refusal (actor_checks caller o.action actor))) [
                | inr (status, c) ↦
                    absurd (cc (rw c at (rw (a, submit_for) at (rw (e, submit) at h))))
                | inl c ↦
                    elim (Option-cases
                      (target_for o.action o.instance_public_id actor.public_id db)) [
                        | inl t ↦
                            absurd
                              (cc (rw t at (rw c at (rw (a, submit_for) at (rw (e, submit) at h)))))
                        | inr (i, t) ↦ elim (Bool-cases (supports o.action i)) [
                          | inr s ↦ absurd (
                              cc (
                                rw s at (
                                  rw t at (rw c at (rw (a, submit_for) at (rw (e, submit) at h))))))
                          | inl s ↦
                              let checks =
                                first_refusal-PassesAll (actor_checks caller o.action actor) c in
                              (
                                o,
                                actor,
                                i,
                                (
                                  e,
                                  a,
                                  true_where_not (is_active_user actor.status) checks.0,
                                  granted caller o actor i db checks t,
                                  s,
                                ),
                                rw s at (
                                    rw t at
                                      (rw c at (rw (a, submit_for) at (rw (e, submit) at h)))),
                              )
                        ]
                      ]
              ]
        ]
  ]

  abbrev created_job : Submission → User → Result (Job × Db)
  created_job o actor =
      create_execution_job o.request_id o.action (some actor.id) (some o.instance_public_id)
        o.params_json o.parent_request_id now db

  submit_job-inv :
      (o : Submission) (actor : User) (i : Instance)
      → submit_job o actor i now db ≡ (done job, db')
      → (created_job o actor ≡ ok (job, db'))
        × (job_row db o.request_id ≡ none
            → PassesAll (state_checks o.action i)
              × (is_blocked o.action o.instance_public_id db ≡ false))
  unfolding submit_job
  submit_job-inv o actor i h = elim (Bool-cases (is_some (job_row db o.request_id))) [
    | inl e ↦ elim (Result-cases (created_job o actor)) [
      | inr (x, r) ↦
          let k = rw r at (rw (e, submit_job) at h) in
          elim (Bool-cases (is_uncaught x)) [
            | inl u ↦ absurd (cc (rw u at k))
            | inr u ↦ absurd (cc (rw u at k))
          ]
      | inl ((j, d), r) ↦
          let k = rw r at (rw (e, submit_job) at h) in
          (r ∙ cc k, λ new. absurd (cc (ap is_some new, e)))
    ]
    | inr e ↦ elim (Option-cases (first_refusal (state_checks o.action i))) [
      | inr (status, c) ↦ absurd (cc (rw c at (rw (e, submit_job) at h)))
      | inl c ↦ elim (Bool-cases (is_blocked o.action o.instance_public_id db)) [
        | inl b ↦ absurd (cc (rw b at (rw c at (rw (e, submit_job) at h))))
        | inr b ↦ elim (Result-cases (created_job o actor)) [
          | inr (x, r) ↦ absurd (cc (rw r at (rw b at (rw c at (rw (e, submit_job) at h)))))
          | inl ((j, d), r) ↦
              let k = rw r at (rw b at (rw c at (rw (e, submit_job) at h))) in
              (r ∙ cc k, λ new. (first_refusal-PassesAll (state_checks o.action i) c, b))
        ]
      ]
    ]
  ]

  -- A job is granted only to those who may ask for it: the actor is an active user; through the
  -- pages for administrators it is an administrator, and the action is any but the binding to WeChat;
  -- through the pages for users it is the user who is signed in, the action is that binding, and the
  -- user is an owner or a manager of the instance. The product of the instance supports the action.
  -- If the request id is new, the job is an operation that the store has recorded in a state where
  -- the instance allows the action and no other open job forbids it.
  pub submit-IsSubmitted :
      submit formats caller payload now db ≡ (done job, db')
      → (o : Submission) × (actor : User) × (i : Instance) × IsSubmitted o actor i
        × (create_execution_job o.request_id o.action
              (some actor.id)
              (some o.instance_public_id)
              o.params_json
              o.parent_request_id
              now
              db
            ≡ ok (job, db'))
        × (job_row db o.request_id ≡ none
            → PassesAll (state_checks o.action i)
              × (is_blocked o.action o.instance_public_id db ≡ false))
  submit-IsSubmitted h =
      let (o, actor, i, submitted, made) = submit-inv h in
      let (created, allowed) = submit_job-inv o actor i made in
      (o, actor, i, submitted, created, allowed)
