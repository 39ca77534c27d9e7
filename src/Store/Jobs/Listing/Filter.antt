-- ===== src/Store/Jobs/Listing/Filter.antt =====
-- What a filter asks of a job, argument by argument.
use openclaw_manager.Common.{
  String, Bool, true, ◌&&◌, Option, none, some, List, [], ◌∷◌, ◌==◌, string_eq, option_eq, any, ◌≡◌,
  ◌≢◌, ◌↔◌, refl, ap, ◌∙◌, arith, inl, inr, Bool-cases, eq_of_==, nat_eq,
}
use openclaw_manager.Store.Rows.{Db, Job, JobStatus}
use openclaw_manager.Store.Jobs.{action_name}
use openclaw_manager.Store.Jobs.Listing.{
  JobFilter, status_name, itself, passes, is_actor, is_target, has_status, among, is_listed,
}

-- An argument that is given and not empty holds of the job.
abbrev pub Asks {ℓ} : {A : Type ℓ} → (A → String) → (A → Bool) → Option A → Type ℓ
Asks {A = A} name test o = (a : A) → o ≡ some a → name a ≢ "" → test a ≡ true

-- What the arguments ask of a job; one that is none or empty asks nothing.
abbrev pub IsListed : JobFilter → Db → Job → Type 0
IsListed filter db job =
    Asks status_name (has_status job) filter.status
    × (filter.statuses ≢ [] → any (has_status job) filter.statuses ≡ true)
    × Asks itself (is_actor db.users job) filter.actor_user_public_id
    × Asks itself (is_target db.instances job) filter.instance_public_id
    × Asks action_name (λ a. action_name job.action == action_name a) filter.action
    × Asks itself (λ p. job.parent_request_id == some p) filter.parent_request_id

passes_iff {ℓ} :
    {A : Type ℓ} (name : A → String) (test : A → Bool) (o : Option A)
    → (passes name test o ≡ true) ↔ Asks name test o
passes_iff name test none = (λ h a e ne. absurd (cc e), λ h. refl)
passes_iff name test (some b) = elim (Bool-cases (name b == "")) [
  | inl e ↦ (
    λ h a same ne. let k : a ≡ b = cc same in absurd (ne (ap name k ∙ eq_of_== (name b) "" e)),
    λ h. rw e refl,
  )
  | inr e ↦ (
    λ h a same ne. let k : a ≡ b = cc same in ap test k ∙ (rw e at h),
    λ h. rw e (h b refl (λ n. absurd (cc (e, ap (λ t. t == "") n)))),
  )
]

among_iff :
    (job : Job) (statuses : List JobStatus)
    → (among job statuses ≡ true) ↔ (statuses ≢ [] → any (has_status job) statuses ≡ true)
among_iff job [] = (λ h ne. absurd (ne refl), λ h. refl)
among_iff job (s ∷ more) = (λ h ne. h, λ h. h (λ e. absurd (cc e)))

pub is_listed-IsListed :
    (filter : JobFilter) (db : Db) (job : Job)
    → (is_listed filter db job ≡ true) ↔ IsListed filter db job
is_listed-IsListed filter db job =
    let status = passes_iff status_name (has_status job) filter.status in
    let statuses = among_iff job filter.statuses in
    let actor = passes_iff itself (is_actor db.users job) filter.actor_user_public_id in
    let target = passes_iff itself (is_target db.instances job) filter.instance_public_id in
    let action =
      passes_iff action_name (λ a. action_name job.action == action_name a) filter.action in
    let parent =
      passes_iff itself (λ p. job.parent_request_id == some p) filter.parent_request_id in
    (
      λ h. (
        status.0 (ground (arith, h)),
        statuses.0 (ground (arith, h)),
        actor.0 (ground (arith, h)),
        target.0 (ground (arith, h)),
        action.0 (ground (arith, h)),
        parent.0 (ground (arith, h)),
      ),
      λ (s, ss, u, i, a, p).
          all_six _ _ _ _ _ _ (status.1 s) (statuses.1 ss) (actor.1 u) (target.1 i) (action.1 a)
            (parent.1 p),
    )
  where
    all_six :
        (a b c d e f : Bool)
        → a ≡ true
        → b ≡ true
        → c ≡ true
        → d ≡ true
        → e ≡ true
        → f ≡ true
        → (a && b && c && d && e && f) ≡ true
    all_six a b c d e f ha hb hc hd he hf = rw (ha, hb, hc, hd, he, hf) refl
