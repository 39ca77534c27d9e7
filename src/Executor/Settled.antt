-- ===== src/Executor/Settled.antt =====
-- Every job that is claimed is settled: what manager-control has heard last is an end of the job.
use openclaw_manager.Common.{
  ℕ, String, Bool, true, false, some, List, [], ◌∷◌, ◌==◌, nat_eq, string_eq, option_eq,
  if◌then◌else◌, ◌≡◌, refl, ◌⊎◌, inl, inr, Option-cases,
}
use openclaw_manager.Store.Rows.{succeeded, failed}
use openclaw_manager.Executor.{
  Update, Try, returned, raised, Services, Event, sent, rejected, saw_cancelled, State, M, ◌>>=◌,
}
use openclaw_manager.Executor.Calls.{update, report_end, success_with, failure_with}

-- The two statuses that the worker ends a job with.
abbrev pub is_end : Update → Bool
is_end u = elim u.status [ succeeded ↦ true | failed ↦ true | _ ↦ false ]

-- An end that was accepted, an end that was refused, or word that the job is cancelled.
abbrev pub is_final : List Event → Bool
is_final [] = false
is_final (sent u ∷ events) = is_end u
is_final (rejected u ∷ events) = is_end u
is_final (saw_cancelled ∷ events) = true

pub Try-cases {ℓ} :
    {A : Type ℓ} (t : Try A) → ((a : A) × (t ≡ returned a)) ⊎ ((text : String) × (t ≡ raised text))
Try-cases (returned a) = inl (a, refl)
Try-cases (raised text) = inr (text, refl)

-- Where it returns, the job is settled.
abbrev pub IsSettled {ℓ} : {W : Type 0} {A : Type ℓ} → Try A × State W → Type 0
IsSettled (returned a, s) = is_final s.events ≡ true
IsSettled (raised text, s) = Unit

-- So from every state.
pub record Settles {ℓ} {W : Type 0} {A : Type ℓ} (m : M W A) : Type 0 where
  pub settled : (s : State W) → IsSettled (m s)

module _ {W : Type 0} where
  pub throw-Settles {ℓ} :
      {A : Type ℓ} (text : String) → Settles {W = W} {A = A} (λ s. (raised text, s))
  throw-Settles text = record { settled = λ s. tt }

  sequence-IsSettled {ℓ κ} :
      {A : Type ℓ} {B : Type κ} (m : M W A) (f : A → M W B)
      → ((a : A) → Settles (f a))
      → (s : State W) → IsSettled ((m >>= f) s)
  unfolding ◌>>=◌
  sequence-IsSettled m f h s = elim (Try-cases (m s).0) [
    | inl (a, e) ↦ rw (e, ◌>>=◌) ((h a).settled (m s).1)
    | inr (text, e) ↦ rw (e, ◌>>=◌) tt
  ]

  pub sequence-Settles {ℓ κ} :
      {A : Type ℓ} {B : Type κ} (m : M W A) (f : A → M W B)
      → ((a : A) → Settles (f a))
      → Settles (m >>= f)
  sequence-Settles m f h = record { settled = sequence-IsSettled m f h }

  pub if-Settles {ℓ} :
      {A : Type ℓ} (b : Bool) (m n : M W A) → Settles m → Settles n → Settles (if b then m else n)
  if-Settles true m n h k = h
  if-Settles false m n h k = k

  module _ (services : Services W) where
    pub update-Settles : (u : Update) → is_end u ≡ true → Settles (update services u)
    unfolding update
    update-Settles u h = record {
      settled = λ s. elim (Option-cases (services.send u s.world).0) [
        | inl e ↦ rw (e, update) h
        | inr (text, e) ↦ rw (e, update) tt
      ];
    }

    pub report_end-Settles :
        (summary : String) (answer : ℕ × String) → Settles (report_end services summary answer)
    unfolding report_end
    report_end-Settles summary (code, output) =
        if-Settles (code == 0) _ _ (update-Settles (success_with output) refl)
          (update-Settles (failure_with summary (some output)) refl)
