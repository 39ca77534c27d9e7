-- ===== src/Executor/Limits.antt =====
-- How many commands of an adapter a job can cost.
pub mod Branches
pub mod Installer
pub mod Total
use Prim.Native.String
use openclaw_manager.Common.{
  ℕ, String, Bool, true, false, some, ◌==◌, nat_eq, string_eq, option_eq, if◌then◌else◌, inl, inr,
  arith, Bool-cases, Option-cases, ◌+◌, ◌≤◌, length,
}
use openclaw_manager.Json.{Fields, get}
use openclaw_manager.Executor.{
  Update, Command, Try, returned, raised, Services, State, M, ◌>>=◌, ◌>>◌,
}
use openclaw_manager.Executor.Calls.{
  ask, update, job_cancelled, run, param, report_end, success_with, failure_with, require,
  when_true,
}
use openclaw_manager.Executor.Settled.{Try-cases}

abbrev pub count : {W : Type 0} → State W → ℕ
count s = length s.commands

pub record Costs {ℓ} {W : Type 0} {A : Type ℓ} (n : ℕ) (m : M W A) : Type 0 where
  pub bound : (s : State W) → count (m s).1 ≤ count s + n

module _ {W : Type 0} where
  pub give-Costs {ℓ} : {A : Type ℓ} (a : A) → Costs {W = W} 0 (λ s. (returned a, s))
  give-Costs a = record { bound = λ s. omega arith }

  pub throw-Costs {ℓ} :
      {A : Type ℓ} (text : String) → Costs {W = W} {A = A} 0 (λ s. (raised text, s))
  throw-Costs text = record { bound = λ s. omega arith }

  pub weaken {ℓ} : {A : Type ℓ} (a b : ℕ) (m : M W A) → a ≤ b → Costs a m → Costs b m
  weaken a b m le h = record { bound = λ s. let k = h.bound s in omega arith }

  sequence-bound {ℓ κ} :
      {A : Type ℓ} {B : Type κ} (a b : ℕ) (m : M W A) (f : A → M W B)
      → Costs a m
      → ((x : A) → Costs b (f x))
      → (s : State W) → count ((m >>= f) s).1 ≤ count s + (a + b)
  unfolding ◌>>=◌
  sequence-bound a b m f h k s =
      let first = h.bound s in
      elim (Try-cases (m s).0) [
        | inl (x, e) ↦ let second = (k x).bound (m s).1 in rw (e, ◌>>=◌) (omega arith)
        | inr (text, e) ↦ rw (e, ◌>>=◌) (omega arith)
      ]

  pub sequence-Costs {ℓ κ} :
      {A : Type ℓ} {B : Type κ} (a b : ℕ) (m : M W A) (f : A → M W B)
      → Costs a m
      → ((x : A) → Costs b (f x))
      → Costs (a + b) (m >>= f)
  sequence-Costs a b m f h k = record { bound = sequence-bound a b m f h k }

  -- where the first part runs no command
  pub sequence-Costs_later {ℓ κ} :
      {A : Type ℓ} {B : Type κ} (n : ℕ) (m : M W A) (f : A → M W B)
      → Costs 0 m
      → ((x : A) → Costs n (f x))
      → Costs n (m >>= f)
  sequence-Costs_later n m f h k = weaken (0 + n) n _ (omega arith) (sequence-Costs 0 n m f h k)

  pub if-Costs {ℓ} :
      {A : Type ℓ} (n : ℕ) (b : Bool) (m k : M W A)
      → Costs n m
      → Costs n k
      → Costs n (if b then m else k)
  if-Costs n true m k h g = h
  if-Costs n false m k h g = g

  pub ask-Costs {ℓ} : {A : Type ℓ} (call : W → Try A × W) → Costs 0 (ask call)
  ask-Costs call = record { bound = λ s. omega arith }

  pub require-Costs : (b : Bool) (text : String) → Costs {W = W} 0 (require b text)
  require-Costs b text = if-Costs 0 b _ _ (give-Costs tt) (throw-Costs text)

  pub when_true-Costs :
      (n : ℕ) (b : Bool) (m : M W (Unit {0})) → Costs n m → Costs n (when_true b m)
  when_true-Costs n b m h = if-Costs n b m _ h (weaken 0 n _ (omega arith) (give-Costs tt))

  pub param-Costs : (name : String) (params : Fields) → Costs {W = W} 0 (param name params)
  param-Costs name params = elim (Option-cases (get name params)) [
    | inl e ↦ rw (e, param) (throw-Costs name)
    | inr (value, e) ↦ rw (e, param) (give-Costs value)
  ]

  module _ (services : Services W) where
    pub update-Costs : (u : Update) → Costs 0 (update services u)
    unfolding update
    update-Costs u = record {
      bound = λ s. elim (Option-cases (services.send u s.world).0) [
        | inl e ↦ rw (e, update) (omega arith)
        | inr (text, e) ↦ rw (e, update) (omega arith)
      ];
    }

    pub job_cancelled-Costs : Costs 0 (job_cancelled services)
    unfolding job_cancelled
    job_cancelled-Costs = record {
      bound = λ s. elim (Bool-cases ((services.read_status s.world).0 == some "cancelled")) [
        | inl e ↦ rw (e, job_cancelled) (omega arith)
        | inr e ↦ rw (e, job_cancelled) (omega arith)
      ];
    }

    pub run-Costs : (c : Command) → Costs 1 (run services c)
    unfolding run
    run-Costs c = record { bound = λ s. omega arith }

    pub report_end-Costs :
        (summary : String) (answer : ℕ × String) → Costs 0 (report_end services summary answer)
    unfolding report_end
    report_end-Costs summary (code, output) =
        if-Costs 0 (code == 0) _ _ (update-Costs (success_with output))
          (update-Costs (failure_with summary (some output)))
