-- ===== src/Executor/Installer.antt =====
-- The branch `wechat_bind` of `run_once` settles its job, through its `finally` block.
use openclaw_manager.Common.{
  ℕ, String, Bool, true, false, ◌||◌, Option, none, some, List, [], ◌∷◌, ◌==◌, nat_eq, string_eq,
  option_eq, if◌then◌else◌, ◌≡◌, refl, inl, inr, Bool-cases,
}
use Prim.Native.String
use openclaw_manager.Executor.{
  Try, returned, raised, Process, Services, Texts, State, M, give, ◌>>=◌,
}
use openclaw_manager.Executor.Calls.{ask, job_cancelled, when_true}
use openclaw_manager.Executor.Binding.{
  watch, reap, watch_process, report_binding, end_binding, clean_up, finally_clean_up,
  end_installer, run_installer, bind_wechat,
}
use openclaw_manager.Executor.Settled.{
  is_final, IsSettled, Settles, Try-cases, throw-Settles, sequence-Settles, report_end-Settles,
}

-- A settled job stays settled.
pub record Keeps {ℓ} {W : Type 0} {A : Type ℓ} (m : M W A) : Type 0 where
  pub kept : (s : State W) → is_final s.events ≡ true → IsSettled (m s)

-- Settled, where the answer is that the job is cancelled.
abbrev pub IsStopped : {W : Type 0} → Try Bool × State W → Type 0
IsStopped (returned true, s) = is_final s.events ≡ true
IsStopped (returned false, s) = Unit
IsStopped (raised text, s) = Unit

abbrev IsWatched : {W : Type 0} → Try (Bool × String) × State W → Type 0
IsWatched (returned (true, output_tail), s) = is_final s.events ≡ true
IsWatched (returned (false, output_tail), s) = Unit
IsWatched (raised text, s) = Unit

module _ {W : Type 0} where
  give-Keeps {ℓ} : {A : Type ℓ} (a : A) → Keeps {W = W} (λ s. (returned a, s))
  give-Keeps a = record { kept = λ s h. h }

  sequence-kept {ℓ κ} :
      {A : Type ℓ} {B : Type κ} (m : M W A) (f : A → M W B)
      → Keeps m
      → ((a : A) → Keeps (f a))
      → (s : State W) → is_final s.events ≡ true
      → IsSettled ((m >>= f) s)
  unfolding ◌>>=◌
  sequence-kept m f k h s final = elim (Try-cases (m s).0) [
    | inl (a, e) ↦ rw (e, ◌>>=◌) ((h a).kept (m s).1 (rw (e, IsSettled) at (k.kept s final)))
    | inr (text, e) ↦ rw (e, ◌>>=◌) tt
  ]

  sequence-Keeps {ℓ κ} :
      {A : Type ℓ} {B : Type κ} (m : M W A) (f : A → M W B)
      → Keeps m
      → ((a : A) → Keeps (f a))
      → Keeps (m >>= f)
  sequence-Keeps m f k h = record { kept = sequence-kept m f k h }

  -- settled by the first part, and kept by the second
  sequence-Settles_first {ℓ κ} :
      {A : Type ℓ} {B : Type κ} (m : M W A) (f : A → M W B)
      → Settles m
      → ((a : A) → Keeps (f a))
      → (s : State W) → IsSettled ((m >>= f) s)
  unfolding ◌>>=◌
  sequence-Settles_first m f k h s = elim (Try-cases (m s).0) [
    | inl (a, e) ↦ rw (e, ◌>>=◌) ((h a).kept (m s).1 (rw (e, IsSettled) at (k.settled s)))
    | inr (text, e) ↦ rw (e, ◌>>=◌) tt
  ]

  ask-Keeps {ℓ} : {A : Type ℓ} (call : W → Try A × W) → Keeps (ask call)
  ask-Keeps call = record {
    kept = λ s h. elim (Try-cases (call s.world).0) [
      | inl (a, e) ↦ rw (e, IsSettled) h
      | inr (text, e) ↦ rw (e, IsSettled) tt
    ];
  }

  when_true-Keeps : (b : Bool) (m : M W (Unit {0})) → Keeps m → Keeps (when_true b m)
  when_true-Keeps true m h = h
  when_true-Keeps false m h = give-Keeps tt

  sequence-IsWatched {ℓ} :
      {A : Type ℓ} (m : M W A) (f : A → M W (Bool × String))
      → ((a : A) (s : State W) → IsWatched (f a s))
      → (s : State W) → IsWatched ((m >>= f) s)
  unfolding ◌>>=◌
  sequence-IsWatched m f h s = elim (Try-cases (m s).0) [
    | inl (a, e) ↦ rw (e, ◌>>=◌) (h a (m s).1)
    | inr (text, e) ↦ rw (e, ◌>>=◌) tt
  ]

  module _ (services : Services W) (texts : Texts) where
    job_cancelled-Keeps : Keeps (job_cancelled services)
    unfolding job_cancelled
    job_cancelled-Keeps = record {
      kept = λ s h. elim (Bool-cases ((services.read_status s.world).0 == some "cancelled")) [
        | inl e ↦ rw (e, job_cancelled) refl
        | inr e ↦ rw (e, job_cancelled) h
      ];
    }

    still_cancelled-Keeps :
        (cancelled : Bool) → Keeps (if cancelled then give true else job_cancelled services)
    still_cancelled-Keeps true = give-Keeps true
    still_cancelled-Keeps false = job_cancelled-Keeps

    clean_up-Keeps :
        (cleanup_command cancelled : Bool)
        → Keeps (clean_up services texts cleanup_command cancelled)
    unfolding clean_up
    clean_up-Keeps cleanup_command cancelled =
        sequence-Keeps _ _ (when_true-Keeps cleanup_command _ (ask-Keeps services.stop_process))
          (λ _. sequence-Keeps _ _ (still_cancelled-Keeps cancelled) (λ seen.
            when_true-Keeps (seen || cleanup_command) _ (ask-Keeps services.kill_installer)))

    report_binding-Settles :
        (code : ℕ) (output : String) → Settles (report_binding services texts code output)
    report_binding-Settles code output = record {
      settled =
          sequence-Settles_first _ _ (report_end-Settles services _ (code, output))
            (λ _. give-Keeps false);
    }

    -- word that the job is cancelled settles it
    pub job_cancelled-IsStopped : (s : State W) → IsStopped (job_cancelled services s)
    unfolding job_cancelled
    job_cancelled-IsStopped s =
        elim (Bool-cases ((services.read_status s.world).0 == some "cancelled")) [
          | inl e ↦ rw (e, job_cancelled) refl
          | inr e ↦ rw (e, job_cancelled) tt
        ]

    -- after a look at the status, which the first branch is for
    after_look {ℓ} :
        {A : Type ℓ} (P : Try A × State W → Type 0) (m n : M W A)
        → ((s : State W) → is_final s.events ≡ true → P (m s))
        → ((s : State W) → P (n s))
        → ((s : State W) (text : String) → P (raised text, s))
        → (s : State W) → P ((job_cancelled services >>= λ cancelled. if cancelled then m else n) s)
    unfolding ◌>>=◌
    after_look P m n h k r s = elim (Try-cases (job_cancelled services s).0) [
      | inl (true, e) ↦
          rw (e, ◌>>=◌)
            (h (job_cancelled services s).1 (rw (e, IsStopped) at (job_cancelled-IsStopped s)))
      | inl (false, e) ↦ rw (e, ◌>>=◌) (k (job_cancelled services s).1)
      | inr (text, e) ↦ rw (e, ◌>>=◌) (r (job_cancelled services s).1 text)
    ]

    end_binding-Settles :
        (process : Process) (output_tail : String)
        → Settles (end_binding services texts process output_tail)
    unfolding end_binding
    end_binding-Settles process output_tail = record {
      settled =
          after_look IsSettled _ _ (λ s h. h) (report_binding-Settles process.code _).settled
            (λ s text. tt);
    }

    watch-IsWatched :
        (lines : List (Option String)) (output_tail : String) (s : State W)
        → IsWatched (watch services texts lines output_tail s)
    unfolding watch
    watch-IsWatched [] output_tail s = tt
    watch-IsWatched (none ∷ lines) output_tail s =
        after_look IsWatched _ _ (λ s h. h) (watch-IsWatched lines output_tail) (λ s text. tt) s
    watch-IsWatched (some text ∷ lines) output_tail s =
        after_look IsWatched _ _ (λ s h. h)
          (sequence-IsWatched _ _
            (λ _. watch-IsWatched lines (texts.tail (String.◌++◌ output_tail text))))
          (λ s text. tt) s

    reap-IsWatched :
        (watched : Bool × String) (s : State W)
        → IsWatched (returned watched, s)
        → IsWatched (reap services texts watched s)
    reap-IsWatched (true, output_tail) s h = h
    reap-IsWatched (false, output_tail) s h = sequence-IsWatched _ _ (λ _ s. tt) s

    watch_process-IsWatched :
        (process : Process) (s : State W) → IsWatched (watch_process services texts process s)
    unfolding watch_process ◌>>=◌
    watch_process-IsWatched process s =
        elim (Try-cases (watch services texts process.lines "" s).0) [
          | inl (watched, e) ↦
              rw (e, watch_process, ◌>>=◌)
                (reap-IsWatched watched (watch services texts process.lines "" s).1
                  (rw (e, IsWatched) at (watch-IsWatched process.lines "" s)))
          | inr (text, e) ↦ rw (e, watch_process, ◌>>=◌) tt
        ]

    throw_after-Settles :
        (cleanup_command : Bool) (text : String)
        → Settles (finally_clean_up services texts cleanup_command (λ s. (raised text, s)))
    throw_after-Settles cleanup_command text = record {
      settled = (sequence-Settles _ _ (λ _. throw-Settles text)).settled;
    }

    -- the block is left by a body that has settled the job
    finally_clean_up-IsSettled :
        (cleanup_command : Bool) (body : M W Bool) (s : State W)
        → IsSettled (body s)
        → IsSettled (finally_clean_up services texts cleanup_command body s)
    finally_clean_up-IsSettled cleanup_command body s h = elim (Try-cases (body s).0) [
      | inl (cancelled, e) ↦
          rw (e, finally_clean_up)
            ((clean_up-Keeps cleanup_command cancelled).kept (body s).1 (rw (e, IsSettled) at h))
      | inr (text, e) ↦
          rw (e, finally_clean_up) ((throw_after-Settles cleanup_command text).settled (body s).1)
    ]

    end_installer-IsSettled :
        (process : Process) (s : State W) → IsSettled (end_installer services texts process s)
    unfolding end_installer
    end_installer-IsSettled process s =
        let after = watch_process services texts process s in
        let watched = watch_process-IsWatched process s in
        elim (Try-cases after.0) [
          | inr (text, e) ↦ rw (e, end_installer) ((throw_after-Settles true text).settled after.1)
          | inl ((true, output_tail), e) ↦
              rw (e, end_installer)
                (finally_clean_up-IsSettled true (λ s. (returned true, s)) after.1
                  (rw (e, IsWatched) at watched))
          | inl ((false, output_tail), e) ↦
              rw (e, end_installer)
                (finally_clean_up-IsSettled false (end_binding services texts process output_tail)
                  after.1 ((end_binding-Settles process output_tail).settled after.1))
        ]

    run_installer-Settles : Settles (run_installer services texts)
    unfolding run_installer
    run_installer-Settles = record {
      settled = λ s.
          let opened = ask services.open_process s in
          elim (Try-cases (services.open_process s.world).0) [
            | inr (text, e) ↦
                rw (e, run_installer) ((throw_after-Settles false text).settled opened.1)
            | inl (process, e) ↦ rw (e, run_installer) (end_installer-IsSettled process opened.1)
          ];
    }

    pub bind_wechat-Settles : Settles (bind_wechat services texts)
    unfolding bind_wechat
    bind_wechat-Settles = sequence-Settles _ _ (λ instance'. sequence-Settles _ _ (λ _.
        sequence-Settles _ _ (λ status.
          sequence-Settles _ _
            (λ _. sequence-Settles _ _ (λ _. sequence-Settles _ _ (λ _. run_installer-Settles))))))
