-- ===== src/Executor/Limits/Installer.antt =====
-- The branch `wechat_bind` runs no command of the adapter.
use Prim.Native.String
use openclaw_manager.Common.{
  String, Bool, true, false, ◌||◌, Option, none, some, List, [], ◌∷◌, nat_eq, string_eq, option_eq,
  if◌then◌else◌, inl, inr, arith,
}
use openclaw_manager.Executor.{returned, raised, Process, Services, Texts, M, ◌>>=◌}
use openclaw_manager.Executor.Calls.{ask, job_cancelled}
use openclaw_manager.Executor.Binding.{
  watch, reap, watch_process, end_binding, clean_up, finally_clean_up, end_installer, run_installer,
  bind_wechat,
}
use openclaw_manager.Executor.Settled.{Try-cases}
use openclaw_manager.Executor.Limits.{
  Costs, give-Costs, throw-Costs, sequence-Costs_later, if-Costs, ask-Costs, require-Costs,
  when_true-Costs, update-Costs, job_cancelled-Costs, report_end-Costs,
}

module _ {W : Type 0} (services : Services W) (texts : Texts) where
  after_look-Costs {ℓ} :
      {A : Type ℓ} (m n : M W A)
      → Costs 0 m
      → Costs 0 n
      → Costs 0 (job_cancelled services >>= λ cancelled. if cancelled then m else n)
  after_look-Costs m n h k =
      sequence-Costs_later 0 _ _ (job_cancelled-Costs services)
        (λ cancelled. if-Costs 0 cancelled m n h k)

  watch-Costs :
      (lines : List (Option String)) (output_tail : String)
      → Costs 0 (watch services texts lines output_tail)
  unfolding watch
  watch-Costs [] output_tail = give-Costs _
  watch-Costs (none ∷ lines) output_tail =
      after_look-Costs _ _ (give-Costs _) (watch-Costs lines output_tail)
  watch-Costs (some text ∷ lines) output_tail = after_look-Costs _ _ (give-Costs _) (
      sequence-Costs_later 0 _ _ (update-Costs services _)
        (λ _. watch-Costs lines (texts.tail (String.◌++◌ output_tail text))))

  reap-Costs : (watched : Bool × String) → Costs 0 (reap services texts watched)
  reap-Costs (cancelled, output_tail) =
      if-Costs 0 cancelled _ _ (give-Costs _)
        (sequence-Costs_later 0 _ _ (ask-Costs services.wait_process) (λ _. give-Costs _))

  watch_process-Costs : (process : Process) → Costs 0 (watch_process services texts process)
  unfolding watch_process
  watch_process-Costs process = sequence-Costs_later 0 _ _ (watch-Costs process.lines "") reap-Costs

  end_binding-Costs :
      (process : Process) (output_tail : String)
      → Costs 0 (end_binding services texts process output_tail)
  unfolding end_binding
  end_binding-Costs process output_tail =
      after_look-Costs _ _ (give-Costs true)
        (sequence-Costs_later 0 _ _ (report_end-Costs services _ _) (λ _. give-Costs false))

  clean_up-Costs :
      (cleanup_command cancelled : Bool)
      → Costs 0 (clean_up services texts cleanup_command cancelled)
  unfolding clean_up
  clean_up-Costs cleanup_command cancelled =
      sequence-Costs_later 0 _ _
        (when_true-Costs 0 cleanup_command _ (ask-Costs services.stop_process))
        (λ _.
          sequence-Costs_later 0 _ _
            (if-Costs 0 cancelled _ _ (give-Costs true) (job_cancelled-Costs services))
            (λ seen.
              when_true-Costs 0 (seen || cleanup_command) _ (ask-Costs services.kill_installer)))

  finally_clean_up-Costs :
      (cleanup_command : Bool) (body : M W Bool)
      → Costs 0 body
      → Costs 0 (finally_clean_up services texts cleanup_command body)
  finally_clean_up-Costs cleanup_command body h = record {
    bound = λ s.
        let spent = h.bound s in
        elim (Try-cases (body s).0) [
          | inl (cancelled, e) ↦
              let more = (clean_up-Costs cleanup_command cancelled).bound (body s).1 in
              rw (e, finally_clean_up) (omega arith)
          | inr (text, e) ↦
              let more =
                (sequence-Costs_later 0 _ _ (clean_up-Costs cleanup_command false)
                    (λ _. throw-Costs {A = Unit {0}} text)).bound
                  (body s).1 in
              rw (e, finally_clean_up) (omega arith)
        ];
  }

  end_installer-Costs : (process : Process) → Costs 0 (end_installer services texts process)
  unfolding end_installer
  end_installer-Costs process = record {
    bound = λ s.
        let spent = (watch_process-Costs process).bound s in
        let after = (watch_process services texts process s).1 in
        elim (Try-cases (watch_process services texts process s).0) [
          | inr (text, e) ↦
              let more =
                (finally_clean_up-Costs true (λ s. (raised text, s)) (throw-Costs text)).bound
                  after in
              rw (e, end_installer) (omega arith)
          | inl ((true, output_tail), e) ↦
              let more =
                (finally_clean_up-Costs true (λ s. (returned true, s)) (give-Costs true)).bound
                  after in
              rw (e, end_installer) (omega arith)
          | inl ((false, output_tail), e) ↦
              let more =
                (finally_clean_up-Costs false (end_binding services texts process output_tail)
                    (end_binding-Costs process output_tail)).bound
                  after in
              rw (e, end_installer) (omega arith)
        ];
  }

  run_installer-Costs : Costs 0 (run_installer services texts)
  unfolding run_installer
  run_installer-Costs = record {
    bound = λ s.
        let opened = (ask services.open_process s).1 in
        elim (Try-cases (services.open_process s.world).0) [
          | inr (text, e) ↦
              let more =
                (finally_clean_up-Costs false (λ s. (raised text, s)) (throw-Costs text)).bound
                  opened in
              rw (e, run_installer) more
          | inl (process, e) ↦
              let more = (end_installer-Costs process).bound opened in rw (e, run_installer) more
        ];
  }

  pub bind_wechat-Costs : Costs 0 (bind_wechat services texts)
  unfolding bind_wechat
  bind_wechat-Costs =
      sequence-Costs_later 0 _ _ (ask-Costs services.read_runtime_instance) (λ instance'.
        sequence-Costs_later 0 _ _ (require-Costs _ _) (λ _.
          sequence-Costs_later 0 _ _ (ask-Costs services.status_text) (λ status.
            sequence-Costs_later 0 _ _ (require-Costs _ _) (λ _.
              sequence-Costs_later 0 _ _ (ask-Costs services.read_runtime_target) (λ _.
                sequence-Costs_later 0 _ _ (update-Costs services _) (λ _. run_installer-Costs))))))
