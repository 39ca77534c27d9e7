-- ===== src/Executor/Binding.antt =====
-- The branch `wechat_bind` of `run_once`: the installer runs in the instance, and its output is
-- reported until it ends or the user takes the job back.
use openclaw_manager.Common.{
  ℕ, String, Bool, true, false, ◌||◌, Option, none, some, List, [], ◌∷◌, ◌==◌, nat_eq, string_eq,
  option_eq, if◌then◌else◌, starts_with, codes,
}
use Prim.Native.String
use openclaw_manager.Store.Rows.{running, openclaw}
use openclaw_manager.Executor.{
  Update, ClaimedInstance, returned, raised, Process, Services, Texts, M, give, throw, ◌>>=◌, ◌>>◌,
}
use openclaw_manager.Executor.Calls.{
  ask, update, job_cancelled, running_at, report_end, require, when_true,
}

abbrev pub is_up : String → Bool
is_up status = starts_with (codes "Up") (codes status)

-- `instance.get("access_role") in {"owner", "manager"}`
abbrev pub may_bind : ClaimedInstance → Bool
may_bind instance' = elim instance'.product [
  | openclaw ↦ instance'.access_role == some "owner" || instance'.access_role == some "manager"
  | _ ↦ false
]

abbrev pub running_with : String → Update
running_with output = record {
  status = running;
  current_step = none;
  error_summary = none;
  output = some output;
  result = none;
}

module _ {W : Type 0} (services : Services W) (texts : Texts) where
  abbrev pub shown_url : String → String → String
  shown_url default output = elim (texts.find_url output) [ none ↦ default | some url ↦ url ]

  -- The loop while the process runs; whether the job was cancelled, and the output so far.
  unfoldable pub watch : List (Option String) → String → M W (Bool × String)
  watch [] output_tail = give (false, output_tail)
  watch (line ∷ lines) output_tail = do
    cancelled ← job_cancelled services
    if cancelled then give (true, output_tail) else elim line [
      | none ↦ watch lines output_tail
      | some text ↦ do
        let output_tail = texts.tail (String.◌++◌ output_tail text)
        update services (running_with (shown_url "微信绑定任务正在运行。" output_tail))
        watch lines output_tail
    ]

  abbrev pub report_binding : ℕ → String → M W Bool
  report_binding code output = do report_end services "微信绑定命令失败或超时" (code, output); give false

  -- After the process has ended.
  unfoldable pub end_binding : Process → String → M W Bool
  end_binding process output_tail = do
    cancelled ← job_cancelled services
    if cancelled
        then give true
        else report_binding process.code
            (shown_url "" (texts.tail (String.◌++◌ output_tail process.rest)))

  abbrev pub reap : Bool × String → M W (Bool × String)
  reap (cancelled, output_tail) =
      if cancelled
      then give (true, output_tail)
      else do ask services.wait_process; give (false, output_tail)

  -- The loop, and the wait for the process.
  unfoldable pub watch_process : Process → M W (Bool × String)
  unfolding watch
  watch_process process = do watched ← watch process.lines ""; reap watched

  -- The `finally` block; an exception of its own replaces the one that is on its way.
  unfoldable pub clean_up : Bool → Bool → M W (Unit {0})
  clean_up cleanup_command cancelled = do
    when_true cleanup_command (ask services.stop_process)
    cancelled ← if cancelled then give true else job_cancelled services
    when_true (cancelled || cleanup_command) (ask services.kill_installer)

  -- `try: body finally: ...`, where the body tells whether the job was cancelled.
  abbrev pub finally_clean_up : Bool → M W Bool → M W (Unit {0})
  finally_clean_up cleanup_command body s =
      let (answer, s') = body s in
      elim answer [
        | returned cancelled ↦ clean_up cleanup_command cancelled s'
        | raised text ↦ (do clean_up cleanup_command false; throw text) s'
      ]

  -- The `try` statement once the process has been started: an exception or a cancellation before it is
  -- reaped leaves it to the block `finally` to stop it.
  unfoldable pub end_installer : Process → M W (Unit {0})
  unfolding watch_process end_binding clean_up
  end_installer process s =
      let (watched, s) = watch_process process s in
      elim watched [
        | raised text ↦ finally_clean_up true (throw text) s
        | returned (cancelled, output_tail) ↦
            if cancelled
            then finally_clean_up true (give true) s
            else finally_clean_up false (end_binding process output_tail) s
      ]

  unfoldable pub run_installer : M W (Unit {0})
  unfolding end_installer
  run_installer s =
      let (opened, s) = ask services.open_process s in
      elim opened [
        | raised text ↦ finally_clean_up false (throw text) s
        | returned process ↦ end_installer process s
      ]

  unfoldable pub bind_wechat : M W (Unit {0})
  unfolding run_installer
  bind_wechat = do
    instance' ← ask services.read_runtime_instance
    require (may_bind instance') "device pairing is not supported"
    status ← ask services.status_text
    require (is_up status) "instance is not running"
    ask services.read_runtime_target
    update services (running_at "starting wechat bind")
    run_installer
