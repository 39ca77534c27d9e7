-- ===== src/Executor/Calls.antt =====
-- The calls of the worker: `update` and `job_cancelled` talk to manager-control, `run` to the adapter.
use openclaw_manager.Common.{
  ℕ, String, Bool, true, false, Option, none, some, ◌∷◌, ◌==◌, string_eq, nat_eq, option_eq,
  if◌then◌else◌,
}
use openclaw_manager.Json.{Value, Fields, get}
use openclaw_manager.Store.Rows.{running, succeeded, failed}
use openclaw_manager.Executor.{
  Update, Command, Try, returned, raised, Services, Event, sent, rejected, saw_cancelled, State, M,
  give, throw,
}

module _ {W : Type 0} where
  abbrev pub ask {ℓ} : {A : Type ℓ} → (W → Try A × W) → M W A
  ask call s = let (answer, world) = call s.world in (answer, record s { world = world })

  abbrev pub write_event : W → Event → State W → State W
  write_event world event s = record s { world = world; events = event ∷ s.events }

  -- `control.update(...)`
  unfoldable pub update : Services W → Update → M W (Unit {0})
  update services u s =
      let (refusal, world) = services.send u s.world in
      elim refusal [
        | none ↦ (returned tt, write_event world (sent u) s)
        | some text ↦ (raised text, write_event world (rejected u) s)
      ]

  -- `job_cancelled`
  unfoldable pub job_cancelled : Services W → M W Bool
  job_cancelled services s =
      let (status, world) = services.read_status s.world in
      if status == some "cancelled"
      then (returned true, write_event world saw_cancelled s)
      else (returned false, record s { world = world })

  unfoldable pub run : Services W → Command → M W (ℕ × String)
  run services c s =
      let (answer, world) = services.command c s.world in
      (answer, record s { world = world; commands = c ∷ s.commands })

  abbrev pub require : Bool → String → M W (Unit {0})
  require holds text = if holds then give tt else throw text

  abbrev pub when_true : Bool → M W (Unit {0}) → M W (Unit {0})
  when_true holds m = if holds then m else give tt

  -- `params[name]`
  abbrev pub param : String → Fields → M W Value
  param name params = elim (get name params) [ none ↦ throw name | some value ↦ give value ]

abbrev pub running_at : String → Update
running_at step = record {
  status = running;
  current_step = some step;
  error_summary = none;
  output = none;
  result = none;
}

abbrev pub success_with : String → Update
success_with output = record {
  status = succeeded;
  current_step = none;
  error_summary = none;
  output = some output;
  result = none;
}

abbrev pub failure_with : String → Option String → Update
failure_with summary output = record {
  status = failed;
  current_step = none;
  error_summary = some summary;
  output = output;
  result = none;
}

module _ {W : Type 0} (services : Services W) where
  -- the report on a command that has ended
  unfoldable pub report_end : String → ℕ × String → M W (Unit {0})
  report_end summary (code, output) =
      if code == 0
      then update services (success_with output)
      else update services (failure_with summary (some output))
