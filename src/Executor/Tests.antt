-- ===== src/Executor/Tests.antt =====
-- A worker in a world that counts the calls, where no command succeeds.
use openclaw_manager.Common.{ℕ, true, false, none, some, [], ◌≡◌, refl, ◌≤◌, ◌+◌, length}
use openclaw_manager.Json.{end}
use openclaw_manager.Store.Rows.{start, hermes, InstanceStatus, RestoreState}
use openclaw_manager.Executor.{
  ClaimedJob, ClaimedInstance, returned, raised, Services, Texts, State,
}
use openclaw_manager.Executor.Run.{run_once}
use openclaw_manager.Executor.Settled.{is_final}
use openclaw_manager.Executor.Outcome.{run_once_final}
use openclaw_manager.Executor.Limits.Total.{command_limit, run_once-command_limit}

abbrev start_job : ClaimedJob
start_job = record { request_id = "r-1"; action = start; params = end }

abbrev stopped_box : ClaimedInstance
stopped_box = record {
  product = hermes;
  status = InstanceStatus.stopped;
  restore_state = RestoreState.not_applicable;
  access_role = none;
  basic_auth_enabled = true;
}

-- Every call is one more.
abbrev counting : Services ℕ
counting = record {
  claim = λ w. (returned (some (start_job, stopped_box)), w + 1);
  send = λ u w. (none, w + 1);
  read_status = λ w. (some "running", w + 1);
  command = λ c w. (returned (1, "no such container"), w + 1);
  make_adapter = λ w. (returned tt, w);
  status_text = λ w. (returned "STOPPED", w + 1);
  read_runtime_target = λ w. (returned tt, w);
  read_runtime_instance = λ w. (returned stopped_box, w);
  consume_secret = λ path w. (raised "invalid provisioning secret", w);
  describe_creation = λ w. (returned end, w);
  pop_client_created = λ w. (false, w);
  delete_hermes_client = λ w. (returned tt, w);
  open_process = λ w. (raised "no docker", w);
  wait_process = λ w. (returned tt, w);
  stop_process = λ w. (returned tt, w);
  kill_installer = λ w. (returned tt, w);
}

abbrev plain : Texts
plain = record {
  tail = λ t. t;
  sanitize = λ t password. t;
  rstrip = λ t. t;
  find_url = λ t. none;
  number = λ n. "n";
}

abbrev at_first : State ℕ
at_first = record { world = 0; events = []; commands = [] }

run_once_final_example :
    ((run_once counting plain 2 at_first).0 ≡ returned true)
    × (is_final (run_once counting plain 2 at_first).1.events ≡ true)
run_once_final_example = run_once_final counting plain 2 at_first start_job stopped_box refl

run_once-command_limit_example :
    length (run_once counting plain 2 at_first).1.commands
    ≤ length at_first.commands + command_limit 2 stopped_box.product start
run_once-command_limit_example =
    run_once-command_limit counting plain 2 at_first start_job stopped_box refl
