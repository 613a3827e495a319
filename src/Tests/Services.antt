-- ===== src/Tests/Services.antt =====
-- The theorems on services at concrete inputs: one service in a world that grants every request.
use sysmaster.Service.States.{
  simple, ServiceState, running, success, failure_exit_code, on_failure, unknown, exited,
  restarts_on, dead, auto_restart, exit_status_enabled,
}
use sysmaster.Service.Mng.{Config, Mng, Outside}
use sysmaster.Service.Start.{stop_action}
use sysmaster.Service.Child.{control_exit, main_exit}
use sysmaster.Service.Ended.{halts, stop_action-halts, down_state}
use sysmaster.Service.Restart.{control_exit-forgets, main_exit-restarts}
use sysmaster.Base.{none, some, true, false, [], ok, inr, ◌≡◌, refl, if◌then◌else◌}

abbrev world : Outside (Unit {0})
world = record {
  has_owner = λ e. true;
  has_stop_job = λ e. false;
  alive = λ e pid. false;
  cg_is_empty = λ e. some true;
  same_unit = λ e pid. true;
  own_pid = λ e. 1;
  read_pid_file = λ e. none;
  guess_main_pid = λ e. none;
  start_service = λ e cmd. (e, some 40);
  kill_context = λ e main control k. (e, true);
  test_start_limit = λ e. (e, true);
  restart_unit = λ e. (e, true);
  add_watch = λ e. (e, true);
  close_watch = λ e. e;
  notify = λ e old new. e;
  watch_pid = λ e pid. e;
  unwatch_pid = λ e pid. e;
  set_timer = λ e usec. e;
  set_watchdog = λ e usec. e;
  del_watchdog = λ e. e;
}

-- A simple service without commands, which restarts after a failure.
abbrev conf : Config
conf = record {
  service_type = simple;
  get_exec_cmds = λ c. none;
  restart = on_failure;
  restart_prevent = record { status = []; signal = [] };
  remain_after_exit = false;
  pid_file = false;
  restart_sec = 100000;
  watchdog_sec = 0;
}

abbrev up : Mng (Unit {0})
up = record {
  state = running;
  result = success;
  main = some 30;
  main_known = true;
  control = none;
  main_command = [];
  control_command = [];
  notify_state = unknown;
  forbid_restart = false;
  reset_restarts = false;
  restarts = 0;
  exec_status = exited 0 0;
  monitor = record { original_usec = 0; override_usec = 0; override_enable = false };
  watchdog_armed = false;
  env = tt;
}

-- The same service while its start-pre command runs.
abbrev preparing : Mng (Unit {0})
preparing = record up { state = ServiceState.start_pre; main = none; control = some 31 }

stop_action-halts_example : halts (stop_action world conf up) ≡ true
stop_action-halts_example = stop_action-halts world conf (λ e. refl) up

-- Exit status 3 is a failure, after which the service is to restart.
main_exit-restarts_example :
    (n : Mng (Unit {0})) × (main_exit world conf up (exited 30 3) failure_exit_code ≡ ok n)
    × (n.state ≡ (
        if restarts_on on_failure failure_exit_code
        then auto_restart
        else down_state failure_exit_code))
unfolding exit_status_enabled
main_exit-restarts_example =
    main_exit-restarts world conf (λ e. refl) (λ e main control k. refl) (λ e. refl) (λ e. refl) up
      (exited 30 3) failure_exit_code refl refl refl refl (refl, refl) refl refl refl refl

-- The start-pre command has failed, and the service is dead instead of waiting for its restart.
control_exit-forgets_example :
    (n : Mng (Unit {0})) × (control_exit world conf preparing failure_exit_code ≡ ok n)
    × (n.state ≡ (if restarts_on on_failure success then auto_restart else dead))
unfolding exit_status_enabled
control_exit-forgets_example =
    control_exit-forgets world conf (λ e. refl) (λ e main control k. refl) (λ e. refl) preparing
      failure_exit_code (inr refl) refl refl refl refl refl
