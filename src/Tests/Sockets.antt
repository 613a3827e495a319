-- ===== src/Tests/Sockets.antt =====
-- The theorem on sockets at a concrete input: a socket that has failed is started and stopped.
use sysmaster.Socket.States.{failed, failure_exit_code}
use sysmaster.Socket.Mng.{SocketConfig, SocketMng, SocketOutside}
use sysmaster.Socket.Requests.{socket_start_action, socket_stop_action}
use sysmaster.Socket.Failed.{HasFailed}
use sysmaster.Socket.Runs.{Steps-HasFailed, starts, stops, at_rest, and_then}
use sysmaster.Base.{none, some, true, false, [], refl}

abbrev world : SocketOutside (Unit {0})
world = record {
  has_owner = λ e. true;
  has_stop_job = λ e. false;
  relation_active_or_pending = λ e. false;
  unit_enabled = λ e u. true;
  start_socket = λ e cmd. (e, some 50);
  kill_context = λ e control k. (e, true);
  test_start_limit = λ e. (e, true);
  start_unit = λ e u. (e, true);
  open_fds = λ e. (e, true);
  close_fds = λ e. e;
  watch_fds = λ e. e;
  unwatch_fds = λ e. e;
  flush_ports = λ e. e;
  unwatch_pid = λ e pid. e;
  notify = λ e old new. e;
}

abbrev conf : SocketConfig
conf = record { get_exec_cmds = λ c. none; accept = false; unit_ref_target = some 4 }

abbrev down : SocketMng (Unit {0})
down = record {
  state = failed;
  result = failure_exit_code;
  control = none;
  control_command = [];
  refused = 0;
  env = tt;
}

abbrev up : SocketMng (Unit {0})
up = socket_start_action world conf down

-- Nothing fails in the second life of the socket, and yet it ends as failed.
Steps-HasFailed_example : HasFailed failure_exit_code (socket_stop_action world conf up)
Steps-HasFailed_example =
    Steps-HasFailed world conf failure_exit_code refl down (socket_stop_action world conf up)
      (refl, refl) (and_then up (and_then down at_rest starts) stops)
