-- ===== src/Socket/States.antt =====
-- coms/socket/src/rentry.rs and mng.rs: the states of a socket.
use sysmaster.Base.{Bool, true, false}
use sysmaster.Unit.State.{ActiveState, active, inactive, activating, deactivating, maintenance}
use sysmaster.Service.States.{KillOperation, kill_terminate, kill_kill}

pub data SocketState : Type 0 where
  dead start_pre start_chown start_post listening running stop_pre stop_pre_sigterm stop_pre_sigkill
        stop_post final_sigterm final_sigkill failed cleaning state_max :
      SocketState

pub data SocketResult : Type 0 where
  success failure_resources failure_timeout failure_exit_code failure_signal failure_core_dump
        failure_start_limit_hit failure_trigger_limit_hit failure_service_start_limit_hit
        result_invalid :
      SocketResult

pub data SocketCommand : Type 0 where
  start_pre start_post stop_pre stop_post : SocketCommand

abbrev pub is_ok : SocketResult → Bool
is_ok success = true
is_ok _ = false

unfoldable pub socket_active_state : SocketState → ActiveState
socket_active_state dead = inactive
socket_active_state SocketState.start_pre = activating
socket_active_state start_chown = activating
socket_active_state SocketState.start_post = activating
socket_active_state listening = active
socket_active_state running = active
socket_active_state failed = ActiveState.failed
socket_active_state cleaning = maintenance
socket_active_state _ = deactivating

unfoldable pub socket_kill_operation : SocketState → KillOperation
socket_kill_operation stop_pre_sigterm = kill_kill
socket_kill_operation final_sigterm = kill_terminate
socket_kill_operation _ = kill_kill

-- The states of `set_state` in which the control process is kept.
unfoldable pub keeps_process : SocketState → Bool
keeps_process SocketState.start_pre = true
keeps_process start_chown = true
keeps_process SocketState.start_post = true
keeps_process SocketState.stop_pre = true
keeps_process stop_pre_sigterm = true
keeps_process stop_pre_sigkill = true
keeps_process SocketState.stop_post = true
keeps_process final_sigterm = true
keeps_process final_sigkill = true
keeps_process _ = false

-- Those in which the file descriptors stay open.
unfoldable pub keeps_open : SocketState → Bool
keeps_open start_chown = true
keeps_open SocketState.start_post = true
keeps_open listening = true
keeps_open running = true
keeps_open SocketState.stop_pre = true
keeps_open stop_pre_sigterm = true
keeps_open stop_pre_sigkill = true
keeps_open _ = false

abbrev pub is_listening : SocketState → Bool
is_listening listening = true
is_listening _ = false

-- The first test of `start_check`.
unfoldable pub is_going_down : SocketState → Bool
is_going_down SocketState.stop_pre = true
is_going_down stop_pre_sigkill = true
is_going_down stop_pre_sigterm = true
is_going_down SocketState.stop_post = true
is_going_down final_sigterm = true
is_going_down final_sigkill = true
is_going_down cleaning = true
is_going_down _ = false

-- The second test of `start_check` and of `stop_check`.
unfoldable pub is_coming_up : SocketState → Bool
is_coming_up SocketState.start_pre = true
is_coming_up start_chown = true
is_coming_up SocketState.start_post = true
is_coming_up _ = false

-- The first test of `stop_check`.
unfoldable pub is_in_stop : SocketState → Bool
is_in_stop SocketState.stop_pre = true
is_in_stop stop_pre_sigterm = true
is_in_stop stop_pre_sigkill = true
is_in_stop SocketState.stop_post = true
is_in_stop final_sigterm = true
is_in_stop final_sigkill = true
is_in_stop _ = false
