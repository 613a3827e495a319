-- ===== src/Service/States.antt =====
-- coms/service/src/rentry.rs and mng.rs: the states of a service, and what they are for the unit.
use sysmaster.Base.{ℕ, ◌%◌, Bool, true, false, List, any, ◌==◌}
use sysmaster.Unit.State.{
  ActiveState, active, reloading, inactive, activating, deactivating, maintenance,
}

pub data ServiceType : Type 0 where
  simple forking oneshot notify idle exec type_max type_invalid : ServiceType

pub data ServiceState : Type 0 where
  dead condition start_pre start start_post running exited reload stop stop_watchdog stop_post
        stop_sigterm stop_sigkill final_watchdog final_sigterm final_sigkill auto_restart failed
        cleaning :
      ServiceState

pub data ServiceResult : Type 0 where
  success failure_protocol failure_resources failure_signal failure_start_limit_hit failure_watchdog
        failure_exit_code failure_core_dump failure_timeout skip_condition result_invalid :
      ServiceResult

pub data ServiceCommand : Type 0 where
  condition start_pre start start_post reload stop stop_post : ServiceCommand

pub data ServiceRestart : Type 0 where
  no on_success on_failure on_watchdog on_abnormal on_abort always : ServiceRestart

pub data NotifyState : Type 0 where
  unknown ready stopping : NotifyState

pub data KillOperation : Type 0 where
  kill_terminate kill_kill kill_watchdog kill_invalid : KillOperation

-- `WaitStatus`, as far as it is looked at: the process, its status, its signal and core dump.
pub data WaitStatus : Type 0 where
  exited : ℕ → ℕ → WaitStatus
  signaled : ℕ → ℕ → Bool → WaitStatus
  other_status : ℕ → WaitStatus

pub record ExitStatusSet : Type 0 where
  pub status : List ℕ
  pub signal : List ℕ

-- An exit status is compared as a `u8`.
unfoldable pub exit_status_enabled : ExitStatusSet → WaitStatus → Bool
exit_status_enabled s (exited pid status) = any (λ i. i == status % 256) s.status
exit_status_enabled s (signaled pid sig core) = any (λ i. i == sig) s.signal
exit_status_enabled s (other_status pid) = false

abbrev pub is_success : ServiceResult → Bool
is_success success = true
is_success _ = false

to_unit_active_state : ServiceState → ActiveState
to_unit_active_state dead = inactive
to_unit_active_state ServiceState.condition = activating
to_unit_active_state ServiceState.start_pre = activating
to_unit_active_state ServiceState.start = activating
to_unit_active_state ServiceState.start_post = activating
to_unit_active_state auto_restart = activating
to_unit_active_state running = active
to_unit_active_state ServiceState.exited = active
to_unit_active_state ServiceState.reload = reloading
to_unit_active_state failed = ActiveState.failed
to_unit_active_state cleaning = maintenance
to_unit_active_state _ = deactivating

to_unit_active_state_idle : ServiceState → ActiveState
to_unit_active_state_idle ServiceState.condition = active
to_unit_active_state_idle ServiceState.start_pre = active
to_unit_active_state_idle ServiceState.start = active
to_unit_active_state_idle ServiceState.start_post = active
to_unit_active_state_idle dead = inactive
to_unit_active_state_idle running = active
to_unit_active_state_idle ServiceState.exited = active
to_unit_active_state_idle ServiceState.reload = reloading
to_unit_active_state_idle failed = ActiveState.failed
to_unit_active_state_idle cleaning = maintenance
to_unit_active_state_idle auto_restart = activating
to_unit_active_state_idle _ = deactivating

unfoldable pub service_state_to_unit_state : ServiceType → ServiceState → ActiveState
unfolding to_unit_active_state to_unit_active_state_idle
service_state_to_unit_state idle s = to_unit_active_state_idle s
service_state_to_unit_state _ s = to_unit_active_state s

unfoldable pub to_kill_operation : ServiceState → KillOperation
to_kill_operation stop_watchdog = kill_watchdog
to_kill_operation stop_sigterm = kill_terminate
to_kill_operation final_sigterm = kill_terminate
to_kill_operation stop_sigkill = kill_kill
to_kill_operation final_sigkill = kill_kill
to_kill_operation _ = kill_invalid

-- The states of `set_state` in which the main process and its commands are kept.
unfoldable pub keeps_main : ServiceState → Bool
keeps_main dead = false
keeps_main ServiceState.condition = false
keeps_main ServiceState.start_pre = false
keeps_main ServiceState.exited = false
keeps_main auto_restart = false
keeps_main failed = false
keeps_main cleaning = false
keeps_main _ = true

-- Those in which the control process and its commands are kept.
unfoldable pub keeps_control : ServiceState → Bool
keeps_control dead = false
keeps_control running = false
keeps_control ServiceState.exited = false
keeps_control auto_restart = false
keeps_control failed = false
keeps_control _ = true

-- `StopWatchdog`, `StopSigterm` and `StopSigkill`.
unfoldable pub is_stop_signal : ServiceState → Bool
is_stop_signal stop_watchdog = true
is_stop_signal stop_sigterm = true
is_stop_signal stop_sigkill = true
is_stop_signal _ = false

-- `FinalWatchdog` and `FinalSigterm`.
unfoldable pub is_final_term : ServiceState → Bool
is_final_term final_watchdog = true
is_final_term final_sigterm = true
is_final_term _ = false

-- The starting states of `stop_action`.
unfoldable pub is_starting : ServiceState → Bool
is_starting ServiceState.condition = true
is_starting ServiceState.start_pre = true
is_starting ServiceState.start = true
is_starting ServiceState.start_post = true
is_starting ServiceState.reload = true
is_starting stop_watchdog = true
is_starting _ = false

-- The first test of `start_check`: the service is being stopped or cleaned.
unfoldable pub is_stopping : ServiceState → Bool
is_stopping ServiceState.stop = true
is_stopping stop_watchdog = true
is_stopping stop_sigterm = true
is_stopping stop_sigkill = true
is_stopping ServiceState.stop_post = true
is_stopping final_watchdog = true
is_stopping final_sigterm = true
is_stopping final_sigkill = true
is_stopping cleaning = true
is_stopping _ = false

-- The second: it is being started.
unfoldable pub is_in_start : ServiceState → Bool
is_in_start ServiceState.condition = true
is_in_start ServiceState.start_pre = true
is_in_start ServiceState.start = true
is_in_start ServiceState.start_post = true
is_in_start _ = false

-- The `match` of `shall_restart`.
unfoldable pub restarts_on : ServiceRestart → ServiceResult → Bool
restarts_on no r = false
restarts_on on_success success = true
restarts_on on_success _ = false
restarts_on on_failure success = false
restarts_on on_failure skip_condition = false
restarts_on on_failure _ = true
restarts_on on_watchdog failure_watchdog = true
restarts_on on_watchdog _ = false
restarts_on on_abnormal success = false
restarts_on on_abnormal failure_exit_code = false
restarts_on on_abnormal skip_condition = false
restarts_on on_abnormal _ = true
restarts_on on_abort failure_signal = true
restarts_on on_abort failure_core_dump = true
restarts_on on_abort _ = false
restarts_on always skip_condition = false
restarts_on always _ = true
