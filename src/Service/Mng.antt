-- ===== src/Service/Mng.antt =====
-- coms/service/src/mng.rs, pid.rs and monitor.rs: the fields of a service and the calls that change
-- them. What lies outside (processes, control groups, the unit and its manager) is an interface.
use sysmaster.Base.{
  ℕ, Bool, true, false, not, ◌||◌, Option, none, some, List, [], ◌==◌, is_some, if◌then◌else◌,
}
use sysmaster.Unit.State.{ActiveState}
use sysmaster.Service.States.{
  ServiceType, ServiceState, ServiceResult, success, ServiceCommand, start, ServiceRestart,
  NotifyState, KillOperation, WaitStatus, ExitStatusSet, service_state_to_unit_state, keeps_main,
  keeps_control,
}

-- The configuration that the code reads. A command is a number.
pub record Config : Type 0 where
  pub service_type : ServiceType
  pub get_exec_cmds : ServiceCommand → Option (List ℕ)
  pub restart : ServiceRestart
  pub restart_prevent : ExitStatusSet
  pub remain_after_exit : Bool
  pub pid_file : Bool  -- whether one is configured
  pub restart_sec : ℕ
  pub watchdog_sec : ℕ

pub record Monitor : Type 0 where
  pub original_usec : ℕ
  pub override_usec : ℕ
  pub override_enable : Bool

-- A process is a number, where 0 stands for those below 1. `E` is the world outside.
pub record Mng (E : Type 0) : Type 0 where
  pub state : ServiceState
  pub result : ServiceResult
  pub main : Option ℕ
  pub main_known : Bool
  pub control : Option ℕ
  pub main_command : List ℕ
  pub control_command : List ℕ
  pub notify_state : NotifyState
  pub forbid_restart : Bool
  pub reset_restarts : Bool
  pub restarts : ℕ
  pub exec_status : WaitStatus
  pub monitor : Monitor
  pub watchdog_armed : Bool
  pub env : E

-- What the code asks of the world. `start_service` gives a process or fails; `kill_context`,
-- `test_start_limit`, `restart_unit` and `add_watch` say whether they succeed.
pub record Outside (E : Type 0) : Type 0 where
  pub has_owner : E → Bool
  pub has_stop_job : E → Bool
  pub alive : E → ℕ → Bool
  pub cg_is_empty : E → Option Bool
  pub same_unit : E → ℕ → Bool
  pub own_pid : E → ℕ
  pub read_pid_file : E → Option ℕ
  pub guess_main_pid : E → Option ℕ
  pub start_service : E → ℕ → E × Option ℕ
  pub kill_context : E → Option ℕ → Option ℕ → KillOperation → E × Bool
  pub test_start_limit : E → E × Bool
  pub restart_unit : E → E × Bool
  pub add_watch : E → E × Bool
  pub close_watch : E → E
  pub notify : E → ActiveState → ActiveState → E
  pub watch_pid : E → ℕ → E
  pub unwatch_pid : E → ℕ → E
  pub set_timer : E → ℕ → E
  pub set_watchdog : E → ℕ → E
  pub del_watchdog : E → E

module _ {E : Type 0} (ops : Outside E) where
  -- `pid.unwatch_main`
  unfoldable pub unwatch_main : Mng E → Mng E
  unwatch_main m = elim m.main [
    | none ↦ m
    | some pid ↦ record m {
      main = none;
      env = if ops.has_owner m.env then ops.unwatch_pid m.env pid else m.env;
    }
  ]

  unfoldable pub unwatch_control : Mng E → Mng E
  unwatch_control m = elim m.control [
    | none ↦ m
    | some pid ↦ record m {
      control = none;
      env = if ops.has_owner m.env then ops.unwatch_pid m.env pid else m.env;
    }
  ]

  known_main : Mng E → ℕ → Mng E × Bool
  known_main m pid =
      if pid == 0 then (m, false) else (record m { main = some pid; main_known = true }, true)

  -- `pid.set_main`: the answer says whether it succeeds.
  unfoldable pub set_main : Mng E → ℕ → Mng E × Bool
  unfolding unwatch_main known_main
  set_main m pid = elim m.main [
    | none ↦ known_main m pid
    | some p ↦ if p == pid then (m, true) else known_main (unwatch_main m) pid
  ]

  -- `pid.main_alive`: `none` is an error.
  unfoldable pub main_alive : Mng E → Option Bool
  main_alive m =
      if m.main_known
      then (elim m.main [ none ↦ some false | some pid ↦ some (ops.alive m.env pid) ])
      else none

  unfoldable pub cgroup_good : Mng E → Bool
  cgroup_good m =
      if ops.has_owner m.env
      then (elim (ops.cg_is_empty m.env) [ some v ↦ not v | none ↦ false ])
      else false

  unfoldable pub service_alive : Mng E → Bool
  unfolding main_alive cgroup_good
  service_alive m = elim (main_alive m) [ some v ↦ v | none ↦ cgroup_good m ]

  watch_new : Mng E → ℕ → Bool → Mng E
  watch_new m pid true = record m { env = ops.watch_pid m.env pid }
  watch_new m pid false = m

  -- `set_main` and, if that succeeds, `child_watch_pid`.
  unfoldable pub adopt_main : Mng E → ℕ → Mng E
  unfolding set_main watch_new
  adopt_main m pid = watch_new (set_main m pid).0 pid (set_main m pid).1

  unfoldable pub guess_main_pid : Mng E → Mng E
  unfolding adopt_main
  guess_main_pid m =
      if is_some m.main
      then m
      else if ops.has_owner m.env
      then (elim (ops.guess_main_pid m.env) [ none ↦ m | some pid ↦ adopt_main m pid ])
      else m

  -- `stop_watchdog`
  unfoldable pub stop_watchdog : Mng E → Mng E
  stop_watchdog m = if m.watchdog_armed then record m { env = ops.del_watchdog m.env } else m

  set_watchdog : Mng E → ℕ → Mng E
  unfolding stop_watchdog
  set_watchdog m usec =
      let m' = stop_watchdog m in
      record m' { watchdog_armed = true; env = ops.set_watchdog m'.env usec }

module _ {E : Type 0} (ops : Outside E) (conf : Config) where
  -- `set_state`: what the new state does not keep is dropped, and the unit is told.
  drop_main : Mng E → Mng E
  unfolding unwatch_main
  drop_main m =
      if not (keeps_main m.state) then record (unwatch_main ops m) { main_command = [] } else m

  drop_control : Mng E → Mng E
  unfolding unwatch_control
  drop_control m =
      if not (keeps_control m.state)
      then record (unwatch_control ops m) { control_command = [] }
      else m

  tell_unit : ServiceState → Mng E → Mng E
  tell_unit original m =
      if ops.has_owner m.env
      then record m {
        env =
            ops.notify m.env (service_state_to_unit_state conf.service_type original)
              (service_state_to_unit_state conf.service_type m.state);
      }
      else m

  unfoldable pub set_state : Mng E → ServiceState → Mng E
  unfolding drop_main drop_control tell_unit
  set_state m s = tell_unit m.state (drop_control (drop_main (record m { state = s })))

  -- `restart_watchdog`: a time of 0 or `u64::MAX` means none.
  unfoldable pub restart_watchdog : Mng E → Mng E
  unfolding stop_watchdog set_watchdog
  restart_watchdog m =
      let m1 = record m { monitor = record m.monitor { original_usec = conf.watchdog_sec } } in
      let usec =
        if m1.monitor.override_enable then m1.monitor.override_usec else m1.monitor.original_usec in
      if usec == 0 || usec == 18446744073709551615
      then stop_watchdog ops m1
      else set_watchdog ops m1 usec

  unfoldable pub override_watchdog_usec : Mng E → ℕ → Mng E
  unfolding restart_watchdog
  override_watchdog_usec m usec =
      restart_watchdog
        (record m { monitor = record m.monitor { override_usec = usec; override_enable = true } })

module _ {E : Type 0} (conf : Config) where
  -- The commands are replaced only if some are configured.
  unfoldable pub main_command_fill : Mng E → Mng E
  main_command_fill m = elim (conf.get_exec_cmds start) [
    | none ↦ m
    | some cmds ↦ record m { main_command = cmds }
  ]

  unfoldable pub control_command_fill : Mng E → ServiceCommand → Mng E
  control_command_fill m c = elim (conf.get_exec_cmds c) [
    | none ↦ m
    | some cmds ↦ record m { control_command = cmds }
  ]

-- `if self.result() == Success { self.set_result(res) }`
unfoldable pub keep_failure : {E : Type 0} → Mng E → ServiceResult → Mng E
keep_failure m res = elim m.result [ success ↦ record m { result = res } | _ ↦ m ]
