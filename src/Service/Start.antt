-- ===== src/Service/Start.antt =====
-- coms/service/src/mng.rs: how a service starts, reloads and restarts, and the three requests of the
-- unit.
use sysmaster.Base.{
  ℕ, ◌+◌, Bool, true, false, not, Option, none, some, [], ◌∷◌, Checked, ok, panic, if◌then◌else◌,
  ◌==◌,
}
use sysmaster.Service.States.{
  ServiceType, simple, forking, oneshot, idle, exec, ServiceState, running, stop_sigterm,
  ServiceResult, success, failure_resources, failure_start_limit_hit, failure_watchdog,
  ServiceCommand, NotifyState, stopping, stop_watchdog, is_success, is_starting, is_stopping,
  is_in_start,
}
use sysmaster.Service.Mng.{
  Config, Mng, Outside, unwatch_main, unwatch_control, set_main, service_alive, restart_watchdog,
  set_state, main_command_fill, control_command_fill, keep_failure,
}
use sysmaster.Service.Stop.{
  enter_dead, run_control, next_control, enter_signal, enter_stop, enter_stop_by_notify,
}

module _ {E : Type 0} (ops : Outside E) (conf : Config) where
  is_stopping_notice : NotifyState → Bool
  is_stopping_notice stopping = true
  is_stopping_notice _ = false

  -- `enter_running`, once the control process and the result are set.
  unfoldable pub settle_running : Mng E → ServiceResult → Mng E
  unfolding enter_signal enter_stop enter_stop_by_notify is_stopping_notice
  settle_running m res =
      if not (is_success m.result)
      then enter_signal ops conf m stop_sigterm res
      else if service_alive ops m
      then (if is_stopping_notice m.notify_state
          then enter_stop_by_notify ops conf m
          else set_state ops conf m running)
      else if conf.remain_after_exit
      then set_state ops conf m ServiceState.exited
      else enter_stop ops conf m res

  unfoldable pub enter_running : Mng E → ServiceResult → Mng E
  unfolding settle_running
  enter_running m res = settle_running (keep_failure (unwatch_control ops m) res) res

  -- If the command cannot be started, this is only logged.
  unfoldable pub enter_start_post : Mng E → Mng E
  unfolding next_control enter_running
  enter_start_post m =
      next_control ops conf
        (control_command_fill conf (restart_watchdog ops conf (unwatch_control ops m))
          ServiceCommand.start_post)
        ServiceState.start_post (λ m1. m1) (λ m1. enter_running m1 success)

  unfoldable pub enter_reload : Mng E → Mng E
  unfolding next_control enter_running
  enter_reload m =
      next_control ops conf
        (control_command_fill conf (unwatch_control ops (record m { control_command = [] }))
          ServiceCommand.reload)
        ServiceState.reload (λ m1. enter_running m1 success) (λ m1. enter_running m1 success)

  -- The service has a process. `Idle` and `Exec` are `todo!()`.
  started : Mng E → ServiceType → ℕ → Checked (Mng E)
  unfolding set_main enter_start_post
  started m simple pid = ok (enter_start_post (set_main ops m pid).0)
  started m forking pid =
      ok (set_state ops conf (record m { control = some pid }) ServiceState.start)
  started m oneshot pid = ok (set_state ops conf (set_main ops m pid).0 ServiceState.start)
  started m ServiceType.notify pid =
      ok (set_state ops conf (set_main ops m pid).0 ServiceState.start)
  started m idle pid = panic
  started m exec pid = panic
  started m _ pid = ok m

  start_main : Mng E → ℕ → Checked (Mng E)
  unfolding started
  start_main m cmd =
      let (e, pid) = ops.start_service m.env cmd in
      elim pid [
        | some p ↦ started (record m { env = e }) conf.service_type p
        | none ↦ ok (enter_signal ops conf (record m { env = e }) stop_sigterm failure_resources)
      ]

  is_oneshot : ServiceType → Bool
  is_oneshot oneshot = true
  is_oneshot _ = false

  -- Without a command only a oneshot service goes on.
  no_command : Mng E → Mng E
  unfolding is_oneshot
  no_command m =
      if not (is_oneshot conf.service_type)
      then enter_signal ops conf m stop_sigterm failure_resources
      else enter_start_post (set_state ops conf m ServiceState.start)

  -- The command of `enter_start`: a forking service starts a control process.
  start_command : Mng E → ServiceType → Checked (Mng E)
  unfolding start_main no_command
  start_command m forking =
      let m1 = control_command_fill conf m ServiceCommand.start in
      elim m1.control_command [
        | [] ↦ ok (no_command m1)
        | cmd ∷ cmds ↦ start_main (record m1 { control_command = cmds }) cmd
      ]
  start_command m _ =
      let m1 = main_command_fill conf m in
      elim m1.main_command [
        | [] ↦ ok (no_command m1)
        | cmd ∷ cmds ↦ start_main (record m1 { main_command = cmds }) cmd
      ]

  unfoldable pub enter_start : Mng E → Checked (Mng E)
  unfolding start_command
  enter_start m =
      let m1 = unwatch_main ops (unwatch_control ops (record m { control_command = [] })) in
      start_command (main_command_fill conf m1) conf.service_type

  -- A first command in a control process, or the next step where none is left.
  first_control : Mng E → ServiceState → (Mng E → Checked (Mng E)) → Checked (Mng E)
  first_control m s other = elim m.control_command [
    | [] ↦ other m
    | cmd ∷ cmds ↦ ok (
        run_control ops conf (record m { control_command = cmds }) cmd s
          (λ m1. enter_dead ops conf m1 failure_resources true))
  ]

  unfoldable pub enter_prestart : Mng E → Checked (Mng E)
  unfolding first_control run_control enter_start
  enter_prestart m =
      first_control (control_command_fill conf (unwatch_control ops m) ServiceCommand.start_pre)
        ServiceState.start_pre enter_start

  unfoldable pub enter_condition : Mng E → Checked (Mng E)
  unfolding first_control run_control enter_prestart
  enter_condition m =
      first_control (control_command_fill conf m ServiceCommand.condition) ServiceState.condition
        enter_prestart

  -- `start_check`: an error, or whether the service is already in its start.
  unfoldable pub start_check : Mng E → Mng E × Option Bool
  start_check m =
      if is_stopping m.state
      then (m, none)
      else if is_in_start m.state
      then (m, some true)
      else (let (e, below) =
            if ops.has_owner m.env then ops.test_start_limit m.env else (m.env, false) in
          if below
          then (record m { env = e }, some false)
          else (enter_dead ops conf (record m { env = e }) failure_start_limit_hit false, none))

  unfoldable pub start_action : Mng E → Checked (Mng E)
  start_action m =
      let m1 = if m.reset_restarts then record m { restarts = 0; reset_restarts = false } else m in
      enter_condition (record m1 { result = success })

  unfoldable pub stop_action : Mng E → Mng E
  stop_action m =
      let m1 = record m { forbid_restart = true } in
      if is_starting m.state
      then enter_signal ops conf m1 stop_sigterm success
      else enter_stop ops conf m1 success

  -- `enter_restart`: the count of restarts is a `u32`.
  unfoldable pub enter_restart : Mng E → Checked (Mng E)
  enter_restart m =
      if not (ops.has_owner m.env)
      then panic
      else if ops.has_stop_job m.env
      then ok m
      else (let (e, done) = ops.restart_unit m.env in
          if not done
          then ok (enter_dead ops conf (record m { env = e }) failure_resources false)
          else if m.restarts + 1 == 4294967296
          then panic
          else ok (record m { env = e; restarts = m.restarts + 1; reset_restarts = false }))

  unfoldable pub force_watchdog : Mng E → Mng E
  force_watchdog m = enter_signal ops conf m stop_watchdog failure_watchdog
