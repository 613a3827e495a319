-- ===== src/Service/Stop.antt =====
-- coms/service/src/mng.rs: how a service stops, from its last state back to `enter_stop`.
-- `enter_signal` calls itself once, with `FinalSigkill`, so it is three functions: for the last
-- signals, the final ones and those that stop.
use sysmaster.Base.{ℕ, Bool, true, false, not, ◌&&◌, none, some, [], ◌∷◌, if◌then◌else◌}
use sysmaster.Service.States.{
  ServiceState, dead, failed, auto_restart, stop_sigterm, final_sigterm, final_sigkill,
  ServiceResult, success, failure_resources, ServiceCommand, is_success, to_kill_operation,
  is_stop_signal, is_final_term, restarts_on, exit_status_enabled,
}
use sysmaster.Service.Mng.{Config, Mng, Outside, set_state, control_command_fill, keep_failure}

module _ {E : Type 0} (ops : Outside E) (conf : Config) where
  unfoldable pub shall_restart : Mng E → Bool
  shall_restart m =
      if m.forbid_restart
      then false
      else if exit_status_enabled conf.restart_prevent m.exec_status
      then false
      else restarts_on conf.restart m.result

  -- After the new state is set: the timer of a restart, or none.
  end_dead : Mng E → Bool → Mng E
  end_dead m true =
      let m1 = record m { env = ops.set_timer m.env conf.restart_sec } in
      record (set_state ops conf m1 auto_restart) { forbid_restart = false }
  end_dead m false = record m { reset_restarts = true; forbid_restart = false }

  unfoldable pub enter_dead : Mng E → ServiceResult → Bool → Mng E
  unfolding end_dead shall_restart
  enter_dead m res force_restart =
      if not (ops.has_owner m.env)
      then m
      else (let m1 = keep_failure m res in
          let restart = force_restart && (not (ops.has_stop_job m.env) && shall_restart m1) in
          end_dead (set_state ops conf m1 (if is_success m1.result then dead else failed)) restart)

  -- `kill_context`, if the unit is there: the answer says that it has not failed.
  unfoldable pub kill : Mng E → ServiceState → Mng E × Bool
  kill m s =
      if ops.has_owner m.env
      then (let (e, done) = ops.kill_context m.env m.main m.control (to_kill_operation s) in
          (record m { env = e }, done))
      else (m, true)

  -- `enter_signal` with a state that is no signal to stop and not one before the last.
  unfoldable pub signal_last : Mng E → ServiceState → Mng E
  unfolding kill
  signal_last m s =
      let (m1, done) = kill m s in
      if done then enter_dead m1 success true else enter_dead m1 failure_resources true

  -- `enter_signal` with `FinalWatchdog` or `FinalSigterm`.
  unfoldable pub signal_final : Mng E → ServiceState → Mng E
  unfolding kill signal_last
  signal_final m s =
      let (m1, done) = kill m s in
      if done then signal_last m1 final_sigkill else enter_dead m1 failure_resources true

  -- A command in a control process; `fail` is what happens if it cannot be started.
  unfoldable pub run_control : Mng E → ℕ → ServiceState → (Mng E → Mng E) → Mng E
  run_control m cmd s fail =
      let (e, pid) = ops.start_service m.env cmd in
      elim pid [
        | some p ↦ set_state ops conf (record m { env = e; control = some p }) s
        | none ↦ fail (record m { env = e })
      ]

  -- The next of the commands, or `other` where there is none.
  unfoldable pub next_control : Mng E → ServiceState → (Mng E → Mng E) → (Mng E → Mng E) → Mng E
  unfolding run_control
  next_control m s fail other = elim m.control_command [
    | [] ↦ other m
    | cmd ∷ cmds ↦ run_control (record m { control_command = cmds }) cmd s fail
  ]

  unfoldable pub enter_stop_post : Mng E → ServiceResult → Mng E
  unfolding next_control signal_final
  enter_stop_post m res =
      next_control (control_command_fill conf (keep_failure m res) ServiceCommand.stop_post)
        ServiceState.stop_post (λ m1. signal_final m1 final_sigterm)
        (λ m1. signal_final m1 final_sigterm)

  -- `enter_signal`. The result that it is given is only logged.
  unfoldable pub enter_signal : Mng E → ServiceState → ServiceResult → Mng E
  unfolding kill enter_stop_post signal_final signal_last
  enter_signal m s res =
      if is_stop_signal s
      then (let (m1, done) = kill m s in
          enter_stop_post m1 (if done then success else failure_resources))
      else if is_final_term s
      then signal_final m s
      else signal_last m s

  unfoldable pub enter_stop : Mng E → ServiceResult → Mng E
  unfolding next_control enter_signal
  enter_stop m res =
      next_control (control_command_fill conf (keep_failure m res) ServiceCommand.stop)
        ServiceState.stop (λ m1. enter_signal m1 stop_sigterm failure_resources)
        (λ m1. enter_signal m1 stop_sigterm success)

  unfoldable pub enter_stop_by_notify : Mng E → Mng E
  enter_stop_by_notify m = set_state ops conf m stop_sigterm
