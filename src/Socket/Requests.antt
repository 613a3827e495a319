-- ===== src/Socket/Requests.antt =====
-- coms/socket/src/mng.rs: the requests of the unit, the end of a control process, and a connection.
use sysmaster.Base.{
  Bool, true, false, not, ◌&&◌, Option, none, some, [], ◌∷◌, Checked, ok, panic, ◌>>=◌, is_empty,
  ◌==◌, if◌then◌else◌,
}
use sysmaster.Service.States.{WaitStatus, exited, signaled, other_status}
use sysmaster.Socket.States.{
  SocketState, start_chown, running, stop_pre_sigterm, stop_pre_sigkill, final_sigterm,
  final_sigkill, SocketResult, success, failure_resources, failure_exit_code, failure_signal,
  failure_core_dump, failure_start_limit_hit, is_ok, is_listening, is_going_down, is_coming_up,
  is_in_stop,
}
use sysmaster.Socket.Mng.{
  SocketConfig, SocketMng, SocketOutside, change_state, go_down, final_term, go_stop_post,
  stop_term, go_stop_pre, enter_listening, go_start_post, enter_start_chown, enter_start_pre,
}

unfoldable pub exit_result : WaitStatus → Checked SocketResult
exit_result (exited pid status) = ok (if status == 0 then success else failure_exit_code)
exit_result (signaled pid sig core) = ok (if core then failure_core_dump else failure_signal)
exit_result (other_status pid) = panic

-- The errors of the two checks.
pub data CheckError : Type 0 where
  check_again check_canceled check_disabled : CheckError

-- `Ok(b)`, or an error.
pub data CheckResult : Type 0 where
  allowed : Bool → CheckResult
  denied : CheckError → CheckResult

module _ {E : Type 0} (ops : SocketOutside E) (conf : SocketConfig) where
  unfoldable pub target_enabled : E → Bool
  target_enabled e = elim conf.unit_ref_target [ none ↦ true | some u ↦ ops.unit_enabled e u ]

  unfoldable pub check_limit : SocketMng E → SocketMng E × CheckResult
  check_limit m =
      let (e, below) = if ops.has_owner m.env then ops.test_start_limit m.env else (m.env, false) in
      let m1 = record m { env = e } in
      if below
      then (m1, allowed false)
      else (go_down ops m1 failure_start_limit_hit, denied check_canceled)

  unfoldable pub socket_start_check : SocketMng E → SocketMng E × CheckResult
  unfolding target_enabled check_limit
  socket_start_check m =
      if is_going_down m.state
      then (m, denied check_again)
      else if is_coming_up m.state
      then (m, allowed true)
      else if not (target_enabled m.env)
      then (m, denied check_disabled)
      else check_limit m

  unfoldable pub socket_start_action : SocketMng E → SocketMng E
  socket_start_action m = enter_start_pre ops conf m

  unfoldable pub socket_stop_action : SocketMng E → SocketMng E
  socket_stop_action m = go_stop_pre ops conf m success

  unfoldable pub socket_stop_check : SocketMng E → SocketMng E × CheckResult
  socket_stop_check m =
      if is_in_stop m.state
      then (m, allowed true)
      else if is_coming_up m.state
      then (stop_term ops conf m success, denied check_again)
      else (m, allowed false)

  -- The next of the commands; that it cannot be started is only logged.
  unfoldable pub run_next : SocketMng E → SocketMng E
  run_next m = elim m.control_command [
    | [] ↦ m
    | cmd ∷ cmds ↦
        let (e, pid) = ops.start_socket m.env cmd in
        let m1 = record m { control_command = cmds; env = e } in
        elim pid [ none ↦ m1 | some p ↦ record m1 { control = some p } ]
  ]

  unfoldable pub command_ended : SocketMng E → SocketState → SocketResult → Checked (SocketMng E)
  command_ended m SocketState.start_pre res =
      ok (if is_ok res then enter_start_chown ops conf m else final_term ops m res)
  command_ended m start_chown res =
      ok (if is_ok res then go_start_post ops conf m else go_stop_pre ops conf m res)
  command_ended m SocketState.start_post res =
      ok (if is_ok res then enter_listening ops conf m else go_stop_pre ops conf m res)
  command_ended m SocketState.stop_pre res = ok (go_stop_post ops conf m res)
  command_ended m stop_pre_sigterm res = ok (go_stop_post ops conf m res)
  command_ended m stop_pre_sigkill res = ok (go_stop_post ops conf m res)
  command_ended m SocketState.stop_post res = ok (go_down ops m res)
  command_ended m final_sigterm res = ok (go_down ops m res)
  command_ended m final_sigkill res = ok (go_down ops m res)
  command_ended m _ res = panic

  unfoldable pub socket_sigchld_event : SocketMng E → WaitStatus → Checked (SocketMng E)
  unfolding run_next command_ended exit_result
  socket_sigchld_event m ws = exit_result ws >>= λ res.
      (if not (is_empty m.control_command) && is_ok res
        then ok (run_next m)
        else command_ended m m.state res)

  -- The service behind the socket is started, if it is not active or on its way.
  unfoldable pub start_target : SocketMng E → SocketMng E
  start_target m = elim conf.unit_ref_target [
    | none ↦ go_stop_pre ops conf m failure_resources
    | some u ↦
        let (e, done) = ops.start_unit m.env u in
        let m1 = record m { env = e } in
        if done then change_state ops m1 running else go_stop_pre ops conf m1 failure_resources
  ]

  -- `enter_running` with no file descriptor, as `dispatch_io` calls it.
  unfoldable pub socket_enter_running : SocketMng E → SocketMng E
  unfolding start_target
  socket_enter_running m =
      if not (ops.has_owner m.env)
      then m
      else if ops.has_stop_job m.env
      then record m { env = ops.flush_ports m.env }
      else if ops.relation_active_or_pending m.env
      then change_state ops m running
      else start_target m

  -- A port reports. `accepted` says what `accept` gives where it is called, and otherwise `some`; the
  -- descriptor that it gives is not handed on.
  unfoldable pub dispatch_io : SocketMng E → Option E → SocketMng E × Bool
  dispatch_io m accepted = if not (is_listening m.state) then (m, true) else (elim accepted [
    | none ↦ (m, false)
    | some e ↦ (socket_enter_running (record m { env = e }), true)
  ])
