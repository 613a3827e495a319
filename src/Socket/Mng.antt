-- ===== src/Socket/Mng.antt =====
-- coms/socket/src/mng.rs and pid.rs: the fields of a socket and its operations. Processes, ports, the
-- unit and its manager are an interface. `enter_signal` calls itself with the next signal, so it is
-- one function for each signal, from the last back.
use sysmaster.Base.{ℕ, Bool, true, not, Option, none, some, List, [], ◌∷◌, if◌then◌else◌}
use sysmaster.Unit.State.{ActiveState}
use sysmaster.Service.States.{KillOperation}
use sysmaster.Socket.States.{
  SocketState, dead, listening, stop_pre_sigterm, stop_pre_sigkill, final_sigterm, final_sigkill,
  failed, SocketResult, success, failure_resources, SocketCommand, start_pre, start_post, stop_pre,
  stop_post, is_ok, socket_active_state, socket_kill_operation, keeps_process, keeps_open,
  is_listening,
}

-- A command is a number, and so is a unit.
pub record SocketConfig : Type 0 where
  pub get_exec_cmds : SocketCommand → Option (List ℕ)
  pub accept : Bool
  pub unit_ref_target : Option ℕ

-- `E` is the world outside.
pub record SocketMng (E : Type 0) : Type 0 where
  pub state : SocketState
  pub result : SocketResult
  pub control : Option ℕ
  pub control_command : List ℕ
  pub refused : ℕ
  pub env : E

-- The Booleans say whether a call succeeds.
pub record SocketOutside (E : Type 0) : Type 0 where
  pub has_owner : E → Bool
  pub has_stop_job : E → Bool
  pub relation_active_or_pending : E → Bool
  pub unit_enabled : E → ℕ → Bool
  pub start_socket : E → ℕ → E × Option ℕ
  pub kill_context : E → Option ℕ → KillOperation → E × Bool
  pub test_start_limit : E → E × Bool
  pub start_unit : E → ℕ → E × Bool
  pub open_fds : E → E × Bool
  pub close_fds : E → E
  pub watch_fds : E → E
  pub unwatch_fds : E → E
  pub flush_ports : E → E
  pub unwatch_pid : E → ℕ → E
  pub notify : E → ActiveState → ActiveState → E

-- `if self.result() == Success { self.set_result(res) }`
unfoldable pub keep_result : {E : Type 0} → SocketMng E → SocketResult → SocketMng E
keep_result m res = if is_ok m.result then record m { result = res } else m

module _ {E : Type 0} (ops : SocketOutside E) where
  unfoldable pub drop_process : SocketMng E → SocketMng E
  drop_process m = elim m.control [
    | none ↦ m
    | some pid ↦ record m {
      control = none;
      env = if ops.has_owner m.env then ops.unwatch_pid m.env pid else m.env;
    }
  ]

  unfoldable pub leave_ports : SocketState → E → E
  leave_ports s e =
      let e1 = if not (is_listening s) then ops.unwatch_fds e else e in
      if not (keeps_open s) then ops.close_fds e1 else e1

  unfoldable pub change_state : SocketMng E → SocketState → SocketMng E
  unfolding drop_process leave_ports
  change_state m s =
      let m1 = record m { state = s } in
      let m2 = if not (keeps_process s) then drop_process m1 else m1 in
      let e = leave_ports s m2.env in
      record m2 {
        env =
            if ops.has_owner e
            then ops.notify e (socket_active_state m.state) (socket_active_state s)
            else e;
      }

  -- `enter_dead`
  unfoldable pub go_down : SocketMng E → SocketResult → SocketMng E
  unfolding change_state
  go_down m res =
      let m1 = keep_result m res in change_state m1 (if is_ok m1.result then dead else failed)

  unfoldable pub send : SocketMng E → SocketState → SocketMng E × Bool
  send m s =
      if ops.has_owner m.env
      then (let (e, done) = ops.kill_context m.env m.control (socket_kill_operation s) in
          (record m { env = e }, done))
      else (m, true)

  -- `enter_signal`: `next` follows the signal, and `fail` one that cannot be sent.
  unfoldable pub signal_then :
      SocketMng E
      → SocketState
      → SocketResult
      → (SocketMng E → SocketMng E)
      → (SocketMng E → SocketMng E)
      → SocketMng E
  unfolding send
  signal_then m s res next fail =
      let (m1, done) = send (keep_result m res) s in if done then next m1 else fail m1

  unfoldable pub final_kill : SocketMng E → SocketResult → SocketMng E
  final_kill m res =
      signal_then m final_sigkill res (λ n. go_down n success) (λ n. go_down n failure_resources)

  unfoldable pub final_term : SocketMng E → SocketResult → SocketMng E
  final_term m res =
      signal_then m final_sigterm res (λ n. final_kill n success) (λ n. go_down n failure_resources)

module _ {E : Type 0} (ops : SocketOutside E) (conf : SocketConfig) where
  unfoldable pub fill : SocketMng E → SocketCommand → SocketMng E
  fill m c = elim (conf.get_exec_cmds c) [
    | none ↦ m
    | some cmds ↦ record m { control_command = cmds }
  ]

  -- The next of the commands runs in a control process; `fail` if it cannot be started, `other` if
  -- there is none.
  unfoldable pub run_command :
      SocketMng E
      → SocketState
      → (SocketMng E → SocketMng E)
      → (SocketMng E → SocketMng E)
      → SocketMng E
  run_command m s fail other = elim m.control_command [
    | [] ↦ other m
    | cmd ∷ cmds ↦
        let (e, pid) = ops.start_socket m.env cmd in
        let m1 = record m { control_command = cmds; env = e } in
        elim pid [ none ↦ fail m1 | some p ↦ change_state ops (record m1 { control = some p }) s ]
  ]

  unfoldable pub go_stop_post : SocketMng E → SocketResult → SocketMng E
  go_stop_post m res =
      run_command (fill (keep_result m res) stop_post) SocketState.stop_post
        (λ n. final_term ops n failure_resources) (λ n. final_term ops n success)

  unfoldable pub stop_kill : SocketMng E → SocketResult → SocketMng E
  stop_kill m res =
      signal_then ops m stop_pre_sigkill res (λ n. go_stop_post n success)
        (λ n. go_stop_post n failure_resources)

  unfoldable pub stop_term : SocketMng E → SocketResult → SocketMng E
  stop_term m res =
      signal_then ops m stop_pre_sigterm res (λ n. stop_kill n success)
        (λ n. go_stop_post n failure_resources)

  unfoldable pub go_stop_pre : SocketMng E → SocketResult → SocketMng E
  go_stop_pre m res =
      run_command (fill (drop_process ops (keep_result m res)) stop_pre) SocketState.stop_pre
        (λ n. go_stop_post n failure_resources) (λ n. go_stop_post n success)

  unfoldable pub enter_listening : SocketMng E → SocketMng E
  enter_listening m =
      let e = if not conf.accept then ops.flush_ports m.env else m.env in
      change_state ops (record m { env = ops.watch_fds e }) listening

  unfoldable pub go_start_post : SocketMng E → SocketMng E
  go_start_post m =
      run_command (fill (drop_process ops m) start_post) SocketState.start_post
        (λ n. go_stop_pre n failure_resources) (λ n. enter_listening n)

  unfoldable pub enter_start_chown : SocketMng E → SocketMng E
  enter_start_chown m =
      let (e, done) = ops.open_fds m.env in
      let m1 = record m { env = e } in
      if done then go_start_post m1 else go_stop_pre m1 failure_resources

  unfoldable pub enter_start_pre : SocketMng E → SocketMng E
  enter_start_pre m =
      run_command (fill (drop_process ops m) start_pre) SocketState.start_pre
        (λ n. go_down ops n failure_resources) (λ n. enter_start_chown n)
