-- ===== src/Service/Child.antt =====
-- coms/service/src/mng.rs: what happens when a process of the service ends, its pid file, and the
-- timers.
use sysmaster.Base.{
  ℕ, Bool, true, false, not, ◌&&◌, Option, none, some, [], ◌∷◌, Checked, ok, panic, ◌>>=◌, is_some,
  is_empty, ◌==◌, if◌then◌else◌,
}
use sysmaster.Service.States.{
  ServiceType, oneshot, forking, notify, ServiceState, dead, running, stop_sigterm, stop_sigkill,
  stop_watchdog, final_sigterm, final_sigkill, auto_restart, ServiceResult, success,
  failure_exit_code, failure_core_dump, failure_signal, failure_protocol, failure_resources,
  failure_timeout, failure_watchdog, ServiceCommand, WaitStatus, exited, signaled, other_status,
  is_success,
}
use sysmaster.Service.Mng.{
  Config, Mng, Outside, unwatch_main, set_main, cgroup_good, guess_main_pid, keep_failure,
}
use sysmaster.Service.Stop.{enter_dead, enter_signal, enter_stop_post, enter_stop}
use sysmaster.Service.Start.{
  enter_prestart, enter_start, enter_start_post, enter_running, enter_restart,
}

abbrev pub pid_of : WaitStatus → ℕ
pid_of (exited pid status) = pid
pid_of (signaled pid sig core) = pid
pid_of (other_status pid) = pid

unfoldable pub sigchld_result : WaitStatus → Checked ServiceResult
sigchld_result (exited pid status) = ok (if status == 0 then success else failure_exit_code)
sigchld_result (signaled pid sig core) = ok (if core then failure_core_dump else failure_signal)
sigchld_result (other_status pid) = panic

abbrev pub is_pid : Option ℕ → ℕ → Bool
is_pid none pid = false
is_pid (some p) pid = p == pid

abbrev is_oneshot : ServiceType → Bool
is_oneshot oneshot = true
is_oneshot _ = false

abbrev is_forking : ServiceType → Bool
is_forking forking = true
is_forking _ = false

module _ {E : Type 0} (ops : Outside E) where
  -- `valid_main_pid`: `none` is an error.
  unfoldable pub valid_main_pid : Mng E → ℕ → Option Bool
  valid_main_pid m pid =
      if pid == ops.own_pid m.env
      then none
      else if is_pid m.control pid
      then none
      else if not (ops.alive m.env pid)
      then none
      else some (ops.same_unit m.env pid)

  set_read_main : Mng E → ℕ → Mng E × Option Bool
  unfolding unwatch_main set_main
  set_read_main m pid =
      let (m1, done) = set_main ops (unwatch_main ops m) pid in
      if done then (record m1 { env = ops.watch_pid m1.env pid }, some true) else (m1, none)

  read_main : Mng E → ℕ → Mng E × Option Bool
  unfolding valid_main_pid set_read_main
  read_main m pid =
      if is_pid m.main pid
      then (m, some false)
      else (elim (valid_main_pid m pid) [ none ↦ (m, none) | some v ↦ set_read_main m pid ])

module _ {E : Type 0} (ops : Outside E) (conf : Config) where
  -- `load_pid_file`: an error, or whether the main process has changed.
  unfoldable pub load_pid_file : Mng E → Mng E × Option Bool
  unfolding read_main
  load_pid_file m =
      if not conf.pid_file
      then (m, none)
      else (elim (ops.read_pid_file m.env) [ none ↦ (m, none) | some pid ↦ read_main ops m pid ])

  unfoldable pub retry_pid_file : Mng E → Mng E × Bool
  unfolding load_pid_file
  retry_pid_file m =
      let (m1, loaded) = load_pid_file m in
      if is_some loaded
      then (enter_running ops conf (record m1 { env = ops.close_watch m1.env }) success, true)
      else (m1, false)

  -- `demand_pid_file` and `watch_pid_file`
  unfoldable pub watch_pid_file : Mng E → Mng E × Bool
  unfolding retry_pid_file
  watch_pid_file m =
      let (e, watched) = ops.add_watch m.env in
      if watched
      then ((retry_pid_file (record m { env = e })).0, true)
      else (record m { env = ops.close_watch e }, false)

  run_next_main : Mng E → Mng E
  unfolding set_main
  run_next_main m = elim m.main_command [
    | [] ↦ m
    | cmd ∷ cmds ↦
        let (e, pid) = ops.start_service m.env cmd in
        let m1 = record m { main_command = cmds; env = e } in
        elim pid [ none ↦ m1 | some p ↦ (set_main ops m1 p).0 ]
  ]

  run_next_control : Mng E → Mng E
  run_next_control m = elim m.control_command [
    | [] ↦ m
    | cmd ∷ cmds ↦
        let (e, pid) = ops.start_service m.env cmd in
        let m1 = record m { control_command = cmds; env = e } in
        elim pid [ none ↦ m1 | some p ↦ record m1 { control = some p } ]
  ]

  -- The main process has ended in the state `Start`.
  main_start : Mng E → ServiceType → ServiceResult → Mng E
  main_start m oneshot res =
      if is_success res
      then enter_start_post ops conf m
      else enter_signal ops conf m stop_sigterm res
  main_start m notify res =
      if not (is_success res)
      then enter_signal ops conf m stop_sigterm res
      else enter_signal ops conf m stop_sigterm failure_protocol
  main_start m _ res = enter_running ops conf m res

  main_ended : Mng E → ServiceState → ServiceResult → Checked (Mng E)
  unfolding main_start
  main_ended m dead res = panic
  main_ended m ServiceState.start res = ok (main_start m conf.service_type res)
  main_ended m ServiceState.start_post res =
      ok (if is_some m.control then enter_stop ops conf m res else m)
  main_ended m ServiceState.reload res =
      ok (if is_some m.control then enter_stop ops conf m res else m)
  main_ended m running res = ok (enter_running ops conf m res)
  main_ended m stop_watchdog res = ok (enter_stop_post ops conf m res)
  main_ended m stop_sigkill res = ok (enter_stop_post ops conf m res)
  main_ended m stop_sigterm res = ok (enter_stop_post ops conf m res)
  main_ended m final_sigterm res = ok (enter_dead ops conf m res true)
  main_ended m final_sigkill res = ok (enter_dead ops conf m res true)
  main_ended m _ res = ok m

  -- The main process has ended, and its result is set.
  unfoldable pub main_gone : Mng E → ServiceResult → Checked (Mng E)
  unfolding main_ended run_next_main
  main_gone m res =
      if not (is_empty m.main_command) && (is_success res && is_oneshot conf.service_type)
      then ok (run_next_main m)
      else (let m1 = record m { main_command = [] } in
          if not (cgroup_good ops m1) then main_ended m1 m1.state res else ok m1)

  -- The end of the main process, when the pid file does not name another one.
  unfoldable pub main_exit : Mng E → WaitStatus → ServiceResult → Checked (Mng E)
  unfolding main_gone
  main_exit m ws res = main_gone (keep_failure (record m { main = none; exec_status = ws }) res) res

  has_start_post : Bool
  has_start_post = elim (conf.get_exec_cmds ServiceCommand.start_post) [
    | none ↦ false
    | some cmds ↦ not (is_empty cmds)
  ]

  -- No pid could be read: the file is watched, and `fail` follows where no process is left.
  demand_pid_file : Mng E → (Mng E → Mng E) → Mng E
  unfolding watch_pid_file
  demand_pid_file m fail =
      let (m1, watched) = watch_pid_file m in
      if watched
      then (if not (cgroup_good ops m1) then fail m1 else m1)
      else enter_signal ops conf m1 stop_sigterm failure_protocol

  -- The control process of a forking service has ended in `Start`. With a pid file `enter_start_post`
  -- stands twice in the code.
  unfoldable pub forked : Mng E → Mng E
  unfolding demand_pid_file has_start_post load_pid_file
  forked m =
      if conf.pid_file
      then (let (m1, loaded) = load_pid_file m in
          if not (is_some loaded) && not has_start_post
          then demand_pid_file m1 (λ m2. enter_signal ops conf m2 stop_sigterm failure_protocol)
          else enter_start_post ops conf (enter_start_post ops conf m1))
      else enter_start_post ops conf (guess_main_pid ops m)

  control_start : Mng E → ServiceResult → Mng E
  unfolding forked
  control_start m res =
      if not (is_forking conf.service_type)
      then m
      else if not (is_success res)
      then enter_signal ops conf m stop_sigterm res
      else forked m

  -- The control process of `StartPost` has ended; a failure does not return.
  unfoldable pub control_start_post : Mng E → ServiceResult → Mng E
  unfolding demand_pid_file load_pid_file
  control_start_post m res =
      let m1 = if not (is_success res) then enter_signal ops conf m stop_sigterm res else m in
      if conf.pid_file
      then (let (m2, loaded) = load_pid_file m1 in
          if not (is_some loaded)
          then demand_pid_file m2 (λ m3. enter_stop ops conf m3 failure_protocol)
          else enter_running ops conf m2 success)
      else enter_running ops conf (guess_main_pid ops m1) success

  control_ended : Mng E → ServiceState → ServiceResult → Checked (Mng E)
  unfolding control_start control_start_post
  control_ended m ServiceState.condition res =
      if is_success res
      then enter_prestart ops conf m
      else ok (enter_signal ops conf m stop_sigterm res)
  control_ended m ServiceState.start_pre res =
      if is_success res
      then enter_start ops conf m
      else ok (enter_signal ops conf m stop_sigterm res)
  control_ended m ServiceState.start res = ok (control_start m res)
  control_ended m ServiceState.start_post res = ok (control_start_post m res)
  control_ended m running res = panic
  control_ended m ServiceState.reload res = ok (enter_running ops conf m res)
  control_ended m ServiceState.stop res = ok (enter_signal ops conf m stop_sigterm res)
  control_ended m stop_sigterm res = ok (enter_stop_post ops conf m res)
  control_ended m stop_sigkill res = ok (enter_stop_post ops conf m res)
  control_ended m stop_watchdog res = ok (enter_stop_post ops conf m res)
  control_ended m ServiceState.stop_post res = ok (enter_signal ops conf m final_sigterm res)
  control_ended m final_sigterm res = ok (enter_dead ops conf m res true)
  control_ended m final_sigkill res = ok (enter_dead ops conf m res true)
  control_ended m _ res = ok m

  unfoldable pub control_exit : Mng E → ServiceResult → Checked (Mng E)
  unfolding control_ended run_next_control
  control_exit m res =
      let m1 = record m { control = none } in
      if not (is_empty m1.control_command) && is_success res
      then ok (run_next_control m1)
      else control_ended (record m1 { control_command = [] }) m1.state res

  -- `do_sigchld_event`
  unfoldable pub sigchld_event : Mng E → WaitStatus → Checked (Mng E)
  unfolding main_exit control_exit load_pid_file sigchld_result
  sigchld_event m ws = sigchld_result ws >>= λ res.
      (if is_pid m.main (pid_of ws)
        then (elim (load_pid_file m).1 [
          | some true ↦ ok (load_pid_file m).0
          | some false ↦ main_exit (load_pid_file m).0 ws res
          | none ↦ main_exit (load_pid_file m).0 ws res
        ])
        else if is_pid m.control (pid_of ws)
        then control_exit m res
        else ok m)

  -- The watch on the pid file reports, when its events could be read.
  unfoldable pub path_dispatch : Mng E → Mng E
  unfolding retry_pid_file watch_pid_file
  path_dispatch m =
      let (m1, retried) = retry_pid_file m in
      if retried
      then m1
      else (let (m2, watched) = watch_pid_file m1 in
          if watched
          then m2
          else enter_signal ops conf (record m2 { env = ops.close_watch m2.env }) stop_sigterm
              failure_resources)

  timer_ended : Mng E → ServiceState → Checked (Mng E)
  unfolding enter_restart
  timer_ended m running = ok (enter_stop ops conf m failure_timeout)
  timer_ended m auto_restart = enter_restart ops conf m
  timer_ended m _ = panic

  unfoldable pub timer_dispatch : Mng E → Checked (Mng E)
  unfolding timer_ended
  timer_dispatch m = timer_ended m m.state

  unfoldable pub watchdog_dispatch : Mng E → Mng E
  watchdog_dispatch m = enter_signal ops conf m stop_watchdog failure_watchdog
