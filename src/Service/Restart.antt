-- ===== src/Service/Restart.antt =====
-- coms/service/src/mng.rs: what becomes of a service when its processes end.
use sysmaster.Base.{
  ℕ, Bool, true, false, Option, none, some, [], if◌then◌else◌, ◌≡◌, refl, arith, is_empty, ◌⊎◌, ◌∙◌,
  ap, inl, inr, Bool-cases, ok,
}
use sysmaster.Service.States.{
  ServiceState, dead, auto_restart, stop_sigterm, final_sigterm, final_sigkill, running,
  ServiceResult, success, failure_resources, is_success, is_stop_signal, KillOperation,
  to_kill_operation, ServiceCommand, restarts_on, exit_status_enabled, WaitStatus,
}
use sysmaster.Service.Mng.{
  Config, Mng, Outside, unwatch_control, keep_failure, control_command_fill, cgroup_good,
  service_alive, main_alive,
}
use sysmaster.Service.Stop.{
  enter_dead, shall_restart, kill, signal_last, signal_final, next_control, enter_stop_post,
  enter_signal, enter_stop,
}
use sysmaster.Service.Start.{enter_running, settle_running}
use sysmaster.Service.Child.{main_exit, main_gone, control_exit}
use sysmaster.Service.Ended.{will_restart, down_state, set_state_lem}

if_false {ℓ} : {A : Type ℓ} {b : Bool} (x y : A) → b ≡ false → (if b then x else y) ≡ y
if_false x y e = rw e refl

keep_failure-success : {E : Type 0} (m : Mng E) → keep_failure m success ≡ m
unfolding keep_failure
keep_failure-success m = ground arith

keep_same : {E : Type 0} (m : Mng E) (r : ServiceResult) → m.result ≡ r → keep_failure m r ≡ m
unfolding keep_failure
keep_same m r e = ground arith

keep_first :
    {E : Type 0} (m : Mng E) (r : ServiceResult)
    → m.result ≡ success
    → keep_failure m r ≡ record m { result = r }
unfolding keep_failure
keep_first m r e = ground arith

-- The stop-post commands were never set, and none is left over.
abbrev pub HasNoCommands : {E : Type 0} → Config → Mng E → Type 0
HasNoCommands conf m =
    (conf.get_exec_cmds ServiceCommand.stop_post ≡ none) × (m.control_command ≡ [])

module _ {E : Type 0} (ops : Outside E) (conf : Config) where
  pub enter_dead-state :
      (m : Mng E) (r : ServiceResult) (force : Bool)
      → ops.has_owner m.env ≡ true
      → (enter_dead ops conf m r force).state ≡ (
          if will_restart ops conf m r force
          then auto_restart
          else down_state (keep_failure m r).result)
  unfolding enter_dead will_restart down_state
  enter_dead-state m r force owned = elim (Bool-cases (will_restart ops conf m r force)) [
    | inl e ↦ rw (owned, e, will_restart) (set_state_lem ops conf _ auto_restart).0
    | inr e ↦
        rw (owned, e, will_restart)
          (set_state_lem ops conf (keep_failure m r) (down_state (keep_failure m r).result)).0
  ]

  fill_none :
      (m : Mng E) (c : ServiceCommand)
      → conf.get_exec_cmds c ≡ none
      → control_command_fill conf m c ≡ m
  unfolding control_command_fill
  fill_none m c no_cmds = rw (no_cmds, control_command_fill) refl

  next_none :
      (m : Mng E) (s : ServiceState) (fail other : Mng E → Mng E)
      → m.control_command ≡ []
      → next_control ops conf m s fail other ≡ other m
  unfolding next_control
  next_none m s fail other no_left = simp (no_left, next_control)

  unwatch_none : (m : Mng E) → m.control ≡ none → unwatch_control ops m ≡ m
  unfolding unwatch_control
  unwatch_none m no_control = ground arith

  -- Where no command of a kind is set and none is left over, the code goes on at once.
  skip_commands :
      (m : Mng E) (r : ServiceResult) (c : ServiceCommand) (s : ServiceState)
      (fail other : Mng E → Mng E)
      → keep_failure m r ≡ m
      → conf.get_exec_cmds c ≡ none
      → m.control_command ≡ []
      → next_control ops conf (control_command_fill conf (keep_failure m r) c) s fail other
        ≡ other m
  skip_commands m r c s fail other same no_cmds no_left =
      ap (λ n. next_control ops conf (control_command_fill conf n c) s fail other) same
      ∙ ap (λ n. next_control ops conf n s fail other) (fill_none m c no_cmds)
      ∙ next_none m s fail other no_left

  module _ (owned : (e : E) → ops.has_owner e ≡ true)
      (obeys : (e : E) (main control : Option ℕ) (k : KillOperation)
        → (ops.kill_context e main control k).1 ≡ true) where
    -- A signal that is sent changes nothing but the world.
    kill_lem :
        (m : Mng E) (s : ServiceState)
        → (e : E) × (kill ops conf m s ≡ (record m { env = e }, true))
    unfolding kill
    kill_lem m s =
        let e = (ops.kill_context m.env m.main m.control (to_kill_operation s)).0 in
        (e, rw (owned m.env, obeys m.env m.main m.control (to_kill_operation s)) refl)

    signal_final_lem :
        (m : Mng E) (s : ServiceState)
        → (e : E) × (signal_final ops conf m s
            ≡ enter_dead ops conf (record m { env = e }) success true)
    unfolding signal_final signal_last
    signal_final_lem m s =
        let (e, sent) = kill_lem m s in
        let (e2, sent2) = kill_lem (record m { env = e }) final_sigkill in
        (e2, rw (sent, signal_final, sent2, signal_last) refl)

    enter_stop_post_lem :
        (m : Mng E)
        → HasNoCommands conf m
        → (e : E) × (enter_stop_post ops conf m success
            ≡ enter_dead ops conf (record m { env = e }) success true)
    unfolding enter_stop_post control_command_fill next_control
    enter_stop_post_lem m (no_cmds, no_left) =
        let (e, gone) = signal_final_lem m final_sigterm in
        (
          e,
          skip_commands m success ServiceCommand.stop_post ServiceState.stop_post
                (λ n. signal_final ops conf n final_sigterm)
                (λ n. signal_final ops conf n final_sigterm) (keep_failure-success m) no_cmds
                no_left
              ∙ gone,
        )

    -- With no command left, a signal to stop ends in `enter_dead`.
    pub enter_signal_lem :
        (m : Mng E) (r : ServiceResult)
        → HasNoCommands conf m
        → (e : E) × (enter_signal ops conf m stop_sigterm r
            ≡ enter_dead ops conf (record m { env = e }) success true)
    unfolding enter_signal is_stop_signal
    enter_signal_lem m r none_left =
        let (e, sent) = kill_lem m stop_sigterm in
        let (e2, gone) = enter_stop_post_lem (record m { env = e }) none_left in
        (e2, rw (sent, enter_signal) gone)

    -- With no command left, stopping is sending the signals.
    enter_stop_lem :
        (m : Mng E) (r : ServiceResult)
        → m.result ≡ r
        → conf.get_exec_cmds ServiceCommand.stop ≡ none
        → m.control_command ≡ []
        → enter_stop ops conf m r ≡ enter_signal ops conf m stop_sigterm success
    unfolding enter_stop control_command_fill next_control
    enter_stop_lem m r is_r no_stop no_left =
        skip_commands m r ServiceCommand.stop ServiceState.stop
          (λ k. enter_signal ops conf k stop_sigterm failure_resources)
          (λ k. enter_signal ops conf k stop_sigterm success) (keep_same m r is_r) no_stop no_left

    module _ (free : (e : E) → ops.has_stop_job e ≡ false) where
      -- The restart setting decides where a service that is down ends up.
      decided :
          (n : Mng E) (res : ServiceResult)
          → n.result ≡ res
          → n.forbid_restart ≡ false
          → exit_status_enabled conf.restart_prevent n.exec_status ≡ false
          → (enter_dead ops conf n success true).state
            ≡ (if restarts_on conf.restart res then auto_restart else down_state res)
      unfolding will_restart shall_restart
      decided n res is_res allowed kept =
          enter_dead-state n success true (owned n.env)
          ∙ rw
              (
                keep_failure-success n,
                will_restart,
                free n.env,
                shall_restart,
                allowed,
                kept,
                is_res,
              )
              refl

      -- Where a state before the start does with a failed command.
      failed_early :
          (m : Mng E) (res : ServiceResult)
          → (m.state ≡ ServiceState.condition) ⊎ (m.state ≡ ServiceState.start_pre)
          → is_success res ≡ false
          → control_exit ops conf m res
            ≡ ok (
                enter_signal ops conf
                  (record m { control = none; control_command = [] })
                  stop_sigterm
                  res)
      unfolding control_exit
      failed_early m res in_pre failing = elim (Bool-cases (is_empty m.control_command)) [
        | inl e ↦ elim in_pre [
          | inl at ↦ rw (e, at, failing) refl
          | inr at ↦ rw (e, at, failing) refl
        ]
        | inr e ↦ elim in_pre [
          | inl at ↦ rw (e, failing, at, failing) refl
          | inr at ↦ rw (e, failing, at, failing) refl
        ]
      ]

      -- A condition or start-pre command that fails, in a service that has no failure yet, may restart
      -- and has no stop-post command, while signals can be sent and no stop job waits: the service
      -- takes the exit for a success. It ends up dead, or waits for a restart as after a success.
      pub control_exit-forgets :
          (m : Mng E) (res : ServiceResult)
          → (m.state ≡ ServiceState.condition) ⊎ (m.state ≡ ServiceState.start_pre)
          → is_success res ≡ false
          → m.result ≡ success
          → m.forbid_restart ≡ false
          → exit_status_enabled conf.restart_prevent m.exec_status ≡ false
          → conf.get_exec_cmds ServiceCommand.stop_post ≡ none
          → (n : Mng E) × (control_exit ops conf m res ≡ ok n)
            × (n.state ≡ (if restarts_on conf.restart success then auto_restart else dead))
      unfolding down_state
      control_exit-forgets m res in_pre failing fresh allowed kept no_cmds =
          let m1 = record m { control = none; control_command = [] } in
          let (e, gone) = enter_signal_lem m1 res (no_cmds, refl) in
          (
            enter_signal ops conf m1 stop_sigterm res,
            failed_early m res in_pre failing,
            ap (λ n. n.state) gone ∙ decided (record m1 { env = e }) success fresh allowed kept,
          )

      module _ (alone : (e : E) → ops.cg_is_empty e ≡ some true) where
        dead_cgroup : (m : Mng E) → m.main ≡ none → service_alive ops m ≡ false
        unfolding service_alive main_alive cgroup_good
        dead_cgroup m no_main = elim (Bool-cases m.main_known) [
          | inl e ↦ rw (e, no_main) refl
          | inr e ↦ rw (e, owned m.env, alone m.env) refl
        ]

        -- `enter_running` of a service whose processes are all gone.
        running_down :
            (m : Mng E) (res : ServiceResult)
            → m.result ≡ res
            → m.main ≡ none
            → m.control ≡ none
            → HasNoCommands conf m
            → conf.get_exec_cmds ServiceCommand.stop ≡ none
            → conf.remain_after_exit ≡ false
            → (e : E) × (enter_running ops conf m res
                ≡ enter_dead ops conf (record m { env = e }) success true)
        unfolding enter_running settle_running unwatch_control
        running_down m res is_res no_main no_control none_left no_stop transient =
            let settled : keep_failure (unwatch_control ops m) res ≡ m =
              ap (λ n. keep_failure n res) (unwatch_none m no_control) ∙ keep_same m res is_res in
            elim (Bool-cases (is_success res)) [
              | inl e ↦
                  let (f, gone) = enter_signal_lem m success none_left in
                  (
                    f,
                    ap (λ n. settle_running ops conf n res) settled
                        ∙ rw (ap is_success is_res ∙ e, dead_cgroup m no_main)
                            (if_false _ _ transient
                              ∙ enter_stop_lem m res is_res no_stop none_left.1
                              ∙ gone),
                  )
              | inr e ↦
                  let (f, gone) = enter_signal_lem m res none_left in
                  (
                    f,
                    ap (λ n. settle_running ops conf n res) settled
                        ∙ rw (ap is_success is_res ∙ e) gone,
                  )
            ]

        main_gone-running :
            (m : Mng E) (res : ServiceResult)
            → m.state ≡ running
            → m.main_command ≡ []
            → main_gone ops conf m res
              ≡ ok (enter_running ops conf (record m { main_command = [] }) res)
        unfolding main_gone cgroup_good
        main_gone-running m res at no_cmds =
            rw (owned m.env, alone m.env, ap is_empty no_cmds, at) refl

        -- The main process of a running service ends, of which no other process, no command to run
        -- and no failure is left, and which may restart: it ends up waiting for a restart if its
        -- restart setting names the result, and otherwise dead after a success and failed after a
        -- failure. Its signals can be sent, no stop job waits, and it does not remain after its exit.
        pub main_exit-restarts :
            (m : Mng E) (ws : WaitStatus) (res : ServiceResult)
            → m.state ≡ running
            → m.main_command ≡ []
            → m.control ≡ none
            → m.result ≡ success
            → HasNoCommands conf m
            → conf.get_exec_cmds ServiceCommand.stop ≡ none
            → conf.remain_after_exit ≡ false
            → m.forbid_restart ≡ false
            → exit_status_enabled conf.restart_prevent ws ≡ false
            → (n : Mng E) × (main_exit ops conf m ws res ≡ ok n)
              × (n.state ≡ (if restarts_on conf.restart res then auto_restart else down_state res))
        unfolding main_exit
        main_exit-restarts m ws res at no_cmds no_control fresh none_left no_stop transient allowed
              kept =
            let m1 = record m { main = none; exec_status = ws; result = res; main_command = [] } in
            let (e, gone) = running_down m1 res refl refl no_control none_left no_stop transient in
            let ended : main_exit ops conf m ws res ≡ ok (enter_running ops conf m1 res) =
              ap (λ n. main_gone ops conf n res)
                (keep_first (record m { main = none; exec_status = ws }) res fresh)
              ∙ main_gone-running (record m { main = none; exec_status = ws; result = res }) res at
                  no_cmds in
            (
              enter_running ops conf m1 res,
              ended,
              ap (λ n. n.state) gone ∙ decided (record m1 { env = e }) res refl allowed kept,
            )
