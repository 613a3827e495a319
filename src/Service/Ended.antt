-- ===== src/Service/Ended.antt =====
-- coms/service/src/mng.rs: where a service that is told to stop ends up.
use sysmaster.Base.{
  Bool, true, false, not, ◌&&◌, none, some, is_some, if◌then◌else◌, ◌≡◌, refl, arith, ◌∙◌, ap, inl,
  inr, Bool-cases, Option-cases, List-cases,
}
use sysmaster.Service.States.{
  ServiceState, dead, failed, stop_sigterm, final_sigterm, final_sigkill, ServiceResult, success,
  failure_resources, is_success, is_stop_signal, is_starting, ServiceCommand, keeps_main,
  keeps_control,
}
use sysmaster.Service.Mng.{
  Config, Mng, Outside, set_state, unwatch_main, unwatch_control, keep_failure,
  control_command_fill,
}
use sysmaster.Service.Stop.{
  enter_dead, shall_restart, kill, signal_last, signal_final, run_control, next_control,
  enter_stop_post, enter_signal, enter_stop,
}
use sysmaster.Service.Start.{stop_action}

-- The service waits for a stop command, or it is down and no process is left.
unfoldable pub halts : {E : Type 0} → Mng E → Bool
halts m = elim m.state [
  | ServiceState.stop ↦ true
  | ServiceState.stop_post ↦ true
  | dead ↦ not (is_some m.main) && not (is_some m.control)
  | failed ↦ not (is_some m.main) && not (is_some m.control)
  | _ ↦ false
]

-- `Dead` after a success.
unfoldable pub down_state : ServiceResult → ServiceState
down_state r = if is_success r then dead else failed

module _ {E : Type 0} (ops : Outside E) (conf : Config) where
  pub set_state_lem :
      (m : Mng E) (s : ServiceState)
      → ((set_state ops conf m s).state ≡ s)
        × ((set_state ops conf m s).result ≡ m.result)
        × ((set_state ops conf m s).forbid_restart ≡ m.forbid_restart)
  unfolding set_state unwatch_main unwatch_control
  set_state_lem m s = ground arith

  down-keeps_main : (r : ServiceResult) → keeps_main (down_state r) ≡ false
  unfolding down_state keeps_main
  down-keeps_main r = elim (Bool-cases (is_success r)) [
    | inl e ↦ rw (e, down_state r) refl
    | inr e ↦ rw (e, down_state r) refl
  ]

  down-keeps_control : (r : ServiceResult) → keeps_control (down_state r) ≡ false
  unfolding down_state keeps_control
  down-keeps_control r = elim (Bool-cases (is_success r)) [
    | inl e ↦ rw (e, down_state r) refl
    | inr e ↦ rw (e, down_state r) refl
  ]

  -- What the new state does not keep is gone.
  set_state-main :
      (m : Mng E) (s : ServiceState) → keeps_main s ≡ false → (set_state ops conf m s).main ≡ none
  unfolding set_state unwatch_main unwatch_control
  set_state-main m s e = elim (Option-cases m.main) [
    | inl none_main ↦ ground arith
    | inr some_main ↦ ground arith
  ]

  set_state-control :
      (m : Mng E) (s : ServiceState)
      → keeps_control s ≡ false
      → (set_state ops conf m s).control ≡ none
  unfolding set_state unwatch_main unwatch_control
  set_state-control m s e = elim (Option-cases m.control) [
    | inl none_main ↦ ground arith
    | inr some_main ↦ ground arith
  ]

  -- The decision of `enter_dead` to restart.
  unfoldable pub will_restart : Mng E → ServiceResult → Bool → Bool
  will_restart m r force =
      force && (not (ops.has_stop_job m.env) && shall_restart ops conf (keep_failure m r))

  pub enter_dead-stays :
      (m : Mng E) (r : ServiceResult) (force : Bool)
      → ops.has_owner m.env ≡ true
      → will_restart m r force ≡ false
      → enter_dead ops conf m r force
        ≡ record (set_state ops conf (keep_failure m r) (down_state (keep_failure m r).result)) {
          reset_restarts = true;
          forbid_restart = false;
        }
  unfolding enter_dead will_restart down_state
  enter_dead-stays m r force owned stays = rw (owned, stays)

  keep_failure-forbid :
      (m : Mng E) (r : ServiceResult) → (keep_failure m r).forbid_restart ≡ m.forbid_restart
  unfolding keep_failure
  keep_failure-forbid m r = ground arith

  forbidden :
      (m : Mng E) (r : ServiceResult) (force : Bool)
      → m.forbid_restart ≡ true
      → will_restart m r force ≡ false
  unfolding will_restart shall_restart
  forbidden m r force e = rw (keep_failure-forbid m r, e) ground arith

  down-halts :
      (m : Mng E) (s : ServiceState) (r : ServiceResult)
      → s ≡ down_state r
      → m.state ≡ s
      → m.main ≡ none
      → m.control ≡ none
      → halts m ≡ true
  unfolding halts down_state
  down-halts m s r = ground arith

  enter_dead-halts :
      (m : Mng E) (r : ServiceResult) (force : Bool)
      → ops.has_owner m.env ≡ true
      → m.forbid_restart ≡ true
      → halts (enter_dead ops conf m r force) ≡ true
  enter_dead-halts m r force owned forbid =
      let m1 = keep_failure m r in
      let m2 = set_state ops conf m1 (down_state m1.result) in
      ap halts (enter_dead-stays m r force owned (forbidden m r force forbid))
      ∙ down-halts (record m2 { reset_restarts = true; forbid_restart = false })
          (down_state m1.result) m1.result refl (set_state_lem m1 (down_state m1.result)).0
          (set_state-main m1 (down_state m1.result) (down-keeps_main m1.result))
          (set_state-control m1 (down_state m1.result) (down-keeps_control m1.result))

  kill-forbid :
      (m : Mng E) (s : ServiceState) → (kill ops conf m s).0.forbid_restart ≡ m.forbid_restart
  unfolding kill
  kill-forbid m s = elim (Bool-cases (ops.has_owner m.env)) [
    | inl e ↦ rw e refl
    | inr e ↦ rw e refl
  ]

  module _ (owned : (e : E) → ops.has_owner e ≡ true) where
    dead_with-halts :
        (m : Mng E) (r : ServiceResult)
        → m.forbid_restart ≡ true
        → halts (enter_dead ops conf m r true) ≡ true
    dead_with-halts m r forbid = enter_dead-halts m r true (owned m.env) forbid

    signal_last-halts :
        (m : Mng E) (s : ServiceState)
        → m.forbid_restart ≡ true
        → halts (signal_last ops conf m s) ≡ true
    unfolding signal_last
    signal_last-halts m s forbid =
        let kept = kill-forbid m s ∙ forbid in
        elim (Bool-cases (kill ops conf m s).1) [
          | inl e ↦ rw (e, signal_last) (dead_with-halts (kill ops conf m s).0 success kept)
          | inr e ↦
              rw (e, signal_last) (dead_with-halts (kill ops conf m s).0 failure_resources kept)
        ]

    signal_final-halts :
        (m : Mng E) (s : ServiceState)
        → m.forbid_restart ≡ true
        → halts (signal_final ops conf m s) ≡ true
    unfolding signal_final
    signal_final-halts m s forbid =
        let kept = kill-forbid m s ∙ forbid in
        elim (Bool-cases (kill ops conf m s).1) [
          | inl e ↦
              rw (e, signal_final) (signal_last-halts (kill ops conf m s).0 final_sigkill kept)
          | inr e ↦
              rw (e, signal_final) (dead_with-halts (kill ops conf m s).0 failure_resources kept)
        ]

    -- A command that is started leaves the service to wait for it.
    next_control-halts :
        (m : Mng E) (s : ServiceState) (fail other : Mng E → Mng E)
        → ((n : Mng E) → n.state ≡ s → halts n ≡ true)
        → ((n : Mng E) → n.forbid_restart ≡ true → halts (fail n) ≡ true)
        → ((n : Mng E) → n.forbid_restart ≡ true → halts (other n) ≡ true)
        → m.forbid_restart ≡ true
        → halts (next_control ops conf m s fail other) ≡ true
    unfolding next_control run_control
    next_control-halts m s fail other waits fails others forbid =
        elim (List-cases m.control_command) [
          | inl e ↦ rw (e, next_control) (others m forbid)
          | inr (cmd, cmds, e) ↦
              let started = ops.start_service m.env cmd in
              let m1 = record m { control_command = cmds; env = started.0 } in
              elim (Option-cases started.1) [
                | inl p ↦ rw (e, next_control, p, run_control) (fails m1 forbid)
                | inr (pid, p) ↦
                    rw (e, next_control, p, run_control)
                      (waits (set_state ops conf (record m1 { control = some pid }) s)
                        (set_state_lem (record m1 { control = some pid }) s).0)
              ]
        ]

    waits_stop_post : (n : Mng E) → n.state ≡ ServiceState.stop_post → halts n ≡ true
    unfolding halts
    waits_stop_post n e = rw e refl

    waits_stop : (n : Mng E) → n.state ≡ ServiceState.stop → halts n ≡ true
    unfolding halts
    waits_stop n e = rw e refl

    filled-forbid :
        (m : Mng E) (r : ServiceResult) (c : ServiceCommand)
        → m.forbid_restart ≡ true
        → (control_command_fill conf (keep_failure m r) c).forbid_restart ≡ true
    unfolding control_command_fill
    filled-forbid m r c forbid = elim (Option-cases (conf.get_exec_cmds c)) [
      | inl e ↦ rw (e, control_command_fill) (keep_failure-forbid m r ∙ forbid)
      | inr (cmds, e) ↦ rw (e, control_command_fill) (keep_failure-forbid m r ∙ forbid)
    ]

    enter_stop_post-halts :
        (m : Mng E) (r : ServiceResult)
        → m.forbid_restart ≡ true
        → halts (enter_stop_post ops conf m r) ≡ true
    unfolding enter_stop_post
    enter_stop_post-halts m r forbid =
        next_control-halts (control_command_fill conf (keep_failure m r) ServiceCommand.stop_post)
          ServiceState.stop_post (λ m1. signal_final ops conf m1 final_sigterm)
          (λ m1. signal_final ops conf m1 final_sigterm) waits_stop_post
          (λ n. signal_final-halts n final_sigterm) (λ n. signal_final-halts n final_sigterm)
          (filled-forbid m r ServiceCommand.stop_post forbid)

    pub enter_signal-halts :
        (m : Mng E) (r : ServiceResult)
        → m.forbid_restart ≡ true
        → halts (enter_signal ops conf m stop_sigterm r) ≡ true
    unfolding enter_signal is_stop_signal
    enter_signal-halts m r forbid =
        enter_stop_post-halts (kill ops conf m stop_sigterm).0
          (if (kill ops conf m stop_sigterm).1 then success else failure_resources)
          (kill-forbid m stop_sigterm ∙ forbid)

    pub enter_stop-halts :
        (m : Mng E) (r : ServiceResult)
        → m.forbid_restart ≡ true
        → halts (enter_stop ops conf m r) ≡ true
    unfolding enter_stop
    enter_stop-halts m r forbid =
        next_control-halts (control_command_fill conf (keep_failure m r) ServiceCommand.stop)
          ServiceState.stop (λ m1. enter_signal ops conf m1 stop_sigterm failure_resources)
          (λ m1. enter_signal ops conf m1 stop_sigterm success) waits_stop
          (λ n. enter_signal-halts n failure_resources) (λ n. enter_signal-halts n success)
          (filled-forbid m r ServiceCommand.stop forbid)

  -- A stop request to a service whose unit is there leaves the service waiting for a stop or
  -- stop-post command, or dead or failed with neither a main nor a control process; it never leaves
  -- it waiting for a restart.
  pub stop_action-halts :
      (owned : (e : E) → ops.has_owner e ≡ true) (m : Mng E) → halts (stop_action ops conf m) ≡ true
  unfolding stop_action
  stop_action-halts owned m =
      let m1 = record m { forbid_restart = true } in
      elim (Bool-cases (is_starting m.state)) [
        | inl e ↦ rw (e, stop_action) (enter_signal-halts owned m1 success refl)
        | inr e ↦ rw (e, stop_action) (enter_stop-halts owned m1 success refl)
      ]
