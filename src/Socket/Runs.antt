-- ===== src/Socket/Runs.antt =====
-- What happens to a socket, one event after another.
use sysmaster.Base.{
  OnOk, false, not, ◌&&◌, Option, Checked, ok, panic, ◌≡◌, refl, subst, inl, inr, Bool-cases,
  Option-cases, List-cases, is_empty, ◌>>=◌, if◌then◌else◌,
}
use sysmaster.Service.States.{WaitStatus}
use sysmaster.Socket.States.{
  SocketState, dead, start_chown, listening, running, stop_pre_sigterm, stop_pre_sigkill,
  final_sigterm, final_sigkill, failed, cleaning, state_max, SocketResult, success,
  failure_resources, failure_start_limit_hit, is_ok, is_listening, is_going_down, is_coming_up,
  is_in_stop,
}
use sysmaster.Socket.Mng.{SocketConfig, SocketMng, SocketOutside}
use sysmaster.Socket.Requests.{
  exit_result, socket_start_check, check_limit, target_enabled, socket_start_action,
  socket_stop_action, socket_stop_check, run_next, command_ended, socket_sigchld_event,
  start_target, socket_enter_running, dispatch_io,
}
use sysmaster.Socket.Failed.{
  HasFailed, change_state-HasFailed, go_down-HasFailed, final_term-HasFailed,
  go_stop_post-HasFailed, stop_term-HasFailed, go_stop_pre-HasFailed, enter_listening-HasFailed,
  go_start_post-HasFailed, enter_start_chown-HasFailed, enter_start_pre-HasFailed,
}

OnOk-bind :
    {A B : Type 0} (P : B → Type 0) (c : Checked A) (f : A → Checked B)
    → ((a : A) → OnOk P (f a))
    → OnOk P (c >>= f)
OnOk-bind P panic f h = tt
OnOk-bind P (ok a) f h = h a

module _ {E : Type 0} (ops : SocketOutside E) (conf : SocketConfig) where
  -- A request, the end of a process, a connection, or a change of the world.
  pub data Step (m : SocketMng E) : SocketMng E → Type 0 where
    start_checked : Step m (socket_start_check ops conf m).0
    starts : Step m (socket_start_action ops conf m)
    stop_checked : Step m (socket_stop_check ops conf m).0
    stops : Step m (socket_stop_action ops conf m)
    child_ends :
        (ws : WaitStatus) (n : SocketMng E) → socket_sigchld_event ops conf m ws ≡ ok n → Step m n
    connects : (accepted : Option E) → Step m (dispatch_io ops conf m accepted).0
    world_moves : (e : E) → Step m (record m { env = e })

  pub data Steps (m : SocketMng E) : SocketMng E → Type 0 where
    at_rest : Steps m m
    and_then : (n : SocketMng E) {o : SocketMng E} → Steps m n → Step n o → Steps m o

  module _ (r : SocketResult) (bad : is_ok r ≡ false) where
    limited : (m : SocketMng E) → HasFailed r m → HasFailed r (check_limit ops conf m).0
    unfolding check_limit
    limited m h =
        let tried = if ops.has_owner m.env then ops.test_start_limit m.env else (m.env, false) in
        let m1 = record m { env = tried.0 } in
        elim (Bool-cases tried.1) [
          | inl b ↦ rw b h
          | inr b ↦ rw b (go_down-HasFailed ops r bad m1 failure_start_limit_hit h)
        ]

    start_check-HasFailed :
        (m : SocketMng E) → HasFailed r m → HasFailed r (socket_start_check ops conf m).0
    unfolding socket_start_check
    start_check-HasFailed m h = elim (Bool-cases (is_going_down m.state)) [
      | inl e ↦ rw e h
      | inr e ↦ elim (Bool-cases (is_coming_up m.state)) [
        | inl f ↦ rw (e, f) h
        | inr f ↦ elim (Bool-cases (target_enabled ops conf m.env)) [
          | inr g ↦ rw (e, f, g) h
          | inl g ↦ rw (e, f, g) (limited m h)
        ]
      ]
    ]

    stop_check-HasFailed :
        (m : SocketMng E) → HasFailed r m → HasFailed r (socket_stop_check ops conf m).0
    unfolding socket_stop_check
    stop_check-HasFailed m h = elim (Bool-cases (is_in_stop m.state)) [
      | inl e ↦ rw e h
      | inr e ↦ elim (Bool-cases (is_coming_up m.state)) [
        | inl f ↦ rw (e, f) (stop_term-HasFailed ops r bad conf success m h)
        | inr f ↦ rw (e, f) h
      ]
    ]

    run_next-HasFailed : (m : SocketMng E) → HasFailed r m → HasFailed r (run_next ops conf m)
    unfolding run_next
    run_next-HasFailed m h = elim (List-cases m.control_command) [
      | inl e ↦ rw (e, run_next) h
      | inr (cmd, cmds, e) ↦ elim (Option-cases (ops.start_socket m.env cmd).1) [
        | inl p ↦ rw (e, run_next, p) h
        | inr (pid, p) ↦ rw (e, run_next, p) h
      ]
    ]

    command_ended-HasFailed :
        (m : SocketMng E) (s : SocketState) (res : SocketResult)
        → HasFailed r m
        → OnOk (HasFailed r) (command_ended ops conf m s res)
    unfolding command_ended
    command_ended-HasFailed m SocketState.start_pre res h = elim (Bool-cases (is_ok res)) [
      | inl e ↦ rw e (enter_start_chown-HasFailed ops r bad conf m h)
      | inr e ↦ rw e (final_term-HasFailed ops r bad res m h)
    ]
    command_ended-HasFailed m start_chown res h = elim (Bool-cases (is_ok res)) [
      | inl e ↦ rw e (go_start_post-HasFailed ops r bad conf m h)
      | inr e ↦ rw e (go_stop_pre-HasFailed ops r bad conf res m h)
    ]
    command_ended-HasFailed m SocketState.start_post res h = elim (Bool-cases (is_ok res)) [
      | inl e ↦ rw e (enter_listening-HasFailed ops r bad conf m h)
      | inr e ↦ rw e (go_stop_pre-HasFailed ops r bad conf res m h)
    ]
    command_ended-HasFailed m SocketState.stop_pre res h =
        go_stop_post-HasFailed ops r bad conf res m h
    command_ended-HasFailed m stop_pre_sigterm res h = go_stop_post-HasFailed ops r bad conf res m h
    command_ended-HasFailed m stop_pre_sigkill res h = go_stop_post-HasFailed ops r bad conf res m h
    command_ended-HasFailed m SocketState.stop_post res h = go_down-HasFailed ops r bad m res h
    command_ended-HasFailed m final_sigterm res h = go_down-HasFailed ops r bad m res h
    command_ended-HasFailed m final_sigkill res h = go_down-HasFailed ops r bad m res h
    command_ended-HasFailed m dead res h = tt
    command_ended-HasFailed m listening res h = tt
    command_ended-HasFailed m running res h = tt
    command_ended-HasFailed m failed res h = tt
    command_ended-HasFailed m cleaning res h = tt
    command_ended-HasFailed m state_max res h = tt

    sigchld-HasFailed :
        (m : SocketMng E) (ws : WaitStatus)
        → HasFailed r m
        → OnOk (HasFailed r) (socket_sigchld_event ops conf m ws)
    unfolding socket_sigchld_event
    sigchld-HasFailed m ws h = OnOk-bind (HasFailed r) (exit_result ws) _ (λ res.
        elim (Bool-cases (not (is_empty m.control_command) && is_ok res)) [
          | inl e ↦ rw e (run_next-HasFailed m h)
          | inr e ↦ rw e (command_ended-HasFailed m m.state res h)
        ])

    start_target-HasFailed :
        (m : SocketMng E) → HasFailed r m → HasFailed r (start_target ops conf m)
    unfolding start_target
    start_target-HasFailed m h = elim (Option-cases conf.unit_ref_target) [
      | inl e ↦ rw (e, start_target) (go_stop_pre-HasFailed ops r bad conf failure_resources m h)
      | inr (u, e) ↦
          let m1 = record m { env = (ops.start_unit m.env u).0 } in
          elim (Bool-cases (ops.start_unit m.env u).1) [
            | inl d ↦ rw (e, start_target, d) (change_state-HasFailed ops r bad m1 running h.0 refl)
            | inr d ↦
                rw (e, start_target, d)
                  (go_stop_pre-HasFailed ops r bad conf failure_resources m1 h)
          ]
    ]

    enter_running-HasFailed :
        (m : SocketMng E) → HasFailed r m → HasFailed r (socket_enter_running ops conf m)
    unfolding socket_enter_running
    enter_running-HasFailed m h = elim (Bool-cases (ops.has_owner m.env)) [
      | inr o ↦ rw o h
      | inl o ↦ elim (Bool-cases (ops.has_stop_job m.env)) [
        | inl j ↦ rw (o, j) h
        | inr j ↦ elim (Bool-cases (ops.relation_active_or_pending m.env)) [
          | inl a ↦ rw (o, j, a) (change_state-HasFailed ops r bad m running h.0 refl)
          | inr a ↦ rw (o, j, a) (start_target-HasFailed m h)
        ]
      ]
    ]

    dispatch_io-HasFailed :
        (m : SocketMng E) (accepted : Option E)
        → HasFailed r m
        → HasFailed r (dispatch_io ops conf m accepted).0
    unfolding dispatch_io
    dispatch_io-HasFailed m accepted h = elim (Bool-cases (is_listening m.state)) [
      | inr l ↦ rw l h
      | inl l ↦ elim (Option-cases accepted) [
        | inl a ↦ rw (l, a) h
        | inr (e, a) ↦ rw (l, a) (enter_running-HasFailed (record m { env = e }) h)
      ]
    ]

    Step-HasFailed : (m n : SocketMng E) → HasFailed r m → Step m n → HasFailed r n
    unfolding socket_start_action socket_stop_action
    Step-HasFailed m n h start_checked = start_check-HasFailed m h
    Step-HasFailed m n h starts = enter_start_pre-HasFailed ops r bad conf m h
    Step-HasFailed m n h stop_checked = stop_check-HasFailed m h
    Step-HasFailed m n h stops = go_stop_pre-HasFailed ops r bad conf success m h
    Step-HasFailed m n h (child_ends ws n' e) =
        subst (OnOk (HasFailed r)) e (sigchld-HasFailed m ws h)
    Step-HasFailed m n h (connects accepted) = dispatch_io-HasFailed m accepted h
    Step-HasFailed m n h (world_moves e) = h

    -- Once a socket has failed, its result stays that failure and it is never dead again, whatever
    -- requests, ends of processes and connections follow and however the world changes.
    pub Steps-HasFailed : (m n : SocketMng E) → HasFailed r m → Steps m n → HasFailed r n
    Steps-HasFailed m n h at_rest = h
    Steps-HasFailed m n h (and_then k before last) =
        Step-HasFailed k n (Steps-HasFailed m k h before) last
