-- ===== src/Socket/Failed.antt =====
-- A socket that has failed once.
use sysmaster.Base.{
  Bool, true, false, some, ◌≡◌, refl, ap, ◌∙◌, inl, inr, Bool-cases, Option-cases, List-cases,
  if◌then◌else◌,
}
use sysmaster.Socket.States.{
  SocketState, dead, listening, stop_pre_sigterm, stop_pre_sigkill, final_sigterm, final_sigkill,
  failed, SocketResult, success, failure_resources, SocketCommand, start_pre, start_post, stop_pre,
  stop_post, is_ok, keeps_process,
}
use sysmaster.Socket.Mng.{
  SocketConfig, SocketMng, SocketOutside, keep_result, drop_process, change_state, go_down, send,
  signal_then, final_kill, final_term, fill, run_command, go_stop_post, stop_kill, stop_term,
  go_stop_pre, enter_listening, go_start_post, enter_start_chown, enter_start_pre,
}

abbrev pub is_dead : SocketState → Bool
is_dead dead = true
is_dead _ = false

-- A failure stands as the result, and the state is not `Dead`.
abbrev pub HasFailed : {E : Type 0} → SocketResult → SocketMng E → Type 0
HasFailed r m = (m.result ≡ r) × (is_dead m.state ≡ false)

module _ {E : Type 0} (ops : SocketOutside E) (r : SocketResult) (bad : is_ok r ≡ false) where
  keep_result_lem : (m : SocketMng E) (res : SocketResult) → m.result ≡ r → keep_result m res ≡ m
  unfolding keep_result
  keep_result_lem m res e = rw (e, bad, keep_result) refl

  pub change_state-HasFailed :
      (m : SocketMng E) (s : SocketState)
      → m.result ≡ r
      → is_dead s ≡ false
      → HasFailed r (change_state ops m s)
  unfolding change_state drop_process
  change_state-HasFailed m s e f = elim (Bool-cases (keeps_process s)) [
    | inl k ↦ (rw k e, rw k f)
    | inr k ↦ elim (Option-cases m.control) [
      | inl c ↦ (rw (k, c) e, rw (k, c) f)
      | inr (pid, c) ↦ (rw (k, c) e, rw (k, c) f)
    ]
  ]

  drop_process-HasFailed : (m : SocketMng E) → HasFailed r m → HasFailed r (drop_process ops m)
  unfolding drop_process
  drop_process-HasFailed m h = elim (Option-cases m.control) [
    | inl c ↦ (rw (c, drop_process) h.0, rw (c, drop_process) h.1)
    | inr (pid, c) ↦ (rw (c, drop_process) h.0, rw (c, drop_process) h.1)
  ]

  pub go_down-HasFailed :
      (m : SocketMng E) (res : SocketResult) → HasFailed r m → HasFailed r (go_down ops m res)
  unfolding go_down
  go_down-HasFailed m res h =
      let same = keep_result_lem m res h.0 in
      let e : (keep_result m res).result ≡ r = ap (λ n. n.result) same ∙ h.0 in
      change_state-HasFailed (keep_result m res)
        (if is_ok (keep_result m res).result then dead else failed) e (rw (e, bad) refl)

  send-HasFailed :
      (m : SocketMng E) (s : SocketState) → HasFailed r m → HasFailed r (send ops m s).0
  unfolding send
  send-HasFailed m s h = elim (Bool-cases (ops.has_owner m.env)) [
    | inl o ↦ (rw o h.0, rw o h.1)
    | inr o ↦ (rw o h.0, rw o h.1)
  ]

  abbrev Keeps : (SocketMng E → SocketMng E) → Type 0
  Keeps f = (m : SocketMng E) → HasFailed r m → HasFailed r (f m)

  signal_then-HasFailed :
      (s : SocketState) (res : SocketResult) (next fail : SocketMng E → SocketMng E)
      → Keeps next
      → Keeps fail
      → Keeps (λ m. signal_then ops m s res next fail)
  unfolding signal_then
  signal_then-HasFailed s res next fail nexts fails m h =
      let same = keep_result_lem m res h.0 in
      let kept : HasFailed r (keep_result m res) = rw same h in
      let sent = send-HasFailed (keep_result m res) s kept in
      elim (Bool-cases (send ops (keep_result m res) s).1) [
        | inl d ↦ rw (signal_then, d) (nexts (send ops (keep_result m res) s).0 sent)
        | inr d ↦ rw (signal_then, d) (fails (send ops (keep_result m res) s).0 sent)
      ]

  final_kill-HasFailed : (res : SocketResult) → Keeps (λ m. final_kill ops m res)
  unfolding final_kill
  final_kill-HasFailed res =
      signal_then-HasFailed final_sigkill res (λ n. go_down ops n success)
        (λ n. go_down ops n failure_resources) (λ n. go_down-HasFailed n success)
        (λ n. go_down-HasFailed n failure_resources)

  pub final_term-HasFailed : (res : SocketResult) → Keeps (λ m. final_term ops m res)
  unfolding final_term
  final_term-HasFailed res =
      signal_then-HasFailed final_sigterm res (λ n. final_kill ops n success)
        (λ n. go_down ops n failure_resources) (final_kill-HasFailed success)
        (λ n. go_down-HasFailed n failure_resources)

  module _ (conf : SocketConfig) where
    fill-HasFailed : (c : SocketCommand) → Keeps (λ m. fill ops conf m c)
    unfolding fill
    fill-HasFailed c m h = elim (Option-cases (conf.get_exec_cmds c)) [
      | inl e ↦ (rw (e, fill) h.0, rw (e, fill) h.1)
      | inr (cmds, e) ↦ (rw (e, fill) h.0, rw (e, fill) h.1)
    ]

    run_command-HasFailed :
        (s : SocketState) (fail other : SocketMng E → SocketMng E)
        → is_dead s ≡ false
        → Keeps fail
        → Keeps other
        → Keeps (λ m. run_command ops conf m s fail other)
    unfolding run_command
    run_command-HasFailed s fail other up fails others m h = elim (List-cases m.control_command) [
      | inl e ↦ rw (e, run_command) (others m h)
      | inr (cmd, cmds, e) ↦
          let begun = ops.start_socket m.env cmd in
          let m1 = record m { control_command = cmds; env = begun.0 } in
          elim (Option-cases begun.1) [
            | inl p ↦ rw (e, run_command, p) (fails m1 h)
            | inr (pid, p) ↦
                rw (e, run_command, p)
                  (change_state-HasFailed (record m1 { control = some pid }) s h.0 up)
          ]
    ]

    pub go_stop_post-HasFailed : (res : SocketResult) → Keeps (λ m. go_stop_post ops conf m res)
    unfolding go_stop_post
    go_stop_post-HasFailed res m h =
        run_command-HasFailed SocketState.stop_post (λ n. final_term ops n failure_resources)
          (λ n. final_term ops n success) refl (final_term-HasFailed failure_resources)
          (final_term-HasFailed success) (fill ops conf (keep_result m res) stop_post)
          (fill-HasFailed stop_post (keep_result m res) (rw (keep_result_lem m res h.0) h))

    stop_kill-HasFailed : (res : SocketResult) → Keeps (λ m. stop_kill ops conf m res)
    unfolding stop_kill
    stop_kill-HasFailed res =
        signal_then-HasFailed stop_pre_sigkill res (λ n. go_stop_post ops conf n success)
          (λ n. go_stop_post ops conf n failure_resources) (go_stop_post-HasFailed success)
          (go_stop_post-HasFailed failure_resources)

    pub stop_term-HasFailed : (res : SocketResult) → Keeps (λ m. stop_term ops conf m res)
    unfolding stop_term
    stop_term-HasFailed res =
        signal_then-HasFailed stop_pre_sigterm res (λ n. stop_kill ops conf n success)
          (λ n. go_stop_post ops conf n failure_resources) (stop_kill-HasFailed success)
          (go_stop_post-HasFailed failure_resources)

    pub go_stop_pre-HasFailed : (res : SocketResult) → Keeps (λ m. go_stop_pre ops conf m res)
    unfolding go_stop_pre
    go_stop_pre-HasFailed res m h =
        let m1 = drop_process ops (keep_result m res) in
        run_command-HasFailed SocketState.stop_pre (λ n. go_stop_post ops conf n failure_resources)
          (λ n. go_stop_post ops conf n success) refl (go_stop_post-HasFailed failure_resources)
          (go_stop_post-HasFailed success) (fill ops conf m1 stop_pre)
          (fill-HasFailed stop_pre m1
            (drop_process-HasFailed (keep_result m res) (rw (keep_result_lem m res h.0) h)))

    pub enter_listening-HasFailed : Keeps (enter_listening ops conf)
    unfolding enter_listening
    enter_listening-HasFailed m h = change_state-HasFailed _ listening h.0 refl

    pub go_start_post-HasFailed : Keeps (go_start_post ops conf)
    unfolding go_start_post
    go_start_post-HasFailed m h =
        run_command-HasFailed SocketState.start_post (λ n. go_stop_pre ops conf n failure_resources)
          (λ n. enter_listening ops conf n) refl (go_stop_pre-HasFailed failure_resources)
          enter_listening-HasFailed (fill ops conf (drop_process ops m) start_post)
          (fill-HasFailed start_post (drop_process ops m) (drop_process-HasFailed m h))

    pub enter_start_chown-HasFailed : Keeps (enter_start_chown ops conf)
    unfolding enter_start_chown
    enter_start_chown-HasFailed m h =
        let m1 = record m { env = (ops.open_fds m.env).0 } in
        elim (Bool-cases (ops.open_fds m.env).1) [
          | inl d ↦ rw (enter_start_chown, d) (go_start_post-HasFailed m1 h)
          | inr d ↦ rw (enter_start_chown, d) (go_stop_pre-HasFailed failure_resources m1 h)
        ]

    pub enter_start_pre-HasFailed : Keeps (enter_start_pre ops conf)
    unfolding enter_start_pre
    enter_start_pre-HasFailed m h =
        run_command-HasFailed SocketState.start_pre (λ n. go_down ops n failure_resources)
          (λ n. enter_start_chown ops conf n) refl (λ n. go_down-HasFailed n failure_resources)
          enter_start_chown-HasFailed (fill ops conf (drop_process ops m) start_pre)
          (fill-HasFailed start_pre (drop_process ops m) (drop_process-HasFailed m h))
