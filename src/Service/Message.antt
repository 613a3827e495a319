-- ===== src/Service/Message.antt =====
-- coms/service/src/mng.rs: the notifications that a service sends. A message is its key and value,
-- parsed; the order of the messages is that in which the map is walked.
use sysmaster.Base.{
  ℕ, Bool, true, false, not, ◌&&◌, ◌||◌, none, some, List, [], ◌∷◌, ◌==◌, if◌then◌else◌,
}
use sysmaster.Service.States.{ServiceType, notify, ServiceState, running, NotifyState}
use sysmaster.Service.Mng.{Config, Mng, Outside, set_main, restart_watchdog, override_watchdog_usec}
use sysmaster.Service.Stop.{enter_stop_by_notify}
use sysmaster.Service.Start.{enter_start_post, force_watchdog}
use sysmaster.Service.Child.{is_pid, valid_main_pid}

-- Any other message, and a value that is no number, changes nothing. `errno` is not read again.
pub data Message : Type 0 where
  ready stopping watchdog_again watchdog_trigger other_message : Message
  watchdog_usec : ℕ → Message

-- `MAINPID`: absent, no number, or a number.
pub data MainPid : Type 0 where
  absent malformed : MainPid
  given : ℕ → MainPid

abbrev takes_main_pid : ServiceState → Bool
takes_main_pid ServiceState.start = true
takes_main_pid ServiceState.start_post = true
takes_main_pid running = true
takes_main_pid _ = false

abbrev is_notify : ServiceType → Bool
is_notify notify = true
is_notify _ = false

abbrev is_start : ServiceState → Bool
is_start ServiceState.start = true
is_start _ = false

abbrev is_up : ServiceState → Bool
is_up running = true
is_up _ = false

module _ {E : Type 0} (ops : Outside E) where
  -- `set_main`, whose error is dropped, and `child_watch_pid`.
  take_main : Mng E → ℕ → Mng E
  unfolding set_main
  take_main m pid = let m1 = (set_main ops m pid).0 in record m1 { env = ops.watch_pid m1.env pid }

  -- The sender's process is `sender`. The Boolean says that the message goes on.
  take_main_pid : Mng E → ℕ → ℕ → Mng E × Bool
  unfolding valid_main_pid take_main
  take_main_pid m sender pid =
      if is_pid m.main pid then (m, true) else (elim (valid_main_pid ops m pid) [
        | none ↦ (m, false)
        | some valid ↦ (if (sender == 0) || valid then take_main m pid else m, true)
      ])

  main_pid_message : Mng E → ℕ → MainPid → Mng E × Bool
  unfolding take_main_pid
  main_pid_message m sender absent = (m, true)
  main_pid_message m sender malformed = (m, not (takes_main_pid m.state))
  main_pid_message m sender (given pid) =
      if takes_main_pid m.state then take_main_pid m sender pid else (m, true)

module _ {E : Type 0} (ops : Outside E) (conf : Config) where
  one_message : Mng E → Message → Mng E
  one_message m ready =
      let m1 = record m { notify_state = NotifyState.ready } in
      if is_notify conf.service_type && is_start m.state then enter_start_post ops conf m1 else m1
  one_message m stopping =
      let m1 = record m { notify_state = NotifyState.stopping } in
      if is_up m.state then enter_stop_by_notify ops conf m1 else m1
  one_message m watchdog_again = restart_watchdog ops conf m
  one_message m watchdog_trigger = force_watchdog ops conf m
  one_message m (watchdog_usec usec) = override_watchdog_usec ops conf m usec
  one_message m other_message = m

  each_message : Mng E → List Message → Mng E
  unfolding one_message
  each_message m [] = m
  each_message m (n ∷ ns) = each_message (one_message m n) ns

  -- `do_notify_message`: whether it succeeds.
  unfoldable pub notify_message : Mng E → ℕ → MainPid → List Message → Mng E × Bool
  unfolding main_pid_message each_message
  notify_message m sender pid ns =
      let (m1, goes_on) = main_pid_message ops m sender pid in
      if goes_on then (each_message m1 ns, true) else (m1, false)
