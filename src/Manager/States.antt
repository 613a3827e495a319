-- ===== src/Manager/States.antt =====
-- core/bin/unit/manager.rs: what the manager does when a unit has changed its state, has been started
-- too often, or has a job that has timed out. The tables of data.rs hand these over.
use sysmaster.Base.{
  ℕ, Bool, true, false, not, ◌&&◌, ◌||◌, List, [], ◌∷◌, ◌++◌, is_some, Checked, panic, ok,
  if◌then◌else◌,
}
use sysmaster.Base.Maps.{id_key, find}
use sysmaster.Unit.State.{
  ActiveState, inactive, failed, NotifyFlags, is_inactive_or_failed, is_active_or_activating,
}
use sysmaster.Unit.Relation.{UnitRelationAtom}
use sysmaster.Unit.Dependency.Table.{gets_atom}
use sysmaster.Unit.Loading.{Loader}
use sysmaster.Job.Entry.{JobResult, timeout}
use sysmaster.Job.Manager.{Around}
use sysmaster.Job.Manager.Finish.{has_start_like_job}
use sysmaster.Job.Manager.Run.{try_finish}
use sysmaster.Manager.Requests.{Settings, UnitManager, Request, request}

pub data EmergencyAction : Type 0 where
  no_action reboot reboot_force reboot_immediate poweroff poweroff_force poweroff_immediate exit
        exit_force :
      EmergencyAction

-- What an action does to the whole system: the state of the manager, or a call of the kernel.
pub data Halt : Type 0 where
  state_reboot state_poweroff state_exit kernel_reboot kernel_poweroff : Halt

-- The settings of each unit, and the ids of the units that actions start.
pub record Emergencies : Type 0 where
  pub failure_action : ℕ → EmergencyAction
  pub success_action : ℕ → EmergencyAction
  pub start_limit_action : ℕ → EmergencyAction
  pub job_timeout_action : ℕ → EmergencyAction
  pub shutdown_target : ℕ
  pub reboot_target : ℕ
  pub poweroff_target : ℕ
  pub exit_target : ℕ

-- `StartLimitResult`
pub data StartLimitResult : Type 0 where
  not_hit hit : StartLimitResult

abbrev pub fails : ActiveState → Bool
fails failed = true
fails _ = false

abbrev pub ends : ActiveState → Bool
ends inactive = true
ends _ = false

-- The actions that start a target.
abbrev pub by_target : EmergencyAction → Bool
by_target reboot = true
by_target poweroff = true
by_target exit = true
by_target _ = false

-- The manager, and what it has done to the system, the last thing last.
abbrev pub Acted : Type 0 → Type 0 → Type 0
Acted E S = Checked (UnitManager E S × List Halt)

module _ {E S : Type 0} (conf : Settings) (out : Loader E) (around : Around S)
    (em : Emergencies) where
  -- The error of a start is only logged.
  start_target_unit : UnitManager E S → List Halt → ℕ → Acted E S
  start_target_unit m done u = elim (request conf out around Request.start_unit m u) [
    | panic ↦ panic
    | ok (m1, dropped) ↦ ok (m1, done)
  ]

  -- Whether the system is being shut down already.
  unfoldable pub is_shutting_down : UnitManager E S → Bool
  is_shutting_down m =
      is_some (find em.shutdown_target m.rt.units)
      && (is_active_or_activating (around.ops.active_state m.world.units em.shutdown_target)
          || has_start_like_job m.jm em.shutdown_target)

  act : EmergencyAction → UnitManager E S → List Halt → Acted E S
  unfolding start_target_unit
  act no_action m done = ok (m, done)
  act reboot m done = start_target_unit m done em.reboot_target
  act reboot_force m done = ok (m, done ++ state_reboot ∷ [])
  act reboot_immediate m done = ok (m, done ++ kernel_reboot ∷ [])
  act poweroff m done = start_target_unit m done em.poweroff_target
  act poweroff_force m done = ok (m, done ++ state_poweroff ∷ [])
  act poweroff_immediate m done = ok (m, done ++ kernel_poweroff ∷ [])
  act exit m done = start_target_unit m done em.exit_target
  act exit_force m done = ok (m, done ++ state_exit ∷ [])

  unfoldable pub unit_emergency_action : EmergencyAction → UnitManager E S → List Halt → Acted E S
  unfolding is_shutting_down act
  unit_emergency_action a m done =
      if by_target a && is_shutting_down m then ok (m, done) else act a m done

  unfoldable pub action_if : Bool → EmergencyAction → UnitManager E S × List Halt → Acted E S
  action_if b a (m, done) = if b then unit_emergency_action a m done else ok (m, done)

  trigger_others_of : ℕ → List ℕ → S → S
  trigger_others_of u [] s = s
  trigger_others_of u (o ∷ os) s = trigger_others_of u os (around.triggered s o u)

  -- The job of the unit is told first, and then the units that it triggers.
  finish_and_trigger :
      ℕ → ActiveState → ActiveState → NotifyFlags → UnitManager E S × List Halt → Acted E S
  unfolding trigger_others_of
  finish_and_trigger u os ns flags (m, done) =
      elim (try_finish around m.rt.deps.t conf.expand_fuel m.jm
        (record { unit = u; os = os; ns = ns; flags = flags }) m.world) [
          | panic ↦ panic
          | ok ((jm, dropped), w) ↦ ok (
            record m {
              jm = jm;
              world = record w {
                units =
                    trigger_others_of u (gets_atom m.rt.deps.t u UnitRelationAtom.triggered_by)
                      w.units;
              };
            },
            done,
          )
        ]

  chain : Acted E S → (UnitManager E S × List Halt → Acted E S) → Acted E S
  chain panic f = panic
  chain (ok r) f = f r

  unfoldable pub insert_states :
      UnitManager E S → ℕ → ActiveState → ActiveState → NotifyFlags → Acted E S
  unfolding action_if finish_and_trigger chain
  insert_states m u os ns flags =
      if is_some (find u m.rt.units)
      then chain
          (chain (action_if (not (fails os) && fails ns) (em.failure_action u) (m, []))
            (action_if (not (is_inactive_or_failed os) && ends ns) (em.success_action u)))
          (finish_and_trigger u os ns flags)
      else ok (m, [])

  unfoldable pub insert_start_limit_res : UnitManager E S → ℕ → StartLimitResult → Acted E S
  insert_start_limit_res m u not_hit = ok (m, [])
  insert_start_limit_res m u hit =
      action_if (is_some (find u m.rt.units)) (em.start_limit_action u) (m, [])

  unfoldable pub instert_job_result : UnitManager E S → ℕ → JobResult → Acted E S
  instert_job_result m u timeout =
      action_if (is_some (find u m.rt.units)) (em.job_timeout_action u) (m, [])
  instert_job_result m u _ = ok (m, [])
