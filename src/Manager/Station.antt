-- ===== src/Manager/Station.antt =====
-- core/bin/unit/manager.rs: the manager of units as a station of the reliability engine, which hands
-- each part what concerns it. The notifications and the sub-managers of the plugins are `Parts`.
use sysmaster.Base.{
  ℕ, zero, suc, Bool, false, Option, none, some, List, [], ◌∷◌, Checked, panic, ok, ltb,
  if◌then◌else◌,
}
use sysmaster.Reli.Last.{ReliFrame}
use sysmaster.Unit.Loading.{Loader, Runtime}
use sysmaster.Unit.Loading.Rerun.{rt_db_compensate_last, rt_do_compensate_last}
use sysmaster.Job.Engine.{World}
use sysmaster.Job.Manager.{Around, JobManager}
use sysmaster.Job.Manager.Restore.{merge_triggers}
use sysmaster.Job.Manager.Compensate.{
  jm_db_compensate_last, jm_do_compensate_last, jm_do_compensate_others,
}
use sysmaster.Manager.Requests.{Settings, UnitManager}

pub data ReliLastFrame : Type 0 where
  queue job_manager sig_chld cg_event notify sub_manager manager_op cmd_op other_event :
      ReliLastFrame

-- The frames in the order of their numbers, from 0.
abbrev frame_list : List ReliLastFrame
frame_list =
    queue ∷ job_manager ∷ sig_chld ∷ cg_event ∷ notify ∷ sub_manager ∷ manager_op ∷ cmd_op
    ∷ other_event ∷ []

unfoldable pub nth : ℕ → List ReliLastFrame → Option ReliLastFrame
nth n [] = none
nth zero (f ∷ fs) = some f
nth (suc n) (f ∷ fs) = nth n fs

-- `try_from`
unfoldable pub frame_of : ℕ → Option ReliLastFrame
unfolding nth
frame_of n = nth n frame_list

-- A sub-manager is found by the number of its type; `type_max` is that of `UnitTypeMax`.
pub record Parts (E S : Type 0) : Type 0 where
  pub notify_db : UnitManager E S → ReliFrame → Option ℕ → Checked (UnitManager E S)
  pub notify_do : UnitManager E S → ReliFrame → Option ℕ → Checked (UnitManager E S)
  pub sub_db : ℕ → UnitManager E S → ReliFrame → ℕ → Checked (UnitManager E S)
  pub sub_do : ℕ → UnitManager E S → ReliFrame → ℕ → Checked (UnitManager E S)
  pub type_max : ℕ

module _ {E S : Type 0} (parts : Parts E S) where
  -- `UnitSubManagers`
  unfoldable pub by_sub :
      (ℕ → UnitManager E S → ReliFrame → ℕ → Checked (UnitManager E S))
      → UnitManager E S
      → ReliFrame
      → Option ℕ
      → Checked (UnitManager E S)
  by_sub f m lframe none = ok m
  by_sub f m lframe (some u) = elim lframe.f2 [
    | none ↦ ok m
    | some ut ↦ if ltb parts.type_max ut then ok m else f ut m lframe u
  ]

  unfoldable pub with_rt : UnitManager E S → Checked (Runtime E) → Checked (UnitManager E S)
  with_rt m panic = panic
  with_rt m (ok rt) = ok (record m { rt = rt })

  unfoldable pub with_world :
      UnitManager E S → Checked (Unit {0} × World S) → Checked (UnitManager E S)
  with_world m panic = panic
  with_world m (ok (x, w)) = ok (record m { world = w })

  -- Whether the source of the job manager is enabled is dropped; a run out of fuel counts as a panic.
  unfoldable pub with_jm :
      UnitManager E S → Checked (Option (JobManager × Bool) × World S) → Checked (UnitManager E S)
  with_jm m panic = panic
  with_jm m (ok (none, w)) = panic
  with_jm m (ok (some (jm, enabled), w)) = ok (record m { jm = jm; world = w })

  unfoldable pub db_compensate_of :
      Option ReliLastFrame → UnitManager E S → ReliFrame → Option ℕ → Checked (UnitManager E S)
  unfolding by_sub with_rt with_world
  db_compensate_of (some queue) m lframe lunit = with_rt m (rt_db_compensate_last m.rt lframe lunit)
  db_compensate_of (some job_manager) m lframe lunit =
      with_world m (jm_db_compensate_last lunit m.world)
  db_compensate_of (some sig_chld) m lframe lunit =
      with_world m (jm_db_compensate_last lunit m.world)
  db_compensate_of (some cg_event) m lframe lunit = panic
  db_compensate_of (some notify) m lframe lunit = parts.notify_db m lframe lunit
  db_compensate_of (some sub_manager) m lframe lunit = by_sub parts.sub_db m lframe lunit
  db_compensate_of _ m lframe lunit = ok m

  unfoldable pub um_db_compensate_last :
      UnitManager E S → ReliFrame → Option ℕ → Checked (UnitManager E S)
  unfolding db_compensate_of frame_of
  um_db_compensate_last m lframe lunit = db_compensate_of (frame_of lframe.f1) m lframe lunit

  -- Over the units that have a trigger in the database.
  unfoldable pub um_db_compensate_history : UnitManager E S → List ℕ → Checked (UnitManager E S)
  unfolding with_world
  um_db_compensate_history m us = with_world m (merge_triggers us m.world)

  module _ (conf : Settings) (out : Loader E) (around : Around S) (rounds : ℕ) where
    do_compensate_of :
        Option ReliLastFrame → UnitManager E S → ReliFrame → Option ℕ → Checked (UnitManager E S)
    unfolding by_sub with_rt with_jm
    do_compensate_of (some queue) m lframe lunit =
        with_rt m (rt_do_compensate_last out conf.load_fuel m.rt lframe lunit)
    do_compensate_of (some job_manager) m lframe lunit =
        with_jm m (
          jm_do_compensate_last around m.rt.deps.t conf.expand_fuel rounds m.jm false lunit m.world)
    do_compensate_of (some sig_chld) m lframe lunit =
        with_jm m (
          jm_do_compensate_last around m.rt.deps.t conf.expand_fuel rounds m.jm false lunit m.world)
    do_compensate_of (some cg_event) m lframe lunit = panic
    do_compensate_of (some notify) m lframe lunit = parts.notify_do m lframe lunit
    do_compensate_of (some sub_manager) m lframe lunit = by_sub parts.sub_do m lframe lunit
    do_compensate_of _ m lframe lunit = ok m

    unfoldable pub um_do_compensate_last :
        UnitManager E S → ReliFrame → Option ℕ → Checked (UnitManager E S)
    unfolding do_compensate_of frame_of
    um_do_compensate_last m lframe lunit = do_compensate_of (frame_of lframe.f1) m lframe lunit

    unfoldable pub um_do_compensate_others :
        UnitManager E S → Option ℕ → List ℕ → Checked (UnitManager E S)
    unfolding with_jm
    um_do_compensate_others m lunit us = with_jm m (
        jm_do_compensate_others around m.rt.deps.t conf.expand_fuel rounds m.jm false lunit us
          m.world)
