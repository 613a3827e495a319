-- ===== src/Mount.antt =====
-- coms/mount/src/mng.rs: a mount point, which is only watched. `E` is the world outside.
pub mod Table
pub mod Changes
use sysmaster.Base.{Bool, true, false, if◌then◌else◌}
use sysmaster.Base.{Option, none, some}
use sysmaster.Unit.State.{ActiveState, active, inactive}

pub data MountState : Type 0 where
  dead mounted : MountState

unfoldable pub mount_state_to_unit_state : MountState → ActiveState
mount_state_to_unit_state dead = inactive
mount_state_to_unit_state mounted = active

pub record MountMng (E : Type 0) : Type 0 where
  pub state : MountState
  pub env : E

pub record MountOutside (E : Type 0) : Type 0 where
  pub has_owner : E → Bool
  pub test_start_limit : E → E × Bool
  pub notify : E → ActiveState → ActiveState → E
  pub rentry_mng_insert : E → MountState → E
  pub rentry_mng_get : E → Option MountState

module _ {E : Type 0} (ops : MountOutside E) where
  -- The record of the reliability engine is read back.
  unfoldable pub mount_db_map : MountMng E → MountMng E
  mount_db_map m = elim (ops.rentry_mng_get m.env) [
    | none ↦ m
    | some stored ↦ record m { state = stored }
  ]

  unfoldable pub mount_db_insert : MountMng E → MountMng E
  mount_db_insert m = record m { env = ops.rentry_mng_insert m.env m.state }

  -- `db_update` stores the record.
  unfoldable pub mount_state_notify : MountMng E → MountState → MountState → MountMng E
  mount_state_notify m new_state old_state =
      let told =
        if ops.has_owner m.env
        then ops.notify m.env (mount_state_to_unit_state old_state)
            (mount_state_to_unit_state new_state)
        else m.env in
      mount_db_insert (record m { env = told })

  unfoldable pub mount_set_state : MountMng E → MountState → Bool → MountMng E
  mount_set_state m new_state notify =
      let m1 = record m { state = new_state } in
      if notify then mount_state_notify m1 new_state m.state else m1

  unfoldable pub mount_enter_dead : MountMng E → Bool → MountMng E
  mount_enter_dead m notify = mount_set_state m dead notify

  unfoldable pub mount_enter_mounted : MountMng E → Bool → MountMng E
  mount_enter_mounted m notify = mount_set_state m mounted notify

  -- The Boolean says that the start is not canceled.
  unfoldable pub mount_start_check : MountMng E → MountMng E × Bool
  mount_start_check m =
      let (e, below) = if ops.has_owner m.env then ops.test_start_limit m.env else (m.env, false) in
      let m1 = record m { env = e } in
      if below then (m1, true) else (mount_enter_dead m1 true, false)
