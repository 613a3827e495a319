-- ===== src/Target.antt =====
-- coms/target/src/mng.rs: a target, which has no work of its own. `E` is the world outside.
use sysmaster.Base.{Bool, true, false, if◌then◌else◌}
use sysmaster.Base.{Option, none, some}
use sysmaster.Unit.State.{ActiveState, active, inactive}

pub data TargetState : Type 0 where
  target_dead target_active target_state_max : TargetState

unfoldable pub target_to_unit_state : TargetState → ActiveState
target_to_unit_state target_dead = inactive
target_to_unit_state target_active = active
target_to_unit_state target_state_max = inactive

pub record TargetMng (E : Type 0) : Type 0 where
  pub state : TargetState
  pub env : E

unfoldable pub new_target : {E : Type 0} → E → TargetMng E
new_target e = record { state = target_state_max; env = e }

pub record TargetOutside (E : Type 0) : Type 0 where
  pub has_owner : E → Bool
  pub notify : E → ActiveState → ActiveState → E
  pub rentry_mng_insert : E → TargetState → E
  pub rentry_mng_get : E → Option TargetState

-- `false` is the error that asks to try again.
unfoldable pub target_start_check : {E : Type 0} → TargetMng E → Bool
target_start_check t = elim t.state [
  | target_dead ↦ true
  | target_active ↦ false
  | target_state_max ↦ true
]

unfoldable pub target_stop_check : {E : Type 0} → TargetMng E → Bool
target_stop_check t = elim t.state [
  | target_dead ↦ false
  | target_active ↦ true
  | target_state_max ↦ true
]

module _ {E : Type 0} (ops : TargetOutside E) where
  unfoldable pub target_db_map : TargetMng E → TargetMng E
  target_db_map t = elim (ops.rentry_mng_get t.env) [
    | none ↦ t
    | some stored ↦ record t { state = stored }
  ]

  unfoldable pub target_db_insert : TargetMng E → TargetMng E
  target_db_insert t = record t { env = ops.rentry_mng_insert t.env t.state }

  -- `none` is the panic of a target without an owner. `db_update` stores the record.
  unfoldable pub target_state_notify :
      TargetMng E → TargetState → TargetState → Option (TargetMng E)
  target_state_notify t new_state old_state =
      if ops.has_owner t.env
      then (let told =
            ops.notify t.env (target_to_unit_state old_state) (target_to_unit_state new_state) in
          some (target_db_insert (record t { env = told })))
      else none

  unfoldable pub target_set_state : TargetMng E → TargetState → Bool → Option (TargetMng E)
  target_set_state t new_state notify =
      let t1 = record t { state = new_state } in
      if notify then target_state_notify t1 new_state t.state else some t1

  unfoldable pub target_start_action : TargetMng E → Bool → Option (TargetMng E)
  target_start_action t notify = target_set_state t target_active notify

  unfoldable pub target_stop_action : TargetMng E → Bool → Option (TargetMng E)
  target_stop_action t notify = target_set_state t target_dead notify
