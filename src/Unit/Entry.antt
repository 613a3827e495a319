-- ===== src/Unit/Entry.antt =====
-- core/bin/unit/entry/uentry.rs and condition.rs, and libs/basic/src/condition.rs: the conditions of a
-- unit, and the guards of its start, stop and reload. The sub-unit behind it is an interface.
pub mod Started
use sysmaster.Base.{
  ℕ, zero, suc, Bool, true, false, not, ◌&&◌, ◌||◌, Option, none, some, List, [], ◌∷◌,
  if◌then◌else◌,
}
use sysmaster.Unit.State.{
  ActiveState, active, reloading, inactive, failed, activating, maintenance, is_active_or_reloading,
}
use sysmaster.Event.Clock.{ℤ, pos, negsuc}
use sysmaster.Job.Entry.{ActionError, ealready, eagain, einval, ebadr, enoexec, eopnotsupp}

pub data UnitLoadState : Type 0 where
  stub loaded not_found load_error merged masked : UnitLoadState

-- `has_params` says that the parameters are not empty, `found` what the system answers.
pub record Condition : Type 0 where
  pub trigger : Bool
  pub revert : Bool
  pub has_params : Bool
  pub found : Bool

-- `as i8`
abbrev to_i8 : Bool → ℤ
to_i8 false = pos 0
to_i8 true = pos 1

-- `!` of an `i8`: of each bit.
abbrev complement : ℤ → ℤ
complement (pos n) = negsuc n
complement (negsuc n) = pos n

abbrev is_positive : ℤ → Bool
is_positive (pos zero) = false
is_positive (pos (suc n)) = true
is_positive (negsuc n) = false

unfoldable pub test : Condition → Bool
test c =
    if not c.has_params
    then true
    else is_positive (if c.revert then complement (to_i8 c.found) else to_i8 c.found)

-- The loop, from its `trigger_flag` and `ret` on.
unfoldable pub test_from : Bool → Bool → List Condition → Bool
test_from flag ret [] = ret
test_from flag ret (c ∷ cs) =
    if not c.trigger && not (test c)
    then false
    else if c.trigger && not flag
    then test_from (test c) (test c) cs
    else test_from flag ret cs

unfoldable pub condition_vec_test : List Condition → Bool
condition_vec_test cs = test_from false true cs

-- What the unit asks of its sub-unit, whose calls give an error or none.
pub record SubUnit (S : Type 0) : Type 0 where
  pub current_active_state : S → ActiveState
  pub start : S → S × Option ActionError
  pub stop : S → Bool → S × Option ActionError
  pub can_reload : S → Bool
  pub reload : S → S × Option ActionError
  pub notify : S → ActiveState → S

abbrev is_maintenance : ActiveState → Bool
is_maintenance maintenance = true
is_maintenance _ = false

abbrev is_activating : ActiveState → Bool
is_activating activating = true
is_activating _ = false

abbrev pub is_loaded : UnitLoadState → Bool
is_loaded loaded = true
is_loaded _ = false

abbrev is_down_or_failed : ActiveState → Bool
is_down_or_failed inactive = true
is_down_or_failed failed = true
is_down_or_failed _ = false

abbrev is_reloading : ActiveState → Bool
is_reloading reloading = true
is_reloading _ = false

abbrev is_active : ActiveState → Bool
is_active active = true
is_active _ = false

module _ {S : Type 0} (sub : SubUnit S) where
  unfoldable pub unit_start :
      UnitLoadState → List Condition → List Condition → S → S × Option ActionError
  unit_start load conditions asserts s =
      let state = sub.current_active_state s in
      if is_active_or_reloading state
      then (s, some ealready)
      else if is_maintenance state
      then (s, some eagain)
      else if not (is_loaded load)
      then (s, some einval)
      else if not (is_activating state) && not (condition_vec_test conditions)
      then (s, some einval)
      else if not (is_activating state) && not (condition_vec_test asserts)
      then (s, some einval)
      else sub.start s

  unfoldable pub unit_stop : Bool → S → S × Option ActionError
  unit_stop force s =
      if not force && is_down_or_failed (sub.current_active_state s)
      then (s, some ealready)
      else sub.stop s force

  take_unsupported : S → ActiveState → Option ActionError → S × Option ActionError
  take_unsupported s state (some eopnotsupp) = (sub.notify s state, none)
  take_unsupported s state e = (s, e)

  unfoldable pub unit_reload : S → S × Option ActionError
  unfolding take_unsupported
  unit_reload s =
      let state = sub.current_active_state s in
      if not (sub.can_reload s)
      then (s, some ebadr)
      else if is_reloading state
      then (s, some eagain)
      else if not (is_active state)
      then (s, some enoexec)
      else (let (s1, e) = sub.reload s in take_unsupported s1 state e)
