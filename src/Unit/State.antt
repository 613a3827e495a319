-- ===== src/Unit/State.antt =====
-- core/lib/unit/state.rs: the state of a unit as the job engine sees it, and the flags of a
-- notification.
use sysmaster.Base.{Bool, true, false}

pub data ActiveState : Type 0 where
  active reloading inactive failed activating deactivating maintenance : ActiveState

unfoldable pub is_active_or_reloading : ActiveState → Bool
is_active_or_reloading active = true
is_active_or_reloading reloading = true
is_active_or_reloading _ = false

unfoldable pub is_inactive_or_failed : ActiveState → Bool
is_inactive_or_failed inactive = true
is_inactive_or_failed failed = true
is_inactive_or_failed _ = false

unfoldable pub is_active_or_activating : ActiveState → Bool
is_active_or_activating active = true
is_active_or_activating activating = true
is_active_or_activating reloading = true
is_active_or_activating _ = false

unfoldable pub is_inactive_or_deactivating : ActiveState → Bool
is_inactive_or_deactivating inactive = true
is_inactive_or_deactivating failed = true
is_inactive_or_deactivating deactivating = true
is_inactive_or_deactivating _ = false

-- The bit set of `UnitNotifyFlags`: bit 0 is a failed reload, bit 1 an automatic restart.
pub record NotifyFlags : Type 0 where
  pub reload_failure : Bool
  pub will_auto_restart : Bool
