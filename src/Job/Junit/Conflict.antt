-- ===== src/Job/Junit/Conflict.antt =====
-- When the suspended jobs of a unit conflict, and what merging them leaves.
use sysmaster.Base.{Bool, ◌&&◌, ◌||◌, is_some, ◌≡◌, arith}
use sysmaster.Job.Junit.Data.{
  Suspends, is_suspends_conflict, is_suspends_conflict_with, suspends_len, num_others,
}

-- A job that neither stops nor does nothing.
abbrev pub has_other : Suspends → Bool
has_other s =
    is_some s.on_start || is_some s.on_reload || is_some s.on_restart || is_some s.on_verify

-- The jobs of a unit conflict exactly when one stops the unit and another is neither `stop` nor `nop`.
pub is_suspends_conflict_lem :
    (s : Suspends) → is_suspends_conflict s ≡ (is_some s.on_stop && has_other s)
unfolding is_suspends_conflict num_others suspends_len
is_suspends_conflict_lem s = ground arith

-- The jobs of two units, taken together, conflict exactly when one of them stops the unit and another
-- is neither `stop` nor `nop`, on whichever side they are.
pub is_suspends_conflict_with_lem :
    (s o : Suspends)
    → is_suspends_conflict_with s o
      ≡ ((is_some s.on_stop || is_some o.on_stop) && (has_other s || has_other o))
unfolding is_suspends_conflict_with num_others suspends_len
is_suspends_conflict_with_lem s o = ground arith
