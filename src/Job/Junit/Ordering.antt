-- ===== src/Job/Junit/Ordering.antt =====
-- What the suspended jobs of a unit become when they are merged and put in order.
use sysmaster.Base.{
  ◌+◌, Bool, not, ◌&&◌, ◌||◌, Option, none, List, [], ◌++◌, is_some, length, ◌≡◌, arith, ok,
  if◌then◌else◌,
}
use sysmaster.Job.Engine.{JobRef}
use sysmaster.Job.Junit.Data.{Suspends, suspends_len, jobs_merge_suspend, sq_order, from_option}

-- The jobs that change the stage of a unit, as many of them as there are.
abbrev pub mutops : Suspends → List JobRef
mutops s = from_option s.on_restart ++ (from_option s.on_start ++ from_option s.on_reload)

-- The order in which the suspended jobs are to run.
abbrev pub run_order : Suspends → List JobRef
run_order s =
    if is_some s.on_stop
    then from_option s.on_stop
    else mutops s ++ (from_option s.on_verify ++ from_option s.on_nop)

-- The merge, slot by slot: with no `stop`, a `restart` takes the place of `start` and `reload`, and
-- of these two the one that fits the unit's state stays; what the merge takes out it hands back.
abbrev pub merged : Bool → Suspends → Suspends
merged up s = record s {
  on_start =
      if not (is_some s.on_stop) && (is_some s.on_restart || (up && is_some s.on_reload))
      then none
      else s.on_start;
  on_reload =
      if not (is_some s.on_stop) && (is_some s.on_restart || (not up && is_some s.on_start))
      then none
      else s.on_reload;
}

pub jobs_merge_suspend_lem : (up : Bool) (s : Suspends) → (jobs_merge_suspend up s).0 ≡ merged up s
unfolding jobs_merge_suspend
jobs_merge_suspend_lem up s = ground arith

-- The jobs of the slots that are empty after a merge.
abbrev pub taken_out : Option JobRef → Option JobRef → List JobRef
taken_out old new = if is_some new then [] else from_option old

-- What a merge hands back: the starts and reloads that have lost their slots.
abbrev pub merged_away : Bool → Suspends → List JobRef
merged_away up s =
    taken_out s.on_start (merged up s).on_start ++ taken_out s.on_reload (merged up s).on_reload

pub jobs_merge_suspend-merged_away :
    (up : Bool) (s : Suspends) → (jobs_merge_suspend up s).1 ≡ merged_away up s
unfolding jobs_merge_suspend
jobs_merge_suspend-merged_away up s = ground arith

-- No job is lost: those that stay and those that are handed back are as many as before.
pub jobs_merge_suspend_len :
    (up : Bool) (s : Suspends)
    → suspends_len (jobs_merge_suspend up s).0 + length (jobs_merge_suspend up s).1 ≡ suspends_len s
unfolding jobs_merge_suspend suspends_len
jobs_merge_suspend_len up s = ground arith

-- After the merge the order always exists: neither assertion on the length fails.
pub sq_order-merged :
    (up : Bool) (s : Suspends) → sq_order (merged up s) ≡ ok (run_order (merged up s))
unfolding sq_order
sq_order-merged up s = ground arith
