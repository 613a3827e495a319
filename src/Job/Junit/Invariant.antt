-- ===== src/Job/Junit/Invariant.antt =====
-- The invariant of the jobs of a unit between two operations.
use sysmaster.Base.{
  ℕ, ◌≤◌, Bool, true, false, Option, none, some, List, [], is_some, length, ◌≡◌, arith, ok, ◌⊎◌,
}
use sysmaster.Job.Kind.{JobKind, start, stop, reload, restart, verify, nop}
use sysmaster.Job.Engine.{JobRef}
use sysmaster.Job.Junit.Data.{
  Suspends, no_suspends, from_option, put, is_suspends_conflict, JobUnit, new, update_ready,
}
use sysmaster.Job.Junit.Steps.{
  insert_suspend_step, remove_suspend_step, flush_suspends_step, pause, resume, retrigger_trigger,
  insert_trigger, finish_trigger_as,
}
use sysmaster.Job.Junit.Ordering.{mutops, run_order}

abbrev OfKind : Option JobRef → JobKind → Type 0
OfKind none k = Unit
OfKind (some j) k = j.kind ≡ k

-- Each slot holds a job of its kind.
pub record IsKeyed (s : Suspends) : Type 0 where
  pub start_slot : OfKind s.on_start start
  pub stop_slot : OfKind s.on_stop stop
  pub reload_slot : OfKind s.on_reload reload
  pub restart_slot : OfKind s.on_restart restart
  pub verify_slot : OfKind s.on_verify verify
  pub nop_slot : OfKind s.on_nop nop

-- The waiting list is the order to run, or only a `nop` that a `stop` left behind is not on it.
abbrev IsListed : Suspends → List JobRef → Type 0
IsListed s sq = (sq ≡ run_order s) ⊎ ((sq ≡ []) × (run_order s ≡ from_option s.on_nop))

pub record IsConsistent (q : JobUnit) : Type 0 where
  pub keyed : IsKeyed q.suspends
  pub listed : q.order ≡ true → IsListed q.suspends q.sq
  pub single : q.order ≡ true → length (mutops q.suspends) ≤ 1
  pub peaceful : q.order ≡ true → is_suspends_conflict q.suspends ≡ false
  pub interrupted : q.interrupt ≡ true → is_some q.trigger ≡ true
  pub retriggered : q.retrigger ≡ true → is_some q.trigger ≡ true

pub new-IsConsistent : (u : ℕ) → IsConsistent (new u)
unfolding new is_suspends_conflict
new-IsConsistent u = ground arith

put-IsKeyed : (s : Suspends) (j : JobRef) → IsKeyed s → IsKeyed (put s j.kind (some j))
unfolding put
put-IsKeyed s j h = ground arith

pub remove-IsKeyed : (s : Suspends) (k : JobKind) → IsKeyed s → IsKeyed (put s k none)
unfolding put
remove-IsKeyed s k h = ground arith

pub insert_suspend_step-IsConsistent :
    (q : JobUnit) (j : JobRef) {q' : JobUnit}
    → IsConsistent q
    → insert_suspend_step q j ≡ ok q'
    → IsConsistent q'
unfolding insert_suspend_step update_ready
insert_suspend_step-IsConsistent q j h e = ground (arith, put-IsKeyed q.suspends j)

pub remove_suspend_step-IsConsistent :
    (q : JobUnit) (k : JobKind) {r : JobUnit × Option JobRef}
    → IsConsistent q
    → remove_suspend_step q k ≡ ok r
    → IsConsistent r.0
unfolding remove_suspend_step update_ready
remove_suspend_step-IsConsistent q k h e = ground (arith, remove-IsKeyed q.suspends k)

pub flush_suspends_step-IsConsistent :
    (q : JobUnit) {r : JobUnit × List JobRef}
    → IsConsistent q
    → flush_suspends_step q ≡ ok r
    → IsConsistent r.0
unfolding flush_suspends_step update_ready no_suspends
flush_suspends_step-IsConsistent q h e = ground arith

pub pause-IsConsistent :
    (q : JobUnit) {q' : JobUnit} → IsConsistent q → pause q ≡ ok q' → IsConsistent q'
unfolding pause update_ready
pause-IsConsistent q h e = ground arith

pub resume-IsConsistent :
    (q : JobUnit) {q' : JobUnit} → IsConsistent q → resume q ≡ ok q' → IsConsistent q'
unfolding resume update_ready
resume-IsConsistent q h e = ground arith

pub retrigger_trigger-IsConsistent :
    (q : JobUnit) {q' : JobUnit} → IsConsistent q → retrigger_trigger q ≡ ok q' → IsConsistent q'
unfolding retrigger_trigger update_ready
retrigger_trigger-IsConsistent q h e = ground arith

pub insert_trigger-IsConsistent :
    (q : JobUnit) (j : JobRef) {q' : JobUnit}
    → IsConsistent q
    → insert_trigger q j ≡ ok q'
    → IsConsistent q'
unfolding insert_trigger update_ready
insert_trigger-IsConsistent q j h e = ground arith

pub finish_trigger_as-IsConsistent :
    (q : JobUnit) (retry : Bool) {r : JobUnit × Option JobRef}
    → IsConsistent q
    → finish_trigger_as q retry ≡ ok r
    → IsConsistent r.0
unfolding finish_trigger_as update_ready
finish_trigger_as-IsConsistent q retry h e = ground arith
