-- ===== src/Job/Junit/Runs.antt =====
-- The jobs of a unit under any sequence of operations.
use sysmaster.Base.{ℕ, Bool, Option, none, some, List, ◌≡◌, refl, subst, arith, Checked, ok, panic}
use sysmaster.Job.Kind.{JobKind}
use sysmaster.Job.Engine.{JobRef}
use sysmaster.Job.Junit.Data.{JobUnit, new, calc_ready}
use sysmaster.Job.Junit.Steps.{
  insert_suspend_step, remove_suspend_step, flush_suspends_step, reshuffle_step, pause, resume,
  retrigger_trigger, insert_trigger, do_next_trigger, finish_trigger_as,
}
use sysmaster.Job.Junit.Invariant.{
  IsConsistent, new-IsConsistent, insert_suspend_step-IsConsistent,
  remove_suspend_step-IsConsistent, flush_suspends_step-IsConsistent, pause-IsConsistent,
  resume-IsConsistent, retrigger_trigger-IsConsistent, insert_trigger-IsConsistent,
  finish_trigger_as-IsConsistent,
}
use sysmaster.Job.Junit.Progress.{reshuffle_step-IsConsistent}
use sysmaster.Job.Junit.Trigger.{do_next_trigger-HasMoved}

-- Whatever `calc_ready` says, when a next trigger is chosen the unit was ready.
ready_of_next :
    (q : JobUnit) {r : JobUnit × JobRef × Option JobRef}
    → do_next_trigger q ≡ ok r
    → (b : Bool) × (calc_ready q ≡ ok (some b))
unfolding do_next_trigger
ready_of_next q e = go (calc_ready q) refl
  where
    go : (c : Checked (Option Bool)) → calc_ready q ≡ c → (b : Bool) × (calc_ready q ≡ ok (some b))
    go (ok (some b)) p = (b, p)
    go (ok none) p = absurd (ground arith)
    go panic p = absurd (ground arith)

do_next_trigger-IsConsistent :
    (q : JobUnit) {r : JobUnit × JobRef × Option JobRef}
    → IsConsistent q
    → do_next_trigger q ≡ ok r
    → IsConsistent r.0
do_next_trigger-IsConsistent q h e =
    let (b, c) = ready_of_next q e in
    let (q', t, m, p, moved) = do_next_trigger-HasMoved q b h c in
    subst IsConsistent (cc (p, e)) moved.consistent

-- One operation of the table on the jobs of a unit, where it returns.
pub data Step (q q' : JobUnit) : Type 0 where
  inserts : (j : JobRef) → insert_suspend_step q j ≡ ok q' → Step q q'
  removes : (k : JobKind) (j : Option JobRef) → remove_suspend_step q k ≡ ok (q', j) → Step q q'
  flushes : (js : List JobRef) → flush_suspends_step q ≡ ok (q', js) → Step q q'
  reshuffles : (up : Bool) (js : List JobRef) → reshuffle_step q up ≡ ok (q', js) → Step q q'
  pauses : pause q ≡ ok q' → Step q q'
  resumes : resume q ≡ ok q' → Step q q'
  retriggers : retrigger_trigger q ≡ ok q' → Step q q'
  maps : (j : JobRef) → insert_trigger q j ≡ ok q' → Step q q'
  triggers : (t : JobRef) (m : Option JobRef) → do_next_trigger q ≡ ok (q', t, m) → Step q q'
  finishes : (retry : Bool) (j : Option JobRef) → finish_trigger_as q retry ≡ ok (q', j) → Step q q'

-- The states of the jobs of unit `u`: none at first, and then any operations.
pub data Reach (u : ℕ) : JobUnit → Type 0 where
  no_jobs : Reach u (new u)
  followed : (q : JobUnit) {q' : JobUnit} → Step q q' → Reach u q → Reach u q'

Step-IsConsistent : {q q' : JobUnit} → Step q q' → IsConsistent q → IsConsistent q'
Step-IsConsistent {q} (inserts j e) h = insert_suspend_step-IsConsistent q j h e
Step-IsConsistent {q} (removes k j e) h = remove_suspend_step-IsConsistent q k h e
Step-IsConsistent {q} (flushes js e) h = flush_suspends_step-IsConsistent q h e
Step-IsConsistent {q} (reshuffles up js e) h = reshuffle_step-IsConsistent q up h e
Step-IsConsistent {q} (pauses e) h = pause-IsConsistent q h e
Step-IsConsistent {q} (resumes e) h = resume-IsConsistent q h e
Step-IsConsistent {q} (retriggers e) h = retrigger_trigger-IsConsistent q h e
Step-IsConsistent {q} (maps j e) h = insert_trigger-IsConsistent q j h e
Step-IsConsistent {q} (triggers t m e) h = do_next_trigger-IsConsistent q h e
Step-IsConsistent {q} (finishes retry j e) h = finish_trigger_as-IsConsistent q retry h e

-- Whatever the table does with the jobs of a unit, from none on: each waits under its kind, the
-- waiting list is the order to run (but for a `nop` that a `stop` has left behind), at most one
-- waiting job changes the unit's stage, a list in order has no conflict, and only a trigger that is
-- there is to be interrupted or taken again.
pub Reach-IsConsistent : (u : ℕ) {q : JobUnit} → Reach u q → IsConsistent q
Reach-IsConsistent u no_jobs = new-IsConsistent u
Reach-IsConsistent u (followed q s r) = Step-IsConsistent s (Reach-IsConsistent u r)
