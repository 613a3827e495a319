-- ===== src/Job/Junit/Reshuffle.antt =====
-- What `reshuffle` makes of the jobs of a unit, and when it does not return.
use sysmaster.Base.{
  Bool, true, false, not, ◌&&◌, ◌||◌, Option, some, List, ◌∷◌, is_some, ◌≡◌, refl, arith, Checked,
  ok, panic, ◌>>=◌, if◌then◌else◌, is_empty,
}
use sysmaster.Job.Engine.{JobRef}
use sysmaster.Job.Junit.Data.{
  no_suspends, jobs_merge_suspend, sq_order, is_suspends_conflict, JobUnit, has_stop_ability,
  update_ready, jobs_merge_trigger_prepare,
}
use sysmaster.Job.Junit.Steps.{reshuffle_step, put_in_order, flush_suspends_step, suspends_changed}
use sysmaster.Job.Junit.Ordering.{
  merged, merged_away, run_order, jobs_merge_suspend-merged_away, jobs_merge_suspend_lem,
  sq_order-merged,
}

-- The trigger is to be interrupted when the first waiting job stops the unit; with no trigger or
-- no waiting job the flag stays.
abbrev pub interrupts : Option JobRef → List JobRef → Bool → Bool
interrupts (some t) (j ∷ sq) old = has_stop_ability j.kind
interrupts _ _ old = old

-- Something can be triggered: the first waiting job, or the trigger again.
abbrev pub can_run : JobUnit → Bool
can_run q =
    not q.pause
    && (if is_some q.trigger
        then (if is_empty q.sq then q.retrigger else (q.interrupt || q.retrigger))
        else not (is_empty q.sq))

-- The flags are those that the two lists call for.
abbrev pub settled : JobUnit → JobUnit
settled q = record q { interrupt = interrupts q.trigger q.sq q.interrupt }

abbrev pub reshuffled : Bool → JobUnit → JobUnit
reshuffled up q =
    let q' = settled (record q {
      suspends = merged up q.suspends;
      sq = run_order (merged up q.suspends);
      order = true;
    }) in
    record q' { ready = can_run q' }

pub prepare-settled :
    {B : Type 0} (q : JobUnit) (f : JobUnit → Checked B)
    → q.order ≡ true
    → (q.interrupt ≡ true → (is_some q.trigger ≡ true) × (is_empty q.sq ≡ false))
    → (jobs_merge_trigger_prepare q >>= λ q2. update_ready q2 >>= f)
      ≡ f (record (settled q) { ready = can_run (settled q) })
unfolding jobs_merge_trigger_prepare update_ready
prepare-settled q f o h = ground arith

pub put_in_order-merged :
    (q : JobUnit) (up : Bool)
    → q.order ≡ false
    → put_in_order q up
      ≡ ok (
        record q {
          suspends = merged up q.suspends;
          sq = run_order (merged up q.suspends);
          order = true;
        },
        merged_away up q.suspends,
      )
unfolding put_in_order
put_in_order-merged q up o = rw (
  o,
  jobs_merge_suspend_lem up q.suspends,
  jobs_merge_suspend-merged_away up q.suspends,
  sq_order-merged up q.suspends,
)

-- A unit whose jobs do not conflict and are not in order is put in order: the suspended jobs are
-- merged, the waiting ones stand in the order to run, the starts and reloads
-- that have lost their slots in the merge are handed back, and
-- the flags are those of the new lists. If the trigger is marked to be interrupted, this needs a
-- trigger, and a job that still waits after the merge.
pub reshuffle_step-reshuffled :
    (q : JobUnit) (up : Bool)
    → is_suspends_conflict q.suspends ≡ false
    → q.order ≡ false
    → (q.interrupt ≡ true
        → (is_some q.trigger ≡ true) × (is_empty (run_order (merged up q.suspends)) ≡ false))
    → reshuffle_step q up ≡ ok (reshuffled up q, merged_away up q.suspends)
unfolding reshuffle_step
reshuffle_step-reshuffled q up c o h =
    rw (c, put_in_order-merged q up o)
      (prepare-settled
        (record q {
          suspends = merged up q.suspends;
          sq = run_order (merged up q.suspends);
          order = true;
        })
        (λ q3. ok (q3, merged_away up q.suspends)) refl h)

-- When the last waiting job of a unit is taken away while it is to interrupt the trigger, the next
-- `reshuffle` does not return: an assertion fails.
pub flush-reshuffle_panic :
    (q : JobUnit) (up : Bool) (t : JobRef)
    → q.trigger ≡ some t
    → q.pause ≡ false
    → q.interrupt ≡ true
    → (flush_suspends_step q >>= λ r. reshuffle_step r.0 up) ≡ panic
unfolding flush_suspends_step suspends_changed update_ready reshuffle_step put_in_order no_suspends
    is_suspends_conflict jobs_merge_suspend sq_order jobs_merge_trigger_prepare
flush-reshuffle_panic q up t e p i = ground arith
