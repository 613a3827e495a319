-- ===== src/Tests/Jobs.antt =====
-- Jobs of unit 7.
use sysmaster.Base.{ℕ, true, false, Option, some, [], ◌∷◌, ok, panic, ◌>>=◌, ◌≡◌, refl, arith}
use sysmaster.Job.Kind.{JobKind, start, stop, restart, nop, job_is_basic_op}
use sysmaster.Job.Engine.{JobRef}
use sysmaster.Job.Junit.Data.{
  JobUnit, get, no_suspends, new, calc_ready, is_suspends_conflict, jobs_merge_suspend, put,
  update_ready,
}
use sysmaster.Job.Junit.Steps.{
  insert_suspend_step, do_next_trigger, reshuffle_step, flush_suspends_step,
}
use sysmaster.Job.Junit.Reshuffle.{reshuffled, reshuffle_step-reshuffled, flush-reshuffle_panic}
use sysmaster.Job.Junit.Invariant.{IsConsistent}
use sysmaster.Job.Junit.Trigger.{HasMoved, do_next_trigger-HasMoved}
use sysmaster.Job.Junit.Runs.{Reach-IsConsistent, no_jobs, followed, inserts}

abbrev job : ℕ → JobKind → JobRef
job id kind = record { id = id; unit = 7; kind = kind }

-- A start and a restart wait, not yet in order.
abbrev unordered : JobUnit
unordered = record (new 7) {
  suspends = record no_suspends {
    on_start = some (job 1 start);
    on_restart = some (job 2 restart);
  };
  order = false;
  dirty = true;
}

-- A restart waits, in order, while a start runs, which it is to interrupt.
abbrev interrupting : JobUnit
interrupting = record (new 7) {
  suspends = record no_suspends { on_restart = some (job 2 restart) };
  trigger = some (job 1 start);
  sq = job 2 restart ∷ [];
  interrupt = true;
  ready = true;
}

abbrev stopping : JobUnit
stopping = record (new 7) {
  suspends = record no_suspends { on_stop = some (job 3 stop); on_nop = some (job 4 nop) };
  sq = job 3 stop ∷ [];
  ready = true;
}

interrupting-IsConsistent : IsConsistent interrupting
unfolding new no_suspends is_suspends_conflict
interrupting-IsConsistent = ground arith

interrupting_ready : calc_ready interrupting ≡ ok (some true)
unfolding new calc_ready
interrupting_ready = refl

do_next_trigger-HasMoved_example :
    (q' : JobUnit) × (t : JobRef) × (m : Option JobRef) × (do_next_trigger interrupting
      ≡ ok (q', t, m))
    × HasMoved true interrupting q' t m
do_next_trigger-HasMoved_example =
    do_next_trigger-HasMoved interrupting true interrupting-IsConsistent interrupting_ready

reshuffle_step-reshuffled_example :
    reshuffle_step unordered true ≡ ok (reshuffled true unordered, job 1 start ∷ [])
unfolding new no_suspends is_suspends_conflict jobs_merge_suspend
reshuffle_step-reshuffled_example = reshuffle_step-reshuffled unordered true refl refl (λ e. cc)

flush-reshuffle_panic_example :
    (flush_suspends_step interrupting >>= λ r. reshuffle_step r.0 true) ≡ panic
unfolding new
flush-reshuffle_panic_example = flush-reshuffle_panic interrupting true (job 1 start) refl refl refl

Reach-IsConsistent_example : IsConsistent (record (new 7) {
  suspends = record no_suspends { on_start = some (job 1 start) };
  order = false;
  dirty = true;
  ready = false;
})
unfolding insert_suspend_step update_ready new no_suspends put get job_is_basic_op
Reach-IsConsistent_example =
    Reach-IsConsistent 7 (followed (new 7) (inserts (job 1 start) refl) no_jobs)
