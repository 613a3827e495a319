-- ===== src/Job/Junit/Steps.antt =====
-- core/bin/job/junit.rs: the operations of `JobUnitData` on its own fields. What they do to the
-- jobs themselves comes last in the code, and stands in `Job.Junit.Effects`.
use sysmaster.Base.{
  Bool, true, false, not, Option, none, some, List, [], ◌∷◌, Checked, ok, panic, ◌>>=◌, ◌>>◌,
  assert, unwrap, is_some, ◌==◌, if◌then◌else◌,
}
use sysmaster.Job.Kind.{JobKind, job_is_basic_op}
use sysmaster.Job.Engine.{JobRef}
use sysmaster.Job.Junit.Data.{
  Suspends, no_suspends, get, put, values, JobUnit, calc_ready, update_ready, is_suspends_conflict,
  suspends_len, jobs_merge_suspend, sq_order, jobs_merge_trigger_prepare,
}

-- `is_trigger`: jobs are equal when their ids are.
unfoldable pub is_trigger : JobUnit → JobRef → Bool
is_trigger q job = elim q.trigger [ none ↦ false | some t ↦ t.id == job.id ]

-- The status after the suspended jobs have changed.
unfoldable pub suspends_changed : JobUnit → Suspends → Checked JobUnit
suspends_changed q s = update_ready (record q { suspends = s; order = false; dirty = true })

unfoldable pub insert_suspend_step : JobUnit → JobRef → Checked JobUnit
unfolding is_trigger suspends_changed
insert_suspend_step q job = do
  assert (job_is_basic_op job.kind)
  assert (not (is_trigger q job))
  assert (not (is_some (get q.suspends job.kind)))
  suspends_changed q (put q.suspends job.kind (some job))

unfoldable pub remove_suspend_step : JobUnit → JobKind → Checked (JobUnit × Option JobRef)
unfolding suspends_changed
remove_suspend_step q kind = do
  q' ← suspends_changed q (put q.suspends kind none)
  ok (q', get q.suspends kind)

unfoldable pub flush_suspends_step : JobUnit → Checked (JobUnit × List JobRef)
unfolding suspends_changed
flush_suspends_step q = do q' ← suspends_changed q no_suspends; ok (q', values q.suspends)

-- The suspended jobs merged and ordered, where they are not in order yet.
unfoldable pub put_in_order : JobUnit → Bool → Checked (JobUnit × List JobRef)
put_in_order q up =
    if not q.order
    then (do
      let (s, merge_jobs) = jobs_merge_suspend up q.suspends
      sq ← sq_order s
      ok (record q { suspends = s; sq = sq; order = true }, merge_jobs))
    else ok (q, [])

-- The Boolean says that the unit is active or reloading.
unfoldable pub reshuffle_step : JobUnit → Bool → Checked (JobUnit × List JobRef)
unfolding put_in_order
reshuffle_step q up = do
  assert (not (is_suspends_conflict q.suspends))
  (q1, merge_jobs) ← put_in_order q up
  q2 ← jobs_merge_trigger_prepare q1
  q3 ← update_ready q2
  ok (q3, merge_jobs)

unfoldable pub pause : JobUnit → Checked JobUnit
pause q = do assert q.order; update_ready (record q { dirty = true; pause = true })

unfoldable pub resume : JobUnit → Checked JobUnit
resume q = do assert q.order; update_ready (record q { dirty = true; pause = false })

unfoldable pub retrigger_trigger : JobUnit → Checked JobUnit
retrigger_trigger q = do
  assert (is_some q.trigger)
  assert q.order
  update_ready (record q { retrigger = true; dirty = true })

unfoldable pub insert_trigger : JobUnit → JobRef → Checked JobUnit
unfolding retrigger_trigger
insert_trigger q job = do
  assert (not (is_some q.trigger))
  assert (suspends_len q.suspends == 0)
  assert (job_is_basic_op job.kind)
  assert q.order
  q' ← retrigger_trigger (record q { trigger = some job })
  update_ready (record q' { dirty = true })

do_next_trigger_retrigger : JobUnit → Checked (JobUnit × JobRef × Option JobRef)
do_next_trigger_retrigger q = do
  t ← unwrap q.trigger
  assert q.retrigger
  assert q.order
  assert (not q.interrupt)
  q' ← update_ready (record q { retrigger = false; dirty = true })
  ok (q', t, none)

-- The first suspended job becomes the trigger; an interrupted trigger is handed back.
unfoldable pub trigger_first :
    JobUnit → JobRef → List JobRef → Checked (JobUnit × JobRef × Option JobRef)
trigger_first q j sq = do
  q' ← update_ready (record q {
    suspends = put q.suspends j.kind none;
    trigger = some j;
    sq = sq;
    interrupt = false;
    retrigger = if q.interrupt then false else q.retrigger;
    dirty = true;
  })
  ok (q', j, if q.interrupt then q.trigger else none)

do_next_trigger_suspend : JobUnit → Checked (JobUnit × JobRef × Option JobRef)
unfolding trigger_first
do_next_trigger_suspend q = elim q.sq [
  | [] ↦ panic
  | j ∷ sq ↦ assert q.order >> trigger_first q j sq
]

unfoldable pub do_next_trigger : JobUnit → Checked (JobUnit × JobRef × Option JobRef)
unfolding do_next_trigger_retrigger do_next_trigger_suspend
do_next_trigger q = calc_ready q >>= λ r. elim r [
  | none ↦ panic
  | some s ↦ if s then do_next_trigger_suspend q else do_next_trigger_retrigger q
]

-- `finish_trigger` after `Job::finish` has said whether the trigger goes on.
unfoldable pub finish_trigger_step : JobUnit → Bool → Checked (JobUnit × Option JobRef)
unfolding retrigger_trigger
finish_trigger_step q true = do
  q' ← retrigger_trigger q
  q'' ← update_ready (record q' { dirty = true })
  ok (q'', none)
finish_trigger_step q false = do
  q' ←
      update_ready (record q { interrupt = false; retrigger = false; trigger = none; dirty = true })
  ok (q', q.trigger)

unfoldable pub finish_trigger_as : JobUnit → Bool → Checked (JobUnit × Option JobRef)
unfolding finish_trigger_step
finish_trigger_as q retry = do
  assert (is_some q.trigger)
  assert q.order
  finish_trigger_step q retry

first_of : List JobRef → Checked JobRef
first_of [] = panic
first_of (j ∷ sq) = ok j

unfoldable pub get_next_trigger : JobUnit → Checked JobRef
unfolding first_of
get_next_trigger q = calc_ready q >>= λ r. elim r [
  | none ↦ panic
  | some s ↦ if s then first_of q.sq else (assert q.retrigger >> unwrap q.trigger)
]
