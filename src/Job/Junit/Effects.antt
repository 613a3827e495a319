-- ===== src/Job/Junit/Effects.antt =====
-- core/bin/job/junit.rs: the operations of a unit's jobs with what they do to the jobs: the cells,
-- the two databases and the units.
use sysmaster.Base.{
  Bool, true, false, not, ◌&&◌, ◌||◌, Option, none, some, List, [], ◌∷◌, ◌++◌, any, ltb,
  if◌then◌else◌,
}
use sysmaster.Unit.State.{is_active_or_reloading}
use sysmaster.Unit.Relation.{UnitRelationAtom}
use sysmaster.Job.Kind.{JobKind, stop, nop, kind_eq}
use sysmaster.Job.Entry.{JobResult, cancelled, merged, Precedence, free, later, job_order_compare}
use sysmaster.Job.Engine.{
  JobRef, JobCell, UnitOps, World, M, ◌>>=◌, ◌>>◌, pure, lift, read, require, merge_attr, wait_job,
  finish_job, run_job,
}
use sysmaster.Job.Junit.Data.{
  Suspends, from_option, get, values, JobUnit, is_suspends_conflict, is_suspends_conflict_with,
  suspends_kind_len, num_others,
}
use sysmaster.Job.Junit.Steps.{
  insert_suspend_step, remove_suspend_step, flush_suspends_step, reshuffle_step, pause,
  retrigger_trigger, do_next_trigger, finish_trigger_as, get_next_trigger,
}

-- The jobs that were added, deleted and updated.
pub record Changes : Type 0 where
  pub adds : List JobRef
  pub dels : List JobRef
  pub updates : List JobRef

abbrev is_later : Precedence → Bool
is_later later = true
is_later _ = false

abbrev is_order_atom : UnitRelationAtom → Bool
is_order_atom UnitRelationAtom.after = true
is_order_atom UnitRelationAtom.before = true
is_order_atom _ = false

module _ {S : Type 0} where
  -- `for job in jobs { job.finish(result) }`
  unfoldable pub finish_all : List JobRef → JobResult → M S (Unit {0})
  finish_all [] result = pure tt
  finish_all (j ∷ jobs) result = do _ ← finish_job j result; finish_all jobs result

  unfoldable pub insert_suspend : JobUnit → JobRef → Bool → M S JobUnit
  insert_suspend q job operate = do
    q' ← lift (insert_suspend_step q job)
    (if operate then wait_job job else pure tt)
    pure q'

  finish_option : Option JobRef → JobResult → M S (Unit {0})
  finish_option none result = pure tt
  finish_option (some j) result = do _ ← finish_job j result; pure tt

  unfoldable pub remove_suspend : JobUnit → JobKind → JobResult → M S (JobUnit × Option JobRef)
  unfolding finish_option
  remove_suspend q kind result = do
    (q', del_job) ← lift (remove_suspend_step q kind)
    finish_option del_job result
    pure (q', del_job)

  unfoldable pub flush_suspends : JobUnit → M S (JobUnit × List JobRef)
  flush_suspends q = do
    (q', del_jobs) ← lift (flush_suspends_step q)
    finish_all del_jobs cancelled
    pure (q', del_jobs)

  -- One job of the other unit: merged into the job of its kind, or added.
  merge_one : JobUnit → Changes → JobRef → M S (JobUnit × Changes)
  unfolding insert_suspend
  merge_one q ch o_job = elim (get q.suspends o_job.kind) [
    | some job ↦ do merge_attr job o_job; pure (q, record ch { updates = ch.updates ++ job ∷ [] })
    | none ↦ do
      q' ← insert_suspend q o_job true
      pure (q', record ch { adds = ch.adds ++ o_job ∷ [] })
  ]

  merge_each : JobUnit → Changes → List JobRef → M S (JobUnit × Changes)
  unfolding merge_one
  merge_each q ch [] = pure (q, ch)
  merge_each q ch (o_job ∷ jobs) = do (q', ch') ← merge_one q ch o_job; merge_each q' ch' jobs

  flush_on_conflict : JobUnit → Suspends → M S (JobUnit × List JobRef)
  unfolding flush_suspends
  flush_on_conflict q other =
      if is_suspends_conflict_with q.suspends other then flush_suspends q else pure (q, [])

  unfoldable pub merge_suspends : JobUnit → Suspends → M S (JobUnit × Changes)
  unfolding merge_each flush_on_conflict
  merge_suspends q other = do
    (q', dels) ← flush_on_conflict q other
    merge_each q' (record { adds = []; dels = dels; updates = [] }) (values other)

  unfoldable pub finish_trigger : JobUnit → JobResult → M S (JobUnit × Option JobRef)
  finish_trigger q result = elim q.trigger [
    | none ↦ require false >> pure (q, none)
    | some t ↦ do require q.order; retry ← finish_job t result; lift (finish_trigger_as q retry)
  ]

  -- `is_suspends_irreversible`
  unfoldable pub is_suspends_irreversible : World S → Suspends → Bool
  is_suspends_irreversible w s = any (λ j. (w.cells j.id).attr.irreversible) (values s)

  -- Whether the jobs of the other unit may take the place of this one's.
  unfoldable pub is_suspends_replace_with : Suspends → Suspends → M S Bool
  unfolding is_suspends_irreversible
  is_suspends_replace_with s o = do
    require (not (is_suspends_conflict s) && not (is_suspends_conflict o))
    irreversible ← read (λ w. is_suspends_irreversible w s)
    pure (
        if ltb 0 (num_others s) && ltb 0 (suspends_kind_len o stop)
        then not irreversible
        else if ltb 0 (suspends_kind_len s stop) && ltb 0 (num_others o)
        then not irreversible
        else true)

  -- `Job::is_order_with`: `later` is the positive answer.
  unfoldable pub is_order_with : JobRef → JobRef → UnitRelationAtom → M S Precedence
  is_order_with j other atom = do
    require (is_order_atom atom)
    w ← read (λ w. w)
    pure (
        if (w.cells j.id).attr.ignore_order || (w.cells other.id).attr.ignore_order
        then free
        else job_order_compare (w.cells j.id).run_kind (w.cells other.id).run_kind atom)

  waits_for_any : JobRef → List JobRef → UnitRelationAtom → M S Bool
  unfolding is_order_with
  waits_for_any j [] atom = pure false
  waits_for_any j (o ∷ os) atom = do
    p ← is_order_with j o atom
    elim (is_later p) [ true ↦ pure true | false ↦ waits_for_any j os atom ]

  unfoldable pub is_next_trigger_order_with : JobUnit → JobUnit → UnitRelationAtom → M S Bool
  unfolding waits_for_any
  is_next_trigger_order_with q other atom = do
    require (q.ready && other.order)
    job ← lift (get_next_trigger q)
    ignored ← read (λ w. (w.cells job.id).attr.ignore_order)
    if ignored then pure true else if kind_eq job.kind nop then pure true else (do
      waits ← waits_for_any job (values other.suspends) atom
      if waits then pure false else (do
        waits_too ← waits_for_any job (from_option other.trigger) atom
        pure (not waits_too)))

module _ {S : Type 0} (ops : UnitOps S) where
  unfoldable pub reshuffle : JobUnit → M S (JobUnit × List JobRef)
  reshuffle q = do
    up ← read (λ w. is_active_or_reloading (ops.active_state w.units q.unit))
    (q', merge_jobs) ← lift (reshuffle_step q up)
    finish_all merge_jobs merged
    pure (q', merge_jobs)

  -- An interrupted trigger hands its attributes to a trigger of the same kind, and ends.
  finish_old : JobRef → Option JobRef → M S (Unit {0})
  finish_old cur none = pure tt
  finish_old cur (some job) = do
    (if kind_eq job.kind cur.kind then merge_attr cur job else pure tt)
    _ ← finish_job job merged
    pure tt

  -- `do_trigger`: the cell of the new trigger before it runs, and the result with which it ends at
  -- once, if it does.
  unfoldable pub do_trigger :
      JobUnit → M S (JobUnit × (JobRef × JobCell × Option JobResult) × Option JobRef)
  unfolding finish_old
  do_trigger q = do
    (q', cur, merge_trigger) ← lift (do_next_trigger q)
    info ← read (λ w. w.cells cur.id)
    finish_old cur merge_trigger
    r ← run_job ops cur
    (elim r [
      | none ↦ pure (q', (cur, info, none), merge_trigger)
      | some (some tend_r) ↦ pure (q', (cur, info, some tend_r), merge_trigger)
      | some none ↦ do
        q2 ← lift (pause q')
        q3 ← lift (retrigger_trigger q2)
        pure (q3, (cur, info, none), merge_trigger)
    ])
