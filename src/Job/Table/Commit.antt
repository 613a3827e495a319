-- ===== src/Job/Table/Commit.antt =====
-- core/bin/job/table.rs: the operations of `JobTable` that change the jobs of a unit and of all units.
-- `triggered` is what a unit does when a unit that triggers it has lost a job.
use sysmaster.Base.{
  ℕ, Bool, true, false, not, ◌||◌, Option, none, some, List, [], ◌∷◌, ◌++◌, Checked, panic, ok,
  is_some, is_empty, ◌==◌, if◌then◌else◌,
}
use sysmaster.Base
use sysmaster.Base.Maps.{id_key, find}
use sysmaster.Unit.Relation.{UnitRelationAtom}
use sysmaster.Unit.Dependency.Table.{DepMap, gets_atom}
use sysmaster.Job.Kind.{JobKind}
use sysmaster.Job.Entry.{JobResult}
use sysmaster.Job.Engine.{JobRef, JobCell, UnitOps, M, ◌>>=◌, ◌>>◌, pure, lift, require}
use sysmaster.Job.Junit.Data.{is_empty_unit}
use sysmaster.Job.Junit.Effects.{Changes}
use sysmaster.Job.Table.Data.{
  JobUnitTable, ready_pop, remove_unit, get_suspend, get_suspends, get_trigger_info,
}
use sysmaster.Job.Table.Entries.{
  resume_unit, merge_units, reshuffle_all, remove_suspends, finish_unit, isolate_suspends,
  try_trigger_entry,
}
use sysmaster.Job.Table.Jobs.{
  JobTable, drop_jobs, enter_jobs, option_list, jobs_2_units, is_isolating,
}
use sysmaster.Job.Transaction.{JobMode}

-- What happens to the job of a number.
unfoldable pub table_get : JobTable → ℕ → Option JobRef
table_get t id = find id t.t_id

unfoldable pub table_is_trigger : JobTable → ℕ → Bool
unfolding table_get
table_is_trigger t id = elim (table_get t id) [
  | none ↦ false
  | some j ↦ elim (get_trigger_info t.t_unit j.unit) [ none ↦ false | some (k, p) ↦ k.id == j.id ]
]

unfoldable pub table_is_suspend : JobTable → ℕ → Bool
unfolding table_get
table_is_suspend t id = elim (table_get t id) [
  | none ↦ false
  | some j ↦ elim (get_suspend t.t_unit j.unit j.kind) [ none ↦ false | some k ↦ k.id == j.id ]
]

-- The trigger and the suspended jobs of a unit that is removed.
unfoldable pub table_remove_unit : JobTable → ℕ → JobTable × Option JobRef × List JobRef
unfolding drop_jobs
table_remove_unit t u =
    let trigger : Option JobRef = elim (get_trigger_info t.t_unit u) [
      | none ↦ none
      | some (j, p) ↦ some j
    ] in
    let suspends = get_suspends t.t_unit u in
    let t1 = drop_jobs suspends (drop_jobs (option_list trigger) t) in
    (record t1 { t_unit = remove_unit t1.t_unit u }, trigger, suspends)

-- A number of the other table that is there already.
unfoldable pub shares_id : JobTable → List (ℕ × JobRef) → Bool
shares_id t [] = false
shares_id t ((id, j) ∷ ids) = is_some (find id t.t_id) || shares_id t ids

resume_each : List ℕ → JobUnitTable → Checked JobUnitTable
resume_each [] t = ok t
resume_each (u ∷ us) t = Base.◌>>=◌ (resume_unit t u) (λ t1. resume_each us t1)

module _ {S : Type 0} where
  unfoldable pub table_merge_suspends : JobTable → JobTable → M S (JobTable × Changes)
  unfolding drop_jobs enter_jobs
  table_merge_suspends t other = do
    (t1, ch) ← merge_units t.t_unit other.t_unit
    pure (drop_jobs ch.dels (enter_jobs ch.adds (record t { t_unit = t1 })), ch)

module _ {S : Type 0} (triggered : S → ℕ → ℕ → S) (db : DepMap) where
  trigger_others : ℕ → List ℕ → S → S
  trigger_others u [] s = s
  trigger_others u (o ∷ os) s = trigger_others u os (triggered s o u)

  -- The units that are triggered by the unit, and then those that are ordered with it.
  unfoldable pub process_relation : JobTable → ℕ → M S JobTable
  unfolding trigger_others resume_each
  process_relation t u = do
    (λ w. ok (
      tt,
      record w { units = trigger_others u (gets_atom db u UnitRelationAtom.triggered_by) w.units },
    ))
    t1 ← lift (resume_each (gets_atom db u UnitRelationAtom.after) t.t_unit)
    t2 ← lift (resume_each (gets_atom db u UnitRelationAtom.before) t1)
    pure (record t { t_unit = t2 })

  process_each : List ℕ → JobTable → M S JobTable
  unfolding process_relation
  process_each [] t = pure t
  process_each (u ∷ us) t = do t1 ← process_relation t u; process_each us t1

module _ {S : Type 0} (ops : UnitOps S) (triggered : S → ℕ → ℕ → S) (db : DepMap) where
  unfoldable pub table_reshuffle : JobTable → M S (JobTable × List JobRef)
  unfolding drop_jobs
  table_reshuffle t = do
    (t1, merge_jobs) ← reshuffle_all ops t.t_unit
    pure (drop_jobs merge_jobs (record t { t_unit = t1 }), merge_jobs)

  unfoldable pub table_remove_suspends :
      JobTable → ℕ → JobKind → Option JobKind → JobResult → M S (JobTable × List JobRef)
  unfolding drop_jobs process_relation
  table_remove_suspends t u kind1 kind2 result = do
    (t1, del_jobs) ← remove_suspends ops t.t_unit u kind1 kind2 result
    let t2 = drop_jobs del_jobs (record t { t_unit = t1 })
    t3 ← (if is_empty del_jobs then pure t2 else process_relation triggered db t2 u)
    pure (t3, del_jobs)

  unfoldable pub table_finish_trigger : JobTable → ℕ → JobResult → M S (JobTable × Option JobRef)
  unfolding drop_jobs process_relation
  table_finish_trigger t u result = do
    (t1, del_trigger) ← finish_unit ops t.t_unit u result
    let t2 = drop_jobs (option_list del_trigger) (record t { t_unit = t1 })
    t3 ← (if is_some del_trigger then process_relation triggered db t2 u else pure t2)
    pure (t3, del_trigger)

  isolate_by : (ℕ → Bool) → JobTable → JobTable → JobMode → M S (JobTable × List JobRef)
  unfolding drop_jobs
  isolate_by ignore t other mode =
      if is_isolating mode
      then (do
        (t1, del_jobs) ← isolate_suspends ops ignore other.t_unit t.t_unit
        pure (drop_jobs del_jobs (record t { t_unit = t1 }), del_jobs))
      else pure (t, [])

  unfoldable pub commit_changes :
      (ℕ → Bool) → JobTable → JobTable → JobMode → M S (JobTable × Changes)
  unfolding isolate_by table_merge_suspends table_reshuffle process_each
  commit_changes ignore t other mode = do
    (t1, iso_jobs) ← isolate_by ignore t other mode
    (t2, ch) ← table_merge_suspends t1 other
    (t3, merge_jobs) ← table_reshuffle t2
    t4 ← process_each triggered db (jobs_2_units iso_jobs) t3
    t5 ← process_each triggered db (jobs_2_units ch.dels) t4
    pure (t5, record ch { dels = iso_jobs ++ (ch.dels ++ merge_jobs) })

  -- `none` is `Error::Internal`, before anything is changed.
  unfoldable pub commit :
      (ℕ → Bool) → JobTable → JobTable → JobMode → M S (JobTable × Option Changes)
  unfolding commit_changes shares_id
  commit ignore t other mode =
      if shares_id t other.t_id
      then pure (t, none)
      else (do (t1, ch) ← commit_changes ignore t other mode; pure (t1, some ch))

  unfoldable pub triggered_entry :
      JobUnitTable × Option ℕ
      → JobTable
      → M S (JobTable × Option (Option (JobRef × JobCell × Option JobResult) × Option JobRef))
  unfolding drop_jobs
  triggered_entry (t1, none) t = pure (record t { t_unit = t1 }, none)
  triggered_entry (t1, some h) t = do
    (t2, info, merge_trigger) ← try_trigger_entry ops db t1 h
    require (not (is_empty_unit (t2.uvs h)))
    pure (
      drop_jobs (option_list merge_trigger) (record t { t_unit = t2 }),
      some (info, merge_trigger),
    )

  -- A unit that is ready is triggered or paused: the trigger as it was, the result with which it has
  -- ended at once, and a trigger that was interrupted.
  unfoldable pub try_trigger :
      JobTable
      → Option ℕ
      → M S (JobTable × Option (Option (JobRef × JobCell × Option JobResult) × Option JobRef))
  unfolding triggered_entry
  try_trigger t unit = require t.t_unit.sync >> triggered_entry (ready_pop t.t_unit unit) t
