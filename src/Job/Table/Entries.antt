-- ===== src/Job/Table/Entries.antt =====
-- core/bin/job/table.rs: the operations of `JobUnitTable` on the jobs of a unit and on those of every
-- unit. `deps` is the table of dependencies, and `ignore` the `IgnoreOnIsolate` of a unit's
-- configuration.
use sysmaster.Base.{
  ℕ, Bool, true, false, not, Option, none, some, List, [], ◌∷◌, ◌++◌, Checked, ok, is_some,
  if◌then◌else◌,
}
use sysmaster.Base
use sysmaster.Base.Maps.{id_key, find}
use sysmaster.Unit.Relation.{UnitRelationAtom, after, before}
use sysmaster.Unit.Dependency.Table.{DepMap, gets_atom}
use sysmaster.Job.Kind.{JobKind}
use sysmaster.Job.Entry.{JobResult}
use sysmaster.Job.Engine.{JobRef, JobCell, UnitOps, M, ◌>>=◌, ◌>>◌, pure, lift, require}
use sysmaster.Job.Junit.Data.{JobUnit}
use sysmaster.Job.Junit.Steps.{pause, resume, insert_trigger}
use sysmaster.Job.Junit.Effects.{
  Changes, insert_suspend, merge_suspends, remove_suspend, flush_suspends, finish_trigger,
  reshuffle, do_trigger, is_next_trigger_order_with,
}
use sysmaster.Job.Table.Data.{JobUnitTable, get_mut_uv_pad, set_uv, ready_sync, try_gc_empty_unit}

-- `ready_sync` and `clear_dirty` of a unit whose jobs have become `q`.
unfoldable pub sync_entry : JobUnitTable → ℕ → ℕ → JobUnit → JobUnitTable
sync_entry t u h q =
    let t' = ready_sync (set_uv t h q) u h in set_uv t' h (record (t'.uvs h) { dirty = false })

unfoldable pub resume_entry : JobUnitTable → ℕ → ℕ → Checked JobUnitTable
unfolding sync_entry
resume_entry t u h =
    Base.◌>>◌ (Base.assert (not (t.uvs h).dirty)) (
      if (t.uvs h).pause
      then Base.◌>>=◌ (resume (t.uvs h)) (λ q. ok (sync_entry t u h q))
      else ok t)

unfoldable pub resume_unit : JobUnitTable → ℕ → Checked JobUnitTable
unfolding resume_entry
resume_unit t u = elim (find u t.t_data) [ some h ↦ resume_entry t u h | none ↦ ok t ]

-- `insert_trigger` of the table.
unfoldable pub map_trigger : JobUnitTable → JobRef → Checked JobUnitTable
map_trigger t job =
    let (t1, h) = get_mut_uv_pad t job.unit in
    Base.◌>>=◌ (insert_trigger (t1.uvs h) job)
      (λ q. Base.◌>>◌ (Base.assert q.dirty) (ok (record (set_uv t1 h q) { sync = false })))

abbrev append_changes : Changes → Changes → Changes
append_changes c d = record {
  adds = c.adds ++ d.adds;
  dels = c.dels ++ d.dels;
  updates = c.updates ++ d.updates;
}

module _ {S : Type 0} where
  -- `insert_suspend` of the table; the job does not begin to wait.
  unfoldable pub add_suspend : JobUnitTable → JobRef → M S JobUnitTable
  add_suspend t job =
      let (t1, h) = get_mut_uv_pad t job.unit in
      do
        q ← insert_suspend (t1.uvs h) job false
        require q.dirty
        pure (record (set_uv t1 h q) { sync = false })

  merge_each_unit :
      JobUnitTable → JobUnitTable → Changes → List (ℕ × ℕ) → M S (JobUnitTable × Changes)
  merge_each_unit other t ch [] = pure (t, ch)
  merge_each_unit other t ch ((u, o) ∷ es) =
      let (t1, h) = get_mut_uv_pad t u in
      do
        (q, c) ← merge_suspends (t1.uvs h) (other.uvs o).suspends
        merge_each_unit other (set_uv t1 h q) (append_changes ch c) es

  -- `merge_suspends` of the table: the jobs of each unit of the other one.
  unfoldable pub merge_units : JobUnitTable → JobUnitTable → M S (JobUnitTable × Changes)
  unfolding merge_each_unit
  merge_units t other = do
    (t', ch) ← merge_each_unit other t (record { adds = []; dels = []; updates = [] }) other.t_data
    pure (record t' { sync = false }, ch)

module _ {S : Type 0} (ops : UnitOps S) where
  unfoldable pub reshuffle_entry : JobUnitTable → ℕ → ℕ → M S (JobUnitTable × List JobRef)
  unfolding sync_entry
  reshuffle_entry t u h =
      if (t.uvs h).dirty
      then (do (q, merge_jobs) ← reshuffle ops (t.uvs h); pure (sync_entry t u h q, merge_jobs))
      else pure (t, [])

  reshuffle_each : JobUnitTable → List (ℕ × ℕ) → M S (JobUnitTable × List JobRef)
  unfolding reshuffle_entry
  reshuffle_each t [] = pure (t, [])
  reshuffle_each t ((u, h) ∷ es) = do
    (t1, jobs) ← reshuffle_entry t u h
    t2 ← lift (try_gc_empty_unit t1 u h)
    (t3, more) ← reshuffle_each t2 es
    pure (t3, jobs ++ more)

  -- `JobUnitTable::reshuffle`, over the units that are there at first.
  unfoldable pub reshuffle_all : JobUnitTable → M S (JobUnitTable × List JobRef)
  unfolding reshuffle_each
  reshuffle_all t = do
    (t', merge_jobs) ← reshuffle_each t t.t_data
    pure (record t' { sync = true }, merge_jobs)

  remove_second : JobUnit → Option JobKind → JobResult → List JobRef → M S (JobUnit × List JobRef)
  remove_second q none result jobs = pure (q, jobs)
  remove_second q (some kind2) result jobs = do
    (q', j2) ← remove_suspend q kind2 result
    pure (q', elim j2 [ some j ↦ jobs ++ j ∷ [] | none ↦ jobs ])

  unfoldable pub remove_entry :
      JobUnitTable → ℕ → ℕ → JobKind → Option JobKind → JobResult → M S (JobUnitTable × List JobRef)
  unfolding remove_second reshuffle_entry
  remove_entry t u h kind1 kind2 result = do
    require (not (t.uvs h).dirty)
    (q1, j1) ← remove_suspend (t.uvs h) kind1 result
    (q2, del_jobs) ← remove_second q1 kind2 result (elim j1 [ some j ↦ j ∷ [] | none ↦ [] ])
    (t', merge_jobs) ← reshuffle_entry (set_uv t h q2) u h
    pure (t', del_jobs)

  unfoldable pub remove_suspends :
      JobUnitTable → ℕ → JobKind → Option JobKind → JobResult → M S (JobUnitTable × List JobRef)
  unfolding remove_entry
  remove_suspends t u kind1 kind2 result = require t.sync >> (elim (find u t.t_data) [
    | none ↦ pure (t, [])
    | some h ↦ do
      (t1, del_jobs) ← remove_entry t u h kind1 kind2 result
      t2 ← lift (try_gc_empty_unit t1 u h)
      pure (t2, del_jobs)
  ])

  unfoldable pub finish_entry :
      JobUnitTable → ℕ → ℕ → JobResult → M S (JobUnitTable × Option JobRef)
  unfolding sync_entry
  finish_entry t u h result = do
    require (not (t.uvs h).dirty)
    (q, del_trigger) ← finish_trigger (t.uvs h) result
    pure (sync_entry t u h q, del_trigger)

  -- `JobUnitTable::finish_trigger`
  unfoldable pub finish_unit : JobUnitTable → ℕ → JobResult → M S (JobUnitTable × Option JobRef)
  unfolding finish_entry
  finish_unit t u result = require t.sync >> (elim (find u t.t_data) [
    | none ↦ require false >> pure (t, none)
    | some h ↦ do
      require (is_some (t.uvs h).trigger)
      (t1, del_trigger) ← finish_entry t u h result
      t2 ← lift (try_gc_empty_unit t1 u h)
      pure (t2, del_trigger)
  ])

  -- Units that are ignored or have jobs in the other table keep theirs.
  isolate_each :
      (ℕ → Bool) → JobUnitTable → JobUnitTable → List (ℕ × ℕ) → M S (JobUnitTable × List JobRef)
  isolate_each ignore other t [] = pure (t, [])
  isolate_each ignore other t ((u, h) ∷ es) = elim (ignore u) [
    | true ↦ isolate_each ignore other t es
    | false ↦ elim (is_some (find u other.t_data)) [
      | true ↦ isolate_each ignore other t es
      | false ↦ do
        (q, jobs) ← flush_suspends (t.uvs h)
        require q.dirty
        (t', more) ← isolate_each ignore other (set_uv t h q) es
        pure (t', jobs ++ more)
    ]
  ]

  unfoldable pub isolate_suspends :
      (ℕ → Bool) → JobUnitTable → JobUnitTable → M S (JobUnitTable × List JobRef)
  unfolding isolate_each
  isolate_suspends ignore other t = do
    (t', del_jobs) ← isolate_each ignore other t t.t_data
    pure (record t' { sync = false }, del_jobs)

  in_order_with : JobUnitTable → JobUnit → UnitRelationAtom → List ℕ → M S Bool
  in_order_with t q atom [] = pure true
  in_order_with t q atom (u ∷ us) = elim (find u t.t_data) [
    | none ↦ in_order_with t q atom us
    | some g ↦ do
      b ← is_next_trigger_order_with q (t.uvs g) atom
      elim b [ true ↦ in_order_with t q atom us | false ↦ pure false ]
  ]

  unfoldable pub is_uv_runnable : DepMap → JobUnitTable → JobUnit → M S Bool
  unfolding in_order_with
  is_uv_runnable deps t q = do
    b ← in_order_with t q after (gets_atom deps q.unit after)
    elim b [ true ↦ in_order_with t q before (gets_atom deps q.unit before) | false ↦ pure false ]

  -- `try_trigger_entry`: the unit is triggered if the order allows it, and paused otherwise.
  unfoldable pub try_trigger_entry :
      DepMap
      → JobUnitTable
      → ℕ
      → M S (JobUnitTable × Option (JobRef × JobCell × Option JobResult) × Option JobRef)
  unfolding is_uv_runnable
  try_trigger_entry deps t h = do
    require (not (t.uvs h).dirty)
    runnable ← is_uv_runnable deps t (t.uvs h)
    (q, info, merge_trigger) ← (elim runnable [
      | true ↦ do
        (q, info, merge_trigger) ← do_trigger ops (t.uvs h)
        pure (q, some info, merge_trigger)
      | false ↦ do q ← lift (pause (t.uvs h)); pure (q, none, none)
    ])
    require (not q.ready)
    pure (set_uv t h (record q { dirty = false }), info, merge_trigger)
