-- ===== src/Job/Table/Jobs.antt =====
-- core/bin/job/table.rs: `JobTable`, which keeps the jobs by number beside those of the units.
-- `triggered` is what a unit does when another one that it triggers has lost a job.
use sysmaster.Base.{
  ℕ, zero, suc, Bool, true, false, not, ◌||◌, ◌&&◌, Option, none, some, List, [], ◌∷◌, ◌++◌,
  Checked, panic, ok, is_some, is_empty, length, any, ◌==◌, if◌then◌else◌,
}
use sysmaster.Base
use sysmaster.Base.Maps.{id_key, find, insert, erase}
use sysmaster.Job.Kind.{JobKind, nop, kind_eq, new_attr}
use sysmaster.Job.Entry.{init, wait, running, job_rkind_new}
use sysmaster.Job.Engine.{JobRef, M, ◌>>=◌, ◌>>◌, pure, lift, read, require, set_cell, is_init}
use sysmaster.Job.Alloc.{JobAllocData, alloc_id}
use sysmaster.Job.Junit.Data.{JobUnit, is_suspends_conflict, is_suspends_conflict_with}
use sysmaster.Job.Junit.Effects.{is_suspends_replace_with}
use sysmaster.Job.Table.Data.{JobUnitTable, clear_table, get_suspend, get_trigger_info}
use sysmaster.Job.Table.Entries.{map_trigger, add_suspend}
use sysmaster.Job.Transaction.{JobMode, isolate, flush, replace_irreversible, ignore_dependencies}

pub record JobTable : Type 0 where
  pub t_id : List (ℕ × JobRef)
  pub t_unit : JobUnitTable

unfoldable pub clear_jobs : JobTable → JobTable
clear_jobs t = record { t_id = []; t_unit = clear_table t.t_unit }

forget_ids : List JobRef → List (ℕ × JobRef) → List (ℕ × JobRef)
forget_ids [] ids = ids
forget_ids (j ∷ js) ids = forget_ids js (erase j.id ids)

enter_ids : List JobRef → List (ℕ × JobRef) → List (ℕ × JobRef)
enter_ids [] ids = ids
enter_ids (j ∷ js) ids = enter_ids js (insert j.id j ids)

-- The numbers of jobs are synchronized with the units' jobs.
unfoldable pub drop_jobs : List JobRef → JobTable → JobTable
unfolding forget_ids
drop_jobs js t = record t { t_id = forget_ids js t.t_id }

unfoldable pub enter_jobs : List JobRef → JobTable → JobTable
unfolding enter_ids
enter_jobs js t = record t { t_id = enter_ids js t.t_id }

abbrev pub option_list : {A : Type 0} → Option A → List A
option_list none = []
option_list (some a) = a ∷ []

-- `jobs_2_units`: the units of some jobs, each once.
unfoldable pub jobs_2_units : List JobRef → List ℕ
jobs_2_units [] = []
jobs_2_units (j ∷ js) =
    let us = jobs_2_units js in if any (λ u. u == j.unit) us then us else j.unit ∷ us

abbrev is_ignore_dependencies : JobMode → Bool
is_ignore_dependencies ignore_dependencies = true
is_ignore_dependencies _ = false

abbrev is_replace_irreversible : JobMode → Bool
is_replace_irreversible replace_irreversible = true
is_replace_irreversible _ = false

abbrev pub is_isolating : JobMode → Bool
is_isolating isolate = true
is_isolating flush = true
is_isolating _ = false

-- `JobUnitTable`: the questions about all units.
unfoldable pub any_conflict : (ℕ → JobUnit) → List (ℕ × ℕ) → Bool
any_conflict uvs [] = false
any_conflict uvs ((u, h) ∷ es) = is_suspends_conflict (uvs h).suspends || any_conflict uvs es

unfoldable pub table_is_conflict : JobUnitTable → Bool
unfolding any_conflict
table_is_conflict t = any_conflict t.uvs t.t_data

unfoldable pub any_conflict_with : JobUnitTable → JobUnitTable → List (ℕ × ℕ) → Bool
any_conflict_with t other [] = false
any_conflict_with t other ((u, h) ∷ es) =
    let rest = any_conflict_with t other es in
    elim (find u other.t_data) [
      | none ↦ rest
      | some o ↦ is_suspends_conflict_with (t.uvs h).suspends (other.uvs o).suspends || rest
    ]

unfoldable pub table_is_conflict_with : JobUnitTable → JobUnitTable → Bool
unfolding any_conflict_with
table_is_conflict_with t other = any_conflict_with t other t.t_data

module _ {S : Type 0} where
  replace_each : JobUnitTable → JobUnitTable → List (ℕ × ℕ) → M S Bool
  replace_each t other [] = pure true
  replace_each t other ((u, h) ∷ es) = elim (find u other.t_data) [
    | none ↦ replace_each t other es
    | some o ↦ do
      b ← is_suspends_replace_with (t.uvs h).suspends (other.uvs o).suspends
      elim b [ true ↦ replace_each t other es | false ↦ pure false ]
  ]

  unfoldable pub table_is_replace_with : JobUnitTable → JobUnitTable → M S Bool
  unfolding replace_each
  table_is_replace_with t other = replace_each t other t.t_data

  -- `JobAlloc::alloc` and `Job::new`: a new job, with its cell. The search for its number ends while
  -- fewer than 2^32 are taken; for ever is a panic here.
  unfoldable pub alloc : JobAllocData → ℕ → JobKind → M S (JobAllocData × JobRef)
  alloc ja u kind = do
    (id, ja1) ← lift (Base.unwrap (alloc_id (suc (length ja.ids)) ja))
    set_cell id (record { attr = new_attr; run_kind = job_rkind_new kind; stage = init })
    pure (ja1, record { id = id; unit = u; kind = kind })

  unfoldable pub init_attr : JobRef → JobMode → M S (Unit {0})
  init_attr j mode = do
    c ← read (λ w. w.cells j.id)
    require (is_init c.stage)
    set_cell j.id (record c {
      attr = record c.attr {
        ignore_order =
            if is_ignore_dependencies mode || kind_eq j.kind nop then true else c.attr.ignore_order;
        irreversible = if is_replace_irreversible mode then true else c.attr.irreversible;
      };
    })

  -- `insert_suspend` and `insert_trigger`, whose callers unwrap the result.
  unfoldable pub table_insert_suspend : JobTable → JobRef → M S JobTable
  unfolding enter_jobs
  table_insert_suspend t j = do
    require (not (is_some (find j.id t.t_id)))
    let old = get_suspend t.t_unit j.unit j.kind
    t1 ← add_suspend t.t_unit j
    require (not (is_some old))
    pure (enter_jobs (j ∷ []) (record t { t_unit = t1 }))

  unfoldable pub table_insert_trigger : JobTable → JobRef → M S JobTable
  unfolding enter_jobs
  table_insert_trigger t j = do
    require (not (is_some (find j.id t.t_id)))
    let old = get_trigger_info t.t_unit j.unit
    t1 ← lift (map_trigger t.t_unit j)
    require (not (is_some old))
    pure (enter_jobs (j ∷ []) (record t { t_unit = t1 }))

  -- A job that the database has is restored.
  unfoldable pub rentry_map_suspend :
      JobTable → JobAllocData → ℕ → JobKind → M S (JobTable × JobAllocData × JobRef)
  rentry_map_suspend t ja u kind = do
    (ja1, j) ← alloc ja u kind
    c ← read (λ w. w.cells j.id)
    db ← read (λ w. w.suspends_db u kind)
    attr ← lift (Base.unwrap db)
    set_cell j.id (record c { stage = wait; attr = attr })
    t1 ← table_insert_suspend t j
    pure (t1, ja1, j)

  unfoldable pub rentry_map_trigger :
      JobTable → JobAllocData → ℕ → JobKind → M S (JobTable × JobAllocData × JobRef)
  rentry_map_trigger t ja u kind = do
    (ja1, j) ← alloc ja u kind
    c ← read (λ w. w.cells j.id)
    db ← read (λ w. w.trigger_db u)
    (k, attr) ← lift (Base.unwrap db)
    require (kind_eq k kind)
    set_cell j.id (record c { stage = running; attr = attr })
    t1 ← table_insert_trigger t j
    pure (t1, ja1, j)

  -- Whether the job is a new one.
  unfoldable pub table_record_suspend :
      JobTable → JobAllocData → ℕ → JobKind → JobMode → M S (JobTable × JobAllocData × Bool)
  unfolding alloc init_attr table_insert_suspend
  table_record_suspend t ja u kind mode = elim (get_suspend t.t_unit u kind) [
    | some old ↦ pure (t, ja, false)
    | none ↦ do
      (ja1, j) ← alloc ja u kind
      init_attr j mode
      t1 ← table_insert_suspend t j
      pure (t1, ja1, true)
  ]
