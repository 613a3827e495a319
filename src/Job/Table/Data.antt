-- ===== src/Job/Table/Data.antt =====
-- core/bin/job/table.rs: `JobUnitTable`. The table, its queue and its callers share each `JobUnit`,
-- so an `Rc<JobUnit>` is a handle, and `uvs` says what a handle points to. Units are ordered by id.
use sysmaster.Base.{
  ℕ, ◌+◌, Bool, true, false, not, ◌&&◌, Option, none, some, List, [], ◌∷◌, Checked, ok, ◌>>◌,
  assert, is_some, is_empty, ltb, ◌==◌, if◌then◌else◌,
}
use sysmaster.Base.Maps.{id_key, find, insert, erase}
use sysmaster.Job.Kind.{JobKind}
use sysmaster.Job.Engine.{JobRef}
use sysmaster.Job.Junit.Data.{JobUnit, new, get, values, is_empty_unit}

pub record JobUnitTable : Type 0 where
  pub uvs : ℕ → JobUnit
  pub next_uv : ℕ  -- the handle of the next `Rc::new`
  pub t_data : List (ℕ × ℕ)
  pub t_ready : List (ℕ × ℕ)
  pub readys : List ℕ
  pub up_ready : Bool
  pub sync : Bool

unfoldable pub clear_table : JobUnitTable → JobUnitTable
clear_table t = record t { t_data = []; t_ready = []; readys = []; up_ready = false; sync = true }

unfoldable pub set_uv : JobUnitTable → ℕ → JobUnit → JobUnitTable
set_uv t h q = record t { uvs = λ i. if i == h then q else t.uvs i }

-- `BTreeMap::insert`, with the keys in order, and `values`.
unfoldable pub tree_insert : ℕ → ℕ → List (ℕ × ℕ) → List (ℕ × ℕ)
tree_insert u h [] = (u, h) ∷ []
tree_insert u h ((v, g) ∷ m) =
    let rest = tree_insert u h m in
    if v == u then (u, h) ∷ m else if ltb u v then (u, h) ∷ (v, g) ∷ m else (v, g) ∷ rest

unfoldable pub tree_values : List (ℕ × ℕ) → List ℕ
tree_values [] = []
tree_values ((v, g) ∷ m) = g ∷ tree_values m

-- `Vec::pop`: what is left, and the last one.
unfoldable pub pop : List ℕ → List ℕ × Option ℕ
pop [] = ([], none)
pop (h ∷ []) = ([], some h)
pop (h ∷ g ∷ hs) = let (rest, last) = pop (g ∷ hs) in (h ∷ rest, last)

unfoldable pub fill_back : (ℕ → JobUnit) → List ℕ → List (ℕ × ℕ) → List (ℕ × ℕ)
fill_back uvs [] m = m
fill_back uvs (h ∷ hs) m = fill_back uvs hs (tree_insert (uvs h).unit h m)

unfoldable pub readys_backfill : JobUnitTable → JobUnitTable
readys_backfill t =
    if not (is_empty t.readys)
    then record t { readys = []; t_ready = fill_back t.uvs t.readys t.t_ready }
    else t

unfoldable pub readys_fill : JobUnitTable → JobUnitTable
readys_fill t =
    if is_empty t.readys then record t { readys = tree_values t.t_ready; t_ready = [] } else t

unfoldable pub ready_insert : JobUnitTable → ℕ → ℕ → JobUnitTable
unfolding set_uv
ready_insert t u h =
    if not (t.uvs h).up_ready
    then (let t' = readys_backfill t in
        set_uv (record t' { t_ready = tree_insert u h t'.t_ready }) h
          (record (t'.uvs h) { up_ready = true }))
    else t

unfoldable pub ready_remove : JobUnitTable → ℕ → ℕ → JobUnitTable
unfolding set_uv
ready_remove t u h =
    if (t.uvs h).up_ready
    then (let t' = readys_backfill t in
        set_uv (record t' { t_ready = erase u t'.t_ready }) h
          (record (t'.uvs h) { up_ready = false }))
    else t

unfoldable pub ready_sync : JobUnitTable → ℕ → ℕ → JobUnitTable
ready_sync t u h = if (t.uvs h).ready then ready_insert t u h else ready_remove t u h

-- `uv.clear_up_ready()` on what `ready_pop` has found.
unfoldable pub clear_up_ready : JobUnitTable × Option ℕ → JobUnitTable × Option ℕ
unfolding set_uv
clear_up_ready (t, none) = (t, none)
clear_up_ready (t, some h) = (set_uv t h (record (t.uvs h) { up_ready = false }), some h)

unfoldable pub ready_pop : JobUnitTable → Option ℕ → JobUnitTable × Option ℕ
ready_pop t (some u) =
    let t' = readys_backfill t in
    clear_up_ready (record t' { t_ready = erase u t'.t_ready }, find u t'.t_ready)
ready_pop t none =
    let t' = readys_fill t in
    let (hs, h) = pop t'.readys in clear_up_ready (record t' { readys = hs }, h)

unfoldable pub calc_table_ready : JobUnitTable → Bool
calc_table_ready t = if t.sync then not (is_empty t.t_ready && is_empty t.readys) else false

unfoldable pub update_up_ready : JobUnitTable → JobUnitTable
unfolding calc_table_ready
update_up_ready t = record t { up_ready = calc_table_ready t }

unfoldable pub remove_unit : JobUnitTable → ℕ → JobUnitTable
remove_unit t u = record t { t_data = erase u t.t_data; t_ready = erase u t.t_ready }

unfoldable pub try_gc_empty_unit : JobUnitTable → ℕ → ℕ → Checked JobUnitTable
unfolding remove_unit
try_gc_empty_unit t u h =
    if is_empty_unit (t.uvs h)
    then (do assert (not (t.uvs h).ready); assert (not (t.uvs h).up_ready); ok (remove_unit t u))
    else ok t

-- The handle of the jobs of a unit; a unit without jobs gets a new one.
unfoldable pub get_mut_uv_pad : JobUnitTable → ℕ → JobUnitTable × ℕ
unfolding set_uv
get_mut_uv_pad t u = elim (find u t.t_data) [
  | some h ↦ (t, h)
  | none ↦ (
    record (set_uv t t.next_uv (new u)) {
      t_data = insert u t.next_uv t.t_data;
      next_uv = t.next_uv + 1;
    },
    t.next_uv,
  )
]

unfoldable pub get_suspend : JobUnitTable → ℕ → JobKind → Option JobRef
get_suspend t u kind = elim (find u t.t_data) [ some h ↦ get (t.uvs h).suspends kind | none ↦ none ]

unfoldable pub get_suspends : JobUnitTable → ℕ → List JobRef
get_suspends t u = elim (find u t.t_data) [ some h ↦ values (t.uvs h).suspends | none ↦ [] ]

-- The trigger of a unit, and whether the unit is paused.
unfoldable pub get_trigger_info : JobUnitTable → ℕ → Option (JobRef × Bool)
get_trigger_info t u = elim (find u t.t_data) [
  | some h ↦ elim (t.uvs h).trigger [ some j ↦ some (j, (t.uvs h).pause) | none ↦ none ]
  | none ↦ none
]

unfoldable pub is_unit_empty : JobUnitTable → ℕ → Bool
is_unit_empty t u = is_some (find u t.t_data)
