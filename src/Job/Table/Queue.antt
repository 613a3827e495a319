-- ===== src/Job/Table/Queue.antt =====
-- The queue of ready units, which is kept in two containers, read as one map from units to handles.
use sysmaster.Base.{
  ap, ℕ, Bool, true, false, not, ◌&&◌, Option, none, some, List, [], ◌∷◌, ◌++◌, is_some, is_empty,
  ◌==◌, ==_iff, if◌then◌else◌, ◌≡◌, refl, ◌∙◌, subst, arith, Bool-cases, Option-cases, inl, inr,
}
use sysmaster.Base.Maps.{id_key, find, erase, find-erase}
use sysmaster.Job.Table.Data.{
  JobUnitTable, set_uv, tree_insert, tree_values, pop, readys_backfill, readys_fill, ready_insert,
  ready_remove, ready_sync, clear_up_ready, ready_pop, calc_table_ready, remove_unit,
}

-- The handle under which a unit is queued.
unfoldable pub queued : JobUnitTable → ℕ → Option ℕ
queued t u = find u (readys_backfill t).t_ready

find-tree_insert :
    (u v h : ℕ) (m : List (ℕ × ℕ))
    → find v (tree_insert u h m) ≡ (if u == v then some h else find v m)
unfolding tree_insert find
find-tree_insert u v h [] = refl
find-tree_insert u v h ((w, g) ∷ m) =
    ground (arith, find-tree_insert u v h m, ==_iff w u, ==_iff u v, ==_iff w v)

readys_backfill-readys : (t : JobUnitTable) → (readys_backfill t).readys ≡ []
unfolding readys_backfill
readys_backfill-readys t = ground arith

queued_settled : (t : JobUnitTable) (u : ℕ) → t.readys ≡ [] → queued t u ≡ find u t.t_ready
unfolding queued readys_backfill
queued_settled t u e = ground arith

ready_insert-queued :
    (t : JobUnitTable) (u h v : ℕ)
    → (t.uvs h).up_ready ≡ false
    → queued (ready_insert t u h) v ≡ (if u == v then some h else queued t v)
unfolding ready_insert set_uv queued
ready_insert-queued t u h v e = rw e (
    queued_settled _ v (readys_backfill-readys t)
    ∙ find-tree_insert u v h (readys_backfill t).t_ready)

ready_remove-queued :
    (t : JobUnitTable) (u h v : ℕ)
    → (t.uvs h).up_ready ≡ true
    → queued (ready_remove t u h) v ≡ (if u == v then none else queued t v)
unfolding ready_remove set_uv queued
ready_remove-queued t u h v e =
    rw e
      (queued_settled _ v (readys_backfill-readys t) ∙ find-erase v u (readys_backfill t).t_ready)

queued_self :
    (t : JobUnitTable) (u v : ℕ) (o : Option ℕ)
    → queued t u ≡ o
    → queued t v ≡ (if u == v then o else queued t v)
queued_self t u v o e = elim (Bool-cases (u == v)) [
  | inl m ↦ rw m (subst (λ x. queued t x ≡ o) ((==_iff u v).0 m) e)
  | inr m ↦ rw m
]

ready_insert_same :
    (t : JobUnitTable) (u h : ℕ) → (t.uvs h).up_ready ≡ true → ready_insert t u h ≡ t
unfolding ready_insert
ready_insert_same t u h p = rw p

ready_remove_same :
    (t : JobUnitTable) (u h : ℕ) → (t.uvs h).up_ready ≡ false → ready_remove t u h ≡ t
unfolding ready_remove
ready_remove_same t u h p = rw p

ready_insert-up_ready :
    (t : JobUnitTable) (u h : ℕ)
    → (t.uvs h).up_ready ≡ false
    → ((ready_insert t u h).uvs h).up_ready ≡ true
unfolding ready_insert set_uv
ready_insert-up_ready t u h p = rw (p, (==_iff h h).1 refl)

ready_remove-up_ready :
    (t : JobUnitTable) (u h : ℕ)
    → (t.uvs h).up_ready ≡ true
    → ((ready_remove t u h).uvs h).up_ready ≡ false
unfolding ready_remove set_uv
ready_remove-up_ready t u h p = rw (p, (==_iff h h).1 refl)

-- Whether a unit is queued after a change that wants it so or not.
abbrev wanted : JobUnitTable → ℕ → ℕ → ℕ → Bool → Option ℕ
wanted t u h v b = if u == v then (if b then some h else none) else queued t v

ready_insert-wanted :
    (t : JobUnitTable) (u h v : ℕ)
    → queued t u ≡ (if (t.uvs h).up_ready then some h else none)
    → (queued (ready_insert t u h) v ≡ wanted t u h v true)
      × (((ready_insert t u h).uvs h).up_ready ≡ true)
ready_insert-wanted t u h v e = elim (Bool-cases (t.uvs h).up_ready) [
  | inl p ↦ rw (ready_insert_same t u h p) (queued_self t u v (some h) (ground (arith, e, p)), p)
  | inr p ↦ (ready_insert-queued t u h v p, ready_insert-up_ready t u h p)
]

ready_remove-wanted :
    (t : JobUnitTable) (u h v : ℕ)
    → queued t u ≡ (if (t.uvs h).up_ready then some h else none)
    → (queued (ready_remove t u h) v ≡ wanted t u h v false)
      × (((ready_remove t u h).uvs h).up_ready ≡ false)
ready_remove-wanted t u h v e = elim (Bool-cases (t.uvs h).up_ready) [
  | inl p ↦ (ready_remove-queued t u h v p, ready_remove-up_ready t u h p)
  | inr p ↦ rw (ready_remove_same t u h p) (queued_self t u v none (ground (arith, e, p)), p)
]

-- After `ready_sync` of a unit that is queued exactly when it says so: the unit is queued exactly
-- when it is ready, and says so; every other unit is queued as before.
pub ready_sync-queued :
    (t : JobUnitTable) (u h v : ℕ)
    → queued t u ≡ (if (t.uvs h).up_ready then some h else none)
    → (queued (ready_sync t u h) v
        ≡ (if u == v then (if (t.uvs h).ready then some h else none) else queued t v))
      × (((ready_sync t u h).uvs h).up_ready ≡ (t.uvs h).ready)
unfolding ready_sync
ready_sync-queued t u h v e = elim (Bool-cases (t.uvs h).ready) [
  | inl r ↦ rw r (ready_insert-wanted t u h v e)
  | inr r ↦ rw r (ready_remove-wanted t u h v e)
]

-- `ready_pop` of a unit hands out what is queued for it and takes it off; every other unit is
-- queued as before.
pub ready_pop-queued :
    (t : JobUnitTable) (u v : ℕ)
    → ((ready_pop t (some u)).1 ≡ queued t u)
      × (queued (ready_pop t (some u)).0 v ≡ (if u == v then none else queued t v))
unfolding ready_pop clear_up_ready queued set_uv
ready_pop-queued t u v = elim (Option-cases (queued t u)) [
  | inl e ↦ rw e (
    refl,
    queued_settled _ v (readys_backfill-readys t) ∙ find-erase v u (readys_backfill t).t_ready,
  )
  | inr (h, e) ↦ rw e (
    refl,
    queued_settled _ v (readys_backfill-readys t) ∙ find-erase v u (readys_backfill t).t_ready,
  )
]

pop_some : (hs : List ℕ) → is_some (pop hs).1 ≡ not (is_empty hs)
unfolding pop
pop_some [] = refl
pop_some (h ∷ []) = refl
pop_some (h ∷ g ∷ hs) = pop_some (g ∷ hs)

clear_up_ready-1 : (t : JobUnitTable) (o : Option ℕ) → (clear_up_ready (t, o)).1 ≡ o
unfolding clear_up_ready
clear_up_ready-1 t none = refl
clear_up_ready-1 t (some h) = refl

tree_values-is_empty : (m : List (ℕ × ℕ)) → is_empty (tree_values m) ≡ is_empty m
unfolding tree_values
tree_values-is_empty [] = refl
tree_values-is_empty ((u, h) ∷ m) = refl

readys_fill-is_empty :
    (t : JobUnitTable) → is_empty (readys_fill t).readys ≡ (is_empty t.t_ready && is_empty t.readys)
unfolding readys_fill
readys_fill-is_empty t = elim (Bool-cases (is_empty t.readys)) [
  | inl e ↦ rw e (ground (arith, tree_values-is_empty t.t_ready))
  | inr e ↦ rw (e, e) (ground arith)
]

-- A synchronized table says that it is ready exactly when a pop finds a unit.
pub calc_table_ready-ready_pop :
    (t : JobUnitTable) → t.sync ≡ true → calc_table_ready t ≡ is_some (ready_pop t none).1
unfolding calc_table_ready ready_pop
calc_table_ready-ready_pop t e = rw (e, clear_up_ready-1, pop_some, readys_fill-is_empty)

pop_last : (hs : List ℕ) (h : ℕ) → pop (hs ++ h ∷ []) ≡ (hs, some h)
unfolding pop
pop_last [] h = refl
pop_last (g ∷ []) h = refl
pop_last (g ∷ k ∷ hs) h = rw (pop_last (k ∷ hs) h)

readys_fill_last :
    (t : JobUnitTable) (h : ℕ) (hs : List ℕ)
    → t.readys ≡ hs ++ h ∷ []
    → (readys_fill t).readys ≡ hs ++ h ∷ []
unfolding readys_fill
readys_fill_last t h [] e = ground (arith, e)
readys_fill_last t h (g ∷ hs) e = ground (arith, e)

-- A unit that is removed while it is last among those taken out of the queue is still handed out
-- next, although the table no longer has it.
pub ready_pop-remove_unit :
    (t : JobUnitTable) (u h : ℕ) (hs : List ℕ)
    → t.readys ≡ hs ++ h ∷ []
    → (find u (remove_unit t u).t_data ≡ none) × ((ready_pop (remove_unit t u) none).1 ≡ some h)
unfolding remove_unit ready_pop
ready_pop-remove_unit t u h hs e = (
  find-erase u u t.t_data ∙ rw ((==_iff u u).1 refl),
  clear_up_ready-1 _ _
      ∙ rw (
        readys_fill_last (record t { t_data = erase u t.t_data; t_ready = erase u t.t_ready }) h hs
            e,
        pop_last,
      ),
)

popped_none : (hs : List ℕ) → (pop hs).1 ≡ none → hs ≡ []
unfolding pop
popped_none [] e = refl
popped_none (h ∷ []) e = cc
popped_none (h ∷ g ∷ hs) e = cc (popped_none (g ∷ hs) e)

tree_values_none : (m : List (ℕ × ℕ)) → tree_values m ≡ [] → m ≡ []
unfolding tree_values
tree_values_none [] e = refl
tree_values_none ((u, h) ∷ m) e = cc

readys_fill_none : (t : JobUnitTable) → (readys_fill t).readys ≡ [] → (readys_fill t).t_ready ≡ []
unfolding readys_fill
readys_fill_none t e = elim (Bool-cases (is_empty t.readys)) [
  | inl i ↦ rw i refl
  | inr i ↦ absurd (ground (arith, e, i, ap (λ (l : List ℕ). is_empty l) e))
]

clear_up_ready-none :
    (t : JobUnitTable) (o : Option ℕ)
    → (clear_up_ready (t, o)).1 ≡ none
    → ((clear_up_ready (t, o)).0 ≡ t) × (o ≡ none)
unfolding clear_up_ready
clear_up_ready-none t none e = (refl, refl)
clear_up_ready-none t (some h) e = cc

-- A pop that finds no unit leaves a table that is not ready.
pub ready_pop-none :
    (t : JobUnitTable) → (ready_pop t none).1 ≡ none → calc_table_ready (ready_pop t none).0 ≡ false
unfolding ready_pop calc_table_ready
ready_pop-none t e =
    let f = readys_fill t in
    let t1 : JobUnitTable = record f { readys = (pop f.readys).0 } in
    let c = clear_up_ready-none t1 (pop f.readys).1 e in
    let r = popped_none f.readys c.1 in
    rw (c.0, readys_fill_none t r, r) (unfold pop in (ground arith))
