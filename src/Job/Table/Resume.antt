-- ===== src/Job/Table/Resume.antt =====
-- The queue after the jobs of one unit have changed, and a unit that is resumed.
use sysmaster.Base.{
  ℕ, true, false, none, some, List, [], ◌∷◌, is_empty, ◌==◌, ==_iff, Bool-cases, if◌then◌else◌, ◌≡◌,
  refl, ap, ◌∙◌, sym, subst, arith, inl, inr, ok,
}
use sysmaster.Base.Maps.{id_key, find}
use sysmaster.Job.Junit.Data.{JobUnit, update_ready, calc_ready}
use sysmaster.Job.Junit.Steps.{resume}
use sysmaster.Job.Table.Data.{
  JobUnitTable, set_uv, ready_sync, fill_back, readys_backfill, tree_insert,
}
use sysmaster.Job.Table.Queue.{queued, ready_sync-queued}
use sysmaster.Job.Table.Entries.{sync_entry, resume_entry, resume_unit}

fill_back_ext :
    (f g : ℕ → JobUnit) (hs : List ℕ) (m : List (ℕ × ℕ))
    → ((h : ℕ) → (f h).unit ≡ (g h).unit)
    → fill_back f hs m ≡ fill_back g hs m
unfolding fill_back
fill_back_ext f g [] m e = refl
fill_back_ext f g (h ∷ hs) m e = rw (e h) (fill_back_ext f g hs (tree_insert (g h).unit h m) e)

set_uv-unit :
    (t : JobUnitTable) (h : ℕ) (q : JobUnit) (i : ℕ)
    → q.unit ≡ (t.uvs h).unit
    → ((set_uv t h q).uvs i).unit ≡ (t.uvs i).unit
unfolding set_uv
set_uv-unit t h q i e = elim (Bool-cases (i == h)) [
  | inl p ↦ rw (p, e) (ap (λ k. (t.uvs k).unit) (sym ((==_iff i h).0 p)))
  | inr p ↦ rw p
]

queued_fill : (t : JobUnitTable) (u : ℕ) → queued t u ≡ find u (fill_back t.uvs t.readys t.t_ready)
unfolding queued readys_backfill fill_back
queued_fill t u = ground arith

set_uv-queued :
    (t : JobUnitTable) (h : ℕ) (q : JobUnit) (u : ℕ)
    → q.unit ≡ (t.uvs h).unit
    → queued (set_uv t h q) u ≡ queued t u
unfolding set_uv
set_uv-queued t h q u e =
    queued_fill (set_uv t h q) u
    ∙ (ap (find u) (fill_back_ext _ t.uvs t.readys t.t_ready (λ i. set_uv-unit t h q i e))
        ∙ sym (queued_fill t u))

set_uv-uvs : (t : JobUnitTable) (h : ℕ) (q : JobUnit) → (set_uv t h q).uvs h ≡ q
unfolding set_uv
set_uv-uvs t h q = rw ((==_iff h h).1 refl)

-- After the jobs of a unit have changed and the entry is synchronized, the unit is queued exactly
-- when its jobs say that it is ready, if it was queued exactly when they say so; every other unit is
-- queued as before.
pub sync_entry-queued :
    (t : JobUnitTable) (u h v : ℕ) (q : JobUnit)
    → q.unit ≡ (t.uvs h).unit
    → queued t u ≡ (if q.up_ready then some h else none)
    → queued (sync_entry t u h q) v
      ≡ (if u == v then (if q.ready then some h else none) else queued t v)
unfolding sync_entry
sync_entry-queued t u h v q e k =
    let t1 = set_uv t h q in
    let k1 =
      subst (λ x. queued t1 u ≡ (if x.up_ready then some h else none)) (sym (set_uv-uvs t h q))
        (set_uv-queued t h q u e ∙ k) in
    let r = ready_sync-queued t1 u h v k1 in
    set_uv-queued (ready_sync t1 u h) h (record ((ready_sync t1 u h).uvs h) { dirty = false }) v
      refl
    ∙ (r.0 ∙ rw (set_uv-uvs t h q, set_uv-queued t h q v e))

resume_returns :
    (q : JobUnit)
    → q.order ≡ true
    → q.trigger ≡ none
    → q.interrupt ≡ false
    → is_empty q.sq ≡ false
    → resume q ≡ ok (record q { dirty = true; pause = false; ready = true })
unfolding resume update_ready calc_ready
resume_returns q o t i s = ground arith

resume_unit_found :
    (t : JobUnitTable) (u h : ℕ) → find u t.t_data ≡ some h → resume_unit t u ≡ resume_entry t u h
unfolding resume_unit
resume_unit_found t u h f = rw (resume_unit, f)

resume_entry_paused :
    (t : JobUnitTable) (u h : ℕ) (q : JobUnit)
    → (t.uvs h).dirty ≡ false
    → (t.uvs h).pause ≡ true
    → resume (t.uvs h) ≡ ok q
    → resume_entry t u h ≡ ok (sync_entry t u h q)
unfolding resume_entry
resume_entry_paused t u h q d p r = simp (d, p, r)

-- A unit that was paused with no trigger and with a job on its waiting list is queued again when it
-- is resumed, if it is queued exactly when it says so; every other unit is queued as before.
pub resume_unit-queued :
    (t : JobUnitTable) (u h v : ℕ)
    → find u t.t_data ≡ some h
    → (t.uvs h).dirty ≡ false
    → (t.uvs h).pause ≡ true
    → (t.uvs h).order ≡ true
    → (t.uvs h).trigger ≡ none
    → (t.uvs h).interrupt ≡ false
    → is_empty (t.uvs h).sq ≡ false
    → queued t u ≡ (if (t.uvs h).up_ready then some h else none)
    → (t' : JobUnitTable) × (resume_unit t u ≡ ok t')
      × (queued t' v ≡ (if u == v then some h else queued t v))
resume_unit-queued t u h v f d p o g i s k =
    let q = record (t.uvs h) { dirty = true; pause = false; ready = true } in
    (
      sync_entry t u h q,
      resume_unit_found t u h f
          ∙ resume_entry_paused t u h q d p (resume_returns (t.uvs h) o g i s),
      sync_entry-queued t u h v q refl k,
    )
