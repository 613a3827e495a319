-- ===== src/Unit/Loading/Rerun.antt =====
-- core/bin/unit/runtime.rs and core/bin/unit/entry/load.rs: what becomes of the queues when the
-- process has ended, and of the unit at which it has ended.
use sysmaster.Base.{
  All, Bool-cases, Option-cases, inl, inr, subst, ℕ, zero, suc, true, false, not, ◌&&◌, Option,
  none, some, List, [], ◌∷◌, Checked, panic, ok, sym, ◌∙◌, is_some, ltb, ◌==◌, ==_iff,
  if◌then◌else◌, ◌≡◌, refl, arith,
}
use sysmaster.Base.Maps.{id_key, find}
use sysmaster.Reli.Last.{ReliFrame}
use sysmaster.Unit.Loading.{
  Loader, Runtime, push_load_queue, push_target_dep_queue, set_in_load_queue,
  set_in_target_dep_queue, map_load, map_target_deps, rt_db_map, load_unit,
  dispatch_target_dep_unit, dispatch_load_queue,
}
use sysmaster.Unit.Loading.Ends.{has, has-append}

module _ {E : Type 0} where
  -- A new process: the `UeLoad` of each unit is new, but for the load state and the flags that the
  -- database has, and the queues are empty.
  unfoldable pub ue_db_map : Runtime E → Runtime E
  ue_db_map s = record s {
    loads = λ v. record (s.loads v) { in_load_queue = false; in_target_dep_queue = false };
    load_queue = [];
    target_dep_queue = [];
  }

  unfoldable pub rc_last_queue_load : Runtime E → ℕ → Runtime E
  rc_last_queue_load s u =
      if (s.loads u).pps_load
      then record s {
        loads = λ v. if v == u then record (s.loads u) { pps_load = false } else s.loads v;
      }
      else s

  unfoldable pub rc_last_queue_targetdeps : Runtime E → ℕ → Runtime E
  rc_last_queue_targetdeps s u =
      if (s.loads u).pps_target_deps
      then record s {
        loads = λ v. if v == u then record (s.loads u) { pps_target_deps = false } else s.loads v;
      }
      else s

  -- The queue of a frame: the work of the queues from 2 to 9 is `todo!`.
  abbrev by_queue :
      (Runtime E → ℕ → Checked (Runtime E))
      → (Runtime E → ℕ → Checked (Runtime E))
      → ℕ
      → Runtime E
      → ℕ
      → Checked (Runtime E)
  by_queue load targetdeps zero s u = load s u
  by_queue load targetdeps (suc zero) s u = targetdeps s u
  by_queue load targetdeps (suc (suc n)) s u = if ltb n 8 then panic else ok s

  unfoldable pub rt_db_compensate_last : Runtime E → ReliFrame → Option ℕ → Checked (Runtime E)
  unfolding rc_last_queue_load rc_last_queue_targetdeps
  rt_db_compensate_last s lframe none = ok s
  rt_db_compensate_last s lframe (some u) = elim lframe.f2 [
    | none ↦ ok s
    | some queue ↦
        by_queue (λ s1 v. ok (rc_last_queue_load s1 v)) (λ s1 v. ok (rc_last_queue_targetdeps s1 v))
          queue s u
  ]

module _ {E : Type 0} (out : Loader E) where
  -- The load is tried again, and its error is dropped; out of fuel is written as a panic.
  unfoldable pub dc_last_queue_load : ℕ → Runtime E → ℕ → Checked (Runtime E)
  dc_last_queue_load fuel s u =
      if is_some (find u s.units)
      then (elim (load_unit out (dispatch_load_queue out fuel) s u) [
        | none ↦ panic
        | some r ↦ ok r.0
      ])
      else ok s

  unfoldable pub dc_last_queue_targetdeps : Runtime E → ℕ → Checked (Runtime E)
  dc_last_queue_targetdeps s u =
      if is_some (find u s.units) then ok (dispatch_target_dep_unit out s u) else ok s

  unfoldable pub rt_do_compensate_last : ℕ → Runtime E → ReliFrame → Option ℕ → Checked (Runtime E)
  unfolding dc_last_queue_load dc_last_queue_targetdeps
  rt_do_compensate_last fuel s lframe none = ok s
  rt_do_compensate_last fuel s lframe (some u) = elim lframe.f2 [
    | none ↦ ok s
    | some queue ↦ by_queue (dc_last_queue_load fuel) dc_last_queue_targetdeps queue s u
  ]

module _ {E : Type 0} where
  -- The flags and the queue agree.
  abbrev Agrees : Runtime E → Type 0
  Agrees s = (v : ℕ) → has v s.load_queue ≡ (s.loads v).in_load_queue

  -- A step adds to the queue the units of `us` with a flag in the database, and keeps that flag.
  abbrev Adds : Runtime E → List ℕ → Runtime E → Type 0
  Adds s us t =
      ((v : ℕ) → (t.loads v).pps_load ≡ (s.loads v).pps_load)
      × ((v : ℕ)
          → (t.loads v).in_load_queue
            ≡ (if (s.loads v).in_load_queue then true else (s.loads v).pps_load && has v us))
      × (Agrees s → Agrees t)

  push_load-Adds :
      (s : Runtime E) (u : ℕ)
      → Adds s (u ∷ []) (if (s.loads u).pps_load then push_load_queue s u else s)
  unfolding push_load_queue set_in_load_queue
  push_load-Adds s u = (
    λ v. ground (arith, ==_iff v u),
    λ v. ground (arith, ==_iff v u, ==_iff u v),
    λ q v. ground (arith, q v, q u, has-append v s.load_queue (u ∷ []), ==_iff u v, ==_iff v u),
  )

  push_target-Adds :
      (s : Runtime E) (u : ℕ)
      → Adds s [] (if (s.loads u).pps_target_deps then push_target_dep_queue s u else s)
  unfolding push_target_dep_queue set_in_target_dep_queue
  push_target-Adds s u = (
    λ v. ground (arith, ==_iff v u),
    λ v. ground (arith, ==_iff v u, ==_iff u v),
    λ q v. ground (arith, q v, ==_iff u v, ==_iff v u),
  )

  -- The units of `us` are all in the table.
  abbrev AreThere : Runtime E → List ℕ → Type 0
  AreThere s us = All (λ u. is_some (find u s.units) ≡ true) us

  map_load-ok :
      (s : Runtime E) (u : ℕ)
      → is_some (find u s.units) ≡ true
      → map_load s u ≡ ok (if (s.loads u).pps_load then push_load_queue s u else s)
  unfolding map_load
  map_load-ok s u h = elim (Option-cases (find u s.units)) [
    | inl f ↦ absurd (ground (arith, f, h))
    | inr (x, f) ↦
        rw f (elim (Bool-cases (s.loads u).pps_load) [ inl a ↦ rw a refl | inr a ↦ rw a refl ])
  ]

  map_target_deps-ok :
      (s : Runtime E) (u : ℕ)
      → is_some (find u s.units) ≡ true
      → map_target_deps s u
        ≡ ok (if (s.loads u).pps_target_deps then push_target_dep_queue s u else s)
  unfolding map_target_deps
  map_target_deps-ok s u h = elim (Option-cases (find u s.units)) [
    | inl f ↦ absurd (ground (arith, f, h))
    | inr (x, f) ↦
        rw f
          (elim (Bool-cases (s.loads u).pps_target_deps) [ inl a ↦ rw a refl | inr a ↦ rw a refl ])
  ]

  push_load-units :
      (s : Runtime E) (u : ℕ)
      → (if (s.loads u).pps_load then push_load_queue s u else s).units ≡ s.units
  unfolding push_load_queue set_in_load_queue
  push_load-units s u = ground arith

  push_target-units :
      (s : Runtime E) (u : ℕ)
      → (if (s.loads u).pps_target_deps then push_target_dep_queue s u else s).units ≡ s.units
  unfolding push_target_dep_queue set_in_target_dep_queue
  push_target-units s u = ground arith

  rt_db_map-Adds :
      (us : List ℕ) (s : Runtime E)
      → AreThere s us
      → (t : Runtime E) × (rt_db_map s us ≡ ok t) × Adds s us t
  unfolding rt_db_map
  rt_db_map-Adds [] s h = (s, refl, (λ v. refl, λ v. ground arith, λ q. q))
  rt_db_map-Adds (u ∷ us) s (h, hs) =
      let s1 = if (s.loads u).pps_load then push_load_queue s u else s in
      let s2 = if (s1.loads u).pps_target_deps then push_target_dep_queue s1 u else s1 in
      let e1 : s1.units ≡ s.units = push_load-units s u in
      let e2 : s2.units ≡ s.units = push_target-units s1 u ∙ e1 in
      let (a1, b1, c1) = push_load-Adds s u in
      let (a2, b2, c2) = push_target-Adds s1 u in
      let (t, e, (a3, b3, c3)) =
        rt_db_map-Adds us s2 (subst (λ m. All (λ v. is_some (find v m) ≡ true) us) (sym e2) hs) in
      let there1 = subst (λ m. is_some (find u m) ≡ true) (sym e1) h in
      (
        t,
        rw (map_load-ok s u h) (rw (map_target_deps-ok s1 u there1) e),
        (
          λ v. a3 v ∙ a2 v ∙ a1 v,
          λ v. ground (arith, a1 v, b1 v, a2 v, b2 v, b3 v),
          λ q. c3 (c2 (c1 q)),
        ),
      )

  -- The process has ended while unit `u` was loaded from the queue, of which the database has the
  -- units `us`, all of them in the table: the queue is read back without a panic, and then `u` is not
  -- on it, to be loaded by itself, and every other unit is on it exactly when the database has it as
  -- queued; the flags say the same.
  pub rt_db_map-requeued :
      (s : Runtime E) (us : List ℕ) (u : ℕ) (f : ReliFrame)
      → f.f2 ≡ some 0
      → AreThere s us
      → (t t' : Runtime E) × (rt_db_compensate_last (ue_db_map s) f (some u) ≡ ok t)
        × (rt_db_map t us ≡ ok t')
        × ((v : ℕ) → has v t'.load_queue ≡ (not (v == u) && ((s.loads v).pps_load && has v us)))
        × ((v : ℕ) → (t'.loads v).in_load_queue ≡ has v t'.load_queue)
  unfolding rt_db_compensate_last rc_last_queue_load ue_db_map
  rt_db_map-requeued s us u f e h =
      let t = rc_last_queue_load (ue_db_map s) u in
      let same : t.units ≡ s.units = ground arith in
      let (t', o, (a, b, c)) =
        rt_db_map-Adds us t (subst (λ m. All (λ v. is_some (find v m) ≡ true) us) (sym same) h) in
      let agrees = c (λ v. ground arith) in
      (
        t,
        t',
        rw e refl,
        o,
        λ v. agrees v ∙ (ground (arith, b v, ==_iff v u, ==_iff u v)),
        λ v. sym (agrees v),
      )
