-- ===== src/Manager/Rerun.antt =====
-- What becomes of the triggers when the process has ended while the jobs were run.
use sysmaster.Base.{
  ℕ, Bool, true, false, Bool-cases, some, List, [], ◌∷◌, ◌≡◌, refl, sym, ap, ◌∙◌, inl, inr, any, ok,
  ◌==◌, ==_iff, ◌≢◌, if◌then◌else◌, arith,
}
use sysmaster.Reli.Last.{ReliFrame}
use sysmaster.Job.Engine.{World, ◌>>=◌}
use sysmaster.Job.Manager.Restore.{merge_triggers}
use sysmaster.Job.Manager.Compensate.{
  jm_db_compensate_last, merged, merged_twice, merged_forced, IsBasic, put_trigger, merge-merged,
}
use sysmaster.Manager.Requests.{UnitManager}
use sysmaster.Manager.Station.{
  Parts, um_db_compensate_last, um_db_compensate_history, db_compensate_of, frame_of, nth,
  with_world,
}

abbrev has : ℕ → List ℕ → Bool
has v us = any (λ u. u == v) us

module _ {S : Type 0} where
  -- Every trigger in the database is of a basic kind.
  abbrev pub AreBasic : World S → Type 0
  AreBasic w = (v : ℕ) → IsBasic (w.trigger_db v)

  put_trigger-AreBasic :
      (w : World S) (u : ℕ) (force : Bool)
      → AreBasic w
      → AreBasic (put_trigger w u (merged force (w.trigger_db u)))
  put_trigger-AreBasic w u force b v = elim (Bool-cases (v == u)) [
    | inl e ↦ rw e (merged_twice force (w.trigger_db u) (b u)).1
    | inr e ↦ rw e (b v)
  ]

  merge_triggers-merged :
      (us : List ℕ) (w : World S)
      → AreBasic w
      → (w' : World S) × (merge_triggers us w ≡ ok (tt, w'))
        × ((v : ℕ)
            → w'.trigger_db v
              ≡ (if has v us then some (merged false (w.trigger_db v)) else w.trigger_db v))
  unfolding merge_triggers
  merge_triggers-merged [] w b = (w, refl, λ v. refl)
  merge_triggers-merged (u ∷ us) w b =
      let w1 = put_trigger w u (merged false (w.trigger_db u)) in
      let (w', e, h) = merge_triggers-merged us w1 (put_trigger-AreBasic w u false b) in
      (
        w',
        rw (◌>>=◌, merge-merged u false w (w.trigger_db u) refl (b u)) e,
        λ v. elim (Bool-cases (v == u)) [
          | inl i ↦
              let at : w1.trigger_db v ≡ some (merged false (w.trigger_db u)) = ground (arith, i) in
              let one : some (merged false (w.trigger_db u))
                  ≡ some (merged false (w.trigger_db v)) =
                ap (λ x. some (merged false (w.trigger_db x))) (sym ((==_iff v u).0 i)) in
              let two : some (merged false (w1.trigger_db v))
                  ≡ some (merged false (w.trigger_db u)) =
                ap (λ t. some (merged false t)) at
                ∙ ap some (merged_twice false (w.trigger_db u) (b u)).0 in
              ground (arith, h v, at, one, two, i, ==_iff u v, (==_iff v u).0 i)
          | inr i ↦ ground (arith, h v, i, ==_iff u v, ==_iff v u)
        ],
      )

  -- What the walk over the triggers leaves.
  abbrev Walked : List ℕ → World S → World S → Type 0
  Walked us w w' =
      (v : ℕ)
      → w'.trigger_db v
        ≡ (if has v us then some (merged false (w.trigger_db v)) else w.trigger_db v)

  Walked-AreBasic : (us : List ℕ) (w w' : World S) → AreBasic w → Walked us w w' → AreBasic w'
  Walked-AreBasic us w w' b h v = elim (Bool-cases (has v us)) [
    | inl e ↦ rw (h v, e) (merged_twice false (w.trigger_db v) (b v)).1
    | inr e ↦ rw (h v, e) (b v)
  ]

  Walked-forced :
      (us : List ℕ) (w w' : World S) (u : ℕ)
      → AreBasic w
      → Walked us w w'
      → merged true (w'.trigger_db u) ≡ merged true (w.trigger_db u)
  Walked-forced us w w' u b h = elim (Bool-cases (has u us)) [
    | inl e ↦ rw (h u, e) (merged_forced (w.trigger_db u) (b u))
    | inr e ↦ rw (h u, e) refl
  ]

module _ {E S : Type 0} (parts : Parts E S) where
  -- The process has ended while the jobs were run, in the frame of the job manager, about unit `u`,
  -- and every trigger in the database is of a basic kind. The data are put right, first over any
  -- units `us` for their history and then for `u`, with no failed assertion: afterwards the database
  -- has the trigger of `u` merged by force, that of every other unit of `us` merged without, and all
  -- others as they were, and the queues are left alone.
  pub um_db_compensate-merged :
      (m : UnitManager E S) (f : ReliFrame) (u : ℕ) (us : List ℕ)
      → f.f1 ≡ 1
      → AreBasic m.world
      → (m1 : UnitManager E S) × (m2 : UnitManager E S) × (um_db_compensate_history parts m us
          ≡ ok m1)
        × (um_db_compensate_last parts m1 f (some u) ≡ ok m2)
        × (m2.rt ≡ m.rt)
        × (m2.world.trigger_db u ≡ some (merged true (m.world.trigger_db u)))
        × ((v : ℕ)
            → v ≢ u
            → m2.world.trigger_db v ≡ (
                if has v us
                then some (merged false (m.world.trigger_db v))
                else m.world.trigger_db v))
  unfolding um_db_compensate_last um_db_compensate_history with_world db_compensate_of frame_of nth
      jm_db_compensate_last
  um_db_compensate-merged m f u us i b =
      let w = m.world in
      let (w1, e, h) = merge_triggers-merged us w b in
      let b1 = Walked-AreBasic us w w1 b h in
      let w2 = put_trigger w1 u (merged true (w1.trigger_db u)) in
      let at : w2.trigger_db u ≡ some (merged true (w1.trigger_db u)) =
        ground (arith, ==_iff u u) in
      (
        record m { world = w1 },
        record m { world = w2 },
        rw e refl,
        rw (i, merge-merged u true w1 (w1.trigger_db u) refl (b1 u)) refl,
        refl,
        at ∙ ap some (Walked-forced us w w1 u b h),
        λ v n. ground (arith, n, ==_iff v u, h v),
      )
