-- ===== src/Job/Manager/Compensate.antt =====
-- core/bin/job/manager.rs and core/bin/unit/sigchld.rs: what the job manager does for the unit at which
-- the process has ended, and for every other unit that had a trigger.
use sysmaster.Base.{
  ℕ, Bool, true, false, ◌||◌, Option, none, some, List, [], ◌∷◌, ◌≡◌, refl, ok, ◌==◌, ==_iff,
  if◌then◌else◌, arith,
}
use sysmaster.Unit.Dependency.Table.{DepMap}
use sysmaster.Job.Kind.{
  JobKind, start, stop, reload, restart, verify, nop, JobAttr, attr_or, job_is_basic_op,
}
use sysmaster.Job.Engine.{World, M, ◌>>=◌, pure, trigger_insert}
use sysmaster.Job.Manager.{Around, JobManager}
use sysmaster.Job.Manager.Restore.{
  rentry_trigger_merge, job_merge_trigger_iskeep, job_merge_trigger_map, trigger_unit,
}

module _ {S : Type 0} where
  -- The trigger of the last unit is forced.
  unfoldable pub jm_db_compensate_last : Option ℕ → M S (Unit {0})
  jm_db_compensate_last none = pure tt
  jm_db_compensate_last (some u) = rentry_trigger_merge u true

module _ {S : Type 0} (out : Around S) (db : DepMap) (fuel rounds : ℕ) where
  -- `none` is out of fuel. `try_enable` says whether the source is enabled.
  unfoldable pub jm_do_compensate_last :
      JobManager → Bool → Option ℕ → M S (Option (JobManager × Bool))
  jm_do_compensate_last jm enabled none = pure (some (jm, enabled))
  jm_do_compensate_last jm enabled (some u) = trigger_unit out db fuel rounds jm u

  abbrev is_last : Option ℕ → ℕ → Bool
  is_last none u = false
  is_last (some l) u = u == l

  -- The loop over the units that have a trigger in the database.
  unfoldable pub jm_do_compensate_others :
      JobManager → Bool → Option ℕ → List ℕ → M S (Option (JobManager × Bool))
  jm_do_compensate_others jm enabled lunit [] = pure (some (jm, enabled))
  jm_do_compensate_others jm enabled lunit (u ∷ us) =
      if is_last lunit u then jm_do_compensate_others jm enabled lunit us else (do
        r ← trigger_unit out db fuel rounds jm u
        elim r [ none ↦ pure none | some (jm1, e) ↦ jm_do_compensate_others jm1 e lunit us ])

-- The kind with which a trigger runs again: what a unit was doing is undone and done again, unless
-- it can just be done again.
abbrev again : JobKind → JobKind
again start = restart
again reload = restart
again k = k

abbrev is_undone : JobKind → Bool
is_undone start = true
is_undone reload = true
is_undone restart = true
is_undone k = false

-- The trigger of a unit after it has been merged.
abbrev pub merged : Bool → Option (JobKind × JobAttr) → JobKind × JobAttr
merged force none = (
  restart,
  record { ignore_order = true; irreversible = true; force = force; no_relevancy = true },
)
merged force (some (k, a)) = (
  again k,
  record {
    ignore_order = true;
    irreversible = true;
    force = force || a.force;
    no_relevancy = is_undone k || a.no_relevancy;
  },
)

abbrev pub IsBasic : Option (JobKind × JobAttr) → Type 0
IsBasic none = Unit
IsBasic (some (k, a)) = job_is_basic_op k ≡ true

again_twice :
    (k : JobKind) (x : Bool)
    → job_is_basic_op k ≡ true
    → (again (again k) ≡ again k)
      × ((is_undone (again k) || (is_undone k || x)) ≡ (is_undone k || x))
      × (job_is_basic_op (again k) ≡ true)
unfolding job_is_basic_op
again_twice start x b = (refl, refl, refl)
again_twice stop x b = (refl, refl, refl)
again_twice reload x b = (refl, refl, refl)
again_twice restart x b = (refl, refl, refl)
again_twice verify x b = (refl, refl, refl)
again_twice nop x b = (refl, refl, refl)
again_twice _ x b = cc

pub merged_twice :
    (force : Bool) (o : Option (JobKind × JobAttr))
    → IsBasic o
    → (merged force (some (merged force o)) ≡ merged force o)
      × (job_is_basic_op (merged force o).0 ≡ true)
unfolding job_is_basic_op
merged_twice true none b = (refl, refl)
merged_twice false none b = (refl, refl)
merged_twice true (some (k, a)) b =
    let (same, undone, basic) = again_twice k a.no_relevancy b in (rw (same, undone) refl, basic)
merged_twice false (some (k, a)) b =
    let (same, undone, basic) = again_twice k a.no_relevancy b in (rw (same, undone) refl, basic)

-- A trigger that has been merged with all others is forced all the same.
pub merged_forced :
    (o : Option (JobKind × JobAttr))
    → IsBasic o
    → merged true (some (merged false o)) ≡ merged true o
unfolding job_is_basic_op
merged_forced none b = refl
merged_forced (some (k, a)) b =
    let (same, undone, basic) = again_twice k a.no_relevancy b in rw (same, undone) refl

module _ {S : Type 0} where
  abbrev pub put_trigger : World S → ℕ → JobKind × JobAttr → World S
  put_trigger w u t = record w { trigger_db = λ v. if v == u then some t else w.trigger_db v }

  pub merge-merged :
      (u : ℕ) (force : Bool) (w : World S) (o : Option (JobKind × JobAttr))
      → w.trigger_db u ≡ o
      → IsBasic o
      → rentry_trigger_merge u force w ≡ ok (tt, put_trigger w u (merged force o))
  unfolding rentry_trigger_merge job_merge_trigger_iskeep job_merge_trigger_map trigger_insert
      attr_or job_is_basic_op
  merge-merged u true w none e b = rw e refl
  merge-merged u false w none e b = rw e refl
  merge-merged u force w (some (start, a)) e b = rw e refl
  merge-merged u force w (some (stop, a)) e b = rw e refl
  merge-merged u force w (some (reload, a)) e b = rw e refl
  merge-merged u force w (some (restart, a)) e b = rw e refl
  merge-merged u force w (some (verify, a)) e b = rw e refl
  merge-merged u force w (some (nop, a)) e b = rw e refl
  merge-merged u force w (some (_, a)) e b = cc

  -- A trigger of a basic kind, or none, is merged when the data are put right after the process has
  -- ended; when this is itself interrupted and done again, the database is left as after the first
  -- time.
  pub rentry_trigger_merge-twice :
      (u : ℕ) (force : Bool) (w : World S)
      → IsBasic (w.trigger_db u)
      → (w1 : World S) × (w2 : World S) × (rentry_trigger_merge u force w ≡ ok (tt, w1))
        × (rentry_trigger_merge u force w1 ≡ ok (tt, w2))
        × (w1.trigger_db u ≡ some (merged force (w.trigger_db u)))
        × ((v : ℕ) → w2.trigger_db v ≡ w1.trigger_db v)
  rentry_trigger_merge-twice u force w b =
      let o = w.trigger_db u in
      let w1 = put_trigger w u (merged force o) in
      let (same, basic) = merged_twice force o b in
      let at : w1.trigger_db u ≡ some (merged force o) = ground (arith, ==_iff u u) in
      (
        w1,
        put_trigger w1 u (merged force (some (merged force o))),
        merge-merged u force w o refl b,
        merge-merged u force w1 (some (merged force o)) at basic,
        at,
        λ v. ground (arith, same, ==_iff v u),
      )
