-- ===== src/Job/Transaction/Requests.antt =====
-- core/bin/job/transaction.rs: what a request affects beside its dependencies, its verification against
-- the table of jobs, and the jobs that fall with one that has failed.
use sysmaster.Base.{
  ℕ, zero, suc, Bool, true, false, not, ◌&&◌, ◌||◌, Option, none, some, List, [], ◌∷◌, ◌++◌,
  Checked, ok, ◌>>◌, assert, if◌then◌else◌,
}
use sysmaster.Unit.Relation.{UnitRelationAtom, propagate_start_failure, propagate_stop_failure}
use sysmaster.Unit.Dependency.Table.{DepMap, gets_atom}
use sysmaster.Job.Kind.{JobKind, start, stop, verify}
use sysmaster.Job.Entry.{JobResult}
use sysmaster.Job.Engine.{JobRef}
use sysmaster.Job.Transaction.{
  JobMode, fail, isolate, trigger, JobError, conflict, Stage, Expanded, expanded, job_trans_expand,
  run_calls,
}

-- `JobTable::is_unit_empty` of the stage, `Unit.IgnoreOnIsolate`, and all units.
pub record Surroundings (S : Type 0) : Type 0 where
  pub is_unit_empty : S → ℕ → Bool
  pub ignore_on_isolate : ℕ → Bool
  pub units_get_all : List ℕ

module _ {S : Type 0} (stage : Stage S) (around : Surroundings S) (db : DepMap) (active : ℕ → Bool)
    (mode : JobMode) (fuel : ℕ) where
  -- A stop whose error is dropped.
  stop_one : S → ℕ → Expanded S
  unfolding run_calls
  stop_one s u =
      run_calls (λ t v j. job_trans_expand stage db active mode fuel t v j)
        (record { unit = u; kind = stop; returns = false } ∷ []) s

  stop_others : List ℕ → S → Expanded S
  unfolding stop_one
  stop_others [] s = expanded s
  stop_others (u ∷ us) s =
      elim (if around.ignore_on_isolate u || not (around.is_unit_empty s u)
        then expanded s
        else stop_one s u) [
          | expanded s1 ↦ stop_others us s1
          | Expanded.refused s1 e ↦ Expanded.refused s1 e
          | Expanded.failed ↦ Expanded.failed
          | Expanded.exhausted ↦ Expanded.exhausted
        ]

  -- The test is on the unit of the request, not on the one that is stopped.
  trigger_each : ℕ → List ℕ → S → Expanded S
  unfolding stop_one
  trigger_each unit [] s = expanded s
  trigger_each unit (u ∷ us) s =
      elim (if not (around.is_unit_empty s unit) then expanded s else stop_one s u) [
        | expanded s1 ↦ trigger_each unit us s1
        | Expanded.refused s1 e ↦ Expanded.refused s1 e
        | Expanded.failed ↦ Expanded.failed
        | Expanded.exhausted ↦ Expanded.exhausted
      ]

  is_stop : JobKind → Bool
  is_stop stop = true
  is_stop _ = false

  affect_by : JobMode → S → ℕ → JobKind → Expanded S
  unfolding stop_others trigger_each is_stop
  affect_by isolate s u k = stop_others around.units_get_all s
  affect_by trigger s u k =
      if is_stop k
      then trigger_each u (gets_atom db u UnitRelationAtom.triggered_by) s
      else Expanded.failed
  affect_by _ s u k = expanded s

  unfoldable pub job_trans_affect : S → ℕ → JobKind → Expanded S
  unfolding affect_by
  job_trans_affect s u k = affect_by mode s u k

-- What the verification asks of the stage and the table of jobs.
pub record Conflicts (S : Type 0) : Type 0 where
  pub is_suspends_conflict : S → Bool
  pub is_suspends_conflict_with : S → S → Bool
  pub is_suspends_replace_with : S → S → Bool

is_fail : JobMode → Bool
is_fail fail = true
is_fail _ = false

-- `none` is `Ok`.
unfoldable pub job_trans_verify :
    {S : Type 0} → Conflicts S → S → S → JobMode → Checked (Option JobError)
unfolding is_fail
job_trans_verify c stage jobs mode =
    if c.is_suspends_conflict stage then ok (some conflict) else (do
      assert (not (c.is_suspends_conflict jobs))
      ok (
          if not (c.is_suspends_conflict_with jobs stage)
          then none
          else if not (is_fail mode) && c.is_suspends_replace_with jobs stage
          then none
          else some conflict))

-- `JobTable::remove_suspends` of the jobs, and the run-kind of a job.
pub record Jobs (S : Type 0) : Type 0 where
  pub remove_suspends : S → ℕ → JobKind → Option JobKind → JobResult → S × List JobRef
  pub run_kind : S → JobRef → JobKind

module _ {S : Type 0} (jobs : Jobs S) (db : DepMap) (f_result : JobResult) where
  unfoldable pub trans_fallback : List ℕ → S → S × List JobRef
  trans_fallback [] s = (s, [])
  trans_fallback (u ∷ us) s =
      let (s1, dels) = jobs.remove_suspends s u start (some verify) f_result in
      let (s2, more) = trans_fallback us s1 in (s2, dels ++ more)

  unfoldable pub trans_fallback_action : S → ℕ → JobKind → S × List JobRef
  unfolding trans_fallback
  trans_fallback_action s u start = trans_fallback (gets_atom db u propagate_start_failure) s
  trans_fallback_action s u stop = trans_fallback (gets_atom db u propagate_stop_failure) s
  trans_fallback_action s u verify = trans_fallback (gets_atom db u propagate_start_failure) s
  trans_fallback_action s u _ = (s, [])

  -- The loop over the jobs of one step; `none` is out of fuel.
  unfoldable pub fallback_each :
      (S → JobRef → Option (S × List JobRef)) → List JobRef → S → Option (S × List JobRef)
  fallback_each explore [] s = some (s, [])
  fallback_each explore (j ∷ js) s = elim (explore s j) [
    | none ↦ none
    | some (s1, dels) ↦ elim (fallback_each explore js s1) [
      | none ↦ none
      | some (s2, more) ↦ some (s2, dels ++ more)
    ]
  ]

  unfoldable pub trans_fallback_body : ℕ → S → ℕ → JobKind → Option (S × List JobRef)
  unfolding trans_fallback_action fallback_each
  trans_fallback_body zero s u k = none
  trans_fallback_body (suc fuel) s u k =
      let (s1, dels) = trans_fallback_action s u k in
      elim (fallback_each (λ t j. trans_fallback_body fuel t j.unit (jobs.run_kind t j)) dels s1) [
        | none ↦ none
        | some (s2, more) ↦ some (s2, more ++ dels)
      ]
