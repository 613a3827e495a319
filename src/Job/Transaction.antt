-- ===== src/Job/Transaction.antt =====
-- core/bin/job/transaction.rs: the expansion of a request over the dependencies. The stage is an
-- interface: what `JobTable::record_suspend` does, and what it has recorded. `active` says which
-- units are active or reloading.
pub mod Requests
use sysmaster.Base.{
  ℕ, zero, suc, Bool, true, false, not, ◌||◌, Option, none, some, List, [], ◌∷◌, ◌++◌, map,
  if◌then◌else◌,
}
use sysmaster.Unit.Relation.{
  UnitRelationAtom, pull_in_start, pull_in_start_ignored, pull_in_verify, pull_in_stop,
  pull_in_stop_ignored, propagate_stop, propagate_restart,
}
use sysmaster.Unit.Relation
use sysmaster.Unit.Dependency.Table.{DepMap, gets_atom}
use sysmaster.Job.Kind.{
  JobKind, start, stop, reload, restart, verify, nop, try_reload, try_restart, kind_eq,
}
use sysmaster.Job.Entry.{job_merge_unit}

pub data JobMode : Type 0 where
  fail replace replace_irreversible isolate flush ignore_dependencies ignore_requirements trigger :
      JobMode

-- The errors of core/lib/error.rs that the job engine names.
pub data JobError : Type 0 where
  input conflict not_existed internal not_supported bad_request : JobError

-- `record_suspend` says whether the job is a new one.
pub record Stage (S : Type 0) : Type 0 where
  pub record_suspend : S → ℕ → JobKind → JobMode → S × Bool
  pub is_recorded : S → ℕ → JobKind → Bool

-- How an expansion ends: well, with an error, at `unreachable!`, or out of fuel.
pub data Expanded (S : Type 0) : Type 0 where
  expanded : S → Expanded S
  refused : S → JobError → Expanded S
  failed exhausted : Expanded S

-- A call of `job_trans_expand`, and whether its errors other than `BadRequest` are returned.
pub record Call : Type 0 where
  pub unit : ℕ
  pub kind : JobKind
  pub returns : Bool

abbrev is_bad_request : JobError → Bool
is_bad_request bad_request = true
is_bad_request _ = false

ignores_dependencies : JobMode → Bool
ignores_dependencies ignore_dependencies = true
ignores_dependencies ignore_requirements = true
ignores_dependencies _ = false

unfoldable pub trans_is_expand : JobKind → Bool → JobMode → Bool
unfolding ignores_dependencies
trans_is_expand kind new mode =
    if kind_eq kind nop then false else if not new then false else not (ignores_dependencies mode)

-- A loop over the units behind an atom.
unfoldable pub calls : DepMap → ℕ → UnitRelationAtom → JobKind → Bool → List Call
calls db u atom kind returns =
    map (λ v. record { unit = v; kind = kind; returns = returns }) (gets_atom db u atom)

unfoldable pub trans_expand_start : DepMap → ℕ → List Call
trans_expand_start db u =
    calls db u pull_in_start start false
    ++ (calls db u pull_in_start_ignored start false
        ++ (calls db u pull_in_verify verify true
            ++ (calls db u pull_in_stop stop true ++ calls db u pull_in_stop_ignored stop false)))

-- For a stop and for a restart.
unfoldable pub trans_expand_stop : DepMap → ℕ → List Call
trans_expand_stop db u = calls db u propagate_stop stop true

unfoldable pub trans_expand_restart : DepMap → ℕ → List Call
trans_expand_restart db u = calls db u propagate_restart try_restart true

unfoldable pub trans_expand_reload : DepMap → ℕ → List Call
trans_expand_reload db u = calls db u UnitRelationAtom.propagates_reload_to try_reload false

-- The calls that a new job makes; `none` is `unreachable!`.
unfoldable pub expansion : DepMap → ℕ → JobKind → Option (List Call)
unfolding trans_expand_start trans_expand_stop trans_expand_restart trans_expand_reload
expansion db u start = some (trans_expand_start db u)
expansion db u stop = some (trans_expand_stop db u)
expansion db u reload = some (trans_expand_reload db u)
expansion db u restart = some (trans_expand_start db u ++ trans_expand_restart db u)
expansion db u verify = some []
expansion db u nop = some []
expansion db u _ = none

module _ {S : Type 0} where
  -- The calls one after another, until one returns an error.
  unfoldable pub run_calls : (S → ℕ → JobKind → Expanded S) → List Call → S → Expanded S
  run_calls expand [] s = expanded s
  run_calls expand (c ∷ cs) s = elim (expand s c.unit c.kind) [
    | expanded s1 ↦ run_calls expand cs s1
    | refused s1 e ↦
        if not c.returns || is_bad_request e then run_calls expand cs s1 else refused s1 e
    | failed ↦ failed
    | exhausted ↦ exhausted
  ]

module _ {S : Type 0} (stage : Stage S) (db : DepMap) (active : ℕ → Bool) (mode : JobMode) where
  unfoldable pub job_trans_expand : ℕ → S → ℕ → JobKind → Expanded S
  unfolding trans_is_expand expansion
  job_trans_expand zero s u k = exhausted
  job_trans_expand (suc fuel) s u k =
      let kind = job_merge_unit k (active u) in
      let (s1, new) = stage.record_suspend s u kind mode in
      if trans_is_expand kind new mode
      then (elim (expansion db u kind) [
        | none ↦ failed
        | some cs ↦ run_calls (λ t v j. job_trans_expand fuel t v j) cs s1
      ])
      else expanded s1
