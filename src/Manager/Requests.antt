-- ===== src/Manager/Requests.antt =====
-- core/bin/unit/manager.rs: the requests of the manager of units and what units ask it. The requests
-- change the queues and tables of `Runtime`, the job manager and its world.
use sysmaster.Base.{
  ℕ, Bool, true, false, not, ◌&&◌, any, Option, none, some, List, [], is_some, Checked, panic, ok,
  if◌then◌else◌,
}
use sysmaster.Base.Maps.{id_key, find}
use sysmaster.Unit.State.{ActiveState, active, inactive, failed, activating, reloading}
use sysmaster.Unit.Relation.{UnitRelation, UnitRelationAtom, triggers}
use sysmaster.Unit.Dependency.Table.{dep_insert, gets, gets_atom, is_dep_atom_with}
use sysmaster.Unit.Entry.{is_loaded}
use sysmaster.Unit.Loading.{Loader, Runtime, load_unit_named}
use sysmaster.Job.Kind.{JobKind, start, stop, reload, restart}
use sysmaster.Job.Engine.{World}
use sysmaster.Job.Transaction.{JobError, replace}
use sysmaster.Job.Manager.{Around, JobManager, Executed, committed, rejected, exec}
use sysmaster.Job.Manager.Finish.{has_stop_job}

-- What the requests of a unit are: those that a user makes can be refused by its configuration.
pub data Request : Type 0 where
  start_unit start_unit_manual stop_unit stop_unit_manual reload_request restart_unit : Request

pub data RequestError : Type 0 where
  enoent ebusy erefuse_manual_start erefuse_manual_stop internal_error : RequestError
  refused_job : JobError → RequestError

pub record Settings : Type 0 where
  pub refuse_manual_start : ℕ → Bool
  pub refuse_manual_stop : ℕ → Bool
  pub expand_fuel : ℕ
  pub load_fuel : ℕ

pub record UnitManager (E S : Type 0) : Type 0 where
  pub rt : Runtime E
  pub jm : JobManager
  pub world : World S

abbrev error_of : Executed → Option RequestError
error_of (committed ch) = none
error_of (rejected e) = some (refused_job e)

-- `active_or_activating` and `activated` of a unit.
abbrev pub active_or_activating : ActiveState → Bool
active_or_activating active = true
active_or_activating activating = true
active_or_activating reloading = true
active_or_activating _ = false

abbrev activated : ActiveState → Bool
activated inactive = false
activated failed = false
activated activating = false
activated _ = true

module _ {E S : Type 0} (conf : Settings) (out : Loader E) (around : Around S) where
  unfoldable pub answered :
      UnitManager E S
      → Checked ((JobManager × Executed) × World S)
      → Checked (UnitManager E S × Option RequestError)
  answered m panic = panic
  answered m (ok ((jm, answer), w)) = ok (record m { jm = jm; world = w }, error_of answer)

  -- `none` is `Ok`. The jobs are expanded over the dependencies as they are.
  unfoldable pub exec_kind :
      UnitManager E S → ℕ → JobKind → Checked (UnitManager E S × Option RequestError)
  unfolding answered
  exec_kind m u kind = answered m (
      exec around m.rt.deps.t conf.expand_fuel m.jm (record { unit = u; kind = kind }) replace
        m.world)

  -- A unit is loaded, with all that its load asks for; a run out of fuel counts as a panic.
  unfoldable pub load_unitx : UnitManager E S → ℕ → Checked (UnitManager E S × Bool)
  load_unitx m u = elim (load_unit_named out conf.load_fuel m.rt u) [
    | none ↦ panic
    | some (rt, there) ↦ ok (record m { rt = rt }, there)
  ]

  unfoldable pub with_unit :
      UnitManager E S
      → ℕ
      → RequestError
      → (UnitManager E S → Checked (UnitManager E S × Option RequestError))
      → Checked (UnitManager E S × Option RequestError)
  unfolding load_unitx
  with_unit m u missing f = elim (load_unitx m u) [
    | panic ↦ panic
    | ok (m1, there) ↦ if there then f m1 else ok (m1, some missing)
  ]

  unfoldable pub unless_refused :
      Bool
      → RequestError
      → ℕ
      → JobKind
      → UnitManager E S
      → Checked (UnitManager E S × Option RequestError)
  unfolding exec_kind
  unless_refused refuses e u kind m = if refuses then ok (m, some e) else exec_kind m u kind

  unfoldable pub request :
      Request → UnitManager E S → ℕ → Checked (UnitManager E S × Option RequestError)
  unfolding with_unit unless_refused exec_kind
  request start_unit m u = with_unit m u enoent (λ m1. exec_kind m1 u start)
  request start_unit_manual m u =
      with_unit m u enoent
        (unless_refused (conf.refuse_manual_start u) erefuse_manual_start u start)
  request stop_unit m u = with_unit m u enoent (λ m1. exec_kind m1 u stop)
  request stop_unit_manual m u =
      with_unit m u enoent (unless_refused (conf.refuse_manual_stop u) erefuse_manual_stop u stop)
  request reload_request m u = with_unit m u internal_error (λ m1. exec_kind m1 u reload)
  request restart_unit m u = with_unit m u internal_error (λ m1. exec_kind m1 u restart)

  unfoldable pub load_unit_success : UnitManager E S → ℕ → Checked (UnitManager E S × Bool)
  unfolding load_unitx
  load_unit_success m u = elim (load_unitx m u) [
    | panic ↦ panic
    | ok (m1, there) ↦ ok (m1, there && is_loaded (m1.rt.loads u).load_state)
  ]

  -- The mask is that of the code, whatever mask is asked for.
  unfoldable pub unit_add_dependency :
      UnitManager E S
      → ℕ
      → UnitRelation
      → ℕ
      → Bool
      → Checked (UnitManager E S × Option RequestError)
  unfolding with_unit
  unit_add_dependency m u relation target add_ref = with_unit m u enoent (λ m1.
      with_unit m1 target enoent (λ m2. ok (
        record m2 {
          rt = record m2.rt { deps = dep_insert m2.rt.deps u relation target add_ref 4 };
        },
        none,
      )))

  unfoldable pub unit_add_two_dependency :
      UnitManager E S
      → ℕ
      → UnitRelation
      → UnitRelation
      → ℕ
      → Bool
      → Checked (UnitManager E S × Option RequestError)
  unit_add_two_dependency m u ra rb target add_ref =
      elim (unit_add_dependency m u ra target add_ref) [
        | panic ↦ panic
        | ok (m1, some e) ↦ ok (m1, some e)
        | ok (m1, none) ↦ unit_add_dependency m1 u rb target add_ref
      ]

  -- What units ask.
  unfoldable pub unit_has_dependecy : UnitManager E S → ℕ → UnitRelationAtom → ℕ → Bool
  unit_has_dependecy m u atom v =
      is_some (find u m.rt.units)
      && (is_some (find v m.rt.units) && is_dep_atom_with m.rt.deps.t u atom v)

  unfoldable pub get_dependency_list : UnitManager E S → ℕ → UnitRelationAtom → List ℕ
  get_dependency_list m u atom =
      if is_some (find u m.rt.units) then gets_atom m.rt.deps.t u atom else []

  unfoldable pub um_has_stop_job : UnitManager E S → ℕ → Bool
  um_has_stop_job m u = is_some (find u m.rt.units) && has_stop_job m.jm u

  unfoldable pub relation_active_or_pending : UnitManager E S → ℕ → Bool
  relation_active_or_pending m u =
      any (λ v. active_or_activating (around.ops.active_state m.world.units v))
        (gets m.rt.deps.t u triggers)

  -- A unit that can be started for another one.
  unfoldable pub unit_enabled : UnitManager E S → ℕ → Option RequestError
  unit_enabled m u =
      if not (is_some (find u m.rt.units))
      then some enoent
      else if not (is_loaded (m.rt.loads u).load_state)
      then some enoent
      else if activated (around.ops.active_state m.world.units u)
      then some ebusy
      else none
