-- ===== src/Unit/Loading.antt =====
-- core/bin/unit/runtime.rs, core/bin/unit/uload.rs and core/bin/unit/entry/load.rs: the units and the
-- two queues on which they are loaded and get their default dependencies.
pub mod Ends
pub mod Rerun
use sysmaster.Base.{
  ℕ, zero, suc, Bool, true, false, not, ◌&&◌, ◌||◌, Option, none, some, List, [], ◌∷◌, ◌++◌,
  Checked, panic, ok, unwrap, ◌>>=◌, ◌>>◌, is_some, ◌==◌, if◌then◌else◌,
}
use sysmaster.Base.Maps.{id_key, find, insert}
use sysmaster.Unit.Relation.{
  UnitRelation, UnitRelationAtom, after, wants, before, requires, binds_to, requisite, on_failure,
  on_success, part_of, conflicts,
}
use sysmaster.Unit.Dependency.Table.{UnitDepData, dep_insert, gets_atom, is_dep_atom_with}
use sysmaster.Unit.Entry.{UnitLoadState, stub, loaded, not_found, is_loaded}
use sysmaster.Reli.Last.{ReliLast, set_unit, clear_unit, set_frame, clear_frame}

pub data UnitType : Type 0 where
  service target socket mount type_max type_invalid type_errno_max : UnitType

-- The dependencies in the configuration of a unit.
pub record UnitSection : Type 0 where
  pub wants : List ℕ
  pub after : List ℕ
  pub before : List ℕ
  pub requires : List ℕ
  pub binds_to : List ℕ
  pub requisite : List ℕ
  pub on_failure : List ℕ
  pub on_success : List ℕ
  pub part_of : List ℕ
  pub conflicts : List ℕ

abbrev pub DepConf : Type 0
DepConf = List (UnitRelation × List ℕ)

-- The table of units, by name.
abbrev pub Names : Type 0
Names = List (ℕ × Unit {0})

-- The load of a sub-unit, up to its result: it changes what is outside, looks at that, at the units and
-- at the dependencies, and asks the manager for dependencies (`unit_add_dependency`: the unit, the
-- relation, the target and `add_ref`; the manager ignores the mask), each of which is answered.
pub data SubLoad (E : Type 0) : Type 0 where
  finish : Bool → SubLoad E
  act : (E → E) → SubLoad E → SubLoad E
  look : (E → Names → UnitDepData → SubLoad E) → SubLoad E
  add_dependency : ℕ → UnitRelation → ℕ → Bool → (Bool → SubLoad E) → SubLoad E

-- What is outside: the type that a name ends in, the plugin that creates a unit, the files of its
-- configuration (`build_name_map` and `load_fragment_and_dropin`), the load of its sub-unit, and the
-- database to which the reliability engine commits. `none` and `false` are errors.
pub record Loader (E : Type 0) : Type 0 where
  pub unit_type : ℕ → UnitType
  pub create_unit : E → ℕ → E × Bool
  pub load_confs : E → ℕ → Bool → E × Option UnitSection
  pub sub_load : E → ℕ → SubLoad E
  pub default_dependencies : E → ℕ → Bool
  pub commit : E → E

-- `UeLoad`, with the two flags that its `UnitRePps` has in the database.
pub record UeLoad : Type 0 where
  pub load_state : UnitLoadState
  pub in_load_queue : Bool
  pub in_target_dep_queue : Bool
  pub pps_load : Bool
  pub pps_target_deps : Bool

-- The names in the table of units, the `UeLoad` of each unit, the queues of `UnitRTData`, and what
-- their work changes.
pub record Runtime (E : Type 0) : Type 0 where
  pub units : Names
  pub loads : ℕ → UeLoad
  pub load_queue : List ℕ
  pub target_dep_queue : List ℕ
  pub deps : UnitDepData
  pub last : ReliLast
  pub env : E

abbrev pub is_mount : UnitType → Bool
is_mount mount = true
is_mount _ = false

abbrev pub is_target : UnitType → Bool
is_target target = true
is_target _ = false

abbrev is_invalid : UnitType → Bool
is_invalid type_invalid = true
is_invalid _ = false

unfoldable pub new_load : UeLoad
new_load = record {
  load_state = stub;
  in_load_queue = false;
  in_target_dep_queue = false;
  pps_load = false;
  pps_target_deps = false;
}

-- `parse`
unfoldable pub parse : UnitSection → DepConf
parse c =
    (wants, c.wants)
    ∷ (after, c.after)
    ∷ (before, c.before)
    ∷ (requires, c.requires)
    ∷ (binds_to, c.binds_to)
    ∷ (requisite, c.requisite)
    ∷ (on_failure, c.on_failure)
    ∷ (on_success, c.on_success)
    ∷ (part_of, c.part_of)
    ∷ (conflicts, c.conflicts)
    ∷ []

module _ {E : Type 0} where
  abbrev change_load : Runtime E → ℕ → UeLoad → Runtime E
  change_load s u l = record s { loads = λ v. if v == u then l else s.loads v }

  unfoldable pub set_in_load_queue : Runtime E → ℕ → Bool → Runtime E
  set_in_load_queue s u t = change_load s u (record (s.loads u) { in_load_queue = t; pps_load = t })

  unfoldable pub set_in_target_dep_queue : Runtime E → ℕ → Bool → Runtime E
  set_in_target_dep_queue s u t =
      change_load s u (record (s.loads u) { in_target_dep_queue = t; pps_target_deps = t })

  unfoldable pub set_load_state : Runtime E → ℕ → UnitLoadState → Runtime E
  set_load_state s u state = change_load s u (record (s.loads u) { load_state = state })

  unfoldable pub push_load_queue : Runtime E → ℕ → Runtime E
  push_load_queue s u =
      if (s.loads u).in_load_queue
      then s
      else (let s1 = set_in_load_queue s u true in
          record s1 { load_queue = s1.load_queue ++ u ∷ [] })

  unfoldable pub push_target_dep_queue : Runtime E → ℕ → Runtime E
  push_target_dep_queue s u =
      if (s.loads u).in_target_dep_queue
      then s
      else (let s1 = set_in_target_dep_queue s u true in
          record s1 { target_dep_queue = s1.target_dep_queue ++ u ∷ [] })

  unfoldable pub entry_clear : Runtime E → Runtime E
  entry_clear s = record s { load_queue = []; target_dep_queue = [] }

  -- `db_map`, over the units that are in the database: one that is not there is a panic.
  unfoldable pub map_load : Runtime E → ℕ → Checked (Runtime E)
  map_load s u =
      if (s.loads u).pps_load
      then (unwrap (find u s.units) >>= λ x. ok (push_load_queue s u))
      else ok s

  unfoldable pub map_target_deps : Runtime E → ℕ → Checked (Runtime E)
  map_target_deps s u =
      if (s.loads u).pps_target_deps
      then (unwrap (find u s.units) >>= λ x. ok (push_target_dep_queue s u))
      else ok s

  unfoldable pub rt_db_map : Runtime E → List ℕ → Checked (Runtime E)
  unfolding map_load map_target_deps
  rt_db_map s [] = ok s
  rt_db_map s (u ∷ us) = do s1 ← map_load s u; s2 ← map_target_deps s1 u; rt_db_map s2 us

-- The work on the queues, `none` when it runs out of fuel.
abbrev pub Dispatch : Type 0 → Type 0
Dispatch E = Runtime E → Option (Runtime E)

module _ {E : Type 0} (out : Loader E) where
  unfoldable pub try_new_unit : E → ℕ → E × Bool
  try_new_unit e name =
      if is_invalid (out.unit_type name) then (e, false) else out.create_unit e name

  -- Whether the unit is there afterwards.
  unfoldable pub prepare_unit : Runtime E → ℕ → Runtime E × Bool
  prepare_unit s name =
      let (e, created) = try_new_unit s.env name in
      let s1 = record s { env = e } in
      let s2 = change_load s1 name new_load in
      if created
      then (push_load_queue (record s2 { units = insert name tt s2.units }) name, true)
      else (s1, false)

  unfoldable pub push_dep_unit : Runtime E → ℕ → Runtime E × Bool
  push_dep_unit s name = if is_some (find name s.units) then (s, true) else prepare_unit s name

  -- The loop over the units of one relation; `false` is its early return.
  unfoldable pub insert_deps : Runtime E → ℕ → UnitRelation → List ℕ → Runtime E × Bool
  insert_deps s u relation [] = (s, true)
  insert_deps s u relation (o ∷ os) =
      let (s1, there) = push_dep_unit s o in
      let rest =
        insert_deps (record s1 { deps = dep_insert s1.deps u relation o true 0 }) u relation os in
      if there then rest else (s1, false)

  unfoldable pub insert_relations : Runtime E → ℕ → DepConf → Runtime E
  insert_relations s u [] = s
  insert_relations s u ((relation, os) ∷ config) =
      let (s1, done) = insert_deps s u relation os in
      let rest = insert_relations s1 u config in if done then rest else s1

  -- The subscriber of the table of configured dependencies.
  unfoldable pub insert_udconf : Runtime E → ℕ → DepConf → Runtime E
  insert_udconf s u config = if is_some (find u s.units) then insert_relations s u config else s

  -- `UnitLoadData::load_unit`: whether there is such a unit. A new one is loaded at once, with all
  -- that is on the queue, by `dispatch`.
  unfoldable pub load_named : Dispatch E → Runtime E → ℕ → Option (Runtime E × Bool)
  load_named dispatch s name =
      if is_some (find name s.units)
      then some (s, true)
      else (let (s1, created) = prepare_unit s name in
          if created
          then (elim (dispatch s1) [ none ↦ none | some s2 ↦ some (s2, true) ])
          else some (s1, false))

  -- A unit that is not there is an early return.
  unfoldable pub if_there :
      Option (Runtime E × Bool)
      → (Runtime E → Option (Runtime E × Bool))
      → Option (Runtime E × Bool)
  if_there none f = none
  if_there (some (s, true)) f = f s
  if_there (some (s, false)) f = some (s, false)

  -- `UnitManager::unit_add_dependency`: the mask is always the same.
  unfoldable pub add_dep :
      Dispatch E → Runtime E → ℕ → UnitRelation → ℕ → Bool → Option (Runtime E × Bool)
  unfolding load_named if_there
  add_dep dispatch s u relation other add_ref = if_there (load_named dispatch s u) (λ s1.
      if_there (load_named dispatch s1 other)
        (λ s2. some (record s2 { deps = dep_insert s2.deps u relation other add_ref 4 }, true)))

  -- The load of a sub-unit calls the manager back.
  unfoldable pub run_sub : Dispatch E → SubLoad E → Runtime E → Option (Runtime E × Bool)
  run_sub dispatch (finish success) s = some (s, success)
  run_sub dispatch (act f k) s = run_sub dispatch k (record s { env = f s.env })
  run_sub dispatch (look k) s = run_sub dispatch (k s.env s.units s.deps) s
  run_sub dispatch (add_dependency u relation other add_ref k) s =
      elim (add_dep dispatch s u relation other add_ref) [
        | none ↦ none
        | some (s1, added) ↦ run_sub dispatch (k added) s1
      ]

  unfoldable pub set_loaded : ℕ → Option (Runtime E × Bool) → Option (Runtime E × Bool)
  set_loaded u none = none
  set_loaded u (some (s, true)) = some (set_load_state s u loaded, true)
  set_loaded u (some (s, false)) = some (s, false)

  -- `Unit::load_unit`, and whether it succeeds.
  unfoldable pub load_unit : Dispatch E → Runtime E → ℕ → Option (Runtime E × Bool)
  unfolding run_sub set_loaded
  load_unit dispatch s u =
      let s1 = set_in_load_queue s u false in
      if is_mount (out.unit_type u)
      then some (set_load_state s1 u loaded, true)
      else (let (e, read) = out.load_confs s1.env u (is_loaded (s1.loads u).load_state) in
          let s2 = record s1 { env = e } in
          elim read [
            | none ↦ some (set_load_state s2 u not_found, false)
            | some c ↦
                let s3 = insert_udconf s2 u (parse c) in
                set_loaded u (run_sub dispatch (out.sub_load s3.env u) s3)
          ])

  -- What follows a load in the loop over the load queue.
  unfoldable pub after_load : ℕ → Option (Runtime E × Bool) → Option (Runtime E)
  after_load u none = none
  after_load u (some (s2, success)) =
      let s3 =
        if success && is_loaded (s2.loads u).load_state then push_target_dep_queue s2 u else s2 in
      some (record s3 { env = out.commit s3.env; last = clear_unit s3.last })

  -- One turn of the loop over the load queue.
  unfoldable pub load_first : Dispatch E → Runtime E → ℕ → Option (Runtime E)
  unfolding load_unit after_load
  load_first dispatch s u =
      after_load u (load_unit dispatch (record s { last = set_unit s.last u }) u)

  -- The loop over the default targets of a unit: each of its tests ends it.
  unfoldable pub insert_targets : Runtime E → ℕ → List ℕ → Runtime E
  insert_targets s u [] = s
  insert_targets s u (t ∷ ts) =
      let s1 = record s { deps = dep_insert s.deps t after u true 4 } in
      let rest = insert_targets s1 u ts in
      if not (is_target (out.unit_type t))
      then s
      else if not (is_loaded (s.loads u).load_state) || not (is_loaded (s.loads t).load_state)
      then s
      else if not (out.default_dependencies s.env u) || not (out.default_dependencies s.env t)
      then s
      else if is_dep_atom_with s.deps.t t UnitRelationAtom.before u
      then s
      else rest

  unfoldable pub dispatch_target_dep_unit : Runtime E → ℕ → Runtime E
  dispatch_target_dep_unit s u =
      let s1 = set_in_target_dep_queue s u false in
      insert_targets s1 u (gets_atom s1.deps.t u UnitRelationAtom.default_target_dependencies)

  unfoldable pub target_each : List ℕ → Runtime E → Runtime E
  target_each [] s = s
  target_each (u ∷ us) s =
      let s1 = dispatch_target_dep_unit (record s { last = set_unit s.last u }) u in
      target_each us (record s1 { env = out.commit s1.env; last = clear_unit s1.last })

  -- The work of the loop adds nothing to the queue.
  unfoldable pub dispatch_target_dep_queue : Runtime E → Runtime E
  unfolding target_each
  dispatch_target_dep_queue s = target_each s.target_dep_queue (record s { target_dep_queue = [] })

  -- The work on both queues, with the loop over the load queue. The frames are `Queue` with `Load`,
  -- and `Queue` with `TargetDeps`.
  unfoldable pub dispatch_with : Dispatch E → Dispatch E
  dispatch_with loop s =
      elim (loop
        (record s { last = set_frame s.last (record { f1 = 0; f2 = some 0; f3 = none }) })) [
          | none ↦ none
          | some s1 ↦
              let s2 = record s1 {
                env = out.commit s1.env;
                last = set_frame (clear_frame s1.last) (record { f1 = 0; f2 = some 1; f3 = none });
              } in
              let s3 = dispatch_target_dep_queue s2 in
              some (record s3 { env = out.commit s3.env; last = clear_frame s3.last })
        ]

  -- The loop over the load queue, on fuel, with the loops inside it.
  unfoldable pub load_all : ℕ → Runtime E → Option (Runtime E)
  unfolding dispatch_with load_first
  load_all zero s = none
  load_all (suc fuel) s = elim s.load_queue [
    | [] ↦ some s
    | u ∷ us ↦ elim (load_first (dispatch_with (load_all fuel)) (record s { load_queue = us }) u) [
      | none ↦ none
      | some s1 ↦ load_all fuel s1
    ]
  ]

  unfoldable pub dispatch_load_queue : ℕ → Dispatch E
  unfolding load_all dispatch_with
  dispatch_load_queue fuel = dispatch_with (load_all fuel)

  unfoldable pub load_unit_named : ℕ → Runtime E → ℕ → Option (Runtime E × Bool)
  unfolding dispatch_load_queue
  load_unit_named fuel = load_named (dispatch_load_queue fuel)
