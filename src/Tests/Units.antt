-- ===== src/Tests/Units.antt =====
-- Dependencies of three units.
use mathlib.Core.List.{Memᴰ}
use sysmaster.Unit.State.{inactive}
use sysmaster.Unit.Entry.{SubUnit, Condition, loaded, unit_start}
use sysmaster.Unit.Entry.Started.{unit_start-negated}
use sysmaster.Job.Entry.{einval}
use sysmaster.Base.{none, some, ◌∷◌, inl, true, false, ◌≡◌, refl, ◌==◌, any, [], arith}
use sysmaster.Unit.Relation.{UnitRelation, UnitRelationAtom, relation_eq, unit_relation_to_inverse}
use sysmaster.Unit.Dependency.Table.{
  UnitDepData, dep_insert, dep_remove, is_dep_with, insert_one_way, gets_atom, is_dep_atom_with,
  dests,
}
use sysmaster.Unit.Dependency.Symmetry.{is_dep_with-dep_insert, dep_insert-IsSymmetric, IsSymmetric}
use sysmaster.Unit.Dependency.Removal.{is_dep_with-dep_remove, gets_atom-is_dep_atom_with}
use sysmaster.Base.Maps.{find, insert, keys}

abbrev nothing : UnitDepData
nothing = record { t = []; rentry = [] }

-- Unit 1 requires unit 2, with a reference, and unit 3 wants unit 1.
abbrev three : UnitDepData
three =
    dep_insert (dep_insert nothing 1 UnitRelation.requires 2 true 5) 3 UnitRelation.wants 1 false 5

three_wants : is_dep_with three.t 3 UnitRelation.wants 1 ≡ true
unfolding dep_insert is_dep_with dests insert_one_way find insert keys relation_eq
three_wants = refl

is_dep_with-dep_insert_example :
    is_dep_with (dep_insert nothing 1 UnitRelation.requires 2 true 5).t 2 UnitRelation.requires_by 1
    ≡ true
unfolding relation_eq unit_relation_to_inverse is_dep_with dests find keys
is_dep_with-dep_insert_example =
    is_dep_with-dep_insert nothing 1 UnitRelation.requires 2 true 5 2 UnitRelation.requires_by 1
      (omega arith)

nothing-IsSymmetric : IsSymmetric nothing.t
unfolding is_dep_with dests find keys
nothing-IsSymmetric s r d = refl

dep_insert-IsSymmetric_example : IsSymmetric (dep_insert nothing 1 UnitRelation.requires 2 true 5).t
dep_insert-IsSymmetric_example =
    dep_insert-IsSymmetric nothing 1 UnitRelation.requires 2 true 5 nothing-IsSymmetric

is_dep_with-dep_remove_example :
    is_dep_with (dep_remove three 1 UnitRelation.requires 2).t 1 UnitRelation.references 2 ≡ false
is_dep_with-dep_remove_example =
    is_dep_with-dep_remove three 1 UnitRelation.requires 2 1 UnitRelation.references 2

gets_atom-is_dep_atom_with_example :
    any (λ j. j == 1) (gets_atom three.t 3 UnitRelationAtom.pull_in_start_ignored)
    ≡ is_dep_atom_with three.t 3 UnitRelationAtom.pull_in_start_ignored 1
gets_atom-is_dep_atom_with_example =
    gets_atom-is_dep_atom_with three.t 3 UnitRelationAtom.pull_in_start_ignored 1

-- A unit that can do everything, and is inactive.
abbrev idle_unit : SubUnit (Unit {0})
idle_unit = record {
  current_active_state = λ s. inactive;
  start = λ s. (s, none);
  stop = λ s force. (s, none);
  can_reload = λ s. true;
  reload = λ s. (s, none);
  notify = λ s state. s;
}

-- `!/run/lock`, where there is no such file.
abbrev no_lock : Condition
no_lock = record { trigger = false; revert = true; has_params = true; found = false }

unit_start-negated_example : unit_start idle_unit loaded (no_lock ∷ []) [] tt ≡ (tt, some einval)
unit_start-negated_example =
    unit_start-negated idle_unit loaded (no_lock ∷ []) [] tt no_lock (inl refl) (Memᴰ.head refl)
      refl refl refl
