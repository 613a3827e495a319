-- ===== src/Unit/Relation.antt =====
-- core/lib/unit/deps.rs, core/bin/unit/base/relation.rs and relation_atom.rs: the relations between
-- units, the inverse of a relation, and the atoms of meaning that a relation stands for.
use sysmaster.Base.{ℕ, Bool, true, ◌==◌, ==_iff, List, [], ◌∷◌, some, get_elem?, ◌≡◌, refl, ap, ◌↔◌}

pub data UnitRelation : Type 0 where
  requires requisite wants binds_to part_of upholds requires_by requisite_of wants_by : UnitRelation
  bound_by consists_of upheld_by conflicts conflicted_by before after on_success : UnitRelation
  on_success_of on_failure on_failure_of triggers triggered_by propagates_reload_to : UnitRelation
  reload_propagated_from propagates_stop_to stop_propagated_from joins_namespace_of : UnitRelation
  references referenced_by in_slice slice_of : UnitRelation

pub data UnitRelationAtom : Type 0 where
  pull_in_start pull_in_start_ignored pull_in_verify pull_in_stop : UnitRelationAtom
  pull_in_stop_ignored add_stop_when_unneeded_queue pins_stop_when_unneeded : UnitRelationAtom
  cannot_be_active_without add_cannot_be_active_without_queue start_steadily : UnitRelationAtom
  add_start_when_upheld_queue retro_active_start_replace : UnitRelationAtom
  retro_active_start_fail retro_active_stop_on_start : UnitRelationAtom
  retro_active_stop_on_stop propagate_start_failure propagate_stop_failure : UnitRelationAtom
  propagate_inactive_start_as_failure propagate_stop propagate_restart : UnitRelationAtom
  add_default_target_dependency_queue default_target_dependencies before : UnitRelationAtom
  after on_success on_failure triggers triggered_by propagates_reload_to : UnitRelationAtom
  joins_namespace_of references referenced_by in_slice slice_of : UnitRelationAtom

-- The position of a variant: the derived `PartialEq` and `Hash` compare it.
unfoldable pub relation_index : UnitRelation → ℕ
relation_index requires = 0
relation_index requisite = 1
relation_index wants = 2
relation_index binds_to = 3
relation_index part_of = 4
relation_index upholds = 5
relation_index requires_by = 6
relation_index requisite_of = 7
relation_index wants_by = 8
relation_index bound_by = 9
relation_index consists_of = 10
relation_index upheld_by = 11
relation_index conflicts = 12
relation_index conflicted_by = 13
relation_index before = 14
relation_index after = 15
relation_index on_success = 16
relation_index on_success_of = 17
relation_index on_failure = 18
relation_index on_failure_of = 19
relation_index triggers = 20
relation_index triggered_by = 21
relation_index propagates_reload_to = 22
relation_index reload_propagated_from = 23
relation_index propagates_stop_to = 24
relation_index stop_propagated_from = 25
relation_index joins_namespace_of = 26
relation_index references = 27
relation_index referenced_by = 28
relation_index in_slice = 29
relation_index slice_of = 30

-- The shift of a variant's bit.
unfoldable pub atom_index : UnitRelationAtom → ℕ
atom_index pull_in_start = 0
atom_index pull_in_start_ignored = 1
atom_index pull_in_verify = 2
atom_index pull_in_stop = 3
atom_index pull_in_stop_ignored = 4
atom_index add_stop_when_unneeded_queue = 5
atom_index pins_stop_when_unneeded = 6
atom_index cannot_be_active_without = 7
atom_index add_cannot_be_active_without_queue = 8
atom_index start_steadily = 9
atom_index add_start_when_upheld_queue = 10
atom_index retro_active_start_replace = 11
atom_index retro_active_start_fail = 12
atom_index retro_active_stop_on_start = 13
atom_index retro_active_stop_on_stop = 14
atom_index propagate_start_failure = 15
atom_index propagate_stop_failure = 16
atom_index propagate_inactive_start_as_failure = 17
atom_index propagate_stop = 18
atom_index propagate_restart = 19
atom_index add_default_target_dependency_queue = 20
atom_index default_target_dependencies = 21
atom_index before = 22
atom_index after = 23
atom_index on_success = 24
atom_index on_failure = 25
atom_index triggers = 26
atom_index triggered_by = 27
atom_index propagates_reload_to = 28
atom_index joins_namespace_of = 29
atom_index references = 30
atom_index referenced_by = 31
atom_index in_slice = 32
atom_index slice_of = 33

unfoldable pub relation_eq : UnitRelation → UnitRelation → Bool
unfolding relation_index
relation_eq r s = relation_index r == relation_index s

unfoldable pub atom_eq : UnitRelationAtom → UnitRelationAtom → Bool
unfolding atom_index
atom_eq a b = atom_index a == atom_index b

unfoldable pub unit_relation_to_inverse : UnitRelation → UnitRelation
unit_relation_to_inverse requires = requires_by
unit_relation_to_inverse requisite = requisite_of
unit_relation_to_inverse wants = wants_by
unit_relation_to_inverse binds_to = bound_by
unit_relation_to_inverse part_of = consists_of
unit_relation_to_inverse upholds = upheld_by
unit_relation_to_inverse requires_by = requires
unit_relation_to_inverse requisite_of = requisite
unit_relation_to_inverse wants_by = wants
unit_relation_to_inverse bound_by = binds_to
unit_relation_to_inverse consists_of = part_of
unit_relation_to_inverse upheld_by = upholds
unit_relation_to_inverse conflicts = conflicted_by
unit_relation_to_inverse conflicted_by = conflicts
unit_relation_to_inverse before = after
unit_relation_to_inverse after = before
unit_relation_to_inverse on_success = on_success_of
unit_relation_to_inverse on_success_of = on_success
unit_relation_to_inverse on_failure = on_failure_of
unit_relation_to_inverse on_failure_of = on_failure
unit_relation_to_inverse triggers = triggered_by
unit_relation_to_inverse triggered_by = triggers
unit_relation_to_inverse propagates_reload_to = reload_propagated_from
unit_relation_to_inverse reload_propagated_from = propagates_reload_to
unit_relation_to_inverse propagates_stop_to = stop_propagated_from
unit_relation_to_inverse stop_propagated_from = propagates_stop_to
unit_relation_to_inverse joins_namespace_of = joins_namespace_of
unit_relation_to_inverse references = referenced_by
unit_relation_to_inverse referenced_by = references
unit_relation_to_inverse in_slice = slice_of
unit_relation_to_inverse slice_of = in_slice

-- The variants in order.
unfoldable pub relations : List UnitRelation
relations =
    requires ∷ requisite ∷ wants ∷ binds_to ∷ part_of ∷ upholds ∷ requires_by ∷ requisite_of
    ∷ wants_by ∷ bound_by ∷ consists_of ∷ upheld_by ∷ conflicts ∷ conflicted_by ∷ before ∷ after
    ∷ on_success ∷ on_success_of ∷ on_failure ∷ on_failure_of ∷ triggers ∷ triggered_by
    ∷ propagates_reload_to ∷ reload_propagated_from ∷ propagates_stop_to ∷ stop_propagated_from
    ∷ joins_namespace_of ∷ references ∷ referenced_by ∷ in_slice ∷ slice_of ∷ []

unfoldable pub atoms : List UnitRelationAtom
atoms =
    pull_in_start ∷ pull_in_start_ignored ∷ pull_in_verify ∷ pull_in_stop ∷ pull_in_stop_ignored
    ∷ add_stop_when_unneeded_queue ∷ pins_stop_when_unneeded ∷ cannot_be_active_without
    ∷ add_cannot_be_active_without_queue ∷ start_steadily ∷ add_start_when_upheld_queue
    ∷ retro_active_start_replace ∷ retro_active_start_fail ∷ retro_active_stop_on_start
    ∷ retro_active_stop_on_stop ∷ propagate_start_failure ∷ propagate_stop_failure
    ∷ propagate_inactive_start_as_failure ∷ propagate_stop ∷ propagate_restart
    ∷ add_default_target_dependency_queue ∷ default_target_dependencies ∷ before ∷ after
    ∷ on_success ∷ on_failure ∷ triggers ∷ triggered_by ∷ propagates_reload_to ∷ joins_namespace_of
    ∷ references ∷ referenced_by ∷ in_slice ∷ slice_of ∷ []

pub get_elem?-relations : (r : UnitRelation) → get_elem? relations (relation_index r) ≡ some r
unfolding relations relation_index
get_elem?-relations requires = refl
get_elem?-relations _ = refl

pub get_elem?-atoms : (a : UnitRelationAtom) → get_elem? atoms (atom_index a) ≡ some a
unfolding atoms atom_index
get_elem?-atoms pull_in_start = refl
get_elem?-atoms _ = refl

pub relation_eq_iff : (r s : UnitRelation) → (relation_eq r s ≡ true) ↔ (r ≡ s)
unfolding relation_eq
relation_eq_iff r s = (
  λ h.
      let e : relation_index r ≡ relation_index s =
        (==_iff (relation_index r) (relation_index s)).0 h in
      cc (get_elem?-relations r, get_elem?-relations s, e),
  λ h. (==_iff _ _).1 (ap relation_index h),
)

-- The inverse of the inverse of a relation is the relation.
pub inverse-inverse : (r : UnitRelation) → unit_relation_to_inverse (unit_relation_to_inverse r) ≡ r
unfolding unit_relation_to_inverse
inverse-inverse requires = refl
inverse-inverse _ = refl
