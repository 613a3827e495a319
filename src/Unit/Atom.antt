-- ===== src/Unit/Atom.antt =====
-- core/bin/unit/base/relation_atom.rs: from a relation to its atoms and back.
pub mod Agreement
use sysmaster.Base.{List, [], ◌∷◌}
use sysmaster.Unit.Relation.{UnitRelation, UnitRelationAtom}

unfoldable pub unit_relation_to_atom : UnitRelation → List UnitRelationAtom
unit_relation_to_atom UnitRelation.requires =
    UnitRelationAtom.pull_in_start ∷ UnitRelationAtom.retro_active_start_replace
    ∷ UnitRelationAtom.add_stop_when_unneeded_queue
    ∷ UnitRelationAtom.add_default_target_dependency_queue ∷ []
unit_relation_to_atom UnitRelation.requisite =
    UnitRelationAtom.pull_in_verify ∷ UnitRelationAtom.add_stop_when_unneeded_queue
    ∷ UnitRelationAtom.add_default_target_dependency_queue ∷ []
unit_relation_to_atom UnitRelation.wants =
    UnitRelationAtom.pull_in_start_ignored ∷ UnitRelationAtom.retro_active_start_fail
    ∷ UnitRelationAtom.add_stop_when_unneeded_queue ∷ UnitRelationAtom.default_target_dependencies
    ∷ []
unit_relation_to_atom UnitRelation.binds_to =
    UnitRelationAtom.pull_in_start ∷ UnitRelationAtom.retro_active_start_replace
    ∷ UnitRelationAtom.cannot_be_active_without ∷ UnitRelationAtom.add_stop_when_unneeded_queue
    ∷ UnitRelationAtom.add_default_target_dependency_queue ∷ []
unit_relation_to_atom UnitRelation.part_of =
    UnitRelationAtom.add_default_target_dependency_queue ∷ []
unit_relation_to_atom UnitRelation.upholds =
    UnitRelationAtom.pull_in_start_ignored ∷ UnitRelationAtom.retro_active_start_replace
    ∷ UnitRelationAtom.add_start_when_upheld_queue ∷ UnitRelationAtom.add_stop_when_unneeded_queue
    ∷ UnitRelationAtom.add_default_target_dependency_queue ∷ []
unit_relation_to_atom UnitRelation.requires_by =
    UnitRelationAtom.propagate_stop ∷ UnitRelationAtom.propagate_restart
    ∷ UnitRelationAtom.propagate_start_failure ∷ UnitRelationAtom.pins_stop_when_unneeded
    ∷ UnitRelationAtom.default_target_dependencies ∷ []
unit_relation_to_atom UnitRelation.requisite_of =
    UnitRelationAtom.propagate_stop ∷ UnitRelationAtom.propagate_restart
    ∷ UnitRelationAtom.propagate_start_failure
    ∷ UnitRelationAtom.propagate_inactive_start_as_failure
    ∷ UnitRelationAtom.pins_stop_when_unneeded ∷ UnitRelationAtom.default_target_dependencies ∷ []
unit_relation_to_atom UnitRelation.wants_by =
    UnitRelationAtom.default_target_dependencies ∷ UnitRelationAtom.pins_stop_when_unneeded ∷ []
unit_relation_to_atom UnitRelation.bound_by =
    UnitRelationAtom.retro_active_stop_on_stop ∷ UnitRelationAtom.propagate_stop
    ∷ UnitRelationAtom.propagate_restart ∷ UnitRelationAtom.propagate_start_failure
    ∷ UnitRelationAtom.pins_stop_when_unneeded ∷ UnitRelationAtom.add_cannot_be_active_without_queue
    ∷ UnitRelationAtom.default_target_dependencies ∷ []
unit_relation_to_atom UnitRelation.consists_of =
    UnitRelationAtom.propagate_stop ∷ UnitRelationAtom.propagate_restart ∷ []
unit_relation_to_atom UnitRelation.upheld_by =
    UnitRelationAtom.start_steadily ∷ UnitRelationAtom.default_target_dependencies
    ∷ UnitRelationAtom.pins_stop_when_unneeded ∷ []
unit_relation_to_atom UnitRelation.conflicts =
    UnitRelationAtom.pull_in_stop ∷ UnitRelationAtom.retro_active_stop_on_start ∷ []
unit_relation_to_atom UnitRelation.conflicted_by =
    UnitRelationAtom.pull_in_stop_ignored ∷ UnitRelationAtom.retro_active_stop_on_start
    ∷ UnitRelationAtom.propagate_stop_failure ∷ []
unit_relation_to_atom UnitRelation.before = UnitRelationAtom.before ∷ []
unit_relation_to_atom UnitRelation.after = UnitRelationAtom.after ∷ []
unit_relation_to_atom UnitRelation.on_success = UnitRelationAtom.on_success ∷ []
unit_relation_to_atom UnitRelation.on_success_of = []
unit_relation_to_atom UnitRelation.on_failure = UnitRelationAtom.on_failure ∷ []
unit_relation_to_atom UnitRelation.on_failure_of = []
unit_relation_to_atom UnitRelation.triggers = UnitRelationAtom.triggers ∷ []
unit_relation_to_atom UnitRelation.triggered_by = UnitRelationAtom.triggered_by ∷ []
unit_relation_to_atom UnitRelation.propagates_reload_to = UnitRelationAtom.propagates_reload_to ∷ []
unit_relation_to_atom UnitRelation.reload_propagated_from = []
unit_relation_to_atom UnitRelation.propagates_stop_to =
    UnitRelationAtom.retro_active_stop_on_stop ∷ UnitRelationAtom.propagate_stop ∷ []
unit_relation_to_atom UnitRelation.stop_propagated_from = []
unit_relation_to_atom UnitRelation.joins_namespace_of = UnitRelationAtom.joins_namespace_of ∷ []
unit_relation_to_atom UnitRelation.references = UnitRelationAtom.references ∷ []
unit_relation_to_atom UnitRelation.referenced_by = UnitRelationAtom.references ∷ []
unit_relation_to_atom UnitRelation.in_slice = UnitRelationAtom.in_slice ∷ []
unit_relation_to_atom UnitRelation.slice_of = UnitRelationAtom.slice_of ∷ []

unfoldable pub unit_relation_from_unique_atom : UnitRelationAtom → List UnitRelation
unit_relation_from_unique_atom UnitRelationAtom.pull_in_start =
    UnitRelation.requires ∷ UnitRelation.binds_to ∷ []
unit_relation_from_unique_atom UnitRelationAtom.pull_in_start_ignored =
    UnitRelation.wants ∷ UnitRelation.upholds ∷ []
unit_relation_from_unique_atom UnitRelationAtom.pull_in_verify = UnitRelation.requisite ∷ []
unit_relation_from_unique_atom UnitRelationAtom.pull_in_stop = UnitRelation.conflicts ∷ []
unit_relation_from_unique_atom UnitRelationAtom.pull_in_stop_ignored =
    UnitRelation.conflicted_by ∷ []
unit_relation_from_unique_atom UnitRelationAtom.add_stop_when_unneeded_queue =
    UnitRelation.requires ∷ UnitRelation.requisite ∷ UnitRelation.wants ∷ UnitRelation.binds_to
    ∷ UnitRelation.upholds ∷ []
unit_relation_from_unique_atom UnitRelationAtom.pins_stop_when_unneeded =
    UnitRelation.requires_by ∷ UnitRelation.requisite_of ∷ UnitRelation.wants_by
    ∷ UnitRelation.bound_by ∷ UnitRelation.upheld_by ∷ []
unit_relation_from_unique_atom UnitRelationAtom.cannot_be_active_without =
    UnitRelation.binds_to ∷ []
unit_relation_from_unique_atom UnitRelationAtom.add_cannot_be_active_without_queue =
    UnitRelation.bound_by ∷ []
unit_relation_from_unique_atom UnitRelationAtom.start_steadily = UnitRelation.upheld_by ∷ []
unit_relation_from_unique_atom UnitRelationAtom.add_start_when_upheld_queue =
    UnitRelation.upholds ∷ []
unit_relation_from_unique_atom UnitRelationAtom.retro_active_start_replace =
    UnitRelation.requires ∷ UnitRelation.binds_to ∷ UnitRelation.upholds ∷ []
unit_relation_from_unique_atom UnitRelationAtom.retro_active_start_fail = UnitRelation.wants ∷ []
unit_relation_from_unique_atom UnitRelationAtom.retro_active_stop_on_start =
    UnitRelation.conflicts ∷ UnitRelation.conflicted_by ∷ []
unit_relation_from_unique_atom UnitRelationAtom.retro_active_stop_on_stop =
    UnitRelation.bound_by ∷ UnitRelation.propagates_stop_to ∷ []
unit_relation_from_unique_atom UnitRelationAtom.propagate_start_failure =
    UnitRelation.requires_by ∷ UnitRelation.requisite_of ∷ UnitRelation.bound_by ∷ []
unit_relation_from_unique_atom UnitRelationAtom.propagate_stop_failure =
    UnitRelation.conflicted_by ∷ []
unit_relation_from_unique_atom UnitRelationAtom.propagate_inactive_start_as_failure =
    UnitRelation.requisite_of ∷ []
unit_relation_from_unique_atom UnitRelationAtom.propagate_stop =
    UnitRelation.requires_by ∷ UnitRelation.requisite_of ∷ UnitRelation.bound_by
    ∷ UnitRelation.consists_of ∷ UnitRelation.propagates_stop_to ∷ []
unit_relation_from_unique_atom UnitRelationAtom.propagate_restart =
    UnitRelation.requires_by ∷ UnitRelation.requisite_of ∷ UnitRelation.bound_by
    ∷ UnitRelation.consists_of ∷ []
unit_relation_from_unique_atom UnitRelationAtom.add_default_target_dependency_queue =
    UnitRelation.requires ∷ UnitRelation.requisite ∷ UnitRelation.wants ∷ UnitRelation.binds_to
    ∷ UnitRelation.part_of ∷ UnitRelation.upholds ∷ []
unit_relation_from_unique_atom UnitRelationAtom.default_target_dependencies =
    UnitRelation.requires_by ∷ UnitRelation.requisite_of ∷ UnitRelation.wants_by
    ∷ UnitRelation.bound_by ∷ UnitRelation.upheld_by ∷ []
unit_relation_from_unique_atom UnitRelationAtom.before = UnitRelation.before ∷ []
unit_relation_from_unique_atom UnitRelationAtom.after = UnitRelation.after ∷ []
unit_relation_from_unique_atom UnitRelationAtom.on_success = UnitRelation.on_success ∷ []
unit_relation_from_unique_atom UnitRelationAtom.on_failure = UnitRelation.on_failure ∷ []
unit_relation_from_unique_atom UnitRelationAtom.triggers = UnitRelation.triggers ∷ []
unit_relation_from_unique_atom UnitRelationAtom.triggered_by = UnitRelation.triggered_by ∷ []
unit_relation_from_unique_atom UnitRelationAtom.propagates_reload_to =
    UnitRelation.propagates_reload_to ∷ []
unit_relation_from_unique_atom UnitRelationAtom.joins_namespace_of =
    UnitRelation.joins_namespace_of ∷ []
unit_relation_from_unique_atom UnitRelationAtom.references = UnitRelation.references ∷ []
unit_relation_from_unique_atom UnitRelationAtom.referenced_by = UnitRelation.referenced_by ∷ []
unit_relation_from_unique_atom UnitRelationAtom.in_slice = UnitRelation.in_slice ∷ []
unit_relation_from_unique_atom UnitRelationAtom.slice_of = UnitRelation.slice_of ∷ []
