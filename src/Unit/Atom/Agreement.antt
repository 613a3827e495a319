-- ===== src/Unit/Atom/Agreement.antt =====
-- The two tables of relation_atom.rs, read side by side.
use sysmaster.Base.{
  Bool, true, false, not, any, every, every_sound, arith, ◌≡◌, refl, if◌then◌else◌,
}
use sysmaster.Unit.Relation.{
  UnitRelation, UnitRelationAtom, relation_eq, atom_eq, relation_index, atom_index, relations,
  atoms, get_elem?-relations, get_elem?-atoms,
}
use sysmaster.Unit.Atom.{unit_relation_to_atom, unit_relation_from_unique_atom}

-- The relation lists the atom, and the atom lists the relation.
unfoldable pub stands_for : UnitRelation → UnitRelationAtom → Bool
stands_for r a = any (atom_eq a) (unit_relation_to_atom r)

unfoldable pub stands_behind : UnitRelationAtom → UnitRelation → Bool
stands_behind a r = any (relation_eq r) (unit_relation_from_unique_atom a)

-- The four pairs on which the tables differ.
unfoldable pub differs : UnitRelation → UnitRelationAtom → Bool
differs UnitRelation.wants UnitRelationAtom.add_default_target_dependency_queue = true
differs UnitRelation.wants UnitRelationAtom.default_target_dependencies = true
differs UnitRelation.referenced_by UnitRelationAtom.references = true
differs UnitRelation.referenced_by UnitRelationAtom.referenced_by = true
differs _ _ = false

xor : Bool → Bool → Bool
xor true b = not b
xor false b = b

unxor : (a b c : Bool) → not (xor a (xor b c)) ≡ true → a ≡ (if c then not b else b)
unfolding xor
unxor a b c h = ground arith

-- Both tables say the same of a relation and an atom, or the pair is one of the four.
agrees : UnitRelation → UnitRelationAtom → Bool
unfolding stands_for stands_behind differs xor
agrees r a = not (xor (stands_for r a) (xor (stands_behind a r) (differs r a)))

agreement_table : every (λ r. every (agrees r) atoms) relations ≡ true
unfolding agrees unit_relation_to_atom unit_relation_from_unique_atom relation_eq atom_eq relations
    atoms
agreement_table = refl

-- A relation lists an atom exactly when the atom lists the relation, but for four pairs, where one
-- of the tables has it and the other has not: `wants` with the two atoms on default targets, and
-- `referenced_by` with the two atoms on references.
pub stands_for-stands_behind :
    (r : UnitRelation) (a : UnitRelationAtom)
    → stands_for r a ≡ (if differs r a then not (stands_behind a r) else stands_behind a r)
unfolding agrees
stands_for-stands_behind r a = unxor (stands_for r a) (stands_behind a r) (differs r a) table
  where
    table : agrees r a ≡ true
    table =
        every_sound (agrees r) atoms (atom_index a)
          (every_sound (λ q. every (agrees q) atoms) relations (relation_index r) agreement_table
            (get_elem?-relations r))
          (get_elem?-atoms a)
