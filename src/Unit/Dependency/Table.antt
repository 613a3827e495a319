-- ===== src/Unit/Dependency/Table.antt =====
-- core/bin/unit/datastore/deps.rs: `UnitDepData`, with the database entry of each unit beside it.
use sysmaster.Base.{
  ℕ, Bool, not, Option, none, some, List, [], ◌∷◌, ◌++◌, map, is_empty, if◌then◌else◌, any, ◌==◌,
}
use sysmaster.Base.Maps.{Key, id_key, find, insert, erase, keys}
use sysmaster.Unit.Relation.{
  UnitRelation, UnitRelationAtom, relation_eq, relation_eq_iff, unit_relation_to_inverse,
  references,
}
use sysmaster.Unit.Atom.{unit_relation_from_unique_atom}

instance abbrev pub relation_eq_inst : Key UnitRelation
relation_eq_inst = record { same = relation_eq; same_iff = relation_eq_iff }

pub record UnitDepMask : Type 0 where
  pub source : ℕ
  pub dest : ℕ

abbrev pub DestMap : Type 0
DestMap = List (ℕ × UnitDepMask)

abbrev pub RelationMap : Type 0
RelationMap = List (UnitRelation × DestMap)

abbrev pub DepMap : Type 0
DepMap = List (ℕ × RelationMap)

-- `t`, and the dependencies that `db_update` wrote last for each unit.
pub record UnitDepData : Type 0 where
  pub t : DepMap
  pub rentry : List (ℕ × List (UnitRelation × ℕ))

abbrev pub get_or_empty {ℓ} : {A : Type ℓ} → Option (List A) → List A
get_or_empty none = []
get_or_empty (some xs) = xs

-- What `t` holds under a source and a relation: nothing for a missing key.
unfoldable pub dests : DepMap → ℕ → UnitRelation → DestMap
dests t source relation = get_or_empty (find relation (get_or_empty (find source t)))

-- `get_mut_dv_pad(source, relation).insert(dest, mask)`: both levels are padded first.
unfoldable pub insert_one_way : DepMap → ℕ → UnitRelation → ℕ → UnitDepMask → DepMap
insert_one_way t source relation dest mask =
    let sv = get_or_empty (find source t) in
    let dv = get_or_empty (find relation sv) in
    insert source (insert relation (insert dest mask dv) sv) t

-- The removal from `dv`, in place: a relation that is not there is a dummy.
unfoldable pub remove_dest : RelationMap → UnitRelation → ℕ → RelationMap
remove_dest sv relation dest = elim (find relation sv) [
  | none ↦ sv
  | some dv ↦ insert relation (erase dest dv) sv
]

-- The entry of `source` goes when something is left in it: the test of the source.
unfoldable pub close_entry : DepMap → ℕ → RelationMap → DepMap
close_entry t source sv = if not (is_empty sv) then erase source t else insert source sv t

unfoldable pub remove_one_way : DepMap → ℕ → UnitRelation → ℕ → DepMap
unfolding close_entry
remove_one_way t source relation dest = elim (find source t) [
  | none ↦ t
  | some sv ↦ close_entry t source (remove_dest sv relation dest)
]

pairs_of : UnitRelation × DestMap → List (UnitRelation × ℕ)
pairs_of (relation, dv) = map (λ dest. (relation, dest)) (keys dv)

all_pairs : RelationMap → List (UnitRelation × ℕ)
unfolding pairs_of
all_pairs [] = []
all_pairs (rd ∷ sv) = pairs_of rd ++ all_pairs sv

unfoldable pub db_update : UnitDepData → ℕ → UnitDepData
unfolding all_pairs
db_update d unit = record d {
  rentry = insert unit (all_pairs (get_or_empty (find unit d.t))) d.rentry;
}

unfoldable pub insert_both : DepMap → ℕ → UnitRelation → ℕ → ℕ → DepMap
unfolding insert_one_way
insert_both t source relation dest source_mask =
    insert_one_way
      (insert_one_way t source relation dest (record { source = source_mask; dest = 0 })) dest
      (unit_relation_to_inverse relation) source (record { source = 0; dest = source_mask })

unfoldable pub dep_insert : UnitDepData → ℕ → UnitRelation → ℕ → Bool → ℕ → UnitDepData
unfolding db_update insert_both
dep_insert d source relation dest reference source_mask =
    if source == dest
    then d
    else (let t' = insert_both d.t source relation dest source_mask in
        let t'' = if reference then insert_both t' source references dest source_mask else t' in
        db_update (db_update (record d { t = t'' }) source) dest)

unfoldable pub dep_remove : UnitDepData → ℕ → UnitRelation → ℕ → UnitDepData
unfolding db_update
dep_remove d source relation dest =
    let t' = remove_one_way d.t source relation dest in
    let t'' = remove_one_way t' dest (unit_relation_to_inverse relation) source in
    db_update (db_update (record d { t = t'' }) source) dest

remove_all : UnitDepData → ℕ → List (UnitRelation × ℕ) → UnitDepData
unfolding dep_remove
remove_all d source [] = d
remove_all d source ((relation, dest) ∷ removes) =
    remove_all (dep_remove d source relation dest) source removes

unfoldable pub dep_remove_unit : UnitDepData → ℕ → UnitDepData
unfolding remove_all all_pairs
dep_remove_unit d source = elim (find source d.t) [
  | none ↦ d
  | some sv ↦ remove_all d source (all_pairs sv)
]

unfoldable pub gets : DepMap → ℕ → UnitRelation → List ℕ
gets t source relation = keys (dests t source relation)

unfoldable pub is_dep_with : DepMap → ℕ → UnitRelation → ℕ → Bool
is_dep_with t source relation dest = any (λ j. j == dest) (keys (dests t source relation))

unfoldable pub gets_relations : DepMap → ℕ → List UnitRelation → List ℕ
gets_relations t source [] = []
gets_relations t source (r ∷ rs) = gets t source r ++ gets_relations t source rs

unfoldable pub gets_atom : DepMap → ℕ → UnitRelationAtom → List ℕ
unfolding gets_relations
gets_atom t source atom = gets_relations t source (unit_relation_from_unique_atom atom)

unfoldable pub is_dep_atom_with : DepMap → ℕ → UnitRelationAtom → ℕ → Bool
is_dep_atom_with t source atom dest =
    any (λ r. is_dep_with t source r dest) (unit_relation_from_unique_atom atom)
