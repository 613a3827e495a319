-- ===== src/Unit/Dependency/Removal.antt =====
-- What a table of dependencies says after a removal, and how the two ways to ask for an atom of
-- meaning agree.
use sysmaster.Base.{
  ℕ, Bool, true, not, ◌&&◌, ◌||◌, List, [], ◌∷◌, ◌++◌, if◌then◌else◌, any, ◌==◌, ==_iff, ◌≡◌, ◌≢◌,
  refl, ap, ◌∙◌, arith, inl, inr, Option-cases,
}
use sysmaster.Base.Maps.{id_key, find, keys, find-insert, find-erase}
use sysmaster.Unit.Relation.{UnitRelation, UnitRelationAtom, unit_relation_to_inverse}
use sysmaster.Unit.Atom.{unit_relation_from_unique_atom}
use sysmaster.Unit.Dependency.Table.{
  DepMap, RelationMap, relation_eq_inst, get_or_empty, UnitDepData, dests, remove_dest, close_entry,
  remove_one_way, dep_remove, is_dep_with, db_update, gets, gets_relations, gets_atom,
  is_dep_atom_with,
}
use sysmaster.Unit.Dependency.Symmetry.{IsSymmetric}

find-close_entry :
    (t : DepMap) (s : ℕ) (sv : RelationMap) (s' : ℕ)
    → get_or_empty (find s' (close_entry t s sv))
      ≡ (if s == s' then [] else get_or_empty (find s' t))
unfolding close_entry
find-close_entry t s [] s' = ground (arith, find-insert s' s [] t)
find-close_entry t s (rd ∷ sv) s' = ground (arith, find-erase s' s t)

-- Nothing is left under a source that a removal names, and nothing changes under another.
dests-remove_one_way :
    (t : DepMap) (s : ℕ) (r : UnitRelation) (d s' : ℕ) (r' : UnitRelation)
    → dests (remove_one_way t s r d) s' r' ≡ (if s == s' then [] else dests t s' r')
unfolding dests remove_one_way find
dests-remove_one_way t s r d s' r' = elim (Option-cases (find s t)) [
  | inl e ↦ ground (arith, e, ==_iff s s')
  | inr (sv, e) ↦ ground (arith, e, find-close_entry t s (remove_dest sv r d) s')
]

is_dep_with-remove_one_way :
    (t : DepMap) (s : ℕ) (r : UnitRelation) (d s' : ℕ) (r' : UnitRelation) (d' : ℕ)
    → is_dep_with (remove_one_way t s r d) s' r' d' ≡ (not (s == s') && is_dep_with t s' r' d')
unfolding is_dep_with keys
is_dep_with-remove_one_way t s r d s' r' d' = ground (arith, dests-remove_one_way t s r d s' r')

-- A removal of one dependency leaves of the table exactly the dependencies of the units that are
-- neither of its two ends: all others of the two ends go too.
pub is_dep_with-dep_remove :
    (D : UnitDepData) (s : ℕ) (r : UnitRelation) (d s' : ℕ) (r' : UnitRelation) (d' : ℕ)
    → is_dep_with (dep_remove D s r d).t s' r' d'
      ≡ (not (d == s') && (not (s == s') && is_dep_with D.t s' r' d'))
unfolding dep_remove db_update
is_dep_with-dep_remove D s r d s' r' d' = simp is_dep_with-remove_one_way

-- So a removal breaks the agreement of the two ends as soon as a third unit depends on the source.
pub dep_remove-not-IsSymmetric :
    (D : UnitDepData) (s : ℕ) (r : UnitRelation) (d x : ℕ) (r' : UnitRelation)
    → x ≢ s
    → x ≢ d
    → is_dep_with D.t x r' s ≡ true
    → ¬ IsSymmetric (dep_remove D s r d).t
dep_remove-not-IsSymmetric D s r d x r' ns nd h all = ground (
  arith,
  all x r' s,
  is_dep_with-dep_remove D s r d x r' s,
  is_dep_with-dep_remove D s r d s (unit_relation_to_inverse r') x,
  ==_iff s x,
  ==_iff d x,
  ==_iff s s,
)

any-append {ℓ} :
    {A : Type ℓ} (p : A → Bool) (xs ys : List A) → any p (xs ++ ys) ≡ (any p xs || any p ys)
any-append p [] ys = refl
any-append p (x ∷ xs) ys = ground (arith, any-append p xs ys)

gets_relations-any :
    (t : DepMap) (s : ℕ) (rs : List UnitRelation) (d : ℕ)
    → any (λ j. j == d) (gets_relations t s rs) ≡ any (λ r. is_dep_with t s r d) rs
unfolding gets_relations gets is_dep_with
gets_relations-any t s [] d = refl
gets_relations-any t s (r ∷ rs) d =
    any-append (λ j. j == d) (gets t s r) (gets_relations t s rs)
    ∙ ap (λ b. is_dep_with t s r d || b) (gets_relations-any t s rs d)

-- A unit is among those that `gets_atom` returns exactly when `is_dep_atom_with` says so.
pub gets_atom-is_dep_atom_with :
    (t : DepMap) (s : ℕ) (atom : UnitRelationAtom) (d : ℕ)
    → any (λ j. j == d) (gets_atom t s atom) ≡ is_dep_atom_with t s atom d
unfolding gets_atom is_dep_atom_with
gets_atom-is_dep_atom_with t s atom d =
    gets_relations-any t s (unit_relation_from_unique_atom atom) d
