-- ===== src/Unit/Dependency/Symmetry.antt =====
-- What a table of dependencies says after an insertion, read from either end.
use sysmaster.Base.{
  ℕ, Bool, true, false, ◌&&◌, ◌||◌, [], ◌∷◌, if◌then◌else◌, any, ◌==◌, ==_iff, ◌≡◌, ◌≢◌, arith,
  Bool-cases, inl, inr,
}
use sysmaster.Base.Maps.{id_key, find, insert, keys, find-insert}
use sysmaster.Unit.Relation.{
  UnitRelation, relation_eq, relation_eq_iff, unit_relation_to_inverse, inverse-inverse, references,
  referenced_by,
}
use sysmaster.Unit.Dependency.Table.{
  UnitDepMask, DestMap, DepMap, relation_eq_inst, get_or_empty, UnitDepData, dests, insert_one_way,
  insert_both, dep_insert, is_dep_with, db_update,
}

has_key : ℕ → DestMap → Bool
has_key d dv = any (λ j. j == d) (keys dv)

has_key-insert :
    (d d' : ℕ) (m : UnitDepMask) (dv : DestMap)
    → has_key d' (insert d m dv) ≡ ((d == d') || has_key d' dv)
unfolding has_key insert keys
has_key-insert d d' m [] = ground arith
has_key-insert d d' m ((j, w) ∷ dv) = ground (arith, has_key-insert d d' m dv)

-- The one entry that an insertion changes.
dests-insert_one_way :
    (t : DepMap) (s : ℕ) (r : UnitRelation) (d : ℕ) (m : UnitDepMask) (s' : ℕ) (r' : UnitRelation)
    → dests (insert_one_way t s r d m) s' r'
      ≡ (if (s == s') && relation_eq r r' then insert d m (dests t s r) else dests t s' r')
unfolding dests insert_one_way
dests-insert_one_way t s r d m s' r' =
    let sv = get_or_empty (find s t) in
    let dv = get_or_empty (find r sv) in
    let sv' = insert r (insert d m dv) sv in
    ground (arith, find-insert s' s sv' t, find-insert r' r (insert d m dv) sv)

-- A dependency is in the table after an insertion when it is the one inserted or was there.
pub is_dep_with-insert_one_way :
    (t : DepMap) (s : ℕ) (r : UnitRelation) (d : ℕ) (m : UnitDepMask) (s' : ℕ) (r' : UnitRelation)
    (d' : ℕ)
    → is_dep_with (insert_one_way t s r d m) s' r' d'
      ≡ (((s == s') && relation_eq r r' && (d == d')) || is_dep_with t s' r' d')
unfolding is_dep_with has_key
is_dep_with-insert_one_way t s r d m s' r' d' = ground (
  arith,
  dests-insert_one_way t s r d m s' r',
  has_key-insert d d' m (dests t s r),
  ==_iff s s',
  relation_eq_iff r r',
)

abbrev matches : ℕ → UnitRelation → ℕ → ℕ → UnitRelation → ℕ → Bool
matches s r d s' r' d' = (s == s') && relation_eq r r' && (d == d')

relation_eq-inverse :
    (r r' : UnitRelation)
    → relation_eq (unit_relation_to_inverse r) r' ≡ relation_eq r (unit_relation_to_inverse r')
relation_eq-inverse r r' = ground (
  arith,
  relation_eq_iff (unit_relation_to_inverse r) r',
  relation_eq_iff r (unit_relation_to_inverse r'),
  inverse-inverse r,
  inverse-inverse r',
)

insert_both-lookup :
    (t : DepMap) (s : ℕ) (r : UnitRelation) (d mask s' : ℕ) (r' : UnitRelation) (d' : ℕ)
    → is_dep_with (insert_both t s r d mask) s' r' d' ≡ (
        matches d (unit_relation_to_inverse r) s s' r' d'
        || (matches s r d s' r' d' || is_dep_with t s' r' d'))
unfolding insert_both
insert_both-lookup t s r d mask s' r' d' = simp is_dep_with-insert_one_way

-- After the insertion of a dependency between two different units the table holds what it held, the
-- dependency, its inverse from the other end and, when a reference is asked for, the two ends of the
-- reference; nothing else.
pub is_dep_with-dep_insert :
    (D : UnitDepData) (s : ℕ) (r : UnitRelation) (d : ℕ) (reference : Bool) (mask s' : ℕ)
    (r' : UnitRelation) (d' : ℕ)
    → s ≢ d
    → is_dep_with (dep_insert D s r d reference mask).t s' r' d' ≡ (
        matches s r d s' r' d'
        || (matches d (unit_relation_to_inverse r) s s' r' d'
            || ((reference
                  && (matches s references d s' r' d' || matches d referenced_by s s' r' d'))
                || is_dep_with D.t s' r' d')))
unfolding dep_insert db_update unit_relation_to_inverse
is_dep_with-dep_insert D s r d reference mask s' r' d' ne = ground (
  arith,
  ==_iff s d,
  insert_both-lookup D.t s r d mask s' r' d',
  insert_both-lookup (insert_both D.t s r d mask) s references d mask s' r' d',
)

-- What one end of every dependency says, the other end says too.
abbrev pub IsSymmetric : DepMap → Type 0
IsSymmetric t =
    (s : ℕ) (r : UnitRelation) (d : ℕ)
    → is_dep_with t d (unit_relation_to_inverse r) s ≡ is_dep_with t s r d

matches-inverse :
    (s : ℕ) (r : UnitRelation) (d s' : ℕ) (r' : UnitRelation) (d' : ℕ)
    → matches s r d d' (unit_relation_to_inverse r') s'
      ≡ matches d (unit_relation_to_inverse r) s s' r' d'
matches-inverse s r d s' r' d' = ground (arith, relation_eq-inverse r r')

insert_both-IsSymmetric :
    (t : DepMap) (s : ℕ) (r : UnitRelation) (d mask : ℕ)
    → IsSymmetric t
    → IsSymmetric (insert_both t s r d mask)
insert_both-IsSymmetric t s r d mask h s' r' d' = ground (
  arith,
  insert_both-lookup t s r d mask s' r' d',
  insert_both-lookup t s r d mask d' (unit_relation_to_inverse r') s',
  matches-inverse s r d s' r' d',
  matches-inverse d (unit_relation_to_inverse r) s s' r' d',
  inverse-inverse r,
  h s' r' d',
)

-- An insertion keeps the two ends of every dependency in agreement, whatever is inserted.
pub dep_insert-IsSymmetric :
    (D : UnitDepData) (s : ℕ) (r : UnitRelation) (d : ℕ) (reference : Bool) (mask : ℕ)
    → IsSymmetric D.t
    → IsSymmetric (dep_insert D s r d reference mask).t
unfolding dep_insert db_update
dep_insert-IsSymmetric D s r d true mask h = elim (Bool-cases (s == d)) [
  | inl e ↦ rw e h
  | inr e ↦ rw e (
      insert_both-IsSymmetric (insert_both D.t s r d mask) s references d mask
        (insert_both-IsSymmetric D.t s r d mask h))
]
dep_insert-IsSymmetric D s r d false mask h = elim (Bool-cases (s == d)) [
  | inl e ↦ rw e h
  | inr e ↦ rw e (insert_both-IsSymmetric D.t s r d mask h)
]
