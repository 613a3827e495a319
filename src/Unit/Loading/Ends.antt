-- ===== src/Unit/Loading/Ends.antt =====
-- The load queue empties: a unit is put on it when it is new, and the configurations name finitely
-- many units.
use sysmaster.Base.{
  ℕ, ◌+◌, ◌<◌, ◌≤◌, Bool, true, Option, some, List, [], ◌∷◌, ◌++◌, ◌≡◌, refl, length, is_some, ◌==◌,
  All, any, if◌then◌else◌, arith,
}
use sysmaster.Base.Maps.{id_key, find}
use sysmaster.Unit.Dependency.Table.{UnitDepData}
use sysmaster.Unit.Loading.{
  Names, DepConf, SubLoad, finish, act, look, add_dependency, Loader, Runtime, Dispatch,
}

abbrev pub has : ℕ → List ℕ → Bool
has v xs = any (λ x. x == v) xs

-- How many of the names are no units yet.
unfoldable pub absent : List ℕ → Names → ℕ
absent [] m = 0
absent (n ∷ ns) m = (if is_some (find n m) then 0 else 1) + absent ns m

pub has-append : (v : ℕ) (xs ys : List ℕ) → has v (xs ++ ys) ≡ (if has v xs then true else has v ys)
has-append v [] ys = refl
has-append v (x ∷ xs) ys = ground (arith, has-append v xs ys)

module _ {E : Type 0} where
  -- Every unit that is marked to be loaded is on the queue.
  abbrev pub IsQueued : Runtime E → Type 0
  IsQueued s = (v : ℕ) → (s.loads v).in_load_queue ≡ true → has v s.load_queue ≡ true

-- The units that are on the queue, and those that are still to be created.
unfoldable pub pending : {E : Type 0} → List ℕ → Runtime E → ℕ
unfolding absent
pending ns s = length s.load_queue + absent ns s.units

module _ {E : Type 0} (out : Loader E) (ns : List ℕ) where
  abbrev Keeps : Runtime E → Runtime E → Type 0
  Keeps s t = (pending ns t ≤ pending ns s) × (IsQueued s → IsQueued t)

  -- The configurations name units of the list.
  abbrev pub AreNamed : DepConf → Type 0
  AreNamed config = All (λ c. All (λ o. has o ns ≡ true) c.1) config

  -- What a loop inside a load promises, for fewer than `n` units that are still to be loaded.
  abbrev Serves : ℕ → Dispatch E → Type 0
  Serves n f =
      (s : Runtime E) → pending ns s < n → IsQueued s → (t : Runtime E) × (f s ≡ some t) × Keeps s t

  abbrev Runs : Runtime E → Option (Runtime E × Bool) → Type 0
  Runs s r = (t : Runtime E) × (b : Bool) × (r ≡ some (t, b)) × Keeps s t

  -- The units for which the load of a sub-unit asks are of the list.
  unfoldable pub AreAsked : SubLoad E → Type 0
  AreAsked (finish success) = Unit
  AreAsked (act f k) = AreAsked k
  AreAsked (look k) = (e : E) (m : Names) (d : UnitDepData) → AreAsked (k e m d)
  AreAsked (add_dependency u relation other add_ref k) =
      (has u ns ≡ true) × (has other ns ≡ true) × ((b : Bool) → AreAsked (k b))
