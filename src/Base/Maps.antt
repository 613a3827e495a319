-- ===== src/Base/Maps.antt =====
-- `HashMap` as an association list: a lookup finds the one value of a key, and a walk follows the
-- order of insertion (Rust leaves the order of a walk open).
use Prim.Native.Nat.{ℕ}
use mathlib.Core.Path.{◌≡◌, refl}
use mathlib.Core.Logic.{◌↔◌}
use mathlib.Core.Bool.{Bool, true}
use mathlib.Core.Option.{Option, none, some}
use mathlib.Core.List.{List, [], ◌∷◌}
use native.Mathlib.Omega.{arith}
use sysmaster.Base.Tests.{if◌then◌else◌, ◌==◌, ==_iff}

-- The derived `PartialEq` of a key.
pub record Key {ℓ} (K : Type ℓ) : Type ℓ where
  pub same : K → K → Bool
  pub same_iff : (j k : K) → (same j k ≡ true) ↔ (j ≡ k)

instance abbrev pub id_key : Key ℕ
id_key = record { same_iff = ==_iff; same = ◌==◌ }

module _ {ℓ} {K : Type ℓ} ⦃e : Key K⦄ where
  pub beq_self : (k : K) → e.same k k ≡ true
  beq_self k = (e.same_iff k k).1 refl

module _ {ℓ κ} {K : Type ℓ} {V : Type κ} ⦃e : Key K⦄ where
  unfoldable pub find : K → List (K × V) → Option V
  find k [] = none
  find k ((j, v) ∷ m) = if e.same j k then some v else find k m

  unfoldable pub insert : K → V → List (K × V) → List (K × V)
  insert k v [] = (k, v) ∷ []
  insert k v ((j, w) ∷ m) = if e.same j k then (k, v) ∷ m else (j, w) ∷ insert k v m

  unfoldable pub erase : K → List (K × V) → List (K × V)
  erase k [] = []
  erase k ((j, w) ∷ m) = let rest = erase k m in if e.same j k then rest else (j, w) ∷ rest

  unfoldable pub keys : List (K × V) → List K
  keys [] = []
  keys ((j, w) ∷ m) = j ∷ keys m

  pub find-insert :
      (j k : K) (v : V) (m : List (K × V))
      → find j (insert k v m) ≡ (if e.same k j then some v else find j m)
  unfolding find insert
  find-insert j k v [] = refl
  find-insert j k v ((i, w) ∷ m) =
      ground (arith, e.same_iff k j, e.same_iff i k, e.same_iff i j, find-insert j k v m)

  pub find-erase :
      (j k : K) (m : List (K × V)) → find j (erase k m) ≡ (if e.same k j then none else find j m)
  unfolding find erase
  find-erase j k [] = ground arith
  find-erase j k ((i, w) ∷ m) =
      ground (arith, e.same_iff k j, e.same_iff i k, e.same_iff i j, find-erase j k m)
