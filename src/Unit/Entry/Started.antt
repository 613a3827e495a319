-- ===== src/Unit/Entry/Started.antt =====
-- What a list of conditions comes to, and a unit with a negated one.
use mathlib.Core.List.{Memᴰ}
use sysmaster.Base.{
  Bool, true, false, not, ◌&&◌, ◌||◌, some, List, [], ◌∷◌, ◌≡◌, refl, arith, any, Bool-cases, inl,
  inr, ◌⊎◌, if◌then◌else◌, ap, sym, ◌∙◌,
}
use sysmaster.Unit.State.{inactive, failed, is_active_or_reloading}
use sysmaster.Job.Entry.{einval}
use sysmaster.Unit.Entry.{
  UnitLoadState, Condition, test, test_from, condition_vec_test, SubUnit, unit_start, is_loaded,
}

-- Every condition without a trigger holds.
abbrev plain_hold : List Condition → Bool
plain_hold cs = not (any (λ c. not c.trigger && not (test c)) cs)

abbrev trigger_holds : List Condition → Bool
trigger_holds cs = any (λ c. c.trigger && test c) cs

no_trigger : (cs : List Condition) → any (λ c. c.trigger) cs ≡ false → trigger_holds cs ≡ false
no_trigger [] e = refl
no_trigger (c ∷ cs) e = ground (arith, no_trigger cs)

test_from_lem :
    (flag ret : Bool) (cs : List Condition)
    → (flag ≡ true → ret ≡ true)
    → test_from flag ret cs ≡ (
        plain_hold cs
        && (if flag then true else if any (λ c. c.trigger) cs then trigger_holds cs else ret))
unfolding test_from
test_from_lem flag ret [] h = ground (arith, h)
test_from_lem flag ret (c ∷ cs) h = ground (
  arith,
  h,
  no_trigger cs,
  test_from_lem flag ret cs h,
  test_from_lem (test c) (test c) cs (λ e. e),
)

-- The loop agrees with the two parts of its meaning: the plain conditions, and the triggers.
pub condition_vec_test_lem :
    (cs : List Condition)
    → condition_vec_test cs ≡ (plain_hold cs && (not (any (λ c. c.trigger) cs) || trigger_holds cs))
unfolding condition_vec_test
condition_vec_test_lem cs = ground (arith, test_from_lem false true cs)

any_at :
    (p : Condition → Bool) (c : Condition) (cs : List Condition)
    → Memᴰ c cs
    → p c ≡ true
    → any p cs ≡ true
any_at p c [] at e = elim at [ ]
any_at p c (d ∷ cs) (Memᴰ.head f) e = rw (ap p (sym f) ∙ e) refl
any_at p c (d ∷ cs) (Memᴰ.tail m) e = ground (arith, any_at p c cs m e)

-- `!0` and `!1` are -1 and -2.
test-revert : (c : Condition) → c.revert ≡ true → c.has_params ≡ true → test c ≡ false
unfolding test
test-revert c negated given = elim (Bool-cases c.found) [
  | inl e ↦ rw (given, negated, e) refl
  | inr e ↦ rw (given, negated, e) refl
]

-- A unit that is inactive or failed and has a negated condition that is no trigger and not empty is
-- never started, whatever the system says of the condition: the start fails and changes nothing.
pub unit_start-negated :
    {S : Type 0} (sub : SubUnit S) (load : UnitLoadState) (conditions asserts : List Condition)
    (s : S) (c : Condition)
    → (sub.current_active_state s ≡ inactive) ⊎ (sub.current_active_state s ≡ failed)
    → Memᴰ c conditions
    → c.trigger ≡ false
    → c.revert ≡ true
    → c.has_params ≡ true
    → unit_start sub load conditions asserts s ≡ (s, some einval)
unfolding unit_start is_active_or_reloading
unit_start-negated sub load conditions asserts s c down at plain negated given =
    let fails : (not c.trigger && not (test c)) ≡ true =
      rw (test-revert c negated given, plain) refl in
    let none_hold : plain_hold conditions ≡ false =
      ap not (any_at (λ d. not d.trigger && not (test d)) c conditions at fails) in
    let refused : condition_vec_test conditions ≡ false =
      condition_vec_test_lem conditions ∙ rw none_hold refl in
    elim down [
      | inl e ↦ elim (Bool-cases (is_loaded load)) [
        | inl l ↦ rw (e, l, refused) refl
        | inr l ↦ rw (e, l) refl
      ]
      | inr e ↦ elim (Bool-cases (is_loaded load)) [
        | inl l ↦ rw (e, l, refused) refl
        | inr l ↦ rw (e, l) refl
      ]
    ]
