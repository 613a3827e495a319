-- ===== src/Job/Alloc/Fresh.antt =====
-- The search for the number of a new job: that it ends, and what it finds.
use sysmaster.Base.{
  ℕ, zero, suc, ◌+◌, ◌%◌, ◌≤◌, ◌<◌, Bool, true, false, some, List, [], ◌∷◌, any, length, ◌==◌,
  if◌then◌else◌, ◌≡◌, ◌≢◌, refl, arith, Bool-cases, inl, inr,
}
use sysmaster.Job.Alloc.{u32_mod, JobAllocData, next_id, alloc_id}

abbrev pub taken : ℕ → List ℕ → Bool
taken id ids = any (λ i. i == id) ids

drop_one : ℕ → List ℕ → List ℕ
drop_one x [] = []
drop_one x (i ∷ ids) = if i == x then ids else i ∷ drop_one x ids

length-drop_one :
    (x : ℕ) (ids : List ℕ) → taken x ids ≡ true → length (drop_one x ids) + 1 ≡ length ids
unfolding drop_one
length-drop_one x [] h = cc
length-drop_one x (i ∷ ids) h = ground (arith, length-drop_one x ids)

taken-drop_one : (x y : ℕ) (ids : List ℕ) → x ≢ y → taken y (drop_one x ids) ≡ taken y ids
unfolding drop_one
taken-drop_one x y [] h = refl
taken-drop_one x y (i ∷ ids) h = ground (arith, taken-drop_one x y ids h)

-- The number that the loop tries in the round `i`.
tried : ℕ → ℕ → ℕ
tried last i = (last + (i + 1)) % u32_mod

tried_ne : (last i k : ℕ) → i < k → k < u32_mod → tried last k ≢ tried last i
unfolding tried
tried_ne last i k h b e = omega arith

-- Of more rounds than there are numbers taken, one tries a free number.
free_round :
    (k last : ℕ) (ids : List ℕ)
    → length ids < k
    → k ≤ u32_mod
    → (i : ℕ) × (i < k) × (taken (tried last i) ids ≡ false)
free_round zero last ids h b = absurd (omega arith)
free_round (suc k) last ids h b = elim (Bool-cases (taken (tried last k) ids)) [
  | inl e ↦
      let x = tried last k in
      let (i, l, f) =
        free_round k last (drop_one x ids) (omega (arith, length-drop_one x ids e)) (omega arith) in
      (
        i,
        omega arith,
        ground (arith, taken-drop_one x (tried last i) ids (tried_ne last i k l (omega arith)), f),
      )
  | inr e ↦ (k, omega arith, e)
]

tried_next : (last i : ℕ) → tried (next_id last) i ≡ tried last (suc i)
unfolding tried next_id
tried_next last i = omega arith

tried_first : (last : ℕ) → tried last 0 ≡ next_id last
unfolding tried next_id
tried_first last = omega arith

next_id-lt : (last : ℕ) → next_id last < u32_mod
unfolding next_id
next_id-lt last = omega arith

-- What the loop returns: a number below 2^32 that is free, now taken, and the last one.
abbrev pub Allocates : ℕ → JobAllocData → Type 0
Allocates fuel d =
    (id : ℕ) × (alloc_id fuel d ≡ some (id, record { ids = id ∷ d.ids; last_id = id }))
    × (taken id d.ids ≡ false)
    × (id < u32_mod)

-- A free round is reached, or a free one before it.
alloc_id_reaches :
    (i fuel : ℕ) (d : JobAllocData)
    → i < fuel
    → taken (tried d.last_id i) d.ids ≡ false
    → Allocates fuel d
unfolding alloc_id
alloc_id_reaches i zero d h f = absurd (omega arith)
alloc_id_reaches zero (suc fuel) d h f =
    let e : taken (next_id d.last_id) d.ids ≡ false = rw (← tried_first d.last_id) f in
    (next_id d.last_id, rw e, e, next_id-lt d.last_id)
alloc_id_reaches (suc i) (suc fuel) d h f = elim (Bool-cases (taken (next_id d.last_id) d.ids)) [
  | inr e ↦ (next_id d.last_id, rw e, e, next_id-lt d.last_id)
  | inl e ↦
      let d' : JobAllocData = record d { last_id = next_id d.last_id } in
      rw e (alloc_id_reaches i fuel d' (omega arith) (rw (tried_next d.last_id i) f))
]

-- With more rounds than there are numbers taken, and fewer than 2^32 of these, the loop ends, and
-- returns a number that no job has.
pub alloc_id-fresh :
    (fuel : ℕ) (d : JobAllocData) → length d.ids < fuel → length d.ids < u32_mod → Allocates fuel d
alloc_id-fresh fuel d h b =
    let (i, l, f) = free_round (suc (length d.ids)) d.last_id d.ids (omega arith) b in
    alloc_id_reaches i fuel d (omega arith) f
