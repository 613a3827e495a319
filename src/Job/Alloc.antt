-- ===== src/Job/Alloc.antt =====
-- core/bin/job/alloc.rs: the numbers of jobs.
pub mod Fresh
use sysmaster.Base.{
  ℕ, zero, suc, ◌+◌, ◌%◌, Option, none, some, List, [], ◌∷◌, any, ◌==◌, if◌then◌else◌,
}

abbrev pub u32_mod : ℕ
u32_mod = 4294967296

pub record JobAllocData : Type 0 where
  pub ids : List ℕ
  pub last_id : ℕ

unfoldable pub new : JobAllocData
new = record { ids = []; last_id = 0 }

-- The number after `last_id`, with the wrap of `overflowing_add`.
unfoldable pub next_id : ℕ → ℕ
next_id last_id = (last_id + 1) % u32_mod

-- The loop of `alloc_id`, on fuel: a number that is taken is skipped.
unfoldable pub alloc_id : ℕ → JobAllocData → Option (ℕ × JobAllocData)
alloc_id zero d = none
alloc_id (suc fuel) d =
    let id = next_id d.last_id in
    let rest = alloc_id fuel (record d { last_id = id }) in
    if any (λ i. i == id) d.ids then rest else some (id, record { ids = id ∷ d.ids; last_id = id })
