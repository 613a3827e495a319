-- ===== src/Tests/Counters.antt =====
-- Counters of jobs, numbers of jobs, and starts in a window.
use sysmaster.Base.{◌+◌, ◌≡◌, refl, [], ◌∷◌, some, ok, some, arith}
use sysmaster.Unit.RateLimit.{new}
use sysmaster.Unit.RateLimit.Window.{admitted, ratelimit_admits}
use sysmaster.Job.Alloc.{JobAllocData, alloc_id, next_id}
use sysmaster.Job.Alloc.Fresh.{Allocates, alloc_id-fresh}
use sysmaster.Job.Kind.{JobKind, start, stop, job_is_basic_op}
use sysmaster.Job.Engine.{JobRef}
use sysmaster.Job.Stat.{JobKindNum, kind_update}
use sysmaster.Job.Stat.Conservation.{counter, of_kind, kind_update-counts}

abbrev one_start : JobKindNum
one_start = record { start = 1; stop = 0; reload = 0; restart = 0; verify = 0; nop = 0 }

abbrev a_start : JobRef
a_start = record { id = 1; unit = 7; kind = start }

abbrev a_stop : JobRef
a_stop = record { id = 2; unit = 7; kind = stop }

kind_update-counts_example :
    (n' : JobKindNum) × (kind_update one_start (a_stop ∷ []) (a_start ∷ []) ≡ ok n')
    × ((k : JobKind)
        → counter n' k + of_kind k (a_start ∷ []) ≡ counter one_start k + of_kind k (a_stop ∷ []))
unfolding of_kind job_is_basic_op
kind_update-counts_example =
    kind_update-counts one_start (a_stop ∷ []) (a_start ∷ []) (refl, tt) (refl, tt)
      (λ k. ground arith) (λ k. ground arith)

-- 1 and 2 are taken, and 1 was the last number.
abbrev two_taken : JobAllocData
two_taken = record { ids = 2 ∷ 1 ∷ []; last_id = 1 }

alloc_id-fresh_example : Allocates 3 two_taken
alloc_id-fresh_example = alloc_id-fresh 3 two_taken (omega arith) (omega arith)

two_taken_next : alloc_id 3 two_taken ≡ some (3, record { ids = 3 ∷ 2 ∷ 1 ∷ []; last_id = 3 })
unfolding alloc_id next_id
two_taken_next = refl

ratelimit_admits_example : admitted (new 10 2) (0 ∷ 5 ∷ 10_500_000_000 ∷ 7 ∷ []) ≡ 2
ratelimit_admits_example =
    ratelimit_admits 10 2 0 (5 ∷ 10_500_000_000 ∷ 7 ∷ []) (omega arith) (omega arith) (omega arith)
