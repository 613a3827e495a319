-- ===== src/Unit/RateLimit/Window.antt =====
-- How many starts a window admits.
use Prim.Native.Nat.{min}
use sysmaster.Base.{
  ℕ, suc, ◌+◌, ◌-◌, ◌≤◌, ◌<◌, some, List, [], ◌∷◌, length, All, arith, ◌≡◌, refl, if◌then◌else◌,
}
use sysmaster.Unit.RateLimit.{RateLimit, new, seconds_since, ratelimit_below}

-- The starts that are admitted at the given times.
pub admitted : RateLimit → List ℕ → ℕ
admitted r [] = 0
admitted r (now ∷ times) =
    let (r', below) = ratelimit_below r now in (if below then 1 else 0) + admitted r' times

admitted_open :
    (r : RateLimit) (begin : ℕ) (times : List ℕ)
    → 0 < r.interval
    → 0 < r.burst
    → r.begin ≡ some begin
    → All (λ now. seconds_since begin now ≤ r.interval) times
    → r.nums ≤ r.burst
    → admitted r times ≡ min (r.burst - r.nums) (length times)
unfolding admitted ratelimit_below
admitted_open r begin [] hi hb e a n = omega arith
admitted_open r begin (now ∷ times) hi hb e a n = ground (
  arith,
  admitted_open (record r { nums = r.nums + 1 }) begin times hi hb e a.1,
  admitted_open r begin times hi hb e a.1,
)

-- A new limit with a positive interval and burst admits, of the starts in one window, as many as the
-- burst says and refuses the rest: the first start opens the window, and the others come at most an
-- interval of whole seconds later.
pub ratelimit_admits :
    (interval burst now : ℕ) (times : List ℕ)
    → 0 < interval
    → 0 < burst
    → All (λ t. seconds_since now t ≤ interval) times
    → admitted (new interval burst) (now ∷ times) ≡ min burst (suc (length times))
unfolding admitted ratelimit_below new
ratelimit_admits interval burst now times hi hb a = ground (
  arith,
  admitted_open (record { interval = interval; burst = burst; begin = some now; nums = 1 }) now
      times hi hb refl a (omega arith),
)
