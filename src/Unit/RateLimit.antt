-- ===== src/Unit/RateLimit.antt =====
-- core/bin/unit/entry/ratelimit.rs: how often a unit may be started. An `Instant` is a number of
-- nanoseconds, and the reading of the clock is an argument.
pub mod Window
use sysmaster.Base.{
  ℕ, ◌+◌, ◌-◌, ◌/◌, Bool, true, false, not, ◌&&◌, Option, none, some, ltb, if◌then◌else◌,
}

pub record RateLimit : Type 0 where
  pub interval : ℕ  -- u64
  pub burst : ℕ  -- u32
  pub begin : Option ℕ
  pub nums : ℕ  -- u32

unfoldable pub new : ℕ → ℕ → RateLimit
new interval burst = record { interval = interval; burst = burst; begin = none; nums = 0 }

unfoldable pub init_from_config : RateLimit → ℕ → ℕ → RateLimit
init_from_config r interval burst = record r { interval = interval; burst = burst }

unfoldable pub ratelimit_enabled : RateLimit → Bool
ratelimit_enabled r = ltb 0 r.interval && ltb 0 r.burst

-- `duration_since(begin).as_secs()`: whole seconds, and 0 where the clock has gone back.
abbrev pub seconds_since : ℕ → ℕ → ℕ
seconds_since begin now = (now - begin) / 1_000_000_000

-- The window is not open, or its time is over.
unfoldable pub window_over : RateLimit → ℕ → Bool
window_over r now = elim r.begin [
  | none ↦ true
  | some begin ↦ ltb r.interval (seconds_since begin now)
]

unfoldable pub ratelimit_below : RateLimit → ℕ → RateLimit × Bool
unfolding ratelimit_enabled window_over
ratelimit_below r now =
    if not (ratelimit_enabled r)
    then (r, true)
    else if window_over r now
    then (record r { begin = some now; nums = 1 }, true)
    else if ltb r.nums r.burst
    then (record r { nums = r.nums + 1 }, true)
    else (r, false)
