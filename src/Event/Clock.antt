-- ===== src/Event/Clock.antt =====
-- libs/event/src/timer.rs: the clock's readings, and deadlines as the kernel takes them. A `u64` is a
-- number below 2^64, an `i64` an integer, and an overflow is a panic, as in a checked build.
pub mod Deadline
use sysmaster.Base.{
  ℕ, suc, ◌+◌, ◌-◌, ◌*◌, ◌/◌, ◌%◌, Bool, true, false, ◌||◌, Checked, ok, panic, ◌>>=◌, ltb,
  if◌then◌else◌,
}

-- `negsuc n` is -(n + 1).
pub data ℤ : Type 0 where
  pos : ℕ → ℤ
  negsuc : ℕ → ℤ

abbrev pub u64_mod : ℕ
u64_mod = 18446744073709551616

-- `u64::MAX`
abbrev pub usec_infinity : ℕ
usec_infinity = 18446744073709551615

abbrev pub is_negative : ℤ → Bool
is_negative (pos n) = false
is_negative (negsuc n) = true

-- `as u64`
abbrev pub to_u64 : ℤ → ℕ
to_u64 (pos n) = n
to_u64 (negsuc n) = u64_mod - suc n

-- `as i64`
abbrev pub to_i64 : ℕ → ℤ
to_i64 n = if ltb n 9223372036854775808 then pos n else negsuc (u64_mod - n - 1)

pub record Timespec : Type 0 where
  pub tv_sec : ℤ
  pub tv_nsec : ℤ

pub record Timestamp : Type 0 where
  pub realtime : ℕ
  pub monotonic : ℕ
  pub boottime : ℕ

abbrev pub u64_checked : ℕ → Checked ℕ
u64_checked n = if ltb n u64_mod then ok n else panic

unfoldable pub load_nsec : Timespec → Checked ℕ
load_nsec ts =
    if is_negative ts.tv_sec || is_negative ts.tv_nsec
    then ok usec_infinity
    else if ltb (usec_infinity - to_u64 ts.tv_nsec / 1000000000 / 1000000) (to_u64 ts.tv_sec)
    then ok usec_infinity
    else u64_checked (to_u64 ts.tv_sec * 1000000) >>= λ sec.
        u64_checked (sec + to_u64 ts.tv_nsec / 1000)

-- `timer_stored`: the field `it_value`, beside an interval of zero.
unfoldable pub timer_stored : ℕ → Timespec
timer_stored next = record {
  tv_sec = to_i64 (next / 1000000);
  tv_nsec = to_i64 (next % 1000000 * 1000);
}
