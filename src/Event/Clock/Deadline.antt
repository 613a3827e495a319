-- ===== src/Event/Clock/Deadline.antt =====
-- Deadlines that are handed to the kernel and read back, and the clock's range.
use sysmaster.Base.{
  ℕ, ◌+◌, ◌*◌, ◌/◌, ◌≤◌, ◌<◌, ◌≡◌, arith, Checked, ok, panic, refl, ltb, if◌then◌else◌,
}
use sysmaster.Event.Clock.{
  ℤ, pos, negsuc, Timespec, u64_mod, usec_infinity, load_nsec, timer_stored,
}

-- A deadline that is handed to the kernel reads back unchanged.
pub load_nsec-timer_stored : (next : ℕ) → next < u64_mod → load_nsec (timer_stored next) ≡ ok next
unfolding load_nsec timer_stored
load_nsec-timer_stored next h = ground arith

-- What the kernel can hand out as a time: an `i64` of seconds, and less than a second beside it.
pub record IsReading (ts : Timespec) : Type 0 where
  pub sec_fits : (n : ℕ) → ts.tv_sec ≡ pos n → n < 9223372036854775808
  pub nsec_fits : (n : ℕ) → ts.tv_nsec ≡ pos n → n < 1000000000

-- The microseconds of a reading: none for a negative one, and an overflow when they are 2^64 or more.
abbrev pub microseconds : ℤ → ℤ → Checked ℕ
microseconds (pos sec) (pos nsec) =
    if ltb (sec * 1000000 + nsec / 1000) u64_mod then ok (sec * 1000000 + nsec / 1000) else panic
microseconds _ _ = ok usec_infinity

reading :
    (sec nsec : ℤ)
    → ((n : ℕ) → sec ≡ pos n → n < 9223372036854775808)
    → ((n : ℕ) → nsec ≡ pos n → n < 1000000000)
    → load_nsec (record { tv_sec = sec; tv_nsec = nsec }) ≡ microseconds sec nsec
unfolding load_nsec
reading (pos sec) (pos nsec) hs hn = ground (arith, hs sec refl, hn nsec refl)
reading (pos sec) (negsuc n) hs hn = refl
reading (negsuc n) (pos nsec) hs hn = refl
reading (negsuc n) (negsuc m) hs hn = refl

-- Every reading, whatever its signs, gives its microseconds if they fit a `u64`, `u64::MAX` if it is
-- negative, and an overflow otherwise: the guard in between never takes effect.
pub load_nsec-microseconds :
    (ts : Timespec) → IsReading ts → load_nsec ts ≡ microseconds ts.tv_sec ts.tv_nsec
load_nsec-microseconds ts h = reading ts.tv_sec ts.tv_nsec h.sec_fits h.nsec_fits

-- The guard does not keep the product in range: every reading of more seconds overflows.
pub load_nsec_overflow :
    (sec nsec : ℕ)
    → 18446744073710 ≤ sec
    → sec < 9223372036854775808
    → nsec < 1000000000
    → load_nsec (record { tv_sec = pos sec; tv_nsec = pos nsec }) ≡ panic
unfolding load_nsec
load_nsec_overflow sec nsec lo hi hn = ground arith
