-- ===== src/Tests/Events.antt =====
-- The theorems on timers at concrete inputs: two sources of the monotonic clock, of one priority.
use sysmaster.Event.Clock.{pos, load_nsec, Timestamp, usec_infinity}
use sysmaster.Event.Clock.Deadline.{IsReading, load_nsec-microseconds}
use sysmaster.Event.Timer.{timer_monotonic, Source, Heap, Timer, remove, heap_of, type_index}
use sysmaster.Event.Timer.Due.{any-remove}
use sysmaster.Base.{
  ℕ, ◌≡◌, ok, none, some, true, [], ◌∷◌, any, ◌&&◌, not, arith, ◌==◌, if◌then◌else◌,
}

late-IsReading : IsReading (record { tv_sec = pos 18446744073709; tv_nsec = pos 551615999 })
late-IsReading = record {
  sec_fits = λ n e. ground (arith, e);
  nsec_fits = λ n e. ground (arith, e);
}

-- The last microsecond of a `u64`.
load_nsec-microseconds_example :
    load_nsec (record { tv_sec = pos 18446744073709; tv_nsec = pos 551615999 })
    ≡ ok 18446744073709551615
load_nsec-microseconds_example =
    load_nsec-microseconds (record { tv_sec = pos 18446744073709; tv_nsec = pos 551615999 })
      late-IsReading

-- A source that fires at `time`.
abbrev source_at : ℕ → ℕ → Source
source_at token time = record {
  token = token;
  event_type = timer_monotonic;
  time = time;
  time_relative = usec_infinity;
  priority = 128;
}

abbrev first : Source
first = source_at 1 200

abbrev second : Source
second = source_at 2 700

abbrev two_sources : Heap
two_sources = record { source = first; next = 200 } ∷ record { source = second; next = 700 } ∷ []

abbrev clock : Timestamp
clock = record { realtime = 900; monotonic = 500; boottime = 500 }

abbrev timer : Timer
timer = record {
  timer_set = λ et. if type_index et == 3 then some two_sources else none;
  timestamp = clock;
}

-- The removal of the first source leaves none.
any-remove_example :
    any (λ d. true) (heap_of ((remove timer timer_monotonic first).timer_set timer_monotonic))
    ≡ any
        (λ d. true && not (d.source.priority == first.priority))
        (heap_of (timer.timer_set timer_monotonic))
any-remove_example = any-remove (λ d. true) timer timer_monotonic first

-- A third source, 100 after the clock's 500, comes between the two.
abbrev third : Source
third = record first { token = 3; time_relative = 100 }
