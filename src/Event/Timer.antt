-- ===== src/Event/Timer.antt =====
-- libs/event/src/timer.rs: `Timer`, a heap of deadlines for each clock. The reading of the clocks is an
-- argument. A `BinaryHeap` is a list with its greatest element first, here the earliest deadline;
-- which of two equal elements comes first Rust leaves open.
pub mod Order
pub mod Due
use sysmaster.Base.{
  ℕ, ◌+◌, Bool, true, false, not, Option, none, some, List, [], ◌∷◌, Checked, ok, panic, ◌>>=◌, ltb,
  leb, ◌==◌, is_empty, if◌then◌else◌,
}
use sysmaster.Event.Clock.{Timestamp, usec_infinity, u64_checked}

pub data EventType : Type 0 where
  io timer_realtime timer_boottime timer_monotonic timer_realtime_alarm timer_boottime_alarm :
      EventType
  signal child pidfd watchdog inotify defer post exit : EventType

abbrev pub type_index : EventType → ℕ
type_index io = 0
type_index timer_realtime = 1
type_index timer_boottime = 2
type_index timer_monotonic = 3
type_index timer_realtime_alarm = 4
type_index timer_boottime_alarm = 5
type_index signal = 6
type_index child = 7
type_index pidfd = 8
type_index watchdog = 9
type_index inotify = 10
type_index defer = 11
type_index post = 12
type_index exit = 13

-- What the timer asks of a source. A priority, an `i8`, is shifted by 128.
pub record Source : Type 0 where
  pub token : ℕ
  pub event_type : EventType
  pub time : ℕ
  pub time_relative : ℕ
  pub priority : ℕ

-- `Ordering::Equal` of two sources: their priorities are compared.
abbrev pub compares_equal : Source → Source → Bool
compares_equal s t = s.priority == t.priority

pub record ClockData : Type 0 where
  pub source : Source
  pub next : ℕ

abbrev pub Heap : Type 0
Heap = List ClockData

unfoldable pub heap_push : ClockData → Heap → Heap
heap_push c [] = c ∷ []
heap_push c (d ∷ heap) =
    let rest = heap_push c heap in if ltb c.next d.next then c ∷ d ∷ heap else d ∷ rest

-- `TimerInner::pop`: the earliest deadline, when it is over.
unfoldable pub inner_pop : Heap → ℕ → Heap × Option ClockData
inner_pop [] now = ([], none)
inner_pop (d ∷ heap) now = if leb d.next now then (heap, some d) else (d ∷ heap, none)

-- `TimerInner::remove`
unfoldable pub inner_remove : Heap → Source → Heap
inner_remove [] source = []
inner_remove (d ∷ heap) source =
    let rest = inner_remove heap source in
    if not (compares_equal d.source source) then heap_push d rest else rest

pub record Timer : Type 0 where
  pub timer_set : EventType → Option Heap
  pub timestamp : Timestamp

unfoldable pub timerid : Timestamp → EventType → Checked ℕ
timerid now timer_realtime = ok now.realtime
timerid now timer_boottime = ok now.boottime
timerid now timer_monotonic = ok now.monotonic
timerid now timer_realtime_alarm = ok now.realtime
timerid now timer_boottime_alarm = ok now.boottime
timerid now _ = panic

unfoldable pub set_heap : Timer → EventType → Option Heap → Timer
set_heap t et heap = record t {
  timer_set = λ e. if type_index e == type_index et then heap else t.timer_set e;
}

-- The deadline of a source: relative to the clock if it says so, else its own time.
unfoldable pub deadline : Timestamp → Source → Checked ℕ
unfolding timerid
deadline now source =
    if not (source.time_relative == usec_infinity)
    then (timerid now source.event_type >>= (λ id. u64_checked (source.time_relative + id)))
    else ok source.time

abbrev pub heap_of : Option Heap → Heap
heap_of none = []
heap_of (some heap) = heap

unfoldable pub push : Timestamp → Timer → Source → Checked Timer
unfolding deadline set_heap heap_push
push now t source = deadline now source >>= λ next.
    let et = source.event_type in
    let heap = heap_push (record { source = source; next = next }) (heap_of (t.timer_set et)) in
    if next == usec_infinity
    then panic
    else ok (set_heap (record t { timestamp = now }) et (some heap))

source_of : Option ClockData → Option Source
source_of none = none
source_of (some d) = some d.source

pop_heap : Timer → EventType → ℕ → Option Heap → Timer × Option Source
unfolding set_heap inner_pop source_of
pop_heap t et next none = (t, none)
pop_heap t et next (some heap) =
    if is_empty heap
    then (set_heap t et none, none)
    else (let (heap', d) = inner_pop heap next in (set_heap t et (some heap'), source_of d))

unfoldable pub pop : Timestamp → Timer → EventType → Checked (Timer × Option Source)
unfolding timerid pop_heap
pop now t et =
    timerid now et >>= λ next. ok (pop_heap (record t { timestamp = now }) et next (t.timer_set et))

peek : Heap → Option ℕ
peek [] = none
peek (d ∷ heap) = some d.next

unfoldable pub next : Timer → EventType → Option ℕ
unfolding peek
next t et = elim (t.timer_set et) [ none ↦ none | some heap ↦ peek heap ]

unfoldable pub timer_is_empty : Timer → EventType → Bool
timer_is_empty t et = elim (t.timer_set et) [ none ↦ true | some heap ↦ is_empty heap ]

unfoldable pub remove : Timer → EventType → Source → Timer
unfolding set_heap inner_remove
remove t et source = elim (t.timer_set et) [
  | none ↦ t
  | some heap ↦ set_heap t et (some (inner_remove heap source))
]
