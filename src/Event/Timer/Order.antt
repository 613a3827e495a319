-- ===== src/Event/Timer/Order.antt =====
-- The heap of a clock stays in order.
use sysmaster.Base.{
  Option, ==_iff, some, ℕ, ◌≤◌, [], ◌∷◌, arith, ◌≡◌, ok, ◌==◌, false, any, true, refl,
}
use sysmaster.Event.Clock.{Timestamp, usec_infinity}
use sysmaster.Event.Timer.{
  EventType, type_index, Source, ClockData, Heap, heap_push, inner_remove, Timer, push, deadline,
  heap_of, set_heap,
}

-- No deadline of the heap is before `low`, and each is at most the next one.
abbrev pub IsOrdered : ℕ → Heap → Type 0
IsOrdered low [] = Unit
IsOrdered low (d ∷ heap) = (low ≤ d.next) × IsOrdered d.next heap

pub heap_push-IsOrdered :
    (low : ℕ) (c : ClockData) (heap : Heap)
    → low ≤ c.next
    → IsOrdered low heap
    → IsOrdered low (heap_push c heap)
unfolding heap_push
heap_push-IsOrdered low c [] l h = ground arith
heap_push-IsOrdered low c (d ∷ heap) l h = ground (arith, heap_push-IsOrdered d.next c heap)

IsOrdered-weaken :
    (low low' : ℕ) (heap : Heap) → low ≤ low' → IsOrdered low' heap → IsOrdered low heap
IsOrdered-weaken low low' [] l h = tt
IsOrdered-weaken low low' (d ∷ heap) l h = (omega arith, h.1)

pub inner_remove-IsOrdered :
    (low : ℕ) (heap : Heap) (s : Source) → IsOrdered low heap → IsOrdered low (inner_remove heap s)
unfolding inner_remove
inner_remove-IsOrdered low [] s h = tt
inner_remove-IsOrdered low (d ∷ heap) s h =
    let r = IsOrdered-weaken low d.next _ h.0 (inner_remove-IsOrdered d.next heap s h.1) in
    ground (arith, heap_push-IsOrdered low d (inner_remove heap s))

any-heap_push-same :
    (c : ClockData) (heap : Heap) → any (λ d. d.next == c.next) (heap_push c heap) ≡ true
unfolding heap_push
any-heap_push-same c [] = ground arith
any-heap_push-same c (d ∷ heap) = ground (arith, any-heap_push-same c heap)

pub timer_set-set_heap :
    (t : Timer) (et : EventType) (h : Option Heap) → (set_heap t et h).timer_set et ≡ h
unfolding set_heap
timer_set-set_heap t et h = rw ((==_iff (type_index et) (type_index et)).1 refl)

-- A source whose deadline can be computed and is not `u64::MAX` is pushed: the heap of its clock stays
-- in order and holds that deadline.
pub push-IsOrdered :
    (now : Timestamp) (t : Timer) (s : Source) (next : ℕ)
    → deadline now s ≡ ok next
    → (next == usec_infinity) ≡ false
    → IsOrdered 0 (heap_of (t.timer_set s.event_type))
    → (t' : Timer) × (push now t s ≡ ok t')
      × IsOrdered 0 (heap_of (t'.timer_set s.event_type))
      × (any (λ d. d.next == next) (heap_of (t'.timer_set s.event_type)) ≡ true)
unfolding push
push-IsOrdered now t s next due finite o =
    let heap = heap_of (t.timer_set s.event_type) in
    let c : ClockData = record { source = s; next = next } in
    (
      set_heap (record t { timestamp = now }) s.event_type (some (heap_push c heap)),
      rw (due, push, finite) refl,
      rw (timer_set-set_heap (record t { timestamp = now }) s.event_type (some (heap_push c heap)))
          (heap_push-IsOrdered 0 c heap (omega arith) o),
      rw (timer_set-set_heap (record t { timestamp = now }) s.event_type (some (heap_push c heap)))
          (any-heap_push-same c heap),
    )
