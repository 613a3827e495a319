-- ===== src/Event/Timer/Due.antt =====
-- What a pop takes out of the heap of a clock, and what a removal leaves there.
use sysmaster.Base.{
  ◌==◌, ℕ, ◌≤◌, Bool, not, ◌||◌, Option-cases, ◌&&◌, Option, none, some, [], ◌∷◌, ◌≡◌, refl, All,
  any, arith, inl, inr,
}
use sysmaster.Event.Timer.{
  EventType, Source, ClockData, Heap, Timer, heap_push, inner_remove, heap_of, remove,
}
use sysmaster.Event.Timer.Order.{timer_set-set_heap}

-- The source that is handed out is that of the earliest deadline, which is over.
abbrev pub IsEarliest : ℕ → Heap → Option Source → Type 0
IsEarliest now heap none = Unit
IsEarliest now heap (some s) =
    (d : ClockData) × (d.source ≡ s) × (d.next ≤ now) × All (λ e. d.next ≤ e.next) heap

any-heap_push :
    (p : ClockData → Bool) (c : ClockData) (heap : Heap)
    → any p (heap_push c heap) ≡ (p c || any p heap)
unfolding heap_push
any-heap_push p c [] = refl
any-heap_push p c (d ∷ heap) = ground (arith, any-heap_push p c heap)

any-inner_remove :
    (p : ClockData → Bool) (heap : Heap) (s : Source)
    → any p (inner_remove heap s) ≡ any (λ d. p d && not (d.source.priority == s.priority)) heap
unfolding inner_remove
any-inner_remove p [] s = refl
any-inner_remove p (d ∷ heap) s =
    ground (arith, any-inner_remove p heap s, any-heap_push p d (inner_remove heap s))

-- The removal of a source takes out every source of that clock with the same priority, and no other.
pub any-remove :
    (p : ClockData → Bool) (t : Timer) (et : EventType) (s : Source)
    → any p (heap_of ((remove t et s).timer_set et))
      ≡ any (λ d. p d && not (d.source.priority == s.priority)) (heap_of (t.timer_set et))
unfolding remove
any-remove p t et s = elim (Option-cases (t.timer_set et)) [
  | inl e ↦ rw (remove, e, e)
  | inr (heap, e) ↦ rw (remove, e, timer_set-set_heap) (any-inner_remove p heap s)
]
