-- ===== src/Job/Junit/Progress.antt =====
-- `reshuffle` and the choice of the next trigger, on the jobs of a unit that are consistent.
use sysmaster.Base.{
  ◌≤◌, Bool, true, false, not, List, length, ◌≡◌, arith, ok, assert, >>=-eq-ok, inl, inr,
  Bool-cases,
}
use sysmaster.Job.Engine.{JobRef}
use sysmaster.Job.Junit.Data.{
  Suspends, is_suspends_conflict, JobUnit, update_ready, jobs_merge_trigger_prepare,
}
use sysmaster.Job.Junit.Steps.{reshuffle_step, put_in_order}
use sysmaster.Job.Junit.Conflict.{is_suspends_conflict_lem}
use sysmaster.Job.Junit.Ordering.{mutops, merged}
use sysmaster.Job.Junit.Reshuffle.{put_in_order-merged}
use sysmaster.Job.Junit.Invariant.{IsKeyed, IsConsistent}

merged-IsKeyed : (up : Bool) (s : Suspends) → IsKeyed s → IsKeyed (merged up s)
merged-IsKeyed up s h = ground arith

merged-single :
    (up : Bool) (s : Suspends)
    → is_suspends_conflict s ≡ false
    → (length (mutops (merged up s)) ≤ 1) × (is_suspends_conflict (merged up s) ≡ false)
merged-single up s h =
    ground (arith, is_suspends_conflict_lem s, is_suspends_conflict_lem (merged up s))

put_in_order-IsConsistent :
    (q : JobUnit) (up : Bool) {r : JobUnit × List JobRef}
    → IsConsistent q
    → is_suspends_conflict q.suspends ≡ false
    → put_in_order q up ≡ ok r
    → IsConsistent r.0 × (r.0.order ≡ true)
unfolding put_in_order
put_in_order-IsConsistent q up {r} h c e = elim (Bool-cases q.order) [
  | inl o ↦ ground arith
  | inr o ↦ ground (
    arith,
    put_in_order-merged q up o,
    merged-IsKeyed up q.suspends h.keyed,
    merged-single up q.suspends c,
  )
]

prepare-IsConsistent :
    (q : JobUnit) {q1 q2 : JobUnit}
    → IsConsistent q
    → jobs_merge_trigger_prepare q ≡ ok q1
    → update_ready q1 ≡ ok q2
    → IsConsistent q2
unfolding jobs_merge_trigger_prepare update_ready
prepare-IsConsistent q h e e' = ground arith

-- `reshuffle`, where it returns, keeps a unit's jobs consistent.
pub reshuffle_step-IsConsistent :
    (q : JobUnit) (up : Bool) {r : JobUnit × List JobRef}
    → IsConsistent q
    → reshuffle_step q up ≡ ok r
    → IsConsistent r.0
unfolding reshuffle_step
reshuffle_step-IsConsistent q up h e =
    let (u, a, e1) = >>=-eq-ok (assert (not (is_suspends_conflict q.suspends))) _ e in
    let (p, b, e2) = >>=-eq-ok (put_in_order q up) _ e1 in
    let (q1, c, e3) = >>=-eq-ok (jobs_merge_trigger_prepare p.0) _ e2 in
    let (q2, d, e4) = >>=-eq-ok (update_ready q1) _ e3 in
    let peace : is_suspends_conflict q.suspends ≡ false = ground arith in
    let done = prepare-IsConsistent p.0 (put_in_order-IsConsistent q up h peace b).0 c d in
    ground arith
