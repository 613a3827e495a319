-- ===== src/Job/Junit/Trigger.antt =====
-- The choice of the next trigger of a unit.
use sysmaster.Base.{
  ℕ, ◌+◌, Bool, true, false, Option, none, some, List, [], ◌∷◌, is_some, ◌≡◌, refl, arith, ok,
  if◌then◌else◌, is_empty, ◌⊎◌, ◌∙◌,
}
use sysmaster.Job.Kind.{JobKind, kind_eq}
use sysmaster.Job.Engine.{JobRef}
use sysmaster.Job.Junit.Data.{
  Suspends, get, put, suspends_len, is_suspends_conflict, JobUnit, calc_ready, update_ready, to_num,
}
use sysmaster.Job.Junit.Steps.{do_next_trigger, trigger_first}
use sysmaster.Job.Junit.Invariant.{IsConsistent, remove-IsKeyed}

nonempty {ℓ} :
    {A : Type ℓ} (xs : List A) → is_empty xs ≡ false → (x : A) × (r : List A) × (xs ≡ x ∷ r)
nonempty [] e = cc
nonempty (x ∷ r) e = (x, r, refl)

is_some-some {ℓ} : {A : Type ℓ} (o : Option A) → is_some o ≡ true → (a : A) × (o ≡ some a)
is_some-some none e = cc
is_some-some (some a) e = (a, refl)

-- The jobs of a unit: the trigger and the suspended ones.
pub job_count : JobUnit → ℕ
job_count q = to_num (is_some q.trigger) + suspends_len q.suspends

-- Where the next trigger `t` comes from, and what is handed back. The first of the waiting list is
-- taken out of its slot, and the trigger that was there is handed back; or the trigger runs again.
abbrev pub Takes : Bool → JobUnit → JobUnit → JobRef → Option JobRef → Type 0
Takes true q q' t m =
    (q.sq ≡ t ∷ q'.sq)
    × ((k : JobKind) → get q'.suspends k ≡ (if kind_eq k t.kind then none else get q.suspends k))
    × (m ≡ q.trigger)
Takes false q q' t m =
    (q.trigger ≡ some t) × (q'.sq ≡ q.sq) × (q'.suspends ≡ q.suspends) × (m ≡ none)

get-put_none :
    (s : Suspends) (j k : JobKind) → get (put s j none) k ≡ (if kind_eq k j then none else get s k)
unfolding get put
get-put_none s j k = ground arith

-- What a choice of the next trigger leaves, given what was there.
pub record HasMoved (b : Bool) (q q' : JobUnit) (t : JobRef) (m : Option JobRef) : Type 0 where
  pub takes : Takes b q q' t m
  pub consistent : IsConsistent q'
  pub triggered : q'.trigger ≡ some t
  pub not_ready : q'.ready ≡ false
  pub kept : job_count q' + to_num (is_some m) ≡ job_count q

-- A ready unit is in order and not paused, and what is ready is there.
record IsNext (q : JobUnit) (b : Bool) : Type 0 where
  in_order : q.order ≡ true
  running_on : q.pause ≡ false
  first_next : b ≡ true → (is_empty q.sq ≡ false) × ((q.interrupt ≡ true) ⊎ (q.trigger ≡ none))
  trigger_next :
      b ≡ false → (is_some q.trigger ≡ true) × (q.retrigger ≡ true) × (q.interrupt ≡ false)

calc_ready-IsNext : (q : JobUnit) (b : Bool) → calc_ready q ≡ ok (some b) → IsNext q b
unfolding calc_ready
calc_ready-IsNext q b e = ground arith

-- The unit after its first waiting job has become the trigger.
abbrev after_first : JobUnit → JobRef → List JobRef → JobUnit
after_first q j sq = record q {
  suspends = put q.suspends j.kind none;
  trigger = some j;
  sq = sq;
  interrupt = false;
  retrigger = false;
  dirty = true;
  ready = false;
}

trigger_first_lem :
    (q : JobUnit) (j : JobRef) (sq : List JobRef)
    → IsConsistent q
    → q.order ≡ true
    → ((q.interrupt ≡ true) ⊎ (q.trigger ≡ none))
    → trigger_first q j sq ≡ ok (after_first q j sq, j, if q.interrupt then q.trigger else none)
unfolding trigger_first update_ready
trigger_first_lem q j sq h o c = ground arith

suspend-HasMoved :
    (q : JobUnit) (j : JobRef) (sq : List JobRef)
    → IsConsistent q
    → q.order ≡ true
    → q.sq ≡ j ∷ sq
    → ((q.interrupt ≡ true) ⊎ (q.trigger ≡ none))
    → HasMoved true q (after_first q j sq) j (if q.interrupt then q.trigger else none)
unfolding job_count suspends_len put is_suspends_conflict
suspend-HasMoved q j sq h o e c = record {
  takes = (e, get-put_none q.suspends j.kind, ground (arith, c));
  consistent = ground (arith, remove-IsKeyed q.suspends j.kind);
  triggered = refl;
  not_ready = refl;
  kept = ground arith;
}

next_suspend :
    (q : JobUnit) (j : JobRef) (sq : List JobRef)
    → calc_ready q ≡ ok (some true)
    → q.sq ≡ j ∷ sq
    → q.order ≡ true
    → do_next_trigger q ≡ trigger_first q j sq
unfolding do_next_trigger
next_suspend q j sq e l o = rw (e, l, o)

after_again : JobUnit → JobUnit
after_again q = record q { retrigger = false; dirty = true; ready = false }

next_retrigger :
    (q : JobUnit) (t : JobRef)
    → calc_ready q ≡ ok (some false)
    → q.trigger ≡ some t
    → IsNext q false
    → do_next_trigger q ≡ ok (after_again q, t, none)
unfolding do_next_trigger update_ready after_again
next_retrigger q t e l n = rw e (ground (arith, n.trigger_next refl))

again-HasMoved :
    (q : JobUnit) (t : JobRef)
    → IsConsistent q
    → q.trigger ≡ some t
    → HasMoved false q (after_again q) t none
unfolding after_again job_count
again-HasMoved q t h e = record {
  takes = (e, refl, refl, refl);
  consistent = ground arith;
  triggered = e;
  not_ready = refl;
  kept = ground arith;
}

-- A ready unit in a consistent state always has a next trigger: no assertion fails on the way. If a
-- job that waits is next, it is the first of the waiting list: it leaves the list and its slot, no
-- other slot changes, and the trigger that was there is handed back. If the trigger is next again,
-- it stays, the list and the slots stay, and nothing is handed back. The state stays consistent, no
-- job is lost, and nothing of the unit is ready after it.
pub do_next_trigger-HasMoved :
    (q : JobUnit) (b : Bool)
    → IsConsistent q
    → calc_ready q ≡ ok (some b)
    → (q' : JobUnit) × (t : JobRef) × (m : Option JobRef) × (do_next_trigger q ≡ ok (q', t, m))
      × HasMoved b q q' t m
unfolding do_next_trigger
do_next_trigger-HasMoved q true h e =
    let n = calc_ready-IsNext q true e in
    let (j, sq, l) = nonempty q.sq (n.first_next refl).0 in
    let c = (n.first_next refl).1 in
    let r = trigger_first_lem q j sq h n.in_order c in
    (
      after_first q j sq,
      j,
      if q.interrupt then q.trigger else none,
      next_suspend q j sq e l n.in_order ∙ r,
      suspend-HasMoved q j sq h n.in_order l c,
    )
do_next_trigger-HasMoved q false h e =
    let n = calc_ready-IsNext q false e in
    let (t, l) = is_some-some q.trigger (n.trigger_next refl).0 in
    (after_again q, t, none, next_retrigger q t e l n, again-HasMoved q t h l)
