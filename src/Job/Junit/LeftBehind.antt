-- ===== src/Job/Junit/LeftBehind.antt =====
-- What becomes of a `nop` that waits beside a `stop`.
use sysmaster.Base.{true, false, none, some, [], ◌∷◌, ◌≡◌}
use sysmaster.Job.Kind.{stop}
use sysmaster.Job.Engine.{JobRef}
use sysmaster.Job.Junit.Data.{no_suspends, JobUnit}

-- A unit at rest with a `stop` on the waiting list and a `nop` beside it.
pub record StopWithNop (q : JobUnit) (j n : JobRef) : Type 0 where
  pub stops : j.kind ≡ stop
  pub slots : q.suspends ≡ record no_suspends { on_stop = some j; on_nop = some n }
  pub in_order : q.order ≡ true
  pub waiting : q.sq ≡ j ∷ []
  pub idle : q.trigger ≡ none
  pub uninterrupted : q.interrupt ≡ false
  pub not_again : q.retrigger ≡ false
  pub not_paused : q.pause ≡ false

-- The unit when the `stop` has run and ended: the `nop` is there, off the list, and not ready.
abbrev pub left_with : JobUnit → JobRef → JobUnit
left_with q n = record q {
  suspends = record no_suspends { on_nop = some n };
  trigger = none;
  sq = [];
  dirty = true;
  ready = false;
}
