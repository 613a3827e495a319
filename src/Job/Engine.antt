-- ===== src/Job/Engine.antt =====
-- What the jobs share: the cells of each job (core/bin/job/entry.rs), the two databases of
-- core/bin/job/rentry.rs, and the units, which the job engine reaches through an interface.
pub mod Lifecycle
use sysmaster.Base.{
  ℕ, Bool, true, false, not, ◌&&◌, ◌||◌, Option, none, some, Checked, ok, panic, ◌==◌,
  if◌then◌else◌,
}
use sysmaster.Base
use sysmaster.Unit.State.{ActiveState, active, reloading, activating}
use sysmaster.Job.Kind.{
  JobKind, start, stop, reload, verify, nop, kind_eq, job_is_basic_op, JobAttr, attr_or,
}
use sysmaster.Job.Entry.{
  JobResult, done, JobStage, init, wait, running, end_with, ActionError, ealready, eagain, ebadr,
  job_rkind_map, job_trigger_err_to_result,
}

-- An `Rc<Job>`: the pointer, as the job's id, with the job's unit and kind, which never change.
pub record JobRef : Type 0 where
  pub id : ℕ
  pub unit : ℕ
  pub kind : JobKind

-- The fields of `Job` that stand in a `RefCell`.
pub record JobCell : Type 0 where
  pub attr : JobAttr
  pub run_kind : JobKind
  pub stage : JobStage

-- What the job engine asks of a unit. `S` is the state of all units.
pub record UnitOps (S : Type 0) : Type 0 where
  pub active_state : S → ℕ → ActiveState
  pub start_unit : S → ℕ → S × Option ActionError
  pub stop_unit : S → ℕ → Bool → S × Option ActionError
  pub reload_unit : S → ℕ → S × Option ActionError

pub record World (S : Type 0) : Type 0 where
  pub cells : ℕ → JobCell
  pub suspends_db : ℕ → JobKind → Option JobAttr
  pub trigger_db : ℕ → Option (JobKind × JobAttr)
  pub last_unit : Option ℕ
  pub units : S

abbrev pub M : Type 0 → Type 0 → Type 0
M S A = World S → Checked (A × World S)

infixl 5 ◌>>=◌ ◌>>◌
abbrev pub ◌>>=◌ : {S A B : Type 0} → M S A → (A → M S B) → M S B
◌>>=◌ m f w = elim (m w) [ ok (a, w') ↦ f a w' | panic ↦ panic ]

abbrev pub ◌>>◌ : {S B : Type 0} → M S (Unit {0}) → M S B → M S B
m >> k = m >>= λ _. k

abbrev pub pure : {S A : Type 0} → A → M S A
pure a w = ok (a, w)

abbrev pub lift : {S A : Type 0} → Checked A → M S A
lift c w = elim c [ ok a ↦ ok (a, w) | panic ↦ panic ]

abbrev pub read : {S A : Type 0} → (World S → A) → M S A
read f w = ok (f w, w)

abbrev pub is_init : JobStage → Bool
is_init init = true
is_init _ = false

abbrev pub is_wait : JobStage → Bool
is_wait wait = true
is_wait _ = false

abbrev pub is_running : JobStage → Bool
is_running running = true
is_running _ = false

abbrev pub is_done : JobResult → Bool
is_done done = true
is_done _ = false

-- The next run-kind: `update_runkind` runs after `Done` only.
unfoldable pub next_kind : JobKind → JobKind → JobResult → JobKind
next_kind kind run_kind result = if is_done result then job_rkind_map kind run_kind else run_kind

module _ {S : Type 0} where
  abbrev pub require : Bool → M S (Unit {0})
  require b w = if b then ok (tt, w) else panic

  unfoldable pub set_cell : ℕ → JobCell → M S (Unit {0})
  set_cell id c w = ok (tt, record w { cells = λ i. if i == id then c else w.cells i })

  -- `JobRe`: an insertion replaces, a removal of what is not there does nothing.
  unfoldable pub suspends_insert : ℕ → JobKind → JobAttr → M S (Unit {0})
  suspends_insert unit kind attr w =
      if job_is_basic_op kind
      then ok (
        tt,
        record w {
          suspends_db =
              λ u k. if (u == unit) && kind_eq k kind then some attr else w.suspends_db u k;
        },
      )
      else panic

  unfoldable pub suspends_remove : ℕ → JobKind → M S (Unit {0})
  suspends_remove unit kind w = ok (
    tt,
    record w {
      suspends_db = λ u k. if (u == unit) && kind_eq k kind then none else w.suspends_db u k;
    },
  )

  unfoldable pub trigger_insert : ℕ → JobKind → JobAttr → M S (Unit {0})
  trigger_insert unit kind attr w =
      if job_is_basic_op kind
      then ok (
        tt,
        record w { trigger_db = λ u. if u == unit then some (kind, attr) else w.trigger_db u },
      )
      else panic

  unfoldable pub trigger_remove : ℕ → M S (Unit {0})
  trigger_remove unit w =
      ok (tt, record w { trigger_db = λ u. if u == unit then none else w.trigger_db u })

  unfoldable pub set_last_unit : ℕ → M S (Unit {0})
  set_last_unit unit w = ok (tt, record w { last_unit = some unit })

  -- `Job::merge_attr`
  unfoldable pub merge_attr : JobRef → JobRef → M S (Unit {0})
  merge_attr j other = do
    c ← read (λ w. w.cells j.id)
    o ← read (λ w. w.cells other.id)
    require (is_wait c.stage)
    require (kind_eq j.kind other.kind)
    set_cell j.id (record c { attr = attr_or c.attr o.attr })
    suspends_insert j.unit j.kind (attr_or c.attr o.attr)

  -- `Job::wait`
  unfoldable pub wait_job : JobRef → M S (Unit {0})
  wait_job j = do
    c ← read (λ w. w.cells j.id)
    require (is_init c.stage)
    set_cell j.id (record c { stage = wait })
    suspends_insert j.unit j.kind c.attr

  -- `Job::finish`. The answer says that the job goes on.
  unfoldable pub finish_job : JobRef → JobResult → M S Bool
  finish_job j result = do
    c ← read (λ w. w.cells j.id)
    require (is_wait c.stage || is_running c.stage)
    let rkind = next_kind j.kind c.run_kind result
    let retry = not (kind_eq c.run_kind rkind)
    set_cell j.id
        (record c { run_kind = rkind; stage = if retry then running else end_with result })
    (if retry
        then pure tt
        else (if is_wait c.stage then suspends_remove j.unit j.kind else trigger_remove j.unit))
    pure retry

module _ {S : Type 0} (ops : UnitOps S) where
  abbrev pub finish_action :
      ℕ → S × Option ActionError → World S → Checked (Option (Option JobResult) × World S)
  finish_action u (s, none) w = ok (none, record w { units = s })
  finish_action u (s, some e) w = ok (some (job_trigger_err_to_result e), record w { units = s })

  -- What `Verify` answers, by the unit's state.
  abbrev verify_error : ActiveState → ActionError
  verify_error active = ealready
  verify_error reloading = ealready
  verify_error activating = eagain
  verify_error _ = ebadr

  -- `job_trigger_unit`: no error, or what `job_trigger_err_to_result` makes of it.
  unfoldable pub job_trigger_unit : ℕ → JobKind → Bool → M S (Option (Option JobResult))
  job_trigger_unit u start force w = finish_action u (ops.start_unit w.units u) w
  job_trigger_unit u stop force w = finish_action u (ops.stop_unit w.units u force) w
  job_trigger_unit u reload force w = finish_action u (ops.reload_unit w.units u) w
  job_trigger_unit u verify force w =
      ok (some (job_trigger_err_to_result (verify_error (ops.active_state w.units u))), w)
  job_trigger_unit u nop force w = ok (some (job_trigger_err_to_result ealready), w)
  job_trigger_unit u _ force w = panic

  -- `Job::run`, less its timer.
  unfoldable pub run_job : JobRef → M S (Option (Option JobResult))
  unfolding job_trigger_unit
  run_job j = do
    c ← read (λ w. w.cells j.id)
    require (is_wait c.stage || is_running c.stage)
    set_cell j.id (record c { stage = running })
    set_last_unit j.unit
    (if is_wait c.stage
        then (do suspends_remove j.unit j.kind; trigger_insert j.unit j.kind c.attr)
        else pure tt)
    job_trigger_unit j.unit c.run_kind c.attr.force
