-- ===== src/Job/Manager/Finish.antt =====
-- core/bin/job/manager.rs: how jobs are run, end and are removed.
use sysmaster.Base.{
  ℕ, Bool, true, false, not, ◌&&◌, ◌||◌, Option, none, some, List, [], ◌∷◌, Checked, panic, ok,
  is_some, if◌then◌else◌,
}
use sysmaster.Unit.State.{
  ActiveState, active, inactive, failed, activating, deactivating, maintenance, NotifyFlags,
}
use sysmaster.Unit.Relation.{UnitRelationAtom, on_success, on_failure}
use sysmaster.Unit.Dependency.Table.{DepMap}
use sysmaster.Job.Kind.{JobKind, start, stop, reload, restart, reload_or_start, kind_eq}
use sysmaster.Job.Entry.{JobResult}
use sysmaster.Job.Engine.{JobRef, World, M, ◌>>=◌, pure, lift, read, is_done}
use sysmaster.Job.Stat.{update_changes}
use sysmaster.Job.Table.Data.{get_suspend}
use sysmaster.Job.Table.Jobs.{JobTable, option_list}
use sysmaster.Job.Table.Commit.{table_remove_suspends, table_remove_unit}
use sysmaster.Job.Transaction.{JobMode, fail, JobError, input}
use sysmaster.Job.Transaction.Requests.{Jobs}
use sysmaster.Job.Notify.{JobConf, job_notify_result, job_notify_event}
use sysmaster.Job.Manager.{Around, JobManager, exec}

-- The jobs and the world while a failed job takes others with it.
abbrev pub Falling : Type 0 → Type 0
Falling S = Checked (JobTable × World S)

abbrev is_fail_mode : JobMode → Bool
is_fail_mode fail = true
is_fail_mode _ = false

unfoldable pub has_stop_job : JobManager → ℕ → Bool
has_stop_job jm u = is_some (get_suspend jm.jobs.t_unit u stop)

unfoldable pub has_start_like_job : JobManager → ℕ → Bool
has_start_like_job jm u =
    is_some (get_suspend jm.jobs.t_unit u start)
    || (is_some (get_suspend jm.jobs.t_unit u reload_or_start)
        || is_some (get_suspend jm.jobs.t_unit u restart))

module _ {S : Type 0} where
  unfoldable pub removed_from :
      Checked ((JobTable × List JobRef) × World S) → Falling S × List JobRef
  removed_from panic = (panic, [])
  removed_from (ok ((t, js), w)) = (ok (t, w), js)

  unfoldable pub run_kind_in : Falling S → JobRef → JobKind
  run_kind_in panic j = j.kind
  run_kind_in (ok (t, w)) j = (w.cells j.id).run_kind

  -- `update_change` of one job that is deleted.
  unfoldable pub count_del : JobManager → Option JobRef → M S JobManager
  count_del jm del = do
    cells ← read (λ w. w.cells)
    stat ← lift (update_changes cells jm.stat [] (option_list del) [])
    pure (record jm { stat = stat })

  unfoldable pub count_dels : JobManager → List JobRef → M S JobManager
  count_dels jm dels = do
    cells ← read (λ w. w.cells)
    stat ← lift (update_changes cells jm.stat [] dels [])
    pure (record jm { stat = stat })

  -- `TableSubscribe::notify` of a unit that is removed.
  unfoldable pub jm_remove_unit : JobManager → ℕ → M S JobManager
  unfolding count_del count_dels
  jm_remove_unit jm u = do
    let (jobs, del_trigger, del_suspends) = table_remove_unit jm.jobs u
    jm1 ← count_del (record jm { jobs = jobs }) del_trigger
    count_dels jm1 del_suspends

module _ {S : Type 0} (out : Around S) (db : DepMap) (fuel : ℕ) where
  -- The interface of the fallback, implemented by the table of jobs.
  abbrev pub falling_jobs : JobResult → Jobs (Falling S)
  falling_jobs result = record {
    remove_suspends = λ s u k1 k2 r. elim s [
      | panic ↦ (panic, [])
      | ok (t, w) ↦ removed_from (table_remove_suspends out.ops out.triggered db t u k1 k2 r w)
    ];
    run_kind = run_kind_in;
  }

  exec_each : JobMode → List JobConf → JobManager → M S JobManager
  exec_each mode [] jm = pure jm
  exec_each mode (c ∷ cs) jm = do (jm1, dropped) ← exec out db fuel jm c mode; exec_each mode cs jm1

  -- The errors of these requests are dropped.
  unfoldable pub exec_on : JobManager → ℕ → UnitRelationAtom → JobMode → M S JobManager
  unfolding exec_each
  exec_on jm u atom mode = do
    (configs, m) ← lift (job_notify_result db u atom mode)
    exec_each m configs jm

  exec_targets : List (JobConf × JobMode) → JobManager → M S JobManager
  exec_targets [] jm = pure jm
  exec_targets ((c, mode) ∷ cs) jm = do
    (jm1, dropped) ← exec out db fuel jm c mode
    exec_targets cs jm1

  unfoldable pub do_notify : JobManager → JobConf → Option JobMode → M S JobManager
  unfolding exec_targets
  do_notify jm c mode_option = do
    targets ← lift (job_notify_event db c mode_option)
    exec_targets targets jm

  -- `none` is `Ok`.
  unfoldable pub jm_notify : JobManager → JobConf → JobMode → M S (JobManager × Option JobError)
  unfolding do_notify
  jm_notify jm c mode =
      if not (kind_eq c.kind reload)
      then pure (jm, some input)
      else (do jm1 ← do_notify jm c (some mode); pure (jm1, none))

  -- The event of a unit that has changed its state on its own.
  state_event : ActiveState → ActiveState → Option JobKind
  state_event inactive active = some start
  state_event inactive activating = some start
  state_event failed active = some start
  state_event failed activating = some start
  state_event active inactive = some stop
  state_event active deactivating = some stop
  state_event activating inactive = some stop
  state_event activating deactivating = some stop
  state_event _ _ = none

  unfoldable pub simulate_job_notify : JobManager → ℕ → ActiveState → ActiveState → M S JobManager
  unfolding state_event
  simulate_job_notify jm u os ns = elim (state_event os ns) [
    | none ↦ pure jm
    | some kind ↦ do_notify jm (record { unit = u; kind = kind }) none
  ]

  unfoldable pub simulate_unit_notify : JobManager → ℕ → JobResult → Bool → M S JobManager
  simulate_unit_notify jm u result inside =
      if inside && not (is_done result) && is_fail_mode (out.on_failure_job_mode u)
      then exec_on jm u on_failure fail
      else pure jm

  states_differ : ActiveState → ActiveState → Bool
  states_differ active active = false
  states_differ ActiveState.reloading ActiveState.reloading = false
  states_differ inactive inactive = false
  states_differ failed failed = false
  states_differ activating activating = false
  states_differ deactivating deactivating = false
  states_differ maintenance maintenance = false
  states_differ _ _ = true

  is_failed : ActiveState → Bool
  is_failed failed = true
  is_failed _ = false

  is_inactive : ActiveState → Bool
  is_inactive inactive = true
  is_inactive _ = false

  was_down : ActiveState → Bool
  was_down failed = true
  was_down inactive = true
  was_down maintenance = true
  was_down _ = false

  unfoldable pub unit_start_on :
      JobManager → ℕ → ActiveState → ActiveState → NotifyFlags → M S JobManager
  unfolding states_differ is_failed is_inactive was_down
  unit_start_on jm u os ns flags = do
    jm1 ←
        (if states_differ ns os && not flags.will_auto_restart && is_failed ns
          then exec_on jm u on_failure (out.on_failure_job_mode u)
          else pure jm)
    (if is_inactive ns && not flags.will_auto_restart && not (was_down os)
        then exec_on jm1 u on_success (out.on_success_job_mode u)
        else pure jm1)
