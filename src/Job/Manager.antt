-- ===== src/Job/Manager.antt =====
-- core/bin/job/manager.rs: `JobManagerData` and `JobManager`. A request is expanded in the stage and
-- committed to the jobs. What is outside is the record `Around`; what units report to the manager
-- while they are triggered by another unit is left out.
pub mod Then
pub mod Finish
pub mod Run
pub mod Restore
pub mod Dispatch
pub mod Rollback
pub mod Compensate
use sysmaster.Base.{
  ℕ, Bool, true, false, not, ◌||◌, Option, none, some, List, [], ◌∷◌, Checked, panic, ok, is_some,
  map, if◌then◌else◌,
}
use sysmaster.Base
use sysmaster.Unit.State.{ActiveState, NotifyFlags, is_active_or_reloading}
use sysmaster.Unit.Dependency.Table.{DepMap}
use sysmaster.Job.Kind.{JobKind, start, stop, restart, kind_eq, JobAttr, attr_or}
use sysmaster.Job.Entry.{JobResult}
use sysmaster.Job.Engine.{
  JobRef, JobCell, UnitOps, World, M, ◌>>=◌, ◌>>◌, pure, lift, read, require, trigger_insert,
}
use sysmaster.Job.Alloc.{JobAllocData}
use sysmaster.Job.Alloc
use sysmaster.Job.Stat.{JobStatData, update_changes, clear_cnt, new_stat}
use sysmaster.Job.Junit.Effects.{Changes}
use sysmaster.Job.Table.Data.{
  get_suspend, get_trigger_info, is_unit_empty, update_up_ready, calc_table_ready,
}
use sysmaster.Job.Table.Jobs.{
  JobTable, clear_jobs, table_record_suspend, table_is_conflict, table_is_conflict_with,
  table_is_replace_with, rentry_map_trigger, rentry_map_suspend, option_list,
}
use sysmaster.Job.Table.Commit.{commit, table_reshuffle, table_remove_unit}
use sysmaster.Job.Transaction.{
  JobMode, isolate, trigger, JobError, input, Stage, Expanded, expanded, refused, job_trans_expand,
}
use sysmaster.Job.Transaction
use sysmaster.Job.Transaction.Requests.{Surroundings, Conflicts, job_trans_affect, job_trans_verify}
use sysmaster.Job.Notify.{JobConf}

-- A unit and its states before and after.
pub record Text : Type 0 where
  pub unit : ℕ
  pub os : ActiveState
  pub ns : ActiveState
  pub flags : NotifyFlags

-- `finish_calls` are the calls of `try_finish` that units have made since it was read.
pub record Around (S : Type 0) : Type 0 where
  pub ops : UnitOps S
  pub triggered : S → ℕ → ℕ → S
  pub finish_calls : S → S × List Text
  pub ignore_on_isolate : ℕ → Bool
  pub units_get_all : List ℕ
  pub on_failure_job_mode : ℕ → JobMode
  pub on_success_job_mode : ℕ → JobMode

pub record JobManager : Type 0 where
  pub ja : JobAllocData
  pub jobs : JobTable
  pub stage : JobTable
  pub running : Bool
  pub text : Option Text
  pub stat : JobStatData

-- `JobInfo::map`: a job as it is now.
abbrev pub JobInfo : Type 0
JobInfo = JobRef × JobCell

pub record JobAffect : Type 0 where
  pub adds : List JobInfo
  pub dels : List JobInfo
  pub updates : List JobInfo
  pub interested : Bool

pub data Executed : Type 0 where
  committed : Changes → Executed
  rejected : JobError → Executed

abbrev infos : (ℕ → JobCell) → List JobRef → List JobInfo
infos cells js = map (λ j. (j, cells j.id)) js

unfoldable pub record_affect : (ℕ → JobCell) → JobAffect → Changes → JobAffect
record_affect cells a ch =
    if a.interested
    then record a {
      adds = Base.◌++◌ a.adds (infos cells ch.adds);
      dels = Base.◌++◌ a.dels (infos cells ch.dels);
      updates = Base.◌++◌ a.updates (infos cells ch.updates);
    }
    else a

is_isolate : JobMode → Bool
is_isolate isolate = true
is_isolate _ = false

is_trigger_mode : JobMode → Bool
is_trigger_mode trigger = true
is_trigger_mode _ = false

unfoldable pub job_trans_check_input : JobConf → JobMode → Option JobError
unfolding is_isolate is_trigger_mode
job_trans_check_input c mode =
    if Base.◌&&◌ (is_isolate mode) (not (kind_eq c.kind start))
    then some input
    else if Base.◌&&◌ (is_trigger_mode mode) (not (kind_eq c.kind stop))
    then some input
    else none

-- The stage while a request is expanded in it, with the numbers of jobs and the world.
abbrev pub Staged : Type 0 → Type 0
Staged S = Checked (JobTable × JobAllocData × World S)

module _ {S : Type 0} where
  recorded_in : Checked ((JobTable × JobAllocData × Bool) × World S) → Staged S × Bool
  recorded_in panic = (panic, false)
  recorded_in (ok ((t, ja, new), w)) = (ok (t, ja, w), new)

  unfoldable pub staged_record : Staged S → ℕ → JobKind → JobMode → Staged S × Bool
  unfolding recorded_in
  staged_record panic u k mode = (panic, false)
  staged_record (ok (t, ja, w)) u k mode = recorded_in (table_record_suspend t ja u k mode w)

  unfoldable pub staged_has : Staged S → ℕ → JobKind → Bool
  staged_has panic u k = true
  staged_has (ok (t, ja, w)) u k = is_some (get_suspend t.t_unit u k)

  unfoldable pub staged_empty : Staged S → ℕ → Bool
  staged_empty panic u = false
  staged_empty (ok (t, ja, w)) u = is_unit_empty t.t_unit u

  -- The interface of an expansion, implemented by the table of jobs.
  abbrev pub stage_of : Stage (Staged S)
  stage_of = record { record_suspend = staged_record; is_recorded = staged_has }

  unfoldable pub replaces : World S → JobTable → JobTable → Bool
  replaces w jobs stage = elim (table_is_replace_with jobs.t_unit stage.t_unit w) [
    | panic ↦ false
    | ok (b, w') ↦ b
  ]

  -- Neither table is in conflict when `is_suspends_replace_with` is asked, so it cannot fail.
  abbrev conflicts_of : World S → Conflicts JobTable
  conflicts_of w = record {
    is_suspends_conflict = λ t. table_is_conflict t.t_unit;
    is_suspends_conflict_with = λ t o. table_is_conflict_with t.t_unit o.t_unit;
    is_suspends_replace_with = replaces w;
  }

module _ {S : Type 0} (out : Around S) (db : DepMap) (fuel : ℕ) where
  surroundings : Surroundings (Staged S)
  surroundings = record {
    is_unit_empty = staged_empty;
    ignore_on_isolate = out.ignore_on_isolate;
    units_get_all = out.units_get_all;
  }

  unit_is_up : World S → ℕ → Bool
  unit_is_up w u = is_active_or_reloading (out.ops.active_state w.units u)

  -- An expansion, and then what else is affected.
  unfoldable pub expand_request : JobConf → JobMode → World S → Staged S → Expanded (Staged S)
  unfolding surroundings unit_is_up
  expand_request c mode w s =
      elim (job_trans_expand stage_of db (unit_is_up w) mode fuel s c.unit c.kind) [
        | expanded s1 ↦
            job_trans_affect stage_of surroundings db (unit_is_up w) mode fuel s1 c.unit c.kind
        | refused s1 e ↦ refused s1 e
        | Transaction.failed ↦ Transaction.failed
        | Transaction.exhausted ↦ Transaction.exhausted
      ]

  unfoldable pub settle : JobManager → JobTable × Option Changes → M S (JobManager × Executed)
  settle jm (jobs, none) = pure (record jm { jobs = jobs }, rejected Transaction.internal)
  settle jm (jobs, some ch) = do
    cells ← read (λ w. w.cells)
    stat ← lift (update_changes cells jm.stat ch.adds ch.dels ch.updates)
    pure (record jm { jobs = jobs; stage = clear_jobs jm.stage; stat = stat }, committed ch)

  commit_stage : JobManager → JobMode → M S (JobManager × Executed)
  unfolding settle
  commit_stage jm mode =
      commit out.ops out.triggered db out.ignore_on_isolate jm.jobs jm.stage mode >>= settle jm

  go_on : JobManager → JobMode → Option JobError → M S (JobManager × Executed)
  unfolding commit_stage
  go_on jm mode (some e) = pure (jm, rejected e)
  go_on jm mode none = commit_stage jm mode

  verify_stage : JobManager → JobMode → M S (JobManager × Executed)
  unfolding go_on
  verify_stage jm mode = do
    w ← read (λ w. w)
    answer ← lift (job_trans_verify (conflicts_of w) jm.stage jm.jobs mode)
    go_on jm mode answer

  -- A run out of fuel counts as a panic: it does not happen with enough of it.
  take_stage : JobManager → JobMode → Expanded (Staged S) → M S (JobManager × Executed)
  unfolding verify_stage
  take_stage jm mode (expanded panic) w = panic
  take_stage jm mode (expanded (ok (t, ja, w1))) w =
      verify_stage (record jm { stage = t; ja = ja }) mode w1
  take_stage jm mode (refused panic e) w = panic
  take_stage jm mode (refused (ok (t, ja, w1)) e) w =
      ok ((record jm { stage = t; ja = ja }, rejected e), w1)
  take_stage jm mode Expanded.failed w = panic
  take_stage jm mode Expanded.exhausted w = panic

  exec_checked : JobManager → JobConf → JobMode → Option JobError → M S (JobManager × Executed)
  unfolding take_stage
  exec_checked jm c mode (some e) w = ok ((jm, rejected e), w)
  exec_checked jm c mode none w =
      let stage = clear_jobs jm.stage in
      take_stage (record jm { stage = stage }) mode (expand_request c mode w (ok (stage, jm.ja, w)))
        w

  unfoldable pub exec : JobManager → JobConf → JobMode → M S (JobManager × Executed)
  unfolding exec_checked
  exec jm c mode = exec_checked jm c mode (job_trans_check_input c mode)
