-- ===== src/Job/Manager/Rollback.antt =====
-- What a request that is refused leaves of the jobs, and what a run leaves ready.
use sysmaster.Base.{ℕ, Bool-cases, Option, none, some, [], ◌≡◌, refl, inl, inr, panic, ok, OnOk}
use sysmaster.Unit.Dependency.Table.{DepMap}
use sysmaster.Job.Engine.{World, lift}
use sysmaster.Job.Stat.{JobStatData, update_changes}
use sysmaster.Job.Transaction.Requests.{job_trans_verify}
use sysmaster.Job.Junit.Effects.{Changes}
use sysmaster.Job.Table.Data.{clear_table}
use sysmaster.Job.Table.Jobs.{JobTable, clear_jobs}
use sysmaster.Job.Table.Commit.{commit, commit_changes, shares_id}
use sysmaster.Job.Transaction.{JobMode, JobError, Expanded, expanded, refused}
use sysmaster.Job.Notify.{JobConf}
use sysmaster.Job.Manager.Then.{Then, >>=-Then, OnOk-any}
use sysmaster.Job.Manager.{
  Around, JobManager, Executed, committed, rejected, Staged, job_trans_check_input, commit_stage,
  settle, go_on, conflicts_of, expand_request, exec_checked, verify_stage, take_stage, exec,
}

module _ {S : Type 0} (out : Around S) (db : DepMap) (fuel : ℕ) where
  -- A refused commit has changed nothing.
  abbrev Unharmed : JobTable → JobTable × Option Changes → World S → Type 0
  Unharmed t (t', none) w = t' ≡ t
  Unharmed t (t', some ch) w = Unit

  commit-Unharmed :
      (t other : JobTable) (mode : JobMode) (w : World S)
      → Then (commit out.ops out.triggered db out.ignore_on_isolate t other mode) w (Unharmed t)
  unfolding commit
  commit-Unharmed t other mode w = elim (Bool-cases (shares_id t other.t_id)) [
    | inl e ↦ rw e refl
    | inr e ↦ rw e (
        >>=-Then (λ a v. Unit) (Unharmed t) (λ r. λ v. ok ((r.0, some r.1), v)) (λ r v h. tt)
          (commit_changes out.ops out.triggered db out.ignore_on_isolate t other mode) w
          (OnOk-any _))
  ]

  -- A refused request leaves the jobs and their statistics, and a committed one empties the stage.
  abbrev pub IsSettled : JobTable → JobStatData → JobManager × Executed → World S → Type 0
  IsSettled jobs stat (jm', rejected e) w = (jm'.jobs ≡ jobs) × (jm'.stat ≡ stat)
  IsSettled jobs stat (jm', committed ch) w = (jm'.stage.t_id ≡ []) × (jm'.stage.t_unit.t_data ≡ [])

  settle-IsSettled :
      (jm : JobManager) (r : JobTable × Option Changes) (w : World S)
      → Unharmed jm.jobs r w
      → Then (settle out db fuel jm r) w (IsSettled jm.jobs jm.stat)
  unfolding settle clear_jobs clear_table
  settle-IsSettled jm (jobs, none) w h = (h, refl)
  settle-IsSettled jm (jobs, some ch) w h =
      >>=-Then (λ stat v. Unit) (IsSettled jm.jobs jm.stat)
        (λ stat v.
          ok (
            (record jm { jobs = jobs; stage = clear_jobs jm.stage; stat = stat }, committed ch),
            v,
          ))
        (λ stat v k. (refl, refl))
        (lift (update_changes w.cells jm.stat ch.adds ch.dels ch.updates)) w (OnOk-any _)

  commit_stage-IsSettled :
      (jm : JobManager) (mode : JobMode) (w : World S)
      → Then (commit_stage out db fuel jm mode) w (IsSettled jm.jobs jm.stat)
  unfolding commit_stage
  commit_stage-IsSettled jm mode w =
      >>=-Then (Unharmed jm.jobs) (IsSettled jm.jobs jm.stat) (settle out db fuel jm)
        (settle-IsSettled jm)
        (commit out.ops out.triggered db out.ignore_on_isolate jm.jobs jm.stage mode) w
        (commit-Unharmed jm.jobs jm.stage mode w)

  go_on-IsSettled :
      (jm : JobManager) (mode : JobMode) (a : Option JobError) (w : World S)
      → Then (go_on out db fuel jm mode a) w (IsSettled jm.jobs jm.stat)
  unfolding go_on
  go_on-IsSettled jm mode (some e) w = (refl, refl)
  go_on-IsSettled jm mode none w = commit_stage-IsSettled jm mode w

  verify_stage-IsSettled :
      (jm : JobManager) (mode : JobMode) (w : World S)
      → Then (verify_stage out db fuel jm mode) w (IsSettled jm.jobs jm.stat)
  unfolding verify_stage
  verify_stage-IsSettled jm mode w =
      >>=-Then (λ a v. Unit) (IsSettled jm.jobs jm.stat) (go_on out db fuel jm mode)
        (λ a v u. go_on-IsSettled jm mode a v)
        (lift (job_trans_verify (conflicts_of w) jm.stage jm.jobs mode)) w (OnOk-any _)

  take_stage-IsSettled :
      (jm : JobManager) (mode : JobMode) (r : Expanded (Staged S)) (w : World S)
      → Then (take_stage out db fuel jm mode r) w (IsSettled jm.jobs jm.stat)
  unfolding take_stage
  take_stage-IsSettled jm mode (expanded panic) w = tt
  take_stage-IsSettled jm mode (expanded (ok (t, ja, w1))) w =
      verify_stage-IsSettled (record jm { stage = t; ja = ja }) mode w1
  take_stage-IsSettled jm mode (refused panic e) w = tt
  take_stage-IsSettled jm mode (refused (ok (t, ja, w1)) e) w = (refl, refl)
  take_stage-IsSettled jm mode Expanded.failed w = tt
  take_stage-IsSettled jm mode Expanded.exhausted w = tt

  exec_checked-IsSettled :
      (jm : JobManager) (c : JobConf) (mode : JobMode) (e : Option JobError) (w : World S)
      → Then (exec_checked out db fuel jm c mode e) w (IsSettled jm.jobs jm.stat)
  unfolding exec_checked
  exec_checked-IsSettled jm c mode (some e) w = (refl, refl)
  exec_checked-IsSettled jm c mode none w =
      take_stage-IsSettled (record jm { stage = clear_jobs jm.stage }) mode
        (expand_request out db fuel c mode w (ok (clear_jobs jm.stage, jm.ja, w))) w

  -- A request that returns: if it is refused, wherever it is refused, it leaves the jobs and the
  -- statistics as they were; if it is committed, it leaves an empty stage.
  pub exec-IsSettled :
      (jm : JobManager) (c : JobConf) (mode : JobMode) (w : World S)
      → OnOk (λ r. IsSettled jm.jobs jm.stat r.0 r.1) (exec out db fuel jm c mode w)
  unfolding exec
  exec-IsSettled jm c mode w = exec_checked-IsSettled jm c mode (job_trans_check_input c mode) w
