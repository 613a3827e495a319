-- ===== src/Job/Manager/Run.antt =====
-- core/bin/job/manager.rs: the removal of a job with what depends on it, the loop that runs the ready
-- jobs, and the calls of the manager.
pub mod Idle
use sysmaster.Base.{
  ℕ, zero, suc, ◌+◌, ◌%◌, ◌^◌, Bool, true, false, not, ◌&&◌, ◌||◌, Option, none, some, List, [],
  ◌∷◌, Checked, panic, ok, is_some, is_empty, length, ◌==◌, if◌then◌else◌,
}
use sysmaster.Base
use sysmaster.Unit.State.{ActiveState, NotifyFlags}
use sysmaster.Unit.Relation.{UnitRelationAtom}
use sysmaster.Unit.Dependency.Table.{DepMap, gets_atom}
use sysmaster.Job.Kind.{JobKind, start, stop, reload, restart, verify, nop, JobAttr, attr_or}
use sysmaster.Job.Entry.{JobResult, done, cancelled, dependency, job_process_unit}
use sysmaster.Job.Engine.{
  JobRef, JobCell, World, M, ◌>>=◌, ◌>>◌, pure, lift, read, require, is_done, trigger_insert,
}
use sysmaster.Job.Alloc
use sysmaster.Job.Stat.{update_changes, clear_cnt, new_stat}
use sysmaster.Job.Table.Data.{get_trigger_info, update_up_ready, calc_table_ready}
use sysmaster.Job.Table.Entries.{resume_unit}
use sysmaster.Job.Table.Jobs.{
  JobTable, clear_jobs, option_list, jobs_2_units, rentry_map_trigger, rentry_map_suspend,
}
use sysmaster.Job.Table.Commit.{
  table_get, table_is_trigger, table_is_suspend, table_remove_suspends, table_finish_trigger,
  table_reshuffle, try_trigger,
}
use sysmaster.Job.Transaction.{
  JobMode, replace, JobError, input, not_existed, not_supported, internal,
}
use sysmaster.Job.Transaction.Requests.{trans_fallback_body}
use sysmaster.Job.Notify.{JobConf}
use sysmaster.Job.Manager.{Around, JobManager, JobInfo, Text, exec}
use sysmaster.Job.Manager.Finish.{
  Falling, falling_jobs, count_del, count_dels, do_notify, simulate_job_notify,
  simulate_unit_notify, unit_start_on,
}

abbrev usize_mod : ℕ
usize_mod = 18446744073709551616

module _ {S : Type 0} (out : Around S) (db : DepMap) (fuel : ℕ) where
  delete_one : JobManager → JobRef → JobResult → M S (JobManager × Option JobRef × Option JobRef)
  delete_one jm j result =
      if table_is_trigger jm.jobs j.id
      then (do
        (jobs, del_trigger) ← table_finish_trigger out.ops out.triggered db jm.jobs j.unit result
        pure (record jm { jobs = jobs }, del_trigger, none))
      else (do
        (jobs, dels) ←
            table_remove_suspends out.ops out.triggered db jm.jobs j.unit j.kind none result
        require (length dels == 1)
        pure (record jm { jobs = jobs }, none, elim dels [ [] ↦ none | d ∷ ds ↦ some d ]))

  -- Whether a job has been deleted.
  unfoldable pub do_remove_one : JobManager → JobRef → JobResult → Bool → M S (JobManager × Bool)
  unfolding delete_one
  do_remove_one jm j result inside = do
    (jm1, del_trigger, del_suspend) ← delete_one jm j result
    let del_one = is_some del_trigger || is_some del_suspend
    jm2 ← (if del_one then simulate_unit_notify out db fuel jm1 j.unit result inside else pure jm1)
    jm3 ← count_del jm2 del_trigger
    jm4 ← count_del jm3 del_suspend
    pure (jm4, del_one)

  notify_fallen : List ℕ → ℕ → JobManager → M S JobManager
  notify_fallen [] unit jm = pure jm
  notify_fallen (u ∷ us) unit jm = do
    jm1 ← (if u == unit then pure jm else simulate_unit_notify out db fuel jm u dependency true)
    notify_fallen us unit jm1

  -- The jobs that depend on the one that has gone. Out of fuel is a panic.
  fall_with : JobManager → JobRef → JobCell → M S (JobManager × List JobRef)
  fall_with jm j info w =
      elim (trans_fallback_body (falling_jobs out db fuel dependency) db dependency fuel
        (ok (jm.jobs, w)) j.unit info.run_kind) [
          | none ↦ panic
          | some (s, dels) ↦ elim s [
            | panic ↦ panic
            | ok (t, w1) ↦ ok ((record jm { jobs = t }, dels), w1)
          ]
        ]

  unfoldable pub do_remove_relation : JobManager → JobRef → JobCell → M S JobManager
  unfolding notify_fallen fall_with
  do_remove_relation jm j info =
      if info.attr.no_relevancy
      then (do
        (jm1, dropped) ← exec out db fuel jm (record { unit = j.unit; kind = stop }) replace
        pure jm1)
      else (do
        (jm1, del_rel) ← fall_with jm j info
        jm2 ← notify_fallen (jobs_2_units del_rel) j.unit jm1
        count_dels jm2 del_rel)

  unfoldable pub do_remove : JobManager → JobInfo → JobResult → Bool → M S (JobManager × Bool)
  unfolding do_remove_one do_remove_relation
  do_remove jm (j, info) result inside = do
    (jm1, del_one) ← do_remove_one jm j result inside
    jm2 ← (if del_one && not (is_done result) then do_remove_relation jm1 j info else pure jm1)
    pure (jm2, del_one)

  -- The trigger of a unit whose state has changed: whether the event is the job's, and whether the job
  -- has been removed.
  finish_job_of : JobManager → Text → M S (JobManager × Bool × Bool)
  unfolding do_remove
  finish_job_of jm t = elim (get_trigger_info jm.jobs.t_unit t.unit) [
    | none ↦ pure (jm, false, false)
    | some (j, pause) ↦
        if pause
        then (do
          jobs ← lift (resume_unit jm.jobs.t_unit t.unit)
          pure (record jm { jobs = record jm.jobs { t_unit = jobs } }, true, false))
        else (do
          info ← read (λ w. w.cells j.id)
          (suggest_r, suggest_g) ← lift (job_process_unit info.run_kind t.ns t.flags)
          elim suggest_r [
            | none ↦ pure (jm, suggest_g, false)
            | some result ↦ do
              (jm1, del_one) ← do_remove jm (j, info) result false
              pure (jm1, suggest_g, del_one)
          ])
  ]

  tell_triggered : ℕ → List ℕ → S → S
  tell_triggered u [] s = s
  tell_triggered u (o ∷ os) s = tell_triggered u os (out.triggered s o u)

  unfoldable pub do_try_finish : JobManager → Text → M S JobManager
  unfolding finish_job_of tell_triggered
  do_try_finish jm t = do
    (jm1, generated, del_one) ← finish_job_of jm t
    jm2 ← (if generated then pure jm1 else simulate_job_notify out db fuel jm1 t.unit t.os t.ns)
    jm3 ← unit_start_on out db fuel jm2 t.unit t.os t.ns t.flags
    (λ w. ok (
      tt,
      (if del_one then w else record w {
        units = tell_triggered t.unit (gets_atom db t.unit UnitRelationAtom.triggered_by) w.units;
      }),
    ))
    pure jm3

  -- While something is run, the first report is kept and the others are refused.
  unfoldable pub try_finish : JobManager → Text → M S (JobManager × Option JobError)
  unfolding do_try_finish
  try_finish jm t =
      if jm.running
      then (if is_some jm.text
          then pure (jm, some input)
          else pure (record jm { text = some t }, none))
      else (do jm1 ← do_try_finish jm t; pure (jm1, none))

  report_each : List Text → JobManager → M S JobManager
  unfolding try_finish
  report_each [] jm = pure jm
  report_each (t ∷ ts) jm = do (jm1, dropped) ← try_finish jm t; report_each ts jm1

  finish_text : JobManager → M S JobManager
  unfolding do_try_finish
  finish_text jm = elim jm.text [
    | none ↦ pure jm
    | some t ↦ do_try_finish (record jm { text = none }) t
  ]

  finish_ended : JobManager → Option (JobRef × JobCell × Option JobResult) → M S JobManager
  unfolding do_remove
  finish_ended jm (some (j, info, some tend_r)) = elim (table_get jm.jobs j.id) [
    | none ↦ pure jm
    | some k ↦ do (jm1, removed) ← do_remove jm (j, info) tend_r true; pure jm1
  ]
  finish_ended jm (some (j, info, none)) = pure jm
  finish_ended jm none = pure jm

  -- What units have reported since the last time.
  report_calls : JobManager → M S JobManager
  unfolding report_each
  report_calls jm w =
      report_each (out.finish_calls w.units).1 jm
        (record w { units = (out.finish_calls w.units).0 })

  -- Whether something was triggered in this round.
  finish_round :
      JobManager
      → Option (Option (JobRef × JobCell × Option JobResult) × Option JobRef)
      → M S (JobManager × Bool)
  unfolding finish_text finish_ended
  finish_round jm none = pure (jm, false)
  finish_round jm (some (info, merge_trigger)) = do
    jm1 ← count_del jm merge_trigger
    jm2 ← finish_text jm1
    jm3 ← finish_ended jm2 info
    (λ w. ok (tt, record w { last_unit = none }))
    pure (jm3, true)

  -- One round: what units report while a job is run is kept, and then finished.
  unfoldable pub run_round : JobManager → Option ℕ → M S (JobManager × Bool)
  unfolding report_calls finish_round
  run_round jm unit = do
    (jobs, ret) ← try_trigger out.ops out.triggered db jm.jobs unit
    jm1 ← report_calls (record jm { jobs = jobs; text = none; running = true })
    finish_round (record jm1 { running = false }) ret

  run_again :
      (JobManager → M S (Option (JobManager × ℕ)))
      → ℕ
      → JobManager × Bool
      → M S (Option (JobManager × ℕ))
  run_again rest cnt (jm, false) = pure (some (jm, cnt))
  run_again rest cnt (jm, true) = rest jm

  -- The loop, on fuel, with the rounds that have triggered something.
  unfoldable pub run : ℕ → ℕ → JobManager → Option ℕ → M S (Option (JobManager × ℕ))
  unfolding run_round run_again
  run zero cnt jm unit = pure none
  run (suc rounds) cnt jm unit =
      run_round jm unit >>= run_again (λ jm1. run rounds ((cnt + 1) % usize_mod) jm1 unit) cnt

  -- A suspended job is removed from outside; `none` is `Ok`.
  unfoldable pub jm_remove : JobManager → ℕ → M S (JobManager × Option JobError)
  unfolding do_remove
  jm_remove jm id = do
    require (not jm.running)
    elim (table_get jm.jobs id) [
      | none ↦ pure (jm, some not_existed)
      | some j ↦
          if table_is_trigger jm.jobs id
          then pure (jm, some not_supported)
          else if not (table_is_suspend jm.jobs id)
          then pure (jm, some internal)
          else (do
            info ← read (λ w. w.cells j.id)
            (jm1, removed) ← do_remove jm (j, info) cancelled false
            pure (jm1, none))
    ]
