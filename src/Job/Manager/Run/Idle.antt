-- ===== src/Job/Manager/Run/Idle.antt =====
-- A run ends only when nothing is ready.
use sysmaster.Base.{
  ℕ, zero, suc, ◌+◌, ◌%◌, Bool, true, false, Bool-cases, Option, none, some, List, [], ◌∷◌, ◌≡◌,
  refl, sym, subst, not, inl, inr, OnOk, is_some,
}
use sysmaster.Unit.Dependency.Table.{DepMap}
use sysmaster.Job.Entry.{JobResult}
use sysmaster.Job.Engine.{JobRef, JobCell, World, M, require}
use sysmaster.Job.Table.Data.{JobUnitTable, ready_pop, calc_table_ready}
use sysmaster.Job.Table.Queue.{ready_pop-none}
use sysmaster.Job.Table.Entries.{try_trigger_entry}
use sysmaster.Job.Table.Jobs.{JobTable}
use sysmaster.Job.Table.Commit.{try_trigger, triggered_entry}
use sysmaster.Job.Manager.Then.{Then, >>=-Then, OnOk-any}
use sysmaster.Job.Manager.Finish.{count_del}
use sysmaster.Job.Junit.Data.{is_empty_unit}
use sysmaster.Job.Manager.{Around, JobManager, Text}
use sysmaster.Job.Manager.Run.{
  try_finish, finish_text, finish_ended, report_each, report_calls, finish_round, run_round,
  run_again, run, usize_mod,
}

abbrev Triggered : Type 0
Triggered = Option (Option (JobRef × JobCell × Option JobResult) × Option JobRef)

module _ {S : Type 0} (out : Around S) (db : DepMap) (fuel : ℕ) where
  -- When nothing is triggered, nothing is ready.
  abbrev Unless : Triggered → JobTable → Type 0
  Unless none t = calc_table_ready t.t_unit ≡ false
  Unless (some i) t = Unit

  abbrev Unready : JobTable × Triggered → World S → Type 0
  Unready r w = Unless r.1 r.0

  triggered_entry-Unready :
      (p : JobUnitTable × Option ℕ) (t : JobTable) (w : World S)
      → (p.1 ≡ none → calc_table_ready p.0 ≡ false)
      → Then (triggered_entry out.ops out.triggered db p t) w Unready
  unfolding triggered_entry
  triggered_entry-Unready (t1, none) t w h = h refl
  triggered_entry-Unready (t1, some g) t w h =
      >>=-Then (λ a v. Unit) Unready _
        (λ a v u.
          >>=-Then (λ a v. Unit) Unready _ (λ b v' u'. tt)
            (require (not (is_empty_unit (a.0.uvs g)))) v (OnOk-any _))
        (try_trigger_entry out.ops db t1 g) w (OnOk-any _)

  try_trigger-Unready :
      (t : JobTable) (w : World S) → Then (try_trigger out.ops out.triggered db t none) w Unready
  unfolding try_trigger
  try_trigger-Unready t w =
      >>=-Then (λ a v. Unit) Unready _
        (λ a v u. triggered_entry-Unready (ready_pop t.t_unit none) t v (ready_pop-none t.t_unit))
        (require t.t_unit.sync) w (OnOk-any _)

  -- While a job is run, reports leave the jobs alone.
  abbrev Reports : JobTable → JobManager → World S → Type 0
  Reports t jm w = (jm.jobs ≡ t) × (jm.running ≡ true)

  try_finish-Reports :
      (t : JobTable) (jm : JobManager) (x : Text) (w : World S)
      → Reports t jm w
      → Then (try_finish out db fuel jm x) w (λ r v. Reports t r.0 v)
  unfolding try_finish
  try_finish-Reports t jm x w h = elim (Bool-cases (is_some jm.text)) [
    | inl e ↦ rw (h.1, e) (h.0, refl)
    | inr e ↦ rw (h.1, e) (h.0, refl)
  ]

  report_each-Reports :
      (t : JobTable) (xs : List Text) (jm : JobManager) (w : World S)
      → Reports t jm w
      → Then (report_each out db fuel xs jm) w (Reports t)
  unfolding report_each
  report_each-Reports t [] jm w h = h
  report_each-Reports t (x ∷ xs) jm w h =
      >>=-Then (λ r v. Reports t r.0 v) (Reports t) (λ r. report_each out db fuel xs r.0)
        (λ r v k. report_each-Reports t xs r.0 v k) (try_finish out db fuel jm x) w
        (try_finish-Reports t jm x w h)

  report_calls-Reports :
      (t : JobTable) (jm : JobManager) (w : World S)
      → Reports t jm w
      → Then (report_calls out db fuel jm) w (Reports t)
  unfolding report_calls
  report_calls-Reports t jm w h =
      report_each-Reports t (out.finish_calls w.units).1 jm
        (record w { units = (out.finish_calls w.units).0 }) h

  -- A round in which nothing is triggered leaves nothing ready.
  abbrev Rests : JobManager × Bool → World S → Type 0
  Rests (jm, true) w = Unit
  Rests (jm, false) w = calc_table_ready jm.jobs.t_unit ≡ false

  finish_round-Rests :
      (jm : JobManager) (ret : Triggered) (w : World S)
      → Unready (jm.jobs, ret) w
      → Then (finish_round out db fuel jm ret) w Rests
  unfolding finish_round
  finish_round-Rests jm none w h = h
  finish_round-Rests jm (some (info, merge_trigger)) w h =
      >>=-Then (λ a v. Unit) Rests _
        (λ a v u.
          >>=-Then (λ a v. Unit) Rests _
            (λ b v u.
              >>=-Then (λ a v. Unit) Rests _ (λ c v u. tt) (finish_ended out db fuel b info) v
                (OnOk-any _))
            (finish_text out db fuel a) v (OnOk-any _))
        (count_del jm merge_trigger) w (OnOk-any _)

  run_round-Rests : (jm : JobManager) (w : World S) → Then (run_round out db fuel jm none) w Rests
  unfolding run_round
  run_round-Rests jm w =
      >>=-Then Unready Rests _
        (λ r v u.
          >>=-Then (Reports r.0) Rests _
            (λ jm1 v' k.
              finish_round-Rests (record jm1 { running = false }) r.1 v'
                (subst (λ t. Unready (t, r.1) v') (sym k.0) u))
            (report_calls out db fuel (record jm { jobs = r.0; text = none; running = true })) v
            (report_calls-Reports r.0 (record jm { jobs = r.0; text = none; running = true }) v
              (refl, refl)))
        (try_trigger out.ops out.triggered db jm.jobs none) w (try_trigger-Unready jm.jobs w)

  abbrev pub IsIdle : Option (JobManager × ℕ) → Type 0
  IsIdle none = Unit
  IsIdle (some (jm, cnt)) = calc_table_ready jm.jobs.t_unit ≡ false

  run_again-IsIdle :
      (rest : JobManager → M S (Option (JobManager × ℕ)))
      → ((jm : JobManager) (v : World S) → Then (rest jm) v (λ r w. IsIdle r))
      → (cnt : ℕ) (r : JobManager × Bool) (v : World S) → Rests r v
      → Then (run_again out db fuel rest cnt r) v (λ r w. IsIdle r)
  unfolding run_again
  run_again-IsIdle rest k cnt (jm, false) v h = h
  run_again-IsIdle rest k cnt (jm, true) v h = k jm v

  -- A run over all units that has come to its end leaves nothing ready, whatever units have done and
  -- reported meanwhile: the assertion of `dispatch` after it never fails.
  pub run-IsIdle :
      (rounds cnt : ℕ) (jm : JobManager) (w : World S)
      → OnOk (λ r. IsIdle r.0) (run out db fuel rounds cnt jm none w)
  unfolding run
  run-IsIdle zero cnt jm w = tt
  run-IsIdle (suc rounds) cnt jm w =
      let next = (cnt + 1) % usize_mod in
      >>=-Then Rests (λ r v. IsIdle r) _
        (run_again-IsIdle (λ jm1. run out db fuel rounds next jm1 none)
          (λ jm1 v. run-IsIdle rounds next jm1 v) cnt)
        (run_round out db fuel jm none) w (run_round-Rests jm w)
