-- ===== src/Job/Manager/Restore.antt =====
-- core/bin/job/manager.rs: `JobManager` around its data: when it asks for a run, and how the jobs are
-- restored from the databases.
use sysmaster.Base.{
  ℕ, Bool, true, false, not, ◌&&◌, Option, none, some, List, [], ◌∷◌, ◌++◌, Checked, panic, ok,
  is_some, length, ◌==◌, if◌then◌else◌,
}
use sysmaster.Base
use sysmaster.Unit.Dependency.Table.{DepMap}
use sysmaster.Job.Kind.{JobKind, start, stop, reload, restart, verify, nop, JobAttr, attr_or}
use sysmaster.Job.Engine.{JobRef, M, ◌>>=◌, ◌>>◌, pure, lift, read, require, trigger_insert}
use sysmaster.Job.Alloc
use sysmaster.Job.Stat.{update_changes, clear_cnt, new_stat}
use sysmaster.Job.Table.Data.{update_up_ready, calc_table_ready}
use sysmaster.Job.Table.Jobs.{clear_jobs, rentry_map_trigger, rentry_map_suspend}
use sysmaster.Job.Table.Commit.{table_reshuffle}
use sysmaster.Job.Manager.{Around, JobManager}
use sysmaster.Job.Manager.Run.{run}

unfoldable pub job_merge_trigger_iskeep : JobKind → Checked Bool
job_merge_trigger_iskeep start = ok false
job_merge_trigger_iskeep reload = ok false
job_merge_trigger_iskeep restart = ok false
job_merge_trigger_iskeep stop = ok true
job_merge_trigger_iskeep verify = ok true
job_merge_trigger_iskeep nop = ok true
job_merge_trigger_iskeep _ = panic

unfoldable pub job_merge_trigger_map : JobKind → Checked JobKind
job_merge_trigger_map old =
    Base.◌>>=◌ (job_merge_trigger_iskeep old) (λ keep. ok (if keep then old else restart))

-- Everything but the table of suspended jobs is emptied as well.
unfoldable pub jm_entry_clear : JobManager → JobManager
jm_entry_clear jm = record {
  jobs = clear_jobs jm.jobs;
  stage = clear_jobs jm.stage;
  ja = Alloc.new;
  running = false;
  text = none;
  stat = new_stat;
}

unfoldable pub jm_update_up_ready : JobManager → JobManager
jm_update_up_ready jm = record jm {
  jobs = record jm.jobs { t_unit = update_up_ready jm.jobs.t_unit };
}

-- Whether the source of the manager is enabled.
unfoldable pub try_enable : JobManager → JobManager × Bool
unfolding jm_update_up_ready
try_enable jm =
    (jm_update_up_ready jm, calc_table_ready jm.jobs.t_unit && not jm.jobs.t_unit.up_ready)

module _ {S : Type 0} where
  -- The trigger of a unit, or a restart, is merged so that it runs again.
  unfoldable pub rentry_trigger_merge : ℕ → Bool → M S (Unit {0})
  unfolding job_merge_trigger_iskeep job_merge_trigger_map
  rentry_trigger_merge u force = do
    old ← read (λ w. w.trigger_db u)
    let first : JobAttr = record {
      ignore_order = true;
      irreversible = true;
      force = force;
      no_relevancy = true;
    }
    let o : JobKind × JobAttr = elim old [ none ↦ (restart, first) | some ka ↦ ka ]
    relevancy ← lift (job_merge_trigger_iskeep o.0)
    k_n ← lift (job_merge_trigger_map o.0)
    trigger_insert u k_n (attr_or (record first { no_relevancy = not relevancy }) o.1)

  -- `db_compensate_history`, over the units that have a trigger in the database.
  unfoldable pub merge_triggers : List ℕ → M S (Unit {0})
  unfolding rentry_trigger_merge
  merge_triggers [] = pure tt
  merge_triggers (u ∷ us) = do rentry_trigger_merge u false; merge_triggers us

  map_triggers : List (ℕ × JobKind) → JobManager → M S (JobManager × List JobRef)
  map_triggers [] jm = pure (jm, [])
  map_triggers ((u, kind) ∷ es) jm = do
    (jobs, ja, j) ← rentry_map_trigger jm.jobs jm.ja u kind
    (jm1, js) ← map_triggers es (record jm { jobs = jobs; ja = ja })
    pure (jm1, j ∷ js)

  map_suspends : List (ℕ × JobKind) → JobManager → M S (JobManager × List JobRef)
  map_suspends [] jm = pure (jm, [])
  map_suspends ((u, kind) ∷ es) jm = do
    (jobs, ja, j) ← rentry_map_suspend jm.jobs jm.ja u kind
    (jm1, js) ← map_suspends es (record jm { jobs = jobs; ja = ja })
    pure (jm1, j ∷ js)

module _ {S : Type 0} (out : Around S) (db : DepMap) (fuel : ℕ) where
  -- `db_map`, over the entries of the two databases.
  unfoldable pub jm_db_map : List (ℕ × JobKind) → List (ℕ × JobKind) → JobManager → M S JobManager
  unfolding map_triggers map_suspends
  jm_db_map trigger_entries suspends_entries jm = do
    (jm1, triggers) ← map_triggers trigger_entries jm
    (jm2, suspends) ← map_suspends suspends_entries jm1
    (jobs, merge_jobs) ← table_reshuffle out.ops out.triggered db jm2.jobs
    cells ← read (λ w. w.cells)
    stat1 ← lift (update_changes cells jm2.stat triggers [] [])
    stat2 ← lift (update_changes cells stat1 suspends [] [])
    pure (record jm2 { jobs = jobs; stat = clear_cnt stat2 })

  -- `dispatch` of the source. `none` is out of fuel.
  unfoldable pub jm_dispatch : ℕ → JobManager → M S (Option JobManager)
  unfolding jm_update_up_ready
  jm_dispatch rounds jm = do
    r ← run out db fuel rounds 0 jm none
    elim r [
      | none ↦ pure none
      | some (jm1, cnt) ↦ do
        let jm2 = jm_update_up_ready jm1
        require (not (calc_table_ready jm2.jobs.t_unit))
        pure (some jm2)
    ]

  -- A unit is run now; something must have been triggered.
  unfoldable pub trigger_unit : ℕ → JobManager → ℕ → M S (Option (JobManager × Bool))
  trigger_unit rounds jm u = do
    r ← run out db fuel rounds 0 jm (some u)
    elim r [
      | none ↦ pure none
      | some (jm1, cnt) ↦ do require (not (cnt == 0)); pure (some (try_enable jm1))
    ]
