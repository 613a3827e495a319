-- ===== src/Tests/Manager.antt =====
-- The theorems on the job manager at concrete inputs: a start of unit 7 waits, and is the first of its
-- list. The unit grants every request, and reports nothing.
use sysmaster.Base.{
  ℕ, true, false, none, some, Option, [], ◌∷◌, ◌==◌, if◌then◌else◌, ◌≡◌, refl, Checked, ok, panic,
  OnOk, ◌≢◌, any,
}
use sysmaster.Unit.State.{inactive}
use sysmaster.Job.Kind.{start, stop, new_attr, job_is_basic_op}
use sysmaster.Job.Entry.{wait}
use sysmaster.Job.Engine.{
  JobRef, World, UnitOps, run_job, set_cell, set_last_unit, suspends_remove, trigger_insert,
}
use sysmaster.Job.Stat.{new_stat, update_changes, kind_update, change_kinds}
use sysmaster.Job.Junit.Data.{JobUnit, new, no_suspends, calc_ready, update_ready, is_empty_unit}
use sysmaster.Job.Table.Data.{
  calc_table_ready, ready_pop, clear_up_ready, pop, readys_fill, tree_values,
}
use sysmaster.Job.Table.Jobs.{JobTable}
use sysmaster.Job.Transaction.{replace, fail, isolate}
use sysmaster.Job.Manager.{Around, JobManager, exec}
use sysmaster.Job.Table.Commit.{try_trigger}
use sysmaster.Job.Table.Entries.{try_trigger_entry}
use sysmaster.Unit.Dependency.Table.{gets_atom, gets, dests}
use sysmaster.Unit.Atom.{unit_relation_from_unique_atom}
use sysmaster.Base.Maps.{keys, find}
use sysmaster.Job.Junit.Effects.{do_trigger}
use sysmaster.Job.Junit.Steps.{do_next_trigger}
use sysmaster.Job.Manager.Finish.{count_del}
use sysmaster.Job.Manager.Rollback.{IsSettled, exec-IsSettled}
use sysmaster.Job.Manager.Run.{run}
use sysmaster.Job.Manager.Restore.{jm_dispatch, jm_update_up_ready}
use sysmaster.Job.Manager.Compensate.{merged}
use sysmaster.Reli.Last.{ReliFrame}
use sysmaster.Manager.Station.{Parts, um_db_compensate_last, um_db_compensate_history}
use sysmaster.Manager.Rerun.{AreBasic, um_db_compensate-merged}
use sysmaster.Job.Manager.Dispatch.{jm_dispatch-returns}
use sysmaster.Unit.Loading.{finish, Loader, service, new_load, load_named, load_unit_named}
use sysmaster.Manager.Requests.{
  Settings, UnitManager, start_unit_manual, erefuse_manual_start, request, with_unit, load_unitx,
  unless_refused,
}
use sysmaster.Manager.Refused.{IsUnharmed, request-IsUnharmed}

abbrev granting : UnitOps (Unit {0})
granting = record {
  active_state = λ s u. inactive;
  start_unit = λ s u. (s, none);
  stop_unit = λ s u force. (s, none);
  reload_unit = λ s u. (s, none);
}

abbrev around : Around (Unit {0})
around = record {
  ops = granting;
  triggered = λ s u o. s;
  finish_calls = λ s. (s, []);
  ignore_on_isolate = λ u. false;
  units_get_all = 7 ∷ 8 ∷ [];
  on_failure_job_mode = λ u. replace;
  on_success_job_mode = λ u. fail;
}

abbrev job : JobRef
job = record { id = 2; unit = 7; kind = start }

abbrev seven : JobUnit
seven = record (new 7) {
  suspends = record no_suspends { on_start = some job };
  order = true;
  sq = job ∷ [];
  ready = true;
  up_ready = true;
}

abbrev no_jobs : JobTable
no_jobs = record {
  t_id = [];
  t_unit = record {
    uvs = λ i. new i;
    next_uv = 0;
    t_data = [];
    t_ready = [];
    readys = [];
    up_ready = false;
    sync = true;
  };
}

abbrev one_job : JobTable
one_job = record {
  t_id = (2, job) ∷ [];
  t_unit = record {
    uvs = λ i. if i == 0 then seven else new i;
    next_uv = 1;
    t_data = (7, 0) ∷ [];
    t_ready = (7, 0) ∷ [];
    readys = [];
    up_ready = true;
    sync = true;
  };
}

abbrev waiting : JobManager
waiting = record {
  ja = record { ids = 2 ∷ []; last_id = 2 };
  jobs = one_job;
  stage = no_jobs;
  running = false;
  text = none;
  stat = new_stat;
}

abbrev world : World (Unit {0})
world = record {
  cells = λ i. record { attr = new_attr; run_kind = start; stage = wait };
  suspends_db = λ u k. some new_attr;
  trigger_db = λ u. none;
  last_unit = none;
  units = tt;
}

exec-IsSettled_example :
    OnOk
      (λ r. IsSettled around [] 13 waiting.jobs waiting.stat r.0 r.1)
      (exec around [] 13 waiting (record { unit = 8; kind = stop }) isolate world)
exec-IsSettled_example =
    exec-IsSettled around [] 13 waiting (record { unit = 8; kind = stop }) isolate world

abbrev Ran : Type 0
Ran = Checked (Option (JobManager × ℕ) × World (Unit {0}))

-- Where a run has come to its end.
abbrev end_of : Ran → JobManager × ℕ × World (Unit {0})
end_of panic = (waiting, 0, world)
end_of (ok (none, w)) = (waiting, 0, w)
end_of (ok (some (jm, cnt), w)) = (jm, cnt, w)

abbrev after_run : JobManager × ℕ × World (Unit {0})
after_run = end_of (run around [] 13 2 0 waiting none world)

-- The start is run in the first round, and the second finds nothing.
has_run : run around [] 13 2 0 waiting none world ≡ ok (some (after_run.0, 1), after_run.2)
unfolding run try_trigger ready_pop clear_up_ready pop readys_fill tree_values try_trigger_entry new
    gets_atom unit_relation_from_unique_atom gets keys dests find do_trigger do_next_trigger
    calc_ready update_ready run_job set_cell set_last_unit suspends_remove trigger_insert
    job_is_basic_op is_empty_unit count_del update_changes kind_update change_kinds
has_run = refl

jm_dispatch-returns_example :
    (jm_dispatch around [] 13 2 waiting world
      ≡ ok (some (jm_update_up_ready after_run.0), after_run.2))
    × (calc_table_ready after_run.0.jobs.t_unit ≡ false)
    × ((jm_update_up_ready after_run.0).jobs.t_unit.up_ready ≡ false)
jm_dispatch-returns_example =
    jm_dispatch-returns around [] 13 2 1 waiting after_run.0 world after_run.2 has_run

-- Unit 7 is there, and its configuration refuses that users start it.
abbrev settings : Settings
settings = record {
  refuse_manual_start = λ u. u == 7;
  refuse_manual_stop = λ u. false;
  expand_fuel = 13;
  load_fuel = 3;
}

abbrev loader : Loader (Unit {0})
loader = record {
  unit_type = λ u. service;
  create_unit = λ e u. (e, true);
  load_confs = λ e u b. (e, none);
  sub_load = λ e u. finish true;
  default_dependencies = λ e u. true;
  commit = λ e. e;
}

abbrev unit_manager : UnitManager (Unit {0}) (Unit {0})
unit_manager = record {
  rt = record {
    units = (7, tt) ∷ [];
    loads = λ u. new_load;
    load_queue = [];
    target_dep_queue = [];
    deps = record { t = []; rentry = [] };
    last = record { ignore = false; unit_db = none; frame_db = none };
    env = tt;
  };
  jm = waiting;
  world = world;
}

-- The request returns with an error.
is_refused :
    request settings loader around start_unit_manual unit_manager 7
    ≡ ok (unit_manager, some erefuse_manual_start)
unfolding request load_unitx with_unit unless_refused load_unit_named load_named find
is_refused = refl

request-IsUnharmed_example :
    OnOk
      (IsUnharmed settings loader around unit_manager)
      (request settings loader around start_unit_manual unit_manager 7)
request-IsUnharmed_example =
    request-IsUnharmed settings loader around start_unit_manual unit_manager 7

-- Unit 7 was being started: its start is to run again as a restart.
abbrev starting : World (Unit {0})
starting = record world { trigger_db = λ u. some (start, new_attr) }

abbrev no_parts : Parts (Unit {0}) (Unit {0})
no_parts = record {
  notify_db = λ m f u. ok m;
  notify_do = λ m f u. ok m;
  sub_db = λ ut m f u. ok m;
  sub_do = λ ut m f u. ok m;
  type_max = 4;
}

abbrev interrupted : UnitManager (Unit {0}) (Unit {0})
interrupted = record unit_manager { world = starting }

abbrev in_jobs : ReliFrame
in_jobs = record { f1 = 1; f2 = none; f3 = none }

starting-AreBasic : AreBasic starting
unfolding job_is_basic_op
starting-AreBasic v = refl

um_db_compensate-merged_example :
    (m1 : UnitManager (Unit {0}) (Unit {0})) × (m2 : UnitManager (Unit {0}) (Unit {0}))
    × (um_db_compensate_history no_parts interrupted (7 ∷ 9 ∷ []) ≡ ok m1)
    × (um_db_compensate_last no_parts m1 in_jobs (some 7) ≡ ok m2)
    × (m2.rt ≡ interrupted.rt)
    × (m2.world.trigger_db 7 ≡ some (merged true (some (start, new_attr))))
    × ((v : ℕ)
        → v ≢ 7
        → m2.world.trigger_db v ≡ (
            if any (λ u. u == v) (7 ∷ 9 ∷ [])
            then some (merged false (some (start, new_attr)))
            else some (start, new_attr)))
um_db_compensate-merged_example =
    um_db_compensate-merged no_parts interrupted in_jobs 7 (7 ∷ 9 ∷ []) refl starting-AreBasic
