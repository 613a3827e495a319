-- ===== src/Tests/Lives.antt =====
-- The life of a restart of unit 7, whose unit has no state and grants every request.
use sysmaster.Unit.State.{active}
use sysmaster.Job.Kind.{restart, stop, new_attr, job_is_basic_op}
use sysmaster.Job.Entry.{done, init, running, end_with}
use sysmaster.Job.Engine.{JobRef, World, UnitOps, ◌>>=◌, wait_job, run_job, finish_job}
use sysmaster.Job.Engine.Lifecycle.{finish_job-finished, finished, life_of_job}
use sysmaster.Base.{none, some, true, ok, inr, inl, ◌≡◌, refl, Bool, if◌then◌else◌}

abbrev job : JobRef
job = record { id = 2; unit = 7; kind = restart }

abbrev granting : UnitOps (Unit {0})
granting = record {
  active_state = λ s u. active;
  start_unit = λ s u. (s, none);
  stop_unit = λ s u force. (s, none);
  reload_unit = λ s u. (s, none);
}

-- A world with no units, in which each job is new.
abbrev fresh : World (Unit {0})
fresh = record {
  cells = λ i. record { attr = new_attr; run_kind = stop; stage = init };
  suspends_db = λ u k. none;
  trigger_db = λ u. none;
  last_unit = none;
  units = tt;
}

abbrev started : World (Unit {0})
started = record fresh {
  cells = λ i. record { attr = new_attr; run_kind = stop; stage = running };
  trigger_db = λ u. some (restart, new_attr);
}

finish_job-finished_example : finish_job job done started ≡ ok (true, finished started job done)
finish_job-finished_example = finish_job-finished started job done refl (inr (refl, inl refl))

-- The unit has been stopped, and the restart goes on.
life_of_job_example :
    (again : Bool) × (w' : World (Unit {0})) × ((wait_job job >>= λ _.
    run_job granting job >>= λ _. finish_job job done)
        fresh
      ≡ ok (again, w'))
    × (again ≡ true)
    × (w'.suspends_db 7 restart ≡ none)
    × (w'.trigger_db 7 ≡ (if again then some (restart, new_attr) else none))
    × ((w'.cells 2).stage ≡ (if again then running else end_with done))
unfolding job_is_basic_op
life_of_job_example = life_of_job granting fresh job done refl refl (inr (refl, inl refl))
