-- ===== src/Job/Manager/Dispatch.antt =====
-- The source of the job manager.
use sysmaster.Base.{ℕ, false, none, some, ◌≡◌, refl, subst, ◌∙◌, ok, OnOk}
use sysmaster.Unit.Dependency.Table.{DepMap}
use sysmaster.Job.Engine.{World, ◌>>=◌}
use sysmaster.Job.Table.Data.{calc_table_ready, update_up_ready}
use sysmaster.Job.Manager.{Around, JobManager}
use sysmaster.Job.Manager.Run.{run}
use sysmaster.Job.Manager.Run.Idle.{IsIdle, run-IsIdle}
use sysmaster.Job.Manager.Restore.{jm_update_up_ready, jm_dispatch}

updated_ready :
    (jm : JobManager)
    → (calc_table_ready (jm_update_up_ready jm).jobs.t_unit ≡ calc_table_ready jm.jobs.t_unit)
      × ((jm_update_up_ready jm).jobs.t_unit.up_ready ≡ calc_table_ready jm.jobs.t_unit)
unfolding jm_update_up_ready update_up_ready calc_table_ready
updated_ready jm = (refl, refl)

-- Whatever units have done and reported while the ready jobs were run: when the run has come to its
-- end, nothing is ready, so that the assertion after it holds, and the manager notes that it is not
-- ready.
pub jm_dispatch-returns :
    {S : Type 0} (out : Around S) (db : DepMap) (fuel rounds cnt : ℕ) (jm jm1 : JobManager)
    (w w1 : World S)
    → run out db fuel rounds 0 jm none w ≡ ok (some (jm1, cnt), w1)
    → (jm_dispatch out db fuel rounds jm w ≡ ok (some (jm_update_up_ready jm1), w1))
      × (calc_table_ready jm1.jobs.t_unit ≡ false)
      × ((jm_update_up_ready jm1).jobs.t_unit.up_ready ≡ false)
unfolding jm_dispatch
jm_dispatch-returns out db fuel rounds cnt jm jm1 w w1 e =
    let idle =
      subst (λ x. OnOk (λ r. IsIdle out db fuel r.0) x) e (run-IsIdle out db fuel rounds 0 jm w) in
    let (a, b) = updated_ready jm1 in (rw (◌>>=◌, e, a, idle) refl, idle, b ∙ idle)
