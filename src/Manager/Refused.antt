-- ===== src/Manager/Refused.antt =====
-- Requests to the manager of units that are refused.
use sysmaster.Base.{
  ℕ, Bool, true, false, Bool-cases, Option, none, some, Option-cases, ◌≡◌, refl, inl, inr, Checked,
  panic, ok, OnOk,
}
use sysmaster.Unit.Loading.{Loader, load_unit_named}
use sysmaster.Job.Kind.{JobKind, start, stop, reload, restart}
use sysmaster.Job.Transaction.{replace}
use sysmaster.Job.Engine.{World}
use sysmaster.Job.Notify.{JobConf}
use sysmaster.Job.Manager.{Around, JobManager, Executed, committed, rejected, exec}
use sysmaster.Job.Manager.Rollback.{IsSettled, exec-IsSettled}
use sysmaster.Manager.Requests.{
  Settings, UnitManager, Request, RequestError, request, answered, exec_kind, with_unit,
  unless_refused, load_unitx, enoent, erefuse_manual_start, erefuse_manual_stop, internal_error,
}

module _ {E S : Type 0} (conf : Settings) (out : Loader E) (around : Around S) where
  -- After an error the jobs and their statistics are those of `m`.
  abbrev pub IsUnharmed : UnitManager E S → UnitManager E S × Option RequestError → Type 0
  IsUnharmed m (m', none) = Unit
  IsUnharmed m (m', some e) = (m'.jm.jobs ≡ m.jm.jobs) × (m'.jm.stat ≡ m.jm.stat)

  answered-IsUnharmed :
      (m : UnitManager E S) (r : Checked ((JobManager × Executed) × World S))
      → OnOk (λ x. IsSettled around m.rt.deps.t conf.expand_fuel m.jm.jobs m.jm.stat x.0 x.1) r
      → OnOk (IsUnharmed m) (answered conf out around m r)
  unfolding answered
  answered-IsUnharmed m panic h = tt
  answered-IsUnharmed m (ok ((jm, rejected e), w)) h = h
  answered-IsUnharmed m (ok ((jm, committed ch), w)) h = tt

  exec_kind-IsUnharmed :
      (m : UnitManager E S) (u : ℕ) (kind : JobKind)
      → OnOk (IsUnharmed m) (exec_kind conf out around m u kind)
  unfolding exec_kind
  exec_kind-IsUnharmed m u kind =
      let c : JobConf = record { unit = u; kind = kind } in
      answered-IsUnharmed m (exec around m.rt.deps.t conf.expand_fuel m.jm c replace m.world)
        (exec-IsSettled around m.rt.deps.t conf.expand_fuel m.jm c replace m.world)

  with_unit-IsUnharmed :
      (m : UnitManager E S) (u : ℕ) (missing : RequestError)
      (f : UnitManager E S → Checked (UnitManager E S × Option RequestError))
      → ((m1 : UnitManager E S) → OnOk (IsUnharmed m1) (f m1))
      → OnOk (IsUnharmed m) (with_unit conf out around m u missing f)
  unfolding with_unit load_unitx
  with_unit-IsUnharmed m u missing f h =
      elim (Option-cases (load_unit_named out conf.load_fuel m.rt u)) [
        | inl e ↦ rw (OnOk, e) tt
        | inr ((rt, there), e) ↦
            rw (OnOk, e)
              (elim (Bool-cases there) [
                | inl t ↦ rw (OnOk, t) (h (record m { rt = rt }))
                | inr t ↦ rw (OnOk, t) (refl, refl)
              ])
      ]

  run-IsUnharmed :
      (m : UnitManager E S) (u : ℕ) (missing : RequestError) (kind : JobKind)
      → OnOk
          (IsUnharmed m)
          (with_unit conf out around m u missing (λ m1. exec_kind conf out around m1 u kind))
  run-IsUnharmed m u missing kind =
      with_unit-IsUnharmed m u missing (λ m1. exec_kind conf out around m1 u kind)
        (λ m1. exec_kind-IsUnharmed m1 u kind)

  unless_refused-IsUnharmed :
      (refuses : Bool) (e : RequestError) (u : ℕ) (kind : JobKind) (m : UnitManager E S)
      → OnOk (IsUnharmed m) (unless_refused conf out around refuses e u kind m)
  unfolding unless_refused
  unless_refused-IsUnharmed true e u kind m = (refl, refl)
  unless_refused-IsUnharmed false e u kind m = exec_kind-IsUnharmed m u kind

  -- A request to the manager that returns with an error, because there is no such unit, because its
  -- configuration refuses it to users, or because the job manager refuses the job, leaves the jobs
  -- and their statistics as they were.
  pub request-IsUnharmed :
      (r : Request) (m : UnitManager E S) (u : ℕ)
      → OnOk (IsUnharmed m) (request conf out around r m u)
  unfolding request
  request-IsUnharmed Request.start_unit m u = run-IsUnharmed m u enoent start
  request-IsUnharmed Request.start_unit_manual m u =
      with_unit-IsUnharmed m u enoent
        (unless_refused conf out around (conf.refuse_manual_start u) erefuse_manual_start u start)
        (unless_refused-IsUnharmed (conf.refuse_manual_start u) erefuse_manual_start u start)
  request-IsUnharmed Request.stop_unit m u = run-IsUnharmed m u enoent stop
  request-IsUnharmed Request.stop_unit_manual m u =
      with_unit-IsUnharmed m u enoent
        (unless_refused conf out around (conf.refuse_manual_stop u) erefuse_manual_stop u stop)
        (unless_refused-IsUnharmed (conf.refuse_manual_stop u) erefuse_manual_stop u stop)
  request-IsUnharmed Request.reload_request m u = run-IsUnharmed m u internal_error reload
  request-IsUnharmed Request.restart_unit m u = run-IsUnharmed m u internal_error restart
