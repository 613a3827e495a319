-- ===== src/Job/Engine/Lifecycle.antt =====
-- The life of a job, from when it begins to wait until it has ended, and the databases meanwhile.
use sysmaster.Base.{
  ℕ, Bool, true, not, ◌&&◌, none, some, ◌≡◌, ◌≢◌, subst, sym, ap, ◌∙◌, arith, ok, Option, refl, ◌⊎◌,
  ==_iff, Bool-cases, if◌then◌else◌, ◌==◌, inl, inr,
}
use sysmaster.Job.Kind.{
  JobKind, start, stop, restart, reload, verify, nop, kind_eq, job_is_basic_op,
}
use sysmaster.Job.Entry.{JobResult, ActionError, init, wait, running, end_with, job_rkind_map}
use sysmaster.Job.Engine.{
  JobRef, JobCell, World, M, ◌>>=◌, UnitOps, finish_action, job_trigger_unit, run_job,
  trigger_insert, set_last_unit, set_cell, suspends_insert, suspends_remove, trigger_remove,
  wait_job, finish_job, is_done, next_kind,
}

-- The run-kind of a job is its kind; a restart first stops and then starts.
abbrev pub HasRunKind : JobKind → JobKind → Type 0
HasRunKind k rk = ((k ≢ restart) × (rk ≡ k)) ⊎ ((k ≡ restart) × ((rk ≡ stop) ⊎ (rk ≡ start)))

abbrev pub goes_on : JobRef → JobCell → JobResult → Bool
goes_on j c result = is_done result && (kind_eq j.kind restart && kind_eq c.run_kind stop)

next_kind-goes_on :
    (j : JobRef) (c : JobCell) (result : JobResult)
    → HasRunKind j.kind c.run_kind
    → (not (kind_eq c.run_kind (next_kind j.kind c.run_kind result)) ≡ goes_on j c result)
      × (next_kind j.kind c.run_kind result ≡ (if goes_on j c result then start else c.run_kind))
unfolding next_kind job_rkind_map
next_kind-goes_on j c result h = ground arith

bind_ok :
    {S A B : Type 0} (m : M S A) (f : A → M S B) (w : World S) {a : A} {w' : World S}
    → m w ≡ ok (a, w')
    → (m >>= f) w ≡ f a w'
bind_ok m f w e = rw (◌>>=◌, e)

module _ {S : Type 0} where
  -- The world after a job has begun to wait, and after it has ended or gone on.
  abbrev pub waiting : World S → JobRef → World S
  waiting w j =
      let c = w.cells j.id in
      record w {
        cells = λ i. if i == j.id then record c { stage = wait } else w.cells i;
        suspends_db =
            λ u k. if (u == j.unit) && kind_eq k j.kind then some c.attr else w.suspends_db u k;
      }

  -- The world after a waiting job has begun to run.
  abbrev pub ran : World S → JobRef → S → World S
  ran w j s =
      let c = w.cells j.id in
      record w {
        cells = λ i. if i == j.id then record c { stage = running } else w.cells i;
        suspends_db = λ u k. if (u == j.unit) && kind_eq k j.kind then none else w.suspends_db u k;
        trigger_db = λ u. if u == j.unit then some (j.kind, c.attr) else w.trigger_db u;
        last_unit = some j.unit;
        units = s;
      }

  cell_of_waiting :
      (w : World S) (j : JobRef) → (waiting w j).cells j.id ≡ record (w.cells j.id) { stage = wait }
  cell_of_waiting w j = rw ((==_iff j.id j.id).1 refl)

  cell_of_ran :
      (w : World S) (j : JobRef) (s : S)
      → (ran w j s).cells j.id ≡ record (w.cells j.id) { stage = running }
  cell_of_ran w j s = rw ((==_iff j.id j.id).1 refl)

  wait_job-waiting :
      (w : World S) (j : JobRef)
      → (w.cells j.id).stage ≡ init
      → job_is_basic_op j.kind ≡ true
      → wait_job j w ≡ ok (tt, waiting w j)
  unfolding wait_job set_cell suspends_insert
  wait_job-waiting w j e b = rw (e, b)

  -- The world after a running job has been told its result: a restart that has stopped its unit goes
  -- on to start it, with its entry kept; any other job ends with the result, and its entry goes.
  abbrev pub finished : World S → JobRef → JobResult → World S
  finished w j result =
      let c = w.cells j.id in
      if goes_on j c result
      then record w {
        cells =
            λ i. if i == j.id then record c { run_kind = start; stage = running } else w.cells i;
      }
      else record w {
        cells = λ i. if i == j.id then record c { stage = end_with result } else w.cells i;
        trigger_db = λ u. if u == j.unit then none else w.trigger_db u;
      }

  -- A running job ends with the result that it is given, but for a restart that has stopped its
  -- unit: that goes on to start it.
  pub finish_job-finished :
      (w : World S) (j : JobRef) (result : JobResult)
      → (w.cells j.id).stage ≡ running
      → HasRunKind j.kind (w.cells j.id).run_kind
      → finish_job j result w ≡ ok (goes_on j (w.cells j.id) result, finished w j result)
  unfolding finish_job set_cell trigger_remove suspends_remove
  finish_job-finished w j result e k =
      let c = w.cells j.id in
      let n = next_kind-goes_on j c result k in
      elim (Bool-cases (goes_on j c result)) [
        | inl g ↦ rw e (rw (n.0, n.1, g))
        | inr g ↦ rw e (rw (n.0, n.1, g))
      ]

-- The kinds that can be asked of a unit.
abbrev IsRequest : JobKind → Type 0
IsRequest k = (job_is_basic_op k ≡ true) × (k ≢ restart)

HasRunKind-IsRequest : (k rk : JobKind) → job_is_basic_op k ≡ true → HasRunKind k rk → IsRequest rk
unfolding job_is_basic_op
HasRunKind-IsRequest k rk b h = ground arith

module _ {S : Type 0} (ops : UnitOps S) where
  finish_action_returns :
      (u : ℕ) (w : World S) (a : S × Option ActionError)
      → (r : Option (Option JobResult)) × (s : S) × (finish_action ops u a w
          ≡ ok (r, record w { units = s }))
  finish_action_returns u w (s, none) = (_, s, refl)
  finish_action_returns u w (s, some e) = (_, s, refl)

  -- Whatever the unit answers, the request comes back, and has changed the units only.
  job_trigger_unit_returns :
      (u : ℕ) (k : JobKind) (force : Bool) (w : World S)
      → IsRequest k
      → (r : Option (Option JobResult)) × (s : S) × (job_trigger_unit ops u k force w
          ≡ ok (r, record w { units = s }))
  unfolding job_trigger_unit job_is_basic_op
  job_trigger_unit_returns u start force w h = finish_action_returns u w (ops.start_unit w.units u)
  job_trigger_unit_returns u stop force w h =
      finish_action_returns u w (ops.stop_unit w.units u force)
  job_trigger_unit_returns u reload force w h =
      finish_action_returns u w (ops.reload_unit w.units u)
  job_trigger_unit_returns u verify force w h = (_, w.units, refl)
  job_trigger_unit_returns u nop force w h = (_, w.units, refl)
  job_trigger_unit_returns u restart force w h = absurd (h.1 refl)
  job_trigger_unit_returns u _ force w h = absurd (ground (arith, h.0))

  run_job-running :
      (w : World S) (j : JobRef)
      → (w.cells j.id).stage ≡ wait
      → job_is_basic_op j.kind ≡ true
      → HasRunKind j.kind (w.cells j.id).run_kind
      → (r : Option (Option JobResult)) × (s : S) × (run_job ops j w ≡ ok (r, ran w j s))
  unfolding run_job set_cell set_last_unit suspends_remove trigger_insert
  run_job-running w j e b h =
      let (r, s, p) =
        job_trigger_unit_returns j.unit (w.cells j.id).run_kind (w.cells j.id).attr.force
          (ran w j w.units) (HasRunKind-IsRequest j.kind _ b h) in
      (r, s, rw (e, trigger_insert, b) p)

  -- A new job of a basic kind waits, is run and is told its result, whatever the unit answers: it
  -- goes on exactly when it is a restart that has stopped its unit; it is then in the database of
  -- triggers with its attributes and still runs, else it is in neither database and has ended.
  pub life_of_job :
      (w : World S) (j : JobRef) (result : JobResult)
      → (w.cells j.id).stage ≡ init
      → job_is_basic_op j.kind ≡ true
      → HasRunKind j.kind (w.cells j.id).run_kind
      → (again : Bool) × (w' : World S) × ((wait_job j >>= λ _.
              run_job ops j >>= λ _. finish_job j result)
            w
          ≡ ok (again, w'))
        × (again ≡ goes_on j (w.cells j.id) result)
        × (w'.suspends_db j.unit j.kind ≡ none)
        × (w'.trigger_db j.unit ≡ (if again then some (j.kind, (w.cells j.id).attr) else none))
        × ((w'.cells j.id).stage ≡ (if again then running else end_with result))
  life_of_job w j result e b h =
      let w1 = waiting w j in
      let c1 = cell_of_waiting w j in
      let h1 = subst (λ c. HasRunKind j.kind c.run_kind) (sym c1) h in
      let (r, s, p) = run_job-running w1 j (ap (λ c. c.stage) c1) b h1 in
      let w2 = ran w1 j s in
      let c2 = cell_of_ran w1 j s in
      let h2 = subst (λ c. HasRunKind j.kind c.run_kind) (sym c2) h1 in
      let f = finish_job-finished w2 j result (ap (λ c. c.stage) c2) h2 in
      (
        goes_on j (w2.cells j.id) result,
        finished w2 j result,
        bind_ok (wait_job j) _ w (wait_job-waiting w j e b) ∙ (bind_ok (run_job ops j) _ w1 p ∙ f),
        ground arith,
        ground arith,
        ground arith,
        ground arith,
      )
