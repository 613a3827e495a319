-- ===== src/Job/Junit/Data.antt =====
-- core/bin/job/junit.rs: `JobUnitData`. A job is named by the fields of `Job` that never change;
-- what a job keeps in cells is in `Job.Engine`.
use sysmaster.Base.{
  ℕ, ◌+◌, ◌-◌, Bool, true, false, not, ◌&&◌, Option, none, some, List, [], ◌∷◌, ◌++◌, Checked, ok,
  ◌>>=◌, ◌>>◌, assert, is_some, is_empty, length, ltb, leb, ◌==◌, if◌then◌else◌,
}
use sysmaster.Job.Engine.{JobRef}
use sysmaster.Job.Kind.{JobKind, start, stop, reload, restart, verify, nop}

-- `HashMap<JobKind, Rc<Job>>`, a slot for each basic kind: the assertions of `insert_suspend` keep
-- compound kinds out. Where the code walks the map, the model walks the slots from first to last.
pub record Suspends : Type 0 where
  pub on_start : Option JobRef
  pub on_stop : Option JobRef
  pub on_reload : Option JobRef
  pub on_restart : Option JobRef
  pub on_verify : Option JobRef
  pub on_nop : Option JobRef

unfoldable pub no_suspends : Suspends
no_suspends = record {
  on_start = none;
  on_stop = none;
  on_reload = none;
  on_restart = none;
  on_verify = none;
  on_nop = none;
}

unfoldable pub get : Suspends → JobKind → Option JobRef
get s start = s.on_start
get s stop = s.on_stop
get s reload = s.on_reload
get s restart = s.on_restart
get s verify = s.on_verify
get s nop = s.on_nop
get s _ = none

unfoldable pub put : Suspends → JobKind → Option JobRef → Suspends
put s start j = record s { on_start = j }
put s stop j = record s { on_stop = j }
put s reload j = record s { on_reload = j }
put s restart j = record s { on_restart = j }
put s verify j = record s { on_verify = j }
put s nop j = record s { on_nop = j }
put s _ j = s

unfoldable pub contains_key : Suspends → JobKind → Bool
unfolding get
contains_key s k = is_some (get s k)

abbrev pub from_option : Option JobRef → List JobRef
from_option none = []
from_option (some j) = j ∷ []

-- `suspends.values()`
unfoldable pub values : Suspends → List JobRef
values s =
    from_option s.on_start
    ++ (from_option s.on_stop
        ++ (from_option s.on_reload
            ++ (from_option s.on_restart ++ (from_option s.on_verify ++ from_option s.on_nop))))

abbrev pub to_num : Bool → ℕ
to_num true = 1
to_num false = 0

unfoldable pub suspends_kind_len : Suspends → JobKind → ℕ
unfolding contains_key
suspends_kind_len s k = to_num (contains_key s k)

-- `suspends.len()`
unfoldable pub suspends_len : Suspends → ℕ
suspends_len s =
    to_num (is_some s.on_start)
    + to_num (is_some s.on_stop)
    + to_num (is_some s.on_reload)
    + to_num (is_some s.on_restart)
    + to_num (is_some s.on_verify)
    + to_num (is_some s.on_nop)

pub record JobUnit : Type 0 where
  pub unit : ℕ
  pub suspends : Suspends
  pub trigger : Option JobRef
  pub order : Bool
  pub sq : List JobRef
  pub interrupt : Bool
  pub retrigger : Bool
  pub dirty : Bool
  pub pause : Bool
  pub ready : Bool
  pub up_ready : Bool

unfoldable pub new : ℕ → JobUnit
unfolding no_suspends
new u = record {
  unit = u;
  suspends = no_suspends;
  trigger = none;
  order = true;
  sq = [];
  interrupt = false;
  retrigger = false;
  dirty = false;
  pause = false;
  ready = false;
  up_ready = false;
}

-- `Some(true)` says that the first suspended job is next, `Some(false)` that the trigger is.
calc_natural_ready_ts : JobUnit → Option Bool
calc_natural_ready_ts q =
    if q.interrupt then some true else if q.retrigger then some false else none

calc_natural_ready_t : JobUnit → Checked (Option Bool)
calc_natural_ready_t q = do assert (not q.interrupt); ok (if q.retrigger then some false else none)

calc_natural_ready_s : JobUnit → Checked (Option Bool)
calc_natural_ready_s q = do assert (not q.interrupt); ok (some true)

calc_natural_ready : JobUnit → Checked (Option Bool)
unfolding calc_natural_ready_ts calc_natural_ready_t calc_natural_ready_s
calc_natural_ready q =
    if q.order
    then (if is_some q.trigger
        then (if not (is_empty q.sq) then ok (calc_natural_ready_ts q) else calc_natural_ready_t q)
        else (if not (is_empty q.sq) then calc_natural_ready_s q else ok none))
    else ok none

unfoldable pub calc_ready : JobUnit → Checked (Option Bool)
unfolding calc_natural_ready
calc_ready q = if not q.pause then calc_natural_ready q else ok none

unfoldable pub update_ready : JobUnit → Checked JobUnit
unfolding calc_ready
update_ready q = calc_ready q >>= λ r. ok (record q { ready = is_some r })

unfoldable pub is_empty_unit : JobUnit → Bool
unfolding suspends_len
is_empty_unit q = not (is_some q.trigger) && suspends_len q.suspends == 0

-- The counts of `is_suspends_conflict`: jobs to stop, and jobs that are neither `stop` nor `nop`.
unfoldable pub num_others : Suspends → ℕ
unfolding suspends_len suspends_kind_len
num_others s = suspends_len s - suspends_kind_len s stop - suspends_kind_len s nop

unfoldable pub is_suspends_conflict : Suspends → Bool
unfolding num_others
is_suspends_conflict s = ltb 0 (suspends_kind_len s stop) && ltb 0 (num_others s)

unfoldable pub is_suspends_conflict_with : Suspends → Suspends → Bool
unfolding num_others
is_suspends_conflict_with s o =
    ltb 0 (suspends_kind_len s stop + suspends_kind_len o stop)
    && ltb 0 (num_others s + num_others o)

-- `jobs_merge_suspend` and the two functions that it calls: what is left, and what is removed.
jobs_suspends_remove : JobKind → Suspends × List JobRef → Suspends × List JobRef
unfolding get put
jobs_suspends_remove k (s, del_jobs) = (put s k none, del_jobs ++ from_option (get s k))

jobs_ms_start_and_reload : Suspends → Suspends × List JobRef
unfolding jobs_suspends_remove
jobs_ms_start_and_reload s = jobs_suspends_remove reload (jobs_suspends_remove start (s, []))

-- The Boolean is `unit.active_state().is_active_or_reloading()`.
jobs_ms_start_or_reload : Bool → Suspends → Suspends × List JobRef
unfolding jobs_suspends_remove
jobs_ms_start_or_reload up s =
    if up then jobs_suspends_remove start (s, []) else jobs_suspends_remove reload (s, [])

unfoldable pub jobs_merge_suspend : Bool → Suspends → Suspends × List JobRef
unfolding contains_key jobs_ms_start_and_reload jobs_ms_start_or_reload
jobs_merge_suspend up s =
    if not (contains_key s stop)
    then (if contains_key s restart
        then jobs_ms_start_and_reload s
        else (if contains_key s start && contains_key s reload
            then jobs_ms_start_or_reload up s
            else (s, [])))
    else (s, [])

-- `sq_order` with its two assertions on the length.
unfoldable pub sq_order : Suspends → Checked (List JobRef)
unfolding contains_key get
sq_order s =
    if not (contains_key s stop)
    then (do
      let mutop =
          from_option (get s restart) ++ (from_option (get s start) ++ from_option (get s reload))
      assert (leb (length mutop) 1)
      let all = mutop ++ (from_option (get s verify) ++ from_option (get s nop))
      assert (leb (length all) 3)
      ok all)
    else ok (from_option (get s stop))

-- Only a job that stops may interrupt the trigger.
abbrev pub has_stop_ability : JobKind → Bool
has_stop_ability stop = true
has_stop_ability restart = true
has_stop_ability _ = false

prepare_interrupt : JobUnit → Option JobRef → List JobRef → JobUnit
prepare_interrupt q (some t) (j ∷ sq) = record q { interrupt = has_stop_ability j.kind }
prepare_interrupt q _ _ = q

unfoldable pub jobs_merge_trigger_prepare : JobUnit → Checked JobUnit
unfolding prepare_interrupt
jobs_merge_trigger_prepare q = do assert q.order; ok (prepare_interrupt q q.trigger q.sq)
