-- ===== src/Job/Entry.antt =====
-- core/bin/job/entry.rs: results and stages of a job, and the tables that map a job's kind and a
-- unit's state to what the job does next.
pub mod Order
use sysmaster.Base.{Bool, true, false, Option, none, some, Checked, ok, panic, if◌then◌else◌, ◌||◌}
use sysmaster.Job.Kind.{
  JobKind, start, stop, reload, restart, nop, try_reload, try_restart, reload_or_start, kind_eq,
}
use sysmaster.Unit.Relation.{UnitRelationAtom, after, atom_eq}
use sysmaster.Unit.State.{
  ActiveState, active, reloading, inactive, activating, deactivating, maintenance, NotifyFlags,
}

pub data JobResult : Type 0 where
  done cancelled timeout failed dependency skipped invalid asserted unsupported collected once :
      JobResult
  merged : JobResult

pub data JobStage : Type 0 where
  init wait running : JobStage
  end_with : JobResult → JobStage

-- What a unit answers to `start`, `stop` or `reload`: nothing, or one of the action errors of
-- core/lib/error.rs (`other_error` stands for each error that is not an action error).
pub data ActionError : Type 0 where
  eagain ealready ecomm ebadr enoexec eproto eopnotsupp enolink estale efailed einval ebusy :
      ActionError
  enoent ecanceled other_error : ActionError

-- `JobConf::map` and `job_merge_unit`: a compound kind becomes a basic one by the unit's state.
unfoldable pub job_merge_unit : JobKind → Bool → JobKind
job_merge_unit try_reload false = nop
job_merge_unit try_reload true = reload
job_merge_unit try_restart false = nop
job_merge_unit try_restart true = restart
job_merge_unit reload_or_start false = start
job_merge_unit reload_or_start true = reload
job_merge_unit kind _ = kind

-- The first run-kind of a job.
unfoldable pub job_rkind_new : JobKind → JobKind
job_rkind_new restart = stop
job_rkind_new kind = kind

-- The run-kind after a successful one.
unfoldable pub job_rkind_map : JobKind → JobKind → JobKind
job_rkind_map restart stop = start
job_rkind_map restart start = start
job_rkind_map kind _ = kind

unfoldable pub job_trigger_err_to_result : ActionError → Option JobResult
job_trigger_err_to_result eagain = none
job_trigger_err_to_result ealready = some done
job_trigger_err_to_result ecomm = some done
job_trigger_err_to_result ebadr = some skipped
job_trigger_err_to_result enoexec = some invalid
job_trigger_err_to_result eproto = some asserted
job_trigger_err_to_result eopnotsupp = some unsupported
job_trigger_err_to_result enolink = some dependency
job_trigger_err_to_result estale = some once
job_trigger_err_to_result efailed = some failed
job_trigger_err_to_result einval = some failed
job_trigger_err_to_result ebusy = some failed
job_trigger_err_to_result enoent = some failed
job_trigger_err_to_result ecanceled = some failed
job_trigger_err_to_result other_error = some skipped

-- The `match` of `job_process_unit_*`: the result that the new state suggests, and whether the job
-- generated that state.
abbrev Suggestion : Type 0
Suggestion = Option JobResult × Bool

job_process_unit_start : ActiveState → Suggestion
job_process_unit_start active = (some done, true)
job_process_unit_start activating = (none, true)
job_process_unit_start inactive = (some done, false)
job_process_unit_start ActiveState.failed = (some failed, false)
job_process_unit_start reloading = (none, false)
job_process_unit_start deactivating = (none, false)
job_process_unit_start maintenance = (none, false)

job_process_unit_stop : ActiveState → Suggestion
job_process_unit_stop inactive = (some done, true)
job_process_unit_stop ActiveState.failed = (some done, true)
job_process_unit_stop deactivating = (none, true)
job_process_unit_stop active = (some failed, false)
job_process_unit_stop reloading = (some failed, false)
job_process_unit_stop activating = (some failed, false)
job_process_unit_stop maintenance = (some failed, false)

job_process_unit_reload : ActiveState → NotifyFlags → Suggestion
job_process_unit_reload active flags = (some (if flags.reload_failure then failed else done), true)
job_process_unit_reload reloading flags = (none, true)
job_process_unit_reload inactive flags = (some done, false)
job_process_unit_reload ActiveState.failed flags = (some failed, false)
job_process_unit_reload activating flags = (none, false)
job_process_unit_reload deactivating flags = (none, false)
job_process_unit_reload maintenance flags = (none, false)

unfoldable pub job_process_unit :
    JobKind → ActiveState → NotifyFlags → Checked (Option JobResult × Bool)
unfolding job_process_unit_start job_process_unit_stop job_process_unit_reload
job_process_unit start ns flags = ok (job_process_unit_start ns)
job_process_unit stop ns flags = ok (job_process_unit_stop ns)
job_process_unit reload ns flags = ok (job_process_unit_reload ns flags)
job_process_unit _ ns flags = panic

-- The `i8` of `is_order_with`: -1, 0 and 1.
pub data Precedence : Type 0 where
  first free later : Precedence

unfoldable pub negate : Precedence → Precedence
negate first = later
negate free = free
negate later = first

order_before : JobKind → Precedence
order_before stop = later
order_before _ = first

unfoldable pub job_order_compare : JobKind → JobKind → UnitRelationAtom → Precedence
unfolding order_before negate atom_eq
job_order_compare rk_a rk_b atom =
    if kind_eq rk_a nop || kind_eq rk_b nop
    then free
    else if atom_eq atom after
    then negate (order_before rk_a)
    else order_before rk_b
