-- ===== src/Job/Notify.antt =====
-- core/bin/job/notify.rs: the jobs that the end or an event of a unit asks for.
use sysmaster.Base.{
  ℕ, Bool, true, false, not, Option, none, some, List, [], ◌∷◌, ◌++◌, map, Checked, panic, ok,
  ◌>>=◌, ◌>>◌, assert, if◌then◌else◌,
}
use sysmaster.Unit.Relation.{
  UnitRelationAtom, on_success, on_failure, retro_active_start_replace, retro_active_start_fail,
  retro_active_stop_on_start, retro_active_stop_on_stop,
}
use sysmaster.Unit.Dependency.Table.{DepMap, gets_atom, is_dep_atom_with}
use sysmaster.Job.Kind.{JobKind, start, stop, reload, try_reload}
use sysmaster.Job.Transaction.{JobMode, replace, fail}

pub record JobConf : Type 0 where
  pub unit : ℕ
  pub kind : JobKind

abbrev mode_or : Option JobMode → JobMode → JobMode
mode_or none mode = mode
mode_or (some mode) other = mode

abbrev conf_of : JobKind → ℕ → JobConf
conf_of kind u = record { unit = u; kind = kind }

abbrev is_result_atom : UnitRelationAtom → Bool
is_result_atom on_success = true
is_result_atom on_failure = true
is_result_atom _ = false

unfoldable pub notify_result_start : DepMap → ℕ → UnitRelationAtom → Checked (List JobConf)
notify_result_start db u atom = do
  assert (is_result_atom atom)
  ok (map (conf_of start) (gets_atom db u atom))

unfoldable pub job_notify_result :
    DepMap → ℕ → UnitRelationAtom → JobMode → Checked (List JobConf × JobMode)
unfolding notify_result_start
job_notify_result db u atom mode =
    if is_result_atom atom
    then (do configs ← notify_result_start db u atom; ok (configs, mode))
    else panic

-- The units that a start must not wait for.
unfoldable pub not_after : DepMap → ℕ → List ℕ → List ℕ
not_after db u [] = []
not_after db u (o ∷ os) =
    let rest = not_after db u os in
    if not (is_dep_atom_with db u UnitRelationAtom.after o) then o ∷ rest else rest

unfoldable pub notify_event_start : DepMap → JobConf → Option JobMode → List (JobConf × JobMode)
unfolding not_after
notify_event_start db c mode_option =
    map (λ o. (conf_of start o, mode_or mode_option replace))
      (not_after db c.unit (gets_atom db c.unit retro_active_start_replace))
    ++ (map (λ o. (conf_of start o, mode_or mode_option fail))
          (not_after db c.unit (gets_atom db c.unit retro_active_start_fail))
        ++ map (λ o. (conf_of stop o, mode_or mode_option replace))
            (gets_atom db c.unit retro_active_stop_on_start))

unfoldable pub notify_event_stop : DepMap → JobConf → Option JobMode → List (JobConf × JobMode)
notify_event_stop db c mode_option =
    map (λ o. (conf_of stop o, mode_or mode_option replace))
      (gets_atom db c.unit retro_active_stop_on_stop)

unfoldable pub notify_event_reload : DepMap → JobConf → Option JobMode → List (JobConf × JobMode)
notify_event_reload db c mode_option =
    map (λ o. (conf_of try_reload o, mode_or mode_option fail))
      (gets_atom db c.unit UnitRelationAtom.propagates_reload_to)

event_of : JobKind → DepMap → JobConf → Option JobMode → Checked (List (JobConf × JobMode))
unfolding notify_event_start notify_event_stop notify_event_reload
event_of start db c mode_option = ok (notify_event_start db c mode_option)
event_of stop db c mode_option = ok (notify_event_stop db c mode_option)
event_of reload db c mode_option = ok (notify_event_reload db c mode_option)
event_of _ db c mode_option = panic

unfoldable pub job_notify_event :
    DepMap → JobConf → Option JobMode → Checked (List (JobConf × JobMode))
unfolding event_of
job_notify_event db c mode_option = event_of c.kind db c mode_option
