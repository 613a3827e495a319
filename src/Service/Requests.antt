-- ===== src/Service/Requests.antt =====
-- coms/service/src/unit.rs: the requests that the unit makes of a service.
use sysmaster.Base.{Bool, true, false, not, none, some, Checked, ok, ◌>>=◌, is_empty}
use sysmaster.Service.States.{ServiceCommand}
use sysmaster.Service.Mng.{Config, Mng, Outside}
use sysmaster.Service.Start.{start_check, start_action, stop_action, enter_reload}

module _ {E : Type 0} (ops : Outside E) (conf : Config) where
  -- The Boolean says that the request succeeds.
  unfoldable pub service_start : Mng E → Checked (Mng E × Bool)
  service_start m =
      let (m1, started) = start_check ops conf m in
      elim started [
        | none ↦ ok (m1, false)
        | some true ↦ ok (m1, true)
        | some false ↦ start_action ops conf m1 >>= λ m2. ok (m2, true)
      ]

  -- `stop_check` succeeds in every state, so that `force` makes no difference.
  unfoldable pub service_stop : Mng E → Bool → Mng E × Bool
  service_stop m force = (stop_action ops conf m, true)

  unfoldable pub service_reload : Mng E → Mng E × Bool
  service_reload m = (enter_reload ops conf m, true)

  unfoldable pub service_can_reload : Bool
  service_can_reload = elim (conf.get_exec_cmds ServiceCommand.reload) [
    | none ↦ false
    | some cmds ↦ not (is_empty cmds)
  ]
