-- ===== src/Rogo/Cli/Probe.antt =====
-- `_run_hello`, `_run_stop` and `_run_estop` of src/host/rogo/cli.py.
use radio_robot_lib.Prelude.{
  ℕ, Bool, true, false, Option, none, some, List, [], ◌∷◌, ◌++◌, replicate, ◌-◌, length, take,
}
use radio_robot_lib.Prelude.Text.{Text, codes, text_eq}
use radio_robot_lib.Python.Exec.{Exec, pure, ◌>>=◌, ◌>>◌}
use radio_robot_lib.RobotV6.Codec.{Reply}
use radio_robot_lib.RobotV6.Session.{World, Session, send_unsequenced, hello}
use radio_robot_lib.RobotV6.Session.Waiting.{wait_for_ack}
use radio_robot_lib.RobotV6.Motion.{stop, estop}
use radio_robot_lib.Rogo.Naming.{find_device}
use radio_robot_lib.Rogo.Pumping.{pump_until, ◌>>?◌}
use radio_robot_lib.Rogo.Cli.{
  Ran, exit_with, Report, acked, not_acked, banner, no_banner, estop_confirmed, estop_unconfirmed,
  default_timeout,
}

-- `any(r.verb == verb for r in rs)`
unfoldable pub any_verb : Text → List Reply → Bool
any_verb verb [] = false
any_verb verb (reply ∷ replies) =
    let rest = any_verb verb replies in
    elim (text_eq reply.verb verb) [ true ↦ true | false ↦ rest ]

unfoldable pub sees : Text → List Reply → Session → Bool
unfolding any_verb
sees verb replies s = any_verb verb replies

-- `(list(banner.fields) + ["?"] * max(0, 4 - len(banner.fields)))[:4]`
unfoldable pub banner_fields : List Text → List Text
banner_fields fields = take 4 (fields ++ replicate (4 - length fields) (codes "?"))

unfoldable pub banner_report : List Text → Report
banner_report (role ∷ common_name ∷ name ∷ serial ∷ []) = banner role common_name name serial
banner_report _ = no_banner

unfoldable pub report_banner : Option Reply → Ran
unfolding banner_report banner_fields
report_banner none = exit_with 1 no_banner
report_banner (some reply) = exit_with 0 (banner_report (banner_fields reply.fields))

unfoldable pub report_stop : ℕ → Bool → Ran
report_stop seq_id true = exit_with 0 (acked (codes "STOP") seq_id)
report_stop seq_id false = exit_with 1 (not_acked (codes "STOP") seq_id)

unfoldable pub report_estop : Bool → Ran
report_estop true = exit_with 0 estop_confirmed
report_estop false = exit_with 0 estop_unconfirmed

module _ (w : World) (fuel : ℕ) where
  unfoldable pub run_hello : Exec Session (Option Ran)
  run_hello =
      send_unsequenced hello []
      >> (pump_until w (sees (codes "device")) fuel default_timeout >>? λ replies.
          pure (some (report_banner (find_device replies))))

  unfoldable pub await_stop : ℕ → Exec Session (Option Ran)
  unfolding report_stop
  await_stop seq_id = wait_for_ack w fuel seq_id (some default_timeout) >>? λ answer.
      pure (some (report_stop seq_id answer))

  unfoldable pub run_stop : Exec Session (Option Ran)
  unfolding await_stop
  run_stop = do seq_id ← stop false; await_stop seq_id

  unfoldable pub run_estop : Exec Session (Option Ran)
  unfolding report_estop
  run_estop =
      estop
      >> (pump_until w (sees (codes "estop")) fuel default_timeout >>? λ replies.
          pure (some (report_estop (any_verb (codes "estop") replies))))
