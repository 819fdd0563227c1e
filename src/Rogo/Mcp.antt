-- ===== src/Rogo/Mcp.antt =====
-- src/host/rogo/mcp_server.py: the bodies of the tools. The framework that calls them is
-- outside. Where the server listens is in Mcp/Listen. A tool's dict is a `Told`; `UnreachableTargetError` is an error.
pub mod Listen
pub mod Agreement
use radio_robot_lib.Prelude.{
  ℕ, Bool, true, false, ◌&&◌, ◌||◌, not, Option, none, some, String, List, [], ◌∷◌, if◌then◌else◌,
}
use radio_robot_lib.Prelude.Text.{Text, codes, text_eq}
use radio_robot_lib.Prelude.Int.{ℤ, pos, leb_ℤ}
use radio_robot_lib.Python.Error.{
  Error, Result, ok, err, value_error, transport_closed, listen_target_error, unreachable_target,
}
use radio_robot_lib.Python.Exec.{Exec, pure, raise, lift, ◌>>=◌, ◌>>◌}
use radio_robot_lib.RobotV6.Codec.{Field, Reply, int, float, insert}
use radio_robot_lib.RobotV6.Codec.FixedPoint.{Float}
use radio_robot_lib.RobotV6.Session.{World, Session, send_unsequenced, hello}
use radio_robot_lib.RobotV6.Session.Waiting.{DoneEvent, wait_for_ack, wait_for_done}
use radio_robot_lib.RobotV6.Motion.{wheels_v, go_to_r, stop, get, set}
use radio_robot_lib.Rogo.Naming.{find_device}
use radio_robot_lib.Rogo.Pumping.{pump_until, unless_cut, ◌>>?◌}
use radio_robot_lib.Rogo.Floats.{Floats}
use radio_robot_lib.Rogo.TurnModel.{compute_turn}
use radio_robot_lib.Rogo.RobotConfig.{RobotConfig, Files, save_robot_config}
use radio_robot_lib.Rogo.Calibrate.{CalibrationResult, compute_calibration}
use radio_robot_lib.Rogo.Cli.{Detail, detail_of, default_timeout, done_timeout}
use radio_robot_lib.Rogo.Cli.Await.{await_ack_and_err, await_ack_and_get_lines}
use radio_robot_lib.Rogo.Cli.Probe.{sees, banner_fields}
use radio_robot_lib.Rogo.Cli.Goto.{timeout_or}
use radio_robot_lib.Rogo.Cli.Settings.{list_fields}

-- The dicts that the tools return.
pub data Told : Type 0 where
  acked : ℕ → Told
  warned : ℕ → Detail → Told
  done : ℕ → Text → Told
  banner : List Text → Told
  fields : List (Text × Text) → Told
  no_such_field : Told
  set_failed : ℕ → Detail → Told
  no_robot_config : Told
  bad_argument : Told
  -- the result, and whether it was saved
  calibrated : CalibrationResult → Bool → Told

-- `except TransportClosed`
unfoldable pub unreachable : {A : Type 0} → Result A × Session → Result A × Session
unreachable (err transport_closed, s) = (err unreachable_target, s)
unreachable (r, s) = (r, s)

unfoldable pub reaching : {A : Type 0} → Exec Session A → Exec Session A
unfolding unreachable
reaching m s = unreachable (m s)

unfoldable pub told_done : ℕ → Option DoneEvent → Exec Session (Option Told)
told_done seq_id none = raise unreachable_target
told_done seq_id (some event) = pure (some (done seq_id event.reason))

unfoldable pub told_banner : Option Reply → Exec Session (Option Told)
told_banner none = raise unreachable_target
told_banner (some reply) = pure (some (banner (banner_fields reply.fields)))

unfoldable pub told_stop : ℕ → Bool → Exec Session (Option Told)
told_stop seq_id true = pure (some (acked seq_id))
told_stop seq_id false = raise unreachable_target

unfoldable pub told_no_lines : Option Text → Told
told_no_lines none = fields []
told_no_lines (some name) = no_such_field

-- The dict of the pairs: a name that comes again takes the later value.
unfoldable pub as_dict : List (Text × Text) → List (Text × Text) → List (Text × Text)
as_dict [] made = made
as_dict ((name, value) ∷ pairs) made = as_dict pairs (insert name value made)

unfoldable pub told_get : Option Text → Bool × List Reply → Exec Session (Option Told)
unfolding told_no_lines as_dict
told_get name (false, replies) = raise unreachable_target
told_get name (true, []) = pure (some (told_no_lines name))
told_get name (true, reply ∷ replies) = do
  pairs ← list_fields (reply ∷ replies)
  pure (some (fields (as_dict pairs [])))

unfoldable pub told_set : ℕ → Bool × Option Reply → Exec Session (Option Told)
told_set seq_id (false, reply) = raise unreachable_target
told_set seq_id (true, some reply) = pure (some (set_failed seq_id (detail_of reply)))
told_set seq_id (true, none) = pure (some (acked seq_id))

module _ (w : World) (fuel : ℕ) where
  unfoldable pub outcome_of_ack : ℕ → ℕ → Bool × Option Reply → Exec Session (Option Told)
  unfolding told_done
  outcome_of_ack seq_id timeout (false, reply) = raise unreachable_target
  outcome_of_ack seq_id timeout (true, some reply) = pure (some (warned seq_id (detail_of reply)))
  outcome_of_ack seq_id timeout (true, none) =
      reaching (wait_for_done w fuel seq_id (some timeout)) >>? told_done seq_id

  unfoldable pub report_motion_outcome : ℕ → ℕ → Exec Session (Option Told)
  unfolding reaching outcome_of_ack
  report_motion_outcome timeout seq_id =
      reaching (await_ack_and_err w fuel seq_id) >>? outcome_of_ack seq_id timeout

  unfoldable pub tool_hello : Exec Session (Option Told)
  unfolding reaching told_banner
  tool_hello =
      send_unsequenced hello []
      >> (reaching (pump_until w (sees (codes "device")) fuel default_timeout) >>? λ replies.
          told_banner (find_device replies))

  unfoldable pub tool_stop : Exec Session (Option Told)
  unfolding reaching told_stop
  tool_stop = do
    seq_id ← stop false
    reaching (wait_for_ack w fuel seq_id (some default_timeout)) >>? told_stop seq_id

  unfoldable pub tool_drive : ℤ → ℤ → ℤ → Exec Session (Option Told)
  tool_drive left right ms = do
    seq_id ← wheels_v (int left) (int right) (int ms)
    report_motion_outcome (done_timeout ms) seq_id

  -- `except ValueError` is about the numbers only.
  unfoldable pub turn_numbers : Result (ℤ × ℤ × ℤ) → Exec Session (Option Told)
  unfolding tool_drive
  turn_numbers (err value_error) = pure (some bad_argument)
  turn_numbers (err e) = raise e
  turn_numbers (ok (cmd_l, cmd_r, duration_ms)) = tool_drive cmd_l cmd_r duration_ms

  unfoldable pub turn_of :
      Floats → String → String → Option RobotConfig → Exec Session (Option Told)
  unfolding turn_numbers
  turn_of ops degrees speed none = pure (some no_robot_config)
  turn_of ops degrees speed (some cfg) = elim cfg.trackwidth_mm [
    | none ↦ pure (some no_robot_config)
    | some trackwidth ↦
        turn_numbers
          (compute_turn ops degrees speed (some trackwidth) cfg.rotational_slip "1.0" "0.0")
  ]

  -- The numbers that are added to the result are those of the arguments.
  unfoldable pub tool_turn :
      Floats → Option RobotConfig → String → String → Exec Session (Option Told)
  unfolding turn_of
  tool_turn ops cfg degrees speed =
      if ops.le speed "0" then raise value_error else turn_of ops degrees speed cfg

  unfoldable pub goto_within : ℤ → ℤ → ℤ → ℤ → ℤ → Exec Session (Option Told)
  goto_within x y speed arrive timeout_ms =
      if leb_ℤ timeout_ms (pos 0) then raise value_error else do
        seq_id ← go_to_r (int x) (int y) (int speed) (int arrive) (int timeout_ms)
        report_motion_outcome (done_timeout timeout_ms) seq_id

  unfoldable pub tool_goto : Floats → ℤ → ℤ → ℤ → ℤ → Option ℤ → Exec Session (Option Told)
  unfolding goto_within
  tool_goto ops x y speed arrive timeout_ms = if leb_ℤ speed (pos 0) then raise value_error else do
    resolved ← lift (timeout_or ops x y speed timeout_ms)
    goto_within x y speed arrive resolved

  unfoldable pub tool_config_get : Option Text → Exec Session (Option Told)
  unfolding reaching told_get
  tool_config_get name = do
    seq_id ← get name
    reaching (await_ack_and_get_lines w fuel seq_id) >>? told_get name

  unfoldable pub tool_config_set : Text → Float → Exec Session (Option Told)
  unfolding reaching told_set
  tool_config_set name value = do
    seq_id ← set name (float value)
    reaching (await_ack_and_err w fuel seq_id) >>? told_set seq_id

-- `if result.updated_value is not None and save`
unfoldable pub saved_if : RobotConfig → Option String → Bool → Files → Files
saved_if cfg (some value) true files =
    save_robot_config (record cfg { rotational_slip = some value }) files
saved_if cfg _ save files = files

unfoldable pub saves : Option String → Bool → Bool
saves none save = false
saves (some value) save = save

unfoldable pub calibrated_with : RobotConfig → Bool → Result CalibrationResult → Exec Files Told
unfolding saved_if saves
calibrated_with cfg save (err e) files = (err e, files)
calibrated_with cfg save (ok result) files = (
  ok (calibrated result (saves result.updated_value save)),
  saved_if cfg result.updated_value save files,
)

unfoldable pub tool_calibrate_turns :
    Floats → Option RobotConfig → List String → String → Bool → Exec Files Told
unfolding calibrated_with
tool_calibrate_turns ops none measured target_deg save files = (ok no_robot_config, files)
tool_calibrate_turns ops (some cfg) measured target_deg save files =
    calibrated_with cfg save
      (compute_calibration ops cfg.rotational_slip target_deg measured ("0.5", "1.5")) files
