-- ===== src/Rogo/Calibrate/Command.antt =====
-- `calibrate turns` and `calibrate distance` of src/host/rogo/cli.py: the checks, and the connection
-- around a calibration.
use radio_robot_lib.Prelude.{ℕ, Option, none, some, String, List, if◌then◌else◌}
use radio_robot_lib.Prelude.Text.{Text}
use radio_robot_lib.Prelude.Int.{ℤ, pos, leb_ℤ, pos_part}
use radio_robot_lib.Python.Error.{Result, ok, err, transport_closed}
use radio_robot_lib.Python.Exec.{Exec}
use radio_robot_lib.RobotV6.Session.{World, Session}
use radio_robot_lib.Rogo.Floats.{Floats}
use radio_robot_lib.Rogo.RobotConfig.{RobotConfig, Files}
use radio_robot_lib.Rogo.Calibrate.Trials.{Desk, calibrate_turns, calibrate_distance}

-- The process code, the files as they are left, and how often the connection was closed.
pub record Finished : Type 0 where
  pub outcome : Result (Option ℕ)
  pub files : Files
  pub closes : ℕ

abbrev pub refused_with : ℕ → Files → Finished
refused_with code files = record { outcome = ok (some code); files = files; closes = 0 }

-- `except TransportClosed`
unfoldable pub lost_as_code : Result (Option ℕ) → Result (Option ℕ)
lost_as_code (err transport_closed) = ok (some 1)
lost_as_code r = r

unfoldable pub on_connection : Result Session → List Text → Files → Exec Desk (Option ℕ) → Finished
unfolding lost_as_code
on_connection (err e) answers files body = record { outcome = err e; files = files; closes = 0 }
on_connection (ok s) answers files body =
    let (r, d) = body (record { session = s; answers = answers; files = files }) in
    record { outcome = lost_as_code r; files = d.files; closes = 1 }

-- The result of `get_connection(args, spawn=False)`, the operator's lines, the files, and the active
-- robot's configuration.
module _ (w : World) (fuel : ℕ) (ops : Floats) (to_float : Text → Option String)
    (connected : Result Session) (answers : List Text) (files : Files) where
  unfoldable pub turns_for : Option RobotConfig → ℕ → String → Finished
  unfolding on_connection
  turns_for none trials speed = refused_with 1 files
  turns_for (some cfg) trials speed =
      on_connection connected answers files
        (calibrate_turns w fuel ops to_float cfg trials speed "90.0")

  unfoldable pub cmd_calibrate_turns : Option RobotConfig → ℤ → String → Finished
  unfolding turns_for
  cmd_calibrate_turns cfg trials speed =
      if ops.le speed "0"
      then refused_with 2 files
      else if leb_ℤ trials (pos 0)
      then refused_with 2 files
      else turns_for cfg (pos_part trials) speed

  unfoldable pub distance_for : Option RobotConfig → ℕ → String → String → Finished
  unfolding on_connection
  distance_for none trials distance speed = refused_with 1 files
  distance_for (some cfg) trials distance speed =
      on_connection connected answers files
        (calibrate_distance w fuel ops to_float cfg trials distance speed)

  unfoldable pub cmd_calibrate_distance : Option RobotConfig → ℤ → String → String → Finished
  unfolding distance_for
  cmd_calibrate_distance cfg trials distance speed =
      if ops.le speed "0"
      then refused_with 2 files
      else if ops.le distance "0"
      then refused_with 2 files
      else if leb_ℤ trials (pos 0)
      then refused_with 2 files
      else distance_for cfg (pos_part trials) distance speed
