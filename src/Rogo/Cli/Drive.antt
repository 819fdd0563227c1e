-- ===== src/Rogo/Cli/Drive.antt =====
-- `drive` of src/host/rogo/cli.py on an open session. Ctrl-C comes in the pause after a number of
-- rounds, which is an argument.
use radio_robot_lib.Prelude.{ℕ, zero, suc, false, Option, none, some}
use radio_robot_lib.Prelude.Text.{codes}
use radio_robot_lib.Prelude.Int.{ℤ}
use radio_robot_lib.Python.Error.{Result, ok, err, value_error}
use radio_robot_lib.Python.Exec.{Exec, pure, raise, ◌>>=◌, ◌>>◌}
use radio_robot_lib.RobotV6.Codec.{int}
use radio_robot_lib.RobotV6.Session.{World, Session, pump}
use radio_robot_lib.RobotV6.Motion.{wheels_v, wheels_x, stop}
use radio_robot_lib.Rogo.Pumping.{◌>>?◌}
use radio_robot_lib.Rogo.Floats.{Floats}
use radio_robot_lib.Rogo.Cli.{Ran, exit_with, streamed, usage, done_timeout}
use radio_robot_lib.Rogo.Cli.Await.{report_motion}
use radio_robot_lib.Rogo.Cli.Probe.{await_stop}
use radio_robot_lib.Rogo.Cli.Fields.{DriveArgs, wheels_x_fields, lease_of}

-- What was streamed goes before what is printed at the end.
unfoldable pub after_stream : ℤ → Ran → Ran
after_stream resend_ms ran = record ran {
  report = streamed resend_ms (lease_of resend_ms) ran.report;
}

module _ (w : World) (fuel : ℕ) where
  unfoldable pub drive_ms : ℤ → ℤ → ℤ → Exec Session (Option Ran)
  drive_ms left right duration_ms = do
    seq_id ← wheels_v (int left) (int right) (int duration_ms)
    report_motion w (codes "WHEELS_V") fuel (done_timeout duration_ms) seq_id

  -- `except ValueError` is about the fields only.
  unfoldable pub drive_fields : Result (ℤ × ℤ × ℤ × ℤ) → Exec Session (Option Ran)
  drive_fields (err value_error) = pure (some (exit_with 2 (usage (codes "drive --mm"))))
  drive_fields (err e) = raise e
  drive_fields (ok (left_d, right_d, cruise, timeout_ms)) = do
    seq_id ← wheels_x (int left_d) (int right_d) (int cruise) (int timeout_ms)
    report_motion w (codes "WHEELS_X") fuel (done_timeout timeout_ms) seq_id

  unfoldable pub drive_mm : Floats → ℤ → ℤ → ℤ → Exec Session (Option Ran)
  unfolding drive_fields
  drive_mm ops left right mm = drive_fields (wheels_x_fields ops left right mm)

  -- `while True`, until the interrupt
  unfoldable pub stream_rounds : ℕ → ℤ → ℤ → ℤ → Exec Session (Unit {0})
  stream_rounds zero left right lease_ms = pure tt
  stream_rounds (suc rounds) left right lease_ms =
      wheels_v (int left) (int right) (int lease_ms)
      >> (pump w >> stream_rounds rounds left right lease_ms)

  unfoldable pub drive_stream : ℕ → ℤ → ℤ → ℤ → Exec Session (Option Ran)
  unfolding after_stream
  drive_stream rounds left right resend_ms =
      stream_rounds rounds left right (lease_of resend_ms)
      >> ((do seq_id ← stop false; await_stop w fuel seq_id) >>? λ ran.
          pure (some (after_stream resend_ms ran)))

  unfoldable pub drive_mode :
      Floats → ℕ → DriveArgs → Option ℤ → Option ℤ → Exec Session (Option Ran)
  drive_mode ops rounds args (some mm) ms = drive_mm ops args.left args.right mm
  drive_mode ops rounds args none (some ms) = drive_ms args.left args.right ms
  drive_mode ops rounds args none none = drive_stream rounds args.left args.right args.resend

  unfoldable pub dispatch_drive_mode : Floats → ℕ → DriveArgs → Exec Session (Option Ran)
  unfolding drive_mode
  dispatch_drive_mode ops rounds args = drive_mode ops rounds args args.mm args.ms
