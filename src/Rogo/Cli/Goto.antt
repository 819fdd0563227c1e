-- ===== src/Rogo/Cli/Goto.antt =====
-- `goto` of src/host/rogo/cli.py.
use radio_robot_lib.Prelude.{ℕ, Option, none, some, if◌then◌else◌}
use radio_robot_lib.Prelude.Text.{codes}
use radio_robot_lib.Prelude.Int.{ℤ, pos, leb_ℤ}
use radio_robot_lib.Python.Error.{Result, ok, err}
use radio_robot_lib.Python.Exec.{Exec, pure, ◌>>=◌}
use radio_robot_lib.RobotV6.Codec.{int}
use radio_robot_lib.RobotV6.Session.{World, Session}
use radio_robot_lib.RobotV6.Motion.{go_to_r}
use radio_robot_lib.Rogo.Floats.{Floats}
use radio_robot_lib.Rogo.Cli.{Ran, exit_with, usage, done_timeout}
use radio_robot_lib.Rogo.Cli.Await.{report_motion}
use radio_robot_lib.Rogo.Cli.Fields.{backstop}
use radio_robot_lib.Rogo.Cli.Turn.{Prepared, refused, ready}

unfoldable pub goto_default_timeout : Floats → ℤ → ℤ → ℤ → Result ℤ
goto_default_timeout ops x y speed = backstop ops (ops.hypot x y) speed

-- `timeout if timeout is not None else ...`
unfoldable pub timeout_or : Floats → ℤ → ℤ → ℤ → Option ℤ → Result ℤ
unfolding goto_default_timeout
timeout_or ops x y speed none = goto_default_timeout ops x y speed
timeout_or ops x y speed (some timeout) = ok timeout

unfoldable pub checked_timeout : Result ℤ → Result (Prepared ℤ)
checked_timeout (err e) = err e
checked_timeout (ok timeout_ms) =
    if leb_ℤ timeout_ms (pos 0)
    then ok (refused (exit_with 2 (usage (codes "--timeout"))))
    else ok (ready timeout_ms)

unfoldable pub prepare_goto : Floats → ℤ → ℤ → ℤ → Option ℤ → Result (Prepared ℤ)
unfolding timeout_or checked_timeout
prepare_goto ops x y speed timeout =
    if leb_ℤ speed (pos 0)
    then ok (refused (exit_with 2 (usage (codes "--speed"))))
    else checked_timeout (timeout_or ops x y speed timeout)

module _ (w : World) (fuel : ℕ) where
  unfoldable pub run_goto : ℤ → ℤ → ℤ → ℤ → ℤ → Exec Session (Option Ran)
  run_goto x y speed arrive timeout_ms = do
    seq_id ← go_to_r (int x) (int y) (int speed) (int arrive) (int timeout_ms)
    report_motion w (codes "GO_TO_R") fuel (done_timeout timeout_ms) seq_id

  unfoldable pub run_prepared_goto : ℤ → ℤ → ℤ → ℤ → Prepared ℤ → Exec Session (Option Ran)
  unfolding run_goto
  run_prepared_goto x y speed arrive (refused ran) = pure (some ran)
  run_prepared_goto x y speed arrive (ready timeout_ms) = run_goto x y speed arrive timeout_ms
