-- ===== src/Rogo/Cli/Turn.antt =====
-- `turn` of src/host/rogo/cli.py.
use radio_robot_lib.Prelude.{ℕ, Option, none, some, String, if◌then◌else◌}
use radio_robot_lib.Prelude.Text.{codes}
use radio_robot_lib.Prelude.Int.{ℤ}
use radio_robot_lib.Python.Error.{Result, ok, err, value_error}
use radio_robot_lib.Python.Exec.{Exec, pure, ◌>>=◌}
use radio_robot_lib.RobotV6.Codec.{int}
use radio_robot_lib.RobotV6.Session.{World, Session}
use radio_robot_lib.RobotV6.Motion.{wheels_v}
use radio_robot_lib.Rogo.Floats.{Floats}
use radio_robot_lib.Rogo.TurnModel.{compute_turn}
use radio_robot_lib.Rogo.RobotConfig.{RobotConfig}
use radio_robot_lib.Rogo.Cli.{Ran, exit_with, usage, no_robot_config, done_timeout}
use radio_robot_lib.Rogo.Cli.Await.{report_motion}

-- What a preparation comes to: an exit code, its message printed, or the numbers to go on with.
pub data Prepared (A : Type 0) : Type 0 where
  refused : Ran → Prepared A
  ready : A → Prepared A

-- `except ValueError`: other errors pass through.
unfoldable pub prepared_turn : Result (ℤ × ℤ × ℤ) → Result (Prepared (ℤ × ℤ × ℤ))
prepared_turn (ok numbers) = ok (ready numbers)
prepared_turn (err value_error) = ok (refused (exit_with 2 (usage (codes "turn"))))
prepared_turn (err e) = err e

unfoldable pub turn_with :
    Floats → String → String → Option RobotConfig → Result (Prepared (ℤ × ℤ × ℤ))
unfolding prepared_turn
turn_with ops degrees speed none = ok (refused (exit_with 1 no_robot_config))
turn_with ops degrees speed (some cfg) = elim cfg.trackwidth_mm [
  | none ↦ ok (refused (exit_with 1 no_robot_config))
  | some trackwidth ↦
      prepared_turn
        (compute_turn ops degrees speed (some trackwidth) cfg.rotational_slip "1.0" "0.0")
]

-- The active robot's configuration is read on each call.
unfoldable pub prepare_turn :
    Floats → Option RobotConfig → String → String → Result (Prepared (ℤ × ℤ × ℤ))
unfolding turn_with
prepare_turn ops cfg degrees speed =
    if ops.le speed "0"
    then ok (refused (exit_with 2 (usage (codes "--speed"))))
    else turn_with ops degrees speed cfg

module _ (w : World) (fuel : ℕ) where
  unfoldable pub run_turn : ℤ → ℤ → ℤ → Exec Session (Option Ran)
  run_turn cmd_l cmd_r duration_ms = do
    seq_id ← wheels_v (int cmd_l) (int cmd_r) (int duration_ms)
    report_motion w (codes "WHEELS_V") fuel (done_timeout duration_ms) seq_id

  unfoldable pub run_prepared_turn : Prepared (ℤ × ℤ × ℤ) → Exec Session (Option Ran)
  unfolding run_turn
  run_prepared_turn (refused ran) = pure (some ran)
  run_prepared_turn (ready (cmd_l, cmd_r, duration_ms)) = run_turn cmd_l cmd_r duration_ms
