-- ===== src/Rogo/Cli/Command.antt =====
-- The commands of src/host/rogo/cli.py as a whole, each on a connection of its own, a line of `repl`
-- on the session that is open, and `main`. `argparse` is outside: a command is its result.
use radio_robot_lib.Prelude.{ℕ, Option, none, some, String}
use radio_robot_lib.Prelude.Text.{Text, codes}
use radio_robot_lib.Prelude.Int.{ℤ}
use radio_robot_lib.Python.Error.{Result, ok, err, transport_closed}
use radio_robot_lib.Python.Exec.{Exec, pure, lift, ◌>>=◌}
use radio_robot_lib.RobotV6.Codec.FixedPoint.{Float}
use radio_robot_lib.RobotV6.Session.{World, Session}
use radio_robot_lib.Rogo.Floats.{Floats}
use radio_robot_lib.Rogo.RobotConfig.{RobotConfig}
use radio_robot_lib.Rogo.Cli.{Ran, exit_with, usage, connection_closed}
use radio_robot_lib.Rogo.Cli.Probe.{run_hello, run_stop, run_estop}
use radio_robot_lib.Rogo.Cli.Fields.{DriveArgs, validate_drive_args}
use radio_robot_lib.Rogo.Cli.Drive.{dispatch_drive_mode}
use radio_robot_lib.Rogo.Cli.Turn.{Prepared, refused, ready, prepare_turn, run_prepared_turn}
use radio_robot_lib.Rogo.Cli.Goto.{prepare_goto, run_prepared_goto}
use radio_robot_lib.Rogo.Cli.Settings.{run_config_get, run_config_set}

-- The parsed arguments; `other` is a command that a line of `repl` cannot be.
pub data Command : Type 0 where
  hello stop estop : Command
  drive : DriveArgs → Command
  -- degrees and speed
  turn : String → String → Command
  -- x, y, speed, arrive and timeout
  goto : ℤ → ℤ → ℤ → ℤ → Option ℤ → Command
  config_get : Option Text → Command
  config_set : Text → Float → Command
  other : Text → Command

-- What became of a command: its result, and the connection as it was left, if one was opened, with
-- the number of times that it was closed.
pub record Exit : Type 0 where
  pub outcome : Result (Option Ran)
  pub connection : Option Session
  pub closes : ℕ

abbrev pub not_connected : Result (Option Ran) → Exit
not_connected outcome = record { outcome = outcome; connection = none; closes = 0 }

-- `except TransportClosed`
unfoldable pub closed_as_code : Result (Option Ran) → Result (Option Ran)
closed_as_code (err transport_closed) = ok (some (exit_with 1 connection_closed))
closed_as_code r = r

-- `try`, `except TransportClosed` and `finally: conn.transport.close()`
unfoldable pub with_connection : Result Session → Exec Session (Option Ran) → Exit
unfolding closed_as_code
with_connection (err e) body = not_connected (err e)
with_connection (ok s) body =
    let (r, t) = body s in record { outcome = closed_as_code r; connection = some t; closes = 1 }

unfoldable pub unsupported : Ran
unsupported = exit_with 2 (usage (codes "repl"))

-- What the commands read: the float arithmetic, the active robot's configuration, and the rounds of
-- a stream before Ctrl-C.
module _ (w : World) (fuel : ℕ) (ops : Floats) (cfg : Option RobotConfig) (rounds : ℕ) where
  unfoldable pub drive_line : DriveArgs → Option Ran → Exec Session (Option Ran)
  drive_line args (some error) = pure (some error)
  drive_line args none = dispatch_drive_mode w fuel ops rounds args

  unfoldable pub dispatch_repl_line : Command → Exec Session (Option Ran)
  unfolding drive_line
  dispatch_repl_line hello = run_hello w fuel
  dispatch_repl_line stop = run_stop w fuel
  dispatch_repl_line estop = pure (some unsupported)
  dispatch_repl_line (drive args) = drive_line args (validate_drive_args args)
  dispatch_repl_line (turn degrees speed) = do
    prepared ← lift (prepare_turn ops cfg degrees speed)
    run_prepared_turn w fuel prepared
  dispatch_repl_line (goto x y speed arrive timeout) = do
    prepared ← lift (prepare_goto ops x y speed timeout)
    run_prepared_goto w fuel x y speed arrive prepared
  dispatch_repl_line (config_get name) = run_config_get w fuel name
  dispatch_repl_line (config_set name value) = run_config_set w fuel name value
  dispatch_repl_line (other name) = pure (some unsupported)

  -- The result of `get_connection(args, spawn=False)`.
  module _ (connected : Result Session) where
    unfoldable pub cmd_hello : Exit
    unfolding with_connection
    cmd_hello = with_connection connected (run_hello w fuel)

    unfoldable pub cmd_stop : Exit
    unfolding with_connection
    cmd_stop = with_connection connected (run_stop w fuel)

    unfoldable pub cmd_estop : Exit
    unfolding with_connection
    cmd_estop = with_connection connected (run_estop w fuel)

    unfoldable pub drive_checked : DriveArgs → Option Ran → Exit
    unfolding with_connection
    drive_checked args (some error) = not_connected (ok (some error))
    drive_checked args none = with_connection connected (dispatch_drive_mode w fuel ops rounds args)

    unfoldable pub cmd_drive : DriveArgs → Exit
    unfolding drive_checked
    cmd_drive args = drive_checked args (validate_drive_args args)

    -- The arguments are prepared before a connection is opened.
    unfoldable pub cmd_prepared :
        {A : Type 0} → (Prepared A → Exec Session (Option Ran)) → Result (Prepared A) → Exit
    unfolding with_connection
    cmd_prepared run (err e) = not_connected (err e)
    cmd_prepared run (ok (refused ran)) = not_connected (ok (some ran))
    cmd_prepared run (ok (ready numbers)) = with_connection connected (run (ready numbers))

    unfoldable pub cmd_turn : String → String → Exit
    unfolding cmd_prepared
    cmd_turn degrees speed =
        cmd_prepared (run_prepared_turn w fuel) (prepare_turn ops cfg degrees speed)

    unfoldable pub cmd_goto : ℤ → ℤ → ℤ → ℤ → Option ℤ → Exit
    unfolding cmd_prepared
    cmd_goto x y speed arrive timeout =
        cmd_prepared (run_prepared_goto w fuel x y speed arrive)
          (prepare_goto ops x y speed timeout)

    unfoldable pub cmd_config_get : Option Text → Exit
    unfolding with_connection
    cmd_config_get name = with_connection connected (run_config_get w fuel name)

    unfoldable pub cmd_config_set : Text → Float → Exit
    unfolding with_connection
    cmd_config_set name value = with_connection connected (run_config_set w fuel name value)

    -- `args.func(args)`; `others` is what the commands do that a line of `repl` cannot be.
    unfoldable pub cmd : (Text → Exit) → Command → Exit
    unfolding cmd_hello cmd_stop cmd_estop cmd_drive cmd_turn cmd_goto cmd_config_get cmd_config_set
    cmd others hello = cmd_hello
    cmd others stop = cmd_stop
    cmd others estop = cmd_estop
    cmd others (drive args) = cmd_drive args
    cmd others (turn degrees speed) = cmd_turn degrees speed
    cmd others (goto x y speed arrive timeout) = cmd_goto x y speed arrive timeout
    cmd others (config_get name) = cmd_config_get name
    cmd others (config_set name value) = cmd_config_set name value
    cmd others (other name) = others name
