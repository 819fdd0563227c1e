-- ===== src/Rogo/Cli/Alone.antt =====
-- A command of src/host/rogo/cli.py on a connection of its own, and the same as a line of `repl`.
use radio_robot_lib.Prelude.{ℕ, ◌≡◌, refl, Bool, true, false, Option, none, some, inl, inr, ◌⊎◌}
use radio_robot_lib.Prelude.Int.{ℤ}
use radio_robot_lib.Prelude.Text.{Text}
use radio_robot_lib.Python.Error.{Result, ok, err, transport_closed}
use radio_robot_lib.Python.Exec.{Exec, continue}
use radio_robot_lib.RobotV6.Session.{World, Session}
use radio_robot_lib.Rogo.Floats.{Floats}
use radio_robot_lib.Rogo.RobotConfig.{RobotConfig}
use radio_robot_lib.Rogo.Cli.{Ran}
use radio_robot_lib.Rogo.Cli.Fields.{DriveArgs, validate_drive_args}
use radio_robot_lib.Rogo.Cli.Drive.{dispatch_drive_mode}
use radio_robot_lib.Rogo.Cli.Turn.{Prepared, refused, ready, prepare_turn, run_prepared_turn}
use radio_robot_lib.Rogo.Cli.Goto.{prepare_goto, run_prepared_goto}
use radio_robot_lib.Rogo.Cli.Probe.{run_hello, run_stop}
use radio_robot_lib.Rogo.Cli.Settings.{run_config_get, run_config_set}
use radio_robot_lib.Rogo.Cli.Command.{
  Command, hello, stop, estop, drive, turn, goto, config_get, config_set, other, Exit,
  closed_as_code, with_connection, drive_line, dispatch_repl_line, drive_checked, cmd_prepared, cmd,
  cmd_hello, cmd_stop, cmd_drive, cmd_turn, cmd_goto, cmd_config_get, cmd_config_set,
}

-- The commands that `repl` has too.
unfoldable pub in_repl : Command → Bool
in_repl estop = false
in_repl (other name) = false
in_repl c = true

-- The same result, and either the same session, on a connection that is closed once, or no
-- connection and nothing done.
abbrev pub SameAs : Session → Result (Option Ran) × Session → Exit → Type 0
SameAs s (r, t) exit =
    (closed_as_code exit.outcome ≡ closed_as_code r)
    × (((exit.connection ≡ some t) × (exit.closes ≡ 1))
        ⊎ ((exit.connection ≡ none) × (exit.closes ≡ 0) × (t ≡ s)))

closed_twice : (r : Result (Option Ran)) → closed_as_code (closed_as_code r) ≡ closed_as_code r
unfolding closed_as_code
closed_twice (ok a) = refl
closed_twice (err transport_closed) = refl
closed_twice (err _) = refl

with_connection-SameAs :
    (s : Session) (body : Exec Session (Option Ran))
    → SameAs s (body s) (with_connection (ok s) body)
unfolding with_connection
with_connection-SameAs s body = (closed_twice (body s).0, inl (refl, refl))

module _ (w : World) (fuel : ℕ) (ops : Floats) (cfg : Option RobotConfig) (rounds : ℕ)
    (s : Session) where
  drive_checked-SameAs :
      (args : DriveArgs) (checked : Option Ran)
      → SameAs s
          (drive_line w fuel ops cfg rounds args checked s)
          (drive_checked w fuel ops cfg rounds (ok s) args checked)
  unfolding drive_line drive_checked
  drive_checked-SameAs args (some error) = (refl, inr (refl, refl, refl))
  drive_checked-SameAs args none =
      with_connection-SameAs s (dispatch_drive_mode w fuel ops rounds args)

  cmd_prepared-SameAs :
      {A : Type 0} (run : Prepared A → Exec Session (Option Ran)) (prepared : Result (Prepared A))
      → ((ran : Ran) → run (refused ran) s ≡ (ok (some ran), s))
      → SameAs s (continue prepared run s) (cmd_prepared w fuel ops cfg rounds (ok s) run prepared)
  unfolding cmd_prepared
  cmd_prepared-SameAs run (err e) still = (refl, inr (refl, refl, refl))
  cmd_prepared-SameAs run (ok (refused ran)) still = rw (still ran) (refl, inr (refl, refl, refl))
  cmd_prepared-SameAs run (ok (ready numbers)) still =
      with_connection-SameAs s (run (ready numbers))

  refused_turn : (ran : Ran) → run_prepared_turn w fuel (refused ran) s ≡ (ok (some ran), s)
  unfolding run_prepared_turn
  refused_turn ran = refl

  refused_goto :
      (x y speed arrive : ℤ) (ran : Ran)
      → run_prepared_goto w fuel x y speed arrive (refused ran) s ≡ (ok (some ran), s)
  unfolding run_prepared_goto
  refused_goto x y speed arrive ran = refl

  -- A command that `repl` has too does on a connection of its own what it does as a line of `repl`
  -- on the same session: the same result, but for a closed connection, which it turns into a code,
  -- and the same session at the end, the connection closed exactly once; or its arguments are
  -- refused, and then no connection is opened and the line does nothing to the session.
  pub cmd-SameAs :
      (others : Text → Exit) (c : Command)
      → in_repl c ≡ true
      → SameAs s
          (dispatch_repl_line w fuel ops cfg rounds c s)
          (cmd w fuel ops cfg rounds (ok s) others c)
  unfolding dispatch_repl_line cmd in_repl cmd_hello cmd_stop cmd_drive cmd_turn cmd_goto
      cmd_config_get cmd_config_set
  cmd-SameAs others hello h = with_connection-SameAs s (run_hello w fuel)
  cmd-SameAs others stop h = with_connection-SameAs s (run_stop w fuel)
  cmd-SameAs others estop h = absurd (cc)
  cmd-SameAs others (drive args) h = drive_checked-SameAs args (validate_drive_args args)
  cmd-SameAs others (turn degrees speed) h =
      cmd_prepared-SameAs (run_prepared_turn w fuel) (prepare_turn ops cfg degrees speed)
        refused_turn
  cmd-SameAs others (goto x y speed arrive timeout) h =
      cmd_prepared-SameAs (run_prepared_goto w fuel x y speed arrive)
        (prepare_goto ops x y speed timeout) (refused_goto x y speed arrive)
  cmd-SameAs others (config_get name) h = with_connection-SameAs s (run_config_get w fuel name)
  cmd-SameAs others (config_set name value) h =
      with_connection-SameAs s (run_config_set w fuel name value)
  cmd-SameAs others (other name) h = absurd (cc)
