-- ===== src/Rogo/Cli/Main.antt =====
-- `main` of src/host/rogo/cli.py and the commands that last: `repl` and `mcp`.
use radio_robot_lib.Prelude.{Bool, true, false, ℕ, Option, none, some, List, [], ◌∷◌}
use radio_robot_lib.Prelude.Text.{Text, codes, text_eq}
use radio_robot_lib.Python.Error.{
  Result, ok, err, target_error, sim_binary_error, os_error, robot_name_required,
  daemon_unavailable, listen_target_error,
}
use radio_robot_lib.Python.Exec.{Exec, pure, ◌>>=◌}
use radio_robot_lib.RobotV6.Session.{Session}
use radio_robot_lib.Rogo.Repl
use radio_robot_lib.Rogo.Repl.{Parsed}
use radio_robot_lib.Rogo.Cli.{Ran, exit_with, raised, nothing}
use radio_robot_lib.Rogo.Cli.Command.{Command, Exit, not_connected, with_connection}

unfoldable pub main_code : Result (Option Ran) → Result (Option ℕ)
main_code (ok none) = ok none
main_code (ok (some ran)) = ok (some ran.code)
main_code (err target_error) = ok (some 2)
main_code (err sim_binary_error) = ok (some 3)
main_code (err os_error) = ok (some 1)
main_code (err e) = err e

unfoldable pub has_agent : List Text → Bool
has_agent [] = false
has_agent (word ∷ argv) =
    let rest = has_agent argv in
    elim (text_eq word (codes "--agent")) [ true ↦ true | false ↦ rest ]

unfoldable pub unless_agent : Bool → Result (Option ℕ) → Result (Option ℕ)
unless_agent true rest = ok (some 0)
unless_agent false rest = rest

-- `--agent` is looked for before anything is parsed; `parse` is the parser, and ends the process
-- with 2 where it refuses.
unfoldable pub main :
    (List Text → Option Command) → (Command → Exit) → List Text → Result (Option ℕ)
unfolding has_agent unless_agent main_code
main parse run argv =
    unless_agent (has_agent argv)
      (elim (parse argv) [ none ↦ ok (some 2) | some command ↦ main_code (run command).outcome ])

-- A connection that may have to be spawned: `except RobotNameRequiredError` and
-- `except DaemonUnavailableError`
unfoldable pub spawned_or_code : Exit → Result Session → Exit
spawned_or_code go (err robot_name_required) =
    not_connected (ok (some (exit_with 1 (raised (codes "RobotNameRequiredError")))))
spawned_or_code go (err daemon_unavailable) =
    not_connected (ok (some (exit_with 1 (raised (codes "DaemonUnavailableError")))))
spawned_or_code go r = go

unfoldable pub cmd_spawning : Result Session → Exec Session (Option Ran) → Exit
unfolding spawned_or_code with_connection
cmd_spawning obtained body = spawned_or_code (with_connection obtained body) obtained

-- `repl.run` comes to the process code. It does not look at what a command came to, so a command
-- whose loop was cut off passes for one that returned.
unfoldable pub cmd_repl :
    (Text → Parsed Command)
    → (Command → Exec Session (Option Ran))
    → Result Session
    → List Text
    → Exit
unfolding cmd_spawning
cmd_repl parse dispatch obtained lines =
    cmd_spawning obtained
      (do code ← Repl.run parse dispatch lines; pure (some (exit_with code nothing)))

-- `except mcp_server.ListenTargetError`, before a connection is looked for.
unfoldable pub listening : {A : Type 0} → Result A → Exit → Exit
listening (err listen_target_error) rest =
    not_connected (ok (some (exit_with 2 (raised (codes "ListenTargetError")))))
listening (err e) rest = not_connected (err e)
listening (ok target) rest = rest

-- The first argument is the result of `resolve_listen_target`, `body` the server's run, where it is
-- called once more and comes to the same.
unfoldable pub cmd_mcp : {A : Type 0} → Result A → Result Session → Exec Session (Option Ran) → Exit
unfolding listening cmd_spawning
cmd_mcp target obtained body = listening target (cmd_spawning obtained body)
