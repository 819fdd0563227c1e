-- ===== src/Tests/Cli.antt =====
-- Commands at concrete inputs.
use radio_robot_lib.Prelude.{◌≡◌, refl, true, false, none, [], arith}
use radio_robot_lib.Prelude.Int.{pos, ltb_ℤ, ◌≤ℤ◌}
use radio_robot_lib.Python.Error.{ok}
use radio_robot_lib.RobotV6.Transport.{chunk, fresh}
use radio_robot_lib.RobotV6.Session.{World, Session, init}
use radio_robot_lib.Rogo.Floats.{Floats}
use radio_robot_lib.Rogo.Cli.Probe.{run_stop}
use radio_robot_lib.Rogo.Cli.Drive.{drive_ms}
use radio_robot_lib.Rogo.Cli.Goto.{run_goto}
use radio_robot_lib.Rogo.Cli.{done_timeout}
use radio_robot_lib.Rogo.Cli.Fields.{lease_of}
use radio_robot_lib.Rogo.Cli.Honest.{Honest}
use radio_robot_lib.Rogo.Cli.Motions.{commands-Honest}
use radio_robot_lib.Rogo.Cli.Bounds.{lease_of-bounds}
use radio_robot_lib.Rogo.Cli.Command.{not_connected, cmd, dispatch_repl_line, goto}
use radio_robot_lib.Rogo.Cli.Alone.{in_repl, SameAs, cmd-SameAs}

-- A clock of milliseconds, and a robot that says nothing.
abbrev world : World
world = record { monotonic = λ i. i; arrivals = λ i. chunk [] }

abbrev opened : Session
opened = init fresh 4 100

-- Every quotient is 1, and so is what is rounded.
abbrev ops : Floats
ops = record {
  of_int = λ n. "1";
  add = λ a b. a;
  sub = λ a b. a;
  mul = λ a b. a;
  divide = λ a b. ok "1";
  abs = λ a. a;
  radians = λ a. a;
  hypot = λ x y. "1";
  le = λ a b. false;
  lt = λ a b. true;
  eq = λ a b. false;
  round = λ a. ok (pos 1);
}

commands-Honest_example :
    Honest 1 (run_stop world 4000 opened)
    × Honest 1 (drive_ms world 4000 (pos 100) (pos 100) (pos 500) opened)
    × Honest 1 (run_goto world 4000 (pos 300) (pos 0) (pos 200) (pos 0) (pos 500) opened)
unfolding init done_timeout
commands-Honest_example =
    commands-Honest world 4000 (λ i j h. h) (omega arith) (λ i. omega arith) (pos 100) (pos 100)
      (pos 500) (pos 300) (pos 0) (pos 200) (pos 0) opened (λ i. omega arith)

lease_of-bounds_example :
    (pos 500 ≤ℤ lease_of (pos 6000))
    × (lease_of (pos 6000) ≤ℤ pos 5000)
    × (ltb_ℤ (pos 6000) (lease_of (pos 6000)) ≡ false)
lease_of-bounds_example = lease_of-bounds (pos 6000)

cmd-SameAs_example :
    SameAs opened
      (dispatch_repl_line world 9 ops none 3 (goto (pos 1) (pos 2) (pos 200) (pos 0) none) opened)
      (cmd world 9 ops none 3
        (ok opened)
        (λ name. not_connected (ok none))
        (goto (pos 1) (pos 2) (pos 200) (pos 0) none))
unfolding in_repl
cmd-SameAs_example =
    cmd-SameAs world 9 ops none 3 opened (λ name. not_connected (ok none))
      (goto (pos 1) (pos 2) (pos 200) (pos 0) none) refl
