-- ===== src/Tests/Tools.antt =====
-- Calibrations, tools and lines of a repl at concrete inputs.
use radio_robot_lib.Prelude.{Bool, true, false, none, some, ◌∷◌, [], List}
use radio_robot_lib.Prelude.Text.{Text, codes}
use radio_robot_lib.Prelude.Int.{pos}
use radio_robot_lib.Python.Error.{ok}
use radio_robot_lib.Python.Exec.{Exec}
use radio_robot_lib.RobotV6.Transport.{chunk, fresh}
use radio_robot_lib.RobotV6.Session.{World, Session, init}
use radio_robot_lib.Rogo.Floats.{Floats}
use radio_robot_lib.Rogo.RobotConfig.{RobotConfig}
use radio_robot_lib.Rogo.Calibrate.Trials.{Desk}
use radio_robot_lib.Rogo.Calibrate.Command.{cmd_calibrate_turns, cmd_calibrate_distance}
use radio_robot_lib.Rogo.Calibrate.Kept.{WrittenTo}
use radio_robot_lib.Rogo.Calibrate.Saving.{cmd_calibrate-WrittenTo}
use radio_robot_lib.Rogo.Mcp.Listen.{serve, Guarded, serve-Guarded}

abbrev world : World
world = record { monotonic = λ i. i; arrivals = λ i. chunk [] }

abbrev opened : Session
opened = init fresh 4 100

-- Every quotient is 1, and so is what is rounded.
abbrev ops : Floats
ops = record {
  of_int = λ n. "1";
  add = λ a b. a;
  sub = λ a b. a;
  mul = λ a b. a;
  divide = λ a b. ok "1";
  abs = λ a. a;
  radians = λ a. a;
  hypot = λ x y. "1";
  le = λ a b. true;
  lt = λ a b. true;
  eq = λ a b. false;
  round = λ a. ok (pos 1);
}

abbrev config : RobotConfig
config = record {
  name = some "tovez";
  uid = none;
  common_name = none;
  trackwidth_mm = some "130.0";
  rotational_slip = none;
  distance_scale = none;
  path = "tovez.json";
}

abbrev desk : Desk
desk = record {
  session = opened;
  answers = codes "" ∷ codes "91.5" ∷ codes "q" ∷ [];
  files = λ path. none;
}

cmd_calibrate-WrittenTo_example :
    WrittenTo desk.files world 9 ops
      (λ raw. some "91.5")
      (λ value. record config { rotational_slip = some value })
      (cmd_calibrate_turns world 9 ops
        (λ raw. some "91.5")
        (ok opened)
        desk.answers
        desk.files
        (some config)
        (pos 3)
        "200.0").files
    × WrittenTo desk.files world 9 ops
        (λ raw. some "91.5")
        (λ value. record config { distance_scale = some value })
        (cmd_calibrate_distance world 9 ops
          (λ raw. some "91.5")
          (ok opened)
          desk.answers
          desk.files
          (some config)
          (pos 3)
          "400.0"
          "200.0").files
cmd_calibrate-WrittenTo_example =
    cmd_calibrate-WrittenTo world 9 ops (λ raw. some "91.5") desk.answers desk.files (ok opened)
      config (pos 3) "400.0" "200.0"

serve-Guarded_example :
    Guarded (some (codes "0.0.0.0:8000")) false (serve (some (codes "0.0.0.0:8000")) false)
serve-Guarded_example = serve-Guarded (some (codes "0.0.0.0:8000")) false

-- Every line that is read is a command, and dispatching it keeps it.
abbrev keep : Text → Exec (List Text) Bool
keep line seen = (ok true, line ∷ seen)
