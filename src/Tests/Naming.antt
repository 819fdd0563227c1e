-- ===== src/Tests/Naming.antt =====
-- The search for a name at concrete inputs.
use radio_robot_lib.Prelude.{none, [], arith, false}
use radio_robot_lib.Prelude.Text.{codes}
use radio_robot_lib.RobotV6.Transport.{chunk, fresh}
use radio_robot_lib.RobotV6.Session.{World, init}
use radio_robot_lib.Rogo.Naming.{resolve_robot_name}
use radio_robot_lib.Rogo.Naming.Found.{Named, resolve_robot_name-Named}

abbrev world : World
world = record { monotonic = λ i. i; arrivals = λ i. chunk [] }

resolve_robot_name-Named_example :
    Named false (resolve_robot_name world 6 none false (codes "sim") 5 (init fresh 4 100))
unfolding init
resolve_robot_name-Named_example =
    resolve_robot_name-Named world 6 5 5 (init fresh 4 100) (λ i j h. h) (omega arith) (omega arith)
      (omega arith) none false (codes "sim") (λ e. cc)
