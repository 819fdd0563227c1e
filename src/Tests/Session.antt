-- ===== src/Tests/Session.antt =====
-- Sessions at concrete inputs.
use radio_robot_lib.Prelude.{◌≡◌, refl, none, some, List, [], ◌∷◌, arith, true}
use radio_robot_lib.Prelude.Text.{codes, text_eq}
use radio_robot_lib.Python.Error.{type_error}
use radio_robot_lib.Python.Split.{contains}
use radio_robot_lib.RobotV6.Codec.{bool, format_fields, encode_command}
use radio_robot_lib.RobotV6.Transport.{chunk, fresh}
use radio_robot_lib.RobotV6.Session.{World, Session, is_unsequenced, init, send}
use radio_robot_lib.RobotV6.Session.Pending.{get_line}
use radio_robot_lib.RobotV6.Session.History.{Call, sends, pumps, waits_for_ack, run}
use radio_robot_lib.RobotV6.Session.Waiting.{wait_for_ack, wait_for_done}
use radio_robot_lib.RobotV6.Session.Invariant.{IsWell, run-IsWell}
use radio_robot_lib.RobotV6.Session.Progress.{
  AckOutcome, DoneOutcome, wait_for_ack-AckOutcome, wait_for_done-DoneOutcome,
}
use radio_robot_lib.RobotV6.Session.Sending.{send_unformatted_loses_id}

-- A clock that ticks at each reading, and a robot that acknowledges the first command.
abbrev world : World
world = record { monotonic = λ i. i; arrivals = λ i. chunk (codes "ack 1 0 none\n") }

abbrev opened : Session
opened = run world (init fresh 2 10) []

abbrev calls : List Call
calls = sends (codes "GET") [] ∷ pumps ∷ sends (codes "STOP") [] ∷ waits_for_ack 9 2 (some 5) ∷ []

run-IsWell_example : IsWell (run world (init fresh 2 10) calls)
run-IsWell_example = run-IsWell world fresh 2 10 calls

wait_for_ack-AckOutcome_example :
    AckOutcome world 3 5 (wait_for_ack world 5 3 (some 5) (init fresh 2 10))
unfolding init
wait_for_ack-AckOutcome_example =
    wait_for_ack-AckOutcome world 5 3 5 5 (init fresh 2 10) (λ i j h. h) (omega arith) (omega arith)
      (omega arith)

wait_for_done-DoneOutcome_example :
    DoneOutcome world 3 5 (wait_for_done world 5 3 (some 5) (init fresh 2 10))
unfolding init
wait_for_done-DoneOutcome_example =
    wait_for_done-DoneOutcome world 5 3 5 5 (init fresh 2 10) (λ i j h. h) (omega arith)
      (omega arith) (omega arith)

opened-IsWell : IsWell opened
opened-IsWell = run-IsWell world fresh 2 10 []

send_unformatted_loses_id_example :
    get_line 1 (run world (send (codes "SET") (bool true ∷ []) opened).1 calls).pending ≡ none
unfolding init run is_unsequenced text_eq encode_command format_fields contains
send_unformatted_loses_id_example =
    send_unformatted_loses_id world (codes "SET") (bool true ∷ []) opened type_error calls
      opened-IsWell refl (omega arith) refl
