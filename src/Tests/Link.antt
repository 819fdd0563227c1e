-- ===== src/Tests/Link.antt =====
-- The session and the robot over a link, at concrete inputs.
use radio_robot_lib.Prelude.{List, ◌≡◌, true, [], ◌∷◌, arith}
use radio_robot_lib.Prelude.Text.{codes}
use radio_robot_lib.RobotV6.Transport.{chunk, fresh}
use radio_robot_lib.RobotV6.Session.{World, Session, init}
use radio_robot_lib.RobotV6.Session.Invariant.{IsWell}
use radio_robot_lib.RobotV6.Link.{
  Robot, Event, sends, pumps, delivers, happen_all, connected, receive_hello,
}
use radio_robot_lib.RobotV6.Link.Prefix.{IsQueue, happen_all-IsQueue}
use radio_robot_lib.RobotV6.Link.Hello.{hello_stalls}

abbrev world : World
world = record { monotonic = λ i. i; arrivals = λ i. chunk [] }

-- Two commands; the second one arrives first, and the first one twice.
abbrev events : List Event
events =
    sends (codes "STOP") []
    ∷ sends (codes "STATUS") []
    ∷ delivers 1 true
    ∷ delivers 0 true
    ∷ delivers 0 true
    ∷ pumps
    ∷ []

happen_all-IsQueue_example : IsQueue (happen_all world (connected 4 100) events)
happen_all-IsQueue_example = happen_all-IsQueue world 4 100 events

-- One command is sent and acknowledged.
abbrev used : Session
used = record (init fresh 4 100) { next_id = 2; highest_acked = 1 }

used-IsWell : IsWell used
unfolding init
used-IsWell = record { ascending = omega arith; bounded = omega arith; numbered = tt }

abbrev robot : Robot
robot = record { expected = 2; executed = (1, codes "STOP #1") ∷ [] }

hello_stalls_example :
    (happen_all world (record { host = used; log = []; robot = receive_hello robot }) events).robot
    ≡ receive_hello robot
unfolding init
hello_stalls_example = hello_stalls world used robot events used-IsWell (omega arith)
