-- ===== src/Tests/Remote.antt =====
-- The session behind a daemon, the daemon's listener and the serial port at concrete inputs.
use radio_robot_lib.Prelude.{
  ℕ, zero, suc, ◌+◌, ◌≡◌, refl, true, false, none, some, List, [], ◌∷◌, map, arith,
}
use radio_robot_lib.Prelude.Text.{codes, text_eq}
use radio_robot_lib.Prelude.Int.{pos}
use radio_robot_lib.Python.Error.{ok}
use radio_robot_lib.RobotV6.Session as Session
use radio_robot_lib.RobotV6.Session.{World, Session, init}
use radio_robot_lib.RobotV6.Session.Invariant.{init-IsWell, IsWell}
use radio_robot_lib.RobotV6.Transport.{
  Read, chunk, closed, fresh, read_lines, drain, decode, strip_cr,
}
use radio_robot_lib.Python.Split.{partition, is_blank, is_space, split}
use radio_robot_lib.Rogo.Cli.Drive.{stream_rounds}
use radio_robot_lib.Rogo.Cli.Fields.{lease_of}
use radio_robot_lib.Rogo.Cli.Silent.{Raises}
use radio_robot_lib.Rogo.Cli.Streaming.{drains_port, stream_rounds-Raises}
use radio_robot_lib.Rogo.Client.{send, send_unsequenced, pump, request_of, is_estop_request}
use radio_robot_lib.Rogo.Client.Polling.Ids.{below}
use radio_robot_lib.Rogo.Client.Remote.{
  Caller, gives, wire_timeout, wire_timeout_of, remote_call, local_call, seen,
}
use radio_robot_lib.Rogo.Client.Remote.Agreement.{remote_call-local_call}
use radio_robot_lib.RobotV6.Codec.{Reply, parse_reply, reply_of_tokens, split_id, id_token}
use radio_robot_lib.RobotV6.Motion.{estop}
use radio_robot_lib.RobotV6.Session.Sending.{write}
use radio_robot_lib.Rogo.Client.Remote.Robust.{execute_all, AreUnder, execute_all-IsWell}
use radio_robot_lib.Rogo.Protocol.{Request}
use radio_robot_lib.Rogo.Client.Remote.Panic.{estop_through}
use radio_robot_lib.Rogo.Client.Remote.Deadline.{awaited}
use radio_robot_lib.Rogo.Client.Remote.Reading.{WireReply, passed, pumped}
use radio_robot_lib.Rogo.Client.Remote.Texts.{reply_of, pump-exact}
use radio_robot_lib.Rogo.Client.Table.{Host}
use radio_robot_lib.Rogo.Json.{int, str, arr, obj, nil, cons, null, empty, entry}
use radio_robot_lib.Rogo.Listener.Connection.{Line, blank, content}
use radio_robot_lib.Rogo.Listener.Lifecycle as Lifecycle
use radio_robot_lib.Rogo.Listener.Lifecycle.{
  Machine, client, timed_out, start, stop, reached, happen_all,
}
use radio_robot_lib.Rogo.Listener.Lifecycle.Tidy.{
  Own, own_start, own_stop, own_accept, event_of, IsTidy, happen_all-IsTidy,
}
use radio_robot_lib.Rogo.Listener.Lifecycle.Rivals.{second_start-unreachable}

-- A robot whose link is lost after its first line.
abbrev arrivals : ℕ → Read
arrivals zero = chunk (codes "t 5\n")
arrivals (suc i) = closed

abbrev host : Host
host = record {
  repr = λ j. [];
  seconds = λ j. ok none;
  world = record { monotonic = λ i. i; arrivals = arrivals };
  abort = λ i. false;
  poll_time = 10;
  inner = 9;
  fuel = 9;
  is_estop = λ r. false;
  quoted = λ s. s;
  message = λ e. "";
  ceiling = λ r. below (pos 3);
}

abbrev opened : Session
opened = init fresh 4 100

-- A client that finds the reply at its third look, within its margin.
abbrev caller : Caller
caller = record {
  sent_at = 100;
  monotonic = λ i. 100 + i;
  looks = 9;
  replied_at = 2;
  margin = 30;
  plus_margin = λ j. ok 35;
}

-- `send("STOP", 1)`
remote_call-local_call_example :
    remote_call host caller (pos 1) (send "STOP" (cons (int (pos 1)) nil)) opened ≡ (
      awaited caller
          (some 30)
          (seen host (local_call host (send "STOP" (cons (int (pos 1)) nil)) opened).0),
      (local_call host (send "STOP" (cons (int (pos 1)) nil)) opened).1,
    )
unfolding wire_timeout
remote_call-local_call_example =
    remote_call-local_call host caller (pos 1) (send "STOP" (cons (int (pos 1)) nil)) (some 30)
      opened refl (omega arith)

-- A port on which bytes come at the third read, read for 20 units in steps of 5.
abbrev port : ℕ → List ℕ
port (suc (suc zero)) = codes "ack 1 0 none\n"
port _ = []

-- A port that acknowledges at every read.
stream_rounds-Raises_example : Raises (
    stream_rounds
      (record {
        monotonic = λ i. i;
        arrivals = drains_port (λ i. codes "ack 9 0 none\n") 5 4 (λ i. i);
      })
      9
      5
      (pos 100)
      (pos 100)
      (lease_of (pos 150))
      opened)
unfolding init
stream_rounds-Raises_example =
    stream_rounds-Raises (λ i. codes "ack 9 0 none\n") 5 4 (λ i. i) (λ i. i) 9 5 (pos 100) (pos 100)
      (pos 150) opened (init-IsWell fresh 4 100) (omega arith)

abbrev machine : Machine
machine = record {
  place = record { directory = none; file = none };
  listeners = λ i. Lifecycle.fresh;
}

abbrev day : List Own
day =
    own_start true ∷ own_start false ∷ own_accept (client 7) ∷ own_accept timed_out ∷ own_stop ∷ []

happen_all-IsTidy_example : IsTidy 3 none (happen_all (map (event_of 3) day) machine)
happen_all-IsTidy_example = happen_all-IsTidy 3 day machine refl refl

-- Listener 1 is started, and then listener 2.
abbrev served : Machine
served = start 1 false machine

second_start-unreachable_example :
    (reached (start 2 false served) ≡ some 2)
    × (reached (stop 2 (start 2 false served)) ≡ none)
    × ((stop 2 (start 2 false served)).listeners 1 ≡ served.listeners 1)
    × ((served.listeners 1).sock ≡ true)
unfolding start reached
second_start-unreachable_example = second_start-unreachable 1 2 served (omega arith) refl refl

estop_through_example :
    (is_estop_request (request_of (pos 2) (send_unsequenced "ESTOP" nil)) ≡ some true)
    × (remote_call host caller (pos 2) (send_unsequenced "ESTOP" nil) opened ≡ (
      awaited caller (some 30) (some (gives (passed null))),
      record opened { transport = write (codes "ESTOP") opened.transport },
    ))
    × ((estop opened).1 ≡ record opened { transport = write (codes "ESTOP") opened.transport })
estop_through_example = estop_through host caller (pos 2) opened (omega arith)

-- The session after its first read, which brings one reply.
abbrev heard : List Reply × Session
heard = (
  record { verb = codes "t"; fields = codes "5" ∷ []; id = none } ∷ [],
  (Session.pump host.world opened).1,
)

heard_values : Session.pump host.world opened ≡ (ok heard.0, heard.1)
unfolding Session.pump Session.receive Session.on_transport read_lines drain partition decode
    strip_cr Session.pump_lines is_blank is_space parse_reply reply_of_tokens split split_id
    id_token Session.handle_reply text_eq init
heard_values = refl

pump-exact_example :
    (ws : List WireReply) × (remote_call host caller (pos 3) (pump null) opened
      ≡ (awaited caller none (some (gives (pumped ws))), heard.1))
    × (map reply_of ws ≡ map some heard.0)
unfolding wire_timeout wire_timeout_of
pump-exact_example =
    pump-exact host caller (pos 3) null none opened heard.1 heard.0 heard_values refl (omega arith)

-- A request with no `wire_verb`, one of an unknown verb, a wait for a text, and one that is fine.
abbrev requests : List (Host × Request)
requests =
    (host, record { id = pos 1; verb = "session_send"; params = empty })
    ∷ (host, record { id = pos 2; verb = "open"; params = empty })
    ∷ (
      host,
      record { id = pos 4; verb = "session_wait_for_ack"; params = entry "seq_id" (str "x") empty },
    )
    ∷ (host, request_of (pos 3) (send "STOP" nil))
    ∷ []

execute_all-IsWell_example :
    IsWell (execute_all requests (init fresh 4 100)).1
    × AreUnder requests (execute_all requests (init fresh 4 100)).0
unfolding execute_all
execute_all-IsWell_example = execute_all-IsWell requests fresh 4 100

-- A request for an unknown verb, lines that are no requests, a list as the wire verb, and one more
-- request, which is not answered.
abbrev connection : List Line
connection =
    content (some (obj (entry "verb" (str "open") (entry "id" (int (pos 5)) empty)))) true
    ∷ blank
    ∷ content none true
    ∷ content
        (some (
          obj (
            entry "verb" (str "session_send") (
              entry "id" (int (pos 6))
                (entry "params" (obj (entry "wire_verb" (arr nil) empty)) empty)))))
        true
    ∷ content (some (obj (entry "verb" (str "open") (entry "id" (int (pos 7)) empty)))) true
    ∷ []
