-- ===== src/RobotV6/Link.antt =====
-- The session of src/host/robot_v6/reliability.py against the receiver of the sequenced commands in
-- src/protocol/protocol_handler.cpp, over a link that may lose, repeat, delay and reorder lines. The
-- log holds every line that the session has numbered, and any of them may arrive at any time. What
-- the robot answers is not tied to this: the session reads what it may.
pub mod Prefix
pub mod Hello
use radio_robot_lib.Prelude.{
  ℕ, zero, suc, ◌+◌, ◌-◌, Bool, true, false, Option, none, some, List, [], ◌∷◌, ◌++◌, leb, ltb,
  if◌then◌else◌,
}
use radio_robot_lib.Prelude.Text.{Text}
use radio_robot_lib.RobotV6.Codec.{Field}
use radio_robot_lib.RobotV6.Session.{World, Session, init}
use radio_robot_lib.RobotV6.Session.Pending.{Outbox}
use radio_robot_lib.RobotV6.Session.History
use radio_robot_lib.RobotV6.Session.History.{Call, step}
use radio_robot_lib.RobotV6.Transport.{fresh}

-- `expectedNext_`, and the commands that were handed to the adapter, oldest first.
pub record Robot : Type 0 where
  pub expected : ℕ
  pub executed : Outbox

-- `replyAck` and `replyNack`, with their id
pub data Answer : Type 0 where
  ack nack : ℕ → Answer

-- `decodes`: the verb is known and its fields parse.
unfoldable pub accept : ℕ → Text → Bool → Robot → Robot × Answer
accept id line true r =
    (record { expected = suc id; executed = r.executed ++ (id, line) ∷ [] }, ack id)
accept id line false r = (r, nack r.expected)

-- `dispatch`, from where the id is known.
unfoldable pub receive : ℕ → Text → Bool → Robot → Robot × Answer
unfolding accept
receive id line decodes r =
    if ltb id r.expected
    then (r, ack (r.expected - 1))
    else if ltb r.expected id
    then (r, nack r.expected)
    else accept id line decodes r

-- `handleHello`
unfoldable pub receive_hello : Robot → Robot
receive_hello r = record r { expected = 1 }

pub record System : Type 0 where
  pub host : Session
  pub log : Outbox
  pub robot : Robot

-- What the client calls, and which line of the log arrives. The waits are calls of these.
pub data Event : Type 0 where
  sends : Text → List Field → Event
  pumps polls : Event
  delivers : ℕ → Bool → Event

abbrev pub get_elem? : {A : Type 0} → List A → ℕ → Option A
get_elem? [] n = none
get_elem? (x ∷ xs) zero = some x
get_elem? (x ∷ xs) (suc n) = get_elem? xs n

-- The lines with an id from `lo` on.
unfoldable pub numbered_from : ℕ → Outbox → Outbox
numbered_from lo [] = []
numbered_from lo ((i, line) ∷ p) =
    let rest = numbered_from lo p in if leb lo i then (i, line) ∷ rest else rest

-- The lines that a call has numbered come to the log.
unfoldable pub call : World → System → Call → System
unfolding numbered_from
call w sys c =
    let host = step w sys.host c in
    record sys { host = host; log = sys.log ++ numbered_from sys.host.next_id host.pending }

unfoldable pub arrive : System → Option (ℕ × Text) → Bool → System
arrive sys none decodes = sys
arrive sys (some (id, line)) decodes = record sys { robot = (receive id line decodes sys.robot).0 }

unfoldable pub happen : World → System → Event → System
unfolding call arrive
happen w sys (sends verb fields) = call w sys (History.sends verb fields)
happen w sys pumps = call w sys History.pumps
happen w sys polls = call w sys History.polls
happen w sys (delivers n decodes) = arrive sys (get_elem? sys.log n) decodes

unfoldable pub happen_all : World → System → List Event → System
unfolding happen
happen_all w sys [] = sys
happen_all w sys (e ∷ events) = happen_all w (happen w sys e) events

-- A new session and a robot that has just answered `HELLO`.
unfoldable pub connected : ℕ → ℕ → System
unfolding init
connected max_pending resend_cooldown = record {
  host = init fresh max_pending resend_cooldown;
  log = [];
  robot = record { expected = 1; executed = [] };
}
