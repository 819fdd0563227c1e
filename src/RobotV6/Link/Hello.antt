-- ===== src/RobotV6/Link/Hello.antt =====
-- What a `HELLO` in the middle of a session leads to: the robot counts from 1 again, and the session
-- of src/host/robot_v6/reliability.py does not.
use radio_robot_lib.Prelude.{
  ℕ, zero, suc, ◌≤◌, ◌≡◌, refl, Bool, Option, none, some, List, [], ◌∷◌, lt→ltb, arith,
}
use radio_robot_lib.Prelude.Text.{Text}
use radio_robot_lib.RobotV6.Session.{World, Session}
use radio_robot_lib.RobotV6.Session.Pending.Order.{Ascends}
use radio_robot_lib.RobotV6.Session.History
use radio_robot_lib.RobotV6.Session.History.{Call, step, step-Keeps}
use radio_robot_lib.RobotV6.Session.Invariant.{IsWell, IsWell-stable}
use radio_robot_lib.RobotV6.Session.Progress.{Advances-stable, Advances-refl}
use radio_robot_lib.RobotV6.Link.{
  Robot, receive, receive_hello, System, Event, sends, pumps, polls, delivers, get_elem?, call,
  arrive, happen, happen_all,
}
use radio_robot_lib.RobotV6.Link.Prefix.{numbered_from-Ascends, Ascends-join, entry_above}

-- The robot waits for 1, and every line that can arrive has a later id.
record IsStalled (r : Robot) (sys : System) : Type 0 where
  late : Ascends 2 sys.log sys.host.next_id
  well : IsWell sys.host
  waits : sys.robot ≡ receive_hello r

call-IsStalled :
    (r : Robot) (w : World) (sys : System) (c : Call) → IsStalled r sys → IsStalled r (call w sys c)
unfolding call
call-IsStalled r w sys c h =
    let host = step w sys.host c in
    let well = step-Keeps IsWell-stable w sys.host c h.well in
    let grown = (step-Keeps (Advances-stable sys.host) w sys.host c (Advances-refl sys.host)).ids in
    record {
      late =
          Ascends-join 2 sys.log sys.host.next_id _ host.next_id h.late (
            numbered_from-Ascends sys.host.next_id 1 host.pending host.next_id grown
              well.ascending);
      well = well;
      waits = h.waits;
    }

-- A later id is nacked.
receive_late :
    (r : Robot) (id : ℕ) (line : Text) (decodes : Bool)
    → 2 ≤ id
    → (receive id line decodes (receive_hello r)).0 ≡ receive_hello r
unfolding receive receive_hello
receive_late r zero line decodes late = absurd (omega arith)
receive_late r (suc zero) line decodes late = absurd (omega arith)
receive_late r (suc (suc id)) line decodes late =
    rw (lt→ltb 1 (suc (suc id)) (omega arith)) (ground arith)

arrive-IsStalled :
    (r : Robot) (sys : System) (n : ℕ) (o : Option (ℕ × Text)) (decodes : Bool)
    → IsStalled r sys
    → get_elem? sys.log n ≡ o
    → IsStalled r (arrive sys o decodes)
unfolding arrive
arrive-IsStalled r sys n none decodes h e = h
arrive-IsStalled r sys n (some (id, line)) decodes h e = record {
  late = h.late;
  well = h.well;
  waits =
      rw (h.waits) (
        receive_late r id line decodes (entry_above 2 sys.log sys.host.next_id n id line h.late e));
}

stalls :
    (r : Robot) (w : World) (events : List Event) (sys : System)
    → IsStalled r sys
    → (happen_all w sys events).robot ≡ receive_hello r
unfolding happen_all happen
stalls r w [] sys h = h.waits
stalls r w (sends verb fields ∷ events) sys h =
    stalls r w events _ (call-IsStalled r w sys (History.sends verb fields) h)
stalls r w (pumps ∷ events) sys h = stalls r w events _ (call-IsStalled r w sys History.pumps h)
stalls r w (polls ∷ events) sys h = stalls r w events _ (call-IsStalled r w sys History.polls h)
stalls r w (delivers n decodes ∷ events) sys h =
    stalls r w events _ (arrive-IsStalled r sys n _ decodes h refl)

-- If a `HELLO` reaches the robot when the session has given out its first id and that one is
-- acknowledged, so that the buffered ids start from 2, the robot never executes any of the numbered
-- lines that the session sends or sends again afterwards, whatever numbered commands are sent, and
-- however often the session pumps and polls, whichever of these lines arrive and in whatever order,
-- as long as no further `HELLO` arrives: it goes on waiting for the id 1.
pub hello_stalls :
    (w : World) (s : Session) (r : Robot) (events : List Event)
    → IsWell s
    → Ascends 2 s.pending s.next_id
    → (happen_all w (record { host = s; log = s.pending; robot = receive_hello r }) events).robot
      ≡ receive_hello r
hello_stalls w s r events well late =
    stalls r w events _ (record { late = late; well = well; waits = refl })
