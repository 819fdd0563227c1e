-- ===== src/Tests/Client.antt =====
-- The daemon's client at concrete inputs.
use radio_robot_lib.Prelude.{
  false, zero, suc, List, Option, ◌∷◌, ℕ, refl, Bool, true, none, some, [], arith, leb,
}
use radio_robot_lib.Prelude.Int.{pos}
use radio_robot_lib.Rogo.Json.{null, bool, Json}
use radio_robot_lib.Rogo.Protocol.{succeed, encode_reply}
use radio_robot_lib.Rogo.Client.Polling.{dispatch_wait_for_ack, dispatch_wait_for_done}
use radio_robot_lib.Rogo.Client.Ending.{
  RemoteAck, RemoteDone, dispatch_wait_for_ack-RemoteAck, dispatch_wait_for_done-RemoteDone,
}
use radio_robot_lib.Rogo.Client.Policy.{Outside}
use radio_robot_lib.Rogo.Client.Wire.{IsAnswer, call_loop, call_loop-IsAnswer}
use radio_robot_lib.RobotV6.Transport.{chunk, fresh}
use radio_robot_lib.RobotV6.Session.{World, Session, init}

-- A clock that moves by one at each reading, and a robot that says nothing.
abbrev world : World
world = record { monotonic = λ i. i; arrivals = λ i. chunk [] }

-- The abort event is set before it is looked at for the third time.
abbrev abort : ℕ → Bool
abort i = leb 2 i

abbrev session : Session
session = init fresh 4 100

dispatch_wait_for_ack-RemoteAck_example :
    RemoteAck world abort 10 7 (dispatch_wait_for_ack world abort 10 10 3 7 none session)
dispatch_wait_for_ack-RemoteAck_example =
    dispatch_wait_for_ack-RemoteAck world abort 10 10 10 7 (λ i j h. h) (λ i. omega arith)
      (omega arith) (omega arith) 2 3 none session refl (omega arith)

dispatch_wait_for_done-RemoteDone_example :
    RemoteDone world abort 10 7 (dispatch_wait_for_done world abort 10 10 3 7 none session)
dispatch_wait_for_done-RemoteDone_example =
    dispatch_wait_for_done-RemoteDone world abort 10 10 10 7 (λ i j h. h) (λ i. omega arith)
      (omega arith) (omega arith) 2 3 none session refl (omega arith)

-- The second round brings a reply to another request, the third one the reply.
abbrev lines_at : ℕ → List (Option Json)
lines_at (suc zero) = some (encode_reply (succeed (pos 8) null)) ∷ []
lines_at (suc (suc zero)) = some (encode_reply (succeed (pos 7) (bool true))) ∷ []
lines_at _ = []

call_loop-IsAnswer_example :
    IsAnswer (λ i. i) lines_at (pos 7) (call_loop (λ i. i) lines_at (pos 7) 6 0 (some 5))
call_loop-IsAnswer_example =
    call_loop-IsAnswer (λ i. i) lines_at (pos 7) 6 0 5 5 (omega arith) (omega arith) (omega arith)

-- No daemon answers.
abbrev alone : Outside
alone = record {
  answers = λ name. false;
  becomes_reachable = λ name. true;
  still_runs = λ name. true;
}
