-- ===== src/Rogo/Client/Remote/Panic.antt =====
-- An emergency stop through a daemon of src/host/rogo/daemon_client.py.
use radio_robot_lib.Prelude.{◌≡◌, ◌<◌, refl, true, some, ◌∙◌}
use radio_robot_lib.Prelude.Text.{codes}
use radio_robot_lib.Prelude.Int.{ℤ}
use radio_robot_lib.RobotV6.Motion.{estop}
use radio_robot_lib.RobotV6.Motion.Wire.{estop_always}
use radio_robot_lib.RobotV6.Session.Sending.{write}
use radio_robot_lib.RobotV6.Session.{Session}
use radio_robot_lib.Rogo.Client.{send_unsequenced, request_of, is_estop_request}
use radio_robot_lib.Rogo.Client.Calls.{is_estop_request-request_of, is_panic}
use radio_robot_lib.Rogo.Client.Remote.{Caller, gives, wire_timeout, remote_call, local_call, seen}
use radio_robot_lib.Rogo.Client.Remote.Agreement.{remote_call-local_call}
use radio_robot_lib.Rogo.Client.Remote.Deadline.{awaited}
use radio_robot_lib.Rogo.Client.Remote.Reading.{passed}
use radio_robot_lib.Rogo.Client.Table.{Host}
use radio_robot_lib.Rogo.Client.Values.{elements}
use radio_robot_lib.Rogo.Json.{null, nil}

-- An emergency stop that a client sends is taken by the daemon for one of the estop class, and, once
-- it is dispatched, it is written to the wire whatever the state of the session, a full buffer or an
-- open gap included, also where the client waits no more, and changes nothing else. The call returns
-- if its reply is found within the client's margin, where enough looks are followed. What is written
-- is what `estop` writes.
pub estop_through :
    (h : Host) (k : Caller) (request_id : ℤ) (s : Session)
    → k.replied_at < k.looks
    → (is_estop_request (request_of request_id (send_unsequenced "ESTOP" nil)) ≡ some true)
      × (remote_call h k request_id (send_unsequenced "ESTOP" nil) s ≡ (
        awaited k (some k.margin) (some (gives (passed null))),
        record s { transport = write (codes "ESTOP") s.transport },
      ))
      × ((estop s).1 ≡ record s { transport = write (codes "ESTOP") s.transport })
unfolding local_call seen is_panic estop elements wire_timeout
estop_through h k request_id s enough = (
  (is_estop_request-request_of request_id (send_unsequenced "ESTOP" nil)).1,
  remote_call-local_call h k request_id (send_unsequenced "ESTOP" nil) (some k.margin) s refl enough
      ∙ rw (estop_always s) refl,
  rw (estop_always s) refl,
)
