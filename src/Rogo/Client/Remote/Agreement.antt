-- ===== src/Rogo/Client/Remote/Agreement.antt =====
-- A session behind a daemon of src/host/rogo/daemon_client.py and the session itself.
use radio_robot_lib.Prelude.{ℕ, ◌≡◌, refl, ap, ◌<◌, Bool, Option, none, some, List, map, ◌∙◌}
use radio_robot_lib.Prelude.Text.{Text, codes}
use radio_robot_lib.Prelude.Int.{ℤ, pos, negsuc}
use radio_robot_lib.Python.Error.{ok}
use radio_robot_lib.Python.Exec.{pure, ◌>>=◌}
use radio_robot_lib.RobotV6.Codec.{Reply}
use radio_robot_lib.RobotV6.Session as Session
use radio_robot_lib.RobotV6.Session.{Session}
use radio_robot_lib.RobotV6.Session.Waiting.{DoneEvent}
use radio_robot_lib.Rogo.Client.{
  RemoteCall, send, send_unsequenced, pump, highest_acked, wait_for_ack, wait_for_done, verb_of,
  params_of,
}
use radio_robot_lib.Rogo.Client.Polling.{dispatch_wait_for_ack, dispatch_wait_for_done}
use radio_robot_lib.Rogo.Client.Polling.Ids.{
  below, limit_of, dispatch_wait_for_ack_to, dispatch_wait_for_done_to,
}
use radio_robot_lib.Rogo.Client.Remote.{
  Caller, Ended, read_result, wire_timeout, remote_call, wire_reply, wire_event, acked_of, done_of,
  reason_of, local_call, seen,
}
use radio_robot_lib.Rogo.Client.Remote.Reading.{passed, pumped, returned_by, read_event}
use radio_robot_lib.Rogo.Client.Table.{
  Host, field_of, session_dispatch_table, ack_to_json, done_to_json, reason_to_json, send_value,
  send_unsequenced_value, dispatch_session_send, dispatch_session_send_unsequenced,
  dispatch_session_pump, dispatch_session_highest_acked, dispatch_session_wait_for_ack,
  dispatch_session_wait_for_done, wait_for_ack_id, wait_for_done_id,
}
use radio_robot_lib.Rogo.Client.Values.{
  elements, replies_to_json, event_to_json, unpacked, required,
}
use radio_robot_lib.Rogo.Json.{Json, null, int, arr, get, get_or}
use radio_robot_lib.Rogo.Client.Remote.Answers.{
  prompt_call, handed_back, Agree, bind-Agree, lift-Agree, prompt_call-handler,
  read_replies-elements,
}
use radio_robot_lib.Rogo.Client.Remote.Deadline.{awaited, remote_call-prompt_call}

module _ (h : Host) where
  read_done :
      (id : ℕ) (timeout : Json) (o : Option (Option DoneEvent))
      → handed_back h (wait_for_done (pos id) timeout) (ok (done_to_json o))
        ≡ seen h (ok (done_of o))
  unfolding done_to_json done_of seen returned_by read_result read_event event_to_json wire_event
      required get
  read_done id timeout none = refl
  read_done id timeout (some none) = refl
  read_done id timeout (some (some done)) = refl

  read_ack :
      (id : ℤ) (timeout : Json) (o : Option Bool)
      → handed_back h (wait_for_ack id timeout) (ok (ack_to_json o)) ≡ seen h (ok (acked_of o))
  unfolding ack_to_json acked_of seen returned_by read_result
  read_ack id timeout none = refl
  read_ack id timeout (some acked) = refl

  read_reason :
      (n : ℕ) (timeout : Json) (o : Option (Option Text))
      → handed_back h (wait_for_done (negsuc n) timeout) (ok (reason_to_json (int (negsuc n)) o))
        ≡ seen h (ok (reason_of (negsuc n) o))
  unfolding reason_to_json reason_of seen returned_by read_result read_event required get
  read_reason n timeout none = refl
  read_reason n timeout (some none) = refl
  read_reason n timeout (some (some reason)) = refl

  read_pump :
      (timeout : Json) (rs : List Reply)
      → handed_back h (pump timeout) (ok (some (arr (replies_to_json rs))))
        ≡ seen h (ok (some (pumped (map wire_reply rs))))
  unfolding seen returned_by read_result unpacked
  read_pump timeout rs = rw (read_replies-elements rs) refl

  ack-Agree :
      (n : ℕ) (timeout : Json) (limit : Option ℕ) (s : Session)
      → Agree h (wait_for_ack (pos n) timeout) (wait_for_ack_id h (int (pos n)) limit s) (
          (do
            answer ← dispatch_wait_for_ack h.world h.abort h.poll_time h.inner h.fuel n limit
            pure (acked_of answer))
            s)
  unfolding wait_for_ack_id
  ack-Agree n timeout limit s =
      bind-Agree h (wait_for_ack (pos n) timeout)
        (dispatch_wait_for_ack h.world h.abort h.poll_time h.inner h.fuel n limit s) (ack_to_json)
        (acked_of) (read_ack (pos n) timeout)

  done-Agree :
      (n : ℕ) (timeout : Json) (limit : Option ℕ) (s : Session)
      → Agree h (wait_for_done (pos n) timeout) (wait_for_done_id h (int (pos n)) limit s) (
          (do
            answer ← dispatch_wait_for_done h.world h.abort h.poll_time h.inner h.fuel n limit
            pure (done_of answer))
            s)
  unfolding wait_for_done_id
  done-Agree n timeout limit s =
      bind-Agree h (wait_for_done (pos n) timeout)
        (dispatch_wait_for_done h.world h.abort h.poll_time h.inner h.fuel n limit s) (done_to_json)
        (done_of) (read_done n timeout)

  -- If the client waited for the reply however long it takes.
  prompt_call-local_call :
      (request_id : ℤ) (call : RemoteCall) (s : Session)
      → prompt_call h request_id call s ≡ (seen h (local_call h call s).0, (local_call h call s).1)
  unfolding local_call verb_of params_of session_dispatch_table dispatch_session_send get get_or
      required unpacked send_value send_unsequenced_value dispatch_session_send_unsequenced
      dispatch_session_pump dispatch_session_highest_acked dispatch_session_wait_for_ack
      dispatch_session_wait_for_done wait_for_ack_id wait_for_done_id limit_of seen returned_by
      read_result
  prompt_call-local_call id (send verb fields) s =
      prompt_call-handler h (send verb fields) id (dispatch_session_send h) s refl
      ∙ bind-Agree h (send verb fields)
          (Session.send (codes verb) (map (field_of h) (elements fields)) s)
          (λ n. some (int (pos n))) (λ n. some (passed (int (pos n)))) (λ n. refl)
  prompt_call-local_call id (send_unsequenced verb fields) s =
      prompt_call-handler h (send_unsequenced verb fields) id (dispatch_session_send_unsequenced h)
        s refl
      ∙ bind-Agree h (send_unsequenced verb fields)
          (Session.send_unsequenced (codes verb) (map (field_of h) (elements fields)) s)
          (λ u. some null) (λ u. some (passed null)) (λ u. refl)
  prompt_call-local_call id (pump timeout) s =
      prompt_call-handler h (pump timeout) id (dispatch_session_pump h) s refl
      ∙ bind-Agree h (pump timeout) (Session.pump h.world s) (λ rs. some (arr (replies_to_json rs)))
          (λ rs. some (pumped (map wire_reply rs))) (read_pump timeout)
  prompt_call-local_call id highest_acked s =
      prompt_call-handler h highest_acked id (dispatch_session_highest_acked h) s refl
  prompt_call-local_call id (wait_for_ack (pos n) timeout) s =
      prompt_call-handler h (wait_for_ack (pos n) timeout) id (dispatch_session_wait_for_ack h) s
        refl
      ∙ lift-Agree h (wait_for_ack (pos n) timeout) (h.seconds timeout)
          (wait_for_ack_id h (int (pos n)))
          (λ limit. do
            answer ← dispatch_wait_for_ack h.world h.abort h.poll_time h.inner h.fuel n limit
            pure (acked_of answer))
          s (λ limit. ack-Agree n timeout limit s)
  prompt_call-local_call id (wait_for_ack (negsuc n) timeout) s =
      prompt_call-handler h (wait_for_ack (negsuc n) timeout) id (dispatch_session_wait_for_ack h) s
        refl
      ∙ lift-Agree h (wait_for_ack (negsuc n) timeout) (h.seconds timeout)
          (wait_for_ack_id h (int (negsuc n)))
          (λ limit. do
            answer ←
                dispatch_wait_for_ack_to h.world h.abort h.poll_time h.inner h.fuel
                  (some (below (negsuc n))) limit
            pure (acked_of answer))
          s
          (λ limit.
            bind-Agree h (wait_for_ack (negsuc n) timeout)
              (dispatch_wait_for_ack_to h.world h.abort h.poll_time h.inner h.fuel
                (some (below (negsuc n))) limit s)
              (ack_to_json) (acked_of) (read_ack (negsuc n) timeout))
  prompt_call-local_call id (wait_for_done (pos n) timeout) s =
      prompt_call-handler h (wait_for_done (pos n) timeout) id (dispatch_session_wait_for_done h) s
        refl
      ∙ lift-Agree h (wait_for_done (pos n) timeout) (h.seconds timeout)
          (wait_for_done_id h (int (pos n)))
          (λ limit. do
            answer ← dispatch_wait_for_done h.world h.abort h.poll_time h.inner h.fuel n limit
            pure (done_of answer))
          s (λ limit. done-Agree n timeout limit s)
  prompt_call-local_call id (wait_for_done (negsuc n) timeout) s =
      prompt_call-handler h (wait_for_done (negsuc n) timeout) id (dispatch_session_wait_for_done h)
        s refl
      ∙ lift-Agree h (wait_for_done (negsuc n) timeout) (h.seconds timeout)
          (wait_for_done_id h (int (negsuc n)))
          (λ limit. do
            answer ←
                dispatch_wait_for_done_to h.world h.abort h.poll_time h.inner h.fuel
                  (some (below (negsuc n))) limit
            pure (reason_of (negsuc n) answer))
          s
          (λ limit.
            bind-Agree h (wait_for_done (negsuc n) timeout)
              (dispatch_wait_for_done_to h.world h.abort h.poll_time h.inner h.fuel
                (some (below (negsuc n))) limit s)
              (reason_to_json (int (negsuc n))) (reason_of (negsuc n)) (read_reason n timeout))

  -- Any call through a daemon, its waits being made in the daemon's polls, leaves the `Session` as
  -- the same call on the session itself would, also where the client no longer waits. If none of the
  -- looks up to the one that finds the reply comes after the call's deadline, the call ends as it
  -- would on the session: with the same value, or by an exception that is the same for `ValueError`,
  -- `TypeError` and `PendingBufferFull` and a `RuntimeError` for every other one. Else, and where the
  -- call on the session has no end, it ends by `DaemonUnavailableError` once a look comes after the
  -- deadline. The conditions are that the client can add its margin to the timeout, and that as many
  -- looks are followed as the reply needs.
  pub remote_call-local_call :
      (k : Caller) (request_id : ℤ) (call : RemoteCall) (timeout : Option ℕ) (s : Session)
      → wire_timeout k call ≡ ok timeout
      → k.replied_at < k.looks
      → remote_call h k request_id call s
        ≡ (awaited k timeout (seen h (local_call h call s).0), (local_call h call s).1)
  remote_call-local_call k request_id call timeout s allowed enough =
      remote_call-prompt_call k request_id call timeout h s allowed enough
      ∙ ap (λ (r : Option Ended × Session). (awaited k timeout r.0, r.1))
          (prompt_call-local_call request_id call s)
