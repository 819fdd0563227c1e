-- ===== src/Rogo/Client/Remote.antt =====
-- `_RemoteSession` of src/host/rogo/daemon_client.py against a daemon: a call is encoded, decoded,
-- dispatched on the daemon's `Session` and answered, and the reply is decoded and read. Beside it
-- stands the same call made on the `Session` itself.
pub mod Reading
pub mod Answers
pub mod Deadline
pub mod Agreement
pub mod Texts
pub mod Panic
pub mod Robust
use radio_robot_lib.Prelude.{
  Bool, ℕ, ◌+◌, ◌==◌, Option, none, some, List, [], ◌∷◌, map, String, if◌then◌else◌,
}
use radio_robot_lib.Prelude.Text.{Text, codes}
use radio_robot_lib.Prelude.Chars.{string_of}
use radio_robot_lib.Prelude.Int.{ℤ, pos, negsuc}
use radio_robot_lib.Python.Error.{
  Error, Result, ok, err, value_error, type_error, pending_buffer_full,
}
use radio_robot_lib.Python.Exec.{Exec, pure, lift, ◌>>=◌, ◌>>◌}
use radio_robot_lib.RobotV6.Codec as Codec
use radio_robot_lib.RobotV6.Session.{Session}
use radio_robot_lib.RobotV6.Session as Session
use radio_robot_lib.RobotV6.Session.Waiting.{DoneEvent}
use radio_robot_lib.Rogo.Client.{
  RemoteCall, send, send_unsequenced, pump, highest_acked, wait_for_ack, wait_for_done, request_of,
}
use radio_robot_lib.Rogo.Client.Polling.{dispatch_wait_for_ack, dispatch_wait_for_done}
use radio_robot_lib.Rogo.Client.Polling.Ids.{
  below, dispatch_wait_for_ack_to, dispatch_wait_for_done_to,
}
use radio_robot_lib.Rogo.Client.Table.{Host, field_of, execute_request}
use radio_robot_lib.Rogo.Client.Values.{elements, id_value}
use radio_robot_lib.Rogo.Client.Wire.{Answer, value, raised, malformed, call_loop}
use radio_robot_lib.Rogo.Json.{Json, null, bool, int, str}
use radio_robot_lib.Rogo.Protocol.{
  Request, Reply, Decoded, refused, decoded, encode_request, decode_request, encode_reply,
}
use Reading.{WireReply, WireEvent, Returned, passed, pumped, finished, returned_by}

-- How a method of `_RemoteSession` ends: with a value, by what `_DaemonWireClient.call` raises, or on
-- a result of another shape.
pub data Ended : Type 0 where
  gives : Returned → Ended
  fails : Answer → Ended
  breaks : Error → Ended

unfoldable pub read_result : Result Returned → Ended
read_result (err e) = breaks e
read_result (ok r) = gives r

unfoldable pub read_answer : RemoteCall → Answer → Ended
unfolding read_result
read_answer call (value result) = read_result (returned_by call result)
read_answer call answer = fails answer

unfoldable pub read_reply_line : RemoteCall → Option Answer → Option Ended
unfolding read_answer
read_reply_line call none = none
read_reply_line call (some answer) = some (read_answer call answer)

-- A line that is no request gets no reply. The listener answers only the liveness probe itself,
-- which no `RemoteCall` is, and the classifier takes every `RemoteCall`.
unfoldable pub serve_decoded : Host → Decoded Request → Session → Option Reply × Session
serve_decoded h (refused e) s = (none, s)
serve_decoded h (decoded request) s = execute_request h request s

-- The client of the daemon, in units of its own clock: the reading that a call
-- makes its deadline from, the readings at the looks of its loop, how many looks are followed, the
-- look that finds the reply, `_RPC_MARGIN_S`, and `timeout + _RPC_MARGIN_S`.
pub record Caller : Type 0 where
  pub sent_at : ℕ
  pub monotonic : ℕ → ℕ
  pub looks : ℕ
  pub replied_at : ℕ
  pub margin : ℕ
  pub plus_margin : Json → Result ℕ

unfoldable pub allowance_of : Result ℕ → Result (Option ℕ)
allowance_of (err e) = err e
allowance_of (ok allowance) = ok (some allowance)

-- `None if timeout is None else timeout + _RPC_MARGIN_S`
unfoldable pub wire_timeout_of : Caller → Json → Result (Option ℕ)
unfolding allowance_of
wire_timeout_of k null = ok none
wire_timeout_of k timeout = allowance_of (k.plus_margin timeout)

-- The timeout that each method of `_RemoteSession` passes.
unfoldable pub wire_timeout : Caller → RemoteCall → Result (Option ℕ)
unfolding wire_timeout_of
wire_timeout k (send verb fields) = ok (some k.margin)
wire_timeout k (send_unsequenced verb fields) = ok (some k.margin)
wire_timeout k (pump timeout) = wire_timeout_of k timeout
wire_timeout k highest_acked = ok (some k.margin)
wire_timeout k (wait_for_ack id timeout) = wire_timeout_of k timeout
wire_timeout k (wait_for_done id timeout) = wire_timeout_of k timeout

-- The lines that a look finds.
unfoldable pub reply_lines : Caller → Option Reply → ℕ → List (Option Json)
reply_lines k none i = []
reply_lines k (some reply) i = if i == k.replied_at then some (encode_reply reply) ∷ [] else []

unfoldable pub wire_deadline : Caller → Option ℕ → Option ℕ
wire_deadline k none = none
wire_deadline k (some timeout) = some (k.sent_at + timeout)

-- `_DaemonWireClient.call`, and what the method makes of its result. The daemon dispatches the
-- request whether the client still waits or not.
unfoldable pub call_within :
    Host → Caller → ℤ → RemoteCall → Result (Option ℕ) → Session → Option Ended × Session
unfolding serve_decoded reply_lines wire_deadline read_reply_line
call_within h k request_id call (err e) s = (some (breaks e), s)
call_within h k request_id call (ok timeout) s =
    let (reply, t) =
      serve_decoded h (decode_request (encode_request (request_of request_id call))) s in
    (
      read_reply_line call (
          call_loop k.monotonic (reply_lines k reply) request_id k.looks 0
            (wire_deadline k timeout)),
      t,
    )

-- A method of `_RemoteSession` under the id that `call` drew; `none` is a call without an end in
-- `looks` looks.
unfoldable pub remote_call : Host → Caller → ℤ → RemoteCall → Session → Option Ended × Session
unfolding wire_timeout call_within
remote_call h k request_id call s = call_within h k request_id call (wire_timeout k call) s

unfoldable pub wire_reply : Codec.Reply → WireReply
wire_reply r = record {
  verb = str (string_of r.verb);
  fields = map (λ t. str (string_of t)) r.fields;
  id = id_value r.id;
}

unfoldable pub wire_event : Option DoneEvent → Option WireEvent
wire_event none = none
wire_event (some done) =
    some (record { id = int (pos done.id); reason = str (string_of done.reason) })

unfoldable pub acked_of : Option Bool → Option Returned
acked_of none = none
acked_of (some acked) = some (passed (bool acked))

unfoldable pub done_of : Option (Option DoneEvent) → Option Returned
unfolding wire_event
done_of none = none
done_of (some done) = some (finished (wire_event done))

unfoldable pub reason_of : ℤ → Option (Option Text) → Option Returned
reason_of id none = none
reason_of id (some none) = some (finished none)
reason_of id (some (some reason)) =
    some (finished (some (record { id = int id; reason = str (string_of reason) })))

-- The class under which an exception of the `Session` reaches the caller.
unfoldable pub rethrown : Error → String
rethrown value_error = "ValueError"
rethrown type_error = "TypeError"
rethrown pending_buffer_full = "PendingBufferFull"
rethrown _ = "RuntimeError"

module _ (h : Host) where
  -- The same call without a daemon. The waits are those that the daemon's loops make, for which see
  -- `Ending`.
  unfoldable pub local_call : RemoteCall → Exec Session (Option Returned)
  unfolding acked_of done_of reason_of
  local_call (send verb fields) = do
    id ← Session.send (codes verb) (map (field_of h) (elements fields))
    pure (some (passed (int (pos id))))
  local_call (send_unsequenced verb fields) = do
    Session.send_unsequenced (codes verb) (map (field_of h) (elements fields))
    pure (some (passed null))
  local_call (pump timeout) = do
    replies ← Session.pump h.world
    pure (some (pumped (map wire_reply replies)))
  local_call highest_acked = λ s. (ok (some (passed (int (pos s.highest_acked)))), s)
  local_call (wait_for_ack (pos n) timeout) = do
    limit ← lift (h.seconds timeout)
    answer ← dispatch_wait_for_ack h.world h.abort h.poll_time h.inner h.fuel n limit
    pure (acked_of answer)
  local_call (wait_for_ack (negsuc n) timeout) = do
    limit ← lift (h.seconds timeout)
    answer ←
        dispatch_wait_for_ack_to h.world h.abort h.poll_time h.inner h.fuel
          (some (below (negsuc n))) limit
    pure (acked_of answer)
  local_call (wait_for_done (pos n) timeout) = do
    limit ← lift (h.seconds timeout)
    answer ← dispatch_wait_for_done h.world h.abort h.poll_time h.inner h.fuel n limit
    pure (done_of answer)
  local_call (wait_for_done (negsuc n) timeout) = do
    limit ← lift (h.seconds timeout)
    answer ←
        dispatch_wait_for_done_to h.world h.abort h.poll_time h.inner h.fuel
          (some (below (negsuc n))) limit
    pure (reason_of (negsuc n) answer)

  unfoldable pub seen : Result (Option Returned) → Option Ended
  unfolding rethrown
  seen (err e) = some (fails (raised (rethrown e) (h.message e)))
  seen (ok none) = none
  seen (ok (some r)) = some (gives r)
