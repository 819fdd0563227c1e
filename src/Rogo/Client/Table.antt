-- ===== src/Rogo/Client/Table.antt =====
-- The dispatch table of `build_session_dispatch_table` in src/host/rogo/daemon_client.py, and
-- `DaemonServer._execute` of src/host/rogo/daemon.py on it: the calls of the real `Session` that the
-- requests of remote clients come to.
pub mod Kept
use radio_robot_lib.Prelude.{
  ℕ, Bool, true, false, ◌||◌, Option, none, some, List, map, String, leb, length, if◌then◌else◌,
}
use radio_robot_lib.Prelude.Text.{Text, codes}
use radio_robot_lib.Prelude.Chars.{string_of}
use radio_robot_lib.Prelude.Int.{pos}
use radio_robot_lib.Python.Error.{
  Error, Result, ok, err, value_error, type_error, pending_buffer_full,
}
use radio_robot_lib.Python.Exec.{Exec, pure, raise, lift, ◌>>=◌, ◌>>◌}
use radio_robot_lib.RobotV6.Codec.{Field}
use radio_robot_lib.RobotV6.Codec.FixedPoint.{nan, inf, finite}
use radio_robot_lib.RobotV6.Session.{World, Session, submit, send, send_unsequenced, pump}
use radio_robot_lib.RobotV6.Session.Waiting.{DoneEvent}
use radio_robot_lib.Rogo.Client.Polling.{dispatch_wait_for_ack, dispatch_wait_for_done}
use radio_robot_lib.Rogo.Client.Polling.Ids.{
  Limit, limit_of, dispatch_wait_for_ack_to, dispatch_wait_for_done_to,
}
use radio_robot_lib.Rogo.Client.Values.{
  name_of, replies_to_json, event_to_json, unpacked, required, odd_verb,
}
use radio_robot_lib.Rogo.Daemon.{Config, Outcome, returned, raised, execute}
use radio_robot_lib.Rogo.Json.{
  Json, null, bool, int, float, str, arr, obj, nil, empty, entry, Object, get_or,
}
use radio_robot_lib.Rogo.Protocol.{Request, Reply}
use text.Mathlib.Text.{◌==◌}

-- What the daemon's handlers run on, outside of src/ and of the session's own state: `str` on a list
-- or a dictionary, a timeout in units of the clock, the world, the abort event of the request, as in
-- `Polling`, with the fuels of the waits; the classifier, `repr` on texts, `str` on exceptions, and
-- what the comparison of an integer with a float comes to.
pub record Host : Type 0 where
  pub repr : Json → Text
  pub seconds : Json → Result (Option ℕ)
  pub world : World
  pub abort : ℕ → Bool
  pub poll_time : ℕ
  pub inner : ℕ
  pub fuel : ℕ
  pub is_estop : Request → Bool
  pub quoted : String → String
  pub message : Error → String
  pub ceiling : String → Limit

unfoldable pub ack_to_json : Option Bool → Option Json
ack_to_json none = none
ack_to_json (some acked) = some (bool acked)

unfoldable pub done_to_json : Option (Option DoneEvent) → Option Json
done_to_json none = none
done_to_json (some done) = some (event_to_json done)

-- `{"id": done.id, "reason": done.reason}` for the id that was waited for.
unfoldable pub reason_to_json : Json → Option (Option Text) → Option Json
reason_to_json seq_id none = none
reason_to_json seq_id (some none) = some null
reason_to_json seq_id (some (some reason)) =
    some (obj (entry "id" seq_id (entry "reason" (str (string_of reason)) empty)))

unfoldable pub is_some : {A : Type 0} → Option A → Bool
is_some none = false
is_some (some a) = true

module _ (h : Host) where
  -- A value that JSON carried, as a field of a command.
  unfoldable pub field_of : Json → Field
  field_of null = Field.str (codes "None")
  field_of (bool b) = Field.bool b
  field_of (int n) = Field.int n
  field_of (float r) =
      if r == "nan"
      then Field.float nan
      else if r == "inf" || r == "-inf"
      then Field.float inf
      else Field.float (finite (codes r))
  field_of (str s) = Field.str (codes s)
  field_of (arr items) = Field.str (h.repr (arr items))
  field_of (obj fields) = Field.str (h.repr (obj fields))

  -- `session.send(verb, *fields)`, whatever the verb is: a list or a dictionary cannot be looked up
  -- in `UNSEQUENCED_VERBS`, and other values that are no text are refused by the codec.
  unfoldable pub send_value : Json → List Json → Exec Session ℕ
  send_value (str verb) fields s = send (codes verb) (map field_of fields) s
  send_value (arr items) fields s = (err type_error, s)
  send_value (obj entries) fields s = (err type_error, s)
  send_value other fields s =
      if leb s.max_pending (length s.pending)
      then (err pending_buffer_full, s)
      else submit (err (odd_verb other)) s

  unfoldable pub send_unsequenced_value : Json → List Json → Exec Session (Unit {0})
  send_unsequenced_value (str verb) fields = send_unsequenced (codes verb) (map field_of fields)
  send_unsequenced_value (arr items) fields = raise type_error
  send_unsequenced_value (obj entries) fields = raise type_error
  send_unsequenced_value other fields = raise value_error

  -- The handlers. `none` is a wait whose fuel ran out.
  unfoldable pub dispatch_session_send : Object → Exec Session (Option Json)
  unfolding required
  dispatch_session_send params = do
    verb ← lift (required "wire_verb" params)
    fields ← lift (unpacked (get_or "wire_fields" (arr nil) params))
    id ← send_value verb fields
    pure (some (int (pos id)))

  unfoldable pub dispatch_session_send_unsequenced : Object → Exec Session (Option Json)
  unfolding required
  dispatch_session_send_unsequenced params = do
    verb ← lift (required "wire_verb" params)
    fields ← lift (unpacked (get_or "wire_fields" (arr nil) params))
    send_unsequenced_value verb fields
    pure (some null)

  unfoldable pub dispatch_session_highest_acked : Object → Exec Session (Option Json)
  dispatch_session_highest_acked params s = (ok (some (int (pos s.highest_acked))), s)

  -- What `read_lines` makes of its timeout is the world's.
  unfoldable pub dispatch_session_pump : Object → Exec Session (Option Json)
  dispatch_session_pump params = do
    replies ← pump h.world
    pure (some (arr (replies_to_json replies)))

  -- The polls for an id, whatever value it is: a natural number, or another.
  unfoldable pub wait_for_ack_id : Json → Option ℕ → Exec Session (Option Json)
  wait_for_ack_id (int (pos n)) timeout = do
    answer ← dispatch_wait_for_ack h.world h.abort h.poll_time h.inner h.fuel n timeout
    pure (ack_to_json answer)
  wait_for_ack_id seq_id timeout = do
    answer ←
        dispatch_wait_for_ack_to h.world h.abort h.poll_time h.inner h.fuel
          (limit_of h.ceiling seq_id) timeout
    pure (ack_to_json answer)

  unfoldable pub wait_for_done_id : Json → Option ℕ → Exec Session (Option Json)
  wait_for_done_id (int (pos n)) timeout = do
    answer ← dispatch_wait_for_done h.world h.abort h.poll_time h.inner h.fuel n timeout
    pure (done_to_json answer)
  wait_for_done_id seq_id timeout = do
    answer ←
        dispatch_wait_for_done_to h.world h.abort h.poll_time h.inner h.fuel
          (limit_of h.ceiling seq_id) timeout
    pure (reason_to_json seq_id answer)

  unfoldable pub dispatch_session_wait_for_ack : Object → Exec Session (Option Json)
  unfolding required
  dispatch_session_wait_for_ack params = do
    seq_id ← lift (required "seq_id" params)
    timeout ← lift (h.seconds (get_or "timeout" (float "5.0") params))
    wait_for_ack_id seq_id timeout

  unfoldable pub dispatch_session_wait_for_done : Object → Exec Session (Option Json)
  unfolding required
  dispatch_session_wait_for_done params = do
    seq_id ← lift (required "seq_id" params)
    timeout ← lift (h.seconds (get_or "timeout" (float "5.0") params))
    wait_for_done_id seq_id timeout

  -- `build_session_dispatch_table().get(verb)`
  unfoldable pub session_dispatch_table : String → Option (Object → Exec Session (Option Json))
  session_dispatch_table verb =
      if verb == "session_send"
      then some dispatch_session_send
      else if verb == "session_send_unsequenced"
      then some dispatch_session_send_unsequenced
      else if verb == "session_pump"
      then some dispatch_session_pump
      else if verb == "session_highest_acked"
      then some dispatch_session_highest_acked
      else if verb == "session_wait_for_ack"
      then some dispatch_session_wait_for_ack
      else if verb == "session_wait_for_done"
      then some dispatch_session_wait_for_done
      else none

  abbrev pub config : Config
  config = record {
    is_estop = h.is_estop;
    registered = λ verb. is_some (session_dispatch_table verb);
    repr = h.quoted;
  }

  -- `try: result = handler(...)`, `except Exception as exc`
  unfoldable pub outcome_of : Result (Option Json) → Option Outcome
  unfolding name_of
  outcome_of (err e) = some (raised (h.message e) (name_of e))
  outcome_of (ok none) = none
  outcome_of (ok (some result)) = some (returned result)

  unfoldable pub reply_with : Request → Option Outcome → Option Reply
  reply_with request none = none
  reply_with request (some outcome) = some (execute config request outcome)

  -- `_execute`; where no handler is found, none is called.
  unfoldable pub execute_on :
      Request → Option (Object → Exec Session (Option Json)) → Session → Option Reply × Session
  unfolding outcome_of reply_with
  execute_on request none s = (some (execute config request (returned null)), s)
  execute_on request (some handler) s =
      let (result, t) = handler request.params s in (reply_with request (outcome_of result), t)

  unfoldable pub execute_request : Request → Session → Option Reply × Session
  unfolding execute_on
  execute_request request = execute_on request (session_dispatch_table request.verb)
