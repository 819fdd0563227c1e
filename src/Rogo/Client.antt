-- ===== src/Rogo/Client.antt =====
-- src/host/rogo/daemon_client.py: the remoted `Session`, the dispatch table behind it, and the
-- classifier that `rogo serve` gives to the daemon.
pub mod Polling
pub mod Values
pub mod Table
pub mod Remote
pub mod Calls
pub mod Wire
pub mod Policy
pub mod Ending
pub mod Finding
use radio_robot_lib.Prelude.{ℕ, Bool, true, false, ◌||◌, Option, none, some, String, if◌then◌else◌}
use radio_robot_lib.Rogo.Json.{Json, str, arr, Items, obj, Object, empty, entry, get}
use radio_robot_lib.Rogo.Protocol.{Request}
use radio_robot_lib.Prelude.Int.{ℤ}
use text.Mathlib.Text.{◌==◌}

-- `value in _ESTOP_WIRE_VERBS`, for the result of `get`; `none` is the `TypeError` on a list or a
-- dictionary, which cannot be hashed.
unfoldable pub is_estop_verb : Option Json → Option Bool
is_estop_verb (some (str s)) = some (s == "ESTOP")
is_estop_verb (some (arr items)) = none
is_estop_verb (some (obj fields)) = none
is_estop_verb _ = some false

unfoldable pub is_estop_request : Request → Option Bool
unfolding is_estop_verb
is_estop_request request =
    if request.verb == "session_send" || request.verb == "session_send_unsequenced"
    then is_estop_verb (get "wire_verb" request.params)
    else some false

-- A call on `_RemoteSession`, with its arguments as JSON values.
pub data RemoteCall : Type 0 where
  send send_unsequenced : String → Items → RemoteCall
  pump : Json → RemoteCall
  highest_acked : RemoteCall
  wait_for_ack wait_for_done : ℤ → Json → RemoteCall

unfoldable pub verb_of : RemoteCall → String
verb_of (send verb fields) = "session_send"
verb_of (send_unsequenced verb fields) = "session_send_unsequenced"
verb_of (pump timeout) = "session_pump"
verb_of highest_acked = "session_highest_acked"
verb_of (wait_for_ack seq_id timeout) = "session_wait_for_ack"
verb_of (wait_for_done seq_id timeout) = "session_wait_for_done"

unfoldable pub params_of : RemoteCall → Object
params_of (send verb fields) = entry "wire_verb" (str verb) (entry "wire_fields" (arr fields) empty)
params_of (send_unsequenced verb fields) =
    entry "wire_verb" (str verb) (entry "wire_fields" (arr fields) empty)
params_of (pump timeout) = entry "timeout" timeout empty
params_of highest_acked = empty
params_of (wait_for_ack seq_id timeout) =
    entry "seq_id" (Json.int seq_id) (entry "timeout" timeout empty)
params_of (wait_for_done seq_id timeout) =
    entry "seq_id" (Json.int seq_id) (entry "timeout" timeout empty)

-- The request that `_DaemonWireClient.call` makes of it.
unfoldable pub request_of : ℤ → RemoteCall → Request
unfolding verb_of params_of
request_of request_id call = record {
  id = request_id;
  verb = verb_of call;
  params = params_of call;
}
