-- ===== src/Rogo/Client/Calls.antt =====
-- How the daemon classifies what a client of src/host/rogo/daemon_client.py sends.
use radio_robot_lib.Prelude.{Bool, false, ◌≡◌, refl, some}
use radio_robot_lib.Prelude.Int.{ℤ}
use radio_robot_lib.Rogo.Protocol.{decoded, encode_request, decode_request}
use radio_robot_lib.Rogo.Client.{
  RemoteCall, send, send_unsequenced, pump, highest_acked, wait_for_ack, wait_for_done, verb_of,
  params_of, request_of, is_estop_verb, is_estop_request,
}
use radio_robot_lib.Rogo.Json.{get, get_or}
use text.Mathlib.Text.{◌==◌}

-- The calls that carry the panic verb of the wire.
unfoldable pub is_panic : RemoteCall → Bool
is_panic (send verb fields) = verb == "ESTOP"
is_panic (send_unsequenced verb fields) = verb == "ESTOP"
is_panic _ = false

-- Whatever call a client makes, the daemon decodes the request that was sent, and takes it for one
-- of the estop class exactly if it carries the verb `ESTOP`.
pub is_estop_request-request_of :
    (request_id : ℤ) (call : RemoteCall)
    → (decode_request (encode_request (request_of request_id call))
        ≡ decoded (request_of request_id call))
      × (is_estop_request (request_of request_id call) ≡ some (is_panic call))
unfolding request_of verb_of params_of is_estop_request is_estop_verb is_panic get get_or
    encode_request decode_request
is_estop_request-request_of request_id (send verb fields) = (refl, refl)
is_estop_request-request_of request_id (send_unsequenced verb fields) = (refl, refl)
is_estop_request-request_of request_id (pump timeout) = (refl, refl)
is_estop_request-request_of request_id highest_acked = (refl, refl)
is_estop_request-request_of request_id (wait_for_ack seq_id timeout) = (refl, refl)
is_estop_request-request_of request_id (wait_for_done seq_id timeout) = (refl, refl)
