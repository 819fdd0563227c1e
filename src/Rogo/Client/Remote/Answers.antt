-- ===== src/Rogo/Client/Remote/Answers.antt =====
-- How the outcome of a handler of src/host/rogo/daemon_client.py comes back to the client.
use radio_robot_lib.Prelude.{ℕ, ◌≡◌, refl, true, Option, none, some, List, [], ◌∷◌, map, ap}
use radio_robot_lib.Prelude.Chars.{string_of}
use radio_robot_lib.Prelude.Int.{ℤ, eqb_ℤ, eqb_ℤ_iff}
use radio_robot_lib.Python.Error.{
  Error, Result, ok, err, value_error, type_error, index_error, key_error, invalid_operation,
  unicode_error, pending_buffer_full, transport_closed, zero_division_error, overflow_error,
  os_error, target_error, sim_binary_error, robot_name_required, daemon_unavailable,
  listen_target_error, unreachable_target, protocol_error,
}
use radio_robot_lib.Python.Exec.{Exec, pure, continue}
use radio_robot_lib.RobotV6.Codec as Codec
use radio_robot_lib.RobotV6.Session.{Session}
use radio_robot_lib.Rogo.Client.{RemoteCall, request_of, verb_of, params_of}
use radio_robot_lib.Rogo.Client.Calls.{is_estop_request-request_of}
use radio_robot_lib.Rogo.Client.Remote.{
  Ended, fails, read_result, read_answer, read_reply_line, serve_decoded, wire_reply, rethrown,
  seen,
}
use radio_robot_lib.Rogo.Client.Remote.Reading.{Returned, returned_by, read_reply, read_replies}
use radio_robot_lib.Rogo.Client.Table.{
  Host, session_dispatch_table, outcome_of, reply_with, execute_on, execute_request, is_some,
}
use radio_robot_lib.Rogo.Client.Values.{
  name_of, items_of, elements, replies_to_json, reply_to_json, unpacked, required,
}
use radio_robot_lib.Rogo.Client.Wire.{raised, exception_type, unwrap, take_reply}
use radio_robot_lib.Rogo.Daemon.{execute}
use radio_robot_lib.Rogo.Json.{Json, Object, str, get, get_or}
use radio_robot_lib.Rogo.Protocol.{
  Request, Reply, encode_request, decode_request, encode_reply, decode_reply, succeed, fail,
}

-- What a client makes of the reply whenever it comes, however long it waits for it.
unfoldable pub receive_reply : ℤ → RemoteCall → Option Reply → Option Ended
unfolding read_reply_line
receive_reply request_id call none = none
receive_reply request_id call (some reply) =
    read_reply_line call (take_reply request_id (decode_reply (some (encode_reply reply))))

unfoldable pub prompt_call : Host → ℤ → RemoteCall → Session → Option Ended × Session
unfolding receive_reply serve_decoded
prompt_call h request_id call s =
    let (reply, t) =
      serve_decoded h (decode_request (encode_request (request_of request_id call))) s in
    (receive_reply request_id call reply, t)

-- Of the classes that the daemon names, the client knows three.
exception_type-name_of : (e : Error) → exception_type (name_of e) ≡ rethrown e
unfolding exception_type name_of rethrown
exception_type-name_of value_error = refl
exception_type-name_of type_error = refl
exception_type-name_of index_error = refl
exception_type-name_of key_error = refl
exception_type-name_of invalid_operation = refl
exception_type-name_of unicode_error = refl
exception_type-name_of pending_buffer_full = refl
exception_type-name_of transport_closed = refl
exception_type-name_of zero_division_error = refl
exception_type-name_of overflow_error = refl
exception_type-name_of os_error = refl
exception_type-name_of target_error = refl
exception_type-name_of sim_binary_error = refl
exception_type-name_of robot_name_required = refl
exception_type-name_of daemon_unavailable = refl
exception_type-name_of listen_target_error = refl
exception_type-name_of unreachable_target = refl
exception_type-name_of protocol_error = refl

-- The items of an encoded list of texts are those texts.
elements-items_of : (ts : List (List ℕ)) → elements (items_of ts) ≡ map (λ t. str (string_of t)) ts
unfolding elements items_of
elements-items_of [] = refl
elements-items_of (t ∷ ts) = ap (λ rest. str (string_of t) ∷ rest) (elements-items_of ts)

read_reply-reply_to_json : (r : Codec.Reply) → read_reply (reply_to_json r) ≡ ok (wire_reply r)
unfolding read_reply reply_to_json unpacked required get wire_reply
read_reply-reply_to_json r = rw (elements-items_of r.fields) refl

pub read_replies-elements :
    (rs : List Codec.Reply) → read_replies (elements (replies_to_json rs)) ≡ ok (map wire_reply rs)
unfolding elements read_replies replies_to_json
read_replies-elements [] = refl
read_replies-elements (r ∷ rs) =
    let e : read_reply (reply_to_json r) ≡ ok (wire_reply r) = read_reply-reply_to_json r in
    rw (e, read_replies-elements rs) refl

eqb_same : (n : ℤ) → eqb_ℤ n n ≡ true
eqb_same n = (eqb_ℤ_iff n n).1 refl

module _ (h : Host) (call : RemoteCall) where
  -- What the client makes of a handler's result.
  abbrev pub handed_back : Result (Option Json) → Option Ended
  handed_back (err e) = some (fails (raised (rethrown e) (h.message e)))
  handed_back (ok none) = none
  handed_back (ok (some j)) = some (read_result (returned_by call j))

  receive_reply-succeed :
      (request_id : ℤ) (j : Json)
      → receive_reply request_id call (some (succeed request_id j))
        ≡ some (read_result (returned_by call j))
  unfolding receive_reply encode_reply decode_reply take_reply read_reply_line read_answer unwrap
      get get_or
  receive_reply-succeed request_id j = rw (eqb_same request_id) refl

  receive_reply-fail :
      (request_id : ℤ) (e : Error)
      → receive_reply request_id call (some (fail request_id (h.message e) (name_of e)))
        ≡ some (fails (raised (rethrown e) (h.message e)))
  unfolding receive_reply encode_reply decode_reply take_reply read_reply_line read_answer unwrap
      get get_or
  receive_reply-fail request_id e = rw (eqb_same request_id, exception_type-name_of e) refl

  receive_reply-reply_with :
      (request_id : ℤ) (r : Result (Option Json)) (request : Request)
      → request.id ≡ request_id
      → is_some (session_dispatch_table h request.verb) ≡ true
      → receive_reply request_id call (reply_with h request (outcome_of h r)) ≡ handed_back r
  unfolding reply_with outcome_of execute receive_reply
  receive_reply-reply_with request_id (err e) request own known =
      rw (known, own) (receive_reply-fail request_id e)
  receive_reply-reply_with request_id (ok none) request own known = refl
  receive_reply-reply_with request_id (ok (some j)) request own known =
      rw (known, own) (receive_reply-succeed request_id j)

  -- The outcomes of a handler and of the local call.
  abbrev pub Agree : Result (Option Json) × Session → Result (Option Returned) × Session → Type 0
  Agree x y = ◌≡◌ {A = Option Ended × Session} (handed_back x.0, x.1) (seen h y.0, y.1)

  pub bind-Agree :
      {A : Type 0} (x : Result A × Session) (f : A → Option Json) (g : A → Option Returned)
      → ((a : A) → handed_back (ok (f a)) ≡ seen h (ok (g a)))
      → Agree (continue x.0 (λ a. pure (f a)) x.1) (continue x.0 (λ a. pure (g a)) x.1)
  unfolding seen
  bind-Agree (err e, s) f g same = refl
  bind-Agree (ok a, s) f g same = ap (λ (o : Option Ended). (o, s)) (same a)

  pub lift-Agree :
      {A : Type 0} (r : Result A) (f : A → Exec Session (Option Json))
      (g : A → Exec Session (Option Returned)) (s : Session)
      → ((a : A) → Agree (f a s) (g a s))
      → Agree (continue r f s) (continue r g s)
  unfolding seen
  lift-Agree (err e) f g s same = refl
  lift-Agree (ok a) f g s same = same a

  pub prompt_call-handler :
      (request_id : ℤ) (handler : Object → Exec Session (Option Json)) (s : Session)
      → session_dispatch_table h (verb_of call) ≡ some handler
      → prompt_call h request_id call s
        ≡ (handed_back (handler (params_of call) s).0, (handler (params_of call) s).1)
  unfolding prompt_call serve_decoded execute_request execute_on request_of is_some
  prompt_call-handler request_id handler s e =
      rw ((is_estop_request-request_of request_id call).0) (
        rw e (
          ap (λ o. (o, (handler (params_of call) s).1))
            (receive_reply-reply_with request_id (handler (params_of call) s).0
              (request_of request_id call) refl (rw e refl))))
