-- ===== src/Rogo/Client/Table/Kept.antt =====
-- A property of sessions that every single update keeps is kept by every handler of the dispatch
-- table of src/host/rogo/daemon_client.py, whatever its parameters are.
use radio_robot_lib.Prelude.{
  ℕ, Bool, true, false, Option, none, some, List, map, leb, length, Bool-cases, inl, inr,
  if◌then◌else◌, String,
}
use radio_robot_lib.Prelude.Text.{codes}
use radio_robot_lib.Prelude.Int.{pos, negsuc}
use radio_robot_lib.Python.Error.{err, pending_buffer_full}
use radio_robot_lib.Python.Exec.{Exec, pure, lift, Keeps, Keeps-bind, ◌>>=◌}
use radio_robot_lib.RobotV6.Session as Session
use radio_robot_lib.RobotV6.Session.{Session, submit, init}
use radio_robot_lib.RobotV6.Session.Stable.{
  IsStable, send-Keeps, send_unsequenced-Keeps, pump-Keeps,
}
use radio_robot_lib.Rogo.Client.Polling.Kept.{
  dispatch_wait_for_ack-Keeps, dispatch_wait_for_done-Keeps,
}
use radio_robot_lib.Rogo.Client.Polling.Ids.{
  limit_of, dispatch_wait_for_ack_to, dispatch_wait_for_done_to, dispatch_wait_for_ack_to-Keeps,
  dispatch_wait_for_done_to-Keeps,
}
use radio_robot_lib.Rogo.Client.Polling.{dispatch_wait_for_ack, dispatch_wait_for_done}
use radio_robot_lib.Rogo.Client.Table.{
  Host, ack_to_json, reason_to_json, field_of, send_value, send_unsequenced_value,
  dispatch_session_send, dispatch_session_send_unsequenced, dispatch_session_pump,
  dispatch_session_highest_acked, wait_for_ack_id, wait_for_done_id, dispatch_session_wait_for_ack,
  dispatch_session_wait_for_done, session_dispatch_table, execute_on,
}
use radio_robot_lib.Rogo.Client.Values.{odd_verb, required, unpacked}
use radio_robot_lib.Rogo.Json.{Json, null, bool, int, float, str, arr, obj, nil, Object, get_or}
use radio_robot_lib.Rogo.Protocol.{Request}
use text.Mathlib.Text.{◌==◌}

abbrev pub Handler : Type 0
Handler = Object → Exec Session (Option Json)

module _ {P : Session → Type 0} (stable : IsStable P) (h : Host) where
  odd-Keeps :
      (j : Json) (s : Session)
      → P s
      → P
          (if leb s.max_pending (length s.pending)
            then (err pending_buffer_full, s)
            else submit (err (odd_verb j)) s).1
  unfolding submit
  odd-Keeps j s k = elim (Bool-cases (leb s.max_pending (length s.pending))) [
    | inl full ↦ rw full k
    | inr room ↦ rw room (stable.burnt s k)
  ]

  send_value-Keeps : (verb : Json) (fields : List Json) → Keeps P (send_value h verb fields)
  unfolding send_value
  send_value-Keeps (str verb) fields s k =
      send-Keeps stable (codes verb) (map (field_of h) fields) s k
  send_value-Keeps (arr items) fields s k = k
  send_value-Keeps (obj entries) fields s k = k
  send_value-Keeps null fields s k = odd-Keeps null s k
  send_value-Keeps (bool b) fields s k = odd-Keeps (bool b) s k
  send_value-Keeps (int n) fields s k = odd-Keeps (int n) s k
  send_value-Keeps (float r) fields s k = odd-Keeps (float r) s k

  send_unsequenced_value-Keeps :
      (verb : Json) (fields : List Json) → Keeps P (send_unsequenced_value h verb fields)
  unfolding send_unsequenced_value
  send_unsequenced_value-Keeps (str verb) fields s k =
      send_unsequenced-Keeps stable (codes verb) (map (field_of h) fields) s k
  send_unsequenced_value-Keeps (arr items) fields s k = k
  send_unsequenced_value-Keeps _ fields s k = k

  send-handler : (params : Object) → Keeps P (dispatch_session_send h params)
  unfolding dispatch_session_send
  send-handler params =
      Keeps-bind P (lift (required "wire_verb" params)) _ (λ s k. k)
        (λ verb.
          Keeps-bind P (lift (unpacked (get_or "wire_fields" (arr nil) params))) _ (λ s k. k)
            (λ fields.
              Keeps-bind P (send_value h verb fields) _ (send_value-Keeps verb fields)
                (λ id s k. k)))

  send_unsequenced-handler :
      (params : Object) → Keeps P (dispatch_session_send_unsequenced h params)
  unfolding dispatch_session_send_unsequenced
  send_unsequenced-handler params =
      Keeps-bind P (lift (required "wire_verb" params)) _ (λ s k. k)
        (λ verb.
          Keeps-bind P (lift (unpacked (get_or "wire_fields" (arr nil) params))) _ (λ s k. k)
            (λ fields.
              Keeps-bind P (send_unsequenced_value h verb fields) _
                (send_unsequenced_value-Keeps verb fields) (λ id s k. k)))

  pump-handler : (params : Object) → Keeps P (dispatch_session_pump h params)
  unfolding dispatch_session_pump
  pump-handler params =
      Keeps-bind P (Session.pump h.world) _ (pump-Keeps stable h.world) (λ rs s k. k)

  other_ack-Keeps :
      (id : Json) (limit : Option ℕ)
      → Keeps P (do
        answer ←
            dispatch_wait_for_ack_to h.world h.abort h.poll_time h.inner h.fuel
              (limit_of h.ceiling id)
              limit
        pure (ack_to_json answer))
  other_ack-Keeps id limit =
      Keeps-bind P
        (dispatch_wait_for_ack_to h.world h.abort h.poll_time h.inner h.fuel (limit_of h.ceiling id)
          limit)
        _
        (dispatch_wait_for_ack_to-Keeps stable h.world h.abort h.poll_time h.inner h.fuel
          (limit_of h.ceiling id) limit)
        (λ a s k. k)

  ack_id-Keeps : (id : Json) (limit : Option ℕ) → Keeps P (wait_for_ack_id h id limit)
  unfolding wait_for_ack_id
  ack_id-Keeps (int (pos n)) limit =
      Keeps-bind P (dispatch_wait_for_ack h.world h.abort h.poll_time h.inner h.fuel n limit) _
        (dispatch_wait_for_ack-Keeps stable h.world h.abort h.poll_time h.inner h.fuel n limit)
        (λ a s k. k)
  ack_id-Keeps (int (negsuc n)) limit = other_ack-Keeps (int (negsuc n)) limit
  ack_id-Keeps null limit = other_ack-Keeps null limit
  ack_id-Keeps (bool b) limit = other_ack-Keeps (bool b) limit
  ack_id-Keeps (float r) limit = other_ack-Keeps (float r) limit
  ack_id-Keeps (str t) limit = other_ack-Keeps (str t) limit
  ack_id-Keeps (arr items) limit = other_ack-Keeps (arr items) limit
  ack_id-Keeps (obj entries) limit = other_ack-Keeps (obj entries) limit

  other_done-Keeps :
      (id : Json) (limit : Option ℕ)
      → Keeps P (do
        answer ←
            dispatch_wait_for_done_to h.world h.abort h.poll_time h.inner h.fuel
              (limit_of h.ceiling id)
              limit
        pure (reason_to_json id answer))
  other_done-Keeps id limit =
      Keeps-bind P
        (dispatch_wait_for_done_to h.world h.abort h.poll_time h.inner h.fuel
          (limit_of h.ceiling id) limit)
        _
        (dispatch_wait_for_done_to-Keeps stable h.world h.abort h.poll_time h.inner h.fuel
          (limit_of h.ceiling id) limit)
        (λ a s k. k)

  done_id-Keeps : (id : Json) (limit : Option ℕ) → Keeps P (wait_for_done_id h id limit)
  unfolding wait_for_done_id
  done_id-Keeps (int (pos n)) limit =
      Keeps-bind P (dispatch_wait_for_done h.world h.abort h.poll_time h.inner h.fuel n limit) _
        (dispatch_wait_for_done-Keeps stable h.world h.abort h.poll_time h.inner h.fuel n limit)
        (λ a s k. k)
  done_id-Keeps (int (negsuc n)) limit = other_done-Keeps (int (negsuc n)) limit
  done_id-Keeps null limit = other_done-Keeps null limit
  done_id-Keeps (bool b) limit = other_done-Keeps (bool b) limit
  done_id-Keeps (float r) limit = other_done-Keeps (float r) limit
  done_id-Keeps (str t) limit = other_done-Keeps (str t) limit
  done_id-Keeps (arr items) limit = other_done-Keeps (arr items) limit
  done_id-Keeps (obj entries) limit = other_done-Keeps (obj entries) limit

  ack-handler : (params : Object) → Keeps P (dispatch_session_wait_for_ack h params)
  unfolding dispatch_session_wait_for_ack
  ack-handler params =
      Keeps-bind P (lift (required "seq_id" params)) _ (λ s k. k)
        (λ id.
          Keeps-bind P (lift (h.seconds (get_or "timeout" (float "5.0") params))) _ (λ s k. k)
            (ack_id-Keeps id))

  done-handler : (params : Object) → Keeps P (dispatch_session_wait_for_done h params)
  unfolding dispatch_session_wait_for_done
  done-handler params =
      Keeps-bind P (lift (required "seq_id" params)) _ (λ s k. k)
        (λ id.
          Keeps-bind P (lift (h.seconds (get_or "timeout" (float "5.0") params))) _ (λ s k. k)
            (done_id-Keeps id))

  -- A handler that was found, if one was.
  abbrev pub FoundKeeps : Option Handler → Type 0
  FoundKeeps none = Unit
  FoundKeeps (some handler) = (params : Object) → Keeps P (handler params)

  either-FoundKeeps :
      (test : Bool) (x y : Option Handler)
      → FoundKeeps x
      → FoundKeeps y
      → FoundKeeps (if test then x else y)
  either-FoundKeeps true x y k l = k
  either-FoundKeeps false x y k l = l

  pub table-FoundKeeps : (verb : String) → FoundKeeps (session_dispatch_table h verb)
  unfolding session_dispatch_table dispatch_session_highest_acked
  table-FoundKeeps verb = either-FoundKeeps (verb == "session_send") _ _ send-handler (
      either-FoundKeeps (verb == "session_send_unsequenced") _ _ send_unsequenced-handler (
        either-FoundKeeps (verb == "session_pump") _ _ pump-handler (
          either-FoundKeeps (verb == "session_highest_acked") _ _ (λ params s k. k)
            (either-FoundKeeps (verb == "session_wait_for_ack") _ _ ack-handler
              (either-FoundKeeps (verb == "session_wait_for_done") _ none done-handler tt)))))

  pub execute_on-Keeps :
      (request : Request) (found : Option Handler) (s : Session)
      → FoundKeeps found
      → P s
      → P (execute_on h request found s).1
  unfolding execute_on
  execute_on-Keeps request none s k p = p
  execute_on-Keeps request (some handler) s k p = k request.params s p
