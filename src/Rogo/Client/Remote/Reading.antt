-- ===== src/Rogo/Client/Remote/Reading.antt =====
-- What the methods of `_RemoteSession` in src/host/rogo/daemon_client.py make of the result of a
-- reply: most pass it on, `pump` and `wait_for_done` build their values of it. No type is tested.
use radio_robot_lib.Prelude.{Option, none, some, List, [], ◌∷◌}
use radio_robot_lib.Python.Error.{Result, ok, err, type_error, ◌>>=◌}
use radio_robot_lib.Rogo.Client.{RemoteCall, pump, wait_for_done}
use radio_robot_lib.Rogo.Client.Values.{required, unpacked}
use radio_robot_lib.Rogo.Json.{Json, null, obj}

-- `codec.Reply` and `DoneEvent`, of the values that came.
pub record WireReply : Type 0 where
  pub verb : Json
  pub fields : List Json
  pub id : Json

pub record WireEvent : Type 0 where
  pub id : Json
  pub reason : Json

pub data Returned : Type 0 where
  passed : Json → Returned
  pumped : List WireReply → Returned
  finished : Option WireEvent → Returned

unfoldable pub read_reply : Json → Result WireReply
unfolding required
read_reply (obj r) = do
  verb ← required "verb" r
  items ← required "fields" r
  fields ← unpacked items
  id ← required "id" r
  ok (record { verb = verb; fields = fields; id = id })
read_reply _ = err type_error

unfoldable pub read_replies : List Json → Result (List WireReply)
read_replies [] = ok []
read_replies (j ∷ js) = do r ← read_reply j; rs ← read_replies js; ok (r ∷ rs)

unfoldable pub read_event : Json → Result (Option WireEvent)
unfolding required
read_event null = ok none
read_event (obj r) = do
  id ← required "id" r
  reason ← required "reason" r
  ok (some (record { id = id; reason = reason }))
read_event _ = err type_error

unfoldable pub returned_by : RemoteCall → Json → Result Returned
returned_by (pump timeout) result = do
  items ← unpacked result
  replies ← read_replies items
  ok (pumped replies)
returned_by (wait_for_done seq_id timeout) result = do
  event ← read_event result
  ok (finished event)
returned_by call result = ok (passed result)
