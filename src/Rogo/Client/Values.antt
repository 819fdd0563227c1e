-- ===== src/Rogo/Client/Values.antt =====
-- What src/host/rogo/daemon_client.py makes of the values of a `Session` as JSON and of JSON as
-- arguments, and the names of exceptions on the daemon's wire.
use radio_robot_lib.Prelude.{
  ℕ, Bool, true, false, ◌||◌, not, Option, none, some, List, [], ◌∷◌, String, if◌then◌else◌,
}
use radio_robot_lib.Prelude.Text.{Text, codes}
use radio_robot_lib.Prelude.Chars.{string_of}
use radio_robot_lib.Prelude.Int.{pos, eqb_ℤ}
use radio_robot_lib.Python.Error.{
  Error, Result, ok, err, value_error, type_error, index_error, key_error, invalid_operation,
  unicode_error, pending_buffer_full, transport_closed, zero_division_error, overflow_error,
  os_error, target_error, sim_binary_error, robot_name_required, daemon_unavailable,
  listen_target_error, unreachable_target, protocol_error,
}
use radio_robot_lib.RobotV6.Codec.{Reply}
use radio_robot_lib.RobotV6.Session.Waiting.{DoneEvent}
use radio_robot_lib.Rogo.Json.{
  Json, null, bool, int, float, str, arr, obj, Items, nil, cons, Object, empty, entry, get,
}
use text.Mathlib.Text.{◌==◌}

-- The class of an exception, by `type(exc).__name__`.
unfoldable pub name_of : Error → String
name_of value_error = "ValueError"
name_of type_error = "TypeError"
name_of index_error = "IndexError"
name_of key_error = "KeyError"
name_of invalid_operation = "InvalidOperation"
name_of unicode_error = "UnicodeEncodeError"
name_of pending_buffer_full = "PendingBufferFull"
name_of transport_closed = "TransportClosed"
name_of zero_division_error = "ZeroDivisionError"
name_of overflow_error = "OverflowError"
name_of os_error = "OSError"
name_of target_error = "TargetError"
name_of sim_binary_error = "SimBinaryError"
name_of robot_name_required = "RobotNameRequiredError"
name_of daemon_unavailable = "DaemonUnavailableError"
name_of listen_target_error = "ListenTargetError"
name_of unreachable_target = "UnreachableTarget"
name_of protocol_error = "ProtocolError"

-- The strings of a list, as JSON.
unfoldable pub items_of : List Text → Items
items_of [] = nil
items_of (t ∷ ts) = cons (str (string_of t)) (items_of ts)

unfoldable pub id_value : Option ℕ → Json
id_value none = null
id_value (some n) = int (pos n)

unfoldable pub reply_to_json : Reply → Json
reply_to_json reply = obj (
    entry "verb" (str (string_of reply.verb))
      (entry "fields" (arr (items_of reply.fields)) (entry "id" (id_value reply.id) empty)))

unfoldable pub replies_to_json : List Reply → Items
replies_to_json [] = nil
replies_to_json (r ∷ rs) = cons (reply_to_json r) (replies_to_json rs)

unfoldable pub event_to_json : Option DoneEvent → Json
event_to_json none = null
event_to_json (some done) =
    obj (entry "id" (int (pos done.id)) (entry "reason" (str (string_of done.reason)) empty))

-- The keys of a dictionary and the characters of a text, which `*` unpacks as it does a list.
unfoldable pub keys : Object → List Json
keys empty = []
keys (entry k v rest) = str k ∷ keys rest

unfoldable pub characters : Text → List Json
characters [] = []
characters (c ∷ t) = str (string_of (c ∷ [])) ∷ characters t

unfoldable pub elements : Items → List Json
elements nil = []
elements (cons j items) = j ∷ elements items

unfoldable pub unpacked : Json → Result (List Json)
unpacked (arr items) = ok (elements items)
unpacked (obj fields) = ok (keys fields)
unpacked (str s) = ok (characters (codes s))
unpacked _ = err type_error

-- `params[key]`
unfoldable pub required : String → Object → Result Json
required key params = elim (get key params) [ none ↦ err key_error | some v ↦ ok v ]

-- `not value`, for a value that is no text, list or dictionary.
unfoldable pub is_falsy : Json → Bool
is_falsy null = true
is_falsy (bool b) = not b
is_falsy (int n) = eqb_ℤ n (pos 0)
is_falsy (float r) = r == "0.0" || r == "-0.0"
is_falsy _ = false

-- What `encode_command` raises on a verb that is no text: `not verb` and then `" " in verb`.
unfoldable pub odd_verb : Json → Error
odd_verb j = if is_falsy j then value_error else type_error
