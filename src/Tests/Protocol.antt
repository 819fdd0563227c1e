-- ===== src/Tests/Protocol.antt =====
-- The daemon protocol at concrete inputs.
use radio_robot_lib.Prelude.{◌≡◌, refl, some}
use radio_robot_lib.Prelude.Int.{pos}
use radio_robot_lib.Rogo.Json.{Object, str, int, obj, empty, entry, get, get_or}
use radio_robot_lib.Rogo.Protocol.{Request, Reply, fail, decoded, decode_request}

abbrev request : Request
request = record {
  id = pos 7;
  verb = "session_send";
  params = entry "wire_verb" (str "ESTOP") empty;
}

abbrev line : Object
line = entry "verb" (str "VER") (entry "id" (int (pos 3)) empty)

-- A verb that the dispatch table does not know.
abbrev unknown : Reply
unknown = fail (pos 7) "no dispatch registered for verb 'dance'" "UnknownVerb"

abbrev bare : Request
bare = record { id = pos 3; verb = "VER"; params = empty }

line_decodes : decode_request (some (obj line)) ≡ decoded bare
unfolding decode_request get get_or
line_decodes = refl
