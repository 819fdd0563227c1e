-- ===== src/Rogo/Protocol.antt =====
-- src/host/rogo/daemon_protocol.py over JSON values: a line is what `json.loads` makes of it, `none`
-- where it raises `JSONDecodeError`.
pub mod RoundTrip
use radio_robot_lib.Prelude.{
  ℕ, Bool, true, false, Option, none, some, String, ◌≡◌, refl, if◌then◌else◌,
}
use radio_robot_lib.Prelude.Int.{ℤ, pos}
use radio_robot_lib.Rogo.Json.{
  Json, null, bool, int, float, str, arr, obj, Object, empty, entry, get, get_or,
}
use text.Mathlib.Text.{◌==◌}

pub record Request : Type 0 where
  pub id : ℤ
  pub verb : String
  pub params : Object

pub record ReplyError : Type 0 where
  pub message : String
  pub type : String

pub record Reply : Type 0 where
  pub id : ℤ
  pub result : Json
  pub error : Option ReplyError

-- `Reply.ok` and `Reply.fail`
abbrev pub succeed : ℤ → Json → Reply
succeed request_id result = record { id = request_id; result = result; error = none }

abbrev pub fail : ℤ → String → String → Reply
fail request_id message type = record {
  id = request_id;
  result = null;
  error = some (record { message = message; type = type });
}

-- The one exception of the two decoders, by the field that is wrong.
pub data ProtocolError : Type 0 where
  not_json not_object missing_id bad_id missing_verb bad_verb bad_params : ProtocolError
  bad_error bad_message bad_type : ProtocolError

pub data Decoded {ℓ} (A : Type ℓ) : Type ℓ where
  refused : ProtocolError → Decoded A
  decoded : A → Decoded A

infixl 5 ◌>>=◌
abbrev pub ◌>>=◌ : {A B : Type 0} → Decoded A → (A → Decoded B) → Decoded B
refused e >>= f = refused e
decoded a >>= f = f a

unfoldable pub decode_json_object : Option Json → Decoded Object
decode_json_object none = refused not_json
decode_json_object (some (obj fields)) = decoded fields
decode_json_object (some _) = refused not_object

-- An integer that is no `bool`.
unfoldable pub as_id : Option Json → Decoded ℤ
as_id none = refused missing_id
as_id (some (int n)) = decoded n
as_id (some _) = refused bad_id

unfoldable pub as_verb : Option Json → Decoded String
as_verb none = refused missing_verb
as_verb (some (str s)) = if s == "" then refused bad_verb else decoded s
as_verb (some _) = refused bad_verb

unfoldable pub as_params : Json → Decoded Object
as_params (obj fields) = decoded fields
as_params _ = refused bad_params

unfoldable pub decode_request : Option Json → Decoded Request
unfolding decode_json_object as_id as_verb as_params
decode_request line = do
  fields ← decode_json_object line
  id ← as_id (get "id" fields)
  verb ← as_verb (get "verb" fields)
  params ← as_params (get_or "params" (obj empty) fields)
  decoded (record { id = id; verb = verb; params = params })

-- `none` is the `ValueError` on an empty verb.
unfoldable pub encode_request : Request → Option Json
encode_request request =
    if request.verb == ""
    then none
    else some (
        obj (
          entry "id" (int request.id)
            (entry "verb" (str request.verb) (entry "params" (obj request.params) empty))))

error_payload : ReplyError → Object
error_payload error = entry "message" (str error.message) (entry "type" (str error.type) empty)

unfoldable pub encode_reply : Reply → Json
unfolding error_payload
encode_reply reply = elim reply.error [
  | some error ↦ obj (entry "id" (int reply.id) (entry "error" (obj (error_payload error)) empty))
  | none ↦ obj (entry "id" (int reply.id) (entry "result" reply.result empty))
]

as_error : Json → Decoded Object
as_error (obj fields) = elim (get "message" fields) [
  | none ↦ refused bad_error
  | some message ↦ decoded fields
]
as_error _ = refused bad_error

as_message : Json → Decoded String
as_message (str s) = decoded s
as_message _ = refused bad_message

as_type : Json → Decoded String
as_type (str s) = decoded s
as_type _ = refused bad_type

failure : ℤ → Json → Decoded Reply
unfolding as_error as_message as_type
failure reply_id error_data = do
  fields ← as_error error_data
  message ← as_message (get_or "message" null fields)
  type ← as_type (get_or "type" (str "Error") fields)
  decoded (fail reply_id message type)

-- `error is not None` decides, so an `"error": null` counts as no error.
reply_of : ℤ → Object → Json → Decoded Reply
unfolding failure
reply_of reply_id fields null = decoded (succeed reply_id (get_or "result" null fields))
reply_of reply_id fields error_data = failure reply_id error_data

unfoldable pub decode_reply : Option Json → Decoded Reply
unfolding decode_json_object as_id reply_of
decode_reply line = do
  fields ← decode_json_object line
  reply_id ← as_id (get "id" fields)
  reply_of reply_id fields (get_or "error" null fields)
