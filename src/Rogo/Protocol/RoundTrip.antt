-- ===== src/Rogo/Protocol/RoundTrip.antt =====
-- What one end of the daemon's wire encodes, the other end decodes.
use radio_robot_lib.Prelude.{
  Option, none, some, String, ◌≡◌, ◌≢◌, refl, subst, arith, Bool-cases, inl, inr,
}
use radio_robot_lib.Prelude.Int.{ℤ}
use radio_robot_lib.Rogo.Json.{Json, int, str, obj, Object, empty, get, get_or}
use radio_robot_lib.Rogo.Protocol.{
  Request, Reply, Decoded, decoded, refused, encode_request, decode_request, encode_reply,
  decode_reply, as_id, as_verb, as_params, decode_json_object, ◌>>=◌, succeed, fail,
}
use text.Mathlib.Text.{◌==◌}
use text.Mathlib.TextEquality.{eq_iff}

-- A request with a verb is decoded as it was encoded, whatever its id and parameters.
pub decode_request-encode_request :
    (request : Request)
    → request.verb ≢ ""
    → decode_request (encode_request request) ≡ decoded request
unfolding decode_request encode_request get get_or
decode_request-encode_request request named = elim (Bool-cases (request.verb == "")) [
  | inl unnamed ↦ absurd (named ((eq_iff request.verb "").0 unnamed))
  | inr fine ↦ rw (fine, fine)
]

-- What a reply amounts to: if there is an error, the result is not consulted.
abbrev pub meaning : Reply → Reply
meaning reply = elim reply.error [
  | none ↦ succeed reply.id reply.result
  | some error ↦ fail reply.id error.message error.type
]

-- A reply is decoded as it was encoded, up to a result beside an error, which is dropped.
pub decode_reply-encode_reply :
    (reply : Reply) → decode_reply (some (encode_reply reply)) ≡ decoded (meaning reply)
unfolding decode_reply encode_reply get get_or
decode_reply-encode_reply reply = ground arith

-- The fields of a line that spell the request.
pub record Spells (fields : Object) (request : Request) : Type 0 where
  pub id : get "id" fields ≡ some (int request.id)
  pub verb : get "verb" fields ≡ some (str request.verb)
  pub named : request.verb ≢ ""
  pub params : get_or "params" (obj empty) fields ≡ obj request.params

as_id-eq : (v : Option Json) (n : ℤ) → as_id v ≡ decoded n → v ≡ some (int n)
unfolding as_id
as_id-eq v n h = ground arith

as_verb-eq : (v : Option Json) (s : String) → as_verb v ≡ decoded s → (v ≡ some (str s)) × (s ≢ "")
unfolding as_verb
as_verb-eq none s h = absurd (cc)
as_verb-eq (some (str t)) s h = elim (Bool-cases (t == "")) [
  | inl unnamed ↦ absurd (cc (rw unnamed at h))
  | inr fine ↦ (cc (rw fine at h), λ e. cc (fine, (eq_iff t "").1 (cc (rw fine at h, e))))
]
as_verb-eq (some _) s h = absurd (cc)

as_params-eq : (v : Json) (o : Object) → as_params v ≡ decoded o → v ≡ obj o
unfolding as_params
as_params-eq (obj fields) o h = cc
as_params-eq _ o h = absurd (cc)

-- What was decoded on the way to a decoded result.
Passed : {A B : Type 0} → Decoded A → (A → Decoded B) → B → Type 0
Passed {A} m f b = (a : A) × (m ≡ decoded a) × (f a ≡ decoded b)

passed :
    {A B : Type 0} (m : Decoded A) (f : A → Decoded B) {b : B}
    → (m >>= f) ≡ decoded b
    → Passed m f b
unfolding Passed
passed (decoded a) f h = (a, refl, h)
passed (refused e) f h = absurd (cc)

object_line :
    (line : Option Json) (o : Object) → decode_json_object line ≡ decoded o → line ≡ some (obj o)
unfolding decode_json_object
object_line line o h = ground arith

spelt_by :
    (fields : Object) (id : ℤ) (verb : String) (params : Object)
    → as_id (get "id" fields) ≡ decoded id
    → (get "verb" fields ≡ some (str verb)) × (verb ≢ "")
    → as_params (get_or "params" (obj empty) fields) ≡ decoded params
    → Spells fields (record { id = id; verb = verb; params = params })
spelt_by fields id verb params e_id (spelt, named) e_params = record {
  id = as_id-eq (get "id" fields) id e_id;
  verb = spelt;
  named = named;
  params = as_params-eq (get_or "params" (obj empty) fields) params e_params;
}

-- A line decodes to a request only if it is an object with an integer `id` that is no boolean, a
-- nonempty text `verb`, and an object for `params`, or no `params`, that are those of the request.
pub decode_request-Spells :
    (line : Option Json) (request : Request)
    → decode_request line ≡ decoded request
    → (fields : Object) × (line ≡ some (obj fields)) × Spells fields request
unfolding decode_request Passed
decode_request-Spells line request h =
    let (fields, e, h1) = passed (decode_json_object line) _ h in
    let (id, e_id, h2) = passed (as_id (get "id" fields)) _ h1 in
    let (verb, e_verb, h3) = passed (as_verb (get "verb" fields)) _ h2 in
    let (params, e_params, h4) = passed (as_params (get_or "params" (obj empty) fields)) _ h3 in
    (
      fields,
      object_line line fields e,
      subst (Spells fields) (cc h4) (
          spelt_by fields id verb params e_id (as_verb-eq (get "verb" fields) verb e_verb)
            e_params),
    )
