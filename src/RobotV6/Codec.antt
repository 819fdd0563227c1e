-- ===== src/RobotV6/Codec.antt =====
-- src/host/robot_v6/codec.py: one command line out, one reply line in. A line is a list of code
-- points. The proofs are in the modules below.
pub mod FixedPoint
pub mod Plain
pub mod RoundTrip
pub mod Texts
use radio_robot_lib.Prelude.{
  ℕ, ◌≡◌, refl, Bool, true, false, ◌&&◌, ◌||◌, Option, none, some, List, [], ◌∷◌, ◌++◌, arith, ◌==◌,
  if◌then◌else◌,
}
use radio_robot_lib.Prelude.Text.{Text, codes, text_eq}
use radio_robot_lib.Prelude.Int.{ℤ, pos, negsuc, ltb_ℤ}
use radio_robot_lib.Python.Error.{
  Result, ok, err, value_error, type_error, invalid_operation, ◌>>=◌,
}
use radio_robot_lib.Python.Decimal
use radio_robot_lib.Python.Decimal.{isdigit, int_ℕ}
use radio_robot_lib.Python.Split.{split, join, contains, partition}
use FixedPoint.{Float, nan, inf, finite, fixed_point}

pub record Reply : Type 0 where
  pub verb : Text
  pub fields : List Text
  pub id : Option ℕ

-- A Python value that a caller hands over as a field.
pub data Field : Type 0 where
  bool : Bool → Field
  int : ℤ → Field
  float : Float → Field
  str : Text → Field

or_invalid : Option Text → Result Text
or_invalid none = err invalid_operation
or_invalid (some t) = ok t

unfoldable pub format_field : Field → Result Text
unfolding or_invalid
format_field (bool b) = err type_error
format_field (float nan) = err value_error
format_field (float inf) = err value_error
format_field (float (finite text)) =
    if contains b'e' text || contains b'E' text then or_invalid (fixed_point text) else ok text
format_field (int z) = ok (Decimal.str z)
format_field (str text) = ok text

unfoldable pub format_fields : List Field → Result (List Text)
unfolding format_field
format_fields [] = ok []
format_fields (f ∷ fs) = do t ← format_field f; ts ← format_fields fs; ok (t ∷ ts)

abbrev pub hash_token : ℤ → Text
hash_token n = b'#' ∷ Decimal.str n

unfoldable pub with_id : List Text → Option ℤ → Result (List Text)
with_id tokens none = ok tokens
with_id tokens (some n) =
    if ltb_ℤ n (pos 0) then err value_error else ok (tokens ++ hash_token n ∷ [])

unfoldable pub encode_command : Text → List Field → Option ℤ → Result Text
unfolding with_id
encode_command verb fields seq_id =
    if text_eq verb [] || contains b' ' verb
    then err value_error
    else do ts ← format_fields fields; tokens ← with_id (verb ∷ ts) seq_id; ok (join tokens)

-- The value of a token `#<digits>`.
unfoldable pub id_token : Text → Option ℕ
id_token [] = none
id_token (c ∷ digits) = if (c == b'#') && isdigit digits then int_ℕ digits else none

-- The tokens behind the verb, and the id if the last of them is one.
unfoldable pub split_id : List Text → List Text × Option ℕ
split_id [] = ([], none)
split_id (t ∷ []) = elim (id_token t) [ none ↦ (t ∷ [], none) | some n ↦ ([], some n) ]
split_id (t ∷ u ∷ rest) = let (fields, id) = split_id (u ∷ rest) in (t ∷ fields, id)

unfoldable pub reply_of_tokens : List Text → Result Reply
unfolding split_id
reply_of_tokens [] = err value_error
reply_of_tokens (verb ∷ rest) =
    let (fields, id) = split_id rest in ok (record { verb = verb; fields = fields; id = id })

unfoldable pub parse_reply : Text → Result Reply
unfolding reply_of_tokens
parse_reply line = reply_of_tokens (split line)

-- `d[k] = v`
unfoldable pub insert : Text → Text → List (Text × Text) → List (Text × Text)
insert k v [] = (k, v) ∷ []
insert k v ((j, w) ∷ d) = if text_eq j k then (k, v) ∷ d else (j, w) ∷ insert k v d

-- `dict(field.split("=", 1) for field in fields)`: a field with no `=` makes no pair.
kv_fields : List Text → List (Text × Text) → Result (List (Text × Text))
unfolding insert partition
kv_fields [] d = ok d
kv_fields (f ∷ fs) d =
    let (k, v) = partition b'=' f in
    elim v [ none ↦ err value_error | some w ↦ kv_fields fs (insert k w d) ]

unfoldable pub parse_kv_fields : Reply → Result (List (Text × Text))
unfolding kv_fields
parse_kv_fields reply = kv_fields reply.fields []

encode_values :
    (encode_command (codes "WHEELS_V") (int (pos 100) ∷ int (negsuc 49) ∷ []) (some (pos 1))
      ≡ ok (codes "WHEELS_V 100 -50 #1"))
    × (encode_command (codes "SET") (str (codes "kp") ∷ bool true ∷ []) none ≡ err type_error)
    × (encode_command (codes "A B") [] none ≡ err value_error)
unfolding encode_command format_fields text_eq contains Decimal.str Decimal.str_ℕ join
encode_values = (refl, refl, refl)
