-- ===== src/RobotV6/Codec/RoundTrip.antt =====
-- A formatted command line is parsed back into the tokens that it was made of.
use radio_robot_lib.Prelude.{
  ℕ, ◌≡◌, ◌≢◌, ◌↔◌, refl, true, false, some, List, [], ◌∷◌, ◌++◌, arith, All, All-append,
  All-weaken,
}
use radio_robot_lib.Prelude.Text.{Text, text_eq}
use radio_robot_lib.Prelude.Int.{pos}
use radio_robot_lib.Python.Error.{ok, err, value_error, ◌>>=◌}
use radio_robot_lib.Python.Decimal
use radio_robot_lib.Python.Decimal.{IsDigit, isdigit, isdigit-str_ℕ, str_ℕ-IsDigit, int_ℕ-str_ℕ}
use radio_robot_lib.Python.Split.{
  contains, IsToken, is_space, split, join, split-join, is_blank, split-is_blank,
}
use radio_robot_lib.RobotV6.Codec.{
  Field, format_fields, hash_token, encode_command, id_token, split_id, reply_of_tokens,
  parse_reply,
}

token-no_space : (t : Text) → All (λ c. is_space c ≡ false) t → contains b' ' t ≡ false
unfolding contains is_space
token-no_space [] h = refl
token-no_space (c ∷ t) h = ground (arith, token-no_space t)

token-nonempty : (t : Text) → t ≢ [] → text_eq t [] ≡ false
unfolding text_eq
token-nonempty [] ne = absurd (ne refl)
token-nonempty (c ∷ t) ne = refl

digit-not_space : (c : ℕ) → IsDigit c → is_space c ≡ false
unfolding is_space
digit-not_space c h = ground arith

pub hash_token-IsToken : (n : ℕ) → IsToken (hash_token (pos n))
unfolding Decimal.str is_space
hash_token-IsToken n =
    (cc, (refl, All-weaken IsDigit (λ c. is_space c ≡ false) _ digit-not_space (str_ℕ-IsDigit n)))

id_token-hash_token : (n : ℕ) → id_token (hash_token (pos n)) ≡ some n
unfolding id_token Decimal.str
id_token-hash_token n = rw (isdigit-str_ℕ n) (int_ℕ-str_ℕ n)

-- The id token is found at the end, whatever stands before it.
pub split_id-hash_token :
    (ts : List Text) (n : ℕ) → split_id (ts ++ hash_token (pos n) ∷ []) ≡ (ts, some n)
unfolding split_id
split_id-hash_token [] n = rw (id_token-hash_token n, split_id)
split_id-hash_token (t ∷ []) n = rw (id_token-hash_token n, split_id)
split_id-hash_token (t ∷ u ∷ rest) n = rw (split_id-hash_token (u ∷ rest) n, split_id)

pub encode_command-join :
    (verb : Text) (fields : List Field) (ts : List Text) (n : ℕ)
    → IsToken verb
    → format_fields fields ≡ ok ts
    → encode_command verb fields (some (pos n)) ≡ ok (join (verb ∷ ts ++ hash_token (pos n) ∷ []))
unfolding encode_command
encode_command-join verb fields ts n (ne, hv) hf =
    rw (token-nonempty verb ne, token-no_space verb hv, hf) (ground arith)

-- A command formatted with an id is parsed back into its verb, its fields and that id, if the verb
-- and the formatted fields are words, nonempty and without whitespace.
pub parse_reply-encode_command :
    (verb : Text) (fields : List Field) (ts : List Text) (n : ℕ)
    → IsToken verb
    → format_fields fields ≡ ok ts
    → All IsToken ts
    → (encode_command verb fields (some (pos n)) >>= parse_reply)
      ≡ ok (record { verb = verb; fields = ts; id = some n })
unfolding parse_reply
parse_reply-encode_command verb fields ts n hv hf ht = rw (
  encode_command-join verb fields ts n hv hf,
  split-join (verb ∷ ts ++ hash_token (pos n) ∷ [])
      (hv, All-append IsToken ts _ ht (hash_token-IsToken n, tt)),
  reply_of_tokens,
  split_id-hash_token ts n,
)

no_words : (ts : List Text) → reply_of_tokens ts ≡ err value_error → ts ≡ []
unfolding reply_of_tokens
no_words [] h = refl
no_words (t ∷ ts) h = cc

-- A line is refused exactly if it is blank.
pub parse_reply-is_blank :
    (line : Text) → (parse_reply line ≡ err value_error) ↔ (is_blank line ≡ true)
unfolding parse_reply
parse_reply-is_blank line = (
  λ h. (split-is_blank line).0 (no_words (split line) h),
  λ h. rw ((split-is_blank line).1 h, reply_of_tokens),
)
