-- ===== src/RobotV6/Codec/Texts.antt =====
-- The texts of a parsed reply of src/host/robot_v6/codec.py are made of those of its line.
use radio_robot_lib.Prelude.{ℕ, Option, none, some, List, [], ◌∷◌, All}
use radio_robot_lib.Prelude.Text.{Text}
use radio_robot_lib.Python.Error.{Result, ok, err}
use radio_robot_lib.Python.Split.{split, split-All}
use radio_robot_lib.RobotV6.Codec.{Reply, split_id, id_token, reply_of_tokens, parse_reply}

module _ (P : ℕ → Type 0) where
  abbrev pub IsOf : Reply → Type 0
  IsOf reply = All P reply.verb × All (All P) reply.fields

  abbrev pub ParsesOf : Result Reply → Type 0
  ParsesOf (err e) = Unit
  ParsesOf (ok reply) = IsOf reply

  -- The last token, as a field or as an id.
  last-All :
      (t : Text) (o : Option ℕ)
      → All P t
      → All
          (All P)
          (elim o as (λ _. List Text × Option ℕ) [
            | none ↦ (t ∷ [], none)
            | some n ↦ ([], some n)
          ]).0
  last-All t none h = (h, tt)
  last-All t (some n) h = tt

  split_id-All : (ts : List Text) → All (All P) ts → All (All P) (split_id ts).0
  unfolding split_id
  split_id-All [] h = tt
  split_id-All (t ∷ []) (h, _) = last-All t (id_token t) h
  split_id-All (t ∷ u ∷ rest) (h, k) = (h, split_id-All (u ∷ rest) k)

  tokens-ParsesOf : (ts : List Text) → All (All P) ts → ParsesOf (reply_of_tokens ts)
  unfolding reply_of_tokens
  tokens-ParsesOf [] h = tt
  tokens-ParsesOf (verb ∷ rest) (h, k) = (h, split_id-All rest k)

  pub parse_reply-ParsesOf : (line : Text) → All P line → ParsesOf (parse_reply line)
  unfolding parse_reply
  parse_reply-ParsesOf line h = tokens-ParsesOf (split line) (split-All P line h)
