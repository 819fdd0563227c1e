-- ===== src/RobotV6/Session/Invariant.antt =====
-- What holds of a session at all times.
use radio_robot_lib.Prelude.{
  ℕ, suc, ◌≤◌, ◌≡◌, refl, sym, ap, ◌∙◌, false, ◌||◌, some, List, [], ◌∷◌, ◌++◌, append_assoc, arith,
  leb, length, length-append, All, All-append, Bool-cases, inl, inr,
}
use radio_robot_lib.Prelude.Text.{Text, text_eq}
use radio_robot_lib.Prelude.Int.{pos}
use radio_robot_lib.Python.Error.{Result, ok, err, ◌>>=◌}
use radio_robot_lib.Python.Split.{join, contains}
use radio_robot_lib.RobotV6.Codec.{Field, format_fields, hash_token, with_id, encode_command}
use radio_robot_lib.RobotV6.Transport.{Transport}
use radio_robot_lib.RobotV6.Session.Pending.{put}
use radio_robot_lib.RobotV6.Session.Pending.Order.{
  Ascends, put-append, Ascends-append, retire-Ascends, length-retire-le, retire-All, Ascends-suc,
}
use radio_robot_lib.RobotV6.Session.{World, Session, init, retire_through, set_done, set_nack}
use radio_robot_lib.RobotV6.Session.Stable.{IsStable}
use radio_robot_lib.RobotV6.Session.History.{Call, run, run-Keeps}

-- The line ends in ` #<id>`.
abbrev pub IsNumbered : ℕ × Text → Type 0
IsNumbered (i, line) = (before : Text) × (line ≡ before ++ b' ' ∷ hash_token (pos i))

join-snoc :
    (t : Text) (ts : List Text) (last : Text)
    → join (t ∷ ts ++ last ∷ []) ≡ join (t ∷ ts) ++ b' ' ∷ last
unfolding join
join-snoc t [] last = refl
join-snoc t (u ∷ ts) last =
    ap (λ s. t ++ b' ' ∷ s) (join-snoc u ts last)
    ∙ sym (append_assoc t (b' ' ∷ join (u ∷ ts)) (b' ' ∷ last))

with_id-pos :
    (tokens : List Text) (i : ℕ)
    → with_id tokens (some (pos i)) ≡ ok (tokens ++ hash_token (pos i) ∷ [])
unfolding with_id
with_id-pos tokens i = ground arith

joined-IsNumbered :
    (verb : Text) (i : ℕ) (line : Text) (r : Result (List Text))
    → (do ts ← r; tokens ← with_id (verb ∷ ts) (some (pos i)); ok (join tokens)) ≡ ok line
    → IsNumbered (i, line)
joined-IsNumbered verb i line (err e) h = absurd (cc)
joined-IsNumbered verb i line (ok ts) h = (
  join (verb ∷ ts),
  cc (rw (with_id-pos (verb ∷ ts) i) at h) ∙ join-snoc verb ts (hash_token (pos i)),
)

pub encode_command-IsNumbered :
    (verb : Text) (fields : List Field) (i : ℕ) (line : Text)
    → encode_command verb fields (some (pos i)) ≡ ok line
    → IsNumbered (i, line)
unfolding encode_command
encode_command-IsNumbered verb fields i line h =
    elim (Bool-cases (text_eq verb [] || contains b' ' verb)) [
      | inl illegal ↦ absurd (cc (rw illegal at h))
      | inr legal ↦ joined-IsNumbered verb i line (format_fields fields) (rw legal at h)
    ]

pub record IsWell (s : Session) : Type 0 where
  pub ascending : Ascends 1 s.pending s.next_id
  pub bounded : length s.pending ≤ s.max_pending
  pub numbered : All IsNumbered s.pending

assigned-IsWell :
    (s : Session) (line : Text)
    → leb s.max_pending (length s.pending) ≡ false
    → IsNumbered (s.next_id, line)
    → IsWell s
    → IsWell (record s { next_id = suc s.next_id; pending = put s.next_id line s.pending })
assigned-IsWell s line room numbered h = record {
  ascending =
      rw (put-append 1 s.pending s.next_id line h.ascending)
        (Ascends-append 1 s.pending s.next_id line h.ascending);
  bounded =
      rw (put-append 1 s.pending s.next_id line h.ascending)
        (ground (arith, length-append {0} s.pending ((s.next_id, line) ∷ [])));
  numbered =
      rw (put-append 1 s.pending s.next_id line h.ascending)
        (All-append IsNumbered s.pending _ h.numbered (numbered, tt));
}

pub IsWell-stable : IsStable IsWell
unfolding retire_through set_done set_nack
IsWell-stable = record {
  transport_kept =
      λ s t h. record { ascending = h.ascending; bounded = h.bounded; numbered = h.numbered };
  burnt = λ s h. record {
    ascending = Ascends-suc 1 s.pending s.next_id h.ascending;
    bounded = h.bounded;
    numbered = h.numbered;
  };
  assigned = λ s verb fields line room e h.
      assigned-IsWell s line room (encode_command-IsNumbered verb fields s.next_id line e) h;
  retired = λ s n h. record {
    ascending = retire-Ascends n 1 s.pending s.next_id h.ascending;
    bounded = omega (arith, length-retire-le n s.pending);
    numbered = retire-All IsNumbered n s.pending h.numbered;
  };
  done_set = λ s n reason h. record {
    ascending = h.ascending;
    bounded = h.bounded;
    numbered = h.numbered;
  };
  nack_set =
      λ s n now h. record { ascending = h.ascending; bounded = h.bounded; numbered = h.numbered };
  clock_read =
      λ s h. record { ascending = h.ascending; bounded = h.bounded; numbered = h.numbered };
  chunk_read =
      λ s h. record { ascending = h.ascending; bounded = h.bounded; numbered = h.numbered };
  polled =
      λ s now h. record { ascending = h.ascending; bounded = h.bounded; numbered = h.numbered };
}

pub init-IsWell : (t : Transport) (max_pending cooldown : ℕ) → IsWell (init t max_pending cooldown)
unfolding init
init-IsWell t max_pending cooldown = record {
  ascending = omega arith;
  bounded = omega arith;
  numbered = tt;
}

-- After any history of a new session, against any robot and with or without raises, the buffered
-- ids rise strictly, lie from 1 up to below the next id, number at most `max_pending`, and each
-- stands at the end of its own line.
pub run-IsWell :
    (w : World) (t : Transport) (max_pending cooldown : ℕ) (calls : List Call)
    → IsWell (run w (init t max_pending cooldown) calls)
run-IsWell w t max_pending cooldown calls =
    run-Keeps IsWell-stable w _ calls (init-IsWell t max_pending cooldown)
