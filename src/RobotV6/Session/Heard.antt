-- ===== src/RobotV6/Session/Heard.antt =====
-- The texts of the replies that `Session.pump` of src/host/robot_v6/reliability.py returns: their code
-- points are those that bytes decode to.
use radio_robot_lib.Prelude.{
  ℕ, zero, suc, Option, none, some, List, [], ◌∷◌, ◌++◌, All, ltb, arith, inl, inr, Bool-cases,
  length, ltb→lt, refl,
}
use radio_robot_lib.Prelude.Text.{Text}
use radio_robot_lib.Prelude.Chars.{IsDecoded}
use radio_robot_lib.Python.Error.{Result, ok, err}
use radio_robot_lib.Python.Exec.{Exec, bind_outcome, pure, continue, ◌>>=◌, ◌>>◌}
use radio_robot_lib.Python.Split.{is_blank, partition}
use radio_robot_lib.RobotV6.Codec.{Reply, parse_reply}
use radio_robot_lib.RobotV6.Codec.Texts.{IsOf, ParsesOf, parse_reply-ParsesOf}
use radio_robot_lib.RobotV6.Session.{
  World, Session, pump, pump_lines, receive, handle_reply, on_transport,
}
use radio_robot_lib.RobotV6.Transport.{
  Transport, Read, chunk, closed, decode, strip_cr, line_of, drain, newline, read_lines,
}

decode-IsDecoded : (raw : Text) → All IsDecoded (decode raw)
unfolding decode
decode-IsDecoded [] = tt
decode-IsDecoded (b ∷ s) = elim (Bool-cases (ltb b 128)) [
  | inl ascii ↦ rw ascii (let h = ltb→lt b 128 ascii in inl (omega (arith, h)), decode-IsDecoded s)
  | inr other ↦ rw other (inr refl, decode-IsDecoded s)
]

drain-IsDecoded : (fuel : ℕ) (buffer : Text) → All (All IsDecoded) (drain fuel buffer).0
unfolding drain
drain-IsDecoded zero buffer = tt
drain-IsDecoded (suc fuel) buffer =
    behind (partition newline buffer).0 (partition newline buffer).1
      (λ rest. drain-IsDecoded fuel rest)
  where
    behind :
        (raw : Text) (o : Option Text)
        → ((rest : Text) → All (All IsDecoded) (drain fuel rest).0)
        → All
            (All IsDecoded)
            (elim o as (λ _. List Text × Text) [
              | none ↦ ([], buffer)
              | some rest ↦ (line_of raw ∷ (drain fuel rest).0, (drain fuel rest).1)
            ]).0
    behind raw none h = tt
    behind raw (some rest) h = (decode-IsDecoded (strip_cr raw), h rest)

-- Lines, and replies, of decoded texts.
abbrev LinesDecoded : {S : Type 0} → Result (List Text) × S → Type 0
LinesDecoded (err e, s) = Unit
LinesDecoded (ok lines, s) = All (All IsDecoded) lines

abbrev pub RepliesDecoded : Result (List Reply) × Session → Type 0
RepliesDecoded (err e, s) = Unit
RepliesDecoded (ok replies, s) = All (IsOf IsDecoded) replies

read_lines-LinesDecoded : (r : Read) (t : Transport) → LinesDecoded (read_lines r t)
unfolding read_lines
read_lines-LinesDecoded closed t = tt
read_lines-LinesDecoded (chunk []) t = tt
read_lines-LinesDecoded (chunk (b ∷ bytes)) t =
    drain-IsDecoded (length (t.buffer ++ b ∷ bytes)) (t.buffer ++ b ∷ bytes)

with_state :
    {S T : Type 0} (x : Result (List Text) × S) (t : T) → LinesDecoded x → LinesDecoded (x.0, t)
with_state (err e, s) t h = tt
with_state (ok lines, s) t h = h

module _ (w : World) where
  -- The lines behind a reply.
  after_reply :
      (reply : Reply) (rest : Exec Session (List Reply)) (s : Session)
      → IsOf IsDecoded reply
      → ((t : Session) → RepliesDecoded (rest t))
      → RepliesDecoded ((do handle_reply w reply; replies ← rest; pure (reply ∷ replies)) s)
  after_reply reply rest s own later =
      bind_outcome (λ _. Unit) RepliesDecoded (λ _. rest >>= λ replies. pure (reply ∷ replies))
        (handle_reply w reply s) (λ e t. tt)
        (λ a t _.
          bind_outcome RepliesDecoded RepliesDecoded (λ replies. pure (reply ∷ replies)) (rest t)
            (λ e u. tt) (λ replies u h. (own, h)) (later t))
        tt

  parsed_line :
      (r : Result Reply) (rest : Exec Session (List Reply)) (s : Session)
      → ParsesOf IsDecoded r
      → ((t : Session) → RepliesDecoded (rest t))
      → RepliesDecoded
          (continue r (λ reply. do handle_reply w reply; replies ← rest; pure (reply ∷ replies)) s)
  parsed_line (err e) rest s own later = tt
  parsed_line (ok reply) rest s own later = after_reply reply rest s own later

  pump_lines-RepliesDecoded :
      (lines : List Text) (s : Session)
      → All (All IsDecoded) lines
      → RepliesDecoded (pump_lines w lines s)
  unfolding pump_lines
  pump_lines-RepliesDecoded [] s h = tt
  pump_lines-RepliesDecoded (line ∷ lines) s (own, h) = elim (Bool-cases (is_blank line)) [
    | inl blank ↦ rw blank (pump_lines-RepliesDecoded lines s h)
    | inr words ↦ rw words (
        parsed_line (parse_reply line) (pump_lines w lines) s
          (parse_reply-ParsesOf IsDecoded line own) (λ t. pump_lines-RepliesDecoded lines t h))
  ]

  pub pump-RepliesDecoded : (s : Session) → RepliesDecoded (pump w s)
  unfolding pump receive on_transport
  pump-RepliesDecoded s =
      bind_outcome LinesDecoded RepliesDecoded (pump_lines w) (receive w s) (λ e t. tt)
        (λ lines t h. pump_lines-RepliesDecoded lines t h)
        (with_state (read_lines (w.arrivals s.chunk_reads) s.transport) (receive w s).1
          (read_lines-LinesDecoded (w.arrivals s.chunk_reads) s.transport))
