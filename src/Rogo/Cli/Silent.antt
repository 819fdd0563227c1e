-- ===== src/Rogo/Cli/Silent.antt =====
-- What `drive stream` of src/host/rogo/cli.py does on a link on which nothing comes back.
use radio_robot_lib.Prelude.{
  ℕ, zero, suc, ◌+◌, ◌<◌, ◌≡◌, refl, ap, ◌∙◌, List, [], ◌∷◌, arith, leb, Bool-cases, inl, inr,
  length, length-append,
}
use radio_robot_lib.Prelude.Text.{Text}
use radio_robot_lib.Prelude.Int.{ℤ}
use radio_robot_lib.Python.Error.{Result, ok, err}
use radio_robot_lib.Python.Exec.{bind_outcome}
use radio_robot_lib.RobotV6.Codec.{Field, int}
use radio_robot_lib.RobotV6.Transport.{chunk, read_lines}
use radio_robot_lib.RobotV6.Session.{
  World, Session, send, submit, is_unsequenced, transmit, on_transport, pump, receive, pump_lines,
}
use radio_robot_lib.RobotV6.Session.Pending.{put}
use radio_robot_lib.RobotV6.Session.Pending.Order.{put-append}
use radio_robot_lib.RobotV6.Session.Invariant.{IsWell, IsWell-stable}
use radio_robot_lib.RobotV6.Session.Stable.{send-Keeps}
use radio_robot_lib.RobotV6.Session.Progress.{Advances-stable, Advances-refl}
use radio_robot_lib.RobotV6.Motion.{wheels_v}
use radio_robot_lib.Rogo.Cli.Fields.{lease_of}
use radio_robot_lib.Rogo.Cli.Drive.{stream_rounds, drive_stream}

-- A method that returns has added this many lines to the buffer.
abbrev Adds : {A : Type 0} → ℕ → Session → Result A × Session → Type 0
Adds n s (err e, t) = Unit
Adds n s (ok a, t) = length t.pending ≡ n + length s.pending

transmit_pending : (line : Text) (s : Session) → (transmit line s).1.pending ≡ s.pending
unfolding transmit on_transport
transmit_pending line s = refl

put_adds :
    (s : Session) (line : Text)
    → IsWell s
    → length (put s.next_id line s.pending) ≡ 1 + length s.pending
put_adds s line well =
    rw (put-append 1 s.pending s.next_id line well.ascending)
      (omega (arith, length-append {0} s.pending ((s.next_id, line) ∷ [])))

submit-Adds : (line : Result Text) (s : Session) → IsWell s → Adds 1 s (submit line s)
unfolding submit
submit-Adds (err e) s well = tt
submit-Adds (ok line) s well =
    let taken : Session = record s {
      next_id = suc s.next_id;
      pending = put s.next_id line s.pending;
    } in
    bind_outcome (λ x. length x.1.pending ≡ 1 + length s.pending) (Adds 1 s)
      (λ _ t. (ok s.next_id, t)) (transmit line taken) (λ e t. tt) (λ a t h. h)
      (ap (length {0}) (transmit_pending line taken) ∙ put_adds s line well)

send-Adds :
    (verb : Text) (fields : List Field) (s : Session) → IsWell s → Adds 1 s (send verb fields s)
unfolding send
send-Adds verb fields s well = elim (Bool-cases (is_unsequenced verb)) [
  | inl bad ↦ rw bad tt
  | inr fine ↦ elim (Bool-cases (leb s.max_pending (length s.pending))) [
    | inl full ↦ rw (fine, full) tt
    | inr room ↦ rw (fine, room) (submit-Adds _ s well)
  ]
]

-- Something was raised.
abbrev pub Raises : {A : Type 0} → Result A × Session → Type 0
Raises (err e, s) = Unit
Raises (ok a, s) = ⊥

-- Nothing comes back.
abbrev pub IsSilent : World → Type 0
IsSilent w = (i : ℕ) → w.arrivals i ≡ chunk []

module _ (w : World) (fuel : ℕ) (silent : IsSilent w) where
  pump_silent : (s : Session) → pump w s ≡ (ok [], record s { chunk_reads = suc s.chunk_reads })
  unfolding pump receive on_transport read_lines pump_lines
  pump_silent s = rw (silent s.chunk_reads) refl

  -- A well-formed session with the same limit and this many more lines.
  abbrev Fills : ℕ → Session → Result (Unit {0}) × Session → Type 0
  Fills n s (err e, t) = Unit
  Fills n s (ok a, t) =
      IsWell t × (t.max_pending ≡ s.max_pending) × (length t.pending ≡ n + length s.pending)

  -- What a sent command leaves.
  abbrev Sends : Session → Result ℕ × Session → Type 0
  Sends s (err e, t) = Unit
  Sends s (ok a, t) =
      IsWell t × (t.max_pending ≡ s.max_pending) × (length t.pending ≡ 1 + length s.pending)

  gather :
      (s : Session) (x : Result ℕ × Session)
      → IsWell x.1
      → x.1.max_pending ≡ s.max_pending
      → Adds 1 s x
      → Sends s x
  gather s (err e, t) well room adds = tt
  gather s (ok a, t) well room adds = (well, room, adds)

  wheels_v-Sends :
      (left right lease_ms : Field) (s : Session)
      → IsWell s
      → Sends s (wheels_v left right lease_ms s)
  unfolding wheels_v
  wheels_v-Sends left right lease_ms s well =
      gather s _ (send-Keeps IsWell-stable _ _ s well)
        (send-Keeps (Advances-stable s) _ _ s (Advances-refl s)).room (send-Adds _ _ s well)

  extend :
      (rounds : ℕ) (s t : Session) (x : Result (Unit {0}) × Session)
      → t.max_pending ≡ s.max_pending
      → length t.pending ≡ 1 + length s.pending
      → Fills rounds t x
      → Fills (suc rounds) s x
  extend rounds s t (err e, u) room grown h = tt
  extend rounds s t (ok a, u) room grown (well, same, more) =
      (well, same ∙ room, omega (arith, grown, more))

  stream_rounds-Fills :
      (rounds : ℕ) (left right lease_ms : ℤ) (s : Session)
      → IsWell s
      → Fills rounds s (stream_rounds w fuel rounds left right lease_ms s)
  unfolding stream_rounds
  stream_rounds-Fills zero left right lease_ms s well = (well, refl, omega arith)
  stream_rounds-Fills (suc rounds) left right lease_ms s well =
      bind_outcome (Sends s) (Fills (suc rounds) s) _
        (wheels_v (int left) (int right) (int lease_ms) s) (λ e t. tt)
        (λ a t sent.
          let heard : Session = record t { chunk_reads = suc t.chunk_reads } in
          rw (pump_silent t) (
            extend rounds s heard _ sent.1 sent.2 (
              stream_rounds-Fills rounds left right lease_ms heard (record {
                ascending = sent.0.ascending;
                bounded = sent.0.bounded;
                numbered = sent.0.numbered;
              }))))
        (wheels_v-Sends (int left) (int right) (int lease_ms) s well)

  -- On a link on which nothing comes back a stream with more rounds than there is room in the buffer
  -- ends by an error that is raised inside the rounds, before the `STOP` that is to end it, and so
  -- does the command.
  pub drive_stream-Raises :
      (rounds : ℕ) (left right resend_ms : ℤ) (s : Session)
      → IsWell s
      → s.max_pending < rounds + length s.pending
      → Raises (stream_rounds w fuel rounds left right (lease_of resend_ms) s)
        × Raises (drive_stream w fuel rounds left right resend_ms s)
  unfolding drive_stream
  drive_stream-Raises rounds left right resend_ms s well over =
      let h = stream_rounds-Fills rounds left right (lease_of resend_ms) s well in
      (
        overfull (stream_rounds w fuel rounds left right (lease_of resend_ms) s) h,
        bind_outcome (Fills rounds s) Raises _
            (stream_rounds w fuel rounds left right (lease_of resend_ms) s) (λ e t. tt)
            (λ a t filled. absurd (overfull (ok a, t) filled)) h,
      )
    where
      overfull : (x : Result (Unit {0}) × Session) → Fills rounds s x → Raises x
      overfull (err e, t) h = tt
      overfull (ok a, t) (filled, same, more) = omega (arith, filled.bounded, same, more, over)
