-- ===== src/RobotV6/Session/Resend.antt =====
-- What `Session` does on an `ack` and on a `nack`.
use radio_robot_lib.Prelude.{
  ℕ, zero, suc, ◌+◌, ◌<◌, ◌≡◌, refl, ap, subst, ◌∙◌, inl, inr, ◌++◌, true, false, Option, none,
  some, List, [], ◌∷◌, map, append_assoc, append-nil, arith, ltb, max, if◌then◌else◌, All,
  Bool-cases, ltb→lt,
}
use radio_robot_lib.Prelude.Text.{Text, codes, text_eq_iff}
use radio_robot_lib.Prelude.Int.{ℤ, pos, pos_part, leb_ℤ, eqb_ℤ_iff}
use radio_robot_lib.Python.Error.{Result, ok}
use radio_robot_lib.RobotV6.Codec.{Reply}
use radio_robot_lib.RobotV6.Transport.{newline, is_ascii, send_line}
use radio_robot_lib.RobotV6.Session.AckFields.{ack_nack_fields}
use radio_robot_lib.RobotV6.Session.Pending.{Outbox, get_line}
use radio_robot_lib.RobotV6.Session.Pending.Order.{
  get_line-retire, sorted-ids_from, entries_from, ids, ids-entries_from, entries_from-All, StandsIn,
  Ascends-StandsIn,
}
use radio_robot_lib.RobotV6.Session.{
  World, Session, transmit, on_transport, or_key_error, send_pending, set_done, set_nack,
  retire_through, same_nack, cooling_down, resend_at, monotonic, maybe_resend_from, on_ack,
  handle_reply,
}
use radio_robot_lib.RobotV6.Session.Invariant.{IsWell}

-- An acknowledgement of `n` retires exactly the ids up to `n`, raises the highest acknowledged id to
-- `n` if it is below, takes over the completion state, and writes nothing.
pub ack_retires :
    (w : World) (reply : Reply) (n last_done : ℤ) (reason : Text) (s : Session) (i : ℕ)
    → reply.verb ≡ codes "ack"
    → ack_nack_fields reply ≡ ok (n, last_done, reason)
    → let s' = (handle_reply w reply s).1 in
      (get_line i s'.pending ≡ (if leb_ℤ (pos i) n then none else get_line i s.pending))
      × (s'.highest_acked ≡ max s.highest_acked (pos_part n))
      × (s'.last_done ≡ last_done)
      × (s'.last_done_reason ≡ reason)
      × (s'.transport ≡ s.transport)
unfolding handle_reply on_ack retire_through set_done
ack_retires w reply n last_done reason s i is_ack parsed =
    rw ((text_eq_iff reply.verb (codes "ack")).1 is_ack, parsed)
      (get_line-retire n i s.pending, refl, refl, refl, refl)

-- The lines as they are written.
abbrev pub frames : Outbox → List Text
frames = map (λ e. e.1 ++ newline ∷ [])

abbrev pub IsSendable : ℕ × Text → Type 0
IsSendable e = is_ascii e.1 ≡ true

abbrev pub append_written : List Text → Session → Session
append_written ts s = record s {
  transport = record s.transport { written = s.transport.written ++ ts };
}

send_pending-frames :
    (es : Outbox) (s : Session)
    → All (StandsIn s.pending) es
    → All IsSendable es
    → send_pending (ids es) s ≡ (ok tt, append_written (frames es) s)
unfolding send_pending transmit on_transport send_line or_key_error
send_pending-frames [] s found ascii = rw (append-nil s.transport.written)
send_pending-frames ((i, line) ∷ es) s (here, found) (a, ascii) =
    rw
      (here, a, send_pending-frames es (append_written ((line ++ newline ∷ []) ∷ []) s) found ascii)
      (ap (λ ts. (ok tt, record s { transport = record s.transport { written = ts } }))
        (append_assoc s.transport.written ((line ++ newline ∷ []) ∷ []) (frames es)))

-- A repeat of the latest nack within the cooldown.
abbrev pub IsRepeat : ℤ → ℕ → Session → Type 0
IsRepeat n now s = (s.last_nack_next ≡ some n) × (now < s.last_resend_time + s.resend_cooldown)

same_nack-true : (o : Option ℤ) (n : ℤ) → o ≡ some n → same_nack o n ≡ true
unfolding same_nack
same_nack-true none n e = absurd (cc)
same_nack-true (some m) n e = (eqb_ℤ_iff m n).1 (cc)

same_nack-eq : (o : Option ℤ) (n : ℤ) → same_nack o n ≡ true → o ≡ some n
unfolding same_nack
same_nack-eq none n h = absurd (cc)
same_nack-eq (some m) n h = ap some ((eqb_ℤ_iff m n).0 h)

cooling_down-IsRepeat :
    (n : ℤ) (now : ℕ) (s : Session) → IsRepeat n now s → cooling_down n now s ≡ true
unfolding cooling_down
cooling_down-IsRepeat n now s (same, soon) =
    rw (same_nack-true s.last_nack_next n same) (ground arith)

not_cooling_down :
    (n : ℤ) (now : ℕ) (s : Session) → ¬ IsRepeat n now s → cooling_down n now s ≡ false
unfolding cooling_down
not_cooling_down n now s new = elim (Bool-cases (same_nack s.last_nack_next n)) [
  | inr other ↦ rw other
  | inl same ↦ elim (Bool-cases (ltb now (s.last_resend_time + s.resend_cooldown))) [
    | inr later ↦ rw (same, later)
    | inl soon ↦ absurd (new (same_nack-eq s.last_nack_next n same, ltb→lt _ _ soon))
  ]
]

abbrev tick : Session → Session
tick s = record s { clock_reads = suc s.clock_reads }

abbrev pub noted : ℤ → ℕ → Session → Session
noted n now s = record s {
  last_nack_next = some n;
  last_resend_time = now;
  clock_reads = suc s.clock_reads;
}

-- The session after the lines are written again.
abbrev pub resent : ℤ → ℕ → Session → Session
resent n now s = append_written (frames (entries_from n s.pending)) (noted n now s)

-- In a well-formed session in which every buffered line is ASCII: a nack that names `n`, unless it
-- repeats the latest one within the cooldown, writes again exactly the buffered lines with an id of
-- at least `n`, in the order of their ids, and keeps the buffer.
pub nack_resends :
    (w : World) (n : ℤ) (s : Session)
    → IsWell s
    → All IsSendable s.pending
    → ¬ IsRepeat n (w.monotonic s.clock_reads) s
    → maybe_resend_from w n s ≡ (ok tt, resent n (w.monotonic s.clock_reads) s)
unfolding maybe_resend_from monotonic resend_at set_nack
nack_resends w n s well ascii new = rw (
  not_cooling_down n (w.monotonic s.clock_reads) (tick s) new,
  sorted-ids_from n 1 s.pending s.next_id well.ascending,
  ← ids-entries_from n s.pending,
  send_pending-frames (entries_from n s.pending) (noted n (w.monotonic s.clock_reads) s)
      (entries_from-All (StandsIn s.pending) n s.pending
        (Ascends-StandsIn 1 s.pending s.next_id well.ascending))
      (entries_from-All IsSendable n s.pending ascii),
)

-- Nacks that all name `n`, one after the other.
unfoldable pub burst : World → ℤ → ℕ → Session → Session
burst w n zero s = s
burst w n (suc k) s = burst w n k (maybe_resend_from w n s).1

repeat_silent :
    (w : World) (n : ℤ) (s : Session)
    → IsRepeat n (w.monotonic s.clock_reads) s
    → maybe_resend_from w n s ≡ (ok tt, tick s)
unfolding maybe_resend_from monotonic resend_at
repeat_silent w n s again = rw (cooling_down-IsRepeat n (w.monotonic s.clock_reads) (tick s) again)

-- The first `k` readings from now on lie before the cooldown is over.
abbrev pub IsSoon : World → ℕ → Session → Type 0
IsSoon w k s =
    (j : ℕ) → j < k → w.monotonic (s.clock_reads + j) < s.last_resend_time + s.resend_cooldown

IsSoon-tick : (w : World) (k : ℕ) (s : Session) → IsSoon w (suc k) s → IsSoon w k (tick s)
IsSoon-tick w k s soon j h =
    subst (λ m. w.monotonic m < s.last_resend_time + s.resend_cooldown) (omega arith)
      (soon (suc j) (omega arith))

reading_now :
    (w : World) (k : ℕ) (s : Session)
    → IsSoon w (suc k) s
    → w.monotonic s.clock_reads < s.last_resend_time + s.resend_cooldown
reading_now w k s soon =
    subst (λ m. w.monotonic m < s.last_resend_time + s.resend_cooldown) (omega arith)
      (soon 0 (omega arith))

burst_silent :
    (w : World) (n : ℤ) (k : ℕ) (s : Session)
    → s.last_nack_next ≡ some n
    → IsSoon w k s
    → burst w n k s ≡ record s { clock_reads = s.clock_reads + k }
unfolding burst
burst_silent w n zero s same soon = ap (λ c. record s { clock_reads = c }) (omega arith)
burst_silent w n (suc k) s same soon = rw (repeat_silent w n s (same, reading_now w k s soon)) (
    burst_silent w n k (tick s) same (IsSoon-tick w k s soon)
    ∙ ap (λ c. record s { clock_reads = c }) (omega arith))

-- In a well-formed session in which every buffered line is ASCII: however many nacks for `n` come
-- one after the other, the lines from `n` on are written again just once, if the first nack is no
-- repeat within the cooldown and the clock readings made for the others lie before the cooldown that
-- it starts is over.
pub burst_resends_once :
    (w : World) (n : ℤ) (k : ℕ) (s : Session)
    → IsWell s
    → All IsSendable s.pending
    → ¬ IsRepeat n (w.monotonic s.clock_reads) s
    → IsSoon w k (resent n (w.monotonic s.clock_reads) s)
    → (burst w n (suc k) s).transport.written
      ≡ s.transport.written ++ frames (entries_from n s.pending)
unfolding burst
burst_resends_once w n k s well ascii new soon =
    ap (λ (r : Result Unit × Session). (burst w n k r.1).transport.written)
      (nack_resends w n s well ascii new)
    ∙ ap (λ (t : Session). t.transport.written)
        (burst_silent w n k (resent n (w.monotonic s.clock_reads) s) refl soon)
