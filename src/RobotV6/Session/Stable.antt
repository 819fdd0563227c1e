-- ===== src/RobotV6/Session/Stable.antt =====
-- A property of sessions that every single update keeps is kept by every method, whatever the
-- robot sends, whether the method returns or raises.
use radio_robot_lib.Prelude.{
  ℕ, suc, ◌+◌, ◌≡◌, refl, false, none, some, List, [], ◌∷◌, ltb, leb, Bool-cases, inl, inr, length,
}
use radio_robot_lib.Prelude.Text.{Text, codes, text_eq}
use radio_robot_lib.Prelude.Int.{ℤ, pos}
use radio_robot_lib.Python.Error.{Result, ok, err}
use radio_robot_lib.Python.Exec.{pure, lift, Keeps, Keeps-bind, Keeps-if}
use radio_robot_lib.Python.Split.{is_blank}
use radio_robot_lib.RobotV6.Codec.{Field, Reply, encode_command, parse_reply}
use radio_robot_lib.RobotV6.Transport.{Transport}
use radio_robot_lib.RobotV6.Session.Pending.{put, get_line}
use radio_robot_lib.RobotV6.Session.AckFields.{ack_nack_fields}
use radio_robot_lib.RobotV6.Session.{
  World, Session, is_unsequenced, on_transport, transmit, submit, send, send_unsequenced,
  retire_through, set_done, set_nack, or_key_error, send_pending, cooling_down, resend_at,
  monotonic, maybe_resend_from, on_ack, on_nack, handle_reply, pump_lines, receive, pump, poll_at,
  maybe_poll_status,
}

pub record IsStable (P : Session → Type 0) : Type 0 where
  pub transport_kept : (s : Session) (t : Transport) → P s → P (record s { transport = t })
  pub burnt : (s : Session) → P s → P (record s { next_id = suc s.next_id })
  pub assigned :
      (s : Session) (verb : Text) (fields : List Field) (line : Text)
      → leb s.max_pending (length s.pending) ≡ false
      → encode_command verb fields (some (pos s.next_id)) ≡ ok line
      → P s
      → P (record s { next_id = suc s.next_id; pending = put s.next_id line s.pending })
  pub retired : (s : Session) (n : ℤ) → P s → P (retire_through n s)
  pub done_set : (s : Session) (n : ℤ) (reason : Text) → P s → P (set_done n reason s)
  pub nack_set : (s : Session) (n : ℤ) (now : ℕ) → P s → P (set_nack n now s)
  pub clock_read : (s : Session) → P s → P (record s { clock_reads = suc s.clock_reads })
  pub chunk_read : (s : Session) → P s → P (record s { chunk_reads = suc s.chunk_reads })
  pub polled : (s : Session) (now : ℕ) → P s → P (record s { last_status_poll = now })

module _ {P : Session → Type 0} (stable : IsStable P) where
  transmit-Keeps : (line : Text) → Keeps P (transmit line)
  unfolding transmit on_transport
  transmit-Keeps line s h = stable.transport_kept s _ h

  submit-Keeps :
      (verb : Text) (fields : List Field) (r : Result Text) (s : Session)
      → leb s.max_pending (length s.pending) ≡ false
      → encode_command verb fields (some (pos s.next_id)) ≡ r
      → P s
      → P (submit r s).1
  unfolding submit
  submit-Keeps verb fields (err e) s room r h = stable.burnt s h
  submit-Keeps verb fields (ok line) s room r h =
      Keeps-bind P (transmit line) (λ _. pure s.next_id) (transmit-Keeps line) (λ _ t k. k) _
        (stable.assigned s verb fields line room r h)

  pub send-Keeps : (verb : Text) (fields : List Field) → Keeps P (send verb fields)
  unfolding send
  send-Keeps verb fields s h = elim (Bool-cases (is_unsequenced verb)) [
    | inl bad ↦ rw bad h
    | inr fine ↦ elim (Bool-cases (leb s.max_pending (length s.pending))) [
      | inl full ↦ rw (fine, full) h
      | inr room ↦ rw (fine, room) (submit-Keeps verb fields _ s room refl h)
    ]
  ]

  pub send_unsequenced-Keeps :
      (verb : Text) (fields : List Field) → Keeps P (send_unsequenced verb fields)
  unfolding send_unsequenced
  send_unsequenced-Keeps verb fields =
      Keeps-if P (is_unsequenced verb) _ _
        (λ _.
          Keeps-bind P (lift (encode_command verb fields none)) transmit (λ s h. h) transmit-Keeps)
        (λ _ s h. h)

  send_pending-Keeps : (ids : List ℕ) → Keeps P (send_pending ids)
  unfolding send_pending
  send_pending-Keeps [] = λ s h. h
  send_pending-Keeps (i ∷ ids) =
      Keeps-bind P (λ s. (or_key_error (get_line i s.pending), s)) _ (λ s h. h)
        λ line. Keeps-bind P (transmit line) _ (transmit-Keeps line) λ _. send_pending-Keeps ids

  resend_at-Keeps : (now : ℕ) (n : ℤ) → Keeps P (resend_at now n)
  unfolding resend_at
  resend_at-Keeps now n s h = elim (Bool-cases (cooling_down n now s)) [
    | inl cool ↦ rw cool h
    | inr warm ↦ rw warm (send_pending-Keeps _ (set_nack n now s) (stable.nack_set s n now h))
  ]

  module _ (w : World) where
    pub monotonic-Keeps : Keeps P (monotonic w)
    unfolding monotonic
    monotonic-Keeps s h = stable.clock_read s h

    maybe_resend_from-Keeps : (n : ℤ) → Keeps P (maybe_resend_from w n)
    unfolding maybe_resend_from
    maybe_resend_from-Keeps n =
        Keeps-bind P (monotonic w) (λ now. resend_at now n) monotonic-Keeps
          (λ now. resend_at-Keeps now n)

    on_ack-Keeps : (f : ℤ × ℤ × Text) → Keeps P (on_ack w f)
    unfolding on_ack
    on_ack-Keeps (n, d, reason) s h = stable.done_set _ d reason (stable.retired s n h)

    on_nack-Keeps : (f : ℤ × ℤ × Text) → Keeps P (on_nack w f)
    unfolding on_nack
    on_nack-Keeps (n, d, reason) s h =
        maybe_resend_from-Keeps n (set_done d reason s) (stable.done_set s d reason h)

    pub handle_reply-Keeps : (reply : Reply) → Keeps P (handle_reply w reply)
    unfolding handle_reply
    handle_reply-Keeps reply =
        Keeps-if P (text_eq reply.verb (codes "ack")) _ _
          (λ _. Keeps-bind P (lift (ack_nack_fields reply)) (on_ack w) (λ s h. h) on_ack-Keeps)
          λ _.
            Keeps-if P (text_eq reply.verb (codes "nack")) _ _
              (λ _.
                Keeps-bind P (lift (ack_nack_fields reply)) (on_nack w) (λ s h. h) on_nack-Keeps)
              (λ _ s h. h)

    pump_lines-Keeps : (lines : List Text) → Keeps P (pump_lines w lines)
    unfolding pump_lines
    pump_lines-Keeps [] = λ s h. h
    pump_lines-Keeps (line ∷ lines) =
        Keeps-if P (is_blank line) _ _ (λ _. pump_lines-Keeps lines)
          λ _.
            Keeps-bind P (lift (parse_reply line)) _ (λ s h. h)
              λ reply.
                Keeps-bind P (handle_reply w reply) _ (handle_reply-Keeps reply)
                  λ _. Keeps-bind P (pump_lines w lines) _ (pump_lines-Keeps lines) (λ _ s h. h)

    receive-Keeps : Keeps P (receive w)
    unfolding receive on_transport
    receive-Keeps s h = stable.transport_kept _ _ (stable.chunk_read s h)

    pub pump-Keeps : Keeps P (pump w)
    unfolding pump
    pump-Keeps = Keeps-bind P (receive w) (pump_lines w) receive-Keeps pump_lines-Keeps

    poll_at-Keeps : (now : ℕ) → Keeps P (poll_at w now)
    unfolding poll_at
    poll_at-Keeps now s h = elim (Bool-cases (ltb now (s.last_status_poll + s.resend_cooldown))) [
      | inl soon ↦ rw soon h
      | inr due ↦ elim (Bool-cases (leb s.max_pending (length s.pending))) [
        | inl full ↦ rw (due, full) h
        | inr room ↦
            rw (due, room)
              (Keeps-bind P (send (codes "STATUS") []) (λ _. pure tt) (send-Keeps _ _) (λ _ t k. k)
                _ (stable.polled s now h))
      ]
    ]

    pub maybe_poll_status-Keeps : Keeps P (maybe_poll_status w)
    unfolding maybe_poll_status
    maybe_poll_status-Keeps = Keeps-bind P (monotonic w) (poll_at w) monotonic-Keeps poll_at-Keeps
