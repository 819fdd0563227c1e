-- ===== src/RobotV6/Session.antt =====
-- The state of `Session` in src/host/robot_v6/reliability.py, and its methods; the proofs are in the
-- modules below. Times are whole numbers of one unit. What the environment decides is the `World`:
-- the readings of `time.monotonic()` and the results of `_read_chunk`, each by its number.
pub mod Pending
pub mod AckFields
pub mod Waiting
pub mod Stable
pub mod History
pub mod Invariant
pub mod Progress
pub mod Sending
pub mod Resend
pub mod Heard
use radio_robot_lib.Prelude.{
  ℕ, zero, suc, ◌+◌, max, ◌≡◌, refl, Bool, true, false, ◌&&◌, ◌||◌, not, Option, none, some, List,
  [], ◌∷◌, ◌++◌, map, ltb, leb, ◌==◌, if◌then◌else◌, length,
}
use radio_robot_lib.Prelude.Text.{Text, codes, text_eq}
use radio_robot_lib.Prelude.Int.{ℤ, pos, pos_part, leb_ℤ, eqb_ℤ}
use radio_robot_lib.Python.Error.{
  Error, Result, ok, err, value_error, key_error, pending_buffer_full,
}
use radio_robot_lib.Python.Exec.{Exec, pure, raise, lift, ◌>>=◌, ◌>>◌}
use radio_robot_lib.Python.Split.{is_blank}
use radio_robot_lib.RobotV6.Codec.{Field, Reply, encode_command, parse_reply}
use radio_robot_lib.RobotV6.Transport.{Transport, Read, read_lines, send_line}
use AckFields.{ack_nack_fields}
use Pending.{Outbox, put, get_line, ids_from, retire, sorted}

pub record World : Type 0 where
  pub monotonic : ℕ → ℕ
  pub arrivals : ℕ → Read

pub record Session : Type 0 where
  pub transport : Transport
  pub max_pending : ℕ
  pub resend_cooldown : ℕ
  pub next_id : ℕ
  pub pending : Outbox
  pub highest_acked : ℕ
  pub last_done : ℤ
  pub last_done_reason : Text
  pub last_nack_next : Option ℤ
  pub last_resend_time : ℕ
  pub last_status_poll : ℕ
  -- how many clock readings and how many reads there were so far
  pub clock_reads : ℕ
  pub chunk_reads : ℕ

unfoldable pub init : Transport → ℕ → ℕ → Session
init t max_pending resend_cooldown = record {
  transport = t;
  max_pending = max_pending;
  resend_cooldown = resend_cooldown;
  next_id = 1;
  pending = [];
  highest_acked = 0;
  last_done = pos 0;
  last_done_reason = codes "none";
  last_nack_next = none;
  last_resend_time = 0;
  last_status_poll = 0;
  clock_reads = 0;
  chunk_reads = 0;
}

abbrev pub hello : Text
hello = codes "HELLO"

abbrev pub estop : Text
estop = codes "ESTOP"

abbrev pub ping : Text
ping = codes "PING"

-- `verb in UNSEQUENCED_VERBS`
unfoldable pub is_unsequenced : Text → Bool
is_unsequenced verb = text_eq verb hello || text_eq verb estop || text_eq verb ping

unfoldable pub on_transport : {A : Type 0} → Exec Transport A → Exec Session A
on_transport m s = let (r, t) = m s.transport in (r, record s { transport = t })

unfoldable pub transmit : Text → Exec Session (Unit {0})
transmit line = on_transport (send_line line)

-- `send` from where the id is taken, given what `encode_command` comes to: the id is taken before
-- the line is formatted, and the line is kept before it is written.
unfoldable pub submit : Result Text → Exec Session ℕ
unfolding transmit
submit (err e) s = (err e, record s { next_id = suc s.next_id })
submit (ok line) s =
    (do transmit line; pure s.next_id)
      (record s { next_id = suc s.next_id; pending = put s.next_id line s.pending })

unfoldable pub send : Text → List Field → Exec Session ℕ
unfolding submit
send verb fields s =
    if is_unsequenced verb
    then (err value_error, s)
    else if leb s.max_pending (length s.pending)
    then (err pending_buffer_full, s)
    else submit (encode_command verb fields (some (pos s.next_id))) s

unfoldable pub send_unsequenced : Text → List Field → Exec Session (Unit {0})
unfolding transmit
send_unsequenced verb fields =
    if is_unsequenced verb
    then (do line ← lift (encode_command verb fields none); transmit line)
    else raise value_error

unfoldable pub retire_through : ℤ → Session → Session
retire_through n s = record s {
  pending = retire n s.pending;
  highest_acked = max s.highest_acked (pos_part n);
}

unfoldable pub set_done : ℤ → Text → Session → Session
set_done last_done reason s = record s { last_done = last_done; last_done_reason = reason }

unfoldable pub set_nack : ℤ → ℕ → Session → Session
set_nack next now s = record s { last_nack_next = some next; last_resend_time = now }

-- `self._last_nack_next == next_id`
unfoldable pub same_nack : Option ℤ → ℤ → Bool
same_nack none next = false
same_nack (some n) next = eqb_ℤ n next

unfoldable pub or_key_error : Option Text → Result Text
or_key_error none = err key_error
or_key_error (some line) = ok line

unfoldable pub send_pending : List ℕ → Exec Session (Unit {0})
unfolding transmit or_key_error
send_pending [] = pure tt
send_pending (i ∷ ids) = do
  line ← λ s. (or_key_error (get_line i s.pending), s)
  transmit line
  send_pending ids

-- Whether the repeat of a nack comes too soon.
unfoldable pub cooling_down : ℤ → ℕ → Session → Bool
unfolding same_nack
cooling_down next now s =
    same_nack s.last_nack_next next && ltb now (s.last_resend_time + s.resend_cooldown)

unfoldable pub resend_at : ℕ → ℤ → Exec Session (Unit {0})
unfolding set_nack
resend_at now next s =
    if cooling_down next now s
    then (ok tt, s)
    else send_pending (sorted (ids_from next s.pending)) (set_nack next now s)

module _ (w : World) where
  -- `time.monotonic()`
  unfoldable pub monotonic : Exec Session ℕ
  monotonic s = (ok (w.monotonic s.clock_reads), record s { clock_reads = suc s.clock_reads })

  unfoldable pub maybe_resend_from : ℤ → Exec Session (Unit {0})
  unfolding monotonic
  maybe_resend_from next = do now ← monotonic; resend_at now next

  unfoldable pub on_ack : ℤ × ℤ × Text → Exec Session (Unit {0})
  on_ack (n, last_done, reason) s = (ok tt, set_done last_done reason (retire_through n s))

  unfoldable pub on_nack : ℤ × ℤ × Text → Exec Session (Unit {0})
  unfolding maybe_resend_from
  on_nack (n, last_done, reason) s = maybe_resend_from n (set_done last_done reason s)

  unfoldable pub handle_reply : Reply → Exec Session (Unit {0})
  unfolding on_ack on_nack
  handle_reply reply =
      if text_eq reply.verb (codes "ack")
      then (do f ← lift (ack_nack_fields reply); on_ack f)
      else if text_eq reply.verb (codes "nack")
      then (do f ← lift (ack_nack_fields reply); on_nack f)
      else pure tt

  -- The loop of `pump`. No `on_reply` is set. A raise ends it: the lines behind are gone, since the
  -- transport has handed them over.
  unfoldable pub pump_lines : List Text → Exec Session (List Reply)
  pump_lines [] = pure []
  pump_lines (line ∷ lines) =
      let rest = pump_lines lines in
      if is_blank line then rest else do
        reply ← lift (parse_reply line)
        handle_reply reply
        replies ← rest
        pure (reply ∷ replies)

  unfoldable pub receive : Exec Session (List Text)
  receive s =
      on_transport (read_lines (w.arrivals s.chunk_reads))
        (record s { chunk_reads = suc s.chunk_reads })

  unfoldable pub pump : Exec Session (List Reply)
  unfolding receive
  pump = do lines ← receive; pump_lines lines

  unfoldable pub poll_at : ℕ → Exec Session (Unit {0})
  poll_at now s =
      if ltb now (s.last_status_poll + s.resend_cooldown)
      then (ok tt, s)
      else if leb s.max_pending (length s.pending)
      then (ok tt, s)
      else (do send (codes "STATUS") []; pure tt) (record s { last_status_poll = now })

  unfoldable pub maybe_poll_status : Exec Session (Unit {0})
  unfolding monotonic poll_at
  maybe_poll_status = do now ← monotonic; poll_at now
