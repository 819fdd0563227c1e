-- ===== src/RobotV6/Session/Sending.antt =====
-- What `Session.send` does on each branch, and what becomes of an id whose line was refused.
use radio_robot_lib.Prelude.{
  ℕ, suc, ◌+◌, ◌≤◌, ◌<◌, ◌≡◌, ◌++◌, true, false, none, some, List, [], ◌∷◌, arith, length,
}
use radio_robot_lib.Prelude.Text.{Text}
use radio_robot_lib.Prelude.Int.{pos}
use radio_robot_lib.Python.Error.{Error, ok, err, value_error, pending_buffer_full}
use radio_robot_lib.RobotV6.Codec.{Field, encode_command}
use radio_robot_lib.RobotV6.Transport.{Transport, newline, is_ascii, send_line}
use radio_robot_lib.RobotV6.Session.Pending.{Outbox, put, get_line}
use radio_robot_lib.RobotV6.Session.Pending.Order.{put-append, get_line-retire, get_line-above}
use radio_robot_lib.RobotV6.Session.{
  World, Session, is_unsequenced, send, submit, transmit, on_transport, retire_through, set_done,
  set_nack,
}
use radio_robot_lib.RobotV6.Session.Stable.{IsStable}
use radio_robot_lib.RobotV6.Session.History.{Call, run, run-Keeps}
use radio_robot_lib.RobotV6.Session.Invariant.{IsWell}

abbrev pub write : Text → Transport → Transport
write line t = record t { written = t.written ++ (line ++ newline ∷ []) ∷ [] }

module _ (verb : Text) (fields : List Field) (s : Session) where
  -- A sequenced command with room in the buffer and an ASCII line gets the next id, is buffered
  -- behind the others and written once; nothing else of the session changes.
  pub send_accepted :
      (line : Text)
      → IsWell s
      → is_unsequenced verb ≡ false
      → length s.pending < s.max_pending
      → encode_command verb fields (some (pos s.next_id)) ≡ ok line
      → is_ascii line ≡ true
      → send verb fields s ≡ (
        ok s.next_id,
        record s {
          next_id = s.next_id + 1;
          pending = s.pending ++ (s.next_id, line) ∷ [];
          transport = write line s.transport;
        },
      )
  unfolding send submit transmit on_transport send_line
  send_accepted line well fine room e ascii =
      rw (fine, e, ascii, put-append 1 s.pending s.next_id line well.ascending) (ground arith)

  -- A verb outside the sequence, or a full buffer, is refused and changes nothing.
  pub send_refused :
      (is_unsequenced verb ≡ true → send verb fields s ≡ (err value_error, s))
      × (is_unsequenced verb ≡ false
          → s.max_pending ≤ length s.pending
          → send verb fields s ≡ (err pending_buffer_full, s))
  unfolding send
  send_refused = (λ bad. ground arith, λ fine full. ground arith)

  -- A command that cannot be formatted uses up its id all the same.
  send_unformatted :
      (e : Error)
      → is_unsequenced verb ≡ false
      → length s.pending < s.max_pending
      → encode_command verb fields (some (pos s.next_id)) ≡ err e
      → send verb fields s ≡ (err e, record s { next_id = suc s.next_id })
  unfolding send submit
  send_unformatted e fine room refused = rw (fine, refused) (ground arith)

-- The id is taken and no line stands under it.
record IsLost (i : ℕ) (s : Session) : Type 0 where
  used : i < s.next_id
  absent : get_line i s.pending ≡ none

get_line-put_ne :
    (i j : ℕ) (line : Text) (p : Outbox)
    → i < j
    → get_line i p ≡ none
    → get_line i (put j line p) ≡ none
unfolding get_line put
get_line-put_ne i j line [] lt h = ground arith
get_line-put_ne i j line ((k, old) ∷ p) lt h = ground (arith, get_line-put_ne i j line p lt)

retired-IsLost : (i : ℕ) (s : Session) (n : _) → IsLost i s → IsLost i (retire_through n s)
unfolding retire_through
retired-IsLost i s n h = record {
  used = h.used;
  absent = ground (arith, get_line-retire n i s.pending, h.absent);
}

IsLost-stable : (i : ℕ) → IsStable (IsLost i)
unfolding set_done set_nack
IsLost-stable i = record {
  transport_kept = λ s t h. record { used = h.used; absent = h.absent };
  burnt = λ s h. record { used = omega (arith, h.used); absent = h.absent };
  assigned = λ s verb fields line room e h. record {
    used = omega (arith, h.used);
    absent = get_line-put_ne i s.next_id line s.pending h.used h.absent;
  };
  retired = retired-IsLost i;
  done_set = λ s n reason h. record { used = h.used; absent = h.absent };
  nack_set = λ s n now h. record { used = h.used; absent = h.absent };
  clock_read = λ s h. record { used = h.used; absent = h.absent };
  chunk_read = λ s h. record { used = h.used; absent = h.absent };
  polled = λ s now h. record { used = h.used; absent = h.absent };
}

-- If formatting a command raises, its id is gone for good: whatever is called afterwards, no line
-- is ever buffered under that id, so a robot that waits for it can never be served.
pub send_unformatted_loses_id :
    (w : World) (verb : Text) (fields : List Field) (s : Session) (e : Error) (calls : List Call)
    → IsWell s
    → is_unsequenced verb ≡ false
    → length s.pending < s.max_pending
    → encode_command verb fields (some (pos s.next_id)) ≡ err e
    → get_line s.next_id (run w (send verb fields s).1 calls).pending ≡ none
send_unformatted_loses_id w verb fields s e calls well fine room refused =
    rw (send_unformatted verb fields s e fine room refused) (
      (run-Keeps (IsLost-stable s.next_id) w _ calls (record {
        used = omega arith;
        absent = get_line-above 1 s.pending s.next_id well.ascending;
      })).absent)
