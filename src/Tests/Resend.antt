-- ===== src/Tests/Resend.antt =====
-- Acknowledgements and nacks at concrete inputs.
use radio_robot_lib.Prelude.{◌≡◌, refl, none, [], ◌∷◌, arith, All}
use radio_robot_lib.Prelude.Text.{codes}
use radio_robot_lib.Prelude.Int.{pos}
use radio_robot_lib.Python.Error.{ok}
use radio_robot_lib.Python.Decimal
use radio_robot_lib.RobotV6.Codec.{Reply}
use radio_robot_lib.RobotV6.Transport.{chunk, fresh, is_ascii}
use radio_robot_lib.RobotV6.Session.{World, Session, handle_reply, maybe_resend_from}
use radio_robot_lib.RobotV6.Session.AckFields.{ack_nack_fields}
use radio_robot_lib.RobotV6.Session.Pending.{get_line}
use radio_robot_lib.RobotV6.Session.Pending.Order.{entries_from}
use radio_robot_lib.RobotV6.Session.Invariant.{IsWell, IsNumbered}
use radio_robot_lib.RobotV6.Session.Resend.{
  ack_retires, nack_resends, resent, burst, burst_resends_once, IsSendable,
}

abbrev world : World
world = record { monotonic = λ i. i; arrivals = λ i. chunk [] }

-- Commands 1, 2 and 3 are sent, and none is acknowledged.
abbrev session : Session
session = record {
  transport = fresh;
  max_pending = 4;
  resend_cooldown = 100;
  next_id = 4;
  pending = (1, codes "GET #1") ∷ (2, codes "STOP #2") ∷ (3, codes "VER #3") ∷ [];
  highest_acked = 0;
  last_done = pos 0;
  last_done_reason = codes "none";
  last_nack_next = none;
  last_resend_time = 0;
  last_status_poll = 0;
  clock_reads = 0;
  chunk_reads = 0;
}

numbered : All IsNumbered session.pending
unfolding Decimal.str Decimal.str_ℕ
numbered = ((codes "GET", refl), ((codes "STOP", refl), ((codes "VER", refl), tt)))

well : IsWell session
well = record { ascending = omega arith; bounded = omega arith; numbered = numbered }

sendable : All IsSendable session.pending
unfolding is_ascii
sendable = (refl, (refl, (refl, tt)))

abbrev ack : Reply
ack = record {
  verb = codes "ack";
  fields = codes "2" ∷ codes "1" ∷ codes "arrived" ∷ [];
  id = none;
}

ack_retires_example :
    let s' = (handle_reply world ack session).1 in
    (get_line 2 s'.pending ≡ none)
    × (s'.highest_acked ≡ 2)
    × (s'.last_done ≡ pos 1)
    × (s'.last_done_reason ≡ codes "arrived")
    × (s'.transport ≡ fresh)
unfolding ack_nack_fields Decimal.int
ack_retires_example = ack_retires world ack (pos 2) (pos 1) (codes "arrived") session 2 refl refl

nack_resends_example : maybe_resend_from world (pos 2) session ≡ (ok tt, resent (pos 2) 0 session)
nack_resends_example = nack_resends world (pos 2) session well sendable (λ r. cc (r.0))

burst_resends_once_example :
    (burst world (pos 2) 6 session).transport.written ≡ codes "STOP #2\n" ∷ codes "VER #3\n" ∷ []
unfolding entries_from
burst_resends_once_example =
    burst_resends_once world (pos 2) 5 session well sendable (λ r. cc (r.0)) (λ j h. omega arith)
