-- ===== src/RobotV6/Session/Progress.antt =====
-- What only ever grows, and that the waits end.
use radio_robot_lib.Prelude.{
  ℕ, zero, suc, ◌+◌, ◌≤◌, ◌<◌, ◌≡◌, refl, Bool, true, false, Option, none, some, List, arith, ltb,
  leb, ltb→lt, leb→le, ltb-false, Bool-cases, inl, inr,
}
use radio_robot_lib.Prelude.Int.{pos, ltb_ℤ, ◌≤ℤ◌}
use radio_robot_lib.Python.Error.{Error, Result, ok, err}
use radio_robot_lib.Python.Exec.{Exec, continue, ◌>>◌}
use radio_robot_lib.RobotV6.Session.{
  World, Session, retire_through, set_done, set_nack, monotonic, pump, maybe_poll_status,
}
use radio_robot_lib.RobotV6.Session.Stable.{IsStable, pump-Keeps, maybe_poll_status-Keeps}
use radio_robot_lib.RobotV6.Session.Waiting.{
  DoneEvent, deadline_of, expired, unless_late, ack_loop, wait_for_ack, done_loop, wait_for_done,
}
use radio_robot_lib.RobotV6.Session.History.{Call, run, run-Keeps}

pub record Advances (a b : Session) : Type 0 where
  pub clocks : a.clock_reads ≤ b.clock_reads
  pub acked : a.highest_acked ≤ b.highest_acked
  pub ids : a.next_id ≤ b.next_id
  pub room : b.max_pending ≡ a.max_pending
  pub cooldown : b.resend_cooldown ≡ a.resend_cooldown

pub Advances-refl : (a : Session) → Advances a a
Advances-refl a = record {
  clocks = omega arith;
  acked = omega arith;
  ids = omega arith;
  room = refl;
  cooldown = refl;
}

pub Advances-stable : (a : Session) → IsStable (Advances a)
unfolding retire_through set_done set_nack
Advances-stable a = record {
  transport_kept = λ s t h. ground arith;
  burnt = λ s h. ground arith;
  assigned = λ s verb fields line room e h. ground arith;
  retired = λ s n h. ground arith;
  done_set = λ s n reason h. ground arith;
  nack_set = λ s n now h. ground arith;
  clock_read = λ s h. ground arith;
  chunk_read = λ s h. ground arith;
  polled = λ s now h. ground arith;
}

-- Whatever the history, an id is never handed out again and an acknowledgement never taken back:
-- the next id and the highest acknowledged id only grow, and the limits stay as they were.
pub run-Advances : (w : World) (s : Session) (calls : List Call) → Advances s (run w s calls)
run-Advances w s calls = run-Keeps (Advances-stable s) w s calls (Advances-refl s)

-- The clock never goes back.
abbrev pub IsMonotonic : World → Type 0
IsMonotonic w = (i j : ℕ) → i ≤ j → w.monotonic i ≤ w.monotonic j

-- The last reading of the clock was at or after the deadline.
abbrev pub IsLate : World → ℕ → Session → Type 0
IsLate w deadline s = (k : ℕ) × (s.clock_reads ≡ suc k) × (deadline ≤ w.monotonic k)

-- How a wait for an acknowledgement may come out. An error is one that `pump` raised.
abbrev pub AckOutcome : World → ℕ → ℕ → Result (Option Bool) × Session → Type 0
AckOutcome w seq_id deadline (ok none, s) = ⊥
AckOutcome w seq_id deadline (ok (some true), s) = seq_id ≤ s.highest_acked
AckOutcome w seq_id deadline (ok (some false), s) = (s.highest_acked < seq_id) × IsLate w deadline s
AckOutcome w seq_id deadline (err e, s) = Unit

-- How a wait for a completion may come out.
abbrev pub DoneOutcome : World → ℕ → ℕ → Result (Option (Option DoneEvent)) × Session → Type 0
DoneOutcome w seq_id deadline (ok none, s) = ⊥
DoneOutcome w seq_id deadline (ok (some (some event)), s) =
    (event.id ≡ seq_id) × (pos seq_id ≤ℤ s.last_done) × (event.reason ≡ s.last_done_reason)
DoneOutcome w seq_id deadline (ok (some none), s) =
    (¬ (pos seq_id ≤ℤ s.last_done)) × IsLate w deadline s
DoneOutcome w seq_id deadline (err e, s) = Unit

abbrev tick : Session → Session
tick s = record s { clock_reads = suc s.clock_reads }

continue_cases :
    {S A B : Type 0} (Q : Result B × S → Type 0) (r : Result A) (f : A → Exec S B) (s : S)
    → ((e : Error) → Q (err e, s))
    → ((a : A) → Q (f a s))
    → Q (continue r f s)
continue_cases Q (ok a) f s raised returned = returned a
continue_cases Q (err e) f s raised returned = raised e

unless_late_cases :
    {A : Type 0} (w : World) (Q : Result A × Session → Type 0) (deadline : ℕ) (answer : A)
    (rest : Exec Session A) (s : Session)
    → (leb deadline (w.monotonic s.clock_reads) ≡ true → Q (ok answer, tick s))
    → (leb deadline (w.monotonic s.clock_reads) ≡ false → Q (rest (tick s)))
    → Q (unless_late w (some deadline) answer rest s)
unfolding unless_late expired monotonic
unless_late_cases w Q deadline answer rest s late soon =
    elim (Bool-cases (leb deadline (w.monotonic s.clock_reads))) [
      | inl passed ↦ rw passed (late passed)
      | inr ahead ↦ rw ahead (soon ahead)
    ]

-- A round of `wait_for_done` only moves on.
polled_Advances :
    (w : World) (s : Session) → Advances (tick s) (pump w (maybe_poll_status w (tick s)).1).1
polled_Advances w s =
    pump-Keeps (Advances-stable (tick s)) w _
      (maybe_poll_status-Keeps (Advances-stable (tick s)) w (tick s) (Advances-refl (tick s)))

module _ (w : World) (steady : IsMonotonic w) (deadline k : ℕ)
    (reached : deadline ≤ w.monotonic k) where
  -- Before the deadline, the reading that reaches it is still to come.
  early : (c : ℕ) → leb deadline (w.monotonic c) ≡ false → c < k
  early c h = elim (Bool-cases (ltb c k)) [
    | inl below ↦ ltb→lt c k below
    | inr above ↦ absurd (ground (arith, steady k c (ltb-false c k above)))
  ]

  ack_loop-AckOutcome :
      (fuel seq_id : ℕ) (s : Session)
      → 0 < fuel
      → k < fuel + s.clock_reads
      → AckOutcome w seq_id deadline (ack_loop w fuel seq_id (some deadline) s)
  unfolding ack_loop
  ack_loop-AckOutcome zero seq_id s h enough = absurd (omega arith)
  ack_loop-AckOutcome (suc fuel) seq_id s h enough =
      elim (Bool-cases (ltb s.highest_acked seq_id)) [
        | inr done ↦ rw (done, ack_loop) (ltb-false s.highest_acked seq_id done)
        | inl more ↦
            rw (more, ack_loop)
              (unless_late_cases w (AckOutcome w seq_id deadline) deadline (some false)
                (pump w >> ack_loop w fuel seq_id (some deadline)) s
                (λ passed. (ltb→lt _ _ more, (s.clock_reads, refl, leb→le _ _ passed)))
                λ ahead.
                  continue_cases (AckOutcome w seq_id deadline) (pump w (tick s)).0 _ _ (λ e. tt)
                    λ _.
                      ack_loop-AckOutcome fuel seq_id _ (omega (arith, early s.clock_reads ahead)) (
                        omega (
                          arith,
                          (pump-Keeps (Advances-stable (tick s)) w (tick s)
                              (Advances-refl (tick s))).clocks,
                        )))
      ]

  done_loop-DoneOutcome :
      (fuel seq_id : ℕ) (s : Session)
      → 0 < fuel
      → k < fuel + s.clock_reads
      → DoneOutcome w seq_id deadline (done_loop w fuel seq_id (some deadline) s)
  unfolding done_loop
  done_loop-DoneOutcome zero seq_id s h enough = absurd (omega arith)
  done_loop-DoneOutcome (suc fuel) seq_id s h enough =
      elim (Bool-cases (ltb_ℤ s.last_done (pos seq_id))) [
        | inr done ↦ rw (done, done_loop) (refl, ltb-false _ _ done, refl)
        | inl more ↦
            rw (more, done_loop)
              (unless_late_cases w (DoneOutcome w seq_id deadline) deadline (some none)
                (maybe_poll_status w >> (pump w >> done_loop w fuel seq_id (some deadline))) s
                (λ passed.
                  (λ le. omega (arith, ltb→lt _ _ more), (s.clock_reads, refl, leb→le _ _ passed)))
                λ ahead.
                  continue_cases (DoneOutcome w seq_id deadline) (maybe_poll_status w (tick s)).0 _
                    _ (λ e. tt)
                    λ _.
                      continue_cases (DoneOutcome w seq_id deadline)
                        (pump w (maybe_poll_status w (tick s)).1).0 _ _ (λ e. tt)
                        λ _.
                          done_loop-DoneOutcome fuel seq_id _
                            (omega (arith, early s.clock_reads ahead))
                            (omega (arith, (polled_Advances w s).clocks)))
      ]

-- A wait for an acknowledgement always ends, if the clock never goes back and reaches the deadline
-- at its reading `k`: as many rounds are enough as there are readings up to `k`. It returns true
-- only if the id is acknowledged, and false only if it is not and the deadline has passed.
pub wait_for_ack-AckOutcome :
    (w : World) (fuel seq_id timeout k : ℕ) (s : Session)
    → IsMonotonic w
    → w.monotonic s.clock_reads + timeout ≤ w.monotonic k
    → 0 < fuel
    → k ≤ fuel + s.clock_reads
    → AckOutcome w seq_id
        (w.monotonic s.clock_reads + timeout)
        (wait_for_ack w fuel seq_id (some timeout) s)
unfolding wait_for_ack deadline_of monotonic
wait_for_ack-AckOutcome w fuel seq_id timeout k s steady reached some_fuel enough =
    ack_loop-AckOutcome w steady _ k reached fuel seq_id (tick s) some_fuel (omega arith)

-- A wait for a completion always ends, if the clock never goes back and reaches the deadline at its
-- reading `k`: as many rounds are enough as there are readings up to `k`. It ends with the id, and
-- the reason that came with the latest completion, only if the last completed id is at least the id;
-- with nothing only if it is not and the deadline has passed.
pub wait_for_done-DoneOutcome :
    (w : World) (fuel seq_id timeout k : ℕ) (s : Session)
    → IsMonotonic w
    → w.monotonic s.clock_reads + timeout ≤ w.monotonic k
    → 0 < fuel
    → k ≤ fuel + s.clock_reads
    → DoneOutcome w seq_id
        (w.monotonic s.clock_reads + timeout)
        (wait_for_done w fuel seq_id (some timeout) s)
unfolding wait_for_done deadline_of monotonic
wait_for_done-DoneOutcome w fuel seq_id timeout k s steady reached some_fuel enough =
    done_loop-DoneOutcome w steady _ k reached fuel seq_id (tick s) some_fuel (omega arith)
