-- ===== src/Rogo/Cli/Honest.antt =====
-- That what the commands of src/host/rogo/cli.py report is so, and that they end.
use radio_robot_lib.Prelude.{
  ℕ, ◌+◌, ◌≤◌, ◌<◌, ◌≡◌, refl, Bool, true, false, Option, none, some, List, arith, leb, leb→le,
}
use radio_robot_lib.Prelude.Text.{Text}
use radio_robot_lib.Prelude.Int.{pos, ◌≤ℤ◌}
use radio_robot_lib.Python.Error.{Result, ok, err}
use radio_robot_lib.Python.Exec.{bind_outcome}
use radio_robot_lib.RobotV6.Codec.{Reply}
use radio_robot_lib.RobotV6.Session.{World, Session, pump}
use radio_robot_lib.RobotV6.Session.Waiting.{DoneEvent, wait_for_done}
use radio_robot_lib.RobotV6.Session.Stable.{pump-Keeps}
use radio_robot_lib.RobotV6.Session.History.{step, step-Keeps, waits_for_done}
use radio_robot_lib.RobotV6.Session.Progress.{
  IsMonotonic, Advances, Advances-stable, Advances-refl, DoneOutcome, wait_for_done-DoneOutcome,
}
use radio_robot_lib.Rogo.Pumping.{pump_until}
use radio_robot_lib.Rogo.Pumping.Ending.{cut_outcome, Pumped, IsPaced, pump_until-Pumped}
use radio_robot_lib.Rogo.Cli.{
  Ran, acked, not_acked, never_completed, soft_warning, done, default_timeout,
}
use radio_robot_lib.Rogo.Cli.Await.{
  is_acked, grace, after_replies, await_ack_and_err, report_done, report_ack, report_motion,
}

-- What a report claims of the session that is left.
abbrev pub IsTrue : ℕ → Ran → Session → Type 0
IsTrue seq_id ran s = elim ran.report [
  | acked verb id ↦ (id ≡ seq_id) × (ran.code ≡ 0) × (seq_id ≤ s.highest_acked)
  | not_acked verb id ↦ (id ≡ seq_id) × (ran.code ≡ 1) × (s.highest_acked < seq_id)
  | never_completed verb id ↦
      (id ≡ seq_id) × (ran.code ≡ 1) × (seq_id ≤ s.highest_acked) × ¬ (pos seq_id ≤ℤ s.last_done)
  | soft_warning verb id detail ↦ (id ≡ seq_id) × (ran.code ≡ 0) × (seq_id ≤ s.highest_acked)
  | done verb id reason ↦
      (id ≡ seq_id)
      × (ran.code ≡ 0)
      × (seq_id ≤ s.highest_acked)
      × (pos seq_id ≤ℤ s.last_done)
      × (reason ≡ s.last_done_reason)
  | _ ↦ ⊥
]

-- A run that ends, and whose report is true.
abbrev pub Honest : ℕ → Result (Option Ran) × Session → Type 0
Honest seq_id (err e, s) = Unit
Honest seq_id (ok none, s) = ⊥
Honest seq_id (ok (some ran), s) = IsTrue seq_id ran s

-- What the wait for the acknowledgement comes to.
abbrev pub Answered : ℕ → Result (Option (Bool × Option Reply)) × Session → Type 0
Answered seq_id (err e, s) = Unit
Answered seq_id (ok none, s) = ⊥
Answered seq_id (ok (some (true, reply)), s) = seq_id ≤ s.highest_acked
Answered seq_id (ok (some (false, reply)), s) = s.highest_acked < seq_id

pump-Advances : (w : World) (s : Session) → Advances s (pump w s).1
pump-Advances w s = pump-Keeps (Advances-stable s) w s (Advances-refl s)

abbrev Reaches : {A : Type 0} → ℕ → Result A × Session → Type 0
Reaches n x = n ≤ x.1.highest_acked

grace-Answered :
    (w : World) (seq_id : ℕ) (replies : List Reply) (b : Bool) (s : Session)
    → leb seq_id s.highest_acked ≡ b
    → Answered seq_id (grace w seq_id replies b s)
unfolding grace
grace-Answered w seq_id replies true s e =
    bind_outcome (Reaches seq_id) (Answered seq_id) _ (pump w s) (λ x t. tt) (λ more t h. h)
      (omega (arith, leb→le _ _ e, (pump-Advances w s).acked))
grace-Answered w seq_id replies false s e = ground arith

after_replies-Answered :
    (w : World) (seq_id : ℕ) (replies : List Reply) (s : Session)
    → Answered seq_id (after_replies w seq_id replies s)
unfolding after_replies is_acked
after_replies-Answered w seq_id replies s = grace-Answered w seq_id replies _ s refl

module _ (w : World) (fuel : ℕ) (steady : IsMonotonic w) (some_fuel : 0 < fuel) where
  pub await-Answered :
      (seq_id : ℕ) (s : Session)
      → IsPaced w fuel default_timeout
      → Answered seq_id (await_ack_and_err w fuel seq_id s)
  unfolding await_ack_and_err
  await-Answered seq_id s paced =
      cut_outcome
        (Pumped w (is_acked seq_id) (w.monotonic s.clock_reads + default_timeout) s.clock_reads)
        (Answered seq_id) (after_replies w seq_id)
        (pump_until w (is_acked seq_id) fuel default_timeout s) (λ e t. tt) (λ t h. h)
        (λ replies t h. after_replies-Answered w seq_id replies t)
        (pump_until-Pumped w (is_acked seq_id) fuel default_timeout s steady paced some_fuel)

  -- The wait for a completion, with what is acknowledged.
  abbrev Completed : ℕ → Result (Option (Option DoneEvent)) × Session → Type 0
  Completed seq_id (err e, s) = Unit
  Completed seq_id (ok none, s) = ⊥
  Completed seq_id (ok (some (some event)), s) =
      (seq_id ≤ s.highest_acked) × (pos seq_id ≤ℤ s.last_done) × (event.reason ≡ s.last_done_reason)
  Completed seq_id (ok (some none), s) = (seq_id ≤ s.highest_acked) × ¬ (pos seq_id ≤ℤ s.last_done)

  both :
      (seq_id deadline : ℕ) (x : Result (Option (Option DoneEvent)) × Session)
      → DoneOutcome w seq_id deadline x
      → seq_id ≤ x.1.highest_acked
      → Completed seq_id x
  both seq_id deadline (err e, s) h there = tt
  both seq_id deadline (ok none, s) h there = h
  both seq_id deadline (ok (some (some event)), s) (i, d, r) there = (there, d, r)
  both seq_id deadline (ok (some none), s) (d, late) there = (there, d)

  waited-acked :
      (seq_id timeout : ℕ) (s : Session)
      → seq_id ≤ s.highest_acked
      → seq_id ≤ (wait_for_done w fuel seq_id (some timeout) s).1.highest_acked
  unfolding step
  waited-acked seq_id timeout s there = omega (
    arith,
    there,
    (step-Keeps (Advances-stable s) w s (waits_for_done fuel seq_id (some timeout))
        (Advances-refl s)).acked,
  )

  wait-Completed :
      (seq_id timeout : ℕ) (s : Session)
      → IsPaced w fuel timeout
      → seq_id ≤ s.highest_acked
      → Completed seq_id (wait_for_done w fuel seq_id (some timeout) s)
  wait-Completed seq_id timeout s paced there =
      both seq_id (w.monotonic s.clock_reads + timeout) _
        (wait_for_done-DoneOutcome w fuel seq_id timeout (s.clock_reads + fuel) s steady
          (paced s.clock_reads) some_fuel (omega arith))
        (waited-acked seq_id timeout s there)

  report_done-Honest :
      (verb : Text) (seq_id : ℕ) (event : Option DoneEvent) (s : Session)
      → Completed seq_id (ok (some event), s)
      → IsTrue seq_id (report_done w verb seq_id event) s
  unfolding report_done
  report_done-Honest verb seq_id none s (there, d) = (refl, refl, there, d)
  report_done-Honest verb seq_id (some event) s (there, d, r) = (refl, refl, there, d, r)

  report_ack-Honest :
      (verb : Text) (seq_id timeout : ℕ) (answer : Bool × Option Reply) (s : Session)
      → IsPaced w fuel timeout
      → Answered seq_id (ok (some answer), s)
      → Honest seq_id (report_ack w verb fuel seq_id timeout answer s)
  unfolding report_ack
  report_ack-Honest verb seq_id timeout (false, reply) s paced h = (refl, refl, h)
  report_ack-Honest verb seq_id timeout (true, some reply) s paced h = (refl, refl, h)
  report_ack-Honest verb seq_id timeout (true, none) s paced h =
      cut_outcome (Completed seq_id) (Honest seq_id) _
        (wait_for_done w fuel seq_id (some timeout) s) (λ e t. tt) (λ t k. k)
        (report_done-Honest verb seq_id) (wait-Completed seq_id timeout s paced h)

  -- What a motion command reports is so, and it ends.
  pub report_motion-Honest :
      (verb : Text) (timeout seq_id : ℕ) (s : Session)
      → IsPaced w fuel default_timeout
      → IsPaced w fuel timeout
      → Honest seq_id (report_motion w verb fuel timeout seq_id s)
  unfolding report_motion
  report_motion-Honest verb timeout seq_id s paced paced_done =
      cut_outcome (Answered seq_id) (Honest seq_id) _ (await_ack_and_err w fuel seq_id s)
        (λ e t. tt) (λ t h. h)
        (λ answer t h. report_ack-Honest verb seq_id timeout answer t paced_done h)
        (await-Answered seq_id s paced)
