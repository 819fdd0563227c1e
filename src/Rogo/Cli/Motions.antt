-- ===== src/Rogo/Cli/Motions.antt =====
-- The commands of src/host/rogo/cli.py that send one command and wait: what they report is about
-- the command that they sent, and so.
use radio_robot_lib.Prelude.{
  ℕ, ◌+◌, ◌<◌, ◌≡◌, refl, subst, Bool, true, false, Option, none, some, List, [], arith, leb,
  Bool-cases, inl, inr, length,
}
use radio_robot_lib.Prelude.Text.{Text, codes}
use radio_robot_lib.Prelude.Int.{ℤ}
use radio_robot_lib.Python.Error.{Error, Result, ok, err}
use radio_robot_lib.Python.Exec.{Exec, bind_outcome, ◌>>=◌}
use radio_robot_lib.RobotV6.Codec.{Field}
use radio_robot_lib.RobotV6.Session.{World, Session, send, submit, is_unsequenced, transmit}
use radio_robot_lib.RobotV6.Session.Progress.{IsMonotonic, AckOutcome, wait_for_ack-AckOutcome}
use radio_robot_lib.RobotV6.Session.Waiting.{wait_for_ack}
use radio_robot_lib.RobotV6.Motion.{wheels_v, go_to_r, stop, estop}
use radio_robot_lib.Rogo.Pumping.{pump_until}
use radio_robot_lib.Rogo.Pumping.Ending.{cut_outcome, Pumped, IsPaced, pump_until-Pumped}
use radio_robot_lib.Rogo.Cli.{Ran, default_timeout, done_timeout}
use radio_robot_lib.Rogo.Cli.Await.{report_motion}
use radio_robot_lib.Rogo.Cli.Probe.{
  any_verb, sees, report_stop, report_estop, await_stop, run_stop, run_estop,
}
use radio_robot_lib.Rogo.Cli.Drive.{drive_ms}
use radio_robot_lib.Rogo.Cli.Goto.{run_goto}
use radio_robot_lib.Rogo.Cli.Honest.{Honest, report_motion-Honest}

-- The id that comes back is the next one of before.
abbrev Takes : Session → Result ℕ × Session → Type 0
Takes s (err e, t) = Unit
Takes s (ok seq_id, t) = seq_id ≡ s.next_id

submit-Takes : (line : Result Text) (s : Session) → Takes s (submit line s)
unfolding submit
submit-Takes (err e) s = tt
submit-Takes (ok line) s =
    bind_outcome (λ x. Unit) (Takes s) (λ _ t. (ok s.next_id, t)) (transmit line _) (λ e t. tt)
      (λ a t h. refl) tt

send-Takes : (verb : Text) (fields : List Field) (s : Session) → Takes s (send verb fields s)
unfolding send
send-Takes verb fields s = elim (Bool-cases (is_unsequenced verb)) [
  | inl bad ↦ rw bad tt
  | inr fine ↦ elim (Bool-cases (leb s.max_pending (length s.pending))) [
    | inl full ↦ rw (fine, full) tt
    | inr room ↦ rw (fine, room) (submit-Takes _ s)
  ]
]

-- What holds of every command that is sent and waited for holds of it under its id.
sent_outcome :
    (Q : ℕ → Result (Option Ran) × Session → Type 0) (verb : Text) (fields : List Field)
    (next : ℕ → Exec Session (Option Ran)) (s : Session)
    → ((i : ℕ) (e : Error) (t : Session) → Q i (err e, t))
    → ((i : ℕ) (t : Session) → Q i (next i t))
    → Q s.next_id ((send verb fields >>= next) s)
sent_outcome Q verb fields next s failed went =
    bind_outcome (Takes s) (Q s.next_id) next (send verb fields s) (failed s.next_id)
      (λ seq_id t e. subst (λ i. Q i (next seq_id t)) e (went seq_id t)) (send-Takes verb fields s)

report_stop-Honest :
    (w : World) (seq_id deadline : ℕ) (b : Bool) (s : Session)
    → AckOutcome w seq_id deadline (ok (some b), s)
    → Honest seq_id (ok (some (report_stop seq_id b)), s)
unfolding report_stop
report_stop-Honest w seq_id deadline true s h = (refl, refl, h)
report_stop-Honest w seq_id deadline false s (h, late) = (refl, refl, h)

-- The code is 0.
abbrev pub Succeeds : Result (Option Ran) × Session → Type 0
Succeeds (err e, s) = Unit
Succeeds (ok none, s) = ⊥
Succeeds (ok (some ran), s) = ran.code ≡ 0

report_estop-Succeeds : (b : Bool) (s : Session) → Succeeds (ok (some (report_estop b)), s)
unfolding report_estop
report_estop-Succeeds true s = refl
report_estop-Succeeds false s = refl

module _ (w : World) (fuel : ℕ) (steady : IsMonotonic w) (some_fuel : 0 < fuel)
    (paced : IsPaced w fuel default_timeout) where
  await_stop-Honest : (seq_id : ℕ) (s : Session) → Honest seq_id (await_stop w fuel seq_id s)
  unfolding await_stop
  await_stop-Honest seq_id s =
      cut_outcome (AckOutcome w seq_id (w.monotonic s.clock_reads + default_timeout))
        (Honest seq_id) _ (wait_for_ack w fuel seq_id (some default_timeout) s) (λ e t. tt)
        (λ t h. h) (report_stop-Honest w seq_id _)
        (wait_for_ack-AckOutcome w fuel seq_id default_timeout (s.clock_reads + fuel) s steady
          (paced s.clock_reads) some_fuel (omega arith))

  run_stop-Honest : (s : Session) → Honest s.next_id (run_stop w fuel s)
  unfolding run_stop stop
  run_stop-Honest s =
      sent_outcome Honest (codes "STOP") [] (await_stop w fuel) s (λ i e t. tt) await_stop-Honest

  drive_ms-Honest :
      (left right duration_ms : ℤ) (s : Session)
      → IsPaced w fuel (done_timeout duration_ms)
      → Honest s.next_id (drive_ms w fuel left right duration_ms s)
  unfolding drive_ms wheels_v
  drive_ms-Honest left right duration_ms s paced_done =
      sent_outcome Honest (codes "WHEELS_V") _
        (report_motion w (codes "WHEELS_V") fuel (done_timeout duration_ms)) s (λ i e t. tt)
        λ i t.
          report_motion-Honest w fuel steady some_fuel (codes "WHEELS_V") (done_timeout duration_ms)
            i t paced paced_done

  run_goto-Honest :
      (x y speed arrive timeout_ms : ℤ) (s : Session)
      → IsPaced w fuel (done_timeout timeout_ms)
      → Honest s.next_id (run_goto w fuel x y speed arrive timeout_ms s)
  unfolding run_goto go_to_r
  run_goto-Honest x y speed arrive timeout_ms s paced_done =
      sent_outcome Honest (codes "GO_TO_R") _
        (report_motion w (codes "GO_TO_R") fuel (done_timeout timeout_ms)) s (λ i e t. tt)
        λ i t.
          report_motion-Honest w fuel steady some_fuel (codes "GO_TO_R") (done_timeout timeout_ms) i
            t paced paced_done

  -- Stop, a drive for a time and a goto always end, if the clock never goes back and passes the
  -- three seconds, and those and the duration, within as many readings as there are rounds. Unless
  -- something is raised, the report is about the id that the command was sent with, the code is 0
  -- only if that id is acknowledged, and "done" is reported only if it is completed, with the
  -- reason that came with the latest completion. "Not acknowledged" and "never completed" have the
  -- code 1, and are said only when so.
  pub commands-Honest :
      (left right duration_ms x y speed arrive : ℤ) (s : Session)
      → IsPaced w fuel (done_timeout duration_ms)
      → Honest s.next_id (run_stop w fuel s)
        × Honest s.next_id (drive_ms w fuel left right duration_ms s)
        × Honest s.next_id (run_goto w fuel x y speed arrive duration_ms s)
  commands-Honest left right duration_ms x y speed arrive s paced_done = (
    run_stop-Honest s,
    drive_ms-Honest left right duration_ms s paced_done,
    run_goto-Honest x y speed arrive duration_ms s paced_done,
  )

  -- The emergency stop always ends, if the clock never goes back and passes the three seconds within
  -- as many readings as there are rounds, and its code is 0 whether a confirmation came or not,
  -- unless something is raised.
  pub run_estop-Succeeds : (s : Session) → Succeeds (run_estop w fuel s)
  unfolding run_estop
  run_estop-Succeeds s =
      bind_outcome (λ x. Unit) Succeeds _ (estop s) (λ e t. tt)
        (λ a t h.
          cut_outcome
            (Pumped w (sees (codes "estop")) (w.monotonic t.clock_reads + default_timeout)
              t.clock_reads)
            Succeeds _ (pump_until w (sees (codes "estop")) fuel default_timeout t) (λ e u. tt)
            (λ u k. k) (λ replies u k. report_estop-Succeeds (any_verb (codes "estop") replies) u)
            (pump_until-Pumped w (sees (codes "estop")) fuel default_timeout t steady paced
              some_fuel))
        tt
