-- ===== src/Rogo/Mcp/Agreement.antt =====
-- That the tools of src/host/rogo/mcp_server.py report what the commands of src/host/rogo/cli.py do.
use radio_robot_lib.Prelude.{ℕ, ◌≡◌, refl, Bool, true, false, Option, none, some}
use radio_robot_lib.Prelude.Text.{Text}
use radio_robot_lib.Python.Error.{Result, ok, err, transport_closed, unreachable_target}
use radio_robot_lib.Python.Exec.{continue}
use radio_robot_lib.RobotV6.Codec.{Reply}
use radio_robot_lib.RobotV6.Session.{World, Session}
use radio_robot_lib.RobotV6.Session.Waiting.{DoneEvent, wait_for_done}
use radio_robot_lib.Rogo.Pumping.{unless_cut}
use radio_robot_lib.Rogo.Cli.{Ran, Report, soft_warning, done}
use radio_robot_lib.Rogo.Cli.Await.{await_ack_and_err, report_done, report_ack, report_motion}
use radio_robot_lib.Rogo.Mcp
use radio_robot_lib.Rogo.Mcp.{
  Told, warned, unreachable, reaching, told_done, outcome_of_ack, report_motion_outcome,
}

-- What a tool makes of a command's report: the same facts, and an error where the command has the
-- code 1.
unfoldable pub told_report : Report → Result (Option Told)
told_report (done verb seq_id reason) = ok (some (Mcp.done seq_id reason))
told_report (soft_warning verb seq_id detail) = ok (some (warned seq_id detail))
told_report _ = err unreachable_target

unfoldable pub told_result : Result (Option Ran) → Result (Option Told)
unfolding told_report
told_result (ok none) = ok none
told_result (ok (some ran)) = told_report ran.report
told_result (err transport_closed) = err unreachable_target
told_result (err e) = err e

unfoldable pub told_of : Result (Option Ran) × Session → Result (Option Told) × Session
unfolding told_result
told_of (r, s) = (told_result r, s)

module _ (w : World) (fuel : ℕ) (verb : Text) where
  done_agrees :
      (seq_id : ℕ) (x : Result (Option (Option DoneEvent)) × Session)
      → continue (unreachable x).0 (unless_cut (told_done seq_id)) (unreachable x).1
        ≡ told_of (
            continue x.0
              (unless_cut λ event s. (ok (some (report_done w verb seq_id event)), s))
              x.1)
  unfolding unreachable told_done told_of report_done
  done_agrees seq_id (ok none, s) = refl
  done_agrees seq_id (ok (some none), s) = refl
  done_agrees seq_id (ok (some (some event)), s) = refl
  done_agrees seq_id (err transport_closed, s) = refl
  done_agrees seq_id (err _, s) = refl

  answer_agrees :
      (seq_id timeout : ℕ) (answer : Bool × Option Reply) (s : Session)
      → outcome_of_ack w fuel seq_id timeout answer s
        ≡ told_of (report_ack w verb fuel seq_id timeout answer s)
  unfolding outcome_of_ack report_ack told_of reaching
  answer_agrees seq_id timeout (false, reply) s = refl
  answer_agrees seq_id timeout (true, some reply) s = refl
  answer_agrees seq_id timeout (true, none) s =
      done_agrees seq_id (wait_for_done w fuel seq_id (some timeout) s)

  ack_agrees :
      (seq_id timeout : ℕ) (x : Result (Option (Bool × Option Reply)) × Session)
      → continue
          (unreachable x).0
          (unless_cut (outcome_of_ack w fuel seq_id timeout))
          (unreachable x).1
        ≡ told_of (continue x.0 (unless_cut (report_ack w verb fuel seq_id timeout)) x.1)
  unfolding unreachable told_of
  ack_agrees seq_id timeout (ok none, s) = refl
  ack_agrees seq_id timeout (ok (some answer), s) = answer_agrees seq_id timeout answer s
  ack_agrees seq_id timeout (err transport_closed, s) = refl
  ack_agrees seq_id timeout (err _, s) = refl

  -- For the same session, id and time-out a motion tool leaves the same session as the command does
  -- and reports the same facts: a completion with its reason and a rejection are a result, and
  -- where the command has the code 1 or loses the connection the tool raises.
  pub report_motion_outcome-told_of :
      (timeout seq_id : ℕ) (s : Session)
      → report_motion_outcome w fuel timeout seq_id s
        ≡ told_of (report_motion w verb fuel timeout seq_id s)
  unfolding report_motion_outcome report_motion reaching
  report_motion_outcome-told_of timeout seq_id s =
      ack_agrees seq_id timeout (await_ack_and_err w fuel seq_id s)
