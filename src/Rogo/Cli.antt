-- ===== src/Rogo/Cli.antt =====
-- src/host/rogo/cli.py: what a command prints and the process code it comes to. What an f-string
-- makes of a report's values is not modelled: a report is the message by name, with its values.
-- Times are in milliseconds. The commands are in the modules below, a loop that was cut off is
-- `none`, and what was printed before a raise is not kept.
pub mod Await
pub mod Probe
pub mod Fields
pub mod Drive
pub mod Turn
pub mod Goto
pub mod Settings
pub mod Command
pub mod Main
pub mod Honest
pub mod Motions
pub mod Bounds
pub mod Alone
pub mod Silent
pub mod Streaming
use radio_robot_lib.Prelude.{ℕ, suc, ◌+◌, ◌-◌, Bool, true, false, Option, none, some, List, [], ◌∷◌}
use radio_robot_lib.Prelude.Text.{Text, codes, text_eq}
use radio_robot_lib.Prelude.Int.{ℤ, pos, negsuc, pos_part}
use radio_robot_lib.RobotV6.Codec.{Reply}

-- `_DEFAULT_TIMEOUT`, three seconds
abbrev pub default_timeout : ℕ
default_timeout = 3000

-- `duration_ms / 1000.0 + _DEFAULT_TIMEOUT` of a wait: one that is negative has passed at once.
unfoldable pub done_timeout : ℤ → ℕ
done_timeout (pos duration_ms) = duration_ms + default_timeout
done_timeout (negsuc n) = default_timeout - suc n

-- `detail` of `_print_soft_warning`; a code that is missing is "?".
pub data Detail : Type 0 where
  no_planner : Detail
  err_code : Text → Detail

unfoldable pub detail_of_code : Text → Bool → Detail
detail_of_code code true = no_planner
detail_of_code code false = err_code code

-- `err.fields[0] if err.fields else "?"`
unfoldable pub code_of : List Text → Text
code_of [] = codes "?"
code_of (code ∷ rest) = code

unfoldable pub detail_of : Reply → Detail
unfolding detail_of_code code_of
detail_of reply = detail_of_code (code_of reply.fields) (text_eq (code_of reply.fields) (codes "1"))

pub data Report : Type 0 where
  -- the messages about a command that was sent, with its verb and its id
  acked not_acked never_completed : Text → ℕ → Report
  soft_warning : Text → ℕ → Detail → Report
  -- with the reason of the completion
  done : Text → ℕ → Text → Report
  banner : Text → Text → Text → Text → Report
  no_banner estop_confirmed estop_unconfirmed connection_closed : Report
  -- the cadence, the lease and what is printed at the end
  streamed : ℤ → ℤ → Report → Report
  fields_listed : List (Text × Text) → Report
  no_fields : Report
  no_such_field : Text → Report
  set_rejected : Text → Detail → Report
  usage : Text → Report
  no_robot_config nothing : Report
  raised : Text → Report

pub record Ran : Type 0 where
  pub code : ℕ
  pub report : Report

abbrev pub exit_with : ℕ → Report → Ran
exit_with code report = record { code = code; report = report }
