-- ===== src/Rogo/Cli/Settings.antt =====
-- `config get` and `config set` of src/host/rogo/cli.py.
use radio_robot_lib.Prelude.{ℕ, Bool, true, false, Option, none, some, List, [], ◌∷◌}
use radio_robot_lib.Prelude.Text.{Text, codes}
use radio_robot_lib.Python.Error.{Result, ok, err, index_error}
use radio_robot_lib.Python.Exec.{Exec, pure, lift, ◌>>=◌}
use radio_robot_lib.RobotV6.Codec.{Reply, float}
use radio_robot_lib.RobotV6.Codec.FixedPoint.{Float}
use radio_robot_lib.RobotV6.Session.{World, Session}
use radio_robot_lib.RobotV6.Motion.{get, set}
use radio_robot_lib.Rogo.Pumping.{◌>>?◌}
use radio_robot_lib.Rogo.Cli.{
  Ran, exit_with, acked, not_acked, no_fields, no_such_field, fields_listed, set_rejected,
  detail_of,
}
use radio_robot_lib.Rogo.Cli.Await.{await_ack_and_err, await_ack_and_get_lines}

-- `reply.fields[0], reply.fields[1]`
unfoldable pub name_and_value : List Text → Result (Text × Text)
name_and_value (name ∷ value ∷ rest) = ok (name, value)
name_and_value _ = err index_error

unfoldable pub list_fields : List Reply → Exec Session (List (Text × Text))
unfolding name_and_value
list_fields [] = pure []
list_fields (reply ∷ replies) = do
  field ← lift (name_and_value reply.fields)
  fields ← list_fields replies
  pure (field ∷ fields)

-- With no `get` line, an unknown name is an error and a bare `GET` is not.
unfoldable pub no_lines : Option Text → Ran
no_lines none = exit_with 0 no_fields
no_lines (some name) = exit_with 1 (no_such_field name)

unfoldable pub report_get : Option Text → ℕ → Bool × List Reply → Exec Session (Option Ran)
unfolding list_fields no_lines
report_get name seq_id (false, replies) = pure (some (exit_with 1 (not_acked (codes "GET") seq_id)))
report_get name seq_id (true, []) = pure (some (no_lines name))
report_get name seq_id (true, reply ∷ replies) = do
  fields ← list_fields (reply ∷ replies)
  pure (some (exit_with 0 (fields_listed fields)))

unfoldable pub report_set : Text → ℕ → Bool × Option Reply → Ran
report_set name seq_id (false, reply) = exit_with 1 (not_acked (codes "SET") seq_id)
report_set name seq_id (true, some reply) = exit_with 1 (set_rejected name (detail_of reply))
report_set name seq_id (true, none) = exit_with 0 (acked (codes "SET") seq_id)

module _ (w : World) (fuel : ℕ) where
  unfoldable pub run_config_get : Option Text → Exec Session (Option Ran)
  unfolding report_get
  run_config_get name = do
    seq_id ← get name
    await_ack_and_get_lines w fuel seq_id >>? report_get name seq_id

  unfoldable pub run_config_set : Text → Float → Exec Session (Option Ran)
  unfolding report_set
  run_config_set name value = do
    seq_id ← set name (float value)
    await_ack_and_err w fuel seq_id >>? λ answer. pure (some (report_set name seq_id answer))
