-- ===== src/RobotV6/Session/AckFields.antt =====
-- `Session._ack_nack_fields`: each index and each `int()` may raise, in the order of the code.
use radio_robot_lib.Prelude.{ℕ, zero, suc, none, some, List, [], ◌∷◌}
use radio_robot_lib.Prelude.Text.{Text}
use radio_robot_lib.Prelude.Int.{ℤ}
use radio_robot_lib.Python.Error.{Result, ok, err, value_error, index_error, ◌>>=◌}
use radio_robot_lib.Python.Decimal.{int}
use radio_robot_lib.RobotV6.Codec.{Reply}

-- `fields[k]`
get_field : ℕ → List Text → Result Text
get_field k [] = err index_error
get_field zero (t ∷ ts) = ok t
get_field (suc k) (t ∷ ts) = get_field k ts

to_int : Text → Result ℤ
to_int t = elim (int t) [ none ↦ err value_error | some z ↦ ok z ]

unfoldable pub ack_nack_fields : Reply → Result (ℤ × ℤ × Text)
unfolding get_field to_int
ack_nack_fields reply = do
  first ← get_field 0 reply.fields
  n ← to_int first
  second ← get_field 1 reply.fields
  last_done ← to_int second
  reason ← get_field 2 reply.fields
  ok (n, last_done, reason)
