-- ===== src/Rogo/TurnModel.antt =====
-- src/host/rogo/turn_model.py: the wheel speeds and the duration of a turn in place.
use radio_robot_lib.Prelude.{Bool, true, false, Option, none, some, String, ◌||◌, if◌then◌else◌}
use radio_robot_lib.Prelude.Int.{ℤ}
use radio_robot_lib.Python.Error.{Result, ok, err, value_error, ◌>>=◌}
use radio_robot_lib.Rogo.Floats.{Floats}

-- `value if value is not None else fallback`
unfoldable pub float_or : Option String → String → String
float_or none fallback = fallback
float_or (some value) fallback = value

-- `-n`
-- `sign`, as a float
unfoldable pub signed : Floats → Bool → String → String
signed ops true speed = speed
signed ops false speed = ops.mul "-1" speed

-- The rotation from where the arguments are valid. `sign` is 1 where the angle is not negative.
unfoldable pub rotate : Floats → String → String → String → String → Result (ℤ × ℤ × ℤ)
unfolding signed
rotate ops compensated_deg speed trackwidth slip =
    let theta = ops.radians compensated_deg in
    let sign = ops.le "0" theta in
    do
      target_arc_mm ← ops.divide (ops.mul (ops.abs theta) trackwidth) (ops.mul "2.0" slip)
      seconds ← ops.divide (ops.mul "1000.0" target_arc_mm) speed
      duration_ms ← ops.round seconds
      cmd_l ← ops.round (signed ops (if sign then false else true) speed)
      cmd_r ← ops.round (signed ops sign speed)
      ok (cmd_l, cmd_r, duration_ms)

unfoldable pub compute_turn :
    Floats → String → String → Option String → Option String → String → String → Result (ℤ × ℤ × ℤ)
unfolding rotate float_or
compute_turn ops angle_deg speed_mm_s none rotational_slip gain offset_deg = err value_error
compute_turn ops angle_deg speed_mm_s (some trackwidth_mm) rotational_slip gain offset_deg =
    if ops.le trackwidth_mm "0" || (ops.le speed_mm_s "0" || ops.eq gain "0")
    then err value_error
    else do
      compensated_deg ← ops.divide (ops.sub angle_deg offset_deg) gain
      rotate ops compensated_deg speed_mm_s trackwidth_mm (float_or rotational_slip "1.0")
