-- ===== src/RobotV6/Motion.antt =====
-- src/host/robot_v6/motion.py: the motion calls, each of which sends one command. The proofs are in
-- Motion/Wire.
pub mod Wire
use radio_robot_lib.Prelude.{ℕ, Bool, true, false, Option, none, some, List, [], ◌∷◌, if◌then◌else◌}
use radio_robot_lib.Prelude.Text.{Text, codes}
use radio_robot_lib.Prelude.Int.{ℤ}
use radio_robot_lib.Python.Error.{Result}
use radio_robot_lib.Python.Exec.{Exec, lift, ◌>>=◌}
use radio_robot_lib.RobotV6.Codec.{Field, int, str}
use radio_robot_lib.RobotV6.Codec.FixedPoint.{Float, finite}
use radio_robot_lib.RobotV6.Session.{Session, send, send_unsequenced}

-- Float arithmetic and `round`, which raises on a float that is not finite.
pub record FloatOps : Type 0 where
  pub mul : Float → Float → Float
  pub divide : Float → Float → Float
  pub pi : Float
  pub round : Float → Result ℤ

unfoldable pub mrad_per_deg : FloatOps → Float
mrad_per_deg ops = ops.mul (ops.divide ops.pi (finite (codes "180.0"))) (finite (codes "1000.0"))

unfoldable pub deg_to_mrad : FloatOps → Float → Result ℤ
unfolding mrad_per_deg
deg_to_mrad ops degrees = ops.round (ops.mul degrees (mrad_per_deg ops))

-- An argument that is passed on as it came is a `Field`.
unfoldable pub wheels_x : Field → Field → Field → Field → Exec Session ℕ
wheels_x left right cruise_mm_s timeout_ms =
    send (codes "WHEELS_X") (left ∷ right ∷ cruise_mm_s ∷ timeout_ms ∷ [])

unfoldable pub wheels_v : Field → Field → Field → Exec Session ℕ
wheels_v left right duration_ms = send (codes "WHEELS_V") (left ∷ right ∷ duration_ms ∷ [])

unfoldable pub move_x : FloatOps → Field → Float → Field → Field → Exec Session ℕ
move_x ops distance_mm rotation_deg cruise_mm_s timeout_ms = do
  rotation ← lift (deg_to_mrad ops rotation_deg)
  send (codes "MOVE_X") (distance_mm ∷ int rotation ∷ cruise_mm_s ∷ timeout_ms ∷ [])

unfoldable pub move_v : FloatOps → Field → Float → Field → Exec Session ℕ
move_v ops v_x_mm_s omega_deg_s duration_ms = do
  omega_mrad ← lift (deg_to_mrad ops omega_deg_s)
  send (codes "MOVE_V") (v_x_mm_s ∷ int omega_mrad ∷ duration_ms ∷ [])

unfoldable pub go_to_r : Field → Field → Field → Field → Field → Exec Session ℕ
go_to_r x_mm y_mm speed_mm_s arrive_mm timeout_ms =
    send (codes "GO_TO_R") (x_mm ∷ y_mm ∷ speed_mm_s ∷ arrive_mm ∷ timeout_ms ∷ [])

unfoldable pub go_to_w : Field → Field → Field → Field → Field → Exec Session ℕ
go_to_w x_mm y_mm speed_mm_s arrive_mm timeout_ms =
    send (codes "GO_TO_W") (x_mm ∷ y_mm ∷ speed_mm_s ∷ arrive_mm ∷ timeout_ms ∷ [])

unfoldable pub stop : Bool → Exec Session ℕ
stop immediate =
    if immediate then send (codes "STOP") (str (codes "now") ∷ []) else send (codes "STOP") []

unfoldable pub estop : Exec Session (Unit {0})
estop = send_unsequenced (codes "ESTOP") []

unfoldable pub get : Option Text → Exec Session ℕ
get none = send (codes "GET") []
get (some name) = send (codes "GET") (str name ∷ [])

unfoldable pub set : Text → Field → Exec Session ℕ
set name value = send (codes "SET") (str name ∷ value ∷ [])
