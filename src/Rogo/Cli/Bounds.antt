-- ===== src/Rogo/Cli/Bounds.antt =====
-- The bounds of the numbers that `drive` and `goto` of src/host/rogo/cli.py put on the wire.
use radio_robot_lib.Prelude.{
  ℕ, zero, suc, max, ◌≡◌, refl, false, arith, Bool-cases, inl, inr, String, ◌==◌,
}
use radio_robot_lib.Prelude.Int.{ℤ, pos, negsuc, leb_ℤ, ltb_ℤ, ◌≤ℤ◌}
use radio_robot_lib.Python.Error.{Result, ok, err, value_error, ◌>>=◌, result_outcome}
use radio_robot_lib.Rogo.Floats.{Floats}
use radio_robot_lib.Rogo.Cli.Fields.{
  abs, opposite, negate, max_ℤ, min_ℤ, backstop, along, wheels_x_fields, triple, lease_of,
}

-- The lease of a stream is at least 500 and at most 5000 milliseconds whatever the cadence, and
-- it outlasts the time to the next round exactly if that is below 5000.
pub lease_of-bounds :
    (resend_ms : ℤ)
    → (pos 500 ≤ℤ lease_of resend_ms)
      × (lease_of resend_ms ≤ℤ pos 5000)
      × (ltb_ℤ resend_ms (lease_of resend_ms) ≡ ltb_ℤ resend_ms (pos 5000))
unfolding lease_of min_ℤ max_ℤ triple
lease_of-bounds (pos n) = ground arith
lease_of-bounds (negsuc n) = ground arith

abbrev AtLeast : ℕ → Result ℤ → Type 0
AtLeast n (err e) = Unit
AtLeast n (ok z) = pos n ≤ℤ z

max_ℤ_le : (n : ℕ) (z : ℤ) → pos n ≤ℤ max_ℤ (pos n) z
unfolding max_ℤ
max_ℤ_le n (pos m) = ground arith
max_ℤ_le n (negsuc m) = ground arith

backstop-AtLeast :
    (ops : Floats) (distance : String) (speed : ℤ) → AtLeast 1000 (backstop ops distance speed)
unfolding backstop
backstop-AtLeast ops distance speed =
    result_outcome (AtLeast 1000) (ops.divide (ops.mul "1000.0" distance) (ops.of_int speed)) _
      (λ e. tt)
      λ eta.
        result_outcome (AtLeast 1000) (ops.round (ops.mul eta (ops.of_int (pos 3)))) _ (λ e. tt)
          (max_ℤ_le 1000)

abs-negate : (z : ℤ) → abs (negate z) ≡ abs z
unfolding abs negate opposite
abs-negate (pos zero) = refl
abs-negate (pos (suc n)) = omega arith
abs-negate (negsuc n) = omega arith

abs-along : (speed mm : ℤ) → abs (along speed mm) ≡ abs mm
unfolding along
abs-along speed mm = elim (Bool-cases (leb_ℤ (pos 0) speed)) [
  | inl forward ↦ rw forward refl
  | inr backward ↦ rw (backward, abs-negate mm)
]

-- Both wheels travel the distance, the speed is that of the faster wheel and positive, and the
-- time-out at least a second.
abbrev pub Bounded : ℤ → ℤ → ℤ → Result (ℤ × ℤ × ℤ × ℤ) → Type 0
Bounded left right mm (err e) = Unit
Bounded left right mm (ok (left_d, right_d, cruise, timeout_ms)) =
    (abs left_d ≡ abs mm)
    × (abs right_d ≡ abs mm)
    × (pos (abs left) ≤ℤ cruise)
    × (pos (abs right) ≤ℤ cruise)
    × (pos 1 ≤ℤ cruise)
    × (pos 1000 ≤ℤ timeout_ms)

with_timeout-Bounded :
    (left right mm : ℤ) (timeout : Result ℤ)
    → (max (abs left) (abs right) == 0) ≡ false
    → AtLeast 1000 timeout
    → Bounded left right mm (
        timeout >>= λ timeout_ms.
        ok (along left mm, along right mm, pos (max (abs left) (abs right)), timeout_ms))
with_timeout-Bounded left right mm (err e) moving h = tt
with_timeout-Bounded left right mm (ok timeout_ms) moving h =
    (abs-along left mm, abs-along right mm, ground arith, ground arith, ground (arith, moving), h)

-- Whatever the float arithmetic makes of it, `drive --mm` sends each wheel the distance that was
-- asked for, forwards or backwards, a positive speed that is at least that of either wheel, and a
-- time-out of at least a second, or it raises; two wheels that do not move are refused.
pub wheels_x_fields-Bounded :
    (ops : Floats) (left right mm : ℤ)
    → Bounded left right mm (wheels_x_fields ops left right mm)
      × (wheels_x_fields ops (pos 0) (pos 0) mm ≡ err value_error)
unfolding wheels_x_fields abs
wheels_x_fields-Bounded ops left right mm = (
  elim (Bool-cases (max (abs left) (abs right) == 0)) [
    | inl still ↦ rw still tt
    | inr moving ↦ rw moving (
        with_timeout-Bounded left right mm
          (backstop ops (ops.of_int (pos (abs mm))) (pos (max (abs left) (abs right)))) moving
          (backstop-AtLeast ops _ _))
  ],
  refl,
)
