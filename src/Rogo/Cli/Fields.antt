-- ===== src/Rogo/Cli/Fields.antt =====
-- The numbers and the checks of `drive` in src/host/rogo/cli.py, before anything is sent.
use radio_robot_lib.Prelude.{
  ℕ, zero, suc, ◌+◌, ◌*◌, max, Bool, true, false, ◌&&◌, ◌||◌, not, Option, none, some, String, ◌==◌,
  if◌then◌else◌,
}
use radio_robot_lib.Prelude.Text.{Text, codes, text_eq}
use radio_robot_lib.Prelude.Int.{ℤ, pos, negsuc, leb_ℤ, ltb_ℤ, pos_part, neg_part}
use radio_robot_lib.Python.Error.{Result, ok, err, value_error, ◌>>=◌}
use radio_robot_lib.Rogo.Floats.{Floats}
use radio_robot_lib.Rogo.Cli.{Ran, exit_with, usage}

-- `abs`
unfoldable pub abs : ℤ → ℕ
abs z = pos_part z + neg_part z

-- `-n`
unfoldable pub opposite : ℕ → ℤ
opposite zero = pos 0
opposite (suc n) = negsuc n

unfoldable pub negate : ℤ → ℤ
unfolding opposite
negate (pos n) = opposite n
negate (negsuc n) = pos (suc n)

-- `max(a, b)` and `min(a, b)`
unfoldable pub max_ℤ : ℤ → ℤ → ℤ
max_ℤ a b = if ltb_ℤ a b then b else a

unfoldable pub min_ℤ : ℤ → ℤ → ℤ
min_ℤ a b = if ltb_ℤ b a then b else a

-- `max(1000, int(round(1000.0 * distance / speed * _STREAM_LEASE_MULTIPLE)))`
unfoldable pub backstop : Floats → String → ℤ → Result ℤ
backstop ops distance speed = do
  eta_ms ← ops.divide (ops.mul "1000.0" distance) (ops.of_int speed)
  timeout_ms ← ops.round (ops.mul eta_ms (ops.of_int (pos 3)))
  ok (max_ℤ (pos 1000) timeout_ms)

-- `mm if speed >= 0 else -mm`
unfoldable pub along : ℤ → ℤ → ℤ
unfolding negate
along speed mm = if leb_ℤ (pos 0) speed then mm else negate mm

unfoldable pub wheels_x_fields : Floats → ℤ → ℤ → ℤ → Result (ℤ × ℤ × ℤ × ℤ)
unfolding abs along backstop
wheels_x_fields ops left right mm =
    let cruise = max (abs left) (abs right) in
    if cruise == 0 then err value_error else do
      timeout_ms ← backstop ops (ops.of_int (pos (abs mm))) (pos cruise)
      ok (along left mm, along right mm, pos cruise, timeout_ms)

-- `resend_ms * _STREAM_LEASE_MULTIPLE`, between the floor and the ceiling
unfoldable pub triple : ℤ → ℤ
triple (pos n) = pos (n * 3)
triple (negsuc n) = negsuc (n * 3 + 2)

unfoldable pub lease_of : ℤ → ℤ
unfolding min_ℤ max_ℤ triple
lease_of resend_ms = min_ℤ (pos 5000) (max_ℤ (pos 500) (triple resend_ms))

-- The parsed arguments of `drive`.
pub record DriveArgs : Type 0 where
  pub left : ℤ
  pub right : ℤ
  pub stream_kw : Option Text
  pub ms : Option ℤ
  pub mm : Option ℤ
  pub resend : ℤ

unfoldable pub is_given : {A : Type 0} → Option A → Bool
is_given none = false
is_given (some a) = true

-- `stream_kw is not None and stream_kw != "stream"`
unfoldable pub unexpected : Option Text → Bool
unexpected none = false
unexpected (some word) = not (text_eq word (codes "stream"))

-- The four tests in their order; `none` is that all pass.
unfoldable pub validate_drive_args : DriveArgs → Option Ran
unfolding is_given unexpected
validate_drive_args args =
    if unexpected args.stream_kw
    then some (exit_with 2 (usage (codes "positional")))
    else if is_given args.stream_kw && (is_given args.ms || is_given args.mm)
    then some (exit_with 2 (usage (codes "stream")))
    else if is_given args.ms && is_given args.mm
    then some (exit_with 2 (usage (codes "--ms and --mm")))
    else if leb_ℤ args.resend (pos 0)
    then some (exit_with 2 (usage (codes "--resend")))
    else none
