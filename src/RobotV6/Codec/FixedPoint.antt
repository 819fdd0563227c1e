-- ===== src/RobotV6/Codec/FixedPoint.antt =====
-- Floats as the codec sees them: `math.isnan`, `math.isinf`, `repr`, and what
-- `format(decimal.Decimal(text), "f")` makes of a `repr` in scientific notation.
use radio_robot_lib.Prelude.{
  ℕ, suc, ◌+◌, ◌-◌, ◌≡◌, refl, Option, none, some, [], ◌∷◌, ◌++◌, leb, ◌==◌, if◌then◌else◌, length,
  take, drop, replicate,
}
use radio_robot_lib.Prelude.Text.{Text, codes}
use radio_robot_lib.Prelude.Int.{ℤ, pos, negsuc}
use radio_robot_lib.Python.Decimal.{str_ℕ, int_ℕ, int}
use radio_robot_lib.Python.Split.{partition}

-- A finite float is carried by its `repr`, the only thing that the codec reads of it.
pub data Float : Type 0 where
  nan inf : Float
  finite : Text → Float

abbrev pub or_empty : Option Text → Text
or_empty none = []
or_empty (some t) = t

-- `e - n`
unfoldable pub minus_length : ℤ → ℕ → ℤ
minus_length (pos e) n = if leb n e then pos (e - n) else negsuc (n - e - 1)
minus_length (negsuc e) n = negsuc (e + n)

-- The coefficient's digits with the point where the exponent puts it.
unfoldable pub place_point : Text → ℤ → Text
place_point digits (pos e) = digits ++ replicate e b'0'
place_point digits (negsuc e) =
    if leb (length digits) (suc e)
    then b'0' ∷ b'.' ∷ (replicate (suc e - length digits) b'0' ++ digits)
    else take (length digits - suc e) digits ++ b'.' ∷ drop (length digits - suc e) digits

-- The value of `whole.frac` with the exponent `e`, in fixed-point notation.
unfoldable pub fixed : Text → Text → ℤ → Option Text
unfolding minus_length
fixed whole frac e = elim (int_ℕ (whole ++ frac)) [
  | none ↦ none
  | some n ↦ some (place_point (str_ℕ n) (minus_length e (length frac)))
]

unfoldable pub unsigned : Text → Option Text
unfolding fixed partition
unsigned text =
    let (mantissa, exponent) = partition b'e' text in
    let (whole, frac) = partition b'.' mantissa in
    elim (int (or_empty exponent)) [ none ↦ none | some e ↦ fixed whole (or_empty frac) e ]

unfoldable pub minus : Option Text → Option Text
minus none = none
minus (some t) = some (b'-' ∷ t)

-- `format(decimal.Decimal(text), "f")`; `none` is `decimal.InvalidOperation`.
unfoldable pub fixed_point : Text → Option Text
unfolding unsigned minus
fixed_point [] = none
fixed_point (c ∷ s) = if c == b'-' then minus (unsigned s) else unsigned (c ∷ s)

fixed_point_values :
    (fixed_point (codes "1e-08") ≡ some (codes "0.00000001"))
    × (fixed_point (codes "-1.25e+20") ≡ some (codes "-125000000000000000000"))
    × (fixed_point (codes "123.5e-1") ≡ some (codes "12.35"))
unfolding fixed_point place_point int int_ℕ str_ℕ
fixed_point_values = (refl, refl, refl)
