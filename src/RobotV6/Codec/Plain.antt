-- ===== src/RobotV6/Codec/Plain.antt =====
-- Numbers on the wire carry no exponent.
use radio_robot_lib.Prelude.{
  ℕ, suc, ◌-◌, ◌≡◌, ◌≢◌, subst, false, Option, none, some, [], ◌∷◌, ◌++◌, arith, leb, ◌==◌,
  Bool-cases, inl, inr, All, All-append, All-take, All-drop, All-replicate, All-weaken, length,
  take, replicate,
}
use radio_robot_lib.Prelude.Text.{Text}
use radio_robot_lib.Prelude.Int.{ℤ, pos, negsuc}
use radio_robot_lib.Python.Error.{Result, ok, err}
use radio_robot_lib.Python.Decimal
use radio_robot_lib.Python.Decimal.{IsDigit, str_ℕ, str_ℕ-IsDigit, int_ℕ}
use radio_robot_lib.Python.Split.{contains, partition}
use radio_robot_lib.RobotV6.Codec.FixedPoint.{
  nan, inf, finite, place_point, fixed, minus_length, or_empty, unsigned, minus, fixed_point,
}
use radio_robot_lib.RobotV6.Codec.{Field, bool, int, float, str, or_invalid, format_field}

abbrev pub IsPlain : ℕ → Type 0
IsPlain c = (c ≢ b'e') × (c ≢ b'E')

digit-IsPlain : (c : ℕ) → IsDigit c → IsPlain c
digit-IsPlain c h = omega arith

str_ℕ-IsPlain : (n : ℕ) → All IsPlain (str_ℕ n)
str_ℕ-IsPlain n = All-weaken IsDigit IsPlain (str_ℕ n) digit-IsPlain (str_ℕ-IsDigit n)

str-IsPlain : (z : ℤ) → All IsPlain (Decimal.str z)
unfolding Decimal.str
str-IsPlain (pos n) = str_ℕ-IsPlain n
str-IsPlain (negsuc n) = (omega arith, str_ℕ-IsPlain (suc n))

zeros_point-IsPlain : (n : ℕ) (t : Text) → All IsPlain t → All IsPlain (replicate n b'0' ++ t)
zeros_point-IsPlain n t h =
    All-append IsPlain (replicate n b'0') t (All-replicate IsPlain n b'0' (omega arith)) h

place_point-IsPlain : (t : Text) (e : ℤ) → All IsPlain t → All IsPlain (place_point t e)
unfolding place_point
place_point-IsPlain t (pos e) h =
    All-append IsPlain t (replicate e b'0') h (All-replicate IsPlain e b'0' (omega arith))
place_point-IsPlain t (negsuc e) h = elim (Bool-cases (leb (length t) (suc e))) [
  | inl short ↦ rw short (omega arith, (omega arith, zeros_point-IsPlain (suc e - length t) t h))
  | inr long ↦ rw long (
      All-append IsPlain (take (length t - suc e) t) _ (All-take IsPlain (length t - suc e) t h)
        (omega arith, All-drop IsPlain (length t - suc e) t h))
]

-- What is rendered, if anything is, is plain.
abbrev RendersPlain : Option Text → Type 0
RendersPlain none = Unit
RendersPlain (some t) = All IsPlain t

fixed-RendersPlain : (whole frac : Text) (e : ℤ) → RendersPlain (fixed whole frac e)
unfolding fixed
fixed-RendersPlain whole frac e =
    elim (int_ℕ (whole ++ frac))
      as (λ o. RendersPlain (elim o [
        | none ↦ none
        | some n ↦ some (place_point (str_ℕ n) (minus_length e (length frac)))
      ])) [ none ↦ tt | some n ↦ place_point-IsPlain (str_ℕ n) _ (str_ℕ-IsPlain n) ]

unsigned-RendersPlain : (text : Text) → RendersPlain (unsigned text)
unfolding unsigned
unsigned-RendersPlain text =
    let (mantissa, exponent) = partition b'e' text in
    let (whole, frac) = partition b'.' mantissa in
    elim (Decimal.int (or_empty exponent))
      as (λ o. RendersPlain (elim o [ none ↦ none | some e ↦ fixed whole (or_empty frac) e ])) [
        | none ↦ tt
        | some e ↦ fixed-RendersPlain whole (or_empty frac) e
      ]

minus-RendersPlain : (o : Option Text) → RendersPlain o → RendersPlain (minus o)
unfolding minus
minus-RendersPlain none h = tt
minus-RendersPlain (some t) h = (omega arith, h)

fixed_point-RendersPlain : (text : Text) → RendersPlain (fixed_point text)
unfolding fixed_point
fixed_point-RendersPlain [] = tt
fixed_point-RendersPlain (c ∷ s) = elim (Bool-cases (c == b'-')) [
  | inl negative ↦ rw negative (minus-RendersPlain (unsigned s) (unsigned-RendersPlain s))
  | inr positive ↦ rw positive (unsigned-RendersPlain (c ∷ s))
]

not_contained :
    (text : Text) → contains b'e' text ≡ false → contains b'E' text ≡ false → All IsPlain text
unfolding contains
not_contained [] he hE = tt
not_contained (c ∷ s) he hE = ground (arith, not_contained s)

abbrev pub IsNumber : Field → Type 0
IsNumber (int z) = Unit
IsNumber (float x) = Unit
IsNumber _ = ⊥

abbrev FormatsPlain : Result Text → Type 0
FormatsPlain (ok t) = All IsPlain t
FormatsPlain (err e) = Unit

or_invalid-FormatsPlain : (o : Option Text) → RendersPlain o → FormatsPlain (or_invalid o)
unfolding or_invalid
or_invalid-FormatsPlain none h = tt
or_invalid-FormatsPlain (some t) h = h

finite-FormatsPlain : (text : Text) → FormatsPlain (format_field (float (finite text)))
unfolding format_field
finite-FormatsPlain text = elim (Bool-cases (contains b'e' text)) [
  | inl e ↦ rw e (or_invalid-FormatsPlain (fixed_point text) (fixed_point-RendersPlain text))
  | inr no_e ↦ elim (Bool-cases (contains b'E' text)) [
    | inl E ↦
        rw (no_e, E) (or_invalid-FormatsPlain (fixed_point text) (fixed_point-RendersPlain text))
    | inr no_E ↦ rw (no_e, no_E) (not_contained text no_e no_E)
  ]
]

number-FormatsPlain : (v : Field) → IsNumber v → FormatsPlain (format_field v)
unfolding format_field
number-FormatsPlain (int z) h = str-IsPlain z
number-FormatsPlain (float nan) h = tt
number-FormatsPlain (float inf) h = tt
number-FormatsPlain (float (finite text)) h = finite-FormatsPlain text
number-FormatsPlain (bool b) h = absurd h
number-FormatsPlain (str t) h = absurd h

-- Whatever `repr` a float has, the field that an integer or a float is rendered as holds neither
-- `e` nor `E`: there is no scientific notation on the wire.
pub format_field-IsPlain :
    (v : Field) (t : Text) → IsNumber v → format_field v ≡ ok t → All IsPlain t
format_field-IsPlain v t h e = subst FormatsPlain e (number-FormatsPlain v h)
