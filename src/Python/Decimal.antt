-- ===== src/Python/Decimal.antt =====
-- `str` and `int` on whole numbers, over ASCII text.
use radio_robot_lib.Prelude.{
  ℕ, zero, suc, ◌+◌, ◌-◌, ◌*◌, ◌/◌, ◌%◌, ◌<◌, ◌≤◌, ◌≡◌, ◌≢◌, refl, Bool, true, false, ◌&&◌, Option,
  none, some, [], ◌∷◌, arith, ltb, leb, ◌==◌, if◌then◌else◌, Bool-cases, inl, inr, All,
}
use radio_robot_lib.Prelude.Text.{Text, codes}
use radio_robot_lib.Prelude.Int.{ℤ, pos, negsuc}

unfoldable pub is_digit : ℕ → Bool
is_digit c = leb b'0' c && leb c b'9'

abbrev pub IsDigit : ℕ → Type 0
IsDigit c = (b'0' ≤ c) × (c ≤ b'9')

unfoldable pub all_digits : Text → Bool
unfolding is_digit
all_digits [] = true
all_digits (c ∷ s) = is_digit c && all_digits s

-- `s.isdigit()`
unfoldable pub isdigit : Text → Bool
unfolding all_digits
isdigit [] = false
isdigit (c ∷ s) = all_digits (c ∷ s)

-- The digits of `n` in front of `out`.
digits : ℕ → ℕ → Text → Text
digits zero n out = out
digits (suc fuel) n out =
    let last = (b'0' + n % 10) ∷ out in
    let rest = digits fuel (n / 10) last in if ltb n 10 then last else rest

-- `str(n)`; each round takes one digit off, so `n + 1` rounds are enough.
unfoldable pub str_ℕ : ℕ → Text
unfolding digits
str_ℕ n = digits (suc n) n []

unfoldable pub str : ℤ → Text
str (pos n) = str_ℕ n
str (negsuc n) = b'-' ∷ str_ℕ (suc n)

-- The digits that are left, behind those that spelled `n`.
scan : Text → ℕ → Option ℕ
unfolding is_digit
scan [] n = some n
scan (c ∷ s) n = let rest = scan s (n * 10 + (c - b'0')) in if is_digit c then rest else none

-- `int(s)` on a text that `isdigit()` accepts
unfoldable pub int_ℕ : Text → Option ℕ
unfolding scan
int_ℕ [] = none
int_ℕ (c ∷ s) = scan (c ∷ s) 0

-- `int()` lets one `_` stand between two digits; `after` says that a digit stands before.
scan_grouped : Text → Bool → ℕ → Option ℕ
unfolding is_digit
scan_grouped [] after n = if after then some n else none
scan_grouped (c ∷ s) after n =
    let rest = scan_grouped s (is_digit c) (if is_digit c then n * 10 + (c - b'0') else n) in
    if is_digit c then rest else if (c == b'_') && after then rest else none

negate : Option ℕ → Option ℤ
negate none = none
negate (some zero) = some (pos 0)
negate (some (suc n)) = some (negsuc n)

positive : Option ℕ → Option ℤ
positive none = none
positive (some n) = some (pos n)

-- `int(s)` on a token: a sign at most, then digits. `none` is a `ValueError`.
unfoldable pub int : Text → Option ℤ
unfolding scan_grouped negate positive
int [] = none
int (c ∷ s) =
    if c == b'-'
    then negate (scan_grouped s false 0)
    else if c == b'+'
    then positive (scan_grouped s false 0)
    else positive (scan_grouped (c ∷ s) false 0)

int_values :
    (int (codes "-12") ≡ some (negsuc 11))
    × (int (codes "+1_000") ≡ some (pos 1000))
    × (int (codes "1__0") ≡ none)
    × (int (codes "12x") ≡ none)
    × (str (negsuc 11) ≡ codes "-12")
    × (str (pos 0) ≡ codes "0")
unfolding int str str_ℕ
int_values = (refl, refl, refl, refl, refl, refl)

scan-digits : (fuel n : ℕ) (out : Text) → n < fuel → scan (digits fuel n out) 0 ≡ scan out n
unfolding digits scan
scan-digits zero n out h = elim h [ ]
scan-digits (suc fuel) n out h = elim (Bool-cases (ltb n 10)) [
  | inl last ↦ ground arith
  | inr more ↦ ground (arith, scan-digits fuel (n / 10) ((b'0' + n % 10) ∷ out))
]

scan_grouped-digits :
    (fuel n : ℕ) (out : Text) (b : Bool)
    → n < fuel
    → scan_grouped (digits fuel n out) b 0 ≡ scan_grouped out true n
unfolding digits scan_grouped
scan_grouped-digits zero n out b h = elim h [ ]
scan_grouped-digits (suc fuel) n out b h = elim (Bool-cases (ltb n 10)) [
  | inl last ↦ ground arith
  | inr more ↦ ground (arith, scan_grouped-digits fuel (n / 10) ((b'0' + n % 10) ∷ out) b)
]

digits-IsDigit : (fuel n : ℕ) (out : Text) → All IsDigit out → All IsDigit (digits fuel n out)
unfolding digits
digits-IsDigit zero n out h = h
digits-IsDigit (suc fuel) n out h = elim (Bool-cases (ltb n 10)) [
  | inl last ↦ ground arith
  | inr more ↦ ground (arith, digits-IsDigit fuel (n / 10) ((b'0' + n % 10) ∷ out))
]

digits-ne-nil : (fuel n : ℕ) (out : Text) → out ≢ [] → digits fuel n out ≢ []
unfolding digits
digits-ne-nil zero n out h = h
digits-ne-nil (suc fuel) n out h = elim (Bool-cases (ltb n 10)) [
  | inl last ↦ ground arith
  | inr more ↦ ground (arith, digits-ne-nil fuel (n / 10) ((b'0' + n % 10) ∷ out))
]

pub str_ℕ-ne-nil : (n : ℕ) → str_ℕ n ≢ []
unfolding str_ℕ
str_ℕ-ne-nil n = elim (Bool-cases (ltb n 10)) [
  | inl last ↦ rw (last, digits) (cc)
  | inr more ↦ rw (more, digits) (digits-ne-nil n (n / 10) _ (cc))
]

pub str_ℕ-IsDigit : (n : ℕ) → All IsDigit (str_ℕ n)
unfolding str_ℕ
str_ℕ-IsDigit n = digits-IsDigit (suc n) n [] tt

all_digits-IsDigit : (s : Text) → All IsDigit s → all_digits s ≡ true
unfolding all_digits
all_digits-IsDigit [] h = refl
all_digits-IsDigit (c ∷ s) h = ground (arith, all_digits-IsDigit s)

isdigit-IsDigit : (s : Text) → s ≢ [] → All IsDigit s → isdigit s ≡ true
unfolding isdigit
isdigit-IsDigit [] ne h = absurd (ne refl)
isdigit-IsDigit (c ∷ s) ne h = all_digits-IsDigit (c ∷ s) h

pub isdigit-str_ℕ : (n : ℕ) → isdigit (str_ℕ n) ≡ true
isdigit-str_ℕ n = isdigit-IsDigit (str_ℕ n) (str_ℕ-ne-nil n) (str_ℕ-IsDigit n)

int_ℕ-scan : (s : Text) → s ≢ [] → int_ℕ s ≡ scan s 0
unfolding int_ℕ
int_ℕ-scan [] ne = absurd (ne refl)
int_ℕ-scan (c ∷ s) ne = refl

-- A number is read back from its print.
pub int_ℕ-str_ℕ : (n : ℕ) → int_ℕ (str_ℕ n) ≡ some n
unfolding str_ℕ scan
int_ℕ-str_ℕ n = rw (int_ℕ-scan (str_ℕ n) (str_ℕ-ne-nil n)) (scan-digits (suc n) n [] (omega arith))

int-unsigned : (s : Text) → s ≢ [] → All IsDigit s → int s ≡ positive (scan_grouped s false 0)
unfolding int
int-unsigned [] ne h = absurd (ne refl)
int-unsigned (c ∷ s) ne h = ground arith

scan_grouped-str_ℕ : (n : ℕ) → scan_grouped (str_ℕ n) false 0 ≡ some n
unfolding str_ℕ scan_grouped
scan_grouped-str_ℕ n = scan_grouped-digits (suc n) n [] false (omega arith)

-- An integer is read back from its print, negative ones too.
pub int-str : (z : ℤ) → int (str z) ≡ some z
unfolding str positive
int-str (pos n) =
    rw (int-unsigned (str_ℕ n) (str_ℕ-ne-nil n) (str_ℕ-IsDigit n), scan_grouped-str_ℕ n)
int-str (negsuc n) = unfold int negate in rw (scan_grouped-str_ℕ (suc n))
