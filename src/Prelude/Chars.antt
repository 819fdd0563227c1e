-- ===== src/Prelude/Chars.antt =====
-- Text of code points as a native string. A list that holds a code point which is no Unicode scalar
-- value has no such string; U+FFFD stands in for it.
use Prim.Native.Nat.{ℕ, Ordering, compare, ◌<◌}
use Prim.Native.Char.{Char, char, code, IsLt, IsScalar}
use Prim.Native.String.{String}
use mathlib.Core.Path.{◌≡◌, refl}
use mathlib.Core.Logic.{◌≢◌, ◌⊎◌, inl, inr}
use mathlib.Core.Option.{Option, none, some}
use mathlib.Core.List.{[], ◌∷◌}
use native.Mathlib.Omega.{arith, compare-eq, compare-gt}
use radio_robot_lib.Prelude.Lists.{All}
use radio_robot_lib.Prelude.Text.{Text, codes}

-- The clauses of `IsScalar`, on the three comparisons that it makes.
abbrev Both : Ordering → Ordering → Type 0
Both Ordering.lt o = IsLt o
Both Ordering.eq o = ⊥
Both Ordering.gt o = ⊥

abbrev Scalar : Ordering → Ordering → Ordering → Type 0
Scalar Ordering.lt o p = Unit
Scalar Ordering.eq o p = Both o p
Scalar Ordering.gt o p = Both o p

both_of : (o p : Ordering) → Option (Both o p)
both_of Ordering.lt Ordering.lt = some tt
both_of Ordering.lt Ordering.eq = none
both_of Ordering.lt Ordering.gt = none
both_of Ordering.eq p = none
both_of Ordering.gt p = none

scalar_of : (o p q : Ordering) → Option (Scalar o p q)
unfolding both_of
scalar_of Ordering.lt o p = some tt
scalar_of Ordering.eq o p = both_of o p
scalar_of Ordering.gt o p = both_of o p

char_or : (n : ℕ) → Option (IsScalar n) → Char
char_or n none = char 0xfffd tt
char_or n (some p) = char n p

pub char_of : ℕ → Char
unfolding char_or scalar_of
char_of n = char_or n (scalar_of (compare n 55296) (compare 57343 n) (compare n 1114112))

unfoldable pub string_of : Text → String
string_of [] = String.[]
string_of (c ∷ t) = String.◌∷◌ (char_of c) (string_of t)

code-char_or : (n : ℕ) (p : Option (IsScalar n)) → p ≢ none → code (char_or n p) ≡ n
unfolding char_or
code-char_or n none h = absurd (h refl)
code-char_or n (some p) h = refl

scalar_of_lt : (o p q : Ordering) → o ≡ Ordering.lt → scalar_of o p q ≢ none
unfolding scalar_of
scalar_of_lt Ordering.lt p q e h = absurd (cc)
scalar_of_lt Ordering.eq p q e h = absurd (cc)
scalar_of_lt Ordering.gt p q e h = absurd (cc)

compare_lt : (a b : ℕ) (o : Ordering) → compare a b ≡ o → a < b → o ≡ Ordering.lt
compare_lt a b Ordering.lt e h = refl
compare_lt a b Ordering.eq e h = absurd (omega (arith, compare-eq a b e))
compare_lt a b Ordering.gt e h = absurd (omega (arith, compare-gt a b e))

-- A code point below the surrogates is its character's.
pub code-char_of : (c : ℕ) → c < 0xd800 → code (char_of c) ≡ c
unfolding char_of
code-char_of c below = code-char_or c _ (scalar_of_lt _ _ _ (compare_lt c 55296 _ refl below))

-- A code point that a byte of a line decodes to is below the surrogates, or U+FFFD.
abbrev pub IsDecoded : ℕ → Type 0
IsDecoded c = (c < 0xd800) ⊎ (c ≡ 0xfffd)

code_decoded : (c : ℕ) → IsDecoded c → code (char_of c) ≡ c
unfolding char_of char_or scalar_of both_of
code_decoded c (inl below) = code-char_of c below
code_decoded c (inr e) = rw e refl

pub codes-string_of : (t : Text) → All IsDecoded t → codes (string_of t) ≡ t
unfolding string_of
codes-string_of [] h = refl
codes-string_of (c ∷ t) (h, k) = cc (code_decoded c h, codes-string_of t k)
