-- ===== src/Python/Split.antt =====
-- `str.split()` on runs of whitespace, `" ".join`, and that they undo one another on tokens.
use radio_robot_lib.Prelude.{
  ℕ, ◌≡◌, ◌≢◌, refl, sym, ap, ◌∙◌, ◌↔◌, Bool, true, false, ◌&&◌, ◌||◌, Option, none, some, List, [],
  ◌∷◌, ◌++◌, append_assoc, append-nil, arith, leb, ◌==◌, if◌then◌else◌, Bool-cases, inl, inr, All,
  All-append,
}
use radio_robot_lib.Prelude.Text.{Text, codes}

-- The code points that `str.isspace` accepts.
unfoldable pub is_space : ℕ → Bool
is_space c =
    (leb 9 c && leb c 13)
    || (leb 28 c && leb c 32)
    || c == 0x85
    || c == 0xa0
    || c == 0x1680
    || (leb 0x2000 c && leb c 0x200a)
    || c == 0x2028
    || c == 0x2029
    || c == 0x202f
    || c == 0x205f
    || c == 0x3000

emit : Text → List Text → List Text
emit [] rest = rest
emit (c ∷ word) rest = (c ∷ word) ∷ rest

-- `word` is the part of the current word that is read already.
words : Text → Text → List Text
words [] word = emit word []
words (c ∷ s) word =
    let rest = words s (if is_space c then [] else word ++ c ∷ []) in
    if is_space c then emit word rest else rest

-- `s.split()`
unfoldable pub split : Text → List Text
unfolding words emit
split s = words s []

-- `" ".join(tokens)`
unfoldable pub join : List Text → Text
join [] = []
join (t ∷ []) = t
join (t ∷ u ∷ rest) = t ++ b' ' ∷ join (u ∷ rest)

-- `c in text`
unfoldable pub contains : ℕ → Text → Bool
contains c [] = false
contains c (d ∷ s) = d == c || contains c s

-- `text.split(c, 1)`: what stands before the first `c`, and behind it if there is one.
unfoldable pub partition : ℕ → Text → Text × Option Text
partition c [] = ([], none)
partition c (d ∷ s) =
    let (before, behind) = partition c s in if d == c then ([], some s) else (d ∷ before, behind)

-- `not line.strip()`
unfoldable pub is_blank : Text → Bool
is_blank [] = true
is_blank (c ∷ s) = is_space c && is_blank s

abbrev pub IsToken : Text → Type 0
IsToken t = (t ≢ []) × All (λ c. is_space c ≡ false) t

split_values :
    (split (codes "  ack 3\t2  none ") ≡ codes "ack" ∷ codes "3" ∷ codes "2" ∷ codes "none" ∷ [])
    × (split (codes "   ") ≡ [])
    × (join (codes "GET" ∷ codes "kp" ∷ codes "#7" ∷ []) ≡ codes "GET kp #7")
unfolding split join is_space emit
split_values = (refl, refl, refl)

words-token :
    (t s word : Text) → All (λ c. is_space c ≡ false) t → words (t ++ s) word ≡ words s (word ++ t)
unfolding words emit
words-token [] s word h = rw append-nil
words-token (c ∷ t) s word (hc, ht) =
    rw (hc, words) (words-token t s (word ++ c ∷ []) ht)
    ∙ ap (words s) (append_assoc word (c ∷ []) t)

emit-token : (t : Text) (rest : List Text) → t ≢ [] → emit t rest ≡ t ∷ rest
unfolding emit
emit-token [] rest ne = absurd (ne refl)
emit-token (c ∷ t) rest ne = refl

words-last : (t : Text) → IsToken t → words t [] ≡ t ∷ []
unfolding words emit
words-last t (ne, ht) =
    ap (λ s. words s []) (sym (append-nil t)) ∙ words-token t [] [] ht ∙ emit-token t [] ne

-- Splitting gives the joined tokens back.
pub split-join : (ts : List Text) → All IsToken ts → split (join ts) ≡ ts
unfolding split join is_space
split-join [] h = refl
split-join (t ∷ []) (ht, _) = words-last t ht
split-join (t ∷ u ∷ rest) ((ne, ht), h) =
    words-token t (b' ' ∷ join (u ∷ rest)) [] ht
    ∙ unfold words in
      emit-token t (words (join (u ∷ rest)) []) ne ∙ ap (λ ts. t ∷ ts) (split-join (u ∷ rest) h)

emit-nil : (word : Text) (rest : List Text) → emit word rest ≡ [] → (word ≡ []) × (rest ≡ [])
unfolding emit
emit-nil [] rest h = (refl, h)
emit-nil (c ∷ word) rest h = absurd (cc)

snoc-ne-nil : (word : Text) (c : ℕ) → word ++ c ∷ [] ≢ []
snoc-ne-nil [] c h = cc
snoc-ne-nil (d ∷ word) c h = cc

words-blank : (s word : Text) → words s word ≡ [] → (word ≡ []) × (is_blank s ≡ true)
unfolding words is_blank
words-blank [] word h = ((emit-nil word [] h).0, refl)
words-blank (c ∷ s) word h = elim (Bool-cases (is_space c)) [
  | inl space ↦
      let (e, f) = emit-nil word (words s []) (rw space at h) in
      (e, rw (space, is_blank) ((words-blank s [] f).1))
  | inr letter ↦ absurd (snoc-ne-nil word c (words-blank s (word ++ c ∷ []) (rw letter at h)).0)
]

-- A line with no word is a blank one, and the other way round.
pub split-is_blank : (s : Text) → (split s ≡ []) ↔ (is_blank s ≡ true)
unfolding split is_blank emit
split-is_blank s = (λ h. (words-blank s [] h).1, blank s)
  where
    blank : (s : Text) → is_blank s ≡ true → words s [] ≡ []
    blank [] h = refl
    blank (c ∷ s) h = ground (arith, blank s)

-- The words of a text are made of its code points.
module _ (P : ℕ → Type 0) where
  emit-All :
      (word : Text) (rest : List Text)
      → All P word
      → All (All P) rest
      → All (All P) (emit word rest)
  unfolding emit
  emit-All [] rest h k = k
  emit-All (c ∷ word) rest h k = (h, k)

  words-All : (s word : Text) → All P s → All P word → All (All P) (words s word)
  unfolding words
  words-All [] word h k = emit-All word [] k tt
  words-All (c ∷ s) word (hc, h) k = elim (Bool-cases (is_space c)) [
    | inl space ↦ rw space (emit-All word (words s []) k (words-All s [] h tt))
    | inr letter ↦
        rw letter (words-All s (word ++ c ∷ []) h (All-append P word (c ∷ []) k (hc, tt)))
  ]

  pub split-All : (s : Text) → All P s → All (All P) (split s)
  unfolding split
  split-All s h = words-All s [] h tt
