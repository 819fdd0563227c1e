-- ===== src/RobotV6/Session/Pending/Order.antt =====
-- Ids in the buffer rise from its oldest entry to its newest.
use radio_robot_lib.Prelude.{
  ℕ, suc, ◌≤◌, ◌<◌, ◌≡◌, refl, ap, ◌∙◌, none, some, List, [], ◌∷◌, ◌++◌, map, arith, if◌then◌else◌,
  length, All, Bool-cases, inl, inr,
}
use radio_robot_lib.Prelude.Text.{Text}
use radio_robot_lib.Prelude.Int.{ℤ, pos, leb_ℤ}
use radio_robot_lib.RobotV6.Session.Pending.{Outbox, put, get_line, retire, ids_from, place, sorted}

-- The ids rise, from `lo` on, and stay below `hi`.
abbrev pub Ascends : ℕ → Outbox → ℕ → Type 0
Ascends lo [] hi = lo ≤ hi
Ascends lo ((i, line) ∷ rest) hi = (lo ≤ i) × Ascends (suc i) rest hi

pub Ascends-le : (lo : ℕ) (p : Outbox) (hi : ℕ) → Ascends lo p hi → lo ≤ hi
Ascends-le lo [] hi h = h
Ascends-le lo ((i, line) ∷ rest) hi (le, h) = omega (arith, Ascends-le (suc i) rest hi h)

pub Ascends-weaken :
    (lo lo' : ℕ) (p : Outbox) (hi : ℕ) → lo ≤ lo' → Ascends lo' p hi → Ascends lo p hi
Ascends-weaken lo lo' [] hi le h = omega arith
Ascends-weaken lo lo' ((i, line) ∷ rest) hi le (h, t) = (omega arith, t)

pub Ascends-suc : (lo : ℕ) (p : Outbox) (hi : ℕ) → Ascends lo p hi → Ascends lo p (suc hi)
Ascends-suc lo [] hi h = omega arith
Ascends-suc lo ((i, line) ∷ rest) hi (le, h) = (le, Ascends-suc (suc i) rest hi h)

-- A new id goes to the end.
pub put-append :
    (lo : ℕ) (p : Outbox) (hi : ℕ) (line : Text)
    → Ascends lo p hi
    → put hi line p ≡ p ++ (hi, line) ∷ []
unfolding put
put-append lo [] hi line h = refl
put-append lo ((i, old) ∷ rest) hi line (le, h) =
    ground (arith, Ascends-le (suc i) rest hi h, put-append (suc i) rest hi line h)

pub Ascends-append :
    (lo : ℕ) (p : Outbox) (hi : ℕ) (line : Text)
    → Ascends lo p hi
    → Ascends lo (p ++ (hi, line) ∷ []) (suc hi)
Ascends-append lo [] hi line h = omega arith
Ascends-append lo ((i, old) ∷ rest) hi line (le, h) = (le, Ascends-append (suc i) rest hi line h)

pub retire-Ascends :
    (n : ℤ) (lo : ℕ) (p : Outbox) (hi : ℕ) → Ascends lo p hi → Ascends lo (retire n p) hi
unfolding retire
retire-Ascends n lo [] hi h = h
retire-Ascends n lo ((i, line) ∷ rest) hi (le, h) = elim (Bool-cases (leb_ℤ (pos i) n)) [
  | inl old ↦
      rw old (Ascends-weaken lo (suc i) _ hi (omega arith) (retire-Ascends n (suc i) rest hi h))
  | inr new ↦ rw new (le, retire-Ascends n (suc i) rest hi h)
]

pub length-retire-le : (n : ℤ) (p : Outbox) → length (retire n p) ≤ length p
unfolding retire
length-retire-le n [] = omega arith
length-retire-le n ((i, line) ∷ rest) = ground (arith, length-retire-le n rest)

pub retire-All : (P : ℕ × Text → Type 0) (n : ℤ) (p : Outbox) → All P p → All P (retire n p)
unfolding retire
retire-All P n [] h = tt
retire-All P n ((i, line) ∷ rest) (hp, h) = elim (Bool-cases (leb_ℤ (pos i) n)) [
  | inl old ↦ rw old (retire-All P n rest h)
  | inr new ↦ rw new (hp, retire-All P n rest h)
]

-- Exactly the ids up to `n` are gone.
pub get_line-retire :
    (n : ℤ) (i : ℕ) (p : Outbox)
    → get_line i (retire n p) ≡ (if leb_ℤ (pos i) n then none else get_line i p)
unfolding get_line retire
get_line-retire n i [] = ground arith
get_line-retire n i ((j, line) ∷ rest) = ground (arith, get_line-retire n i rest)

-- The ids that are left to resend are in order already: `sorted` changes nothing.
place-head :
    (i : ℕ) (p : Outbox) (hi : ℕ) (n : ℤ)
    → Ascends (suc i) p hi
    → place i (ids_from n p) ≡ i ∷ ids_from n p
unfolding place ids_from
place-head i [] hi n h = refl
place-head i ((j, line) ∷ rest) hi n (le, h) = elim (Bool-cases (leb_ℤ n (pos j))) [
  | inl wanted ↦ rw wanted (ground arith)
  | inr skipped ↦
      rw skipped (place-head i rest hi n (Ascends-weaken (suc i) (suc j) rest hi (omega arith) h))
]

pub sorted-ids_from :
    (n : ℤ) (lo : ℕ) (p : Outbox) (hi : ℕ) → Ascends lo p hi → sorted (ids_from n p) ≡ ids_from n p
unfolding sorted ids_from
sorted-ids_from n lo [] hi h = refl
sorted-ids_from n lo ((i, line) ∷ rest) hi (le, h) = elim (Bool-cases (leb_ℤ n (pos i))) [
  | inl wanted ↦
      rw wanted (ap (place i) (sorted-ids_from n (suc i) rest hi h) ∙ place-head i rest hi n h)
  | inr skipped ↦ rw skipped (sorted-ids_from n (suc i) rest hi h)
]

-- No entry stands under an id that all the others are below.
pub get_line-above : (lo : ℕ) (p : Outbox) (hi : ℕ) → Ascends lo p hi → get_line hi p ≡ none
unfolding get_line
get_line-above lo [] hi h = refl
get_line-above lo ((i, line) ∷ rest) hi (le, h) =
    ground (arith, Ascends-le (suc i) rest hi h, get_line-above (suc i) rest hi h)

-- The entries whose id is at least `n`.
unfoldable pub entries_from : ℤ → Outbox → Outbox
entries_from n [] = []
entries_from n ((i, line) ∷ rest) =
    let kept = entries_from n rest in if leb_ℤ n (pos i) then (i, line) ∷ kept else kept

abbrev pub ids : Outbox → List ℕ
ids = map (λ e. e.0)

pub ids-entries_from : (n : ℤ) (p : Outbox) → ids (entries_from n p) ≡ ids_from n p
unfolding entries_from ids_from
ids-entries_from n [] = refl
ids-entries_from n ((i, line) ∷ rest) = elim (Bool-cases (leb_ℤ n (pos i))) [
  | inl wanted ↦ rw (wanted, ids-entries_from n rest)
  | inr skipped ↦ rw (skipped, ids-entries_from n rest)
]

pub entries_from-All :
    (P : ℕ × Text → Type 0) (n : ℤ) (p : Outbox) → All P p → All P (entries_from n p)
unfolding entries_from
entries_from-All P n [] h = tt
entries_from-All P n ((i, line) ∷ rest) (hp, h) = elim (Bool-cases (leb_ℤ n (pos i))) [
  | inl wanted ↦ rw wanted (hp, entries_from-All P n rest h)
  | inr skipped ↦ rw skipped (entries_from-All P n rest h)
]

-- The entry stands in the buffer under its id.
abbrev pub StandsIn : Outbox → ℕ × Text → Type 0
StandsIn p e = get_line e.0 p ≡ some e.1

pub StandsIn-cons :
    (j : ℕ) (old : Text) (p : Outbox) (lo : ℕ) (q : Outbox) (hi : ℕ)
    → j < lo
    → Ascends lo q hi
    → All (StandsIn p) q
    → All (StandsIn ((j, old) ∷ p)) q
unfolding get_line
StandsIn-cons j old p lo [] hi lt h all = tt
StandsIn-cons j old p lo ((i, line) ∷ q) hi lt (le, h) (s, all) =
    (ground arith, StandsIn-cons j old p (suc i) q hi (omega arith) h all)

-- Since ids do not repeat, every entry is found under its own.
pub Ascends-StandsIn : (lo : ℕ) (p : Outbox) (hi : ℕ) → Ascends lo p hi → All (StandsIn p) p
unfolding get_line
Ascends-StandsIn lo [] hi h = tt
Ascends-StandsIn lo ((i, line) ∷ rest) hi (le, h) = (
  ground arith,
  StandsIn-cons i line rest (suc i) rest hi (omega arith) h (Ascends-StandsIn (suc i) rest hi h),
)
