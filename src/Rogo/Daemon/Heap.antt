-- ===== src/Rogo/Daemon/Heap.antt =====
-- The priority queue of src/host/rogo/daemon.py: `_QueueItem` and its order. `heapq` keeps a list of
-- which `heappop` takes the least item; the order inside the list is not modelled.
use radio_robot_lib.Prelude.{
  ℕ, suc, ◌+◌, ◌≤◌, ◌<◌, ◌≡◌, refl, Bool, true, false, ◌&&◌, ◌||◌, Option, none, some, List, [],
  ◌∷◌, arith, ltb, ◌==◌, if◌then◌else◌, Bool-cases, ==_iff, inl, inr, All, ◌⊎◌, length,
}
use radio_robot_lib.Rogo.Protocol.{Request}

pub record Item : Type 0 where
  pub priority : ℕ
  pub sequence : ℕ
  pub request : Request

-- `a < b` of `_QueueItem`: only the priority and then the sequence number count.
unfoldable pub before : Item → Item → Bool
before a b = ltb a.priority b.priority || ((a.priority == b.priority) && ltb a.sequence b.sequence)

-- `heapq.heappop`
unfoldable pub pop_min : List Item → Option (Item × List Item)
pop_min [] = none
pop_min (item ∷ rest) = elim (pop_min rest) [
  | none ↦ some (item, [])
  | some (least, others) ↦
      if before least item then some (least, item ∷ others) else some (item, least ∷ others)
]

-- The item with sequence number `k`, taken out of the list.
unfoldable pub take_out : ℕ → List Item → Option (Item × List Item)
take_out k [] = none
take_out k (item ∷ rest) = elim (take_out k rest) [
  | none ↦ if item.sequence == k then some (item, rest) else none
  | some (found, others) ↦
      if item.sequence == k then some (item, rest) else some (found, item ∷ others)
]

-- How often the sequence number stands in the list.
unfoldable pub occurs : ℕ → List Item → ℕ
occurs k [] = 0
occurs k (item ∷ rest) = (if item.sequence == k then 1 else 0) + occurs k rest

-- No later than: an earlier priority, or the same one and no later number.
abbrev pub IsFirst : Item → Item → Type 0
IsFirst a b = (a.priority < b.priority) ⊎ ((a.priority ≡ b.priority) × (a.sequence ≤ b.sequence))

IsFirst-trans : (a b c : Item) → IsFirst a b → IsFirst b c → IsFirst a c
IsFirst-trans a b c h k = omega arith

before-IsFirst : (a b : Item) → before a b ≡ true → IsFirst a b
unfolding before
before-IsFirst a b h = ground arith

not_before-IsFirst : (a b : Item) → before a b ≡ false → IsFirst b a
unfolding before
not_before-IsFirst a b h = ground arith

All-IsFirst : (a b : Item) (xs : List Item) → IsFirst a b → All (IsFirst b) xs → All (IsFirst a) xs
All-IsFirst a b [] h k = tt
All-IsFirst a b (x ∷ xs) h (k, ks) = (IsFirst-trans a b x h k, All-IsFirst a b xs h ks)

-- What a pop gives: the least item, and the others.
abbrev pub Pops : List Item → Option (Item × List Item) → Type 0
Pops xs none = xs ≡ []
Pops xs (some (least, others)) =
    All (IsFirst least) xs
    × All (IsFirst least) others
    × ((k : ℕ) → occurs k xs ≡ (if least.sequence == k then 1 else 0) + occurs k others)
    × (length xs ≡ suc (length others))

choose-Pops :
    (item least : Item) (rest others : List Item)
    → Pops rest (some (least, others))
    → Pops
        (item ∷ rest)
        (if before least item then some (least, item ∷ others) else some (item, least ∷ others))
unfolding occurs
choose-Pops item least rest others (h, ho, count, len) = elim (Bool-cases (before least item)) [
  | inl earlier ↦
      let first = before-IsFirst least item earlier in
      rw earlier ((first, h), (first, ho), λ k. omega (arith, count k), omega arith)
  | inr later ↦
      let first = not_before-IsFirst least item later in
      rw later (
        (omega arith, All-IsFirst item least rest first h),
        (first, All-IsFirst item least others first ho),
        λ k. omega (arith, count k),
        omega arith,
      )
]

alone : (item : Item) (rest : List Item) → rest ≡ [] → Pops (item ∷ rest) (some (item, []))
unfolding occurs
alone item rest e = rw e ((omega arith, tt), tt, λ k. refl, refl)

pub pop_min-Pops : (xs : List Item) → Pops xs (pop_min xs)
unfolding pop_min
pop_min-Pops [] = refl
pop_min-Pops (item ∷ rest) =
    (elim (pop_min rest)
        as (λ o.
          Pops rest o
          → Pops (item ∷ rest) (elim o [
            | none ↦ some (item, [])
            | some (least, others) ↦
                if before least item
                then some (least, item ∷ others)
                else some (item, least ∷ others)
          ])) [
            | none ↦ λ e. alone item rest e
            | some (least, others) ↦ choose-Pops item least rest others
          ])
      (pop_min-Pops rest)

-- What taking out gives: an item with that number, and the others.
abbrev pub TakesOut : ℕ → List Item → Option (Item × List Item) → Type 0
TakesOut k xs none = Unit
TakesOut k xs (some (item, others)) =
    (item.sequence ≡ k)
    × ((j : ℕ) → occurs j xs ≡ (if item.sequence == j then 1 else 0) + occurs j others)

taken-TakesOut :
    (k : ℕ) (item : Item) (rest : List Item) (o : Option (Item × List Item))
    → TakesOut k rest o
    → TakesOut k (item ∷ rest) (elim o [
      | none ↦ if item.sequence == k then some (item, rest) else none
      | some (found, others) ↦
          if item.sequence == k then some (item, rest) else some (found, item ∷ others)
    ])
unfolding occurs
taken-TakesOut k item rest none h = elim (Bool-cases (item.sequence == k)) [
  | inl here ↦ rw here ((==_iff item.sequence k).0 here, λ j. refl)
  | inr elsewhere ↦ rw elsewhere tt
]
taken-TakesOut k item rest (some (found, others)) (e, count) =
    elim (Bool-cases (item.sequence == k)) [
      | inl here ↦ rw here ((==_iff item.sequence k).0 here, λ j. refl)
      | inr elsewhere ↦ rw elsewhere (e, λ j. omega (arith, count j))
    ]

pub take_out-TakesOut : (k : ℕ) (xs : List Item) → TakesOut k xs (take_out k xs)
unfolding take_out
take_out-TakesOut k [] = tt
take_out-TakesOut k (item ∷ rest) = taken-TakesOut k item rest _ (take_out-TakesOut k rest)

-- `P` of what was found and of what is left.
abbrev pub FoundAll : (Item → Type 0) → Option (Item × List Item) → Type 0
FoundAll P none = Unit
FoundAll P (some (item, others)) = P item × All P others

pub pop_min-FoundAll : (P : Item → Type 0) (xs : List Item) → All P xs → FoundAll P (pop_min xs)
unfolding pop_min
pop_min-FoundAll P [] h = tt
pop_min-FoundAll P (item ∷ rest) (p, h) =
    (elim (pop_min rest)
        as (λ o.
          FoundAll P o
          → FoundAll P (elim o [
            | none ↦ some (item, [])
            | some (least, others) ↦
                if before least item
                then some (least, item ∷ others)
                else some (item, least ∷ others)
          ])) [
            | none ↦ λ _. (p, tt)
            | some (least, others) ↦ λ (q, k). elim (Bool-cases (before least item)) [
              | inl earlier ↦ rw earlier (q, (p, k))
              | inr later ↦ rw later (p, (q, k))
            ]
          ])
      (pop_min-FoundAll P rest h)

pub take_out-FoundAll :
    (P : Item → Type 0) (k : ℕ) (xs : List Item) → All P xs → FoundAll P (take_out k xs)
unfolding take_out
take_out-FoundAll P k [] h = tt
take_out-FoundAll P k (item ∷ rest) (p, h) =
    (elim (take_out k rest)
        as (λ o.
          FoundAll P o
          → FoundAll P (elim o [
            | none ↦ if item.sequence == k then some (item, rest) else none
            | some (found, others) ↦
                if item.sequence == k then some (item, rest) else some (found, item ∷ others)
          ])) [
            | none ↦ λ _. elim (Bool-cases (item.sequence == k)) [
              | inl here ↦ rw here (p, h)
              | inr elsewhere ↦ rw elsewhere tt
            ]
            | some (found, others) ↦ λ (q, r). elim (Bool-cases (item.sequence == k)) [
              | inl here ↦ rw here (p, h)
              | inr elsewhere ↦ rw elsewhere (q, (p, r))
            ]
          ])
      (take_out-FoundAll P k rest h)
