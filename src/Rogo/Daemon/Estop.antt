-- ===== src/Rogo/Daemon/Estop.antt =====
-- The safety part of src/host/rogo/daemon.py: how a request of the estop class gets ahead of the
-- others.
use radio_robot_lib.Prelude.{
  ℕ, ◌≡◌, refl, subst, Bool, true, false, ◌||◌, Option, none, some, List, [], ◌∷◌, arith, ◌==◌,
  if◌then◌else◌, Bool-cases, inl, inr, All, ==_refl,
}
use radio_robot_lib.Rogo.Daemon.Heap.{
  Item, Pops, pop_min-Pops, IsFirst, FoundAll, pop_min-FoundAll, take_out-FoundAll,
}
use radio_robot_lib.Rogo.Daemon.Tickets.{After, run-keeps}
use radio_robot_lib.Rogo.Daemon.{
  Config, Server, init, Event, Outcome, starts, stops, draws, pushes, pops, finishes, exits,
  priority_of, set_abort, enqueue, push_found, pop_found, finish, can_exit, worker_is_free, step,
  run,
}

-- `is_set()` of the abort event of the item with that number.
unfoldable pub is_set : ℕ → List ℕ → Bool
is_set k [] = false
is_set k (j ∷ rest) = (j == k) || is_set k rest

-- A request of the estop class is queued.
unfoldable pub waiting_estop : Config → List Item → Bool
waiting_estop c [] = false
waiting_estop c (item ∷ rest) = c.is_estop item.request || waiting_estop c rest

abbrev pub IsRanked : Config → Item → Type 0
IsRanked c item = item.priority ≡ priority_of c item.request

abbrev pub IsInterrupted : Config → Option Item → List Item → List ℕ → Type 0
IsInterrupted c none heap aborted = Unit
IsInterrupted c (some item) heap aborted =
    IsRanked c item
    × (c.is_estop item.request ≡ false
        → waiting_estop c heap ≡ true
        → is_set item.sequence aborted ≡ true)

abbrev pub IsGuarded : Config → Server → Type 0
IsGuarded c s =
    All (IsRanked c) s.arriving
    × All (IsRanked c) s.heap
    × IsInterrupted c s.current s.heap s.aborted

-- Nothing of the estop class is queued behind an ordinary request that is first.
ordinary_first :
    (c : Config) (item : Item) (xs : List Item)
    → IsRanked c item
    → c.is_estop item.request ≡ false
    → All (IsRanked c) xs
    → All (IsFirst item) xs
    → waiting_estop c xs ≡ false
unfolding waiting_estop priority_of
ordinary_first c item [] r o h k = refl
ordinary_first c item (x ∷ xs) r o (h, hs) (k, ks) =
    let rest = ordinary_first c item xs r o hs ks in
    elim (Bool-cases (c.is_estop x.request)) [
      | inl e ↦ absurd (ground (arith, r, o, h, k, e))
      | inr e ↦ rw e rest
    ]

push-IsInterrupted :
    (c : Config) (item : Item) (current : Option Item) (heap : List Item) (aborted : List ℕ)
    → IsRanked c item
    → IsInterrupted c current heap aborted
    → IsInterrupted c current
        (item ∷ heap)
        (if item.priority == 0 then set_abort current aborted else aborted)
unfolding waiting_estop priority_of set_abort is_set
push-IsInterrupted c item none heap aborted r h = tt
push-IsInterrupted c item (some running) heap aborted r (ranked, keep) = (
  ranked,
  λ ordinary queued. elim (Bool-cases (c.is_estop item.request)) [
    | inl estop ↦
        let ahead : item.priority ≡ 0 = ground (arith, r, estop) in
        rw (ahead, ==_refl running.sequence) refl
    | inr plain ↦
        let behind : item.priority ≡ 1 = ground (arith, r, plain) in
        rw behind (keep ordinary (ground (arith, queued, plain)))
  ],
)

push-IsGuarded :
    (c : Config) (s : Server) (o : Option (Item × List Item))
    → FoundAll (IsRanked c) o
    → IsGuarded c s
    → After (IsGuarded c) (push_found o s)
unfolding push_found enqueue
push-IsGuarded c s none f g = tt
push-IsGuarded c s (some (item, others)) (r, rs) (ga, gh, gi) =
    (rs, (r, gh), push-IsInterrupted c item s.current s.heap s.aborted r gi)

pop-IsGuarded :
    (c : Config) (s : Server) (o : Option (Item × List Item))
    → Pops s.heap o
    → FoundAll (IsRanked c) o
    → IsGuarded c s
    → After (IsGuarded c) (pop_found o s)
unfolding pop_found
pop-IsGuarded c s none p f g = tt
pop-IsGuarded c s (some (item, others)) (_, first, _, _) (r, rs) (ga, gh, gi) = (
  ga,
  rs,
  (
    r,
    λ ordinary queued.
        absurd (ground (arith, queued, ordinary_first c item others r ordinary rs first)),
  ),
)

finish-IsGuarded :
    (c : Config) (outcome : Outcome) (s : Server) (o : Option Item)
    → IsGuarded c s
    → After (IsGuarded c) (finish c outcome o s)
unfolding finish
finish-IsGuarded c outcome s none g = tt
finish-IsGuarded c outcome s (some item) (ga, gh, gi) = (ga, gh, tt)

exit-IsGuarded :
    (c : Config) (xs : List Item) (s : Server) → IsGuarded c s → After (IsGuarded c) (can_exit xs s)
unfolding can_exit
exit-IsGuarded c [] s g = elim (Bool-cases s.stop_requested) [
  | inl asked ↦ rw asked g
  | inr waits ↦ rw waits tt
]
exit-IsGuarded c (item ∷ rest) s g = tt

step-IsGuarded :
    (c : Config) (e : Event) (s : Server) → IsGuarded c s → After (IsGuarded c) (step c e s)
unfolding step
step-IsGuarded c starts s g = elim (Bool-cases s.started) [ inl b ↦ rw b tt | inr f ↦ rw f g ]
step-IsGuarded c stops s g = g
step-IsGuarded c (draws request) s (ga, gh, gi) = elim (Bool-cases s.started) [
  | inl b ↦ rw b ((refl, ga), gh, gi)
  | inr f ↦ rw f tt
]
step-IsGuarded c (pushes k) s (ga, gh, gi) =
    push-IsGuarded c s _ (take_out-FoundAll (IsRanked c) k s.arriving ga) (ga, gh, gi)
step-IsGuarded c pops s (ga, gh, gi) = elim (Bool-cases (worker_is_free s)) [
  | inl free ↦ rw free (
      pop-IsGuarded c s _ (pop_min-Pops s.heap) (pop_min-FoundAll (IsRanked c) s.heap gh)
        (ga, gh, gi))
  | inr busy ↦ rw busy tt
]
step-IsGuarded c (finishes outcome) s g = finish-IsGuarded c outcome s _ g
step-IsGuarded c exits s g = elim (Bool-cases (worker_is_free s)) [
  | inl free ↦ rw free (exit-IsGuarded c s.heap s g)
  | inr busy ↦ rw busy tt
]

reached-IsGuarded :
    (c : Config) (events : List Event) (s : Server) → run c events init ≡ some s → IsGuarded c s
reached-IsGuarded c events s e =
    run-keeps (IsGuarded c) c (step-IsGuarded c) events init s (tt, tt, tt) e

-- In every history, under any interleaving of clients and worker, if an ordinary request is being
-- dispatched while a request of the estop class is queued, then the abort event of that dispatch
-- is set.
pub running-interrupted :
    (c : Config) (events : List Event) (s : Server) (item : Item)
    → run c events init ≡ some s
    → s.current ≡ some item
    → c.is_estop item.request ≡ false
    → waiting_estop c s.heap ≡ true
    → is_set item.sequence s.aborted ≡ true
running-interrupted c events s item e now ordinary queued =
    let (_, _, guarded) = reached-IsGuarded c events s e in
    let (_, keep) = subst (λ o. IsInterrupted c o s.heap s.aborted) now guarded in
    keep ordinary queued

-- The worker dispatches a request of the estop class.
unfoldable pub runs_estop : Config → Option Item → Bool
runs_estop c none = false
runs_estop c (some item) = c.is_estop item.request

popped-runs_estop :
    (c : Config) (s : Server) (o : Option (Item × List Item))
    → Pops s.heap o
    → FoundAll (IsRanked c) o
    → All (IsRanked c) s.heap
    → waiting_estop c s.heap ≡ true
    → After (λ t. runs_estop c t.current ≡ true) (pop_found o s)
unfolding pop_found runs_estop
popped-runs_estop c s none p f h queued = tt
popped-runs_estop c s (some (item, others)) (first, _, _, _) (r, rs) h queued =
    elim (Bool-cases (c.is_estop item.request)) [
      | inl estop ↦ estop
      | inr plain ↦ absurd (ground (arith, queued, ordinary_first c item s.heap r plain h first))
    ]

pops-runs_estop :
    (c : Config) (s : Server)
    → All (IsRanked c) s.heap
    → waiting_estop c s.heap ≡ true
    → After (λ t. runs_estop c t.current ≡ true) (step c pops s)
unfolding step
pops-runs_estop c s h queued = elim (Bool-cases (worker_is_free s)) [
  | inl free ↦ rw free (
      popped-runs_estop c s _ (pop_min-Pops s.heap) (pop_min-FoundAll (IsRanked c) s.heap h) h
        queued)
  | inr busy ↦ rw busy tt
]

-- In every history, if a request of the estop class is queued when the worker takes its next item,
-- then that item is a request of the estop class, however many ordinary requests came before it.
pub estop_next :
    (c : Config) (events : List Event) (s t : Server)
    → run c events init ≡ some s
    → waiting_estop c s.heap ≡ true
    → step c pops s ≡ some t
    → runs_estop c t.current ≡ true
estop_next c events s t e queued popped =
    let (_, ranked, _) = reached-IsGuarded c events s e in
    subst (After (λ u. runs_estop c u.current ≡ true)) popped (pops-runs_estop c s ranked queued)
