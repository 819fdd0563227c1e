-- ===== src/Rogo/Daemon/Tickets.antt =====
-- No request is lost and none is answered twice: each sequence number that was handed out is in
-- exactly one place.
use radio_robot_lib.Prelude.{
  ℕ, suc, ◌+◌, ◌≡◌, refl, ap, subst, true, Option, none, some, List, [], ◌∷◌, arith, ltb, ◌==◌,
  if◌then◌else◌, Bool-cases, inl, inr,
}
use radio_robot_lib.Rogo.Protocol.{Request, Reply}
use radio_robot_lib.Rogo.Daemon.Heap.{Item, occurs, Pops, pop_min-Pops, TakesOut, take_out-TakesOut}
use radio_robot_lib.Rogo.Daemon.{
  Config, Server, init, Event, Outcome, starts, stops, draws, pushes, pops, finishes, exits,
  priority_of, push_found, pop_found, finish, can_exit, worker_is_free, step, run,
}

unfoldable pub occurs_running : ℕ → Option Item → ℕ
occurs_running k none = 0
occurs_running k (some item) = if item.sequence == k then 1 else 0

unfoldable pub occurs_replied : ℕ → List (ℕ × Reply) → ℕ
occurs_replied k [] = 0
occurs_replied k ((j, reply) ∷ rest) = (if j == k then 1 else 0) + occurs_replied k rest

-- In how many places the number stands.
abbrev pub places : ℕ → Server → ℕ
places k s =
    occurs k s.arriving + occurs k s.heap + occurs_running k s.current + occurs_replied k s.replies

abbrev pub IsAccounted : Server → Type 0
IsAccounted s = (k : ℕ) → places k s ≡ (if ltb k s.counter then 1 else 0)

-- `P` of the server after an event that can take place.
abbrev pub After : (Server → Type 0) → Option Server → Type 0
After P none = Unit
After P (some s) = P s

push-IsAccounted :
    (s : Server) (k : ℕ) (o : Option (Item × List Item))
    → TakesOut k s.arriving o
    → IsAccounted s
    → After IsAccounted (push_found o s)
unfolding push_found occurs
push-IsAccounted s k none h a = tt
push-IsAccounted s k (some (item, others)) (e, count) a = λ j. omega (arith, a j, count j)

pop-IsAccounted :
    (s : Server) (o : Option (Item × List Item))
    → Pops s.heap o
    → s.current ≡ none
    → IsAccounted s
    → After IsAccounted (pop_found o s)
unfolding pop_found occurs_running
pop-IsAccounted s none h idle a = tt
pop-IsAccounted s (some (item, others)) (_, _, count, _) idle a =
    λ j. omega (arith, a j, count j, ap (occurs_running j) idle)

finish-IsAccounted :
    (c : Config) (outcome : Outcome) (s : Server) (o : Option Item)
    → s.current ≡ o
    → IsAccounted s
    → After IsAccounted (finish c outcome o s)
unfolding finish occurs_running occurs_replied
finish-IsAccounted c outcome s none e a = tt
finish-IsAccounted c outcome s (some item) e a = λ j. omega (arith, a j, ap (occurs_running j) e)

pub free-idle : (s : Server) → worker_is_free s ≡ true → s.current ≡ none
unfolding worker_is_free
free-idle s h = ground arith

draw-IsAccounted :
    (s : Server) (priority : ℕ) (request : Request)
    → IsAccounted s
    → IsAccounted (record s {
      counter = suc s.counter;
      arriving =
          record { priority = priority; sequence = s.counter; request = request } ∷ s.arriving;
    })
unfolding occurs
draw-IsAccounted s priority request a = λ j. ground (arith, a j)

exit-IsAccounted : (xs : List Item) (s : Server) → IsAccounted s → After IsAccounted (can_exit xs s)
unfolding can_exit
exit-IsAccounted [] s a = elim (Bool-cases s.stop_requested) [
  | inl asked ↦ rw asked a
  | inr waits ↦ rw waits tt
]
exit-IsAccounted (item ∷ rest) s a = tt

init-IsAccounted : IsAccounted init
unfolding occurs occurs_running occurs_replied
init-IsAccounted k = ground arith

step-IsAccounted :
    (c : Config) (e : Event) (s : Server) → IsAccounted s → After IsAccounted (step c e s)
unfolding step
step-IsAccounted c starts s a = elim (Bool-cases s.started) [ inl b ↦ rw b tt | inr f ↦ rw f a ]
step-IsAccounted c stops s a = a
step-IsAccounted c (draws request) s a = elim (Bool-cases s.started) [
  | inl b ↦ rw b (draw-IsAccounted s (priority_of c request) request a)
  | inr f ↦ rw f tt
]
step-IsAccounted c (pushes k) s a = push-IsAccounted s k _ (take_out-TakesOut k s.arriving) a
step-IsAccounted c pops s a = elim (Bool-cases (worker_is_free s)) [
  | inl free ↦ rw free (pop-IsAccounted s _ (pop_min-Pops s.heap) (free-idle s free) a)
  | inr busy ↦ rw busy tt
]
step-IsAccounted c (finishes outcome) s a = finish-IsAccounted c outcome s _ refl a
step-IsAccounted c exits s a = elim (Bool-cases (worker_is_free s)) [
  | inl free ↦ rw free (exit-IsAccounted s.heap s a)
  | inr busy ↦ rw busy tt
]

module _ (P : Server → Type 0) (c : Config)
    (kept : (e : Event) (s : Server) → P s → After P (step c e s)) where
  onwards :
      (events : List Event) (o : Option Server) (t : Server)
      → After P o
      → ((s : Server) → P s → run c events s ≡ some t → P t)
      → (elim o [ none ↦ none | some s ↦ run c events s ]) ≡ some t
      → P t
  onwards events none t h rest e = absurd (cc)
  onwards events (some s) t h rest e = rest s h e

  -- What every event keeps holds after every history.
  pub run-keeps : (events : List Event) (s t : Server) → P s → run c events s ≡ some t → P t
  unfolding run
  run-keeps [] s t h e = subst P (cc) h
  run-keeps (event ∷ events) s t h e =
      onwards events (step c event s) t (kept event s h) (λ u hu eu. run-keeps events u t hu eu) e

-- In every history, under any classifier and interleaving, a sequence number that was handed out
-- stands in just one place: with a caller that waits for the lock, in the queue, with the worker or
-- among the replies. One that was not handed out stands in none.
pub run-IsAccounted :
    (c : Config) (events : List Event) (s : Server) (k : ℕ)
    → run c events init ≡ some s
    → places k s ≡ (if ltb k s.counter then 1 else 0)
run-IsAccounted c events s k e =
    run-keeps IsAccounted c (step-IsAccounted c) events init s init-IsAccounted e k
