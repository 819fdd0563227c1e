-- ===== src/Rogo/Daemon/Shutdown.antt =====
-- The end of a `DaemonServer` of src/host/rogo/daemon.py: `stop()` and the loop of `_run_worker`.
use radio_robot_lib.Prelude.{
  ℕ, suc, ◌+◌, ◌≡◌, refl, sym, ap, subst, true, false, Option, none, some, List, [], ◌∷◌, arith,
  length,
}
use radio_robot_lib.Rogo.Daemon.Heap.{Item, occurs, pop_min, Pops, pop_min-Pops}
use radio_robot_lib.Rogo.Daemon.Tickets.{occurs_replied}
use radio_robot_lib.Rogo.Daemon.{
  Config, Server, Event, Outcome, pops, finishes, exits, pop_found, finish, can_exit,
  worker_is_free, is_idle, step, run, execute,
}

-- The worker alone, with these outcomes of the dispatches.
abbrev pub rounds : List Outcome → List Event
rounds [] = exits ∷ []
rounds (outcome ∷ outcomes) = pops ∷ finishes outcome ∷ rounds outcomes

-- Every number that was queued or answered before is answered, and the worker has returned.
abbrev pub IsDrained : Server → Option Server → Type 0
IsDrained s none = ⊥
IsDrained s (some t) =
    (t.exited ≡ true)
    × (t.heap ≡ [])
    × ((k : ℕ) → occurs_replied k t.replies ≡ occurs k s.heap + occurs_replied k s.replies)

-- The server between the rounds.
abbrev IsStopping : Server → Type 0
IsStopping s =
    (s.started ≡ true) × (s.exited ≡ false) × (s.current ≡ none) × (s.stop_requested ≡ true)

stopping-free : (s : Server) → IsStopping s → worker_is_free s ≡ true
unfolding worker_is_free is_idle
stopping-free s (a, b, c, d) = rw (a, b, c) refl

ended-IsDrained :
    (s : Server) (xs : List Item)
    → s.heap ≡ xs
    → length xs ≡ 0
    → s.stop_requested ≡ true
    → IsDrained s (can_exit xs s)
unfolding can_exit occurs
ended-IsDrained s [] e none_left asked = rw asked (refl, e, λ k. rw e (omega arith))
ended-IsDrained s (item ∷ rest) e none_left asked = absurd (omega (arith, none_left))

IsDrained-trans :
    (s t : Server) (o : Option Server)
    → ((k : ℕ)
        → occurs k t.heap + occurs_replied k t.replies
          ≡ occurs k s.heap + occurs_replied k s.replies)
    → IsDrained t o
    → IsDrained s o
IsDrained-trans s t none same h = h
IsDrained-trans s t (some u) same (over, rest, count) =
    (over, rest, λ k. omega (arith, same k, count k))

-- What the worker does with the item it took.
round-IsDrained :
    (c : Config) (outcome : Outcome) (outcomes : List Outcome) (s : Server)
    (o : Option (Item × List Item))
    → Pops s.heap o
    → IsStopping s
    → length s.heap ≡ suc (length outcomes)
    → ((t : Server)
        → IsStopping t
        → length t.heap ≡ length outcomes
        → IsDrained t (run c (rounds outcomes) t))
    → IsDrained s (elim (pop_found o s) [
      | none ↦ none
      | some t ↦ run c (finishes outcome ∷ rounds outcomes) t
    ])
unfolding pop_found run step finish occurs occurs_replied
round-IsDrained c outcome outcomes s none p h len rest = absurd (omega (arith, len, ap length p))
round-IsDrained c outcome outcomes s (some (item, others)) (_, _, count, fewer) (a, b, d, e) len
      rest =
    let t = record s {
      heap = others;
      current = none;
      replies = (item.sequence, execute c item.request outcome) ∷ s.replies;
    } in
    IsDrained-trans s t _ (λ k. omega (arith, count k)) (rest t (a, b, refl, e) (omega arith))

free-step :
    (c : Config) (s : Server)
    → worker_is_free s ≡ true
    → (step c exits s ≡ can_exit s.heap s) × (step c pops s ≡ pop_found (pop_min s.heap) s)
unfolding step
free-step c s free = rw free (refl, refl)

run_nil-IsDrained :
    (c : Config) (s : Server) (o : Option Server)
    → IsDrained s o
    → IsDrained s (elim o [ none ↦ none | some t ↦ run c [] t ])
unfolding run
run_nil-IsDrained c s none h = h
run_nil-IsDrained c s (some t) h = h

-- After `stop()`, with no further submissions, a free worker answers every queued request, however
-- the dispatches end, in as many rounds as requests are queued, and returns.
pub stop-IsDrained :
    (c : Config) (outcomes : List Outcome) (s : Server)
    → IsStopping s
    → length s.heap ≡ length outcomes
    → IsDrained s (run c (rounds outcomes) s)
unfolding run
stop-IsDrained c [] s h len =
    let (_, _, _, asked) = h in
    subst (λ o. IsDrained s (elim o [ none ↦ none | some t ↦ run c [] t ]))
      (sym ((free-step c s (stopping-free s h)).0))
      (run_nil-IsDrained c s _ (ended-IsDrained s s.heap refl len asked))
stop-IsDrained c (outcome ∷ outcomes) s h len =
    subst
      (λ o.
        IsDrained s
          (elim o [ none ↦ none | some t ↦ run c (finishes outcome ∷ rounds outcomes) t ]))
      (sym ((free-step c s (stopping-free s h)).1))
      (round-IsDrained c outcome outcomes s _ (pop_min-Pops s.heap) h len
        (stop-IsDrained c outcomes))
