-- ===== src/Rogo/Listener/Lifecycle/Rivals.antt =====
-- Listeners of src/host/rogo/daemon.py that share a path, and listeners that are started again.
use radio_robot_lib.Prelude.{
  ℕ, ◌≡◌, ◌≢◌, refl, true, false, none, some, List, [], ◌∷◌, ◌==◌, ==_iff, arith, subst, inl, inr,
  Bool-cases,
}
use radio_robot_lib.Rogo.Listener.Lifecycle.{
  Listener, Machine, Accept, Event, starts, stops, accepts, set_listener, bind_at, start, stop,
  accept_round, happen, happen_all, reached,
}

-- Where a listener is reached through the path and another one, that is not bound, starts and binds:
-- the path leads to the newcomer, and once the newcomer stops it leads nowhere. The first listener is
-- through all of this as it was, bound and, if it was, accepting.
pub second_start-unreachable :
    (i j : ℕ) (m : Machine)
    → j ≢ i
    → (m.listeners j).sock ≡ false
    → reached m ≡ some i
    → (reached (start j false m) ≡ some j)
      × (reached (stop j (start j false m)) ≡ none)
      × ((stop j (start j false m)).listeners i ≡ m.listeners i)
      × ((m.listeners i).sock ≡ true)
unfolding reached start stop set_listener bind_at
second_start-unreachable i j m other new live = ground arith

-- A listener that was stopped and serves nobody.
pub record IsSpent (l : Listener) : Type 0 where
  pub stopped : l.stop_requested ≡ true
  pub idle : l.clients ≡ []

accept_round-IsSpent : (a : Accept) (l : Listener) → IsSpent l → IsSpent (accept_round a l)
unfolding accept_round
accept_round-IsSpent a l h = record { stopped = ground arith; idle = ground arith }

set_listener-IsSpent :
    (i j : ℕ) (l : Listener) (m : Machine)
    → IsSpent (m.listeners i)
    → (i ≡ j → IsSpent l)
    → IsSpent ((set_listener j l m).listeners i)
unfolding set_listener
set_listener-IsSpent i j l m h k = elim (Bool-cases (i == j)) [
  | inl same ↦ rw same (k ((==_iff i j).0 same))
  | inr other ↦ rw other h
]

happen-IsSpent :
    (i : ℕ) (e : Event) (m : Machine) → IsSpent (m.listeners i) → IsSpent ((happen e m).listeners i)
unfolding happen start stop
happen-IsSpent i (starts j bind_raises) m h = elim (Bool-cases (m.listeners j).sock) [
  | inl bound ↦ rw bound h
  | inr unbound ↦ rw unbound (
      set_listener-IsSpent i j _ (record m { place = bind_at j bind_raises m.place }) h
        (λ e. record { stopped = cc (e, h.stopped); idle = cc (e, h.idle) }))
]
happen-IsSpent i (stops j) m h =
    set_listener-IsSpent i j _ (record m { place = record m.place { file = none } }) h
      (λ e. record { stopped = refl; idle = refl })
happen-IsSpent i (accepts j a) m h =
    set_listener-IsSpent i j _ m h (λ e.
      accept_round-IsSpent a (m.listeners j) (subst (λ (k : ℕ). IsSpent (m.listeners k)) (e) h))

happen_all-IsSpent :
    (i : ℕ) (events : List Event) (m : Machine)
    → IsSpent (m.listeners i)
    → IsSpent ((happen_all events m).listeners i)
unfolding happen_all
happen_all-IsSpent i [] m h = h
happen_all-IsSpent i (e ∷ events) m h =
    happen_all-IsSpent i events (happen e m) (happen-IsSpent i e m h)

stopped-IsSpent : (i : ℕ) (m : Machine) → IsSpent ((stop i m).listeners i)
unfolding stop set_listener
stopped-IsSpent i m = rw ((==_iff i i).1 refl) (record { stopped = refl; idle = refl })

-- Once a listener has been stopped it serves no client again, whatever is called on it and on others
-- afterwards, and however often it is started.
pub stop-IsSpent :
    (i : ℕ) (events : List Event) (m : Machine)
    → IsSpent ((happen_all events (stop i m)).listeners i)
stop-IsSpent i events m = happen_all-IsSpent i events (stop i m) (stopped-IsSpent i m)
