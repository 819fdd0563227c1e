-- ===== src/Rogo/Listener/Lifecycle/Tidy.antt =====
-- One listener of src/host/rogo/daemon.py that has its path for itself.
use radio_robot_lib.Prelude.{
  ℕ, ◌≡◌, refl, Bool, true, false, ◌⊎◌, inl, Option, none, some, List, [], ◌∷◌, map, arith,
  if◌then◌else◌,
}
use radio_robot_lib.Rogo.Listener.Lifecycle.{
  fresh, Machine, Accept, Event, starts, stops, accepts, owner_only, ensure_socket_dir,
  set_listener, bind_at, start, stop, take, accept_round, happen, happen_all,
}

-- The calls of one listener.
pub data Own : Type 0 where
  own_start : Bool → Own
  own_stop : Own
  own_accept : Accept → Own

abbrev pub event_of : ℕ → Own → Event
event_of i (own_start bind_raises) = starts i bind_raises
event_of i own_stop = stops i
event_of i (own_accept a) = accepts i a

-- The directory that was there is as it was; one that was made is its owner's alone. The file is
-- there exactly while the listener is bound, and its thread runs only then.
pub record IsTidy (i : ℕ) (before : Option ℕ) (m : Machine) : Type 0 where
  pub directory :
      (m.place.directory ≡ before) ⊎ ((before ≡ none) × (m.place.directory ≡ some owner_only))
  pub file : m.place.file ≡ (if (m.listeners i).sock then some i else none)
  pub running : (m.listeners i).accepting ≡ true → (m.listeners i).sock ≡ true

happen-IsTidy :
    (i : ℕ) (before : Option ℕ) (e : Own) (m : Machine)
    → IsTidy i before m
    → IsTidy i before (happen (event_of i e) m)
unfolding happen start stop accept_round take set_listener bind_at ensure_socket_dir
happen-IsTidy i before (own_start true) m h = record {
  directory = ground arith;
  file = ground arith;
  running = ground arith;
}
happen-IsTidy i before (own_start false) m h = record {
  directory = ground arith;
  file = ground arith;
  running = ground arith;
}
happen-IsTidy i before own_stop m h = record {
  directory = ground arith;
  file = ground arith;
  running = ground arith;
}
happen-IsTidy i before (own_accept a) m h = record {
  directory = ground arith;
  file = ground arith;
  running = ground arith;
}

events-IsTidy :
    (i : ℕ) (before : Option ℕ) (events : List Own) (m : Machine)
    → IsTidy i before m
    → IsTidy i before (happen_all (map (event_of i) events) m)
unfolding happen_all
events-IsTidy i before [] m h = h
events-IsTidy i before (e ∷ events) m h =
    events-IsTidy i before events (happen (event_of i e) m) (happen-IsTidy i before e m h)

-- Whatever is called on a listener that has its path for itself, in whatever order, whether `bind`
-- raises or not and whatever `accept` comes to, if there is no file at the path to begin with: a
-- directory that was there keeps its mode, one that was made is for its owner alone, the file is
-- there exactly while the listener holds its socket, and its accept loop runs only then.
pub happen_all-IsTidy :
    (i : ℕ) (events : List Own) (m : Machine)
    → m.place.file ≡ none
    → m.listeners i ≡ fresh
    → IsTidy i m.place.directory (happen_all (map (event_of i) events) m)
happen_all-IsTidy i events m free new =
    events-IsTidy i m.place.directory events m
      (record { directory = inl refl; file = rw new free; running = λ h. cc (new, h) })
