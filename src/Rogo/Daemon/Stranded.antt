-- ===== src/Rogo/Daemon/Stranded.antt =====
-- A request that is submitted to a `DaemonServer` of src/host/rogo/daemon.py too late: after
-- `stop()`, when the loop of `_run_worker` has ended.
use radio_robot_lib.Prelude.{
  ℕ, suc, ◌<◌, ◌≡◌, refl, ap, ◌∙◌, subst, true, false, Option, none, some, List, [], ◌∷◌, arith,
  Bool-cases, inl, inr, ◌==◌, ==_refl, if◌then◌else◌,
}
use radio_robot_lib.Rogo.Protocol.{Request, Reply}
use radio_robot_lib.Rogo.Daemon.Heap.{Item, occurs, take_out}
use radio_robot_lib.Rogo.Daemon.Tickets.{After, run-keeps, free-idle}
use radio_robot_lib.Rogo.Daemon.{
  Config, Server, Event, Outcome, starts, stops, draws, pushes, pops, finishes, exits, priority_of,
  set_abort, enqueue, push_found, finish, can_exit, worker_is_free, step, run,
}

-- The worker has returned with nothing in its hands and these replies given, and this number stands
-- in the queue.
abbrev pub IsOver : List (ℕ × Reply) → ℕ → Server → Type 0
IsOver replies k s =
    (s.exited ≡ true) × (s.current ≡ none) × (s.replies ≡ replies) × (0 < occurs k s.heap)

pushed-IsOver :
    (replies : List (ℕ × Reply)) (k : ℕ) (s : Server) (o : Option (Item × List Item))
    → IsOver replies k s
    → After (IsOver replies k) (push_found o s)
unfolding push_found enqueue occurs
pushed-IsOver replies k s none h = tt
pushed-IsOver replies k s (some (item, others)) (over, idle, e, queued) =
    (over, idle, e, omega (arith, queued))

finished-IsOver :
    (c : Config) (outcome : Outcome) (replies : List (ℕ × Reply)) (k : ℕ) (s : Server)
    (o : Option Item)
    → o ≡ none
    → After (IsOver replies k) (finish c outcome o s)
unfolding finish
finished-IsOver c outcome replies k s none e = tt
finished-IsOver c outcome replies k s (some item) e = absurd (cc)

over-busy :
    (replies : List (ℕ × Reply)) (k : ℕ) (s : Server)
    → IsOver replies k s
    → worker_is_free s ≡ false
unfolding worker_is_free
over-busy replies k s (over, idle, e, queued) = rw over (ground arith)

step-IsOver :
    (replies : List (ℕ × Reply)) (k : ℕ) (c : Config) (e : Event) (s : Server)
    → IsOver replies k s
    → After (IsOver replies k) (step c e s)
unfolding step
step-IsOver replies k c starts s h = elim (Bool-cases s.started) [
  | inl b ↦ rw b tt
  | inr f ↦ rw f h
]
step-IsOver replies k c stops s h = h
step-IsOver replies k c (draws request) s h = elim (Bool-cases s.started) [
  | inl b ↦ rw b h
  | inr f ↦ rw f tt
]
step-IsOver replies k c (pushes n) s h = pushed-IsOver replies k s (take_out n s.arriving) h
step-IsOver replies k c pops s h = rw (over-busy replies k s h) tt
step-IsOver replies k c (finishes outcome) s (over, idle, e, queued) =
    finished-IsOver c outcome replies k s s.current idle
step-IsOver replies k c exits s h = rw (over-busy replies k s h) tt

-- The worker returned between the two servers.
abbrev HasExited : Server → Server → Type 0
HasExited s t =
    (s.stop_requested ≡ true)
    × (s.heap ≡ [])
    × (t.started ≡ true)
    × (t.exited ≡ true)
    × (t.current ≡ none)
    × (t.replies ≡ s.replies)

exited-HasExited :
    (xs : List Item) (s : Server)
    → s.heap ≡ xs
    → s.started ≡ true
    → s.current ≡ none
    → After (HasExited s) (can_exit xs s)
unfolding can_exit
exited-HasExited [] s e on idle = elim (Bool-cases s.stop_requested) [
  | inl asked ↦ rw asked (refl, e, on, refl, idle, refl)
  | inr waits ↦ rw waits tt
]
exited-HasExited (item ∷ rest) s e on idle = tt

free-started : (s : Server) → worker_is_free s ≡ true → s.started ≡ true
unfolding worker_is_free
free-started s h = ground arith

exits-HasExited : (c : Config) (s : Server) → After (HasExited s) (step c exits s)
unfolding step
exits-HasExited c s = elim (Bool-cases (worker_is_free s)) [
  | inl free ↦ rw free (exited-HasExited s.heap s refl (free-started s free) (free-idle s free))
  | inr busy ↦ rw busy tt
]

-- The item that `submit` makes, and the server with it in the queue.
abbrev pub item_of : Config → Request → Server → Item
item_of c request t = record {
  priority = priority_of c request;
  sequence = t.counter;
  request = request;
}

abbrev pub submitted : Config → Request → Server → Server
submitted c request t = record t { counter = suc t.counter; heap = item_of c request t ∷ t.heap }

take_first :
    (k : ℕ) (item : Item) (rest : List Item) (o : Option (Item × List Item))
    → (item.sequence == k) ≡ true
    → ◌≡◌ {A = Option (Item × List Item)}
        (elim o [
          | none ↦ if item.sequence == k then some (item, rest) else none
          | some (found, others) ↦
              if item.sequence == k then some (item, rest) else some (found, item ∷ others)
        ])
        (some (item, rest))
take_first k item rest none e = rw e refl
take_first k item rest (some (found, others)) e = rw e refl

enqueue_idle :
    (item : Item) (others : List Item) (s : Server)
    → s.current ≡ none
    → enqueue item others s ≡ record s { arriving = others; heap = item ∷ s.heap }
unfolding enqueue set_abort
enqueue_idle item others s idle = elim (Bool-cases (item.priority == 0)) [
  | inl estop ↦ rw (estop, idle) refl
  | inr other ↦ rw other refl
]

-- Between the draw of the number and the lock.
abbrev drawn : Config → Request → Server → Server
drawn c request t = record t {
  counter = suc t.counter;
  arriving = item_of c request t ∷ t.arriving;
}

draws-drawn :
    (c : Config) (request : Request) (t : Server)
    → t.started ≡ true
    → step c (draws request) t ≡ some (drawn c request t)
unfolding step
draws-drawn c request t on = rw on refl

pushes-drawn :
    (c : Config) (request : Request) (t : Server)
    → t.current ≡ none
    → step c (pushes t.counter) (drawn c request t) ≡ some (submitted c request t)
unfolding step take_out push_found
pushes-drawn c request t idle =
    ap push_found_in (
      take_first t.counter (item_of c request t) t.arriving (take_out t.counter t.arriving)
        (==_refl t.counter))
    ∙ ap some (enqueue_idle (item_of c request t) t.arriving (drawn c request t) idle)
  where
    push_found_in : Option (Item × List Item) → Option Server
    push_found_in o = push_found o (drawn c request t)

submits :
    (c : Config) (request : Request) (t : Server)
    → t.started ≡ true
    → t.current ≡ none
    → run c (draws request ∷ pushes t.counter ∷ []) t ≡ some (submitted c request t)
unfolding run
submits c request t on idle =
    rw (run, draws-drawn c request t on, run, pushes-drawn c request t idle, run) refl

-- The worker returns only when it was asked to and nothing is queued. A request that is submitted
-- afterwards is accepted all the same, and it is never taken or answered, whatever happens from then
-- on: it stays in the queue, and no reply is given to anybody any more.
pub submit_strands :
    (c : Config) (request : Request) (events : List Event) (s t u : Server)
    → step c exits s ≡ some t
    → run c events (submitted c request t) ≡ some u
    → (s.stop_requested ≡ true)
      × (s.heap ≡ [])
      × (run c (draws request ∷ pushes t.counter ∷ []) t ≡ some (submitted c request t))
      × (u.replies ≡ s.replies)
      × (0 < occurs t.counter u.heap)
unfolding occurs
submit_strands c request events s t u ended later =
    let (asked, empty, on, over, idle, same) =
      subst (After (HasExited s)) ended (exits-HasExited c s) in
    let queued : 0 < occurs t.counter (item_of c request t ∷ t.heap) =
      rw (==_refl t.counter) (omega arith) in
    let (_, _, kept, waits) =
      run-keeps (IsOver s.replies t.counter) c (step-IsOver s.replies t.counter c) events
        (submitted c request t) u (over, idle, same, queued) later in
    (asked, empty, submits c request t on idle, kept, waits)
