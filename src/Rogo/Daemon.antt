-- ===== src/Rogo/Daemon.antt =====
-- `DaemonServer` of src/host/rogo/daemon.py. Its threads are interleavings: an `Event` is what one
-- thread does between two points where another may run, and a history is a list of events. Each
-- `submit()` is two of them, since the sequence number is drawn before the lock is taken. A
-- classifier that raises does so before that, and the request is no event.
pub mod Heap
pub mod Tickets
pub mod Estop
pub mod Shutdown
pub mod Stranded
use radio_robot_lib.Prelude.{
  ℕ, zero, suc, ◌≡◌, refl, Bool, true, false, not, ◌&&◌, Option, none, some, List, [], ◌∷◌, String,
  ◌==◌, if◌then◌else◌,
}
use radio_robot_lib.Rogo.Json.{Json}
use radio_robot_lib.Rogo.Protocol.{Request, Reply, succeed, fail}
use Heap.{Item, pop_min, take_out}
use Prim.Native.String.{◌++◌ as append}

-- What `DaemonServer` is constructed with: the classifier, the verbs of the dispatch table, and
-- `repr` on texts, for the message of an unknown verb.
pub record Config : Type 0 where
  pub is_estop : Request → Bool
  pub registered : String → Bool
  pub repr : String → String

pub record Server : Type 0 where
  pub started : Bool
  pub stop_requested : Bool
  -- the worker thread has returned
  pub exited : Bool
  -- the next value of `_sequence_counter`
  pub counter : ℕ
  -- made by `submit()`, waiting for the lock
  pub arriving : List Item
  pub heap : List Item
  -- the item whose abort event is `_current_abort_event`
  pub current : Option Item
  -- the sequence numbers of the items whose abort event is set
  pub aborted : List ℕ
  -- replies handed back, newest first
  pub replies : List (ℕ × Reply)

abbrev pub init : Server
init = record {
  started = false;
  stop_requested = false;
  exited = false;
  counter = 0;
  arriving = [];
  heap = [];
  current = none;
  aborted = [];
  replies = [];
}

-- How the body of a dispatch ends.
pub data Outcome : Type 0 where
  returned : Json → Outcome
  raised : String → String → Outcome

pub data Event : Type 0 where
  starts stops : Event
  -- `submit()` up to the lock, and under it; the number says which caller gets the lock
  draws : Request → Event
  pushes : ℕ → Event
  -- the worker
  pops : Event
  finishes : Outcome → Event
  exits : Event

unfoldable pub priority_of : Config → Request → ℕ
priority_of c request = if c.is_estop request then 0 else 1

-- `_execute`, where `outcome` is what the handler does if there is one.
unfoldable pub execute : Config → Request → Outcome → Reply
execute c request (returned result) =
    if c.registered request.verb
    then succeed request.id result
    else fail request.id (append "no dispatch registered for verb " (c.repr request.verb))
        "UnknownVerb"
execute c request (raised message type) =
    if c.registered request.verb
    then fail request.id message type
    else fail request.id (append "no dispatch registered for verb " (c.repr request.verb))
        "UnknownVerb"

-- The abort event of the running dispatch, if one runs.
unfoldable pub set_abort : Option Item → List ℕ → List ℕ
set_abort none aborted = aborted
set_abort (some item) aborted = item.sequence ∷ aborted

unfoldable pub enqueue : Item → List Item → Server → Server
unfolding set_abort
enqueue item others s = record s {
  arriving = others;
  heap = item ∷ s.heap;
  aborted = if item.priority == 0 then set_abort s.current s.aborted else s.aborted;
}

unfoldable pub push_found : Option (Item × List Item) → Server → Option Server
unfolding enqueue
push_found none s = none
push_found (some (item, others)) s = some (enqueue item others s)

unfoldable pub pop_found : Option (Item × List Item) → Server → Option Server
pop_found none s = none
pop_found (some (item, rest)) s = some (record s { heap = rest; current = some item })

unfoldable pub is_idle : Option Item → Bool
is_idle none = true
is_idle (some item) = false

unfoldable pub finish : Config → Outcome → Option Item → Server → Option Server
unfolding execute
finish c outcome none s = none
finish c outcome (some item) s = some (record s {
  current = none;
  replies = (item.sequence, execute c item.request outcome) ∷ s.replies;
})

unfoldable pub can_exit : List Item → Server → Option Server
can_exit [] s = if s.stop_requested then some (record s { exited = true }) else none
can_exit (item ∷ rest) s = none

-- The worker is between two items.
unfoldable pub worker_is_free : Server → Bool
unfolding is_idle
worker_is_free s = s.started && not s.exited && is_idle s.current

-- One event; `none` where it cannot take place, or raises `DaemonServerError`.
unfoldable pub step : Config → Event → Server → Option Server
unfolding priority_of push_found pop_found finish can_exit worker_is_free
step c starts s = if s.started then none else some (record s { started = true })
step c stops s = some (record s { stop_requested = true })
step c (draws request) s =
    if s.started
    then some (record s {
      counter = suc s.counter;
      arriving =
          record { priority = priority_of c request; sequence = s.counter; request = request }
          ∷ s.arriving;
    })
    else none
step c (pushes k) s = push_found (take_out k s.arriving) s
step c pops s = if worker_is_free s then pop_found (pop_min s.heap) s else none
step c (finishes outcome) s = finish c outcome s.current s
step c exits s = if worker_is_free s then can_exit s.heap s else none

unfoldable pub run : Config → List Event → Server → Option Server
run c [] s = some s
run c (e ∷ events) s = elim (step c e s) [ none ↦ none | some t ↦ run c events t ]
