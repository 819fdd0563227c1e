-- ===== src/Rogo/Listener/Lifecycle.antt =====
-- `ensure_socket_dir` and `UnixSocketListener.start`, `.stop` and `._accept_loop` of
-- src/host/rogo/daemon.py: listeners, by number, that are given one socket path. An `Event` is one
-- call, or one round of an accept loop. What the system does is in the events: whether `bind` raises,
-- and what `accept` comes to. A file at the path is the socket of the listener that bound it.
pub mod Tidy
pub mod Rivals
use radio_robot_lib.Prelude.{
  ℕ, Bool, true, false, not, Option, none, some, List, [], ◌∷◌, ◌==◌, if◌then◌else◌,
}

pub record Listener : Type 0 where
  -- `_sock` is set, and the thread of `_accept_loop` runs
  pub sock : Bool
  pub accepting : Bool
  pub stop_requested : Bool
  -- the clients of `_client_threads`, newest first
  pub clients : List ℕ

abbrev pub fresh : Listener
fresh = record { sock = false; accepting = false; stop_requested = false; clients = [] }

pub record Place : Type 0 where
  -- the mode of the directory, if it exists, and the listener whose socket the file is
  pub directory : Option ℕ
  pub file : Option ℕ

pub record Machine : Type 0 where
  pub place : Place
  pub listeners : ℕ → Listener

-- What `accept` comes to: a client, a timeout, or another `OSError`.
pub data Accept : Type 0 where
  client : ℕ → Accept
  timed_out : Accept
  os_error : Accept

pub data Event : Type 0 where
  -- the flag says whether `bind` raises
  starts : ℕ → Bool → Event
  stops : ℕ → Event
  accepts : ℕ → Accept → Event

abbrev pub owner_only : ℕ
owner_only = 0o700

unfoldable pub ensure_socket_dir : Option ℕ → Option ℕ
ensure_socket_dir none = some owner_only
ensure_socket_dir (some mode) = some mode

unfoldable pub set_listener : ℕ → Listener → Machine → Machine
set_listener i l m = record m { listeners = λ j. if j == i then l else m.listeners j }

-- The file is unlinked if there is one, and bound anew; after a raise it is gone.
unfoldable pub bind_at : ℕ → Bool → Place → Place
unfolding ensure_socket_dir
bind_at i true p = record { directory = ensure_socket_dir p.directory; file = none }
bind_at i false p = record { directory = ensure_socket_dir p.directory; file = some i }

unfoldable pub start : ℕ → Bool → Machine → Machine
unfolding set_listener bind_at
start i bind_raises m =
    if (m.listeners i).sock
    then m
    else set_listener i
        (record (m.listeners i) {
          sock = not bind_raises;
          accepting = if bind_raises then (m.listeners i).accepting else true;
        })
        (record m { place = bind_at i bind_raises m.place })

unfoldable pub stop : ℕ → Machine → Machine
unfolding set_listener
stop i m =
    set_listener i (record { sock = false; accepting = false; stop_requested = true; clients = [] })
      (record m { place = record m.place { file = none } })

-- A round that is begun: `accept()` and what follows.
unfoldable pub take : Accept → Listener → Listener
take (client c) l = record l { clients = c ∷ l.clients }
take timed_out l = l
take os_error l = record l { accepting = false }

-- A round of `_accept_loop`, if its thread runs; it ends on the stop event.
unfoldable pub accept_round : Accept → Listener → Listener
unfolding take
accept_round a l =
    if l.accepting
    then (if l.stop_requested then record l { accepting = false } else take a l)
    else l

unfoldable pub happen : Event → Machine → Machine
unfolding start stop accept_round
happen (starts i bind_raises) m = start i bind_raises m
happen (stops i) m = stop i m
happen (accepts i a) m = set_listener i (accept_round a (m.listeners i)) m

unfoldable pub happen_all : List Event → Machine → Machine
happen_all [] m = m
happen_all (e ∷ events) m = happen_all events (happen e m)

-- The listener that a client reaches through the path.
unfoldable pub reached : Machine → Option ℕ
reached m = elim m.place.file [
  | none ↦ none
  | some i ↦ if (m.listeners i).sock then some i else none
]
