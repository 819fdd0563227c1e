-- ===== src/Tests/Daemon.antt =====
-- A daemon with one ordinary request running when an estop comes in.
use radio_robot_lib.Prelude.{◌<◌, ◌≡◌, refl, Bool, true, false, none, some, List, [], ◌∷◌}
use radio_robot_lib.Prelude.Int.{pos}
use radio_robot_lib.Rogo.Json.{null, empty, entry}
use radio_robot_lib.Rogo.Protocol.{Request}
use radio_robot_lib.Rogo.Daemon.{
  Config, Server, init, Event, Outcome, returned, raised, starts, stops, draws, pushes, pops,
  finishes, exits, step, run, execute,
}
use radio_robot_lib.Rogo.Daemon.Heap.{Item, before, pop_min, take_out}
use radio_robot_lib.Rogo.Daemon.Tickets.{places, run-IsAccounted}
use radio_robot_lib.Rogo.Daemon.Estop.{
  is_set, waiting_estop, running-interrupted, runs_estop, estop_next,
}
use radio_robot_lib.Rogo.Daemon.Heap.{occurs}
use radio_robot_lib.Rogo.Daemon.Shutdown.{IsDrained, rounds, stop-IsDrained}
use radio_robot_lib.Rogo.Daemon.Stranded.{submitted, submit_strands}

abbrev is_estop : Request → Bool
is_estop request = elim request.params [ empty ↦ true | entry k v rest ↦ false ]

abbrev config : Config
config = record { is_estop = is_estop; registered = λ verb. true; repr = λ verb. verb }

abbrev drive : Request
drive = record { id = pos 1; verb = "drive"; params = entry "ms" null empty }

abbrev halt : Request
halt = record { id = pos 2; verb = "estop"; params = empty }

-- The second drive is queued before the estop.
abbrev history : List Event
history =
    starts ∷ draws drive ∷ pushes 0 ∷ pops ∷ draws drive ∷ draws halt ∷ pushes 1 ∷ pushes 2 ∷ []

abbrev history_then : Event → List Event
history_then event =
    starts
    ∷ draws drive
    ∷ pushes 0
    ∷ pops
    ∷ draws drive
    ∷ draws halt
    ∷ pushes 1
    ∷ pushes 2
    ∷ event
    ∷ []

abbrev first_drive : Item
first_drive = record { priority = 1; sequence = 0; request = drive }

abbrev second_drive : Item
second_drive = record { priority = 1; sequence = 1; request = drive }

abbrev estop_item : Item
estop_item = record { priority = 0; sequence = 2; request = halt }

abbrev running : Server
running = record {
  started = true;
  stop_requested = false;
  exited = false;
  counter = 3;
  arriving = [];
  heap = estop_item ∷ second_drive ∷ [];
  current = some first_drive;
  aborted = 0 ∷ [];
  replies = [];
}

reached : run config history init ≡ some running
unfolding run step pop_min take_out before
reached = refl

run-IsAccounted_example : places 2 running ≡ 1
run-IsAccounted_example = run-IsAccounted config history running 2 reached

running-interrupted_example : is_set 0 running.aborted ≡ true
unfolding waiting_estop
running-interrupted_example =
    running-interrupted config history running first_drive reached refl refl refl

-- The drive in progress has just returned.
abbrev between : Server
between = record running {
  current = none;
  replies = (0, execute config drive (returned null)) ∷ [];
}

abbrev estop_runs : Server
estop_runs = record between { heap = second_drive ∷ []; current = some estop_item }

between_reached : run config (history_then (finishes (returned null))) init ≡ some between
unfolding run step pop_min take_out before
between_reached = refl

popped : step config pops between ≡ some estop_runs
unfolding step pop_min before
popped = refl

estop_next_example : runs_estop config (some estop_item) ≡ true
unfolding waiting_estop
estop_next_example =
    estop_next config (history_then (finishes (returned null))) between estop_runs between_reached
      refl popped

-- `stop()` came while the estop and the second drive were still queued.
abbrev stopping : Server
stopping = record between { stop_requested = true }

abbrev outcomes : List Outcome
outcomes = returned null ∷ raised "broken" "RuntimeError" ∷ []

stop-IsDrained_example : IsDrained stopping (run config (rounds outcomes) stopping)
stop-IsDrained_example = stop-IsDrained config outcomes stopping (refl, refl, refl, refl) refl

abbrev drained : Server
drained = record stopping { heap = [] }

abbrev over : Server
over = record drained { exited = true }

-- A request submitted too late stays in the queue, whatever is submitted after it.
abbrev stranded : Server
stranded = record over {
  counter = 5;
  heap =
      record { priority = 1; sequence = 4; request = drive }
      ∷ record { priority = 0; sequence = 3; request = halt }
      ∷ [];
}

ended : step config exits drained ≡ some over
unfolding step
ended = refl

late : run config (draws drive ∷ pushes 4 ∷ stops ∷ []) (submitted config halt over) ≡ some stranded
unfolding run step take_out
late = refl

submit_strands_example :
    (drained.stop_requested ≡ true)
    × (drained.heap ≡ [])
    × (run config (draws halt ∷ pushes 3 ∷ []) over ≡ some (submitted config halt over))
    × (stranded.replies ≡ drained.replies)
    × (0 < occurs 3 stranded.heap)
submit_strands_example =
    submit_strands config halt (draws drive ∷ pushes 4 ∷ stops ∷ []) drained over stranded ended
      late
