-- ===== src/Rogo/Serve.antt =====
-- `serve` of src/host/rogo/cli.py and the worker of src/host/rogo/daemon_client.py: how long they
-- wait, and what they start and stop. Times are whole numbers of one unit.
pub mod Idle
pub mod Nested
use radio_robot_lib.Prelude.{
  ℕ, zero, suc, ◌+◌, Bool, true, false, not, Option, none, some, List, [], ◌∷◌, ◌++◌, leb, ltb,
  if◌then◌else◌,
}
use radio_robot_lib.Prelude.Text.{Text, codes}
use radio_robot_lib.Python.Error.{Error, Result, ok, err, transport_closed}
use radio_robot_lib.Rogo.Target.{Arguments, given}

-- What the loop sees at its looks, by their number: the clock, the time of the last request, and
-- whether Ctrl-C or SIGTERM comes in the pause behind the look.
pub record Watch : Type 0 where
  pub monotonic : ℕ → ℕ
  pub last_activity : ℕ → ℕ
  pub interrupts : ℕ → Bool

-- How a wait ended, and at which look.
pub data Ended : Type 0 where
  idle interrupted : ℕ → Ended

module _ (watch : Watch) where
  -- `time.monotonic() - last_activity[0] >= idle_timeout`
  unfoldable pub is_idle : ℕ → ℕ → Bool
  is_idle idle_timeout look = leb (watch.last_activity look + idle_timeout) (watch.monotonic look)

  -- `if idle_timeout and ...`
  unfoldable pub is_over : Option ℕ → ℕ → Bool
  unfolding is_idle
  is_over none look = false
  is_over (some zero) look = false
  is_over (some (suc n)) look = is_idle (suc n) look

  -- `none` is a loop that was cut off.
  unfoldable pub wait_until_stopped : Option ℕ → ℕ → ℕ → Option Ended
  unfolding is_over
  wait_until_stopped idle_timeout zero look = none
  wait_until_stopped idle_timeout (suc fuel) look =
      let rest = wait_until_stopped idle_timeout fuel (suc look) in
      if is_over idle_timeout look
      then some (idle look)
      else if watch.interrupts look
      then some (interrupted look)
      else rest

  -- The loop of `run_daemon_worker`, where 0 is a time-out too.
  unfoldable pub worker_waits : ℕ → ℕ → ℕ → Option Ended
  unfolding is_idle
  worker_waits idle_timeout zero look = none
  worker_waits idle_timeout (suc fuel) look =
      let rest = worker_waits idle_timeout fuel (suc look) in
      if is_idle idle_timeout look
      then some (idle look)
      else if watch.interrupts look
      then some (interrupted look)
      else rest

-- What `serve` does with its resources, in order.
pub data Action : Type 0 where
  fails_connect connects names starts_server fails_listener starts_listener waits : Action
  stops_listener stops_server closes : Action

abbrev pub Trace : Type 0
Trace = List Action × Result ℕ

-- `finally`
unfoldable pub finally_do : Action → Trace → Trace
finally_do last (actions, r) = (actions ++ last ∷ [], r)

unfoldable pub first_do : Action → Trace → Trace
first_do first (actions, r) = (first ∷ actions, r)

-- What the parts come to: opening the connection, the name (`none` is `RobotNameError`), the start
-- of the listener and the wait.
pub record Parts : Type 0 where
  pub connected : Result (Unit {0})
  pub name : Result (Option Text)
  pub listening : Result (Unit {0})
  pub waited : Result (Unit {0})

unfoldable pub exit_code : Result (Unit {0}) → Result ℕ
exit_code (err e) = err e
exit_code (ok done) = ok 0

unfoldable pub serve_listener : Result (Unit {0}) → Result (Unit {0}) → Trace
unfolding finally_do exit_code
serve_listener (err e) waited = (fails_listener ∷ [], err e)
serve_listener (ok done) waited =
    finally_do stops_listener (starts_listener ∷ waits ∷ [], exit_code waited)

unfoldable pub serve_named : Parts → Result (Option Text) → Trace
unfolding first_do finally_do serve_listener
serve_named parts (err e) = ([], err e)
serve_named parts (ok none) = ([], ok 1)
serve_named parts (ok (some name)) =
    first_do starts_server (finally_do stops_server (serve_listener parts.listening parts.waited))

-- `except TransportClosed`
unfoldable pub unless_closed : Trace → Trace
unless_closed (actions, err transport_closed) = (actions, ok 1)
unless_closed (actions, r) = (actions, r)

unfoldable pub serve_connected : Parts → Result (Unit {0}) → Trace
unfolding first_do finally_do serve_named unless_closed
serve_connected parts (err e) = (fails_connect ∷ [], err e)
serve_connected parts (ok done) =
    first_do connects
      (finally_do closes (unless_closed (first_do names (serve_named parts parts.name))))

-- On the standard streams: the result of `run_stdio_pipe_from_args`.
unfoldable pub serve_stdio : Result (Unit {0}) → Trace
unfolding unless_closed exit_code
serve_stdio piped = unless_closed ([], exit_code piped)

unfoldable pub cmd_serve : Bool → Result (Unit {0}) → Parts → Trace
unfolding serve_stdio serve_connected
cmd_serve true piped parts = serve_stdio piped
cmd_serve false piped parts = serve_connected parts parts.connected

-- The arguments for a spawned daemon; `str` of the time-out is an argument.
unfoldable pub target_words : Arguments → List Text
unfolding given
target_words args =
    if args.sim
    then codes "--sim" ∷ []
    else if given args.connect
    then codes "--connect" ∷ words args.connect
    else if given args.port
    then codes "--port" ∷ words args.port
    else []
  where
    words : Option Text → List Text
    words none = []
    words (some word) = word ∷ []

unfoldable pub socket_dir_words : Option Text → List Text
socket_dir_words none = []
socket_dir_words (some socket_dir) = codes "--socket-dir" ∷ socket_dir ∷ []

unfoldable pub default_spawn_argv : Text → Arguments → Text → Text → Option Text → List Text
unfolding target_words socket_dir_words
default_spawn_argv executable args name idle_timeout socket_dir =
    (executable ∷ codes "-m" ∷ codes "rogo.cli" ∷ codes "serve" ∷ [])
    ++ target_words args
    ++ (codes "--name" ∷ name ∷ codes "--idle-timeout" ∷ idle_timeout ∷ [])
    ++ socket_dir_words socket_dir
