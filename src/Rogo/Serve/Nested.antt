-- ===== src/Rogo/Serve/Nested.antt =====
-- That `serve` of src/host/rogo/cli.py undoes what it did, in the reverse order.
use radio_robot_lib.Prelude.{◌≡◌, refl, Bool, true, false, Option, none, some, List, [], ◌∷◌, ◌++◌}
use radio_robot_lib.Prelude.Text.{Text}
use radio_robot_lib.Python.Error.{Result, ok, err, transport_closed}
use radio_robot_lib.Rogo.Serve.{
  Action, fails_connect, connects, names, starts_server, fails_listener, starts_listener, waits,
  stops_listener, stops_server, closes, Trace, finally_do, first_do, Parts, exit_code,
  serve_listener, serve_named, unless_closed, serve_connected, serve_stdio, cmd_serve,
}

-- The actions end exactly what they have opened, the last one first; `owed` is what is open, by the
-- action that ends it.
unfoldable pub nested : List Action → List Action → Bool
nested [] [] = true
nested (last ∷ owed) [] = false
nested owed (connects ∷ actions) = nested (closes ∷ owed) actions
nested owed (starts_server ∷ actions) = nested (stops_server ∷ owed) actions
nested owed (starts_listener ∷ actions) = nested (stops_listener ∷ owed) actions
nested (closes ∷ owed) (closes ∷ actions) = nested owed actions
nested (stops_server ∷ owed) (stops_server ∷ actions) = nested owed actions
nested (stops_listener ∷ owed) (stops_listener ∷ actions) = nested owed actions
nested owed (closes ∷ actions) = false
nested owed (stops_server ∷ actions) = false
nested owed (stops_listener ∷ actions) = false
nested owed (fails_connect ∷ actions) = nested owed actions
nested owed (names ∷ actions) = nested owed actions
nested owed (fails_listener ∷ actions) = nested owed actions
nested owed (waits ∷ actions) = nested owed actions

unless_closed_keeps : (t : Trace) → (unless_closed t).0 ≡ t.0
unfolding unless_closed
unless_closed_keeps (actions, ok code) = refl
unless_closed_keeps (actions, err transport_closed) = refl
unless_closed_keeps (actions, err _) = refl

-- The actions on a connection, without what is made of the error.
abbrev NestsInside : Trace → Type 0
NestsInside (actions, r) = nested [] (connects ∷ names ∷ actions ++ closes ∷ []) ≡ true

listened :
    (listening waited : Result (Unit {0}))
    → NestsInside
        (first_do starts_server (finally_do stops_server (serve_listener listening waited)))
unfolding serve_listener first_do finally_do nested
listened (err e) waited = refl
listened (ok a) waited = refl

named : (parts : Parts) (name : Result (Option Text)) → NestsInside (serve_named parts name)
unfolding serve_named nested
named parts (err e) = refl
named parts (ok none) = refl
named parts (ok (some name)) = listened parts.listening parts.waited

connected : (parts : Parts) (c : Result (Unit {0})) → nested [] (serve_connected parts c).0 ≡ true
unfolding serve_connected nested first_do finally_do
connected parts (err e) = refl
connected parts (ok a) =
    rw (unless_closed_keeps (first_do names (serve_named parts parts.name)))
      (named parts parts.name)

-- However the parts of `serve` come out, what it has opened it ends before it is over, each once
-- and the last opened first: the listener, the server and the connection.
pub cmd_serve-nested :
    (stdio_pipe : Bool) (piped : Result (Unit {0})) (parts : Parts)
    → nested [] (cmd_serve stdio_pipe piped parts).0 ≡ true
unfolding cmd_serve serve_stdio nested
cmd_serve-nested true piped parts = rw (unless_closed_keeps ([], exit_code piped)) refl
cmd_serve-nested false piped parts = connected parts parts.connected
