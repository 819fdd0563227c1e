-- ===== src/Tests/Serve.antt =====
-- A daemon's wait and its end at concrete inputs.
use radio_robot_lib.Prelude.{◌≡◌, true, false, some, []}
use radio_robot_lib.Prelude.Text.{codes}
use radio_robot_lib.Python.Error.{ok, err, transport_closed}
use radio_robot_lib.Rogo.Serve.{Watch, Parts, cmd_serve}
use radio_robot_lib.Rogo.Serve.Nested.{nested, cmd_serve-nested}

-- One request at the time 2, and no interrupt.
abbrev watch : Watch
watch = record { monotonic = λ i. i; last_activity = λ i. 2; interrupts = λ i. false }

-- The connection is lost while the daemon waits.
abbrev parts : Parts
parts = record {
  connected = ok tt;
  name = ok (some (codes "tovez"));
  listening = ok tt;
  waited = err transport_closed;
}

cmd_serve-nested_example : nested [] (cmd_serve false (ok tt) parts).0 ≡ true
cmd_serve-nested_example = cmd_serve-nested false (ok tt) parts
