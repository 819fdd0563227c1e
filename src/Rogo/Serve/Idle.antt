-- ===== src/Rogo/Serve/Idle.antt =====
-- That a daemon that nobody uses ends, and not too soon.
use radio_robot_lib.Prelude.{ℕ, ◌+◌, ◌≤◌, ◌<◌, ◌≡◌, true, Option, none, some}
use radio_robot_lib.Rogo.Serve.{Watch, Ended, idle, interrupted}

-- Ended by the look `k`, and for a reason: the look at which it ended found the time-out passed, or
-- found it not passed and was followed by an interrupt.
abbrev pub EndsRightly : Watch → ℕ → ℕ → Option Ended → Type 0
EndsRightly watch idle_timeout k none = ⊥
EndsRightly watch idle_timeout k (some (idle look)) =
    (look ≤ k) × (watch.last_activity look + idle_timeout ≤ watch.monotonic look)
EndsRightly watch idle_timeout k (some (interrupted look)) =
    (look ≤ k)
    × (watch.monotonic look < watch.last_activity look + idle_timeout)
    × (watch.interrupts look ≡ true)
