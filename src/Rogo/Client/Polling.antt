-- ===== src/Rogo/Client/Polling.antt =====
-- `_dispatch_session_wait_for_ack` and `_dispatch_session_wait_for_done` of
-- src/host/rogo/daemon_client.py: waits that look at `abort` between short polls. `abort.is_set()`
-- is a function of how often it was asked. `none` is a wait whose fuel ran out.
pub mod Kept
pub mod Ids
use radio_robot_lib.Prelude.{ℕ, zero, suc, ◌-◌, min, Bool, true, false, Option, none, some}
use radio_robot_lib.Python.Error.{ok}
use radio_robot_lib.Python.Exec.{Exec, pure, ◌>>=◌}
use radio_robot_lib.RobotV6.Session.{World, Session, monotonic}
use radio_robot_lib.RobotV6.Session.Waiting.{DoneEvent, deadline_of, wait_for_ack, wait_for_done}

-- `if session.wait_for_ack(...)` and `if done is not None`
abbrev pub accept_true : Bool → Option Bool
accept_true true = some true
accept_true false = none

abbrev pub accept_event : Option DoneEvent → Option (Option DoneEvent)
accept_event none = none
accept_event (some event) = some (some event)

-- `_WAIT_POLL_S`, in the unit of the clock.
module _ (w : World) (abort : ℕ → Bool) (poll_time : ℕ) where
  -- `None if deadline is None else deadline - time.monotonic()`; what is not positive is 0.
  unfoldable pub remaining_of : Option ℕ → Exec Session (Option ℕ)
  remaining_of none = pure none
  remaining_of (some deadline) = do now ← monotonic w; pure (some (deadline - now))

  -- The two loops differ in the call that they poll, in what of its results ends the wait, and in
  -- what an aborted or expired wait returns.
  module _ {A B : Type 0} (call : ℕ → Exec Session (Option B)) (accept : B → Option A)
      (fallback : A) where
    unfoldable pub settle : Exec Session (Option A) → Option B → Exec Session (Option A)
    settle rest none = pure none
    settle rest (some b) = elim (accept b) [ none ↦ rest | some a ↦ pure (some a) ]

    unfoldable pub poll_once : Exec Session (Option A) → Option ℕ → Exec Session (Option A)
    unfolding settle
    poll_once rest none = call poll_time >>= settle rest
    poll_once rest (some zero) = pure (some fallback)
    poll_once rest (some (suc n)) = call (min poll_time (suc n)) >>= settle rest

    unfoldable pub abort_loop : ℕ → ℕ → Option ℕ → Exec Session (Option A)
    unfolding remaining_of poll_once
    abort_loop zero asked deadline s = (ok none, s)
    abort_loop (suc fuel) asked deadline s = elim (abort asked) [
      | true ↦ (ok (some fallback), s)
      | false ↦ (remaining_of deadline >>= poll_once (abort_loop fuel (suc asked) deadline)) s
    ]

  -- The fuels are for the inner waits and for the outer loop.
  unfoldable pub dispatch_wait_for_ack : ℕ → ℕ → ℕ → Option ℕ → Exec Session (Option Bool)
  unfolding abort_loop
  dispatch_wait_for_ack inner fuel seq_id timeout =
      deadline_of w timeout
      >>= abort_loop (λ step. wait_for_ack w inner seq_id (some step)) accept_true false fuel 0

  unfoldable pub dispatch_wait_for_done :
      ℕ → ℕ → ℕ → Option ℕ → Exec Session (Option (Option DoneEvent))
  unfolding abort_loop
  dispatch_wait_for_done inner fuel seq_id timeout =
      deadline_of w timeout
      >>= abort_loop (λ step. wait_for_done w inner seq_id (some step)) accept_event none fuel 0
