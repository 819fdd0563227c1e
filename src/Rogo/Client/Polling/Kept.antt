-- ===== src/Rogo/Client/Polling/Kept.antt =====
-- A property of sessions that every single update keeps is kept by the two abortable waits of
-- src/host/rogo/daemon_client.py.
use radio_robot_lib.Prelude.{ℕ, zero, suc, min, Bool, true, false, Option, none, some}
use radio_robot_lib.Python.Error.{Result, ok}
use radio_robot_lib.Python.Exec.{Exec, pure, Keeps, Keeps-bind, ◌>>=◌}
use radio_robot_lib.RobotV6.Session.{World, Session, monotonic}
use radio_robot_lib.RobotV6.Session.History.{
  waits_for_ack, waits_for_done, step, step-Keeps, deadline_of-Keeps,
}
use radio_robot_lib.RobotV6.Session.Stable.{IsStable, monotonic-Keeps}
use radio_robot_lib.RobotV6.Session.Waiting.{deadline_of, wait_for_ack, wait_for_done}
use radio_robot_lib.Rogo.Client.Polling.{
  remaining_of, settle, poll_once, abort_loop, accept_true, accept_event, dispatch_wait_for_ack,
  dispatch_wait_for_done,
}

module _ {P : Session → Type 0} (stable : IsStable P) (w : World) (abort : ℕ → Bool)
    (poll_time : ℕ) where
  remaining_of-Keeps : (deadline : Option ℕ) → Keeps P (remaining_of w abort poll_time deadline)
  unfolding remaining_of
  remaining_of-Keeps none = λ s h. h
  remaining_of-Keeps (some deadline) =
      Keeps-bind P (monotonic w) _ (monotonic-Keeps stable w) (λ now s h. h)

  module _ {A B : Type 0} (call : ℕ → Exec Session (Option B)) (accept : B → Option A)
      (fallback : A) (call_keeps : (step : ℕ) → Keeps P (call step)) where
    accepted-Keeps :
        (o : Option A) (rest : Exec Session (Option A))
        → Keeps P rest
        → Keeps P
            (elim o as (λ _. Exec Session (Option A)) [ none ↦ rest | some a ↦ pure (some a) ])
    accepted-Keeps none rest k s h = k s h
    accepted-Keeps (some a) rest k s h = h

    settle-Keeps :
        (rest : Exec Session (Option A)) (o : Option B)
        → Keeps P rest
        → Keeps P (settle w abort poll_time call accept fallback rest o)
    unfolding settle
    settle-Keeps rest none k s h = h
    settle-Keeps rest (some b) k s h = accepted-Keeps (accept b) rest k s h

    poll_once-Keeps :
        (rest : Exec Session (Option A)) (limit : Option ℕ)
        → Keeps P rest
        → Keeps P (poll_once w abort poll_time call accept fallback rest limit)
    unfolding poll_once
    poll_once-Keeps rest none k =
        Keeps-bind P (call poll_time) _ (call_keeps poll_time) (λ o. settle-Keeps rest o k)
    poll_once-Keeps rest (some zero) k = λ s h. h
    poll_once-Keeps rest (some (suc n)) k =
        Keeps-bind P (call (min poll_time (suc n))) _ (call_keeps (min poll_time (suc n)))
          (λ o. settle-Keeps rest o k)

    unless_aborted :
        (aborted : Bool) (rest : Exec Session (Option A)) (s : Session)
        → Keeps P rest
        → P s
        → P
            (elim aborted as (λ _. Result (Option A) × Session) [
              | true ↦ (ok (some fallback), s)
              | false ↦ rest s
            ]).1
    unless_aborted true rest s k h = h
    unless_aborted false rest s k h = k s h

    pub abort_loop-Keeps :
        (fuel asked : ℕ) (deadline : Option ℕ)
        → Keeps P (abort_loop w abort poll_time call accept fallback fuel asked deadline)
    unfolding abort_loop
    abort_loop-Keeps zero asked deadline s h = h
    abort_loop-Keeps (suc fuel) asked deadline s h =
        let rest = abort_loop w abort poll_time call accept fallback fuel (suc asked) deadline in
        unless_aborted (abort asked)
          (remaining_of w abort poll_time deadline
            >>= poll_once w abort poll_time call accept fallback rest)
          s
          (Keeps-bind P (remaining_of w abort poll_time deadline) _ (remaining_of-Keeps deadline)
            (λ limit. poll_once-Keeps rest limit (abort_loop-Keeps fuel (suc asked) deadline)))
          h

  pub dispatch_wait_for_ack-Keeps :
      (inner fuel seq_id : ℕ) (timeout : Option ℕ)
      → Keeps P (dispatch_wait_for_ack w abort poll_time inner fuel seq_id timeout)
  unfolding dispatch_wait_for_ack step
  dispatch_wait_for_ack-Keeps inner fuel seq_id timeout =
      Keeps-bind P (deadline_of w timeout) _ (deadline_of-Keeps stable w timeout) (
        abort_loop-Keeps (λ step. wait_for_ack w inner seq_id (some step)) accept_true false
          (λ limit s h. step-Keeps stable w s (waits_for_ack inner seq_id (some limit)) h) fuel 0)

  pub dispatch_wait_for_done-Keeps :
      (inner fuel seq_id : ℕ) (timeout : Option ℕ)
      → Keeps P (dispatch_wait_for_done w abort poll_time inner fuel seq_id timeout)
  unfolding dispatch_wait_for_done step
  dispatch_wait_for_done-Keeps inner fuel seq_id timeout =
      Keeps-bind P (deadline_of w timeout) _ (deadline_of-Keeps stable w timeout) (
        abort_loop-Keeps (λ step. wait_for_done w inner seq_id (some step)) accept_event none
          (λ limit s h. step-Keeps stable w s (waits_for_done inner seq_id (some limit)) h) fuel 0)
