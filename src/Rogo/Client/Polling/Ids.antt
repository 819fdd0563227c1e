-- ===== src/Rogo/Client/Polling/Ids.antt =====
-- The abortable waits of src/host/rogo/daemon_client.py for an id that is no natural number, with the
-- waits of `Session` in src/host/robot_v6/reliability.py that they make.
use radio_robot_lib.Prelude.{
  ℕ, zero, suc, Bool, true, false, Option, none, some, String, Bool-cases, inl, inr,
}
use radio_robot_lib.Prelude.Int.{ℤ, pos, ltb_ℤ}
use radio_robot_lib.Prelude.Text.{Text}
use radio_robot_lib.Python.Error.{ok, type_error}
use radio_robot_lib.Python.Exec.{Exec, raise, ◌>>=◌, ◌>>◌, Keeps, Keeps-bind}
use radio_robot_lib.RobotV6.Session.{World, Session, pump, maybe_poll_status}
use radio_robot_lib.RobotV6.Session.History.{deadline_of-Keeps, unless_late-Keeps}
use radio_robot_lib.RobotV6.Session.Stable.{IsStable, pump-Keeps, maybe_poll_status-Keeps}
use radio_robot_lib.RobotV6.Session.Waiting.{deadline_of, unless_late}
use radio_robot_lib.Rogo.Client.Polling.{accept_true, abort_loop}
use radio_robot_lib.Rogo.Client.Polling.Kept.{abort_loop-Keeps}
use radio_robot_lib.Rogo.Json.{Json, null, bool, int, float, str, arr, obj}

-- What integers are compared with: those below a number are before it; all are before infinity, and
-- none is before what is not a number.
pub data Limit : Type 0 where
  below : ℤ → Limit
  always never : Limit

unfoldable pub is_before : ℤ → Limit → Bool
is_before v (below n) = ltb_ℤ v n
is_before v always = true
is_before v never = false

-- The comparison of an integer with the value; `none` is its `TypeError`. `ceiling` compares with a
-- float.
unfoldable pub limit_of : (String → Limit) → Json → Option Limit
limit_of ceiling null = none
limit_of ceiling (bool true) = some (below (pos 1))
limit_of ceiling (bool false) = some (below (pos 0))
limit_of ceiling (int n) = some (below n)
limit_of ceiling (float r) = some (ceiling r)
limit_of ceiling (str s) = none
limit_of ceiling (arr items) = none
limit_of ceiling (obj entries) = none

abbrev pub accept_reason : Option Text → Option (Option Text)
accept_reason none = none
accept_reason (some reason) = some (some reason)

module _ (w : World) where
  unfoldable pub ack_loop_to : ℕ → Limit → Option ℕ → Exec Session (Option Bool)
  ack_loop_to zero limit deadline s = (ok none, s)
  ack_loop_to (suc fuel) limit deadline s = elim (is_before (pos s.highest_acked) limit) [
    | false ↦ (ok (some true), s)
    | true ↦ unless_late w deadline (some false) (pump w >> ack_loop_to fuel limit deadline) s
  ]

  -- The reason of the event; its id is the value that was waited for.
  unfoldable pub done_loop_to : ℕ → Limit → Option ℕ → Exec Session (Option (Option Text))
  done_loop_to zero limit deadline s = (ok none, s)
  done_loop_to (suc fuel) limit deadline s = elim (is_before s.last_done limit) [
    | false ↦ (ok (some (some s.last_done_reason)), s)
    | true ↦
        unless_late w deadline (some none)
          (maybe_poll_status w >> (pump w >> done_loop_to fuel limit deadline)) s
  ]

  -- The first comparison raises, after the deadline was made.
  unfoldable pub compare_first :
      {A : Type 0} → Option Limit → (Limit → Exec Session A) → Exec Session A
  compare_first none loop = raise type_error
  compare_first (some limit) loop = loop limit

  unfoldable pub wait_for_ack_to : ℕ → Option Limit → ℕ → Exec Session (Option Bool)
  unfolding compare_first
  wait_for_ack_to inner limit step = do
    deadline ← deadline_of w (some step)
    compare_first limit (λ to. ack_loop_to inner to deadline)

  unfoldable pub wait_for_done_to : ℕ → Option Limit → ℕ → Exec Session (Option (Option Text))
  unfolding compare_first
  wait_for_done_to inner limit step = do
    deadline ← deadline_of w (some step)
    compare_first limit (λ to. done_loop_to inner to deadline)

  module _ (abort : ℕ → Bool) (poll_time : ℕ) where
    unfoldable pub dispatch_wait_for_ack_to :
        ℕ → ℕ → Option Limit → Option ℕ → Exec Session (Option Bool)
    dispatch_wait_for_ack_to inner fuel limit timeout =
        deadline_of w timeout
        >>= abort_loop w abort poll_time (wait_for_ack_to inner limit) accept_true false fuel 0

    unfoldable pub dispatch_wait_for_done_to :
        ℕ → ℕ → Option Limit → Option ℕ → Exec Session (Option (Option Text))
    dispatch_wait_for_done_to inner fuel limit timeout =
        deadline_of w timeout
        >>= abort_loop w abort poll_time (wait_for_done_to inner limit) accept_reason none fuel 0

module _ {P : Session → Type 0} (stable : IsStable P) (w : World) where
  ack_loop_to-Keeps :
      (fuel : ℕ) (limit : Limit) (deadline : Option ℕ) → Keeps P (ack_loop_to w fuel limit deadline)
  unfolding ack_loop_to
  ack_loop_to-Keeps zero limit deadline = λ s h. h
  ack_loop_to-Keeps (suc fuel) limit deadline = λ s h.
      elim (Bool-cases (is_before (pos s.highest_acked) limit)) [
        | inr done ↦ rw (done, ack_loop_to) h
        | inl more ↦
            rw (more, ack_loop_to)
              (unless_late-Keeps stable w deadline (some false) _
                (Keeps-bind P (pump w) _ (pump-Keeps stable w)
                  (λ _. ack_loop_to-Keeps fuel limit deadline))
                s h)
      ]

  done_loop_to-Keeps :
      (fuel : ℕ) (limit : Limit) (deadline : Option ℕ)
      → Keeps P (done_loop_to w fuel limit deadline)
  unfolding done_loop_to
  done_loop_to-Keeps zero limit deadline = λ s h. h
  done_loop_to-Keeps (suc fuel) limit deadline = λ s h.
      elim (Bool-cases (is_before s.last_done limit)) [
        | inr done ↦ rw (done, done_loop_to) h
        | inl more ↦
            rw (more, done_loop_to)
              (unless_late-Keeps stable w deadline (some none) _
                (Keeps-bind P (maybe_poll_status w) _ (maybe_poll_status-Keeps stable w) λ _.
                  Keeps-bind P (pump w) _ (pump-Keeps stable w)
                    λ _. done_loop_to-Keeps fuel limit deadline)
                s h)
      ]

  compare_first-Keeps :
      {A : Type 0} (limit : Option Limit) (loop : Limit → Exec Session A)
      → ((to : Limit) → Keeps P (loop to))
      → Keeps P (compare_first w limit loop)
  unfolding compare_first
  compare_first-Keeps none loop kept = λ s h. h
  compare_first-Keeps (some limit) loop kept = kept limit

  module _ (abort : ℕ → Bool) (poll_time inner fuel : ℕ) (limit : Option Limit)
      (timeout : Option ℕ) where
    pub dispatch_wait_for_ack_to-Keeps :
        Keeps P (dispatch_wait_for_ack_to w abort poll_time inner fuel limit timeout)
    unfolding dispatch_wait_for_ack_to wait_for_ack_to
    dispatch_wait_for_ack_to-Keeps =
        Keeps-bind P (deadline_of w timeout) _ (deadline_of-Keeps stable w timeout) (
          abort_loop-Keeps stable w abort poll_time (wait_for_ack_to w inner limit) accept_true
            false
            (λ step.
              Keeps-bind P (deadline_of w (some step)) _ (deadline_of-Keeps stable w (some step))
                (λ deadline.
                  compare_first-Keeps limit _ (λ to. ack_loop_to-Keeps inner to deadline)))
            fuel 0)

    pub dispatch_wait_for_done_to-Keeps :
        Keeps P (dispatch_wait_for_done_to w abort poll_time inner fuel limit timeout)
    unfolding dispatch_wait_for_done_to wait_for_done_to
    dispatch_wait_for_done_to-Keeps =
        Keeps-bind P (deadline_of w timeout) _ (deadline_of-Keeps stable w timeout) (
          abort_loop-Keeps stable w abort poll_time (wait_for_done_to w inner limit) accept_reason
            none
            (λ step.
              Keeps-bind P (deadline_of w (some step)) _ (deadline_of-Keeps stable w (some step))
                (λ deadline.
                  compare_first-Keeps limit _ (λ to. done_loop_to-Keeps inner to deadline)))
            fuel 0)
