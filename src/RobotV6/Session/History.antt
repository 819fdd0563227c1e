-- ===== src/RobotV6/Session/History.antt =====
-- A client's history: calls of the methods of `Session`, in any order, whether they return or raise.
use radio_robot_lib.Prelude.{
  ℕ, zero, suc, false, Option, none, some, List, [], ◌∷◌, ltb, Bool-cases, inl, inr,
}
use radio_robot_lib.Prelude.Text.{Text}
use radio_robot_lib.Prelude.Int.{ltb_ℤ, pos}
use radio_robot_lib.Python.Exec.{Exec, Keeps, Keeps-bind, Keeps-if}
use radio_robot_lib.RobotV6.Codec.{Field}
use radio_robot_lib.RobotV6.Session.{
  World, Session, send, send_unsequenced, pump, maybe_poll_status, monotonic,
}
use radio_robot_lib.RobotV6.Session.Waiting.{
  deadline_of, expired, unless_late, ack_loop, wait_for_ack, done_loop, wait_for_done,
}
use radio_robot_lib.RobotV6.Session.Stable.{
  IsStable, send-Keeps, send_unsequenced-Keeps, monotonic-Keeps, pump-Keeps,
  maybe_poll_status-Keeps,
}

pub data Call : Type 0 where
  sends : Text → List Field → Call
  sends_unsequenced : Text → List Field → Call
  pumps : Call
  polls : Call
  waits_for_ack : ℕ → ℕ → Option ℕ → Call
  waits_for_done : ℕ → ℕ → Option ℕ → Call

unfoldable pub step : World → Session → Call → Session
step w s (sends verb fields) = (send verb fields s).1
step w s (sends_unsequenced verb fields) = (send_unsequenced verb fields s).1
step w s pumps = (pump w s).1
step w s polls = (maybe_poll_status w s).1
step w s (waits_for_ack fuel seq_id timeout) = (wait_for_ack w fuel seq_id timeout s).1
step w s (waits_for_done fuel seq_id timeout) = (wait_for_done w fuel seq_id timeout s).1

unfoldable pub run : World → Session → List Call → Session
unfolding step
run w s [] = s
run w s (c ∷ calls) = run w (step w s c) calls

module _ {P : Session → Type 0} (stable : IsStable P) (w : World) where
  pub deadline_of-Keeps : (timeout : Option ℕ) → Keeps P (deadline_of w timeout)
  unfolding deadline_of
  deadline_of-Keeps none = λ s h. h
  deadline_of-Keeps (some t) = Keeps-bind P (monotonic w) _ (monotonic-Keeps stable w) (λ _ s h. h)

  expired-Keeps : (deadline : Option ℕ) → Keeps P (expired w deadline)
  unfolding expired
  expired-Keeps none = λ s h. h
  expired-Keeps (some d) = Keeps-bind P (monotonic w) _ (monotonic-Keeps stable w) (λ _ s h. h)

  pub unless_late-Keeps :
      {A : Type 0} (deadline : Option ℕ) (answer : A) (rest : Exec Session A)
      → Keeps P rest
      → Keeps P (unless_late w deadline answer rest)
  unfolding unless_late
  unless_late-Keeps deadline answer rest h =
      Keeps-bind P (expired w deadline) _ (expired-Keeps deadline)
        (λ late. Keeps-if P late _ _ (λ _ s k. k) (λ _. h))

  ack_loop-Keeps :
      (fuel seq_id : ℕ) (deadline : Option ℕ) → Keeps P (ack_loop w fuel seq_id deadline)
  unfolding ack_loop
  ack_loop-Keeps zero seq_id deadline = λ s h. h
  ack_loop-Keeps (suc fuel) seq_id deadline = λ s h.
      elim (Bool-cases (ltb s.highest_acked seq_id)) [
        | inr done ↦ rw (done, ack_loop) h
        | inl more ↦
            rw (more, ack_loop)
              (unless_late-Keeps deadline (some false) _
                (Keeps-bind P (pump w) _ (pump-Keeps stable w)
                  (λ _. ack_loop-Keeps fuel seq_id deadline))
                s h)
      ]

  done_loop-Keeps :
      (fuel seq_id : ℕ) (deadline : Option ℕ) → Keeps P (done_loop w fuel seq_id deadline)
  unfolding done_loop
  done_loop-Keeps zero seq_id deadline = λ s h. h
  done_loop-Keeps (suc fuel) seq_id deadline = λ s h.
      elim (Bool-cases (ltb_ℤ s.last_done (pos seq_id))) [
        | inr done ↦ rw (done, done_loop) h
        | inl more ↦
            rw (more, done_loop)
              (unless_late-Keeps deadline (some none) _
                (Keeps-bind P (maybe_poll_status w) _ (maybe_poll_status-Keeps stable w) λ _.
                  Keeps-bind P (pump w) _ (pump-Keeps stable w)
                    λ _. done_loop-Keeps fuel seq_id deadline)
                s h)
      ]

  pub step-Keeps : (s : Session) (c : Call) → P s → P (step w s c)
  unfolding step wait_for_ack wait_for_done
  step-Keeps s (sends verb fields) h = send-Keeps stable verb fields s h
  step-Keeps s (sends_unsequenced verb fields) h = send_unsequenced-Keeps stable verb fields s h
  step-Keeps s pumps h = pump-Keeps stable w s h
  step-Keeps s polls h = maybe_poll_status-Keeps stable w s h
  step-Keeps s (waits_for_ack fuel seq_id timeout) h =
      Keeps-bind P (deadline_of w timeout) (ack_loop w fuel seq_id) (deadline_of-Keeps timeout)
        (ack_loop-Keeps fuel seq_id) s h
  step-Keeps s (waits_for_done fuel seq_id timeout) h =
      Keeps-bind P (deadline_of w timeout) (done_loop w fuel seq_id) (deadline_of-Keeps timeout)
        (done_loop-Keeps fuel seq_id) s h

  pub run-Keeps : (s : Session) (calls : List Call) → P s → P (run w s calls)
  unfolding run
  run-Keeps s [] h = h
  run-Keeps s (c ∷ calls) h = run-Keeps (step w s c) calls (step-Keeps s c h)
