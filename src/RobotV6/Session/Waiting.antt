-- ===== src/RobotV6/Session/Waiting.antt =====
-- `Session.wait_for_ack` and `Session.wait_for_done` of src/host/robot_v6/reliability.py: loops on
-- fuel, over the clock readings and reads of the world. `none` is a loop that was cut off.
use radio_robot_lib.Prelude.{
  ℕ, zero, suc, ◌+◌, Bool, true, false, Option, none, some, ltb, leb, if◌then◌else◌,
}
use radio_robot_lib.Prelude.Text.{Text}
use radio_robot_lib.Prelude.Int.{pos, ltb_ℤ}
use radio_robot_lib.Python.Error.{ok}
use radio_robot_lib.Python.Exec.{Exec, pure, ◌>>=◌, ◌>>◌}
use radio_robot_lib.RobotV6.Session.{World, Session, monotonic, pump, maybe_poll_status}

pub record DoneEvent : Type 0 where
  pub id : ℕ
  pub reason : Text

module _ (w : World) where
  -- `None if timeout is None else time.monotonic() + timeout`
  unfoldable pub deadline_of : Option ℕ → Exec Session (Option ℕ)
  deadline_of none = pure none
  deadline_of (some timeout) = do now ← monotonic w; pure (some (now + timeout))

  -- `remaining is not None and remaining <= 0`
  unfoldable pub expired : Option ℕ → Exec Session Bool
  expired none = pure false
  expired (some deadline) = do now ← monotonic w; pure (leb deadline now)

  -- `if remaining is not None and remaining <= 0: return answer`, and `rest` otherwise
  unfoldable pub unless_late : {A : Type 0} → Option ℕ → A → Exec Session A → Exec Session A
  unfolding expired
  unless_late deadline answer rest = do late ← expired deadline; if late then pure answer else rest

  unfoldable pub ack_loop : ℕ → ℕ → Option ℕ → Exec Session (Option Bool)
  ack_loop zero seq_id deadline s = (ok none, s)
  ack_loop (suc fuel) seq_id deadline s = elim (ltb s.highest_acked seq_id) [
    | false ↦ (ok (some true), s)
    | true ↦ unless_late deadline (some false) (pump w >> ack_loop fuel seq_id deadline) s
  ]

  unfoldable pub wait_for_ack : ℕ → ℕ → Option ℕ → Exec Session (Option Bool)
  wait_for_ack fuel seq_id timeout = do
    deadline ← deadline_of timeout
    ack_loop fuel seq_id deadline

  unfoldable pub done_loop : ℕ → ℕ → Option ℕ → Exec Session (Option (Option DoneEvent))
  done_loop zero seq_id deadline s = (ok none, s)
  done_loop (suc fuel) seq_id deadline s = elim (ltb_ℤ s.last_done (pos seq_id)) [
    | false ↦ (ok (some (some (record { id = seq_id; reason = s.last_done_reason }))), s)
    | true ↦
        unless_late deadline (some none)
          (maybe_poll_status w >> (pump w >> done_loop fuel seq_id deadline)) s
  ]

  unfoldable pub wait_for_done : ℕ → ℕ → Option ℕ → Exec Session (Option (Option DoneEvent))
  wait_for_done fuel seq_id timeout = do
    deadline ← deadline_of timeout
    done_loop fuel seq_id deadline
