-- ===== src/Rogo/Client/Ending.antt =====
-- An aborted wait of src/host/rogo/daemon_client.py comes to an end, so an estop is not kept waiting.
use radio_robot_lib.Prelude.{
  ℕ, zero, suc, ◌+◌, min, ◌≤◌, ◌<◌, ◌≡◌, ap, ==_iff, ◌==◌, Bool, true, false, Option, none, some,
  arith, Bool-cases, inl, inr,
}
use radio_robot_lib.Prelude.Int.{pos, ◌≤ℤ◌}
use radio_robot_lib.Python.Error.{Error, Result, ok, err}
use radio_robot_lib.Python.Exec.{bind_outcome, Exec, pure}
use radio_robot_lib.RobotV6.Session.{World, Session}
use radio_robot_lib.RobotV6.Session.Waiting.{DoneEvent, deadline_of, wait_for_ack, wait_for_done}
use radio_robot_lib.RobotV6.Session.Progress.{
  AckOutcome, DoneOutcome, IsMonotonic, wait_for_ack-AckOutcome, wait_for_done-DoneOutcome,
}
use radio_robot_lib.Rogo.Client.Polling.{
  remaining_of, settle, poll_once, abort_loop, accept_true, accept_event, dispatch_wait_for_ack,
  dispatch_wait_for_done,
}

not_yet :
    (abort : ℕ → Bool) (asked n : ℕ) → asked ≤ n → abort n ≡ true → abort asked ≡ false → asked < n
not_yet abort asked n le set unset = elim (Bool-cases (asked == n)) [
  | inl same ↦ absurd (cc (ap abort ((==_iff asked n).0 same), set, unset))
  | inr differ ↦ ground (arith, differ)
]

module _ (w : World) (abort : ℕ → Bool) (poll_time : ℕ) where
  module _ {A B : Type 0} (call : ℕ → Exec Session (Option B)) (accept : B → Option A)
      (fallback : A) (Q : Result (Option A) × Session → Type 0)
      (failed : (e : Error) (s : Session) → Q (err e, s))
      (gave_up : (s : Session) → Q (ok (some fallback), s)) where
    abbrev Settled : Option A → Session → Type 0
    Settled none s = Unit
    Settled (some a) s = Q (ok (some a), s)

    -- What a call that is polled may come to.
    abbrev CallOutcome : Result (Option B) × Session → Type 0
    CallOutcome (ok none, s) = ⊥
    CallOutcome (ok (some b), s) = Settled (accept b) s
    CallOutcome (err e, s) = Unit

    accepted :
        (rest : Exec Session (Option A)) (o : Option A) (s : Session)
        → ((t : Session) → Q (rest t))
        → Settled o s
        → Q ((elim o as (λ _. Exec Session (Option A)) [ none ↦ rest | some a ↦ pure (some a) ]) s)
    accepted rest none s onwards h = onwards s
    accepted rest (some a) s onwards h = h

    module _ (ends : (step : ℕ) (s : Session) → step ≤ poll_time → CallOutcome (call step s)) where
      settled :
          (rest : Exec Session (Option A)) (b : Option B) (s : Session)
          → ((t : Session) → Q (rest t))
          → CallOutcome (ok b, s)
          → Q (settle w abort poll_time call accept fallback rest b s)
      unfolding settle
      settled rest none s onwards h = absurd h
      settled rest (some b) s onwards h = accepted rest (accept b) s onwards h

      polled :
          (rest : Exec Session (Option A)) (remaining : Option ℕ) (s : Session)
          → ((t : Session) → Q (rest t))
          → Q (poll_once w abort poll_time call accept fallback rest remaining s)
      unfolding poll_once
      polled rest none s onwards =
          bind_outcome CallOutcome Q (settle w abort poll_time call accept fallback rest)
            (call poll_time s) failed (λ b t. settled rest b t onwards)
            (ends poll_time s (omega arith))
      polled rest (some zero) s onwards = gave_up s
      polled rest (some (suc n)) s onwards =
          bind_outcome CallOutcome Q (settle w abort poll_time call accept fallback rest)
            (call (min poll_time (suc n)) s) failed (λ b t. settled rest b t onwards)
            (ends (min poll_time (suc n)) s (omega arith))

      -- The loop has an outcome, if `abort` is set by the time that it is asked for the `n`th time.
      pub abort_loop-outcome :
          (n fuel asked : ℕ) (deadline : Option ℕ) (s : Session)
          → abort n ≡ true
          → asked ≤ n
          → n < asked + fuel
          → Q (abort_loop w abort poll_time call accept fallback fuel asked deadline s)
      unfolding abort_loop
      abort_loop-outcome n zero asked deadline s set le enough = absurd (omega arith)
      abort_loop-outcome n (suc fuel) asked deadline s set le enough =
          elim (Bool-cases (abort asked)) [
            | inl now ↦ rw (now, abort_loop) (gave_up s)
            | inr later ↦
                let rest =
                  abort_loop w abort poll_time call accept fallback fuel (suc asked) deadline in
                rw (later, abort_loop)
                  (bind_outcome (λ x. Unit) Q
                    (poll_once w abort poll_time call accept fallback rest)
                    (remaining_of w abort poll_time deadline s) failed
                    (λ r t _. polled rest r t (λ u.
                      abort_loop-outcome n fuel (suc asked) deadline u set
                        (not_yet abort asked n le set later) (omega arith)))
                    tt)
          ]

  -- Every poll fits in `m` readings of the clock.
  abbrev pub IsTicking : ℕ → Type 0
  IsTicking m = (i : ℕ) → w.monotonic i + poll_time ≤ w.monotonic (i + m)

  -- A wait that was not cut off, and that says yes only of an acknowledged id.
  abbrev pub RemoteAck : ℕ → Result (Option Bool) × Session → Type 0
  RemoteAck seq_id (ok none, s) = ⊥
  RemoteAck seq_id (ok (some true), s) = seq_id ≤ s.highest_acked
  RemoteAck seq_id (ok (some false), s) = Unit
  RemoteAck seq_id (err e, s) = Unit

  abbrev pub RemoteDone : ℕ → Result (Option (Option DoneEvent)) × Session → Type 0
  RemoteDone seq_id (ok none, s) = ⊥
  RemoteDone seq_id (ok (some (some event)), s) = (event.id ≡ seq_id) × (pos seq_id ≤ℤ s.last_done)
  RemoteDone seq_id (ok (some none), s) = Unit
  RemoteDone seq_id (err e, s) = Unit

  module _ (m inner seq_id : ℕ) (steady : IsMonotonic w) (ticks : IsTicking m)
      (some_fuel : 0 < inner) (fuel_lasts : m ≤ inner) where
    ack_call : ℕ → Exec Session (Option Bool)
    ack_call step = wait_for_ack w inner seq_id (some step)

    ack_poll :
        (deadline : ℕ) (x : Result (Option Bool) × Session)
        → AckOutcome w seq_id deadline x
        → CallOutcome ack_call accept_true false (RemoteAck seq_id) (λ e s. tt) (λ s. tt) x
    ack_poll deadline (ok none, s) h = h
    ack_poll deadline (ok (some true), s) h = h
    ack_poll deadline (ok (some false), s) h = tt
    ack_poll deadline (err e, s) h = tt

    done_call : ℕ → Exec Session (Option (Option DoneEvent))
    done_call step = wait_for_done w inner seq_id (some step)

    done_poll :
        (deadline : ℕ) (x : Result (Option (Option DoneEvent)) × Session)
        → DoneOutcome w seq_id deadline x
        → CallOutcome done_call accept_event none (RemoteDone seq_id) (λ e s. tt) (λ s. tt) x
    done_poll deadline (ok none, s) h = h
    done_poll deadline (ok (some (some event)), s) (same, reached, reason) = (same, reached)
    done_poll deadline (ok (some none), s) h = tt
    done_poll deadline (err e, s) h = tt

    module _ (n fuel : ℕ) (timeout : Option ℕ) (s : Session) (set : abort n ≡ true)
        (enough : n < fuel) where
      -- A remoted wait for an acknowledgement ends even with no timeout, if its abort event is set
      -- by the time of the `n`th look at it, the clock never goes back and moves on by a poll
      -- within `m` readings: `n + 1` rounds, of `m` rounds each, are enough. It says yes only if
      -- the id is acknowledged.
      pub dispatch_wait_for_ack-RemoteAck :
          RemoteAck seq_id (dispatch_wait_for_ack w abort poll_time inner fuel seq_id timeout s)
      unfolding dispatch_wait_for_ack ack_call
      dispatch_wait_for_ack-RemoteAck =
          bind_outcome (λ x. Unit) (RemoteAck seq_id)
            (abort_loop w abort poll_time ack_call accept_true false fuel 0)
            (deadline_of w timeout s) (λ e t. tt)
            (λ deadline t _.
              abort_loop-outcome ack_call accept_true false (RemoteAck seq_id) (λ e u. tt) (λ u. tt)
                (λ step u le. ack_poll (w.monotonic u.clock_reads + step) (ack_call step u) (
                  wait_for_ack-AckOutcome w inner seq_id step (u.clock_reads + m) u steady
                    (omega (arith, ticks u.clock_reads)) some_fuel (omega arith)))
                n fuel 0 deadline t set (omega arith) (omega arith))
            tt

      -- A remoted wait for a completion ends even with no timeout, if its abort event is set by the
      -- time of the `n`th look at it, the clock never goes back and moves on by a poll within `m`
      -- readings: `n + 1` rounds, of `m` rounds each, are enough. It gives an event only for the id
      -- that was asked for, and only if the last completed id is at least that.
      pub dispatch_wait_for_done-RemoteDone :
          RemoteDone seq_id (dispatch_wait_for_done w abort poll_time inner fuel seq_id timeout s)
      unfolding dispatch_wait_for_done done_call
      dispatch_wait_for_done-RemoteDone =
          bind_outcome (λ x. Unit) (RemoteDone seq_id)
            (abort_loop w abort poll_time done_call accept_event none fuel 0)
            (deadline_of w timeout s) (λ e t. tt)
            (λ deadline t _.
              abort_loop-outcome done_call accept_event none (RemoteDone seq_id) (λ e u. tt)
                (λ u. tt)
                (λ step u le. done_poll (w.monotonic u.clock_reads + step) (done_call step u) (
                  wait_for_done-DoneOutcome w inner seq_id step (u.clock_reads + m) u steady
                    (omega (arith, ticks u.clock_reads)) some_fuel (omega arith)))
                n fuel 0 deadline t set (omega arith) (omega arith))
            tt
