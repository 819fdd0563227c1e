-- ===== src/Rogo/Client/Finding.antt =====
-- `find_daemon` and `_wait_for_daemon` of src/host/rogo/daemon_client.py. Whether the socket opens
-- and what the probe comes to are decided outside.
use radio_robot_lib.Prelude.{
  ℕ, zero, suc, ◌+◌, ◌≤◌, ◌<◌, ◌≡◌, subst, Bool, true, false, Option, none, some, leb, ltb, leb→le,
  le→leb, ltb→lt, ltb-false, arith, Bool-cases, inl, inr, if◌then◌else◌,
}
use radio_robot_lib.Python.Error.{
  Result, ok, err, os_error, protocol_error, daemon_unavailable, transport_closed,
}

-- Whether a daemon was found, and how often the transport was closed.
unfoldable pub probed : Result (Unit {0}) → Result Bool × ℕ
probed (ok pong) = (ok true, 0)
probed (err os_error) = (ok false, 1)
probed (err protocol_error) = (ok false, 1)
probed (err daemon_unavailable) = (ok false, 1)
probed (err transport_closed) = (ok false, 1)
probed (err e) = (err e, 0)

unfoldable pub find_daemon : Result (Unit {0}) → Result (Unit {0}) → Result Bool × ℕ
unfolding probed
find_daemon (err os_error) probe = (ok false, 0)
find_daemon (err e) probe = (err e, 0)
find_daemon (ok opened) probe = probed probe

-- What the attempts find and the clock reads after them, by their number.
module _ (finds : ℕ → Bool) (monotonic : ℕ → ℕ) (deadline : ℕ) where
  unfoldable pub wait_for_daemon : ℕ → ℕ → Option Bool
  wait_for_daemon zero attempt = none
  wait_for_daemon (suc fuel) attempt =
      let rest = wait_for_daemon fuel (suc attempt) in
      if finds attempt
      then some true
      else if leb deadline (monotonic attempt)
      then some false
      else rest

  -- Found at some attempt, or given up at or after the deadline.
  abbrev pub Waited : Option Bool → Type 0
  Waited none = ⊥
  Waited (some true) = (attempt : ℕ) × (finds attempt ≡ true)
  Waited (some false) = (attempt : ℕ) × (deadline ≤ monotonic attempt)

  still_early :
      (k attempt : ℕ)
      → deadline ≤ monotonic k
      → attempt ≤ k
      → leb deadline (monotonic attempt) ≡ false
      → suc attempt ≤ k
  still_early k attempt reached before early = elim (Bool-cases (ltb attempt k)) [
    | inl less ↦ ltb→lt attempt k less
    | inr more ↦
        let same : k ≡ attempt = omega (arith, before, ltb-false attempt k more) in
        absurd
          (cc (subst (λ i. leb deadline (monotonic i) ≡ true) same (le→leb _ _ reached), early))
  ]

  -- The wait for a spawned daemon ends, if the clock reaches the deadline at the attempt `k` and
  -- there is fuel for one more round than that: with a daemon only if one was found, and without
  -- one only once the deadline has passed.
  pub wait_for_daemon-Waited :
      (fuel k attempt : ℕ)
      → deadline ≤ monotonic k
      → k < fuel + attempt
      → attempt ≤ k
      → Waited (wait_for_daemon fuel attempt)
  unfolding wait_for_daemon
  wait_for_daemon-Waited zero k attempt reached enough before = absurd (omega arith)
  wait_for_daemon-Waited (suc fuel) k attempt reached enough before =
      elim (Bool-cases (finds attempt)) [
        | inl found ↦ rw found (attempt, found)
        | inr nothing ↦ elim (Bool-cases (leb deadline (monotonic attempt))) [
          | inl late ↦ rw (nothing, late) (attempt, leb→le _ _ late)
          | inr early ↦
              rw (nothing, early)
                (wait_for_daemon-Waited fuel k (suc attempt) reached (omega arith)
                  (still_early k attempt reached before early))
        ]
      ]
