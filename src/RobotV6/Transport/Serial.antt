-- ===== src/RobotV6/Transport/Serial.antt =====
-- `SerialTransport._read_chunk` of src/host/robot_v6/transport.py. What `serial.read(4096)` returns is
-- a function of how often it was called, none of it raises, and times are whole numbers of one unit,
-- `step` the port's own timeout. `none` is a loop whose fuel ran out.
use radio_robot_lib.Prelude.{
  ℕ, zero, suc, ◌+◌, ◌*◌, ◌-◌, ◌≤◌, ◌<◌, ◌≡◌, refl, Option, none, some, [], ◌∷◌, arith,
}
use radio_robot_lib.Prelude.Text.{Text}

-- `if data: return data`; beside the data, how often the port was read.
unfoldable pub if_data : {A : Type 0} → Text → (Text → A) → A → A
if_data [] found otherwise = otherwise
if_data (b ∷ bytes) found otherwise = found (b ∷ bytes)

module _ (port : ℕ → Text) (step : ℕ) where
  -- `while remaining > 0`
  unfoldable pub poll_port : ℕ → ℕ → ℕ → Option (Text × ℕ)
  unfolding if_data
  poll_port zero i remaining = none
  poll_port (suc fuel) i zero = some ([], i)
  poll_port (suc fuel) i (suc remaining) =
      if_data (port i) (λ bytes. some (bytes, suc i))
        (poll_port fuel (suc i) (suc remaining - step))

  -- `while True`
  unfoldable pub wait_for_port : ℕ → ℕ → Option (Text × ℕ)
  unfolding if_data
  wait_for_port zero i = none
  wait_for_port (suc fuel) i =
      if_data (port i) (λ bytes. some (bytes, suc i)) (wait_for_port fuel (suc i))

  unfoldable pub read_chunk : ℕ → ℕ → Option ℕ → Option (Text × ℕ)
  read_chunk fuel i none = wait_for_port fuel i
  read_chunk fuel i (some timeout) = poll_port fuel i timeout

  -- The first bytes among so many reads, or none of them.
  unfoldable pub first_data : ℕ → ℕ → Text × ℕ
  unfolding if_data
  first_data zero i = ([], i)
  first_data (suc rounds) i = if_data (port i) (λ bytes. (bytes, suc i)) (first_data rounds (suc i))

  first_round :
      (fuel i timeout rounds : ℕ) (bytes : Text)
      → poll_port fuel (suc i) timeout ≡ some (first_data rounds (suc i))
      → if_data bytes (λ b. some (b, suc i)) (poll_port fuel (suc i) timeout)
        ≡ some (if_data bytes (λ b. (b, suc i)) (first_data rounds (suc i)))
  unfolding if_data
  first_round fuel i timeout rounds [] h = h
  first_round fuel i timeout rounds (b ∷ bytes) h = refl

  polled :
      (rounds fuel i timeout : ℕ)
      → 0 < step
      → timeout ≤ rounds * step
      → rounds * step < timeout + step
      → rounds < fuel
      → poll_port fuel i timeout ≡ some (first_data rounds i)
  unfolding poll_port first_data
  polled rounds zero i timeout positive above below enough = absurd (omega arith)
  polled zero (suc fuel) i zero positive above below enough = refl
  polled (suc rounds) (suc fuel) i zero positive above below enough = absurd (omega arith)
  polled zero (suc fuel) i (suc t) positive above below enough = absurd (omega arith)
  polled (suc rounds) (suc fuel) i (suc t) positive above below enough =
      first_round fuel i (suc t - step) rounds (port i) (
        polled rounds fuel (suc i) (suc t - step) positive (omega arith) (omega arith)
          (omega arith))

  -- With a timeout, the port is read as often as the port's own timeout goes into it, rounded up,
  -- and no further once there are bytes; these are returned, or none if there were none. One unit of
  -- fuel more than there are such reads is enough.
  pub read_chunk-first_data :
      (rounds fuel i timeout : ℕ)
      → 0 < step
      → timeout ≤ rounds * step
      → rounds * step < timeout + step
      → rounds < fuel
      → read_chunk fuel i (some timeout) ≡ some (first_data rounds i)
  unfolding read_chunk
  read_chunk-first_data rounds fuel i timeout positive above below enough =
      polled rounds fuel i timeout positive above below enough
