-- ===== src/Rogo/Cli/Streaming.antt =====
-- `drive stream` of src/host/rogo/cli.py on a serial port of src/host/robot_v6/transport.py.
use radio_robot_lib.Prelude.{ℕ, suc, ◌+◌, ◌<◌, refl, Option, none, some, [], length}
use radio_robot_lib.Prelude.Int.{ℤ}
use radio_robot_lib.Prelude.Text.{Text}
use radio_robot_lib.RobotV6.Session.{Session}
use radio_robot_lib.RobotV6.Session.Invariant.{IsWell}
use radio_robot_lib.RobotV6.Transport.{Read, chunk}
use radio_robot_lib.RobotV6.Transport.Serial.{poll_port, read_chunk}
use radio_robot_lib.Rogo.Cli.Drive.{stream_rounds}
use radio_robot_lib.Rogo.Cli.Fields.{lease_of}
use radio_robot_lib.Rogo.Cli.Silent.{Raises, drive_stream-Raises}

-- What `read_lines` gets of the port. A read that is cut off would bring nothing.
unfoldable pub bytes_read : Option (Text × ℕ) → Read
bytes_read none = chunk []
bytes_read (some (bytes, reads)) = chunk bytes

-- Each `pump(0.0)` asks the port with no time to wait. How often the port was read before is `before`.
unfoldable pub drains_port : (ℕ → Text) → ℕ → ℕ → (ℕ → ℕ) → ℕ → Read
unfolding bytes_read
drains_port port step fuel before i =
    bytes_read (read_chunk port step (suc fuel) (before i) (some 0))

-- Whatever the robot sends and however fast it acknowledges, on a serial port the rounds of a stream
-- raise once they are more than there is room in the pending buffer.
pub stream_rounds-Raises :
    (port : ℕ → Text) (step fuel : ℕ) (before monotonic : ℕ → ℕ) (inner rounds : ℕ)
    (left right resend_ms : ℤ) (s : Session)
    → IsWell s
    → s.max_pending < rounds + length s.pending
    → Raises (
        stream_rounds
          (record { monotonic = monotonic; arrivals = drains_port port step fuel before })
          inner
          rounds
          left
          right
          (lease_of resend_ms)
          s)
unfolding drains_port bytes_read read_chunk poll_port
stream_rounds-Raises port step fuel before monotonic inner rounds left right resend_ms s well over =
    (drive_stream-Raises
      (record { monotonic = monotonic; arrivals = drains_port port step fuel before }) inner
      (λ i. refl) rounds left right resend_ms s well over).0
