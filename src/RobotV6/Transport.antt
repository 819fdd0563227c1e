-- ===== src/RobotV6/Transport.antt =====
-- src/host/robot_v6/transport.py, the part that all transports share: lines out of chunks of
-- bytes, and a line out as bytes. What `_read_chunk` returns is an argument, what `_write_bytes`
-- is given is kept in `written`, oldest first.
pub mod Reassembly
pub mod Serial
use radio_robot_lib.Prelude.{
  ℕ, zero, suc, ◌≡◌, refl, Bool, true, false, ◌&&◌, Option, none, some, List, [], ◌∷◌, ◌++◌, ltb,
  ◌==◌, if◌then◌else◌, length,
}
use radio_robot_lib.Prelude.Text.{Text, codes}
use radio_robot_lib.Python.Error.{ok, err, transport_closed, unicode_error}
use radio_robot_lib.Python.Exec.{Exec}
use radio_robot_lib.Python.Split.{partition}

pub record Transport : Type 0 where
  pub buffer : Text
  pub written : List Text

-- What `_read_chunk(timeout)` came to: bytes, none of them on a timeout, or the end of the stream.
pub data Read : Type 0 where
  chunk : Text → Read
  closed : Read

abbrev pub newline : ℕ
newline = 10

abbrev carriage_return : ℕ
carriage_return = 13

unfoldable pub strip_cr : Text → Text
strip_cr [] = []
strip_cr (c ∷ []) = if c == carriage_return then [] else c ∷ []
strip_cr (c ∷ d ∷ s) = c ∷ strip_cr (d ∷ s)

-- `raw.decode("ascii", errors="replace")`
unfoldable pub decode : Text → Text
decode [] = []
decode (b ∷ s) = (if ltb b 128 then b else 0xfffd) ∷ decode s

abbrev pub line_of : Text → Text
line_of raw = decode (strip_cr raw)

-- The loop of `read_lines`: the lines that the buffer holds, and what is left in it. A round takes
-- at least one byte off the buffer.
unfoldable pub drain : ℕ → Text → List Text × Text
drain zero buffer = ([], buffer)
drain (suc fuel) buffer =
    let (raw, behind) = partition newline buffer in
    elim behind [
      | none ↦ ([], buffer)
      | some rest ↦ let (lines, left) = drain fuel rest in (line_of raw ∷ lines, left)
    ]

unfoldable pub read_lines : Read → Exec Transport (List Text)
read_lines closed t = (err transport_closed, t)
read_lines (chunk []) t = (ok [], t)
read_lines (chunk (b ∷ bytes)) t =
    let buffer = t.buffer ++ b ∷ bytes in
    let (lines, left) = drain (length buffer) buffer in (ok lines, record t { buffer = left })

unfoldable pub is_ascii : Text → Bool
is_ascii [] = true
is_ascii (c ∷ s) = ltb c 128 && is_ascii s

unfoldable pub send_line : Text → Exec Transport (Unit {0})
send_line line t =
    if is_ascii line
    then (ok tt, record t { written = t.written ++ (line ++ newline ∷ []) ∷ [] })
    else (err unicode_error, t)

abbrev pub fresh : Transport
fresh = record { buffer = []; written = [] }

read_values :
    (read_lines (chunk (codes "ack 1 0 none\r\nt 5")) fresh).0 ≡ ok (codes "ack 1 0 none" ∷ [])
unfolding read_lines drain strip_cr decode partition
read_values = refl
