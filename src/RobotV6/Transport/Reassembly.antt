-- ===== src/RobotV6/Transport/Reassembly.antt =====
-- How the bytes are cut into chunks does not matter.
use radio_robot_lib.Prelude.{
  ℕ, zero, suc, ◌≤◌, ◌≡◌, ◌≢◌, refl, sym, ap, true, false, none, some, List, [], ◌∷◌, ◌++◌,
  append_assoc, append-nil, arith, ◌==◌, if◌then◌else◌, Bool-cases, inl, inr, length, length-append,
  All, All-append,
}
use radio_robot_lib.Prelude.Text.{Text}
use radio_robot_lib.Python.Error.{ok}
use radio_robot_lib.Python.Exec.{Exec, pure, ◌>>=◌}
use radio_robot_lib.Python.Split.{partition}
use radio_robot_lib.RobotV6.Transport.{Transport, chunk, newline, line_of, drain, read_lines}

abbrev pub HasNoNewline : Text → Type 0
HasNoNewline = All (λ c. c ≢ newline)

-- Byte by byte: `current` is what stands since the last newline.
unfoldable pub reassemble : Text → Text → List Text × Text
reassemble [] current = ([], current)
reassemble (b ∷ s) current =
    let (lines, left) = reassemble s (if b == newline then [] else current ++ b ∷ []) in
    if b == newline then (line_of current ∷ lines, left) else (lines, left)

partition-newline :
    (current : Text) (b : ℕ) (rest : Text)
    → HasNoNewline current
    → (b == newline) ≡ true
    → partition newline (current ++ b ∷ rest) ≡ (current, some rest)
unfolding partition
partition-newline [] b rest h e = rw e
partition-newline (c ∷ current) b rest (hc, h) e =
    rw (partition-newline current b rest h e) (ground arith)

partition-none :
    (current : Text) → HasNoNewline current → partition newline current ≡ (current, none)
unfolding partition
partition-none [] h = refl
partition-none (c ∷ current) (hc, h) = rw (partition-none current h) (ground arith)

snoc-HasNoNewline :
    (current : Text) (b : ℕ)
    → HasNoNewline current
    → (b == newline) ≡ false
    → HasNoNewline (current ++ b ∷ [])
snoc-HasNoNewline current b h e =
    All-append (λ c. c ≢ newline) current (b ∷ []) h (ground arith, tt)

drain_found :
    (fuel : ℕ) (buffer raw rest : Text)
    → partition newline buffer ≡ (raw, some rest)
    → drain (suc fuel) buffer ≡ (line_of raw ∷ (drain fuel rest).0, (drain fuel rest).1)
unfolding drain
drain_found fuel buffer raw rest e = rw (e, drain) (rw (ap (λ p. p.0) e))

-- The loop that looks for newlines agrees with the reading byte by byte.
drain-reassemble :
    (s current : Text) (fuel : ℕ)
    → HasNoNewline current
    → length s ≤ fuel
    → drain fuel (current ++ s) ≡ reassemble s current
unfolding drain reassemble
drain-reassemble [] current zero h enough = ground (arith, append-nil current)
drain-reassemble [] current (suc fuel) h enough =
    ground (arith, append-nil current, partition-none current h)
drain-reassemble (b ∷ s) current zero h enough = absurd (omega arith)
drain-reassemble (b ∷ s) current (suc fuel) h enough = elim (Bool-cases (b == newline)) [
  | inl found ↦
      rw (drain_found fuel (current ++ b ∷ s) current s (partition-newline current b s h found))
        (rw (found, drain-reassemble s [] fuel tt (omega arith)))
  | inr kept ↦
      rw (kept, sym (append_assoc current (b ∷ []) s))
        (drain-reassemble s (current ++ b ∷ []) (suc fuel) (snoc-HasNoNewline current b h kept)
          (omega arith))
]

-- Reading on from what was left is reading the whole.
reassemble-append :
    (s t current : Text)
    → reassemble (s ++ t) current ≡ (
      (reassemble s current).0 ++ (reassemble t (reassemble s current).1).0,
      (reassemble t (reassemble s current).1).1,
    )
unfolding reassemble
reassemble-append [] t current = refl
reassemble-append (b ∷ s) t current = elim (Bool-cases (b == newline)) [
  | inl found ↦ rw (found, reassemble-append s t [])
  | inr kept ↦ rw (kept, reassemble-append s t (current ++ b ∷ []))
]

reassemble-HasNoNewline :
    (s current : Text) → HasNoNewline current → HasNoNewline (reassemble s current).1
unfolding reassemble
reassemble-HasNoNewline [] current h = h
reassemble-HasNoNewline (b ∷ s) current h = elim (Bool-cases (b == newline)) [
  | inl found ↦ rw found (reassemble-HasNoNewline s [] tt)
  | inr kept ↦
      rw kept (reassemble-HasNoNewline s (current ++ b ∷ []) (snoc-HasNoNewline current b h kept))
]

-- One call of `read_lines`, in one equation for every chunk, empty or not.
read_lines-reassemble :
    (bytes : Text) (t : Transport)
    → HasNoNewline t.buffer
    → read_lines (chunk bytes) t
      ≡ (ok (reassemble bytes t.buffer).0, record t { buffer = (reassemble bytes t.buffer).1 })
unfolding read_lines
read_lines-reassemble [] t h = unfold reassemble in refl
read_lines-reassemble (b ∷ bytes) t h = rw (
    drain-reassemble (b ∷ bytes) t.buffer (length (t.buffer ++ b ∷ bytes)) h
      (omega (arith, length-append {0} t.buffer (b ∷ bytes))))

-- `read_lines` once for each chunk, the lines of all the calls together.
unfoldable pub read_chunks : List Text → Exec Transport (List Text)
read_chunks [] = pure []
read_chunks (bytes ∷ chunks) = do
  lines ← read_lines (chunk bytes)
  more ← read_chunks chunks
  pure (lines ++ more)

abbrev pub concat : List Text → Text
concat [] = []
concat (bytes ∷ chunks) = bytes ++ concat chunks

abbrev after : Text → Transport → Transport
after bytes t = record t { buffer = (reassemble bytes t.buffer).1 }

after-HasNoNewline :
    (bytes : Text) (t : Transport) → HasNoNewline t.buffer → HasNoNewline (after bytes t).buffer
after-HasNoNewline bytes t h = reassemble-HasNoNewline bytes t.buffer h

-- Reading the chunks one by one gives the lines, and leaves the buffer, of reading all their bytes
-- at once, if no newline stands in the buffer, as it never does after a read.
pub read_chunks-concat :
    (chunks : List Text) (t : Transport)
    → HasNoNewline t.buffer
    → read_chunks chunks t ≡ read_lines (chunk (concat chunks)) t
unfolding read_chunks
read_chunks-concat [] t h = unfold read_lines in refl
read_chunks-concat (bytes ∷ chunks) t h = rw (
  read_lines-reassemble bytes t h,
  read_chunks-concat chunks (after bytes t) (after-HasNoNewline bytes t h),
  read_lines-reassemble (concat chunks) (after bytes t) (after-HasNoNewline bytes t h),
  read_lines-reassemble (bytes ++ concat chunks) t h,
  reassemble-append bytes (concat chunks) t.buffer,
)
