-- ===== src/Rogo/Client/Wire.antt =====
-- `_DaemonWireClient.call` of src/host/rogo/daemon_client.py after the request is sent. The clock is
-- read once a round, and each round reads the lines that have come, both by the number of the round.
use radio_robot_lib.Prelude.{
  ℕ, zero, suc, ◌+◌, ◌≤◌, ◌<◌, ◌≡◌, refl, Bool, false, ◌||◌, Option, none, some, List, [], ◌∷◌,
  String, leb, arith, if◌then◌else◌, Bool-cases, inl, inr, ◌⊎◌, ap,
}
use radio_robot_lib.Prelude.Int.{ℤ, eqb_ℤ, eqb_ℤ_iff}
use radio_robot_lib.Rogo.Json.{Json}
use radio_robot_lib.Rogo.Protocol.{
  Reply, ReplyError, ProtocolError, Decoded, refused, decoded, decode_reply,
}
use text.Mathlib.Text.{◌==◌}

pub data Answer : Type 0 where
  value : Json → Answer
  -- the class and the message of what is raised
  raised : String → String → Answer
  malformed : ProtocolError → Answer
  unavailable : Answer

-- `_KNOWN_EXCEPTION_TYPES.get(type, RuntimeError)`
unfoldable pub exception_type : String → String
exception_type type =
    if type == "ValueError" || type == "TypeError" || type == "PendingBufferFull"
    then type
    else "RuntimeError"

unfoldable pub unwrap : Json → Option ReplyError → Answer
unfolding exception_type
unwrap result none = value result
unwrap result (some error) = raised (exception_type error.type) error.message

-- What one decoded line comes to; `none` is to go on with the next.
unfoldable pub take_reply : ℤ → Decoded Reply → Option Answer
unfolding unwrap
take_reply request_id (refused e) = some (malformed e)
take_reply request_id (decoded reply) =
    if eqb_ℤ reply.id request_id then some (unwrap reply.result reply.error) else none

unfoldable pub or_next : Option Answer → Option Answer → Option Answer
or_next (some answer) later = some answer
or_next none later = later

unfoldable pub take_lines : ℤ → List (Option Json) → Option Answer
unfolding take_reply or_next
take_lines request_id [] = none
take_lines request_id (line ∷ lines) =
    or_next (take_reply request_id (decode_reply line)) (take_lines request_id lines)

-- `remaining is not None and remaining <= 0`
unfoldable pub is_late : Option ℕ → ℕ → Bool
is_late none now = false
is_late (some deadline) now = leb deadline now

module _ (clock : ℕ → ℕ) (arrivals : ℕ → List (Option Json)) (request_id : ℤ) where
  unfoldable pub call_loop : ℕ → ℕ → Option ℕ → Option Answer
  unfolding is_late or_next
  call_loop zero i deadline = none
  call_loop (suc fuel) i deadline =
      let rest = call_loop fuel (suc i) deadline in
      if is_late deadline (clock i)
      then some unavailable
      else or_next (take_lines request_id (arrivals i)) rest

  -- A line of these is a reply to the request, with that result and no error.
  abbrev pub IsReplied : Json → List (Option Json) → Type 0
  IsReplied v [] = ⊥
  IsReplied v (line ∷ lines) =
      ((reply : Reply) × (decode_reply line ≡ decoded reply)
        × (reply.id ≡ request_id)
        × (reply.result ≡ v)
        × (reply.error ≡ none))
      ⊎ IsReplied v lines

  abbrev pub IsAnswer : Option Answer → Type 0
  IsAnswer none = ⊥
  IsAnswer (some (value v)) = (i : ℕ) × IsReplied v (arrivals i)
  IsAnswer (some _) = Unit

  abbrev IsTaken : List (Option Json) → Option Answer → Type 0
  IsTaken lines (some (value v)) = IsReplied v lines
  IsTaken lines _ = Unit

  unwrapped-IsTaken :
      (line : Option Json) (lines : List (Option Json)) (reply : Reply) (result : Json)
      (error : Option ReplyError)
      → decode_reply line ≡ decoded reply
      → reply.id ≡ request_id
      → reply.result ≡ result
      → reply.error ≡ error
      → IsTaken (line ∷ lines) (some (unwrap result error))
  unfolding unwrap
  unwrapped-IsTaken line lines reply result none d e r f = inl (reply, d, e, r, f)
  unwrapped-IsTaken line lines reply result (some error) d e r f = tt

  later-IsTaken :
      (line : Option Json) (lines : List (Option Json)) (o : Option Answer)
      → IsTaken lines o
      → IsTaken (line ∷ lines) o
  later-IsTaken line lines none h = tt
  later-IsTaken line lines (some (value v)) h = inr h
  later-IsTaken line lines (some (raised type message)) h = tt
  later-IsTaken line lines (some (malformed e)) h = tt
  later-IsTaken line lines (some unavailable) h = tt

  line-IsTaken :
      (line : Option Json) (lines : List (Option Json)) (d : Decoded Reply) (later : Option Answer)
      → decode_reply line ≡ d
      → IsTaken lines later
      → IsTaken (line ∷ lines) (or_next (take_reply request_id d) later)
  unfolding take_reply or_next
  line-IsTaken line lines (refused e) later d h = tt
  line-IsTaken line lines (decoded reply) later d h =
      elim (Bool-cases (eqb_ℤ reply.id request_id)) [
        | inl own ↦ rw own (
            unwrapped-IsTaken line lines reply reply.result reply.error d
              ((eqb_ℤ_iff reply.id request_id).0 own) refl refl)
        | inr other ↦ rw other (later-IsTaken line lines later h)
      ]

  take_lines-IsTaken : (lines : List (Option Json)) → IsTaken lines (take_lines request_id lines)
  unfolding take_lines
  take_lines-IsTaken [] = tt
  take_lines-IsTaken (line ∷ lines) =
      line-IsTaken line lines (decode_reply line) _ refl (take_lines-IsTaken lines)

  next-IsAnswer :
      (i : ℕ) (o later : Option Answer)
      → IsTaken (arrivals i) o
      → IsAnswer later
      → IsAnswer (or_next o later)
  unfolding or_next
  next-IsAnswer i none later h k = k
  next-IsAnswer i (some (value v)) later h k = (i, h)
  next-IsAnswer i (some (raised type message)) later h k = tt
  next-IsAnswer i (some (malformed e)) later h k = tt
  next-IsAnswer i (some unavailable) later h k = tt

  before_k :
      (i deadline k : ℕ) → deadline ≤ clock k → i ≤ k → leb deadline (clock i) ≡ false → i < k
  before_k i deadline k reached le early = elim (Bool-cases (leb (suc i) k)) [
    | inl below ↦ ground (arith, below)
    | inr above ↦
        let same : i ≡ k = ground (arith, above, le) in
        absurd (ground (arith, reached, early, ap clock same))
  ]

  -- A call with a deadline ends in the round `k` in which the clock has reached it, if not before:
  -- one round more than `k` is fuel enough from the start. It returns a value only if that was the
  -- result of a reply under the id of its own request.
  pub call_loop-IsAnswer :
      (fuel i deadline k : ℕ)
      → deadline ≤ clock k
      → i ≤ k
      → k < i + fuel
      → IsAnswer (call_loop fuel i (some deadline))
  unfolding call_loop is_late
  call_loop-IsAnswer zero i deadline k reached le enough = absurd (omega arith)
  call_loop-IsAnswer (suc fuel) i deadline k reached le enough =
      elim (Bool-cases (leb deadline (clock i))) [
        | inl late ↦ rw (late, call_loop) tt
        | inr early ↦
            rw (early, call_loop)
              (next-IsAnswer i (take_lines request_id (arrivals i))
                (call_loop fuel (suc i) (some deadline)) (take_lines-IsTaken (arrivals i))
                (call_loop-IsAnswer fuel (suc i) deadline k reached
                  (before_k i deadline k reached le early) (omega arith)))
      ]
