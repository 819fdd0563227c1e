-- ===== src/Rogo/Client/Remote/Deadline.antt =====
-- The deadline of `_DaemonWireClient.call` of src/host/rogo/daemon_client.py.
use radio_robot_lib.Prelude.{
  ℕ, zero, suc, ◌+◌, ◌<◌, ◌≡◌, refl, Bool, true, false, not, ◌&&◌, Option, none, some, List, arith,
  Bool-cases, inl, inr, ◌==◌, if◌then◌else◌, ap, ◌∙◌, ==_refl, ==_iff,
}
use radio_robot_lib.Prelude.Int.{ℤ}
use radio_robot_lib.Python.Error.{ok}
use radio_robot_lib.RobotV6.Session.{Session}
use radio_robot_lib.Rogo.Client.{RemoteCall, request_of}
use radio_robot_lib.Rogo.Client.Remote.{
  Caller, Ended, fails, read_answer, read_reply_line, reply_lines, wire_deadline, wire_timeout,
  call_within, remote_call, serve_decoded,
}
use radio_robot_lib.Rogo.Client.Remote.Answers.{receive_reply, prompt_call}
use radio_robot_lib.Rogo.Client.Table.{Host}
use radio_robot_lib.Rogo.Client.Wire.{
  Answer, unavailable, is_late, take_reply, take_lines, or_next, call_loop,
}
use radio_robot_lib.Rogo.Json.{Json}
use radio_robot_lib.Rogo.Protocol.{
  Reply, encode_request, decode_request, encode_reply, decode_reply,
}

-- None of `n` looks from the look `i` on finds the deadline reached.
unfoldable pub is_in_time : Caller → Option ℕ → ℕ → ℕ → Bool
is_in_time k deadline zero i = true
is_in_time k deadline (suc n) i =
    not (is_late deadline (k.monotonic i)) && is_in_time k deadline n (suc i)

-- How a call with this timeout ends, where `o` is what the reply comes to whenever it comes: so, if
-- the looks up to the one that finds the reply are in time, and by `DaemonUnavailableError` else; and
-- without a reply not in `looks` looks, or by that error.
unfoldable pub awaited : Caller → Option ℕ → Option Ended → Option Ended
awaited k timeout none =
    if is_in_time k (wire_deadline k timeout) k.looks 0 then none else some (fails unavailable)
awaited k timeout (some ended) =
    if is_in_time k (wire_deadline k timeout) (suc k.replied_at) 0
    then some ended
    else some (fails unavailable)

module _ (k : Caller) (request_id : ℤ) (deadline : Option ℕ) where
  -- Without a line that answers.
  silent :
      (lines : ℕ → List (Option Json))
      → ((i : ℕ) → take_lines request_id (lines i) ≡ none)
      → (fuel i : ℕ)
      → call_loop k.monotonic lines request_id fuel i deadline
        ≡ (if is_in_time k deadline fuel i then none else some unavailable)
  unfolding call_loop is_in_time or_next
  silent lines nothing zero i = refl
  silent lines nothing (suc fuel) i = elim (Bool-cases (is_late deadline (k.monotonic i))) [
    | inl late ↦ rw late refl
    | inr early ↦ rw (early, nothing i) (silent lines nothing fuel (suc i))
  ]

  -- With a line that answers at the look `gap` looks after `i`, and none before.
  answered :
      (lines : ℕ → List (Option Json)) (answer : Answer)
      → take_lines request_id (lines k.replied_at) ≡ some answer
      → ((i : ℕ) → i < k.replied_at → take_lines request_id (lines i) ≡ none)
      → (gap fuel i : ℕ) → i + gap ≡ k.replied_at
      → gap < fuel
      → call_loop k.monotonic lines request_id fuel i deadline
        ≡ (if is_in_time k deadline (suc gap) i then some answer else some unavailable)
  unfolding call_loop is_in_time or_next
  answered lines answer here before gap zero i at enough = absurd (omega arith)
  answered lines answer here before zero (suc fuel) i at enough =
      let now : take_lines request_id (lines i) ≡ some answer =
        ap (λ j. take_lines request_id (lines j)) (omega (arith, at)) ∙ here in
      elim (Bool-cases (is_late deadline (k.monotonic i))) [
        | inl late ↦ rw late refl
        | inr early ↦ rw (early, now) refl
      ]
  answered lines answer here before (suc gap) (suc fuel) i at enough =
      elim (Bool-cases (is_late deadline (k.monotonic i))) [
        | inl late ↦ rw late refl
        | inr early ↦
            rw (early, before i (omega arith))
              (answered lines answer here before gap fuel (suc i) (omega arith) (omega arith))
      ]

or_next-none : (o : Option Answer) → or_next o none ≡ o
unfolding or_next
or_next-none none = refl
or_next-none (some answer) = refl

module _ (k : Caller) (request_id : ℤ) (reply : Reply) where
  abbrev taken : Option Answer
  taken = take_reply request_id (decode_reply (some (encode_reply reply)))

  at_reply : take_lines request_id (reply_lines k (some reply) k.replied_at) ≡ taken
  unfolding reply_lines take_lines
  at_reply = rw (==_refl k.replied_at) (or_next-none taken)

  off_reply :
      (i : ℕ)
      → (i == k.replied_at) ≡ false
      → take_lines request_id (reply_lines k (some reply) i) ≡ none
  unfolding reply_lines take_lines
  off_reply i other = rw other refl

  nothing_taken :
      taken ≡ none → (i : ℕ) → take_lines request_id (reply_lines k (some reply) i) ≡ none
  nothing_taken e i = elim (Bool-cases (i == k.replied_at)) [
    | inl here ↦
        ap (λ j. take_lines request_id (reply_lines k (some reply) j))
          ((==_iff i k.replied_at).0 here)
        ∙ at_reply
        ∙ e
    | inr elsewhere ↦ off_reply i elsewhere
  ]

module _ (k : Caller) (request_id : ℤ) (call : RemoteCall) (timeout : Option ℕ) where
  silent-awaited :
      (lines : ℕ → List (Option Json))
      → ((i : ℕ) → take_lines request_id (lines i) ≡ none)
      → read_reply_line call
          (call_loop k.monotonic lines request_id k.looks 0 (wire_deadline k timeout))
        ≡ awaited k timeout none
  unfolding awaited read_reply_line read_answer
  silent-awaited lines nothing =
      rw (silent k request_id (wire_deadline k timeout) lines nothing k.looks 0)
        (elim (Bool-cases (is_in_time k (wire_deadline k timeout) k.looks 0)) [
          | inl early ↦ rw early refl
          | inr late ↦ rw late refl
        ])

  reply-awaited :
      (reply : Reply) (o : Option Answer)
      → taken k request_id reply ≡ o
      → k.replied_at < k.looks
      → read_reply_line call (
          call_loop k.monotonic
            (reply_lines k (some reply))
            request_id
            k.looks
            0
            (wire_deadline k timeout))
        ≡ awaited k timeout (read_reply_line call o)
  unfolding awaited read_reply_line read_answer
  reply-awaited reply none e enough =
      silent-awaited (reply_lines k (some reply)) (nothing_taken k request_id reply e)
  reply-awaited reply (some answer) e enough =
      rw
        (answered k request_id (wire_deadline k timeout) (reply_lines k (some reply)) answer
          (at_reply k request_id reply ∙ e)
          (λ i less. off_reply k request_id reply i (ground (arith, less))) k.replied_at k.looks 0
          (omega arith) enough)
        (elim (Bool-cases (is_in_time k (wire_deadline k timeout) (suc k.replied_at) 0)) [
          | inl early ↦ rw early refl
          | inr late ↦ rw late refl
        ])

  received-awaited :
      (o : Option Reply)
      → k.replied_at < k.looks
      → read_reply_line call
          (call_loop k.monotonic (reply_lines k o) request_id k.looks 0 (wire_deadline k timeout))
        ≡ awaited k timeout (receive_reply request_id call o)
  unfolding reply_lines take_lines receive_reply
  received-awaited none enough = silent-awaited (reply_lines k none) (λ i. refl)
  received-awaited (some reply) enough = reply-awaited reply (taken k request_id reply) refl enough

  -- The deadline is all that the call adds.
  pub remote_call-prompt_call :
      (h : Host) (s : Session)
      → wire_timeout k call ≡ ok timeout
      → k.replied_at < k.looks
      → remote_call h k request_id call s ≡ (
        awaited k timeout (prompt_call h request_id call s).0,
        (prompt_call h request_id call s).1,
      )
  unfolding remote_call call_within prompt_call
  remote_call-prompt_call h s allowed enough =
      let served =
        serve_decoded h (decode_request (encode_request (request_of request_id call))) s in
      ap (λ r. call_within h k request_id call r s) allowed
      ∙ ap (λ o. (o, served.1)) (received-awaited served.0 enough)
