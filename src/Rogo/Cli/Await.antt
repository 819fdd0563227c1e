-- ===== src/Rogo/Cli/Await.antt =====
-- `_await_ack_and_err` and `_await_ack_and_get_lines` of src/host/rogo/cli.py, which
-- src/host/rogo/mcp_server.py has once more, and what the motion commands report after them.
use radio_robot_lib.Prelude.{
  ℕ, zero, suc, ◌+◌, ◌==◌, ◌&&◌, Bool, true, false, Option, none, some, List, [], ◌∷◌, ◌++◌, leb,
  ltb,
}
use radio_robot_lib.Prelude.Text.{Text, codes, text_eq}
use radio_robot_lib.Python.Exec.{Exec, pure, ◌>>=◌}
use radio_robot_lib.RobotV6.Codec.{Reply}
use radio_robot_lib.RobotV6.Session.{World, Session, monotonic, pump}
use radio_robot_lib.RobotV6.Session.Waiting.{DoneEvent, wait_for_done}
use radio_robot_lib.Rogo.Pumping.{pump_until, ◌>>?◌}
use radio_robot_lib.Rogo.Cli.{
  Ran, exit_with, not_acked, soft_warning, never_completed, done, detail_of, default_timeout,
}

-- `lambda rs: session.highest_acked >= seq_id`
unfoldable pub is_acked : ℕ → List Reply → Session → Bool
is_acked seq_id replies s = leb seq_id s.highest_acked

unfoldable pub has_id : Option ℕ → ℕ → Bool
has_id none seq_id = false
has_id (some id) seq_id = id == seq_id

-- `next((r for r in replies if r.verb == "err" and r.id == seq_id), None)`
unfoldable pub find_err : ℕ → List Reply → Option Reply
unfolding has_id
find_err seq_id [] = none
find_err seq_id (reply ∷ replies) =
    let later = find_err seq_id replies in
    elim (text_eq reply.verb (codes "err") && has_id reply.id seq_id) [
      | true ↦ some reply
      | false ↦ later
    ]

-- `[r for r in replies if r.verb == "get"]`
unfoldable pub get_lines : List Reply → List Reply
get_lines [] = []
get_lines (reply ∷ replies) =
    let rest = get_lines replies in
    elim (text_eq reply.verb (codes "get")) [ true ↦ reply ∷ rest | false ↦ rest ]

module _ (w : World) where
  -- The extra `pump` only if the id is acknowledged.
  unfoldable pub grace : ℕ → List Reply → Bool → Exec Session (Option (Bool × Option Reply))
  grace seq_id replies true = do
    more ← pump w
    pure (some (true, find_err seq_id (replies ++ more)))
  grace seq_id replies false = pure (some (false, find_err seq_id replies))

  unfoldable pub after_replies : ℕ → List Reply → Exec Session (Option (Bool × Option Reply))
  unfolding grace
  after_replies seq_id replies s = grace seq_id replies (is_acked seq_id replies s) s

  unfoldable pub await_ack_and_err : ℕ → ℕ → Exec Session (Option (Bool × Option Reply))
  unfolding after_replies
  await_ack_and_err fuel seq_id =
      pump_until w (is_acked seq_id) fuel default_timeout >>? after_replies seq_id

  -- `if new_get:` extends the deadline
  unfoldable pub extended : ℕ → List Reply → Exec Session ℕ
  extended deadline [] = pure deadline
  extended deadline (reply ∷ new_get) = do now ← monotonic w; pure (now + 300)

  unfoldable pub drain_early :
      List Reply → Exec Session (Option (List Reply)) → Bool → Exec Session (Option (List Reply))
  drain_early get_replies body true = body
  drain_early get_replies body false = pure (some get_replies)

  -- Until `_GET_DRAIN_IDLE` of silence.
  unfoldable pub drain_gets : ℕ → ℕ → List Reply → Exec Session (Option (List Reply))
  unfolding extended drain_early
  drain_gets zero deadline get_replies = pure none
  drain_gets (suc fuel) deadline get_replies = do
    now ← monotonic w
    drain_early get_replies
        (do
          new_replies ← pump w
          later ← extended deadline (get_lines new_replies)
          drain_gets fuel later (get_replies ++ get_lines new_replies))
        (ltb now deadline)

  unfoldable pub lines_after : ℕ → List Reply → Bool → Exec Session (Option (Bool × List Reply))
  lines_after fuel replies true =
      (do now ← monotonic w; drain_gets fuel (now + 300) (get_lines replies)) >>? λ get_replies.
      pure (some (true, get_replies))
  lines_after fuel replies false = pure (some (false, []))

  unfoldable pub await_ack_and_get_lines : ℕ → ℕ → Exec Session (Option (Bool × List Reply))
  unfolding lines_after
  await_ack_and_get_lines fuel seq_id =
      pump_until w (is_acked seq_id) fuel default_timeout >>? λ replies s.
      lines_after fuel replies (is_acked seq_id replies s) s

  -- The tail that `_cmd_drive_ms`, `_cmd_drive_mm`, `_run_turn` and `_run_goto` each have.
  unfoldable pub report_done : Text → ℕ → Option DoneEvent → Ran
  report_done verb seq_id none = exit_with 1 (never_completed verb seq_id)
  report_done verb seq_id (some event) = exit_with 0 (done verb seq_id event.reason)

  unfoldable pub report_ack : Text → ℕ → ℕ → ℕ → Bool × Option Reply → Exec Session (Option Ran)
  unfolding report_done
  report_ack verb fuel seq_id timeout (false, reply) =
      pure (some (exit_with 1 (not_acked verb seq_id)))
  report_ack verb fuel seq_id timeout (true, some reply) =
      pure (some (exit_with 0 (soft_warning verb seq_id (detail_of reply))))
  report_ack verb fuel seq_id timeout (true, none) =
      wait_for_done w fuel seq_id (some timeout) >>? λ event.
      pure (some (report_done verb seq_id event))

  unfoldable pub report_motion : Text → ℕ → ℕ → ℕ → Exec Session (Option Ran)
  unfolding report_ack
  report_motion verb fuel timeout seq_id =
      await_ack_and_err fuel seq_id >>? report_ack verb fuel seq_id timeout
