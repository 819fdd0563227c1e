-- ===== src/Rogo/Pumping.antt =====
-- `_pump_until` of src/host/rogo/cli.py and of src/host/rogo/mcp_server.py, which is the same code
-- twice. Loops run on fuel: `none` is a loop that was cut off. Times are in milliseconds.
pub mod Ending
use radio_robot_lib.Prelude.{
  ℕ, zero, suc, ◌+◌, Bool, true, false, Option, none, some, List, [], ◌∷◌, ◌++◌, ltb,
}
use radio_robot_lib.Python.Exec.{Exec, pure, ◌>>=◌}
use radio_robot_lib.RobotV6.Codec.{Reply}
use radio_robot_lib.RobotV6.Session.{World, Session, monotonic, pump}

-- What comes after a loop that may have been cut off.
abbrev pub unless_cut :
    {A B : Type 0} → (A → Exec Session (Option B)) → Option A → Exec Session (Option B)
unless_cut next none = pure none
unless_cut next (some a) = next a

infixl 5 ◌>>?◌
abbrev pub ◌>>?◌ :
    {A B : Type 0}
    → Exec Session (Option A)
    → (A → Exec Session (Option B))
    → Exec Session (Option B)
first >>? next = first >>= unless_cut next

module _ (w : World) where
  -- `break` at a test that passes
  unfoldable pub stop_or :
      List Reply → Exec Session (Option (List Reply)) → Bool → Exec Session (Option (List Reply))
  stop_or collected rest true = pure (some collected)
  stop_or collected rest false = rest

  -- `while time.monotonic() < deadline`
  unfoldable pub while_early :
      List Reply → Exec Session (Option (List Reply)) → Bool → Exec Session (Option (List Reply))
  while_early collected body true = body
  while_early collected body false = pure (some collected)

  -- The predicate of the callers reads the replies so far, or the session.
  unfoldable pub pump_rounds :
      (List Reply → Session → Bool) → ℕ → ℕ → List Reply → Exec Session (Option (List Reply))
  unfolding stop_or while_early
  pump_rounds predicate zero deadline collected = pure none
  pump_rounds predicate (suc fuel) deadline collected = do
    now ← monotonic w
    while_early collected
        (do
          replies ← pump w
          passed ← λ s. pure (predicate (collected ++ replies) s) s
          stop_or (collected ++ replies)
              (pump_rounds predicate fuel deadline (collected ++ replies)) passed)
        (ltb now deadline)

  unfoldable pub pump_until :
      (List Reply → Session → Bool) → ℕ → ℕ → Exec Session (Option (List Reply))
  pump_until predicate fuel timeout = do
    now ← monotonic w
    pump_rounds predicate fuel (now + timeout) []
