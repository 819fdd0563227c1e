-- ===== src/Rogo/Target.antt =====
-- src/host/rogo/connection.py: which transport the arguments ask for, and whether the simulator has
-- to be built first. Opening a transport is I/O: the result names it.
pub mod Choice
pub mod Simulator
use radio_robot_lib.Prelude.{
  ℕ, ◌≡◌, ◌≢◌, refl, ap, sym, Bool, true, false, ◌&&◌, ◌||◌, not, Option, none, some, List, [], ◌∷◌,
  ◌++◌, ◌==◌, ltb, if◌then◌else◌, Bool-cases, inl, inr, arith, length, ◌+◌,
}
use radio_robot_lib.Prelude.Text.{Text, codes, text_eq}
use radio_robot_lib.Python.Decimal.{isdigit, int_ℕ, str_ℕ, isdigit-str_ℕ, int_ℕ-str_ℕ}
use radio_robot_lib.Python.Split.{contains}

-- `getattr(args, ..., default)` of the three flags
pub record Arguments : Type 0 where
  pub sim : Bool
  pub connect : Option Text
  pub port : Option Text

pub data TargetError : Type 0 where
  several nothing_chosen bad_address : TargetError

pub data Target : Type 0 where
  stdio : Target
  socket : Text → ℕ → Target
  serial : Text → Target
  refused : TargetError → Target

-- `value.rpartition(":")`: the parts around the last colon, if there is one.
unfoldable pub rpartition : Text → Option (Text × Text)
rpartition [] = none
rpartition (c ∷ t) = elim (rpartition t) [
  | some (host, port_text) ↦ some (c ∷ host, port_text)
  | none ↦ if c == b':' then some ([], t) else none
]

unfoldable pub port_number : Text → Text → Option (Text × ℕ)
port_number [] port_text = none
port_number (c ∷ host) port_text =
    if isdigit port_text
    then elim (int_ℕ port_text) [ none ↦ none | some n ↦ some (c ∷ host, n) ]
    else none

-- `none` is a `TargetError`.
unfoldable pub split_host_port : Text → Option (Text × ℕ)
unfolding rpartition port_number
split_host_port value = elim (rpartition value) [
  | none ↦ none
  | some (host, port_text) ↦ port_number host port_text
]

-- The truth of a text that may be missing.
unfoldable pub given : Option Text → Bool
given (some (c ∷ t)) = true
given _ = false

unfoldable pub count : Bool → ℕ
count b = if b then 1 else 0

unfoldable pub socket_target : Option (Text × ℕ) → Target
socket_target none = refused bad_address
socket_target (some (host, tcp_port)) = socket host tcp_port

unfoldable pub chosen_target : Arguments → Target
unfolding socket_target split_host_port given
chosen_target args = if args.sim then stdio else chosen_address args.connect args.port
  where
    serial_or : Option Text → Target
    serial_or (some (c ∷ port)) = serial (c ∷ port)
    serial_or _ = refused nothing_chosen

    chosen_address : Option Text → Option Text → Target
    chosen_address (some (c ∷ connect)) port = socket_target (split_host_port (c ∷ connect))
    chosen_address _ port = serial_or port

unfoldable pub resolve_transport : Arguments → Target
unfolding count given chosen_target
resolve_transport args =
    if ltb 1 (count args.sim + count (given args.connect) + count (given args.port))
    then refused several
    else chosen_target args

-- A file is its modification time, if it exists.
unfoldable pub is_newer : ℕ → Option ℕ → Bool
is_newer exe_mtime none = false
is_newer exe_mtime (some mtime) = ltb exe_mtime mtime

unfoldable pub any_newer : ℕ → List (Option ℕ) → Bool
any_newer exe_mtime [] = false
any_newer exe_mtime (source ∷ sources) = is_newer exe_mtime source || any_newer exe_mtime sources

unfoldable pub needs_rebuild : Option ℕ → List (Option ℕ) → Bool
unfolding is_newer any_newer
needs_rebuild none sources = true
needs_rebuild (some exe_mtime) sources = any_newer exe_mtime sources
