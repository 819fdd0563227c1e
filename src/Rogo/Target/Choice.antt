-- ===== src/Rogo/Target/Choice.antt =====
-- Which target src/host/rogo/connection.py comes to.
use radio_robot_lib.Prelude.{
  ℕ, ◌≡◌, ◌≢◌, refl, Bool, true, false, Option, none, some, List, [], ◌∷◌, ◌++◌, arith, All, ◌+◌,
  ◌≤◌,
}
use radio_robot_lib.Prelude.Text.{Text}
use radio_robot_lib.Python.Decimal.{IsDigit, str_ℕ, isdigit-str_ℕ, int_ℕ-str_ℕ, str_ℕ-IsDigit}
use radio_robot_lib.Rogo.Target.{
  Arguments, Target, stdio, socket, serial, refused, several, nothing_chosen, bad_address,
  rpartition, port_number, split_host_port, given, count, chosen_target, resolve_transport,
  socket_target, is_newer, any_newer, needs_rebuild,
}

rpartition-digits : (t : Text) → All IsDigit t → rpartition t ≡ none
unfolding rpartition
rpartition-digits [] h = refl
rpartition-digits (c ∷ t) (d, h) =
    let rest = rpartition-digits t h in rw (rest, rpartition) (ground (arith, d))

rpartition-last : (host t : Text) → All IsDigit t → rpartition (host ++ b':' ∷ t) ≡ some (host, t)
unfolding rpartition
rpartition-last [] t h = rw (rpartition-digits t h, rpartition) refl
rpartition-last (c ∷ host) t h = rw (rpartition-last host t h, rpartition) refl

-- An address is split where it was joined: any host that is not empty, colons in it included, and
-- any port number.
pub split_host_port-append :
    (host : Text) (n : ℕ) → host ≢ [] → split_host_port (host ++ b':' ∷ str_ℕ n) ≡ some (host, n)
unfolding split_host_port port_number
split_host_port-append [] n ne = absurd (ne refl)
split_host_port-append (c ∷ host) n ne =
    rw
      (
        rpartition-last (c ∷ host) (str_ℕ n) (str_ℕ-IsDigit n),
        split_host_port,
        isdigit-str_ℕ n,
        int_ℕ-str_ℕ n,
      )
      refl

-- What the arguments are when this is the target.
abbrev pub IsFor : Arguments → Target → Type 0
IsFor args stdio = (args.sim ≡ true) × (given args.connect ≡ false) × (given args.port ≡ false)
IsFor args (socket host tcp_port) =
    (args.sim ≡ false)
    × (given args.port ≡ false)
    × (c : Text) × (args.connect ≡ some c)
    × (split_host_port c ≡ some (host, tcp_port))
IsFor args (serial port) =
    (args.sim ≡ false) × (given args.connect ≡ false) × (args.port ≡ some port)
IsFor args (refused several) =
    2 ≤ count args.sim + count (given args.connect) + count (given args.port)
IsFor args (refused nothing_chosen) =
    (args.sim ≡ false) × (given args.connect ≡ false) × (given args.port ≡ false)
IsFor args (refused bad_address) =
    (args.sim ≡ false) × (c : Text) × (args.connect ≡ some c) × (split_host_port c ≡ none)

abbrev arguments : Bool → Option Text → Option Text → Arguments
arguments sim connect port = record { sim = sim; connect = connect; port = port }

address-IsFor :
    (c : Text) (port : Option Text) (o : Option (Text × ℕ))
    → given port ≡ false
    → split_host_port c ≡ o
    → IsFor (arguments false (some c) port) (socket_target o)
unfolding socket_target
address-IsFor c port none absent e = (refl, c, refl, e)
address-IsFor c port (some (host, tcp_port)) absent e = (refl, absent, c, refl, e)

parts-IsFor :
    (sim : Bool) (connect port : Option Text)
    → IsFor (arguments sim connect port) (resolve_transport (arguments sim connect port))
unfolding resolve_transport chosen_target given count
parts-IsFor true none none = (refl, refl, refl)
parts-IsFor true none (some []) = (refl, refl, refl)
parts-IsFor true none (some (p ∷ port)) = omega arith
parts-IsFor true (some []) none = (refl, refl, refl)
parts-IsFor true (some []) (some []) = (refl, refl, refl)
parts-IsFor true (some []) (some (p ∷ port)) = omega arith
parts-IsFor true (some (c ∷ connect)) none = omega arith
parts-IsFor true (some (c ∷ connect)) (some []) = omega arith
parts-IsFor true (some (c ∷ connect)) (some (p ∷ port)) = omega arith
parts-IsFor false none none = (refl, refl, refl)
parts-IsFor false none (some []) = (refl, refl, refl)
parts-IsFor false none (some (p ∷ port)) = (refl, refl, refl)
parts-IsFor false (some []) none = (refl, refl, refl)
parts-IsFor false (some []) (some []) = (refl, refl, refl)
parts-IsFor false (some []) (some (p ∷ port)) = (refl, refl, refl)
parts-IsFor false (some (c ∷ connect)) none = address-IsFor (c ∷ connect) none _ refl refl
parts-IsFor false (some (c ∷ connect)) (some []) = address-IsFor (c ∷ connect) (some []) _ refl refl
parts-IsFor false (some (c ∷ connect)) (some (p ∷ port)) = omega arith

-- A target is chosen only if it alone was asked for: the simulator by its flag, a socket by an
-- address that splits into its host and port, a serial port by its name. An empty text asks for
-- nothing. More than one is refused as such, and none too.
pub resolve_transport-IsFor : (args : Arguments) → IsFor args (resolve_transport args)
resolve_transport-IsFor args = parts-IsFor args.sim args.connect args.port

abbrev pub IsOld : ℕ → Option ℕ → Type 0
IsOld exe_mtime none = Unit
IsOld exe_mtime (some mtime) = mtime ≤ exe_mtime

-- The binary is there, and no source that is there is newer.
abbrev pub IsCurrent : Option ℕ → List (Option ℕ) → Type 0
IsCurrent none sources = ⊥
IsCurrent (some exe_mtime) sources = All (IsOld exe_mtime) sources

not_newer : (m : ℕ) (source : Option ℕ) → is_newer m source ≡ false → IsOld m source
unfolding is_newer
not_newer m none h = tt
not_newer m (some mtime) h = ground (arith, h)

none_newer :
    (m : ℕ) (sources : List (Option ℕ)) → any_newer m sources ≡ false → All (IsOld m) sources
unfolding any_newer
none_newer m [] h = tt
none_newer m (source ∷ sources) h =
    (not_newer m source (ground (arith, h)), none_newer m sources (ground (arith, h)))

-- The simulator is left as it is only if it is there and no source that is there is newer.
pub needs_rebuild-IsCurrent :
    (exe : Option ℕ) (sources : List (Option ℕ))
    → needs_rebuild exe sources ≡ false
    → IsCurrent exe sources
unfolding needs_rebuild
needs_rebuild-IsCurrent none sources h = absurd (cc)
needs_rebuild-IsCurrent (some exe_mtime) sources h = none_newer exe_mtime sources h
