-- ===== src/Rogo/Naming/Found.antt =====
-- The search for a robot's name, in src/host/rogo/daemon.py, ends, and with a name that can be used.
use radio_robot_lib.Prelude.{
  ℕ, zero, suc, ◌+◌, ◌≤◌, ◌<◌, ◌≡◌, ◌≢◌, refl, Bool, true, false, ◌||◌, Option, none, some, List,
  [], ◌∷◌, ltb, ltb→lt, ltb-false, arith, Bool-cases, inl, inr,
}
use radio_robot_lib.Prelude.Text.{Text, codes, text_eq}
use radio_robot_lib.Python.Error.{Result, ok, err}
use radio_robot_lib.Python.Exec.{Exec, bind_outcome}
use radio_robot_lib.RobotV6.Codec.{Reply}
use radio_robot_lib.RobotV6.Session.{
  World, Session, monotonic, send_unsequenced, pump, hello, transmit, on_transport, is_unsequenced,
}
use radio_robot_lib.RobotV6.Codec.{encode_command, format_fields}
use radio_robot_lib.RobotV6.Transport.{send_line, is_ascii}
use radio_robot_lib.RobotV6.Session.Sending.{write}
use radio_robot_lib.Python.Split.{contains, join}
use radio_robot_lib.RobotV6.Session.Progress.{IsMonotonic, Advances-stable, Advances-refl}
use radio_robot_lib.RobotV6.Session.Stable.{pump-Keeps}
use radio_robot_lib.Rogo.Naming.{
  find_device, name_of_fields, usable, unless_device, while_early, identified, name_of_banner,
  collect, hello_identify_name, unless_found, resolve_robot_name,
}

-- A name that can be used: not empty.
abbrev IsNamed : Option Text → Type 0
IsNamed none = Unit
IsNamed (some name) = name ≢ []

usable-IsNamed :
    (name : Text) (b : Bool) → text_eq name [] || b ≡ false → IsNamed (usable name false)
unfolding usable text_eq
usable-IsNamed [] b h = absurd (cc)
usable-IsNamed (c ∷ name) b h = λ e. cc

tested-IsNamed :
    (name : Text) (b : Bool)
    → (text_eq name [] || text_eq name (codes "?")) ≡ b
    → IsNamed (usable name b)
unfolding usable
tested-IsNamed name true h = tt
tested-IsNamed name false h = usable-IsNamed name _ h

name_of_fields-IsNamed : (fields : List Text) → IsNamed (name_of_fields fields)
unfolding name_of_fields
name_of_fields-IsNamed [] = tt
name_of_fields-IsNamed (a ∷ []) = tt
name_of_fields-IsNamed (a ∷ b ∷ []) = tt
name_of_fields-IsNamed (a ∷ b ∷ name ∷ rest) = tested-IsNamed name _ refl

name_of_banner-IsNamed : (banner : Option Reply) → IsNamed (name_of_banner banner)
unfolding name_of_banner
name_of_banner-IsNamed none = tt
name_of_banner-IsNamed (some banner) = name_of_fields-IsNamed banner.fields

-- Not cut off.
abbrev Ends : {A : Type 0} → Result (Option A) × Session → Type 0
Ends (err e, s) = Unit
Ends (ok none, s) = ⊥
Ends (ok (some a), s) = Unit

abbrev tick : Session → Session
tick s = record s { clock_reads = suc s.clock_reads }

abbrev Later : {A : Type 0} → Session → Result A × Session → Type 0
Later s x = s.clock_reads ≤ x.1.clock_reads

module _ (w : World) (steady : IsMonotonic w) (deadline k : ℕ)
    (reached : deadline ≤ w.monotonic k) where
  pumped-Ends :
      (replies : List Reply) (rest : Exec Session (Option (List Reply))) (o : Option Reply)
      (s : Session)
      → Ends (rest s)
      → Ends (unless_device w replies rest o s)
  unfolding unless_device
  pumped-Ends replies rest (some banner) s h = tt
  pumped-Ends replies rest none s h = h

  ahead : (c : ℕ) → ltb (w.monotonic c) deadline ≡ true → c < k
  ahead c h = elim (Bool-cases (ltb c k)) [
    | inl below ↦ ltb→lt c k below
    | inr above ↦ absurd (ground (arith, steady k c (ltb-false c k above)))
  ]

  early-Ends :
      (body : Exec Session (Option (List Reply))) (b : Bool) (s : Session)
      → (b ≡ true → Ends (body s))
      → Ends (while_early w body b s)
  unfolding while_early
  early-Ends body true s h = h refl
  early-Ends body false s h = tt

  collect-Ends :
      (fuel : ℕ) (s : Session)
      → 0 < fuel
      → k < fuel + s.clock_reads
      → Ends (collect w fuel deadline s)
  unfolding collect monotonic
  collect-Ends zero s h enough = absurd (omega arith)
  collect-Ends (suc fuel) s h enough =
      early-Ends _ (ltb (w.monotonic s.clock_reads) deadline) (tick s) λ early.
        bind_outcome (Later (tick s)) Ends
          (λ replies. unless_device w replies (collect w fuel deadline) (find_device replies))
          (pump w (tick s)) (λ e t. tt)
          (λ replies t later.
            pumped-Ends replies (collect w fuel deadline) (find_device replies) t (
              collect-Ends fuel t (omega (arith, ahead s.clock_reads early))
                (omega (arith, later))))
          (pump-Keeps (Advances-stable (tick s)) w (tick s) (Advances-refl (tick s))).clocks

-- What a search may come to.
abbrev pub Named : Bool → Result (Option (Option Text)) × Session → Type 0
Named sim (err e, s) = Unit
Named sim (ok none, s) = ⊥
Named sim (ok (some none), s) = sim ≡ false
Named sim (ok (some (some name)), s) = name ≢ []

hello_sent :
    (s : Session)
    → send_unsequenced hello [] s
      ≡ (ok tt, record s { transport = write (codes "HELLO") s.transport })
unfolding send_unsequenced is_unsequenced text_eq encode_command format_fields contains transmit
    on_transport send_line is_ascii join
hello_sent s = refl

abbrev Identified : Result (Option (Option Text)) × Session → Type 0
Identified (err e, s) = Unit
Identified (ok none, s) = ⊥
Identified (ok (some o), s) = IsNamed o

identified-Identified :
    (w : World) (o : Option (List Reply)) (s : Session)
    → Ends (ok o, s)
    → Identified (ok (identified w o), s)
unfolding identified
identified-Identified w none s h = h
identified-Identified w (some replies) s h = name_of_banner-IsNamed (find_device replies)

unless_found-Named :
    (w : World) (sim : Bool) (default_sim_name : Text) (o : Option (Option Text)) (s : Session)
    → default_sim_name ≢ []
    → Identified (ok o, s)
    → Named sim (ok (unless_found w sim default_sim_name o), s)
unfolding unless_found
unless_found-Named w sim default_sim_name none s named h = h
unless_found-Named w sim default_sim_name (some (some name)) s named h = h
unless_found-Named w true default_sim_name (some none) s named h = named
unless_found-Named w false default_sim_name (some none) s named h = refl

module _ (w : World) (fuel timeout k : ℕ) (s : Session) (steady : IsMonotonic w)
    (reached : w.monotonic s.clock_reads + timeout ≤ w.monotonic k) (some_fuel : 0 < fuel)
    (enough : k ≤ fuel + s.clock_reads) where
  hello-Identified : Identified (hello_identify_name w fuel timeout s)
  unfolding hello_identify_name monotonic
  hello-Identified =
      rw (hello_sent s, hello_identify_name, monotonic)
        (let asked = record s {
          transport = write (codes "HELLO") s.transport;
          clock_reads = suc s.clock_reads;
        } in
          bind_outcome Ends Identified _
            (collect w fuel (w.monotonic s.clock_reads + timeout) asked) (λ e t. tt)
            (identified-Identified w)
            (collect-Ends w steady (w.monotonic s.clock_reads + timeout) k reached fuel asked
              some_fuel (omega arith)))

  -- The search for a name always ends, if the clock never goes back and reaches the deadline at its
  -- reading `k`. Unless something is raised on the way, it comes to a name that is not empty, given
  -- that the default is not, or, only for a real robot, to no name.
  pub resolve_robot_name-Named :
      (override : Option Text) (sim : Bool) (default_sim_name : Text)
      → default_sim_name ≢ []
      → Named sim (resolve_robot_name w fuel override sim default_sim_name timeout s)
  unfolding resolve_robot_name
  resolve_robot_name-Named (some (c ∷ name)) sim default_sim_name named = λ e. cc
  resolve_robot_name-Named (some []) sim default_sim_name named =
      bind_outcome Identified (Named sim) _ (hello_identify_name w fuel timeout s) (λ e t. tt)
        (λ o t. unless_found-Named w sim default_sim_name o t named) hello-Identified
  resolve_robot_name-Named none sim default_sim_name named =
      bind_outcome Identified (Named sim) _ (hello_identify_name w fuel timeout s) (λ e t. tt)
        (λ o t. unless_found-Named w sim default_sim_name o t named) hello-Identified
