-- ===== src/Tests/Target.antt =====
-- The build of the simulator at concrete inputs.
use radio_robot_lib.Prelude.{
  ℕ, ◌≡◌, Bool, true, false, Option, none, some, [], ◌∷◌, arith, ap, subst, max,
}
use radio_robot_lib.Rogo.Target.Choice.{IsCurrent}
use radio_robot_lib.Rogo.Target.Simulator.{
  Tree, Compiled, returned, sources, ensure_sim_binary, IsBuilt, ensure_sim_binary-IsBuilt,
}

-- A compiler that succeeds, in the moment of the last change of a source.
abbrev latest : Option ℕ → Option ℕ → ℕ
latest none none = 0
latest none (some b) = b
latest (some a) none = a
latest (some a) (some b) = max a b

abbrev compiler : Tree → Compiled × Option ℕ
compiler t = (returned 0, some (latest t.sim_main t.protocol_src))

latest-IsCurrent : (a b : Option ℕ) → IsCurrent (some (latest a b)) (a ∷ b ∷ [])
latest-IsCurrent none none = (tt, (tt, tt))
latest-IsCurrent none (some b) = (tt, (omega arith, tt))
latest-IsCurrent (some a) none = (omega arith, (tt, tt))
latest-IsCurrent (some a) (some b) = (omega arith, (omega arith, tt))

compiler_makes :
    (t : Tree) (exe : Option ℕ) → compiler t ≡ (returned 0, exe) → IsCurrent exe (sources t)
compiler_makes t exe e =
    subst (λ (o : Option ℕ). IsCurrent o (sources t)) (ap (λ (p : Compiled × Option ℕ). p.1) e)
      (latest-IsCurrent t.sim_main t.protocol_src)

abbrev mkdir : Tree → Bool
mkdir t = true

abbrev tree : Tree
tree = record { sim_main = some 5; protocol_src = some 8; build_dir = false; exe = some 6 }

ensure_sim_binary-IsBuilt_example :
    IsBuilt mkdir compiler tree
      (ensure_sim_binary mkdir compiler tree).1
      (ensure_sim_binary mkdir compiler tree).0
ensure_sim_binary-IsBuilt_example = ensure_sim_binary-IsBuilt mkdir compiler compiler_makes tree
