-- ===== src/Rogo/Client/Policy.antt =====
-- `get_connection` of src/host/rogo/daemon_client.py: what it does, in order, and what it comes to.
-- Whether a daemon answers, whether a spawned one becomes reachable in time and whether the process
-- still runs after that are decided outside.
use radio_robot_lib.Prelude.{
  ◌≡◌, Bool, true, false, Option, none, some, List, [], ◌∷◌, if◌then◌else◌, Bool-cases, inl, inr,
  All,
}
use radio_robot_lib.Prelude.Text.{Text}
use radio_robot_lib.Rogo.Naming.{resolve_client_name}

pub record Outside : Type 0 where
  pub answers : Text → Bool
  pub becomes_reachable : Text → Bool
  pub still_runs : Text → Bool

pub data Step : Type 0 where
  looks_for spawns waits_for terminates : Text → Step
  connects : Step

pub data Obtained : Type 0 where
  daemon : Text → Obtained
  direct name_required unavailable : Obtained

unfoldable pub spawn_daemon : Outside → Text → List Step × Obtained
spawn_daemon outside name =
    if outside.becomes_reachable name
    then (spawns name ∷ waits_for name ∷ [], daemon name)
    else if outside.still_runs name
    then (spawns name ∷ waits_for name ∷ terminates name ∷ [], unavailable)
    else (spawns name ∷ waits_for name ∷ [], unavailable)

unfoldable pub without_daemon : Outside → Option Text → Bool → List Step × Obtained
unfolding spawn_daemon
without_daemon outside name false = (connects ∷ [], direct)
without_daemon outside none true = ([], name_required)
without_daemon outside (some name) true = spawn_daemon outside name

unfoldable pub get_named : Outside → Option Text → Bool → List Step × Obtained
unfolding without_daemon
get_named outside none spawn = without_daemon outside none spawn
get_named outside (some name) spawn =
    let (steps, obtained) = without_daemon outside (some name) spawn in
    if outside.answers name
    then (looks_for name ∷ [], daemon name)
    else (looks_for name ∷ steps, obtained)

-- The override, and the attributes `name` and `sim` of the arguments.
unfoldable pub get_connection :
    Outside → Option Text → Option Text → Bool → Bool → List Step × Obtained
unfolding get_named
get_connection outside override name sim spawn =
    get_named outside (resolve_client_name override name sim) spawn

abbrev pub IsQuiet : Step → Type 0
IsQuiet (spawns name) = ⊥
IsQuiet (terminates name) = ⊥
IsQuiet _ = Unit

-- What a call that spawns nothing may come to.
abbrev pub IsPassive : Outside → List Step × Obtained → Type 0
IsPassive outside (steps, daemon name) = All IsQuiet steps × (outside.answers name ≡ true)
IsPassive outside (steps, direct) = All IsQuiet steps
IsPassive outside (steps, _) = ⊥

named-IsPassive :
    (outside : Outside) (name : Option Text) → IsPassive outside (get_named outside name false)
unfolding get_named without_daemon
named-IsPassive outside none = (tt, tt)
named-IsPassive outside (some name) = elim (Bool-cases (outside.answers name)) [
  | inl there ↦ rw there ((tt, tt), there)
  | inr absent ↦ rw absent (tt, (tt, tt))
]

-- Without `spawn`, whatever the name, no process is started or ended, and the outcome is either a
-- daemon that answers or a direct connection.
pub get_connection-IsPassive :
    (outside : Outside) (override name : Option Text) (sim : Bool)
    → IsPassive outside (get_connection outside override name sim false)
unfolding get_connection
get_connection-IsPassive outside override name sim =
    named-IsPassive outside (resolve_client_name override name sim)
