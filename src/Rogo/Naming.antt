-- ===== src/Rogo/Naming.antt =====
-- How src/host/rogo/daemon.py and src/host/rogo/daemon_client.py find the name of a robot, and the
-- socket's path from it. The loop over `pump()` runs on fuel; `none` is a loop that was cut off.
pub mod Found
use radio_robot_lib.Prelude.{
  ℕ, zero, suc, ◌+◌, ◌≤◌, ◌<◌, ◌≡◌, ◌≢◌, refl, Bool, true, false, ◌||◌, Option, none, some, List,
  [], ◌∷◌, ◌++◌, ltb, if◌then◌else◌, arith, Bool-cases, inl, inr,
}
use radio_robot_lib.Prelude.Text.{Text, codes, text_eq}
use radio_robot_lib.Python.Error.{Error, Result, ok, err, value_error}
use radio_robot_lib.Python.Exec.{Exec, pure, bind_outcome, ◌>>=◌, ◌>>◌}
use radio_robot_lib.RobotV6.Codec.{Reply}
use radio_robot_lib.RobotV6.Session.{World, Session, monotonic, send_unsequenced, pump, hello}

-- `next((r for r in collected if r.verb == "device"), None)`
unfoldable pub find_device : List Reply → Option Reply
find_device [] = none
find_device (reply ∷ replies) =
    let later = find_device replies in
    elim (text_eq reply.verb (codes "device")) [ true ↦ some reply | false ↦ later ]

unfoldable pub usable : Text → Bool → Option Text
usable name true = none
usable name false = some name

-- The third field, if it is there and names a robot.
unfoldable pub name_of_fields : List Text → Option Text
name_of_fields (role ∷ common_name ∷ name ∷ rest) =
    usable name (text_eq name [] || text_eq name (codes "?"))
name_of_fields _ = none

unfoldable pub name_of_banner : Option Reply → Option Text
unfolding name_of_fields
name_of_banner none = none
name_of_banner (some banner) = name_of_fields banner.fields

module _ (w : World) where
  -- `break` at a `device`
  unfoldable pub unless_device :
      List Reply
      → Exec Session (Option (List Reply))
      → Option Reply
      → Exec Session (Option (List Reply))
  unless_device replies rest (some banner) = pure (some replies)
  unless_device replies rest none = rest

  unfoldable pub while_early :
      Exec Session (Option (List Reply)) → Bool → Exec Session (Option (List Reply))
  while_early body true = body
  while_early body false = pure (some [])

  -- Until the deadline, or a `device` among the replies. Of the replies of earlier rounds none is a
  -- `device`, and only the first of these is looked for afterwards.
  unfoldable pub collect : ℕ → ℕ → Exec Session (Option (List Reply))
  unfolding unless_device while_early
  collect zero deadline = pure none
  collect (suc fuel) deadline =
      let rest = collect fuel deadline in
      do
        now ← monotonic w
        while_early (do replies ← pump w; unless_device replies rest (find_device replies))
            (ltb now deadline)

  unfoldable pub identified : Option (List Reply) → Option (Option Text)
  identified none = none
  identified (some replies) = some (name_of_banner (find_device replies))

  -- The outer `none` is a loop that was cut off, the inner one that no name was found.
  unfoldable pub hello_identify_name : ℕ → ℕ → Exec Session (Option (Option Text))
  unfolding name_of_banner identified
  hello_identify_name fuel timeout = do
    send_unsequenced hello []
    now ← monotonic w
    collected ← collect fuel (now + timeout)
    pure (identified collected)

  -- `RobotNameError` is the inner `none`. An empty `override` counts as none.
  unfoldable pub unless_found : Bool → Text → Option (Option Text) → Option (Option Text)
  unless_found sim default_sim_name none = none
  unless_found sim default_sim_name (some (some name)) = some (some name)
  unless_found true default_sim_name (some none) = some (some default_sim_name)
  unless_found false default_sim_name (some none) = some none

  unfoldable pub resolve_robot_name :
      ℕ → Option Text → Bool → Text → ℕ → Exec Session (Option (Option Text))
  unfolding hello_identify_name unless_found
  resolve_robot_name fuel (some (c ∷ name)) sim default_sim_name timeout =
      pure (some (some (c ∷ name)))
  resolve_robot_name fuel _ sim default_sim_name timeout = do
    found ← hello_identify_name fuel timeout
    pure (unless_found sim default_sim_name found)

-- `value or fallback` on names
unfoldable pub or_name : Option Text → Option Text → Option Text
or_name (some (c ∷ name)) fallback = some (c ∷ name)
or_name _ fallback = fallback

-- The attributes `name` and `sim` of the parsed arguments, and `override`.
unfoldable pub resolve_client_name : Option Text → Option Text → Bool → Option Text
unfolding or_name
resolve_client_name override name sim =
    or_name override (or_name name (if sim then some (codes "sim") else none))

-- `$XDG_RUNTIME_DIR` and the home directory; `join` is the `/` of paths.
unfoldable pub default_socket_dir : (Text → Text → Text) → Option Text → Text → Text
default_socket_dir join (some (c ∷ xdg)) home = join (c ∷ xdg) (codes "rogo")
default_socket_dir join _ home = join (join home (codes ".rogo")) (codes "run")

unfoldable pub socket_path_for_name :
    (Text → Text → Text) → Option Text → Text → Text → Option Text → Result Text
unfolding default_socket_dir
socket_path_for_name join xdg home [] socket_dir = err value_error
socket_path_for_name join xdg home (c ∷ name) (some directory) =
    ok (join directory (c ∷ name ++ codes ".sock"))
socket_path_for_name join xdg home (c ∷ name) none =
    ok (join (default_socket_dir join xdg home) (c ∷ name ++ codes ".sock"))
