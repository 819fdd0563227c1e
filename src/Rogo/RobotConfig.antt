-- ===== src/Rogo/RobotConfig.antt =====
-- src/host/rogo/config.py. The file system is a function from a path to what `_read_json` makes of
-- the file there; a write succeeds. The proofs are in RobotConfig/Saved.
pub mod Saved
use radio_robot_lib.Prelude.{Bool, Option, none, some, String, if◌then◌else◌, ◌||◌}
use radio_robot_lib.Rogo.Json.{Json, null, float, str, obj, Object, empty, entry, get, get_or}
use text.Mathlib.Text.{◌==◌}

-- `directory / name`, `Path(path).name`, and `float` on a JSON value, as the `repr` of the result;
-- `none` where it raises.
pub record Env : Type 0 where
  pub join : String → String → String
  pub basename : String → String
  pub to_float : Json → Option String

pub record RobotConfig : Type 0 where
  pub name : Option String
  pub uid : Option String
  pub common_name : Option String
  pub trackwidth_mm : Option String
  pub rotational_slip : Option String
  pub distance_scale : Option String
  pub path : String

abbrev pub Files : Type 0
Files = String → Option Json

-- `data[key] = value`
unfoldable pub put : String → Json → Object → Object
put key value empty = entry key value empty
put key value (entry k v rest) =
    let others = put key value rest in if k == key then entry k value rest else entry k v others

unfoldable pub as_float_or_none : Env → Json → Option String
as_float_or_none env null = none
as_float_or_none env value = env.to_float value

unfoldable pub as_str_or_none : Json → Option String
as_str_or_none (str s) = some s
as_str_or_none _ = none

unfoldable pub dict_of : Option Json → Object
dict_of (some (obj fields)) = fields
dict_of _ = empty

unfoldable pub dict_or_empty : Object → String → Object
unfolding dict_of
dict_or_empty data_ key = dict_of (get key data_)

-- A value, or the fallback where it is `None`.
unfoldable pub or_else : Json → Json → Json
or_else null fallback = fallback
or_else value fallback = value

-- `calibration.get(key)`, and `geometry.get(key)` where that is `None`.
unfoldable pub calibrated : String → Object → Object → Json
unfolding or_else
calibrated key calibration geometry =
    or_else (get_or key null calibration) (get_or key null geometry)

unfoldable pub parse_robot_config : Env → Object → String → RobotConfig
unfolding as_float_or_none as_str_or_none dict_or_empty calibrated
parse_robot_config env data_ path =
    let identity = dict_or_empty data_ "identity" in
    let geometry = dict_or_empty data_ "geometry" in
    let calibration = dict_or_empty data_ "calibration" in
    record {
      name = as_str_or_none (get_or "robot_name" null identity);
      uid = as_str_or_none (get_or "uid" null identity);
      common_name = as_str_or_none (get_or "common_name" null identity);
      trackwidth_mm = as_float_or_none env (get_or "trackwidth" null geometry);
      rotational_slip = as_float_or_none env (calibrated "rotational_slip" calibration geometry);
      distance_scale = as_float_or_none env (calibrated "distance_scale" calibration geometry);
      path = path;
    }

unfoldable pub parse_loaded : Env → Option Json → String → Option RobotConfig
unfolding parse_robot_config
parse_loaded env (some (obj fields)) path = some (parse_robot_config env fields path)
parse_loaded env _ path = none

unfoldable pub load_robot_config : Env → Files → String → Option RobotConfig
unfolding parse_loaded
load_robot_config env files path = parse_loaded env (files path) path

-- The file that a pointer with no `identity` names.
unfoldable pub follow : Env → Files → String → Option Json → Option RobotConfig
unfolding load_robot_config
follow env files directory (some (str path_field)) =
    if path_field == ""
    then none
    else load_robot_config env files (env.join directory (env.basename path_field))
follow env files directory _ = none

unfoldable pub load_pointer : Env → Files → String → Option Json → Option RobotConfig
unfolding parse_robot_config follow
load_pointer env files directory (some (obj pointer)) =
    let followed = follow env files directory (get "path" pointer) in
    elim (get "identity" pointer) [
      | some identity ↦
          some (parse_robot_config env pointer (env.join directory "active_robot.json"))
      | none ↦ followed
    ]
load_pointer env files directory _ = none

unfoldable pub load_active_robot : Env → Files → String → Option RobotConfig
unfolding load_pointer
load_active_robot env files directory =
    load_pointer env files directory (files (env.join directory "active_robot.json"))

-- `if value is not None: geometry[key] = value`
unfoldable pub put_float : String → Option String → Object → Object
unfolding put
put_float key none fields = fields
put_float key (some value) fields = put key (float value) fields

unfoldable pub saved : RobotConfig → Object → Object
unfolding dict_or_empty put_float put
saved config data_ =
    put "geometry"
      (obj (
        put_float "distance_scale" config.distance_scale
          (put_float "rotational_slip" config.rotational_slip (dict_or_empty data_ "geometry"))))
      data_

unfoldable pub save_robot_config : RobotConfig → Files → Files
unfolding saved dict_of
save_robot_config config files path =
    if config.path == path
    then some (obj (saved config (dict_of (files config.path))))
    else files path
