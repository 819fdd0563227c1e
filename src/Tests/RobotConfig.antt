-- ===== src/Tests/RobotConfig.antt =====
-- Saving a calibration at concrete inputs.
use radio_robot_lib.Prelude.{◌≡◌, refl, none, some, String, Option}
use radio_robot_lib.Rogo.Json.{Json, float, str, obj, Object, empty, entry, get, get_or}
use radio_robot_lib.Rogo.RobotConfig.{
  Env, RobotConfig, Files, dict_of, dict_or_empty, parse_robot_config, load_robot_config,
  save_robot_config,
}
use radio_robot_lib.Rogo.RobotConfig.Saved.{load-save, save_shadowed, slip_of}

abbrev to_float : Json → Option String
to_float (float r) = some r
to_float _ = none

abbrev env : Env
env = record { join = λ directory name. name; basename = λ path. path; to_float = to_float }

abbrev geometry : Object
geometry = entry "trackwidth" (float "120.0") (entry "rotational_slip" (float "0.9") empty)

abbrev tovez : Object
tovez =
    entry "identity" (obj (entry "robot_name" (str "tovez") empty))
      (entry "geometry" (obj geometry) empty)

abbrev calibrated : Object
calibrated =
    entry "geometry" (obj geometry)
      (entry "calibration" (obj (entry "rotational_slip" (float "0.8") empty)) empty)

abbrev config : RobotConfig
config = record {
  name = none;
  uid = none;
  common_name = none;
  trackwidth_mm = none;
  rotational_slip = some "0.95";
  distance_scale = none;
  path = "tovez.json";
}

abbrev files : Object → Files
files fields path = some (obj fields)

load-save_example :
    load_robot_config env (save_robot_config config (files tovez)) "tovez.json"
    ≡ some (record (parse_robot_config env tovez "tovez.json") { rotational_slip = some "0.95" })
unfolding dict_or_empty dict_of get get_or
load-save_example = load-save env config tovez (files tovez) refl (λ r. refl) refl refl

save_shadowed_example :
    slip_of (load_robot_config env (save_robot_config config (files calibrated)) "tovez.json")
    ≡ slip_of (load_robot_config env (files calibrated) "tovez.json")
unfolding dict_or_empty dict_of get get_or
save_shadowed_example =
    save_shadowed env config calibrated (files calibrated) (float "0.8") refl refl (λ e. cc)
