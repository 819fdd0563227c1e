-- ===== src/Rogo/RobotConfig/Saved.antt =====
-- What a load finds after a save, in src/host/rogo/config.py.
use radio_robot_lib.Prelude.{
  true, false, Option, none, some, String, ◌≡◌, ◌≢◌, refl, sym, ap, ◌∙◌, Bool-cases, inl, inr,
}
use radio_robot_lib.Rogo.Json.{Json, null, float, obj, Object, empty, entry, get, get_or}
use radio_robot_lib.Rogo.RobotConfig.{
  Env, RobotConfig, Files, put, dict_of, dict_or_empty, or_else, calibrated, as_float_or_none,
  parse_robot_config, parse_loaded, load_robot_config, put_float, saved, save_robot_config,
}
use text.Mathlib.Text.{◌==◌}
use text.Mathlib.TextEquality.{eq_iff}

equal_self : (k : String) → (k == k) ≡ true
equal_self k = (eq_iff k k).1 refl

pub get-put : (key : String) (v : Json) (o : Object) → get key (put key v o) ≡ some v
unfolding get put
get-put key v empty = rw (equal_self key) refl
get-put key v (entry k w rest) = elim (Bool-cases (k == key)) [
  | inl e ↦ rw (e, e) refl
  | inr e ↦ rw (e, e) (get-put key v rest)
]

pub get-put_ne :
    (key other : String) (v : Json) (o : Object)
    → (key == other) ≡ false
    → get other (put key v o) ≡ get other o
unfolding get put
get-put_ne key other v empty ne = rw (ne) refl
get-put_ne key other v (entry k w rest) ne = elim (Bool-cases (k == key)) [
  | inl e ↦ rw (e, (eq_iff k key).0 e, ne) refl
  | inr e ↦ elim (Bool-cases (k == other)) [
    | inl f ↦ rw (e, f) refl
    | inr f ↦ rw (e, f) (get-put_ne key other v rest ne)
  ]
]

get-put_float_ne :
    (key other : String) (v : Option String) (o : Object)
    → (key == other) ≡ false
    → get other (put_float key v o) ≡ get other o
unfolding put_float
get-put_float_ne key other none o ne = refl
get-put_float_ne key other (some v) o ne = get-put_ne key other (float v) o ne

geometry-saved :
    (c : RobotConfig) (data_ : Object)
    → dict_or_empty (saved c data_) "geometry"
      ≡ put_float "distance_scale" c.distance_scale
          (put_float "rotational_slip" c.rotational_slip (dict_or_empty data_ "geometry"))
unfolding dict_or_empty saved dict_of
geometry-saved c data_ = rw (get-put "geometry" _ data_) refl

-- A save keeps every key of the file but `geometry`, and in `geometry` every key but the two that
-- calibration writes.
pub saved_keeps :
    (c : RobotConfig) (data_ : Object) (key inner : String)
    → ("geometry" == key) ≡ false
    → ("rotational_slip" == inner) ≡ false
    → ("distance_scale" == inner) ≡ false
    → (get key (saved c data_) ≡ get key data_)
      × (get inner (dict_or_empty (saved c data_) "geometry")
          ≡ get inner (dict_or_empty data_ "geometry"))
unfolding saved
saved_keeps c data_ key inner ne ne_slip ne_scale = (
  get-put_ne "geometry" key _ data_ ne,
  ap (get inner) (geometry-saved c data_)
      ∙ get-put_float_ne "distance_scale" inner c.distance_scale _ ne_scale
      ∙ get-put_float_ne "rotational_slip" inner c.rotational_slip _ ne_slip,
)

get_or-put_float_ne :
    (key other : String) (v : Option String) (o : Object)
    → (key == other) ≡ false
    → get_or other null (put_float key v o) ≡ get_or other null o
unfolding get_or
get_or-put_float_ne key other v o ne =
    ap (λ found. elim found [ none ↦ null | some w ↦ w ]) (get-put_float_ne key other v o ne)

get_or-put : (key : String) (v : Json) (o : Object) → get_or key null (put key v o) ≡ v
unfolding get_or
get_or-put key v o = ap (λ found. elim found [ none ↦ null | some w ↦ w ]) (get-put key v o)

-- What was there, unless there is something new.
abbrev pub updated : Option String → Option String → Option String
updated none old = old
updated (some new) old = some new

or_else-present : (v a b : Json) → v ≢ null → or_else v a ≡ or_else v b
unfolding or_else
or_else-present null a b present = absurd (present refl)
or_else-present _ a b present = refl

unfoldable pub slip_of : Option RobotConfig → Option String
slip_of none = none
slip_of (some config) = config.rotational_slip

module _ (env : Env) (c : RobotConfig) (data_ : Object) where
  group_saved :
      (group : String)
      → ("geometry" == group) ≡ false
      → dict_or_empty (saved c data_) group ≡ dict_or_empty data_ group
  unfolding dict_or_empty saved
  group_saved group ne = rw (get-put_ne "geometry" group _ data_ ne) refl

  -- What is read under a key that was put.
  float_updated :
      (key : String) (new : Option String) (calibration geometry : Object)
      → ((r : String) → env.to_float (float r) ≡ some r)
      → get_or key null calibration ≡ null
      → as_float_or_none env (calibrated key calibration (put_float key new geometry))
        ≡ updated new (as_float_or_none env (calibrated key calibration geometry))
  unfolding put_float as_float_or_none calibrated or_else
  float_updated key none calibration geometry floats absent = refl
  float_updated key (some r) calibration geometry floats absent =
      rw (absent, get_or-put key (float r) geometry) (floats r)

  calibrated-put_float_ne :
      (key other : String) (v : Option String) (calibration geometry : Object)
      → (other == key) ≡ false
      → calibrated key calibration (put_float other v geometry)
        ≡ calibrated key calibration geometry
  unfolding calibrated
  calibrated-put_float_ne key other v calibration geometry ne =
      rw (get_or-put_float_ne other key v geometry ne) refl

  -- A load after a save to a file that is a JSON object finds the file's own values with the saved
  -- slip and scale in their place, if the file's `calibration` has neither of the two, and `float`
  -- gives a float back as it was.
  pub load-save :
      (files : Files)
      → files c.path ≡ some (obj data_)
      → ((r : String) → env.to_float (float r) ≡ some r)
      → get_or "rotational_slip" null (dict_or_empty data_ "calibration") ≡ null
      → get_or "distance_scale" null (dict_or_empty data_ "calibration") ≡ null
      → let old = parse_robot_config env data_ c.path in
        load_robot_config env (save_robot_config c files) c.path
        ≡ some (record old {
          rotational_slip = updated c.rotational_slip old.rotational_slip;
          distance_scale = updated c.distance_scale old.distance_scale;
        })
  unfolding load_robot_config save_robot_config parse_loaded parse_robot_config dict_of
  load-save files e floats no_slip no_scale =
      rw
        (
          equal_self c.path,
          e,
          group_saved "identity" refl,
          group_saved "calibration" refl,
          geometry-saved c data_,
          get_or-put_float_ne "distance_scale" "trackwidth" c.distance_scale
              (put_float "rotational_slip" c.rotational_slip (dict_or_empty data_ "geometry")) refl,
          get_or-put_float_ne "rotational_slip" "trackwidth" c.rotational_slip
              (dict_or_empty data_ "geometry") refl,
          calibrated-put_float_ne "rotational_slip" "distance_scale" c.distance_scale
              (dict_or_empty data_ "calibration")
              (put_float "rotational_slip" c.rotational_slip (dict_or_empty data_ "geometry")) refl,
          float_updated "rotational_slip" c.rotational_slip (dict_or_empty data_ "calibration")
              (dict_or_empty data_ "geometry") floats no_slip,
          float_updated "distance_scale" c.distance_scale (dict_or_empty data_ "calibration")
              (put_float "rotational_slip" c.rotational_slip (dict_or_empty data_ "geometry"))
              floats no_scale,
          calibrated-put_float_ne "distance_scale" "rotational_slip" c.rotational_slip
              (dict_or_empty data_ "calibration") (dict_or_empty data_ "geometry") refl,
        )
        refl

  -- A slip in the `calibration` of a file that is a JSON object hides the saved one: a load after
  -- the save finds the slip that was there before.
  pub save_shadowed :
      (files : Files) (slip : Json)
      → files c.path ≡ some (obj data_)
      → get_or "rotational_slip" null (dict_or_empty data_ "calibration") ≡ slip
      → slip ≢ null
      → slip_of (load_robot_config env (save_robot_config c files) c.path)
        ≡ slip_of (load_robot_config env files c.path)
  unfolding load_robot_config save_robot_config parse_loaded parse_robot_config dict_of calibrated
      slip_of
  save_shadowed files slip e has some_slip =
      rw (equal_self c.path, e, group_saved "calibration" refl, geometry-saved c data_)
        (ap (as_float_or_none env) (
          or_else-present (get_or "rotational_slip" null (dict_or_empty data_ "calibration")) _ _
            (λ h. some_slip (sym has ∙ h))))
