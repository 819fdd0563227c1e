-- ===== src/Rogo/Calibrate/Saving.antt =====
-- What the calibration commands of src/host/rogo/cli.py write to the files.
use radio_robot_lib.Prelude.{
  ℕ, refl, Bool, true, false, Option, some, String, List, inl, if◌then◌else◌,
}
use radio_robot_lib.Prelude.Text.{Text}
use radio_robot_lib.Prelude.Int.{ℤ, pos, leb_ℤ, pos_part}
use radio_robot_lib.Python.Error.{Result, ok, err}
use radio_robot_lib.Python.Exec.{Exec}
use radio_robot_lib.RobotV6.Session.{World, Session}
use radio_robot_lib.Rogo.Floats.{Floats}
use radio_robot_lib.Rogo.RobotConfig.{RobotConfig, Files}
use radio_robot_lib.Rogo.Calibrate.Trials.{Desk}
use radio_robot_lib.Rogo.Calibrate.Kept.{Written, WrittenTo, calibrations-Written}
use radio_robot_lib.Rogo.Calibrate.Command.{
  Finished, on_connection, turns_for, cmd_calibrate_turns, distance_for, cmd_calibrate_distance,
}

-- What holds of the files at the start, and of those that a branch leaves.
if_files :
    (P : Files → Type 0) (test : Bool) (a b : Finished)
    → P a.files
    → P b.files
    → P (if test then a else b).files
if_files P true a b ha hb = ha
if_files P false a b ha hb = hb

module _ (w : World) (fuel : ℕ) (ops : Floats) (to_float : Text → Option String)
    (answers : List Text) (files : Files) where
  connection-WrittenTo :
      (apply_fn : String → RobotConfig) (connected : Result Session) (body : Exec Desk (Option ℕ))
      → ((s : Session)
          → Written files w fuel ops to_float apply_fn
              (body (record { session = s; answers = answers; files = files })))
      → WrittenTo files w fuel ops to_float apply_fn
          (on_connection connected answers files body).files
  unfolding on_connection
  connection-WrittenTo apply_fn (err e) body h = inl refl
  connection-WrittenTo apply_fn (ok s) body h = h s

  -- Whatever the arguments, the robot does, the operator answers and the float arithmetic gives, and
  -- however a calibration command comes out, refused arguments, errors and waits that are cut off
  -- included, the files at the end are those at the start, or the active robot's configuration is
  -- saved once in them, with a new slip or scale between 0.5 and 1.5 and otherwise as it was.
  pub cmd_calibrate-WrittenTo :
      (connected : Result Session) (cfg : RobotConfig) (trials : ℤ) (distance speed : String)
      → WrittenTo files w fuel ops to_float
          (λ value. record cfg { rotational_slip = some value })
          (cmd_calibrate_turns w fuel ops to_float connected answers files
            (some cfg)
            trials
            speed).files
        × WrittenTo files w fuel ops to_float
            (λ value. record cfg { distance_scale = some value })
            (cmd_calibrate_distance w fuel ops to_float connected answers files
              (some cfg)
              trials
              distance
              speed).files
  unfolding cmd_calibrate_turns cmd_calibrate_distance turns_for distance_for
  cmd_calibrate-WrittenTo connected cfg trials distance speed =
      let n = pos_part trials in
      let Turned =
        WrittenTo files w fuel ops to_float (λ v. record cfg { rotational_slip = some v }) in
      let Driven =
        WrittenTo files w fuel ops to_float (λ v. record cfg { distance_scale = some v }) in
      (
        if_files Turned (ops.le speed "0") _ _ (inl refl) (
            if_files Turned (leb_ℤ trials (pos 0)) _ _ (inl refl) (
              connection-WrittenTo _ connected _
                λ s. (calibrations-Written w fuel ops to_float cfg n distance speed "90.0" _).0)),
        if_files Driven (ops.le speed "0") _ _ (inl refl) (
            if_files Driven (ops.le distance "0") _ _ (inl refl) (
              if_files Driven (leb_ℤ trials (pos 0)) _ _ (inl refl) (
                connection-WrittenTo _ connected _ λ s.
                  (calibrations-Written w fuel ops to_float cfg n distance speed "90.0" _).1))),
      )
