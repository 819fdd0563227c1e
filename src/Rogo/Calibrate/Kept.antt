-- ===== src/Rogo/Calibrate/Kept.antt =====
-- What the calibrations of src/host/rogo/calibrate.py write to the files.
use radio_robot_lib.Prelude.{
  ℕ, zero, suc, ◌≡◌, refl, ap, Bool, true, false, Option, none, some, String, List, [], ◌∷◌, ◌⊎◌,
  inl, inr,
}
use radio_robot_lib.Prelude.Text.{Text, codes}
use radio_robot_lib.Prelude.Int.{ℤ}
use radio_robot_lib.Python.Error.{Result, ok, err}
use radio_robot_lib.Python.Exec.{Exec, pure, continue, Keeps, Keeps-bind, Keeps-if, ◌>>=◌}
use radio_robot_lib.RobotV6.Session.{World, Session}
use radio_robot_lib.Rogo.Floats.{Floats}
use radio_robot_lib.Rogo.RobotConfig.{RobotConfig, Files, save_robot_config}
use radio_robot_lib.Rogo.Calibrate.{CalibrationResult}
use radio_robot_lib.Rogo.Calibrate.Sane.{IsSound, Updated, compute_calibration-IsSound}
use radio_robot_lib.Rogo.Calibrate.Trials.{
  Desk, ask_from, ask, on_session, says, drive_trial, after_measure, after_drive, after_aim,
  run_interactive_trials, declines, save_unless, value_to_save, save_value, report_and_save,
  conclude, turns_across, calibrate_turns, calibrate_distance,
}

module _ (files : Files) where
  -- The files are as they were.
  abbrev Untouched : Desk → Type 0
  Untouched d = d.files ≡ files

  ask_from-Keeps : (answers : List Text) → Keeps Untouched (ask_from answers)
  unfolding ask_from
  ask_from-Keeps [] d h = h
  ask_from-Keeps (a ∷ answers) d h = h

  ask-Keeps : Keeps Untouched ask
  unfolding ask
  ask-Keeps d h = ask_from-Keeps d.answers d h

  on_session-Keeps : {A : Type 0} (m : Exec Session A) → Keeps Untouched (on_session m)
  unfolding on_session
  on_session-Keeps m d h = h

  module _ (w : World) (fuel : ℕ) (ops : Floats) (to_float : Text → Option String) where
    module _ (drive_one : Exec Session (ℕ × ℤ))
        (rest : List String → Exec Desk (Option (List String)))
        (kept : (measured : List String) → Keeps Untouched (rest measured)) where
      after_measure-Keeps :
          (measured : List String) (raw : Option Text)
          → Keeps Untouched (after_measure w fuel ops to_float drive_one rest measured raw)
      unfolding after_measure
      after_measure-Keeps measured none = λ d h. h
      after_measure-Keeps measured (some raw) = kept _

      after_drive-Keeps :
          (measured : List String) (driven : Option (Unit {0}))
          → Keeps Untouched (after_drive w fuel ops to_float drive_one rest measured driven)
      unfolding after_drive
      after_drive-Keeps measured none = λ d h. h
      after_drive-Keeps measured (some done) =
          Keeps-bind Untouched ask _ ask-Keeps (after_measure-Keeps measured)

      after_aim-Keeps :
          (measured : List String) (raw : Option Text)
          → Keeps Untouched (after_aim w fuel ops to_float drive_one rest measured raw)
      unfolding after_aim
      after_aim-Keeps measured none = λ d h. h
      after_aim-Keeps measured (some raw) =
          Keeps-if Untouched (says raw (codes "q")) _ _ (λ _ d h. h)
            λ _.
              Keeps-bind Untouched (on_session (drive_trial w fuel ops to_float drive_one)) _
                (on_session-Keeps (drive_trial w fuel ops to_float drive_one))
                (after_drive-Keeps measured)

    trials-Keeps :
        (drive_one : Exec Session (ℕ × ℤ)) (trials : ℕ) (measured : List String)
        → Keeps Untouched (run_interactive_trials w fuel ops to_float drive_one trials measured)
    unfolding run_interactive_trials
    trials-Keeps drive_one zero measured = λ d h. h
    trials-Keeps drive_one (suc trials) measured = Keeps-bind Untouched ask _ ask-Keeps (
        after_aim-Keeps drive_one (run_interactive_trials w fuel ops to_float drive_one trials)
          (trials-Keeps drive_one trials) measured)

    module _ (apply_fn : String → RobotConfig) where
      -- Untouched, or the configuration saved with a value between 0.5 and 1.5.
      abbrev pub WrittenTo : Files → Type 0
      WrittenTo after =
          (after ≡ files)
          ⊎ ((value : String) × (ops.le "0.5" value ≡ true)
              × (ops.le value "1.5" ≡ true)
              × (after ≡ save_robot_config (apply_fn value) files))

      abbrev pub Written : {A : Type 0} → Result A × Desk → Type 0
      Written (r, d) = WrittenTo d.files

      save_unless-Written :
          (value : String) (declined : Bool) (d : Desk)
          → ops.le "0.5" value ≡ true
          → ops.le value "1.5" ≡ true
          → Untouched d
          → Written (save_unless w fuel ops to_float (apply_fn value) declined d)
      unfolding save_unless
      save_unless-Written value true d low high h = inl h
      save_unless-Written value false d low high h =
          inr (value, low, high, ap (save_robot_config (apply_fn value)) h)

      asked-Written :
          (value : String) (answers : List Text) (d : Desk)
          → ops.le "0.5" value ≡ true
          → ops.le value "1.5" ≡ true
          → Untouched d
          → Written (
              (ask_from answers >>= λ raw.
              save_unless w fuel ops to_float (apply_fn value) (declines w fuel ops to_float raw))
                d)
      unfolding ask_from
      asked-Written value [] d low high h = save_unless-Written value _ d low high h
      asked-Written value (a ∷ answers) d low high h = save_unless-Written value _ _ low high h

      save_value-Written :
          (samples : List String) (updated : Option String) (d : Desk)
          → Updated ops ("0.5", "1.5") samples updated
          → Untouched d
          → Written (save_value w fuel ops to_float apply_fn updated d)
      unfolding save_value ask
      save_value-Written samples none d sane h = inl h
      save_value-Written samples (some value) d (three, low, high) h =
          asked-Written value d.answers d low high h

      to_save-Updated :
          (samples : List String) (mean updated : Option String)
          → Updated ops ("0.5", "1.5") samples updated
          → Updated ops
              ("0.5", "1.5")
              samples
              (value_to_save w fuel ops to_float samples mean updated)
      unfolding value_to_save
      to_save-Updated [] mean updated h = tt
      to_save-Updated (m ∷ samples) none updated h = tt
      to_save-Updated (m ∷ samples) (some mean) updated h = h

      wrapped :
          (x : Result ℕ × Desk)
          → Written x
          → Written (continue {B = Option ℕ} x.0 (λ code. pure (some code)) x.1)
      wrapped (err e, d) h = h
      wrapped (ok code, d) h = h

      reported-Written :
          (r : Result CalibrationResult) (d : Desk)
          → IsSound ops ("0.5", "1.5") r
          → Untouched d
          → Written (
              continue {B = Option ℕ} r
                (λ result.
                  report_and_save w fuel ops to_float apply_fn result >>= λ code. pure (some code))
                d)
      unfolding report_and_save
      reported-Written (err e) d sound h = inl h
      reported-Written (ok result) d (above, sane) h = wrapped _ (
          save_value-Written result.samples _ d
            (to_save-Updated result.samples result.mean_ratio result.updated_value sane) h)

      conclude-Written :
          (current : Option String) (target : String) (measured : Option (List String)) (d : Desk)
          → Untouched d
          → Written (conclude w fuel ops to_float apply_fn current target measured d)
      unfolding conclude
      conclude-Written current target none d h = inl h
      conclude-Written current target (some measured) d h =
          reported-Written _ d (compute_calibration-IsSound ops current target measured "0.5" "1.5")
            h

      finished :
          (current : Option String) (target : String) (x : Result (Option (List String)) × Desk)
          → Untouched x.1
          → Written (continue x.0 (conclude w fuel ops to_float apply_fn current target) x.1)
      finished current target (err e, d) h = inl h
      finished current target (ok measured, d) h = conclude-Written current target measured d h

turns-Written :
    (w : World) (fuel : ℕ) (ops : Floats) (to_float : Text → Option String) (cfg : RobotConfig)
    (trials : ℕ) (speed target : String) (trackwidth : Option String) (d : Desk)
    → Written d.files w fuel ops to_float
        (λ value. record cfg { rotational_slip = some value })
        (turns_across w fuel ops to_float cfg trials speed target trackwidth d)
unfolding turns_across
turns-Written w fuel ops to_float cfg trials speed target none d = inl refl
turns-Written w fuel ops to_float cfg trials speed target (some trackwidth) d =
    finished d.files w fuel ops to_float (λ value. record cfg { rotational_slip = some value })
      cfg.rotational_slip target _ (trials-Keeps d.files w fuel ops to_float _ trials [] d refl)

pub calibrations-Written :
    (w : World) (fuel : ℕ) (ops : Floats) (to_float : Text → Option String) (cfg : RobotConfig)
    (trials : ℕ) (distance speed target : String) (d : Desk)
    → Written d.files w fuel ops to_float
        (λ value. record cfg { rotational_slip = some value })
        (calibrate_turns w fuel ops to_float cfg trials speed target d)
      × Written d.files w fuel ops to_float
          (λ value. record cfg { distance_scale = some value })
          (calibrate_distance w fuel ops to_float cfg trials distance speed d)
unfolding calibrate_turns calibrate_distance
calibrations-Written w fuel ops to_float cfg trials distance speed target d = (
  turns-Written w fuel ops to_float cfg trials speed target cfg.trackwidth_mm d,
  finished d.files w fuel ops to_float (λ value. record cfg { distance_scale = some value })
      cfg.distance_scale distance _ (trials-Keeps d.files w fuel ops to_float _ trials [] d refl),
)
