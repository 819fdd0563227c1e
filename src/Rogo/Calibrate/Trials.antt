-- ===== src/Rogo/Calibrate/Trials.antt =====
-- The trials of src/host/rogo/calibrate.py: the operator's answers and the files are part of the
-- state. What is printed is not modelled. `none` is a wait that was cut off.
use radio_robot_lib.Prelude.{
  ℕ, zero, suc, ◌+◌, ◌&&◌, ◌||◌, Bool, true, false, Option, none, some, String, List, [], ◌∷◌, ◌++◌,
  leb, if◌then◌else◌,
}
use radio_robot_lib.Prelude.Text.{Text, codes, text_eq}
use radio_robot_lib.Prelude.Int.{ℤ}
use radio_robot_lib.Python.Error.{Result, ok}
use radio_robot_lib.Python.Exec.{Exec, pure, lift, ◌>>=◌}
use radio_robot_lib.RobotV6.Codec.{int}
use radio_robot_lib.RobotV6.Session.{World, Session}
use radio_robot_lib.RobotV6.Session.Waiting.{wait_for_ack, wait_for_done}
use radio_robot_lib.RobotV6.Motion.{wheels_v}
use radio_robot_lib.Rogo.Floats.{Floats}
use radio_robot_lib.Rogo.TurnModel.{compute_turn}
use radio_robot_lib.Rogo.RobotConfig.{RobotConfig, Files, save_robot_config}
use radio_robot_lib.Rogo.Repl.{strip}
use radio_robot_lib.Rogo.Cli.{default_timeout, done_timeout}
use radio_robot_lib.Rogo.Calibrate.{CalibrationResult, compute_calibration, compute_distance_trial}

-- The session, the lines that `input` will read, and the files.
pub record Desk : Type 0 where
  pub session : Session
  pub answers : List Text
  pub files : Files

unfoldable pub ask_from : List Text → Exec Desk (Option Text)
ask_from [] d = (ok none, d)
ask_from (answer ∷ answers) d = (ok (some answer), record d { answers = answers })

-- `input`: `none` is `EOFError`.
unfoldable pub ask : Exec Desk (Option Text)
unfolding ask_from
ask d = ask_from d.answers d

unfoldable pub on_session : {A : Type 0} → Exec Session A → Exec Desk A
on_session m d = let (r, s) = m d.session in (r, record d { session = s })

-- `str.lower`, of the letters A to Z only
unfoldable pub lower : Text → Text
lower [] = []
lower (c ∷ t) = (if leb 65 c && leb c 90 then c + 32 else c) ∷ lower t

unfoldable pub says : Text → Text → Bool
unfolding lower
says raw word = text_eq (lower (strip raw)) word

-- The measured value of an answer. `none`: skipped, not a number, or not positive.
unfoldable pub measured_value : Floats → (Text → Option String) → Text → Option String
unfolding says
measured_value ops to_float raw =
    let value = positive_or_none (to_float (strip raw)) in
    if says raw (codes "skip") || (says raw (codes "s") || says raw []) then none else value
  where
    positive_or_none : Option String → Option String
    positive_or_none none = none
    positive_or_none (some value) = if ops.le value "0" then none else some value

unfoldable pub record_value : Option String → List String → List String
record_value none measured = measured
record_value (some value) measured = measured ++ value ∷ []

module _ (w : World) (fuel : ℕ) (ops : Floats) (to_float : Text → Option String) where
  unfoldable pub await_trial : ℕ → ℤ → Option Bool → Exec Session (Option (Unit {0}))
  await_trial seq_id duration_ms none = pure none
  await_trial seq_id duration_ms (some false) = pure (some tt)
  await_trial seq_id duration_ms (some true) = do
    event ← wait_for_done w fuel seq_id (some (done_timeout duration_ms))
    pure (elim event [ none ↦ none | some e ↦ some tt ])

  -- One drive and its waits; a trial that is not acknowledged goes on all the same.
  unfoldable pub drive_trial : Exec Session (ℕ × ℤ) → Exec Session (Option (Unit {0}))
  unfolding await_trial
  drive_trial drive_one = do
    sent ← drive_one
    answer ← wait_for_ack w fuel sent.0 (some default_timeout)
    await_trial sent.0 sent.1 answer

  module _ (drive_one : Exec Session (ℕ × ℤ)) where
    unfoldable pub after_measure :
        (List String → Exec Desk (Option (List String)))
        → List String
        → Option Text
        → Exec Desk (Option (List String))
    unfolding measured_value record_value
    after_measure rest measured none = pure (some measured)
    after_measure rest measured (some raw) =
        rest (record_value (measured_value ops to_float raw) measured)

    unfoldable pub after_drive :
        (List String → Exec Desk (Option (List String)))
        → List String
        → Option (Unit {0})
        → Exec Desk (Option (List String))
    unfolding after_measure ask
    after_drive rest measured none = pure none
    after_drive rest measured (some done) = do raw ← ask; after_measure rest measured raw

    -- `break` at the end of the input and at `q`
    unfoldable pub after_aim :
        (List String → Exec Desk (Option (List String)))
        → List String
        → Option Text
        → Exec Desk (Option (List String))
    unfolding says drive_trial on_session after_drive
    after_aim rest measured none = pure (some measured)
    after_aim rest measured (some raw) =
        if says raw (codes "q")
        then pure (some measured)
        else do driven ← on_session (drive_trial drive_one); after_drive rest measured driven

    unfoldable pub run_interactive_trials : ℕ → List String → Exec Desk (Option (List String))
    unfolding ask after_aim
    run_interactive_trials zero measured = pure (some measured)
    run_interactive_trials (suc trials) measured = do
      raw ← ask
      after_aim (run_interactive_trials trials) measured raw

  -- The answer to "Save?": no only if it says so.
  unfoldable pub declines : Option Text → Bool
  unfolding says
  declines none = false
  declines (some raw) = says raw (codes "n") || says raw (codes "no")

  unfoldable pub save_unless : RobotConfig → Bool → Exec Desk ℕ
  save_unless new_cfg true d = (ok 0, d)
  save_unless new_cfg false d = (ok 0, record d { files = save_robot_config new_cfg d.files })

  -- The value that there is to save: with no sample, no mean or no value there is none.
  unfoldable pub value_to_save : List String → Option String → Option String → Option String
  value_to_save [] mean_ratio updated_value = none
  value_to_save (sample ∷ samples) none updated_value = none
  value_to_save (sample ∷ samples) (some mean) updated_value = updated_value

  -- `apply_fn(cfg, value)` is saved.
  unfoldable pub save_value : (String → RobotConfig) → Option String → Exec Desk ℕ
  unfolding ask save_unless
  save_value apply_fn none = pure 1
  save_value apply_fn (some value) = do raw ← ask; save_unless (apply_fn value) (declines raw)

  unfoldable pub report_and_save : (String → RobotConfig) → CalibrationResult → Exec Desk ℕ
  unfolding value_to_save save_value
  report_and_save apply_fn result =
      save_value apply_fn (value_to_save result.samples result.mean_ratio result.updated_value)

  unfoldable pub conclude :
      (String → RobotConfig) → Option String → String → Option (List String) → Exec Desk (Option ℕ)
  unfolding report_and_save
  conclude apply_fn current target none = pure none
  conclude apply_fn current target (some measured) = do
    result ← lift (compute_calibration ops current target measured ("0.5", "1.5"))
    code ← report_and_save apply_fn result
    pure (some code)

  -- `_drive_one`: the numbers are computed anew for each trial.
  unfoldable pub drive_one_of : Result (ℤ × ℤ × ℤ) → Exec Session (ℕ × ℤ)
  drive_one_of numbers = do
    n ← lift numbers
    seq_id ← wheels_v (int n.0) (int n.1) (int n.2)
    pure (seq_id, n.2)

  -- `if cfg.trackwidth_mm is None`
  unfoldable pub turns_across :
      RobotConfig → ℕ → String → String → Option String → Exec Desk (Option ℕ)
  unfolding drive_one_of conclude
  turns_across cfg trials speed_mm_s target_deg none = pure (some 1)
  turns_across cfg trials speed_mm_s target_deg (some trackwidth) = do
    measured ←
        run_interactive_trials
          (drive_one_of (
            compute_turn ops target_deg speed_mm_s (some trackwidth) cfg.rotational_slip "1.0"
              "0.0"))
          trials []
    conclude (λ value. record cfg { rotational_slip = some value }) cfg.rotational_slip target_deg
        measured

  unfoldable pub calibrate_turns : RobotConfig → ℕ → String → String → Exec Desk (Option ℕ)
  unfolding turns_across
  calibrate_turns cfg trials speed_mm_s target_deg =
      turns_across cfg trials speed_mm_s target_deg cfg.trackwidth_mm

  unfoldable pub calibrate_distance : RobotConfig → ℕ → String → String → Exec Desk (Option ℕ)
  unfolding drive_one_of conclude
  calibrate_distance cfg trials distance_mm speed_mm_s = do
    measured ←
        run_interactive_trials
          (drive_one_of (compute_distance_trial ops distance_mm speed_mm_s cfg.distance_scale))
          trials []
    conclude (λ value. record cfg { distance_scale = some value }) cfg.distance_scale distance_mm
        measured
