-- ===== src/Rogo/Calibrate.antt =====
-- src/host/rogo/calibrate.py, what it computes: the numbers of a distance trial, and a slip or scale
-- from the measured values. The trials are in Calibrate/Trials, the proofs in Calibrate/Sane.
pub mod Trials
pub mod Sane
pub mod Command
pub mod Kept
pub mod Saving
use radio_robot_lib.Prelude.{
  ℕ, ◌&&◌, ◌||◌, Bool, true, false, Option, none, some, String, List, [], ◌∷◌, length, ltb,
  if◌then◌else◌,
}
use radio_robot_lib.Prelude.Int.{ℤ, pos}
use radio_robot_lib.Python.Error.{Result, ok, err, value_error, ◌>>=◌}
use radio_robot_lib.Rogo.Floats.{Floats}
use radio_robot_lib.Rogo.TurnModel.{float_or}

-- `updated_value` is `none` with too few samples and with a rejected value; `mean_ratio` tells them
-- apart. The samples are their measured values.
pub record CalibrationResult : Type 0 where
  pub samples : List String
  pub starting_value : String
  pub mean_ratio : Option String
  pub updated_value : Option String
  pub rejected : Bool

module _ (ops : Floats) where
  -- `[m for m in measured_values if m > 0]`
  unfoldable pub positive : List String → List String
  positive [] = []
  positive (m ∷ measured) = let rest = positive measured in if ops.lt "0" m then m ∷ rest else rest

  -- `sum(s.ratio for s in samples)` from what is summed so far
  unfoldable pub sum_ratios : String → String → List String → Result String
  sum_ratios total target [] = ok total
  sum_ratios total target (m ∷ measured) = do
    ratio ← ops.divide m target
    sum_ratios (ops.add total ratio) target measured

  unfoldable pub is_sane : String × String → String → Bool
  is_sane (lo, hi) updated = ops.le lo updated && ops.le updated hi

  unfoldable pub judged : List String → String → String → String → Bool → CalibrationResult
  judged samples starting mean_ratio updated sane = record {
    samples = samples;
    starting_value = starting;
    mean_ratio = some mean_ratio;
    updated_value = if sane then some updated else none;
    rejected = if sane then false else true;
  }

  unfoldable pub average :
      List String → String → String → String × String → Result CalibrationResult
  unfolding sum_ratios is_sane judged
  average samples starting target sane_range = do
    total ← sum_ratios "0" target samples
    mean_ratio ← ops.divide total (ops.of_int (pos (length samples)))
    ok (
        judged samples starting mean_ratio (ops.mul starting mean_ratio)
          (is_sane sane_range (ops.mul starting mean_ratio)))

  unfoldable pub not_enough : List String → String → CalibrationResult
  not_enough samples starting = record {
    samples = samples;
    starting_value = starting;
    mean_ratio = none;
    updated_value = none;
    rejected = false;
  }

  unfoldable pub compute_calibration :
      Option String → String → List String → String × String → Result CalibrationResult
  unfolding positive average not_enough float_or
  compute_calibration current_value target measured sane_range =
      let samples = positive measured in
      let starting = float_or current_value "1.0" in
      if ltb (length samples) 3
      then ok (not_enough samples starting)
      else average samples starting target sane_range

  -- A scale that is not positive must not divide the wrong way.
  unfoldable pub usable_scale : Option String → String
  unfolding float_or
  usable_scale distance_scale =
      let scale = float_or distance_scale "1.0" in if ops.le scale "0" then "1.0" else scale

  unfoldable pub compute_distance_trial : String → String → Option String → Result (ℤ × ℤ × ℤ)
  unfolding usable_scale
  compute_distance_trial distance_mm speed_mm_s distance_scale =
      if ops.le distance_mm "0" || ops.le speed_mm_s "0" then err value_error else do
        seconds ←
            ops.divide (ops.mul "1000.0" distance_mm)
              (ops.mul (usable_scale distance_scale) speed_mm_s)
        duration_ms ← ops.round seconds
        command ← ops.round speed_mm_s
        ok (command, command, duration_ms)
