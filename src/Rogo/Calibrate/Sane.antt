-- ===== src/Rogo/Calibrate/Sane.antt =====
-- What a calibration of src/host/rogo/calibrate.py can write: nothing, or a sane value.
use radio_robot_lib.Prelude.{
  ◌≡◌, ◌≤◌, refl, ◌&&◌, Bool, true, false, Option, none, some, String, List, [], ◌∷◌, ltb,
  ltb-false, length, inl, inr, Bool-cases, All,
}
use radio_robot_lib.Prelude.Int.{pos}
use radio_robot_lib.Python.Error.{Result, ok, err, result_outcome}
use radio_robot_lib.Rogo.Floats.{Floats}
use radio_robot_lib.Rogo.TurnModel.{float_or}
use radio_robot_lib.Rogo.Calibrate.{
  CalibrationResult, positive, sum_ratios, is_sane, judged, average, not_enough,
  compute_calibration,
}

module _ (ops : Floats) where
  positive-All : (measured : List String) → All (λ m. ops.lt "0" m ≡ true) (positive ops measured)
  unfolding positive
  positive-All [] = tt
  positive-All (m ∷ measured) = elim (Bool-cases (ops.lt "0" m)) [
    | inl above ↦ rw above (above, positive-All measured)
    | inr below ↦ rw below (positive-All measured)
  ]

  abbrev pub Updated : String × String → List String → Option String → Type 0
  Updated sane_range samples none = Unit
  Updated (lo, hi) samples (some value) =
      (3 ≤ length samples) × (ops.le lo value ≡ true) × (ops.le value hi ≡ true)

  -- An updated value comes with at least three samples, all positive, and lies in the range.
  abbrev pub IsSound : String × String → Result CalibrationResult → Type 0
  IsSound sane_range (err e) = Unit
  IsSound sane_range (ok result) =
      All (λ m. ops.lt "0" m ≡ true) result.samples
      × Updated sane_range result.samples result.updated_value

  both_true : (a b : Bool) → a && b ≡ true → (a ≡ true) × (b ≡ true)
  both_true true true h = (refl, refl)
  both_true true false h = absurd (cc)
  both_true false b h = absurd (cc)

  judged-IsSound :
      (lo hi : String) (samples : List String) (starting mean updated : String) (sane : Bool)
      → is_sane ops (lo, hi) updated ≡ sane
      → 3 ≤ length samples
      → All (λ m. ops.lt "0" m ≡ true) samples
      → IsSound (lo, hi) (ok (judged ops samples starting mean updated sane))
  unfolding judged is_sane
  judged-IsSound lo hi samples starting mean updated true e three above =
      let (low, high) = both_true (ops.le lo updated) (ops.le updated hi) e in
      (above, (three, low, high))
  judged-IsSound lo hi samples starting mean updated false e three above = (above, tt)

  average-IsSound :
      (lo hi : String) (samples : List String) (starting target : String)
      → 3 ≤ length samples
      → All (λ m. ops.lt "0" m ≡ true) samples
      → IsSound (lo, hi) (average ops samples starting target (lo, hi))
  unfolding average
  average-IsSound lo hi samples starting target three above =
      result_outcome (IsSound (lo, hi)) (sum_ratios ops "0" target samples) _ (λ e. tt)
        λ total.
          result_outcome (IsSound (lo, hi)) (ops.divide total (ops.of_int (pos (length samples)))) _
            (λ e. tt) λ mean. judged-IsSound lo hi samples starting mean _ _ refl three above

  -- Whatever was measured and whatever the float arithmetic, a calibration uses positive values
  -- only, and computes a new value only from at least three of them and only within the range: with
  -- fewer, or outside it, there is none.
  pub compute_calibration-IsSound :
      (current_value : Option String) (target : String) (measured : List String) (lo hi : String)
      → IsSound (lo, hi) (compute_calibration ops current_value target measured (lo, hi))
  unfolding compute_calibration not_enough
  compute_calibration-IsSound current_value target measured lo hi =
      elim (Bool-cases (ltb (length (positive ops measured)) 3)) [
        | inl few ↦ rw few (positive-All measured, tt)
        | inr enough ↦ rw enough (
            average-IsSound lo hi (positive ops measured) (float_or current_value "1.0") target
              (ltb-false _ _ enough) (positive-All measured))
      ]
