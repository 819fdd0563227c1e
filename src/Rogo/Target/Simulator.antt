-- ===== src/Rogo/Target/Simulator.antt =====
-- `ensure_sim_binary` of src/host/rogo/connection.py. A file is its modification time, if it exists.
-- The file system and the compiler are parameters: whether `mkdir` makes the build directory or
-- raises an `OSError`; whether the compiler could be run and what it returned, and the executable
-- that stands there afterwards.
use radio_robot_lib.Prelude.{
  ℕ, zero, suc, ◌≡◌, refl, Bool, true, false, Option, none, some, List, [], ◌∷◌, inl, inr, ◌⊎◌,
  if◌then◌else◌, Bool-cases,
}
use radio_robot_lib.Python.Error.{Error, Result, ok, err, sim_binary_error, os_error}
use radio_robot_lib.Rogo.Target.{needs_rebuild}
use radio_robot_lib.Rogo.Target.Choice.{IsCurrent, needs_rebuild-IsCurrent}

pub record Tree : Type 0 where
  pub sim_main : Option ℕ
  pub protocol_src : Option ℕ
  pub build_dir : Bool
  pub exe : Option ℕ

-- `OSError` of `subprocess.run`, or the return code.
pub data Compiled : Type 0 where
  not_run : Compiled
  returned : ℕ → Compiled

abbrev pub sources : Tree → List (Option ℕ)
sources t = t.sim_main ∷ t.protocol_src ∷ []

unfoldable pub compiled_as : Compiled → Tree → Result (Unit {0}) × Tree
compiled_as not_run t = (err sim_binary_error, t)
compiled_as (returned zero) t = (ok tt, t)
compiled_as (returned (suc n)) t = (err sim_binary_error, t)

module _ (mkdir : Tree → Bool) (compiler : Tree → Compiled × Option ℕ) where
  -- The run of the compiler, once the directory is there.
  unfoldable pub compile : Tree → Result (Unit {0}) × Tree
  unfolding compiled_as
  compile ready =
      let (outcome, exe) = compiler ready in compiled_as outcome (record ready { exe = exe })

  -- `build_dir.mkdir(parents=True, exist_ok=True)`, and the compiler; the `OSError` of the former
  -- is not caught.
  unfoldable pub build : Tree → Result (Unit {0}) × Tree
  unfolding compile
  build t = if mkdir t then compile (record t { build_dir = true }) else (err os_error, t)

  unfoldable pub ensure_present : Option ℕ → Tree → Result (Unit {0}) × Tree
  unfolding build
  ensure_present none t = (err sim_binary_error, t)
  ensure_present (some mtime) t = if needs_rebuild t.exe (sources t) then build t else (ok tt, t)

  unfoldable pub ensure_sim_binary : Tree → Result (Unit {0}) × Tree
  unfolding ensure_present
  ensure_sim_binary t = ensure_present t.sim_main t

  -- The sources stay as they are; a binary that is returned is there and up to date, and the one
  -- that was there if that was; and nothing but a `SimBinaryError` is raised, except where the build
  -- directory cannot be made.
  pub record IsBuilt (t u : Tree) (r : Result (Unit {0})) : Type 0 where
    pub same_sources : sources u ≡ sources t
    pub current : r ≡ ok tt → IsCurrent u.exe (sources t)
    pub kept : needs_rebuild t.exe (sources t) ≡ false → u ≡ t
    pub raises :
        (e : Error) → r ≡ err e → (e ≡ sim_binary_error) ⊎ ((e ≡ os_error) × (mkdir t ≡ false))

  module _
      (makes_it : (t : Tree) (exe : Option ℕ)
        → compiler t ≡ (returned 0, exe)
        → IsCurrent exe (sources t)) where
    compiled_as-IsBuilt :
        (t : Tree) (outcome : Compiled) (exe : Option ℕ)
        → compiler (record t { build_dir = true }) ≡ (outcome, exe)
        → needs_rebuild t.exe (sources t) ≡ true
        → IsBuilt t
            (compiled_as outcome (record t { build_dir = true; exe = exe })).1
            (compiled_as outcome (record t { build_dir = true; exe = exe })).0
    unfolding compiled_as
    compiled_as-IsBuilt t not_run exe e stale = record {
      same_sources = refl;
      current = λ h. absurd (cc);
      kept = λ h. absurd (cc (h, stale));
      raises = λ x h. inl (cc);
    }
    compiled_as-IsBuilt t (returned zero) exe e stale = record {
      same_sources = refl;
      current = λ h. makes_it (record t { build_dir = true }) exe e;
      kept = λ h. absurd (cc (h, stale));
      raises = λ x h. absurd (cc);
    }
    compiled_as-IsBuilt t (returned (suc n)) exe e stale = record {
      same_sources = refl;
      current = λ h. absurd (cc);
      kept = λ h. absurd (cc (h, stale));
      raises = λ x h. inl (cc);
    }

    untouched :
        (t : Tree) (r : Result (Unit {0}))
        → (r ≡ ok tt → IsCurrent t.exe (sources t))
        → ((e : Error) → r ≡ err e → (e ≡ sim_binary_error) ⊎ ((e ≡ os_error) × (mkdir t ≡ false)))
        → IsBuilt t t r
    untouched t r fine bad = record {
      same_sources = refl;
      current = fine;
      kept = λ h. refl;
      raises = bad;
    }

    build-IsBuilt :
        (t : Tree) → needs_rebuild t.exe (sources t) ≡ true → IsBuilt t (build t).1 (build t).0
    unfolding build compile
    build-IsBuilt t stale = elim (Bool-cases (mkdir t)) [
      | inl made ↦ rw made (
          compiled_as-IsBuilt t (compiler (record t { build_dir = true })).0
            (compiler (record t { build_dir = true })).1 refl stale)
      | inr failed ↦
          rw failed (untouched t (err os_error) (λ h. absurd (cc)) (λ x h. inr (cc, failed)))
    ]

    present-IsBuilt :
        (main : Option ℕ) (t : Tree)
        → t.sim_main ≡ main
        → IsBuilt t (ensure_present main t).1 (ensure_present main t).0
    unfolding ensure_present
    present-IsBuilt none t e =
        untouched t (err sim_binary_error) (λ h. absurd (cc)) (λ x h. inl (cc))
    present-IsBuilt (some mtime) t e = elim (Bool-cases (needs_rebuild t.exe (sources t))) [
      | inl stale ↦ rw stale (build-IsBuilt t stale)
      | inr fine ↦ rw fine (
          untouched t (ok tt) (λ h. needs_rebuild-IsCurrent t.exe (sources t) fine)
            (λ x h. absurd (cc)))
    ]

    -- If a compiler that returns 0 leaves an executable no older than the sources: a binary that is
    -- returned is there and no older than any source that is there, the sources stay as they are,
    -- nothing at all changes where the binary was up to date, and what is raised is a
    -- `SimBinaryError`, or the `OSError` of a build directory that cannot be made.
    pub ensure_sim_binary-IsBuilt :
        (t : Tree) → IsBuilt t (ensure_sim_binary t).1 (ensure_sim_binary t).0
    unfolding ensure_sim_binary
    ensure_sim_binary-IsBuilt t = present-IsBuilt t.sim_main t refl
