-- ===== src/Rogo/Pumping/Ending.antt =====
-- That `pump_until` ends, with what it was waiting for or past its deadline.
use radio_robot_lib.Prelude.{
  ℕ, zero, suc, ◌+◌, ◌≤◌, ◌<◌, ◌≡◌, refl, Bool, true, false, Option, none, some, List, [], ◌++◌,
  ltb, ltb→lt, ltb-false, arith, Bool-cases, inl, inr, ◌⊎◌,
}
use radio_robot_lib.Python.Error.{Error, Result, ok, err}
use radio_robot_lib.Python.Exec.{Exec, bind_outcome, continue}
use radio_robot_lib.RobotV6.Codec.{Reply}
use radio_robot_lib.RobotV6.Session.{World, Session, monotonic, pump}
use radio_robot_lib.RobotV6.Session.Progress.{IsMonotonic, IsLate, Advances-stable, Advances-refl}
use radio_robot_lib.RobotV6.Session.Stable.{pump-Keeps}
use radio_robot_lib.Rogo.Pumping.{unless_cut, stop_or, while_early, pump_rounds, pump_until}

abbrev tick : Session → Session
tick s = record s { clock_reads = suc s.clock_reads }

-- What holds of a run that may be cut off holds of what comes after it.
pub cut_outcome :
    {A B : Type 0} (P : Result (Option A) × Session → Type 0)
    (Q : Result (Option B) × Session → Type 0) (f : A → Exec Session (Option B))
    (x : Result (Option A) × Session)
    → ((e : Error) (s : Session) → Q (err e, s))
    → ((s : Session) → P (ok none, s) → Q (ok none, s))
    → ((a : A) (s : Session) → P (ok (some a), s) → Q (f a s))
    → P x
    → Q (continue x.0 (unless_cut f) x.1)
cut_outcome P Q f (err e, s) failed cut went h = failed e s
cut_outcome P Q f (ok none, s) failed cut went h = cut s h
cut_outcome P Q f (ok (some a), s) failed cut went h = went a s h

-- How the loop may come out: with a test that passed at its end, or late.
abbrev pub Pumped :
    World → (List Reply → Session → Bool) → ℕ → ℕ → Result (Option (List Reply)) × Session → Type 0
Pumped w predicate deadline clock_reads (err e, s) = Unit
Pumped w predicate deadline clock_reads (ok none, s) = ⊥
Pumped w predicate deadline clock_reads (ok (some replies), s) =
    (clock_reads ≤ s.clock_reads) × ((predicate replies s ≡ true) ⊎ IsLate w deadline s)

abbrev Later : {A : Type 0} → Session → Result A × Session → Type 0
Later s x = s.clock_reads ≤ x.1.clock_reads

module _ (w : World) (predicate : List Reply → Session → Bool) (deadline : ℕ) where
  stop_or-Pumped :
      (c : ℕ) (collected : List Reply) (rest : Exec Session (Option (List Reply))) (b : Bool)
      (s : Session)
      → c ≤ s.clock_reads
      → predicate collected s ≡ b
      → Pumped w predicate deadline c (rest s)
      → Pumped w predicate deadline c (stop_or w collected rest b s)
  unfolding stop_or
  stop_or-Pumped c collected rest true s later passed h = (later, inl passed)
  stop_or-Pumped c collected rest false s later passed h = h

  while_early-Pumped :
      (collected : List Reply) (body : Exec Session (Option (List Reply))) (b : Bool) (s : Session)
      → ltb (w.monotonic s.clock_reads) deadline ≡ b
      → (b ≡ true → Pumped w predicate deadline s.clock_reads (body (tick s)))
      → Pumped w predicate deadline s.clock_reads (while_early w collected body b (tick s))
  unfolding while_early
  while_early-Pumped collected body true s e h = h refl
  while_early-Pumped collected body false s e h =
      (omega arith, inr (s.clock_reads, refl, ltb-false _ _ e))

  module _ (steady : IsMonotonic w) (k : ℕ) (reached : deadline ≤ w.monotonic k) where
    ahead : (c : ℕ) → ltb (w.monotonic c) deadline ≡ true → c < k
    ahead c h = elim (Bool-cases (ltb c k)) [
      | inl below ↦ ltb→lt c k below
      | inr above ↦ absurd (ground (arith, steady k c (ltb-false c k above)))
    ]

    weaken :
        (a b : ℕ) (x : Result (Option (List Reply)) × Session)
        → a ≤ b
        → Pumped w predicate deadline b x
        → Pumped w predicate deadline a x
    weaken a b (err e, s) le h = tt
    weaken a b (ok none, s) le h = h
    weaken a b (ok (some replies), s) le (later, h) = (omega (arith, le, later), h)

    pump_rounds-Pumped :
        (fuel : ℕ) (collected : List Reply) (s : Session)
        → 0 < fuel
        → k < fuel + s.clock_reads
        → Pumped w predicate deadline s.clock_reads
            (pump_rounds w predicate fuel deadline collected s)
    unfolding pump_rounds monotonic
    pump_rounds-Pumped zero collected s h enough = absurd (omega arith)
    pump_rounds-Pumped (suc fuel) collected s h enough =
        while_early-Pumped collected _ (ltb (w.monotonic s.clock_reads) deadline) s refl λ early.
          bind_outcome (Later (tick s)) (Pumped w predicate deadline s.clock_reads) _
            (pump w (tick s)) (λ e t. tt)
            (λ replies t later.
              stop_or-Pumped s.clock_reads (collected ++ replies) _ _ t (omega (arith, later)) refl
                (weaken s.clock_reads t.clock_reads _ (omega (arith, later)) (
                  pump_rounds-Pumped fuel (collected ++ replies) t
                    (omega (arith, ahead s.clock_reads early)) (omega (arith, later)))))
            (pump-Keeps (Advances-stable (tick s)) w (tick s) (Advances-refl (tick s))).clocks

-- In `fuel` readings of the clock at least the time passes.
abbrev pub IsPaced : World → ℕ → ℕ → Type 0
IsPaced w fuel time = (i : ℕ) → w.monotonic i + time ≤ w.monotonic (i + fuel)

-- The wait for replies always ends, if the clock never goes back and passes the time-out within as
-- many readings as there are rounds: with a test that holds of the replies and the session at the
-- end, or at a reading of the clock at or after the deadline, or by an error that `pump` raised.
pub pump_until-Pumped :
    (w : World) (predicate : List Reply → Session → Bool) (fuel timeout : ℕ) (s : Session)
    → IsMonotonic w
    → IsPaced w fuel timeout
    → 0 < fuel
    → Pumped w predicate
        (w.monotonic s.clock_reads + timeout)
        s.clock_reads
        (pump_until w predicate fuel timeout s)
unfolding pump_until monotonic
pump_until-Pumped w predicate fuel timeout s steady paced some_fuel =
    weaken w predicate _ steady (s.clock_reads + fuel) (paced s.clock_reads) s.clock_reads
      (suc s.clock_reads) _ (omega arith)
      (pump_rounds-Pumped w predicate _ steady (s.clock_reads + fuel) (paced s.clock_reads) fuel []
        (tick s) some_fuel (omega arith))
