-- ===== src/Python/Exec.antt =====
-- Methods that change an object and may raise. What was written before a raise stays written.
use radio_robot_lib.Prelude.{Bool, true, false, ◌≡◌, refl, if◌then◌else◌}
use radio_robot_lib.Python.Error.{Error, Result, ok, err}

abbrev pub Exec {ℓ} : Type ℓ → Type ℓ → Type ℓ
Exec S A = S → Result A × S

abbrev pub pure {ℓ} : {S A : Type ℓ} → A → Exec S A
pure value state = (ok value, state)

abbrev pub lift {ℓ} : {S A : Type ℓ} → Result A → Exec S A
lift result state = (result, state)

abbrev pub raise {ℓ} : {S A : Type ℓ} → Error → Exec S A
raise error state = (err error, state)

-- Go on with the value, if there is one.
abbrev pub continue {ℓ} : {S A B : Type ℓ} → Result A → (A → Exec S B) → Exec S B
continue (err error) next state = (err error, state)
continue (ok value) next state = next value state

infixl 5 ◌>>=◌ ◌>>◌
abbrev pub ◌>>=◌ {ℓ} : {S A B : Type ℓ} → Exec S A → (A → Exec S B) → Exec S B
◌>>=◌ first next state = continue (first state).0 next (first state).1

abbrev pub ◌>>◌ {ℓ} : {S A B : Type ℓ} → Exec S A → Exec S B → Exec S B
first >> second = first >>= λ ignored. second

-- The property outlasts the method, whether it returns or raises.
abbrev pub Keeps {ℓ} : {S A : Type ℓ} → (S → Type ℓ) → Exec S A → Type ℓ
Keeps P method = (state : _) → P state → P (method state).1

Keeps-continue {ℓ} :
    {S A B : Type ℓ} (P : S → Type ℓ) (result : Result A) (next : A → Exec S B) (state : S)
    → P state
    → ((value : A) → Keeps P (next value))
    → P (continue result next state).1
Keeps-continue P (err error) next state holds onwards = holds
Keeps-continue P (ok value) next state holds onwards = onwards value state holds

pub Keeps-bind {ℓ} :
    {S A B : Type ℓ} (P : S → Type ℓ) (first : Exec S A) (next : A → Exec S B)
    → Keeps P first
    → ((value : A) → Keeps P (next value))
    → Keeps P (first >>= next)
Keeps-bind P first next begins onwards state holds =
    Keeps-continue P (first state).0 next (first state).1 (begins state holds) onwards

pub Keeps-if {ℓ} :
    {S A : Type ℓ} (P : S → Type ℓ) (test : Bool) (yes_branch no_branch : Exec S A)
    → (test ≡ true → Keeps P yes_branch)
    → (test ≡ false → Keeps P no_branch)
    → Keeps P (if test then yes_branch else no_branch)
Keeps-if P true yes_branch no_branch passed failed = passed refl
Keeps-if P false yes_branch no_branch passed failed = failed refl

-- What holds of a method's outcome holds of what is made of it.
pub bind_outcome {ℓ} :
    {S A B : Type ℓ} (P : Result A × S → Type ℓ) (Q : Result B × S → Type ℓ) (f : A → Exec S B)
    (x : Result A × S)
    → ((e : Error) (s : S) → Q (err e, s))
    → ((a : A) (s : S) → P (ok a, s) → Q (f a s))
    → P x
    → Q (continue x.0 f x.1)
bind_outcome P Q f (err e, s) failed went h = failed e s
bind_outcome P Q f (ok a, s) failed went h = went a s h
