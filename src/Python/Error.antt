-- ===== src/Python/Error.antt =====
-- Exceptions as values. A pure function that may raise returns a `Result`.
pub data Error : Type 0 where
  value_error type_error index_error key_error invalid_operation : Error
  unicode_error pending_buffer_full transport_closed : Error
  zero_division_error overflow_error : Error
  -- `OSError`, and the package's own exceptions
  os_error target_error sim_binary_error robot_name_required daemon_unavailable : Error
  listen_target_error unreachable_target protocol_error : Error

pub data Result {ℓ} (A : Type ℓ) : Type ℓ where
  err : Error → Result A
  ok : A → Result A

infixl 5 ◌>>=◌
abbrev pub ◌>>=◌ {ℓ κ} : {A : Type ℓ} {B : Type κ} → Result A → (A → Result B) → Result B
err raised >>= next = err raised
ok value >>= next = next value

-- What holds of every value, and of every error, holds of the outcome.
pub result_outcome {ℓ κ μ} :
    {A : Type ℓ} {B : Type κ} (Q : Result B → Type μ) (r : Result A) (f : A → Result B)
    → ((e : Error) → Q (err e))
    → ((a : A) → Q (f a))
    → Q (r >>= f)
result_outcome Q (err e) f failed went = failed e
result_outcome Q (ok a) f failed went = went a
