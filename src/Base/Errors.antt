-- ===== src/Base/Errors.antt =====
-- The standard exceptions that the program throws, as values, and the guards that throw them.
use Prim.Native.Nat.{ℕ, zero, suc}
use mathlib.Core.Path.{◌≡◌, refl}
use mathlib.Core.Logic.{◌⊎◌, inl, inr}
use mathlib.Core.Bool.{Bool, true, false}
use cpssim.Base.Tests.{leb, if◌then◌else◌}

-- std::invalid_argument, std::logic_error, std::overflow_error, std::out_of_range.
pub data Error : Type 0 where
  invalid_argument logic_error overflow_error out_of_range : Error

-- What a function that may throw ends in.
pub data Result {ℓ} (T : Type ℓ) : Type ℓ where
  ok : (value : T) → Result T
  err : (error : Error) → Result T

module _ {ℓ κ} {T : Type ℓ} {U : Type κ} where
  infixl 5 ◌>>=◌
  -- The statements that follow are reached only if nothing was thrown.
  abbrev pub ◌>>=◌ : Result T → (T → Result U) → Result U
  err error >>= rest = err error
  ok value >>= rest = rest value

-- A call ends normally or throws; the equation is kept.
pub Result-cases {ℓ} :
    {T : Type ℓ} (r : Result T)
    → ((value : T) × (r ≡ ok value)) ⊎ ((error : Error) × (r ≡ err error))
Result-cases (ok value) = inl (value, refl)
Result-cases (err error) = inr (error, refl)

-- A check that throws or does nothing, before the statements that follow.
infixl 5 ◌>>◌
abbrev pub ◌>>◌ {κ} : {U : Type κ} → Result (Unit {0}) → Result U → Result U
first >> second = first >>= λ ignored. second

-- `if (condition) throw error;`
abbrev pub throw_if : Bool → Error → Result (Unit {0})
throw_if true e = err e
throw_if false e = ok tt

-- A signed integer as a caller supplies it; `negsuc n` is -(n + 1).
pub data ℤ : Type 0 where
  pos : ℕ → ℤ
  negsuc : ℕ → ℤ

-- `if (value < 0) throw error;`, and the value as a number from there on.
abbrev pub nonnegative : ℤ → Error → Result ℕ
nonnegative (pos n) e = ok n
nonnegative (negsuc n) e = err e

-- `if (value <= 0) throw error;`
abbrev pub positive : ℤ → Error → Result ℕ
positive (pos zero) e = err e
positive (pos (suc n)) e = ok (suc n)
positive (negsuc n) e = err e

-- `if (value <= bound) throw error;`
abbrev pub after : ℤ → ℕ → Error → Result ℕ
after (pos n) bound error = if leb n bound then err error else ok n
after (negsuc n) bound error = err error
