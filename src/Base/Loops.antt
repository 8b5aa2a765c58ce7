-- ===== src/Base/Loops.antt =====
-- Loops that no structure bounds, on fuel: what they end in, and the rule for a loop with a measure.
use Prim.Native.Nat.{ℕ, zero, suc, ◌<◌}
use mathlib.Core.Path.{◌≡◌, refl, sym, subst}
use mathlib.Core.Logic.{inl, inr}
use mathlib.Core.Bool.{Bool, true, false}
use native.Mathlib.Omega.{arith}
use cpssim.Base.Tests.{Bool-cases, if◌then◌else◌}
use cpssim.Base.Errors.{Result, ok, err}

-- Either the code ends, normally or by a throw, or the fuel of the model does.
pub data Run {ℓ} (T : Type ℓ) : Type ℓ where
  finished : (result : Result T) → Run T
  out_of_fuel : Run T

module _ {ℓ κ} {T : Type ℓ} {U : Type κ} where
  infixl 5 ◌>>=◌
  abbrev pub ◌>>=◌ : Run T → (T → Run U) → Run U
  out_of_fuel >>= rest = out_of_fuel
  finished (err error) >>= rest = finished (err error)
  finished (ok value) >>= rest = rest value

-- `while (test(state)) state = body(state);`
unfoldable pub while {ℓ} : {T : Type ℓ} → ℕ → (T → Bool) → (T → Run T) → T → Run T
while zero test body state = elim (test state) [ true ↦ out_of_fuel | false ↦ finished (ok state) ]
while (suc fuel) test body state = elim (test state) [
  | true ↦ body state >>= λ next. while fuel test body next
  | false ↦ finished (ok state)
]

-- The code ends, and where it ends normally the predicate holds.
abbrev pub Ends {ℓ} : {T : Type ℓ} → (T → Type 0) → Run T → Type 0
Ends P (finished (ok value)) = P value
Ends P (finished (err error)) = Unit
Ends P out_of_fuel = ⊥

pub Ends-bind {ℓ κ} :
    {T : Type ℓ} {U : Type κ} (P : T → Type 0) (Q : U → Type 0) (r : Run T) (f : T → Run U)
    → Ends P r
    → ((x : T) → P x → Ends Q (f x))
    → Ends Q (r >>= f)
Ends-bind P Q (finished (ok x)) f h k = k x h
Ends-bind P Q (finished (err e)) f h k = tt
Ends-bind P Q out_of_fuel f h k = absurd h

pub Ends-finished {ℓ} :
    {T : Type ℓ} (P : T → Type 0) (r : Result T) → ((x : T) → r ≡ ok x → P x) → Ends P (finished r)
Ends-finished P (ok x) h = h x refl
Ends-finished P (err e) h = tt

pub Ends-map {ℓ} :
    {T : Type ℓ} (P Q : T → Type 0) (r : Run T) → ((x : T) → P x → Q x) → Ends P r → Ends Q r
Ends-map P Q (finished (ok x)) f h = f x h
Ends-map P Q (finished (err e)) f h = tt
Ends-map P Q out_of_fuel f h = h

-- A loop whose body ends, keeps the invariant and lowers the measure, ends where the fuel exceeds the
-- measure, and then its test fails.
pub while-Ends {ℓ} :
    {T : Type ℓ} (P : T → Type 0) (measure : T → ℕ) (test : T → Bool) (body : T → Run T)
    → ((s : T) → P s → test s ≡ true → Ends (λ t. P t × (measure t < measure s)) (body s))
    → (fuel : ℕ) (s : T) → measure s < fuel
    → P s
    → Ends (λ t. P t × (test t ≡ false)) (while fuel test body s)
unfolding while
while-Ends P measure test body keep zero s m p = absurd (omega arith)
while-Ends P measure test body keep (suc fuel) s m p = elim (Bool-cases (test s)) [
  | inr e ↦ subst chosen (sym e) (p, e)
  | inl e ↦ subst chosen (sym e) (
      Ends-bind _ _ (body s) (λ t. while fuel test body t) (keep s p e)
        (λ t (q, lt). while-Ends P measure test body keep fuel t (omega arith) q))
]
  where
    chosen : Bool → Type 0
    chosen b =
        Ends (λ t. P t × (test t ≡ false))
          (elim b [ true ↦ body s >>= λ next. while fuel test body next | false ↦ finished (ok s) ])

pub Ends-if {ℓ} :
    {T : Type ℓ} (P : T → Type 0) (test : Bool) (a b : Run T)
    → (test ≡ true → Ends P a)
    → (test ≡ false → Ends P b)
    → Ends P (if test then a else b)
Ends-if P true a b h k = h refl
Ends-if P false a b h k = k refl

-- Where the code ends normally the predicate holds.
abbrev pub Returns {ℓ} : {T : Type ℓ} → (T → Type 0) → Run T → Type 0
Returns P (finished (ok value)) = P value
Returns P (finished (err error)) = Unit
Returns P out_of_fuel = Unit

pub Returns-bind {ℓ κ} :
    {T : Type ℓ} {U : Type κ} (P : T → Type 0) (Q : U → Type 0) (r : Run T) (f : T → Run U)
    → Returns P r
    → ((x : T) → P x → Returns Q (f x))
    → Returns Q (r >>= f)
Returns-bind P Q (finished (ok x)) f h k = k x h
Returns-bind P Q (finished (err e)) f h k = tt
Returns-bind P Q out_of_fuel f h k = tt

pub Returns-finished {ℓ} :
    {T : Type ℓ} (P : T → Type 0) (r : Result T)
    → ((x : T) → r ≡ ok x → P x)
    → Returns P (finished r)
Returns-finished P (ok x) h = h x refl
Returns-finished P (err e) h = tt

pub Returns-if {ℓ} :
    {T : Type ℓ} (P : T → Type 0) (test : Bool) (a b : Run T)
    → (test ≡ true → Returns P a)
    → (test ≡ false → Returns P b)
    → Returns P (if test then a else b)
Returns-if P true a b h k = h refl
Returns-if P false a b h k = k refl

-- What holds of every result.
pub Returns-any {ℓ} : {T : Type ℓ} (r : Run T) → Returns (λ x. Unit {0}) r
Returns-any (finished (ok x)) = tt
Returns-any (finished (err e)) = tt
Returns-any out_of_fuel = tt

-- A step about whose result nothing is used.
pub Returns-skip {ℓ κ} :
    {T : Type ℓ} {U : Type κ} (Q : U → Type 0) (r : Run T) (f : T → Run U)
    → ((x : T) → Returns Q (f x))
    → Returns Q (r >>= f)
Returns-skip Q r f k = Returns-bind (λ x. Unit {0}) Q r f (Returns-any r) (λ x _. k x)

pub while-Returns {ℓ} :
    {T : Type ℓ} (P : T → Type 0) (test : T → Bool) (body : T → Run T)
    → ((s : T) → P s → Returns P (body s))
    → (fuel : ℕ) (s : T) → P s
    → Returns P (while fuel test body s)
unfolding while
while-Returns P test body keep zero s p = elim (Bool-cases (test s)) [
  | inl e ↦ rw (e, Returns) tt
  | inr e ↦ rw (e, Returns) p
]
while-Returns P test body keep (suc fuel) s p = elim (Bool-cases (test s)) [
  | inr e ↦ subst chosen (sym e) p
  | inl e ↦ subst chosen (sym e) (
      Returns-bind P P (body s) (λ t. while fuel test body t) (keep s p)
        (λ t q. while-Returns P test body keep fuel t q))
]
  where
    chosen : Bool → Type 0
    chosen b =
        Returns P
          (elim b [ true ↦ body s >>= λ next. while fuel test body next | false ↦ finished (ok s) ])

pub Ends-Returns {ℓ} :
    {T : Type ℓ} (P Q : T → Type 0) (r : Run T) → Ends P r → Returns Q r → Ends (λ x. P x × Q x) r
Ends-Returns P Q (finished (ok x)) h k = (h, k)
Ends-Returns P Q (finished (err e)) h k = tt
Ends-Returns P Q out_of_fuel h k = absurd h
