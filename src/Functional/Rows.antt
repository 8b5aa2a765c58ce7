-- ===== src/Functional/Rows.antt =====
-- The rows that a functional run records, over every sequence of calls and in a replay.
use cpssim.Base.{
  ℕ, ◌+◌, ◌-◌, ◌≤◌, ◌<◌, ◌≡◌, refl, ◌⊎◌, inl, inr, Bool, true, false, List, [], ◌∷◌, ◌++◌, ok,
  Result-cases, ℤ, arith, ◌==◌, ==_iff, Bool-cases, length, length-append, subst,
}
use cpssim.Functional.{
  FunctionalModel, FunctionalObservation, FunctionalRuntime, validate_observation, validate_rows,
  new_runtime, initialize, advance_to,
}

-- The rows are those of consecutive ticks, the first of which is `n`.
abbrev pub TicksFrom : {R : Type 0} → ℕ → List (FunctionalObservation R) → Type 0
TicksFrom n [] = Unit
TicksFrom n (row ∷ rows) = (row.tick ≡ n) × TicksFrom (n + 1) rows

TicksFrom-append :
    {R : Type 0} (n : ℕ) (xs ys : List (FunctionalObservation R))
    → TicksFrom n xs
    → TicksFrom (n + length xs) ys
    → TicksFrom n (xs ++ ys)
TicksFrom-append n [] ys h k = subst (λ m. TicksFrom m ys) (omega arith) k
TicksFrom-append n (x ∷ xs) ys (e, h) k =
    (e, TicksFrom-append (n + 1) xs ys h (subst (λ m. TicksFrom m ys) (omega arith) k))

module _ {R : Type 0} (is_finite : R → Bool) where
  validate_observation-tick :
      (row : FunctionalObservation R) (n : ℕ)
      → validate_observation is_finite row n ≡ ok tt
      → row.tick ≡ n
  unfolding validate_observation
  validate_observation-tick row n h = ground arith

  validate_rows-TicksFrom :
      (n : ℕ) (rows : List (FunctionalObservation R))
      → validate_rows is_finite n rows ≡ ok tt
      → TicksFrom n rows
  unfolding validate_rows
  validate_rows-TicksFrom n [] h = tt
  validate_rows-TicksFrom n (row ∷ rows) h =
      elim (Result-cases (validate_observation is_finite row n)) [
        | inr (error, f) ↦ ground (arith, f)
        | inl (u, f) ↦ (
          validate_observation-tick row n f,
          validate_rows-TicksFrom (n + 1) rows (ground (arith, f)),
        )
      ]

-- One row has been recorded for each tick up to the current one.
pub record IsRecorded {R S : Type 0} (runtime : FunctionalRuntime R S) : Type 0 where
  pub ticks : TicksFrom 0 runtime.trace
  pub count : length runtime.trace ≡ runtime.current_tick + 1
  pub in_horizon : runtime.current_tick ≤ runtime.stop_tick
  pub complete : (runtime.finalized ≡ false) ⊎ (runtime.current_tick ≡ runtime.stop_tick)

-- What holds before the start of the model and after it.
pub data Phase {R S : Type 0} (runtime : FunctionalRuntime R S) : Type 0 where
  fresh :
      runtime.initialized ≡ false
      → runtime.trace ≡ []
      → runtime.current_tick ≡ 0
      → runtime.finalized ≡ false
      → Phase runtime
  active : runtime.initialized ≡ true → IsRecorded runtime → Phase runtime

pub Phase-IsRecorded :
    {R S : Type 0} (runtime : FunctionalRuntime R S)
    → Phase runtime
    → runtime.initialized ≡ true
    → IsRecorded runtime
Phase-IsRecorded runtime (fresh i t c f) e = cc
Phase-IsRecorded runtime (active i v) e = v

module _ {R S : Type 0} (is_finite : R → Bool) (model : FunctionalModel R S) where
  pub new_runtime-Phase :
      (state : S) (tick_period stop_tick : ℤ) (runtime : FunctionalRuntime R S)
      → new_runtime is_finite model state tick_period stop_tick ≡ ok runtime
      → Phase runtime
  unfolding new_runtime
  new_runtime-Phase state tick_period stop_tick runtime h =
      fresh (ground arith) (ground arith) (ground arith) (ground arith)

  pub initialize-Phase :
      (runtime runtime' : FunctionalRuntime R S)
      → Phase runtime
      → initialize is_finite model runtime ≡ ok runtime'
      → Phase runtime'
  initialize-Phase runtime runtime' (active i v) h = unfold initialize in ground (arith, i)
  initialize-Phase runtime runtime' (fresh i t c f) h =
      elim (Result-cases (model.initialize runtime.model runtime.tick_period runtime.stop_tick)) [
        | inr (error, a) ↦ unfold initialize in ground (arith, i, a)
        | inl ((row, state), a) ↦ elim (Result-cases (validate_observation is_finite row 0)) [
          | inr (error, b) ↦ unfold initialize in ground (arith, i, a, b)
          | inl (u, b) ↦
              let e : runtime' ≡ record runtime {
                model = state;
                initialized = true;
                trace = runtime.trace ++ row ∷ [];
              } =
                unfold initialize in ground (arith, i, a, b) in
              rw e (
                active refl (record {
                  ticks = rw t (validate_observation-tick is_finite row 0 b, tt);
                  count = rw (t, c) refl;
                  in_horizon = rw c (omega arith);
                  complete = inl f;
                }))
        ]
      ]

  -- An accepted advance either stays at its tick or appends one valid row for each new tick.
  pub advance_cases :
      (runtime : FunctionalRuntime R S) (target : ℕ) (runtime' : FunctionalRuntime R S)
      → advance_to is_finite model runtime target ≡ ok runtime'
      → (runtime.initialized ≡ true)
        × (runtime.finalized ≡ false)
        × (target ≤ runtime.stop_tick)
        × ((target ≡ runtime.current_tick) × (runtime' ≡ runtime)
            ⊎ ((rows : List (FunctionalObservation R)) × (state : S) × (runtime.current_tick
                  < target)
                × (model.advance_to runtime.model target ≡ ok (rows, state))
                × (length rows ≡ target - runtime.current_tick)
                × TicksFrom (runtime.current_tick + 1) rows
                × (runtime' ≡ record runtime {
                  model = state;
                  current_tick = target;
                  actions_applied_at_current_tick = false;
                  trace = runtime.trace ++ rows;
                })))
  advance_cases runtime target runtime' h = (
    unfold advance_to in ground arith,
    unfold advance_to in ground arith,
    unfold advance_to in ground arith,
    elim (Bool-cases (target == runtime.current_tick)) [
      | inl e ↦ inl ((==_iff _ _).0 e, unfold advance_to in ground (arith, e))
      | inr n ↦ elim (Result-cases (model.advance_to runtime.model target)) [
        | inr (error, a) ↦ unfold advance_to in ground (arith, n, a)
        | inl ((rows, state), a) ↦
            elim (Result-cases (validate_rows is_finite (runtime.current_tick + 1) rows)) [
              | inr (error, b) ↦ unfold advance_to in ground (arith, n, a, b)
              | inl (u, b) ↦ inr (
                rows,
                state,
                unfold advance_to in ground (arith, n, a, b),
                a,
                unfold advance_to in ground (arith, n, a, b),
                validate_rows-TicksFrom is_finite (runtime.current_tick + 1) rows b,
                unfold advance_to in ground (arith, n, a, b),
              )
            ]
      ]
    ],
  )

  pub advance_to-Phase :
      (runtime : FunctionalRuntime R S) (target : ℕ) (runtime' : FunctionalRuntime R S)
      → Phase runtime
      → advance_to is_finite model runtime target ≡ ok runtime'
      → Phase runtime'
  advance_to-Phase runtime target runtime' p h =
      let (i, f, le, step) = advance_cases runtime target runtime' h in
      let v = Phase-IsRecorded runtime p i in
      elim step [
        | inl (e, same) ↦ rw same p
        | inr (rows, state, lt, a, n, ticks, e) ↦ rw e (
            active i (record {
              ticks =
                  TicksFrom-append 0 runtime.trace rows v.ticks
                    (subst (λ m. TicksFrom m rows) (omega (arith, v.count)) ticks);
              count = omega (arith, length-append runtime.trace rows, v.count, n, lt);
              in_horizon = le;
              complete = inl f;
            }))
      ]
