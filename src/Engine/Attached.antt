-- ===== src/Engine/Attached.antt =====
-- What the calls of an engine make of its functional runtime.
use cpssim.Base.{
  ℕ, ◌≡◌, refl, subst, ◌∙◌, inl, inr, Bool, true, Option, none, some, List, ok, Result-cases, arith,
}
use cpssim.Event.{Event}
use cpssim.Functional
use cpssim.Functional.{FunctionalModel, FunctionalRuntime, new_runtime, advance_to, apply_actions}
use cpssim.Functional.Rows.{advance_cases}
use cpssim.Functional.History.{History, begins, advances, applies, ends}
use cpssim.Engine.{advance_functional, apply_functional, start_functional, finalize_functional}

module _ {R S : Type 0} (is_finite : R → Bool) (model : FunctionalModel R S) where
  -- The runtime that an option holds.
  unfoldable pub Holds : (FunctionalRuntime R S → Type 0) → Option (FunctionalRuntime R S) → Type 0
  Holds P none = ⊥
  Holds P (some runtime) = P runtime

  unfoldable pub Reached : Option (FunctionalRuntime R S) → Type 0
  Reached = Holds (History is_finite model)

  -- The runtime has been advanced to the tick.
  unfoldable pub Stands : ℕ → FunctionalRuntime R S → Type 0
  Stands tick runtime =
      History is_finite model runtime × (runtime.initialized ≡ true) × (runtime.current_tick ≡ tick)

  pub Stands-Reached :
      (tick : ℕ) (attached : Option (FunctionalRuntime R S))
      → Holds (Stands tick) attached
      → Reached attached
  unfolding Holds Reached Stands
  Stands-Reached tick none s = s
  Stands-Reached tick (some runtime) s = s.0

  finalize_keeps :
      (runtime runtime' : FunctionalRuntime R S)
      → Functional.finalize is_finite model runtime ≡ ok runtime'
      → (runtime'.initialized ≡ runtime.initialized)
        × (runtime'.current_tick ≡ runtime.current_tick)
  finalize_keeps runtime runtime' h = elim (Result-cases (model.finalize runtime.model)) [
    | inr (error, f) ↦ absurd (unfold Functional.finalize in ground (arith, f))
    | inl (state, f) ↦
        let e : record runtime { model = state; finalized = true } ≡ runtime' =
          unfold Functional.finalize in ground (arith, f) in
        (rw⁻¹ e refl, rw⁻¹ e refl)
  ]

  advance_to-Stands :
      (runtime : FunctionalRuntime R S) (tick : ℕ) (runtime' : FunctionalRuntime R S)
      → History is_finite model runtime
      → advance_to is_finite model runtime tick ≡ ok runtime'
      → Stands tick runtime'
  unfolding Stands
  advance_to-Stands runtime tick runtime' y h =
      let (i, f, le, step) = advance_cases is_finite model runtime tick runtime' h in
      elim step [
        | inl (e, same) ↦ (advances tick y h, ground (arith, i, same), ground (arith, e, same))
        | inr (rows, state, lt, a, n, ticks, e) ↦ (advances tick y h, rw e i, rw e refl)
      ]

  pub advance_functional-Stands :
      (tick : ℕ) (attached next : Option (FunctionalRuntime R S))
      → Reached attached
      → advance_functional is_finite model tick attached ≡ ok next
      → Holds (Stands tick) next
  unfolding Reached Holds
  advance_functional-Stands tick none next y h = absurd y
  advance_functional-Stands tick (some runtime) next y h =
      elim (Result-cases (advance_to is_finite model runtime tick)) [
        | inr (error, f) ↦ absurd (unfold advance_functional in ground (arith, f))
        | inl (r, f) ↦
            let e : some r ≡ next = unfold advance_functional in ground (arith, f) in
            subst (Holds (Stands tick)) e (advance_to-Stands runtime tick r y f)
      ]

  pub apply_functional-Reached :
      (tick : ℕ) (actions : List Event) (attached next : Option (FunctionalRuntime R S))
      → Holds (Stands tick) attached
      → apply_functional is_finite model tick actions attached ≡ ok next
      → Reached next
  unfolding Reached Holds Stands
  apply_functional-Reached tick actions none next y h = absurd y
  apply_functional-Reached tick actions (some runtime) next y h =
      elim (Result-cases (apply_actions is_finite model runtime tick actions)) [
        | inr (error, f) ↦ absurd (unfold apply_functional in ground (arith, f))
        | inl (r, f) ↦
            let e : some r ≡ next = unfold apply_functional in ground (arith, f) in
            subst (Holds (History is_finite model)) e (applies tick actions y.0 f)
      ]

  pub start_functional-Reached :
      (attached next : Option (FunctionalRuntime R S))
      → Reached attached
      → start_functional is_finite model attached ≡ ok next
      → Reached next
  unfolding Reached Holds
  start_functional-Reached none next y h = absurd y
  start_functional-Reached (some runtime) next y h =
      elim (Result-cases (Functional.initialize is_finite model runtime)) [
        | inr (error, f) ↦ absurd (unfold start_functional in ground (arith, f))
        | inl (r, f) ↦
            let e : some r ≡ next = unfold start_functional in ground (arith, f) in
            subst (Holds (History is_finite model)) e (begins y f)
      ]

  pub finalize_functional-Stands :
      (tick : ℕ) (attached next : Option (FunctionalRuntime R S))
      → Holds (Stands tick) attached
      → finalize_functional is_finite model attached ≡ ok next
      → Holds (Stands tick) next
  unfolding Holds Stands
  finalize_functional-Stands tick none next y h = absurd y
  finalize_functional-Stands tick (some runtime) next (y, i, t) h =
      elim (Result-cases (Functional.finalize is_finite model runtime)) [
        | inr (error, f) ↦ absurd (unfold finalize_functional in ground (arith, f))
        | inl (r, f) ↦
            let e : some r ≡ next = unfold finalize_functional in ground (arith, f) in
            let (j, u) = finalize_keeps runtime r f in
            subst (Holds (Stands tick)) e (ends y f, j ∙ i, u ∙ t)
      ]
