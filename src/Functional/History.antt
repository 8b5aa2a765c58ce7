-- ===== src/Functional/History.antt =====
-- The rows of a functional runtime after any sequence of calls, and those of a replay.
use cpssim.Base.{
  ℕ, ◌+◌, ◌≡◌, refl, ◌∙◌, inl, inr, Bool, true, List, [], ◌∷◌, ok, Result-cases, ℤ, pos, arith,
  length,
}
use cpssim.Event.{Event}
use cpssim.Functional.{
  FunctionalModel, FunctionalObservation, FunctionalRuntime, Batch, new_runtime, initialize,
  advance_to, apply_actions, finalize, replay_batches, replay_functional_trace, batches_of,
}
use cpssim.Functional.Rows.{
  TicksFrom, IsRecorded, Phase, fresh, active, Phase-IsRecorded, new_runtime-Phase,
  initialize-Phase, advance_cases, advance_to-Phase,
}

module _ {R S : Type 0} (is_finite : R → Bool) (model : FunctionalModel R S) where
  -- The runtimes that accepted calls lead to.
  pub data History : FunctionalRuntime R S → Type 0 where
    builds :
        {runtime : FunctionalRuntime R S} (state : S) (tick_period stop_tick : ℤ)
        → new_runtime is_finite model state tick_period stop_tick ≡ ok runtime
        → History runtime
    begins :
        {runtime runtime' : FunctionalRuntime R S}
        → History runtime
        → initialize is_finite model runtime ≡ ok runtime'
        → History runtime'
    advances :
        {runtime runtime' : FunctionalRuntime R S} (target_tick : ℕ)
        → History runtime
        → advance_to is_finite model runtime target_tick ≡ ok runtime'
        → History runtime'
    applies :
        {runtime runtime' : FunctionalRuntime R S} (tick : ℕ) (actions : List Event)
        → History runtime
        → apply_actions is_finite model runtime tick actions ≡ ok runtime'
        → History runtime'
    ends :
        {runtime runtime' : FunctionalRuntime R S}
        → History runtime
        → finalize is_finite model runtime ≡ ok runtime'
        → History runtime'

  apply_actions-Phase :
      (runtime : FunctionalRuntime R S) (tick : ℕ) (actions : List Event)
      (runtime' : FunctionalRuntime R S)
      → Phase runtime
      → apply_actions is_finite model runtime tick actions ≡ ok runtime'
      → Phase runtime'
  apply_actions-Phase runtime tick actions runtime' (fresh i t c f) h =
      unfold apply_actions in ground (arith, i)
  apply_actions-Phase runtime tick actions runtime' (active i v) h =
      elim (Result-cases (model.apply_actions runtime.model tick actions)) [
        | inr (error, a) ↦ unfold apply_actions in ground (arith, a)
        | inl (state, a) ↦
            let e : runtime'
                ≡ record runtime { model = state; actions_applied_at_current_tick = true } =
              unfold apply_actions in ground (arith, a) in
            rw e (
              active i (record {
                ticks = v.ticks;
                count = v.count;
                in_horizon = v.in_horizon;
                complete = v.complete;
              }))
      ]

  finalize-Phase :
      (runtime runtime' : FunctionalRuntime R S)
      → Phase runtime
      → finalize is_finite model runtime ≡ ok runtime'
      → Phase runtime' × (runtime'.trace ≡ runtime.trace) × (runtime'.finalized ≡ true)
  finalize-Phase runtime runtime' (fresh i t c f) h = unfold finalize in ground (arith, i)
  finalize-Phase runtime runtime' (active i v) h =
      elim (Result-cases (model.finalize runtime.model)) [
        | inr (error, a) ↦ unfold finalize in ground (arith, a)
        | inl (state, a) ↦
            let e : runtime' ≡ record runtime { model = state; finalized = true } =
              unfold finalize in ground (arith, a) in
            let last : runtime.current_tick ≡ runtime.stop_tick = unfold finalize in ground arith in
            rw e (
              active i (record {
                ticks = v.ticks;
                count = v.count;
                in_horizon = v.in_horizon;
                complete = inr last;
              }),
              refl,
              refl,
            )
      ]

  History-Phase : (runtime : FunctionalRuntime R S) → History runtime → Phase runtime
  History-Phase runtime (builds state tick_period stop_tick h) =
      new_runtime-Phase is_finite model state tick_period stop_tick runtime h
  History-Phase runtime' (begins {runtime = r} y h) =
      initialize-Phase is_finite model r runtime' (History-Phase r y) h
  History-Phase runtime' (advances {runtime = r} target y h) =
      advance_to-Phase is_finite model r target runtime' (History-Phase r y) h
  History-Phase runtime' (applies {runtime = r} tick actions y h) =
      apply_actions-Phase r tick actions runtime' (History-Phase r y) h
  History-Phase runtime' (ends {runtime = r} y h) =
      (finalize-Phase r runtime' (History-Phase r y) h).0

  -- Whatever is asked of a functional runtime, and whatever its model returns, a started runtime has
  -- recorded exactly one row for each tick from 0 to the current one, which is in the horizon, and a
  -- finalized one has reached the stop tick.
  pub History-IsRecorded :
      (runtime : FunctionalRuntime R S)
      → History runtime
      → runtime.initialized ≡ true
      → IsRecorded runtime
  History-IsRecorded runtime y i = Phase-IsRecorded runtime (History-Phase runtime y) i

  replay_batches-Phase :
      (batches : List Batch) (runtime runtime' : FunctionalRuntime R S)
      → Phase runtime
      → replay_batches is_finite model batches runtime ≡ ok runtime'
      → Phase runtime'
  replay_batches-Phase [] runtime runtime' p h =
      let e : runtime' ≡ runtime = unfold replay_batches in ground arith in rw e p
  replay_batches-Phase (batch ∷ batches) runtime runtime' p h =
      elim (Result-cases (advance_to is_finite model runtime batch.tick)) [
        | inr (error, f) ↦ unfold replay_batches in ground (arith, f)
        | inl (a, f) ↦
            elim (Result-cases (apply_actions is_finite model a batch.tick batch.actions)) [
              | inr (error, g) ↦ unfold replay_batches in ground (arith, f, g)
              | inl (b, g) ↦
                  replay_batches-Phase batches b runtime'
                    (apply_actions-Phase a batch.tick batch.actions b
                      (advance_to-Phase is_finite model runtime batch.tick a p f) g)
                    (unfold replay_batches in ground (arith, f, g))
            ]
      ]

  finalized_trace :
      (runtime runtime' : FunctionalRuntime R S)
      → Phase runtime
      → finalize is_finite model runtime ≡ ok runtime'
      → TicksFrom 0 runtime'.trace × (length runtime'.trace ≡ runtime.stop_tick + 1)
  finalized_trace runtime runtime' p h =
      let i : runtime.initialized ≡ true = unfold finalize in ground arith in
      let last : runtime.current_tick ≡ runtime.stop_tick = unfold finalize in ground arith in
      let v = Phase-IsRecorded runtime p i in
      let (q, e, f) = finalize-Phase runtime runtime' p h in
      rw e (v.ticks, omega (arith, v.count, last))

  advance_to-stop_tick :
      (runtime : FunctionalRuntime R S) (target : ℕ) (runtime' : FunctionalRuntime R S)
      → advance_to is_finite model runtime target ≡ ok runtime'
      → runtime'.stop_tick ≡ runtime.stop_tick
  advance_to-stop_tick runtime target runtime' h =
      let (i, f, le, step) = advance_cases is_finite model runtime target runtime' h in
      elim step [ inl (e, same) ↦ rw same refl | inr (rows, state, lt, a, n, ticks, e) ↦ rw e refl ]

  apply_actions-stop_tick :
      (runtime : FunctionalRuntime R S) (tick : ℕ) (actions : List Event)
      (runtime' : FunctionalRuntime R S)
      → apply_actions is_finite model runtime tick actions ≡ ok runtime'
      → runtime'.stop_tick ≡ runtime.stop_tick
  unfolding apply_actions
  apply_actions-stop_tick runtime tick actions runtime' h =
      elim (Result-cases (model.apply_actions runtime.model tick actions)) [
        | inr (error, a) ↦ ground (arith, a)
        | inl (state, a) ↦ ground (arith, a)
      ]

  replay_batches-stop_tick :
      (batches : List Batch) (runtime runtime' : FunctionalRuntime R S)
      → replay_batches is_finite model batches runtime ≡ ok runtime'
      → runtime'.stop_tick ≡ runtime.stop_tick
  replay_batches-stop_tick [] runtime runtime' h = unfold replay_batches in ground arith
  replay_batches-stop_tick (batch ∷ batches) runtime runtime' h =
      elim (Result-cases (advance_to is_finite model runtime batch.tick)) [
        | inr (error, f) ↦ unfold replay_batches in ground (arith, f)
        | inl (a, f) ↦
            elim (Result-cases (apply_actions is_finite model a batch.tick batch.actions)) [
              | inr (error, g) ↦ unfold replay_batches in ground (arith, f, g)
              | inl (b, g) ↦
                  replay_batches-stop_tick batches b runtime'
                    (unfold replay_batches in ground (arith, f, g))
                  ∙ apply_actions-stop_tick a batch.tick batch.actions b g
                  ∙ advance_to-stop_tick runtime batch.tick a f
            ]
      ]

  initialize-stop_tick :
      (runtime runtime' : FunctionalRuntime R S)
      → initialize is_finite model runtime ≡ ok runtime'
      → runtime'.stop_tick ≡ runtime.stop_tick
  unfolding initialize
  initialize-stop_tick runtime runtime' h =
      elim (Result-cases (model.initialize runtime.model runtime.tick_period runtime.stop_tick)) [
        | inr (error, a) ↦ ground (arith, a)
        | inl ((row, state), a) ↦ ground (arith, a)
      ]

  new_runtime-stop_tick :
      (state : S) (tick_period : ℤ) (stop : ℕ) (runtime : FunctionalRuntime R S)
      → new_runtime is_finite model state tick_period (pos stop) ≡ ok runtime
      → runtime.stop_tick ≡ stop
  unfolding new_runtime
  new_runtime-stop_tick state tick_period stop runtime h = ground arith

  replay_end :
      (state : S) (tick_period : ℤ) (stop : ℕ) (trace : List Event)
      (rows : List (FunctionalObservation R)) (built started : FunctionalRuntime R S)
      → new_runtime is_finite model state tick_period (pos stop) ≡ ok built
      → initialize is_finite model built ≡ ok started
      → replay_functional_trace is_finite model state tick_period (pos stop) trace ≡ ok rows
      → TicksFrom 0 rows × (length rows ≡ stop + 1)
  replay_end state tick_period stop trace rows built started f g h =
      elim (Result-cases (replay_batches is_finite model (batches_of trace) started)) [
        | inr (error, b) ↦ unfold replay_functional_trace in ground (arith, f, g, b)
        | inl (a, b) ↦ elim (Result-cases (advance_to is_finite model a a.stop_tick)) [
          | inr (error, c) ↦ unfold replay_functional_trace in ground (arith, f, g, b, c)
          | inl (d, c) ↦ elim (Result-cases (finalize is_finite model d)) [
            | inr (error, k) ↦ unfold replay_functional_trace in ground (arith, f, g, b, c, k)
            | inl (done, k) ↦
                let e : rows ≡ done.trace =
                  unfold replay_functional_trace in ground (arith, f, g, b, c, k) in
                let p0 = new_runtime-Phase is_finite model state tick_period (pos stop) built f in
                let p1 = initialize-Phase is_finite model built started p0 g in
                let p2 = replay_batches-Phase (batches_of trace) started a p1 b in
                let p3 = advance_to-Phase is_finite model a a.stop_tick d p2 c in
                let (t, n) = finalized_trace d done p3 k in
                let stop_eq : d.stop_tick ≡ stop =
                  advance_to-stop_tick a a.stop_tick d c
                  ∙ replay_batches-stop_tick (batches_of trace) started a b
                  ∙ initialize-stop_tick built started g
                  ∙ new_runtime-stop_tick state tick_period stop built f in
                rw e (t, omega (arith, n, stop_eq))
          ]
        ]
      ]

  -- A replay that returns has recorded exactly one row for each tick from 0 to the stop tick.
  pub replay_functional_trace-TicksFrom :
      (state : S) (tick_period : ℤ) (stop : ℕ) (trace : List Event)
      (rows : List (FunctionalObservation R))
      → replay_functional_trace is_finite model state tick_period (pos stop) trace ≡ ok rows
      → TicksFrom 0 rows × (length rows ≡ stop + 1)
  replay_functional_trace-TicksFrom state tick_period stop trace rows h =
      elim (Result-cases (new_runtime is_finite model state tick_period (pos stop))) [
        | inr (error, f) ↦ unfold replay_functional_trace in ground (arith, f)
        | inl (built, f) ↦ elim (Result-cases (initialize is_finite model built)) [
          | inr (error, g) ↦ unfold replay_functional_trace in ground (arith, f, g)
          | inl (started, g) ↦ replay_end state tick_period stop trace rows built started f g h
        ]
      ]
