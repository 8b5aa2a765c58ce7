-- ===== src/Functional/Replay.antt =====
-- replay_functional_trace: what it returns, and that it returns for every model that keeps the
-- contract of the interface.
use cpssim.Base.{
  ℕ, ◌+◌, ◌-◌, ◌≤◌, ◌<◌, ◌≡◌, refl, sym, ◌⊎◌, inl, inr, Bool, true, false, List, [], ◌∷◌, ◌++◌, ok,
  pos, arith, ◌==◌, ==_iff, Bool-cases, length, some, All, Chain, subst,
}
use cpssim.Event.{Event}
use cpssim.Functional.{
  FunctionalModel, FunctionalObservation, FunctionalRuntime, Batch, add_to_batches, has_other_tick,
  validate_observation, validate_rows, new_runtime, initialize, advance_to, apply_actions, finalize,
  replay_batches, replay_functional_trace, batches_of, validate_replay_trace, check_replay,
}

-- The contract of FunctionalModel. `At stop s n` says that the state `s` is in a run up to `stop` and
-- at the tick `n`, and `Fresh s` that it has not been started.
pub record IsLawful {R S : Type 0} (is_finite : R → Bool) (model : FunctionalModel R S)
    (Fresh : S → Type 0) (At : ℕ → S → ℕ → Type 0) : Type 0 where
  pub starts :
      (s : S) (period stop : ℕ)
      → Fresh s
      → 0 < period
      → (row : FunctionalObservation R) × (s' : S) × (model.initialize s period stop ≡ ok (row, s'))
        × (validate_observation is_finite row 0 ≡ ok tt)
        × At stop s' 0
  pub advances :
      (stop : ℕ) (s : S) (n target : ℕ)
      → At stop s n
      → n < target
      → target ≤ stop
      → (rows : List (FunctionalObservation R)) × (s' : S) × (model.advance_to s target
          ≡ ok (rows, s'))
        × (length rows ≡ target - n)
        × (validate_rows is_finite (n + 1) rows ≡ ok tt)
        × At stop s' target
  pub applies :
      (stop : ℕ) (s : S) (n : ℕ) (actions : List Event)
      → At stop s n
      → (s' : S) × (model.apply_actions s n actions ≡ ok s') × At stop s' n
  pub ends : (stop : ℕ) (s : S) → At stop s stop → (s' : S) × (model.finalize s ≡ ok s')

-- The batches come in the order of their ticks, from `low` on and up to the stop tick, and have only
-- actions of their own tick.
abbrev pub AreRising : ℕ → ℕ → List Batch → Type 0
AreRising stop low [] = Unit
AreRising stop low (batch ∷ batches) =
    (low ≤ batch.tick)
    × (batch.tick ≤ stop)
    × All (λ e. e.tick ≡ batch.tick) batch.actions
    × AreRising stop (batch.tick + 1) batches

add_to_batches-AreRising :
    (stop low : ℕ) (event : Event) (batches : List Batch)
    → low ≤ event.tick
    → event.tick ≤ stop
    → AreRising stop event.tick batches
    → AreRising stop low (add_to_batches event batches)
add_to_batches-AreRising stop low event [] l u h = (l, u, (refl, tt), tt)
add_to_batches-AreRising stop low event (batch ∷ batches) l u (a, b, c, d) =
    elim (Bool-cases (batch.tick == event.tick)) [
      | inl e ↦ rw e (omega (arith, (==_iff _ _).0 e), b, (sym ((==_iff _ _).0 e), c), d)
      | inr n ↦ rw n (l, u, (refl, tt), (ground (arith, n), b, c, d))
    ]

check_replay-AreRising :
    (stop previous : ℕ) (events : List Event)
    → check_replay stop (some previous) events ≡ ok tt
    → AreRising stop previous (batches_of events)
check_replay-AreRising stop previous [] h = unfold batches_of in tt
check_replay-AreRising stop previous (event ∷ events) h =
    go (check_replay-AreRising stop event.tick events (unfold check_replay in ground arith))
  where
    go :
        AreRising stop event.tick (batches_of events)
        → AreRising stop previous (batches_of (event ∷ events))
    go r =
        unfold batches_of in
        add_to_batches-AreRising stop previous event (batches_of events)
          (unfold check_replay in ground arith) (unfold check_replay in ground arith) r

validate_replay_trace-AreRising :
    (events : List Event) (stop : ℕ)
    → validate_replay_trace events stop ≡ ok tt
    → AreRising stop 0 (batches_of events)
validate_replay_trace-AreRising [] stop h = unfold batches_of in tt
validate_replay_trace-AreRising (event ∷ events) stop h =
    unfold batches_of in
    add_to_batches-AreRising stop 0 event (batches_of events) (omega arith)
      (unfold validate_replay_trace check_replay in ground arith)
      (check_replay-AreRising stop event.tick events
        (unfold validate_replay_trace check_replay in ground arith))

-- The check of the replay accepts every trace that is in the order of its ticks and in the horizon.
check_replay-accepts :
    (stop previous : ℕ) (events : List Event)
    → All (λ (e : Event). previous ≤ e.tick) events
    → Chain (λ (a b : Event). a.tick ≤ b.tick) events
    → All (λ (e : Event). e.tick ≤ stop) events
    → check_replay stop (some previous) events ≡ ok tt
unfolding check_replay
check_replay-accepts stop previous [] a c h = refl
check_replay-accepts stop previous (event ∷ events) (p, a) (q, c) (u, h) =
    let rest = check_replay-accepts stop event.tick events q c h in ground (arith, p, u, rest)

validate_replay_trace-accepts :
    (events : List Event) (stop : ℕ)
    → Chain (λ (a b : Event). a.tick ≤ b.tick) events
    → All (λ (e : Event). e.tick ≤ stop) events
    → validate_replay_trace events stop ≡ ok tt
unfolding validate_replay_trace check_replay
validate_replay_trace-accepts [] stop c h = refl
validate_replay_trace-accepts (event ∷ events) stop (q, c) (u, h) =
    let rest = check_replay-accepts stop event.tick events q c h in ground (arith, u, rest)

has_other_tick-none :
    (tick : ℕ) (actions : List Event)
    → All (λ e. e.tick ≡ tick) actions
    → has_other_tick tick actions ≡ false
has_other_tick-none tick [] h = refl
has_other_tick-none tick (e ∷ es) (p, h) = ground (arith, p, has_other_tick-none tick es h)

-- The runtime is running, with its model at its tick.
record IsRunning {R S : Type 0} (At : ℕ → S → ℕ → Type 0) (stop : ℕ)
    (runtime : FunctionalRuntime R S) : Type 0 where
  initialized : runtime.initialized ≡ true
  not_finalized : runtime.finalized ≡ false
  stop_eq : runtime.stop_tick ≡ stop
  in_horizon : runtime.current_tick ≤ stop
  state : At stop runtime.model runtime.current_tick

-- A batch of the tick `low` or of a later one can be applied.
abbrev IsDue : {R S : Type 0} → FunctionalRuntime R S → ℕ → Type 0
IsDue runtime low =
    (runtime.current_tick < low)
    ⊎ (runtime.current_tick ≤ low) × (runtime.actions_applied_at_current_tick ≡ false)

module _ {R S : Type 0} (is_finite : R → Bool) (model : FunctionalModel R S) (Fresh : S → Type 0)
    (At : ℕ → S → ℕ → Type 0) (lawful : IsLawful is_finite model Fresh At) where
  advance_to_total :
      (stop target : ℕ) (runtime : FunctionalRuntime R S)
      → IsRunning At stop runtime
      → runtime.current_tick ≤ target
      → target ≤ stop
      → (runtime' : FunctionalRuntime R S) × (advance_to is_finite model runtime target
          ≡ ok runtime')
        × (runtime'.current_tick ≡ target)
        × IsRunning At stop runtime'
        × ((runtime' ≡ runtime) ⊎ (runtime'.actions_applied_at_current_tick ≡ false))
  advance_to_total stop target runtime v l u = elim (Bool-cases (target == runtime.current_tick)) [
    | inl e ↦
        let same : target ≡ runtime.current_tick = (==_iff _ _).0 e in
        (
          runtime,
          unfold advance_to in
              ground (arith, e, same, v.initialized, v.not_finalized, v.stop_eq, v.in_horizon),
          sym same,
          v,
          inl refl,
        )
    | inr n ↦
        let lt : runtime.current_tick < target = ground (arith, l, n) in
        let (rows, s, a, c, b, at) =
          lawful.advances stop runtime.model runtime.current_tick target v.state lt u in
        (
          record runtime {
            model = s;
            current_tick = target;
            actions_applied_at_current_tick = false;
            trace = runtime.trace ++ rows;
          },
          unfold advance_to in
              ground (arith, n, lt, u, a, b, c, v.initialized, v.not_finalized, v.stop_eq),
          refl,
          record {
            initialized = v.initialized;
            not_finalized = v.not_finalized;
            stop_eq = v.stop_eq;
            in_horizon = u;
            state = at;
          },
          inr refl,
        )
  ]

  apply_actions_total :
      (stop tick : ℕ) (actions : List Event) (runtime : FunctionalRuntime R S)
      → IsRunning At stop runtime
      → runtime.current_tick ≡ tick
      → runtime.actions_applied_at_current_tick ≡ false
      → All (λ e. e.tick ≡ tick) actions
      → (runtime' : FunctionalRuntime R S) × (apply_actions is_finite model runtime tick actions
          ≡ ok runtime')
        × IsRunning At stop runtime'
        × (runtime'.current_tick ≡ tick)
  apply_actions_total stop tick actions runtime v t free own =
      let (s, a, at) = lawful.applies stop runtime.model runtime.current_tick actions v.state in
      (
        record runtime { model = s; actions_applied_at_current_tick = true },
        unfold apply_actions in
            ground (
              arith,
              a,
              v.initialized,
              v.not_finalized,
              t,
              free,
              has_other_tick-none tick actions own,
            ),
        record {
          initialized = v.initialized;
          not_finalized = v.not_finalized;
          stop_eq = v.stop_eq;
          in_horizon = v.in_horizon;
          state = at;
        },
        t,
      )

  replay_batches_total :
      (stop low : ℕ) (batches : List Batch) (runtime : FunctionalRuntime R S)
      → IsRunning At stop runtime
      → IsDue runtime low
      → AreRising stop low batches
      → (runtime' : FunctionalRuntime R S) × (replay_batches is_finite model batches runtime
          ≡ ok runtime')
        × IsRunning At stop runtime'
  replay_batches_total stop low [] runtime v d r = (runtime, unfold replay_batches in refl, v)
  replay_batches_total stop low (batch ∷ batches) runtime v d (l, u, own, r) =
      let (a, ae, t, av, kept) =
        advance_to_total stop batch.tick runtime v (ground (arith, d, l)) u in
      let free : a.actions_applied_at_current_tick ≡ false = ground (arith, kept, d, l, t) in
      let (b, be, bv, bt) = apply_actions_total stop batch.tick batch.actions a av t free own in
      let (c, ce, cv) =
        replay_batches_total stop (batch.tick + 1) batches b bv (inl (omega (arith, bt))) r in
      (c, step a b c ae be ce, cv)
    where
      step :
          (a b c : FunctionalRuntime R S)
          → advance_to is_finite model runtime batch.tick ≡ ok a
          → apply_actions is_finite model a batch.tick batch.actions ≡ ok b
          → replay_batches is_finite model batches b ≡ ok c
          → replay_batches is_finite model (batch ∷ batches) runtime ≡ ok c
      step a b c ae be ce = unfold replay_batches in ground (arith, ae, be, ce)

  finalize_total :
      (stop : ℕ) (runtime : FunctionalRuntime R S)
      → IsRunning At stop runtime
      → runtime.current_tick ≡ stop
      → (runtime' : FunctionalRuntime R S) × (finalize is_finite model runtime ≡ ok runtime')
  finalize_total stop runtime v t =
      let (s, a) = lawful.ends stop runtime.model (subst (At stop runtime.model) t v.state) in
      (
        record runtime { model = s; finalized = true },
        unfold finalize in ground (arith, a, t, v.initialized, v.not_finalized, v.stop_eq),
      )

  -- For every model that keeps the contract of the interface, and from a fresh state of it, the replay
  -- of a trace that is in the order of its ticks and in the horizon always returns.
  pub replay_functional_trace_total :
      (state : S) (period stop : ℕ) (trace : List Event)
      → Fresh state
      → 0 < period
      → Chain (λ (a b : Event). a.tick ≤ b.tick) trace
      → All (λ (e : Event). e.tick ≤ stop) trace
      → (rows : List (FunctionalObservation R)) × (replay_functional_trace is_finite model state
            (pos period)
            (pos stop)
            trace
          ≡ ok rows)
  replay_functional_trace_total state period stop trace fresh p ordered inside =
      let valid = validate_replay_trace-accepts trace stop ordered inside in
      let (row, s, i, good, at) = lawful.starts state period stop fresh p in
      let built : FunctionalRuntime R S = record {
        model = state;
        tick_period = period;
        stop_tick = stop;
        current_tick = 0;
        initialized = false;
        finalized = false;
        actions_applied_at_current_tick = false;
        trace = [];
      } in
      let made : new_runtime is_finite model state (pos period) (pos stop) ≡ ok built =
        unfold new_runtime in ground (arith, p) in
      let started : FunctionalRuntime R S = record built {
        model = s;
        initialized = true;
        trace = row ∷ [];
      } in
      let begun : initialize is_finite model built ≡ ok started =
        unfold initialize in ground (arith, i, good) in
      let v : IsRunning At stop started = record {
        initialized = refl;
        not_finalized = refl;
        stop_eq = refl;
        in_horizon = omega arith;
        state = at;
      } in
      let (a, ae, av) =
        replay_batches_total stop 0 (batches_of trace) started v (inr (omega arith, refl))
          (validate_replay_trace-AreRising trace stop valid) in
      let (b, be, bt, bv, kept) = advance_to_total stop stop a av av.in_horizon (omega arith) in
      let (c, ce) = finalize_total stop b bv bt in
      (c.trace, replayed built started a b c made begun ae (rw av.stop_eq be) ce)
    where
      stop_of :
          (built : FunctionalRuntime R S)
          → new_runtime is_finite model state (pos period) (pos stop) ≡ ok built
          → built.stop_tick ≡ stop
      stop_of built h = unfold new_runtime in ground (arith, p)

      replayed :
          (built started a b c : FunctionalRuntime R S)
          → new_runtime is_finite model state (pos period) (pos stop) ≡ ok built
          → initialize is_finite model built ≡ ok started
          → replay_batches is_finite model (batches_of trace) started ≡ ok a
          → advance_to is_finite model a a.stop_tick ≡ ok b
          → finalize is_finite model b ≡ ok c
          → replay_functional_trace is_finite model state (pos period) (pos stop) trace ≡ ok c.trace
      replayed built started a b c h0 h1 h2 h3 h4 =
          let valid = validate_replay_trace-accepts trace stop ordered inside in
          unfold replay_functional_trace in
          ground (arith, h0, h1, h2, h3, h4, stop_of built h0, valid)
