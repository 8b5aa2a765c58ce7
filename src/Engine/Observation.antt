-- ===== src/Engine/Observation.antt =====
-- The functional runtime over the run of an engine: what SimulationEngine asks of FunctionalRuntime.
use cpssim.Base.{
  ℕ, ◌+◌, ◌<◌, ◌≡◌, ◌⊎◌, refl, subst, inl, inr, Bool, false, Option, none, some, List, Result, ok,
  err, logic_error, Result-cases, arith, ℤ, pos, ltb, All, length,
}
use cpssim.Base.Loops.{
  finished, ◌>>=◌, Ends, Ends-map, Returns, Returns-bind, Returns-finished, Returns-if,
  Returns-skip, Ends-Returns,
}
use cpssim.Specs.{TaskSpec}
use cpssim.Config.{ExperimentConfig}
use cpssim.Policy.{SchedulingPolicy}
use cpssim.RunPlan.{TaskAssignment}
use cpssim.Release.{schedule_initial_releases}
use cpssim.Functional.{FunctionalModel, FunctionalRuntime, new_runtime}
use cpssim.Functional.Rows.{TicksFrom}
use cpssim.Functional.History.{History, builds, History-IsRecorded}
use cpssim.Kernel.{new_kernel}
use cpssim.Engine.{
  SimulationEngine, drop, advance_functional, apply_functional, start_functional,
  finalize_functional, new_functional, new_engine, initialize, finalize, process_event_tick,
  process_kernel_tick, run,
}
use cpssim.Engine.Stages.{IsCompleted}
use cpssim.Engine.Construction.{run-new_engine}
use cpssim.Engine.Calls.{run-Returns}
use cpssim.Engine.Attached.{
  Holds, Reached, Stands, Stands-Reached, advance_functional-Stands, apply_functional-Reached,
  start_functional-Reached, finalize_functional-Stands,
}

module _ {R S : Type 0} (is_finite : R → Bool) (model : FunctionalModel R S) where
  -- The runtime of an engine, which stands at the stop tick when the run is over.
  record IsObserved (engine : SimulationEngine R S) : Type 0 where
    reached : Reached is_finite model engine.functional_runtime
    complete :
        (engine.is_finished ≡ false)
        ⊎ Holds is_finite model (Stands is_finite model engine.stop_tick) engine.functional_runtime

  finalize-IsObserved :
      (engine : SimulationEngine R S)
      → IsObserved engine
      → Returns IsObserved (finalize is_finite model engine)
  finalize-IsObserved engine v =
      unfold finalize in
      Returns-if IsObserved engine.is_finished (finished (ok engine)) _ (λ _. v)
        (λ _.
          Returns-bind (Holds is_finite model (Stands is_finite model engine.stop_tick)) IsObserved
            (finished
              (advance_functional is_finite model engine.stop_tick engine.functional_runtime))
            _
            (Returns-finished _
              (advance_functional is_finite model engine.stop_tick engine.functional_runtime)
              (λ next e.
                advance_functional-Stands is_finite model engine.stop_tick engine.functional_runtime
                  next v.reached e))
            (λ advanced s.
              Returns-bind (Holds is_finite model (Stands is_finite model engine.stop_tick))
                IsObserved (finished (finalize_functional is_finite model advanced)) _
                (Returns-finished _ (finalize_functional is_finite model advanced) (λ next e.
                  finalize_functional-Stands is_finite model engine.stop_tick advanced next s e))
                (λ functional t. record {
                  reached = Stands-Reached is_finite model engine.stop_tick functional t;
                  complete = inr t;
                })))

  -- An engine whose run is not over.
  Ongoing : SimulationEngine R S → Type 0
  Ongoing engine = Reached is_finite model engine.functional_runtime × (engine.is_finished ≡ false)

  Ongoing-IsObserved : (engine : SimulationEngine R S) → Ongoing engine → IsObserved engine
  unfolding Ongoing
  Ongoing-IsObserved engine (y, f) = record { reached = y; complete = inl f }

  initialize-Ongoing :
      (engine : SimulationEngine R S)
      → Ongoing engine
      → Returns Ongoing (initialize is_finite model engine)
  unfolding Ongoing
  initialize-Ongoing engine (y, f) =
      unfold initialize in
      Returns-if Ongoing engine.initialized (finished (ok engine)) _ (λ _. (y, f))
        (λ _.
          Returns-skip Ongoing
            (finished (schedule_initial_releases engine.kernel.releases engine.kernel.queue)) _
            (λ (count, releases, queue).
              Returns-bind (Reached is_finite model) Ongoing
                (finished (start_functional is_finite model engine.functional_runtime)) _
                (Returns-finished _ (start_functional is_finite model engine.functional_runtime)
                  (λ next e.
                    start_functional-Reached is_finite model engine.functional_runtime next y e))
                (λ functional r. (r, f))))

  process_event_tick-Ongoing :
      (tick : ℕ) (engine : SimulationEngine R S)
      → Ongoing engine
      → Returns Ongoing (process_event_tick is_finite model tick engine)
  unfolding Ongoing
  process_event_tick-Ongoing tick engine (y, f) =
      unfold process_event_tick in
      Returns-if Ongoing (ltb tick engine.current_tick) (finished (err logic_error)) _ (λ _. tt)
        (λ _.
          Returns-bind (Holds is_finite model (Stands is_finite model tick)) Ongoing
            (finished (advance_functional is_finite model tick engine.functional_runtime)) _
            (Returns-finished _ (advance_functional is_finite model tick engine.functional_runtime)
              (λ next e.
                advance_functional-Stands is_finite model tick engine.functional_runtime next y e))
            (λ advanced s.
              Returns-skip Ongoing (process_kernel_tick tick engine.kernel) _ (λ kernel.
                Returns-bind (Reached is_finite model) Ongoing
                  (finished (
                    apply_functional is_finite model tick
                      (drop (length engine.kernel.trace) kernel.trace) advanced))
                  _
                  (Returns-finished _
                    (apply_functional is_finite model tick
                      (drop (length engine.kernel.trace) kernel.trace) advanced)
                    (λ next e.
                      apply_functional-Reached is_finite model tick
                        (drop (length engine.kernel.trace) kernel.trace) advanced next s e))
                  (λ functional r. (r, f)))))

  run-IsObserved :
      (engine : SimulationEngine R S)
      → IsObserved engine
      → Returns IsObserved (run is_finite model engine)
  unfolding Ongoing
  run-IsObserved =
      run-Returns is_finite model Ongoing IsObserved (λ e v f. (v.reached, f)) Ongoing-IsObserved
        (λ e v. record { reached = v.reached; complete = v.complete }) initialize-Ongoing
        process_event_tick-Ongoing finalize-IsObserved

  -- The functional trace of a completed run.
  pub record HasRows (engine : SimulationEngine R S) : Type 0 where
    pub runtime : FunctionalRuntime R S
    pub attached : engine.functional_runtime ≡ some runtime
    pub ticks : TicksFrom 0 runtime.trace
    pub count : length runtime.trace ≡ engine.stop_tick + 1

  IsObserved-HasRows :
      (engine : SimulationEngine R S) → IsCompleted engine → IsObserved engine → HasRows engine
  unfolding Holds Stands
  IsObserved-HasRows engine c v = elim v.complete [
    | inl f ↦ absurd (ground (arith, f, c.closed))
    | inr s ↦ from engine.functional_runtime refl s
  ]
    where
      from :
          (attached : Option (FunctionalRuntime R S))
          → engine.functional_runtime ≡ attached
          → Holds is_finite model (Stands is_finite model engine.stop_tick) attached
          → HasRows engine
      from none e s = absurd s
      from (some runtime) e (y, i, t) =
          let v = History-IsRecorded is_finite model runtime y i in
          record {
            runtime = runtime;
            attached = e;
            ticks = v.ticks;
            count = omega (arith, v.count, t);
          }

  module _ (config : ExperimentConfig) (stop : ℤ)
      (allocate : ExperimentConfig → Result (List TaskAssignment)) (policy : SchedulingPolicy)
      (state : S) where
    new_engine-IsObserved :
        Returns IsObserved (new_engine is_finite model config stop allocate policy (some state))
    unfolding Reached Holds
    new_engine-IsObserved =
        unfold new_engine in
        Returns-skip IsObserved (finished (new_kernel config stop allocate policy)) _ (λ kernel.
          Returns-bind (Reached is_finite model) IsObserved
            (finished (new_functional is_finite model config stop (some state))) _
            (Returns-finished _ (new_functional is_finite model config stop (some state)) built)
            (λ functional r. record { reached = r; complete = inl refl }))
      where
        built :
            (attached : Option (FunctionalRuntime R S))
            → new_functional is_finite model config stop (some state) ≡ ok attached
            → Reached is_finite model attached
        built attached h =
            elim (Result-cases (new_runtime is_finite model state (pos config.tick_period) stop)) [
              | inr (error, f) ↦ absurd (unfold new_functional in ground (arith, f))
              | inl (runtime, f) ↦
                  let e : some runtime ≡ attached = unfold new_functional in ground (arith, f) in
                  subst (Holds is_finite model (History is_finite model)) e
                    (builds state (pos config.tick_period) stop f)
            ]

    -- Where the period of every task is positive, with every allocator, policy and functional model: the
    -- run of an engine with a functional model ends, and unless the construction or the run throws,
    -- the engine's functional trace has exactly one row for each tick from 0 to the stop tick.
    pub run-HasRows :
        All (λ (t : TaskSpec). 0 < t.period) config.tasks
        → Ends HasRows (
            new_engine is_finite model config stop allocate policy (some state) >>= λ engine.
            run is_finite model engine)
    run-HasRows p =
        Ends-map (λ e. IsCompleted e × IsObserved e) HasRows _
          (λ e (c, v). IsObserved-HasRows e c v)
          (Ends-Returns IsCompleted IsObserved _
            (run-new_engine is_finite model config stop allocate policy (some state) p)
            (Returns-bind IsObserved IsObserved
              (new_engine is_finite model config stop allocate policy (some state))
              (λ engine. run is_finite model engine) new_engine-IsObserved run-IsObserved))
