-- ===== src/Engine/Sessions.antt =====
-- The engines that the public calls of SimulationEngine lead to, and what their schedulers promise.
use cpssim.Base.{
  ℕ, ◌≡◌, refl, subst, Bool, true, Option, List, Result, ok, err, logic_error, arith, ℤ, ltb,
  length,
}
use cpssim.Base.Loops.{finished, Returns, Returns-bind, Returns-finished, Returns-if, Returns-skip}
use cpssim.Specs.{SchedulingSpec, PreemptionMode, ResourceSpec}
use cpssim.Config.{ExperimentConfig}
use cpssim.Runtime.{JobState, JobIdentity, JobLifecycle}
use cpssim.Policy.{SchedulingPolicy, find_job, fixed_priority_policy}
use cpssim.RunPlan.{TaskAssignment}
use cpssim.Release.{schedule_initial_releases}
use cpssim.Functional.{FunctionalModel}
use cpssim.Scheduler.{Scheduler, new_scheduler}
use cpssim.Scheduler.History.{begins, new_scheduler-jobs}
use cpssim.Scheduler.Service.{YieldsTo}
use cpssim.Kernel.{Kernel, new_kernel}
use cpssim.Engine.{
  SimulationEngine, process_kernel_tick, drop, advance_functional, apply_functional,
  start_functional, finalize_functional, new_functional, new_engine, initialize, finalize,
  process_event_tick, step_to_next_event, run,
}
use cpssim.Engine.Parts.{new_kernel-Built}
use cpssim.Engine.Calls.{Leaves, step_to_next_event-Leaves, run-Returns}
use cpssim.Engine.Upkeep.{IsKept}
use cpssim.Engine.Service.{IsServed, process_kernel_tick-IsServed}

new_kernel-scheduler :
    (config : ExperimentConfig) (stop : ℤ)
    (allocate : ExperimentConfig → Result (List TaskAssignment)) (policy : SchedulingPolicy)
    (kernel : Kernel)
    → new_kernel config stop allocate policy ≡ ok kernel
    → new_scheduler config.resources config.scheduling policy stop ≡ ok kernel.scheduler
new_kernel-scheduler config stop allocate policy kernel h =
    let b = new_kernel-Built config stop allocate policy kernel h in rw b.result b.scheduled

new_scheduler_settings :
    (resources : List ResourceSpec) (scheduling : SchedulingSpec) (policy : SchedulingPolicy)
    (stop_tick : ℤ) (scheduler : Scheduler)
    → new_scheduler resources scheduling policy stop_tick ≡ ok scheduler
    → (scheduler.scheduling ≡ scheduling) × (scheduler.policy ≡ policy)
unfolding new_scheduler
new_scheduler_settings resources scheduling policy stop_tick scheduler h =
    (ground arith, ground arith)

new_scheduler-IsServed :
    (resources : List ResourceSpec) (scheduling : SchedulingSpec) (policy : SchedulingPolicy)
    (stop_tick : ℤ) (scheduler : Scheduler)
    → new_scheduler resources scheduling policy stop_tick ≡ ok scheduler
    → IsServed scheduling policy scheduler
unfolding find_job
new_scheduler-IsServed resources scheduling policy stop_tick scheduler h =
    let e = new_scheduler-jobs resources scheduling policy stop_tick scheduler h in
    let (s, p) = new_scheduler_settings resources scheduling policy stop_tick scheduler h in
    record {
      kept = record {
        history = begins resources scheduling policy stop_tick h;
        scheduling_eq = s;
        policy_eq = p;
      };
      first = λ id waiting _ _ f _. absurd (ground (arith, rw e at f));
    }

module _ {R S : Type 0} (is_finite : R → Bool) (model : FunctionalModel R S) where
  -- The engines that the constructor, and then any calls of step_to_next_event and run that return,
  -- lead to.
  pub data Session (config : ExperimentConfig) (stop : ℤ)
      (allocate : ExperimentConfig → Result (List TaskAssignment)) (policy : SchedulingPolicy)
      (state : Option S) : SimulationEngine R S → Type 0 where
    builds :
        {engine : SimulationEngine R S}
        → new_engine is_finite model config stop allocate policy state ≡ finished (ok engine)
        → Session config stop allocate policy state engine
    steps :
        {engine engine' : SimulationEngine R S} (more : Bool)
        → Session config stop allocate policy state engine
        → step_to_next_event is_finite model engine ≡ finished (ok (more, engine'))
        → Session config stop allocate policy state engine'
    runs :
        {engine engine' : SimulationEngine R S}
        → Session config stop allocate policy state engine
        → run is_finite model engine ≡ finished (ok engine')
        → Session config stop allocate policy state engine'

  module _ (scheduling : SchedulingSpec) (policy : SchedulingPolicy) where
    Serves : SimulationEngine R S → Type 0
    Serves engine = IsServed scheduling policy engine.kernel.scheduler

    initialize-Serves :
        (engine : SimulationEngine R S)
        → Serves engine
        → Returns Serves (initialize is_finite model engine)
    unfolding Serves
    initialize-Serves engine v =
        unfold initialize in
        Returns-if Serves engine.initialized (finished (ok engine)) _ (λ _. v)
          (λ _.
            Returns-skip Serves
              (finished (schedule_initial_releases engine.kernel.releases engine.kernel.queue)) _
              (λ (count, releases, queue).
                Returns-skip Serves
                  (finished (start_functional is_finite model engine.functional_runtime)) _
                  (λ functional. v)))

    finalize-Serves :
        (engine : SimulationEngine R S)
        → Serves engine
        → Returns Serves (finalize is_finite model engine)
    unfolding Serves
    finalize-Serves engine v =
        unfold finalize in
        Returns-if Serves engine.is_finished (finished (ok engine)) _ (λ _. v)
          (λ _.
            Returns-skip Serves
              (finished
                (advance_functional is_finite model engine.stop_tick engine.functional_runtime))
              _
              (λ advanced.
                Returns-skip Serves (finished (finalize_functional is_finite model advanced)) _
                  (λ functional. v)))

    process_event_tick-Serves :
        (tick : ℕ) (engine : SimulationEngine R S)
        → Serves engine
        → Returns Serves (process_event_tick is_finite model tick engine)
    unfolding Serves IsKept
    process_event_tick-Serves tick engine v =
        unfold process_event_tick in
        Returns-if Serves (ltb tick engine.current_tick) (finished (err logic_error)) _ (λ _. tt)
          (λ _.
            Returns-skip Serves
              (finished (advance_functional is_finite model tick engine.functional_runtime)) _
              (λ advanced.
                Returns-bind (λ (k : Kernel). IsServed scheduling policy k.scheduler) Serves
                  (process_kernel_tick tick engine.kernel) _
                  (process_kernel_tick-IsServed scheduling policy tick engine.kernel v.kept)
                  (λ kernel k.
                    Returns-skip Serves
                      (finished (
                        apply_functional is_finite model tick
                          (drop (length engine.kernel.trace) kernel.trace) advanced))
                      _ (λ functional. k))))

    called-Serves :
        (engine : SimulationEngine R S)
        → Serves engine
        → Serves (record engine { run_called = true })
    unfolding Serves
    called-Serves engine v = v

    step_to_next_event-Serves :
        (engine : SimulationEngine R S) (more : Bool) (engine' : SimulationEngine R S)
        → Serves engine
        → step_to_next_event is_finite model engine ≡ finished (ok (more, engine'))
        → Serves engine'
    unfolding Leaves
    step_to_next_event-Serves engine more engine' v h =
        subst
          (Returns (
            Leaves is_finite model Serves Serves (λ e v f. v) (λ e v. v) called-Serves
              initialize-Serves process_event_tick-Serves finalize-Serves))
          h
          (step_to_next_event-Leaves is_finite model Serves Serves (λ e v f. v) (λ e v. v)
            called-Serves initialize-Serves process_event_tick-Serves finalize-Serves engine v)

    run-Serves :
        (engine engine' : SimulationEngine R S)
        → Serves engine
        → run is_finite model engine ≡ finished (ok engine')
        → Serves engine'
    run-Serves engine engine' v h = subst (Returns Serves) h (
        run-Returns is_finite model Serves Serves (λ e v f. v) (λ e v. v) called-Serves
          initialize-Serves process_event_tick-Serves finalize-Serves engine v)

  module _ (config : ExperimentConfig) (stop : ℤ)
      (allocate : ExperimentConfig → Result (List TaskAssignment)) (policy : SchedulingPolicy)
      (state : Option S) where
    new_engine-Serves :
        Returns
          (Serves config.scheduling policy)
          (new_engine is_finite model config stop allocate policy state)
    unfolding Serves
    new_engine-Serves =
        unfold new_engine in
        Returns-bind (λ (k : Kernel). IsServed config.scheduling policy k.scheduler)
          (Serves config.scheduling policy) (finished (new_kernel config stop allocate policy)) _
          (Returns-finished _ (new_kernel config stop allocate policy) (λ kernel e.
            new_scheduler-IsServed config.resources config.scheduling policy stop kernel.scheduler
              (new_kernel-scheduler config stop allocate policy kernel e)))
          (λ kernel k.
            Returns-skip (Serves config.scheduling policy)
              (finished (new_functional is_finite model config stop state)) _ (λ functional. k))

    Session-Serves :
        (engine : SimulationEngine R S)
        → Session config stop allocate policy state engine
        → Serves config.scheduling policy engine
    Session-Serves engine (builds h) =
        subst (Returns (Serves config.scheduling policy)) h new_engine-Serves
    Session-Serves engine' (steps {engine = e} more y h) =
        step_to_next_event-Serves config.scheduling policy e more engine' (Session-Serves e y) h
    Session-Serves engine' (runs {engine = e} y h) =
        run-Serves config.scheduling policy e engine' (Session-Serves e y) h

  -- Over any calls of an engine that return, with preemption under the fixed-priority policy, with every
  -- allocator and functional model: between two calls, every stored ready job has its resource running a
  -- stored running job of that resource whose priority number is at most its own.
  pub Session-YieldsTo :
      (config : ExperimentConfig) (stop : ℤ)
      (allocate : ExperimentConfig → Result (List TaskAssignment)) (state : Option S)
      (engine : SimulationEngine R S) (id : JobIdentity) (waiting : JobState)
      → config.scheduling.preemption_mode ≡ PreemptionMode.preemptive
      → Session config stop allocate fixed_priority_policy state engine
      → find_job engine.kernel.scheduler.jobs id ≡ ok waiting
      → waiting.lifecycle ≡ JobLifecycle.ready
      → YieldsTo engine.kernel.scheduler waiting
  unfolding Serves
  Session-YieldsTo config stop allocate state engine id waiting mode y f r =
      (Session-Serves config stop allocate fixed_priority_policy state engine y).first id waiting
        refl mode f r
