-- ===== src/Engine.antt =====
-- src/cpssim/kernel/simulation_engine.hpp and simulation_engine.cpp: the event loop. The rows that the
-- functional runtime returns go to SchedulingPolicy::observe, which the policies modelled ignore; they
-- stay in its trace. A while loop takes fuel: one round for each event of the tick that is in the queue
-- and one more, and for the run five more than the stop tick.
pub mod Timely
pub mod Messages
pub mod Releases
pub mod Scheduling
pub mod FirstReleases
pub mod Handlers
pub mod Front
pub mod Batch
pub mod Tick
pub mod Stages
pub mod Step
pub mod Termination
pub mod Parts
pub mod Construction
pub mod Calls
pub mod Attached
pub mod Upkeep
pub mod Service
pub mod Sessions
pub mod Observation
mod Examples
mod SessionExamples
use cpssim.Base.{
  ℕ, suc, ◌+◌, ◌-◌, Bool, true, false, not, ◌&&◌, ◌||◌, Option, none, some, List, [], ◌∷◌, ◌++◌,
  Result, ok, err, logic_error, throw_if, ℤ, pos, ltb, ◌==◌, if◌then◌else◌, length,
}
use cpssim.Base.Loops.{Run, finished, out_of_fuel, ◌>>=◌, while}
use cpssim.Event.{Event, is_release_phase}
use cpssim.Queue.{EventQueue}
use cpssim.Release.{schedule_initial_releases}
use cpssim.Functional
use cpssim.Functional.{FunctionalModel, FunctionalRuntime}
use cpssim.Config.{ExperimentConfig}
use cpssim.RunPlan.{TaskAssignment}
use cpssim.Policy.{SchedulingPolicy}
use cpssim.Kernel.{
  Kernel, new_kernel, is_pre_scheduling, front_passes, process_front, collect_release,
  process_releases, process_post, schedule_tick,
}

-- `kernel` holds the queue, the releases, the scheduler, the network and the trace.
pub record SimulationEngine (R S : Type 0) : Type 0 where
  pub kernel : Kernel
  pub functional_runtime : Option (FunctionalRuntime R S)
  pub stop_tick : ℕ
  pub current_tick : ℕ
  pub initialized : Bool
  pub is_finished : Bool
  pub run_called : Bool

-- The events of the tick that are in the queue.
abbrev pub count_at : ℕ → List Event → ℕ
count_at tick [] = 0
count_at tick (event ∷ events) = (if event.tick == tick then 1 else 0) + count_at tick events

abbrev pub rounds : ℕ → EventQueue → ℕ
rounds tick queue = suc (count_at tick queue.events)

-- The tests of the loops on the front of the queue.
abbrev pub is_early : ℕ → EventQueue → Bool
is_early tick queue =
    front_passes
      (λ event.
        event.tick == tick && is_pre_scheduling event.phase && not (is_release_phase event.phase))
      queue

abbrev pub is_release : ℕ → EventQueue → Bool
is_release tick queue =
    front_passes (λ event. event.tick == tick && is_release_phase event.phase) queue

abbrev pub is_before_scheduling : ℕ → EventQueue → Bool
is_before_scheduling tick queue =
    front_passes (λ event. event.tick == tick && is_pre_scheduling event.phase) queue

abbrev pub is_at : ℕ → EventQueue → Bool
is_at tick queue = front_passes (λ event. event.tick == tick) queue

-- A loop over the kernel while the front of its queue passes the test.
unfoldable pub while_front :
    ℕ → (EventQueue → Bool) → (Kernel → Result Kernel) → Kernel → Run Kernel
unfolding while
while_front tick test body kernel =
    while (rounds tick kernel.queue) (λ k. test k.queue) (λ k. finished (body k)) kernel

unfoldable pub process_release_batch : ℕ → Kernel → Run Kernel
unfolding while collect_release process_releases
process_release_batch tick kernel = do
  (queue, releases) ←
      while (rounds tick kernel.queue) (λ s. is_release tick s.0)
        (λ s. finished (collect_release s)) (kernel.queue, [])
  finished (process_releases (record kernel { queue = queue }) releases)

-- The part of process_event_tick between the functional model's calls.
unfoldable pub process_kernel_tick : ℕ → Kernel → Run Kernel
unfolding while_front process_front process_release_batch schedule_tick process_post
process_kernel_tick tick kernel = do
  early ← while_front tick (is_early tick) process_front kernel
  released ← process_release_batch tick early
  late ← while_front tick (is_before_scheduling tick) process_front released
  scheduled ← finished (schedule_tick tick late)
  while_front tick (is_at tick) process_post scheduled

-- The entries of a list from a position on.
abbrev pub drop : {A : Type 0} → ℕ → List A → List A
drop n [] = []
drop n (x ∷ xs) = if n == 0 then x ∷ xs else drop (n - 1) xs

-- No event is left, or none in the horizon.
abbrev pub is_exhausted : ℕ → EventQueue → Bool
is_exhausted stop_tick queue = elim queue.events [
  | [] ↦ true
  | event ∷ events ↦ ltb stop_tick event.tick
]

module _ {R S : Type 0} (is_finite : R → Bool) (model : FunctionalModel R S) where
  -- The calls of an optional functional runtime.
  unfoldable pub advance_functional :
      ℕ → Option (FunctionalRuntime R S) → Result (Option (FunctionalRuntime R S))
  advance_functional tick none = ok none
  advance_functional tick (some runtime) =
      elim (Functional.advance_to is_finite model runtime tick) [
        | ok runtime' ↦ ok (some runtime')
        | err error ↦ err error
      ]

  unfoldable pub apply_functional :
      ℕ → List Event → Option (FunctionalRuntime R S) → Result (Option (FunctionalRuntime R S))
  apply_functional tick actions none = ok none
  apply_functional tick actions (some runtime) =
      elim (Functional.apply_actions is_finite model runtime tick actions) [
        | ok runtime' ↦ ok (some runtime')
        | err error ↦ err error
      ]

  unfoldable pub start_functional :
      Option (FunctionalRuntime R S) → Result (Option (FunctionalRuntime R S))
  start_functional none = ok none
  start_functional (some runtime) = elim (Functional.initialize is_finite model runtime) [
    | ok runtime' ↦ ok (some runtime')
    | err error ↦ err error
  ]

  unfoldable pub finalize_functional :
      Option (FunctionalRuntime R S) → Result (Option (FunctionalRuntime R S))
  finalize_functional none = ok none
  finalize_functional (some runtime) = elim (Functional.finalize is_finite model runtime) [
    | ok runtime' ↦ ok (some runtime')
    | err error ↦ err error
  ]

  unfoldable pub new_functional :
      ExperimentConfig → ℤ → Option S → Result (Option (FunctionalRuntime R S))
  new_functional config stop_tick none = ok none
  new_functional config stop_tick (some state) =
      elim (Functional.new_runtime is_finite model state (pos config.tick_period) stop_tick) [
        | ok runtime ↦ ok (some runtime)
        | err error ↦ err error
      ]

  abbrev pub has_functional : Option (FunctionalRuntime R S) → Bool
  has_functional none = false
  has_functional (some runtime) = true

  -- Both constructors: the second one adds a functional model in the state given.
  unfoldable pub new_engine :
      ExperimentConfig
      → ℤ
      → (ExperimentConfig → Result (List TaskAssignment))
      → SchedulingPolicy
      → Option S
      → Run (SimulationEngine R S)
  unfolding new_kernel new_functional
  new_engine config stop_tick allocate policy state = do
    kernel ← finished (new_kernel config stop_tick allocate policy)
    functional ← finished (new_functional config stop_tick state)
    finished (
        ok (record {
          kernel = kernel;
          functional_runtime = functional;
          stop_tick = kernel.releases.stop_tick;
          current_tick = 0;
          initialized = false;
          is_finished = false;
          run_called = false;
        }))

  unfoldable pub initialize : SimulationEngine R S → Run (SimulationEngine R S)
  unfolding schedule_initial_releases start_functional
  initialize engine = if engine.initialized then finished (ok engine) else (do
    (count, releases, queue) ←
        finished (schedule_initial_releases engine.kernel.releases engine.kernel.queue)
    functional ← finished (start_functional engine.functional_runtime)
    finished (
        ok (record engine {
          kernel = record engine.kernel { queue = queue; releases = releases };
          functional_runtime = functional;
          initialized = true;
        })))

  unfoldable pub finalize : SimulationEngine R S → Run (SimulationEngine R S)
  unfolding advance_functional finalize_functional
  finalize engine = if engine.is_finished then finished (ok engine) else (do
    advanced ← finished (advance_functional engine.stop_tick engine.functional_runtime)
    functional ← finished (finalize_functional advanced)
    finished (
        ok (record engine {
          functional_runtime = functional;
          current_tick =
              if has_functional engine.functional_runtime
              then engine.stop_tick
              else engine.current_tick;
          is_finished = true;
        })))

  unfoldable pub process_event_tick : ℕ → SimulationEngine R S → Run (SimulationEngine R S)
  unfolding advance_functional process_kernel_tick apply_functional
  process_event_tick tick engine =
      if ltb tick engine.current_tick then finished (err logic_error) else (do
        advanced ← finished (advance_functional tick engine.functional_runtime)
        kernel ← process_kernel_tick tick engine.kernel
        let actions = drop (length engine.kernel.trace) kernel.trace
        functional ← finished (apply_functional tick actions advanced)
        finished (
            ok (record engine {
              kernel = kernel;
              functional_runtime = functional;
              current_tick = tick;
            })))

  -- The end of a step: the run is finalized where no event in the horizon is left.
  unfoldable pub finalize_if_exhausted : SimulationEngine R S → Run (SimulationEngine R S)
  unfolding finalize
  finalize_if_exhausted engine =
      if is_exhausted engine.stop_tick engine.kernel.queue
      then finalize engine
      else finished (ok engine)

  -- The rest of a step after the initialization, by the front of the queue.
  unfoldable pub step_from : SimulationEngine R S → List Event → Run (Bool × SimulationEngine R S)
  unfolding finalize process_event_tick finalize_if_exhausted
  step_from engine [] = do ended ← finalize engine; finished (ok (false, ended))
  step_from engine (event ∷ events) =
      if ltb engine.stop_tick event.tick
      then (do ended ← finalize engine; finished (ok (false, ended)))
      else (do
        processed ← process_event_tick event.tick engine
        ended ← finalize_if_exhausted processed
        finished (ok (true, ended)))

  unfoldable pub step_to_next_event : SimulationEngine R S → Run (Bool × SimulationEngine R S)
  unfolding initialize step_from
  step_to_next_event engine =
      if engine.is_finished
      then finished (ok (false, engine))
      else (do started ← initialize engine; step_from started started.kernel.queue.events)

  -- The loop of run: the state is the result of the last step, and `true` before the first.
  unfoldable pub run : SimulationEngine R S → Run (SimulationEngine R S)
  unfolding while step_to_next_event
  run engine = if engine.run_called then finished (err logic_error) else (do
    (more, ended) ←
        while (engine.stop_tick + 5) (λ s. s.0) (λ s. step_to_next_event s.1)
          (true, record engine { run_called = true })
    finished (ok ended))
