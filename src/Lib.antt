-- ===== src/Lib.antt =====
-- CPSSim: a deterministic, event-driven simulator of real-time tasks on exclusive resources.
--
-- A run is driven by one queue of events. Periodic tasks put releases into it, a release hands a job to
-- the scheduler, the scheduler starts and preempts jobs on the resources through a policy and puts
-- completion candidates and deadline checks into the queue, and a completed job makes the network
-- publish messages, whose sending and delivery are events again. The queue orders the events of one tick
-- by their processing stage, and those of one stage by insertion.
--
-- Parts, files and sources (paths below src/cpssim):
--   Time       model/time.cpp: duration_to_ticks, ticks_to_duration.
--   Event      model/categories.hpp, model/identifiers.hpp, model/event.cpp: the record of an event and
--              its constructor.
--   Queue      kernel/event_queue.cpp: EventQueue::schedule, next and pop_next, the comparator and the
--              precedence of the stages. The std::priority_queue is the list of its entries, top first.
--   Specs      model/specifications.cpp: the constructors of ResourceSpec and TaskSpec, and the plain
--              structs.
--   Config     model/experiment_config.cpp: the constructor of ExperimentConfig with its validation.
--   Runtime    model/runtime_state.cpp: JobState and Resource; start_job, charge_execution, preempt_job,
--              mark_deadline_missed, busy_ticks_until, idle_ticks_until.
--   Policy     policy/scheduling_policy.hpp, policy/fixed_priority.cpp: the policy interface is a record
--              of two functions, which FixedPriorityPolicy fills.
--   Release    kernel/periodic_release.cpp: Task and PeriodicReleaseModel.
--   Message    model/message.cpp: a message and the changes of its stage.
--   Network    network/fixed_delay_network.cpp: publish, process_send and process_delivery.
--   Scheduler  kernel/scheduler.cpp: submit, process_completion, process_deadline and schedule, for
--              every policy; the loop body of schedule is schedule_resource.
--   RunPlan    model/run_plan.cpp: build_run_plan with its diagnostics; policy/resource_allocator.cpp: both
--              allocators.
--   Functional functional/functional_model.hpp, functional_runtime.cpp and mock_functional_model.cpp: the runtime
--              that checks the rows of a functional model, the replay of a trace, and the mock model.
--   Assignments  kernel/simulation_engine.cpp: apply_assignments.
--   Kernel     kernel/simulation_engine.cpp: the members that events change, the handlers of the events and
--              the bodies of the loops over the events of a tick.
--   Engine     kernel/simulation_engine.cpp: SimulationEngine; initialize, finalize, process_event_tick,
--              step_to_next_event and run.
--   TriggerEncoder  bosch/trigger_encoder.cpp: encode_bosch_v10_triggers, without the text of the CSV file.
--   Base       what these share: tests, lists, errors, insertion sort, loops on fuel.
-- Below each part stand the modules of its theorems, named for what they are about, and Examples with
-- its concrete inputs.
--
-- How the code is translated:
--   - A C++ exception is an error value, one per exception class; what a throw leaves behind in an object
--     is not modelled. An operation that changes objects returns them.
--   - A Tick (int64) that no constructor has checked is an integer, and a checked one a natural number;
--     where the source guards against overflow the bound is tick_max, 2 ^ 63 - 1. Identifiers are
--     natural numbers, and event and message counters stop at 2 ^ 64 - 1 as in the source. The count
--     of preemptions (std::size_t) wraps at 2 ^ 64.
--   - A reference into a std::vector is the entry found, and a change through it replaces the first entry
--     of that identity. std::sort is insertion sort by the same comparison; entries that the
--     comparison does not separate are refused by the caller or by the configuration.
--   - Most loops run over a list. The while loops over the front of the queue and the loop of run take
--     fuel, and a loop that uses it up has an outcome of its own, `out_of_fuel`, that no run of the
--     code has. A loop over the events of a tick takes one round for each of those in the queue and one more,
--     since a handler only inserts later events; the run takes five more than the stop tick, since each
--     step processes a later tick.
--   - A functional model is a record of operations on a state of its own, and `double` a type with the
--     operations that the code uses: both are parameters.
--
-- Not modelled: the FMU models (fmi, bosch), the CSV text of triggers, result analysis, JSON input and output, the conformance
-- tools, and the command line and graphical programs. Scheduler::observe and the observation of a policy have
-- no effect in the policies modelled and are left out.
pub mod Base
pub mod Time
pub mod Event
pub mod Queue
pub mod Specs
pub mod Runtime
pub mod Policy
pub mod Config
pub mod Message
pub mod Network
pub mod Release
pub mod Scheduler
pub mod RunPlan
pub mod Functional
pub mod Assignments
pub mod Kernel
pub mod Engine
pub mod TriggerEncoder
