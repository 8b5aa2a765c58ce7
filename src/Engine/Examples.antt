-- ===== src/Engine/Examples.antt =====
-- The theorems on the event loop at concrete inputs, and the events of a run.
use cpssim.Base.{
  ℕ, ◌<◌, ◌≡◌, refl, Bool, true, false, none, some, List, [], ◌∷◌, ok, err, pos, arith, All, map,
}
use cpssim.Base.Loops.{Run, finished, out_of_fuel, ◌>>=◌, Ends}
use cpssim.Event.{Event, EventPhase, EventType}
use cpssim.Specs.{TaskSpec, PreemptionMode}
use cpssim.Queue.{EventQueue}
use cpssim.Config.{ExperimentConfig}
use cpssim.Policy.{fixed_priority_policy}
use cpssim.Release.{release_entities}
use cpssim.RunPlan.{allocate}
use cpssim.Functional
use cpssim.Policy
use cpssim.Queue
use cpssim.Functional.{FunctionalModel}
use cpssim.Functional.Mock
use cpssim.Functional.Mock.{Floating, MockFunctionalModel, mock_functional_model}
use cpssim.Kernel.{Kernel, new_kernel}
use cpssim.Engine.{SimulationEngine, new_engine, process_kernel_tick, step_to_next_event, run}
use cpssim.Engine.Handlers.{IsReady}
use cpssim.Engine.Tick.{IsSettled, process_kernel_tick-IsSettled}
use cpssim.Engine.Stages.{constructed, Outcome, IsCompleted}
use cpssim.Engine.Step.{step_to_next_event-Outcome}
use cpssim.Engine.Observation.{HasRows, run-HasRows}
use cpssim.Engine.Construction.{run-new_engine, new_kernel-IsReady}

abbrev numbers : Floating ℕ
numbers = record { is_finite = λ x. true; add = λ x y. x; of_count = λ n. n }

abbrev always : ℕ → Bool
always = numbers.is_finite

abbrev model : FunctionalModel ℕ (MockFunctionalModel ℕ)
model = mock_functional_model numbers

abbrev mock : MockFunctionalModel ℕ
mock = record {
  state = 5;
  stop_tick = 0;
  current_tick = 0;
  pending_action_count = 0;
  initialized = false;
  finalized = false;
}

-- One task with a message to itself.
abbrev config : ExperimentConfig
config = record {
  tick_period = 100;
  scheduling = record { preemption_mode = PreemptionMode.preemptive };
  resources = record { id = 1; name = "cpu" } ∷ [];
  tasks =
      record { id = 3; name = "control"; period = 6; deadline = 5; offset = 2; priority = 1 } ∷ [];
  task_resource_profiles = record { task_id = 3; resource_id = 1; execution_time = pos 2 } ∷ [];
  message_routes =
      record {
        source_task_id = 3;
        destination_task_id = 3;
        kind = pos 0;
        send_offset = pos 1;
        delay = pos 2;
      }
      ∷ [];
}

periods : All (λ (t : TaskSpec). 0 < t.period) config.tasks
periods = (omega arith, tt)

abbrev engine : Run (SimulationEngine ℕ (MockFunctionalModel ℕ))
engine = new_engine always model config (pos 9) allocate fixed_priority_policy (some mock)

-- What a run leaves in its trace.
abbrev times : Run (SimulationEngine ℕ (MockFunctionalModel ℕ)) → List (ℕ × EventType)
times (finished (ok e)) = map (λ (x : Event). (x.tick, x.type)) e.kernel.trace
times (finished (err error)) = []
times out_of_fuel = []

run_at_9 :
    times (engine >>= λ e. run always model e)
    ≡ (2, EventType.job_release)
      ∷ (2, EventType.job_start)
      ∷ (4, EventType.job_finish)
      ∷ (5, EventType.message_send)
      ∷ (7, EventType.message_delivery)
      ∷ (8, EventType.job_release)
      ∷ (8, EventType.job_start)
      ∷ []
unfolding new_engine run allocate Functional.new_runtime Queue.schedule Functional.initialize
    Mock.start Functional.advance_to Mock.advance Policy.select Policy.comes_before
    Functional.apply_actions Mock.store_actions Functional.finalize Mock.end
run_at_9 = refl

-- The kernel that the constructor makes of it.
abbrev built : Kernel
built = record {
  queue = Queue.new_event_queue;
  releases = record {
    tasks =
        record {
          spec = record {
            id = 3;
            name = "control";
            period = 6;
            deadline = 5;
            offset = 2;
            priority = 1;
          };
          resource_profiles = record { task_id = 3; resource_id = 1; execution_time = pos 2 } ∷ [];
          stop_tick = 9;
          scheduled_tick = 2;
          scheduled_job_id = 1;
          assigned_resource = some 1;
          pending_resource = none;
          initialized = false;
          release_pending = false;
        }
        ∷ [];
    stop_tick = 9;
    initialized = false;
  };
  scheduler = record {
    scheduling = config.scheduling;
    policy = fixed_priority_policy;
    stop_tick = 9;
    resource_states =
        record {
          resource = record {
            spec = record { id = 1; name = "cpu" };
            running_job = none;
            running_since = none;
            expected_completion_tick = none;
            busy_ticks = 0;
          };
          ready_jobs = [];
        }
        ∷ [];
    jobs = [];
  };
  network = record {
    routes = config.message_routes;
    messages = [];
    stop_tick = 9;
    next_message_id = 1;
    message_id_space_exhausted = false;
  };
  trace = [];
}

new_kernel_built : new_kernel config (pos 9) allocate fixed_priority_policy ≡ ok built
unfolding new_kernel allocate
new_kernel_built = refl

built-IsReady : IsReady 0 built
built-IsReady =
    new_kernel-IsReady config (pos 9) allocate fixed_priority_policy built periods new_kernel_built

-- The kernel with the first release in its queue.
abbrev waiting : Kernel
waiting = record built {
  queue = record {
    events =
        record {
          tick = 2;
          phase = EventPhase.job_release;
          sequence = 0;
          type = EventType.job_release;
          entities = release_entities 3 1 1;
          cause_sequence = none;
        }
        ∷ [];
    next_sequence = 1;
    sequence_space_exhausted = false;
  };
}

waiting-IsReady : IsReady 2 waiting
waiting-IsReady = record {
  timely = record {
    valid = record { ordered = (tt, tt); fresh = λ _. (omega arith, tt); bounded = omega arith };
    from = (omega arith, tt);
  };
  periodic = built-IsReady.periodic;
  causal = tt;
  traced = record { ordered = tt; until = tt };
}

process_kernel_tick-IsSettled_example : Ends (IsSettled 2) (process_kernel_tick 2 waiting)
process_kernel_tick-IsSettled_example = process_kernel_tick-IsSettled 2 waiting waiting-IsReady

abbrev built_engine : SimulationEngine ℕ (MockFunctionalModel ℕ)
built_engine = record {
  kernel = built;
  functional_runtime = none;
  stop_tick = 9;
  current_tick = 0;
  initialized = false;
  is_finished = false;
  run_called = false;
}

step_to_next_event-Outcome_example :
    Ends
      (λ (more, next). Outcome built_engine more next)
      (step_to_next_event always model built_engine)
step_to_next_event-Outcome_example =
    step_to_next_event-Outcome always model built_engine (constructed refl refl built-IsReady)

run-new_engine_example : Ends IsCompleted (
    new_engine always model config (pos 9) allocate fixed_priority_policy (some mock) >>= λ engine.
    run always model engine)
run-new_engine_example =
    run-new_engine always model config (pos 9) allocate fixed_priority_policy (some mock) periods

run-HasRows_example : Ends (HasRows always model) (
    new_engine always model config (pos 9) allocate fixed_priority_policy (some mock) >>= λ engine.
    run always model engine)
run-HasRows_example =
    run-HasRows always model config (pos 9) allocate fixed_priority_policy mock periods
