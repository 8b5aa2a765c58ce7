-- ===== src/Engine/SessionExamples.antt =====
-- The theorem on sessions at a concrete one: two jobs are released at the same tick.
use cpssim.Base.{ℕ, ◌≡◌, refl, Bool, true, false, none, [], ◌∷◌, ok, err, pos}
use cpssim.Base.Loops.{Run, finished, out_of_fuel}
use cpssim.Specs.{PreemptionMode}
use cpssim.Config.{ExperimentConfig}
use cpssim.Runtime.{JobState, JobLifecycle}
use cpssim.Policy.{find_job, fixed_priority_policy}
use cpssim.Policy
use cpssim.Queue
use cpssim.RunPlan.{allocate}
use cpssim.Functional.{FunctionalModel}
use cpssim.Functional.Mock.{MockFunctionalModel, mock_functional_model}
use cpssim.Scheduler.Service.{YieldsTo}
use cpssim.Engine.{SimulationEngine, new_engine, step_to_next_event}
use cpssim.Engine.Sessions.{builds, steps, Session-YieldsTo}

abbrev model : FunctionalModel ℕ (MockFunctionalModel ℕ)
model = mock_functional_model (record { is_finite = λ x. true; add = λ x y. x; of_count = λ n. n })

abbrev always : ℕ → Bool
always x = true

-- Two tasks on one resource, both released at 2.
abbrev config : ExperimentConfig
config = record {
  tick_period = 100;
  scheduling = record { preemption_mode = PreemptionMode.preemptive };
  resources = record { id = 1; name = "cpu" } ∷ [];
  tasks =
      record { id = 3; name = "control"; period = 6; deadline = 5; offset = 2; priority = 4 }
      ∷ record { id = 4; name = "guard"; period = 6; deadline = 5; offset = 2; priority = 1 }
      ∷ [];
  task_resource_profiles =
      record { task_id = 3; resource_id = 1; execution_time = pos 2 }
      ∷ record { task_id = 4; resource_id = 1; execution_time = pos 2 }
      ∷ [];
  message_routes = [];
}

-- The value that the code returns.
abbrev Returned : {T : Type 0} → Run T → Type 0
Returned (finished (ok value)) = Unit {0}
Returned (finished (err error)) = ⊥
Returned out_of_fuel = ⊥

abbrev value_of : {T : Type 0} (r : Run T) → Returned r → T
value_of (finished (ok value)) u = value
value_of (finished (err error)) u = absurd u
value_of out_of_fuel u = absurd u

abbrev construction : Run (SimulationEngine ℕ (MockFunctionalModel ℕ))
construction = new_engine always model config (pos 9) allocate fixed_priority_policy none

constructs : Returned construction
unfolding new_engine allocate
constructs = tt

abbrev engine : SimulationEngine ℕ (MockFunctionalModel ℕ)
engine = value_of construction constructs

engine_built : construction ≡ finished (ok engine)
unfolding new_engine allocate
engine_built = refl

abbrev step : Run (Bool × SimulationEngine ℕ (MockFunctionalModel ℕ))
step = step_to_next_event always model engine

step_returns : Returned step
unfolding new_engine allocate constructs step_to_next_event Queue.schedule Policy.select
    Policy.comes_before
step_returns = tt

-- After the first step the job of the higher priority runs and the other one waits.
abbrev stepped : SimulationEngine ℕ (MockFunctionalModel ℕ)
stepped = (value_of step step_returns).1

abbrev waiting : JobState
waiting = record {
  id = 1;
  task_id = 3;
  resource_id = 1;
  priority = 4;
  release_tick = 2;
  absolute_deadline = 7;
  remaining_execution = 2;
  lifecycle = JobLifecycle.ready;
  has_started = false;
  first_start_tick = none;
  finish_tick = none;
  preemption_count = 0;
  deadline_missed = false;
}

stepped_once : step ≡ finished (ok (true, stepped))
unfolding new_engine allocate constructs step_to_next_event Queue.schedule Policy.select
    Policy.comes_before
stepped_once = refl

control_waits :
    find_job stepped.kernel.scheduler.jobs (record { task_id = 3; job_id = 1 }) ≡ ok waiting
unfolding new_engine allocate constructs step_to_next_event Queue.schedule Policy.select
    Policy.comes_before find_job
control_waits = refl

Session-YieldsTo_example : YieldsTo stepped.kernel.scheduler waiting
Session-YieldsTo_example =
    Session-YieldsTo always model config (pos 9) allocate none stepped
      (record { task_id = 3; job_id = 1 }) waiting refl
      (steps true (builds engine_built) stepped_once) control_waits refl
