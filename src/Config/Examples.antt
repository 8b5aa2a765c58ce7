-- ===== src/Config/Examples.antt =====
-- The theorem on configurations at a concrete input.
use cpssim.Base.{ℕ, ◌≡◌, refl, [], ◌∷◌, ok, err, invalid_argument, pos}
use cpssim.Specs.{TaskSpec, TaskResourceProfile, PreemptionMode, SchedulingSpec, MessageRouteSpec}
use cpssim.Config.{ExperimentConfig, new_experiment_config}
use cpssim.Config.Validation.{IsConsistent, new_experiment_config-IsConsistent}

abbrev sensing : TaskSpec
sensing = record { id = 1; name = "sensing"; period = 10; deadline = 10; offset = 0; priority = 1 }

abbrev control : TaskSpec
control = record { id = 2; name = "control"; period = 20; deadline = 15; offset = 2; priority = 2 }

abbrev profile : ℕ → ℕ → TaskResourceProfile
profile id demand = record { task_id = id; resource_id = 7; execution_time = pos demand }

abbrev route : MessageRouteSpec
route = record {
  source_task_id = 1;
  destination_task_id = 2;
  kind = pos 0;
  send_offset = pos 1;
  delay = pos 3;
}

abbrev scheduling : SchedulingSpec
scheduling = record { preemption_mode = PreemptionMode.preemptive }

abbrev config : ExperimentConfig
config = record {
  tick_period = 1000;
  scheduling = scheduling;
  resources = record { id = 7; name = "cpu" } ∷ [];
  tasks = sensing ∷ control ∷ [];
  task_resource_profiles = profile 1 3 ∷ profile 2 4 ∷ [];
  message_routes = route ∷ [];
}

build :
    new_experiment_config
      (pos 1000)
      scheduling
      config.resources
      config.tasks
      config.task_resource_profiles
      config.message_routes
    ≡ ok config
unfolding new_experiment_config
build = refl

-- The demand of 16 exceeds the deadline.
demand_refused :
    new_experiment_config
      (pos 1000)
      scheduling
      config.resources
      config.tasks
      (profile 1 3 ∷ profile 2 16 ∷ [])
      []
    ≡ err invalid_argument
unfolding new_experiment_config
demand_refused = refl

new_experiment_config-IsConsistent_example : IsConsistent config
new_experiment_config-IsConsistent_example =
    new_experiment_config-IsConsistent (pos 1000) scheduling config.resources config.tasks
      config.task_resource_profiles config.message_routes config build
