-- ===== src/Assignments/Examples.antt =====
-- The acceptance of a plan at a concrete configuration.
use cpssim.Base.{ℕ, ◌≡◌, refl, some, none, false, [], ◌∷◌, ok, pos, arith, All}
use cpssim.Specs.{TaskSpec, TaskResourceProfile, PreemptionMode}
use cpssim.Config.{ExperimentConfig}
use cpssim.Config.Profiles.{AreDistinct}
use cpssim.Release.{Task, PeriodicReleaseModel, new_release_model}
use cpssim.RunPlan.{TaskAssignment, SchedulingPolicyKind, RunPlanRequest, RunPlan, build_run_plan}
use cpssim.Assignments.{apply_assignments}
use cpssim.Assignments.Transfer.{Holds}
use cpssim.Assignments.Acceptance.{apply_assignments-build_run_plan}

abbrev task : ℕ → TaskSpec
task id = record { id = id; name = "task"; period = 10; deadline = 10; offset = 0; priority = id }

abbrev profile : ℕ → TaskResourceProfile
profile id = record { task_id = id; resource_id = 7; execution_time = pos 3 }

abbrev config : ExperimentConfig
config = record {
  tick_period = 1;
  scheduling = record { preemption_mode = PreemptionMode.preemptive };
  resources = record { id = 7; name = "cpu" } ∷ [];
  tasks = task 2 ∷ task 1 ∷ [];
  task_resource_profiles = profile 1 ∷ profile 2 ∷ [];
  message_routes = [];
}

abbrev assigned : ℕ → TaskAssignment
assigned id = record { task_id = id; resource_id = 7 }

abbrev request : RunPlanRequest
request = record {
  stop_tick = pos 40;
  policy_kind = SchedulingPolicyKind.fixed_priority;
  assignments = assigned 1 ∷ assigned 2 ∷ [];
}

abbrev plan : RunPlan
plan = record {
  stop_tick = pos 40;
  policy_kind = SchedulingPolicyKind.fixed_priority;
  assignments = assigned 2 ∷ assigned 1 ∷ [];
}

planned : (build_run_plan config request).plan ≡ some plan
unfolding build_run_plan
planned = refl

abbrev stored : ℕ → Task
stored id = record {
  spec = task id;
  resource_profiles = profile id ∷ [];
  stop_tick = 40;
  scheduled_tick = 0;
  scheduled_job_id = 1;
  assigned_resource = none;
  pending_resource = none;
  initialized = false;
  release_pending = false;
}

abbrev releases : PeriodicReleaseModel
releases = record { tasks = stored 1 ∷ stored 2 ∷ []; stop_tick = 40; initialized = false }

built : new_release_model config (pos 40) ≡ ok releases
unfolding new_release_model
built = refl

distinct : AreDistinct config.tasks
distinct = (((λ e. omega (arith, e)), tt), (tt, tt))

apply_assignments-build_run_plan_example :
    (releases' : PeriodicReleaseModel) × (apply_assignments config
        (assigned 2 ∷ assigned 1 ∷ [])
        releases
      ≡ ok releases')
    × All (Holds releases'.tasks) (assigned 2 ∷ assigned 1 ∷ [])
apply_assignments-build_run_plan_example =
    apply_assignments-build_run_plan config request plan (pos 40) releases distinct planned built
