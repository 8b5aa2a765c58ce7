-- ===== src/RunPlan/Examples.antt =====
-- The theorems on plans at concrete inputs.
use cpssim.Base.{ℕ, ◌≡◌, ◌↔◌, refl, some, none, [], ◌∷◌, ok, pos, negsuc, arith}
use cpssim.Specs.{TaskSpec, TaskResourceProfile, PreemptionMode}
use cpssim.Config.{ExperimentConfig}
use cpssim.RunPlan.{
  TaskAssignment, SchedulingPolicyKind, RunPlanRequest, RunPlan, build_run_plan, allocate,
}
use cpssim.RunPlan.Plan.{IsPlanOf, build_run_plan_iff}
use cpssim.Config.Profiles.{AreDistinct}
use cpssim.RunPlan.Allocation.{allocate-build_run_plan}

abbrev task : ℕ → TaskSpec
task id = record { id = id; name = "task"; period = 10; deadline = 10; offset = 0; priority = id }

abbrev profile : ℕ → TaskResourceProfile
profile id = record { task_id = id; resource_id = 7; execution_time = pos 3 }

abbrev config : ExperimentConfig
config = record {
  tick_period = 1;
  scheduling = record { preemption_mode = PreemptionMode.preemptive };
  resources = record { id = 7; name = "cpu" } ∷ [];
  tasks = task 1 ∷ task 2 ∷ [];
  task_resource_profiles = profile 1 ∷ profile 2 ∷ [];
  message_routes = [];
}

abbrev assigned : ℕ → TaskAssignment
assigned id = record { task_id = id; resource_id = 7 }

abbrev plan : RunPlan
plan = record {
  stop_tick = pos 40;
  policy_kind = SchedulingPolicyKind.fixed_priority;
  assignments = assigned 1 ∷ assigned 2 ∷ [];
}

-- The assignments in another order than the tasks.
abbrev request : RunPlanRequest
request = record {
  stop_tick = pos 40;
  policy_kind = SchedulingPolicyKind.fixed_priority;
  assignments = assigned 2 ∷ assigned 1 ∷ [];
}

request_accepted : (build_run_plan config request).plan ≡ some plan
unfolding build_run_plan
request_accepted = refl

request_refused : (build_run_plan config (record request { stop_tick = negsuc 0 })).plan ≡ none
unfolding build_run_plan
request_refused = refl

build_run_plan_iff_example :
    ((build_run_plan config request).plan ≡ some plan) ↔ IsPlanOf config request plan
build_run_plan_iff_example = build_run_plan_iff config request plan

allocated : allocate config ≡ ok (assigned 1 ∷ assigned 2 ∷ [])
unfolding allocate
allocated = refl

distinct : AreDistinct (task 1 ∷ task 2 ∷ [])
distinct = (((λ e. omega (arith, e)), tt), (tt, tt))

allocate-build_run_plan_example :
    (build_run_plan config (record {
      stop_tick = pos 40;
      policy_kind = SchedulingPolicyKind.fixed_priority;
      assignments = assigned 1 ∷ assigned 2 ∷ [];
    })).plan
    ≡ some plan
allocate-build_run_plan_example =
    allocate-build_run_plan config (assigned 1 ∷ assigned 2 ∷ []) 40 distinct allocated
