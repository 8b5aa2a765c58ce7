-- ===== src/RunPlan.antt =====
-- src/cpssim/model/run_plan.hpp and run_plan.cpp, and the allocators of policy/resource_allocator.hpp
-- and resource_allocator.cpp, whose assignments a plan holds.
pub mod Plan
pub mod Allocation
mod Examples
use cpssim.Base.{
  ℕ, String, ◌+◌, Bool, true, false, not, ◌&&◌, Option, none, some, List, [], ◌∷◌, ◌++◌, Result, ok,
  err, invalid_argument, ◌>>=◌, ◌>>◌, throw_if, ℤ, ltb, ◌==◌, if◌then◌else◌, is_empty, sort,
}
use cpssim.Specs.{TaskSpec, ResourceSpec, TaskResourceProfile}
use cpssim.Config.{ExperimentConfig, any, contains_task, contains_resource, is_negative}

pub record TaskAssignment : Type 0 where
  pub task_id : ℕ
  pub resource_id : ℕ

-- `other` is a value of the enumeration that no enumerator names.
pub data SchedulingPolicyKind : Type 0 where
  fixed_priority : SchedulingPolicyKind
  other : ℕ → SchedulingPolicyKind

pub data RunPlanDiagnosticCode : Type 0 where
  missing_task_assignment duplicate_task_assignment unknown_task unknown_resource
        inaccessible_resource invalid_stop_tick unsupported_policy run_construction_failed :
      RunPlanDiagnosticCode

pub record RunPlanDiagnostic : Type 0 where
  pub code : RunPlanDiagnosticCode
  pub task_id : Option ℕ
  pub resource_id : Option ℕ
  pub message : String

pub record RunPlanRequest : Type 0 where
  pub stop_tick : ℤ
  pub policy_kind : SchedulingPolicyKind
  pub assignments : List TaskAssignment

pub record RunPlan : Type 0 where
  pub stop_tick : ℤ
  pub policy_kind : SchedulingPolicyKind
  pub assignments : List TaskAssignment

pub record RunPlanBuildResult : Type 0 where
  pub plan : Option RunPlan
  pub diagnostics : List RunPlanDiagnostic

-- The profiles have the pair of a task and a resource.
abbrev pub contains_profile : List TaskResourceProfile → ℕ → ℕ → Bool
contains_profile profiles task_id resource_id =
    any (λ profile. profile.task_id == task_id && profile.resource_id == resource_id) profiles

abbrev pub stop_diagnostics : ℤ → List RunPlanDiagnostic
stop_diagnostics stop_tick =
    if is_negative stop_tick
    then record {
      code = RunPlanDiagnosticCode.invalid_stop_tick;
      task_id = none;
      resource_id = none;
      message = "stop tick must not be negative";
    }
      ∷ []
    else []

abbrev pub policy_diagnostics : SchedulingPolicyKind → List RunPlanDiagnostic
policy_diagnostics SchedulingPolicyKind.fixed_priority = []
policy_diagnostics (SchedulingPolicyKind.other value) =
    record {
      code = RunPlanDiagnosticCode.unsupported_policy;
      task_id = none;
      resource_id = none;
      message = "scheduling policy is not supported";
    }
    ∷ []

-- The order of the assignments in which unknown tasks are reported.
abbrev pub assignment_before : TaskAssignment → TaskAssignment → Bool
assignment_before left right =
    if left.task_id == right.task_id
    then ltb left.resource_id right.resource_id
    else ltb left.task_id right.task_id

-- A report on an assignment.
abbrev pub report : RunPlanDiagnosticCode → String → TaskAssignment → RunPlanDiagnostic
report code message assignment = record {
  code = code;
  task_id = some assignment.task_id;
  resource_id = some assignment.resource_id;
  message = message;
}

-- A report on a task alone.
abbrev pub report_task : RunPlanDiagnosticCode → String → ℕ → RunPlanDiagnostic
report_task code message task_id = record {
  code = code;
  task_id = some task_id;
  resource_id = none;
  message = message;
}

unfoldable pub unknown_tasks : List TaskSpec → List TaskAssignment → List RunPlanDiagnostic
unknown_tasks tasks [] = []
unknown_tasks tasks (assignment ∷ assignments) =
    if contains_task tasks assignment.task_id
    then unknown_tasks tasks assignments
    else report RunPlanDiagnosticCode.unknown_task "assignment refers to an unknown task" assignment
      ∷ unknown_tasks tasks assignments

-- The assignments of the task, of which std::count_if gives the number and std::find_if the first.
unfoldable pub assignments_of : ℕ → List TaskAssignment → List TaskAssignment
assignments_of task_id [] = []
assignments_of task_id (assignment ∷ assignments) =
    if assignment.task_id == task_id
    then assignment ∷ assignments_of task_id assignments
    else assignments_of task_id assignments

-- What one task adds to the plan and to the diagnostics: an assignment or a report.
pub data Choice : Type 0 where
  chosen : TaskAssignment → Choice
  refused : RunPlanDiagnostic → Choice

unfoldable pub check_assignment : ExperimentConfig → TaskAssignment → Choice
check_assignment config assignment =
    if not (contains_resource config.resources assignment.resource_id)
    then refused (
        report RunPlanDiagnosticCode.unknown_resource "assignment refers to an unknown resource"
          assignment)
    else if not
        (contains_profile config.task_resource_profiles assignment.task_id assignment.resource_id)
    then refused (
        report RunPlanDiagnosticCode.inaccessible_resource
          "task has no execution profile for the selected resource" assignment)
    else chosen assignment

-- The body of the loop over the tasks, on the assignments of the task.
unfoldable pub choose : ExperimentConfig → ℕ → List TaskAssignment → Choice
unfolding check_assignment
choose config task_id [] = refused (
    report_task RunPlanDiagnosticCode.missing_task_assignment
      "task requires one resource assignment" task_id)
choose config task_id (assignment ∷ []) = check_assignment config assignment
choose config task_id (assignment ∷ next ∷ more) = refused (
    report_task RunPlanDiagnosticCode.duplicate_task_assignment "task is assigned more than once"
      task_id)

abbrev pub add_choice :
    Choice
    → List RunPlanDiagnostic × List TaskAssignment
    → List RunPlanDiagnostic × List TaskAssignment
add_choice (chosen assignment) (diagnostics, assignments) = (diagnostics, assignment ∷ assignments)
add_choice (refused diagnostic) (diagnostics, assignments) = (diagnostic ∷ diagnostics, assignments)

-- The loop over the tasks: its reports and the canonical assignments.
unfoldable pub choose_all :
    ExperimentConfig
    → List TaskAssignment
    → List TaskSpec
    → List RunPlanDiagnostic × List TaskAssignment
unfolding choose assignments_of
choose_all config assignments [] = ([], [])
choose_all config assignments (task ∷ tasks) =
    add_choice (choose config task.id (assignments_of task.id assignments))
      (choose_all config assignments tasks)

abbrev pub diagnostics_of : ExperimentConfig → RunPlanRequest → List RunPlanDiagnostic
diagnostics_of config request =
    stop_diagnostics request.stop_tick
    ++ (policy_diagnostics request.policy_kind
        ++ (unknown_tasks config.tasks (sort assignment_before request.assignments)
            ++ (choose_all config request.assignments config.tasks).0))

unfoldable pub build_run_plan : ExperimentConfig → RunPlanRequest → RunPlanBuildResult
unfolding choose_all unknown_tasks sort
build_run_plan config request = record {
  plan =
      if is_empty (diagnostics_of config request)
      then some (record {
        stop_tick = request.stop_tick;
        policy_kind = request.policy_kind;
        assignments = (choose_all config request.assignments config.tasks).1;
      })
      else none;
  diagnostics = diagnostics_of config request;
}

-- The loop of SingleResourceAllocator::allocate over the tasks.
unfoldable pub allocate_tasks :
    List TaskResourceProfile → ℕ → List TaskSpec → Result (List TaskAssignment)
allocate_tasks profiles resource_id [] = ok []
allocate_tasks profiles resource_id (task ∷ tasks) = do
  throw_if (not (contains_profile profiles task.id resource_id)) invalid_argument
  assignments ← allocate_tasks profiles resource_id tasks
  ok (record { task_id = task.id; resource_id = resource_id } ∷ assignments)

-- SingleResourceAllocator::allocate
unfoldable pub allocate : ExperimentConfig → Result (List TaskAssignment)
unfolding allocate_tasks
allocate config = elim config.resources [
  | [] ↦ err invalid_argument
  | resource ∷ others ↦ do
    throw_if (not (is_empty others)) invalid_argument
    allocate_tasks config.task_resource_profiles resource.id config.tasks
]

-- ConfiguredResourceAllocator, an allocator that returns the stored assignments.
abbrev pub allocate_configured :
    List TaskAssignment → ExperimentConfig → Result (List TaskAssignment)
allocate_configured assignments config = ok assignments
