-- ===== src/Assignments.antt =====
-- SimulationEngine::apply_assignments of src/cpssim/kernel/simulation_engine.cpp: the check of an
-- allocation and its transfer to the release model.
pub mod Checks
pub mod Transfer
pub mod Acceptance
mod Examples
use cpssim.Base.{
  ℕ, not, Option, none, some, List, [], ◌∷◌, Result, ok, err, invalid_argument, ◌>>=◌, ◌>>◌,
  throw_if, ◌==◌, if◌then◌else◌, length, has_value,
}
use cpssim.Specs.{TaskSpec}
use cpssim.Config.{ExperimentConfig, contains_resource}
use cpssim.Release.{PeriodicReleaseModel, assign_task}
use cpssim.RunPlan.{TaskAssignment, contains_profile}

-- The search for the resource of a task, which refuses a second assignment.
unfoldable pub select_resource : ℕ → Option ℕ → List TaskAssignment → Result (Option ℕ)
select_resource task_id selected [] = ok selected
select_resource task_id selected (assignment ∷ assignments) =
    if assignment.task_id == task_id
    then (if has_value selected
        then err invalid_argument
        else select_resource task_id (some assignment.resource_id) assignments)
    else select_resource task_id selected assignments

-- `if (!selected_resource.has_value()) throw std::invalid_argument`, and the value.
abbrev pub selected_value : Option ℕ → Result ℕ
selected_value none = err invalid_argument
selected_value (some resource_id) = ok resource_id

-- The body of the validation loop.
unfoldable pub check_task : ExperimentConfig → List TaskAssignment → TaskSpec → Result (Unit {0})
unfolding select_resource
check_task config assignments task = do
  selected ← select_resource task.id none assignments
  resource_id ← selected_value selected
  throw_if (not (contains_resource config.resources resource_id)) invalid_argument
  throw_if (not (contains_profile config.task_resource_profiles task.id resource_id))
      invalid_argument

unfoldable pub check_tasks :
    ExperimentConfig → List TaskAssignment → List TaskSpec → Result (Unit {0})
unfolding check_task
check_tasks config assignments [] = ok tt
check_tasks config assignments (task ∷ tasks) = do
  check_task config assignments task
  check_tasks config assignments tasks

-- The inner loop of the transfer: the first assignment of the task.
unfoldable pub assign_first :
    ℕ → List TaskAssignment → PeriodicReleaseModel → Result PeriodicReleaseModel
unfolding assign_task
assign_first task_id [] releases = ok releases
assign_first task_id (assignment ∷ assignments) releases =
    if assignment.task_id == task_id
    then assign_task releases assignment.task_id assignment.resource_id
    else assign_first task_id assignments releases

unfoldable pub assign_tasks :
    List TaskSpec → List TaskAssignment → PeriodicReleaseModel → Result PeriodicReleaseModel
unfolding assign_first
assign_tasks [] assignments releases = ok releases
assign_tasks (task ∷ tasks) assignments releases = do
  releases' ← assign_first task.id assignments releases
  assign_tasks tasks assignments releases'

unfoldable pub apply_assignments :
    ExperimentConfig → List TaskAssignment → PeriodicReleaseModel → Result PeriodicReleaseModel
unfolding check_tasks assign_tasks
apply_assignments config assignments releases = do
  throw_if (not (length assignments == length config.tasks)) invalid_argument
  check_tasks config assignments config.tasks
  assign_tasks config.tasks assignments releases
