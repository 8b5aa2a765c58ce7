-- ===== src/Assignments/Acceptance.antt =====
-- Between run plans and the engine: a plan that build_run_plan makes is one that apply_assignments accepts.
use cpssim.Base.{
  ℕ, ◌≡◌, refl, subst, inl, inr, some, List, [], ◌∷◌, ok, Bool-cases, arith, ℤ, ◌==◌, All,
}
use cpssim.Specs.{TaskSpec}
use cpssim.Config.{ExperimentConfig}
use cpssim.Config.Profiles.{AreDistinct}
use cpssim.Release.{PeriodicReleaseModel, new_release_model}
use cpssim.RunPlan.{TaskAssignment, RunPlanRequest, RunPlan, assignments_of, build_run_plan}
use cpssim.RunPlan.Plan.{AreChosen, build_run_plan_iff}
use cpssim.Assignments.{apply_assignments}
use cpssim.Assignments.Checks.{Matches, Matches-length, ArePast, check_tasks-Matches}
use cpssim.Assignments.Transfer.{Holds, assign_tasks-Serves, new_release_model-Serves}

assignments_of-task :
    (id : ℕ) (given : List TaskAssignment)
    → All (λ (a : TaskAssignment). a.task_id ≡ id) (assignments_of id given)
unfolding assignments_of
assignments_of-task id [] = tt
assignments_of-task id (a ∷ given) = elim (Bool-cases (a.task_id == id)) [
  | inl e ↦ rw e (ground (arith, e), assignments_of-task id given)
  | inr e ↦ rw e (assignments_of-task id given)
]

AreChosen-Matches :
    (config : ExperimentConfig) (assignments : List TaskAssignment) (tasks : List TaskSpec)
    (given : List TaskAssignment)
    → AreChosen config assignments tasks given
    → Matches config tasks given
AreChosen-Matches config assignments [] [] c = tt
AreChosen-Matches config assignments [] (a ∷ given) c = absurd c
AreChosen-Matches config assignments (task ∷ tasks) [] c = absurd c
AreChosen-Matches config assignments (task ∷ tasks) (a ∷ given) (one, r, p, c) =
    let own =
      (subst (All (λ (a : TaskAssignment). a.task_id ≡ task.id)) one
        (assignments_of-task task.id assignments)).0 in
    (own, r, rw own at p, AreChosen-Matches config assignments tasks given c)

nothing_past : (tasks : List TaskSpec) → ArePast [] tasks
nothing_past [] = tt
nothing_past (t ∷ tasks) = (tt, nothing_past tasks)

-- Where no two tasks of the configuration have the same number, the engine accepts every plan: the
-- assignments of a plan pass the validation, and in the release model that results from the one that is
-- built from the configuration, the task of each assignment of the plan has the resource of that
-- assignment.
pub apply_assignments-build_run_plan :
    (config : ExperimentConfig) (request : RunPlanRequest) (plan : RunPlan) (stop : ℤ)
    (releases : PeriodicReleaseModel)
    → AreDistinct config.tasks
    → (build_run_plan config request).plan ≡ some plan
    → new_release_model config stop ≡ ok releases
    → (releases' : PeriodicReleaseModel) × (apply_assignments config plan.assignments releases
        ≡ ok releases')
      × All (Holds releases'.tasks) plan.assignments
apply_assignments-build_run_plan config request plan stop releases d h n =
    let m =
      AreChosen-Matches config request.assignments config.tasks plan.assignments
        ((build_run_plan_iff config request plan).0 h).chosen in
    let checked =
      check_tasks-Matches config [] config.tasks plan.assignments m d (nothing_past config.tasks) in
    let many = Matches-length config config.tasks plan.assignments m in
    let (releases', k, all, kept) =
      assign_tasks-Serves config.task_resource_profiles config refl [] config.tasks plan.assignments
        releases m d (nothing_past config.tasks)
        (new_release_model-Serves config.task_resource_profiles config stop releases refl n) in
    (releases', unfold apply_assignments in ground (arith, many, checked, k), all)
