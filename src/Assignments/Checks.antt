-- ===== src/Assignments/Checks.antt =====
-- The validation loop of SimulationEngine::apply_assignments on assignments in the order of the tasks.
use mathlib.Core.List.{append_assoc}
use cpssim.Base.{
  ℕ, ◌≡◌, ◌≢◌, refl, sym, ap, subst, ◌∙◌, true, Option, none, some, List, [], ◌∷◌, ◌++◌, ok, arith,
  All, All-append, length, suc,
}
use cpssim.Specs.{TaskSpec}
use cpssim.Config.{ExperimentConfig, contains_resource}
use cpssim.Config.Profiles.{AreDistinct}
use cpssim.RunPlan.{TaskAssignment, contains_profile}
use cpssim.Assignments.{select_resource, check_task, check_tasks}

-- The assignments stand in the order of the tasks, and each gives its task a resource that the
-- configuration has and that the task has a profile for.
abbrev pub Matches : ExperimentConfig → List TaskSpec → List TaskAssignment → Type 0
Matches config [] [] = Unit {0}
Matches config [] (a ∷ given) = ⊥
Matches config (task ∷ tasks) [] = ⊥
Matches config (task ∷ tasks) (a ∷ given) =
    (a.task_id ≡ task.id)
    × (contains_resource config.resources a.resource_id ≡ true)
    × (contains_profile config.task_resource_profiles task.id a.resource_id ≡ true)
    × Matches config tasks given

-- No assignment is one of the task.
abbrev pub AreOthers : ℕ → List TaskAssignment → Type 0
AreOthers id given = All (λ (a : TaskAssignment). a.task_id ≢ id) given

pub Matches-length :
    (config : ExperimentConfig) (tasks : List TaskSpec) (given : List TaskAssignment)
    → Matches config tasks given
    → length given ≡ length tasks
Matches-length config [] [] m = refl
Matches-length config [] (a ∷ given) m = absurd m
Matches-length config (task ∷ tasks) [] m = absurd m
Matches-length config (task ∷ tasks) (a ∷ given) (e, r, p, m) =
    ap suc (Matches-length config tasks given m)

pub Matches-AreOthers :
    (config : ExperimentConfig) (id : ℕ) (tasks : List TaskSpec) (given : List TaskAssignment)
    → Matches config tasks given
    → All (λ t. t.id ≢ id) tasks
    → AreOthers id given
Matches-AreOthers config id [] [] m d = tt
Matches-AreOthers config id [] (a ∷ given) m d = absurd m
Matches-AreOthers config id (task ∷ tasks) [] m d = absurd m
Matches-AreOthers config id (task ∷ tasks) (a ∷ given) (e, r, p, m) (n, d) =
    ((λ h. n (sym e ∙ h)), Matches-AreOthers config id tasks given m d)

select_resource-others :
    (id : ℕ) (selected : Option ℕ) (given : List TaskAssignment)
    → AreOthers id given
    → select_resource id selected given ≡ ok selected
unfolding select_resource
select_resource-others id selected [] d = refl
select_resource-others id selected (a ∷ given) (n, d) =
    let k = select_resource-others id selected given d in ground (arith, n, k)

select_resource-found :
    (id : ℕ) (before : List TaskAssignment) (a : TaskAssignment) (after : List TaskAssignment)
    → AreOthers id before
    → a.task_id ≡ id
    → AreOthers id after
    → select_resource id none (before ++ a ∷ after) ≡ ok (some a.resource_id)
unfolding select_resource
select_resource-found id [] a after b e d =
    let k = select_resource-others id (some a.resource_id) after d in ground (arith, e, k)
select_resource-found id (x ∷ before) a after (n, b) e d =
    let k = select_resource-found id before a after b e d in ground (arith, n, k)

-- The assignments that come before are those of other tasks.
abbrev pub ArePast : List TaskAssignment → List TaskSpec → Type 0
ArePast before tasks = All (λ (t : TaskSpec). AreOthers t.id before) tasks

pub ArePast-append :
    (before : List TaskAssignment) (a : TaskAssignment) (task : TaskSpec) (tasks : List TaskSpec)
    → a.task_id ≡ task.id
    → All (λ t. t.id ≢ task.id) tasks
    → ArePast before tasks
    → ArePast (before ++ a ∷ []) tasks
ArePast-append before a task [] e d p = tt
ArePast-append before a task (t ∷ tasks) e (n, d) (p, ps) = (
  All-append (λ (a : TaskAssignment). a.task_id ≢ t.id) before (a ∷ []) p
      ((λ h. n (sym h ∙ e)), tt),
  ArePast-append before a task tasks e d ps,
)

-- The validation accepts them.
pub check_tasks-Matches :
    (config : ExperimentConfig) (before : List TaskAssignment) (tasks : List TaskSpec)
    (given : List TaskAssignment)
    → Matches config tasks given
    → AreDistinct tasks
    → ArePast before tasks
    → check_tasks config (before ++ given) tasks ≡ ok tt
unfolding check_tasks check_task
check_tasks-Matches config before [] given m d p = refl
check_tasks-Matches config before (task ∷ tasks) [] m d p = absurd m
check_tasks-Matches config before (task ∷ tasks) (a ∷ given) (e, r, q, m) (n, d) (p, ps) =
    let found =
      select_resource-found task.id before a given p e
        (Matches-AreOthers config task.id tasks given m n) in
    let rest : check_tasks config (before ++ a ∷ given) tasks ≡ ok tt =
      subst (λ l. check_tasks config l tasks ≡ ok tt) (append_assoc before (a ∷ []) given)
        (check_tasks-Matches config (before ++ a ∷ []) tasks given m d
          (ArePast-append before a task tasks e n ps)) in
    rw (found, r, q) rest
