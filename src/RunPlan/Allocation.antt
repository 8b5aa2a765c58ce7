-- ===== src/RunPlan/Allocation.antt =====
-- SingleResourceAllocator::allocate against build_run_plan.
use cpssim.Base.{
  ℕ, ◌≡◌, ◌≢◌, refl, subst, ◌∙◌, inl, inr, true, some, List, [], ◌∷◌, ◌++◌, ok, Result-cases, pos,
  arith, ◌==◌, Bool-cases, All, All-map,
}
use mathlib.Core.List.{append_assoc}
use cpssim.Specs.{TaskSpec, TaskResourceProfile, ResourceSpec}
use cpssim.Config.{ExperimentConfig, contains_task, contains_resource}
use cpssim.Config.Profiles.{AreDistinct}
use cpssim.RunPlan.{
  TaskAssignment, SchedulingPolicyKind, contains_profile, assignments_of, build_run_plan,
  allocate_tasks, allocate,
}
use cpssim.RunPlan.Plan.{AreChosen, build_run_plan_iff}

-- An accepted allocation of a list of tasks that is not empty.
record Allocated (profiles : List TaskResourceProfile) (r : ℕ) (task : TaskSpec)
    (tasks : List TaskSpec) (given : List TaskAssignment) : Type 0 where
  rest : List TaskAssignment
  given_eq : given ≡ record { task_id = task.id; resource_id = r } ∷ rest
  accessible : contains_profile profiles task.id r ≡ true
  later : allocate_tasks profiles r tasks ≡ ok rest

allocate_tasks-Allocated :
    (profiles : List TaskResourceProfile) (r : ℕ) (task : TaskSpec) (tasks : List TaskSpec)
    (given : List TaskAssignment)
    → allocate_tasks profiles r (task ∷ tasks) ≡ ok given
    → Allocated profiles r task tasks given
unfolding allocate_tasks
allocate_tasks-Allocated profiles r task tasks given h =
    elim (Bool-cases (contains_profile profiles task.id r)) [
      | inr e ↦ ground (arith, e)
      | inl e ↦ elim (Result-cases (allocate_tasks profiles r tasks)) [
        | inr (error, f) ↦ ground (arith, e, f)
        | inl (rest, f) ↦ record {
          rest = rest;
          given_eq = ground (arith, e, f);
          accessible = e;
          later = f;
        }
      ]
    ]

allocate_tasks-nil :
    (profiles : List TaskResourceProfile) (r : ℕ) (given : List TaskAssignment)
    → allocate_tasks profiles r [] ≡ ok given
    → given ≡ []
unfolding allocate_tasks
allocate_tasks-nil profiles r given h = ground arith

assignments_of-append :
    (id : ℕ) (xs ys : List TaskAssignment)
    → assignments_of id (xs ++ ys) ≡ assignments_of id xs ++ assignments_of id ys
unfolding assignments_of
assignments_of-append id [] ys = refl
assignments_of-append id (x ∷ xs) ys = elim (Bool-cases (x.task_id == id)) [
  | inl e ↦ rw (e, assignments_of-append id xs ys) refl
  | inr e ↦ rw (e, assignments_of-append id xs ys) refl
]

assignments_of-other :
    (id r n : ℕ) (given : List TaskAssignment)
    → n ≢ id
    → assignments_of id given ≡ []
    → assignments_of id (record { task_id = n; resource_id = r } ∷ given) ≡ []
unfolding assignments_of
assignments_of-other id r n given d h = ground (arith, d, h)

-- A task that is not in the list has no assignment.
assignments_of-allocate_tasks :
    (profiles : List TaskResourceProfile) (r id : ℕ) (tasks : List TaskSpec)
    (given : List TaskAssignment)
    → All (λ t. t.id ≢ id) tasks
    → allocate_tasks profiles r tasks ≡ ok given
    → assignments_of id given ≡ []
assignments_of-allocate_tasks profiles r id [] given d h =
    rw (allocate_tasks-nil profiles r given h) (unfold assignments_of in refl)
assignments_of-allocate_tasks profiles r id (task ∷ tasks) given (n, d) h =
    let x = allocate_tasks-Allocated profiles r task tasks given h in
    let later = assignments_of-allocate_tasks profiles r id tasks x.rest d x.later in
    rw x.given_eq (assignments_of-other id r task.id x.rest n later)

assignments_of-single :
    (id r : ℕ) (n : ℕ)
    → id ≢ n
    → assignments_of id (record { task_id = n; resource_id = r } ∷ []) ≡ []
unfolding assignments_of
assignments_of-single id r n d = ground (arith, d)

assignments_of_self :
    (id r : ℕ) (given : List TaskAssignment)
    → assignments_of id given ≡ []
    → assignments_of id (record { task_id = id; resource_id = r } ∷ given)
      ≡ record { task_id = id; resource_id = r } ∷ []
unfolding assignments_of
assignments_of_self id r given h = ground (arith, h)

allocate_tasks-AreChosen :
    (config : ExperimentConfig) (r : ℕ) (before : List TaskAssignment) (tasks : List TaskSpec)
    (given : List TaskAssignment)
    → contains_resource config.resources r ≡ true
    → All (λ t. assignments_of t.id before ≡ []) tasks
    → AreDistinct tasks
    → allocate_tasks config.task_resource_profiles r tasks ≡ ok given
    → AreChosen config (before ++ given) tasks given
allocate_tasks-AreChosen config r before [] given c b d h =
    rw (allocate_tasks-nil config.task_resource_profiles r given h) tt
allocate_tasks-AreChosen config r before (task ∷ tasks) given c (b, bs) (d, ds) h =
    let x = allocate_tasks-Allocated config.task_resource_profiles r task tasks given h in
    let none_later =
      assignments_of-allocate_tasks config.task_resource_profiles r task.id tasks x.rest d
        x.later in
    let one : TaskAssignment = record { task_id = task.id; resource_id = r } in
    let found : assignments_of task.id (before ++ one ∷ x.rest) ≡ one ∷ [] =
      assignments_of-append task.id before (one ∷ x.rest)
      ∙ rw b (assignments_of_self task.id r x.rest none_later) in
    let later =
      allocate_tasks-AreChosen config r (before ++ one ∷ []) tasks x.rest c
        (All-both before one tasks bs d) ds x.later in
    rw x.given_eq (
      found,
      c,
      x.accessible,
      subst (λ g. AreChosen config g tasks x.rest) (append_assoc before (one ∷ []) x.rest) later,
    )
  where
    All-both :
        (before : List TaskAssignment) (one : TaskAssignment) (ts : List TaskSpec)
        → All (λ t. assignments_of t.id before ≡ []) ts
        → All (λ t. t.id ≢ one.task_id) ts
        → All (λ t. assignments_of t.id (before ++ one ∷ []) ≡ []) ts
    All-both before one [] bs d = tt
    All-both before one (t ∷ ts) (b, bs) (n, d) = (
      assignments_of-append t.id before (one ∷ [])
          ∙ rw (b, assignments_of-single t.id one.resource_id one.task_id n) refl,
      All-both before one ts bs d,
    )

allocate_tasks-known :
    (profiles : List TaskResourceProfile) (r : ℕ) (tasks : List TaskSpec)
    (given : List TaskAssignment)
    → allocate_tasks profiles r tasks ≡ ok given
    → All (λ a. contains_task tasks a.task_id ≡ true) given
allocate_tasks-known profiles r [] given h = rw (allocate_tasks-nil profiles r given h) tt
allocate_tasks-known profiles r (task ∷ tasks) given h =
    let x = allocate_tasks-Allocated profiles r task tasks given h in
    rw x.given_eq (
      here,
      All-map _ _ (λ a e. weaker a e) x.rest (allocate_tasks-known profiles r tasks x.rest x.later),
    )
  where
    here : contains_task (task ∷ tasks) task.id ≡ true
    here = ground arith

    weaker :
        (a : TaskAssignment)
        → contains_task tasks a.task_id ≡ true
        → contains_task (task ∷ tasks) a.task_id ≡ true
    weaker a e = ground (arith, e)

assignments_of-nil : (tasks : List TaskSpec) → All (λ t. assignments_of t.id [] ≡ []) tasks
unfolding assignments_of
assignments_of-nil [] = tt
assignments_of-nil (t ∷ ts) = (refl, assignments_of-nil ts)

-- An accepted allocation has one resource, and gives it to every task.
allocate-result :
    (config : ExperimentConfig) (given : List TaskAssignment)
    → allocate config ≡ ok given
    → (r : ℕ) × (contains_resource config.resources r ≡ true)
      × (allocate_tasks config.task_resource_profiles r config.tasks ≡ ok given)
allocate-result config given h = single config.resources refl
  where
    single :
        (resources : List ResourceSpec)
        → config.resources ≡ resources
        → (r : ℕ) × (contains_resource config.resources r ≡ true)
          × (allocate_tasks config.task_resource_profiles r config.tasks ≡ ok given)
    single [] e = unfold allocate in ground (arith, e)
    single (s ∷ more) e = (s.id, ground (arith, e), unfold allocate in ground (arith, e))

-- Where no two tasks have the same number, the assignments of the single-resource allocator and a
-- stop tick that is not negative always become a plan, with these assignments as they are.
pub allocate-build_run_plan :
    (config : ExperimentConfig) (given : List TaskAssignment) (stop : ℕ)
    → AreDistinct config.tasks
    → allocate config ≡ ok given
    → (build_run_plan config (record {
      stop_tick = pos stop;
      policy_kind = SchedulingPolicyKind.fixed_priority;
      assignments = given;
    })).plan
      ≡ some (record {
        stop_tick = pos stop;
        policy_kind = SchedulingPolicyKind.fixed_priority;
        assignments = given;
      })
allocate-build_run_plan config given stop d h =
    let (r, c, a) = allocate-result config given h in
    (build_run_plan_iff config _ _).1 (record {
      stop_tick = refl;
      policy_kind = refl;
      not_negative = refl;
      supported = refl;
      known = allocate_tasks-known config.task_resource_profiles r config.tasks given a;
      chosen =
          allocate_tasks-AreChosen config r [] config.tasks given c
            (assignments_of-nil config.tasks) d a;
    })
