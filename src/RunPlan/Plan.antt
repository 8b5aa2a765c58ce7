-- ===== src/RunPlan/Plan.antt =====
-- Exactly which requests become a plan.
use cpssim.Base.{
  ℕ, ◌≡◌, ◌↔◌, refl, ap, ◌⊎◌, inl, inr, true, false, some, List, [], ◌∷◌, ◌++◌, ℤ, pos, negsuc,
  arith, Bool-cases, All, sort, sort-All, All-sort, is_empty,
}
use cpssim.Specs.{TaskSpec}
use cpssim.Config.{ExperimentConfig, contains_task, contains_resource, is_negative}
use cpssim.RunPlan.{
  TaskAssignment, SchedulingPolicyKind, RunPlanDiagnostic, RunPlanRequest, RunPlan,
  contains_profile, stop_diagnostics, policy_diagnostics, assignment_before, unknown_tasks,
  assignments_of, Choice, check_assignment, choose, choose_all, diagnostics_of, build_run_plan,
}

-- The plan has one assignment for each task, in the order of the tasks: the only one that the request
-- has for the task, to a resource that exists and that the task has a profile for.
abbrev pub AreChosen :
    ExperimentConfig → List TaskAssignment → List TaskSpec → List TaskAssignment → Type 0
AreChosen config assignments [] [] = Unit {0}
AreChosen config assignments [] (a ∷ given) = ⊥
AreChosen config assignments (task ∷ tasks) [] = ⊥
AreChosen config assignments (task ∷ tasks) (a ∷ given) =
    (assignments_of task.id assignments ≡ a ∷ [])
    × (contains_resource config.resources a.resource_id ≡ true)
    × (contains_profile config.task_resource_profiles a.task_id a.resource_id ≡ true)
    × AreChosen config assignments tasks given

-- What a request must be like to become the plan.
pub record IsPlanOf (config : ExperimentConfig) (request : RunPlanRequest) (plan : RunPlan)
    : Type 0 where
  pub stop_tick : plan.stop_tick ≡ request.stop_tick
  pub policy_kind : plan.policy_kind ≡ request.policy_kind
  pub not_negative : is_negative request.stop_tick ≡ false
  pub supported : request.policy_kind ≡ SchedulingPolicyKind.fixed_priority
  pub known : All (λ a. contains_task config.tasks a.task_id ≡ true) request.assignments
  pub chosen : AreChosen config request.assignments config.tasks plan.assignments

unknown_tasks-known :
    (tasks : List TaskSpec) (given : List TaskAssignment)
    → unknown_tasks tasks given ≡ []
    → All (λ a. contains_task tasks a.task_id ≡ true) given
unfolding unknown_tasks
unknown_tasks-known tasks [] h = tt
unknown_tasks-known tasks (a ∷ given) h = elim (Bool-cases (contains_task tasks a.task_id)) [
  | inl e ↦ (e, unknown_tasks-known tasks given (ground (arith, e)))
  | inr e ↦ ground (arith, e)
]

known-unknown_tasks :
    (tasks : List TaskSpec) (given : List TaskAssignment)
    → All (λ a. contains_task tasks a.task_id ≡ true) given
    → unknown_tasks tasks given ≡ []
unfolding unknown_tasks
known-unknown_tasks tasks [] h = refl
known-unknown_tasks tasks (a ∷ given) (e, h) = rw e (known-unknown_tasks tasks given h)

check_assignment-chosen :
    (config : ExperimentConfig) (a b : TaskAssignment)
    → check_assignment config a ≡ Choice.chosen b
    → (a ≡ b)
      × (contains_resource config.resources b.resource_id ≡ true)
      × (contains_profile config.task_resource_profiles b.task_id b.resource_id ≡ true)
unfolding check_assignment
check_assignment-chosen config a b h =
    elim (Bool-cases (contains_resource config.resources a.resource_id)) [
      | inr e ↦ ground (arith, e)
      | inl e ↦
          elim (Bool-cases
            (contains_profile config.task_resource_profiles a.task_id a.resource_id)) [
              | inr f ↦ ground (arith, e, f)
              | inl f ↦ let p : a ≡ b = ground (arith, e, f) in rw (← p) (refl, e, f)
            ]
    ]

choose-chosen :
    (config : ExperimentConfig) (task : ℕ) (given : List TaskAssignment) (b : TaskAssignment)
    → choose config task given ≡ Choice.chosen b
    → (given ≡ b ∷ [])
      × (contains_resource config.resources b.resource_id ≡ true)
      × (contains_profile config.task_resource_profiles b.task_id b.resource_id ≡ true)
unfolding choose
choose-chosen config task [] b h = cc
choose-chosen config task (a ∷ []) b h =
    let (p, e, f) = check_assignment-chosen config a b h in (ap (λ x. x ∷ []) p, e, f)
choose-chosen config task (a ∷ a' ∷ given) b h = cc

Choice-cases :
    (c : Choice)
    → ((a : TaskAssignment) × (c ≡ Choice.chosen a))
      ⊎ ((d : RunPlanDiagnostic) × (c ≡ Choice.refused d))
Choice-cases (Choice.chosen a) = inl (a, refl)
Choice-cases (Choice.refused d) = inr (d, refl)

choose_all-AreChosen :
    (config : ExperimentConfig) (given : List TaskAssignment) (tasks : List TaskSpec)
    → (choose_all config given tasks).0 ≡ []
    → AreChosen config given tasks (choose_all config given tasks).1
unfolding choose_all
choose_all-AreChosen config given [] h = tt
choose_all-AreChosen config given (task ∷ tasks) h =
    elim (Choice-cases (choose config task.id (assignments_of task.id given))) [
      | inl (a, e) ↦
          let (p, r, f) = choose-chosen config task.id (assignments_of task.id given) a e in
          rw e (p, r, f, choose_all-AreChosen config given tasks (rw e at h))
      | inr (d, e) ↦ ground (arith, e)
    ]

choose-only :
    (config : ExperimentConfig) (task : ℕ) (given : List TaskAssignment) (b : TaskAssignment)
    → given ≡ b ∷ []
    → contains_resource config.resources b.resource_id ≡ true
    → contains_profile config.task_resource_profiles b.task_id b.resource_id ≡ true
    → choose config task given ≡ Choice.chosen b
unfolding choose check_assignment
choose-only config task given b p e f = rw p (rw (e, f) refl)

AreChosen-choose_all :
    (config : ExperimentConfig) (given : List TaskAssignment) (tasks : List TaskSpec)
    (planned : List TaskAssignment)
    → AreChosen config given tasks planned
    → choose_all config given tasks ≡ ([], planned)
unfolding choose_all
AreChosen-choose_all config given [] [] h = refl
AreChosen-choose_all config given [] (a ∷ planned) h = absurd h
AreChosen-choose_all config given (task ∷ tasks) [] h = absurd h
AreChosen-choose_all config given (task ∷ tasks) (a ∷ planned) (p, e, f, h) =
    rw
      (
        choose-only config task.id (assignments_of task.id given) a p e f,
        AreChosen-choose_all config given tasks planned h,
      )
      refl

is_empty_append :
    {A : Type 0} (xs ys : List A) → is_empty (xs ++ ys) ≡ true → (xs ≡ []) × (is_empty ys ≡ true)
is_empty_append [] ys h = (refl, h)
is_empty_append (x ∷ xs) ys h = cc

is_empty-nil : {A : Type 0} (xs : List A) → is_empty xs ≡ true → xs ≡ []
is_empty-nil [] h = refl
is_empty-nil (x ∷ xs) h = cc

stop_not_negative : (n : ℤ) → stop_diagnostics n ≡ [] → is_negative n ≡ false
stop_not_negative (pos n) h = refl
stop_not_negative (negsuc n) h = cc

policy_supported :
    (k : SchedulingPolicyKind) → policy_diagnostics k ≡ [] → k ≡ SchedulingPolicyKind.fixed_priority
policy_supported SchedulingPolicyKind.fixed_priority h = refl
policy_supported (SchedulingPolicyKind.other n) h = cc

plan-IsPlanOf :
    (config : ExperimentConfig) (request : RunPlanRequest) (plan : RunPlan)
    → (build_run_plan config request).plan ≡ some plan
    → IsPlanOf config request plan
plan-IsPlanOf config request plan h = elim (Bool-cases (is_empty (diagnostics_of config request))) [
  | inr n ↦ unfold build_run_plan in ground (arith, n)
  | inl e ↦
      let p : plan ≡ record {
        stop_tick = request.stop_tick;
        policy_kind = request.policy_kind;
        assignments = (choose_all config request.assignments config.tasks).1;
      } =
        unfold build_run_plan in ground (arith, e) in
      let (s, e1) = is_empty_append (stop_diagnostics request.stop_tick) _ e in
      let (k, e2) = is_empty_append (policy_diagnostics request.policy_kind) _ e1 in
      let (u, e3) = is_empty_append (unknown_tasks config.tasks _) _ e2 in
      rw p (record {
        stop_tick = refl;
        policy_kind = refl;
        not_negative = stop_not_negative request.stop_tick s;
        supported = policy_supported request.policy_kind k;
        known =
            All-sort assignment_before _ request.assignments
              (unknown_tasks-known config.tasks (sort assignment_before request.assignments) u);
        chosen = choose_all-AreChosen config request.assignments config.tasks (is_empty-nil _ e3);
      })
]

IsPlanOf-plan :
    (config : ExperimentConfig) (request : RunPlanRequest) (plan : RunPlan)
    → IsPlanOf config request plan
    → (build_run_plan config request).plan ≡ some plan
IsPlanOf-plan config request plan v =
    let u =
      known-unknown_tasks config.tasks (sort assignment_before request.assignments)
        (sort-All assignment_before _ request.assignments v.known) in
    let c =
      AreChosen-choose_all config request.assignments config.tasks plan.assignments v.chosen in
    unfold build_run_plan in
    rw (v.not_negative, v.supported, u, c) (ground (arith, v.stop_tick, v.policy_kind, v.supported))

-- A request becomes a plan exactly if its stop tick is not negative, its policy is supported, it
-- names only tasks of the configuration, and it has exactly one assignment for each of these, to a
-- resource that exists and that the task has a profile for. The plan then holds the same stop tick
-- and policy, and the assignments in the order of the tasks.
pub build_run_plan_iff :
    (config : ExperimentConfig) (request : RunPlanRequest) (plan : RunPlan)
    → ((build_run_plan config request).plan ≡ some plan) ↔ IsPlanOf config request plan
build_run_plan_iff config request plan =
    (plan-IsPlanOf config request plan, IsPlanOf-plan config request plan)
