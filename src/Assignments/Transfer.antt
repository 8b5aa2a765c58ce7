-- ===== src/Assignments/Transfer.antt =====
-- The loop of SimulationEngine::apply_assignments that hands the resources to the release model.
use mathlib.Core.List.{append_assoc}
use cpssim.Base.{
  ◌≢◌, sym, ℕ, ◌≡◌, refl, ap, subst, ◌∙◌, inl, inr, true, some, List, [], ◌∷◌, ◌++◌, ok,
  Result-cases, Bool-cases, arith, ℤ, ◌==◌, All, All-map, In, In-sort, sort, sort-All,
}
use cpssim.Specs.{TaskSpec, TaskResourceProfile}
use cpssim.Config.{ExperimentConfig}
use cpssim.Config.Profiles.{AreDistinct}
use cpssim.RunPlan.{TaskAssignment, contains_profile}
use cpssim.Release.{
  Task, PeriodicReleaseModel, time_in, assign_resource, new_task, check_profiles, profiles_of,
  new_tasks, task_before, new_release_model, task_for, update_task, assign_task,
}
use cpssim.Assignments.{assign_first, assign_tasks}
use cpssim.Assignments.Checks.{Matches, AreOthers, ArePast, ArePast-append}
use cpssim.Release.Tasks.{
  task_for-update_task_self, task_for-update_task_other, task_for-All, update_task-All,
}

new_task-keeps :
    (spec : TaskSpec) (profiles : List TaskResourceProfile) (stop : ℤ) (task : Task)
    → new_task spec profiles stop ≡ ok task
    → (task.spec ≡ spec) × (task.resource_profiles ≡ profiles)
unfolding new_task
new_task-keeps spec profiles stop task h = elim (Result-cases (check_profiles spec [] profiles)) [
  | inr (error, f) ↦ absurd (ground (arith, f))
  | inl (u, f) ↦ (ground (arith, f), ground (arith, f))
]

-- The store has the task of the assignment, with the resource of the assignment.
abbrev pub Holds : List Task → TaskAssignment → Type 0
Holds tasks a =
    (task : Task) × (task_for tasks a.task_id ≡ ok task)
    × (task.assigned_resource ≡ some a.resource_id)

module _ (profiles : List TaskResourceProfile) where
  -- The task has a demand on each resource that the configuration has a profile of it for.
  IsServed : Task → Type 0
  IsServed task =
      (r : ℕ)
      → contains_profile profiles task.spec.id r ≡ true
      → (e : ℤ) × (time_in task.resource_profiles r ≡ ok e)

  -- The task is in the store.
  abbrev Has : List Task → TaskSpec → Type 0
  Has tasks spec = (task : Task) × (task_for tasks spec.id ≡ ok task) × (task.spec.id ≡ spec.id)

  -- The store serves every task of the list.
  pub record Serves (tasks : List Task) (specs : List TaskSpec) : Type 0 where
    served : All IsServed tasks
    present : All (Has tasks) specs

  update_task-Has :
      (changed : Task) (tasks : List Task) (spec : TaskSpec)
      → Has tasks spec
      → Has (update_task changed tasks) spec
  unfolding update_task task_for
  update_task-Has changed [] spec h = h
  update_task-Has changed (t ∷ ts) spec (found, f, e) =
      elim (Bool-cases (t.spec.id == changed.spec.id)) [
        | inl same ↦ elim (Bool-cases (t.spec.id == spec.id)) [
          | inl own ↦ rw same (changed, ground (arith, same, own), ground (arith, same, own))
          | inr miss ↦ rw same (found, ground (arith, same, miss, f), e)
        ]
        | inr other ↦ elim (Bool-cases (t.spec.id == spec.id)) [
          | inl own ↦ rw other (t, ground (arith, own), ground (arith, own))
          | inr miss ↦
              let (x, g, k) = update_task-Has changed ts spec (found, ground (arith, miss, f), e) in
              rw other (x, ground (arith, miss, g), k)
        ]
      ]

  -- An assignment of a resource that the task has a profile for is carried out.
  assign_task-Serves :
      (model : PeriodicReleaseModel) (specs : List TaskSpec) (spec : TaskSpec) (r : ℕ)
      → Serves model.tasks specs
      → Has model.tasks spec
      → contains_profile profiles spec.id r ≡ true
      → (model' : PeriodicReleaseModel) × (assign_task model spec.id r ≡ ok model')
        × Serves model'.tasks specs
        × Holds model'.tasks (record { task_id = spec.id; resource_id = r })
        × ((a : TaskAssignment) → a.task_id ≢ spec.id → Holds model.tasks a → Holds model'.tasks a)
  unfolding IsServed
  assign_task-Serves model specs spec r s (task, f, e) c =
      let own = task_for-All IsServed model.tasks spec.id task s.served f in
      let (time, t) = own r (rw e c) in
      let task' : Task = record task { assigned_resource = some r } in
      let given : assign_resource task r ≡ ok task' = unfold assign_resource in ground (arith, t) in
      (
        record model { tasks = update_task task' model.tasks },
        unfold assign_task in ground (arith, f, given),
        record {
          served = update_task-All IsServed task' model.tasks own s.served;
          present =
              All-map (Has model.tasks) (Has (update_task task' model.tasks))
                (λ x h. update_task-Has task' model.tasks x h) specs s.present;
        },
        (task', task_for-update_task_self spec.id model.tasks task task' f refl, refl),
        (λ a n (x, g, k). (
          x,
          task_for-update_task_other a.task_id model.tasks task' (λ i. n (sym (sym e ∙ i))) ∙ g,
          k,
        )),
      )

  assign_first-found :
      (id : ℕ) (before : List TaskAssignment) (a : TaskAssignment) (after : List TaskAssignment)
      (model : PeriodicReleaseModel)
      → AreOthers id before
      → a.task_id ≡ id
      → assign_first id (before ++ a ∷ after) model ≡ assign_task model id a.resource_id
  unfolding assign_first
  assign_first-found id [] a after model b e = rw e (ground arith)
  assign_first-found id (x ∷ before) a after model (n, b) e =
      let k = assign_first-found id before a after model b e in
      elim (Bool-cases (x.task_id == id)) [
        | inl same ↦ absurd (n (ground (arith, same)))
        | inr other ↦ rw other k
      ]

  assign_tasks-step :
      (spec : TaskSpec) (specs : List TaskSpec) (given : List TaskAssignment)
      (model next model' : PeriodicReleaseModel)
      → assign_first spec.id given model ≡ ok next
      → assign_tasks specs given next ≡ ok model'
      → assign_tasks (spec ∷ specs) given model ≡ ok model'
  unfolding assign_tasks
  assign_tasks-step spec specs given model next model' f k = ground (arith, f, k)

  -- The loop carries out every assignment, and leaves the tasks that it has none for.
  pub assign_tasks-Serves :
      (config : ExperimentConfig)
      → config.task_resource_profiles ≡ profiles
      → (before : List TaskAssignment) (specs : List TaskSpec) (given : List TaskAssignment)
        (model : PeriodicReleaseModel)
      → Matches config specs given
      → AreDistinct specs
      → ArePast before specs
      → Serves model.tasks specs
      → (model' : PeriodicReleaseModel) × (assign_tasks specs (before ++ given) model ≡ ok model')
        × All (Holds model'.tasks) given
        × ((a : TaskAssignment)
            → All (λ (s : TaskSpec). s.id ≢ a.task_id) specs
            → Holds model.tasks a
            → Holds model'.tasks a)
  assign_tasks-Serves config same before [] given model m d p s =
      (model, unfold assign_tasks in refl, none_given given m, (λ a n h. h))
    where
      none_given :
          (given : List TaskAssignment) → Matches config [] given → All (Holds model.tasks) given
      none_given [] m = tt
      none_given (a ∷ given) m = absurd m
  assign_tasks-Serves config same before (spec ∷ specs) [] model m d p s = absurd m
  assign_tasks-Serves config same before (spec ∷ specs) (a ∷ given) model (e, r, q, m) (n, d)
        (p, ps) s =
      let (h, hs) = s.present in
      let (next, f, t, own, kept) =
        assign_task-Serves model specs spec a.resource_id
          (record { served = s.served; present = hs }) h (rw same at q) in
      let (model', k, all, rest_kept) =
        assign_tasks-Serves config same (before ++ a ∷ []) specs given next m d
          (ArePast-append before a spec specs e n ps) t in
      let first = assign_first-found spec.id before a given model p e ∙ f in
      let rest : assign_tasks specs (before ++ a ∷ given) next ≡ ok model' =
        subst (λ l. assign_tasks specs l next ≡ ok model') (append_assoc before (a ∷ []) given) k in
      let mine : Holds next.tasks a = let (x, g, u) = own in (x, rw e g, u) in
      let others : All (λ (s : TaskSpec). s.id ≢ a.task_id) specs =
        All-map (λ (s : TaskSpec). s.id ≢ spec.id) (λ (s : TaskSpec). s.id ≢ a.task_id)
          (λ x k i. k (i ∙ e)) specs n in
      (
        model',
        assign_tasks-step spec specs (before ++ a ∷ given) model next model' first rest,
        (rest_kept a others mine, all),
        (λ b (u, us) w. rest_kept b us (kept b (λ i. u (sym i)) w)),
      )

  time_in-profiles_of :
      (given : List TaskResourceProfile) (id r : ℕ)
      → contains_profile given id r ≡ true
      → (e : ℤ) × (time_in (profiles_of id given) r ≡ ok e)
  unfolding time_in
  time_in-profiles_of [] id r h = absurd (ground (arith, h))
  time_in-profiles_of (x ∷ given) id r h = elim (Bool-cases (x.task_id == id)) [
    | inr other ↦ rw other (time_in-profiles_of given id r (ground (arith, other, h)))
    | inl own ↦ elim (Bool-cases (x.resource_id == r)) [
      | inl same ↦ rw own (x.execution_time, ground (arith, same))
      | inr miss ↦
          let (e, k) = time_in-profiles_of given id r (ground (arith, own, miss, h)) in
          rw own (e, ground (arith, miss, k))
    ]
  ]

  -- The tasks that the constructor makes.
  record IsStore (specs : List TaskSpec) (tasks : List Task) : Type 0 where
    served : All IsServed tasks
    made : All (λ (s : TaskSpec). (t : Task) × In t tasks × (t.spec.id ≡ s.id)) specs

  new_tasks-IsStore :
      (specs : List TaskSpec) (stop : ℤ) (tasks : List Task)
      → new_tasks specs profiles stop ≡ ok tasks
      → IsStore specs tasks
  unfolding IsServed
  new_tasks-IsStore [] stop tasks h =
      let e : tasks ≡ [] = unfold new_tasks in ground arith in
      rw e (record { served = tt; made = tt })
  new_tasks-IsStore (spec ∷ specs) stop tasks h =
      elim (Result-cases (new_task spec (profiles_of spec.id profiles) stop)) [
        | inr (error, f) ↦ absurd (unfold new_tasks in ground (arith, f))
        | inl (t, f) ↦ elim (Result-cases (new_tasks specs profiles stop)) [
          | inr (error, g) ↦ absurd (unfold new_tasks in ground (arith, f, g))
          | inl (ts, g) ↦
              let e : tasks ≡ t ∷ ts = unfold new_tasks in ground (arith, f, g) in
              let (own, has) = new_task-keeps spec (profiles_of spec.id profiles) stop t f in
              let rest = new_tasks-IsStore specs stop ts g in
              rw e (record {
                served = (
                  (λ r c. rw has (time_in-profiles_of profiles spec.id r (rw own at c))),
                  rest.served,
                );
                made = (
                  (t, inl refl, ap (λ (s : TaskSpec). s.id) own),
                  All-map (λ (s : TaskSpec). (x : Task) × In x ts × (x.spec.id ≡ s.id))
                      (λ (s : TaskSpec). (x : Task) × In x (t ∷ ts) × (x.spec.id ≡ s.id))
                      (λ s (x, i, k). (x, inr i, k)) specs rest.made,
                );
              })
        ]
      ]

  In-Has :
      (tasks : List Task) (t : Task) (spec : TaskSpec)
      → In t tasks
      → t.spec.id ≡ spec.id
      → Has tasks spec
  unfolding task_for
  In-Has [] t spec i e = absurd i
  In-Has (x ∷ tasks) t spec i e = elim (Bool-cases (x.spec.id == spec.id)) [
    | inl own ↦ (x, ground (arith, own), ground (arith, own))
    | inr other ↦ elim i [
      | inl same ↦ absurd (ground (arith, same, other, e))
      | inr later ↦ let (y, f, k) = In-Has tasks t spec later e in (y, ground (arith, other, f), k)
    ]
  ]

  pub new_release_model-Serves :
      (config : ExperimentConfig) (stop : ℤ) (model : PeriodicReleaseModel)
      → config.task_resource_profiles ≡ profiles
      → new_release_model config stop ≡ ok model
      → Serves model.tasks config.tasks
  new_release_model-Serves config stop model same h =
      elim (Result-cases (new_tasks config.tasks config.task_resource_profiles stop)) [
        | inr (error, f) ↦ absurd (unfold new_release_model in ground (arith, f))
        | inl (ts, f) ↦
            let e : model.tasks ≡ sort task_before ts =
              unfold new_release_model in ground (arith, f) in
            let k = new_tasks-IsStore config.tasks stop ts (rw same at f) in
            rw e (record {
              served = sort-All task_before IsServed ts k.served;
              present =
                  All-map (λ (s : TaskSpec). (t : Task) × In t ts × (t.spec.id ≡ s.id))
                    (Has (sort task_before ts))
                    (λ s (t, i, m).
                      In-Has (sort task_before ts) t s ((In-sort task_before t ts).1 i) m)
                    config.tasks k.made;
            })
      ]
