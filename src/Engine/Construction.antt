-- ===== src/Engine/Construction.antt =====
-- The engine that the constructor of SimulationEngine makes.
use cpssim.Base.{
  ℕ, ◌<◌, ◌≡◌, refl, subst, inl, inr, Bool, Option, List, [], ◌∷◌, Result, ok, Result-cases,
  Bool-cases, arith, ℤ, ◌==◌, All, sort, sort-All,
}
use cpssim.Base.Loops.{finished, ◌>>=◌, Ends, Ends-bind, Ends-finished, Ends-map}
use cpssim.Specs.{TaskSpec, TaskResourceProfile}
use cpssim.Queue.{new_event_queue}
use cpssim.Engine.Timely.{IsTimely}
use cpssim.Config.{ExperimentConfig}
use cpssim.Policy.{SchedulingPolicy}
use cpssim.Network.Traffic.{new_network-messages}
use cpssim.Release.{
  Task, PeriodicReleaseModel, new_task, check_profiles, new_tasks, profiles_of, new_release_model,
  task_before, task_for, assign_resource, execution_time_on, assign_task, update_task,
}
use cpssim.RunPlan.{TaskAssignment}
use cpssim.Assignments.{assign_first, assign_tasks, check_tasks, apply_assignments}
use cpssim.Functional.{FunctionalModel}
use cpssim.Kernel.{Kernel, new_kernel}
use cpssim.Engine.{new_functional, new_engine, run}
use cpssim.Release.Tasks.{task_for-All, update_task-All}
use cpssim.Engine.Releases.{IsPeriodic}
use cpssim.Engine.Parts.{new_kernel-Built}
use cpssim.Engine.Handlers.{IsReady}
use cpssim.Engine.Stages.{Stage, constructed, IsCompleted}
use cpssim.Engine.Termination.{run-IsCompleted}

new_task-keeps_spec :
    (spec : TaskSpec) (profiles : List TaskResourceProfile) (stop : ℤ) (task : Task)
    → new_task spec profiles stop ≡ ok task
    → task.spec ≡ spec
unfolding new_task
new_task-keeps_spec spec profiles stop task h =
    elim (Result-cases (check_profiles spec [] profiles)) [
      | inr (error, f) ↦ ground (arith, f)
      | inl (u, f) ↦ ground (arith, f)
    ]

new_tasks-IsPeriodic :
    (specs : List TaskSpec) (profiles : List TaskResourceProfile) (stop : ℤ) (tasks : List Task)
    → All (λ (t : TaskSpec). 0 < t.period) specs
    → new_tasks specs profiles stop ≡ ok tasks
    → IsPeriodic tasks
new_tasks-IsPeriodic [] profiles stop tasks p h =
    let e : tasks ≡ [] = unfold new_tasks in ground arith in rw e tt
new_tasks-IsPeriodic (spec ∷ specs) profiles stop tasks (p, ps) h =
    elim (Result-cases (new_task spec (profiles_of spec.id profiles) stop)) [
      | inr (error, f) ↦ absurd (unfold new_tasks in ground (arith, f))
      | inl (t, f) ↦ elim (Result-cases (new_tasks specs profiles stop)) [
        | inr (error, g) ↦ absurd (unfold new_tasks in ground (arith, f, g))
        | inl (ts, g) ↦
            let e : tasks ≡ t ∷ ts = unfold new_tasks in ground (arith, f, g) in
            let s = new_task-keeps_spec spec (profiles_of spec.id profiles) stop t f in
            rw e (rw s p, new_tasks-IsPeriodic specs profiles stop ts ps g)
      ]
    ]

new_release_model-IsPeriodic :
    (config : ExperimentConfig) (stop : ℤ) (model : PeriodicReleaseModel)
    → All (λ (t : TaskSpec). 0 < t.period) config.tasks
    → new_release_model config stop ≡ ok model
    → IsPeriodic model.tasks
new_release_model-IsPeriodic config stop model p h =
    elim (Result-cases (new_tasks config.tasks config.task_resource_profiles stop)) [
      | inr (error, f) ↦ absurd (unfold new_release_model in ground (arith, f))
      | inl (ts, f) ↦
          let e : model.tasks ≡ sort task_before ts =
            unfold new_release_model in ground (arith, f) in
          rw e (
            sort-All task_before (λ (t : Task). 0 < t.spec.period) ts
              (new_tasks-IsPeriodic config.tasks config.task_resource_profiles stop ts p f))
    ]

assign_resource-keeps_spec :
    (task : Task) (r : ℕ) (task' : Task)
    → assign_resource task r ≡ ok task'
    → task'.spec ≡ task.spec
unfolding assign_resource
assign_resource-keeps_spec task r task' h = elim (Result-cases (execution_time_on task r)) [
  | inr (error, f) ↦ ground (arith, f)
  | inl (t, f) ↦ ground (arith, f)
]

assign_task-IsPeriodic :
    (model : PeriodicReleaseModel) (id r : ℕ) (model' : PeriodicReleaseModel)
    → IsPeriodic model.tasks
    → assign_task model id r ≡ ok model'
    → IsPeriodic model'.tasks
assign_task-IsPeriodic model id r model' p h = elim (Result-cases (task_for model.tasks id)) [
  | inr (error, f) ↦ absurd (unfold assign_task in ground (arith, f))
  | inl (task, f) ↦ elim (Result-cases (assign_resource task r)) [
    | inr (error, g) ↦ absurd (unfold assign_task in ground (arith, f, g))
    | inl (task', g) ↦
        let e : model' ≡ record model { tasks = update_task task' model.tasks } =
          unfold assign_task in ground (arith, f, g) in
        let own = task_for-All (λ (t : Task). 0 < t.spec.period) model.tasks id task p f in
        rw e (
          update_task-All (λ (t : Task). 0 < t.spec.period) task' model.tasks
            (rw (assign_resource-keeps_spec task r task' g) own) p)
  ]
]

assign_first-IsPeriodic :
    (id : ℕ) (assignments : List TaskAssignment) (model model' : PeriodicReleaseModel)
    → IsPeriodic model.tasks
    → assign_first id assignments model ≡ ok model'
    → IsPeriodic model'.tasks
assign_first-IsPeriodic id [] model model' p h =
    let e : model ≡ model' = unfold assign_first in ground arith in
    subst (λ (m : PeriodicReleaseModel). IsPeriodic m.tasks) e p
assign_first-IsPeriodic id (a ∷ assignments) model model' p h =
    elim (Bool-cases (a.task_id == id)) [
      | inl e ↦
          assign_task-IsPeriodic model a.task_id a.resource_id model' p
            (unfold assign_first in rw e at h)
      | inr e ↦
          assign_first-IsPeriodic id assignments model model' p (unfold assign_first in rw e at h)
    ]

assign_tasks-IsPeriodic :
    (tasks : List TaskSpec) (assignments : List TaskAssignment)
    (model model' : PeriodicReleaseModel)
    → IsPeriodic model.tasks
    → assign_tasks tasks assignments model ≡ ok model'
    → IsPeriodic model'.tasks
assign_tasks-IsPeriodic [] assignments model model' p h =
    let e : model ≡ model' = unfold assign_tasks in ground arith in
    subst (λ (m : PeriodicReleaseModel). IsPeriodic m.tasks) e p
assign_tasks-IsPeriodic (task ∷ tasks) assignments model model' p h =
    elim (Result-cases (assign_first task.id assignments model)) [
      | inr (error, f) ↦ absurd (unfold assign_tasks in ground (arith, f))
      | inl (m, f) ↦
          assign_tasks-IsPeriodic tasks assignments m model'
            (assign_first-IsPeriodic task.id assignments model m p f)
            (unfold assign_tasks in ground (arith, f))
    ]

apply_assignments-IsPeriodic :
    (config : ExperimentConfig) (assignments : List TaskAssignment)
    (model model' : PeriodicReleaseModel)
    → IsPeriodic model.tasks
    → apply_assignments config assignments model ≡ ok model'
    → IsPeriodic model'.tasks
apply_assignments-IsPeriodic config assignments model model' p h =
    elim (Result-cases (check_tasks config assignments config.tasks)) [
      | inr (error, f) ↦ absurd (unfold apply_assignments in ground (arith, f))
      | inl (u, f) ↦
          assign_tasks-IsPeriodic config.tasks assignments model model' p
            (unfold apply_assignments in ground (arith, f))
    ]

new_event_queue-IsTimely : IsTimely 0 new_event_queue
new_event_queue-IsTimely = record {
  valid = record { ordered = tt; fresh = λ _. tt; bounded = omega arith };
  from = tt;
}

pub new_kernel-IsReady :
    (config : ExperimentConfig) (stop : ℤ)
    (allocate : ExperimentConfig → Result (List TaskAssignment)) (policy : SchedulingPolicy)
    (kernel : Kernel)
    → All (λ (t : TaskSpec). 0 < t.period) config.tasks
    → new_kernel config stop allocate policy ≡ ok kernel
    → IsReady 0 kernel
new_kernel-IsReady config stop allocate policy kernel p h =
    let b = new_kernel-Built config stop allocate policy kernel h in
    rw b.result (record {
      timely = new_event_queue-IsTimely;
      periodic =
          apply_assignments-IsPeriodic config b.assignments b.releases b.releases'
            (new_release_model-IsPeriodic config stop b.releases p b.released) b.assigned;
      causal = rw (new_network-messages config.message_routes stop b.network b.connected) tt;
      traced = record { ordered = tt; until = tt };
    })

module _ {R S : Type 0} (is_finite : R → Bool) (model : FunctionalModel R S)
    (config : ExperimentConfig) (stop : ℤ)
    (allocate : ExperimentConfig → Result (List TaskAssignment)) (policy : SchedulingPolicy)
    (state : Option S) where
  pub new_engine-Stage :
      All (λ (t : TaskSpec). 0 < t.period) config.tasks
      → Ends Stage (new_engine is_finite model config stop allocate policy state)
  new_engine-Stage p =
      unfold new_engine in
      Ends-bind (IsReady 0) Stage (finished (new_kernel config stop allocate policy)) _
        (Ends-finished (IsReady 0) (new_kernel config stop allocate policy)
          (λ kernel e. new_kernel-IsReady config stop allocate policy kernel p e))
        (λ kernel r.
          Ends-bind (λ _. Unit {0}) Stage
            (finished (new_functional is_finite model config stop state)) _
            (Ends-finished _ _ (λ _ _. tt)) (λ functional _. constructed refl refl r))

  -- Where the period of every task is positive, with every allocator, policy and functional model: the
  -- construction and the run of an engine end within five more steps than the stop tick, and unless one
  -- of them throws, the run is over, no event of the horizon is left, and the trace is in the order of
  -- its ticks, all of them in the horizon.
  pub run-new_engine :
      All (λ (t : TaskSpec). 0 < t.period) config.tasks
      → Ends IsCompleted (
          new_engine is_finite model config stop allocate policy state >>= λ engine.
          run is_finite model engine)
  run-new_engine p =
      Ends-bind Stage IsCompleted (new_engine is_finite model config stop allocate policy state)
        (λ engine. run is_finite model engine) (new_engine-Stage p)
        (λ engine g.
          Ends-map _ IsCompleted (run is_finite model engine) (λ ended h. h.0)
            (run-IsCompleted is_finite model engine g))
