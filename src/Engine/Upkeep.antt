-- ===== src/Engine/Upkeep.antt =====
-- What the events of a tick make of the scheduler of the kernel.
use cpssim.Base.{
  ℕ, ◌≡◌, refl, subst, ◌∙◌, inl, inr, Bool, List, [], ◌∷◌, ok, arith, Result-cases, Bool-cases,
}
use cpssim.Event.{Event}
use cpssim.Specs.{SchedulingSpec}
use cpssim.Queue.{EventQueue, pop_next}
use cpssim.Runtime.{JobState}
use cpssim.Policy.{SchedulingPolicy}
use cpssim.Network.{publish, process_send}
use cpssim.Release.{release_job}
use cpssim.Scheduler
use cpssim.Scheduler.{Scheduler, submit, process_completion, process_deadline}
use cpssim.Scheduler.Completion.{process_completion-cases, process_deadline-Checked}
use cpssim.Scheduler.History.{History, submits, completes, checks}
use cpssim.Kernel.{
  Kernel, complete_job, deliver_message, check_deadline, release_task, process_pre_scheduling_event,
  process_all, process_front, process_releases, process_post, sort_releases,
}
use cpssim.Engine.Handlers.{process_pre_scheduling_event-cases}

-- The scheduler is one that its calls have led to, with this policy and mode.
pub record IsKeptBy (scheduling : SchedulingSpec) (policy : SchedulingPolicy)
    (scheduler : Scheduler) : Type 0 where
  pub history : History scheduler
  pub scheduling_eq : scheduler.scheduling ≡ scheduling
  pub policy_eq : scheduler.policy ≡ policy

submit_settings :
    (s : Scheduler) (job : JobState) (queue : EventQueue) (s' : Scheduler) (queue' : EventQueue)
    → submit s job queue ≡ ok (s', queue')
    → (s'.scheduling ≡ s.scheduling) × (s'.policy ≡ s.policy)
unfolding submit
submit_settings s job queue s' queue' h = (ground arith, ground arith)

pub schedule_settings :
    (s : Scheduler) (tick : ℕ) (queue : EventQueue) (s' : Scheduler) (queue' : EventQueue)
    → Scheduler.schedule s tick queue ≡ ok (s', queue')
    → (s'.scheduling ≡ s.scheduling) × (s'.policy ≡ s.policy)
unfolding Scheduler.schedule
schedule_settings s tick queue s' queue' h = (ground arith, ground arith)

process_completion_settings :
    (s : Scheduler) (event : Event) (done : Bool) (s' : Scheduler)
    → process_completion s event ≡ ok (done, s')
    → (s'.scheduling ≡ s.scheduling) × (s'.policy ≡ s.policy)
process_completion_settings s event done s' h =
    let (id, r, b, a, cases) = process_completion-cases s event done s' h in
    elim cases [ inr (d, x) ↦ rw x.result (refl, refl) | inl (d, x) ↦ rw x.result (refl, refl) ]

process_deadline_settings :
    (s : Scheduler) (event : Event) (missed : Bool) (s' : Scheduler)
    → process_deadline s event ≡ ok (missed, s')
    → (s'.scheduling ≡ s.scheduling) × (s'.policy ≡ s.policy)
process_deadline_settings s event missed s' h =
    let x = process_deadline-Checked s event missed s' h in rw x.result (refl, refl)

module _ (scheduling : SchedulingSpec) (policy : SchedulingPolicy) where
  pub moves-IsKeptBy :
      (s s' : Scheduler)
      → (s'.scheduling ≡ s.scheduling) × (s'.policy ≡ s.policy)
      → (History s → History s')
      → IsKeptBy scheduling policy s
      → IsKeptBy scheduling policy s'
  moves-IsKeptBy s s' (e, f) move k = record {
    history = move k.history;
    scheduling_eq = e ∙ k.scheduling_eq;
    policy_eq = f ∙ k.policy_eq;
  }

  unfoldable pub IsKept : Kernel → Type 0
  IsKept kernel = IsKeptBy scheduling policy kernel.scheduler

  complete_job-IsKept :
      (kernel : Kernel) (event : Event) (kernel' : Kernel)
      → IsKept kernel
      → complete_job kernel event ≡ ok kernel'
      → IsKept kernel'
  unfolding IsKept
  complete_job-IsKept kernel event kernel' k h =
      elim (Result-cases (process_completion kernel.scheduler event)) [
        | inr (error, f) ↦ absurd (unfold complete_job in ground (arith, f))
        | inl ((accepted, s), f) ↦
            let e : s ≡ kernel'.scheduler = elim (Bool-cases accepted) [
              | inr a ↦ unfold complete_job in ground (arith, f, a)
              | inl a ↦ elim (Result-cases (publish kernel.network event kernel.queue)) [
                | inr (error, g) ↦ absurd (unfold complete_job in ground (arith, f, a, g))
                | inl ((network, queue), g) ↦ unfold complete_job in ground (arith, f, a, g)
              ]
            ] in
            subst (IsKeptBy scheduling policy) e (
              moves-IsKeptBy kernel.scheduler s
                (process_completion_settings kernel.scheduler event accepted s f)
                (λ y. completes event accepted y f) k)
      ]

  check_deadline-IsKept :
      (kernel : Kernel) (event : Event) (kernel' : Kernel)
      → IsKept kernel
      → check_deadline kernel event ≡ ok kernel'
      → IsKept kernel'
  unfolding IsKept
  check_deadline-IsKept kernel event kernel' k h =
      elim (Result-cases (process_deadline kernel.scheduler event)) [
        | inr (error, f) ↦ absurd (unfold check_deadline in ground (arith, f))
        | inl ((missed, s), f) ↦
            let e : s ≡ kernel'.scheduler = unfold check_deadline in ground (arith, f) in
            subst (IsKeptBy scheduling policy) e (
              moves-IsKeptBy kernel.scheduler s
                (process_deadline_settings kernel.scheduler event missed s f)
                (λ y. checks event missed y f) k)
      ]

  release_task-IsKept :
      (kernel : Kernel) (event : Event) (kernel' : Kernel)
      → IsKept kernel
      → release_task kernel event ≡ ok kernel'
      → IsKept kernel'
  unfolding IsKept
  release_task-IsKept kernel event kernel' k h =
      elim (Result-cases (release_job kernel.releases event kernel.queue)) [
        | inr (error, f) ↦ absurd (unfold release_task in ground (arith, f))
        | inl ((job, releases, queue), f) ↦
            elim (Result-cases (submit kernel.scheduler job queue)) [
              | inr (error, g) ↦ absurd (unfold release_task in ground (arith, f, g))
              | inl ((s, queue'), g) ↦
                  let e : s ≡ kernel'.scheduler = unfold release_task in ground (arith, f, g) in
                  subst (IsKeptBy scheduling policy) e (
                    moves-IsKeptBy kernel.scheduler s
                      (submit_settings kernel.scheduler job queue s queue' g)
                      (λ y. submits job queue queue' y g) k)
            ]
      ]

  deliver_message-scheduler :
      (kernel : Kernel) (event : Event) (kernel' : Kernel)
      → deliver_message kernel event ≡ ok kernel'
      → kernel.scheduler ≡ kernel'.scheduler
  unfolding deliver_message
  deliver_message-scheduler kernel event kernel' h = ground arith

  pub process_pre_scheduling_event-IsKept :
      (kernel : Kernel) (event : Event) (kernel' : Kernel)
      → IsKept kernel
      → process_pre_scheduling_event kernel event ≡ ok kernel'
      → IsKept kernel'
  unfolding IsKept
  process_pre_scheduling_event-IsKept kernel event kernel' k h =
      elim (process_pre_scheduling_event-cases kernel event kernel' h) [
        | inl (p, a) ↦ complete_job-IsKept kernel event kernel' k a
        | inr (inl b) ↦
            subst (IsKeptBy scheduling policy) (deliver_message-scheduler kernel event kernel' b) k
        | inr (inr (inl (p, c))) ↦ check_deadline-IsKept kernel event kernel' k c
        | inr (inr (inr d)) ↦ release_task-IsKept kernel event kernel' k d
      ]

  process_all-IsKept :
      (events : List Event) (kernel kernel' : Kernel)
      → IsKept kernel
      → process_all kernel events ≡ ok kernel'
      → IsKept kernel'
  process_all-IsKept [] kernel kernel' k h =
      let e : kernel ≡ kernel' = unfold process_all in ground arith in subst IsKept e k
  process_all-IsKept (event ∷ events) kernel kernel' k h =
      elim (Result-cases (process_pre_scheduling_event kernel event)) [
        | inr (error, f) ↦ absurd (unfold process_all in ground (arith, f))
        | inl (between, f) ↦
            process_all-IsKept events between kernel'
              (process_pre_scheduling_event-IsKept kernel event between k f)
              (unfold process_all in ground (arith, f))
      ]

  pub process_releases-IsKept :
      (kernel : Kernel) (events : List Event) (kernel' : Kernel)
      → IsKept kernel
      → process_releases kernel events ≡ ok kernel'
      → IsKept kernel'
  process_releases-IsKept kernel events kernel' k h =
      elim (Result-cases (sort_releases kernel.releases events)) [
        | inr (error, f) ↦ absurd (unfold process_releases in ground (arith, f))
        | inl (sorted, f) ↦
            process_all-IsKept sorted kernel kernel' k
              (unfold process_releases in ground (arith, f))
      ]

  pub process_front-IsKept :
      (kernel kernel' : Kernel) → IsKept kernel → process_front kernel ≡ ok kernel' → IsKept kernel'
  unfolding IsKept
  process_front-IsKept kernel kernel' k h = elim (Result-cases (pop_next kernel.queue)) [
    | inr (error, f) ↦ absurd (unfold process_front in ground (arith, f))
    | inl ((event, queue), f) ↦
        process_pre_scheduling_event-IsKept (record kernel { queue = queue }) event kernel' k
          (unfold process_front in ground (arith, f))
  ]

-- The events after the scheduling cycle leave the scheduler as it is.
pub process_post-scheduler :
    (kernel kernel' : Kernel)
    → process_post kernel ≡ ok kernel'
    → kernel.scheduler ≡ kernel'.scheduler
process_post-scheduler kernel kernel' h = elim (Result-cases (pop_next kernel.queue)) [
  | inr (error, f) ↦ absurd (unfold process_post in ground (arith, f))
  | inl ((event, queue), f) ↦ elim (Result-cases (process_send kernel.network event queue)) [
    | inr (error, g) ↦ unfold process_post in ground (arith, f, g)
    | inl ((network, queue'), g) ↦ unfold process_post in ground (arith, f, g)
  ]
]
