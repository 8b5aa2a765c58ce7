-- ===== src/Engine/Releases.antt =====
-- What the release model and the scheduler's submission put into the queue.
use cpssim.Base.{
  ℕ, zero, suc, ◌+◌, ◌<◌, ◌≡◌, sym, subst, inl, inr, none, List, Result, ok, Result-cases,
  Bool-cases, Option-cases, pos, negsuc, arith, All, leb, ltb,
}
use cpssim.Event.{Event, EventPhase, EventType}
use cpssim.Queue.{EventQueue, schedule}
use cpssim.Runtime.{JobState}
use cpssim.Release.{
  Task, PeriodicReleaseModel, release_entities, time_in, released_job, advance_release, release,
  task_for, update_task, release_job, assigned,
}
use cpssim.Release.Tasks.{task_for-All, update_task-All}
use cpssim.Release.Sequence.{release-Released}
use cpssim.Scheduler.{Scheduler, resource_state, schedule_deadline, submit, job_entities}
use cpssim.Engine.Timely.{IsTimely, AddsLater, AddsLater-refl, schedule-AddsLater}

-- Every task has a positive period.
abbrev pub IsPeriodic : List Task → Type 0
IsPeriodic tasks = All (λ t. 0 < t.spec.period) tasks

advance_release-AddsLater :
    (task : Task) (queue : EventQueue) (task' : Task) (queue' : EventQueue)
    → IsTimely task.scheduled_tick queue
    → 0 < task.spec.period
    → advance_release task queue ≡ ok (task', queue')
    → AddsLater task.scheduled_tick queue queue' × (task'.spec ≡ task.spec)
advance_release-AddsLater task queue task' queue' v p h =
    elim (Bool-cases (ltb task.stop_tick (task.scheduled_tick + task.spec.period))) [
      | inl last ↦
          let q : queue ≡ queue' = unfold advance_release in ground (arith, last) in
          (
            subst (AddsLater task.scheduled_tick queue) q
                (AddsLater-refl task.scheduled_tick queue v),
            unfold advance_release in ground (arith, last),
          )
      | inr more ↦ elim (Option-cases task.assigned_resource) [
        | inl unassigned ↦ unfold advance_release in ground (arith, more, unassigned)
        | inr (r, given) ↦ elim (Result-cases (successor r)) [
          | inr (error, f) ↦ unfold advance_release in ground (arith, more, given, f)
          | inl ((s, q), f) ↦
              let e : q ≡ queue' = unfold advance_release in ground (arith, more, given, f) in
              (
                subst (AddsLater task.scheduled_tick queue) e (
                    schedule-AddsLater task.scheduled_tick queue
                      (task.scheduled_tick + task.spec.period) _ _ _ _ s q v (omega (arith, p)) f),
                unfold advance_release in ground (arith, more, given, f),
              )
        ]
      ]
    ]
  where
    successor : ℕ → Result (ℕ × EventQueue)
    successor r =
        schedule queue (pos (task.scheduled_tick + task.spec.period)) EventPhase.job_release
          EventType.job_release (release_entities task.spec.id (task.scheduled_job_id + 1) r) none

released_job-deadline :
    (task : Task) (r : ℕ) (job : JobState)
    → released_job task r ≡ ok job
    → task.scheduled_tick < job.absolute_deadline
unfolding released_job
released_job-deadline task r job h = elim (Result-cases (time_in task.resource_profiles r)) [
  | inr (error, f) ↦ ground (arith, f)
  | inl (pos zero, f) ↦ ground (arith, f)
  | inl (negsuc m, f) ↦ ground (arith, f)
  | inl (pos (suc m), f) ↦ ground (arith, f)
]

-- A release puts only later events into the queue, keeps the periods, and its job is due later.
pub release_job-AddsLater :
    (model : PeriodicReleaseModel) (event : Event) (queue : EventQueue) (job : JobState)
    (model' : PeriodicReleaseModel) (queue' : EventQueue)
    → IsTimely event.tick queue
    → IsPeriodic model.tasks
    → release_job model event queue ≡ ok (job, model', queue')
    → AddsLater event.tick queue queue'
      × IsPeriodic model'.tasks
      × (event.tick < job.absolute_deadline)
release_job-AddsLater model event queue job model' queue' v p h =
    elim (Result-cases (assigned event.entities.task_id)) [
      | inr (error, a) ↦ unfold release_job in ground (arith, a)
      | inl (id, a) ↦ elim (Result-cases (task_for model.tasks id)) [
        | inr (error, b) ↦ unfold release_job in ground (arith, a, b)
        | inl (task, b) ↦ elim (Result-cases (release task event queue)) [
          | inr (error, c) ↦ unfold release_job in ground (arith, a, b, c)
          | inl ((j, task', q), c) ↦
              let e : (j ≡ job)
                  × (q ≡ queue')
                  × (model' ≡ record model { tasks = update_task task' model.tasks }) =
                unfold release_job in ground (arith, a, b, c) in
              let x = release-Released task event queue j task' q c in
              let own : task.scheduled_tick ≡ event.tick = ground (arith, x.matched) in
              let positive = task_for-All (λ t. 0 < t.spec.period) model.tasks id task p b in
              let (d, s) =
                advance_release-AddsLater task queue task' q
                  (subst (λ t. IsTimely t queue) (sym own) v) positive x.advanced in
              let later = released_job-deadline task x.resource j x.built in
              (
                subst (λ t. AddsLater t queue queue') own
                    (subst (AddsLater task.scheduled_tick queue) e.1 d),
                rw e.2
                    (update_task-All (λ t. 0 < t.spec.period) task' model.tasks (rw s positive) p),
                omega (arith, own, rw e.0 at later),
              )
        ]
      ]
    ]

-- A submission puts only the deadline check of the job into the queue.
pub submit-AddsLater :
    (tick : ℕ) (scheduler : Scheduler) (job : JobState) (queue : EventQueue)
    (scheduler' : Scheduler) (queue' : EventQueue)
    → IsTimely tick queue
    → tick < job.absolute_deadline
    → submit scheduler job queue ≡ ok (scheduler', queue')
    → AddsLater tick queue queue'
submit-AddsLater tick scheduler job queue scheduler' queue' v lt h =
    elim (Result-cases (resource_state scheduler.resource_states job.resource_id)) [
      | inr (error, f) ↦ unfold submit in ground (arith, f)
      | inl (state, f) ↦ elim (Result-cases (schedule_deadline scheduler.stop_tick job queue)) [
        | inr (error, g) ↦ unfold submit in ground (arith, f, g)
        | inl (q, g) ↦
            let e : q ≡ queue' = unfold submit in ground (arith, f, g) in
            subst (AddsLater tick queue) e (due q g)
      ]
    ]
  where
    due :
        (q : EventQueue)
        → schedule_deadline scheduler.stop_tick job queue ≡ ok q
        → AddsLater tick queue q
    due q g = elim (Bool-cases (leb job.absolute_deadline scheduler.stop_tick)) [
      | inr beyond ↦
          let e : queue ≡ q = unfold schedule_deadline in ground (arith, beyond) in
          subst (AddsLater tick queue) e (AddsLater-refl tick queue v)
      | inl within ↦
          elim (Result-cases (
            schedule queue (pos job.absolute_deadline) EventPhase.deadline_check
              EventType.deadline_miss (job_entities job) none)) [
                | inr (error, s) ↦ unfold schedule_deadline in ground (arith, within, s)
                | inl ((n, q'), s) ↦
                    let e : q' ≡ q = unfold schedule_deadline in ground (arith, within, s) in
                    subst (AddsLater tick queue) e
                      (schedule-AddsLater tick queue job.absolute_deadline _ _ _ _ n q' v lt s)
              ]
    ]
