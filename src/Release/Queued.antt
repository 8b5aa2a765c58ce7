-- ===== src/Release/Queued.antt =====
-- The release events that a task puts into the queue: schedule_initial_release and release.
use cpssim.Base.{
  ℕ, suc, ◌+◌, ◌*◌, ◌≤◌, ◌<◌, ◌≡◌, ◌⊎◌, inl, inr, Bool, true, Option, none, some, List, [], ◌∷◌,
  Perm, Result, ok, Result-cases, Bool-cases, Option-cases, pos, arith, ltb, length,
}
use cpssim.Event.{Event, EventPhase, EventType}
use cpssim.Queue.{EventQueue, schedule}
use cpssim.Queue.Contents.{inserted, schedule-Perm}
use cpssim.Specs.{TaskSpec, TaskResourceProfile}
use cpssim.Runtime.{JobState}
use cpssim.Release.{
  Task, schedule_current_release, schedule_initial_release, advance_release, release,
  release_entities,
}
use cpssim.Release.Sequence.{release-Released}
use cpssim.Release.Stage.{initial_fields, Stage-fresh, Stage-pending}
use cpssim.Release.Life.{Life, Life-IsRegular}

-- The queue has one event more: the release of a job of the task, on the resource assigned to it.
abbrev pub AddsRelease : TaskSpec → Option ℕ → ℕ → ℕ → EventQueue → EventQueue → Type 0
AddsRelease spec assigned tick number queue queue' =
    (r : ℕ) × (assigned ≡ some r)
    × Perm queue'.events (
        inserted queue tick EventPhase.job_release EventType.job_release
          (release_entities spec.id number r) none
        ∷ queue.events)

-- The queue has one event more if the tick is in the horizon, and is as it was otherwise.
abbrev pub AddsReleaseBy : ℕ → TaskSpec → Option ℕ → ℕ → ℕ → EventQueue → EventQueue → Type 0
AddsReleaseBy stop spec assigned tick number queue queue' =
    (stop < tick) × (queue' ≡ queue)
    ⊎ (tick ≤ stop) × AddsRelease spec assigned tick number queue queue'

schedule_current_release-AddsRelease :
    (task : Task) (queue : EventQueue) (task' : Task) (queue' : EventQueue)
    → schedule_current_release task queue ≡ ok (task', queue')
    → AddsRelease task.spec task.assigned_resource task.scheduled_tick task.scheduled_job_id queue
        queue'
schedule_current_release-AddsRelease task queue task' queue' h =
    elim (Option-cases task.assigned_resource) [
      | inl unassigned ↦ absurd (unfold schedule_current_release in ground arith)
      | inr (r, given) ↦ elim (Result-cases (current r)) [
        | inr (error, f) ↦ absurd (unfold schedule_current_release in ground (arith, f))
        | inl ((s, q), f) ↦
            let e : q ≡ queue' = unfold schedule_current_release in ground (arith, f) in
            (r, given, rw (← e) (schedule-Perm queue task.scheduled_tick _ _ _ none s q f))
      ]
    ]
  where
    current : ℕ → Result (ℕ × EventQueue)
    current r =
        schedule queue (pos task.scheduled_tick) EventPhase.job_release EventType.job_release
          (release_entities task.spec.id task.scheduled_job_id r) none

schedule_initial_release-AddsReleaseBy :
    (task : Task) (queue : EventQueue) (scheduled : Bool) (task' : Task) (queue' : EventQueue)
    → schedule_initial_release task queue ≡ ok (scheduled, task', queue')
    → AddsReleaseBy task.stop_tick task.spec task.assigned_resource task.scheduled_tick
        task.scheduled_job_id queue queue'
schedule_initial_release-AddsReleaseBy task queue scheduled task' queue' h =
    elim (Bool-cases (ltb task.stop_tick task.scheduled_tick)) [
      | inl late ↦ inl (ground arith, unfold schedule_initial_release in ground (arith, late))
      | inr early ↦
          elim (Result-cases
            (schedule_current_release (record task { initialized = true }) queue)) [
              | inr (error, f) ↦
                  absurd (unfold schedule_initial_release in ground (arith, early, f))
              | inl ((t, q), f) ↦
                  let e : q ≡ queue' =
                    unfold schedule_initial_release in ground (arith, early, f) in
                  inr (
                    ground arith,
                    rw (← e) (
                        schedule_current_release-AddsRelease (record task { initialized = true })
                          queue t q f),
                  )
            ]
    ]

advance_release-AddsReleaseBy :
    (task : Task) (queue : EventQueue) (task' : Task) (queue' : EventQueue)
    → advance_release task queue ≡ ok (task', queue')
    → AddsReleaseBy task.stop_tick task.spec task.assigned_resource
        (task.scheduled_tick + task.spec.period)
        (task.scheduled_job_id + 1)
        queue
        queue'
advance_release-AddsReleaseBy task queue task' queue' h =
    elim (Bool-cases (ltb task.stop_tick (task.scheduled_tick + task.spec.period))) [
      | inl last ↦ inl (ground arith, unfold advance_release in ground (arith, last))
      | inr more ↦ elim (Option-cases task.assigned_resource) [
        | inl unassigned ↦ absurd (unfold advance_release in ground (arith, more))
        | inr (r, given) ↦ elim (Result-cases (successor r)) [
          | inr (error, f) ↦ absurd (unfold advance_release in ground (arith, more, f))
          | inl ((s, q), f) ↦
              let e : q ≡ queue' = unfold advance_release in ground (arith, more, f) in
              inr (
                ground arith,
                (
                  r,
                  given,
                  rw (← e) (
                      schedule-Perm queue (task.scheduled_tick + task.spec.period) _ _ _ none s q
                        f),
                ),
              )
        ]
      ]
    ]
  where
    successor : ℕ → Result (ℕ × EventQueue)
    successor r =
        schedule queue (pos (task.scheduled_tick + task.spec.period)) EventPhase.job_release
          EventType.job_release (release_entities task.spec.id (task.scheduled_job_id + 1) r) none

mul_step : (o n p : ℕ) → o + n * p + p ≡ o + (n + 1) * p
mul_step o n p = omega arith

-- A call that can put a release into the queue, with the jobs that it returns.
pub data Call (task : Task) (queue : EventQueue) : List JobState → Task → EventQueue → Type 0 where
  starts :
      {task' : Task} {queue' : EventQueue} (scheduled : Bool)
      → schedule_initial_release task queue ≡ ok (scheduled, task', queue')
      → Call task queue [] task' queue'
  continues :
      {task' : Task} {queue' : EventQueue} (event : Event) (job : JobState)
      → release task event queue ≡ ok (job, task', queue')
      → Call task queue (job ∷ []) task' queue'

-- Whatever has happened to a task, its start and each of its releases put the next release into the
-- queue: after `n` jobs in all, one event, the release of the job `n + 1` at `n` periods after the offset
-- and on the resource that is assigned to the task, if that tick is in the horizon. If it is beyond the
-- horizon, the queue stays as it was. So no release in the horizon is left out.
pub Life-next_release :
    (spec : TaskSpec) (profiles : List TaskResourceProfile) (task : Task) (jobs : List JobState)
    (queue : EventQueue) (released : List JobState) (task' : Task) (queue' : EventQueue)
    → Life spec profiles task jobs
    → Call task queue released task' queue'
    → AddsReleaseBy task.stop_tick spec task.assigned_resource
        (spec.offset + (length jobs + length released) * spec.period)
        (suc (length jobs + length released))
        queue
        queue'
Life-next_release spec profiles task jobs queue released task' queue' l (starts scheduled h) =
    let v = Life-IsRegular spec profiles task jobs l in
    let (i, step) = initial_fields task queue scheduled task' queue' h in
    let (z, p, at) = Stage-fresh task (length jobs) v.stage i in
    let tick : task.scheduled_tick ≡ spec.offset + (length jobs + 0) * spec.period =
      rw (z, ← v.same_spec) (omega (arith, at.tick)) in
    let number : task.scheduled_job_id ≡ suc (length jobs + 0) = omega (arith, at.number, z) in
    rw (← tick, ← number, ← v.same_spec)
      (schedule_initial_release-AddsReleaseBy task queue scheduled task' queue' h)
Life-next_release spec profiles task jobs queue released task' queue' l (continues event job h) =
    let v = Life-IsRegular spec profiles task jobs l in
    let x = release-Released task event queue job task' queue' h in
    let p : task.release_pending ≡ true = ground (arith, x.matched) in
    let (le, at) = Stage-pending task (length jobs) v.stage p in
    let n = length jobs in
    let tick : task.scheduled_tick + task.spec.period ≡ spec.offset + (n + 1) * spec.period =
      rw (← v.same_spec) (omega (arith, at.tick, mul_step task.spec.offset n task.spec.period)) in
    let number : task.scheduled_job_id + 1 ≡ suc (n + 1) = omega (arith, at.number) in
    rw (← tick, ← number, ← v.same_spec)
      (advance_release-AddsReleaseBy task queue task' queue' x.advanced)
