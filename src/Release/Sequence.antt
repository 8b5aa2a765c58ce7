-- ===== src/Release/Sequence.antt =====
-- Which jobs a task releases over its life.
use cpssim.Base.{
  ℕ, zero, suc, ◌+◌, ◌*◌, ◌≤◌, ◌<◌, ◌≡◌, refl, ap, ◌∙◌, ◌⊎◌, inl, inr, true, false, Option, none,
  some, List, Result, ok, Result-cases, pos, negsuc, arith, ltb, Bool-cases, Option-cases,
}
use cpssim.Event.{Event, EventPhase, EventType}
use cpssim.Queue.{EventQueue, schedule}
use cpssim.Specs.{TaskSpec, TaskResourceProfile}
use cpssim.Runtime.{JobState, JobLifecycle}
use cpssim.Release.{
  Task, release, advance_release, released_job, matches_release, captured, time_in,
  release_entities,
}

-- The calls that an accepted release made.
pub record Released (task : Task) (event : Event) (queue : EventQueue) (job : JobState)
    (task' : Task) (queue' : EventQueue) : Type 0 where
  pub resource : ℕ
  pub pending : task.pending_resource ≡ some resource
  pub started : task.initialized ≡ true
  pub matched : matches_release task event ≡ true
  pub built : released_job task resource ≡ ok job
  pub advanced : advance_release task queue ≡ ok (task', queue')

captured-eq-ok :
    (pending named : Option ℕ) {r : ℕ} → captured pending named ≡ ok r → pending ≡ some r
captured-eq-ok none named h = cc
captured-eq-ok (some p) named h = ground arith

pub release-Released :
    (task : Task) (event : Event) (queue : EventQueue) (job : JobState) (task' : Task)
    (queue' : EventQueue)
    → release task event queue ≡ ok (job, task', queue')
    → Released task event queue job task' queue'
release-Released task event queue job task' queue' h =
    elim (Result-cases (captured task.pending_resource event.entities.resource_id)) [
      | inr (error, c) ↦ unfold release in ground (arith, c)
      | inl (r, c) ↦ elim (Result-cases (released_job task r)) [
        | inr (error, b) ↦ unfold release in ground (arith, c, b)
        | inl (j, b) ↦ elim (Result-cases (advance_release task queue)) [
          | inr (error, a) ↦ unfold release in ground (arith, c, b, a)
          | inl ((t, q), a) ↦ record {
            resource = r;
            pending = captured-eq-ok task.pending_resource event.entities.resource_id c;
            started = unfold release in ground (arith, c, b, a);
            matched = unfold release in ground (arith, c, b, a);
            built = unfold release in ground (arith, c, b, a);
            advanced = unfold release in ground (arith, c, b, a);
          }
        ]
      ]
    ]

-- The job that a task builds for its position in the release sequence, on a resource.
pub record IsJobOf (spec : TaskSpec) (profiles : List TaskResourceProfile) (n : ℕ) (job : JobState)
    : Type 0 where
  pub task_id : job.task_id ≡ spec.id
  pub number : job.id ≡ suc n
  pub priority : job.priority ≡ spec.priority
  pub released : job.release_tick ≡ spec.offset + n * spec.period
  pub due : job.absolute_deadline ≡ spec.offset + n * spec.period + spec.deadline
  pub demand : time_in profiles job.resource_id ≡ ok (pos job.remaining_execution)
  pub positive_demand : 0 < job.remaining_execution
  pub demand_fits : job.remaining_execution ≤ spec.deadline
  pub lifecycle : job.lifecycle ≡ JobLifecycle.ready

-- The task is at position `n`: its numbers are those of the job `n`.
pub record AtPosition (task : Task) (n : ℕ) : Type 0 where
  pub tick : task.scheduled_tick ≡ task.spec.offset + n * task.spec.period
  pub number : task.scheduled_job_id ≡ suc n

built_fields :
    (task : Task) (r m : ℕ) (job : JobState)
    → time_in task.resource_profiles r ≡ ok (pos (suc m))
    → released_job task r ≡ ok job
    → (job.task_id ≡ task.spec.id)
      × (job.id ≡ task.scheduled_job_id)
      × (job.priority ≡ task.spec.priority)
      × (job.release_tick ≡ task.scheduled_tick)
      × (job.absolute_deadline ≡ task.scheduled_tick + task.spec.deadline)
      × (job.resource_id ≡ r)
      × (job.remaining_execution ≡ suc m)
      × (suc m ≤ task.spec.deadline)
      × (job.lifecycle ≡ JobLifecycle.ready)
unfolding released_job
built_fields task r m job f h = (
  ground (arith, f),
  ground (arith, f),
  ground (arith, f),
  ground (arith, f),
  ground (arith, f),
  ground (arith, f),
  ground (arith, f),
  ground (arith, f),
  ground (arith, f),
)

pub released_job-IsJobOf :
    (task : Task) (r n : ℕ) (job : JobState)
    → AtPosition task n
    → released_job task r ≡ ok job
    → IsJobOf task.spec task.resource_profiles n job
released_job-IsJobOf task r n job at h = elim (Result-cases (time_in task.resource_profiles r)) [
  | inr (error, f) ↦ unfold released_job in ground (arith, f)
  | inl (pos zero, f) ↦ unfold released_job in ground (arith, f)
  | inl (negsuc m, f) ↦ unfold released_job in ground (arith, f)
  | inl (pos (suc m), f) ↦
      let (a, b, c, d, e, g, k, l, o) = built_fields task r m job f h in
      record {
        task_id = a;
        number = b ∙ at.number;
        priority = c;
        released = d ∙ at.tick;
        due = e ∙ ap (λ (t : ℕ). t + task.spec.deadline) at.tick;
        demand = ground (arith, f, g, k);
        positive_demand = omega arith;
        demand_fits = omega arith;
        lifecycle = o;
      }
]

-- The successor of a release: there is none beyond the horizon, and otherwise the next one is queued.
pub advance_release_cases :
    (task : Task) (queue : EventQueue) (task' : Task) (queue' : EventQueue)
    → advance_release task queue ≡ ok (task', queue')
    → (task'.spec ≡ task.spec)
      × (task'.resource_profiles ≡ task.resource_profiles)
      × (task'.stop_tick ≡ task.stop_tick)
      × (task'.initialized ≡ task.initialized)
      × ((task.stop_tick < task.scheduled_tick + task.spec.period) × (task'.release_pending ≡ false)
          ⊎ (task.scheduled_tick + task.spec.period ≤ task.stop_tick)
            × (task'.release_pending ≡ true)
            × (task'.scheduled_tick ≡ task.scheduled_tick + task.spec.period)
            × (task'.scheduled_job_id ≡ task.scheduled_job_id + 1))
advance_release_cases task queue task' queue' h =
    elim (Bool-cases (ltb task.stop_tick (task.scheduled_tick + task.spec.period))) [
      | inl last ↦
          let p : task' ≡ record task { release_pending = false; pending_resource = none } =
            unfold advance_release in ground arith in
          rw p (refl, refl, refl, refl, inl (ground arith, refl))
      | inr more ↦ elim (Option-cases task.assigned_resource) [
        | inl unassigned ↦ unfold advance_release in ground arith
        | inr (r, given) ↦ elim (Result-cases (successor r)) [
          | inr (error, f) ↦ unfold advance_release in ground (arith, f)
          | inl ((s, q), f) ↦
              let p : task' ≡ record task {
                scheduled_tick = task.scheduled_tick + task.spec.period;
                scheduled_job_id = task.scheduled_job_id + 1;
                pending_resource = some r;
                release_pending = true;
              } =
                unfold advance_release in ground (arith, f) in
              rw p (refl, refl, refl, refl, inr (ground arith, refl, refl, refl))
        ]
      ]
    ]
  where
    successor : ℕ → Result (ℕ × EventQueue)
    successor r =
        schedule queue (pos (task.scheduled_tick + task.spec.period)) EventPhase.job_release
          EventType.job_release (release_entities task.spec.id (task.scheduled_job_id + 1) r) none
