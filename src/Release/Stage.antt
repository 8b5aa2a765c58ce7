-- ===== src/Release/Stage.antt =====
-- Where a task stands between its releases, and how a step moves it.
use cpssim.Base.{
  ℕ, suc, ◌+◌, ◌*◌, ◌≤◌, ◌<◌, ◌≡◌, ◌∙◌, ◌⊎◌, inl, inr, Bool, true, false, none, some, Result, ok,
  Result-cases, pos, arith, ltb, Bool-cases, Option-cases,
}
use cpssim.Event.{EventPhase, EventType}
use cpssim.Queue.{EventQueue, schedule}
use cpssim.Release.{
  Task, assign_resource, schedule_initial_release, schedule_current_release, release_entities,
}
use cpssim.Release.Sequence.{AtPosition}

-- Where a task stands after it has released `n` jobs.
pub data Stage (task : Task) (n : ℕ) : Type 0 where
  fresh :
      n ≡ 0
      → task.initialized ≡ false
      → task.release_pending ≡ false
      → AtPosition task 0
      → Stage task n
  pending :
      task.initialized ≡ true
      → task.release_pending ≡ true
      → task.scheduled_tick ≤ task.stop_tick
      → AtPosition task n
      → Stage task n
  done :
      task.initialized ≡ true
      → task.release_pending ≡ false
      → task.stop_tick < task.spec.offset + n * task.spec.period
      → Stage task n

-- A job number is one below a position; the two sides of `n * p` and its successor.
mul_step : (o n p : ℕ) → o + n * p + p ≡ o + suc n * p
mul_step o n p = omega arith

pub assign_resource-fields :
    (task : Task) (r : ℕ) (task' : Task)
    → assign_resource task r ≡ ok task'
    → task' ≡ record task { assigned_resource = some r }
unfolding assign_resource
assign_resource-fields task r task' h = ground arith

current_fields :
    (task : Task) (queue : EventQueue) (task' : Task) (queue' : EventQueue)
    → schedule_current_release task queue ≡ ok (task', queue')
    → (r : ℕ) × (task' ≡ record task { pending_resource = some r; release_pending = true })
current_fields task queue task' queue' h = elim (Option-cases task.assigned_resource) [
  | inl unassigned ↦ unfold schedule_current_release in ground arith
  | inr (r, given) ↦ elim (Result-cases (first_release r)) [
    | inr (error, f) ↦ unfold schedule_current_release in ground (arith, f)
    | inl ((s, q), f) ↦ (r, unfold schedule_current_release in ground (arith, f))
  ]
]
  where
    first_release : ℕ → Result (ℕ × EventQueue)
    first_release r =
        schedule queue (pos task.scheduled_tick) EventPhase.job_release EventType.job_release
          (release_entities task.spec.id task.scheduled_job_id r) none

-- The start of a task only notes that it has begun, and that its first release is pending if that
-- lies in the horizon.
pub initial_fields :
    (task : Task) (queue : EventQueue) (scheduled : Bool) (task' : Task) (queue' : EventQueue)
    → schedule_initial_release task queue ≡ ok (scheduled, task', queue')
    → (task.initialized ≡ false)
      × ((task.stop_tick < task.scheduled_tick) × (task' ≡ record task { initialized = true })
          ⊎ (r : ℕ) × (task.scheduled_tick ≤ task.stop_tick)
            × (task' ≡ record task {
              initialized = true;
              pending_resource = some r;
              release_pending = true;
            }))
initial_fields task queue scheduled task' queue' h = (
  unfold schedule_initial_release in ground arith,
  elim (Bool-cases (ltb task.stop_tick task.scheduled_tick)) [
    | inl late ↦ inl (ground arith, unfold schedule_initial_release in ground arith)
    | inr early ↦
        elim (Result-cases (schedule_current_release (record task { initialized = true }) queue)) [
          | inr (error, f) ↦ unfold schedule_initial_release in ground (arith, f)
          | inl ((t, q), f) ↦
              let (r, e) = current_fields (record task { initialized = true }) queue t q f in
              inr (r, ground arith, unfold schedule_initial_release in ground (arith, f, e))
        ]
  ],
)

pub Stage-fresh :
    (task : Task) (n : ℕ)
    → Stage task n
    → task.initialized ≡ false
    → (n ≡ 0) × (task.release_pending ≡ false) × AtPosition task 0
Stage-fresh task n (fresh z i p at) e = (z, p, at)
Stage-fresh task n (pending i p le at) e = cc
Stage-fresh task n (done i p lt) e = cc

pub Stage-pending :
    (task : Task) (n : ℕ)
    → Stage task n
    → task.release_pending ≡ true
    → (task.scheduled_tick ≤ task.stop_tick) × AtPosition task n
Stage-pending task n (fresh z i p at) e = cc
Stage-pending task n (pending i p le at) e = (le, at)
Stage-pending task n (done i p lt) e = cc

pub Stage-done :
    (task : Task) (n : ℕ)
    → Stage task n
    → task.initialized ≡ true
    → task.release_pending ≡ false
    → task.stop_tick < task.spec.offset + n * task.spec.period
Stage-done task n (fresh z i p at) e f = cc
Stage-done task n (pending i p le at) e f = cc
Stage-done task n (done i p lt) e f = lt

-- After a release the task is one position further, or has no release left in the horizon.
pub Stage-suc :
    (task task' : Task) (n : ℕ)
    → AtPosition task n
    → task.initialized ≡ true
    → task'.spec ≡ task.spec
    → task'.stop_tick ≡ task.stop_tick
    → task'.initialized ≡ task.initialized
    → (task.stop_tick < task.scheduled_tick + task.spec.period) × (task'.release_pending ≡ false)
      ⊎ (task.scheduled_tick + task.spec.period ≤ task.stop_tick)
        × (task'.release_pending ≡ true)
        × (task'.scheduled_tick ≡ task.scheduled_tick + task.spec.period)
        × (task'.scheduled_job_id ≡ task.scheduled_job_id + 1)
    → Stage task' (suc n)
Stage-suc task task' n at i s t j (inl (lt, p)) =
    done (j ∙ i) p
      (rw (s, t) (omega (arith, at.tick, mul_step task.spec.offset n task.spec.period)))
Stage-suc task task' n at i s t j (inr (le, p, a, b)) = pending (j ∙ i) p (rw (a, t) le) (record {
  tick = rw (a, s) (omega (arith, at.tick, mul_step task.spec.offset n task.spec.period));
  number = rw b (omega (arith, at.number));
})
