-- ===== src/Engine/FirstReleases.antt =====
-- What the first releases put into the queue: PeriodicReleaseModel::schedule_initial_releases.
use cpssim.Base.{
  ℕ, ◌≡◌, subst, inl, inr, Bool, true, none, List, [], ◌∷◌, ok, Result-cases, Bool-cases,
  Option-cases, pos, arith, ltb,
}
use cpssim.Event.{EventPhase, EventType}
use cpssim.Queue
use cpssim.Queue.{EventQueue}
use cpssim.Release.{
  Task, PeriodicReleaseModel, release_entities, schedule_current_release, schedule_initial_release,
  schedule_first_releases, schedule_initial_releases,
}
use cpssim.Engine.Timely.{IsTimely, schedule-IsTimely}
use cpssim.Engine.Releases.{IsPeriodic}

schedule_current_release-IsTimely :
    (task : Task) (queue : EventQueue) (task' : Task) (queue' : EventQueue)
    → IsTimely 0 queue
    → schedule_current_release task queue ≡ ok (task', queue')
    → IsTimely 0 queue' × (task'.spec ≡ task.spec)
schedule_current_release-IsTimely task queue task' queue' v h =
    elim (Option-cases task.assigned_resource) [
      | inl unassigned ↦ unfold schedule_current_release in ground (arith, unassigned)
      | inr (r, given) ↦
          elim (Result-cases (
            Queue.schedule queue (pos task.scheduled_tick) EventPhase.job_release
              EventType.job_release (release_entities task.spec.id task.scheduled_job_id r) none)) [
                | inr (error, f) ↦ unfold schedule_current_release in ground (arith, given, f)
                | inl ((n, q), f) ↦
                    let e : q ≡ queue' =
                      unfold schedule_current_release in ground (arith, given, f) in
                    (
                      subst (IsTimely 0) e (
                          schedule-IsTimely 0 queue task.scheduled_tick _ _ _ _ n q v (omega arith)
                            f),
                      unfold schedule_current_release in ground (arith, given, f),
                    )
              ]
    ]

schedule_initial_release-IsTimely :
    (task : Task) (queue : EventQueue) (scheduled : Bool) (task' : Task) (queue' : EventQueue)
    → IsTimely 0 queue
    → schedule_initial_release task queue ≡ ok (scheduled, task', queue')
    → IsTimely 0 queue' × (task'.spec ≡ task.spec)
schedule_initial_release-IsTimely task queue scheduled task' queue' v h =
    elim (Bool-cases (ltb task.stop_tick task.scheduled_tick)) [
      | inl late ↦
          let e : queue ≡ queue' = unfold schedule_initial_release in ground (arith, late) in
          (subst (IsTimely 0) e v, unfold schedule_initial_release in ground (arith, late))
      | inr early ↦ elim (Result-cases (schedule_current_release begun queue)) [
        | inr (error, f) ↦ unfold schedule_initial_release in ground (arith, early, f)
        | inl ((t, q), f) ↦
            let e : q ≡ queue' = unfold schedule_initial_release in ground (arith, early, f) in
            let (k, s) = schedule_current_release-IsTimely begun queue t q v f in
            (subst (IsTimely 0) e k, unfold schedule_initial_release in ground (arith, early, f, s))
      ]
    ]
  where
    begun : Task
    begun = record task { initialized = true }

schedule_first_releases-IsTimely :
    (tasks : List Task) (queue : EventQueue) (count : ℕ) (tasks' : List Task) (queue' : EventQueue)
    → IsTimely 0 queue
    → IsPeriodic tasks
    → schedule_first_releases tasks queue ≡ ok (count, tasks', queue')
    → IsTimely 0 queue' × IsPeriodic tasks'
schedule_first_releases-IsTimely [] queue count tasks' queue' v p h =
    let e : (queue ≡ queue') × (tasks' ≡ []) =
      unfold schedule_first_releases in (ground arith, ground arith) in
    (subst (IsTimely 0) e.0 v, rw e.1 tt)
schedule_first_releases-IsTimely (task ∷ tasks) queue count tasks' queue' v (p, ps) h =
    elim (Result-cases (schedule_initial_release task queue)) [
      | inr (error, f) ↦ unfold schedule_first_releases in ground (arith, f)
      | inl ((b, t, q), f) ↦ elim (Result-cases (schedule_first_releases tasks q)) [
        | inr (error, g) ↦ unfold schedule_first_releases in ground (arith, f, g)
        | inl ((n, ts, r), g) ↦
            let e : (r ≡ queue') × (tasks' ≡ t ∷ ts) =
              unfold schedule_first_releases in (ground (arith, f, g), ground (arith, f, g)) in
            let (k, s) = schedule_initial_release-IsTimely task queue b t q v f in
            let (l, qs) = schedule_first_releases-IsTimely tasks q n ts r k ps g in
            (subst (IsTimely 0) e.0 l, rw e.1 (rw s p, qs))
      ]
    ]

-- The first releases leave the tasks periodic.
pub schedule_initial_releases-IsTimely :
    (model : PeriodicReleaseModel) (queue : EventQueue) (count : ℕ) (model' : PeriodicReleaseModel)
    (queue' : EventQueue)
    → IsTimely 0 queue
    → IsPeriodic model.tasks
    → schedule_initial_releases model queue ≡ ok (count, model', queue')
    → IsTimely 0 queue' × IsPeriodic model'.tasks
schedule_initial_releases-IsTimely model queue count model' queue' v p h =
    elim (Result-cases (schedule_first_releases model.tasks queue)) [
      | inr (error, f) ↦ unfold schedule_initial_releases in ground (arith, f)
      | inl ((n, ts, q), f) ↦
          let e : (q ≡ queue') × (model'.tasks ≡ ts) =
            unfold schedule_initial_releases in (ground (arith, f), ground (arith, f)) in
          let (k, ps) = schedule_first_releases-IsTimely model.tasks queue n ts q v p f in
          (subst (IsTimely 0) e.0 k, rw e.1 ps)
    ]
