-- ===== src/Release/Life.antt =====
-- All jobs of a task, over everything that can happen to it.
use cpssim.Base.{
  ℕ, suc, ◌+◌, ◌*◌, ◌≤◌, ◌<◌, ◌≡◌, refl, subst, ◌∙◌, inl, inr, Bool, true, false, some, List, [],
  ◌∷◌, ◌++◌, ok, ℤ, arith, length, length-append,
}
use cpssim.Event.{Event}
use cpssim.Queue.{EventQueue}
use cpssim.Specs.{TaskSpec, TaskResourceProfile}
use cpssim.Runtime.{JobState}
use cpssim.Release.{Task, new_task, assign_resource, schedule_initial_release, release}
use cpssim.Release.Sequence.{IsJobOf, release-Released, released_job-IsJobOf, advance_release_cases}
use cpssim.Release.Stage.{
  Stage, fresh, pending, done, assign_resource-fields, initial_fields, Stage-fresh, Stage-pending,
  Stage-done, Stage-suc,
}

-- What can happen to a task, with the jobs that it has released, the first one first: it is built,
-- assigned to resources at any time, started once, and its releases are processed.
pub data Life (spec : TaskSpec) (profiles : List TaskResourceProfile)
    : Task → List JobState → Type 0 where
  created :
      {task : Task} (stop_tick : ℤ)
      → new_task spec profiles stop_tick ≡ ok task
      → Life spec profiles task []
  assigns :
      {task task' : Task} {jobs : List JobState} (resource_id : ℕ)
      → Life spec profiles task jobs
      → assign_resource task resource_id ≡ ok task'
      → Life spec profiles task' jobs
  begins :
      {task task' : Task} {jobs : List JobState} (scheduled : Bool) (queue queue' : EventQueue)
      → Life spec profiles task jobs
      → schedule_initial_release task queue ≡ ok (scheduled, task', queue')
      → Life spec profiles task' jobs
  releases :
      {task task' : Task} {jobs : List JobState} (event : Event) (queue queue' : EventQueue)
      (job : JobState)
      → Life spec profiles task jobs
      → release task event queue ≡ ok (job, task', queue')
      → Life spec profiles task' (jobs ++ job ∷ [])

-- The jobs are those of the positions from `n` on, each inside the horizon.
abbrev pub AreJobsFrom : TaskSpec → List TaskResourceProfile → ℕ → ℕ → List JobState → Type 0
AreJobsFrom spec profiles stop n [] = Unit {0}
AreJobsFrom spec profiles stop n (job ∷ jobs) =
    IsJobOf spec profiles n job
    × (job.release_tick ≤ stop)
    × AreJobsFrom spec profiles stop (suc n) jobs

AreJobsFrom-snoc :
    (spec : TaskSpec) (profiles : List TaskResourceProfile) (stop n : ℕ) (jobs : List JobState)
    (job : JobState)
    → AreJobsFrom spec profiles stop n jobs
    → IsJobOf spec profiles (n + length jobs) job
    → job.release_tick ≤ stop
    → AreJobsFrom spec profiles stop n (jobs ++ job ∷ [])
AreJobsFrom-snoc spec profiles stop n [] job h j le =
    (subst (λ k. IsJobOf spec profiles k job) (omega arith) j, le, tt)
AreJobsFrom-snoc spec profiles stop n (x ∷ xs) job (a, b, h) j le = (
  a,
  b,
  AreJobsFrom-snoc spec profiles stop (suc n) xs job h
      (subst (λ k. IsJobOf spec profiles k job) (omega arith) j) le,
)

-- The invariant of a life.
pub record IsRegular (spec : TaskSpec) (profiles : List TaskResourceProfile) (task : Task)
    (jobs : List JobState) : Type 0 where
  pub same_spec : task.spec ≡ spec
  pub same_profiles : task.resource_profiles ≡ profiles
  pub numbered : AreJobsFrom spec profiles task.stop_tick 0 jobs
  pub stage : Stage task (length jobs)

new_task-IsRegular :
    (spec : TaskSpec) (profiles : List TaskResourceProfile) (stop_tick : ℤ) (task : Task)
    → new_task spec profiles stop_tick ≡ ok task
    → IsRegular spec profiles task []
unfolding new_task
new_task-IsRegular spec profiles stop_tick task h = record {
  same_spec = ground arith;
  same_profiles = ground arith;
  numbered = tt;
  stage =
      fresh refl (ground arith) (ground arith)
        (record { tick = ground arith; number = ground arith });
}

begins-IsRegular :
    (spec : TaskSpec) (profiles : List TaskResourceProfile) (task task' : Task)
    (jobs : List JobState) (scheduled : Bool) (queue queue' : EventQueue)
    → IsRegular spec profiles task jobs
    → schedule_initial_release task queue ≡ ok (scheduled, task', queue')
    → IsRegular spec profiles task' jobs
begins-IsRegular spec profiles task task' jobs scheduled queue queue' v h =
    let (i, step) = initial_fields task queue scheduled task' queue' h in
    let (z, p, at) = Stage-fresh task (length jobs) v.stage i in
    elim step [
      | inl (late, e) ↦ rw e (record {
        same_spec = v.same_spec;
        same_profiles = v.same_profiles;
        numbered = v.numbered;
        stage = rw z (done refl p (rw at.tick at late));
      })
      | inr (r, early, e) ↦ rw e (record {
        same_spec = v.same_spec;
        same_profiles = v.same_profiles;
        numbered = v.numbered;
        stage = rw z (pending refl refl early (record { tick = at.tick; number = at.number }));
      })
    ]

assigns-IsRegular :
    (spec : TaskSpec) (profiles : List TaskResourceProfile) (task task' : Task)
    (jobs : List JobState) (r : ℕ)
    → IsRegular spec profiles task jobs
    → assign_resource task r ≡ ok task'
    → IsRegular spec profiles task' jobs
assigns-IsRegular spec profiles task task' jobs r v h =
    rw (assign_resource-fields task r task' h) (record {
      same_spec = v.same_spec;
      same_profiles = v.same_profiles;
      numbered = v.numbered;
      stage = kept v.stage;
    })
  where
    kept :
        Stage task (length jobs) → Stage (record task { assigned_resource = some r }) (length jobs)
    kept (fresh z i p at) = fresh z i p (record { tick = at.tick; number = at.number })
    kept (pending i p le at) = pending i p le (record { tick = at.tick; number = at.number })
    kept (done i p lt) = done i p lt

releases-IsRegular :
    (spec : TaskSpec) (profiles : List TaskResourceProfile) (task task' : Task)
    (jobs : List JobState) (event : Event) (queue queue' : EventQueue) (job : JobState)
    → IsRegular spec profiles task jobs
    → release task event queue ≡ ok (job, task', queue')
    → IsRegular spec profiles task' (jobs ++ job ∷ [])
releases-IsRegular spec profiles task task' jobs event queue queue' job v h =
    let x = release-Released task event queue job task' queue' h in
    let p : task.release_pending ≡ true = ground (arith, x.matched) in
    let (le, at) = Stage-pending task (length jobs) v.stage p in
    let j = released_job-IsJobOf task x.resource (length jobs) job at x.built in
    let (s, f, t, i, step) = advance_release_cases task queue task' queue' x.advanced in
    let n = length-append jobs (job ∷ []) in
    let zero_add : 0 + length jobs ≡ length jobs = omega arith in
    record {
      same_spec = s ∙ v.same_spec;
      same_profiles = f ∙ v.same_profiles;
      numbered = rw t (
          AreJobsFrom-snoc spec profiles task.stop_tick 0 jobs job v.numbered
            (rw (zero_add, ← v.same_spec, ← v.same_profiles) j)
            (omega (arith, j.released, at.tick, le)));
      stage =
          subst (Stage task') (omega (arith, n))
            (Stage-suc task task' (length jobs) at x.started s t i step);
    }

pub Life-IsRegular :
    (spec : TaskSpec) (profiles : List TaskResourceProfile) (task : Task) (jobs : List JobState)
    → Life spec profiles task jobs
    → IsRegular spec profiles task jobs
Life-IsRegular spec profiles task jobs (created stop_tick h) =
    new_task-IsRegular spec profiles stop_tick task h
Life-IsRegular spec profiles task' jobs (assigns {task = t} r l h) =
    assigns-IsRegular spec profiles t task' jobs r (Life-IsRegular spec profiles t jobs l) h
Life-IsRegular spec profiles task' jobs (begins {task = t} scheduled queue queue' l h) =
    begins-IsRegular spec profiles t task' jobs scheduled queue queue'
      (Life-IsRegular spec profiles t jobs l) h
Life-IsRegular spec profiles task' _ (releases {task = t} {jobs = js} event queue queue' job l h) =
    releases-IsRegular spec profiles t task' js event queue queue' job
      (Life-IsRegular spec profiles t js l) h

-- Whatever happens to a task, the jobs that it has released are numbered from one, the job after `n`
-- others is released `n` periods after the offset with the task's deadline and priority and the
-- demand of its own resource, and none is released beyond the horizon.
pub Life-AreJobsFrom :
    (spec : TaskSpec) (profiles : List TaskResourceProfile) (task : Task) (jobs : List JobState)
    → Life spec profiles task jobs
    → AreJobsFrom spec profiles task.stop_tick 0 jobs
Life-AreJobsFrom spec profiles task jobs l = (Life-IsRegular spec profiles task jobs l).numbered

-- A started task has no pending release only if its next release would lie beyond the horizon: no
-- release in the horizon is left out.
pub Life-complete :
    (spec : TaskSpec) (profiles : List TaskResourceProfile) (task : Task) (jobs : List JobState)
    → Life spec profiles task jobs
    → task.initialized ≡ true
    → task.release_pending ≡ false
    → task.stop_tick < spec.offset + length jobs * spec.period
Life-complete spec profiles task jobs l i p =
    let v = Life-IsRegular spec profiles task jobs l in
    rw (← v.same_spec) (Stage-done task (length jobs) v.stage i p)
