-- ===== src/Scheduler/Overlap.antt =====
-- The unfinished jobs of a task in the store of the scheduler, over its operations.
use cpssim.Base.{
  ℕ, ◌+◌, ◌≤◌, ◌≡◌, refl, sym, subst, ◌⊎◌, inl, inr, Bool, true, false, List, [], ◌∷◌, ◌++◌, ok,
  Result-cases, arith, ◌==◌, ==_iff, if◌then◌else◌, Bool-cases,
}
use cpssim.Queue.{EventQueue}
use cpssim.Runtime.{
  JobState, JobIdentity, Resource, identity, same_identity, start_job, preempt_job,
  charge_execution, mark_deadline_missed,
}
use cpssim.Policy.{find_job}
use cpssim.Policy.Selection.{find_job-identity}
use cpssim.Scheduler.{
  ResourceSchedulingState, Scheduler, Turn, is_active_of, has_active_job, resource_state,
  schedule_deadline, submit, update_job, schedule_states, schedule,
}
use cpssim.Scheduler.Cycle.{schedule_states-Step, schedule_result}
use cpssim.Scheduler.Dispatch.{Started, Served, nothing_ready, goes_on, starts, replaces}

-- How many unfinished jobs of the task the store has.
abbrev pub active_count : ℕ → List JobState → ℕ
active_count task [] = 0
active_count task (job ∷ jobs) = (if is_active_of task job then 1 else 0) + active_count task jobs

active_count-append :
    (task : ℕ) (xs : List JobState) (job : JobState)
    → active_count task (xs ++ job ∷ [])
      ≡ active_count task xs + (if is_active_of task job then 1 else 0)
active_count-append task [] job = omega arith
active_count-append task (x ∷ xs) job = omega (arith, active_count-append task xs job)

-- No unfinished job of the task is in the store.
has_active_job_none :
    (task : ℕ) (jobs : List JobState)
    → has_active_job jobs task ≡ false
    → active_count task jobs ≡ 0
has_active_job_none task [] h = refl
has_active_job_none task (job ∷ jobs) h = elim (Bool-cases (is_active_of task job)) [
  | inl e ↦ ground (arith, e)
  | inr e ↦ ground (arith, e, has_active_job_none task jobs (ground (arith, e)))
]

-- The same job, not finished before if it is not finished after.
pub record Follows (before after : JobState) : Type 0 where
  pub same : identity after ≡ identity before
  pub not_revived :
      (task : ℕ) → (is_active_of task after ≡ false) ⊎ (is_active_of task before ≡ true)

pub update_job-active_count :
    (jobs : List JobState) (before after : JobState) (task : ℕ)
    → find_job jobs (identity before) ≡ ok before
    → Follows before after
    → active_count task (update_job after jobs) ≤ active_count task jobs
unfolding find_job update_job
update_job-active_count [] before after task f c = omega arith
update_job-active_count (job ∷ jobs) before after task f c =
    elim (Bool-cases (same_identity (identity job) (identity before))) [
      | inl here ↦
          let p : job ≡ before = ground (arith, here) in
          let q : same_identity (identity job) (identity after) ≡ true =
            subst (λ i. same_identity (identity job) i ≡ true) (sym c.same) here in
          rw q (elim (c.not_revived task) [
            | inl e ↦ rw e (omega arith)
            | inr e ↦ rw (p, e) (ground arith)
          ])
      | inr there ↦
          let q : same_identity (identity job) (identity after) ≡ false =
            subst (λ i. same_identity (identity job) i ≡ false) (sym c.same) there in
          rw q (
            omega (arith, update_job-active_count jobs before after task (ground (arith, there)) c))
    ]

start_job-Follows :
    (r : Resource) (j : JobState) (t : ℕ) (r' : Resource) (j' : JobState)
    → start_job r j t ≡ ok (r', j')
    → Follows j j'
unfolding start_job
start_job-Follows r j t r' j' h = record { same = ground arith; not_revived = λ task. ground arith }

pub charge_execution-Follows :
    (r : Resource) (j : JobState) (t : ℕ) (done : Bool) (r' : Resource) (j' : JobState)
    → charge_execution r j t ≡ ok (done, r', j')
    → Follows j j'
unfolding charge_execution
charge_execution-Follows r j t done r' j' h = record {
  same = ground arith;
  not_revived = λ task. ground arith;
}

preempt_job-Follows :
    (r : Resource) (j : JobState) (t : ℕ) (r' : Resource) (j' : JobState)
    → preempt_job r j t ≡ ok (r', j')
    → Follows j j'
unfolding preempt_job charge_execution
preempt_job-Follows r j t r' j' h = record {
  same = ground arith;
  not_revived = λ task. ground arith;
}

pub mark_deadline_missed-Follows :
    (j : JobState) (t : ℕ) (missed : Bool) (j' : JobState)
    → mark_deadline_missed j t ≡ ok (missed, j')
    → Follows j j'
unfolding mark_deadline_missed
mark_deadline_missed-Follows j t missed j' h = record {
  same = ground arith;
  not_revived = λ task. ground arith;
}

pub find_job_self :
    (jobs : List JobState) (id : JobIdentity) (job : JobState)
    → find_job jobs id ≡ ok job
    → find_job jobs (identity job) ≡ ok job
find_job_self jobs id job f =
    subst (λ i. find_job jobs i ≡ ok job) (sym (find_job-identity jobs id job f)) f

Started-active_count :
    (turn : Turn) (id : JobIdentity) (tick : ℕ) (turn' : Turn) (task : ℕ)
    → Started turn id tick turn'
    → active_count task turn'.jobs ≤ active_count task turn.jobs
Started-active_count turn id tick turn' task s = rw s.jobs_eq (
    update_job-active_count turn.jobs s.job s.job' task (find_job_self turn.jobs id s.job s.stored)
      (start_job-Follows turn.state.resource s.job tick turn'.state.resource s.job' s.start))

Served-active_count :
    (scheduler : Scheduler) (turn : Turn) (tick : ℕ) (turn' : Turn) (task : ℕ)
    → Served scheduler turn tick turn'
    → active_count task turn'.jobs ≤ active_count task turn.jobs
Served-active_count scheduler turn tick turn' task (nothing_ready e p) = rw p (omega arith)
Served-active_count scheduler turn tick turn' task (goes_on current busy p why) = rw p (omega arith)
Served-active_count scheduler turn tick turn' task (starts selected free s st) =
    Started-active_count turn selected tick turn' task st
Served-active_count scheduler turn tick turn' task
      (replaces selected current old new mode busy s f g won r) =
    let later = Started-active_count r.between selected tick turn' task r.started in
    let now =
      update_job-active_count turn.jobs old r.preempted task (find_job_self turn.jobs current old f)
        (preempt_job-Follows turn.state.resource old tick r.resource r.preempted r.preemption) in
    omega (arith, rw r.between_jobs at later, now)

schedule_states-active_count :
    (scheduler : Scheduler) (tick : ℕ) (jobs : List JobState)
    (states : List ResourceSchedulingState) (queue : EventQueue) (jobs' : List JobState)
    (states' : List ResourceSchedulingState) (queue' : EventQueue) (task : ℕ)
    → schedule_states scheduler tick jobs states queue ≡ ok (jobs', states', queue')
    → active_count task jobs' ≤ active_count task jobs
schedule_states-active_count scheduler tick jobs [] queue jobs' states' queue' task h =
    let p : jobs' ≡ jobs = unfold schedule_states in ground arith in rw p (omega arith)
schedule_states-active_count scheduler tick jobs (state ∷ states) queue jobs' states' queue' task
      h =
    let s = schedule_states-Step scheduler tick jobs state states queue jobs' states' queue' h in
    omega (
      arith,
      Served-active_count scheduler _ tick s.turn task s.served,
      schedule_states-active_count scheduler tick s.turn.jobs states s.turn.queue jobs' s.rest
          queue' task s.later,
    )

pub schedule-active_count :
    (scheduler : Scheduler) (tick : ℕ) (queue : EventQueue) (scheduler' : Scheduler)
    (queue' : EventQueue) (task : ℕ)
    → schedule scheduler tick queue ≡ ok (scheduler', queue')
    → active_count task scheduler'.jobs ≤ active_count task scheduler.jobs
schedule-active_count scheduler tick queue scheduler' queue' task h =
    schedule_states-active_count scheduler tick scheduler.jobs scheduler.resource_states queue
      scheduler'.jobs scheduler'.resource_states queue' task
      (schedule_result scheduler tick queue scheduler' queue' h)

-- An accepted submission appends the job, of whose task no job was unfinished.
submit-jobs :
    (scheduler : Scheduler) (job : JobState) (queue : EventQueue) (scheduler' : Scheduler)
    (queue' : EventQueue)
    → submit scheduler job queue ≡ ok (scheduler', queue')
    → (scheduler'.jobs ≡ scheduler.jobs ++ job ∷ [])
      × (has_active_job scheduler.jobs job.task_id ≡ false)
submit-jobs scheduler job queue scheduler' queue' h =
    elim (Result-cases (resource_state scheduler.resource_states job.resource_id)) [
      | inr (error, f) ↦ unfold submit in ground (arith, f)
      | inl (state, f) ↦ elim (Result-cases (schedule_deadline scheduler.stop_tick job queue)) [
        | inr (error, g) ↦ unfold submit in ground (arith, f, g)
        | inl (q, g) ↦
            (unfold submit in ground (arith, f, g), unfold submit in ground (arith, f, g))
      ]
    ]

pub submit-active_count :
    (scheduler : Scheduler) (job : JobState) (queue : EventQueue) (scheduler' : Scheduler)
    (queue' : EventQueue) (task : ℕ)
    → active_count task scheduler.jobs ≤ 1
    → submit scheduler job queue ≡ ok (scheduler', queue')
    → active_count task scheduler'.jobs ≤ 1
submit-active_count scheduler job queue scheduler' queue' task le h =
    let (p, n) = submit-jobs scheduler job queue scheduler' queue' h in
    let z = has_active_job_none job.task_id scheduler.jobs n in
    let a = active_count-append task scheduler.jobs job in
    rw p (elim (Bool-cases (job.task_id == task)) [
      | inl e ↦ ground (arith, a, z, (==_iff _ _).0 e)
      | inr e ↦ ground (arith, a, e)
    ])
