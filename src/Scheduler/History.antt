-- ===== src/Scheduler/History.antt =====
-- The schedulers that sequences of calls lead to.
use cpssim.Base.{ℕ, ◌≤◌, ◌≡◌, inl, inr, Bool, true, List, [], ok, ℤ, arith}
use cpssim.Event.{Event}
use cpssim.Specs.{ResourceSpec, SchedulingSpec}
use cpssim.Queue.{EventQueue}
use cpssim.Runtime.{JobState}
use cpssim.Policy.{SchedulingPolicy}
use cpssim.Scheduler.{
  Scheduler, new_scheduler, submit, process_completion, process_deadline, schedule,
}
use cpssim.Scheduler.Overlap.{
  active_count, submit-active_count, schedule-active_count, find_job_self, update_job-active_count,
  charge_execution-Follows, mark_deadline_missed-Follows,
}
use cpssim.Scheduler.Completion.{process_completion-cases, process_deadline-Checked}

-- The schedulers that accepted calls lead to, with any event queue at each call.
pub data History : Scheduler → Type 0 where
  begins :
      {scheduler : Scheduler} (resources : List ResourceSpec) (scheduling : SchedulingSpec)
      (policy : SchedulingPolicy) (stop_tick : ℤ)
      → new_scheduler resources scheduling policy stop_tick ≡ ok scheduler
      → History scheduler
  submits :
      {scheduler scheduler' : Scheduler} (job : JobState) (queue queue' : EventQueue)
      → History scheduler
      → submit scheduler job queue ≡ ok (scheduler', queue')
      → History scheduler'
  completes :
      {scheduler scheduler' : Scheduler} (event : Event) (done : Bool)
      → History scheduler
      → process_completion scheduler event ≡ ok (done, scheduler')
      → History scheduler'
  checks :
      {scheduler scheduler' : Scheduler} (event : Event) (missed : Bool)
      → History scheduler
      → process_deadline scheduler event ≡ ok (missed, scheduler')
      → History scheduler'
  schedules :
      {scheduler scheduler' : Scheduler} (tick : ℕ) (queue queue' : EventQueue)
      → History scheduler
      → schedule scheduler tick queue ≡ ok (scheduler', queue')
      → History scheduler'

Completed-active_count :
    (scheduler : Scheduler) (event : Event) (done : Bool) (scheduler' : Scheduler) (task : ℕ)
    → process_completion scheduler event ≡ ok (done, scheduler')
    → active_count task scheduler'.jobs ≤ active_count task scheduler.jobs
Completed-active_count scheduler event done scheduler' task h =
    let (id, r, b, a, cases) = process_completion-cases scheduler event done scheduler' h in
    elim cases [
      | inr (d, x) ↦ rw x.result (omega arith)
      | inl (d, x) ↦ rw x.result (
          update_job-active_count scheduler.jobs x.job x.job' task
            (find_job_self scheduler.jobs id x.job x.stored)
            (charge_execution-Follows x.state.resource x.job event.tick true x.resource x.job'
              x.charge))
    ]

Checked-active_count :
    (scheduler : Scheduler) (event : Event) (missed : Bool) (scheduler' : Scheduler) (task : ℕ)
    → process_deadline scheduler event ≡ ok (missed, scheduler')
    → active_count task scheduler'.jobs ≤ active_count task scheduler.jobs
Checked-active_count scheduler event missed scheduler' task h =
    let x = process_deadline-Checked scheduler event missed scheduler' h in
    rw x.result (
      update_job-active_count scheduler.jobs x.job x.job' task
        (find_job_self scheduler.jobs x.id x.job x.stored)
        (mark_deadline_missed-Follows x.job event.tick missed x.job' x.mark))

pub new_scheduler-jobs :
    (resources : List ResourceSpec) (scheduling : SchedulingSpec) (policy : SchedulingPolicy)
    (stop_tick : ℤ) (scheduler : Scheduler)
    → new_scheduler resources scheduling policy stop_tick ≡ ok scheduler
    → scheduler.jobs ≡ []
unfolding new_scheduler
new_scheduler-jobs resources scheduling policy stop_tick scheduler h = ground arith

-- Whatever is asked of a scheduler, no task ever has two unfinished jobs.
pub History-active_count :
    (scheduler : Scheduler) (task : ℕ) → History scheduler → active_count task scheduler.jobs ≤ 1
History-active_count scheduler task (begins resources scheduling policy stop_tick h) =
    rw (new_scheduler-jobs resources scheduling policy stop_tick scheduler h) (omega arith)
History-active_count scheduler' task (submits {scheduler = s} job queue queue' y h) =
    submit-active_count s job queue scheduler' queue' task (History-active_count s task y) h
History-active_count scheduler' task (completes {scheduler = s} event done y h) =
    omega
      (arith, History-active_count s task y, Completed-active_count s event done scheduler' task h)
History-active_count scheduler' task (checks {scheduler = s} event missed y h) =
    omega
      (arith, History-active_count s task y, Checked-active_count s event missed scheduler' task h)
History-active_count scheduler' task (schedules {scheduler = s} tick queue queue' y h) = omega (
  arith,
  History-active_count s task y,
  schedule-active_count s tick queue scheduler' queue' task h,
)
