-- ===== src/Scheduler/Completion.antt =====
-- What the scheduler does with a completion candidate and with a deadline check.
use cpssim.Base.{
  ℕ, ◌≡◌, ◌⊎◌, inl, inr, Bool, true, false, some, ok, Result-cases, arith, Bool-cases, Option-cases,
}
use cpssim.Event.{Event}
use cpssim.Runtime.{JobState, JobIdentity, Resource, charge_execution, mark_deadline_missed}
use cpssim.Policy.{find_job}
use cpssim.Scheduler.{
  ResourceSchedulingState, Scheduler, resource_state, update_state, update_job, process_completion,
  process_deadline, is_expected, event_job_identity,
}

-- What an accepted completion did: its job was charged to the end and both entries replaced.
pub record Completed (scheduler : Scheduler) (event : Event) (id : JobIdentity) (r : ℕ)
    (scheduler' : Scheduler) : Type 0 where
  pub state : ResourceSchedulingState
  pub located : resource_state scheduler.resource_states r ≡ ok state
  pub expected : is_expected state.resource id event.tick ≡ true
  pub job : JobState
  pub stored : find_job scheduler.jobs id ≡ ok job
  pub resource : Resource
  pub job' : JobState
  pub charge : charge_execution state.resource job event.tick ≡ ok (true, resource, job')
  pub result : scheduler' ≡ record scheduler {
    resource_states = update_state (record state { resource = resource }) scheduler.resource_states;
    jobs = update_job job' scheduler.jobs;
  }

-- What a candidate that is out of date did: nothing.
pub record Stale (scheduler : Scheduler) (event : Event) (id : JobIdentity) (r : ℕ)
    (scheduler' : Scheduler) : Type 0 where
  pub state : ResourceSchedulingState
  pub located : resource_state scheduler.resource_states r ≡ ok state
  pub unexpected : is_expected state.resource id event.tick ≡ false
  pub result : scheduler' ≡ scheduler

process_completion-located :
    (scheduler : Scheduler) (event : Event) (id : JobIdentity) (r : ℕ)
    (state : ResourceSchedulingState) (done : Bool) (scheduler' : Scheduler)
    → event.entities.resource_id ≡ some r
    → event_job_identity event ≡ ok id
    → resource_state scheduler.resource_states r ≡ ok state
    → process_completion scheduler event ≡ ok (done, scheduler')
    → (done ≡ true) × Completed scheduler event id r scheduler'
      ⊎ (done ≡ false) × Stale scheduler event id r scheduler'
process_completion-located scheduler event id r state done scheduler' a b c h =
    elim (Bool-cases (is_expected state.resource id event.tick)) [
      | inr e ↦ inr (
        unfold process_completion in ground (arith, a, b, c, e),
        record {
          state = state;
          located = c;
          unexpected = e;
          result = unfold process_completion in ground (arith, a, b, c, e);
        },
      )
      | inl e ↦ elim (Result-cases (find_job scheduler.jobs id)) [
        | inr (error, f) ↦ unfold process_completion in ground (arith, a, b, c, e, f)
        | inl (job, f) ↦ elim (Result-cases (charge_execution state.resource job event.tick)) [
          | inr (error, g) ↦ unfold process_completion in ground (arith, a, b, c, e, f, g)
          | inl ((finished, resource, job'), g) ↦ inl (
            unfold process_completion in ground (arith, a, b, c, e, f, g),
            record {
              state = state;
              located = c;
              expected = e;
              job = job;
              stored = f;
              resource = resource;
              job' = job';
              charge = unfold process_completion in ground (arith, a, b, c, e, f, g);
              result = unfold process_completion in ground (arith, a, b, c, e, f, g);
            },
          )
        ]
      ]
    ]

pub process_completion-cases :
    (scheduler : Scheduler) (event : Event) (done : Bool) (scheduler' : Scheduler)
    → process_completion scheduler event ≡ ok (done, scheduler')
    → (id : JobIdentity) × (r : ℕ) × (event_job_identity event ≡ ok id)
      × (event.entities.resource_id ≡ some r)
      × ((done ≡ true) × Completed scheduler event id r scheduler'
          ⊎ (done ≡ false) × Stale scheduler event id r scheduler')
process_completion-cases scheduler event done scheduler' h =
    elim (Option-cases event.entities.resource_id) [
      | inl a ↦ unfold process_completion in ground (arith, a)
      | inr (r, a) ↦ elim (Result-cases (event_job_identity event)) [
        | inr (error, b) ↦ unfold process_completion in ground (arith, a, b)
        | inl (id, b) ↦ elim (Result-cases (resource_state scheduler.resource_states r)) [
          | inr (error, c) ↦ unfold process_completion in ground (arith, a, b, c)
          | inl (state, c) ↦ (
            id,
            r,
            b,
            a,
            process_completion-located scheduler event id r state done scheduler' a b c h,
          )
        ]
      ]
    ]

-- What an accepted deadline check did: the job's mark, and nothing else.
pub record Checked (scheduler : Scheduler) (event : Event) (missed : Bool) (scheduler' : Scheduler)
    : Type 0 where
  pub id : JobIdentity
  pub job : JobState
  pub stored : find_job scheduler.jobs id ≡ ok job
  pub job' : JobState
  pub mark : mark_deadline_missed job event.tick ≡ ok (missed, job')
  pub result : scheduler' ≡ record scheduler { jobs = update_job job' scheduler.jobs }

pub process_deadline-Checked :
    (scheduler : Scheduler) (event : Event) (missed : Bool) (scheduler' : Scheduler)
    → process_deadline scheduler event ≡ ok (missed, scheduler')
    → Checked scheduler event missed scheduler'
process_deadline-Checked scheduler event missed scheduler' h =
    elim (Option-cases event.entities.resource_id) [
      | inl a ↦ unfold process_deadline in ground (arith, a)
      | inr (r, a) ↦ elim (Result-cases (event_job_identity event)) [
        | inr (error, b) ↦ unfold process_deadline in ground (arith, a, b)
        | inl (id, b) ↦ elim (Result-cases (find_job scheduler.jobs id)) [
          | inr (error, f) ↦ unfold process_deadline in ground (arith, a, b, f)
          | inl (job, f) ↦ elim (Result-cases (mark_deadline_missed job event.tick)) [
            | inr (error, g) ↦ unfold process_deadline in ground (arith, a, b, f, g)
            | inl ((m, job'), g) ↦ record {
              id = id;
              job = job;
              stored = f;
              job' = job';
              mark = unfold process_deadline in ground (arith, a, b, f, g);
              result = unfold process_deadline in ground (arith, a, b, f, g);
            }
          ]
        ]
      ]
    ]
