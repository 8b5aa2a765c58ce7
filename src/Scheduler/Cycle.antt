-- ===== src/Scheduler/Cycle.antt =====
-- Scheduler::schedule over all resources.
use cpssim.Base.{
  ℕ, ◌≡◌, refl, sym, ◌⊎◌, inl, inr, none, some, List, [], ◌∷◌, ok, Result-cases, arith, All,
}
use cpssim.Specs.{PreemptionMode}
use cpssim.Queue.{EventQueue}
use cpssim.Runtime.{JobState, JobIdentity}
use cpssim.Scheduler.{
  ResourceSchedulingState, Scheduler, Turn, schedule_resource, schedule_states, schedule,
}
use cpssim.Scheduler.Dispatch.{
  Started, Served, nothing_ready, goes_on, starts, replaces, schedule_resource-Served,
  Started-running_job, start_job-running_job,
}

-- A resource is not idle while a job waits for it.
abbrev pub IsBusy : ResourceSchedulingState → Type 0
IsBusy state = (state.ready_jobs ≡ []) ⊎ (id : JobIdentity) × (state.resource.running_job ≡ some id)

Served-IsBusy :
    (scheduler : Scheduler) (turn : Turn) (tick : ℕ) (turn' : Turn)
    → Served scheduler turn tick turn'
    → IsBusy turn'.state
Served-IsBusy scheduler turn tick turn' (nothing_ready e p) = inl (rw p e)
Served-IsBusy scheduler turn tick turn' (goes_on current busy p why) = inr (current, rw p busy)
Served-IsBusy scheduler turn tick turn' (starts selected free s st) =
    inr (selected, Started-running_job turn selected tick turn' st)
Served-IsBusy scheduler turn tick turn' (replaces selected current old new mode busy s f g won r) =
    inr (selected, Started-running_job r.between selected tick turn' r.started)

-- The first turn of the loop, and the rest of it.
pub record Step (scheduler : Scheduler) (tick : ℕ) (jobs : List JobState)
    (state : ResourceSchedulingState) (states : List ResourceSchedulingState) (queue : EventQueue)
    (jobs' : List JobState) (states' : List ResourceSchedulingState) (queue' : EventQueue)
    : Type 0 where
  pub turn : Turn
  pub rest : List ResourceSchedulingState
  pub call :
      schedule_resource scheduler (record { jobs = jobs; state = state; queue = queue }) tick
      ≡ ok turn
  pub served : Served scheduler (record { jobs = jobs; state = state; queue = queue }) tick turn
  pub later : schedule_states scheduler tick turn.jobs states turn.queue ≡ ok (jobs', rest, queue')
  pub states_eq : states' ≡ turn.state ∷ rest

pub schedule_states-Step :
    (scheduler : Scheduler) (tick : ℕ) (jobs : List JobState) (state : ResourceSchedulingState)
    (states : List ResourceSchedulingState) (queue : EventQueue) (jobs' : List JobState)
    (states' : List ResourceSchedulingState) (queue' : EventQueue)
    → schedule_states scheduler tick jobs (state ∷ states) queue ≡ ok (jobs', states', queue')
    → Step scheduler tick jobs state states queue jobs' states' queue'
unfolding schedule_states
schedule_states-Step scheduler tick jobs state states queue jobs' states' queue' h =
    elim (Result-cases (schedule_resource scheduler start tick)) [
      | inr (error, f) ↦ ground (arith, f)
      | inl (turn, f) ↦
          elim (Result-cases (schedule_states scheduler tick turn.jobs states turn.queue)) [
            | inr (error, g) ↦ ground (arith, f, g)
            | inl ((js, rest, q), g) ↦ record {
              turn = turn;
              rest = rest;
              call = f;
              served = schedule_resource-Served scheduler start tick turn f;
              later = ground (arith, f, g);
              states_eq = ground (arith, f, g);
            }
          ]
    ]
  where
    start : Turn
    start = record { jobs = jobs; state = state; queue = queue }

schedule_states-IsBusy :
    (scheduler : Scheduler) (tick : ℕ) (jobs : List JobState)
    (states : List ResourceSchedulingState) (queue : EventQueue) (jobs' : List JobState)
    (states' : List ResourceSchedulingState) (queue' : EventQueue)
    → schedule_states scheduler tick jobs states queue ≡ ok (jobs', states', queue')
    → All IsBusy states'
schedule_states-IsBusy scheduler tick jobs [] queue jobs' states' queue' h =
    let p : states' ≡ [] = unfold schedule_states in ground arith in rw p tt
schedule_states-IsBusy scheduler tick jobs (state ∷ states) queue jobs' states' queue' h =
    let s = schedule_states-Step scheduler tick jobs state states queue jobs' states' queue' h in
    rw s.states_eq (
      Served-IsBusy scheduler _ tick s.turn s.served,
      schedule_states-IsBusy scheduler tick s.turn.jobs states s.turn.queue jobs' s.rest queue'
          s.later,
    )

pub schedule_result :
    (scheduler : Scheduler) (tick : ℕ) (queue : EventQueue) (scheduler' : Scheduler)
    (queue' : EventQueue)
    → schedule scheduler tick queue ≡ ok (scheduler', queue')
    → schedule_states scheduler tick scheduler.jobs scheduler.resource_states queue
      ≡ ok (scheduler'.jobs, scheduler'.resource_states, queue')
unfolding schedule
schedule_result scheduler tick queue scheduler' queue' h =
    elim (Result-cases
      (schedule_states scheduler tick scheduler.jobs scheduler.resource_states queue)) [
        | inr (error, f) ↦ ground (arith, f)
        | inl ((jobs, states, q), f) ↦ ground (arith, f)
      ]

-- Work conservation: after a scheduling cycle, under every policy and preemption mode, no resource
-- is idle while a job waits for it.
pub schedule-IsBusy :
    (scheduler : Scheduler) (tick : ℕ) (queue : EventQueue) (scheduler' : Scheduler)
    (queue' : EventQueue)
    → schedule scheduler tick queue ≡ ok (scheduler', queue')
    → All IsBusy scheduler'.resource_states
schedule-IsBusy scheduler tick queue scheduler' queue' h =
    schedule_states-IsBusy scheduler tick scheduler.jobs scheduler.resource_states queue
      scheduler'.jobs scheduler'.resource_states queue'
      (schedule_result scheduler tick queue scheduler' queue' h)

-- The relation holds between the entries of the two lists at each position, and these are as long
-- as one another.
abbrev pub Each :
    (ResourceSchedulingState → ResourceSchedulingState → Type 0)
    → List ResourceSchedulingState
    → List ResourceSchedulingState
    → Type 0
Each R [] [] = Unit {0}
Each R (x ∷ xs) (y ∷ ys) = R x y × Each R xs ys
Each R [] (y ∷ ys) = ⊥
Each R (x ∷ xs) [] = ⊥

-- A resource that runs a job is left as it is.
abbrev pub IsKept : ResourceSchedulingState → ResourceSchedulingState → Type 0
IsKept before after =
    (before.resource.spec ≡ after.resource.spec)
    × ((before.resource.running_job ≡ none) ⊎ (before ≡ after))

Started-spec :
    (turn : Turn) (id : JobIdentity) (tick : ℕ) (turn' : Turn)
    → Started turn id tick turn'
    → turn.state.resource.spec ≡ turn'.state.resource.spec
Started-spec turn id tick turn' s =
    sym (start_job-running_job turn.state.resource s.job tick turn'.state.resource s.job' s.start).2

Served-IsKept :
    (scheduler : Scheduler) (turn : Turn) (tick : ℕ) (turn' : Turn)
    → scheduler.scheduling.preemption_mode ≡ PreemptionMode.non_preemptive
    → Served scheduler turn tick turn'
    → IsKept turn.state turn'.state
Served-IsKept scheduler turn tick turn' m (nothing_ready e p) = rw p (refl, inr refl)
Served-IsKept scheduler turn tick turn' m (goes_on current busy p why) = rw p (refl, inr refl)
Served-IsKept scheduler turn tick turn' m (starts selected free s st) =
    (Started-spec turn selected tick turn' st, inl free)
Served-IsKept scheduler turn tick turn' m
      (replaces selected current old new mode busy s f g won r) =
    ground (arith, m)

schedule_states-IsKept :
    (scheduler : Scheduler) (tick : ℕ) (jobs : List JobState)
    (states : List ResourceSchedulingState) (queue : EventQueue) (jobs' : List JobState)
    (states' : List ResourceSchedulingState) (queue' : EventQueue)
    → scheduler.scheduling.preemption_mode ≡ PreemptionMode.non_preemptive
    → schedule_states scheduler tick jobs states queue ≡ ok (jobs', states', queue')
    → Each IsKept states states'
schedule_states-IsKept scheduler tick jobs [] queue jobs' states' queue' m h =
    let p : states' ≡ [] = unfold schedule_states in ground arith in rw p tt
schedule_states-IsKept scheduler tick jobs (state ∷ states) queue jobs' states' queue' m h =
    let s = schedule_states-Step scheduler tick jobs state states queue jobs' states' queue' h in
    rw s.states_eq (
      Served-IsKept scheduler _ tick s.turn m s.served,
      schedule_states-IsKept scheduler tick s.turn.jobs states s.turn.queue jobs' s.rest queue' m
          s.later,
    )

-- Without preemption a scheduling cycle changes nothing at a resource that runs a job, and keeps
-- the resources and their order.
pub schedule-IsKept :
    (scheduler : Scheduler) (tick : ℕ) (queue : EventQueue) (scheduler' : Scheduler)
    (queue' : EventQueue)
    → scheduler.scheduling.preemption_mode ≡ PreemptionMode.non_preemptive
    → schedule scheduler tick queue ≡ ok (scheduler', queue')
    → Each IsKept scheduler.resource_states scheduler'.resource_states
schedule-IsKept scheduler tick queue scheduler' queue' m h =
    schedule_states-IsKept scheduler tick scheduler.jobs scheduler.resource_states queue
      scheduler'.jobs scheduler'.resource_states queue' m
      (schedule_result scheduler tick queue scheduler' queue' h)
