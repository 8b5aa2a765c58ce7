-- ===== src/Scheduler.antt =====
-- src/cpssim/kernel/scheduler.hpp and scheduler.cpp: jobs, ready queues and dispatch over the resources
-- of one scheduling domain. A reference into a store is the entry found, and a change through it
-- replaces that entry. Scheduler::observe only passes an observation on to the policy.
pub mod Dispatch
pub mod Cycle
pub mod Priority
pub mod Overlap
pub mod Completion
pub mod Store
pub mod Waiting
pub mod Managed
pub mod Changes
pub mod Turns
pub mod Consistency
pub mod Entries
pub mod Submission
pub mod Beginning
pub mod History
pub mod Agreement
pub mod Service
mod Examples
use cpssim.Base.{
  ℕ, zero, suc, ◌+◌, ◌-◌, Bool, true, false, not, ◌&&◌, ◌||◌, Option, none, some, List, [], ◌∷◌,
  ◌++◌, Result, ok, err, invalid_argument, logic_error, ◌>>=◌, ◌>>◌, throw_if, ℤ, pos, nonnegative,
  ltb, leb, ◌==◌, if◌then◌else◌, has_value, holds, is_empty, sort,
}
use cpssim.Event.{
  Event, EventPhase, EventType, EventEntityRefs, is_execution_completion, is_job_finish,
  is_deadline_check, is_deadline_miss,
}
use cpssim.Queue
use cpssim.Queue.{EventQueue}
use cpssim.Specs.{ResourceSpec, SchedulingSpec, PreemptionMode}
use cpssim.Runtime.{
  JobState, JobIdentity, JobLifecycle, Resource, identity, same_identity, is_ready, is_completed,
  is_cancelled, new_resource, start_job, charge_execution, preempt_job, mark_deadline_missed, runs,
}
use cpssim.Policy.{SchedulingPolicy, find_job}
use cpssim.Config.{any}
use cpssim.Network.{job_of, required}

pub record ResourceSchedulingState : Type 0 where
  pub resource : Resource
  pub ready_jobs : List JobIdentity

pub record Scheduler : Type 0 where
  pub scheduling : SchedulingSpec
  pub policy : SchedulingPolicy
  pub stop_tick : ℕ
  pub resource_states : List ResourceSchedulingState
  pub jobs : List JobState

abbrev pub job_entities : JobState → EventEntityRefs
job_entities job = record {
  task_id = some job.task_id;
  job_id = some job.id;
  resource_id = some job.resource_id;
  message_id = none;
  vehicle_id = none;
}

abbrev pub event_job_identity : Event → Result JobIdentity
event_job_identity event = job_of event.entities.task_id event.entities.job_id

abbrev pub new_state : ResourceSpec → ResourceSchedulingState
new_state spec = record { resource = new_resource spec; ready_jobs = [] }

abbrev pub new_states : List ResourceSpec → List ResourceSchedulingState
new_states [] = []
new_states (spec ∷ specs) = new_state spec ∷ new_states specs

abbrev pub state_before : ResourceSchedulingState → ResourceSchedulingState → Bool
state_before left right = ltb left.resource.spec.id right.resource.spec.id

-- The loop that compares each state with the one before it.
unfoldable pub check_adjacent :
    ResourceSchedulingState → List ResourceSchedulingState → Result (Unit {0})
check_adjacent previous [] = ok tt
check_adjacent previous (state ∷ states) = do
  throw_if (previous.resource.spec.id == state.resource.spec.id) invalid_argument
  check_adjacent state states

unfoldable pub check_unique : List ResourceSchedulingState → Result (Unit {0})
unfolding check_adjacent
check_unique [] = ok tt
check_unique (state ∷ states) = check_adjacent state states

unfoldable pub new_scheduler :
    List ResourceSpec → SchedulingSpec → SchedulingPolicy → ℤ → Result Scheduler
unfolding check_unique sort
new_scheduler resources scheduling policy stop_tick = do
  stop ← nonnegative stop_tick invalid_argument
  throw_if (is_empty resources) invalid_argument
  let states = sort state_before (new_states resources)
  check_unique states
  ok (record {
    scheduling = scheduling;
    policy = policy;
    stop_tick = stop;
    resource_states = states;
    jobs = [];
  })

unfoldable pub resource_state : List ResourceSchedulingState → ℕ → Result ResourceSchedulingState
resource_state [] id = err logic_error
resource_state (state ∷ states) id =
    if state.resource.spec.id == id then ok state else resource_state states id

-- The stores after a change of the state, or of the job, that a reference stands for.
unfoldable pub update_state :
    ResourceSchedulingState → List ResourceSchedulingState → List ResourceSchedulingState
update_state changed [] = []
update_state changed (state ∷ states) =
    if state.resource.spec.id == changed.resource.spec.id
    then changed ∷ states
    else state ∷ update_state changed states

unfoldable pub update_job : JobState → List JobState → List JobState
update_job changed [] = []
update_job changed (job ∷ jobs) =
    if same_identity (identity job) (identity changed)
    then changed ∷ jobs
    else job ∷ update_job changed jobs

-- The test of has_active_job on one stored job.
abbrev pub is_active_of : ℕ → JobState → Bool
is_active_of task_id job =
    job.task_id == task_id && not (is_completed job.lifecycle) && not (is_cancelled job.lifecycle)

abbrev pub has_active_job : List JobState → ℕ → Bool
has_active_job jobs task_id = any (is_active_of task_id) jobs

-- The deadline check of a submitted job, if it is in the horizon.
unfoldable pub schedule_deadline : ℕ → JobState → EventQueue → Result EventQueue
schedule_deadline stop_tick job queue =
    if leb job.absolute_deadline stop_tick
    then (do
      (sequence, queue') ←
          Queue.schedule queue (pos job.absolute_deadline) EventPhase.deadline_check
            EventType.deadline_miss (job_entities job) none
      ok queue')
    else ok queue

unfoldable pub submit : Scheduler → JobState → EventQueue → Result (Scheduler × EventQueue)
unfolding resource_state update_state schedule_deadline
submit scheduler job queue = do
  throw_if (not (is_ready job.lifecycle) || job.has_started) logic_error
  throw_if (ltb scheduler.stop_tick job.release_tick) invalid_argument
  throw_if (has_active_job scheduler.jobs job.task_id) logic_error
  throw_if (any (λ stored. same_identity (identity stored) (identity job)) scheduler.jobs)
      logic_error
  state ← resource_state scheduler.resource_states job.resource_id
  queue' ← schedule_deadline scheduler.stop_tick job queue
  ok (
    record scheduler {
      resource_states =
          update_state (record state { ready_jobs = state.ready_jobs ++ identity job ∷ [] })
            scheduler.resource_states;
      jobs = scheduler.jobs ++ job ∷ [];
    },
    queue',
  )

-- The completion is the one that the resource expects.
abbrev pub is_expected : Resource → JobIdentity → ℕ → Bool
is_expected resource id tick =
    runs resource.running_job id && holds resource.expected_completion_tick tick

unfoldable pub process_completion : Scheduler → Event → Result (Bool × Scheduler)
unfolding resource_state update_state update_job find_job charge_execution
process_completion scheduler event = do
  throw_if (not (is_execution_completion event.phase)) logic_error
  throw_if (not (is_job_finish event.type)) logic_error
  resource_id ← required event.entities.resource_id
  id ← event_job_identity event
  state ← resource_state scheduler.resource_states resource_id
  if not (is_expected state.resource id event.tick) then ok (false, scheduler) else (do
    job ← find_job scheduler.jobs id
    (finished, resource, job') ← charge_execution state.resource job event.tick
    throw_if (not finished) logic_error
    ok (
      true,
      record scheduler {
        resource_states =
            update_state (record state { resource = resource }) scheduler.resource_states;
        jobs = update_job job' scheduler.jobs;
      },
    ))

unfoldable pub process_deadline : Scheduler → Event → Result (Bool × Scheduler)
unfolding update_job find_job mark_deadline_missed
process_deadline scheduler event = do
  throw_if (not (is_deadline_check event.phase)) logic_error
  throw_if (not (is_deadline_miss event.type)) logic_error
  resource_id ← required event.entities.resource_id
  id ← event_job_identity event
  job ← find_job scheduler.jobs id
  throw_if (not (job.resource_id == resource_id)) logic_error
  (missed, job') ← mark_deadline_missed job event.tick
  ok (missed, record scheduler { jobs = update_job job' scheduler.jobs })

-- What one resource's turn of the scheduling cycle reads and changes.
pub record Turn : Type 0 where
  pub jobs : List JobState
  pub state : ResourceSchedulingState
  pub queue : EventQueue

-- std::find over the ready queue, and its erase at the position found.
abbrev pub is_member : JobIdentity → List JobIdentity → Bool
is_member id ids = any (λ ready. same_identity ready id) ids

unfoldable pub erase_identity : JobIdentity → List JobIdentity → List JobIdentity
erase_identity id [] = []
erase_identity id (ready ∷ rest) =
    if same_identity ready id then rest else ready ∷ erase_identity id rest

abbrev pub start_type : JobState → EventType
start_type job = if job.has_started then EventType.job_resume else EventType.job_start

-- The completion candidate of a started job, if it is in the horizon.
unfoldable pub schedule_completion : ℕ → Option ℕ → JobState → EventQueue → Result EventQueue
schedule_completion stop_tick none job queue = ok queue
schedule_completion stop_tick (some completion_tick) job queue =
    if leb completion_tick stop_tick
    then (do
      (sequence, queue') ←
          Queue.schedule queue (pos completion_tick) EventPhase.execution_completion
            EventType.job_finish (job_entities job) none
      ok queue')
    else ok queue

-- A job that the policy selected belongs to the resource and is ready.
abbrev pub is_startable : Resource → JobState → Bool
is_startable resource job = job.resource_id == resource.spec.id && is_ready job.lifecycle

unfoldable pub start_selected_job : ℕ → Turn → JobIdentity → ℕ → Result Turn
unfolding erase_identity find_job update_job start_job schedule_completion
start_selected_job stop_tick turn id tick = do
  throw_if (not (is_member id turn.state.ready_jobs)) logic_error
  job ← find_job turn.jobs id
  throw_if (not (is_startable turn.state.resource job)) logic_error
  (resource, job') ← start_job turn.state.resource job tick
  (sequence, queue) ←
      Queue.schedule turn.queue (pos tick) EventPhase.scheduling (start_type job)
        (job_entities job') none
  queue' ← schedule_completion stop_tick resource.expected_completion_tick job' queue
  ok (record {
    jobs = update_job job' turn.jobs;
    state = record { resource = resource; ready_jobs = erase_identity id turn.state.ready_jobs };
    queue = queue';
  })

-- The running job is replaced: it is preempted, waits again, and the selected job is started.
unfoldable pub replace_running_job : ℕ → Turn → JobState → JobIdentity → ℕ → Result Turn
unfolding preempt_job update_job start_selected_job
replace_running_job stop_tick turn running_job selected tick = do
  (resource, job') ← preempt_job turn.state.resource running_job tick
  (sequence, queue) ←
      Queue.schedule turn.queue (pos tick) EventPhase.scheduling EventType.job_preempt
        (job_entities running_job) none
  start_selected_job stop_tick
      (record {
        jobs = update_job job' turn.jobs;
        state = record {
          resource = resource;
          ready_jobs = turn.state.ready_jobs ++ identity running_job ∷ [];
        };
        queue = queue;
      })
      selected tick

abbrev pub is_non_preemptive : PreemptionMode → Bool
is_non_preemptive PreemptionMode.non_preemptive = true
is_non_preemptive PreemptionMode.preemptive = false

-- The end of a turn: the selected job starts on a free resource or may replace the running job.
unfoldable pub dispatch :
    Scheduler → Turn → Option JobIdentity → JobIdentity → JobState → ℕ → Result Turn
unfolding start_selected_job replace_running_job find_job
dispatch scheduler turn none selected selected_job tick =
    start_selected_job scheduler.stop_tick turn selected tick
dispatch scheduler turn (some current) selected selected_job tick = do
  running_job ← find_job turn.jobs current
  if scheduler.policy.should_preempt running_job selected_job
      then replace_running_job scheduler.stop_tick turn running_job selected tick
      else ok turn

-- The body of the loop of schedule.
unfoldable pub schedule_resource : Scheduler → Turn → ℕ → Result Turn
unfolding dispatch find_job
schedule_resource scheduler turn tick =
    if is_empty turn.state.ready_jobs
    then ok turn
    else if has_value turn.state.resource.running_job
        && is_non_preemptive scheduler.scheduling.preemption_mode
    then ok turn
    else (do
      selected ← scheduler.policy.select turn.state.resource turn.state.ready_jobs turn.jobs
      throw_if (not (is_member selected turn.state.ready_jobs)) logic_error
      selected_job ← find_job turn.jobs selected
      throw_if (not (is_startable turn.state.resource selected_job)) logic_error
      dispatch scheduler turn turn.state.resource.running_job selected selected_job tick)

-- The loop over the resources in the order of their identifiers.
unfoldable pub schedule_states :
    Scheduler
    → ℕ
    → List JobState
    → List ResourceSchedulingState
    → EventQueue
    → Result (List JobState × List ResourceSchedulingState × EventQueue)
unfolding schedule_resource
schedule_states scheduler tick jobs [] queue = ok (jobs, [], queue)
schedule_states scheduler tick jobs (state ∷ states) queue = do
  turn ← schedule_resource scheduler (record { jobs = jobs; state = state; queue = queue }) tick
  (jobs', states', queue') ← schedule_states scheduler tick turn.jobs states turn.queue
  ok (jobs', turn.state ∷ states', queue')

-- Scheduler::schedule
unfoldable pub schedule : Scheduler → ℕ → EventQueue → Result (Scheduler × EventQueue)
unfolding schedule_states
schedule scheduler tick queue = do
  (jobs, states, queue') ←
      schedule_states scheduler tick scheduler.jobs scheduler.resource_states queue
  ok (record scheduler { resource_states = states; jobs = jobs }, queue')
