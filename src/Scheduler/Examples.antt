-- ===== src/Scheduler/Examples.antt =====
-- The theorems on the scheduler at concrete inputs.
use cpssim.Base.{ℕ, ◌≤◌, ◌≡◌, refl, none, some, true, false, [], ◌∷◌, ok, pos, All}
use cpssim.Event.{Event, EventPhase, EventType}
use cpssim.Specs.{ResourceSpec, PreemptionMode}
use cpssim.Runtime.{JobState, JobLifecycle, Resource, new_resource, identity}
use cpssim.Queue.{EventQueue, new_event_queue}
use cpssim.Queue
use cpssim.Policy.{find_job, select, comes_before, should_preempt, fixed_priority_policy}
use cpssim.Scheduler.{
  Scheduler, Turn, new_scheduler, submit, schedule_resource, schedule, job_entities,
}
use cpssim.Scheduler.Cycle.{IsBusy, Each, IsKept, schedule-IsBusy, schedule-IsKept}
use cpssim.Scheduler.Consistency.{IsConsistent}
use cpssim.Scheduler.Service.{YieldsTo, History-IsConsistent, schedule-RunsFirst}
use cpssim.Scheduler.History.{History, begins, submits, schedules, History-active_count}
use cpssim.Scheduler.Overlap.{active_count}

abbrev cpu : ResourceSpec
cpu = record { id = 1; name = "cpu" }

-- A job with a demand of 4 and its deadline beyond the horizon.
abbrev ready_job : ℕ → ℕ → ℕ → JobState
ready_job task priority release = record {
  id = 1;
  task_id = task;
  resource_id = 1;
  priority = priority;
  release_tick = release;
  absolute_deadline = 90;
  remaining_execution = 4;
  lifecycle = JobLifecycle.ready;
  has_started = false;
  first_start_tick = none;
  finish_tick = none;
  preemption_count = 0;
  deadline_missed = false;
}

abbrev low : JobState
low = ready_job 1 5 0

abbrev high : JobState
high = ready_job 2 3 2

abbrev low_running : JobState
low_running = record low {
  lifecycle = JobLifecycle.running;
  has_started = true;
  first_start_tick = some 0;
}

abbrev empty_scheduler : PreemptionMode → Scheduler
empty_scheduler mode = record {
  scheduling = record { preemption_mode = mode };
  policy = fixed_priority_policy;
  stop_tick = 50;
  resource_states = record { resource = new_resource cpu; ready_jobs = [] } ∷ [];
  jobs = [];
}

abbrev with_low : PreemptionMode → Scheduler
with_low mode = record (empty_scheduler mode) {
  resource_states = record { resource = new_resource cpu; ready_jobs = identity low ∷ [] } ∷ [];
  jobs = low ∷ [];
}

-- The resource runs the low job since 0.
abbrev cpu_running : Resource
cpu_running = record (new_resource cpu) {
  running_job = some (identity low);
  running_since = some 0;
  expected_completion_tick = some 4;
}

abbrev low_runs : PreemptionMode → Scheduler
low_runs mode = record (empty_scheduler mode) {
  resource_states = record { resource = cpu_running; ready_jobs = [] } ∷ [];
  jobs = low_running ∷ [];
}

abbrev event_at : ℕ → EventPhase → ℕ → EventType → JobState → Event
event_at tick phase sequence type job = record {
  tick = tick;
  phase = phase;
  sequence = sequence;
  type = type;
  entities = job_entities job;
  cause_sequence = none;
}

abbrev completion_of_low : Event
completion_of_low = event_at 4 EventPhase.execution_completion 1 EventType.job_finish low

abbrev started_queue : EventQueue
started_queue = record new_event_queue {
  events = event_at 0 EventPhase.scheduling 0 EventType.job_start low ∷ completion_of_low ∷ [];
  next_sequence = 2;
}

begin :
    new_scheduler
      (cpu ∷ [])
      (record { preemption_mode = PreemptionMode.preemptive })
      fixed_priority_policy
      (pos 50)
    ≡ ok (empty_scheduler PreemptionMode.preemptive)
unfolding new_scheduler
begin = refl

submit-low :
    submit (empty_scheduler PreemptionMode.preemptive) low new_event_queue
    ≡ ok (with_low PreemptionMode.preemptive, new_event_queue)
unfolding submit
submit-low = refl

start_low :
    schedule (with_low PreemptionMode.preemptive) 0 new_event_queue
    ≡ ok (low_runs PreemptionMode.preemptive, started_queue)
unfolding schedule select comes_before Queue.schedule
start_low = refl

schedule-IsBusy_example : All IsBusy (low_runs PreemptionMode.preemptive).resource_states
schedule-IsBusy_example =
    schedule-IsBusy (with_low PreemptionMode.preemptive) 0 new_event_queue
      (low_runs PreemptionMode.preemptive) started_queue start_low

history : History (low_runs PreemptionMode.preemptive)
history =
    schedules 0 new_event_queue started_queue
      (submits low new_event_queue new_event_queue
        (begins (cpu ∷ []) (record { preemption_mode = PreemptionMode.preemptive })
          fixed_priority_policy (pos 50) begin)
        submit-low)
      start_low

History-active_count_example : active_count 1 (low_running ∷ []) ≤ 1
History-active_count_example = History-active_count (low_runs PreemptionMode.preemptive) 1 history

-- The high job waits while the low one runs.
abbrev both_jobs : PreemptionMode → Scheduler
both_jobs mode = record (empty_scheduler mode) {
  resource_states = record { resource = cpu_running; ready_jobs = identity high ∷ [] } ∷ [];
  jobs = low_running ∷ high ∷ [];
}

keep_low :
    schedule (both_jobs PreemptionMode.non_preemptive) 2 started_queue
    ≡ ok (both_jobs PreemptionMode.non_preemptive, started_queue)
unfolding schedule
keep_low = refl

schedule-IsKept_example :
    Each IsKept
      (both_jobs PreemptionMode.non_preemptive).resource_states
      (both_jobs PreemptionMode.non_preemptive).resource_states
schedule-IsKept_example =
    schedule-IsKept (both_jobs PreemptionMode.non_preemptive) 2 started_queue
      (both_jobs PreemptionMode.non_preemptive) started_queue refl keep_low

abbrev turn : Turn
turn = record {
  jobs = low_running ∷ high ∷ [];
  state = record { resource = cpu_running; ready_jobs = identity high ∷ [] };
  queue = record new_event_queue { next_sequence = 2 };
}

-- The high job replaces the low one at 2.
abbrev replaced : Turn
replaced = record {
  jobs =
      record low_running {
        remaining_execution = 2;
        lifecycle = JobLifecycle.ready;
        preemption_count = 1;
      }
      ∷ record high {
        lifecycle = JobLifecycle.running;
        has_started = true;
        first_start_tick = some 2;
      }
      ∷ [];
  state = record {
    resource = record (new_resource cpu) {
      running_job = some (identity high);
      running_since = some 2;
      expected_completion_tick = some 6;
      busy_ticks = 2;
    };
    ready_jobs = identity low ∷ [];
  };
  queue = record new_event_queue {
    events =
        event_at 2 EventPhase.scheduling 2 EventType.job_preempt low
        ∷ event_at 2 EventPhase.scheduling 3 EventType.job_start high
        ∷ event_at 6 EventPhase.execution_completion 4 EventType.job_finish high
        ∷ [];
    next_sequence = 5;
  };
}

replace_low : schedule_resource (both_jobs PreemptionMode.preemptive) turn 2 ≡ ok replaced
unfolding schedule_resource select comes_before should_preempt Queue.schedule
replace_low = refl

submit-high :
    submit (low_runs PreemptionMode.preemptive) high turn.queue
    ≡ ok (both_jobs PreemptionMode.preemptive, turn.queue)
unfolding submit
submit-high = refl

abbrev high_runs : Scheduler
high_runs = record (empty_scheduler PreemptionMode.preemptive) {
  resource_states = replaced.state ∷ [];
  jobs = replaced.jobs;
}

start_high :
    schedule (both_jobs PreemptionMode.preemptive) 2 turn.queue ≡ ok (high_runs, replaced.queue)
unfolding schedule select comes_before should_preempt Queue.schedule
start_high = refl

both_submitted : History (both_jobs PreemptionMode.preemptive)
both_submitted = submits high turn.queue turn.queue history submit-high

History-IsConsistent_example : IsConsistent replaced.jobs (replaced.state ∷ [])
History-IsConsistent_example =
    History-IsConsistent high_runs (schedules 2 turn.queue replaced.queue both_submitted start_high)

low_waits :
    find_job replaced.jobs (identity low)
    ≡ ok (record low_running {
      remaining_execution = 2;
      lifecycle = JobLifecycle.ready;
      preemption_count = 1;
    })
unfolding find_job
low_waits = refl

schedule-RunsFirst_example : YieldsTo high_runs (record low_running {
  remaining_execution = 2;
  lifecycle = JobLifecycle.ready;
  preemption_count = 1;
})
schedule-RunsFirst_example =
    schedule-RunsFirst (both_jobs PreemptionMode.preemptive) 2 turn.queue high_runs replaced.queue
      (identity low)
      (record low_running {
        remaining_execution = 2;
        lifecycle = JobLifecycle.ready;
        preemption_count = 1;
      })
      both_submitted refl refl start_high low_waits refl

abbrev completed_scheduler : Scheduler
completed_scheduler = record (empty_scheduler PreemptionMode.preemptive) {
  resource_states =
      record { resource = record (new_resource cpu) { busy_ticks = 4 }; ready_jobs = [] } ∷ [];
  jobs =
      record low_running {
        remaining_execution = 0;
        lifecycle = JobLifecycle.completed;
        finish_tick = some 4;
      }
      ∷ [];
}
