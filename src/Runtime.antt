-- ===== src/Runtime.antt =====
-- src/cpssim/model/runtime_state.hpp and runtime_state.cpp: jobs, and the resources that run them.
-- A method that mutates its job and its resource returns both.
pub mod Execution
pub mod Accounting
mod Examples
use cpssim.Base.{
  ℕ, ◌+◌, ◌-◌, ◌%◌, ◌^◌, Bool, true, false, not, ◌&&◌, ◌||◌, Option, none, some, Result, ok, err,
  invalid_argument, logic_error, overflow_error, ◌>>=◌, ◌>>◌, throw_if, ℤ, pos, negsuc, nonnegative,
  after, positive, ltb, leb, ◌==◌, if◌then◌else◌, has_value, holds,
}
use cpssim.Time.{tick_max}
use cpssim.Specs.{ResourceSpec}

pub data JobLifecycle : Type 0 where
  ready running completed cancelled : JobLifecycle

abbrev pub is_ready : JobLifecycle → Bool
is_ready JobLifecycle.ready = true
is_ready _ = false

abbrev pub is_running : JobLifecycle → Bool
is_running JobLifecycle.running = true
is_running _ = false

abbrev pub is_completed : JobLifecycle → Bool
is_completed JobLifecycle.completed = true
is_completed _ = false

abbrev pub is_cancelled : JobLifecycle → Bool
is_cancelled JobLifecycle.cancelled = true
is_cancelled _ = false

pub record JobIdentity : Type 0 where
  pub task_id : ℕ
  pub job_id : ℕ

-- JobIdentity::operator==
abbrev pub same_identity : JobIdentity → JobIdentity → Bool
same_identity a b = a.task_id == b.task_id && a.job_id == b.job_id

pub record JobTiming : Type 0 where
  pub release : ℤ
  pub absolute_deadline : ℤ
  pub execution : ℤ

pub record JobState : Type 0 where
  pub id : ℕ
  pub task_id : ℕ
  pub resource_id : ℕ
  pub priority : ℕ
  pub release_tick : ℕ
  pub absolute_deadline : ℕ
  pub remaining_execution : ℕ
  pub lifecycle : JobLifecycle
  pub has_started : Bool
  pub first_start_tick : Option ℕ
  pub finish_tick : Option ℕ
  pub preemption_count : ℕ
  pub deadline_missed : Bool

abbrev pub identity : JobState → JobIdentity
identity job = record { task_id = job.task_id; job_id = job.id }

-- The constructor of JobState.
unfoldable pub new_job : ℕ → ℕ → ℕ → ℤ → JobTiming → Result JobState
new_job id task_id resource_id priority timing = do
  release ← nonnegative timing.release invalid_argument
  deadline ← after timing.absolute_deadline release invalid_argument
  execution ← positive timing.execution invalid_argument
  throw_if (ltb (deadline - release) execution) invalid_argument
  priority' ← nonnegative priority invalid_argument
  ok (record {
    id = id;
    task_id = task_id;
    resource_id = resource_id;
    priority = priority';
    release_tick = release;
    absolute_deadline = deadline;
    remaining_execution = execution;
    lifecycle = JobLifecycle.ready;
    has_started = false;
    first_start_tick = none;
    finish_tick = none;
    preemption_count = 0;
    deadline_missed = false;
  })

unfoldable pub mark_deadline_missed : JobState → ℕ → Result (Bool × JobState)
mark_deadline_missed job tick = do
  throw_if (not (tick == job.absolute_deadline)) invalid_argument
  if is_completed job.lifecycle then ok (false, job) else (do
    throw_if job.deadline_missed logic_error
    ok (true, record job { deadline_missed = true }))

pub record Resource : Type 0 where
  pub spec : ResourceSpec
  pub running_job : Option JobIdentity
  pub running_since : Option ℕ
  pub expected_completion_tick : Option ℕ
  pub busy_ticks : ℕ

abbrev pub resource_id_of : Resource → ℕ
resource_id_of resource = resource.spec.id

abbrev pub new_resource : ResourceSpec → Resource
new_resource spec = record {
  spec = spec;
  running_job = none;
  running_since = none;
  expected_completion_tick = none;
  busy_ticks = 0;
}

require_matching_resource : Resource → JobState → Result (Unit {0})
require_matching_resource resource job =
    throw_if (not (job.resource_id == resource.spec.id)) logic_error

-- `running_job_.has_value() && running_job_.value() == identity`
abbrev pub runs : Option JobIdentity → JobIdentity → Bool
runs none id = false
runs (some current) id = same_identity current id

-- `if (!running_since_.has_value()) throw std::logic_error`, and the value.
abbrev pub interval_start : Option ℕ → Result ℕ
interval_start none = err logic_error
interval_start (some since) = ok since

-- The last statements of start_job.
abbrev pub started_state : Resource → JobState → ℕ → Resource × JobState
started_state resource job tick = (
  record resource {
    running_job = some (identity job);
    running_since = some tick;
    expected_completion_tick = some (tick + job.remaining_execution);
  },
  record job {
    lifecycle = JobLifecycle.running;
    has_started = true;
    first_start_tick = if job.has_started then job.first_start_tick else some tick;
  },
)

unfoldable pub start_job : Resource → JobState → ℕ → Result (Resource × JobState)
unfolding require_matching_resource
start_job resource job tick = do
  require_matching_resource resource job
  throw_if (ltb tick job.release_tick) invalid_argument
  throw_if (not (is_ready job.lifecycle)) logic_error
  throw_if (has_value resource.running_job) logic_error
  throw_if (ltb (tick_max - tick) job.remaining_execution) overflow_error
  ok (started_state resource job tick)

-- The state after an accepted charge of `charged` ticks that ends at `end_tick`.
abbrev pub charged_state : Resource → JobState → ℕ → ℕ → Bool × Resource × JobState
charged_state resource job charged end_tick =
    if ltb 0 (job.remaining_execution - charged)
    then (
      false,
      record resource { running_since = some end_tick; busy_ticks = resource.busy_ticks + charged },
      record job { remaining_execution = job.remaining_execution - charged },
    )
    else (
      true,
      record resource {
        running_job = none;
        running_since = none;
        expected_completion_tick = none;
        busy_ticks = resource.busy_ticks + charged;
      },
      record job {
        remaining_execution = job.remaining_execution - charged;
        lifecycle = JobLifecycle.completed;
        finish_tick = some end_tick;
      },
    )

unfoldable pub charge_execution : Resource → JobState → ℕ → Result (Bool × Resource × JobState)
unfolding require_matching_resource
charge_execution resource job end_tick = do
  require_matching_resource resource job
  throw_if (not (is_running job.lifecycle)) logic_error
  throw_if (not (runs resource.running_job (identity job))) logic_error
  since ← interval_start resource.running_since
  throw_if (leb end_tick since) invalid_argument
  let charged = end_tick - since
  throw_if (ltb job.remaining_execution charged) logic_error
  throw_if
      (charged == job.remaining_execution && not (holds resource.expected_completion_tick end_tick))
      logic_error
  ok (charged_state resource job charged end_tick)

-- The last statements of preempt_job.
abbrev pub stopped : Resource → JobState → Resource × JobState
stopped resource job = (
  record resource { running_job = none; running_since = none; expected_completion_tick = none },
  record job {
    lifecycle = JobLifecycle.ready;
    preemption_count = (job.preemption_count + 1) % 2 ^ 64;
  },
)

unfoldable pub preempt_job : Resource → JobState → ℕ → Result (Resource × JobState)
unfolding require_matching_resource charge_execution
preempt_job resource job tick = do
  require_matching_resource resource job
  throw_if (not (is_running job.lifecycle)) logic_error
  throw_if (not (runs resource.running_job (identity job))) logic_error
  since ← interval_start resource.running_since
  throw_if (ltb tick since) invalid_argument
  let elapsed = tick - since
  throw_if (leb job.remaining_execution elapsed) logic_error
  if ltb 0 elapsed
      then (do
        (finished, resource', job') ← charge_execution resource job tick
        ok (stopped resource' job'))
      else ok (stopped resource job)

-- The part of busy_ticks_until that adds the active interval.
abbrev observed_busy : ℕ → Option ℕ → ℕ → Result ℕ
observed_busy busy none tick = ok busy
observed_busy busy (some since) tick =
    if ltb tick since then err invalid_argument else ok (busy + (tick - since))

unfoldable pub busy_ticks_until : Resource → ℤ → Result ℕ
busy_ticks_until resource observation_tick = do
  tick ← nonnegative observation_tick invalid_argument
  busy ← observed_busy resource.busy_ticks resource.running_since tick
  throw_if (ltb tick busy) logic_error
  ok busy

unfoldable pub idle_ticks_until : Resource → ℤ → Result ℕ
unfolding busy_ticks_until
idle_ticks_until resource observation_tick = do
  busy ← busy_ticks_until resource observation_tick
  tick ← nonnegative observation_tick invalid_argument
  ok (tick - busy)
