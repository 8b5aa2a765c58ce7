-- ===== src/Release.antt =====
-- src/cpssim/kernel/periodic_release.hpp and periodic_release.cpp: runtime tasks that generate one job
-- and one successor release at a time.
pub mod Sequence
pub mod Stage
pub mod Tasks
pub mod Life
pub mod Queued
mod Examples
use cpssim.Base.{
  ℕ, zero, suc, ◌+◌, ◌-◌, Bool, true, false, not, ◌&&◌, ◌||◌, Option, none, some, List, [], ◌∷◌,
  Result, ok, err, invalid_argument, logic_error, overflow_error, ◌>>=◌, ◌>>◌, throw_if, ℤ, pos,
  nonnegative, positive, ltb, leb, ◌==◌, if◌then◌else◌, has_value, holds, is_empty, sort,
}
use cpssim.Time.{tick_max}
use cpssim.Event.{Event, EventPhase, EventType, EventEntityRefs, is_release_phase, is_job_release}
use cpssim.Queue.{EventQueue, schedule, u64_max}
use cpssim.Specs.{TaskSpec, TaskResourceProfile}
use cpssim.Runtime.{JobState, JobTiming, new_job}
use cpssim.Config.{ExperimentConfig, any}

pub record Task : Type 0 where
  pub spec : TaskSpec
  pub resource_profiles : List TaskResourceProfile
  pub stop_tick : ℕ
  pub scheduled_tick : ℕ
  pub scheduled_job_id : ℕ
  pub assigned_resource : Option ℕ
  pub pending_resource : Option ℕ
  pub initialized : Bool
  pub release_pending : Bool

-- The validation loop of the constructor, with the profiles before the current one.
unfoldable pub check_profiles :
    TaskSpec → List TaskResourceProfile → List TaskResourceProfile → Result (Unit {0})
check_profiles spec seen [] = ok tt
check_profiles spec seen (profile ∷ profiles) = do
  throw_if (not (profile.task_id == spec.id)) invalid_argument
  time ← positive profile.execution_time invalid_argument
  throw_if (ltb spec.deadline time) invalid_argument
  throw_if (any (λ other. profile.resource_id == other.resource_id) seen) invalid_argument
  check_profiles spec (profile ∷ seen) profiles

-- The constructor of Task.
unfoldable pub new_task : TaskSpec → List TaskResourceProfile → ℤ → Result Task
unfolding check_profiles
new_task spec profiles stop_tick = do
  stop ← nonnegative stop_tick invalid_argument
  throw_if (is_empty profiles) invalid_argument
  check_profiles spec [] profiles
  ok (record {
    spec = spec;
    resource_profiles = profiles;
    stop_tick = stop;
    scheduled_tick = spec.offset;
    scheduled_job_id = 1;
    assigned_resource = none;
    pending_resource = none;
    initialized = false;
    release_pending = false;
  })

-- The loop of execution_time_on.
unfoldable pub time_in : List TaskResourceProfile → ℕ → Result ℤ
time_in [] resource_id = err invalid_argument
time_in (profile ∷ profiles) resource_id =
    if profile.resource_id == resource_id
    then ok profile.execution_time
    else time_in profiles resource_id

abbrev pub execution_time_on : Task → ℕ → Result ℤ
execution_time_on task resource_id = time_in task.resource_profiles resource_id

unfoldable pub assign_resource : Task → ℕ → Result Task
unfolding time_in
assign_resource task resource_id = do
  execution_time ← execution_time_on task resource_id
  ok (record task { assigned_resource = some resource_id })

abbrev pub release_entities : ℕ → ℕ → ℕ → EventEntityRefs
release_entities task_id job_id resource_id = record {
  task_id = some task_id;
  job_id = some job_id;
  resource_id = some resource_id;
  message_id = none;
  vehicle_id = none;
}

abbrev pub assigned : Option ℕ → Result ℕ
assigned none = err logic_error
assigned (some resource_id) = ok resource_id

unfoldable pub schedule_current_release : Task → EventQueue → Result (Task × EventQueue)
schedule_current_release task queue = do
  resource_id ← assigned task.assigned_resource
  (sequence, queue') ←
      schedule queue (pos task.scheduled_tick) EventPhase.job_release EventType.job_release
        (release_entities task.spec.id task.scheduled_job_id resource_id) none
  ok (record task { pending_resource = some resource_id; release_pending = true }, queue')

unfoldable pub schedule_initial_release : Task → EventQueue → Result (Bool × Task × EventQueue)
unfolding schedule_current_release
schedule_initial_release task queue = do
  throw_if task.initialized logic_error
  if ltb task.stop_tick task.scheduled_tick
      then ok (false, record task { initialized = true }, queue)
      else (do
        (task', queue') ← schedule_current_release (record task { initialized = true }) queue
        ok (true, task', queue'))

-- The event is the one pending release of the task.
abbrev pub matches_release : Task → Event → Bool
matches_release task event =
    task.release_pending
    && event.tick == task.scheduled_tick
    && holds event.entities.task_id task.spec.id
    && holds event.entities.job_id task.scheduled_job_id

-- The resource that the pending release captured, if the event names it.
abbrev pub captured : Option ℕ → Option ℕ → Result ℕ
captured (some pending) named = if holds named pending then ok pending else err logic_error
captured none named = err logic_error

-- The statements of release after the job is built: the successor, if it is in the horizon. The
-- source compares the period with the ticks left, which are not negative for a pending release.
unfoldable pub advance_release : Task → EventQueue → Result (Task × EventQueue)
advance_release task queue =
    if ltb task.stop_tick (task.scheduled_tick + task.spec.period)
    then ok (record task { release_pending = false; pending_resource = none }, queue)
    else (do
      throw_if (task.scheduled_job_id == u64_max) overflow_error
      next_resource ← assigned task.assigned_resource
      (sequence, queue') ←
          schedule queue (pos (task.scheduled_tick + task.spec.period)) EventPhase.job_release
            EventType.job_release
            (release_entities task.spec.id (task.scheduled_job_id + 1) next_resource) none
      ok (
        record task {
          scheduled_tick = task.scheduled_tick + task.spec.period;
          scheduled_job_id = task.scheduled_job_id + 1;
          pending_resource = some next_resource;
          release_pending = true;
        },
        queue',
      ))

-- The job of the pending release on a resource.
unfoldable pub released_job : Task → ℕ → Result JobState
unfolding time_in new_job
released_job task resource_id = do
  execution_time ← execution_time_on task resource_id
  new_job task.scheduled_job_id task.spec.id resource_id (pos task.spec.priority) (record {
    release = pos task.scheduled_tick;
    absolute_deadline = pos (task.scheduled_tick + task.spec.deadline);
    execution = execution_time;
  })

unfoldable pub release : Task → Event → EventQueue → Result (JobState × Task × EventQueue)
unfolding released_job advance_release
release task event queue = do
  throw_if (not task.initialized) logic_error
  throw_if (not (is_release_phase event.phase) || not (is_job_release event.type)) logic_error
  throw_if
      (not (has_value event.entities.task_id)
        || not (has_value event.entities.job_id)
        || not (has_value event.entities.resource_id))
      logic_error
  throw_if (not (matches_release task event)) logic_error
  resource_id ← captured task.pending_resource event.entities.resource_id
  throw_if (ltb (tick_max - task.scheduled_tick) task.spec.deadline) overflow_error
  job ← released_job task resource_id
  (task', queue') ← advance_release task queue
  ok (job, task', queue')

pub record PeriodicReleaseModel : Type 0 where
  pub tasks : List Task
  pub stop_tick : ℕ
  pub initialized : Bool

abbrev pub profiles_of : ℕ → List TaskResourceProfile → List TaskResourceProfile
profiles_of id [] = []
profiles_of id (profile ∷ profiles) =
    if profile.task_id == id then profile ∷ profiles_of id profiles else profiles_of id profiles

unfoldable pub new_tasks : List TaskSpec → List TaskResourceProfile → ℤ → Result (List Task)
unfolding new_task
new_tasks [] profiles stop_tick = ok []
new_tasks (spec ∷ specs) profiles stop_tick = do
  task ← new_task spec (profiles_of spec.id profiles) stop_tick
  tasks ← new_tasks specs profiles stop_tick
  ok (task ∷ tasks)

-- The order in which the constructor sorts the tasks.
abbrev pub task_before : Task → Task → Bool
task_before left right =
    if left.spec.offset == right.spec.offset
    then if left.spec.priority == right.spec.priority
      then ltb left.spec.id right.spec.id
      else ltb left.spec.priority right.spec.priority
    else ltb left.spec.offset right.spec.offset

unfoldable pub new_release_model : ExperimentConfig → ℤ → Result PeriodicReleaseModel
unfolding new_tasks sort
new_release_model config stop_tick = do
  stop ← nonnegative stop_tick invalid_argument
  tasks ← new_tasks config.tasks config.task_resource_profiles stop_tick
  ok (record { tasks = sort task_before tasks; stop_tick = stop; initialized = false })

-- task_for, and task where only a view is wanted.
unfoldable pub task_for : List Task → ℕ → Result Task
task_for [] id = err logic_error
task_for (task ∷ tasks) id = if task.spec.id == id then ok task else task_for tasks id

-- The store after a change of the task that `task_for` refers to.
unfoldable pub update_task : Task → List Task → List Task
update_task changed [] = []
update_task changed (task ∷ tasks) =
    if task.spec.id == changed.spec.id then changed ∷ tasks else task ∷ update_task changed tasks

unfoldable pub assign_task : PeriodicReleaseModel → ℕ → ℕ → Result PeriodicReleaseModel
unfolding task_for update_task assign_resource
assign_task model task_id resource_id = do
  task ← task_for model.tasks task_id
  task' ← assign_resource task resource_id
  ok (record model { tasks = update_task task' model.tasks })

-- The task releases in the horizon and has no resource.
abbrev pub lacks_assignment : ℕ → Task → Bool
lacks_assignment stop_tick task =
    leb task.spec.offset stop_tick && not (has_value task.assigned_resource)

-- The loop that inserts the first releases, with the number of insertions.
unfoldable pub schedule_first_releases :
    List Task → EventQueue → Result (ℕ × List Task × EventQueue)
unfolding schedule_initial_release
schedule_first_releases [] queue = ok (0, [], queue)
schedule_first_releases (task ∷ tasks) queue = do
  (scheduled, task', queue') ← schedule_initial_release task queue
  (count, tasks', queue'') ← schedule_first_releases tasks queue'
  ok ((if scheduled then count + 1 else count), task' ∷ tasks', queue'')

unfoldable pub schedule_initial_releases :
    PeriodicReleaseModel → EventQueue → Result (ℕ × PeriodicReleaseModel × EventQueue)
unfolding schedule_first_releases
schedule_initial_releases model queue = do
  throw_if model.initialized logic_error
  throw_if (any (lacks_assignment model.stop_tick) model.tasks) logic_error
  (count, tasks, queue') ← schedule_first_releases model.tasks queue
  ok (count, record model { tasks = tasks; initialized = true }, queue')

-- PeriodicReleaseModel::release
unfoldable pub release_job :
    PeriodicReleaseModel
    → Event
    → EventQueue
    → Result (JobState × PeriodicReleaseModel × EventQueue)
unfolding task_for update_task release
release_job model event queue = do
  throw_if (not model.initialized) logic_error
  task_id ← assigned event.entities.task_id
  task ← task_for model.tasks task_id
  (job, task', queue') ← release task event queue
  ok (job, record model { tasks = update_task task' model.tasks }, queue')
