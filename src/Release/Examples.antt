-- ===== src/Release/Examples.antt =====
-- The theorems on the releases of a task at concrete inputs.
use cpssim.Base.{◌+◌, ◌*◌, ◌≡◌, refl, none, some, true, false, List, [], ◌∷◌, ok, pos}
use cpssim.Event.{Event, EventPhase, EventType}
use cpssim.Specs.{TaskSpec, TaskResourceProfile}
use cpssim.Runtime.{JobState, JobLifecycle}
use cpssim.Queue.{EventQueue, new_event_queue, schedule}
use cpssim.Release.{
  Task, new_task, assign_resource, schedule_initial_release, release, release_entities,
}
use cpssim.Release.Life.{Life, created, assigns, begins, releases, AreJobsFrom, Life-AreJobsFrom}
use cpssim.Release.Queued.{AddsReleaseBy, starts, Life-next_release}

abbrev control : TaskSpec
control = record { id = 3; name = "control"; period = 10; deadline = 8; offset = 2; priority = 1 }

abbrev profiles : List TaskResourceProfile
profiles = record { task_id = 3; resource_id = 1; execution_time = pos 4 } ∷ []

-- Its horizon has one release.
abbrev task : Task
task = record {
  spec = control;
  resource_profiles = profiles;
  stop_tick = 9;
  scheduled_tick = 2;
  scheduled_job_id = 1;
  assigned_resource = none;
  pending_resource = none;
  initialized = false;
  release_pending = false;
}

abbrev with_resource : Task
with_resource = record task { assigned_resource = some 1 }

abbrev with_release : Task
with_release = record with_resource {
  initialized = true;
  pending_resource = some 1;
  release_pending = true;
}

abbrev release_event : Event
release_event = record {
  tick = 2;
  phase = EventPhase.job_release;
  sequence = 0;
  type = EventType.job_release;
  entities = release_entities 3 1 1;
  cause_sequence = none;
}

abbrev waiting : EventQueue
waiting = record new_event_queue { events = release_event ∷ []; next_sequence = 1 }

abbrev popped : EventQueue
popped = record new_event_queue { next_sequence = 1 }

abbrev job : JobState
job = record {
  id = 1;
  task_id = 3;
  resource_id = 1;
  priority = 1;
  release_tick = 2;
  absolute_deadline = 10;
  remaining_execution = 4;
  lifecycle = JobLifecycle.ready;
  has_started = false;
  first_start_tick = none;
  finish_tick = none;
  preemption_count = 0;
  deadline_missed = false;
}

abbrev after_release : Task
after_release = record with_release { pending_resource = none; release_pending = false }

build : new_task control profiles (pos 9) ≡ ok task
unfolding new_task
build = refl

assign : assign_resource task 1 ≡ ok with_resource
unfolding assign_resource
assign = refl

begin : schedule_initial_release with_resource new_event_queue ≡ ok (true, with_release, waiting)
unfolding schedule_initial_release schedule
begin = refl

release_at_2 : release with_release release_event popped ≡ ok (job, after_release, popped)
unfolding release
release_at_2 = refl

life : Life control profiles after_release (job ∷ [])
life =
    releases {jobs = []} release_event popped popped job
      (begins true new_event_queue waiting (assigns 1 (created (pos 9) build) assign) begin)
      release_at_2

Life-AreJobsFrom_example : AreJobsFrom control profiles 9 0 (job ∷ [])
Life-AreJobsFrom_example = Life-AreJobsFrom control profiles after_release (job ∷ []) life

Life-next_release_example :
    AddsReleaseBy 9 control (some 1) (2 + (0 + 0) * 10) 1 new_event_queue waiting
Life-next_release_example =
    Life-next_release control profiles with_resource [] new_event_queue [] with_release waiting
      (assigns 1 (created (pos 9) build) assign) (starts true begin)
