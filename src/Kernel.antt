-- ===== src/Kernel.antt =====
-- The events of SimulationEngine (src/cpssim/kernel/simulation_engine.cpp): how each is handled, and the
-- bodies of the loops over the events of a tick.
use cpssim.Base.{
  ℕ, Bool, true, false, not, ◌&&◌, List, [], ◌∷◌, ◌++◌, map, Result, ok, err, logic_error, ◌>>=◌, ℤ,
  ltb, ◌==◌, if◌then◌else◌, sort,
}
use cpssim.Event.{
  Event, EventPhase, is_execution_completion, is_delivery_phase, is_deadline_check,
  is_release_phase, is_scheduling, is_caused_action, is_job_release, is_job_finish,
  is_deadline_miss, is_message_send, is_message_delivery,
}
use cpssim.Queue.{EventQueue, new_event_queue, pop_next}
use cpssim.Policy.{SchedulingPolicy}
use cpssim.Config.{ExperimentConfig}
use cpssim.Network.{
  FixedDelayNetwork, new_network, required, publish, process_send, process_delivery,
}
use cpssim.Release.{PeriodicReleaseModel, new_release_model, task_for, release_job}
use cpssim.Scheduler
use cpssim.Scheduler.{Scheduler, new_scheduler, submit, process_completion, process_deadline}
use cpssim.RunPlan.{TaskAssignment}
use cpssim.Assignments.{apply_assignments}

abbrev pub is_pre_scheduling : EventPhase → Bool
is_pre_scheduling EventPhase.execution_completion = true
is_pre_scheduling EventPhase.message_delivery = true
is_pre_scheduling EventPhase.deadline_check = true
is_pre_scheduling EventPhase.job_release = true
is_pre_scheduling EventPhase.policy_update = true
is_pre_scheduling EventPhase.scheduling = false
is_pre_scheduling EventPhase.caused_action = false
is_pre_scheduling EventPhase.caused_action_late = false

-- `!queue_.empty()` and a test on `queue_.next()`.
abbrev pub front_passes : (Event → Bool) → EventQueue → Bool
front_passes test queue = elim queue.events [ [] ↦ false | event ∷ events ↦ test event ]

-- The members of SimulationEngine that the events change: without the functional model and the clock.
pub record Kernel : Type 0 where
  pub queue : EventQueue
  pub releases : PeriodicReleaseModel
  pub scheduler : Scheduler
  pub network : FixedDelayNetwork
  pub trace : List Event

abbrev pub record_event : Kernel → Event → Kernel
record_event kernel event = record kernel { trace = kernel.trace ++ event ∷ [] }

-- The branches of process_pre_scheduling_event.
unfoldable pub complete_job : Kernel → Event → Result Kernel
unfolding process_completion publish
complete_job kernel event = do
  (accepted, scheduler) ← process_completion kernel.scheduler event
  if not accepted then ok (record kernel { scheduler = scheduler }) else (do
    (network, queue) ← publish kernel.network event kernel.queue
    ok (
        record_event (record kernel { queue = queue; scheduler = scheduler; network = network })
          event))

unfoldable pub deliver_message : Kernel → Event → Result Kernel
unfolding process_delivery
deliver_message kernel event = do
  network ← process_delivery kernel.network event
  ok (record_event (record kernel { network = network }) event)

unfoldable pub check_deadline : Kernel → Event → Result Kernel
unfolding process_deadline
check_deadline kernel event = do
  (missed, scheduler) ← process_deadline kernel.scheduler event
  let kernel' = record kernel { scheduler = scheduler }
  if missed then ok (record_event kernel' event) else ok kernel'

unfoldable pub release_task : Kernel → Event → Result Kernel
unfolding release_job submit
release_task kernel event = do
  (job, releases, queue) ← release_job kernel.releases event kernel.queue
  (scheduler, queue') ← submit kernel.scheduler job queue
  ok (
      record_event (record kernel { queue = queue'; releases = releases; scheduler = scheduler })
        event)

unfoldable pub process_pre_scheduling_event : Kernel → Event → Result Kernel
unfolding complete_job deliver_message check_deadline release_task
process_pre_scheduling_event kernel event =
    if is_execution_completion event.phase && is_job_finish event.type
    then complete_job kernel event
    else if is_delivery_phase event.phase && is_message_delivery event.type
    then deliver_message kernel event
    else if is_deadline_check event.phase && is_deadline_miss event.type
    then check_deadline kernel event
    else if is_release_phase event.phase && is_job_release event.type
    then release_task kernel event
    else err logic_error

-- A release of the batch with what the comparator of process_release_batch looks up for it.
pub record KeyedRelease : Type 0 where
  pub priority : ℕ
  pub task_id : ℕ
  pub event : Event

unfoldable pub keyed_release : PeriodicReleaseModel → Event → Result KeyedRelease
unfolding task_for
keyed_release releases event = do
  task_id ← required event.entities.task_id
  task ← task_for releases.tasks task_id
  ok (record { priority = task.spec.priority; task_id = task_id; event = event })

unfoldable pub keyed_releases : PeriodicReleaseModel → List Event → Result (List KeyedRelease)
unfolding keyed_release
keyed_releases releases [] = ok []
keyed_releases releases (event ∷ events) = do
  key ← keyed_release releases event
  keys ← keyed_releases releases events
  ok (key ∷ keys)

abbrev pub release_before : KeyedRelease → KeyedRelease → Bool
release_before left right =
    if left.priority == right.priority
    then ltb left.task_id right.task_id
    else ltb left.priority right.priority

-- std::sort of the batch. It compares each of two or more entries, and nothing where there is one.
unfoldable pub sort_releases : PeriodicReleaseModel → List Event → Result (List Event)
unfolding keyed_releases sort
sort_releases releases [] = ok []
sort_releases releases (event ∷ []) = ok (event ∷ [])
sort_releases releases (first ∷ second ∷ more) = do
  keys ← keyed_releases releases (first ∷ second ∷ more)
  ok (map (λ key. key.event) (sort release_before keys))

unfoldable pub process_all : Kernel → List Event → Result Kernel
unfolding process_pre_scheduling_event
process_all kernel [] = ok kernel
process_all kernel (event ∷ events) = do
  kernel' ← process_pre_scheduling_event kernel event
  process_all kernel' events

-- The body of the loops before the scheduling.
unfoldable pub process_front : Kernel → Result Kernel
unfolding pop_next process_pre_scheduling_event
process_front kernel = do
  (event, queue) ← pop_next kernel.queue
  process_pre_scheduling_event (record kernel { queue = queue }) event

-- The body of the loop that takes the releases out of the queue.
unfoldable pub collect_release : EventQueue × List Event → Result (EventQueue × List Event)
unfolding pop_next
collect_release (queue, releases) = do
  (event, queue') ← pop_next queue
  ok (queue', releases ++ event ∷ [])

-- The statements of process_release_batch after that loop.
unfoldable pub process_releases : Kernel → List Event → Result Kernel
unfolding sort_releases process_all
process_releases kernel releases = do
  sorted ← sort_releases kernel.releases releases
  process_all kernel sorted

-- The body of the loop of process_post_scheduling_events.
unfoldable pub process_post : Kernel → Result Kernel
unfolding pop_next process_send
process_post kernel = do
  (event, queue) ← pop_next kernel.queue
  if is_scheduling event.phase
      then ok (record_event (record kernel { queue = queue }) event)
      else if is_caused_action event.phase && is_message_send event.type
      then (do
        (network, queue') ← process_send kernel.network event queue
        ok (record_event (record kernel { queue = queue'; network = network }) event))
      else err logic_error

-- Scheduler::schedule on the kernel.
unfoldable pub schedule_tick : ℕ → Kernel → Result Kernel
unfolding Scheduler.schedule
schedule_tick tick kernel = do
  (scheduler, queue) ← Scheduler.schedule kernel.scheduler tick kernel.queue
  ok (record kernel { queue = queue; scheduler = scheduler })

-- The members that the constructor of SimulationEngine builds; `allocate` is ResourceAllocator::allocate
-- of the allocator given.
unfoldable pub new_kernel :
    ExperimentConfig
    → ℤ
    → (ExperimentConfig → Result (List TaskAssignment))
    → SchedulingPolicy
    → Result Kernel
unfolding new_release_model new_scheduler new_network apply_assignments
new_kernel config stop_tick allocate policy = do
  releases ← new_release_model config stop_tick
  scheduler ← new_scheduler config.resources config.scheduling policy stop_tick
  network ← new_network config.message_routes stop_tick
  assignments ← allocate config
  releases' ← apply_assignments config assignments releases
  ok (record {
    queue = new_event_queue;
    releases = releases';
    scheduler = scheduler;
    network = network;
    trace = [];
  })
