-- ===== src/Scheduler/Service.antt =====
-- What the scheduler promises at the end of a cycle, in terms of the store of the jobs alone.
use cpssim.Base.{
  ℕ, ◌≤◌, ◌≡◌, sym, ap, subst, ◌∙◌, inl, inr, some, List, [], ◌∷◌, ok, arith, In, All, All-In,
  All-tabulate,
}
use cpssim.Specs.{ResourceSpec, PreemptionMode}
use cpssim.Queue.{EventQueue}
use cpssim.Runtime.{JobState, JobIdentity, JobLifecycle}
use cpssim.Policy.{find_job, fixed_priority_policy}
use cpssim.Policy.Selection.{IsReady}
use cpssim.Scheduler.{
  ResourceSchedulingState, Scheduler, Turn, resource_state, schedule, schedule_states,
}
use cpssim.Scheduler.Cycle.{schedule_states-Step, schedule_result}
use cpssim.Scheduler.Completion.{process_completion-cases}
use cpssim.Scheduler.Priority.{HasNoInversion, schedule_resource-HasNoInversion}
use cpssim.Scheduler.Managed.{StoredAs, Managed, Untouched}
use cpssim.Scheduler.Turns.{Served-Kept}
use cpssim.Scheduler.Consistency.{
  id_of, AreSeparate, IsOutside, IsConsistent, outside-Managed, schedule_states-Cycled,
}
use cpssim.Scheduler.Entries.{resource_state-All}
use cpssim.Scheduler.Beginning.{new_scheduler-IsConsistent}
use cpssim.Scheduler.Agreement.{
  submit-IsConsistent, complete-IsConsistent, check-IsConsistent, schedule-IsConsistent,
}
use cpssim.Scheduler.History.{History, begins, submits, completes, checks, schedules}

-- Whatever is asked of a scheduler, each of its resources agrees with the store of the jobs: the ready
-- list has exactly the stored ready jobs of the resource, each once, the running job is the stored
-- running job of the resource, which has one at most, no two resources have the same number, and the
-- resource of each stored job is there.
pub History-IsConsistent :
    (scheduler : Scheduler)
    → History scheduler
    → IsConsistent scheduler.jobs scheduler.resource_states
History-IsConsistent scheduler (begins resources scheduling policy stop_tick h) =
    new_scheduler-IsConsistent resources scheduling policy stop_tick scheduler h
History-IsConsistent scheduler' (submits {scheduler = s} job queue queue' y h) =
    submit-IsConsistent s job queue scheduler' queue' (History-IsConsistent s y) h
History-IsConsistent scheduler' (completes {scheduler = s} event done y h) =
    let c = History-IsConsistent s y in
    let (id, r, b, a, cases) = process_completion-cases s event done scheduler' h in
    elim cases [
      | inr (d, x) ↦ rw x.result c
      | inl (d, x) ↦ complete-IsConsistent s event id r scheduler' c x
    ]
History-IsConsistent scheduler' (checks {scheduler = s} event missed y h) =
    check-IsConsistent s event missed scheduler' (History-IsConsistent s y) h
History-IsConsistent scheduler' (schedules {scheduler = s} tick queue queue' y h) =
    schedule-IsConsistent s tick queue scheduler' queue' (History-IsConsistent s y) h

-- The resource runs a stored job that no stored ready job of the resource exceeds in priority.
abbrev RunsFirst : List JobState → ResourceSchedulingState → Type 0
RunsFirst jobs state =
    (id : JobIdentity) (waiting : JobState)
    → StoredAs JobLifecycle.ready jobs (id_of state) id waiting
    → (current : JobIdentity) × (running : JobState) × (state.resource.running_job ≡ some current)
      × (running.priority ≤ waiting.priority)
      × StoredAs JobLifecycle.running jobs (id_of state) current running

HasNoInversion-RunsFirst :
    (turn : Turn)
    → Managed turn.jobs turn.state
    → HasNoInversion turn
    → RunsFirst turn.jobs turn.state
HasNoInversion-RunsFirst turn m (inl e) id waiting w =
    absurd (subst (λ ids. In id ids) e (m.listed id waiting w))
HasNoInversion-RunsFirst turn m (inr (current, n, busy, (first, f, p), a)) id waiting w =
    let (running, v) = m.running current busy in
    let (k, (job, g, q), le) = All-In _ id turn.state.ready_jobs a (m.listed id waiting w) in
    let own : running ≡ first = ground (arith, v.0, f) in
    let other : job ≡ waiting = ground (arith, g, w.0) in
    (current, running, busy, rw (own, p, ← other, q) le, v)

RunsFirst-Untouched :
    (jobs jobs' : List JobState) (state : ResourceSchedulingState)
    → Untouched (id_of state) jobs jobs'
    → RunsFirst jobs state
    → RunsFirst jobs' state
RunsFirst-Untouched jobs jobs' state u r id waiting w =
    let (current, running, busy, le, v) = r id waiting (u.came JobLifecycle.ready id waiting w) in
    (current, running, busy, le, u.stays JobLifecycle.running current running v)

Managed-IsReady :
    (jobs : List JobState) (state : ResourceSchedulingState)
    → Managed jobs state
    → All (IsReady jobs) state.ready_jobs
Managed-IsReady jobs state m =
    All-tabulate (IsReady jobs) state.ready_jobs
      (λ id k. let (job, w) = m.waits id k in record { job = job; stored = w.0; lifecycle = w.1 })

module _ (scheduler : Scheduler) (tick : ℕ) (policy : scheduler.policy ≡ fixed_priority_policy)
    (mode : scheduler.scheduling.preemption_mode ≡ PreemptionMode.preemptive) where
  schedule_states-RunsFirst :
      (jobs : List JobState) (states : List ResourceSchedulingState) (queue : EventQueue)
      (jobs' : List JobState) (states' : List ResourceSchedulingState) (queue' : EventQueue)
      → All (Managed jobs) states
      → AreSeparate states
      → schedule_states scheduler tick jobs states queue ≡ ok (jobs', states', queue')
      → All (RunsFirst jobs') states'
  schedule_states-RunsFirst jobs [] queue jobs' states' queue' m d h =
      let e : states' ≡ [] = unfold schedule_states in ground arith in rw e tt
  schedule_states-RunsFirst jobs (state ∷ states) queue jobs' states' queue' (m, ms) (n, d) h =
      let start : Turn = record { jobs = jobs; state = state; queue = queue } in
      let s = schedule_states-Step scheduler tick jobs state states queue jobs' states' queue' h in
      let k = Served-Kept scheduler start tick s.turn m s.served in
      let same : id_of s.turn.state ≡ id_of state = ap (λ (x : ResourceSpec). x.id) k.spec in
      let later = outside-Managed (id_of state) jobs s.turn.jobs states k.place n ms in
      let rest =
        schedule_states-Cycled scheduler tick s.turn.jobs states s.turn.queue jobs' s.rest queue'
          later d s.later in
      let here : IsOutside (id_of s.turn.state) states = rw same n in
      rw s.states_eq (
        RunsFirst-Untouched s.turn.jobs jobs' s.turn.state (rest.others (id_of s.turn.state) here) (
            HasNoInversion-RunsFirst s.turn k.managed (
              schedule_resource-HasNoInversion scheduler start tick s.turn policy mode
                (Managed-IsReady jobs state m) s.call)),
        schedule_states-RunsFirst s.turn.jobs states s.turn.queue jobs' s.rest queue' later d
            s.later,
      )

-- The resource of the job runs a stored running job whose priority number is at most that of the job.
abbrev pub YieldsTo : Scheduler → JobState → Type 0
YieldsTo scheduler waiting =
    (state : ResourceSchedulingState) × (current : JobIdentity) × (running : JobState)
    × (resource_state scheduler.resource_states waiting.resource_id ≡ ok state)
    × (state.resource.running_job ≡ some current)
    × (find_job scheduler.jobs current ≡ ok running)
    × (running.lifecycle ≡ JobLifecycle.running)
    × (running.resource_id ≡ waiting.resource_id)
    × (running.priority ≤ waiting.priority)

-- With preemption and the fixed-priority policy, after a scheduling cycle of a scheduler that any
-- sequence of its calls has led to, every stored ready job has its resource running a stored running
-- job of that resource whose priority number is at most its own: no priority inversion is left on any
-- resource.
pub schedule-RunsFirst :
    (scheduler : Scheduler) (tick : ℕ) (queue : EventQueue) (scheduler' : Scheduler)
    (queue' : EventQueue) (id : JobIdentity) (waiting : JobState)
    → History scheduler
    → scheduler.policy ≡ fixed_priority_policy
    → scheduler.scheduling.preemption_mode ≡ PreemptionMode.preemptive
    → schedule scheduler tick queue ≡ ok (scheduler', queue')
    → find_job scheduler'.jobs id ≡ ok waiting
    → waiting.lifecycle ≡ JobLifecycle.ready
    → YieldsTo scheduler' waiting
schedule-RunsFirst scheduler tick queue scheduler' queue' id waiting y p m h f r =
    let c = History-IsConsistent scheduler y in
    let after = schedule-IsConsistent scheduler tick queue scheduler' queue' c h in
    let (state, located) = after.placed id waiting f in
    let first =
      schedule_states-RunsFirst scheduler tick p m scheduler.jobs scheduler.resource_states queue
        scheduler'.jobs scheduler'.resource_states queue' c.managed c.separate
        (schedule_result scheduler tick queue scheduler' queue' h) in
    let (runs_first, own) =
      resource_state-All (RunsFirst scheduler'.jobs) scheduler'.resource_states waiting.resource_id
        state first located in
    let (current, running, busy, le, (g, s, o)) = runs_first id waiting (f, r, sym own) in
    (state, current, running, located, busy, g, s, o ∙ own, le)
