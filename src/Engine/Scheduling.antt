-- ===== src/Engine/Scheduling.antt =====
-- What a scheduling cycle puts into the queue: Scheduler::schedule.
use cpssim.Base.{
  ℕ, ◌+◌, ◌≤◌, ◌≡◌, subst, inl, inr, Bool, Option, none, some, List, [], ◌∷◌, ◌++◌, Result, ok,
  Result-cases, Bool-cases, pos, arith, leb, is_empty, has_value, ◌&&◌, ◌||◌, ◌⊎◌,
}
use cpssim.Event.{EventPhase, EventType}
use cpssim.Queue
use cpssim.Queue.{EventQueue}
use cpssim.Runtime.{JobState, JobIdentity, Resource, identity, start_job, preempt_job}
use cpssim.Policy.{find_job}
use cpssim.Scheduler.{
  ResourceSchedulingState, Scheduler, Turn, job_entities, start_type, schedule_completion,
  start_selected_job, replace_running_job, dispatch, schedule_resource, schedule_states, schedule,
  is_non_preemptive, update_job,
}
use cpssim.Engine.Timely.{IsTimely, Grown, schedule-Grown}

module _ (base : EventQueue) where
  schedule_completion-Grown :
      (tick stop : ℕ) (due : Option ℕ) (job : JobState) (queue queue' : EventQueue)
      → Grown tick base queue
      → (due ≡ none) ⊎ ((d : ℕ) × (due ≡ some d) × (tick ≤ d))
      → schedule_completion stop due job queue ≡ ok queue'
      → Grown tick base queue'
  schedule_completion-Grown tick stop none job queue queue' v d h =
      let e : queue ≡ queue' = unfold schedule_completion in ground arith in
      subst (Grown tick base) e v
  schedule_completion-Grown tick stop (some due) job queue queue' v d h =
      elim (Bool-cases (leb due stop)) [
        | inr beyond ↦
            let e : queue ≡ queue' = unfold schedule_completion in ground (arith, beyond) in
            subst (Grown tick base) e v
        | inl within ↦
            elim (Result-cases (
              Queue.schedule queue (pos due) EventPhase.execution_completion EventType.job_finish
                (job_entities job) none)) [
                  | inr (error, f) ↦ unfold schedule_completion in ground (arith, within, f)
                  | inl ((n, q), f) ↦
                      let e : q ≡ queue' =
                        unfold schedule_completion in ground (arith, within, f) in
                      subst (Grown tick base) e
                        (schedule-Grown tick queue due _ _ _ _ n q base v (ground (arith, d)) f)
                ]
      ]

  start_job-expected :
      (r : Resource) (j : JobState) (t : ℕ) (r' : Resource) (j' : JobState)
      → start_job r j t ≡ ok (r', j')
      → r'.expected_completion_tick ≡ some (t + j.remaining_execution)
  unfolding start_job
  start_job-expected r j t r' j' h = ground arith

  start_selected_job-Grown :
      (stop : ℕ) (turn : Turn) (id : JobIdentity) (tick : ℕ) (turn' : Turn)
      → Grown tick base turn.queue
      → start_selected_job stop turn id tick ≡ ok turn'
      → Grown tick base turn'.queue
  start_selected_job-Grown stop turn id tick turn' v h =
      elim (Result-cases (find_job turn.jobs id)) [
        | inr (error, f) ↦ unfold start_selected_job in ground (arith, f)
        | inl (job, f) ↦ elim (Result-cases (start_job turn.state.resource job tick)) [
          | inr (error, g) ↦ unfold start_selected_job in ground (arith, f, g)
          | inl ((r, j), g) ↦ elim (Result-cases (record_start job j)) [
            | inr (error, s) ↦ unfold start_selected_job in ground (arith, f, g, s)
            | inl ((n, q), s) ↦
                elim (Result-cases (schedule_completion stop r.expected_completion_tick j q)) [
                  | inr (error, c) ↦ unfold start_selected_job in ground (arith, f, g, s, c)
                  | inl (q', c) ↦
                      let e : q' ≡ turn'.queue =
                        unfold start_selected_job in ground (arith, f, g, s, c) in
                      let due = start_job-expected turn.state.resource job tick r j g in
                      subst (Grown tick base) e (
                        schedule_completion-Grown tick stop r.expected_completion_tick j q q'
                          (schedule-Grown tick turn.queue tick _ _ _ _ n q base v (omega arith) s)
                          (inr (tick + job.remaining_execution, due, omega arith)) c)
                ]
          ]
        ]
      ]
    where
      record_start : JobState → JobState → Result (ℕ × EventQueue)
      record_start job job' =
          Queue.schedule turn.queue (pos tick) EventPhase.scheduling (start_type job)
            (job_entities job') none

  replace_running_job-Grown :
      (stop : ℕ) (turn : Turn) (old : JobState) (new : JobIdentity) (tick : ℕ) (turn' : Turn)
      → Grown tick base turn.queue
      → replace_running_job stop turn old new tick ≡ ok turn'
      → Grown tick base turn'.queue
  replace_running_job-Grown stop turn old new tick turn' v h =
      elim (Result-cases (preempt_job turn.state.resource old tick)) [
        | inr (error, f) ↦ unfold replace_running_job in ground (arith, f)
        | inl ((r, j), f) ↦
            elim (Result-cases (
              Queue.schedule turn.queue (pos tick) EventPhase.scheduling EventType.job_preempt
                (job_entities old) none)) [
                  | inr (error, g) ↦ unfold replace_running_job in ground (arith, f, g)
                  | inl ((n, q), g) ↦
                      start_selected_job-Grown stop
                        (record {
                          jobs = update_job j turn.jobs;
                          state = record {
                            resource = r;
                            ready_jobs = turn.state.ready_jobs ++ identity old ∷ [];
                          };
                          queue = q;
                        })
                        new tick turn'
                        (schedule-Grown tick turn.queue tick _ _ _ _ n q base v (omega arith) g)
                        (unfold replace_running_job in ground (arith, f, g))
                ]
      ]

  dispatch-Grown :
      (scheduler : Scheduler) (turn : Turn) (running_job : Option JobIdentity)
      (selected : JobIdentity) (new : JobState) (tick : ℕ) (turn' : Turn)
      → Grown tick base turn.queue
      → dispatch scheduler turn running_job selected new tick ≡ ok turn'
      → Grown tick base turn'.queue
  dispatch-Grown scheduler turn none selected new tick turn' v h =
      start_selected_job-Grown scheduler.stop_tick turn selected tick turn' v
        (unfold dispatch in ground arith)
  dispatch-Grown scheduler turn (some current) selected new tick turn' v h =
      elim (Result-cases (find_job turn.jobs current)) [
        | inr (error, g) ↦ unfold dispatch in ground (arith, g)
        | inl (old, g) ↦ elim (Bool-cases (scheduler.policy.should_preempt old new)) [
          | inr lost ↦
              let e : turn ≡ turn' = unfold dispatch in ground (arith, g, lost) in
              subst (λ (t : Turn). Grown tick base t.queue) e v
          | inl won ↦
              replace_running_job-Grown scheduler.stop_tick turn old selected tick turn' v
                (unfold dispatch in ground (arith, g, won))
        ]
      ]

  schedule_resource-Grown :
      (scheduler : Scheduler) (turn : Turn) (tick : ℕ) (turn' : Turn)
      → Grown tick base turn.queue
      → schedule_resource scheduler turn tick ≡ ok turn'
      → Grown tick base turn'.queue
  schedule_resource-Grown scheduler turn tick turn' v h =
      elim (Bool-cases (is_empty turn.state.ready_jobs || kept)) [
        | inl e ↦
            let same : turn ≡ turn' = unfold schedule_resource in ground (arith, e) in
            subst (λ (t : Turn). Grown tick base t.queue) same v
        | inr n ↦
            elim (Result-cases
              (scheduler.policy.select turn.state.resource turn.state.ready_jobs turn.jobs)) [
                | inr (error, s) ↦ unfold schedule_resource in ground (arith, n, s)
                | inl (selected, s) ↦ elim (Result-cases (find_job turn.jobs selected)) [
                  | inr (error, f) ↦ unfold schedule_resource in ground (arith, n, s, f)
                  | inl (new, f) ↦
                      dispatch-Grown scheduler turn turn.state.resource.running_job selected new
                        tick turn' v (unfold schedule_resource in ground (arith, n, s, f))
                ]
              ]
      ]
    where
      kept : Bool
      kept =
          has_value turn.state.resource.running_job
          && is_non_preemptive scheduler.scheduling.preemption_mode

  schedule_states-Grown :
      (scheduler : Scheduler) (tick : ℕ) (jobs : List JobState)
      (states : List ResourceSchedulingState) (queue : EventQueue) (jobs' : List JobState)
      (states' : List ResourceSchedulingState) (queue' : EventQueue)
      → Grown tick base queue
      → schedule_states scheduler tick jobs states queue ≡ ok (jobs', states', queue')
      → Grown tick base queue'
  schedule_states-Grown scheduler tick jobs [] queue jobs' states' queue' v h =
      let e : queue ≡ queue' = unfold schedule_states in ground arith in subst (Grown tick base) e v
  schedule_states-Grown scheduler tick jobs (state ∷ states) queue jobs' states' queue' v h =
      elim (Result-cases (schedule_resource scheduler start tick)) [
        | inr (error, f) ↦ unfold schedule_states in ground (arith, f)
        | inl (turn, f) ↦
            elim (Result-cases (schedule_states scheduler tick turn.jobs states turn.queue)) [
              | inr (error, g) ↦ unfold schedule_states in ground (arith, f, g)
              | inl ((js, rest, q), g) ↦
                  let e : q ≡ queue' = unfold schedule_states in ground (arith, f, g) in
                  subst (Grown tick base) e (
                    schedule_states-Grown scheduler tick turn.jobs states turn.queue js rest q
                      (schedule_resource-Grown scheduler start tick turn v f) g)
            ]
      ]
    where
      start : Turn
      start = record { jobs = jobs; state = state; queue = queue }

  schedule_from-Grown :
      (scheduler : Scheduler) (tick : ℕ) (queue : EventQueue) (scheduler' : Scheduler)
      (queue' : EventQueue)
      → Grown tick base queue
      → schedule scheduler tick queue ≡ ok (scheduler', queue')
      → Grown tick base queue'
  schedule_from-Grown scheduler tick queue scheduler' queue' v h =
      elim (Result-cases
        (schedule_states scheduler tick scheduler.jobs scheduler.resource_states queue)) [
          | inr (error, f) ↦ unfold schedule in ground (arith, f)
          | inl ((jobs, states, q), f) ↦
              let e : q ≡ queue' = unfold schedule in ground (arith, f) in
              subst (Grown tick base) e (
                schedule_states-Grown scheduler tick scheduler.jobs scheduler.resource_states queue
                  jobs states q v f)
        ]

-- A scheduling cycle puts no event of an earlier tick into the queue, and takes none out.
pub schedule_cycle-Grown :
    (scheduler : Scheduler) (tick : ℕ) (queue : EventQueue) (scheduler' : Scheduler)
    (queue' : EventQueue)
    → IsTimely tick queue
    → schedule scheduler tick queue ≡ ok (scheduler', queue')
    → Grown tick queue queue'
schedule_cycle-Grown scheduler tick queue scheduler' queue' v h =
    schedule_from-Grown queue scheduler tick queue scheduler' queue'
      (record { timely = v; kept = λ e m. m }) h
