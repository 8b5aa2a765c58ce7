-- ===== src/Scheduler/Dispatch.antt =====
-- What a scheduling cycle does to each resource.
use cpssim.Base.{
  ℕ, ◌≡◌, refl, ap, ◌∙◌, ◌⊎◌, inl, inr, Bool, true, false, ◌&&◌, none, some, List, [], ◌∷◌, ◌++◌,
  Result, ok, Result-cases, pos, arith, Bool-cases, Option-cases, has_value, is_empty,
}
use cpssim.Event.{EventPhase, EventType}
use cpssim.Queue
use cpssim.Queue.{EventQueue}
use cpssim.Runtime.{JobState, JobIdentity, Resource, identity, start_job, preempt_job}
use cpssim.Policy.{find_job}
use cpssim.Policy.Selection.{find_job-identity}
use cpssim.Scheduler.{
  Scheduler, Turn, is_member, erase_identity, update_job, start_selected_job, schedule_completion,
  replace_running_job, dispatch, schedule_resource, job_entities, start_type, is_non_preemptive,
}

-- What an accepted start of a ready job did.
pub record Started (turn : Turn) (id : JobIdentity) (tick : ℕ) (turn' : Turn) : Type 0 where
  pub job : JobState
  pub stored : find_job turn.jobs id ≡ ok job
  pub member : is_member id turn.state.ready_jobs ≡ true
  pub job' : JobState
  pub start : start_job turn.state.resource job tick ≡ ok (turn'.state.resource, job')
  pub ready_eq : turn'.state.ready_jobs ≡ erase_identity id turn.state.ready_jobs
  pub jobs_eq : turn'.jobs ≡ update_job job' turn.jobs

pub start_selected_job-Started :
    (stop : ℕ) (turn : Turn) (id : JobIdentity) (tick : ℕ) (turn' : Turn)
    → start_selected_job stop turn id tick ≡ ok turn'
    → Started turn id tick turn'
start_selected_job-Started stop turn id tick turn' h = elim (Result-cases (find_job turn.jobs id)) [
  | inr (error, f) ↦ unfold start_selected_job in ground (arith, f)
  | inl (job, f) ↦ elim (Result-cases (start_job turn.state.resource job tick)) [
    | inr (error, g) ↦ unfold start_selected_job in ground (arith, f, g)
    | inl ((r, j), g) ↦ elim (Result-cases (record_start job j)) [
      | inr (error, s) ↦ unfold start_selected_job in ground (arith, f, g, s)
      | inl ((sequence, q), s) ↦
          elim (Result-cases (schedule_completion stop r.expected_completion_tick j q)) [
            | inr (error, c) ↦ unfold start_selected_job in ground (arith, f, g, s, c)
            | inl (q', c) ↦
                let p : (is_member id turn.state.ready_jobs ≡ true)
                    × (turn' ≡ record {
                      jobs = update_job j turn.jobs;
                      state = record {
                        resource = r;
                        ready_jobs = erase_identity id turn.state.ready_jobs;
                      };
                      queue = q';
                    }) =
                  unfold start_selected_job in ground (arith, f, g, s, c) in
                record {
                  job = job;
                  stored = f;
                  member = p.0;
                  job' = j;
                  start = rw p.1 g;
                  ready_eq = rw p.1 refl;
                  jobs_eq = rw p.1 refl;
                }
          ]
    ]
  ]
]
  where
    record_start : JobState → JobState → Result (ℕ × EventQueue)
    record_start job job' =
        Queue.schedule turn.queue (pos tick) EventPhase.scheduling (start_type job)
          (job_entities job') none

pub start_job-running_job :
    (r : Resource) (j : JobState) (t : ℕ) (r' : Resource) (j' : JobState)
    → start_job r j t ≡ ok (r', j')
    → (r.running_job ≡ none) × (r'.running_job ≡ some (identity j)) × (r'.spec ≡ r.spec)
unfolding start_job
start_job-running_job r j t r' j' h = (ground arith, ground arith, ground arith)

-- The job that was started is the one that runs.
pub Started-running_job :
    (turn : Turn) (id : JobIdentity) (tick : ℕ) (turn' : Turn)
    → Started turn id tick turn'
    → turn'.state.resource.running_job ≡ some id
Started-running_job turn id tick turn' s =
    let p =
      start_job-running_job turn.state.resource s.job tick turn'.state.resource s.job' s.start in
    p.1 ∙ ap some (find_job-identity turn.jobs id s.job s.stored)

-- What an accepted replacement of the running job did: a preemption, then a start.
pub record Replaced (turn : Turn) (old : JobState) (new : JobIdentity) (tick : ℕ) (turn' : Turn)
    : Type 0 where
  pub resource : Resource
  pub preempted : JobState
  pub preemption : preempt_job turn.state.resource old tick ≡ ok (resource, preempted)
  pub between : Turn
  pub between_jobs : between.jobs ≡ update_job preempted turn.jobs
  pub between_ready : between.state.ready_jobs ≡ turn.state.ready_jobs ++ identity old ∷ []
  pub between_resource : between.state.resource ≡ resource
  pub started : Started between new tick turn'

pub replace_running_job-Replaced :
    (stop : ℕ) (turn : Turn) (old : JobState) (new : JobIdentity) (tick : ℕ) (turn' : Turn)
    → replace_running_job stop turn old new tick ≡ ok turn'
    → Replaced turn old new tick turn'
replace_running_job-Replaced stop turn old new tick turn' h =
    elim (Result-cases (preempt_job turn.state.resource old tick)) [
      | inr (error, f) ↦ unfold replace_running_job in ground (arith, f)
      | inl ((r, j), f) ↦ elim (Result-cases record_preemption) [
        | inr (error, g) ↦ unfold replace_running_job in ground (arith, f, g)
        | inl ((sequence, q), g) ↦ record {
          resource = r;
          preempted = j;
          preemption = f;
          between = record {
            jobs = update_job j turn.jobs;
            state = record {
              resource = r;
              ready_jobs = turn.state.ready_jobs ++ identity old ∷ [];
            };
            queue = q;
          };
          between_jobs = refl;
          between_ready = refl;
          between_resource = refl;
          started =
              start_selected_job-Started stop _ new tick turn'
                (unfold replace_running_job in ground (arith, f, g));
        }
      ]
    ]
  where
    record_preemption : Result (ℕ × EventQueue)
    record_preemption =
        Queue.schedule turn.queue (pos tick) EventPhase.scheduling EventType.job_preempt
          (job_entities old) none

-- How a turn of a resource can end.
pub data Served (scheduler : Scheduler) (turn : Turn) (tick : ℕ) (turn' : Turn) : Type 0 where
  nothing_ready : turn.state.ready_jobs ≡ [] → turn' ≡ turn → Served scheduler turn tick turn'
  goes_on :
      (current : JobIdentity)
      → turn.state.resource.running_job ≡ some current
      → turn' ≡ turn
      → ((is_non_preemptive scheduler.scheduling.preemption_mode ≡ true)
          ⊎ (selected : JobIdentity) × (old new : JobState) × (scheduler.policy.select
                turn.state.resource turn.state.ready_jobs turn.jobs
              ≡ ok selected)
            × (find_job turn.jobs current ≡ ok old)
            × (find_job turn.jobs selected ≡ ok new)
            × (scheduler.policy.should_preempt old new ≡ false))
      → Served scheduler turn tick turn'
  starts :
      (selected : JobIdentity)
      → turn.state.resource.running_job ≡ none
      → scheduler.policy.select turn.state.resource turn.state.ready_jobs turn.jobs ≡ ok selected
      → Started turn selected tick turn'
      → Served scheduler turn tick turn'
  replaces :
      (selected current : JobIdentity) (old new : JobState)
      → is_non_preemptive scheduler.scheduling.preemption_mode ≡ false
      → turn.state.resource.running_job ≡ some current
      → scheduler.policy.select turn.state.resource turn.state.ready_jobs turn.jobs ≡ ok selected
      → find_job turn.jobs current ≡ ok old
      → find_job turn.jobs selected ≡ ok new
      → scheduler.policy.should_preempt old new ≡ true
      → Replaced turn old selected tick turn'
      → Served scheduler turn tick turn'

dispatch-Served :
    (scheduler : Scheduler) (turn : Turn) (selected : JobIdentity) (new : JobState) (tick : ℕ)
    (turn' : Turn)
    → has_value turn.state.resource.running_job
        && is_non_preemptive scheduler.scheduling.preemption_mode
      ≡ false
    → scheduler.policy.select turn.state.resource turn.state.ready_jobs turn.jobs ≡ ok selected
    → find_job turn.jobs selected ≡ ok new
    → dispatch scheduler turn turn.state.resource.running_job selected new tick ≡ ok turn'
    → Served scheduler turn tick turn'
dispatch-Served scheduler turn selected new tick turn' mode s f h =
    elim (Option-cases turn.state.resource.running_job) [
      | inl free ↦ starts selected free s (
          start_selected_job-Started scheduler.stop_tick turn selected tick turn'
            (unfold dispatch in ground (arith, free)))
      | inr (current, busy) ↦ elim (Result-cases (find_job turn.jobs current)) [
        | inr (error, g) ↦ unfold dispatch in ground (arith, busy, g)
        | inl (old, g) ↦ elim (Bool-cases (scheduler.policy.should_preempt old new)) [
          | inr lost ↦
              goes_on current busy (unfold dispatch in ground (arith, busy, g, lost))
                (inr (selected, old, new, s, g, f, lost))
          | inl won ↦ replaces selected current old new (ground (arith, busy)) busy s g f won (
              replace_running_job-Replaced scheduler.stop_tick turn old selected tick turn'
                (unfold dispatch in ground (arith, busy, g, won)))
        ]
      ]
    ]

is_empty_eq : {A : Type 0} (xs : List A) → is_empty xs ≡ true → xs ≡ []
is_empty_eq [] h = refl
is_empty_eq (x ∷ xs) h = cc

pub schedule_resource-Served :
    (scheduler : Scheduler) (turn : Turn) (tick : ℕ) (turn' : Turn)
    → schedule_resource scheduler turn tick ≡ ok turn'
    → Served scheduler turn tick turn'
schedule_resource-Served scheduler turn tick turn' h =
    elim (Bool-cases (is_empty turn.state.ready_jobs)) [
      | inl e ↦
          nothing_ready (is_empty_eq turn.state.ready_jobs e)
            (unfold schedule_resource in ground (arith, e))
      | inr n ↦ elim (Bool-cases kept) [
        | inl k ↦ elim (Option-cases turn.state.resource.running_job) [
          | inl free ↦ ground (arith, k, free)
          | inr (current, busy) ↦
              goes_on current busy (unfold schedule_resource in ground (arith, n, k))
                (inl (ground (arith, k)))
        ]
        | inr k ↦
            elim (Result-cases
              (scheduler.policy.select turn.state.resource turn.state.ready_jobs turn.jobs)) [
                | inr (error, s) ↦ unfold schedule_resource in ground (arith, n, k, s)
                | inl (selected, s) ↦ elim (Result-cases (find_job turn.jobs selected)) [
                  | inr (error, f) ↦ unfold schedule_resource in ground (arith, n, k, s, f)
                  | inl (new, f) ↦
                      dispatch-Served scheduler turn selected new tick turn' k s f
                        (unfold schedule_resource in ground (arith, n, k, s, f))
                ]
              ]
      ]
    ]
  where
    kept : Bool
    kept =
        has_value turn.state.resource.running_job
        && is_non_preemptive scheduler.scheduling.preemption_mode
