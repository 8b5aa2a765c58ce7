-- ===== src/Scheduler/Priority.antt =====
-- Scheduler::schedule with preemption under FixedPriorityPolicy: who runs and who waits.
use cpssim.Base.{
  ℕ, ◌≤◌, ◌<◌, ◌≡◌, ◌≢◌, refl, sym, ◌⊎◌, inl, inr, some, List, [], ◌∷◌, ◌++◌, ok, arith, ltb,
  Bool-cases, All, All-map, All-append,
}
use cpssim.Specs.{PreemptionMode}
use cpssim.Runtime.{
  JobState, JobIdentity, Resource, identity, same_identity, start_job, preempt_job,
  charge_execution,
}
use cpssim.Policy.{find_job, fixed_priority_policy, select, should_preempt}
use cpssim.Policy.Selection.{IsReady, Outranks, select-best, find_job-identity}
use cpssim.Scheduler.{Scheduler, Turn, update_job, erase_identity, schedule_resource}
use cpssim.Scheduler.Dispatch.{
  Started, Replaced, Served, nothing_ready, goes_on, starts, replaces, schedule_resource-Served,
  Started-running_job,
}

-- The store has a job of this priority under the identity.
abbrev pub HasPriority : List JobState → JobIdentity → ℕ → Type 0
HasPriority jobs id n = (job : JobState) × (find_job jobs id ≡ ok job) × (job.priority ≡ n)

-- A change of a stored job that keeps its priority keeps every priority.
update_job-HasPriority :
    (jobs : List JobState) (changed : JobState) (id : JobIdentity) (n : ℕ)
    → HasPriority jobs (identity changed) changed.priority
    → HasPriority jobs id n
    → HasPriority (update_job changed jobs) id n
unfolding find_job update_job
update_job-HasPriority [] changed id n (old, e, p) (job, f, q) = cc
update_job-HasPriority (j ∷ jobs) changed id n (old, e, p) (job, f, q) =
    elim (Bool-cases (same_identity (identity j) (identity changed))) [
      | inl here ↦ elim (Bool-cases (same_identity (identity j) id)) [
        | inl this ↦ (changed, ground arith, ground arith)
        | inr other ↦ (job, ground arith, q)
      ]
      | inr there ↦ elim (Bool-cases (same_identity (identity j) id)) [
        | inl this ↦ (job, ground arith, q)
        | inr other ↦
            let (k, g, r) =
              update_job-HasPriority jobs changed id n (old, ground arith, p)
                (job, ground arith, q) in
            (k, ground arith, r)
      ]
    ]

start_job-priority :
    (r : Resource) (j : JobState) (t : ℕ) (r' : Resource) (j' : JobState)
    → start_job r j t ≡ ok (r', j')
    → (j'.priority ≡ j.priority) × (identity j' ≡ identity j)
unfolding start_job
start_job-priority r j t r' j' h = (ground arith, ground arith)

preempt_job-priority :
    (r : Resource) (j : JobState) (t : ℕ) (r' : Resource) (j' : JobState)
    → preempt_job r j t ≡ ok (r', j')
    → (j'.priority ≡ j.priority) × (identity j' ≡ identity j)
unfolding preempt_job charge_execution
preempt_job-priority r j t r' j' h = (ground arith, ground arith)

-- Every job of the list is stored, with a priority that is not higher than `n`: a lower number is a
-- higher priority.
abbrev pub AtMost : List JobState → ℕ → List JobIdentity → Type 0
AtMost jobs n ids = All (λ id. (m : ℕ) × HasPriority jobs id m × (n ≤ m)) ids

AtMost-update_job :
    (jobs : List JobState) (changed : JobState) (n : ℕ) (ids : List JobIdentity)
    → HasPriority jobs (identity changed) changed.priority
    → AtMost jobs n ids
    → AtMost (update_job changed jobs) n ids
AtMost-update_job jobs changed n ids c a =
    All-map _ _ (λ id (m, h, le). (m, update_job-HasPriority jobs changed id m c h, le)) ids a

pub All-erase_identity :
    (P : JobIdentity → Type 0) (id : JobIdentity) (ids : List JobIdentity)
    → All P ids
    → All P (erase_identity id ids)
unfolding erase_identity
All-erase_identity P id [] a = tt
All-erase_identity P id (x ∷ xs) (p, a) = elim (Bool-cases (same_identity x id)) [
  | inl h ↦ rw h a
  | inr h ↦ rw h (p, All-erase_identity P id xs a)
]

Outranks-le : (a b : JobState) → ¬ Outranks a b → b.priority ≤ a.priority
Outranks-le a b n = elim (Bool-cases (ltb a.priority b.priority)) [
  | inl h ↦ absurd (n (inl (ground arith)))
  | inr h ↦ ground arith
]

select-AtMost :
    (resource : Resource) (ids : List JobIdentity) (jobs : List JobState) (selected : JobIdentity)
    (new : JobState)
    → ids ≢ []
    → All (IsReady jobs) ids
    → select resource ids jobs ≡ ok selected
    → find_job jobs selected ≡ ok new
    → AtMost jobs new.priority ids
select-AtMost resource ids jobs selected new ne r s f =
    let (best, job, b, m, g, l, a) = select-best resource ids jobs ne r in
    let p : best ≡ selected = ground (arith, s, b) in
    let q : job ≡ new = cc (p, g, f) in
    All-map _ _ (λ id (k, e, n). (k.priority, (k, e, refl), rw (← q) (Outranks-le k job n))) ids a

Started-AtMost :
    (turn : Turn) (id : JobIdentity) (tick : ℕ) (turn' : Turn) (n : ℕ)
    → Started turn id tick turn'
    → AtMost turn.jobs n turn.state.ready_jobs
    → HasPriority turn.jobs id n
    → AtMost turn'.jobs n turn'.state.ready_jobs × HasPriority turn'.jobs id n
Started-AtMost turn id tick turn' n s a h =
    let (p, i) =
      start_job-priority turn.state.resource s.job tick turn'.state.resource s.job' s.start in
    let c : HasPriority turn.jobs (identity s.job') s.job'.priority =
      (s.job, rw (i, find_job-identity turn.jobs id s.job s.stored) s.stored, sym p) in
    rw (s.jobs_eq, s.ready_eq)
      (
        All-erase_identity _ id turn.state.ready_jobs
            (AtMost-update_job turn.jobs s.job' n turn.state.ready_jobs c a),
        update_job-HasPriority turn.jobs s.job' id n c h,
      )

-- The running job has at most the priority number of every waiting job.
abbrev pub HasNoInversion : Turn → Type 0
HasNoInversion turn =
    (turn.state.ready_jobs ≡ [])
    ⊎ (id : JobIdentity) × (n : ℕ) × (turn.state.resource.running_job ≡ some id)
      × HasPriority turn.jobs id n
      × AtMost turn.jobs n turn.state.ready_jobs

empty_cases : (ids : List JobIdentity) → (ids ≡ []) ⊎ (ids ≢ [])
empty_cases [] = inl refl
empty_cases (x ∷ xs) = inr (λ e. cc)

Replaced-AtMost :
    (turn : Turn) (old : JobState) (current new : JobIdentity) (tick : ℕ) (turn' : Turn) (n : ℕ)
    → find_job turn.jobs current ≡ ok old
    → n ≤ old.priority
    → Replaced turn old new tick turn'
    → AtMost turn.jobs n turn.state.ready_jobs
    → HasPriority turn.jobs new n
    → AtMost turn'.jobs n turn'.state.ready_jobs × HasPriority turn'.jobs new n
Replaced-AtMost turn old current new tick turn' n f le r a h =
    let (p, i) =
      preempt_job-priority turn.state.resource old tick r.resource r.preempted r.preemption in
    let g : find_job turn.jobs (identity old) ≡ ok old =
      rw (find_job-identity turn.jobs current old f) f in
    let c : HasPriority turn.jobs (identity r.preempted) r.preempted.priority =
      (old, rw i g, sym p) in
    let waiting : AtMost turn.jobs n (turn.state.ready_jobs ++ identity old ∷ []) =
      All-append _ turn.state.ready_jobs (identity old ∷ []) a
        ((old.priority, (old, g, refl), le), tt) in
    Started-AtMost r.between new tick turn' n r.started
      (rw (r.between_jobs, r.between_ready) (AtMost-update_job turn.jobs r.preempted n _ c waiting))
      (rw r.between_jobs (update_job-HasPriority turn.jobs r.preempted new n c h))

Served-HasNoInversion :
    (scheduler : Scheduler) (turn : Turn) (tick : ℕ) (turn' : Turn)
    → scheduler.policy ≡ fixed_priority_policy
    → scheduler.scheduling.preemption_mode ≡ PreemptionMode.preemptive
    → All (IsReady turn.jobs) turn.state.ready_jobs
    → turn.state.ready_jobs ≢ []
    → Served scheduler turn tick turn'
    → HasNoInversion turn'
Served-HasNoInversion scheduler turn tick turn' p m r ne (nothing_ready e q) = absurd (ne e)
Served-HasNoInversion scheduler turn tick turn' p m r ne (goes_on current busy q (inl n)) =
    ground (arith, m)
Served-HasNoInversion scheduler turn tick turn' p m r ne
      (goes_on current busy q (inr (selected, old, new, s, f, g, lost))) =
    let a =
      select-AtMost turn.state.resource turn.state.ready_jobs turn.jobs selected new ne r
        (rw p at s) g in
    let le : old.priority ≤ new.priority = unfold should_preempt in ground (arith, rw p at lost) in
    rw q (
      inr (
        current,
        old.priority,
        busy,
        (old, f, refl),
        All-map _ _ (λ id (k, h, l). (k, h, omega (arith, l, le))) turn.state.ready_jobs a,
      ))
Served-HasNoInversion scheduler turn tick turn' p m r ne (starts selected free s st) =
    let a =
      select-AtMost turn.state.resource turn.state.ready_jobs turn.jobs selected st.job ne r
        (rw p at s) st.stored in
    let (b, h) =
      Started-AtMost turn selected tick turn' st.job.priority st a (st.job, st.stored, refl) in
    inr (selected, st.job.priority, Started-running_job turn selected tick turn' st, h, b)
Served-HasNoInversion scheduler turn tick turn' p m r ne
      (replaces selected current old new mode busy s f g won x) =
    let a =
      select-AtMost turn.state.resource turn.state.ready_jobs turn.jobs selected new ne r
        (rw p at s) g in
    let le : new.priority < old.priority = unfold should_preempt in ground (arith, rw p at won) in
    let (b, h) =
      Replaced-AtMost turn old current selected tick turn' new.priority f (omega (arith, le)) x a
        (new, g, refl) in
    inr (selected, new.priority, Started-running_job x.between selected tick turn' x.started, h, b)

-- With preemption and the fixed-priority policy, a resource whose ready list holds stored ready jobs
-- ends its turn without priority inversion: no job waits, or a job runs whose priority no waiting job
-- exceeds.
pub schedule_resource-HasNoInversion :
    (scheduler : Scheduler) (turn : Turn) (tick : ℕ) (turn' : Turn)
    → scheduler.policy ≡ fixed_priority_policy
    → scheduler.scheduling.preemption_mode ≡ PreemptionMode.preemptive
    → All (IsReady turn.jobs) turn.state.ready_jobs
    → schedule_resource scheduler turn tick ≡ ok turn'
    → HasNoInversion turn'
unfolding schedule_resource
schedule_resource-HasNoInversion scheduler turn tick turn' p m r h =
    elim (empty_cases turn.state.ready_jobs) [
      | inl none_ready ↦ inl (ground (arith, none_ready))
      | inr ne ↦
          Served-HasNoInversion scheduler turn tick turn' p m r ne
            (schedule_resource-Served scheduler turn tick turn' h)
    ]
