-- ===== src/Runtime/Execution.antt =====
-- What one call of a resource does to it and to its job.
use cpssim.Base.{
  ℕ, ◌+◌, ◌-◌, ◌%◌, ◌^◌, ◌≤◌, ◌<◌, ◌≡◌, ◌⊎◌, inl, inr, Bool, true, false, none, some, ok, arith,
  ltb, if◌then◌else◌, Bool-cases, ltb→lt, subst, sym,
}
use cpssim.Time.{tick_max}
use cpssim.Runtime.{
  JobLifecycle, JobIdentity, same_identity, JobState, Resource, identity, started_state, stopped,
  charged_state, start_job, charge_execution, preempt_job,
}

-- The resource runs the job since the tick `s`, and expects it to end when its demand is served.
pub record Runs (r : Resource) (j : JobState) (s : ℕ) : Type 0 where
  pub matching : j.resource_id ≡ r.spec.id
  pub lifecycle : j.lifecycle ≡ JobLifecycle.running
  pub current : r.running_job ≡ some (identity j)
  pub since : r.running_since ≡ some s
  pub expected : r.expected_completion_tick ≡ some (s + j.remaining_execution)
  pub pending : 0 < j.remaining_execution

pub record IsIdle (r : Resource) : Type 0 where
  pub no_job : r.running_job ≡ none
  pub no_start : r.running_since ≡ none
  pub no_expectation : r.expected_completion_tick ≡ none

pub same_identity_refl : (i : JobIdentity) → same_identity i i ≡ true
same_identity_refl i = ground arith

-- A job starts exactly if it belongs here, is released and ready, the resource is free, and its
-- completion is a Tick.
pub record CanStart (r : Resource) (j : JobState) (t : ℕ) : Type 0 where
  pub matching : j.resource_id ≡ r.spec.id
  pub released : j.release_tick ≤ t
  pub lifecycle : j.lifecycle ≡ JobLifecycle.ready
  pub free : r.running_job ≡ none
  pub representable : j.remaining_execution ≤ tick_max - t

-- A job that a resource starts is one that can start; the resource then runs it from this tick on and
-- has charged nothing. The job is started from then on, and its first start is this tick if it was not
-- started before, and otherwise stays what it was.
pub start_job-Runs :
    (r : Resource) (j : JobState) (t : ℕ) (r' : Resource) (j' : JobState)
    → 0 < j.remaining_execution
    → start_job r j t ≡ ok (r', j')
    → CanStart r j t
      × Runs r' j' t
      × (r'.spec ≡ r.spec)
      × (r'.busy_ticks ≡ r.busy_ticks)
      × (j'.remaining_execution ≡ j.remaining_execution)
      × (identity j' ≡ identity j)
      × (j'.has_started ≡ true)
      × ((j.has_started ≡ false) × (j'.first_start_tick ≡ some t)
          ⊎ (j.has_started ≡ true) × (j'.first_start_tick ≡ j.first_start_tick))
unfolding start_job
start_job-Runs r j t r' j' p h = (
  record {
    matching = ground arith;
    released = ground arith;
    lifecycle = ground arith;
    free = ground arith;
    representable = ground arith;
  },
  record {
    matching = ground arith;
    lifecycle = ground arith;
    current = ground arith;
    since = ground arith;
    expected = ground arith;
    pending = ground arith;
  },
  ground arith,
  ground arith,
  ground arith,
  ground arith,
  ground arith,
  elim (Bool-cases j.has_started) [
    | inl again ↦ inr (again, ground (arith, again))
    | inr new ↦ inl (new, ground (arith, new))
  ],
)

-- Every job that can start is started.
pub start_job-CanStart :
    (r : Resource) (j : JobState) (t : ℕ)
    → CanStart r j t
    → start_job r j t ≡ ok (started_state r j t)
unfolding start_job
start_job-CanStart r j t c = ground arith

charge_execution-eq-ok :
    (r : Resource) (j : JobState) (s e : ℕ) {x : Bool × Resource × JobState}
    → Runs r j s
    → charge_execution r j e ≡ ok x
    → (s < e) × (e ≤ s + j.remaining_execution) × (x ≡ charged_state r j (e - s) e)
unfolding charge_execution
charge_execution-eq-ok r j s e v h = (ground arith, ground arith, ground arith)

charged_state-partial :
    (r : Resource) (j : JobState) (s e : ℕ)
    → Runs r j s
    → s < e
    → e < s + j.remaining_execution
    → let x = charged_state r j (e - s) e in (x.0 ≡ false) × Runs x.1 x.2 e
charged_state-partial r j s e v lo hi = (
  ground arith,
  record {
    matching = ground arith;
    lifecycle = ground arith;
    current = ground arith;
    since = ground arith;
    expected = ground arith;
    pending = ground arith;
  },
)

charged_state-full :
    (r : Resource) (j : JobState) (c e : ℕ)
    → c ≡ j.remaining_execution
    → let x = charged_state r j c e in
      (x.0 ≡ true)
      × IsIdle x.1
      × (x.2.lifecycle ≡ JobLifecycle.completed)
      × (x.2.finish_tick ≡ some e)
      × (x.2.remaining_execution ≡ 0)
charged_state-full r j c e h = (
  ground arith,
  record { no_job = ground arith; no_start = ground arith; no_expectation = ground arith },
  ground arith,
  ground arith,
  ground arith,
)

charged_state-conserves :
    (r : Resource) (j : JobState) (c e : ℕ)
    → c ≤ j.remaining_execution
    → let x = charged_state r j c e in
      (x.1.busy_ticks ≡ r.busy_ticks + c)
      × (x.1.busy_ticks + x.2.remaining_execution ≡ r.busy_ticks + j.remaining_execution)
charged_state-conserves r j c e h = (ground arith, ground arith)

-- A charge of a running job takes the ticks since the last charge from its demand and adds them to
-- the busy time. It completes the job and frees the resource exactly at the expected completion,
-- and leaves the job running from the charged tick before it.
pub charge_execution-Runs :
    (r : Resource) (j : JobState) (s e : ℕ) (done : Bool) (r' : Resource) (j' : JobState)
    → Runs r j s
    → charge_execution r j e ≡ ok (done, r', j')
    → (s < e)
      × (r'.busy_ticks ≡ r.busy_ticks + (e - s))
      × (r'.busy_ticks + j'.remaining_execution ≡ r.busy_ticks + j.remaining_execution)
      × ((done ≡ false) × (e < s + j.remaining_execution) × Runs r' j' e
          ⊎ (done ≡ true)
            × (e ≡ s + j.remaining_execution)
            × IsIdle r'
            × (j'.lifecycle ≡ JobLifecycle.completed)
            × (j'.finish_tick ≡ some e)
            × (j'.remaining_execution ≡ 0))
charge_execution-Runs r j s e done r' j' v h =
    let (lo, hi, eq) = charge_execution-eq-ok r j s e v h in
    let kept = charged_state-conserves r j (e - s) e (omega arith) in
    (
      lo,
      ground (arith, kept.0),
      ground (arith, kept.1),
      elim (Bool-cases (ltb e (s + j.remaining_execution))) [
        | inl p ↦
            let x = charged_state-partial r j s e v lo (ltb→lt _ _ p) in
            inl (
              cc (eq, x.0),
              ltb→lt _ _ p,
              subst (λ (y : Bool × Resource × JobState). Runs y.1 y.2 e) (sym eq) x.1,
            )
        | inr p ↦
            let x = charged_state-full r j (e - s) e (ground arith) in
            inr (
              cc (eq, x.0),
              ground arith,
              subst (λ (y : Bool × Resource × JobState). IsIdle y.1) (sym eq) x.1,
              cc (eq, x.2),
              cc (eq, x.3),
              cc (eq, x.4),
            )
      ],
    )

-- Every charge up to a tick inside the running interval succeeds.
pub charge_execution_total :
    (r : Resource) (j : JobState) (s e : ℕ)
    → Runs r j s
    → s < e
    → e ≤ s + j.remaining_execution
    → charge_execution r j e ≡ ok (charged_state r j (e - s) e)
unfolding charge_execution
charge_execution_total r j s e v lo hi = ground (arith, same_identity_refl (identity j))

preempt_job-eq-ok :
    (r : Resource) (j : JobState) (s t : ℕ) {x : Resource × JobState}
    → Runs r j s
    → preempt_job r j t ≡ ok x
    → (s ≤ t)
      × (t < s + j.remaining_execution)
      × (x ≡ (
          if ltb 0 (t - s)
          then stopped (charged_state r j (t - s) t).1 (charged_state r j (t - s) t).2
          else stopped r j))
unfolding preempt_job charge_execution
preempt_job-eq-ok r j s t v h = (ground arith, ground arith, ground arith)

-- A preemption happens only before the job's completion is due. It charges the ticks since the last
-- charge, frees the resource, and leaves the job ready with demand left and one more preemption.
pub preempt_job-Runs :
    (r : Resource) (j : JobState) (s t : ℕ) (r' : Resource) (j' : JobState)
    → Runs r j s
    → preempt_job r j t ≡ ok (r', j')
    → (s ≤ t)
      × (t < s + j.remaining_execution)
      × IsIdle r'
      × (j'.lifecycle ≡ JobLifecycle.ready)
      × (r'.busy_ticks ≡ r.busy_ticks + (t - s))
      × (j'.remaining_execution + (t - s) ≡ j.remaining_execution)
      × (identity j' ≡ identity j)
      × (j'.preemption_count ≡ (j.preemption_count + 1) % 2 ^ 64)
preempt_job-Runs r j s t r' j' v h =
    let (lo, hi, eq) = preempt_job-eq-ok r j s t v h in
    (
      lo,
      hi,
      record { no_job = ground arith; no_start = ground arith; no_expectation = ground arith },
      ground arith,
      ground arith,
      ground arith,
      ground arith,
      ground arith,
    )

-- Every preemption of a running job before its completion is due succeeds.
pub preempt_job_total :
    (r : Resource) (j : JobState) (s t : ℕ)
    → Runs r j s
    → s ≤ t
    → t < s + j.remaining_execution
    → (r' : Resource) × (j' : JobState) × (preempt_job r j t ≡ ok (r', j'))
unfolding preempt_job
preempt_job_total r j s t v lo hi = elim (Bool-cases (ltb 0 (t - s))) [
  | inl p ↦
      let x = charged_state r j (t - s) t in
      (
        (stopped x.1 x.2).0,
        (stopped x.1 x.2).1,
        ground (
          arith,
          same_identity_refl (identity j),
          charge_execution_total r j s t v (omega (arith, ltb→lt _ _ p)) (omega arith),
        ),
      )
  | inr p ↦ ((stopped r j).0, (stopped r j).1, ground (arith, same_identity_refl (identity j)))
]
