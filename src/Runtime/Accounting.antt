-- ===== src/Runtime/Accounting.antt =====
-- Busy and idle time of a resource over any history of starts, charges and preemptions.
use cpssim.Base.{
  ℕ, ◌+◌, ◌-◌, ◌≤◌, ◌<◌, ◌≡◌, ◌≢◌, refl, ◌⊎◌, inl, inr, Bool, false, none, ok, pos, arith,
}
use cpssim.Specs.{ResourceSpec}
use cpssim.Runtime.{
  JobLifecycle, JobState, Resource, new_resource, start_job, charge_execution, preempt_job,
  busy_ticks_until, idle_ticks_until,
}
use cpssim.Runtime.Execution.{Runs, IsIdle, start_job-Runs, charge_execution-Runs, preempt_job-Runs}

-- A job that waits to be started, with demand left.
pub record Waits (j : JobState) : Type 0 where
  pub lifecycle : j.lifecycle ≡ JobLifecycle.ready
  pub pending : 0 < j.remaining_execution

-- What can happen to a resource up to a tick, with the job that it is working on: it starts empty,
-- its free time may be given to any waiting job, and calls come in the order of their ticks.
pub data History (spec : ResourceSpec) : Resource → JobState → ℕ → Type 0 where
  begins : (j : JobState) → Waits j → History spec (new_resource spec) j 0
  switches :
      {r : Resource} {j : JobState} {t : ℕ}
      → History spec r j t
      → r.running_job ≡ none
      → (k : JobState) → Waits k
      → History spec r k t
  starts :
      {r r' : Resource} {j j' : JobState} {t : ℕ} (t' : ℕ)
      → History spec r j t
      → t ≤ t'
      → start_job r j t' ≡ ok (r', j')
      → History spec r' j' t'
  charges :
      {r r' : Resource} {j j' : JobState} {t : ℕ} (t' : ℕ) (done : Bool)
      → History spec r j t
      → t ≤ t'
      → charge_execution r j t' ≡ ok (done, r', j')
      → History spec r' j' t'
  preempts :
      {r r' : Resource} {j j' : JobState} {t : ℕ} (t' : ℕ)
      → History spec r j t
      → t ≤ t'
      → preempt_job r j t' ≡ ok (r', j')
      → History spec r' j' t'

-- The resource is free, or runs the job since a tick that its busy time has not passed.
pub data Balanced (r : Resource) (j : JobState) (t : ℕ) : Type 0 where
  free :
      IsIdle r
      → r.busy_ticks ≤ t
      → (j.lifecycle ≡ JobLifecycle.completed) ⊎ Waits j
      → Balanced r j t
  busy : (s : ℕ) → Runs r j s → s ≤ t → r.busy_ticks ≤ s → Balanced r j t

start_job_free :
    (r : Resource) (j : JobState) (t : ℕ) {x : Resource × JobState}
    → start_job r j t ≡ ok x
    → (r.running_job ≡ none) × (j.lifecycle ≡ JobLifecycle.ready)
unfolding start_job
start_job_free r j t h = (ground arith, ground arith)

charge_execution_running :
    (r : Resource) (j : JobState) (t : ℕ) {x : Bool × Resource × JobState}
    → charge_execution r j t ≡ ok x
    → (r.running_job ≢ none) × (j.lifecycle ≡ JobLifecycle.running)
unfolding charge_execution
charge_execution_running r j t h = (λ e. ground arith, ground arith)

preempt_job_running :
    (r : Resource) (j : JobState) (t : ℕ) {x : Resource × JobState}
    → preempt_job r j t ≡ ok x
    → (r.running_job ≢ none) × (j.lifecycle ≡ JobLifecycle.running)
unfolding preempt_job
preempt_job_running r j t h = (λ e. ground arith, ground arith)

start_job-Balanced :
    {r r' : Resource} {j j' : JobState} {t : ℕ} (t' : ℕ)
    → Balanced r j t
    → t ≤ t'
    → start_job r j t' ≡ ok (r', j')
    → Balanced r' j' t'
start_job-Balanced {r} {j = j} t' (free i b (inl c)) le h = cc ((start_job_free r j t' h).1)
start_job-Balanced {r} {r'} {j} {j'} t' (free i b (inr w)) le h =
    let x = start_job-Runs r j t' r' j' w.pending h in
    busy t' x.1 (omega arith) (omega (arith, x.3))
start_job-Balanced {r} {j = j} t' (busy s v le b) _ h = cc (v.current, (start_job_free r j t' h).0)

charge_execution-Balanced :
    {r r' : Resource} {j j' : JobState} {t : ℕ} (t' : ℕ) (done : Bool)
    → Balanced r j t
    → t ≤ t'
    → charge_execution r j t' ≡ ok (done, r', j')
    → Balanced r' j' t'
charge_execution-Balanced {r} {j = j} t' done (free i b w) le h =
    absurd ((charge_execution_running r j t' h).0 i.no_job)
charge_execution-Balanced {r} {r'} {j} {j'} t' done (busy s v lo b) le h =
    let x = charge_execution-Runs r j s t' done r' j' v h in
    elim x.3 [
      | inl (_, _, v') ↦ busy t' v' (omega arith) (omega (arith, x.1, x.0))
      | inr (_, _, i, c, _, _) ↦ free i (omega (arith, x.1, x.0)) (inl c)
    ]

preempt_job-Balanced :
    {r r' : Resource} {j j' : JobState} {t : ℕ} (t' : ℕ)
    → Balanced r j t
    → t ≤ t'
    → preempt_job r j t' ≡ ok (r', j')
    → Balanced r' j' t'
preempt_job-Balanced {r} {j = j} t' (free i b w) le h =
    absurd ((preempt_job_running r j t' h).0 i.no_job)
preempt_job-Balanced {r} {r'} {j} {j'} t' (busy s v lo b) le h =
    let x = preempt_job-Runs r j s t' r' j' v h in
    free x.2 (omega (arith, x.4, x.0))
      (inr (record { lifecycle = x.3; pending = omega (arith, x.5, x.1) }))

switch-Balanced :
    {r : Resource} {j : JobState} {t : ℕ}
    → Balanced r j t
    → r.running_job ≡ none
    → (k : JobState) → Waits k
    → Balanced r k t
switch-Balanced (free i b w) e k wk = free i b (inr wk)
switch-Balanced (busy s v lo b) e k wk = cc (v.current)

pub History-Balanced :
    {spec : ResourceSpec} {r : Resource} {j : JobState} {t : ℕ}
    → History spec r j t
    → Balanced r j t
History-Balanced (begins j w) =
    free (record { no_job = refl; no_start = refl; no_expectation = refl }) (omega arith) (inr w)
History-Balanced (switches h e k w) = switch-Balanced (History-Balanced h) e k w
History-Balanced (starts t' h le e) = start_job-Balanced t' (History-Balanced h) le e
History-Balanced (charges t' done h le e) =
    charge_execution-Balanced t' done (History-Balanced h) le e
History-Balanced (preempts t' h le e) = preempt_job-Balanced t' (History-Balanced h) le e

Balanced-busy :
    {r : Resource} {j : JobState} {t : ℕ} (o : ℕ)
    → Balanced r j t
    → t ≤ o
    → (b i : ℕ) × (busy_ticks_until r (pos o) ≡ ok b)
      × (idle_ticks_until r (pos o) ≡ ok i)
      × (b + i ≡ o)
      × (r.busy_ticks ≤ b)
unfolding busy_ticks_until idle_ticks_until
Balanced-busy {r} o (free i b w) le = (
  r.busy_ticks,
  o - r.busy_ticks,
  ground (arith, i.no_start),
  ground (arith, i.no_start),
  omega arith,
  omega arith,
)
Balanced-busy {r} o (busy s v lo b) le = (
  r.busy_ticks + (o - s),
  o - (r.busy_ticks + (o - s)),
  ground (arith, v.since),
  ground (arith, v.since),
  omega arith,
  omega arith,
)

-- After any history of starts, charges and preemptions on a resource, both times can be observed at
-- every tick from then on, and busy and idle time add up to the observed tick.
pub busy_ticks_until_total :
    (spec : ResourceSpec) (r : Resource) (j : JobState) (t o : ℕ)
    → History spec r j t
    → t ≤ o
    → (b i : ℕ) × (busy_ticks_until r (pos o) ≡ ok b)
      × (idle_ticks_until r (pos o) ≡ ok i)
      × (b + i ≡ o)
      × (r.busy_ticks ≤ b)
busy_ticks_until_total spec r j t o h le = Balanced-busy o (History-Balanced h) le

-- A charge that does not complete the job changes nothing that is observed at a later tick: what it
-- adds to the busy time is the part of the running interval that an observation counts already.
pub busy_ticks_until-charge_execution :
    (r : Resource) (j : JobState) (s e o : ℕ) (r' : Resource) (j' : JobState)
    → Runs r j s
    → charge_execution r j e ≡ ok (false, r', j')
    → e ≤ o
    → busy_ticks_until r' (pos o) ≡ busy_ticks_until r (pos o)
unfolding busy_ticks_until
busy_ticks_until-charge_execution r j s e o r' j' v h le =
    let x = charge_execution-Runs r j s e false r' j' v h in
    elim x.3 [
      | inl (_, _, v') ↦ ground (arith, v.since, v'.since, x.0, x.1)
      | inr (p, _, _, _, _, _) ↦ cc
    ]
