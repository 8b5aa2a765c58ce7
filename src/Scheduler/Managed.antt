-- ===== src/Scheduler/Managed.antt =====
-- A resource and the store: the ready list and the running job are those that the store says.
use cpssim.Base.{
  ℕ, ◌≡◌, ◌≢◌, ◌⊎◌, refl, sym, subst, ◌∙◌, inl, inr, some, List, ok, arith, Bool-cases, In,
}
use cpssim.Runtime.{JobState, JobIdentity, JobLifecycle, identity, same_identity}
use cpssim.Policy.{find_job}
use cpssim.Scheduler.{ResourceSchedulingState, update_job}
use cpssim.Scheduler.Store.{
  same_identity-equal, same_identity-different, find_job-update_job, find_job-update_job_self,
  find_job-update_job_other,
}
use cpssim.Scheduler.Waiting.{AreDifferent}

-- A job of the resource is stored in this stage.
abbrev pub StoredAs : JobLifecycle → List JobState → ℕ → JobIdentity → JobState → Type 0
StoredAs stage jobs r id job =
    (find_job jobs id ≡ ok job) × (job.lifecycle ≡ stage) × (job.resource_id ≡ r)

-- The ready list has exactly the ready jobs of the resource, each once, and the resource runs the
-- running job that it has, if any.
pub record Managed (jobs : List JobState) (state : ResourceSchedulingState) : Type 0 where
  pub waits :
      (id : JobIdentity)
      → In id state.ready_jobs
      → (job : JobState) × StoredAs JobLifecycle.ready jobs state.resource.spec.id id job
  pub listed :
      (id : JobIdentity) (job : JobState)
      → StoredAs JobLifecycle.ready jobs state.resource.spec.id id job
      → In id state.ready_jobs
  pub running :
      (id : JobIdentity)
      → state.resource.running_job ≡ some id
      → (job : JobState) × StoredAs JobLifecycle.running jobs state.resource.spec.id id job
  pub known :
      (id : JobIdentity) (job : JobState)
      → StoredAs JobLifecycle.running jobs state.resource.spec.id id job
      → state.resource.running_job ≡ some id
  pub different : AreDifferent state.ready_jobs

-- A change of the store that only concerns jobs of one resource, and keeps the jobs and where they are.
pub record Local (r : ℕ) (jobs jobs' : List JobState) : Type 0 where
  pub back :
      (id : JobIdentity) (job' : JobState)
      → find_job jobs' id ≡ ok job'
      → (job : JobState) × (find_job jobs id ≡ ok job)
        × (job.resource_id ≡ job'.resource_id)
        × ((job.resource_id ≡ r) ⊎ (job ≡ job'))
  pub forth :
      (id : JobIdentity) (job : JobState)
      → find_job jobs id ≡ ok job
      → (job' : JobState) × (find_job jobs' id ≡ ok job')
        × (job.resource_id ≡ job'.resource_id)
        × ((job.resource_id ≡ r) ⊎ (job ≡ job'))

pub Local-refl : (r : ℕ) (jobs : List JobState) → Local r jobs jobs
Local-refl r jobs = record {
  back = λ id job f. (job, f, refl, inr refl);
  forth = λ id job f. (job, f, refl, inr refl);
}

pub Local-trans : (r : ℕ) (a b c : List JobState) → Local r a b → Local r b c → Local r a c
Local-trans r a b c h k = record {
  back = λ id job f.
      let (y, g, e, s) = k.back id job f in
      let (x, u, i, t) = h.back id y g in (x, u, i ∙ e, joined x y job i s t);
  forth = λ id job f.
      let (y, g, e, s) = h.forth id job f in
      let (z, u, i, t) = k.forth id y g in (z, u, e ∙ i, joined job y z e t s);
}
  where
    joined :
        (x y z : JobState)
        → x.resource_id ≡ y.resource_id
        → (y.resource_id ≡ r) ⊎ (y ≡ z)
        → (x.resource_id ≡ r) ⊎ (x ≡ y)
        → (x.resource_id ≡ r) ⊎ (x ≡ z)
    joined x y z e s (inl own) = inl own
    joined x y z e (inl own) (inr same) = inl (e ∙ own)
    joined x y z e (inr after) (inr before) = inr (before ∙ after)

-- The change of one stored job of the resource.
pub update_job-Local :
    (old changed : JobState) (jobs : List JobState)
    → find_job jobs (identity changed) ≡ ok old
    → changed.resource_id ≡ old.resource_id
    → Local old.resource_id jobs (update_job changed jobs)
update_job-Local old changed jobs f e = record {
  back = λ id job h. elim (find_job-update_job changed old jobs id job f h) [
    | inl (i, same) ↦ (old, rw i f, rw same (sym e), inl refl)
    | inr (n, g) ↦ (job, g, refl, inr refl)
  ];
  forth = λ id job h. elim (Bool-cases (same_identity id (identity changed))) [
    | inl same ↦
        let i = same_identity-equal id (identity changed) same in
        let own : job ≡ old = ground (arith, rw i at h, f) in
        (
          changed,
          rw i (find_job-update_job_self changed old jobs f),
          rw own (sym e),
          inl (rw own refl),
        )
    | inr other ↦
        let n = same_identity-different id (identity changed) other in
        (job, find_job-update_job_other changed jobs id n ∙ h, refl, inr refl)
  ];
}

-- The store says the same of the jobs of the resource.
pub record Untouched (r : ℕ) (jobs jobs' : List JobState) : Type 0 where
  pub stays :
      (stage : JobLifecycle) (id : JobIdentity) (job : JobState)
      → StoredAs stage jobs r id job
      → StoredAs stage jobs' r id job
  pub came :
      (stage : JobLifecycle) (id : JobIdentity) (job : JobState)
      → StoredAs stage jobs' r id job
      → StoredAs stage jobs r id job

pub Untouched-refl : (r : ℕ) (jobs : List JobState) → Untouched r jobs jobs
Untouched-refl r jobs = record { stays = λ stage id job w. w; came = λ stage id job w. w }

pub Untouched-trans :
    (r : ℕ) (a b c : List JobState) → Untouched r a b → Untouched r b c → Untouched r a c
Untouched-trans r a b c h k = record {
  stays = λ stage id job w. k.stays stage id job (h.stays stage id job w);
  came = λ stage id job w. h.came stage id job (k.came stage id job w);
}

-- Another resource is not concerned.
pub Local-Untouched :
    (r other : ℕ) (jobs jobs' : List JobState)
    → Local r jobs jobs'
    → other ≢ r
    → Untouched other jobs jobs'
Local-Untouched r other jobs jobs' l n = record {
  stays = λ stage id job (f, s, o).
      let (x, g, e, c) = l.forth id job f in
      elim c [
        | inl own ↦ absurd (n (sym o ∙ own))
        | inr same ↦ (subst (λ y. find_job jobs' id ≡ ok y) (sym same) g, s, o)
      ];
  came = λ stage id job (f, s, o).
      let (x, g, e, c) = l.back id job f in
      elim c [
        | inl own ↦ absurd (n (sym o ∙ sym e ∙ own))
        | inr same ↦ (subst (λ y. find_job jobs id ≡ ok y) same g, s, o)
      ];
}

pub Managed-Untouched :
    (jobs jobs' : List JobState) (state : ResourceSchedulingState)
    → Untouched state.resource.spec.id jobs jobs'
    → Managed jobs state
    → Managed jobs' state
Managed-Untouched jobs jobs' state u m = record {
  waits = λ id i. let (job, w) = m.waits id i in (job, u.stays JobLifecycle.ready id job w);
  listed = λ id job w. m.listed id job (u.came JobLifecycle.ready id job w);
  running = λ id i. let (job, w) = m.running id i in (job, u.stays JobLifecycle.running id job w);
  known = λ id job w. m.known id job (u.came JobLifecycle.running id job w);
  different = m.different;
}

pub Managed-Local :
    (r : ℕ) (jobs jobs' : List JobState) (state : ResourceSchedulingState)
    → Local r jobs jobs'
    → state.resource.spec.id ≢ r
    → Managed jobs state
    → Managed jobs' state
Managed-Local r jobs jobs' state l n m =
    Managed-Untouched jobs jobs' state (Local-Untouched r state.resource.spec.id jobs jobs' l n) m
