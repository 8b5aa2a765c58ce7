-- ===== src/Scheduler/Changes.antt =====
-- A start, a preemption and a completion keep a resource and the store in agreement.
use cpssim.Base.{
  ℕ, ◌≡◌, ◌≢◌, ◌⊎◌, sym, subst, ap, ◌∙◌, inl, inr, true, Option, some, none, List, [], ◌∷◌, ◌++◌,
  ok, arith, In,
}
use cpssim.Runtime.{
  JobState, JobIdentity, JobLifecycle, Resource, identity, start_job, preempt_job, charge_execution,
  runs,
}
use cpssim.Policy.{find_job}
use cpssim.Scheduler.{update_job, erase_identity}
use cpssim.Scheduler.Store.{
  same_identity-equal, find_job-update_job, find_job-update_job_self, find_job-update_job_other,
}
use cpssim.Scheduler.Waiting.{
  AreDifferent-append, AreDifferent-erase_identity, In-append, append-In, In-erase_identity,
  erase_identity-In, erase_identity-gone,
}
use cpssim.Scheduler.Managed.{StoredAs, Managed}

module _ (old changed : JobState) (jobs : List JobState)
    (stored : find_job jobs (identity changed) ≡ ok old) where
  pub StoredAs-split :
      (stage : JobLifecycle) (r : ℕ) (id : JobIdentity) (job : JobState)
      → StoredAs stage (update_job changed jobs) r id job
      → (id ≡ identity changed) × (job ≡ changed)
        ⊎ (id ≢ identity changed) × StoredAs stage jobs r id job
  StoredAs-split stage r id job (f, s, o) =
      elim (find_job-update_job changed old jobs id job stored f) [
        | inl own ↦ inl own
        | inr (n, g) ↦ inr (n, (g, s, o))
      ]

  pub StoredAs-other :
      (stage : JobLifecycle) (r : ℕ) (id : JobIdentity) (job : JobState)
      → id ≢ identity changed
      → StoredAs stage jobs r id job
      → StoredAs stage (update_job changed jobs) r id job
  StoredAs-other stage r id job n (f, s, o) =
      (find_job-update_job_other changed jobs id n ∙ f, s, o)

  pub StoredAs-self :
      (stage : JobLifecycle) (r : ℕ)
      → changed.lifecycle ≡ stage
      → changed.resource_id ≡ r
      → StoredAs stage (update_job changed jobs) r (identity changed) changed
  StoredAs-self stage r s o = (find_job-update_job_self changed old jobs stored, s, o)

ready_not_running :
    (job : JobState) → job.lifecycle ≡ JobLifecycle.ready → job.lifecycle ≢ JobLifecycle.running
ready_not_running job a b = ground (arith, a, b)

-- What a start requires and sets.
pub record Starting (r : Resource) (j : JobState) (r' : Resource) (j' : JobState) : Type 0 where
  pub here : j.resource_id ≡ r.spec.id
  pub free : r.running_job ≡ none
  pub now : r'.running_job ≡ some (identity j)
  pub spec : r'.spec ≡ r.spec
  pub same : identity j' ≡ identity j
  pub place : j'.resource_id ≡ j.resource_id
  pub stage : j'.lifecycle ≡ JobLifecycle.running

pub start_job-Starting :
    (r : Resource) (j : JobState) (t : ℕ) (r' : Resource) (j' : JobState)
    → start_job r j t ≡ ok (r', j')
    → Starting r j r' j'
unfolding start_job
start_job-Starting r j t r' j' h = record {
  here = ground arith;
  free = ground arith;
  now = ground arith;
  spec = ground arith;
  same = ground arith;
  place = ground arith;
  stage = ground arith;
}

-- What a preemption and a completion require and set.
pub record Stopping (stage : JobLifecycle) (r : Resource) (j : JobState) (r' : Resource)
    (j' : JobState) : Type 0 where
  pub here : j.resource_id ≡ r.spec.id
  pub was : runs r.running_job (identity j) ≡ true
  pub ran : j.lifecycle ≡ JobLifecycle.running
  pub free : r'.running_job ≡ none
  pub spec : r'.spec ≡ r.spec
  pub same : identity j' ≡ identity j
  pub place : j'.resource_id ≡ j.resource_id
  pub now : j'.lifecycle ≡ stage

pub preempt_job-Stopping :
    (r : Resource) (j : JobState) (t : ℕ) (r' : Resource) (j' : JobState)
    → preempt_job r j t ≡ ok (r', j')
    → Stopping JobLifecycle.ready r j r' j'
unfolding preempt_job charge_execution
preempt_job-Stopping r j t r' j' h = record {
  here = ground arith;
  was = ground arith;
  ran = ground arith;
  free = ground arith;
  spec = ground arith;
  same = ground arith;
  place = ground arith;
  now = ground arith;
}

pub charge_execution-Stopping :
    (r : Resource) (j : JobState) (t : ℕ) (r' : Resource) (j' : JobState)
    → charge_execution r j t ≡ ok (true, r', j')
    → Stopping JobLifecycle.completed r j r' j'
unfolding charge_execution
charge_execution-Stopping r j t r' j' h = record {
  here = ground arith;
  was = ground arith;
  ran = ground arith;
  free = ground arith;
  spec = ground arith;
  same = ground arith;
  place = ground arith;
  now = ground arith;
}

-- The job of a ready list entry is started on a free resource.
pub start_job-Managed :
    (jobs : List JobState) (ready : List JobIdentity) (r r' : Resource) (job changed : JobState)
    → Managed jobs (record { resource = r; ready_jobs = ready })
    → find_job jobs (identity job) ≡ ok job
    → Starting r job r' changed
    → Managed
        (update_job changed jobs)
        (record { resource = r'; ready_jobs = erase_identity (identity job) ready })
start_job-Managed jobs ready r r' job changed m stored x =
    let f : find_job jobs (identity changed) ≡ ok job = rw x.same stored in
    rw x.spec (record {
      waits = λ i k.
          let (j, w) = m.waits i (In-erase_identity i (identity job) ready k) in
          (
            j,
            StoredAs-other job changed jobs f JobLifecycle.ready r.spec.id i j
                (λ e.
                  erase_identity-gone (identity job) ready m.different
                    (subst (λ y. In y (erase_identity (identity job) ready)) (e ∙ x.same) k))
                w,
          );
      listed = λ i j w.
          elim (StoredAs-split job changed jobs f JobLifecycle.ready r.spec.id i j w) [
            | inl (e, own) ↦ absurd (ready_not_running j w.1 (ap (λ y. y.lifecycle) own ∙ x.stage))
            | inr (n, v) ↦
                erase_identity-In i (identity job) ready (m.listed i j v) (λ e. n (e ∙ sym x.same))
          ];
      running = λ i k.
          let e : i ≡ identity changed = ground (arith, k, x.now, x.same) in
          (
            changed,
            rw e (
                StoredAs-self job changed jobs f JobLifecycle.running r.spec.id x.stage
                  (x.place ∙ x.here)),
          );
      known = λ i j w.
          elim (StoredAs-split job changed jobs f JobLifecycle.running r.spec.id i j w) [
            | inl (e, own) ↦ x.now ∙ ap some (sym (e ∙ x.same))
            | inr (n, v) ↦ absurd (ground (arith, m.known i j v, x.free))
          ];
      different = AreDifferent-erase_identity (identity job) ready m.different;
    })

-- The running job stops: it waits again, or is completed.
module _ (jobs : List JobState) (ready : List JobIdentity) (r r' : Resource)
    (job changed : JobState) (m : Managed jobs (record { resource = r; ready_jobs = ready }))
    (stored : find_job jobs (identity job) ≡ ok job) where
  runs-current : runs r.running_job (identity job) ≡ true → r.running_job ≡ some (identity job)
  runs-current h = from r.running_job h
    where
      from : (x : Option JobIdentity) → runs x (identity job) ≡ true → x ≡ some (identity job)
      from none h = cc
      from (some id) h = ap some (same_identity-equal id (identity job) h)

  not_waiting : job.lifecycle ≡ JobLifecycle.running → ¬ In (identity job) ready
  not_waiting ran k =
      let (j, (f, w, o)) = m.waits (identity job) k in
      let e : j ≡ job = ground (arith, f, stored) in
      ready_not_running j w (ap (λ y. y.lifecycle) e ∙ ran)

  pub preempt_job-Managed :
      Stopping JobLifecycle.ready r job r' changed
      → Managed
          (update_job changed jobs)
          (record { resource = r'; ready_jobs = ready ++ identity job ∷ [] })
  preempt_job-Managed x =
      let f : find_job jobs (identity changed) ≡ ok job = rw x.same stored in
      rw x.spec (record {
        waits = λ i k. elim (In-append i (identity job) ready k) [
          | inl before ↦
              let (j, w) = m.waits i before in
              (
                j,
                StoredAs-other job changed jobs f JobLifecycle.ready r.spec.id i j
                    (λ e. not_waiting x.ran (subst (λ y. In y ready) (e ∙ x.same) before)) w,
              )
          | inr own ↦ (
            changed,
            subst (λ y. StoredAs JobLifecycle.ready (update_job changed jobs) r.spec.id y changed)
                (x.same ∙ own)
                (StoredAs-self job changed jobs f JobLifecycle.ready r.spec.id x.now
                  (x.place ∙ x.here)),
          )
        ];
        listed = λ i j w.
            append-In i (identity job) ready
              (elim (StoredAs-split job changed jobs f JobLifecycle.ready r.spec.id i j w) [
                | inl (e, own) ↦ inr (sym (e ∙ x.same))
                | inr (n, v) ↦ inl (m.listed i j v)
              ]);
        running = λ i k. absurd (ground (arith, k, x.free));
        known = λ i j w.
            elim (StoredAs-split job changed jobs f JobLifecycle.running r.spec.id i j w) [
              | inl (e, own) ↦ absurd (ready_not_running j (ap (λ y. y.lifecycle) own ∙ x.now) w.1)
              | inr (n, v) ↦
                  let current = runs-current x.was in
                  let e : i ≡ identity job = ground (arith, m.known i j v, current) in
                  absurd (n (e ∙ sym x.same))
            ];
        different = AreDifferent-append (identity job) ready (not_waiting x.ran) m.different;
      })

  pub complete-Managed :
      Stopping JobLifecycle.completed r job r' changed
      → Managed (update_job changed jobs) (record { resource = r'; ready_jobs = ready })
  complete-Managed x =
      let f : find_job jobs (identity changed) ≡ ok job = rw x.same stored in
      rw x.spec (record {
        waits = λ i k.
            let (j, w) = m.waits i k in
            (
              j,
              StoredAs-other job changed jobs f JobLifecycle.ready r.spec.id i j
                  (λ e. not_waiting x.ran (subst (λ y. In y ready) (e ∙ x.same) k)) w,
            );
        listed = λ i j w.
            elim (StoredAs-split job changed jobs f JobLifecycle.ready r.spec.id i j w) [
              | inl (e, own) ↦ absurd (ground (arith, w.1, own, x.now))
              | inr (n, v) ↦ m.listed i j v
            ];
        running = λ i k. absurd (ground (arith, k, x.free));
        known = λ i j w.
            elim (StoredAs-split job changed jobs f JobLifecycle.running r.spec.id i j w) [
              | inl (e, own) ↦ absurd (ground (arith, w.1, own, x.now))
              | inr (n, v) ↦
                  let current = runs-current x.was in
                  let e : i ≡ identity job = ground (arith, m.known i j v, current) in
                  absurd (n (e ∙ sym x.same))
            ];
        different = m.different;
      })
