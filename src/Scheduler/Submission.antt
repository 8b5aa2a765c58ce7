-- ===== src/Scheduler/Submission.antt =====
-- What a submission does to the resources and the store.
use cpssim.Base.{
  ℕ, ◌≡◌, ◌≢◌, ◌⊎◌, sym, subst, ap, ◌∙◌, inl, inr, false, List, [], ◌∷◌, ◌++◌, ok, arith,
}
use cpssim.Runtime.{JobState, JobIdentity, JobLifecycle, identity, same_identity}
use cpssim.Config.{any}
use cpssim.Policy.{find_job}
use cpssim.Scheduler.{ResourceSchedulingState}
use cpssim.Scheduler.Store.{find_job-append, find_job-append_old, find_job-append_new}
use cpssim.Scheduler.Waiting.{AreDifferent-append, In-append, append-In}
use cpssim.Scheduler.Managed.{StoredAs, Managed}
use cpssim.Scheduler.Consistency.{id_of}

find_job-none :
    (jobs : List JobState) (added job : JobState)
    → any (λ stored. same_identity (identity stored) (identity added)) jobs ≡ false
    → ¬ (find_job jobs (identity added) ≡ ok job)
unfolding find_job
find_job-none [] added job n h = cc
find_job-none (j ∷ jobs) added job n h =
    find_job-none jobs added job (ground (arith, n)) (ground (arith, n, h))

-- A submitted job waits at its resource.
module _ (jobs : List JobState) (added : JobState)
    (new : any (λ stored. same_identity (identity stored) (identity added)) jobs ≡ false)
    (fresh : added.lifecycle ≡ JobLifecycle.ready) where
  StoredAs-added :
      (stage : JobLifecycle) (r : ℕ) (id : JobIdentity) (job : JobState)
      → StoredAs stage (jobs ++ added ∷ []) r id job
      → (id ≡ identity added) × (job ≡ added) ⊎ StoredAs stage jobs r id job
  StoredAs-added stage r id job (f, s, o) = elim (find_job-append jobs added id job new f) [
    | inl own ↦ inl own
    | inr (n, g) ↦ inr (g, s, o)
  ]

  StoredAs-kept :
      (stage : JobLifecycle) (r : ℕ) (id : JobIdentity) (job : JobState)
      → StoredAs stage jobs r id job
      → StoredAs stage (jobs ++ added ∷ []) r id job
  StoredAs-kept stage r id job (f, s, o) = (find_job-append_old jobs added id job f, s, o)

  pub added-Managed :
      (state : ResourceSchedulingState)
      → id_of state ≡ added.resource_id
      → Managed jobs state
      → Managed
          (jobs ++ added ∷ [])
          (record state { ready_jobs = state.ready_jobs ++ identity added ∷ [] })
  added-Managed state own m = record {
    waits = λ i k. elim (In-append i (identity added) state.ready_jobs k) [
      | inl before ↦
          let (j, w) = m.waits i before in (j, StoredAs-kept JobLifecycle.ready (id_of state) i j w)
      | inr e ↦ (
        added,
        (
          subst (λ y. find_job (jobs ++ added ∷ []) y ≡ ok added) e
              (find_job-append_new jobs added new),
          fresh,
          sym own,
        ),
      )
    ];
    listed = λ i j w.
        append-In i (identity added) state.ready_jobs
          (elim (StoredAs-added JobLifecycle.ready (id_of state) i j w) [
            | inl (e, same) ↦ inr (sym e)
            | inr v ↦ inl (m.listed i j v)
          ]);
    running = λ i k.
        let (j, w) = m.running i k in (j, StoredAs-kept JobLifecycle.running (id_of state) i j w);
    known = λ i j w. elim (StoredAs-added JobLifecycle.running (id_of state) i j w) [
      | inl (e, same) ↦ absurd (ground (arith, w.1, same, fresh))
      | inr v ↦ m.known i j v
    ];
    different =
        AreDifferent-append (identity added) state.ready_jobs
          (λ k. let (j, w) = m.waits (identity added) k in find_job-none jobs added j new w.0)
          m.different;
  }

  pub added-elsewhere :
      (state : ResourceSchedulingState)
      → id_of state ≢ added.resource_id
      → Managed jobs state
      → Managed (jobs ++ added ∷ []) state
  added-elsewhere state n m = record {
    waits = λ i k.
        let (j, w) = m.waits i k in (j, StoredAs-kept JobLifecycle.ready (id_of state) i j w);
    listed = λ i j w. elim (StoredAs-added JobLifecycle.ready (id_of state) i j w) [
      | inl (e, same) ↦ absurd (n (sym w.2 ∙ ap (λ (y : JobState). y.resource_id) same))
      | inr v ↦ m.listed i j v
    ];
    running = λ i k.
        let (j, w) = m.running i k in (j, StoredAs-kept JobLifecycle.running (id_of state) i j w);
    known = λ i j w. elim (StoredAs-added JobLifecycle.running (id_of state) i j w) [
      | inl (e, same) ↦ absurd (n (sym w.2 ∙ ap (λ (y : JobState). y.resource_id) same))
      | inr v ↦ m.known i j v
    ];
    different = m.different;
  }
