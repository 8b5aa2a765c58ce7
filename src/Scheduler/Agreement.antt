-- ===== src/Scheduler/Agreement.antt =====
-- The operations of the scheduler keep every resource in agreement with the store of the jobs.
use cpssim.Base.{
  ℕ, ◌≡◌, sym, subst, ap, ◌∙◌, inl, inr, Bool, false, List, [], ◌∷◌, ◌++◌, ok, arith, All-map,
  Bool-cases, Result-cases,
}
use cpssim.Event.{Event}
use cpssim.Specs.{ResourceSpec}
use cpssim.Queue.{EventQueue}
use cpssim.Runtime.{
  JobState, JobIdentity, JobLifecycle, identity, same_identity, mark_deadline_missed,
}
use cpssim.Config.{any}
use cpssim.Policy.{find_job}
use cpssim.Scheduler.{
  ResourceSchedulingState, Scheduler, update_job, update_state, resource_state, schedule_deadline,
  submit, process_deadline, schedule,
}
use cpssim.Scheduler.Cycle.{schedule_result}
use cpssim.Scheduler.Completion.{Completed, process_deadline-Checked}
use cpssim.Scheduler.Overlap.{find_job_self}
use cpssim.Scheduler.Store.{find_job-append, same_identity-equal, same_identity-different}
use cpssim.Scheduler.Managed.{StoredAs, Managed, update_job-Local, Managed-Local}
use cpssim.Scheduler.Changes.{
  StoredAs-split, StoredAs-other, StoredAs-self, charge_execution-Stopping, complete-Managed,
}
use cpssim.Scheduler.Consistency.{
  id_of, IsConsistent, Each-resource_state, Each-AreSeparate, schedule_states-Cycled,
}
use cpssim.Scheduler.Entries.{resource_state-All, update_state-All, update_state-Each}
use cpssim.Scheduler.Submission.{added-Managed, added-elsewhere}

-- What an accepted submission found and did.
record Submitted (scheduler : Scheduler) (job : JobState) (scheduler' : Scheduler) : Type 0 where
  state : ResourceSchedulingState
  located : resource_state scheduler.resource_states job.resource_id ≡ ok state
  fresh : job.lifecycle ≡ JobLifecycle.ready
  new : any (λ stored. same_identity (identity stored) (identity job)) scheduler.jobs ≡ false
  jobs_eq : scheduler'.jobs ≡ scheduler.jobs ++ job ∷ []
  states_eq :
      scheduler'.resource_states
      ≡ update_state
          (record state { ready_jobs = state.ready_jobs ++ identity job ∷ [] })
          scheduler.resource_states

submit-Submitted :
    (scheduler : Scheduler) (job : JobState) (queue : EventQueue) (scheduler' : Scheduler)
    (queue' : EventQueue)
    → submit scheduler job queue ≡ ok (scheduler', queue')
    → Submitted scheduler job scheduler'
submit-Submitted scheduler job queue scheduler' queue' h =
    elim (Result-cases (resource_state scheduler.resource_states job.resource_id)) [
      | inr (error, f) ↦ absurd (unfold submit in ground (arith, f))
      | inl (state, f) ↦ elim (Result-cases (schedule_deadline scheduler.stop_tick job queue)) [
        | inr (error, g) ↦ absurd (unfold submit in ground (arith, f, g))
        | inl (q, g) ↦ record {
          state = state;
          located = f;
          fresh = unfold submit in ground (arith, f, g);
          new = unfold submit in ground (arith, f, g);
          jobs_eq = unfold submit in ground (arith, f, g);
          states_eq = unfold submit in ground (arith, f, g);
        }
      ]
    ]

pub submit-IsConsistent :
    (scheduler : Scheduler) (job : JobState) (queue : EventQueue) (scheduler' : Scheduler)
    (queue' : EventQueue)
    → IsConsistent scheduler.jobs scheduler.resource_states
    → submit scheduler job queue ≡ ok (scheduler', queue')
    → IsConsistent scheduler'.jobs scheduler'.resource_states
submit-IsConsistent scheduler job queue scheduler' queue' c h =
    let s = submit-Submitted scheduler job queue scheduler' queue' h in
    let states = scheduler.resource_states in
    let changed = record s.state { ready_jobs = s.state.ready_jobs ++ identity job ∷ [] } in
    let (m, own) =
      resource_state-All (Managed scheduler.jobs) states job.resource_id s.state c.managed
        s.located in
    rw (s.jobs_eq, s.states_eq)
      (record {
        managed =
            update_state-All (Managed scheduler.jobs) (Managed (scheduler.jobs ++ job ∷ [])) changed
              states c.managed c.separate
              (added-Managed scheduler.jobs job s.new s.fresh s.state own m)
              (λ x k n.
                added-elsewhere scheduler.jobs job s.new s.fresh x (λ e. n (e ∙ sym own)) k);
        separate =
            Each-AreSeparate states (update_state changed states) (update_state-Each changed states)
              c.separate;
        placed = λ id found f. elim (find_job-append scheduler.jobs job id found s.new f) [
          | inl (e, same) ↦ rw same (
              Each-resource_state states (update_state changed states) job.resource_id s.state
                (update_state-Each changed states) s.located)
          | inr (n, g) ↦
              let (x, k) = c.placed id found g in
              Each-resource_state states (update_state changed states) found.resource_id x
                (update_state-Each changed states) k
        ];
      })

pub complete-IsConsistent :
    (scheduler : Scheduler) (event : Event) (id : JobIdentity) (r : ℕ) (scheduler' : Scheduler)
    → IsConsistent scheduler.jobs scheduler.resource_states
    → Completed scheduler event id r scheduler'
    → IsConsistent scheduler'.jobs scheduler'.resource_states
complete-IsConsistent scheduler event id r scheduler' c s =
    let states = scheduler.resource_states in
    let changed : ResourceSchedulingState = record s.state { resource = s.resource } in
    let x =
      charge_execution-Stopping s.state.resource s.job event.tick s.resource s.job' s.charge in
    let stored = find_job_self scheduler.jobs id s.job s.stored in
    let (m, own) =
      resource_state-All (Managed scheduler.jobs) states r s.state c.managed s.located in
    let place = update_job-Local s.job s.job' scheduler.jobs (rw x.same stored) x.place in
    rw s.result (record {
      managed =
          update_state-All (Managed scheduler.jobs) (Managed (update_job s.job' scheduler.jobs))
            changed states c.managed c.separate
            (complete-Managed scheduler.jobs s.state.ready_jobs s.state.resource s.resource s.job
              s.job' m stored x)
            (λ y k n.
              Managed-Local s.job.resource_id scheduler.jobs (update_job s.job' scheduler.jobs) y
                place (λ e. n (e ∙ x.here ∙ sym (ap (λ (z : ResourceSpec). z.id) x.spec))) k);
      separate =
          Each-AreSeparate states (update_state changed states) (update_state-Each changed states)
            c.separate;
      placed = λ i found f.
          let (old, g, e, k) = place.back i found f in
          let (y, u) = c.placed i old g in
          rw⁻¹ e (
            Each-resource_state states (update_state changed states) old.resource_id y
              (update_state-Each changed states) u);
    })

-- A change that keeps the stage of a job and its place keeps every resource in agreement.
module _ (jobs : List JobState) (old changed : JobState)
    (stored : find_job jobs (identity changed) ≡ ok old) (stage : changed.lifecycle ≡ old.lifecycle)
    (place : changed.resource_id ≡ old.resource_id) where
  same_stage-forth :
      (s : JobLifecycle) (r : ℕ) (id : JobIdentity) (job : JobState)
      → StoredAs s jobs r id job
      → (job' : JobState) × StoredAs s (update_job changed jobs) r id job'
  same_stage-forth s r id job (f, w, o) = elim (Bool-cases (same_identity id (identity changed))) [
    | inl e ↦
        let i = same_identity-equal id (identity changed) e in
        let own : job ≡ old = ground (arith, rw i at f, stored) in
        (
          changed,
          rw i (
              StoredAs-self old changed jobs stored s r
                (stage ∙ ap (λ (y : JobState). y.lifecycle) (sym own) ∙ w)
                (place ∙ ap (λ (y : JobState). y.resource_id) (sym own) ∙ o)),
        )
    | inr e ↦ (
      job,
      StoredAs-other old changed jobs stored s r id job
          (same_identity-different id (identity changed) e) (f, w, o),
    )
  ]

  same_stage-back :
      (s : JobLifecycle) (r : ℕ) (id : JobIdentity) (job : JobState)
      → StoredAs s (update_job changed jobs) r id job
      → (job' : JobState) × StoredAs s jobs r id job'
  same_stage-back s r id job w = elim (StoredAs-split old changed jobs stored s r id job w) [
    | inl (e, own) ↦ (
      old,
      (
        rw e stored,
        sym stage ∙ ap (λ (y : JobState). y.lifecycle) (sym own) ∙ w.1,
        sym place ∙ ap (λ (y : JobState). y.resource_id) (sym own) ∙ w.2,
      ),
    )
    | inr (n, v) ↦ (job, v)
  ]

  same_stage-Managed :
      (state : ResourceSchedulingState)
      → Managed jobs state
      → Managed (update_job changed jobs) state
  same_stage-Managed state m = record {
    waits =
        λ i k. let (j, w) = m.waits i k in same_stage-forth JobLifecycle.ready (id_of state) i j w;
    listed = λ i j w.
        let (x, v) = same_stage-back JobLifecycle.ready (id_of state) i j w in m.listed i x v;
    running = λ i k.
        let (j, w) = m.running i k in same_stage-forth JobLifecycle.running (id_of state) i j w;
    known = λ i j w.
        let (x, v) = same_stage-back JobLifecycle.running (id_of state) i j w in m.known i x v;
    different = m.different;
  }

mark_deadline_missed-keeps :
    (job : JobState) (tick : ℕ) (missed : Bool) (job' : JobState)
    → mark_deadline_missed job tick ≡ ok (missed, job')
    → (identity job' ≡ identity job)
      × (job'.lifecycle ≡ job.lifecycle)
      × (job'.resource_id ≡ job.resource_id)
unfolding mark_deadline_missed
mark_deadline_missed-keeps job tick missed job' h = (ground arith, ground arith, ground arith)

pub check-IsConsistent :
    (scheduler : Scheduler) (event : Event) (missed : Bool) (scheduler' : Scheduler)
    → IsConsistent scheduler.jobs scheduler.resource_states
    → process_deadline scheduler event ≡ ok (missed, scheduler')
    → IsConsistent scheduler'.jobs scheduler'.resource_states
check-IsConsistent scheduler event missed scheduler' c h =
    let s = process_deadline-Checked scheduler event missed scheduler' h in
    let (i, w, o) = mark_deadline_missed-keeps s.job event.tick missed s.job' s.mark in
    let stored : find_job scheduler.jobs (identity s.job') ≡ ok s.job =
      rw i (find_job_self scheduler.jobs s.id s.job s.stored) in
    rw s.result (record {
      managed =
          All-map (Managed scheduler.jobs) (Managed (update_job s.job' scheduler.jobs))
            (λ x m. same_stage-Managed scheduler.jobs s.job s.job' stored w o x m)
            scheduler.resource_states c.managed;
      separate = c.separate;
      placed = λ id found f.
          let (old, g, e, k) =
            (update_job-Local s.job s.job' scheduler.jobs stored o).back id found f in
          let (y, u) = c.placed id old g in
          (y, subst (λ r. resource_state scheduler.resource_states r ≡ ok y) e u);
    })

pub schedule-IsConsistent :
    (scheduler : Scheduler) (tick : ℕ) (queue : EventQueue) (scheduler' : Scheduler)
    (queue' : EventQueue)
    → IsConsistent scheduler.jobs scheduler.resource_states
    → schedule scheduler tick queue ≡ ok (scheduler', queue')
    → IsConsistent scheduler'.jobs scheduler'.resource_states
schedule-IsConsistent scheduler tick queue scheduler' queue' c h =
    let k =
      schedule_states-Cycled scheduler tick scheduler.jobs scheduler.resource_states queue
        scheduler'.jobs scheduler'.resource_states queue' c.managed c.separate
        (schedule_result scheduler tick queue scheduler' queue' h) in
    record {
      managed = k.managed;
      separate =
          Each-AreSeparate scheduler.resource_states scheduler'.resource_states k.specs c.separate;
      placed = λ id found f.
          let (old, g, e) = k.places id found f in
          let (y, u) = c.placed id old g in
          subst
            (λ r.
              (state : ResourceSchedulingState) × (resource_state scheduler'.resource_states r
                ≡ ok state))
            e
            (Each-resource_state scheduler.resource_states scheduler'.resource_states
              old.resource_id y k.specs u);
    }
