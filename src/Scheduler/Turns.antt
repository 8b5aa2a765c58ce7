-- ===== src/Scheduler/Turns.antt =====
-- A turn of the scheduling cycle keeps its resource in agreement with the store.
use cpssim.Base.{ℕ, ◌≡◌, refl, subst, ap, ◌∙◌, [], ◌∷◌, ◌++◌, ok}
use cpssim.Specs.{ResourceSpec}
use cpssim.Runtime.{JobState, JobIdentity, Resource, identity}
use cpssim.Policy.{find_job}
use cpssim.Policy.Selection.{find_job-identity}
use cpssim.Scheduler.{Scheduler, Turn, update_job, erase_identity}
use cpssim.Scheduler.Dispatch.{Started, Replaced, Served, nothing_ready, goes_on, starts, replaces}
use cpssim.Scheduler.Overlap.{find_job_self}
use cpssim.Scheduler.Managed.{Managed, Local, Local-refl, Local-trans, update_job-Local}
use cpssim.Scheduler.Changes.{
  start_job-Starting, preempt_job-Stopping, start_job-Managed, preempt_job-Managed,
}

-- What a turn leaves: the resource in agreement with the store, other resources not concerned.
pub record Kept (turn turn' : Turn) : Type 0 where
  pub managed : Managed turn'.jobs turn'.state
  pub place : Local turn.state.resource.spec.id turn.jobs turn'.jobs
  pub spec : turn'.state.resource.spec ≡ turn.state.resource.spec

Started-Kept :
    (turn : Turn) (id : JobIdentity) (tick : ℕ) (turn' : Turn)
    → Managed turn.jobs turn.state
    → Started turn id tick turn'
    → Kept turn turn'
Started-Kept turn id tick turn' m s =
    let x = start_job-Starting turn.state.resource s.job tick turn'.state.resource s.job' s.start in
    let own = find_job-identity turn.jobs id s.job s.stored in
    let stored = find_job_self turn.jobs id s.job s.stored in
    let k =
      start_job-Managed turn.jobs turn.state.ready_jobs turn.state.resource turn'.state.resource
        s.job s.job' m stored x in
    let shown : record {
      resource = turn'.state.resource;
      ready_jobs = erase_identity (identity s.job) turn.state.ready_jobs;
    }
        ≡ turn'.state =
      rw (s.ready_eq, own) refl in
    record {
      managed = rw s.jobs_eq (subst (Managed (update_job s.job' turn.jobs)) shown k);
      place = rw s.jobs_eq (
          subst (λ r. Local r turn.jobs (update_job s.job' turn.jobs)) x.here
            (update_job-Local s.job s.job' turn.jobs (rw x.same stored) x.place));
      spec = x.spec;
    }

Replaced-Kept :
    (turn : Turn) (old : JobState) (new : JobIdentity) (tick : ℕ) (turn' : Turn)
    → Managed turn.jobs turn.state
    → find_job turn.jobs (identity old) ≡ ok old
    → Replaced turn old new tick turn'
    → Kept turn turn'
Replaced-Kept turn old new tick turn' m stored s =
    let x = preempt_job-Stopping turn.state.resource old tick s.resource s.preempted s.preemption in
    let k =
      preempt_job-Managed turn.jobs turn.state.ready_jobs turn.state.resource s.resource old
        s.preempted m stored x in
    let shown : record {
      resource = s.resource;
      ready_jobs = turn.state.ready_jobs ++ identity old ∷ [];
    }
        ≡ s.between.state =
      rw (s.between_ready, s.between_resource) refl in
    let middle : Managed s.between.jobs s.between.state =
      rw s.between_jobs (subst (Managed (update_job s.preempted turn.jobs)) shown k) in
    let t = Started-Kept s.between new tick turn' middle s.started in
    let spec : s.between.state.resource.spec ≡ turn.state.resource.spec =
      ap (λ (r : Resource). r.spec) s.between_resource ∙ x.spec in
    let first : Local turn.state.resource.spec.id turn.jobs s.between.jobs = rw s.between_jobs (
      subst (λ r. Local r turn.jobs (update_job s.preempted turn.jobs)) x.here
        (update_job-Local old s.preempted turn.jobs (rw x.same stored) x.place)) in
    record {
      managed = t.managed;
      place =
          Local-trans turn.state.resource.spec.id turn.jobs s.between.jobs turn'.jobs first
            (subst (λ (y : ResourceSpec). Local y.id s.between.jobs turn'.jobs) spec t.place);
      spec = t.spec ∙ spec;
    }

pub Served-Kept :
    (scheduler : Scheduler) (turn : Turn) (tick : ℕ) (turn' : Turn)
    → Managed turn.jobs turn.state
    → Served scheduler turn tick turn'
    → Kept turn turn'
Served-Kept scheduler turn tick turn' m (nothing_ready e p) =
    rw p (record {
      managed = m;
      place = Local-refl turn.state.resource.spec.id turn.jobs;
      spec = refl;
    })
Served-Kept scheduler turn tick turn' m (goes_on current busy p why) =
    rw p (record {
      managed = m;
      place = Local-refl turn.state.resource.spec.id turn.jobs;
      spec = refl;
    })
Served-Kept scheduler turn tick turn' m (starts selected free s st) =
    Started-Kept turn selected tick turn' m st
Served-Kept scheduler turn tick turn' m (replaces selected current old new mode busy s f g won r) =
    Replaced-Kept turn old selected tick turn' m (find_job_self turn.jobs current old f) r
