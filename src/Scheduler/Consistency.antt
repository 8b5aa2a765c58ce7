-- ===== src/Scheduler/Consistency.antt =====
-- The whole scheduler: every resource in agreement with the store, over each of its operations.
use cpssim.Base.{
  ℕ, ◌≡◌, ◌≢◌, refl, sym, subst, ap, ◌∙◌, inl, inr, List, [], ◌∷◌, ok, arith, ◌==◌, All, Chain,
  Bool-cases,
}
use cpssim.Specs.{ResourceSpec}
use cpssim.Queue.{EventQueue}
use cpssim.Runtime.{JobState, JobIdentity}
use cpssim.Policy.{find_job}
use cpssim.Scheduler.{ResourceSchedulingState, Scheduler, resource_state, schedule_states}
use cpssim.Scheduler.Cycle.{Each, schedule_states-Step}
use cpssim.Scheduler.Managed.{
  Managed, Local, Untouched, Untouched-refl, Untouched-trans, Local-Untouched, Managed-Untouched,
  Managed-Local,
}
use cpssim.Scheduler.Turns.{Served-Kept}

abbrev pub id_of : ResourceSchedulingState → ℕ
id_of state = state.resource.spec.id

-- No two resources have the same number.
abbrev pub AreSeparate : List ResourceSchedulingState → Type 0
AreSeparate states = Chain (λ (a b : ResourceSchedulingState). id_of a ≢ id_of b) states

-- The resource is none of the list.
abbrev pub IsOutside : ℕ → List ResourceSchedulingState → Type 0
IsOutside r states = All (λ (s : ResourceSchedulingState). r ≢ id_of s) states

-- Every resource agrees with the store, and every stored job has its resource.
pub record IsConsistent (jobs : List JobState) (states : List ResourceSchedulingState)
    : Type 0 where
  pub managed : All (Managed jobs) states
  pub separate : AreSeparate states
  pub placed :
      (id : JobIdentity) (job : JobState)
      → find_job jobs id ≡ ok job
      → (state : ResourceSchedulingState) × (resource_state states job.resource_id ≡ ok state)

abbrev pub HasId : ResourceSchedulingState → ResourceSchedulingState → Type 0
HasId before after = id_of after ≡ id_of before

-- The same resources in the same order.
pub Each-resource_state :
    (states states' : List ResourceSchedulingState) (r : ℕ) (state : ResourceSchedulingState)
    → Each HasId states states'
    → resource_state states r ≡ ok state
    → (state' : ResourceSchedulingState) × (resource_state states' r ≡ ok state')
unfolding resource_state
Each-resource_state [] states' r state e h = cc
Each-resource_state (x ∷ xs) [] r state e h = absurd e
Each-resource_state (x ∷ xs) (y ∷ ys) r state (e, es) h = elim (Bool-cases (id_of x == r)) [
  | inl own ↦ (y, ground (arith, e, own))
  | inr other ↦
      let (z, k) = Each-resource_state xs ys r state es (rw other at h) in
      (z, ground (arith, e, other, k))
]

Each-IsOutside :
    (r : ℕ) (states states' : List ResourceSchedulingState)
    → Each HasId states states'
    → IsOutside r states
    → IsOutside r states'
Each-IsOutside r [] [] e o = tt
Each-IsOutside r [] (y ∷ ys) e o = absurd e
Each-IsOutside r (x ∷ xs) [] e o = absurd e
Each-IsOutside r (x ∷ xs) (y ∷ ys) (e, es) (n, o) = ((λ k. n (k ∙ e)), Each-IsOutside r xs ys es o)

pub Each-AreSeparate :
    (states states' : List ResourceSchedulingState)
    → Each HasId states states'
    → AreSeparate states
    → AreSeparate states'
Each-AreSeparate [] [] e s = tt
Each-AreSeparate [] (y ∷ ys) e s = absurd e
Each-AreSeparate (x ∷ xs) [] e s = absurd e
Each-AreSeparate (x ∷ xs) (y ∷ ys) (e, es) (n, s) = (
  subst (λ r. IsOutside r ys) (sym e) (Each-IsOutside (id_of x) xs ys es n),
  Each-AreSeparate xs ys es s,
)

-- What the loop over the resources leaves.
pub record Cycled (jobs : List JobState) (states : List ResourceSchedulingState)
    (jobs' : List JobState) (states' : List ResourceSchedulingState) : Type 0 where
  pub managed : All (Managed jobs') states'
  pub specs : Each HasId states states'
  pub others : (r : ℕ) → IsOutside r states → Untouched r jobs jobs'
  pub places :
      (id : JobIdentity) (job' : JobState)
      → find_job jobs' id ≡ ok job'
      → (job : JobState) × (find_job jobs id ≡ ok job) × (job.resource_id ≡ job'.resource_id)

pub outside-Managed :
    (r : ℕ) (jobs jobs' : List JobState) (states : List ResourceSchedulingState)
    → Local r jobs jobs'
    → IsOutside r states
    → All (Managed jobs) states
    → All (Managed jobs') states
outside-Managed r jobs jobs' [] l o m = tt
outside-Managed r jobs jobs' (x ∷ xs) l (n, o) (m, ms) =
    (Managed-Local r jobs jobs' x l (λ e. n (sym e)) m, outside-Managed r jobs jobs' xs l o ms)

schedule_states-nil :
    (scheduler : Scheduler) (tick : ℕ) (jobs : List JobState) (queue : EventQueue)
    (jobs' : List JobState) (states' : List ResourceSchedulingState) (queue' : EventQueue)
    → schedule_states scheduler tick jobs [] queue ≡ ok (jobs', states', queue')
    → (jobs' ≡ jobs) × (states' ≡ [])
unfolding schedule_states
schedule_states-nil scheduler tick jobs queue jobs' states' queue' h = (ground arith, ground arith)

pub schedule_states-Cycled :
    (scheduler : Scheduler) (tick : ℕ) (jobs : List JobState)
    (states : List ResourceSchedulingState) (queue : EventQueue) (jobs' : List JobState)
    (states' : List ResourceSchedulingState) (queue' : EventQueue)
    → All (Managed jobs) states
    → AreSeparate states
    → schedule_states scheduler tick jobs states queue ≡ ok (jobs', states', queue')
    → Cycled jobs states jobs' states'
schedule_states-Cycled scheduler tick jobs [] queue jobs' states' queue' m d h =
    let (e, f) = schedule_states-nil scheduler tick jobs queue jobs' states' queue' h in
    rw (e, f)
      (record {
        managed = tt;
        specs = tt;
        others = λ r o. Untouched-refl r jobs;
        places = λ id job g. (job, g, refl);
      })
schedule_states-Cycled scheduler tick jobs (state ∷ states) queue jobs' states' queue' (m, ms)
      (n, d) h =
    let s = schedule_states-Step scheduler tick jobs state states queue jobs' states' queue' h in
    let k =
      Served-Kept scheduler (record { jobs = jobs; state = state; queue = queue }) tick s.turn m
        s.served in
    let same : id_of s.turn.state ≡ id_of state = ap (λ (x : ResourceSpec). x.id) k.spec in
    let rest =
      schedule_states-Cycled scheduler tick s.turn.jobs states s.turn.queue jobs' s.rest queue'
        (outside-Managed (id_of state) jobs s.turn.jobs states k.place n ms) d s.later in
    let here : IsOutside (id_of s.turn.state) states = rw same n in
    rw s.states_eq (record {
      managed = (
        Managed-Untouched s.turn.jobs jobs' s.turn.state (rest.others (id_of s.turn.state) here)
            k.managed,
        rest.managed,
      );
      specs = (same, rest.specs);
      others = λ r (o, os).
          Untouched-trans r jobs s.turn.jobs jobs'
            (Local-Untouched (id_of state) r jobs s.turn.jobs k.place o) (rest.others r os);
      places = λ id job f.
          let (between, g, e) = rest.places id job f in
          let (before, u, i, c) = k.place.back id between g in (before, u, i ∙ e);
    })
