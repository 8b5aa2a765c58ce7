-- ===== src/Scheduler/Beginning.antt =====
-- A new scheduler: sorted resources with different numbers, and nothing stored.
use cpssim.Base.{
  ◌≤◌, ◌<◌, ◌≡◌, ◌≢◌, List, [], ◌∷◌, ok, arith, All, All-map, Chain, sort, sort-All, sort-Chain, ℤ,
}
use cpssim.Specs.{ResourceSpec, SchedulingSpec}
use cpssim.Policy.{SchedulingPolicy, find_job}
use cpssim.Scheduler.{
  ResourceSchedulingState, Scheduler, new_states, state_before, check_adjacent, check_unique,
  new_scheduler,
}
use cpssim.Scheduler.Managed.{Managed}
use cpssim.Scheduler.Consistency.{id_of, AreSeparate, IsConsistent}

-- The resources of a new scheduler.
abbrev Ascending : List ResourceSchedulingState → Type 0
Ascending states = Chain (λ (a b : ResourceSchedulingState). id_of a ≤ id_of b) states

check_adjacent-AreSeparate :
    (state : ResourceSchedulingState) (states : List ResourceSchedulingState)
    → Ascending (state ∷ states)
    → check_adjacent state states ≡ ok tt
    → Chain (λ (a b : ResourceSchedulingState). id_of a < id_of b) (state ∷ states)
check_adjacent-AreSeparate state [] a h = (tt, tt)
check_adjacent-AreSeparate state (x ∷ xs) ((le, les), a) h =
    let rest = check_adjacent-AreSeparate x xs a (unfold check_adjacent in ground (arith, h)) in
    let lt : id_of state < id_of x = unfold check_adjacent in ground (arith, h, le) in
    (
      (
        lt,
        All-map (λ (b : ResourceSchedulingState). id_of x < id_of b)
            (λ (b : ResourceSchedulingState). id_of state < id_of b) (λ b k. omega (arith, lt)) xs
            rest.0,
      ),
      rest,
    )

ascending-AreSeparate :
    (states : List ResourceSchedulingState)
    → Chain (λ (a b : ResourceSchedulingState). id_of a < id_of b) states
    → AreSeparate states
ascending-AreSeparate [] c = tt
ascending-AreSeparate (x ∷ xs) (lt, c) = (
  All-map (λ (b : ResourceSchedulingState). id_of x < id_of b)
      (λ (b : ResourceSchedulingState). id_of x ≢ id_of b) (λ b k e. omega (arith, k, e)) xs lt,
  ascending-AreSeparate xs c,
)

check_unique-AreSeparate :
    (states : List ResourceSchedulingState)
    → Ascending states
    → check_unique states ≡ ok tt
    → AreSeparate states
unfolding check_unique
check_unique-AreSeparate [] a h = tt
check_unique-AreSeparate (x ∷ xs) a h =
    ascending-AreSeparate (x ∷ xs) (check_adjacent-AreSeparate x xs a h)

state_before-Ascending :
    (states : List ResourceSchedulingState) → Ascending (sort state_before states)
state_before-Ascending states =
    sort-Chain state_before (λ _ _. Unit {0}) (λ (a b : ResourceSchedulingState). id_of a ≤ id_of b)
      (λ a b _ h. ground (arith, h)) (λ a b _ h. ground (arith, h))
      (λ a b c h k. omega (arith, h, k)) states (every states)
  where
    all : (x : ResourceSchedulingState) (xs : List ResourceSchedulingState) → All (λ _. Unit {0}) xs
    all x [] = tt
    all x (y ∷ ys) = (tt, all x ys)

    every : (xs : List ResourceSchedulingState) → Chain (λ _ _. Unit {0}) xs
    every [] = tt
    every (x ∷ xs) = (all x xs, every xs)

new_states-Managed : (specs : List ResourceSpec) → All (Managed []) (new_states specs)
unfolding find_job
new_states-Managed [] = tt
new_states-Managed (spec ∷ specs) = (
  record {
    waits = λ id k. absurd k;
    listed = λ id job w. absurd (ground (arith, w.0));
    running = λ id k. absurd (ground (arith, k));
    known = λ id job w. absurd (ground (arith, w.0));
    different = tt;
  },
  new_states-Managed specs,
)

-- What an accepted construction made.
record Begun (resources : List ResourceSpec) (scheduler : Scheduler) : Type 0 where
  jobs_eq : scheduler.jobs ≡ []
  states_eq : scheduler.resource_states ≡ sort state_before (new_states resources)
  distinct : check_unique (sort state_before (new_states resources)) ≡ ok tt

new_scheduler-Begun :
    (resources : List ResourceSpec) (scheduling : SchedulingSpec) (policy : SchedulingPolicy)
    (stop_tick : ℤ) (scheduler : Scheduler)
    → new_scheduler resources scheduling policy stop_tick ≡ ok scheduler
    → Begun resources scheduler
unfolding new_scheduler
new_scheduler-Begun resources scheduling policy stop_tick scheduler h = record {
  jobs_eq = ground arith;
  states_eq = ground arith;
  distinct = ground arith;
}

pub new_scheduler-IsConsistent :
    (resources : List ResourceSpec) (scheduling : SchedulingSpec) (policy : SchedulingPolicy)
    (stop_tick : ℤ) (scheduler : Scheduler)
    → new_scheduler resources scheduling policy stop_tick ≡ ok scheduler
    → IsConsistent scheduler.jobs scheduler.resource_states
unfolding find_job
new_scheduler-IsConsistent resources scheduling policy stop_tick scheduler h =
    let b = new_scheduler-Begun resources scheduling policy stop_tick scheduler h in
    rw (b.jobs_eq, b.states_eq)
      (record {
        managed =
            sort-All state_before (Managed []) (new_states resources)
              (new_states-Managed resources);
        separate =
            check_unique-AreSeparate (sort state_before (new_states resources))
              (state_before-Ascending (new_states resources)) b.distinct;
        placed = λ id job f. absurd (ground (arith, f));
      })
