-- ===== src/Scheduler/Entries.antt =====
-- The entries of the resources as a map from their numbers: resource_state and update_state.
use cpssim.Base.{
  ℕ, ◌≡◌, ◌≢◌, refl, sym, subst, inl, inr, List, [], ◌∷◌, ok, arith, ◌==◌, ==_iff, All, Bool-cases,
}
use cpssim.Scheduler.{ResourceSchedulingState, update_state, resource_state}
use cpssim.Scheduler.Cycle.{Each}
use cpssim.Scheduler.Consistency.{id_of, AreSeparate, IsOutside, HasId}

-- The entry that is found is the one of the number.
pub resource_state-All :
    (P : ResourceSchedulingState → Type 0) (states : List ResourceSchedulingState) (r : ℕ)
    (state : ResourceSchedulingState)
    → All P states
    → resource_state states r ≡ ok state
    → P state × (id_of state ≡ r)
unfolding resource_state
resource_state-All P [] r state a h = cc
resource_state-All P (x ∷ xs) r state (p, a) h = elim (Bool-cases (id_of x == r)) [
  | inl own ↦
      let e : x ≡ state = ground (arith, own, h) in
      (subst P e p, subst (λ y. id_of y ≡ r) e ((==_iff (id_of x) r).0 own))
  | inr other ↦ resource_state-All P xs r state a (rw other at h)
]

pub update_state-All :
    (P Q : ResourceSchedulingState → Type 0) (changed : ResourceSchedulingState)
    (states : List ResourceSchedulingState)
    → All P states
    → AreSeparate states
    → Q changed
    → ((x : ResourceSchedulingState) → P x → id_of x ≢ id_of changed → Q x)
    → All Q (update_state changed states)
unfolding update_state
update_state-All P Q changed [] a d q f = tt
update_state-All P Q changed (x ∷ xs) (p, a) (n, d) q f =
    elim (Bool-cases (id_of x == id_of changed)) [
      | inl own ↦
          let e = (==_iff (id_of x) (id_of changed)).0 own in
          rw own (q, rest xs a (subst (λ r. IsOutside r xs) e n))
      | inr other ↦
          rw other (f x p (λ e. ground (arith, other, e)), update_state-All P Q changed xs a d q f)
    ]
  where
    rest : (ys : List ResourceSchedulingState) → All P ys → IsOutside (id_of changed) ys → All Q ys
    rest [] a o = tt
    rest (y ∷ ys) (p, a) (n, o) = (f y p (λ e. n (sym e)), rest ys a o)

Each-HasId : (states : List ResourceSchedulingState) → Each HasId states states
Each-HasId [] = tt
Each-HasId (x ∷ xs) = (refl, Each-HasId xs)

pub update_state-Each :
    (changed : ResourceSchedulingState) (states : List ResourceSchedulingState)
    → Each HasId states (update_state changed states)
unfolding update_state
update_state-Each changed [] = tt
update_state-Each changed (x ∷ xs) = elim (Bool-cases (id_of x == id_of changed)) [
  | inl own ↦ rw own (sym ((==_iff (id_of x) (id_of changed)).0 own), Each-HasId xs)
  | inr other ↦ rw other (refl, update_state-Each changed xs)
]
