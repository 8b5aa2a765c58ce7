-- ===== src/Scheduler/Waiting.antt =====
-- The ready list of a resource as a set of identities: insertion at the end and erase_identity.
use cpssim.Base.{
  ◌≡◌, ◌≢◌, ◌⊎◌, sym, subst, ◌∙◌, inl, inr, true, List, [], ◌∷◌, ◌++◌, Bool-cases, All-In, In,
  Chain, Chain-append, All-tabulate, arith,
}
use cpssim.Runtime.{JobIdentity, same_identity}
use cpssim.Scheduler.{erase_identity, is_member}
use cpssim.Scheduler.Priority.{All-erase_identity}
use cpssim.Scheduler.Store.{same_identity-equal, same_identity-different}

pub In-append :
    (id new : JobIdentity) (ids : List JobIdentity)
    → In id (ids ++ new ∷ [])
    → In id ids ⊎ (new ≡ id)
In-append id new [] (inl e) = inr e
In-append id new [] (inr m) = absurd m
In-append id new (x ∷ ids) (inl e) = inl (inl e)
In-append id new (x ∷ ids) (inr m) = elim (In-append id new ids m) [
  | inl k ↦ inl (inr k)
  | inr e ↦ inr e
]

pub append-In :
    (id new : JobIdentity) (ids : List JobIdentity)
    → In id ids ⊎ (new ≡ id)
    → In id (ids ++ new ∷ [])
append-In id new [] (inl m) = absurd m
append-In id new [] (inr e) = inl e
append-In id new (x ∷ ids) (inl (inl e)) = inl e
append-In id new (x ∷ ids) (inl (inr m)) = inr (append-In id new ids (inl m))
append-In id new (x ∷ ids) (inr e) = inr (append-In id new ids (inr e))

pub is_member-In : (id : JobIdentity) (ids : List JobIdentity) → is_member id ids ≡ true → In id ids
is_member-In id [] h = cc
is_member-In id (x ∷ ids) h = elim (Bool-cases (same_identity x id)) [
  | inl e ↦ inl (same_identity-equal x id e)
  | inr e ↦ inr (is_member-In id ids (ground (arith, e, h)))
]

-- No identity stands twice.
abbrev pub AreDifferent : List JobIdentity → Type 0
AreDifferent ids = Chain (λ (a b : JobIdentity). a ≢ b) ids

pub AreDifferent-append :
    (new : JobIdentity) (ids : List JobIdentity)
    → ¬ In new ids
    → AreDifferent ids
    → AreDifferent (ids ++ new ∷ [])
AreDifferent-append new ids n d =
    Chain-append (λ (a b : JobIdentity). a ≢ b) ids new d
      (All-tabulate (λ a. a ≢ new) ids (λ a m e. n (subst (λ x. In x ids) e m)))

pub In-erase_identity :
    (id old : JobIdentity) (ids : List JobIdentity) → In id (erase_identity old ids) → In id ids
unfolding erase_identity
In-erase_identity id old [] m = m
In-erase_identity id old (x ∷ ids) m = elim (Bool-cases (same_identity x old)) [
  | inl e ↦ inr (rw e at m)
  | inr e ↦
      let k : (x ≡ id) ⊎ In id (erase_identity old ids) = rw e at m in
      elim k [ inl same ↦ inl same | inr later ↦ inr (In-erase_identity id old ids later) ]
]

pub erase_identity-In :
    (id old : JobIdentity) (ids : List JobIdentity)
    → In id ids
    → id ≢ old
    → In id (erase_identity old ids)
unfolding erase_identity
erase_identity-In id old [] m n = m
erase_identity-In id old (x ∷ ids) m n = elim (Bool-cases (same_identity x old)) [
  | inl e ↦ rw e (elim m [
    | inl same ↦ absurd (n (sym same ∙ same_identity-equal x old e))
    | inr later ↦ later
  ])
  | inr e ↦
      rw e (elim m [ inl same ↦ inl same | inr later ↦ inr (erase_identity-In id old ids later n) ])
]

-- The erased identity is gone.
pub erase_identity-gone :
    (old : JobIdentity) (ids : List JobIdentity)
    → AreDifferent ids
    → ¬ In old (erase_identity old ids)
unfolding erase_identity
erase_identity-gone old [] d m = m
erase_identity-gone old (x ∷ ids) (others, d) m = elim (Bool-cases (same_identity x old)) [
  | inl e ↦
      let k : In old ids = rw e at m in
      All-In (λ b. x ≢ b) old ids others k (same_identity-equal x old e)
  | inr e ↦
      let k : (x ≡ old) ⊎ In old (erase_identity old ids) = rw e at m in
      elim k [
        | inl same ↦ same_identity-different x old e same
        | inr later ↦ erase_identity-gone old ids d later
      ]
]

pub AreDifferent-erase_identity :
    (old : JobIdentity) (ids : List JobIdentity)
    → AreDifferent ids
    → AreDifferent (erase_identity old ids)
unfolding erase_identity
AreDifferent-erase_identity old [] d = tt
AreDifferent-erase_identity old (x ∷ ids) (others, d) = elim (Bool-cases (same_identity x old)) [
  | inl e ↦ rw e d
  | inr e ↦
      rw e (All-erase_identity (λ b. x ≢ b) old ids others, AreDifferent-erase_identity old ids d)
]
