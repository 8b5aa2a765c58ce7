-- ===== src/Base/Sort.antt =====
-- std::sort and the insertion into a heap, for a comparator that is a strict total order.
use mathlib.Core.List.Perm
use mathlib.Core.List.{List, [], ◌∷◌, Perm}
use mathlib.Core.Path.{◌≡◌}
use mathlib.Core.Logic.{inl, inr}
use mathlib.Core.Bool.{Bool, true, false}
use cpssim.Base.Tests.{if◌then◌else◌, Bool-cases}
use cpssim.Base.Lists.{All, Chain, In, All-In, All-tabulate}
use mathlib.Core.Logic.{◌↔◌}

module _ {ℓ} {A : Type ℓ} (before : A → A → Bool) where
  -- Puts `a` in front of the first entry that it comes before.
  unfoldable pub insert : A → List A → List A
  insert a [] = a ∷ []
  insert a (x ∷ xs) = if before a x then a ∷ x ∷ xs else x ∷ insert a xs

  unfoldable pub sort : List A → List A
  unfolding insert
  sort [] = []
  sort (x ∷ xs) = insert x (sort xs)

module _ {ℓ} {A : Type ℓ} (before : A → A → Bool) where
  pub insert-perm : (a : A) (xs : List A) → Perm (insert before a xs) (a ∷ xs)
  unfolding insert
  insert-perm a [] = Perm.rfl
  insert-perm a (x ∷ xs) = elim (Bool-cases (before a x)) [
    | inl h ↦ rw h Perm.rfl
    | inr h ↦ rw h (Perm.trans (Perm.cons x (insert-perm a xs)) (Perm.swap a x xs))
  ]

  pub sort-perm : (xs : List A) → Perm (sort before xs) xs
  unfolding sort
  sort-perm [] = Perm.rfl
  sort-perm (x ∷ xs) = Perm.trans (insert-perm x (sort before xs)) (Perm.cons x (sort-perm xs))

  pub insert-All {κ} :
      (P : A → Type κ) (a : A) (xs : List A) → P a → All P xs → All P (insert before a xs)
  unfolding insert
  insert-All P a [] h hs = (h, tt)
  insert-All P a (x ∷ xs) h hs = elim (Bool-cases (before a x)) [
    | inl e ↦ rw e (h, hs)
    | inr e ↦ rw e (hs.0, insert-All P a xs h hs.1)
  ]

  pub sort-All {κ} : (P : A → Type κ) (xs : List A) → All P xs → All P (sort before xs)
  unfolding sort
  sort-All P [] h = tt
  sort-All P (x ∷ xs) h = insert-All P x (sort before xs) h.0 (sort-All P xs h.1)

  pub All-insert {κ} :
      (P : A → Type κ) (a : A) (xs : List A) → All P (insert before a xs) → P a × All P xs
  unfolding insert
  All-insert P a [] h = h
  All-insert P a (x ∷ xs) h = elim (Bool-cases (before a x)) [
    | inl e ↦ rw e at h
    | inr e ↦
        let k : P x × All P (insert before a xs) = rw e at h in
        let (p, q) = All-insert P a xs k.1 in (p, (k.0, q))
  ]

  pub All-sort {κ} : (P : A → Type κ) (xs : List A) → All P (sort before xs) → All P xs
  unfolding sort
  All-sort P [] h = tt
  All-sort P (x ∷ xs) h = let (p, q) = All-insert P x (sort before xs) h in (p, All-sort P xs q)

-- The comparator decides a strict order `R` between entries that are distinct in the sense of `D`.
module _ {ℓ κ μ} {A : Type ℓ} (before : A → A → Bool) (D : A → A → Type κ) (R : A → A → Type μ)
    (sound : (a b : A) → D a b → before a b ≡ true → R a b)
    (other : (a b : A) → D a b → before a b ≡ false → R b a)
    (trans : (a b c : A) → R a b → R b c → R a c) where
  All-trans : (a b : A) (xs : List A) → R a b → All (R b) xs → All (R a) xs
  All-trans a b [] r h = tt
  All-trans a b (x ∷ xs) r h = (trans a b x r h.0, All-trans a b xs r h.1)

  pub insert-Chain :
      (a : A) (xs : List A) → All (D a) xs → Chain R xs → Chain R (insert before a xs)
  unfolding insert
  insert-Chain a [] d c = (tt, tt)
  insert-Chain a (x ∷ xs) d c = elim (Bool-cases (before a x)) [
    | inl e ↦ let r = sound a x d.0 e in rw e ((r, All-trans a x xs r c.0), c)
    | inr e ↦ rw e (insert-All before (R x) a xs (other a x d.0 e) c.0, insert-Chain a xs d.1 c.1)
  ]

  -- A list of distinct entries is sorted into the order.
  pub sort-Chain : (xs : List A) → Chain D xs → Chain R (sort before xs)
  unfolding sort
  sort-Chain [] c = tt
  sort-Chain (x ∷ xs) c =
      insert-Chain x (sort before xs) (sort-All before (D x) xs c.0) (sort-Chain xs c.1)

-- Sorting keeps the entries.
pub In-sort :
    {A : Type 0} (before : A → A → Bool) (x : A) (xs : List A) → In x (sort before xs) ↔ In x xs
In-sort before x xs = (
  (λ h.
      All-In (λ y. In y xs) x (sort before xs)
        (sort-All before (λ y. In y xs) xs (All-tabulate (λ y. In y xs) xs (λ y m. m))) h),
  (λ h.
      All-In (λ y. In y (sort before xs)) x xs
        (All-sort before (λ y. In y (sort before xs)) xs
          (All-tabulate (λ y. In y (sort before xs)) (sort before xs) (λ y m. m)))
        h),
)
