-- ===== src/Config/Profiles.antt =====
-- What the validation of tasks and of task-resource profiles accepts.
use cpssim.Base.{
  ℕ, ◌≤◌, ◌<◌, ◌≡◌, ◌≢◌, refl, inl, inr, Bool, true, false, List, [], ◌∷◌, ok, Result-cases, pos,
  arith, ◌==◌, ==_iff, Bool-cases, All, In, Any, positive, invalid_argument,
}
use cpssim.Specs.{ResourceSpec, TaskSpec, TaskResourceProfile}
use cpssim.Config.{
  any, check_pairs, same_task, contains_resource, task_deadline, validate_profile,
  validate_profiles_from, check_covered,
}

-- No two tasks have the same number.
abbrev pub AreDistinct : List TaskSpec → Type 0
AreDistinct [] = Unit {0}
AreDistinct (task ∷ tasks) = All (λ t. t.id ≢ task.id) tasks × AreDistinct tasks

-- The profile gives a task of the configuration a demand that its deadline allows, on a resource of
-- the configuration.
pub record IsFeasible (tasks : List TaskSpec) (resources : List ResourceSpec)
    (profile : TaskResourceProfile) : Type 0 where
  pub task : TaskSpec
  pub member : In task tasks
  pub same : task.id ≡ profile.task_id
  pub known : contains_resource resources profile.resource_id ≡ true
  pub demand : ℕ
  pub demand_eq : profile.execution_time ≡ pos demand
  pub demand_pos : 0 < demand
  pub in_time : demand ≤ task.deadline

any-false :
    {A : Type 0} (test : A → Bool) (xs : List A)
    → any test xs ≡ false
    → All (λ x. test x ≡ false) xs
any-false test [] h = tt
any-false test (x ∷ xs) h = elim (Bool-cases (test x)) [
  | inl e ↦ ground (arith, e)
  | inr e ↦ (e, any-false test xs (ground (arith, e)))
]

any-true :
    {A : Type 0} (test : A → Bool) (xs : List A) → any test xs ≡ true → Any (λ x. test x ≡ true) xs
any-true test [] h = cc
any-true test (x ∷ xs) h = elim (Bool-cases (test x)) [
  | inl e ↦ inl e
  | inr e ↦ inr (any-true test xs (ground (arith, e)))
]

-- An accepted list has no entry of the number of one seen before.
pub check_pairs-AreDistinct :
    (seen tasks : List TaskSpec)
    → check_pairs same_task seen tasks ≡ ok tt
    → All (λ t. All (λ s. s.id ≢ t.id) tasks) seen × AreDistinct tasks
check_pairs-AreDistinct seen [] h = (trivial seen, tt)
  where
    trivial : (seen : List TaskSpec) → All (λ t. Unit {0}) seen
    trivial [] = tt
    trivial (t ∷ ts) = (tt, trivial ts)
check_pairs-AreDistinct seen (task ∷ tasks) h = elim (Bool-cases (any (same_task task) seen)) [
  | inl e ↦ ground (arith, e)
  | inr e ↦
      let (l, d) = check_pairs-AreDistinct (task ∷ seen) tasks (ground (arith, e)) in
      (both seen (any-false (same_task task) seen e) l.1, (l.0, d))
]
  where
    both :
        (seen : List TaskSpec)
        → All (λ s. same_task task s ≡ false) seen
        → All (λ t. All (λ s. s.id ≢ t.id) tasks) seen
        → All (λ t. All (λ s. s.id ≢ t.id) (task ∷ tasks)) seen
    both [] a l = tt
    both (s ∷ ss) (n, a) (m, l) = (((λ e. ground (arith, n, e)), m), both ss a l)

task_deadline-In :
    (tasks : List TaskSpec) (id d : ℕ)
    → task_deadline tasks id ≡ ok d
    → (task : TaskSpec) × In task tasks × (task.id ≡ id) × (task.deadline ≡ d)
unfolding task_deadline
task_deadline-In [] id d h = cc
task_deadline-In (task ∷ tasks) id d h = elim (Bool-cases (task.id == id)) [
  | inl e ↦ (task, inl refl, (==_iff _ _).0 e, ground (arith, e))
  | inr e ↦ let (t, m, p, q) = task_deadline-In tasks id d (ground (arith, e)) in (t, inr m, p, q)
]

validate_profile-IsFeasible :
    (tasks : List TaskSpec) (resources : List ResourceSpec) (profile : TaskResourceProfile)
    → validate_profile tasks resources profile ≡ ok tt
    → IsFeasible tasks resources profile
unfolding validate_profile
validate_profile-IsFeasible tasks resources profile h =
    elim (Result-cases (positive profile.execution_time invalid_argument)) [
      | inr (error, f) ↦ ground (arith, f)
      | inl (n, f) ↦ elim (Result-cases (task_deadline tasks profile.task_id)) [
        | inr (error, g) ↦ ground (arith, f, g)
        | inl (d, g) ↦
            let (t, m, p, q) = task_deadline-In tasks profile.task_id d g in
            record {
              task = t;
              member = m;
              same = p;
              known = ground (arith, f, g);
              demand = n;
              demand_eq = ground (arith, f);
              demand_pos = ground (arith, f);
              in_time = ground (arith, f, g, q);
            }
      ]
    ]

pub validate_profiles_from-IsFeasible :
    (tasks : List TaskSpec) (resources : List ResourceSpec)
    (seen profiles : List TaskResourceProfile)
    → validate_profiles_from tasks resources seen profiles ≡ ok tt
    → All (IsFeasible tasks resources) profiles
unfolding validate_profiles_from
validate_profiles_from-IsFeasible tasks resources seen [] h = tt
validate_profiles_from-IsFeasible tasks resources seen (p ∷ ps) h =
    elim (Result-cases (validate_profile tasks resources p)) [
      | inr (error, f) ↦ ground (arith, f)
      | inl (u, f) ↦ (
        validate_profile-IsFeasible tasks resources p f,
        validate_profiles_from-IsFeasible tasks resources (p ∷ seen) ps (ground (arith, f)),
      )
    ]

pub check_covered-Any :
    (profiles : List TaskResourceProfile) (tasks : List TaskSpec)
    → check_covered profiles tasks ≡ ok tt
    → All (λ t. Any (λ p. p.task_id ≡ t.id) profiles) tasks
unfolding check_covered
check_covered-Any profiles [] h = tt
check_covered-Any profiles (t ∷ ts) h = elim (Bool-cases (any (λ p. p.task_id == t.id) profiles)) [
  | inr e ↦ ground (arith, e)
  | inl e ↦ (
    exact profiles (any-true (λ p. p.task_id == t.id) profiles e),
    check_covered-Any profiles ts (ground (arith, e)),
  )
]
  where
    exact :
        (ps : List TaskResourceProfile)
        → Any (λ p. (p.task_id == t.id) ≡ true) ps
        → Any (λ p. p.task_id ≡ t.id) ps
    exact (p ∷ ps) (inl e) = inl ((==_iff _ _).0 e)
    exact (p ∷ ps) (inr e) = inr (exact ps e)
    exact [] e = absurd e
