-- ===== src/Scheduler/Store.antt =====
-- The store of the jobs as a map from identities: find_job after update_job and after an insertion.
use cpssim.Base.{
  ◌≡◌, ◌≢◌, ◌⊎◌, refl, sym, subst, ◌∙◌, inl, inr, true, false, List, [], ◌∷◌, ◌++◌, ok, arith,
  Bool-cases,
}
use cpssim.Runtime.{JobState, JobIdentity, identity, same_identity}
use cpssim.Runtime.Execution.{same_identity_refl}
use cpssim.Config.{any}
use cpssim.Policy.{find_job}
use cpssim.Scheduler.{update_job}

pub same_identity-equal : (a b : JobIdentity) → same_identity a b ≡ true → a ≡ b
same_identity-equal a b h = ground (arith, h)

pub same_identity-different : (a b : JobIdentity) → same_identity a b ≡ false → a ≢ b
same_identity-different a b h e =
    let t : same_identity a b ≡ true =
      subst (λ x. same_identity a x ≡ true) e (same_identity_refl a) in
    ground (arith, h, t)

pub find_job-update_job_self :
    (changed old : JobState) (jobs : List JobState)
    → find_job jobs (identity changed) ≡ ok old
    → find_job (update_job changed jobs) (identity changed) ≡ ok changed
unfolding find_job update_job
find_job-update_job_self changed old [] h = cc
find_job-update_job_self changed old (j ∷ jobs) h =
    elim (Bool-cases (same_identity (identity j) (identity changed))) [
      | inl e ↦ rw (e, same_identity_refl (identity changed)) refl
      | inr e ↦ rw (e, e) (find_job-update_job_self changed old jobs (rw e at h))
    ]

pub find_job-update_job_other :
    (changed : JobState) (jobs : List JobState) (id : JobIdentity)
    → id ≢ identity changed
    → find_job (update_job changed jobs) id ≡ find_job jobs id
unfolding find_job update_job
find_job-update_job_other changed [] id n = refl
find_job-update_job_other changed (j ∷ jobs) id n =
    elim (Bool-cases (same_identity (identity j) (identity changed))) [
      | inl e ↦ elim (Bool-cases (same_identity (identity changed) id)) [
        | inl f ↦ absurd (n (sym (same_identity-equal (identity changed) id f)))
        | inr f ↦
            let g : same_identity (identity j) id ≡ false = ground (arith, e, f) in
            rw (e, f, g) refl
      ]
      | inr e ↦ elim (Bool-cases (same_identity (identity j) id)) [
        | inl f ↦ rw (e, f) refl
        | inr f ↦ rw (e, f) (find_job-update_job_other changed jobs id n)
      ]
    ]

-- What is stored after a change of a stored job.
pub find_job-update_job :
    (changed old : JobState) (jobs : List JobState) (id : JobIdentity) (job : JobState)
    → find_job jobs (identity changed) ≡ ok old
    → find_job (update_job changed jobs) id ≡ ok job
    → (id ≡ identity changed) × (job ≡ changed)
      ⊎ (id ≢ identity changed) × (find_job jobs id ≡ ok job)
find_job-update_job changed old jobs id job f h =
    elim (Bool-cases (same_identity id (identity changed))) [
      | inl e ↦
          let same = same_identity-equal id (identity changed) e in
          let self = find_job-update_job_self changed old jobs f in
          inl (same, ground (arith, self, rw same at h))
      | inr e ↦
          let n = same_identity-different id (identity changed) e in
          inr (n, sym (find_job-update_job_other changed jobs id n) ∙ h)
    ]

-- What is stored after a new job has been added at the end.
pub find_job-append :
    (jobs : List JobState) (added : JobState) (id : JobIdentity) (job : JobState)
    → any (λ stored. same_identity (identity stored) (identity added)) jobs ≡ false
    → find_job (jobs ++ added ∷ []) id ≡ ok job
    → (id ≡ identity added) × (job ≡ added) ⊎ (id ≢ identity added) × (find_job jobs id ≡ ok job)
unfolding find_job
find_job-append [] added id job n h = elim (Bool-cases (same_identity (identity added) id)) [
  | inl e ↦ inl (sym (same_identity-equal (identity added) id e), ground (arith, e, h))
  | inr e ↦ absurd (ground (arith, e, h))
]
find_job-append (j ∷ jobs) added id job n h = elim (Bool-cases (same_identity (identity j) id)) [
  | inl e ↦
      let different : same_identity (identity j) (identity added) ≡ false = ground (arith, n) in
      let m = same_identity-different (identity j) (identity added) different in
      inr ((λ k. m (same_identity-equal (identity j) id e ∙ k)), ground (arith, e, h))
  | inr e ↦ elim (find_job-append jobs added id job (ground (arith, n)) (ground (arith, e, h))) [
    | inl own ↦ inl own
    | inr (k, f) ↦ inr (k, ground (arith, e, f))
  ]
]

pub find_job-append_old :
    (jobs : List JobState) (added : JobState) (id : JobIdentity) (job : JobState)
    → find_job jobs id ≡ ok job
    → find_job (jobs ++ added ∷ []) id ≡ ok job
unfolding find_job
find_job-append_old [] added id job h = cc
find_job-append_old (j ∷ jobs) added id job h = elim (Bool-cases (same_identity (identity j) id)) [
  | inl e ↦ ground (arith, e, h)
  | inr e ↦ rw e (find_job-append_old jobs added id job (rw e at h))
]

pub find_job-append_new :
    (jobs : List JobState) (added : JobState)
    → any (λ stored. same_identity (identity stored) (identity added)) jobs ≡ false
    → find_job (jobs ++ added ∷ []) (identity added) ≡ ok added
unfolding find_job
find_job-append_new [] added n = rw (same_identity_refl (identity added)) refl
find_job-append_new (j ∷ jobs) added n =
    let different : same_identity (identity j) (identity added) ≡ false = ground (arith, n) in
    rw different (find_job-append_new jobs added (ground (arith, n)))
