-- ===== src/Policy/Selection.antt =====
-- Which job the fixed-priority policy selects.
use cpssim.Base.{
  ◌<◌, ◌≡◌, ◌≢◌, refl, sym, ◌∙◌, subst, ◌⊎◌, inl, inr, true, false, List, [], ◌∷◌, ok, arith,
  if◌then◌else◌, Bool-cases, All, In, All-In, All-map,
}
use cpssim.Runtime.{JobState, JobIdentity, JobLifecycle, Resource, identity}
use cpssim.Policy.{find_job, comes_before, scan, select}

-- The order of the ready jobs: by priority, release, task and job number.
abbrev pub Outranks : JobState → JobState → Type 0
Outranks a b =
    (a.priority < b.priority)
    ⊎ ((a.priority ≡ b.priority)
        × ((a.release_tick < b.release_tick)
            ⊎ ((a.release_tick ≡ b.release_tick)
                × ((a.task_id < b.task_id) ⊎ ((a.task_id ≡ b.task_id) × (a.id < b.id))))))

pub comes_before→Outranks : (a b : JobState) → comes_before a b ≡ true → Outranks a b
unfolding comes_before
comes_before→Outranks a b h = ground arith

pub Outranks→comes_before : (a b : JobState) → Outranks a b → comes_before a b ≡ true
unfolding comes_before
Outranks→comes_before a b h = ground arith

pub Outranks-trans : (a b c : JobState) → Outranks a b → Outranks b c → Outranks a c
Outranks-trans a b c h k = ground arith

pub Outranks-asymm : (a b : JobState) → Outranks a b → ¬ Outranks b a
Outranks-asymm a b h k = ground arith

-- Two jobs that do not outrank one another are one job.
pub Outranks_total :
    (a b : JobState) → comes_before a b ≡ false → comes_before b a ≡ false → identity a ≡ identity b
unfolding comes_before
Outranks_total a b h k = ground arith

-- The store has a ready job under the identity.
pub record IsReady (jobs : List JobState) (id : JobIdentity) : Type 0 where
  pub job : JobState
  pub stored : find_job jobs id ≡ ok job
  pub lifecycle : job.lifecycle ≡ JobLifecycle.ready

-- No ready job outranks the job of `id`.
abbrev pub IsBest : List JobState → List JobIdentity → JobState → Type 0
IsBest jobs ids best =
    All (λ id. (job : JobState) × (find_job jobs id ≡ ok job) × (comes_before job best ≡ false)) ids

negative_trans :
    (a b c : JobState)
    → comes_before a b ≡ false
    → comes_before b c ≡ false
    → comes_before a c ≡ false
unfolding comes_before
negative_trans a b c h k = ground arith

outranks_kept :
    (a b c : JobState)
    → comes_before a b ≡ true
    → comes_before a c ≡ false
    → comes_before b c ≡ false
unfolding comes_before
outranks_kept a b c h k = ground arith

not_before_self : (a : JobState) → comes_before a a ≡ false
unfolding comes_before
not_before_self a = ground arith

-- What the loop of select ends in: a job that was selected before or is in the rest of the list, not
-- outranked by the job selected before nor by one of the rest.
record Scanned (jobs : List JobState) (selected : JobIdentity) (before : JobState)
    (ids : List JobIdentity) : Type 0 where
  best : JobIdentity
  job : JobState
  returned : scan jobs selected ids ≡ ok best
  stored : find_job jobs best ≡ ok job
  member : (best ≡ selected) ⊎ In best ids
  not_before : comes_before before job ≡ false
  not_rest : IsBest jobs ids job

scan_step :
    (jobs : List JobState) (selected id : JobIdentity) (ids : List JobIdentity) (b c : JobState)
    → find_job jobs id ≡ ok c
    → c.lifecycle ≡ JobLifecycle.ready
    → find_job jobs selected ≡ ok b
    → scan jobs selected (id ∷ ids) ≡ scan jobs (if comes_before c b then id else selected) ids
unfolding scan
scan_step jobs selected id ids b c e r f = ground arith

select_start :
    (resource : Resource) (front : JobIdentity) (rest : List JobIdentity) (jobs : List JobState)
    → IsReady jobs front
    → select resource (front ∷ rest) jobs ≡ scan jobs front (front ∷ rest)
unfolding select
select_start resource front rest jobs r = ground (arith, r.stored, r.lifecycle)

scan-Scanned :
    (jobs : List JobState) (selected : JobIdentity) (before : JobState) (ids : List JobIdentity)
    → find_job jobs selected ≡ ok before
    → All (IsReady jobs) ids
    → Scanned jobs selected before ids
unfolding scan
scan-Scanned jobs selected before [] e r = record {
  best = selected;
  job = before;
  returned = refl;
  stored = e;
  member = inl refl;
  not_before = not_before_self before;
  not_rest = tt;
}
scan-Scanned jobs selected before (id ∷ ids) e (now, later) =
    elim (Bool-cases (comes_before now.job before)) [
      | inl h ↦
          let x = scan-Scanned jobs id now.job ids now.stored later in
          record {
            best = x.best;
            job = x.job;
            returned =
                scan_step jobs selected id ids before now.job now.stored now.lifecycle e
                ∙ rw h x.returned;
            stored = x.stored;
            member = inr (taken x.best x.member);
            not_before = outranks_kept now.job before x.job h x.not_before;
            not_rest = ((now.job, now.stored, x.not_before), x.not_rest);
          }
      | inr h ↦
          let x = scan-Scanned jobs selected before ids e later in
          record {
            best = x.best;
            job = x.job;
            returned =
                scan_step jobs selected id ids before now.job now.stored now.lifecycle e
                ∙ rw h x.returned;
            stored = x.stored;
            member = kept x.best x.member;
            not_before = x.not_before;
            not_rest = (
              (now.job, now.stored, negative_trans now.job before x.job h x.not_before),
              x.not_rest,
            );
          }
    ]
  where
    taken : (best : JobIdentity) → (best ≡ id) ⊎ In best ids → In best (id ∷ ids)
    taken best (inl p) = inl (sym p)
    taken best (inr m) = inr m

    kept :
        (best : JobIdentity)
        → (best ≡ selected) ⊎ In best ids
        → (best ≡ selected) ⊎ In best (id ∷ ids)
    kept best (inl p) = inl p
    kept best (inr m) = inr (inr m)

IsReady-lifecycle :
    (jobs : List JobState) (id : JobIdentity) (job : JobState)
    → IsReady jobs id
    → find_job jobs id ≡ ok job
    → job.lifecycle ≡ JobLifecycle.ready
IsReady-lifecycle jobs id job r e = ground (arith, r.stored, r.lifecycle)

member_of :
    (best front : JobIdentity) (rest : List JobIdentity)
    → (best ≡ front) ⊎ In best (front ∷ rest)
    → In best (front ∷ rest)
member_of best front rest (inl p) = inl (sym p)
member_of best front rest (inr m) = m

IsBest-Outranks :
    (jobs : List JobState) (job : JobState) (id : JobIdentity)
    → (k : JobState) × (find_job jobs id ≡ ok k) × (comes_before k job ≡ false)
    → (k : JobState) × (find_job jobs id ≡ ok k) × ¬ Outranks k job
IsBest-Outranks jobs job id (k, e, h) = (k, e, λ o. cc (Outranks→comes_before k job o))

-- From a ready list that is not empty and holds only stored ready jobs, the policy selects an entry
-- of the list whose job is ready and that no job of the list outranks.
pub select-best :
    (resource : Resource) (ids : List JobIdentity) (jobs : List JobState)
    → ids ≢ []
    → All (IsReady jobs) ids
    → (best : JobIdentity) × (job : JobState) × (select resource ids jobs ≡ ok best)
      × In best ids
      × (find_job jobs best ≡ ok job)
      × (job.lifecycle ≡ JobLifecycle.ready)
      × All (λ id. (k : JobState) × (find_job jobs id ≡ ok k) × ¬ Outranks k job) ids
select-best resource [] jobs ne r = absurd (ne refl)
select-best resource (front ∷ rest) jobs ne r =
    let x = scan-Scanned jobs front r.0.job (front ∷ rest) r.0.stored r in
    let m = member_of x.best front rest x.member in
    (
      x.best,
      x.job,
      select_start resource front rest jobs r.0 ∙ x.returned,
      m,
      x.stored,
      IsReady-lifecycle jobs x.best x.job (All-In (IsReady jobs) x.best (front ∷ rest) r m)
          x.stored,
      All-map _ _ (IsBest-Outranks jobs x.job) (front ∷ rest) x.not_rest,
    )

pub find_job-identity :
    (jobs : List JobState) (id : JobIdentity) (job : JobState)
    → find_job jobs id ≡ ok job
    → identity job ≡ id
unfolding find_job
find_job-identity [] id job h = cc
find_job-identity (j ∷ jobs) id job h = ground (arith, find_job-identity jobs id job)

not_before : (a b : JobState) → ¬ Outranks a b → comes_before a b ≡ false
not_before a b n = elim (Bool-cases (comes_before a b)) [
  | inl h ↦ absurd (n (comes_before→Outranks a b h))
  | inr h ↦ h
]

same_best :
    (jobs : List JobState) (b b' : JobIdentity) (j j' k k' : JobState)
    → find_job jobs b ≡ ok j
    → find_job jobs b' ≡ ok j'
    → find_job jobs b' ≡ ok k
    → find_job jobs b ≡ ok k'
    → ¬ Outranks k j
    → ¬ Outranks k' j'
    → b ≡ b'
same_best jobs b b' j j' k k' f f' g g' n n' =
    let p : k ≡ j' = ground (arith, f', g) in
    let p' : k' ≡ j = ground (arith, f, g') in
    let same =
      Outranks_total j j' (not_before j j' (subst (λ x. ¬ Outranks x j') p' n'))
        (not_before j' j (subst (λ x. ¬ Outranks x j) p n)) in
    cc (find_job-identity jobs b j f, find_job-identity jobs b' j' f', same)

-- The selection depends on which jobs are ready and not on the order of the ready list: two lists of
-- stored ready jobs with the same entries give the same job.
pub select_order_independent :
    (resource : Resource) (ids ids' : List JobIdentity) (jobs : List JobState)
    → ids ≢ []
    → ids' ≢ []
    → All (IsReady jobs) ids
    → All (IsReady jobs) ids'
    → All (λ id. In id ids') ids
    → All (λ id. In id ids) ids'
    → select resource ids jobs ≡ select resource ids' jobs
select_order_independent resource ids ids' jobs ne ne' r r' there back =
    let (b, j, e, m, f, l, o) = select-best resource ids jobs ne r in
    let (b', j', e', m', f', l', o') = select-best resource ids' jobs ne' r' in
    let (k, g, n) = All-In _ b' ids o (All-In _ b' ids' back m') in
    let (k', g', n') = All-In _ b ids' o' (All-In _ b ids there m) in
    cc (e, e', same_best jobs b b' j j' k k' f f' g g' n n')
