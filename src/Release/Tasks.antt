-- ===== src/Release/Tasks.antt =====
-- What a search and a change in the store of the tasks keep: task_for and update_task.
use cpssim.Base.{
  ◌≢◌, sym, ap, ◌∙◌, refl, ℕ, ◌≡◌, subst, inl, inr, List, [], ◌∷◌, ok, Bool-cases, arith, ◌==◌, All,
}
use cpssim.Release.{Task, task_for, update_task}

pub task_for-All :
    (P : Task → Type 0) (tasks : List Task) (id : ℕ) (task : Task)
    → All P tasks
    → task_for tasks id ≡ ok task
    → P task
unfolding task_for
task_for-All P [] id task a h = cc
task_for-All P (t ∷ ts) id task (p, a) h = elim (Bool-cases (t.spec.id == id)) [
  | inl e ↦ let q : t ≡ task = ground (arith, e) in subst P q p
  | inr e ↦ task_for-All P ts id task a (ground (arith, e))
]

pub update_task-All :
    (P : Task → Type 0) (changed : Task) (tasks : List Task)
    → P changed
    → All P tasks
    → All P (update_task changed tasks)
unfolding update_task
update_task-All P changed [] p a = tt
update_task-All P changed (t ∷ ts) p (q, a) = elim (Bool-cases (t.spec.id == changed.spec.id)) [
  | inl e ↦ rw e (p, a)
  | inr e ↦ rw e (q, update_task-All P changed ts p a)
]

task_for-id :
    (id : ℕ) (tasks : List Task) (task : Task) → task_for tasks id ≡ ok task → task.spec.id ≡ id
unfolding task_for
task_for-id id [] task f = cc
task_for-id id (t ∷ ts) task f = elim (Bool-cases (t.spec.id == id)) [
  | inl own ↦ ground (arith, own, f)
  | inr other ↦ task_for-id id ts task (rw other at f)
]

pub task_for-update_task_self :
    (id : ℕ) (tasks : List Task) (task changed : Task)
    → task_for tasks id ≡ ok task
    → changed.spec.id ≡ task.spec.id
    → task_for (update_task changed tasks) id ≡ ok changed
unfolding task_for update_task
task_for-update_task_self id [] task changed f e = cc
task_for-update_task_self id (t ∷ ts) task changed f e = elim (Bool-cases (t.spec.id == id)) [
  | inl own ↦
      let same : t ≡ task = ground (arith, own, f) in
      let i : t.spec.id ≡ changed.spec.id = ap (λ (x : Task). x.spec.id) same ∙ sym e in
      ground (arith, own, i)
  | inr other ↦
      let g : task_for ts id ≡ ok task = ground (arith, other, f) in
      let own = task_for-id id ts task g in
      let rest = task_for-update_task_self id ts task changed g e in
      ground (arith, other, own, e, rest)
]

pub task_for-update_task_other :
    (id : ℕ) (tasks : List Task) (changed : Task)
    → changed.spec.id ≢ id
    → task_for (update_task changed tasks) id ≡ task_for tasks id
unfolding task_for update_task
task_for-update_task_other id [] changed n = refl
task_for-update_task_other id (t ∷ ts) changed n =
    let rest = task_for-update_task_other id ts changed n in
    elim (Bool-cases (t.spec.id == changed.spec.id)) [
      | inl own ↦ ground (arith, own, n)
      | inr other ↦ ground (arith, other, rest)
    ]
