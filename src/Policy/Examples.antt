-- ===== src/Policy/Examples.antt =====
-- The theorems on the fixed-priority policy at concrete inputs.
use cpssim.Base.{ℕ, ◌≡◌, ◌≢◌, refl, List, [], ◌∷◌, ok, none, false, arith, All, In, inl, inr}
use cpssim.Runtime.{JobState, JobIdentity, JobLifecycle, Resource, new_resource}
use cpssim.Policy.{find_job, select}
use cpssim.Policy.Selection.{IsReady, Outranks, select-best, select_order_independent}

abbrev waiting_job : ℕ → ℕ → JobState
waiting_job task priority = record {
  id = 1;
  task_id = task;
  resource_id = 1;
  priority = priority;
  release_tick = 0;
  absolute_deadline = 10;
  remaining_execution = 2;
  lifecycle = JobLifecycle.ready;
  has_started = false;
  first_start_tick = none;
  finish_tick = none;
  preemption_count = 0;
  deadline_missed = false;
}

abbrev store : List JobState
store = waiting_job 1 5 ∷ waiting_job 2 3 ∷ []

abbrev cpu : Resource
cpu = new_resource (record { id = 1; name = "cpu" })

abbrev id_of : ℕ → JobIdentity
id_of task = record { task_id = task; job_id = 1 }

abbrev in_order : List JobIdentity
in_order = id_of 1 ∷ id_of 2 ∷ []

abbrev in_reverse : List JobIdentity
in_reverse = id_of 2 ∷ id_of 1 ∷ []

job_1-IsReady : IsReady store (id_of 1)
unfolding find_job
job_1-IsReady = record { job = waiting_job 1 5; stored = refl; lifecycle = refl }

job_2-IsReady : IsReady store (id_of 2)
unfolding find_job
job_2-IsReady = record { job = waiting_job 2 3; stored = refl; lifecycle = refl }

not_empty : {x : JobIdentity} {xs : List JobIdentity} → x ∷ xs ≢ []
not_empty e = ground arith

select-best_example :
    (best : JobIdentity) × (job : JobState) × (select cpu in_order store ≡ ok best)
    × In best in_order
    × (find_job store best ≡ ok job)
    × (job.lifecycle ≡ JobLifecycle.ready)
    × All (λ id. (k : JobState) × (find_job store id ≡ ok k) × ¬ Outranks k job) in_order
select-best_example = select-best cpu in_order store not_empty (job_1-IsReady, (job_2-IsReady, tt))

select_order_independent_example : select cpu in_order store ≡ select cpu in_reverse store
select_order_independent_example =
    select_order_independent cpu in_order in_reverse store not_empty not_empty
      (job_1-IsReady, (job_2-IsReady, tt)) (job_2-IsReady, (job_1-IsReady, tt))
      (inr (inl refl), (inl refl, tt)) (inr (inl refl), (inl refl, tt))
