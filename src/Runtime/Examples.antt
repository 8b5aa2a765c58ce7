-- ===== src/Runtime/Examples.antt =====
-- The theorems on jobs and resources at concrete inputs.
use cpssim.Base.{
  ℕ, ◌+◌, ◌-◌, ◌%◌, ◌^◌, ◌≤◌, ◌<◌, ◌≡◌, ◌⊎◌, refl, Bool, true, false, none, some, ok, pos, arith,
}
use cpssim.Specs.{ResourceSpec}
use cpssim.Runtime.{
  JobLifecycle, JobState, Resource, identity, new_resource, start_job, charge_execution,
  preempt_job, started_state, charged_state, stopped, busy_ticks_until, idle_ticks_until,
}
use cpssim.Runtime.Execution.{
  Runs, IsIdle, CanStart, start_job-Runs, charge_execution-Runs, preempt_job-Runs,
}
use cpssim.Runtime.Accounting.{History, busy_ticks_until_total, busy_ticks_until-charge_execution}

abbrev cpu : ResourceSpec
cpu = record { id = 1; name = "cpu" }

-- Released at 2 with a demand of 5 by 12.
abbrev job : JobState
job = record {
  id = 1;
  task_id = 4;
  resource_id = 1;
  priority = 3;
  release_tick = 2;
  absolute_deadline = 12;
  remaining_execution = 5;
  lifecycle = JobLifecycle.ready;
  has_started = false;
  first_start_tick = none;
  finish_tick = none;
  preemption_count = 0;
  deadline_missed = false;
}

abbrev at_3 : Resource × JobState
at_3 = started_state (new_resource cpu) job 3

start_at_3 : start_job (new_resource cpu) job 3 ≡ ok at_3
unfolding start_job
start_at_3 = refl

can_start : CanStart (new_resource cpu) job 3
can_start = record {
  matching = refl;
  released = omega arith;
  lifecycle = refl;
  free = refl;
  representable = omega arith;
}

Runs-at_3 : Runs at_3.0 at_3.1 3
Runs-at_3 = (start_job-Runs (new_resource cpu) job 3 at_3.0 at_3.1 (omega arith) start_at_3).1

start_job-Runs_example :
    CanStart (new_resource cpu) job 3
    × Runs at_3.0 at_3.1 3
    × (at_3.0.spec ≡ cpu)
    × (at_3.0.busy_ticks ≡ 0)
    × (at_3.1.remaining_execution ≡ 5)
    × (identity at_3.1 ≡ identity job)
    × (at_3.1.has_started ≡ true)
    × ((false ≡ false) × (at_3.1.first_start_tick ≡ some 3)
        ⊎ (false ≡ true) × (at_3.1.first_start_tick ≡ none))
start_job-Runs_example =
    start_job-Runs (new_resource cpu) job 3 at_3.0 at_3.1 (omega arith) start_at_3

abbrev at_6 : Bool × Resource × JobState
at_6 = charged_state at_3.0 at_3.1 3 6

charge_at_6 : charge_execution at_3.0 at_3.1 6 ≡ ok at_6
unfolding charge_execution
charge_at_6 = refl

charge_execution-Runs_example :
    (3 < 6)
    × (at_6.1.busy_ticks ≡ 0 + (6 - 3))
    × (at_6.1.busy_ticks + at_6.2.remaining_execution ≡ 0 + 5)
    × ((false ≡ false) × (6 < 3 + 5) × Runs at_6.1 at_6.2 6
        ⊎ (false ≡ true)
          × (6 ≡ 3 + 5)
          × IsIdle at_6.1
          × (at_6.2.lifecycle ≡ JobLifecycle.completed)
          × (at_6.2.finish_tick ≡ some 6)
          × (at_6.2.remaining_execution ≡ 0))
charge_execution-Runs_example =
    charge_execution-Runs at_3.0 at_3.1 3 6 false at_6.1 at_6.2 Runs-at_3 charge_at_6

preempt_at_6 :
    preempt_job at_3.0 at_3.1 6 ≡ ok ((stopped at_6.1 at_6.2).0, (stopped at_6.1 at_6.2).1)
unfolding preempt_job charge_execution
preempt_at_6 = refl

preempt_job-Runs_example :
    let r = (stopped at_6.1 at_6.2).0 in
    let j = (stopped at_6.1 at_6.2).1 in
    (3 ≤ 6)
    × (6 < 3 + 5)
    × IsIdle r
    × (j.lifecycle ≡ JobLifecycle.ready)
    × (r.busy_ticks ≡ 0 + (6 - 3))
    × (j.remaining_execution + (6 - 3) ≡ 5)
    × (identity j ≡ identity job)
    × (j.preemption_count ≡ (0 + 1) % 2 ^ 64)
preempt_job-Runs_example =
    preempt_job-Runs at_3.0 at_3.1 3 6 (stopped at_6.1 at_6.2).0 (stopped at_6.1 at_6.2).1 Runs-at_3
      preempt_at_6

history : History cpu at_6.1 at_6.2 6
history =
    History.charges 6 false
      (History.starts {r = new_resource cpu} {j = job} 3
        (History.begins job (record { lifecycle = refl; pending = omega arith })) (omega arith)
        start_at_3)
      (omega arith) charge_at_6

busy_ticks_until_total_example :
    (b i : ℕ) × (busy_ticks_until at_6.1 (pos 7) ≡ ok b)
    × (idle_ticks_until at_6.1 (pos 7) ≡ ok i)
    × (b + i ≡ 7)
    × (at_6.1.busy_ticks ≤ b)
busy_ticks_until_total_example = busy_ticks_until_total cpu at_6.1 at_6.2 6 7 history (omega arith)

busy_ticks_until-charge_execution_example :
    busy_ticks_until at_6.1 (pos 7) ≡ busy_ticks_until at_3.0 (pos 7)
busy_ticks_until-charge_execution_example =
    busy_ticks_until-charge_execution at_3.0 at_3.1 3 6 7 at_6.1 at_6.2 Runs-at_3 charge_at_6
      (omega arith)
