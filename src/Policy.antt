-- ===== src/Policy.antt =====
-- src/cpssim/policy/fixed_priority.hpp and fixed_priority.cpp, scheduling_policy.hpp.
-- A policy only reads; SchedulingPolicy::observe, which a policy may use for a state of its own, has
-- no effect in the base class and in FixedPriorityPolicy, and is left out.
pub mod Selection
mod Examples
use cpssim.Base.{
  ℕ, Bool, not, List, [], ◌∷◌, Result, ok, err, logic_error, ◌>>=◌, ◌>>◌, throw_if, ltb, ◌==◌,
  if◌then◌else◌,
}
use cpssim.Runtime.{JobState, JobIdentity, Resource, identity, same_identity, is_ready}

-- The interface SchedulingPolicy.
pub record SchedulingPolicy : Type 0 where
  pub select : Resource → List JobIdentity → List JobState → Result JobIdentity
  pub should_preempt : JobState → JobState → Bool

-- The first job of the store that has the identity; the scheduler's find_job is the same.
unfoldable pub find_job : List JobState → JobIdentity → Result JobState
find_job [] id = err logic_error
find_job (job ∷ jobs) id = if same_identity (identity job) id then ok job else find_job jobs id

unfoldable pub comes_before : JobState → JobState → Bool
comes_before left right =
    if left.priority == right.priority
    then if left.release_tick == right.release_tick
      then if left.task_id == right.task_id
        then ltb left.id right.id
        else ltb left.task_id right.task_id
      else ltb left.release_tick right.release_tick
    else ltb left.priority right.priority

-- The loop of select over the ready list.
scan : List JobState → JobIdentity → List JobIdentity → Result JobIdentity
scan jobs selected [] = ok selected
scan jobs selected (id ∷ ids) = do
  candidate ← find_job jobs id
  throw_if (not (is_ready candidate.lifecycle)) logic_error
  current ← find_job jobs selected
  scan jobs (if comes_before candidate current then id else selected) ids

-- FixedPriorityPolicy::select
unfoldable pub select : Resource → List JobIdentity → List JobState → Result JobIdentity
unfolding scan
select resource [] jobs = err logic_error
select resource (front ∷ rest) jobs = do
  first ← find_job jobs front
  throw_if (not (is_ready first.lifecycle)) logic_error
  scan jobs front (front ∷ rest)

-- FixedPriorityPolicy::should_preempt
unfoldable pub should_preempt : JobState → JobState → Bool
should_preempt running_job ready_job = ltb ready_job.priority running_job.priority

abbrev pub fixed_priority_policy : SchedulingPolicy
fixed_priority_policy = record { select = select; should_preempt = should_preempt }
