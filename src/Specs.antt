-- ===== src/Specs.antt =====
-- src/cpssim/model/specifications.hpp and specifications.cpp, and the enumerations of
-- categories.hpp that a specification names. Values that no constructor has checked are integers.
use cpssim.Base.{
  ℕ, String, Bool, true, false, Result, ok, invalid_argument, ◌>>=◌, ◌>>◌, throw_if, ℤ, pos,
  nonnegative, positive,
}

pub data PreemptionMode : Type 0 where
  preemptive non_preemptive : PreemptionMode

pub record PeriodicTimingSpec : Type 0 where
  pub period : ℤ
  pub deadline : ℤ
  pub offset : ℤ

pub record TaskResourceProfile : Type 0 where
  pub task_id : ℕ
  pub resource_id : ℕ
  pub execution_time : ℤ

pub record SchedulingSpec : Type 0 where
  pub preemption_mode : PreemptionMode

abbrev pub message_route_send_offset_ticks : ℤ
message_route_send_offset_ticks = pos 1

-- `kind` is 0 for Communication and 1 for Logical.
pub record MessageRouteSpec : Type 0 where
  pub source_task_id : ℕ
  pub destination_task_id : ℕ
  pub kind : ℤ
  pub send_offset : ℤ
  pub delay : ℤ

-- std::string::empty
abbrev pub no_text : String → Bool
no_text String.[] = true
no_text (String.◌∷◌ c s) = false

pub record ResourceSpec : Type 0 where
  pub id : ℕ
  pub name : String

unfoldable pub new_resource_spec : ℕ → String → Result ResourceSpec
new_resource_spec id name = do
  throw_if (no_text name) invalid_argument
  ok (record { id = id; name = name })

pub record TaskSpec : Type 0 where
  pub id : ℕ
  pub name : String
  pub period : ℕ
  pub deadline : ℕ
  pub offset : ℕ
  pub priority : ℕ

unfoldable pub new_task_spec : ℕ → String → PeriodicTimingSpec → ℤ → Result TaskSpec
new_task_spec id name timing priority = do
  throw_if (no_text name) invalid_argument
  period ← positive timing.period invalid_argument
  deadline ← positive timing.deadline invalid_argument
  offset ← nonnegative timing.offset invalid_argument
  priority' ← nonnegative priority invalid_argument
  ok (record {
    id = id;
    name = name;
    period = period;
    deadline = deadline;
    offset = offset;
    priority = priority';
  })
