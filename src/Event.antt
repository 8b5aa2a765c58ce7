-- ===== src/Event.antt =====
-- src/cpssim/model/categories.hpp, identifiers.hpp, event.hpp and event.cpp.
-- Identifiers are unsigned 64-bit values that are only compared, here numbers.
use cpssim.Base.{
  ℕ, Bool, true, false, Option, none, some, Result, ok, invalid_argument, ◌>>=◌, ◌>>◌, throw_if, ℤ,
  nonnegative, leb,
}

pub data EventType : Type 0 where
  job_release job_start job_preempt job_resume job_finish : EventType
  deadline_miss message_send message_delivery : EventType

pub data EventPhase : Type 0 where
  execution_completion message_delivery deadline_check job_release : EventPhase
  policy_update scheduling caused_action caused_action_late : EventPhase

abbrev pub is_execution_completion : EventPhase → Bool
is_execution_completion EventPhase.execution_completion = true
is_execution_completion _ = false

abbrev pub is_delivery_phase : EventPhase → Bool
is_delivery_phase EventPhase.message_delivery = true
is_delivery_phase _ = false

abbrev pub is_deadline_check : EventPhase → Bool
is_deadline_check EventPhase.deadline_check = true
is_deadline_check _ = false

abbrev pub is_release_phase : EventPhase → Bool
is_release_phase EventPhase.job_release = true
is_release_phase _ = false

abbrev pub is_scheduling : EventPhase → Bool
is_scheduling EventPhase.scheduling = true
is_scheduling _ = false

abbrev pub is_caused_action : EventPhase → Bool
is_caused_action EventPhase.caused_action = true
is_caused_action _ = false

abbrev pub is_job_release : EventType → Bool
is_job_release EventType.job_release = true
is_job_release _ = false

abbrev pub is_job_finish : EventType → Bool
is_job_finish EventType.job_finish = true
is_job_finish _ = false

abbrev pub is_deadline_miss : EventType → Bool
is_deadline_miss EventType.deadline_miss = true
is_deadline_miss _ = false

abbrev pub is_message_send : EventType → Bool
is_message_send EventType.message_send = true
is_message_send _ = false

abbrev pub is_message_delivery : EventType → Bool
is_message_delivery EventType.message_delivery = true
is_message_delivery _ = false

pub record EventEntityRefs : Type 0 where
  pub task_id : Option ℕ
  pub job_id : Option ℕ
  pub resource_id : Option ℕ
  pub message_id : Option ℕ
  pub vehicle_id : Option ℕ

pub record Event : Type 0 where
  pub tick : ℕ
  pub phase : EventPhase
  pub sequence : ℕ
  pub type : EventType
  pub entities : EventEntityRefs
  pub cause_sequence : Option ℕ

abbrev pub does_not_precede : Option ℕ → ℕ → Bool
does_not_precede none sequence = false
does_not_precede (some cause) sequence = leb sequence cause

-- The constructor of Event.
unfoldable pub new_event :
    ℤ → EventPhase → ℕ → EventType → EventEntityRefs → Option ℕ → Result Event
new_event tick phase sequence type entities cause_sequence = do
  tick' ← nonnegative tick invalid_argument
  throw_if (does_not_precede cause_sequence sequence) invalid_argument
  ok (record {
    tick = tick';
    phase = phase;
    sequence = sequence;
    type = type;
    entities = entities;
    cause_sequence = cause_sequence;
  })
