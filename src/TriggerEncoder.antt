-- ===== src/TriggerEncoder.antt =====
-- src/cpssim/bosch/trigger_encoder.hpp and trigger_encoder.cpp: the pulses of the trigger inputs that a trace
-- of events gives. The text of the CSV file is left out.
pub mod Normal
pub mod Pulses
mod Examples
use cpssim.Base.{
  ℕ, Bool, true, false, not, ◌&&◌, Option, none, some, List, [], ◌∷◌, Result, ok, err, logic_error,
  ◌>>=◌, ◌>>◌, throw_if, ltb, ◌==◌, if◌then◌else◌, sort,
}
use cpssim.Event.{
  Event, EventPhase, EventType, is_scheduling, is_execution_completion, is_caused_action,
  is_delivery_phase,
}

pub data BoschTrigger : Type 0 where
  sensor_activated sensor_finished uplink_sent uplink_received : BoschTrigger
  estimator_activated estimator_finished controller_activated controller_finished : BoschTrigger
  feedforward_activated feedforward_finished merger_activated merger_finished : BoschTrigger
  downlink_sent downlink_received actuator_activated actuator_finished : BoschTrigger

pub record BoschTriggerEvent : Type 0 where
  pub tick : ℕ
  pub trigger : BoschTrigger

abbrev pub bosch_trigger_column : BoschTrigger → ℕ
bosch_trigger_column BoschTrigger.sensor_activated = 1
bosch_trigger_column BoschTrigger.sensor_finished = 2
bosch_trigger_column BoschTrigger.uplink_sent = 3
bosch_trigger_column BoschTrigger.uplink_received = 4
bosch_trigger_column BoschTrigger.estimator_activated = 5
bosch_trigger_column BoschTrigger.estimator_finished = 6
bosch_trigger_column BoschTrigger.controller_activated = 7
bosch_trigger_column BoschTrigger.controller_finished = 8
bosch_trigger_column BoschTrigger.feedforward_activated = 9
bosch_trigger_column BoschTrigger.feedforward_finished = 10
bosch_trigger_column BoschTrigger.merger_activated = 11
bosch_trigger_column BoschTrigger.merger_finished = 12
bosch_trigger_column BoschTrigger.downlink_sent = 13
bosch_trigger_column BoschTrigger.downlink_received = 14
bosch_trigger_column BoschTrigger.actuator_activated = 15
bosch_trigger_column BoschTrigger.actuator_finished = 16

-- The maps from a task number.
unfoldable pub activation_trigger : ℕ → Result BoschTrigger
activation_trigger task_id =
    if task_id == 1
    then ok BoschTrigger.sensor_activated
    else if task_id == 2
    then ok BoschTrigger.estimator_activated
    else if task_id == 3
    then ok BoschTrigger.controller_activated
    else if task_id == 4
    then ok BoschTrigger.feedforward_activated
    else if task_id == 5
    then ok BoschTrigger.merger_activated
    else if task_id == 6
    then ok BoschTrigger.actuator_activated
    else err logic_error

unfoldable pub finish_trigger : ℕ → Result BoschTrigger
finish_trigger task_id =
    if task_id == 1
    then ok BoschTrigger.sensor_finished
    else if task_id == 2
    then ok BoschTrigger.estimator_finished
    else if task_id == 3
    then ok BoschTrigger.controller_finished
    else if task_id == 4
    then ok BoschTrigger.feedforward_finished
    else if task_id == 5
    then ok BoschTrigger.merger_finished
    else if task_id == 6
    then ok BoschTrigger.actuator_finished
    else err logic_error

unfoldable pub send_trigger : ℕ → Result BoschTrigger
send_trigger task_id =
    if task_id == 1
    then ok BoschTrigger.uplink_sent
    else if task_id == 5
    then ok BoschTrigger.downlink_sent
    else err logic_error

unfoldable pub delivery_trigger : ℕ → Result BoschTrigger
delivery_trigger task_id =
    if task_id == 2
    then ok BoschTrigger.uplink_received
    else if task_id == 6
    then ok BoschTrigger.downlink_received
    else err logic_error

abbrev pub required_task_id : Option ℕ → Result ℕ
required_task_id none = err logic_error
required_task_id (some task_id) = ok task_id

-- A case of the switch over the event type: the phase that it requires and its map.
unfoldable pub encode_as :
    (EventPhase → Bool) → (ℕ → Result BoschTrigger) → Event → Result (Option BoschTriggerEvent)
encode_as is_expected trigger_of event = do
  throw_if (not (is_expected event.phase)) logic_error
  task_id ← required_task_id event.entities.task_id
  trigger ← trigger_of task_id
  ok (some (record { tick = event.tick; trigger = trigger }))

-- The body of the loop over the trace: the entry that it appends.
abbrev encode_type : EventType → Event → Result (Option BoschTriggerEvent)
encode_type EventType.job_start = encode_as is_scheduling activation_trigger
encode_type EventType.job_finish = encode_as is_execution_completion finish_trigger
encode_type EventType.message_send = encode_as is_caused_action send_trigger
encode_type EventType.message_delivery = encode_as is_delivery_phase delivery_trigger
encode_type EventType.job_release = λ event. ok none
encode_type EventType.job_preempt = λ event. ok none
encode_type EventType.job_resume = λ event. ok none
encode_type EventType.deadline_miss = λ event. ok none

unfoldable pub encode_event : Event → Result (Option BoschTriggerEvent)
unfolding encode_as activation_trigger finish_trigger send_trigger delivery_trigger
encode_event event = encode_type event.type event

abbrev pub add_entry : Option BoschTriggerEvent → List BoschTriggerEvent → List BoschTriggerEvent
add_entry none encoded = encoded
add_entry (some entry) encoded = entry ∷ encoded

unfoldable pub encode_events : List Event → Result (List BoschTriggerEvent)
unfolding encode_event
encode_events [] = ok []
encode_events (event ∷ trace) = do
  entry ← encode_event event
  encoded ← encode_events trace
  ok (add_entry entry encoded)

-- The comparator of normalize.
abbrev pub trigger_before : BoschTriggerEvent → BoschTriggerEvent → Bool
trigger_before left right =
    if left.tick == right.tick
    then ltb (bosch_trigger_column left.trigger) (bosch_trigger_column right.trigger)
    else ltb left.tick right.tick

-- Two triggers are equal exactly if their columns are.
abbrev pub is_duplicate : BoschTriggerEvent → BoschTriggerEvent → Bool
is_duplicate left right =
    left.tick == right.tick
    && bosch_trigger_column left.trigger == bosch_trigger_column right.trigger

-- std::unique after the entry that was kept last.
unfoldable pub unique_after : BoschTriggerEvent → List BoschTriggerEvent → List BoschTriggerEvent
unique_after last [] = []
unique_after last (entry ∷ entries) =
    let dropped = unique_after last entries in
    let kept = unique_after entry entries in
    if is_duplicate last entry then dropped else entry ∷ kept

abbrev pub unique : List BoschTriggerEvent → List BoschTriggerEvent
unique [] = []
unique (entry ∷ entries) = entry ∷ unique_after entry entries

unfoldable pub normalize : List BoschTriggerEvent → List BoschTriggerEvent
unfolding sort unique_after
normalize events = unique (sort trigger_before events)

unfoldable pub encode_bosch_v10_triggers : List Event → Result (List BoschTriggerEvent)
unfolding encode_events normalize
encode_bosch_v10_triggers trace = do encoded ← encode_events trace; ok (normalize encoded)
