-- ===== src/Message.antt =====
-- src/cpssim/model/message.hpp and message.cpp: one message between two tasks, and its stages.
use cpssim.Base.{
  ℕ, Bool, true, false, not, Option, none, some, Result, ok, invalid_argument, logic_error, ◌>>◌,
  throw_if, leb, has_value,
}
use cpssim.Runtime.{JobIdentity}

pub data MessageLifecycle : Type 0 where
  pending_send in_flight delivered : MessageLifecycle

pub record MessageTiming : Type 0 where
  pub publish : ℕ
  pub send : ℕ
  pub delivery : ℕ

pub record Message : Type 0 where
  pub id : ℕ
  pub source_job : JobIdentity
  pub destination_task_id : ℕ
  pub timing : MessageTiming
  pub publication_sequence : ℕ
  pub lifecycle : MessageLifecycle
  pub send_event_sequence : Option ℕ
  pub delivery_event_sequence : Option ℕ

-- The constructor of Message, on ticks that its one caller has computed from a natural tick.
unfoldable pub new_message : ℕ → JobIdentity → ℕ → MessageTiming → ℕ → Result Message
new_message id source_job destination_task_id timing publication_sequence = do
  throw_if (leb timing.send timing.publish) invalid_argument
  throw_if (leb timing.delivery timing.send) invalid_argument
  ok (record {
    id = id;
    source_job = source_job;
    destination_task_id = destination_task_id;
    timing = timing;
    publication_sequence = publication_sequence;
    lifecycle = MessageLifecycle.pending_send;
    send_event_sequence = none;
    delivery_event_sequence = none;
  })

abbrev pub is_pending_send : MessageLifecycle → Bool
is_pending_send MessageLifecycle.pending_send = true
is_pending_send _ = false

abbrev pub is_in_flight : MessageLifecycle → Bool
is_in_flight MessageLifecycle.in_flight = true
is_in_flight _ = false

unfoldable pub set_send_event_sequence : Message → ℕ → Result Message
set_send_event_sequence message sequence = do
  throw_if (has_value message.send_event_sequence) logic_error
  ok (record message { send_event_sequence = some sequence })

unfoldable pub mark_sent : Message → Result Message
mark_sent message = do
  throw_if (not (is_pending_send message.lifecycle)) logic_error
  ok (record message { lifecycle = MessageLifecycle.in_flight })

unfoldable pub set_delivery_event_sequence : Message → ℕ → Result Message
set_delivery_event_sequence message sequence = do
  throw_if (has_value message.delivery_event_sequence) logic_error
  ok (record message { delivery_event_sequence = some sequence })

unfoldable pub mark_delivered : Message → Result Message
mark_delivered message = do
  throw_if (not (is_in_flight message.lifecycle)) logic_error
  ok (record message { lifecycle = MessageLifecycle.delivered })
