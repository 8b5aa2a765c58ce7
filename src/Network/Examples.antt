-- ===== src/Network/Examples.antt =====
-- The theorems on the network at concrete inputs.
use cpssim.Base.{ℕ, ◌≡◌, ◌≢◌, refl, none, some, false, [], ◌∷◌, ◌++◌, map, ok, pos, arith, inl, All}
use cpssim.Event.{Event, EventPhase, EventType}
use cpssim.Specs.{MessageRouteSpec}
use cpssim.Queue.{EventQueue, new_event_queue, schedule}
use cpssim.Queue.Contents.{IsValid}
use cpssim.Message.{Message, MessageLifecycle}
use cpssim.Network.{
  FixedDelayNetwork, new_network, publish, process_send, delivery_entities, send_entities,
}
use cpssim.Network.Publication.{outline, expected, publish-outline, publish_zero_delay}
use cpssim.Network.Causality.{IsCausal}
use cpssim.Network.Traffic.{Traffic, begins, publishes, sends, Traffic-IsCausal}

-- From task 1 to task 2.
abbrev route : ℕ → MessageRouteSpec
route delay = record {
  source_task_id = 1;
  destination_task_id = 2;
  kind = pos 0;
  send_offset = pos 1;
  delay = pos delay;
}

abbrev network : ℕ → FixedDelayNetwork
network delay = record {
  routes = route delay ∷ [];
  messages = [];
  stop_tick = 20;
  next_message_id = 1;
  message_id_space_exhausted = false;
}

abbrev completion : Event
completion = record {
  tick = 4;
  phase = EventPhase.execution_completion;
  sequence = 6;
  type = EventType.job_finish;
  entities = record {
    task_id = some 1;
    job_id = some 9;
    resource_id = some 1;
    message_id = none;
    vehicle_id = none;
  };
  cause_sequence = none;
}

abbrev empty_queue : EventQueue
empty_queue = record new_event_queue { next_sequence = 7 }

empty_queue-IsValid : IsValid empty_queue
empty_queue-IsValid = record { ordered = tt; fresh = λ h. tt; bounded = omega arith }

abbrev message : Message
message = record {
  id = 1;
  source_job = record { task_id = 1; job_id = 9 };
  destination_task_id = 2;
  timing = record { publish = 4; send = 5; delivery = 8 };
  publication_sequence = 6;
  lifecycle = MessageLifecycle.pending_send;
  send_event_sequence = some 7;
  delivery_event_sequence = none;
}

abbrev published : FixedDelayNetwork
published = record (network 3) { messages = message ∷ []; next_message_id = 2 }

abbrev send_event : Event
send_event = record {
  tick = 5;
  phase = EventPhase.caused_action;
  sequence = 7;
  type = EventType.message_send;
  entities = send_entities message;
  cause_sequence = some 6;
}

abbrev waiting : EventQueue
waiting = record new_event_queue { events = send_event ∷ []; next_sequence = 8 }

publish_at_4 : publish (network 3) completion empty_queue ≡ ok (published, waiting)
unfolding publish schedule
publish_at_4 = refl

publish-outline_example :
    map outline published.messages
    ≡ [] ++ expected completion (record { task_id = 1; job_id = 9 }) (route 3 ∷ [])
publish-outline_example =
    publish-outline (network 3) completion empty_queue 1 9 published waiting refl refl publish_at_4

publish_zero_delay_example : publish (network 0) completion empty_queue ≢ ok (published, waiting)
publish_zero_delay_example =
    publish_zero_delay (network 0) completion empty_queue 1 (published, waiting) refl
      (inl (refl, refl))

abbrev in_flight : FixedDelayNetwork
in_flight = record published {
  messages =
      record message { lifecycle = MessageLifecycle.in_flight; delivery_event_sequence = some 8 }
      ∷ [];
}

abbrev delivery_event : Event
delivery_event = record {
  tick = 8;
  phase = EventPhase.message_delivery;
  sequence = 8;
  type = EventType.message_delivery;
  entities = delivery_entities message;
  cause_sequence = some 7;
}

abbrev sent_queue : EventQueue
sent_queue = record new_event_queue { events = delivery_event ∷ []; next_sequence = 9 }

abbrev popped : EventQueue
popped = record new_event_queue { next_sequence = 8 }

popped-IsValid : IsValid popped
popped-IsValid = record { ordered = tt; fresh = λ h. tt; bounded = omega arith }

send_at_5 : process_send published send_event popped ≡ ok (in_flight, sent_queue)
unfolding process_send schedule
send_at_5 = refl

begin : new_network (route 3 ∷ []) (pos 20) ≡ ok (network 3)
unfolding new_network
begin = refl

traffic : Traffic in_flight
traffic =
    sends send_event popped sent_queue
      (publishes completion empty_queue waiting (begins (route 3 ∷ []) (pos 20) begin)
        empty_queue-IsValid publish_at_4)
      popped-IsValid send_at_5

Traffic-IsCausal_example : All IsCausal in_flight.messages
Traffic-IsCausal_example = Traffic-IsCausal in_flight traffic
