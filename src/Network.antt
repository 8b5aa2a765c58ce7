-- ===== src/Network.antt =====
-- src/cpssim/network/fixed_delay_network.hpp and fixed_delay_network.cpp. The network and the event queue that a method changes
-- are returned.
pub mod Served
pub mod Publication
pub mod Causality
pub mod Transmission
pub mod Traffic
mod Examples
use cpssim.Base.{
  ℕ, zero, suc, ◌+◌, ◌-◌, Bool, true, false, not, ◌&&◌, ◌||◌, Option, none, some, List, [], ◌∷◌,
  ◌++◌, Result, ok, err, invalid_argument, logic_error, overflow_error, ◌>>=◌, ◌>>◌, throw_if, ℤ,
  pos, nonnegative, positive, after, ltb, leb, ◌==◌, if◌then◌else◌, has_value, holds, eq_option,
  sort,
}
use cpssim.Time.{tick_max}
use cpssim.Specs.{MessageRouteSpec}
use cpssim.Config.{is_int, is_negative, same_endpoints}
use cpssim.Event.{
  Event, EventPhase, EventType, EventEntityRefs, is_execution_completion, is_job_finish,
  is_caused_action, is_message_send, is_delivery_phase, is_message_delivery,
}
use cpssim.Runtime.{JobIdentity}
use cpssim.Message.{
  MessageLifecycle, MessageTiming, Message, new_message, is_pending_send, is_in_flight,
  set_send_event_sequence, mark_sent, set_delivery_event_sequence, mark_delivered,
}
use cpssim.Queue.{EventQueue, schedule, u64_max}

pub record FixedDelayNetwork : Type 0 where
  pub routes : List MessageRouteSpec
  pub messages : List Message
  pub stop_tick : ℕ
  pub next_message_id : ℕ
  pub message_id_space_exhausted : Bool

abbrev pub send_entities : Message → EventEntityRefs
send_entities message = record {
  task_id = some message.source_job.task_id;
  job_id = some message.source_job.job_id;
  resource_id = none;
  message_id = some message.id;
  vehicle_id = none;
}

abbrev pub delivery_entities : Message → EventEntityRefs
delivery_entities message = record {
  task_id = some message.destination_task_id;
  job_id = none;
  resource_id = none;
  message_id = some message.id;
  vehicle_id = none;
}

checked_add : ℕ → ℤ → Result ℕ
checked_add tick duration = do
  length ← positive duration invalid_argument
  throw_if (ltb (tick_max - tick) length) overflow_error
  ok (tick + length)

-- The order in which the constructor sorts the routes.
abbrev pub route_before : MessageRouteSpec → MessageRouteSpec → Bool
route_before left right =
    if left.source_task_id == right.source_task_id
    then ltb left.destination_task_id right.destination_task_id
    else ltb left.source_task_id right.source_task_id

-- std::erase_if of the Logical routes.
unfoldable pub erase_logical : List MessageRouteSpec → List MessageRouteSpec
erase_logical [] = []
erase_logical (route ∷ routes) =
    if is_int 1 route.kind then erase_logical routes else route ∷ erase_logical routes

abbrev clashes : Option MessageRouteSpec → MessageRouteSpec → Bool
clashes none route = false
clashes (some previous) route = same_endpoints previous route

-- The validation loop, with the route before the current one.
unfoldable pub check_routes : Option MessageRouteSpec → List MessageRouteSpec → Result (Unit {0})
check_routes previous [] = ok tt
check_routes previous (route ∷ routes) = do
  throw_if (not (is_int 1 route.send_offset)) invalid_argument
  throw_if (is_negative route.delay) invalid_argument
  throw_if (clashes previous route) invalid_argument
  check_routes (some route) routes

unfoldable pub new_network : List MessageRouteSpec → ℤ → Result FixedDelayNetwork
unfolding erase_logical check_routes sort
new_network routes stop_tick = do
  stop ← nonnegative stop_tick invalid_argument
  let kept = erase_logical (sort route_before routes)
  check_routes none kept
  ok (record {
    routes = kept;
    messages = [];
    stop_tick = stop;
    next_message_id = 1;
    message_id_space_exhausted = false;
  })

unfoldable pub find_message : List Message → ℕ → Result Message
find_message [] id = err logic_error
find_message (message ∷ messages) id =
    if message.id == id then ok message else find_message messages id

-- The store after a change of the message that `find_message` refers to.
unfoldable pub update_message : Message → List Message → List Message
update_message changed [] = []
update_message changed (message ∷ messages) =
    if message.id == changed.id
    then changed ∷ messages
    else message ∷ update_message changed messages

pub allocate_message_id : FixedDelayNetwork → Result (ℕ × FixedDelayNetwork)
allocate_message_id network = do
  throw_if network.message_id_space_exhausted overflow_error
  ok (
    network.next_message_id,
    if network.next_message_id == u64_max
        then record network { message_id_space_exhausted = true }
        else record network { next_message_id = network.next_message_id + 1 },
  )

abbrev store_message : FixedDelayNetwork → Message → FixedDelayNetwork
store_message network message = record network { messages = network.messages ++ message ∷ [] }

-- The event of a new message, if its send tick is in the horizon.
publish_send :
    FixedDelayNetwork → Message → ℕ → EventQueue → Result (FixedDelayNetwork × EventQueue)
unfolding set_send_event_sequence
publish_send network message sequence queue =
    if leb message.timing.send network.stop_tick
    then (do
      (assigned, queue') ←
          schedule queue (pos message.timing.send) EventPhase.caused_action EventType.message_send
            (send_entities message) (some sequence)
      message' ← set_send_event_sequence message assigned
      ok (store_message network message', queue'))
    else ok (store_message network message, queue)

-- The body of the loop of publish, for a route of the completed task.
unfoldable pub publish_route :
    Event
    → JobIdentity
    → MessageRouteSpec
    → FixedDelayNetwork × EventQueue
    → Result (FixedDelayNetwork × EventQueue)
unfolding checked_add allocate_message_id new_message publish_send
publish_route completion job route (network, queue) = do
  send_tick ← checked_add completion.tick route.send_offset
  delivery_tick ← checked_add send_tick route.delay
  (id, network') ← allocate_message_id network
  message ←
      new_message id job route.destination_task_id
        (record { publish = completion.tick; send = send_tick; delivery = delivery_tick })
        completion.sequence
  publish_send network' message completion.sequence queue

unfoldable pub publish_routes :
    Event
    → JobIdentity
    → List MessageRouteSpec
    → FixedDelayNetwork × EventQueue
    → Result (FixedDelayNetwork × EventQueue)
unfolding publish_route
publish_routes completion job [] state = ok state
publish_routes completion job (route ∷ routes) state = do
  state' ←
      if route.source_task_id == job.task_id
      then publish_route completion job route state
      else ok state
  publish_routes completion job routes state'

-- The task and the job of an event, or an error where one is missing.
abbrev pub job_of : Option ℕ → Option ℕ → Result JobIdentity
job_of (some task) (some job) = ok (record { task_id = task; job_id = job })
job_of _ _ = err logic_error

abbrev pub required : Option ℕ → Result ℕ
required none = err logic_error
required (some value) = ok value

unfoldable pub publish :
    FixedDelayNetwork → Event → EventQueue → Result (FixedDelayNetwork × EventQueue)
unfolding publish_routes
publish network completion queue = do
  throw_if (not (is_execution_completion completion.phase)) logic_error
  throw_if (not (is_job_finish completion.type)) logic_error
  job ← job_of completion.entities.task_id completion.entities.job_id
  publish_routes completion job network.routes (network, queue)

-- The event is the one that the network scheduled for the sending of the message.
abbrev pub matches_send : Message → Event → Bool
matches_send message event =
    is_pending_send message.lifecycle
    && event.tick == message.timing.send
    && holds message.send_event_sequence event.sequence
    && holds event.cause_sequence message.publication_sequence
    && holds event.entities.task_id message.source_job.task_id
    && holds event.entities.job_id message.source_job.job_id

-- The stage of a delivery: late in the same tick where there is no delay.
abbrev pub delivery_phase : MessageTiming → EventPhase
delivery_phase timing =
    if timing.delivery == timing.send
    then EventPhase.caused_action_late
    else EventPhase.message_delivery

unfoldable pub send_message :
    FixedDelayNetwork → Message → ℕ → EventQueue → Result (Message × EventQueue)
unfolding set_delivery_event_sequence
send_message network message sequence queue =
    if leb message.timing.delivery network.stop_tick
    then (do
      (assigned, queue') ←
          schedule queue (pos message.timing.delivery) (delivery_phase message.timing)
            EventType.message_delivery (delivery_entities message) (some sequence)
      message' ← set_delivery_event_sequence message assigned
      ok (message', queue'))
    else ok (message, queue)

unfoldable pub process_send :
    FixedDelayNetwork → Event → EventQueue → Result (FixedDelayNetwork × EventQueue)
unfolding find_message update_message mark_sent send_message
process_send network event queue = do
  throw_if (not (is_caused_action event.phase)) logic_error
  throw_if (not (is_message_send event.type)) logic_error
  id ← required event.entities.message_id
  message ← find_message network.messages id
  throw_if (not (matches_send message event)) logic_error
  sent ← mark_sent message
  (message', queue') ← send_message network sent event.sequence queue
  ok (record network { messages = update_message message' network.messages }, queue')

-- The event is the one that the network scheduled for the delivery of the message.
abbrev pub matches_delivery : Message → Event → Bool
matches_delivery message event =
    is_in_flight message.lifecycle
    && event.tick == message.timing.delivery
    && holds message.delivery_event_sequence event.sequence
    && eq_option event.cause_sequence message.send_event_sequence
    && holds event.entities.task_id message.destination_task_id
    && not (has_value event.entities.job_id)

unfoldable pub process_delivery : FixedDelayNetwork → Event → Result FixedDelayNetwork
unfolding find_message update_message mark_delivered
process_delivery network event = do
  throw_if (not (is_delivery_phase event.phase)) logic_error
  throw_if (not (is_message_delivery event.type)) logic_error
  id ← required event.entities.message_id
  message ← find_message network.messages id
  throw_if (not (matches_delivery message event)) logic_error
  message' ← mark_delivered message
  ok (record network { messages = update_message message' network.messages })
