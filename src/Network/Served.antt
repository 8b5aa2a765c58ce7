-- ===== src/Network/Served.antt =====
-- FixedDelayNetwork::publish for one route.
use cpssim.Base.{
  ℕ, zero, suc, ◌+◌, ◌≤◌, ◌<◌, ◌≡◌, refl, inl, inr, none, some, Result, ok, Result-cases, ℤ, pos,
  negsuc, arith, leb, Bool-cases,
}
use cpssim.Time.{tick_max}
use cpssim.Specs.{MessageRouteSpec}
use cpssim.Event.{Event, EventPhase, EventType}
use cpssim.Runtime.{JobIdentity}
use cpssim.Queue.{EventQueue, schedule}
use cpssim.Message.{Message, MessageLifecycle, new_message}
use cpssim.Network.{
  FixedDelayNetwork, checked_add, allocate_message_id, publish_send, publish_route, send_entities,
  store_message,
}

-- The message that a route gets for a completed job.
abbrev pub planned : ℕ → Event → JobIdentity → MessageRouteSpec → ℕ → ℕ → Message
planned id completion job route offset delay = record {
  id = id;
  source_job = job;
  destination_task_id = route.destination_task_id;
  timing = record {
    publish = completion.tick;
    send = completion.tick + offset;
    delivery = completion.tick + offset + delay;
  };
  publication_sequence = completion.sequence;
  lifecycle = MessageLifecycle.pending_send;
  send_event_sequence = none;
  delivery_event_sequence = none;
}

-- What an accepted publication of one message did.
pub data Sent (network : FixedDelayNetwork) (message : Message) (sequence : ℕ) (queue : EventQueue)
    (network' : FixedDelayNetwork) (queue' : EventQueue) : Type 0 where
  in_horizon :
      (assigned : ℕ)
      → message.timing.send ≤ network.stop_tick
      → schedule queue
          (pos message.timing.send)
          EventPhase.caused_action
          EventType.message_send
          (send_entities message)
          (some sequence)
        ≡ ok (assigned, queue')
      → network' ≡ store_message network (record message { send_event_sequence = some assigned })
      → Sent network message sequence queue network' queue'
  beyond :
      network.stop_tick < message.timing.send
      → network' ≡ store_message network message
      → queue' ≡ queue
      → Sent network message sequence queue network' queue'

publish_send-Sent :
    (network : FixedDelayNetwork) (message : Message) (sequence : ℕ) (queue : EventQueue)
    (network' : FixedDelayNetwork) (queue' : EventQueue)
    → message.send_event_sequence ≡ none
    → publish_send network message sequence queue ≡ ok (network', queue')
    → Sent network message sequence queue network' queue'
unfolding publish_send
publish_send-Sent network message sequence queue network' queue' fresh h =
    elim (Bool-cases (leb message.timing.send network.stop_tick)) [
      | inl e ↦ elim (Result-cases scheduled) [
        | inl ((assigned, q), f) ↦
            in_horizon assigned (ground arith) (ground (arith, f)) (ground (arith, f))
        | inr (error, f) ↦ ground (arith, f)
      ]
      | inr e ↦ beyond (ground arith) (ground arith) (ground arith)
    ]
  where
    scheduled : Result (ℕ × EventQueue)
    scheduled =
        schedule queue (pos message.timing.send) EventPhase.caused_action EventType.message_send
          (send_entities message) (some sequence)

-- A route of a completed job that was served: both of its intervals are positive.
pub record Served (completion : Event) (job : JobIdentity) (route : MessageRouteSpec)
    (network : FixedDelayNetwork) (queue : EventQueue) (network' : FixedDelayNetwork)
    (queue' : EventQueue) : Type 0 where
  pub offset : ℕ
  pub delay : ℕ
  pub offset_eq : route.send_offset ≡ pos offset
  pub delay_eq : route.delay ≡ pos delay
  pub offset_pos : 0 < offset
  pub delay_pos : 0 < delay
  pub allocated : FixedDelayNetwork
  pub allocation : allocate_message_id network ≡ ok (network.next_message_id, allocated)
  pub sent :
      Sent allocated
        (planned network.next_message_id completion job route offset delay)
        completion.sequence
        queue
        network'
        queue'

checked_add-eq-ok :
    (tick : ℕ) (duration : ℤ) {r : ℕ}
    → checked_add tick duration ≡ ok r
    → (d : ℕ) × (duration ≡ pos d) × (0 < d) × (r ≡ tick + d) × (tick + d ≤ tick_max)
unfolding checked_add
checked_add-eq-ok tick (pos zero) h = cc
checked_add-eq-ok tick (pos (suc d)) h = (suc d, refl, omega arith, ground arith, ground arith)
checked_add-eq-ok tick (negsuc d) h = cc

allocate-eq-ok :
    (network : FixedDelayNetwork) {id : ℕ} {network' : FixedDelayNetwork}
    → allocate_message_id network ≡ ok (id, network')
    → id ≡ network.next_message_id
unfolding allocate_message_id
allocate-eq-ok network h = ground arith

pub publish_route-Served :
    (completion : Event) (job : JobIdentity) (route : MessageRouteSpec)
    (network : FixedDelayNetwork) (queue : EventQueue) (network' : FixedDelayNetwork)
    (queue' : EventQueue)
    → publish_route completion job route (network, queue) ≡ ok (network', queue')
    → Served completion job route network queue network' queue'
unfolding publish_route new_message
publish_route-Served completion job route network queue network' queue' h =
    elim (Result-cases (checked_add completion.tick route.send_offset)) [
      | inr (error, f) ↦ ground (arith, f)
      | inl (send, f) ↦ elim (Result-cases (checked_add send route.delay)) [
        | inr (error, g) ↦ ground (arith, f, g)
        | inl (delivery, g) ↦ elim (Result-cases (allocate_message_id network)) [
          | inr (error, a) ↦ ground (arith, f, g, a)
          | inl ((id, n), a) ↦
              let (o, oe, op, se, _) = checked_add-eq-ok completion.tick route.send_offset f in
              let (d, de, dp, te, _) = checked_add-eq-ok send route.delay g in
              record {
                offset = o;
                delay = d;
                offset_eq = oe;
                delay_eq = de;
                offset_pos = op;
                delay_pos = dp;
                allocated = n;
                allocation = cc (a, allocate-eq-ok network a);
                sent =
                    publish_send-Sent n (planned network.next_message_id completion job route o d)
                      completion.sequence queue network' queue' refl
                      (ground (arith, f, g, a, se, te, allocate-eq-ok network a));
              }
        ]
      ]
    ]
