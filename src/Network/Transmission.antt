-- ===== src/Network/Transmission.antt =====
-- FixedDelayNetwork::process_send and process_delivery, against the causal order of a message.
use cpssim.Base.{
  ℕ, ◌<◌, ◌≡◌, ◌≢◌, refl, subst, inl, inr, true, Option, none, some, Result, ok, Result-cases, pos,
  arith, leb, Bool-cases, Option-cases, All,
}
use cpssim.Event.{Event, EventType}
use cpssim.Queue.{EventQueue, schedule}
use cpssim.Queue.Contents.{IsValid, schedule-IsValid, schedule-Scheduled}
use cpssim.Message.{Message, MessageLifecycle, mark_sent, mark_delivered}
use cpssim.Network.{
  FixedDelayNetwork, process_send, process_delivery, find_message, update_message, send_message,
  matches_send, matches_delivery, delivery_phase, delivery_entities,
}
use cpssim.Network.Causality.{Causal, IsCausal, find_message-IsCausal, update_message-IsCausal}

send_lt : (p s : ℕ) (d : Option ℕ) → Causal p MessageLifecycle.in_flight (some s) d → p < s
send_lt p s none h = h
send_lt p s (some d) h = h.0

send_message-IsCausal :
    (network : FixedDelayNetwork) (message : Message) (sequence : ℕ) (queue : EventQueue)
    (message' : Message) (queue' : EventQueue)
    → IsCausal message
    → IsValid queue
    → message.lifecycle ≡ MessageLifecycle.in_flight
    → message.send_event_sequence ≡ some sequence
    → send_message network message sequence queue ≡ ok (message', queue')
    → IsCausal message' × IsValid queue'
unfolding send_message
send_message-IsCausal network message sequence queue message' queue' c v l sent e =
    elim (Bool-cases (leb message.timing.delivery network.stop_tick)) [
      | inr outside ↦
          let p : message ≡ message' = ground arith in
          let q : queue ≡ queue' = ground arith in (subst IsCausal p c, subst IsValid q v)
      | inl inside ↦ elim (Result-cases scheduled) [
        | inr (error, f) ↦ ground (arith, f)
        | inl ((assigned, q), f) ↦
            let d = schedule-Scheduled queue message.timing.delivery _ _ _ _ v.bounded f in
            let p : message' ≡ record message { delivery_event_sequence = some assigned } =
              ground (arith, f) in
            let r : q ≡ queue' = ground (arith, f) in
            (
              rw p (record {
                sent_later = c.sent_later;
                delivered_later = c.delivered_later;
                events =
                    rw (l, sent)
                      (
                        send_lt message.publication_sequence sequence
                            message.delivery_event_sequence (rw (l, sent) at c.events),
                        d.caused,
                      );
              }),
              subst IsValid r
                  (schedule-IsValid queue (pos message.timing.delivery) _ _ _ _ assigned q v f),
            )
      ]
    ]
  where
    scheduled : Result (ℕ × EventQueue)
    scheduled =
        schedule queue (pos message.timing.delivery) (delivery_phase message.timing)
          EventType.message_delivery (delivery_entities message) (some sequence)

sent-IsCausal :
    (m : Message) (sequence : ℕ)
    → IsCausal m
    → m.lifecycle ≡ MessageLifecycle.pending_send
    → m.send_event_sequence ≡ some sequence
    → IsCausal (record m { lifecycle = MessageLifecycle.in_flight })
sent-IsCausal m sequence c l s = record {
  sent_later = c.sent_later;
  delivered_later = c.delivered_later;
  events = in_flight_events m.delivery_event_sequence (rw (l, s) at c.events);
}
  where
    in_flight_events :
        (d : Option ℕ)
        → Causal m.publication_sequence MessageLifecycle.pending_send (some sequence) d
        → Causal m.publication_sequence MessageLifecycle.in_flight m.send_event_sequence d
    in_flight_events none h = rw s h
    in_flight_events (some d) h = absurd h

-- The message of an event, and the calls that an accepted sending made.
pub record SendStep (network : FixedDelayNetwork) (event : Event) (queue : EventQueue)
    (network' : FixedDelayNetwork) (queue' : EventQueue) : Type 0 where
  pub id : ℕ
  pub message : Message
  pub message' : Message
  pub found : find_message network.messages id ≡ ok message
  pub matched : matches_send message event ≡ true
  pub moved :
      send_message network
        (record message { lifecycle = MessageLifecycle.in_flight })
        event.sequence
        queue
      ≡ ok (message', queue')
  pub result : network' ≡ record network { messages = update_message message' network.messages }

pub process_send-SendStep :
    (network : FixedDelayNetwork) (event : Event) (queue : EventQueue)
    (network' : FixedDelayNetwork) (queue' : EventQueue)
    → process_send network event queue ≡ ok (network', queue')
    → SendStep network event queue network' queue'
unfolding mark_sent
process_send-SendStep network event queue network' queue' e =
    elim (Option-cases event.entities.message_id) [
      | inl o ↦ unfold process_send in ground (arith, o)
      | inr (id, o) ↦ elim (Result-cases (find_message network.messages id)) [
        | inr (error, f) ↦ unfold process_send in ground (arith, o, f)
        | inl (m, f) ↦ elim (Bool-cases (matches_send m event)) [
          | inr b ↦ unfold process_send in ground (arith, o, f, b)
          | inl b ↦
              elim (Result-cases (
                send_message network (record m { lifecycle = MessageLifecycle.in_flight })
                  event.sequence queue)) [
                    | inr (error, g) ↦ unfold process_send in ground (arith, o, f, b, g)
                    | inl ((m', q), g) ↦ record {
                      id = id;
                      message = m;
                      message' = m';
                      found = f;
                      matched = b;
                      moved = unfold process_send in ground (arith, o, f, b, g);
                      result = unfold process_send in ground (arith, o, f, b, g);
                    }
                  ]
        ]
      ]
    ]

-- Processing a send keeps every message in causal order and the queue valid.
pub process_send-IsCausal :
    (network : FixedDelayNetwork) (event : Event) (queue : EventQueue)
    (network' : FixedDelayNetwork) (queue' : EventQueue)
    → IsValid queue
    → All IsCausal network.messages
    → process_send network event queue ≡ ok (network', queue')
    → All IsCausal network'.messages × IsValid queue'
process_send-IsCausal network event queue network' queue' v h e =
    let x = process_send-SendStep network event queue network' queue' e in
    let c = find_message-IsCausal network.messages x.id x.message h x.found in
    let l : x.message.lifecycle ≡ MessageLifecycle.pending_send = ground (arith, x.matched) in
    let s : x.message.send_event_sequence ≡ some event.sequence = ground (arith, x.matched) in
    let (c', v') =
      send_message-IsCausal network _ event.sequence queue x.message' queue'
        (sent-IsCausal x.message event.sequence c l s) v refl s x.moved in
    (rw x.result (update_message-IsCausal x.message' network.messages c' h), v')

delivered-IsCausal :
    (m : Message) (event : Event)
    → IsCausal m
    → matches_delivery m event ≡ true
    → IsCausal (record m { lifecycle = MessageLifecycle.delivered })
delivered-IsCausal m event c b = record {
  sent_later = c.sent_later;
  delivered_later = c.delivered_later;
  events =
      delivered_events m.send_event_sequence m.delivery_event_sequence
        (subst
          (λ l. Causal m.publication_sequence l m.send_event_sequence m.delivery_event_sequence)
          in_flight c.events)
        (λ d. ground arith);
}
  where
    in_flight : m.lifecycle ≡ MessageLifecycle.in_flight
    in_flight = ground arith

    delivered_events :
        (s d : Option ℕ)
        → Causal m.publication_sequence MessageLifecycle.in_flight s d
        → d ≢ none
        → Causal m.publication_sequence MessageLifecycle.delivered s d
    delivered_events none d h n = absurd h
    delivered_events (some s) none h n = absurd (n refl)
    delivered_events (some s) (some d) h n = h

-- Processing a delivery keeps every message in causal order.
pub process_delivery-IsCausal :
    (network : FixedDelayNetwork) (event : Event) (network' : FixedDelayNetwork)
    → All IsCausal network.messages
    → process_delivery network event ≡ ok network'
    → All IsCausal network'.messages
unfolding mark_delivered
process_delivery-IsCausal network event network' h e =
    elim (Option-cases event.entities.message_id) [
      | inl o ↦ unfold process_delivery in ground (arith, o)
      | inr (id, o) ↦ elim (Result-cases (find_message network.messages id)) [
        | inr (error, f) ↦ unfold process_delivery in ground (arith, o, f)
        | inl (m, f) ↦ elim (Bool-cases (matches_delivery m event)) [
          | inr b ↦ unfold process_delivery in ground (arith, o, f, b)
          | inl b ↦
              let c = find_message-IsCausal network.messages id m h f in
              let p : network' ≡ record network {
                messages =
                    update_message (record m { lifecycle = MessageLifecycle.delivered })
                      network.messages;
              } =
                unfold process_delivery in ground (arith, o, f, b) in
              rw p (update_message-IsCausal _ network.messages (delivered-IsCausal m event c b) h)
        ]
      ]
    ]
