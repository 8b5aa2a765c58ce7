-- ===== src/Engine/Messages.antt =====
-- What the network puts into the queue: FixedDelayNetwork::publish and process_send.
use cpssim.Base.{
  ℕ, ◌<◌, ◌≡◌, refl, subst, inl, inr, Option, none, some, List, [], ◌∷◌, Result, ok, Result-cases,
  Bool-cases, pos, arith, ◌==◌, All, leb,
}
use cpssim.Event.{Event, EventType}
use cpssim.Specs.{MessageRouteSpec}
use cpssim.Runtime.{JobIdentity}
use cpssim.Queue.{EventQueue, schedule}
use cpssim.Message.{Message, MessageLifecycle}
use cpssim.Network.{
  FixedDelayNetwork, publish, publish_route, publish_routes, process_send, send_message,
  delivery_phase, delivery_entities,
}
use cpssim.Network.Served.{Sent, in_horizon, beyond, publish_route-Served}
use cpssim.Network.Causality.{IsCausal, find_message-IsCausal}
use cpssim.Network.Transmission.{process_send-SendStep}
use cpssim.Engine.Timely.{IsTimely, AddsLater, AddsLater-refl, AddsLater-trans, schedule-AddsLater}

Sent-AddsLater :
    (tick : ℕ) (network : FixedDelayNetwork) (message : Message) (sequence : ℕ) (queue : EventQueue)
    (network' : FixedDelayNetwork) (queue' : EventQueue)
    → IsTimely tick queue
    → tick < message.timing.send
    → Sent network message sequence queue network' queue'
    → AddsLater tick queue queue'
Sent-AddsLater tick network message sequence queue network' queue' v lt (in_horizon a le s e) =
    schedule-AddsLater tick queue message.timing.send _ _ _ _ a queue' v lt s
Sent-AddsLater tick network message sequence queue network' queue' v lt (beyond u e f) =
    rw f (AddsLater-refl tick queue v)

publish_routes-AddsLater :
    (completion : Event) (job : JobIdentity) (routes : List MessageRouteSpec)
    (network : FixedDelayNetwork) (queue : EventQueue) (network' : FixedDelayNetwork)
    (queue' : EventQueue)
    → IsTimely completion.tick queue
    → publish_routes completion job routes (network, queue) ≡ ok (network', queue')
    → AddsLater completion.tick queue queue'
unfolding publish_routes
publish_routes-AddsLater completion job [] network queue network' queue' v e =
    let q : queue ≡ queue' = ground arith in
    subst (AddsLater completion.tick queue) q (AddsLater-refl completion.tick queue v)
publish_routes-AddsLater completion job (route ∷ routes) network queue network' queue' v e =
    elim (Bool-cases (route.source_task_id == job.task_id)) [
      | inr other ↦
          publish_routes-AddsLater completion job routes network queue network' queue' v
            (rw other at e)
      | inl same ↦ elim (Result-cases (publish_route completion job route (network, queue))) [
        | inr (error, f) ↦ ground (arith, f)
        | inl ((n, q), f) ↦
            let s = publish_route-Served completion job route network queue n q f in
            let one =
              Sent-AddsLater completion.tick s.allocated _ completion.sequence queue n q v
                (omega (arith, s.offset_pos)) s.sent in
            AddsLater-trans completion.tick queue q queue' one (
              publish_routes-AddsLater completion job routes n q network' queue' one.timely
                (ground (arith, f)))
      ]
    ]

-- A publication puts only later events into the queue.
pub publish-AddsLater :
    (network : FixedDelayNetwork) (completion : Event) (queue : EventQueue)
    (network' : FixedDelayNetwork) (queue' : EventQueue)
    → IsTimely completion.tick queue
    → publish network completion queue ≡ ok (network', queue')
    → AddsLater completion.tick queue queue'
unfolding publish
publish-AddsLater network completion queue network' queue' v e =
    from_job completion.entities.task_id completion.entities.job_id refl refl
  where
    from_job :
        (task job : Option ℕ)
        → completion.entities.task_id ≡ task
        → completion.entities.job_id ≡ job
        → AddsLater completion.tick queue queue'
    from_job (some task) (some job) t j =
        publish_routes-AddsLater completion (record { task_id = task; job_id = job }) network.routes
          network queue network' queue' v (ground (arith, t, j))
    from_job none job t j = absurd (ground (arith, t, j))
    from_job (some task) none t j = absurd (ground (arith, t, j))

send_message-AddsLater :
    (tick : ℕ) (network : FixedDelayNetwork) (message : Message) (sequence : ℕ) (queue : EventQueue)
    (message' : Message) (queue' : EventQueue)
    → IsTimely tick queue
    → tick < message.timing.delivery
    → send_message network message sequence queue ≡ ok (message', queue')
    → AddsLater tick queue queue'
unfolding send_message
send_message-AddsLater tick network message sequence queue message' queue' v lt e =
    elim (Bool-cases (leb message.timing.delivery network.stop_tick)) [
      | inr outside ↦
          let q : queue ≡ queue' = ground (arith, outside) in
          subst (AddsLater tick queue) q (AddsLater-refl tick queue v)
      | inl inside ↦ elim (Result-cases scheduled) [
        | inr (error, f) ↦ ground (arith, f, inside)
        | inl ((assigned, q), f) ↦
            let r : q ≡ queue' = ground (arith, f, inside) in
            subst (AddsLater tick queue) r
              (schedule-AddsLater tick queue message.timing.delivery _ _ _ _ assigned q v lt f)
      ]
    ]
  where
    scheduled : Result (ℕ × EventQueue)
    scheduled =
        schedule queue (pos message.timing.delivery) (delivery_phase message.timing)
          EventType.message_delivery (delivery_entities message) (some sequence)

-- A sending puts only later events into the queue, since a delivery comes after it.
pub process_send-AddsLater :
    (network : FixedDelayNetwork) (event : Event) (queue : EventQueue)
    (network' : FixedDelayNetwork) (queue' : EventQueue)
    → IsTimely event.tick queue
    → All IsCausal network.messages
    → process_send network event queue ≡ ok (network', queue')
    → AddsLater event.tick queue queue'
process_send-AddsLater network event queue network' queue' v h e =
    let x = process_send-SendStep network event queue network' queue' e in
    let c = find_message-IsCausal network.messages x.id x.message h x.found in
    send_message-AddsLater event.tick network
      (record x.message { lifecycle = MessageLifecycle.in_flight }) event.sequence queue x.message'
      queue' v (ground (arith, x.matched, c.delivered_later)) x.moved
