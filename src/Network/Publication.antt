-- ===== src/Network/Publication.antt =====
-- Which messages a completion publishes.
use cpssim.Base.{
  ℕ, ◌+◌, ◌≡◌, ◌≢◌, refl, inl, inr, Option, none, some, List, [], ◌∷◌, ◌++◌, map, ok, Result-cases,
  ℤ, pos, negsuc, arith, ◌==◌, if◌then◌else◌, ==_iff, Bool-cases, Any,
}
use mathlib.Core.List.{append_assoc, append-nil, map-append}
use cpssim.Specs.{MessageRouteSpec}
use cpssim.Event.{Event}
use cpssim.Runtime.{JobIdentity}
use cpssim.Queue.{EventQueue}
use cpssim.Message.{Message, MessageTiming}
use cpssim.Network.{FixedDelayNetwork, allocate_message_id, publish_route, publish_routes, publish}
use cpssim.Network.Served.{Sent, in_horizon, beyond, Served, publish_route-Served}

-- What a message says apart from its number and its progress.
abbrev pub outline : Message → JobIdentity × ℕ × MessageTiming × ℕ
outline message =
    (message.source_job, message.destination_task_id, message.timing, message.publication_sequence)

abbrev pub amount : ℤ → ℕ
amount (pos n) = n
amount (negsuc n) = 0

-- One message for each route of the task, in the order of the routes: sent the route's offset after
-- the completion and delivered the route's delay after that.
abbrev pub expected :
    Event → JobIdentity → List MessageRouteSpec → List (JobIdentity × ℕ × MessageTiming × ℕ)
expected completion job [] = []
expected completion job (route ∷ routes) =
    if route.source_task_id == job.task_id
    then (
      job,
      route.destination_task_id,
      record {
        publish = completion.tick;
        send = completion.tick + amount route.send_offset;
        delivery = completion.tick + amount route.send_offset + amount route.delay;
      },
      completion.sequence,
    )
      ∷ expected completion job routes
    else expected completion job routes

pub allocate-messages :
    (network : FixedDelayNetwork) {id : ℕ} {network' : FixedDelayNetwork}
    → allocate_message_id network ≡ ok (id, network')
    → (network'.messages ≡ network.messages) × (network'.stop_tick ≡ network.stop_tick)
unfolding allocate_message_id
allocate-messages network h = (ground arith, ground arith)

Sent-outline :
    (network : FixedDelayNetwork) (message : Message) (sequence : ℕ) (queue : EventQueue)
    (network' : FixedDelayNetwork) (queue' : EventQueue)
    → Sent network message sequence queue network' queue'
    → map outline network'.messages ≡ map outline network.messages ++ outline message ∷ []
Sent-outline network message sequence queue network' queue' (in_horizon a le s e) =
    rw e (map-append outline network.messages _)
Sent-outline network message sequence queue network' queue' (beyond lt e f) =
    rw e (map-append outline network.messages _)

Served-outline :
    (completion : Event) (job : JobIdentity) (route : MessageRouteSpec)
    (network : FixedDelayNetwork) (queue : EventQueue) (network' : FixedDelayNetwork)
    (queue' : EventQueue)
    → route.source_task_id ≡ job.task_id
    → Served completion job route network queue network' queue'
    → map outline network'.messages
      ≡ map outline network.messages ++ expected completion job (route ∷ [])
Served-outline completion job route network queue network' queue' same s =
    let there = Sent-outline s.allocated _ completion.sequence queue network' queue' s.sent in
    let kept = (allocate-messages network s.allocation).0 in
    ground (arith, there, kept, s.offset_eq, s.delay_eq)

publish_routes-outline :
    (completion : Event) (job : JobIdentity) (routes : List MessageRouteSpec)
    (network : FixedDelayNetwork) (queue : EventQueue) (network' : FixedDelayNetwork)
    (queue' : EventQueue)
    → publish_routes completion job routes (network, queue) ≡ ok (network', queue')
    → map outline network'.messages ≡ map outline network.messages ++ expected completion job routes
unfolding publish_routes
publish_routes-outline completion job [] network queue network' queue' h =
    ground (arith, append-nil (map outline network.messages))
publish_routes-outline completion job (route ∷ routes) network queue network' queue' h =
    elim (Bool-cases (route.source_task_id == job.task_id)) [
      | inr other ↦ rw other (
          publish_routes-outline completion job routes network queue network' queue'
            (rw other at h))
      | inl same ↦ elim (Result-cases (publish_route completion job route (network, queue))) [
        | inr (error, f) ↦ ground (arith, f)
        | inl ((n, q), f) ↦
            let s = publish_route-Served completion job route network queue n q f in
            let one =
              Served-outline completion job route network queue n q ((==_iff _ _).0 same) s in
            let more =
              publish_routes-outline completion job routes n q network' queue'
                (ground (arith, f)) in
            rw (more, one, same) (append_assoc (map outline network.messages) _ _)
      ]
    ]

-- A completion of a job publishes exactly one message for each route of its task, in the order of
-- the routes, to be sent and delivered at the route's distances from the completion tick.
pub publish-outline :
    (network : FixedDelayNetwork) (completion : Event) (queue : EventQueue) (task job : ℕ)
    (network' : FixedDelayNetwork) (queue' : EventQueue)
    → completion.entities.task_id ≡ some task
    → completion.entities.job_id ≡ some job
    → publish network completion queue ≡ ok (network', queue')
    → map outline network'.messages
      ≡ map outline network.messages
        ++ expected completion (record { task_id = task; job_id = job }) network.routes
unfolding publish
publish-outline network completion queue task job network' queue' t j h =
    publish_routes-outline completion (record { task_id = task; job_id = job }) network.routes
      network queue network' queue' (ground (arith, t, j))

publish_routes_zero_delay :
    (completion : Event) (job : JobIdentity) (routes : List MessageRouteSpec)
    (network : FixedDelayNetwork) (queue : EventQueue) {x : FixedDelayNetwork × EventQueue}
    → Any (λ route. (route.source_task_id ≡ job.task_id) × (route.delay ≡ pos 0)) routes
    → publish_routes completion job routes (network, queue) ≢ ok x
unfolding publish_routes
publish_routes_zero_delay completion job [] network queue z h = absurd z
publish_routes_zero_delay completion job (route ∷ routes) network queue (inl (same, zero_delay)) h =
    elim (Result-cases (publish_route completion job route (network, queue))) [
      | inr (error, f) ↦ ground (arith, f)
      | inl ((n, q), f) ↦
          let s = publish_route-Served completion job route network queue n q f in
          ground (arith, s.delay_eq, s.delay_pos)
    ]
publish_routes_zero_delay completion job (route ∷ routes) network queue {x} (inr later) h =
    elim (Bool-cases (route.source_task_id == job.task_id)) [
      | inr other ↦
          publish_routes_zero_delay completion job routes network queue later (rw other at h)
      | inl same ↦ elim (Result-cases (publish_route completion job route (network, queue))) [
        | inr (error, f) ↦ ground (arith, f)
        | inl ((n, q), f) ↦
            publish_routes_zero_delay completion job routes n q {x = x} later (ground (arith, f))
      ]
    ]

-- The publication for a completion of a task that has a route with no delay never succeeds.
pub publish_zero_delay :
    (network : FixedDelayNetwork) (completion : Event) (queue : EventQueue) (task : ℕ)
    (x : FixedDelayNetwork × EventQueue)
    → completion.entities.task_id ≡ some task
    → Any (λ route. (route.source_task_id ≡ task) × (route.delay ≡ pos 0)) network.routes
    → publish network completion queue ≢ ok x
unfolding publish
publish_zero_delay network completion queue task x t z h =
    zero_delay completion.entities.job_id refl
  where
    zero_delay : (job : Option ℕ) → completion.entities.job_id ≡ job → ⊥
    zero_delay none j = ground (arith, t, j)
    zero_delay (some job) j =
        publish_routes_zero_delay completion (record { task_id = task; job_id = job })
          network.routes network queue {x = x} z (ground (arith, t, j))
