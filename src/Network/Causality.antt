-- ===== src/Network/Causality.antt =====
-- The causal order of the ticks and events of a message, and FixedDelayNetwork::publish against it.
use cpssim.Base.{
  ℕ, ◌<◌, ◌≡◌, refl, subst, inl, inr, Option, none, some, List, [], ◌∷◌, ok, Result-cases, pos,
  arith, ◌==◌, Bool-cases, All, All-append,
}
use cpssim.Specs.{MessageRouteSpec}
use cpssim.Event.{Event}
use cpssim.Runtime.{JobIdentity}
use cpssim.Queue.{EventQueue}
use cpssim.Queue.Contents.{IsValid, schedule-IsValid, schedule-Scheduled}
use cpssim.Message.{Message, MessageLifecycle}
use cpssim.Network.{
  FixedDelayNetwork, publish_route, publish_routes, publish, find_message, update_message,
}
use cpssim.Network.Publication.{allocate-messages}
use cpssim.Network.Served.{planned, Sent, in_horizon, beyond, publish_route-Served}

-- The events that a message has at a stage, each after the one that caused it: the completion that
-- published it, its sending, its delivery.
abbrev pub Causal : ℕ → MessageLifecycle → Option ℕ → Option ℕ → Type 0
Causal p MessageLifecycle.pending_send none none = Unit {0}
Causal p MessageLifecycle.pending_send (some s) none = p < s
Causal p MessageLifecycle.in_flight (some s) none = p < s
Causal p MessageLifecycle.in_flight (some s) (some d) = (p < s) × (s < d)
Causal p MessageLifecycle.delivered (some s) (some d) = (p < s) × (s < d)
Causal _ _ _ _ = ⊥

pub record IsCausal (m : Message) : Type 0 where
  pub sent_later : m.timing.publish < m.timing.send
  pub delivered_later : m.timing.send < m.timing.delivery
  pub events :
      Causal m.publication_sequence m.lifecycle m.send_event_sequence m.delivery_event_sequence

pub find_message-IsCausal :
    (messages : List Message) (id : ℕ) (m : Message)
    → All IsCausal messages
    → find_message messages id ≡ ok m
    → IsCausal m
unfolding find_message
find_message-IsCausal [] id m h e = cc
find_message-IsCausal (x ∷ xs) id m h e = elim (Bool-cases (x.id == id)) [
  | inl p ↦ subst IsCausal (ground (arith, p)) h.0
  | inr p ↦ find_message-IsCausal xs id m h.1 (rw p at e)
]

pub update_message-IsCausal :
    (changed : Message) (messages : List Message)
    → IsCausal changed
    → All IsCausal messages
    → All IsCausal (update_message changed messages)
unfolding update_message
update_message-IsCausal changed [] c h = tt
update_message-IsCausal changed (x ∷ xs) c h = elim (Bool-cases (x.id == changed.id)) [
  | inl p ↦ rw p (c, h.1)
  | inr p ↦ rw p (h.0, update_message-IsCausal changed xs c h.1)
]

planned-IsCausal :
    (id : ℕ) (completion : Event) (job : JobIdentity) (route : MessageRouteSpec) (o d : ℕ)
    → 0 < o
    → 0 < d
    → IsCausal (planned id completion job route o d)
planned-IsCausal id completion job route o d ho hd = record {
  sent_later = omega arith;
  delivered_later = omega arith;
  events = tt;
}

Sent-IsCausal :
    (network : FixedDelayNetwork) (message : Message) (queue : EventQueue)
    (network' : FixedDelayNetwork) (queue' : EventQueue)
    → message.lifecycle ≡ MessageLifecycle.pending_send
    → message.delivery_event_sequence ≡ none
    → IsCausal message
    → IsValid queue
    → All IsCausal network.messages
    → Sent network message message.publication_sequence queue network' queue'
    → All IsCausal network'.messages × IsValid queue'
Sent-IsCausal network message queue network' queue' p n c v h (in_horizon a le s e) =
    let d = schedule-Scheduled queue message.timing.send _ _ _ _ v.bounded s in
    (
      rw e (
          All-append IsCausal network.messages _ h (
            record {
              sent_later = c.sent_later;
              delivered_later = c.delivered_later;
              events = rw (p, n) d.caused;
            },
            tt,
          )),
      schedule-IsValid queue (pos message.timing.send) _ _ _ _ a queue' v s,
    )
Sent-IsCausal network message queue network' queue' p n c v h (beyond lt e f) =
    (rw e (All-append IsCausal network.messages _ h (c, tt)), rw f v)

publish_routes-IsCausal :
    (completion : Event) (job : JobIdentity) (routes : List MessageRouteSpec)
    (network : FixedDelayNetwork) (queue : EventQueue) (network' : FixedDelayNetwork)
    (queue' : EventQueue)
    → IsValid queue
    → All IsCausal network.messages
    → publish_routes completion job routes (network, queue) ≡ ok (network', queue')
    → All IsCausal network'.messages × IsValid queue'
unfolding publish_routes
publish_routes-IsCausal completion job [] network queue network' queue' v h e =
    let p : network ≡ network' = ground arith in
    let q : queue ≡ queue' = ground arith in
    (subst (λ (n : FixedDelayNetwork). All IsCausal n.messages) p h, subst IsValid q v)
publish_routes-IsCausal completion job (route ∷ routes) network queue network' queue' v h e =
    elim (Bool-cases (route.source_task_id == job.task_id)) [
      | inr other ↦
          publish_routes-IsCausal completion job routes network queue network' queue' v h
            (rw other at e)
      | inl same ↦ elim (Result-cases (publish_route completion job route (network, queue))) [
        | inr (error, f) ↦ ground (arith, f)
        | inl ((n, q), f) ↦
            let s = publish_route-Served completion job route network queue n q f in
            let (kept, _) = allocate-messages network s.allocation in
            let (h', v') =
              Sent-IsCausal s.allocated _ queue n q refl refl
                (planned-IsCausal network.next_message_id completion job route s.offset s.delay
                  s.offset_pos s.delay_pos)
                v (rw kept h) s.sent in
            publish_routes-IsCausal completion job routes n q network' queue' v' h'
              (ground (arith, f))
      ]
    ]

-- Publishing keeps every message in causal order and the queue valid.
pub publish-IsCausal :
    (network : FixedDelayNetwork) (completion : Event) (queue : EventQueue)
    (network' : FixedDelayNetwork) (queue' : EventQueue)
    → IsValid queue
    → All IsCausal network.messages
    → publish network completion queue ≡ ok (network', queue')
    → All IsCausal network'.messages × IsValid queue'
unfolding publish
publish-IsCausal network completion queue network' queue' v h e =
    from_job completion.entities.task_id completion.entities.job_id refl refl
  where
    from_job :
        (task job : Option ℕ)
        → completion.entities.task_id ≡ task
        → completion.entities.job_id ≡ job
        → All IsCausal network'.messages × IsValid queue'
    from_job (some task) (some job) t j =
        publish_routes-IsCausal completion (record { task_id = task; job_id = job }) network.routes
          network queue network' queue' v h (ground (arith, t, j))
    from_job none job t j = absurd (ground (arith, t, j))
    from_job (some task) none t j = absurd (ground (arith, t, j))
