-- ===== src/Network/Traffic.antt =====
-- The causal order of every message over any sequence of calls of the network.
use cpssim.Base.{◌≡◌, List, [], ok, ℤ, arith, All}
use cpssim.Specs.{MessageRouteSpec}
use cpssim.Event.{Event}
use cpssim.Queue.{EventQueue}
use cpssim.Queue.Contents.{IsValid}
use cpssim.Network.{FixedDelayNetwork, new_network, publish, process_send, process_delivery}
use cpssim.Network.Causality.{IsCausal, publish-IsCausal}
use cpssim.Network.Transmission.{process_send-IsCausal, process_delivery-IsCausal}

-- The networks that a run can reach: built from routes, then changed by publications, sends and
-- deliveries, in any order and on any valid queue.
pub data Traffic : FixedDelayNetwork → Type 0 where
  begins :
      {network : FixedDelayNetwork} (routes : List MessageRouteSpec) (stop_tick : ℤ)
      → new_network routes stop_tick ≡ ok network
      → Traffic network
  publishes :
      {network network' : FixedDelayNetwork} (completion : Event) (queue queue' : EventQueue)
      → Traffic network
      → IsValid queue
      → publish network completion queue ≡ ok (network', queue')
      → Traffic network'
  sends :
      {network network' : FixedDelayNetwork} (event : Event) (queue queue' : EventQueue)
      → Traffic network
      → IsValid queue
      → process_send network event queue ≡ ok (network', queue')
      → Traffic network'
  delivers :
      {network network' : FixedDelayNetwork} (event : Event)
      → Traffic network
      → process_delivery network event ≡ ok network'
      → Traffic network'

pub new_network-messages :
    (routes : List MessageRouteSpec) (stop_tick : ℤ) (network : FixedDelayNetwork)
    → new_network routes stop_tick ≡ ok network
    → network.messages ≡ []
unfolding new_network
new_network-messages routes stop_tick network e = ground arith

-- In every network that a run can reach, each message is sent after its publication and delivered
-- after it is sent, has exactly the events of its stage, and each of these was inserted after the one
-- that caused it.
pub Traffic-IsCausal :
    (network : FixedDelayNetwork) → Traffic network → All IsCausal network.messages
Traffic-IsCausal network (begins routes stop_tick e) =
    rw (new_network-messages routes stop_tick network e) tt
Traffic-IsCausal network' (publishes {network = n} completion queue queue' t v e) =
    (publish-IsCausal n completion queue network' queue' v (Traffic-IsCausal n t) e).0
Traffic-IsCausal network' (sends {network = n} event queue queue' t v e) =
    (process_send-IsCausal n event queue network' queue' v (Traffic-IsCausal n t) e).0
Traffic-IsCausal network' (delivers {network = n} event t e) =
    process_delivery-IsCausal n event network' (Traffic-IsCausal n t) e
