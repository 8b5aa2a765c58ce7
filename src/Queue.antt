-- ===== src/Queue.antt =====
-- src/cpssim/kernel/event_queue.hpp and event_queue.cpp.
-- std::priority_queue is the list of its entries, the top first.
pub mod Order
pub mod Contents
mod Examples
use cpssim.Base.{
  ℕ, ◌+◌, ◌-◌, ◌^◌, Bool, true, false, Option, List, [], ◌∷◌, Result, ok, err, overflow_error,
  out_of_range, ◌>>=◌, ◌>>◌, throw_if, ℤ, ltb, ◌==◌, if◌then◌else◌, insert,
}
use cpssim.Event.{Event, EventPhase, EventType, EventEntityRefs, new_event}

-- std::numeric_limits<std::uint64_t>::max()
abbrev pub u64_max : ℕ
u64_max = 2 ^ 64 - 1

unfoldable pub phase_precedence : EventPhase → ℕ
phase_precedence EventPhase.execution_completion = 0
phase_precedence EventPhase.message_delivery = 1
phase_precedence EventPhase.deadline_check = 2
phase_precedence EventPhase.job_release = 3
phase_precedence EventPhase.policy_update = 4
phase_precedence EventPhase.scheduling = 5
phase_precedence EventPhase.caused_action = 6
phase_precedence EventPhase.caused_action_late = 7

-- LaterEvent::operator().
unfoldable pub later_event : Event → Event → Bool
unfolding phase_precedence
later_event left right =
    let left_phase = phase_precedence left.phase in
    let right_phase = phase_precedence right.phase in
    if left.tick == right.tick
    then (if left_phase == right_phase
        then ltb right.sequence left.sequence
        else ltb right_phase left_phase)
    else ltb right.tick left.tick

pub record EventQueue : Type 0 where
  pub events : List Event
  pub next_sequence : ℕ
  pub sequence_space_exhausted : Bool

abbrev pub new_event_queue : EventQueue
new_event_queue = record { events = []; next_sequence = 0; sequence_space_exhausted = false }

-- priority_queue::push: the new entry goes in front of the first one that is later.
unfoldable pub push : Event → List Event → List Event
unfolding insert later_event
push = insert (λ a x. later_event x a)

-- The allocator after the insertion.
abbrev advance : EventQueue → List Event → EventQueue
advance q events =
    if q.next_sequence == u64_max
    then record q { events = events; sequence_space_exhausted = true }
    else record q { events = events; next_sequence = q.next_sequence + 1 }

unfoldable pub schedule :
    EventQueue → ℤ → EventPhase → EventType → EventEntityRefs → Option ℕ → Result (ℕ × EventQueue)
unfolding new_event push
schedule q tick phase type entities cause_sequence = do
  throw_if q.sequence_space_exhausted overflow_error
  event ← new_event tick phase q.next_sequence type entities cause_sequence
  ok (event.sequence, advance q (push event q.events))

unfoldable pub next : EventQueue → Result Event
next q = elim q.events [ [] ↦ err out_of_range | event ∷ rest ↦ ok event ]

unfoldable pub pop_next : EventQueue → Result (Event × EventQueue)
pop_next q = elim q.events [
  | [] ↦ err out_of_range
  | event ∷ rest ↦ ok (event, record q { events = rest })
]
