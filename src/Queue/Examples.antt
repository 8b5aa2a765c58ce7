-- ===== src/Queue/Examples.antt =====
-- The theorems on the event queue at concrete inputs.
use cpssim.Base.{
  ℕ, ◌≡◌, ◌↔◌, ◌⊎◌, ◌≤◌, refl, true, none, some, Option, [], ◌∷◌, Perm, ok, err, overflow_error,
  invalid_argument, ℤ, pos, negsuc, arith, All,
}
use cpssim.Event.{Event, EventPhase, EventType, EventEntityRefs}
use cpssim.Queue.{EventQueue, new_event_queue, schedule, next, pop_next, later_event}
use cpssim.Queue.Order.{Precedes, later_event_iff}
use cpssim.Queue.Contents.{
  IsValid, CausedBefore, Advances, inserted, schedule-IsValid, schedule_outcome, pop_next-least,
}

abbrev no_entities : EventEntityRefs
no_entities = record {
  task_id = some 1;
  job_id = some 1;
  resource_id = some 1;
  message_id = none;
  vehicle_id = none;
}

-- A deadline check that was inserted first, and a completion at the same tick.
abbrev deadline : Event
deadline = record {
  tick = 7;
  phase = EventPhase.deadline_check;
  sequence = 0;
  type = EventType.deadline_miss;
  entities = no_entities;
  cause_sequence = none;
}

abbrev completion : Event
completion = record {
  tick = 7;
  phase = EventPhase.execution_completion;
  sequence = 1;
  type = EventType.job_finish;
  entities = no_entities;
  cause_sequence = none;
}

abbrev waiting : EventQueue
waiting = record new_event_queue { events = deadline ∷ []; next_sequence = 1 }

abbrev both : EventQueue
both = record new_event_queue { events = completion ∷ deadline ∷ []; next_sequence = 2 }

waiting-IsValid : IsValid waiting
waiting-IsValid = record {
  ordered = (tt, tt);
  fresh = λ h. (omega arith, tt);
  bounded = omega arith;
}

schedule_completion :
    schedule waiting (pos 7) EventPhase.execution_completion EventType.job_finish no_entities none
    ≡ ok (1, both)
unfolding schedule
schedule_completion = refl

both-IsValid : IsValid both
both-IsValid =
    schedule-IsValid waiting (pos 7) EventPhase.execution_completion EventType.job_finish
      no_entities none 1 both waiting-IsValid schedule_completion

schedule-IsValid_example : IsValid both
schedule-IsValid_example =
    schedule-IsValid waiting (pos 7) EventPhase.execution_completion EventType.job_finish
      no_entities none 1 both waiting-IsValid schedule_completion

later_event_iff_example : (later_event deadline completion ≡ true) ↔ Precedes completion deadline
later_event_iff_example = later_event_iff completion deadline

pop_both : pop_next both ≡ ok (completion, record both { events = deadline ∷ [] })
unfolding pop_next
pop_both = refl

pop_next-least_example :
    (next both ≡ ok completion)
    × (both.events ≡ completion ∷ deadline ∷ [])
    × All (Precedes completion) (deadline ∷ [])
    × IsValid (record both { events = deadline ∷ [] })
pop_next-least_example = pop_next-least both completion _ both-IsValid pop_both

abbrev Outcome : ℤ → Option ℕ → Type 0
Outcome tick cause =
    ((waiting.sequence_space_exhausted ≡ true)
      × (schedule waiting tick EventPhase.caused_action EventType.message_send no_entities cause
          ≡ err overflow_error))
    ⊎ (((n : ℕ) × (tick ≡ negsuc n)) ⊎ ((c : ℕ) × (cause ≡ some c) × (1 ≤ c)))
      × (schedule waiting tick EventPhase.caused_action EventType.message_send no_entities cause
          ≡ err invalid_argument)
    ⊎ ((t : ℕ) × (r : EventQueue) × (tick ≡ pos t)
        × (schedule waiting tick EventPhase.caused_action EventType.message_send no_entities cause
            ≡ ok (1, r))
        × Perm r.events (
            inserted waiting t EventPhase.caused_action EventType.message_send no_entities cause
            ∷ deadline
            ∷ [])
        × CausedBefore cause 1
        × Advances waiting r)

schedule_outcome_example : Outcome (pos 8) (some 0)
schedule_outcome_example =
    schedule_outcome waiting (pos 8) EventPhase.caused_action EventType.message_send no_entities
      (some 0)
