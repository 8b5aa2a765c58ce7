-- ===== src/TriggerEncoder/Examples.antt =====
-- The theorems on the trigger pulses at a concrete trace.
use cpssim.Base.{ℕ, ◌≡◌, ◌↔◌, refl, inl, inr, none, some, List, [], ◌∷◌, ok, Chain, In, Any}
use cpssim.Event.{Event, EventPhase, EventType}
use cpssim.TriggerEncoder.{BoschTrigger, BoschTriggerEvent, encode_bosch_v10_triggers}
use cpssim.TriggerEncoder.Normal.{PulseLt}
use cpssim.TriggerEncoder.Pulses.{
  Gives, encode_bosch_v10_triggers-pulses, encode_bosch_v10_triggers_order_independent,
}

abbrev event : ℕ → EventPhase → EventType → ℕ → Event
event tick phase type task_id = record {
  tick = tick;
  phase = phase;
  sequence = 0;
  type = type;
  entities = record {
    task_id = some task_id;
    job_id = some 1;
    resource_id = some 1;
    message_id = none;
    vehicle_id = none;
  };
  cause_sequence = none;
}

abbrev release_event : Event
release_event = event 2 EventPhase.job_release EventType.job_release 1

abbrev start_event : Event
start_event = event 2 EventPhase.scheduling EventType.job_start 1

abbrev finish_event : Event
finish_event = event 2 EventPhase.execution_completion EventType.job_finish 6

-- The start stands twice.
abbrev trace : List Event
trace = release_event ∷ finish_event ∷ start_event ∷ start_event ∷ []

abbrev swapped : List Event
swapped = start_event ∷ finish_event ∷ release_event ∷ []

abbrev pulses : List BoschTriggerEvent
pulses =
    record { tick = 2; trigger = BoschTrigger.sensor_activated }
    ∷ record { tick = 2; trigger = BoschTrigger.actuator_finished }
    ∷ []

encoded : encode_bosch_v10_triggers trace ≡ ok pulses
unfolding encode_bosch_v10_triggers
encoded = refl

encoded_swapped : encode_bosch_v10_triggers swapped ≡ ok pulses
unfolding encode_bosch_v10_triggers
encoded_swapped = refl

same_events : (e : Event) → In e trace ↔ In e swapped
same_events e = (to, from)
  where
    to : In e trace → In e swapped
    to (inl h) = inr (inr (inl h))
    to (inr (inl h)) = inr (inl h)
    to (inr (inr (inl h))) = inl h
    to (inr (inr (inr (inl h)))) = inl h
    to (inr (inr (inr (inr h)))) = absurd h

    from : In e swapped → In e trace
    from (inl h) = inr (inr (inl h))
    from (inr (inl h)) = inr (inl h)
    from (inr (inr (inl h))) = inl h
    from (inr (inr (inr h))) = absurd h

encode_bosch_v10_triggers-pulses_example :
    Chain PulseLt pulses × ((pulse : BoschTriggerEvent) → In pulse pulses ↔ Any (Gives pulse) trace)
encode_bosch_v10_triggers-pulses_example = encode_bosch_v10_triggers-pulses trace pulses encoded

encode_bosch_v10_triggers_order_independent_example : pulses ≡ pulses
encode_bosch_v10_triggers_order_independent_example =
    encode_bosch_v10_triggers_order_independent trace swapped pulses pulses same_events encoded
      encoded_swapped
