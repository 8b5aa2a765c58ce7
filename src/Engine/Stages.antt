-- ===== src/Engine/Stages.antt =====
-- The stages of an engine between two calls of SimulationEngine::step_to_next_event, and what a call can do.
use cpssim.Base.{ok, ℕ, ◌≤◌, ◌<◌, ◌≡◌, Bool, true, false, List, [], ◌∷◌, arith, All, All-map, Chain}
use cpssim.Event.{Event}
use cpssim.Queue.{EventQueue}
use cpssim.Queue.Order.{KeyLt}
use cpssim.Release.{PeriodicReleaseModel, schedule_initial_releases}
use cpssim.Kernel.{Kernel}
use cpssim.Engine.{SimulationEngine, is_exhausted}
use cpssim.Engine.Handlers.{IsReady}
use cpssim.Engine.Front.{Accounted}
use cpssim.Engine.Tick.{IsSettled}

-- The run is over, and every event left is beyond the horizon.
pub record IsCompleted {R S : Type 0} (engine : SimulationEngine R S) : Type 0 where
  pub closed : engine.is_finished ≡ true
  pub settled : IsSettled engine.stop_tick engine.kernel

-- An engine between two calls.
pub data Stage {R S : Type 0} (engine : SimulationEngine R S) : Type 0 where
  constructed :
      engine.initialized ≡ false
      → engine.is_finished ≡ false
      → IsReady 0 engine.kernel
      → Stage engine
  stepped :
      engine.initialized ≡ true
      → engine.is_finished ≡ false
      → IsSettled engine.current_tick engine.kernel
      → engine.current_tick ≤ engine.stop_tick
      → Stage engine
  completed : IsCompleted engine → Stage engine

-- The kernel after the initialization, which the first call makes.
pub data Started {R S : Type 0} (engine : SimulationEngine R S) : Kernel → Type 0 where
  already : engine.initialized ≡ true → Started engine engine.kernel
  begins :
      (count : ℕ) (releases : PeriodicReleaseModel) (queue : EventQueue)
      → engine.initialized ≡ false
      → schedule_initial_releases engine.kernel.releases engine.kernel.queue
        ≡ ok (count, releases, queue)
      → Started engine (record engine.kernel { queue = queue; releases = releases })

-- What a call returns and leaves: either it has processed a tick of the horizon, later than the last
-- one, and accounts for the events that have left the queue, or there was none and the run is over.
pub data Outcome {R S : Type 0} (engine : SimulationEngine R S)
    : Bool → SimulationEngine R S → Type 0 where
  moved :
      {next : SimulationEngine R S}
      → Stage next
      → next.stop_tick ≡ engine.stop_tick
      → next.current_tick ≤ engine.stop_tick
      → (engine.initialized ≡ true → engine.current_tick < next.current_tick)
      → (kernel : Kernel) → Started engine kernel
      → Accounted kernel next.kernel
      → next.initialized ≡ true
      → engine.is_finished ≡ false
      → Outcome engine true next
  over :
      {next : SimulationEngine R S}
      → IsCompleted next
      → next.stop_tick ≡ engine.stop_tick
      → Outcome engine false next

-- The kernel is ready for a later tick where no event is before that.
pub IsReady-later :
    (tick due : ℕ) (kernel : Kernel)
    → IsReady tick kernel
    → tick ≤ due
    → All (λ (e : Event). due ≤ e.tick) kernel.queue.events
    → IsReady due kernel
IsReady-later tick due kernel r le a = record {
  timely = record { valid = r.timely.valid; from = a };
  periodic = r.periodic;
  causal = r.causal;
  traced = record {
    ordered = r.traced.ordered;
    until =
        All-map (λ (e : Event). e.tick ≤ tick) (λ (e : Event). e.tick ≤ due) (λ e h. omega arith)
          kernel.trace r.traced.until;
  };
}

pub IsSettled-later :
    (tick due : ℕ) (kernel : Kernel)
    → IsReady tick kernel
    → tick ≤ due
    → All (λ (e : Event). due < e.tick) kernel.queue.events
    → IsSettled due kernel
IsSettled-later tick due kernel r le a = record {
  ready = IsReady-later tick due kernel r le (
      All-map (λ (e : Event). due < e.tick) (λ (e : Event). due ≤ e.tick) (λ e h. omega arith)
        kernel.queue.events a);
  later = a;
}

-- The front of a canonical queue is due first.
pub first_due :
    (event : Event) (events : List Event)
    → Chain KeyLt (event ∷ events)
    → All (λ (e : Event). event.tick ≤ e.tick) (event ∷ events)
first_due event events c = (
  omega arith,
  All-map (KeyLt event) (λ (e : Event). event.tick ≤ e.tick) (λ e k. ground arith) events c.0,
)

pub is_exhausted-All :
    (stop : ℕ) (queue : EventQueue)
    → Chain KeyLt queue.events
    → is_exhausted stop queue ≡ true
    → All (λ (e : Event). stop < e.tick) queue.events
is_exhausted-All stop queue c h = from queue.events c h
  where
    from :
        (events : List Event)
        → Chain KeyLt events
        → is_exhausted stop (record queue { events = events }) ≡ true
        → All (λ (e : Event). stop < e.tick) events
    from [] c h = tt
    from (x ∷ xs) c h =
        let lt : stop < x.tick = ground (arith, h) in
        All-map (λ (e : Event). x.tick ≤ e.tick) (λ (e : Event). stop < e.tick)
          (λ e k. omega (arith, lt)) (x ∷ xs) (first_due x xs c)
