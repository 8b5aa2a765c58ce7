-- ===== src/Engine/Calls.antt =====
-- A predicate over the public calls of SimulationEngine: what each of its parts keeps, a call keeps.
use cpssim.Base.{ℕ, ◌+◌, ◌≡◌, Bool, true, false, List, [], ◌∷◌, ok, err, logic_error, ltb}
use cpssim.Base.Loops.{finished, while, Returns, Returns-bind, Returns-if, while-Returns}
use cpssim.Event.{Event}
use cpssim.Functional.{FunctionalModel}
use cpssim.Engine.{
  SimulationEngine, is_exhausted, initialize, finalize, process_event_tick, finalize_if_exhausted,
  step_from, step_to_next_event, run,
}

-- `P` holds of an engine whose run is not over, and `Q` of every engine.
module _ {R S : Type 0} (is_finite : R → Bool) (model : FunctionalModel R S)
    (P Q : SimulationEngine R S → Type 0)
    (ongoing : (e : SimulationEngine R S) → Q e → e.is_finished ≡ false → P e)
    (weaken : (e : SimulationEngine R S) → P e → Q e)
    (called : (e : SimulationEngine R S) → Q e → Q (record e { run_called = true }))
    (starts : (e : SimulationEngine R S) → P e → Returns P (initialize is_finite model e))
    (ticks : (tick : ℕ) (e : SimulationEngine R S)
      → P e
      → Returns P (process_event_tick is_finite model tick e))
    (ends : (e : SimulationEngine R S) → Q e → Returns Q (finalize is_finite model e)) where
  -- The engine that a step leaves.
  unfoldable pub Leaves : Bool × SimulationEngine R S → Type 0
  Leaves (more, engine) = Q engine

  step_from-Leaves :
      (engine : SimulationEngine R S) (events : List Event)
      → P engine
      → Returns Leaves (step_from is_finite model engine events)
  unfolding Leaves
  step_from-Leaves engine [] g =
      unfold step_from in
      Returns-bind Q Leaves (finalize is_finite model engine) _ (ends engine (weaken engine g))
        (λ ended v. v)
  step_from-Leaves engine (event ∷ events) g =
      unfold step_from in
      Returns-if Leaves (ltb engine.stop_tick event.tick) _ _
        (λ _.
          Returns-bind Q Leaves (finalize is_finite model engine)
            (λ ended. finished (ok (false, ended))) (ends engine (weaken engine g)) (λ ended v. v))
        (λ _.
          Returns-bind P Leaves (process_event_tick is_finite model event.tick engine) _
            (ticks event.tick engine g)
            (λ processed o.
              Returns-bind Q Leaves (finalize_if_exhausted is_finite model processed)
                (λ ended. finished (ok (true, ended)))
                (unfold finalize_if_exhausted in
                  Returns-if Q (is_exhausted processed.stop_tick processed.kernel.queue)
                    (finalize is_finite model processed) (finished (ok processed))
                    (λ _. ends processed (weaken processed o)) (λ _. weaken processed o))
                (λ ended v. v)))

  pub step_to_next_event-Leaves :
      (engine : SimulationEngine R S)
      → Q engine
      → Returns Leaves (step_to_next_event is_finite model engine)
  unfolding Leaves
  step_to_next_event-Leaves engine v =
      unfold step_to_next_event in
      Returns-if Leaves engine.is_finished (finished (ok (false, engine))) _ (λ _. v)
        (λ f.
          Returns-bind P Leaves (initialize is_finite model engine) _
            (starts engine (ongoing engine v f))
            (λ started g. step_from-Leaves started started.kernel.queue.events g))

  pub run-Returns :
      (engine : SimulationEngine R S) → Q engine → Returns Q (run is_finite model engine)
  unfolding Leaves
  run-Returns engine v =
      unfold run in
      Returns-if Q engine.run_called (finished (err logic_error)) _ (λ _. tt)
        (λ _.
          Returns-bind Leaves Q
            (while (engine.stop_tick + 5) (λ s. s.0) (λ s. step_to_next_event is_finite model s.1)
              (true, record engine { run_called = true }))
            (λ (more, ended). finished (ok ended))
            (while-Returns Leaves (λ s. s.0) (λ s. step_to_next_event is_finite model s.1)
              (λ s o. step_to_next_event-Leaves s.1 o) (engine.stop_tick + 5)
              (true, record engine { run_called = true }) (called engine v))
            (λ (more, ended) o. o))
