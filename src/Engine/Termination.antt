-- ===== src/Engine/Termination.antt =====
-- The loop of SimulationEngine::run ends: each step uses up a tick of the horizon.
use cpssim.Base.{
  ℕ, ◌+◌, ◌-◌, ◌<◌, ◌≡◌, refl, subst, ◌∙◌, inl, inr, Bool, true, false, not, ok, err, logic_error,
  Bool-cases, arith, if◌then◌else◌,
}
use cpssim.Base.Loops.{finished, while, Ends, Ends-bind, Ends-if, Ends-map, while-Ends}
use cpssim.Functional.{FunctionalModel}
use cpssim.Engine.{SimulationEngine, step_to_next_event, run}
use cpssim.Engine.Stages.{IsCompleted, Stage, constructed, stepped, completed, Outcome, moved, over}
use cpssim.Engine.Step.{step_to_next_event-Outcome}

module _ {R S : Type 0} where
  -- An upper bound on the steps that are left.
  steps_left : Bool × SimulationEngine R S → ℕ
  steps_left (more, engine) =
      if not more
      then 0
      else if engine.is_finished
      then 1
      else if engine.initialized
      then 2 + (engine.stop_tick - engine.current_tick)
      else 3 + engine.stop_tick

  -- The loop between two steps.
  Looping : ℕ → Bool × SimulationEngine R S → Type 0
  Looping stop (true, engine) = Stage engine × (engine.stop_tick ≡ stop)
  Looping stop (false, engine) = IsCompleted engine × (engine.stop_tick ≡ stop)

  Outcome-Looping :
      (stop : ℕ) (engine : SimulationEngine R S) (s : Bool × SimulationEngine R S)
      → Outcome engine s.0 s.1
      → Looping stop (true, engine)
      → Looping stop s × (steps_left s < steps_left (true, engine))
  unfolding Looping steps_left
  Outcome-Looping stop engine (true, next)
        (moved stage same until later kernel began account started going) (g, e) =
      (
        (stage, same ∙ e),
        elim (Bool-cases engine.initialized) [
          | inl i ↦ ground (arith, i, same, until, later i, started, going)
          | inr i ↦ ground (arith, i, same, until, started, going)
        ],
      )
  Outcome-Looping stop engine (false, next) (over c same) (g, e) = ((c, same ∙ e), ground arith)

  pub run-IsCompleted :
      (is_finite : R → Bool) (model : FunctionalModel R S) (engine : SimulationEngine R S)
      → Stage engine
      → Ends
          (λ ended. IsCompleted ended × (ended.stop_tick ≡ engine.stop_tick))
          (run is_finite model engine)
  unfolding Looping steps_left
  run-IsCompleted is_finite model engine g =
      unfold run in
      Ends-if _ engine.run_called (finished (err logic_error)) _ (λ _. tt)
        (λ _.
          Ends-bind (λ s. Looping engine.stop_tick s × (s.0 ≡ false)) _
            (while (engine.stop_tick + 5) (λ s. s.0) (λ s. step_to_next_event is_finite model s.1)
              (true, called))
            (λ (more, ended). finished (ok ended))
            (while-Ends (Looping engine.stop_tick) steps_left (λ s. s.0)
              (λ s. step_to_next_event is_finite model s.1) step (engine.stop_tick + 5)
              (true, called) (ground arith) (called-Stage g, refl))
            (λ (more, ended) (l, done). subst (λ m. Looping engine.stop_tick (m, ended)) done l))
    where
      called : SimulationEngine R S
      called = record engine { run_called = true }

      called-Stage : Stage engine → Stage called
      called-Stage (constructed i f r) = constructed i f r
      called-Stage (stepped i f s le) = stepped i f s le
      called-Stage (completed c) = completed (record { closed = c.closed; settled = c.settled })

      step :
          (s : Bool × SimulationEngine R S)
          → Looping engine.stop_tick s
          → s.0 ≡ true
          → Ends
              (λ t. Looping engine.stop_tick t × (steps_left t < steps_left s))
              (step_to_next_event is_finite model s.1)
      step (true, e) l t =
          Ends-map _ _ (step_to_next_event is_finite model e)
            (λ s o. Outcome-Looping engine.stop_tick e s o l)
            (step_to_next_event-Outcome is_finite model e l.0)
      step (false, e) l t = absurd (ground (arith, t))
