-- ===== src/Engine/Step.antt =====
-- One call of SimulationEngine::step_to_next_event: the stages of an engine, and how a call moves it on.
use cpssim.Base.{
  ℕ, ◌≤◌, ◌<◌, ◌≡◌, refl, subst, ◌∙◌, Bool, true, false, List, [], ◌∷◌, ok, err, logic_error, arith,
  ltb, All, Chain, length,
}
use cpssim.Base.Loops.{finished, ◌>>=◌, Ends, Ends-bind, Ends-finished, Ends-if, Ends-map}
use cpssim.Event.{Event}
use cpssim.Queue.Order.{KeyLt}
use cpssim.Release.{schedule_initial_releases}
use cpssim.Functional.{FunctionalModel}
use cpssim.Engine.{
  SimulationEngine, drop, is_exhausted, advance_functional, apply_functional, start_functional,
  finalize_functional, initialize, finalize, process_event_tick, finalize_if_exhausted, step_from,
  step_to_next_event, process_kernel_tick,
}
use cpssim.Engine.Timely.{IsTimely}
use cpssim.Engine.Releases.{IsPeriodic}
use cpssim.Engine.FirstReleases.{schedule_initial_releases-IsTimely}
use cpssim.Engine.Handlers.{IsReady}
use cpssim.Engine.Front.{Accounted}
use cpssim.Engine.Tick.{IsSettled, process_kernel_tick-Accounted}
use cpssim.Engine.Stages.{
  Stage, constructed, stepped, completed, Outcome, moved, over, Started, already, begins,
  IsReady-later, IsSettled-later, first_due, is_exhausted-All,
}

module _ {R S : Type 0} (is_finite : R → Bool) (model : FunctionalModel R S) where
  -- What the end of a run leaves as it was.
  record IsClosed (engine next : SimulationEngine R S) : Type 0 where
    closed : next.is_finished ≡ true
    kernel_kept : next.kernel ≡ engine.kernel
    stop_kept : next.stop_tick ≡ engine.stop_tick
    start_kept : next.initialized ≡ engine.initialized
    clock : engine.current_tick ≤ engine.stop_tick → next.current_tick ≤ engine.stop_tick
    clock_from : engine.current_tick ≤ engine.stop_tick → engine.current_tick ≤ next.current_tick

  finalize-IsClosed :
      (engine : SimulationEngine R S)
      → engine.is_finished ≡ false
      → Ends (IsClosed engine) (finalize is_finite model engine)
  finalize-IsClosed engine f =
      unfold finalize in
      Ends-if (IsClosed engine) engine.is_finished (finished (ok engine)) _
        (λ t. absurd (ground (arith, f, t)))
        (λ _.
          Ends-bind (λ _. Unit {0}) (IsClosed engine)
            (finished
              (advance_functional is_finite model engine.stop_tick engine.functional_runtime))
            _ (Ends-finished _ _ (λ _ _. tt))
            (λ advanced _.
              Ends-bind (λ _. Unit {0}) (IsClosed engine)
                (finished (finalize_functional is_finite model advanced)) _
                (Ends-finished _ _ (λ _ _. tt))
                (λ functional _. record {
                  closed = refl;
                  kernel_kept = refl;
                  stop_kept = refl;
                  start_kept = refl;
                  clock = λ h. ground (arith, h);
                  clock_from = λ h. ground (arith, h);
                })))

  -- What the events of a tick leave.
  record IsProcessed (tick : ℕ) (engine next : SimulationEngine R S) : Type 0 where
    settled : IsSettled tick next.kernel
    account : Accounted engine.kernel next.kernel
    clock : next.current_tick ≡ tick
    stop_kept : next.stop_tick ≡ engine.stop_tick
    start_kept : next.initialized ≡ engine.initialized
    end_kept : next.is_finished ≡ engine.is_finished

  process_event_tick-IsProcessed :
      (tick : ℕ) (engine : SimulationEngine R S)
      → IsReady tick engine.kernel
      → Ends (IsProcessed tick engine) (process_event_tick is_finite model tick engine)
  process_event_tick-IsProcessed tick engine r =
      unfold process_event_tick in
      Ends-if (IsProcessed tick engine) (ltb tick engine.current_tick) (finished (err logic_error))
        _ (λ t. tt)
        (λ _.
          Ends-bind (λ _. Unit {0}) (IsProcessed tick engine)
            (finished (advance_functional is_finite model tick engine.functional_runtime)) _
            (Ends-finished _ _ (λ _ _. tt))
            (λ advanced _.
              Ends-bind (λ k. IsSettled tick k × Accounted engine.kernel k)
                (IsProcessed tick engine) (process_kernel_tick tick engine.kernel) _
                (process_kernel_tick-Accounted tick engine.kernel r)
                (λ kernel (s, a).
                  Ends-bind (λ _. Unit {0}) (IsProcessed tick engine)
                    (finished (
                      apply_functional is_finite model tick
                        (drop (length engine.kernel.trace) kernel.trace) advanced))
                    _ (Ends-finished _ _ (λ _ _. tt))
                    (λ functional _. record {
                      settled = s;
                      account = a;
                      clock = refl;
                      stop_kept = refl;
                      start_kept = refl;
                      end_kept = refl;
                    }))))

  -- What `initialize` leaves.
  record IsStarted (engine next : SimulationEngine R S) : Type 0 where
    ready : IsReady 0 next.kernel
    began : Started engine next.kernel
    started : next.initialized ≡ true
    stop_kept : next.stop_tick ≡ engine.stop_tick
    end_kept : next.is_finished ≡ engine.is_finished

  initialize-IsStarted :
      (engine : SimulationEngine R S)
      → engine.initialized ≡ false
      → IsReady 0 engine.kernel
      → Ends (IsStarted engine) (initialize is_finite model engine)
  initialize-IsStarted engine f r =
      unfold initialize in
      Ends-if (IsStarted engine) engine.initialized (finished (ok engine)) _
        (λ t. absurd (ground (arith, f, t)))
        (λ _.
          Ends-bind
            (λ (count, releases, queue).
              IsTimely 0 queue
              × IsPeriodic releases.tasks
              × (schedule_initial_releases engine.kernel.releases engine.kernel.queue
                  ≡ ok (count, releases, queue)))
            (IsStarted engine)
            (finished (schedule_initial_releases engine.kernel.releases engine.kernel.queue)) _
            (Ends-finished _ (schedule_initial_releases engine.kernel.releases engine.kernel.queue)
              (λ (count, releases, queue) e.
                let (v, p) =
                  schedule_initial_releases-IsTimely engine.kernel.releases engine.kernel.queue
                    count releases queue r.timely r.periodic e in
                (v, p, e)))
            (λ (count, releases, queue) (v, p, e).
              Ends-bind (λ _. Unit {0}) (IsStarted engine)
                (finished (start_functional is_finite model engine.functional_runtime)) _
                (Ends-finished _ _ (λ _ _. tt))
                (λ functional _. record {
                  ready = record { timely = v; periodic = p; causal = r.causal; traced = r.traced };
                  began = begins count releases queue f e;
                  started = refl;
                  stop_kept = refl;
                  end_kept = refl;
                })))

  -- A tick of the horizon that is processed: the run goes on, or is over where no event is left in it.
  finalize_if_exhausted-Stage :
      (tick : ℕ) (engine : SimulationEngine R S)
      → IsSettled tick engine.kernel
      → engine.current_tick ≡ tick
      → tick ≤ engine.stop_tick
      → engine.initialized ≡ true
      → engine.is_finished ≡ false
      → Ends
          (λ next.
            Stage next
            × (next.stop_tick ≡ engine.stop_tick)
            × (next.current_tick ≤ engine.stop_tick)
            × (tick ≤ next.current_tick)
            × (next.initialized ≡ true)
            × (next.kernel ≡ engine.kernel))
          (finalize_if_exhausted is_finite model engine)
  finalize_if_exhausted-Stage tick engine s c le i f =
      unfold finalize_if_exhausted in
      Ends-if _ (is_exhausted engine.stop_tick engine.kernel.queue)
        (finalize is_finite model engine) (finished (ok engine))
        (λ t.
          Ends-map (IsClosed engine) _ (finalize is_finite model engine)
            (λ next d. (
              completed (record {
                closed = d.closed;
                settled =
                    rw (d.kernel_kept, d.stop_kept)
                      (IsSettled-later tick engine.stop_tick engine.kernel s.ready le (
                        is_exhausted-All engine.stop_tick engine.kernel.queue
                          s.ready.timely.valid.ordered t));
              }),
              d.stop_kept,
              d.clock (omega (arith, c, le)),
              omega (arith, c, le, d.clock_from (omega (arith, c, le))),
              d.start_kept ∙ i,
              d.kernel_kept,
            ))
            (finalize-IsClosed engine f))
        (λ t. (
          stepped i f (rw c s) (omega (arith, c, le)),
          refl,
          omega (arith, c, le),
          omega (arith, c, le),
          i,
          refl,
        ))

  over-Outcome :
      (origin engine : SimulationEngine R S)
      → engine.stop_tick ≡ origin.stop_tick
      → IsSettled engine.stop_tick engine.kernel
      → engine.is_finished ≡ false
      → Ends
          (λ (more, next). Outcome origin more next)
          (finalize is_finite model engine >>= λ ended. finished (ok (false, ended)))
  over-Outcome origin engine same s f =
      Ends-bind (IsClosed engine) _ (finalize is_finite model engine)
        (λ ended. finished (ok (false, ended))) (finalize-IsClosed engine f)
        (λ next d.
          over (record { closed = d.closed; settled = rw (d.kernel_kept, d.stop_kept) s })
            (d.stop_kept ∙ same))

  -- The call after the initialization: `engine` is the origin or what the initialization made of it.
  step_from-Outcome :
      (tick : ℕ) (origin engine : SimulationEngine R S) (events : List Event)
      → engine.kernel.queue.events ≡ events
      → IsReady tick engine.kernel
      → tick ≤ engine.stop_tick
      → engine.initialized ≡ true
      → engine.is_finished ≡ false
      → engine.stop_tick ≡ origin.stop_tick
      → origin.is_finished ≡ false
      → (origin.initialized ≡ true → All (λ (e : Event). origin.current_tick < e.tick) events)
      → Started origin engine.kernel
      → Ends (λ (more, next). Outcome origin more next) (step_from is_finite model engine events)
  step_from-Outcome tick origin engine [] shown r le i f same g before own =
      unfold step_from in
      over-Outcome origin engine same
        (IsSettled-later tick engine.stop_tick engine.kernel r le (rw shown tt)) f
  step_from-Outcome tick origin engine (event ∷ events) shown r le i f same g before own =
      unfold step_from in
      Ends-if _ (ltb engine.stop_tick event.tick)
        (finalize is_finite model engine >>= λ ended. finished (ok (false, ended))) _
        (λ t.
          over-Outcome origin engine same
            (IsSettled-later tick engine.stop_tick engine.kernel r le (
              is_exhausted-All engine.stop_tick engine.kernel.queue r.timely.valid.ordered
                (rw shown t)))
            f)
        (λ t.
          Ends-bind (IsProcessed event.tick engine) _
            (process_event_tick is_finite model event.tick engine) _
            (process_event_tick-IsProcessed event.tick engine (
              IsReady-later tick event.tick engine.kernel r
                (subst (All (λ e. tick ≤ e.tick)) shown r.timely.from).0
                (rw shown
                  (first_due event events (subst (Chain KeyLt) shown r.timely.valid.ordered)))))
            (λ processed d.
              Ends-bind _ _ (finalize_if_exhausted is_finite model processed) _
                (finalize_if_exhausted-Stage event.tick processed d.settled d.clock
                  (ground (arith, t, d.stop_kept)) (d.start_kept ∙ i) (d.end_kept ∙ f))
                (λ next (stage, stop, until, from, started, kernel).
                  moved stage (stop ∙ d.stop_kept ∙ same) (omega (arith, until, d.stop_kept, same))
                    (λ o. omega (arith, (before o).0, from)) engine.kernel own (rw kernel d.account)
                    started g)))

  -- A call of step_to_next_event always ends, on an engine that is just constructed, between two ticks,
  -- or over. Unless it throws, either it returns true, its tick is in the horizon and, on an engine that has
  -- started, later than the tick before, and the engine is again between two ticks or over; or it
  -- returns false and the run is over. Between two ticks only later events are queued, after the run
  -- only events beyond the horizon, and the trace is in the order of its ticks. Where a call returns true,
  -- each event that was queued before it or by the initialization in it, other than the completion
  -- candidates and the deadline checks, is still queued or is in the trace, which keeps what it had.
  pub step_to_next_event-Outcome :
      (engine : SimulationEngine R S)
      → Stage engine
      → Ends (λ (more, next). Outcome engine more next) (step_to_next_event is_finite model engine)
  step_to_next_event-Outcome engine (completed c) =
      unfold step_to_next_event in
      Ends-if _ engine.is_finished (finished (ok (false, engine))) _ (λ t. over c refl)
        (λ t. absurd (ground (arith, t, c.closed)))
  step_to_next_event-Outcome engine (constructed i f r) =
      unfold step_to_next_event in
      Ends-if _ engine.is_finished (finished (ok (false, engine))) _
        (λ t. absurd (ground (arith, t, f)))
        (λ t.
          Ends-bind (IsStarted engine) _ (initialize is_finite model engine) _
            (initialize-IsStarted engine i r)
            (λ started d.
              step_from-Outcome 0 engine started started.kernel.queue.events refl d.ready
                (omega arith) d.started (d.end_kept ∙ f) d.stop_kept f
                (λ o. absurd (ground (arith, o, i))) d.began))
  step_to_next_event-Outcome engine (stepped i f s le) =
      unfold step_to_next_event in
      Ends-if _ engine.is_finished (finished (ok (false, engine))) _
        (λ t. absurd (ground (arith, t, f)))
        (λ t.
          Ends-bind (λ e. e ≡ engine) _ (initialize is_finite model engine) _
            (unfold initialize in
              Ends-if (λ e. e ≡ engine) engine.initialized (finished (ok engine)) _ (λ _. refl)
                (λ b. absurd (ground (arith, b, i))))
            (λ started e. rw e (
              step_from-Outcome engine.current_tick engine engine engine.kernel.queue.events refl
                s.ready le i f refl f (λ _. s.later) (already i))))
