-- ===== src/Engine/Tick.antt =====
-- The events of one tick: the loops of SimulationEngine::process_event_tick over the kernel.
use cpssim.Base.{
  In, All-In, ℕ, ◌≤◌, ◌<◌, ◌≡◌, subst, inl, inr, Bool, true, false, List, [], ◌∷◌, Result, ok,
  Result-cases, arith, All, All-map, Chain,
}
use cpssim.Base.Loops.{finished, while, Ends, Ends-bind, Ends-finished, Ends-map, while-Ends}
use cpssim.Event.{Event}
use cpssim.Queue.{EventQueue}
use cpssim.Queue.Order.{KeyLt}
use cpssim.Scheduler
use cpssim.Kernel.{
  Kernel, process_front, process_post, collect_release, process_releases, schedule_tick,
}
use cpssim.Engine.{
  count_at, rounds, is_early, is_release, is_before_scheduling, is_at, while_front,
  process_release_batch, process_kernel_tick,
}
use cpssim.Engine.Timely.{IsTimely}
use cpssim.Engine.Scheduling.{schedule_cycle-Grown}
use cpssim.Engine.Handlers.{IsReady, IsTraced}
use cpssim.Engine.Front.{
  TestsTick, is_early-TestsTick, is_release-TestsTick, is_before_scheduling-TestsTick, Advanced,
  process_front-Advanced, process_post-Advanced, Accounted, Accounted-refl, Accounted-trans,
}
use cpssim.Engine.Batch.{process_releases-AllHandled, collect_release-Collected, Collected}

module _ (tick : ℕ) where
  -- A loop over the kernel whose test is on an event of the tick at the front.
  -- The kernel is ready, and every event that has left the queue since `base` is accounted for.
  abbrev Follows : Kernel → Kernel → Type 0
  Follows base kernel = IsReady tick kernel × Accounted base kernel

  while_front-Ends :
      (test : EventQueue → Bool) (body : Kernel → Result Kernel)
      → TestsTick tick test
      → ((k k' : Kernel)
          → IsReady tick k
          → is_at tick k.queue ≡ true
          → body k ≡ ok k'
          → Advanced tick k k')
      → (base kernel : Kernel) → Follows base kernel
      → Ends (λ k. Follows base k × (test k.queue ≡ false)) (while_front tick test body kernel)
  unfolding while_front Advanced
  while_front-Ends test body tests keep base kernel r =
      while-Ends (Follows base) (λ (k : Kernel). count_at tick k.queue.events) (λ k. test k.queue)
        (λ k. finished (body k))
        (λ k (p, a) t. Ends-finished _ (body k) (λ k' e.
          let (q, lt, b) = keep k k' p (tests k.queue t) e in
          ((q, Accounted-trans base k k' a b), lt)))
        (rounds tick kernel.queue) kernel (omega arith) r

  process_release_batch-Ends :
      (base kernel : Kernel)
      → Follows base kernel
      → Ends (Follows base) (process_release_batch tick kernel)
  unfolding process_release_batch Collected
  process_release_batch-Ends base kernel (r, account) =
      Ends-bind (λ t. Collected tick kernel.queue t × (is_release tick t.0 ≡ false)) (Follows base)
        (while (rounds tick kernel.queue) (λ s. is_release tick s.0)
          (λ s. finished (collect_release s)) (kernel.queue, []))
        (λ (queue, releases).
          finished (process_releases (record kernel { queue = queue }) releases))
        (while-Ends (Collected tick kernel.queue)
          (λ (s : EventQueue × List Event). count_at tick s.0.events) (λ s. is_release tick s.0)
          (λ s. finished (collect_release s))
          (λ s p t. Ends-finished _ (collect_release s) (λ t' e.
            collect_release-Collected tick kernel.queue s t' p (is_release-TestsTick tick s.0 t) e))
          (rounds tick kernel.queue) (kernel.queue, []) (omega arith)
          (r.timely, tt, (λ e m. inl m)))
        (λ (queue, releases) ((v, a, kept), done).
          Ends-finished (Follows base) (process_releases (record kernel { queue = queue }) releases)
            (λ k' e.
              let d =
                process_releases-AllHandled tick (record kernel { queue = queue }) releases k'
                  (record {
                    timely = v;
                    periodic = r.periodic;
                    causal = r.causal;
                    traced = r.traced;
                  })
                  a e in
              (
                d.ready,
                Accounted-trans base kernel k' account (record {
                  queued = λ x t m. elim (kept x m) [
                    | inl waits ↦ inl (d.queued x waits)
                    | inr taken ↦ inr (
                        All-In (λ (y : Event). IsTraced y → In y k'.trace) x releases d.recorded
                          taken t)
                  ];
                  remembered = d.remembered;
                }),
              )))

  schedule_tick-Follows :
      (base kernel kernel' : Kernel)
      → Follows base kernel
      → schedule_tick tick kernel ≡ ok kernel'
      → Follows base kernel'
  schedule_tick-Follows base kernel kernel' (r, account) h =
      elim (Result-cases (Scheduler.schedule kernel.scheduler tick kernel.queue)) [
        | inr (error, f) ↦ absurd (unfold schedule_tick in ground (arith, f))
        | inl ((s, q), f) ↦
            let e : record kernel { queue = q; scheduler = s } ≡ kernel' =
              unfold schedule_tick in ground (arith, f) in
            let g = schedule_cycle-Grown kernel.scheduler tick kernel.queue s q r.timely f in
            let next : Kernel = record kernel { queue = q; scheduler = s } in
            let step : Accounted kernel next = record {
              queued = λ x t m. inl (g.kept x m);
              remembered = λ x m. m;
            } in
            subst (Follows base) e (
              record {
                timely = g.timely;
                periodic = r.periodic;
                causal = r.causal;
                traced = r.traced;
              },
              Accounted-trans base kernel next account step,
            )
      ]

-- A timely queue whose front is not at the tick has only later events.
AreLater-front :
    (tick : ℕ) (queue : EventQueue)
    → IsTimely tick queue
    → is_at tick queue ≡ false
    → All (λ (e : Event). tick < e.tick) queue.events
AreLater-front tick queue v t = from queue.events v.valid.ordered v.from t
  where
    from :
        (events : List Event)
        → Chain KeyLt events
        → All (λ e. tick ≤ e.tick) events
        → is_at tick (record queue { events = events }) ≡ false
        → All (λ (e : Event). tick < e.tick) events
    from [] c a f = tt
    from (x ∷ xs) c a f =
        let lt : tick < x.tick = ground (arith, f, a.0) in
        (lt, All-map (KeyLt x) (λ (e : Event). tick < e.tick) (λ e k. ground (arith, lt, k)) xs c.0)

-- Between two ticks: the kernel is ready for the last one, and every event is due after it.
pub record IsSettled (tick : ℕ) (kernel : Kernel) : Type 0 where
  pub ready : IsReady tick kernel
  pub later : All (λ (e : Event). tick < e.tick) kernel.queue.events

-- The events of a tick: the kernel is settled, and every event that has left the queue is accounted for.
pub process_kernel_tick-Accounted :
    (tick : ℕ) (kernel : Kernel)
    → IsReady tick kernel
    → Ends (λ k. IsSettled tick k × Accounted kernel k) (process_kernel_tick tick kernel)
unfolding process_kernel_tick
process_kernel_tick-Accounted tick kernel r =
    let Goal : Kernel → Type 0 = λ k. IsSettled tick k × Accounted kernel k in
    Ends-bind _ Goal (while_front tick (is_early tick) process_front kernel) _
      (while_front-Ends tick (is_early tick) process_front (is_early-TestsTick tick)
        (process_front-Advanced tick) kernel kernel (r, Accounted-refl kernel))
      (λ early (r1, _).
        Ends-bind _ Goal (process_release_batch tick early) _
          (process_release_batch-Ends tick kernel early r1)
          (λ released r2.
            Ends-bind _ Goal (while_front tick (is_before_scheduling tick) process_front released) _
              (while_front-Ends tick (is_before_scheduling tick) process_front
                (is_before_scheduling-TestsTick tick) (process_front-Advanced tick) kernel released
                r2)
              (λ late (r3, _).
                Ends-bind (Follows tick kernel) Goal (finished (schedule_tick tick late)) _
                  (Ends-finished (Follows tick kernel) (schedule_tick tick late)
                    (λ k e. schedule_tick-Follows tick kernel late k r3 e))
                  (λ scheduled r4.
                    Ends-map _ Goal (while_front tick (is_at tick) process_post scheduled)
                      (λ k ((r5, a), t).
                        (record { ready = r5; later = AreLater-front tick k.queue r5.timely t }, a))
                      (while_front-Ends tick (is_at tick) process_post (λ q t. t)
                        (process_post-Advanced tick) kernel scheduled r4)))))

-- From a kernel that is ready for a tick, that is, a canonical queue without earlier events, positive
-- periods, causally ordered messages and a trace in the order of its ticks: the loops over the events of
-- the tick end within one round for each of them and one more, and unless a handler throws, the kernel
-- is still ready afterwards and only events of later ticks are left.
pub process_kernel_tick-IsSettled :
    (tick : ℕ) (kernel : Kernel)
    → IsReady tick kernel
    → Ends (IsSettled tick) (process_kernel_tick tick kernel)
process_kernel_tick-IsSettled tick kernel r =
    Ends-map _ (IsSettled tick) (process_kernel_tick tick kernel) (λ k (s, a). s)
      (process_kernel_tick-Accounted tick kernel r)
