-- ===== src/Engine/Front.antt =====
-- The bodies of the loops over the front of the queue, each run on an event of the tick.
use cpssim.Base.{
  ◌⊎◌, In, ℕ, suc, ◌<◌, ◌≡◌, refl, sym, subst, inl, inr, Bool, true, List, [], ◌∷◌, ◌++◌, ok,
  Result-cases, Bool-cases, arith, ◌==◌, ◌&&◌,
}
use cpssim.Event.{Event, is_scheduling, is_caused_action, is_message_send}
use cpssim.Queue.{EventQueue, pop_next}
use cpssim.Queue.Contents.{pop_next-least}
use cpssim.Network.{process_send}
use cpssim.Network.Transmission.{process_send-IsCausal}
use cpssim.Kernel.{Kernel, record_event, front_passes, process_front, process_post}
use cpssim.Engine.{count_at, is_early, is_release, is_before_scheduling, is_at}
use cpssim.Engine.Timely.{IsTimely, Keeps, AddsLater, pop_next-IsTimely}
use cpssim.Engine.Messages.{process_send-AddsLater}
use cpssim.Engine.Handlers.{
  IsTrace, IsReady, IsTraced, Keeps-append, In-last, IsTrace-append,
  process_pre_scheduling_event-Handled,
}

-- The removed event is the one that the test was about.
front_passes-pop_next :
    (test : Event → Bool) (queue : EventQueue) (event : Event) (queue' : EventQueue)
    → front_passes test queue ≡ true
    → pop_next queue ≡ ok (event, queue')
    → test event ≡ true
front_passes-pop_next test queue event queue' t h = from queue.events refl
  where
    from : (events : List Event) → queue.events ≡ events → test event ≡ true
    from [] e = absurd (unfold pop_next in ground (arith, e))
    from (x ∷ xs) e =
        let same : x ≡ event = unfold pop_next in ground (arith, e) in
        let passes : test x ≡ true = rw e at t in subst (λ x. test x ≡ true) same passes

-- A test that implies the one on the tick.
abbrev pub TestsTick : ℕ → (EventQueue → Bool) → Type 0
TestsTick tick test = (queue : EventQueue) → test queue ≡ true → is_at tick queue ≡ true

pub is_early-TestsTick : (tick : ℕ) → TestsTick tick (is_early tick)
is_early-TestsTick tick queue = from queue.events
  where
    from :
        (events : List Event)
        → is_early tick (record queue { events = events }) ≡ true
        → is_at tick (record queue { events = events }) ≡ true
    from [] h = absurd (ground (arith, h))
    from (x ∷ xs) h = ground (arith, h)

pub is_release-TestsTick : (tick : ℕ) → TestsTick tick (is_release tick)
is_release-TestsTick tick queue = from queue.events
  where
    from :
        (events : List Event)
        → is_release tick (record queue { events = events }) ≡ true
        → is_at tick (record queue { events = events }) ≡ true
    from [] h = absurd (ground (arith, h))
    from (x ∷ xs) h = ground (arith, h)

pub is_before_scheduling-TestsTick : (tick : ℕ) → TestsTick tick (is_before_scheduling tick)
is_before_scheduling-TestsTick tick queue = from queue.events
  where
    from :
        (events : List Event)
        → is_before_scheduling tick (record queue { events = events }) ≡ true
        → is_at tick (record queue { events = events }) ≡ true
    from [] h = absurd (ground (arith, h))
    from (x ∷ xs) h = ground (arith, h)

-- The removal at the head of a loop.
pub pop_next-front :
    (tick : ℕ) (queue : EventQueue) (event : Event) (queue' : EventQueue)
    → IsTimely tick queue
    → is_at tick queue ≡ true
    → pop_next queue ≡ ok (event, queue')
    → IsTimely tick queue'
      × (event.tick ≡ tick)
      × (count_at tick queue.events ≡ suc (count_at tick queue'.events))
      × (queue.events ≡ event ∷ queue'.events)
pop_next-front tick queue event queue' v t h =
    let here = front_passes-pop_next (λ event. event.tick == tick) queue event queue' t h in
    let (k, c) = pop_next-IsTimely tick queue event queue' v h in
    let (shown, split, first, valid) = pop_next-least queue event queue' v.valid h in
    (k, ground (arith, here), ground (arith, here, c), split)

-- Each event of the queue that is handled with a trace is still in the queue, or it is in the trace; and
-- no event is taken out of the trace.
pub record Accounted (kernel kernel' : Kernel) : Type 0 where
  pub queued :
      (e : Event)
      → IsTraced e
      → In e kernel.queue.events
      → In e kernel'.queue.events ⊎ In e kernel'.trace
  pub remembered : Keeps kernel.trace kernel'.trace

pub Accounted-refl : (kernel : Kernel) → Accounted kernel kernel
Accounted-refl kernel = record { queued = λ e t m. inl m; remembered = λ e m. m }

pub Accounted-trans : (a b c : Kernel) → Accounted a b → Accounted b c → Accounted a c
Accounted-trans a b c h k = record {
  queued = λ e t m. elim (h.queued e t m) [
    | inl waits ↦ k.queued e t waits
    | inr done ↦ inr (k.remembered e done)
  ];
  remembered = λ e m. k.remembered e (h.remembered e m);
}

-- The event at the front is taken out and handled.
removed-Accounted :
    (kernel kernel' : Kernel) (event : Event) (queue : EventQueue)
    → kernel.queue.events ≡ event ∷ queue.events
    → Keeps queue.events kernel'.queue.events
    → Keeps kernel.trace kernel'.trace
    → (IsTraced event → In event kernel'.trace)
    → Accounted kernel kernel'
removed-Accounted kernel kernel' event queue split keeps remembered recorded = record {
  queued = λ e t m. elim (subst (In e) split m) [
    | inl here ↦ inr (subst (λ x. IsTraced x → In x kernel'.trace) here recorded t)
    | inr there ↦ inl (keeps e there)
  ];
  remembered = remembered;
}

-- The kernel is ready, fewer events of the tick are in its queue, and those taken out are accounted for.
unfoldable pub Advanced : ℕ → Kernel → Kernel → Type 0
Advanced tick kernel kernel' =
    IsReady tick kernel'
    × (count_at tick kernel'.queue.events < count_at tick kernel.queue.events)
    × Accounted kernel kernel'

module _ (tick : ℕ) where
  pub process_front-Advanced :
      (kernel kernel' : Kernel)
      → IsReady tick kernel
      → is_at tick kernel.queue ≡ true
      → process_front kernel ≡ ok kernel'
      → Advanced tick kernel kernel'
  unfolding Advanced
  process_front-Advanced kernel kernel' r t h = elim (Result-cases (pop_next kernel.queue)) [
    | inr (error, f) ↦ unfold process_front in ground (arith, f)
    | inl ((event, q), f) ↦
        let (v, here, c, split) = pop_next-front tick kernel.queue event q r.timely t f in
        let popped : IsReady tick (record kernel { queue = q }) = record {
          timely = v;
          periodic = r.periodic;
          causal = r.causal;
          traced = r.traced;
        } in
        let d =
          process_pre_scheduling_event-Handled (record kernel { queue = q }) event kernel'
            (subst (λ t. IsReady t (record kernel { queue = q })) (sym here) popped)
            (unfold process_front in ground (arith, f)) in
        (
          subst (λ t. IsReady t kernel') here d.ready,
          ground (arith, c, here, d.count),
          removed-Accounted kernel kernel' event q split d.queued d.remembered d.recorded,
        )
  ]

  pub process_post-Advanced :
      (kernel kernel' : Kernel)
      → IsReady tick kernel
      → is_at tick kernel.queue ≡ true
      → process_post kernel ≡ ok kernel'
      → Advanced tick kernel kernel'
  unfolding Advanced
  process_post-Advanced kernel kernel' r t h = elim (Result-cases (pop_next kernel.queue)) [
    | inr (error, f) ↦ unfold process_post in ground (arith, f)
    | inl ((event, q), f) ↦
        let (v, here, c, split) = pop_next-front tick kernel.queue event q r.timely t f in
        let traced =
          subst (λ t. IsTrace t (kernel.trace ++ event ∷ [])) here
            (IsTrace-append event kernel.trace
              (subst (λ t. IsTrace t kernel.trace) (sym here) r.traced)) in
        elim (Bool-cases (is_scheduling event.phase)) [
          | inl a ↦
              let e : record_event (record kernel { queue = q }) event ≡ kernel' =
                unfold process_post in ground (arith, f, a) in
              subst (Advanced tick kernel) e (
                record { timely = v; periodic = r.periodic; causal = r.causal; traced = traced },
                omega (arith, c),
                removed-Accounted kernel (record_event (record kernel { queue = q }) event) event q
                    split (λ x m. m) (Keeps-append event kernel.trace)
                    (λ _. In-last event kernel.trace),
              )
          | inr a ↦ elim (Bool-cases (is_caused_action event.phase && is_message_send event.type)) [
            | inr b ↦ absurd (unfold process_post in ground (arith, f, a, b))
            | inl b ↦ elim (Result-cases (process_send kernel.network event q)) [
              | inr (error, g) ↦ absurd (unfold process_post in ground (arith, f, a, b, g))
              | inl ((n, q'), g) ↦
                  let e : record_event (record kernel { queue = q'; network = n }) event ≡ kernel' =
                    unfold process_post in ground (arith, f, a, b, g) in
                  let later =
                    process_send-AddsLater kernel.network event q n q'
                      (subst (λ t. IsTimely t q) (sym here) v) r.causal g in
                  let s = process_send-IsCausal kernel.network event q n q' v.valid r.causal g in
                  let k = subst (λ t. AddsLater t q q') here later in
                  subst (Advanced tick kernel) e (
                    record {
                      timely = k.timely;
                      periodic = r.periodic;
                      causal = s.0;
                      traced = traced;
                    },
                    omega (arith, c, k.count),
                    removed-Accounted kernel
                        (record_event (record kernel { queue = q'; network = n }) event) event q
                        split k.kept (Keeps-append event kernel.trace)
                        (λ _. In-last event kernel.trace),
                  )
            ]
          ]
        ]
  ]
