-- ===== src/Engine/Handlers.antt =====
-- What the handlers of the events keep: the branches of process_pre_scheduling_event and
-- process_post_scheduling_events, each run on an event of its tick.
use cpssim.Base.{
  ℕ, ◌≤◌, ◌≡◌, ◌⊎◌, refl, subst, inl, inr, true, false, List, [], ◌∷◌, ◌++◌, ok, Result-cases,
  Bool-cases, arith, ◌&&◌, In, All, All-append, Chain, Chain-append,
}
use cpssim.Event.{
  Event, is_execution_completion, is_delivery_phase, is_deadline_check, is_job_finish,
  is_deadline_miss, is_message_delivery,
}
use cpssim.Network.{publish, process_delivery}
use cpssim.Network.Causality.{IsCausal, publish-IsCausal}
use cpssim.Network.Transmission.{process_delivery-IsCausal}
use cpssim.Release.{release_job}
use cpssim.Scheduler.{Scheduler, submit, process_completion, process_deadline}
use cpssim.Kernel.{
  Kernel, record_event, complete_job, deliver_message, check_deadline, release_task,
  process_pre_scheduling_event,
}
use cpssim.Engine.{count_at}
use cpssim.Engine.Timely.{IsTimely, Keeps, AddsLater-trans}
use cpssim.Engine.Messages.{publish-AddsLater}
use cpssim.Engine.Releases.{IsPeriodic, release_job-AddsLater, submit-AddsLater}

-- The events are in the order of their ticks, and none is after the tick.
pub record IsTrace (tick : ℕ) (trace : List Event) : Type 0 where
  pub ordered : Chain (λ (a b : Event). a.tick ≤ b.tick) trace
  pub until : All (λ (e : Event). e.tick ≤ tick) trace

-- What holds of the kernel while the events of the tick are processed.
pub record IsReady (tick : ℕ) (kernel : Kernel) : Type 0 where
  pub timely : IsTimely tick kernel.queue
  pub periodic : IsPeriodic kernel.releases.tasks
  pub causal : All IsCausal kernel.network.messages
  pub traced : IsTrace tick kernel.trace

-- A handled event of this kind always comes into the trace: it is neither a completion candidate nor a
-- deadline check.
abbrev pub IsTraced : Event → Type 0
IsTraced event =
    (is_execution_completion event.phase ≡ false) × (is_deadline_check event.phase ≡ false)

-- The event is handled: the second kernel is ready, and its queue has the events of the first one's, as
-- many of the tick. Its trace has the events of the first one's, and an event that is traced.
pub record Handled (event : Event) (kernel kernel' : Kernel) : Type 0 where
  pub ready : IsReady event.tick kernel'
  pub count : count_at event.tick kernel'.queue.events ≡ count_at event.tick kernel.queue.events
  pub queued : Keeps kernel.queue.events kernel'.queue.events
  pub remembered : Keeps kernel.trace kernel'.trace
  pub recorded : IsTraced event → In event kernel'.trace

pub Keeps-append : (event : Event) (trace : List Event) → Keeps trace (trace ++ event ∷ [])
Keeps-append event [] e m = absurd m
Keeps-append event (x ∷ xs) e (inl here) = inl here
Keeps-append event (x ∷ xs) e (inr there) = inr (Keeps-append event xs e there)

pub In-last : (event : Event) (trace : List Event) → In event (trace ++ event ∷ [])
In-last event [] = inl refl
In-last event (x ∷ xs) = inr (In-last event xs)

pub IsTrace-append :
    (event : Event) (trace : List Event)
    → IsTrace event.tick trace
    → IsTrace event.tick (trace ++ event ∷ [])
IsTrace-append event trace t = record {
  ordered = Chain-append (λ (a b : Event). a.tick ≤ b.tick) trace event t.ordered t.until;
  until =
      All-append (λ (e : Event). e.tick ≤ event.tick) trace (event ∷ []) t.until (omega arith, tt);
}

complete_job-Handled :
    (kernel : Kernel) (event : Event) (kernel' : Kernel)
    → IsReady event.tick kernel
    → is_execution_completion event.phase ≡ true
    → complete_job kernel event ≡ ok kernel'
    → Handled event kernel kernel'
complete_job-Handled kernel event kernel' r phase h =
    elim (Result-cases (process_completion kernel.scheduler event)) [
      | inr (error, f) ↦ unfold complete_job in ground (arith, f)
      | inl ((false, s), f) ↦
          let e : record kernel { scheduler = s } ≡ kernel' =
            unfold complete_job in ground (arith, f) in
          subst (Handled event kernel) e (record {
            ready = record {
              timely = r.timely;
              periodic = r.periodic;
              causal = r.causal;
              traced = r.traced;
            };
            count = refl;
            queued = λ e m. m;
            remembered = λ e m. m;
            recorded = λ (c, d). absurd (ground (arith, c, phase));
          })
      | inl ((true, s), f) ↦ elim (Result-cases (publish kernel.network event kernel.queue)) [
        | inr (error, g) ↦ unfold complete_job in ground (arith, f, g)
        | inl ((n, q), g) ↦
            let e : record_event (record kernel { queue = q; scheduler = s; network = n }) event
                ≡ kernel' =
              unfold complete_job in ground (arith, f, g) in
            let a = publish-AddsLater kernel.network event kernel.queue n q r.timely g in
            let c =
              publish-IsCausal kernel.network event kernel.queue n q r.timely.valid r.causal g in
            subst (Handled event kernel) e (record {
              ready = record {
                timely = a.timely;
                periodic = r.periodic;
                causal = c.0;
                traced = IsTrace-append event kernel.trace r.traced;
              };
              count = a.count;
              queued = a.kept;
              remembered = Keeps-append event kernel.trace;
              recorded = λ _. In-last event kernel.trace;
            })
      ]
    ]

deliver_message-Handled :
    (kernel : Kernel) (event : Event) (kernel' : Kernel)
    → IsReady event.tick kernel
    → deliver_message kernel event ≡ ok kernel'
    → Handled event kernel kernel'
deliver_message-Handled kernel event kernel' r h =
    elim (Result-cases (process_delivery kernel.network event)) [
      | inr (error, f) ↦ unfold deliver_message in ground (arith, f)
      | inl (n, f) ↦
          let e : record_event (record kernel { network = n }) event ≡ kernel' =
            unfold deliver_message in ground (arith, f) in
          subst (Handled event kernel) e (record {
            ready = record {
              timely = r.timely;
              periodic = r.periodic;
              causal = process_delivery-IsCausal kernel.network event n r.causal f;
              traced = IsTrace-append event kernel.trace r.traced;
            };
            count = refl;
            queued = λ e m. m;
            remembered = Keeps-append event kernel.trace;
            recorded = λ _. In-last event kernel.trace;
          })
    ]

check_deadline-Handled :
    (kernel : Kernel) (event : Event) (kernel' : Kernel)
    → IsReady event.tick kernel
    → is_deadline_check event.phase ≡ true
    → check_deadline kernel event ≡ ok kernel'
    → Handled event kernel kernel'
check_deadline-Handled kernel event kernel' r phase h =
    elim (Result-cases (process_deadline kernel.scheduler event)) [
      | inr (error, f) ↦ unfold check_deadline in ground (arith, f)
      | inl ((false, s), f) ↦
          let e : record kernel { scheduler = s } ≡ kernel' =
            unfold check_deadline in ground (arith, f) in
          subst (Handled event kernel) e (kept s kernel.trace r.traced (λ e m. m))
      | inl ((true, s), f) ↦
          let e : record_event (record kernel { scheduler = s }) event ≡ kernel' =
            unfold check_deadline in ground (arith, f) in
          subst (Handled event kernel) e (
            kept s (kernel.trace ++ event ∷ []) (IsTrace-append event kernel.trace r.traced)
              (Keeps-append event kernel.trace))
    ]
  where
    kept :
        (s : Scheduler) (trace : List Event)
        → IsTrace event.tick trace
        → Keeps kernel.trace trace
        → Handled event kernel (record kernel { scheduler = s; trace = trace })
    kept s trace t k = record {
      ready = record { timely = r.timely; periodic = r.periodic; causal = r.causal; traced = t };
      count = refl;
      queued = λ e m. m;
      remembered = k;
      recorded = λ (c, d). absurd (ground (arith, d, phase));
    }

release_task-Handled :
    (kernel : Kernel) (event : Event) (kernel' : Kernel)
    → IsReady event.tick kernel
    → release_task kernel event ≡ ok kernel'
    → Handled event kernel kernel'
release_task-Handled kernel event kernel' r h =
    elim (Result-cases (release_job kernel.releases event kernel.queue)) [
      | inr (error, f) ↦ unfold release_task in ground (arith, f)
      | inl ((job, m, q), f) ↦ elim (Result-cases (submit kernel.scheduler job q)) [
        | inr (error, g) ↦ unfold release_task in ground (arith, f, g)
        | inl ((s, q'), g) ↦
            let e : record_event (record kernel { queue = q'; releases = m; scheduler = s }) event
                ≡ kernel' =
              unfold release_task in ground (arith, f, g) in
            let (a, p, due) =
              release_job-AddsLater kernel.releases event kernel.queue job m q r.timely r.periodic
                f in
            let b = submit-AddsLater event.tick kernel.scheduler job q s q' a.timely due g in
            let c = AddsLater-trans event.tick kernel.queue q q' a b in
            subst (Handled event kernel) e (record {
              ready = record {
                timely = c.timely;
                periodic = p;
                causal = r.causal;
                traced = IsTrace-append event kernel.trace r.traced;
              };
              count = c.count;
              queued = c.kept;
              remembered = Keeps-append event kernel.trace;
              recorded = λ _. In-last event kernel.trace;
            })
      ]
    ]

-- The branch that handles an event.
pub process_pre_scheduling_event-cases :
    (kernel : Kernel) (event : Event) (kernel' : Kernel)
    → process_pre_scheduling_event kernel event ≡ ok kernel'
    → (is_execution_completion event.phase ≡ true) × (complete_job kernel event ≡ ok kernel')
      ⊎ (deliver_message kernel event ≡ ok kernel')
      ⊎ (is_deadline_check event.phase ≡ true) × (check_deadline kernel event ≡ ok kernel')
      ⊎ (release_task kernel event ≡ ok kernel')
process_pre_scheduling_event-cases kernel event kernel' h =
    elim (Bool-cases (is_execution_completion event.phase && is_job_finish event.type)) [
      | inl a ↦ inl (ground (arith, a), unfold process_pre_scheduling_event in rw a at h)
      | inr a ↦
          elim (Bool-cases (is_delivery_phase event.phase && is_message_delivery event.type)) [
            | inl b ↦ inr (inl (unfold process_pre_scheduling_event in ground (arith, a, b)))
            | inr b ↦
                elim (Bool-cases (is_deadline_check event.phase && is_deadline_miss event.type)) [
                  | inl c ↦ inr (
                      inr (
                        inl (
                          ground (arith, c),
                          unfold process_pre_scheduling_event in ground (arith, a, b, c),
                        )))
                  | inr c ↦
                      inr
                        (inr (inr (unfold process_pre_scheduling_event in ground (arith, a, b, c))))
                ]
          ]
    ]

-- Each branch keeps the kernel ready and puts no further event of the tick into the queue.
pub process_pre_scheduling_event-Handled :
    (kernel : Kernel) (event : Event) (kernel' : Kernel)
    → IsReady event.tick kernel
    → process_pre_scheduling_event kernel event ≡ ok kernel'
    → Handled event kernel kernel'
process_pre_scheduling_event-Handled kernel event kernel' r h =
    elim (process_pre_scheduling_event-cases kernel event kernel' h) [
      | inl (p, a) ↦ complete_job-Handled kernel event kernel' r p a
      | inr (inl b) ↦ deliver_message-Handled kernel event kernel' r b
      | inr (inr (inl (p, c))) ↦ check_deadline-Handled kernel event kernel' r p c
      | inr (inr (inr d)) ↦ release_task-Handled kernel event kernel' r d
    ]
