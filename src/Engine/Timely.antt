-- ===== src/Engine/Timely.antt =====
-- Queues that have only events of a tick and later ones, and what an insertion and a removal do there.
use cpssim.Base.{
  ℕ, ◌+◌, ◌≤◌, ◌<◌, ◌≡◌, refl, subst, ◌∙◌, inl, inr, Option, List, [], ◌∷◌, ok, Bool-cases, pos,
  arith, ◌==◌, if◌then◌else◌, In, All, insert, insert-All,
}
use cpssim.Event.{Event, EventPhase, EventType, EventEntityRefs}
use cpssim.Queue.{EventQueue, schedule, push, later_event, pop_next}
use cpssim.Queue.Contents.{IsValid, inserted, schedule-IsValid, schedule-Scheduled, pop_next-least}
use cpssim.Engine.{count_at}

pub record IsTimely (tick : ℕ) (queue : EventQueue) : Type 0 where
  pub valid : IsValid queue
  pub from : All (λ e. tick ≤ e.tick) queue.events

-- Every event of the first list is in the second.
abbrev pub Keeps : List Event → List Event → Type 0
Keeps xs ys = (e : Event) → In e xs → In e ys

-- The second queue has the events of the first, and as many of the tick.
pub record AddsLater (tick : ℕ) (queue queue' : EventQueue) : Type 0 where
  pub timely : IsTimely tick queue'
  pub count : count_at tick queue'.events ≡ count_at tick queue.events
  pub kept : Keeps queue.events queue'.events

-- The queue has the events of `base`, and only events of the tick and later ones.
pub record Grown (tick : ℕ) (base queue : EventQueue) : Type 0 where
  pub timely : IsTimely tick queue
  pub kept : Keeps base.events queue.events

push-Keeps : (event : Event) (events : List Event) → Keeps events (push event events)
unfolding push insert
push-Keeps event [] e m = absurd m
push-Keeps event (x ∷ xs) e m = elim (Bool-cases (later_event x event)) [
  | inl h ↦ rw h (inr m)
  | inr h ↦ rw h (elim m [ inl here ↦ inl here | inr there ↦ inr (push-Keeps event xs e there) ])
]

count_at-push :
    (tick : ℕ) (event : Event) (events : List Event)
    → count_at tick (push event events)
      ≡ (if event.tick == tick then 1 else 0) + count_at tick events
unfolding push insert
count_at-push tick event [] = refl
count_at-push tick event (x ∷ xs) = elim (Bool-cases (later_event x event)) [
  | inl e ↦ rw e refl
  | inr e ↦ rw e (omega (arith, count_at-push tick event xs))
]

push-All :
    (P : Event → Type 0) (event : Event) (events : List Event)
    → P event
    → All P events
    → All P (push event events)
unfolding push
push-All P event events p h = insert-All (λ a x. later_event x a) P event events p h

module _ (tick : ℕ) (queue : EventQueue) (due : ℕ) (phase : EventPhase) (type : EventType)
    (entities : EventEntityRefs) (cause : Option ℕ) (sequence : ℕ) (queue' : EventQueue) where
  -- An insertion at the tick or later.
  pub schedule-IsTimely :
      IsTimely tick queue
      → tick ≤ due
      → schedule queue (pos due) phase type entities cause ≡ ok (sequence, queue')
      → IsTimely tick queue'
  schedule-IsTimely v le h =
      let s = schedule-Scheduled queue due phase type entities cause v.valid.bounded h in
      record {
        valid =
            schedule-IsValid queue (pos due) phase type entities cause sequence queue' v.valid h;
        from = rw s.entered (
            push-All (λ e. tick ≤ e.tick) (inserted queue due phase type entities cause)
              queue.events le v.from);
      }

  -- An insertion after the tick.
  pub schedule-AddsLater :
      IsTimely tick queue
      → tick < due
      → schedule queue (pos due) phase type entities cause ≡ ok (sequence, queue')
      → AddsLater tick queue queue'
  schedule-AddsLater v lt h =
      let s = schedule-Scheduled queue due phase type entities cause v.valid.bounded h in
      let c = count_at-push tick (inserted queue due phase type entities cause) queue.events in
      record {
        timely = schedule-IsTimely v (omega arith) h;
        count = rw s.entered (ground (arith, c, lt));
        kept =
            rw s.entered (push-Keeps (inserted queue due phase type entities cause) queue.events);
      }

  pub schedule-Grown :
      (base : EventQueue)
      → Grown tick base queue
      → tick ≤ due
      → schedule queue (pos due) phase type entities cause ≡ ok (sequence, queue')
      → Grown tick base queue'
  schedule-Grown base g le h =
      let s = schedule-Scheduled queue due phase type entities cause g.timely.valid.bounded h in
      record {
        timely = schedule-IsTimely g.timely le h;
        kept = λ e m.
            rw s.entered (
              push-Keeps (inserted queue due phase type entities cause) queue.events e
                (g.kept e m));
      }

pub AddsLater-refl :
    (tick : ℕ) (queue : EventQueue) → IsTimely tick queue → AddsLater tick queue queue
AddsLater-refl tick queue v = record { timely = v; count = refl; kept = λ e m. m }

pub AddsLater-trans :
    (tick : ℕ) (a b c : EventQueue) → AddsLater tick a b → AddsLater tick b c → AddsLater tick a c
AddsLater-trans tick a b c h k = record {
  timely = k.timely;
  count = k.count ∙ h.count;
  kept = λ e m. k.kept e (h.kept e m);
}

-- The removal of an event of the tick.
pub pop_next-IsTimely :
    (tick : ℕ) (queue : EventQueue) (event : Event) (queue' : EventQueue)
    → IsTimely tick queue
    → pop_next queue ≡ ok (event, queue')
    → IsTimely tick queue'
      × (count_at tick queue.events
          ≡ (if event.tick == tick then 1 else 0) + count_at tick queue'.events)
pop_next-IsTimely tick queue event queue' v h =
    let (shown, split, first, valid) = pop_next-least queue event queue' v.valid h in
    let all : All (λ e. tick ≤ e.tick) (event ∷ queue'.events) =
      subst (All (λ e. tick ≤ e.tick)) split v.from in
    (record { valid = valid; from = all.1 }, rw split refl)
