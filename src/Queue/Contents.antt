-- ===== src/Queue/Contents.antt =====
-- What the queue holds, and in which order it gives it out.
use cpssim.Base.{
  ◌==◌, ==_iff, ℕ, ◌+◌, ◌≤◌, ◌<◌, ◌≡◌, ◌≢◌, ◌⊎◌, inl, inr, refl, sym, subst, ◌∙◌, Bool-cases, true,
  false, Option, none, some, List, ◌∷◌, Perm, ok, err, overflow_error, invalid_argument, ℤ, pos,
  negsuc, arith, All, Chain, All-map, insert-perm, insert-All, insert-Chain,
}
use cpssim.Event.{Event, EventPhase, EventType, EventEntityRefs, new_event, does_not_precede}
use cpssim.Queue.{EventQueue, u64_max, advance, later_event, push, schedule, next, pop_next}
use cpssim.Queue.Order.{
  Precedes, KeyLt, KeyLt-trans, later_event→KeyLt, not-later_event→KeyLt, KeyLt→Precedes,
}

-- The entries stand in their order, and no entry has a sequence that is still to be given out.
pub record IsValid (q : EventQueue) : Type 0 where
  pub ordered : Chain KeyLt q.events
  pub fresh : q.sequence_space_exhausted ≡ false → All (λ e. e.sequence < q.next_sequence) q.events
  pub bounded : q.next_sequence ≤ u64_max

push-Chain :
    (e : Event) (es : List Event)
    → All (λ x. x.sequence < e.sequence) es
    → Chain KeyLt es
    → Chain KeyLt (push e es)
unfolding push
push-Chain e es fresh c =
    insert-Chain (λ a x. later_event x a) (λ a x. a.sequence ≢ x.sequence) KeyLt
      (λ a b d h. later_event→KeyLt a b h) not-later_event→KeyLt KeyLt-trans e es
      (All-map _ _ (λ x h p. omega arith) es fresh) c

-- The event that an accepted insertion puts into the queue.
abbrev pub inserted : EventQueue → ℕ → EventPhase → EventType → EventEntityRefs → Option ℕ → Event
inserted q tick phase type entities cause = record {
  tick = tick;
  phase = phase;
  sequence = q.next_sequence;
  type = type;
  entities = entities;
  cause_sequence = cause;
}

-- A recorded cause is an earlier event.
abbrev pub CausedBefore : Option ℕ → ℕ → Type 0
CausedBefore none s = Unit {0}
CausedBefore (some c) s = c < s

-- What an accepted insertion did.
pub record Scheduled (q : EventQueue) (tick : ℕ) (phase : EventPhase) (type : EventType)
    (entities : EventEntityRefs) (cause : Option ℕ) (s : ℕ) (r : EventQueue) : Type 0 where
  pub assigned : s ≡ q.next_sequence
  pub not_exhausted : q.sequence_space_exhausted ≡ false
  pub entered : r.events ≡ push (inserted q tick phase type entities cause) q.events
  pub advanced :
      ((q.next_sequence < u64_max)
        × (r.next_sequence ≡ q.next_sequence + 1)
        × (r.sequence_space_exhausted ≡ false))
      ⊎ ((q.next_sequence ≡ u64_max)
          × (r.next_sequence ≡ u64_max)
          × (r.sequence_space_exhausted ≡ true))
  pub caused : CausedBefore cause s

module _ (q : EventQueue) (tick : ℕ) (phase : EventPhase) (type : EventType)
    (entities : EventEntityRefs) (cause : Option ℕ) where
  pub schedule-Scheduled :
      {s : ℕ} {r : EventQueue}
      → q.next_sequence ≤ u64_max
      → schedule q (pos tick) phase type entities cause ≡ ok (s, r)
      → Scheduled q tick phase type entities cause s r
  unfolding schedule new_event
  schedule-Scheduled b h = record {
    assigned = ground arith;
    not_exhausted = ground arith;
    entered = ground arith;
    advanced = ground arith;
    caused = ground arith;
  }

late_cause :
    (cause : Option ℕ) (n : ℕ)
    → does_not_precede cause n ≡ true
    → (c : ℕ) × (cause ≡ some c) × (n ≤ c)
late_cause none n h = cc
late_cause (some c) n h = (c, refl, ground arith)

schedule_negative :
    (q : EventQueue) (n : ℕ) (phase : EventPhase) (type : EventType) (entities : EventEntityRefs)
    (cause : Option ℕ) {x : ℕ × EventQueue}
    → schedule q (negsuc n) phase type entities cause ≢ ok x
unfolding schedule new_event
schedule_negative q n phase type entities cause h = ground arith

push-fresh :
    (q : EventQueue) (tick : ℕ) (phase : EventPhase) (type : EventType) (entities : EventEntityRefs)
    (cause : Option ℕ) (s : ℕ) (r : EventQueue)
    → IsValid q
    → Scheduled q tick phase type entities cause s r
    → r.sequence_space_exhausted ≡ false
    → All
        (λ x. x.sequence < r.next_sequence)
        (push (inserted q tick phase type entities cause) q.events)
unfolding push
push-fresh q tick phase type entities cause s r v d x =
    let grown : r.next_sequence ≡ q.next_sequence + 1 = ground arith in
    insert-All (λ a b. later_event b a) (λ e. e.sequence < r.next_sequence)
      (inserted q tick phase type entities cause) q.events (omega arith)
      (All-map _ _ (λ e h. omega arith) q.events (v.fresh d.not_exhausted))

-- An accepted insertion keeps the queue valid: in order, with fresh sequences left to give out.
pub schedule-IsValid :
    (q : EventQueue) (tick : ℤ) (phase : EventPhase) (type : EventType) (entities : EventEntityRefs)
    (cause : Option ℕ) (s : ℕ) (r : EventQueue)
    → IsValid q
    → schedule q tick phase type entities cause ≡ ok (s, r)
    → IsValid r
schedule-IsValid q (negsuc n) phase type entities cause s r v h =
    absurd (schedule_negative q n phase type entities cause h)
schedule-IsValid q (pos t) phase type entities cause s r v h =
    let d = schedule-Scheduled q t phase type entities cause v.bounded h in
    record {
      ordered = rw d.entered (push-Chain _ q.events (v.fresh d.not_exhausted) v.ordered);
      fresh = λ x. rw d.entered (push-fresh q t phase type entities cause s r v d x);
      bounded = ground arith;
    }

schedule_accepts :
    (q : EventQueue) (t : ℕ) (phase : EventPhase) (type : EventType) (entities : EventEntityRefs)
    (cause : Option ℕ)
    → q.sequence_space_exhausted ≡ false
    → does_not_precede cause q.next_sequence ≡ false
    → schedule q (pos t) phase type entities cause
      ≡ ok (q.next_sequence, advance q (push (inserted q t phase type entities cause) q.events))
unfolding schedule new_event
schedule_accepts q t phase type entities cause x h = ground arith

schedule_refuses :
    (q : EventQueue) (tick : ℤ) (phase : EventPhase) (type : EventType) (entities : EventEntityRefs)
    (cause : Option ℕ)
    → q.sequence_space_exhausted ≡ false
    → ((n : ℕ) × (tick ≡ negsuc n)) ⊎ (does_not_precede cause q.next_sequence ≡ true)
    → schedule q tick phase type entities cause ≡ err invalid_argument
unfolding schedule new_event
schedule_refuses q (negsuc n) phase type entities cause x h = rw x
schedule_refuses q (pos t) phase type entities cause x h = ground arith

events-advance : (q : EventQueue) (es : List Event) → (advance q es).events ≡ es
events-advance q es = ground arith

push-perm : (e : Event) (es : List Event) → Perm (push e es) (e ∷ es)
unfolding push
push-perm e es = insert-perm (λ a x. later_event x a) e es

schedule_events :
    (q : EventQueue) (t : ℕ) (phase : EventPhase) (type : EventType) (entities : EventEntityRefs)
    (cause : Option ℕ) (s : ℕ) (r : EventQueue)
    → schedule q (pos t) phase type entities cause ≡ ok (s, r)
    → r.events ≡ push (inserted q t phase type entities cause) q.events
unfolding schedule new_event
schedule_events q t phase type entities cause s r h = ground arith

-- An accepted insertion adds its event.
pub schedule-Perm :
    (q : EventQueue) (t : ℕ) (phase : EventPhase) (type : EventType) (entities : EventEntityRefs)
    (cause : Option ℕ) (s : ℕ) (r : EventQueue)
    → schedule q (pos t) phase type entities cause ≡ ok (s, r)
    → Perm r.events (inserted q t phase type entities cause ∷ q.events)
schedule-Perm q t phase type entities cause s r h =
    rw (schedule_events q t phase type entities cause s r h) (push-perm _ q.events)

-- The allocator of sequences after an insertion.
abbrev pub Advances : EventQueue → EventQueue → Type 0
Advances q r =
    (q.next_sequence ≢ u64_max)
      × (r.next_sequence ≡ q.next_sequence + 1)
      × (r.sequence_space_exhausted ≡ false)
    ⊎ (q.next_sequence ≡ u64_max)
      × (r.next_sequence ≡ u64_max)
      × (r.sequence_space_exhausted ≡ true)

advance-Advances :
    (q : EventQueue) (es : List Event)
    → q.sequence_space_exhausted ≡ false
    → Advances q (advance q es)
advance-Advances q es x = elim (Bool-cases (q.next_sequence == u64_max)) [
  | inl last ↦
      inr ((==_iff q.next_sequence u64_max).0 last, ground (arith, last), ground (arith, last))
  | inr more ↦ inl ((λ e. ground (arith, more, e)), ground (arith, more), ground (arith, more, x))
]

-- An insertion is refused exactly on an exhausted allocator, a negative tick or a cause that does
-- not precede the new event; otherwise it adds one event, under the next sequence, keeps all that was
-- pending, and moves the allocator on: to the successor, or at the last sequence to exhaustion.
pub schedule_outcome :
    (q : EventQueue) (tick : ℤ) (phase : EventPhase) (type : EventType) (entities : EventEntityRefs)
    (cause : Option ℕ)
    → ((q.sequence_space_exhausted ≡ true)
        × (schedule q tick phase type entities cause ≡ err overflow_error))
      ⊎ (((n : ℕ) × (tick ≡ negsuc n)) ⊎ ((c : ℕ) × (cause ≡ some c) × (q.next_sequence ≤ c)))
        × (schedule q tick phase type entities cause ≡ err invalid_argument)
      ⊎ ((t : ℕ) × (r : EventQueue) × (tick ≡ pos t)
          × (schedule q tick phase type entities cause ≡ ok (q.next_sequence, r))
          × Perm r.events (inserted q t phase type entities cause ∷ q.events)
          × CausedBefore cause q.next_sequence
          × Advances q r)
schedule_outcome q tick phase type entities cause = elim (Bool-cases q.sequence_space_exhausted) [
  | inl x ↦ inl (x, unfold schedule in rw x)
  | inr x ↦ inr (open_outcome tick x)
]
  where
    open_outcome :
        (tick : ℤ)
        → q.sequence_space_exhausted ≡ false
        → (((n : ℕ) × (tick ≡ negsuc n)) ⊎ ((c : ℕ) × (cause ≡ some c) × (q.next_sequence ≤ c)))
            × (schedule q tick phase type entities cause ≡ err invalid_argument)
          ⊎ ((t : ℕ) × (r : EventQueue) × (tick ≡ pos t)
              × (schedule q tick phase type entities cause ≡ ok (q.next_sequence, r))
              × Perm r.events (inserted q t phase type entities cause ∷ q.events)
              × CausedBefore cause q.next_sequence
              × Advances q r)
    open_outcome (negsuc n) x =
        inl
          (inl (n, refl), schedule_refuses q (negsuc n) phase type entities cause x (inl (n, refl)))
    open_outcome (pos t) x = elim (Bool-cases (does_not_precede cause q.next_sequence)) [
      | inl late ↦ inl (
        inr (late_cause cause q.next_sequence late),
        schedule_refuses q (pos t) phase type entities cause x (inr late),
      )
      | inr early ↦
          let es = push (inserted q t phase type entities cause) q.events in
          inr (
            t,
            advance q es,
            refl,
            schedule_accepts q t phase type entities cause x early,
            rw (events-advance q es) (push-perm _ q.events),
            ground arith,
            advance-Advances q es x,
          )
    ]

pop_next_lem :
    (q : EventQueue) (e : Event) (r : EventQueue)
    → pop_next q ≡ ok (e, r)
    → (q.events ≡ e ∷ r.events)
      × (r.next_sequence ≡ q.next_sequence)
      × (r.sequence_space_exhausted ≡ q.sequence_space_exhausted)
unfolding pop_next
pop_next_lem q e r h = ground arith

-- A valid queue that is not empty gives out an event that precedes all that stay, which are the
-- others, and stays valid; `next` shows that event.
pub pop_next-least :
    (q : EventQueue) (e : Event) (r : EventQueue)
    → IsValid q
    → pop_next q ≡ ok (e, r)
    → (next q ≡ ok e) × (q.events ≡ e ∷ r.events) × All (Precedes e) r.events × IsValid r
unfolding next
pop_next-least q e r v h =
    let (split, same, kept) = pop_next_lem q e r h in
    let ordered : Chain KeyLt (e ∷ r.events) = subst (Chain KeyLt) split v.ordered in
    (
      rw (split, next),
      split,
      All-map _ _ (KeyLt→Precedes e) r.events ordered.0,
      record {
        ordered = ordered.1;
        fresh = λ x.
            rw same
              (subst (All (λ e. e.sequence < q.next_sequence)) split (v.fresh (sym kept ∙ x))).1;
        bounded = rw same v.bounded;
      },
    )
