-- ===== src/Queue/Order.antt =====
-- The canonical order of events, stated without the comparator.
use cpssim.Base.{
  ℕ, zero, suc, ◌+◌, ◌<◌, ◌-◌, ◌≡◌, ◌≢◌, ◌↔◌, refl, ap, subst, ◌⊎◌, inl, inr, true, false, arith,
}
use cpssim.Event.{Event, EventPhase}
use cpssim.Queue.{phase_precedence, later_event}

-- The processing stages of one tick, each with the one that follows it.
pub data Next : EventPhase → EventPhase → Type 0 where
  completion_delivery : Next EventPhase.execution_completion EventPhase.message_delivery
  delivery_deadline : Next EventPhase.message_delivery EventPhase.deadline_check
  deadline_release : Next EventPhase.deadline_check EventPhase.job_release
  release_update : Next EventPhase.job_release EventPhase.policy_update
  update_scheduling : Next EventPhase.policy_update EventPhase.scheduling
  scheduling_action : Next EventPhase.scheduling EventPhase.caused_action
  action_late : Next EventPhase.caused_action EventPhase.caused_action_late

-- One stage comes before another.
pub data Sooner : EventPhase → EventPhase → Type 0 where
  one : {p q : EventPhase} → Next p q → Sooner p q
  more : {p q r : EventPhase} → Next p q → Sooner q r → Sooner p r

-- The first event is due first: by tick, then by stage, then by insertion.
abbrev pub Precedes : Event → Event → Type 0
Precedes a b =
    (a.tick < b.tick)
    ⊎ ((a.tick ≡ b.tick)
        × (Sooner a.phase b.phase ⊎ ((a.phase ≡ b.phase) × (a.sequence < b.sequence))))

-- The same on the numbers that the comparator reads.
abbrev pub KeyLt : Event → Event → Type 0
KeyLt a b =
    (a.tick < b.tick)
    ⊎ ((a.tick ≡ b.tick)
        × ((phase_precedence a.phase < phase_precedence b.phase)
            ⊎ ((phase_precedence a.phase ≡ phase_precedence b.phase) × (a.sequence < b.sequence))))

pub KeyLt-trans : (a b c : Event) → KeyLt a b → KeyLt b c → KeyLt a c
KeyLt-trans a b c h k = ground arith

pub later_event→KeyLt : (a b : Event) → later_event b a ≡ true → KeyLt a b
unfolding later_event
later_event→KeyLt a b h = ground arith

pub not-later_event→KeyLt :
    (a b : Event) → a.sequence ≢ b.sequence → later_event b a ≡ false → KeyLt b a
unfolding later_event
not-later_event→KeyLt a b d h = ground arith

Next-suc : {p q : EventPhase} → Next p q → phase_precedence q ≡ suc (phase_precedence p)
unfolding phase_precedence
Next-suc completion_delivery = refl
Next-suc delivery_deadline = refl
Next-suc deadline_release = refl
Next-suc release_update = refl
Next-suc update_scheduling = refl
Next-suc scheduling_action = refl
Next-suc action_late = refl

Sooner→lt : {p q : EventPhase} → Sooner p q → phase_precedence p < phase_precedence q
Sooner→lt (one n) = omega (arith, Next-suc n)
Sooner→lt (more n s) = omega (arith, Next-suc n, Sooner→lt s)

phase_after : (p : EventPhase) → phase_precedence p < 7 → (q : EventPhase) × Next p q
unfolding phase_precedence
phase_after EventPhase.execution_completion h = (_, completion_delivery)
phase_after EventPhase.message_delivery h = (_, delivery_deadline)
phase_after EventPhase.deadline_check h = (_, deadline_release)
phase_after EventPhase.job_release h = (_, release_update)
phase_after EventPhase.policy_update h = (_, update_scheduling)
phase_after EventPhase.scheduling h = (_, scheduling_action)
phase_after EventPhase.caused_action h = (_, action_late)
phase_after EventPhase.caused_action_late h = absurd (omega arith)

phase_precedence-le : (p : EventPhase) → phase_precedence p < 8
unfolding phase_precedence
phase_precedence-le EventPhase.execution_completion = omega arith
phase_precedence-le _ = omega arith

phase_of : ℕ → EventPhase
phase_of zero = EventPhase.execution_completion
phase_of (suc zero) = EventPhase.message_delivery
phase_of (suc (suc zero)) = EventPhase.deadline_check
phase_of (suc (suc (suc zero))) = EventPhase.job_release
phase_of (suc (suc (suc (suc zero)))) = EventPhase.policy_update
phase_of (suc (suc (suc (suc (suc zero))))) = EventPhase.scheduling
phase_of (suc (suc (suc (suc (suc (suc zero)))))) = EventPhase.caused_action
phase_of _ = EventPhase.caused_action_late

phase_of-phase_precedence : (p : EventPhase) → phase_of (phase_precedence p) ≡ p
unfolding phase_of phase_precedence
phase_of-phase_precedence EventPhase.execution_completion = refl
phase_of-phase_precedence _ = refl

pub phase_precedence-injective :
    (p q : EventPhase) → phase_precedence p ≡ phase_precedence q → p ≡ q
phase_precedence-injective p q h =
    cc (ap phase_of h, phase_of-phase_precedence p, phase_of-phase_precedence q)

climb : (n : ℕ) (p q : EventPhase) → suc (n + phase_precedence p) ≡ phase_precedence q → Sooner p q
climb zero p q h =
    let (r, s) = phase_after p (omega (arith, phase_precedence-le q)) in
    subst (Sooner p) (phase_precedence-injective r q (omega (arith, Next-suc s))) (one s)
climb (suc n) p q h =
    let (r, s) = phase_after p (omega (arith, phase_precedence-le q)) in
    more s (climb n r q (omega (arith, Next-suc s)))

-- The comparator's numbers follow the order of the stages exactly.
pub lt_iff_Sooner : (p q : EventPhase) → (phase_precedence p < phase_precedence q) ↔ Sooner p q
lt_iff_Sooner p q =
    (λ h. climb (phase_precedence q - suc (phase_precedence p)) p q (omega arith), Sooner→lt)

pub KeyLt→Precedes : (a b : Event) → KeyLt a b → Precedes a b
KeyLt→Precedes a b (inl h) = inl h
KeyLt→Precedes a b (inr (e, inl h)) = inr (e, inl ((lt_iff_Sooner a.phase b.phase).0 h))
KeyLt→Precedes a b (inr (e, inr (p, h))) =
    inr (e, inr (phase_precedence-injective a.phase b.phase p, h))

pub Precedes→KeyLt : (a b : Event) → Precedes a b → KeyLt a b
Precedes→KeyLt a b (inl h) = inl h
Precedes→KeyLt a b (inr (e, inl h)) = inr (e, inl ((lt_iff_Sooner a.phase b.phase).1 h))
Precedes→KeyLt a b (inr (e, inr (p, h))) = inr (e, inr (ap phase_precedence p, h))

-- One event is later than another in the queue exactly if the other precedes it.
pub later_event_iff : (a b : Event) → (later_event b a ≡ true) ↔ Precedes a b
unfolding later_event
later_event_iff a b = (
  λ h. KeyLt→Precedes a b (later_event→KeyLt a b h),
  λ h. let k = Precedes→KeyLt a b h in ground arith,
)
