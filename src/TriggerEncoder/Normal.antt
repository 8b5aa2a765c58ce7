-- ===== src/TriggerEncoder/Normal.antt =====
-- What normalize makes of the entries: their order and their members.
use cpssim.Base.{
  ℕ, ◌≤◌, ◌<◌, ◌≡◌, ◌↔◌, ◌⊎◌, refl, sym, ap, ◌∙◌, inl, inr, true, List, [], ◌∷◌, Bool-cases, arith,
  ◌==◌, if◌then◌else◌, All, All-map, In, In-sort, Chain, sort, sort-Chain,
}
use cpssim.TriggerEncoder.{
  BoschTrigger, BoschTriggerEvent, bosch_trigger_column, trigger_before, is_duplicate, unique_after,
  unique, normalize,
}

-- One pulse comes before another: at an earlier tick, or at the same one on a smaller column.
abbrev pub PulseLt : BoschTriggerEvent → BoschTriggerEvent → Type 0
PulseLt a b =
    (a.tick < b.tick)
    ⊎ ((a.tick ≡ b.tick) × (bosch_trigger_column a.trigger < bosch_trigger_column b.trigger))

abbrev PulseLe : BoschTriggerEvent → BoschTriggerEvent → Type 0
PulseLe a b =
    (a.tick < b.tick)
    ⊎ ((a.tick ≡ b.tick) × (bosch_trigger_column a.trigger ≤ bosch_trigger_column b.trigger))

-- The trigger of a column.
trigger_at : ℕ → BoschTrigger
trigger_at column =
    if column == 1
    then BoschTrigger.sensor_activated
    else if column == 2
    then BoschTrigger.sensor_finished
    else if column == 3
    then BoschTrigger.uplink_sent
    else if column == 4
    then BoschTrigger.uplink_received
    else if column == 5
    then BoschTrigger.estimator_activated
    else if column == 6
    then BoschTrigger.estimator_finished
    else if column == 7
    then BoschTrigger.controller_activated
    else if column == 8
    then BoschTrigger.controller_finished
    else if column == 9
    then BoschTrigger.feedforward_activated
    else if column == 10
    then BoschTrigger.feedforward_finished
    else if column == 11
    then BoschTrigger.merger_activated
    else if column == 12
    then BoschTrigger.merger_finished
    else if column == 13
    then BoschTrigger.downlink_sent
    else if column == 14
    then BoschTrigger.downlink_received
    else if column == 15
    then BoschTrigger.actuator_activated
    else BoschTrigger.actuator_finished

trigger_at-bosch_trigger_column :
    (trigger : BoschTrigger) → trigger_at (bosch_trigger_column trigger) ≡ trigger
unfolding trigger_at
trigger_at-bosch_trigger_column BoschTrigger.sensor_activated = refl
trigger_at-bosch_trigger_column BoschTrigger.sensor_finished = refl
trigger_at-bosch_trigger_column BoschTrigger.uplink_sent = refl
trigger_at-bosch_trigger_column BoschTrigger.uplink_received = refl
trigger_at-bosch_trigger_column BoschTrigger.estimator_activated = refl
trigger_at-bosch_trigger_column BoschTrigger.estimator_finished = refl
trigger_at-bosch_trigger_column BoschTrigger.controller_activated = refl
trigger_at-bosch_trigger_column BoschTrigger.controller_finished = refl
trigger_at-bosch_trigger_column BoschTrigger.feedforward_activated = refl
trigger_at-bosch_trigger_column BoschTrigger.feedforward_finished = refl
trigger_at-bosch_trigger_column BoschTrigger.merger_activated = refl
trigger_at-bosch_trigger_column BoschTrigger.merger_finished = refl
trigger_at-bosch_trigger_column BoschTrigger.downlink_sent = refl
trigger_at-bosch_trigger_column BoschTrigger.downlink_received = refl
trigger_at-bosch_trigger_column BoschTrigger.actuator_activated = refl
trigger_at-bosch_trigger_column BoschTrigger.actuator_finished = refl

is_duplicate-equal : (a b : BoschTriggerEvent) → is_duplicate a b ≡ true → a ≡ b
is_duplicate-equal a b h =
    let t : a.tick ≡ b.tick = ground (arith, h) in
    let c : bosch_trigger_column a.trigger ≡ bosch_trigger_column b.trigger = ground (arith, h) in
    let e : a.trigger ≡ b.trigger =
      sym (trigger_at-bosch_trigger_column a.trigger)
      ∙ ap trigger_at c
      ∙ trigger_at-bosch_trigger_column b.trigger in
    ap (λ t. record { tick = t; trigger = a.trigger }) t
    ∙ ap (λ (x : BoschTrigger). record { tick = b.tick; trigger = x }) e

-- The sorted entries without those that repeat the one before are strictly ascending.
unique_after-Chain :
    (last : BoschTriggerEvent) (entries : List BoschTriggerEvent)
    → Chain PulseLe (last ∷ entries)
    → Chain PulseLt (last ∷ unique_after last entries)
unfolding unique_after
unique_after-Chain last [] c = (tt, tt)
unique_after-Chain last (x ∷ xs) ((le, les), (ls, c)) = elim (Bool-cases (is_duplicate last x)) [
  | inl e ↦ rw e (unique_after-Chain last xs (les, c))
  | inr e ↦
      let rest = unique_after-Chain x xs (ls, c) in
      let lt : PulseLt last x = ground (arith, e, le) in
      rw e (
        (
          lt,
          All-map (PulseLt x) (PulseLt last) (λ y k. ground (arith, lt, k)) (unique_after x xs)
              rest.0,
        ),
        rest,
      )
]

unique-Chain :
    (entries : List BoschTriggerEvent) → Chain PulseLe entries → Chain PulseLt (unique entries)
unique-Chain [] c = tt
unique-Chain (x ∷ xs) c = unique_after-Chain x xs c

In-unique_after :
    (pulse last : BoschTriggerEvent) (entries : List BoschTriggerEvent)
    → In pulse (unique_after last entries)
    → In pulse entries
unfolding unique_after
In-unique_after pulse last [] h = absurd h
In-unique_after pulse last (x ∷ xs) h = elim (Bool-cases (is_duplicate last x)) [
  | inl e ↦ inr (In-unique_after pulse last xs (rw e at h))
  | inr e ↦
      let k : (x ≡ pulse) ⊎ In pulse (unique_after x xs) = rw e at h in
      elim k [ inl same ↦ inl same | inr later ↦ inr (In-unique_after pulse x xs later) ]
]

unique_after-In :
    (pulse last : BoschTriggerEvent) (entries : List BoschTriggerEvent)
    → In pulse entries
    → In pulse (last ∷ unique_after last entries)
unfolding unique_after
unique_after-In pulse last [] h = absurd h
unique_after-In pulse last (x ∷ xs) h = elim (Bool-cases (is_duplicate last x)) [
  | inl e ↦ rw e (elim h [
    | inl same ↦ inl (is_duplicate-equal last x e ∙ same)
    | inr later ↦ unique_after-In pulse last xs later
  ])
  | inr e ↦
      rw e (inr (elim h [ inl same ↦ inl same | inr later ↦ unique_after-In pulse x xs later ]))
]

In-unique :
    (pulse : BoschTriggerEvent) (entries : List BoschTriggerEvent)
    → In pulse (unique entries) ↔ In pulse entries
In-unique pulse [] = ((λ h. h), (λ h. h))
In-unique pulse (x ∷ xs) = (
  (λ h. elim h [ inl same ↦ inl same | inr later ↦ inr (In-unique_after pulse x xs later) ]),
  (λ h. elim h [ inl same ↦ inl same | inr later ↦ unique_after-In pulse x xs later ]),
)

pub normalize-Chain : (entries : List BoschTriggerEvent) → Chain PulseLt (normalize entries)
unfolding normalize
normalize-Chain entries = unique-Chain (sort trigger_before entries) (
    sort-Chain trigger_before (λ _ _. Unit {0}) PulseLe (λ a b _ h. ground (arith, h))
      (λ a b _ h. ground (arith, h)) (λ a b c h k. ground (arith, h, k)) entries (every entries))
  where
    all : (x : BoschTriggerEvent) (xs : List BoschTriggerEvent) → All (λ _. Unit {0}) xs
    all x [] = tt
    all x (y ∷ ys) = (tt, all x ys)

    every : (xs : List BoschTriggerEvent) → Chain (λ _ _. Unit {0}) xs
    every [] = tt
    every (x ∷ xs) = (all x xs, every xs)

pub In-normalize :
    (pulse : BoschTriggerEvent) (entries : List BoschTriggerEvent)
    → In pulse (normalize entries) ↔ In pulse entries
unfolding normalize
In-normalize pulse entries =
    let u = In-unique pulse (sort trigger_before entries) in
    let s = In-sort trigger_before pulse entries in ((λ m. s.0 (u.0 m)), (λ m. u.1 (s.1 m)))
