-- ===== src/TriggerEncoder/Pulses.antt =====
-- What the encoding of a trace consists of: encode_bosch_v10_triggers.
use cpssim.Base.{
  ◌≡◌, ◌↔◌, refl, sym, ap, subst, ◌∙◌, inl, inr, Option, none, some, List, [], ◌∷◌, ok,
  Result-cases, arith, Any, All-In, In, Chain,
}
use cpssim.Event.{Event}
use cpssim.TriggerEncoder.{
  BoschTriggerEvent, encode_event, encode_events, add_entry, normalize, encode_bosch_v10_triggers,
}
use cpssim.TriggerEncoder.Normal.{PulseLt, normalize-Chain, In-normalize}

-- The event gives the pulse.
abbrev pub Gives : BoschTriggerEvent → Event → Type 0
Gives pulse event = encode_event event ≡ ok (some pulse)

In-encode_events :
    (pulse : BoschTriggerEvent) (trace : List Event) (encoded : List BoschTriggerEvent)
    → encode_events trace ≡ ok encoded
    → In pulse encoded ↔ Any (Gives pulse) trace
In-encode_events pulse [] encoded h =
    let e : encoded ≡ [] = unfold encode_events in ground arith in rw e ((λ m. m), (λ m. m))
In-encode_events pulse (event ∷ trace) encoded h = elim (Result-cases (encode_event event)) [
  | inr (error, f) ↦ absurd (unfold encode_events in ground (arith, f))
  | inl (entry, f) ↦ elim (Result-cases (encode_events trace)) [
    | inr (error, g) ↦ absurd (unfold encode_events in ground (arith, f, g))
    | inl (rest, g) ↦
        let e : encoded ≡ add_entry entry rest = unfold encode_events in ground (arith, f, g) in
        subst (λ l. In pulse l ↔ Any (Gives pulse) (event ∷ trace)) (sym e)
          (added entry f rest (In-encode_events pulse trace rest g))
  ]
]
  where
    added :
        (entry : Option BoschTriggerEvent)
        → encode_event event ≡ ok entry
        → (rest : List BoschTriggerEvent) → In pulse rest ↔ Any (Gives pulse) trace
        → In pulse (add_entry entry rest) ↔ Any (Gives pulse) (event ∷ trace)
    added none f rest k = (
      (λ m. inr (k.0 m)),
      (λ a. elim a [ inl given ↦ absurd (ground (arith, f, given)) | inr later ↦ k.1 later ]),
    )
    added (some x) f rest k = (
      (λ m. elim m [
        | inl same ↦ inl (subst (λ p. encode_event event ≡ ok (some p)) same f)
        | inr later ↦ inr (k.0 later)
      ]),
      (λ a. elim a [ inl given ↦ inl (ground (arith, f, given)) | inr later ↦ inr (k.1 later) ]),
    )

-- The pulses of a trace are in the order of their ticks and, within a tick, of their columns, none
-- stands twice, and a pulse is among them exactly if some event of the trace gives it.
pub encode_bosch_v10_triggers-pulses :
    (trace : List Event) (pulses : List BoschTriggerEvent)
    → encode_bosch_v10_triggers trace ≡ ok pulses
    → Chain PulseLt pulses
      × ((pulse : BoschTriggerEvent) → In pulse pulses ↔ Any (Gives pulse) trace)
encode_bosch_v10_triggers-pulses trace pulses h = elim (Result-cases (encode_events trace)) [
  | inr (error, f) ↦ absurd (unfold encode_bosch_v10_triggers in ground (arith, f))
  | inl (encoded, f) ↦
      let e : pulses ≡ normalize encoded = unfold encode_bosch_v10_triggers in ground (arith, f) in
      rw e (
        normalize-Chain encoded,
        (λ pulse.
            let k = In-encode_events pulse trace encoded f in
            let n = In-normalize pulse encoded in ((λ m. k.0 (n.0 m)), (λ a. n.1 (k.1 a)))),
      )
]

-- Ascending lists with the same entries are equal.
ascending_unique :
    (xs ys : List BoschTriggerEvent)
    → Chain PulseLt xs
    → Chain PulseLt ys
    → ((pulse : BoschTriggerEvent) → In pulse xs ↔ In pulse ys)
    → xs ≡ ys
ascending_unique [] [] c d h = refl
ascending_unique [] (y ∷ ys) c d h = absurd ((h y).1 (inl refl))
ascending_unique (x ∷ xs) [] c d h = absurd ((h x).0 (inl refl))
ascending_unique (x ∷ xs) (y ∷ ys) (ls, c) (ms, d) h =
    let e : x ≡ y = elim ((h x).0 (inl refl)) [
      | inl same ↦ sym same
      | inr later ↦
          let lt = All-In (PulseLt y) x ys ms later in
          elim ((h y).1 (inl refl)) [
            | inl same ↦ same
            | inr also ↦ let gt = All-In (PulseLt x) y xs ls also in absurd (ground (arith, lt, gt))
          ]
    ] in
    ap2 e (
      ascending_unique xs ys c d (λ pulse. (
        (λ m. elim ((h pulse).0 (inr m)) [
          | inl same ↦
              let lt : PulseLt pulse pulse =
                subst (λ p. PulseLt p pulse) (e ∙ same) (All-In (PulseLt x) pulse xs ls m) in
              absurd (ground (arith, lt))
          | inr later ↦ later
        ]),
        (λ m. elim ((h pulse).1 (inr m)) [
          | inl same ↦
              let lt : PulseLt pulse pulse =
                subst (λ p. PulseLt p pulse) (sym e ∙ same) (All-In (PulseLt y) pulse ys ms m) in
              absurd (ground (arith, lt))
          | inr later ↦ later
        ]),
      )))
  where
    ap2 :
        {x y : BoschTriggerEvent} {xs ys : List BoschTriggerEvent}
        → x ≡ y
        → xs ≡ ys
        → x ∷ xs ≡ y ∷ ys
    ap2 {x} {y} {xs} e f = ap (λ z. z ∷ xs) e ∙ ap (λ zs. y ∷ zs) f

In-Any :
    (P : Event → Type 0) (event : Event) (trace : List Event)
    → In event trace
    → P event
    → Any P trace
In-Any P event [] m p = absurd m
In-Any P event (x ∷ xs) (inl same) p = inl (subst P (sym same) p)
In-Any P event (x ∷ xs) (inr later) p = inr (In-Any P event xs later p)

Any-In :
    (P : Event → Type 0) (trace trace' : List Event)
    → ((event : Event) → In event trace → In event trace')
    → Any P trace
    → Any P trace'
Any-In P [] trace' sub a = absurd a
Any-In P (x ∷ xs) trace' sub (inl p) = In-Any P x trace' (sub x (inl refl)) p
Any-In P (x ∷ xs) trace' sub (inr a) = Any-In P xs trace' (λ e m. sub e (inr m)) a

-- The pulses do not depend on the order of the events: two traces that hold the same events and are both
-- accepted have the same pulses.
pub encode_bosch_v10_triggers_order_independent :
    (trace trace' : List Event) (pulses pulses' : List BoschTriggerEvent)
    → ((event : Event) → In event trace ↔ In event trace')
    → encode_bosch_v10_triggers trace ≡ ok pulses
    → encode_bosch_v10_triggers trace' ≡ ok pulses'
    → pulses ≡ pulses'
encode_bosch_v10_triggers_order_independent trace trace' pulses pulses' same h k =
    let (c, m) = encode_bosch_v10_triggers-pulses trace pulses h in
    let (d, n) = encode_bosch_v10_triggers-pulses trace' pulses' k in
    ascending_unique pulses pulses' c d (λ pulse. (
      (λ i. (n pulse).1 (Any-In (Gives pulse) trace trace' (λ e. (same e).0) ((m pulse).0 i))),
      (λ i. (m pulse).1 (Any-In (Gives pulse) trace' trace (λ e. (same e).1) ((n pulse).0 i))),
    ))
