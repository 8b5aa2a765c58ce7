-- ===== src/Engine/Batch.antt =====
-- The batch of releases of a tick: the parts of SimulationEngine::process_release_batch.
use cpssim.Base.{
  ◌⊎◌, In, All-In, All-map, All-tabulate, All-sort, ap, refl, ℕ, ◌<◌, ◌≡◌, sym, subst, inl, inr,
  true, List, [], ◌∷◌, ◌++◌, ok, Result-cases, arith, All, All-append, map, map-All, sort, sort-All,
}
use cpssim.Event.{Event}
use cpssim.Queue.{EventQueue, pop_next}
use cpssim.Network.{required}
use cpssim.Release.{PeriodicReleaseModel, task_for}
use cpssim.Kernel.{
  Kernel, process_pre_scheduling_event, process_all, KeyedRelease, keyed_release, keyed_releases,
  sort_releases, release_before, collect_release, process_releases,
}
use cpssim.Engine.{count_at, is_at}
use cpssim.Engine.Timely.{IsTimely, Keeps}
use cpssim.Engine.Handlers.{
  IsReady, IsTraced, Keeps-append, In-last, process_pre_scheduling_event-Handled,
}
use cpssim.Engine.Front.{pop_next-front}

module _ (tick : ℕ) where
  -- The events are handled one after the other.
  pub record AllHandled (events : List Event) (kernel kernel' : Kernel) : Type 0 where
    pub ready : IsReady tick kernel'
    pub queued : Keeps kernel.queue.events kernel'.queue.events
    pub remembered : Keeps kernel.trace kernel'.trace
    pub recorded : All (λ (e : Event). IsTraced e → In e kernel'.trace) events

  process_all-AllHandled :
      (events : List Event) (kernel kernel' : Kernel)
      → IsReady tick kernel
      → All (λ (e : Event). e.tick ≡ tick) events
      → process_all kernel events ≡ ok kernel'
      → AllHandled events kernel kernel'
  process_all-AllHandled [] kernel kernel' r a h =
      let e : kernel ≡ kernel' = unfold process_all in ground arith in
      subst (AllHandled [] kernel) e
        (record { ready = r; queued = λ e m. m; remembered = λ e m. m; recorded = tt })
  process_all-AllHandled (event ∷ events) kernel kernel' r (here, a) h =
      elim (Result-cases (process_pre_scheduling_event kernel event)) [
        | inr (error, f) ↦ absurd (unfold process_all in ground (arith, f))
        | inl (k, f) ↦
            let d =
              process_pre_scheduling_event-Handled kernel event k
                (subst (λ t. IsReady t kernel) (sym here) r) f in
            let rest =
              process_all-AllHandled events k kernel' (subst (λ t. IsReady t k) here d.ready) a
                (unfold process_all in ground (arith, f)) in
            record {
              ready = rest.ready;
              queued = λ e m. rest.queued e (d.queued e m);
              remembered = λ e m. rest.remembered e (d.remembered e m);
              recorded = ((λ t. rest.remembered event (d.recorded t)), rest.recorded);
            }
      ]

  keyed_release-event :
      (releases : PeriodicReleaseModel) (event : Event) (key : KeyedRelease)
      → keyed_release releases event ≡ ok key
      → event ≡ key.event
  keyed_release-event releases event key h = elim (Result-cases (required event.entities.task_id)) [
    | inr (error, x) ↦ absurd (unfold keyed_release in ground (arith, x))
    | inl (id, x) ↦ elim (Result-cases (task_for releases.tasks id)) [
      | inr (error, y) ↦ absurd (unfold keyed_release in ground (arith, x, y))
      | inl (task, y) ↦ unfold keyed_release in ground (arith, x, y)
    ]
  ]

  keyed_releases-All :
      (P : Event → Type 0) (releases : PeriodicReleaseModel) (events : List Event)
      (keys : List KeyedRelease)
      → All P events
      → keyed_releases releases events ≡ ok keys
      → All (λ (key : KeyedRelease). P key.event) keys
  keyed_releases-All P releases [] keys a h =
      let e : keys ≡ [] = unfold keyed_releases in ground arith in rw e tt
  keyed_releases-All P releases (event ∷ events) keys (p, a) h =
      elim (Result-cases (keyed_release releases event)) [
        | inr (error, f) ↦ absurd (unfold keyed_releases in ground (arith, f))
        | inl (key, f) ↦ elim (Result-cases (keyed_releases releases events)) [
          | inr (error, g) ↦ absurd (unfold keyed_releases in ground (arith, f, g))
          | inl (rest, g) ↦
              let e : keys ≡ key ∷ rest = unfold keyed_releases in ground (arith, f, g) in
              rw e (
                subst P (keyed_release-event releases event key f) p,
                keyed_releases-All P releases events rest a g,
              )
        ]
      ]

  sort_releases-All :
      (P : Event → Type 0) (releases : PeriodicReleaseModel) (events sorted : List Event)
      → All P events
      → sort_releases releases events ≡ ok sorted
      → All P sorted
  sort_releases-All P releases [] sorted a h =
      let e : sorted ≡ [] = unfold sort_releases in ground arith in rw e tt
  sort_releases-All P releases (event ∷ []) sorted a h =
      let e : sorted ≡ event ∷ [] = unfold sort_releases in ground arith in rw e a
  sort_releases-All P releases (first ∷ second ∷ more) sorted a h =
      elim (Result-cases (keyed_releases releases (first ∷ second ∷ more))) [
        | inr (error, f) ↦ absurd (unfold sort_releases in ground (arith, f))
        | inl (keys, f) ↦
            let e : sorted ≡ map (λ key. key.event) (sort release_before keys) =
              unfold sort_releases in ground (arith, f) in
            rw e (
              map-All P (λ (key : KeyedRelease). key.event) (sort release_before keys)
                (sort-All release_before (λ (key : KeyedRelease). P key.event) keys
                  (keyed_releases-All P releases (first ∷ second ∷ more) keys a f)))
      ]

  keyed_releases-events :
      (P : Event → Type 0) (releases : PeriodicReleaseModel) (events : List Event)
      (keys : List KeyedRelease)
      → keyed_releases releases events ≡ ok keys
      → All (λ (key : KeyedRelease). P key.event) keys
      → All P events
  keyed_releases-events P releases [] keys h a = tt
  keyed_releases-events P releases (event ∷ events) keys h a =
      elim (Result-cases (keyed_release releases event)) [
        | inr (error, f) ↦ absurd (unfold keyed_releases in ground (arith, f))
        | inl (key, f) ↦ elim (Result-cases (keyed_releases releases events)) [
          | inr (error, g) ↦ absurd (unfold keyed_releases in ground (arith, f, g))
          | inl (rest, g) ↦
              let e : keys ≡ key ∷ rest = unfold keyed_releases in ground (arith, f, g) in
              let (p, ps) = subst (All (λ (key : KeyedRelease). P key.event)) e a in
              (
                subst P (sym (keyed_release-event releases event key f)) p,
                keyed_releases-events P releases events rest g ps,
              )
        ]
      ]

  In-events :
      (keys : List KeyedRelease) (key : KeyedRelease)
      → In key keys
      → In key.event (map (λ (k : KeyedRelease). k.event) keys)
  In-events [] key m = absurd m
  In-events (x ∷ keys) key (inl here) = inl (ap (λ (k : KeyedRelease). k.event) here)
  In-events (x ∷ keys) key (inr there) = inr (In-events keys key there)

  -- The sort loses no release.
  sort_releases-Keeps :
      (releases : PeriodicReleaseModel) (events sorted : List Event)
      → sort_releases releases events ≡ ok sorted
      → All (λ (e : Event). In e sorted) events
  sort_releases-Keeps releases [] sorted h = tt
  sort_releases-Keeps releases (event ∷ []) sorted h =
      let e : sorted ≡ event ∷ [] = unfold sort_releases in ground arith in rw e (inl refl, tt)
  sort_releases-Keeps releases (first ∷ second ∷ more) sorted h =
      elim (Result-cases (keyed_releases releases (first ∷ second ∷ more))) [
        | inr (error, f) ↦ absurd (unfold sort_releases in ground (arith, f))
        | inl (keys, f) ↦
            let shown : sorted ≡ map (λ key. key.event) (sort release_before keys) =
              unfold sort_releases in ground (arith, f) in
            keyed_releases-events (λ e. In e sorted) releases (first ∷ second ∷ more) keys f
              (All-sort release_before (λ (key : KeyedRelease). In key.event sorted) keys
                (All-tabulate (λ (key : KeyedRelease). In key.event sorted)
                  (sort release_before keys)
                  (λ key m.
                    subst (In key.event) (sym shown) (In-events (sort release_before keys) key m))))
      ]

  pub process_releases-AllHandled :
      (kernel : Kernel) (releases : List Event) (kernel' : Kernel)
      → IsReady tick kernel
      → All (λ (e : Event). e.tick ≡ tick) releases
      → process_releases kernel releases ≡ ok kernel'
      → AllHandled releases kernel kernel'
  process_releases-AllHandled kernel releases kernel' r a h =
      elim (Result-cases (sort_releases kernel.releases releases)) [
        | inr (error, f) ↦ absurd (unfold process_releases in ground (arith, f))
        | inl (sorted, f) ↦
            let d =
              process_all-AllHandled sorted kernel kernel' r
                (sort_releases-All (λ (e : Event). e.tick ≡ tick) kernel.releases releases sorted a
                  f)
                (unfold process_releases in ground (arith, f)) in
            record {
              ready = d.ready;
              queued = d.queued;
              remembered = d.remembered;
              recorded =
                  All-map (λ (e : Event). In e sorted)
                    (λ (e : Event). IsTraced e → In e kernel'.trace)
                    (λ e m.
                      All-In (λ (e : Event). IsTraced e → In e kernel'.trace) e sorted d.recorded m)
                    releases (sort_releases-Keeps kernel.releases releases sorted f);
            }
      ]

  -- The queue while the releases of the tick are taken out of it: no event of `base` is lost.
  unfoldable pub Collected : EventQueue → EventQueue × List Event → Type 0
  Collected base (queue, releases) =
      IsTimely tick queue
      × All (λ (e : Event). e.tick ≡ tick) releases
      × ((e : Event) → In e base.events → In e queue.events ⊎ In e releases)

  pub collect_release-Collected :
      (base : EventQueue) (s t : EventQueue × List Event)
      → Collected base s
      → is_at tick s.0 ≡ true
      → collect_release s ≡ ok t
      → Collected base t × (count_at tick t.0.events < count_at tick s.0.events)
  unfolding Collected
  collect_release-Collected base (queue, releases) t (v, a, kept) here h =
      elim (Result-cases (pop_next queue)) [
        | inr (error, f) ↦ absurd (unfold collect_release in ground (arith, f))
        | inl ((event, q), f) ↦
            let (k, at_tick, c, split) = pop_next-front tick queue event q v here f in
            let e : (q, releases ++ event ∷ []) ≡ t = unfold collect_release in ground (arith, f) in
            subst
              (λ (t : EventQueue × List Event).
                Collected base t × (count_at tick t.0.events < count_at tick queue.events))
              e
              (
                (
                  k,
                  All-append (λ (e : Event). e.tick ≡ tick) releases (event ∷ []) a (at_tick, tt),
                  (λ e m. elim (kept e m) [
                    | inl waits ↦ elim (subst (In e) split waits) [
                      | inl own ↦
                          inr (
                            subst (λ x. In x (releases ++ event ∷ [])) own (In-last event releases))
                      | inr later ↦ inl later
                    ]
                    | inr taken ↦ inr (Keeps-append event releases e taken)
                  ]),
                ),
                omega (arith, c),
              )
      ]
