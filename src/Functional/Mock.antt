-- ===== src/Functional/Mock.antt =====
-- src/cpssim/functional/mock_functional_model.hpp and mock_functional_model.cpp: the model without an
-- external runtime, as an implementation of FunctionalModel. Floating-point numbers are a parameter.
use cpssim.Base.{
  ℕ, zero, suc, ◌+◌, ◌-◌, ◌%◌, ◌^◌, ◌≤◌, ◌<◌, ◌≡◌, refl, Bool, true, false, not, ◌||◌, List, [],
  ◌∷◌, Result, ok, invalid_argument, logic_error, ◌>>◌, throw_if, arith, ltb, leb, ◌==◌, length,
  subst,
}
use cpssim.Event.{Event}
use cpssim.Functional.{FunctionalModel, FunctionalObservation, validate_observation, validate_rows}
use cpssim.Functional.Replay.{IsLawful}

-- What the mock uses of `double`: std::isfinite, `+`, and the conversion of a count.
pub record Floating (R : Type 0) : Type 0 where
  pub is_finite : R → Bool
  pub add : R → R → R
  pub of_count : ℕ → R

pub record MockFunctionalModel (R : Type 0) : Type 0 where
  pub state : R
  pub stop_tick : ℕ
  pub current_tick : ℕ
  pub pending_action_count : ℕ
  pub initialized : Bool
  pub finalized : Bool

module _ {R : Type 0} (floating : Floating R) where
  unfoldable pub new_mock : R → Result (MockFunctionalModel R)
  new_mock initial_state = do
    throw_if (not (floating.is_finite initial_state)) invalid_argument
    ok (record {
      state = initial_state;
      stop_tick = 0;
      current_tick = 0;
      pending_action_count = 0;
      initialized = false;
      finalized = false;
    })

  abbrev pub observation : MockFunctionalModel R → FunctionalObservation R
  observation mock = record {
    tick = mock.current_tick;
    real_signals = record { name = "mock_state"; value = mock.state } ∷ [];
    integer_signals = [];
    boolean_signals = [];
  }

  unfoldable pub start :
      MockFunctionalModel R → ℕ → ℕ → Result (FunctionalObservation R × MockFunctionalModel R)
  start mock tick_period stop_tick = do
    throw_if mock.initialized logic_error
    throw_if (leb tick_period 0) invalid_argument
    let mock' = record mock { stop_tick = stop_tick; initialized = true }
    ok (observation mock', mock')

  -- The body of the loop of advance_to.
  abbrev pub tick_once : MockFunctionalModel R → MockFunctionalModel R
  tick_once mock = record mock {
    state = floating.add mock.state (floating.of_count mock.pending_action_count);
    pending_action_count = 0;
    current_tick = mock.current_tick + 1;
  }

  -- The loop of advance_to, with the number of ticks left.
  unfoldable pub tick_times :
      ℕ → MockFunctionalModel R → List (FunctionalObservation R) × MockFunctionalModel R
  tick_times zero mock = ([], mock)
  tick_times (suc left) mock =
      let next = tick_once mock in
      let (rows, last) = tick_times left next in (observation next ∷ rows, last)

  unfoldable pub advance :
      MockFunctionalModel R → ℕ → Result (List (FunctionalObservation R) × MockFunctionalModel R)
  unfolding tick_times
  advance mock target_tick = do
    throw_if (not mock.initialized || mock.finalized) logic_error
    throw_if (ltb target_tick mock.current_tick || ltb mock.stop_tick target_tick) invalid_argument
    ok (tick_times (target_tick - mock.current_tick) mock)

  unfoldable pub store_actions :
      MockFunctionalModel R → ℕ → List Event → Result (MockFunctionalModel R)
  store_actions mock tick actions = do
    throw_if (not mock.initialized || mock.finalized || not (tick == mock.current_tick)) logic_error
    ok (record mock { pending_action_count = length actions % 2 ^ 64 })

  unfoldable pub end : MockFunctionalModel R → Result (MockFunctionalModel R)
  end mock = do
    throw_if (not mock.initialized || mock.finalized || not (mock.current_tick == mock.stop_tick))
        logic_error
    ok (record mock { finalized = true })

  abbrev pub mock_functional_model : FunctionalModel R (MockFunctionalModel R)
  mock_functional_model = record {
    initialize = start;
    advance_to = advance;
    apply_actions = store_actions;
    finalize = end;
  }

  -- A mock before and in its run.
  pub record IsFresh (mock : MockFunctionalModel R) : Type 0 where
    pub not_initialized : mock.initialized ≡ false
    pub not_finalized : mock.finalized ≡ false
    pub at_zero : mock.current_tick ≡ 0
    pub finite : floating.is_finite mock.state ≡ true
    pub bounded : mock.pending_action_count < 2 ^ 64

  pub record IsAt (stop : ℕ) (mock : MockFunctionalModel R) (n : ℕ) : Type 0 where
    pub initialized : mock.initialized ≡ true
    pub not_finalized : mock.finalized ≡ false
    pub stop_eq : mock.stop_tick ≡ stop
    pub tick_eq : mock.current_tick ≡ n
    pub finite : floating.is_finite mock.state ≡ true
    pub bounded : mock.pending_action_count < 2 ^ 64

  observation-valid :
      (mock : MockFunctionalModel R) (n : ℕ)
      → mock.current_tick ≡ n
      → floating.is_finite mock.state ≡ true
      → validate_observation floating.is_finite (observation mock) n ≡ ok tt
  unfolding validate_observation
  observation-valid mock n t f = ground (arith, t, f)

  -- Adding a count to a finite value gives a finite one: a size_t is below the distance that a
  -- rounded sum of IEEE doubles needs to leave the finite range.
  module _
      (stays_finite : (x : R) (n : ℕ)
        → floating.is_finite x ≡ true
        → n < 2 ^ 64
        → floating.is_finite (floating.add x (floating.of_count n)) ≡ true) where
    tick_once-IsAt :
        (stop n : ℕ) (mock : MockFunctionalModel R)
        → IsAt stop mock n
        → IsAt stop (tick_once mock) (n + 1)
    tick_once-IsAt stop n mock v = record {
      initialized = v.initialized;
      not_finalized = v.not_finalized;
      stop_eq = v.stop_eq;
      tick_eq = omega (arith, v.tick_eq);
      finite = stays_finite mock.state mock.pending_action_count v.finite v.bounded;
      bounded = omega arith;
    }

    tick_times-valid :
        (stop n left : ℕ) (mock : MockFunctionalModel R)
        → IsAt stop mock n
        → let (rows, last) = tick_times left mock in
          (length rows ≡ left)
          × (validate_rows floating.is_finite (n + 1) rows ≡ ok tt)
          × IsAt stop last (n + left)
    tick_times-valid stop n zero mock v =
        unfold tick_times validate_rows in (refl, refl, subst (IsAt stop mock) (omega arith) v)
    tick_times-valid stop n (suc left) mock v =
        let next = tick_once-IsAt stop n mock v in
        let (c, d, e) = tick_times-valid stop (n + 1) left (tick_once mock) next in
        step c d e (observation-valid (tick_once mock) (n + 1) next.tick_eq next.finite)
      where
        step :
            (length (tick_times left (tick_once mock)).0 ≡ left)
            → (validate_rows floating.is_finite (n + 1 + 1) (tick_times left (tick_once mock)).0
                ≡ ok tt)
            → IsAt stop (tick_times left (tick_once mock)).1 (n + 1 + left)
            → validate_observation floating.is_finite (observation (tick_once mock)) (n + 1) ≡ ok tt
            → let (rows, last) = tick_times (suc left) mock in
              (length rows ≡ suc left)
              × (validate_rows floating.is_finite (n + 1) rows ≡ ok tt)
              × IsAt stop last (n + suc left)
        step c d e o =
            unfold tick_times validate_rows in
            (
              omega (arith, c),
              ground (arith, o, d),
              subst (IsAt stop (tick_times left (tick_once mock)).1) (omega arith) e,
            )

    advance_lawful :
        (stop : ℕ) (mock : MockFunctionalModel R) (n target : ℕ)
        → IsAt stop mock n
        → n < target
        → target ≤ stop
        → (rows : List (FunctionalObservation R)) × (last : MockFunctionalModel R) × (advance mock
              target
            ≡ ok (rows, last))
          × (length rows ≡ target - n)
          × (validate_rows floating.is_finite (n + 1) rows ≡ ok tt)
          × IsAt stop last target
    advance_lawful stop mock n target v lt le =
        let (c, d, e) = tick_times-valid stop n (target - n) mock v in
        (
          (tick_times (target - n) mock).0,
          (tick_times (target - n) mock).1,
          unfold advance in ground (arith, v.initialized, v.not_finalized, v.stop_eq, v.tick_eq),
          c,
          d,
          subst (IsAt stop (tick_times (target - n) mock).1) (omega (arith, lt)) e,
        )

    -- The mock model keeps the contract of the interface: it starts with the row of tick 0, returns one
    -- valid row for each tick that it is asked to advance, takes actions at its tick, and ends at the
    -- stop tick.
    pub mock_functional_model-IsLawful :
        IsLawful floating.is_finite mock_functional_model IsFresh IsAt
    mock_functional_model-IsLawful = record {
      starts = λ s period stop f p. (
        observation (record s { stop_tick = stop; initialized = true }),
        record s { stop_tick = stop; initialized = true },
        unfold start in ground (arith, f.not_initialized),
        observation-valid (record s { stop_tick = stop; initialized = true }) 0 f.at_zero f.finite,
        record {
          initialized = refl;
          not_finalized = f.not_finalized;
          stop_eq = refl;
          tick_eq = f.at_zero;
          finite = f.finite;
          bounded = f.bounded;
        },
      );
      advances = advance_lawful;
      applies = λ stop s n actions v. (
        record s { pending_action_count = length actions % 2 ^ 64 },
        unfold store_actions in ground (arith, v.initialized, v.not_finalized, v.tick_eq),
        record {
          initialized = v.initialized;
          not_finalized = v.not_finalized;
          stop_eq = v.stop_eq;
          tick_eq = v.tick_eq;
          finite = v.finite;
          bounded = omega arith;
        },
      );
      ends = λ stop s v. (
        record s { finalized = true },
        unfold end in ground (arith, v.initialized, v.not_finalized, v.stop_eq, v.tick_eq),
      );
    }
