-- ===== src/Functional.antt =====
-- src/cpssim/functional/functional_model.hpp, functional_runtime.hpp and functional_runtime.cpp: the
-- clock of an external model and the replay of a trace through it. A model is a record of functions on
-- its own state `S`; `R` stands for the floating-point values, of which only the test for a finite
-- value is used.
pub mod Rows
pub mod History
pub mod Replay
pub mod Mock
mod Examples
use cpssim.Base.{
  ℕ, String, ◌+◌, ◌-◌, Bool, true, false, not, ◌&&◌, ◌||◌, Option, none, some, List, [], ◌∷◌, ◌++◌,
  Result, ok, err, invalid_argument, logic_error, ◌>>=◌, ◌>>◌, throw_if, ℤ, nonnegative, positive,
  ltb, leb, ◌==◌, if◌then◌else◌, length,
}
use text.Mathlib.Text.{◌==◌ as str_eq}
use cpssim.Specs.{no_text}
use cpssim.Config.{any}
use cpssim.Event.{Event}

pub record FunctionalRealSignal (R : Type 0) : Type 0 where
  pub name : String
  pub value : R

pub record FunctionalIntegerSignal : Type 0 where
  pub name : String
  pub value : ℤ

pub record FunctionalBooleanSignal : Type 0 where
  pub name : String
  pub value : Bool

pub record FunctionalObservation (R : Type 0) : Type 0 where
  pub tick : ℕ
  pub real_signals : List (FunctionalRealSignal R)
  pub integer_signals : List FunctionalIntegerSignal
  pub boolean_signals : List FunctionalBooleanSignal

-- The interface FunctionalModel, on the state of an implementation.
pub record FunctionalModel (R S : Type 0) : Type 0 where
  pub initialize : S → ℕ → ℕ → Result (FunctionalObservation R × S)
  pub advance_to : S → ℕ → Result (List (FunctionalObservation R) × S)
  pub apply_actions : S → ℕ → List Event → Result S
  pub finalize : S → Result S

pub record FunctionalRuntime (R S : Type 0) : Type 0 where
  pub model : S
  pub tick_period : ℕ
  pub stop_tick : ℕ
  pub current_tick : ℕ
  pub initialized : Bool
  pub finalized : Bool
  pub actions_applied_at_current_tick : Bool
  pub trace : List (FunctionalObservation R)

-- `names.insert(name).second`, as a check that returns the larger set.
abbrev pub insert_name : List String → String → Result (List String)
insert_name names name =
    if no_text name || any (str_eq name) names then err logic_error else ok (name ∷ names)

unfoldable pub check_integers : List String → List FunctionalIntegerSignal → Result (List String)
check_integers names [] = ok names
check_integers names (signal ∷ signals) = do
  names' ← insert_name names signal.name
  check_integers names' signals

unfoldable pub check_booleans : List String → List FunctionalBooleanSignal → Result (List String)
check_booleans names [] = ok names
check_booleans names (signal ∷ signals) = do
  names' ← insert_name names signal.name
  check_booleans names' signals

-- The loop of validate_replay_trace, with the tick of the event before the current one.
unfoldable pub check_replay : ℕ → Option ℕ → List Event → Result (Unit {0})
check_replay stop_tick previous [] = ok tt
check_replay stop_tick previous (event ∷ events) = do
  throw_if (ltb stop_tick event.tick) invalid_argument
  throw_if (elim previous [ none ↦ false | some tick ↦ ltb event.tick tick ]) invalid_argument
  check_replay stop_tick (some event.tick) events

unfoldable pub validate_replay_trace : List Event → ℕ → Result (Unit {0})
unfolding check_replay
validate_replay_trace trace stop_tick = check_replay stop_tick none trace

-- The events of one tick that stand side by side in the trace.
pub record Batch : Type 0 where
  pub tick : ℕ
  pub actions : List Event

abbrev pub add_to_batches : Event → List Batch → List Batch
add_to_batches event [] = record { tick = event.tick; actions = event ∷ [] } ∷ []
add_to_batches event (batch ∷ batches) =
    if batch.tick == event.tick
    then record batch { actions = event ∷ batch.actions } ∷ batches
    else record { tick = event.tick; actions = event ∷ [] } ∷ batch ∷ batches

-- The batches that the two loops of the replay cut the trace into.
unfoldable pub batches_of : List Event → List Batch
batches_of [] = []
batches_of (event ∷ events) = add_to_batches event (batches_of events)

-- Some action is not of the tick.
abbrev pub has_other_tick : ℕ → List Event → Bool
has_other_tick tick actions = any (λ event. not (event.tick == tick)) actions

module _ {R : Type 0} (is_finite : R → Bool) where
  unfoldable pub check_reals : List String → List (FunctionalRealSignal R) → Result (List String)
  check_reals names [] = ok names
  check_reals names (signal ∷ signals) = do
    throw_if (not (is_finite signal.value)) logic_error
    names' ← insert_name names signal.name
    check_reals names' signals

  unfoldable pub validate_observation : FunctionalObservation R → ℕ → Result (Unit {0})
  unfolding check_reals check_integers check_booleans
  validate_observation observation expected_tick = do
    throw_if (not (observation.tick == expected_tick)) logic_error
    reals ← check_reals [] observation.real_signals
    integers ← check_integers reals observation.integer_signals
    booleans ← check_booleans integers observation.boolean_signals
    ok tt

  -- The loop over the rows that the model returned, the first of which is due at the tick.
  unfoldable pub validate_rows : ℕ → List (FunctionalObservation R) → Result (Unit {0})
  unfolding validate_observation
  validate_rows tick [] = ok tt
  validate_rows tick (row ∷ rows) = do validate_observation row tick; validate_rows (tick + 1) rows

  module _ {S : Type 0} (model : FunctionalModel R S) where
    -- The constructor of FunctionalRuntime, around a model in the state given.
    unfoldable pub new_runtime : S → ℤ → ℤ → Result (FunctionalRuntime R S)
    new_runtime state tick_period stop_tick = do
      period ← positive tick_period invalid_argument
      stop ← nonnegative stop_tick invalid_argument
      ok (record {
        model = state;
        tick_period = period;
        stop_tick = stop;
        current_tick = 0;
        initialized = false;
        finalized = false;
        actions_applied_at_current_tick = false;
        trace = [];
      })

    unfoldable pub initialize : FunctionalRuntime R S → Result (FunctionalRuntime R S)
    unfolding validate_observation
    initialize runtime = do
      throw_if runtime.initialized logic_error
      (row, state) ← model.initialize runtime.model runtime.tick_period runtime.stop_tick
      validate_observation row 0
      ok (record runtime { model = state; initialized = true; trace = runtime.trace ++ row ∷ [] })

    unfoldable pub advance_to : FunctionalRuntime R S → ℕ → Result (FunctionalRuntime R S)
    unfolding validate_rows
    advance_to runtime target_tick = do
      throw_if (not runtime.initialized || runtime.finalized) logic_error
      throw_if (ltb target_tick runtime.current_tick || ltb runtime.stop_tick target_tick)
          invalid_argument
      if target_tick == runtime.current_tick then ok runtime else (do
        (rows, state) ← model.advance_to runtime.model target_tick
        throw_if (not (length rows == target_tick - runtime.current_tick)) logic_error
        validate_rows (runtime.current_tick + 1) rows
        ok (record runtime {
          model = state;
          current_tick = target_tick;
          actions_applied_at_current_tick = false;
          trace = runtime.trace ++ rows;
        }))

    unfoldable pub apply_actions :
        FunctionalRuntime R S → ℕ → List Event → Result (FunctionalRuntime R S)
    apply_actions runtime tick actions = do
      throw_if (not runtime.initialized || runtime.finalized) logic_error
      throw_if (not (tick == runtime.current_tick)) logic_error
      throw_if runtime.actions_applied_at_current_tick logic_error
      throw_if (has_other_tick tick actions) logic_error
      state ← model.apply_actions runtime.model tick actions
      ok (record runtime { model = state; actions_applied_at_current_tick = true })

    unfoldable pub finalize : FunctionalRuntime R S → Result (FunctionalRuntime R S)
    finalize runtime = do
      throw_if (not runtime.initialized || runtime.finalized) logic_error
      throw_if (not (runtime.current_tick == runtime.stop_tick)) logic_error
      state ← model.finalize runtime.model
      ok (record runtime { model = state; finalized = true })

    -- The loop of replay_functional_trace.
    unfoldable pub replay_batches :
        List Batch → FunctionalRuntime R S → Result (FunctionalRuntime R S)
    unfolding advance_to apply_actions
    replay_batches [] runtime = ok runtime
    replay_batches (batch ∷ batches) runtime = do
      advanced ← advance_to runtime batch.tick
      applied ← apply_actions advanced batch.tick batch.actions
      replay_batches batches applied

    unfoldable pub replay_functional_trace :
        S → ℤ → ℤ → List Event → Result (List (FunctionalObservation R))
    unfolding validate_replay_trace new_runtime initialize replay_batches batches_of advance_to
        finalize
    replay_functional_trace state tick_period stop_tick trace = do
      runtime ← new_runtime state tick_period stop_tick
      validate_replay_trace trace runtime.stop_tick
      started ← initialize runtime
      replayed ← replay_batches (batches_of trace) started
      advanced ← advance_to replayed replayed.stop_tick
      finished ← finalize advanced
      ok finished.trace
