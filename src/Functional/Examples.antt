-- ===== src/Functional/Examples.antt =====
-- The theorems on functional runs at concrete inputs, with numbers for the floating-point values.
use cpssim.Base.{ℕ, ◌+◌, ◌≡◌, refl, Bool, true, false, none, some, List, [], ◌∷◌, ok, pos, arith}
use cpssim.Event.{Event, EventPhase, EventType}
use cpssim.Functional.{
  FunctionalModel, FunctionalObservation, FunctionalRuntime, new_runtime, initialize, advance_to,
  replay_functional_trace,
}
use cpssim.Functional.Rows.{IsRecorded}
use cpssim.Functional.History.{builds, begins, advances, History-IsRecorded}
use cpssim.Functional.Replay.{IsLawful, replay_functional_trace_total}
use cpssim.Functional.Mock.{
  Floating, MockFunctionalModel, mock_functional_model, IsFresh, IsAt,
  mock_functional_model-IsLawful, start, advance, store_actions, end,
}

abbrev numbers : Floating ℕ
numbers = record { is_finite = λ x. true; add = λ x y. x + y; of_count = λ n. n }

abbrev always : ℕ → Bool
always = numbers.is_finite

abbrev model : FunctionalModel ℕ (MockFunctionalModel ℕ)
model = mock_functional_model numbers

abbrev mock : MockFunctionalModel ℕ
mock = record {
  state = 5;
  stop_tick = 0;
  current_tick = 0;
  pending_action_count = 0;
  initialized = false;
  finalized = false;
}

mock-IsFresh : IsFresh numbers mock
mock-IsFresh = record {
  not_initialized = refl;
  not_finalized = refl;
  at_zero = refl;
  finite = refl;
  bounded = omega arith;
}

mock_functional_model-IsLawful_example : IsLawful always model (IsFresh numbers) (IsAt numbers)
mock_functional_model-IsLawful_example = mock_functional_model-IsLawful numbers (λ x n f b. refl)

abbrev event : Event
event = record {
  tick = 1;
  phase = EventPhase.scheduling;
  sequence = 0;
  type = EventType.job_start;
  entities = record {
    task_id = some 1;
    job_id = some 1;
    resource_id = some 1;
    message_id = none;
    vehicle_id = none;
  };
  cause_sequence = none;
}

replay_functional_trace_total_example :
    (rows : List (FunctionalObservation ℕ)) × (replay_functional_trace always model mock
        (pos 1)
        (pos 2)
        (event ∷ [])
      ≡ ok rows)
replay_functional_trace_total_example =
    replay_functional_trace_total always model (IsFresh numbers) (IsAt numbers)
      mock_functional_model-IsLawful_example mock 1 2 (event ∷ []) mock-IsFresh (omega arith)
      (tt, tt) (omega arith, tt)

abbrev row : ℕ → ℕ → FunctionalObservation ℕ
row tick value = record {
  tick = tick;
  real_signals = record { name = "mock_state"; value = value } ∷ [];
  integer_signals = [];
  boolean_signals = [];
}

-- The action of tick 1 is seen at tick 2.
replayed :
    replay_functional_trace always model mock (pos 1) (pos 2) (event ∷ [])
    ≡ ok (row 0 5 ∷ row 1 5 ∷ row 2 6 ∷ [])
unfolding replay_functional_trace start advance store_actions end
replayed = refl

abbrev built : FunctionalRuntime ℕ (MockFunctionalModel ℕ)
built = record {
  model = mock;
  tick_period = 1;
  stop_tick = 2;
  current_tick = 0;
  initialized = false;
  finalized = false;
  actions_applied_at_current_tick = false;
  trace = [];
}

abbrev started : FunctionalRuntime ℕ (MockFunctionalModel ℕ)
started = record built {
  model = record mock { stop_tick = 2; initialized = true };
  initialized = true;
  trace = row 0 5 ∷ [];
}

abbrev at_1 : FunctionalRuntime ℕ (MockFunctionalModel ℕ)
at_1 = record started {
  model = record mock { stop_tick = 2; initialized = true; current_tick = 1 };
  current_tick = 1;
  trace = row 0 5 ∷ row 1 5 ∷ [];
}

build : new_runtime always model mock (pos 1) (pos 2) ≡ ok built
unfolding new_runtime
build = refl

begin : initialize always model built ≡ ok started
unfolding initialize start
begin = refl

advance_to_1 : advance_to always model started 1 ≡ ok at_1
unfolding advance_to advance
advance_to_1 = refl

History-IsRecorded_example : IsRecorded at_1
History-IsRecorded_example =
    History-IsRecorded always model at_1
      (advances {runtime = started} 1
        (begins {runtime = built} (builds mock (pos 1) (pos 2) build) begin) advance_to_1)
      refl
