-- ===== src/Time.antt =====
-- src/cpssim/model/time.hpp and time.cpp: ticks and nanoseconds.
-- A Tick and a PhysicalDuration are signed 64-bit integers.
pub mod Conversion
mod Examples
use cpssim.Base.{
  ℕ, ◌*◌, ◌/◌, ◌%◌, ◌-◌, ◌^◌, not, Result, ok, invalid_argument, overflow_error, ◌>>=◌, ◌>>◌,
  throw_if, ℤ, nonnegative, positive, leb, ◌==◌,
}

-- std::numeric_limits<Tick>::max()
abbrev pub tick_max : ℕ
tick_max = 2 ^ 63 - 1

unfoldable pub duration_to_ticks : ℤ → ℤ → Result ℕ
duration_to_ticks duration tick_period = do
  period ← positive tick_period invalid_argument
  count ← nonnegative duration invalid_argument
  throw_if (not (count % period == 0)) invalid_argument
  ok (count / period)

unfoldable pub ticks_to_duration : ℤ → ℤ → Result ℕ
ticks_to_duration ticks tick_period = do
  period ← positive tick_period invalid_argument
  count ← nonnegative ticks invalid_argument
  throw_if (not (leb count (tick_max / period))) overflow_error
  ok (count * period)
