-- ===== src/Time/Examples.antt =====
-- The theorems on time at concrete inputs.
use cpssim.Base.{ℕ, ◌≡◌, ◌↔◌, ◌*◌, ◌≤◌, ◌<◌, refl, ok, pos, arith}
use cpssim.Time.{tick_max, duration_to_ticks, ticks_to_duration}
use cpssim.Time.Conversion.{
  duration_to_ticks_iff, ticks_to_duration_iff, duration_to_ticks-ticks_to_duration,
  ticks_to_duration-duration_to_ticks,
}

ten_ms : ticks_to_duration (pos 10) (pos 1_000_000) ≡ ok 10_000_000
unfolding ticks_to_duration
ten_ms = refl

duration_to_ticks_iff_example :
    (duration_to_ticks (pos 10_000_000) (pos 1_000_000) ≡ ok 10)
    ↔ ((p : ℕ) × (pos 1_000_000 ≡ pos p) × (0 < p) × (pos 10_000_000 ≡ pos (10 * p)))
duration_to_ticks_iff_example = duration_to_ticks_iff (pos 10_000_000) (pos 1_000_000) 10

ticks_to_duration_iff_example : (ticks_to_duration (pos 10) (pos 1_000_000) ≡ ok 10_000_000) ↔ (
    (t p : ℕ) × (pos 10 ≡ pos t)
    × (pos 1_000_000 ≡ pos p)
    × (0 < p)
    × (10_000_000 ≡ t * p)
    × (10_000_000 ≤ tick_max))
ticks_to_duration_iff_example = ticks_to_duration_iff (pos 10) (pos 1_000_000) 10_000_000

duration_to_ticks-ticks_to_duration_example :
    (t : ℕ) × (pos 10 ≡ pos t) × (duration_to_ticks (pos 10_000_000) (pos 1_000_000) ≡ ok t)
duration_to_ticks-ticks_to_duration_example =
    duration_to_ticks-ticks_to_duration (pos 10) (pos 1_000_000) 10_000_000 ten_ms

ten_ticks : duration_to_ticks (pos 10_000_000) (pos 1_000_000) ≡ ok 10
unfolding duration_to_ticks
ten_ticks = refl

ticks_to_duration-duration_to_ticks_example :
    ticks_to_duration (pos 10) (pos 1_000_000) ≡ ok 10_000_000
ticks_to_duration-duration_to_ticks_example =
    ticks_to_duration-duration_to_ticks 10_000_000 (pos 1_000_000) 10 (omega arith) ten_ticks
