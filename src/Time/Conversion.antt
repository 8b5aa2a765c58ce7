-- ===== src/Time/Conversion.antt =====
-- The two conversions between ticks and nanoseconds against each other and against multiplication.
use cpssim.Base.{ℕ, zero, suc, ◌*◌, ◌≤◌, ◌<◌, ◌≡◌, ◌≢◌, ◌↔◌, refl, ap, ok, ℤ, pos, negsuc, arith}
use native.Mathlib.Nat.{div-add-mod', mul-mod_left, mul-div_left, le-div_iff_mul-le}
use cpssim.Time.{tick_max, duration_to_ticks, ticks_to_duration}

ticks_exact : (d p t : ℕ) → duration_to_ticks (pos d) (pos (suc p)) ≡ ok t → d ≡ t * suc p
unfolding duration_to_ticks
ticks_exact d p t h = ground (arith, div-add-mod' d (suc p))

ticks_of_product : (t p : ℕ) → duration_to_ticks (pos (t * suc p)) (pos (suc p)) ≡ ok t
unfolding duration_to_ticks
ticks_of_product t p = ground (arith, mul-mod_left t (suc p), mul-div_left t {n = suc p})

duration_exact :
    (t p d : ℕ) → ticks_to_duration (pos t) (pos (suc p)) ≡ ok d → (d ≡ t * suc p) × (d ≤ tick_max)
unfolding ticks_to_duration
duration_exact t p d h =
    ground (arith, (le-div_iff_mul-le {k = suc p} {x = t} {y = tick_max} (omega arith)).0)

duration_of_product :
    (t p : ℕ) → t * suc p ≤ tick_max → ticks_to_duration (pos t) (pos (suc p)) ≡ ok (t * suc p)
unfolding ticks_to_duration
duration_of_product t p h =
    ground (arith, (le-div_iff_mul-le {k = suc p} {x = t} {y = tick_max} (omega arith)).1 h)

pos-injective : {m n : ℕ} → pos m ≡ pos n → m ≡ n
pos-injective h = ground arith

refused_periods :
    (x : ℤ) {d : ℕ}
    → (duration_to_ticks x (pos zero) ≢ ok d)
      × ((n : ℕ) → duration_to_ticks x (negsuc n) ≢ ok d)
      × (ticks_to_duration x (pos zero) ≢ ok d)
      × ((n : ℕ) → ticks_to_duration x (negsuc n) ≢ ok d)
unfolding duration_to_ticks ticks_to_duration
refused_periods x = (λ h. cc, λ n h. cc, λ h. cc, λ n h. cc)

refused_counts :
    (n p : ℕ) {d : ℕ}
    → (duration_to_ticks (negsuc n) (pos (suc p)) ≢ ok d)
      × (ticks_to_duration (negsuc n) (pos (suc p)) ≢ ok d)
unfolding duration_to_ticks ticks_to_duration
refused_counts n p = (λ h. cc, λ h. cc)

-- A duration converts to `t` ticks exactly if the period is positive and the duration is `t`
-- periods: nothing is rounded.
pub duration_to_ticks_iff :
    (duration period : ℤ) (t : ℕ)
    → (duration_to_ticks duration period ≡ ok t)
      ↔ ((p : ℕ) × (period ≡ pos p) × (0 < p) × (duration ≡ pos (t * p)))
duration_to_ticks_iff duration period t = (there duration period, back)
  where
    there :
        (duration period : ℤ)
        → duration_to_ticks duration period ≡ ok t
        → (p : ℕ) × (period ≡ pos p) × (0 < p) × (duration ≡ pos (t * p))
    there duration (pos zero) h = absurd ((refused_periods duration).0 h)
    there duration (negsuc n) h = absurd ((refused_periods duration).1 n h)
    there (negsuc d) (pos (suc p)) h = absurd ((refused_counts d p).0 h)
    there (pos d) (pos (suc p)) h = (suc p, refl, omega arith, ap pos (ticks_exact d p t h))

    back :
        (p : ℕ) × (period ≡ pos p) × (0 < p) × (duration ≡ pos (t * p))
        → duration_to_ticks duration period ≡ ok t
    back (zero, e, h, f) = absurd (omega arith)
    back (suc p, e, h, f) = rw (e, f) (ticks_of_product t p)

-- A tick count converts exactly if it is not negative, the period is positive and the product is
-- representable; the result is that product.
pub ticks_to_duration_iff :
    (ticks period : ℤ) (d : ℕ)
    → (ticks_to_duration ticks period ≡ ok d)
      ↔ ((t p : ℕ) × (ticks ≡ pos t) × (period ≡ pos p) × (0 < p) × (d ≡ t * p) × (d ≤ tick_max))
ticks_to_duration_iff ticks period d = (there ticks period, back)
  where
    there :
        (ticks period : ℤ)
        → ticks_to_duration ticks period ≡ ok d
        → (t p : ℕ) × (ticks ≡ pos t) × (period ≡ pos p) × (0 < p) × (d ≡ t * p) × (d ≤ tick_max)
    there ticks (pos zero) h = absurd ((refused_periods ticks).2 h)
    there ticks (negsuc n) h = absurd ((refused_periods ticks).3 n h)
    there (negsuc t) (pos (suc p)) h = absurd ((refused_counts t p).1 h)
    there (pos t) (pos (suc p)) h =
        let (e, b) = duration_exact t p d h in (t, suc p, refl, refl, omega arith, e, b)

    back :
        (t p : ℕ) × (ticks ≡ pos t) × (period ≡ pos p) × (0 < p) × (d ≡ t * p) × (d ≤ tick_max)
        → ticks_to_duration ticks period ≡ ok d
    back (t, zero, e, f, h, g, b) = absurd (omega arith)
    back (t, suc p, e, f, h, g, b) = rw (e, f, g) (duration_of_product t p (omega arith))

-- Ticks converted to a duration convert back to themselves.
pub duration_to_ticks-ticks_to_duration :
    (ticks period : ℤ) (d : ℕ)
    → ticks_to_duration ticks period ≡ ok d
    → (t : ℕ) × (ticks ≡ pos t) × (duration_to_ticks (pos d) period ≡ ok t)
duration_to_ticks-ticks_to_duration ticks period d h =
    let (t, p, e, f, g, m, b) = (ticks_to_duration_iff ticks period d).0 h in
    (t, e, (duration_to_ticks_iff (pos d) period t).1 (p, f, g, ap pos m))

-- A representable duration converted to ticks converts back to itself.
pub ticks_to_duration-duration_to_ticks :
    (d : ℕ) (period : ℤ) (t : ℕ)
    → d ≤ tick_max
    → duration_to_ticks (pos d) period ≡ ok t
    → ticks_to_duration (pos t) period ≡ ok d
ticks_to_duration-duration_to_ticks d period t b h =
    let (p, f, g, m) = (duration_to_ticks_iff (pos d) period t).0 h in
    (ticks_to_duration_iff (pos t) period d).1 (t, p, refl, f, g, omega (arith, pos-injective m), b)
