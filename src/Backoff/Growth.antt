-- ===== src/Backoff/Growth.antt =====
-- The delays of `Backoff` (include/hamstercam/backoff.hpp) as attempts fail.
use native.Mathlib.Nat.{pow-suc}
use hamstercam.Base.{ℕ, zero, suc, ◌*◌, ◌^◌, ◌≤◌, min, max, ◌<◌, ◌≡◌, refl, ap, arith}
use hamstercam.Backoff.{Backoff, make, next, reset}

-- The backoff after `n` failed attempts in a row.
pub after : ℕ → Backoff → Backoff
after zero b = b
after (suc n) b = (next (after n b)).1

-- The delay that attempt `n` waits, counted from 0.
unfoldable pub delay : ℕ → Backoff → ℕ
delay n b = (next (after n b)).0

after-fixed :
    (n : ℕ) (b : Backoff) → ((after n b).initial ≡ b.initial) × ((after n b).ceiling ≡ b.ceiling)
unfolding after next
after-fixed zero b = (refl, refl)
after-fixed (suc n) b = after-fixed n b

-- The first delay of a new backoff is the initial one, also where it is above the ceiling; delay
-- `n + 1` is the initial one doubled `n + 1` times, or the ceiling if that is less.
pub delay-make :
    (initial ceiling n : ℕ)
    → (delay 0 (make initial ceiling) ≡ initial)
      × (delay (suc n) (make initial ceiling) ≡ min ceiling (initial * 2 ^ suc n))
unfolding delay after next make
delay-make initial ceiling n = (refl, later n)
  where
    later : (n : ℕ) → delay (suc n) (make initial ceiling) ≡ min ceiling (initial * 2 ^ suc n)
    later zero = omega arith
    later (suc n) = omega (
      arith,
      later n,
      after-fixed (suc n) (make initial ceiling),
      ap (λ (t : ℕ). initial * t) (pow-suc 2 (suc n)),
    )

-- A configuration whose ceiling is below the initial delay: the first delay is above the ceiling.
pub delay-above :
    (initial ceiling : ℕ) → ceiling < initial → ceiling < delay 0 (make initial ceiling)
unfolding delay after next make
delay-above initial ceiling h = h

-- What every `Backoff` keeps: the next delay is at most the larger of the two settings.
pub record IsBounded (b : Backoff) : Type 0 where
  pub current_le : b.current ≤ max b.initial b.ceiling

pub make-IsBounded : (i c : ℕ) → IsBounded (make i c)
unfolding make
make-IsBounded i c = ground arith

pub next-IsBounded : (b : Backoff) → IsBounded b → IsBounded (next b).1
unfolding next
next-IsBounded b h = ground arith

pub reset-IsBounded : (b : Backoff) → IsBounded (reset b)
unfolding reset
reset-IsBounded b = ground arith

after-below :
    (initial ceiling n : ℕ) → initial ≤ ceiling → (after n (make initial ceiling)).current ≤ ceiling
unfolding after next make
after-below initial ceiling zero h = h
after-below initial ceiling (suc n) h =
    omega (arith, after-fixed n (make initial ceiling), after-below initial ceiling n h)

-- With the initial delay at most the ceiling, no delay is longer than the ceiling, and none is
-- shorter than the one before.
pub delay_bounds :
    (initial ceiling n : ℕ)
    → initial ≤ ceiling
    → let b = make initial ceiling in (delay n b ≤ ceiling) × (delay n b ≤ delay (suc n) b)
unfolding delay after next make
delay_bounds initial ceiling n h =
    omega (arith, after-below initial ceiling n h, after-fixed n (make initial ceiling))
