-- ===== src/Daemon/Sleep.antt =====
-- How long `interruptible_sleep` of src/main.cpp sleeps.
use hamstercam.Base.{ℕ, zero, suc, ◌+◌, ◌-◌, ◌*◌, ◌≤◌, ◌≡◌, Bool, true, false, min, arith}
use hamstercam.Daemon.{sleep_loop, interruptible_sleep}

-- Somebody who asks to stop behind so many tests of the flag, and the milliseconds slept.
pub record Watcher : Type 0 where
  pub patience : ℕ
  pub slept : ℕ

abbrev pub asks : Watcher → Bool × Watcher
asks w = elim w.patience [ zero ↦ (true, w) | suc n ↦ (false, record w { patience = n }) ]

abbrev pub sleeps : ℕ → Watcher → Watcher
sleeps ms w = record w { slept = w.slept + ms }

sleep_loop-slept :
    (fuel remaining n slept : ℕ)
    → remaining ≤ fuel
    → (sleep_loop asks sleeps fuel remaining (record { patience = n; slept = slept })).slept
      ≡ slept + min remaining (100 * n)
unfolding sleep_loop
sleep_loop-slept zero remaining n slept h = ground arith
sleep_loop-slept (suc fuel) remaining zero slept h = ground arith
sleep_loop-slept (suc fuel) remaining (suc n) slept h = ground (
  arith,
  sleep_loop-slept fuel (remaining - min remaining 100) n (slept + min remaining 100) (omega arith),
)

-- A sleep is as long as asked for, but ends at the first test of the stop flag that finds it set:
-- behind `n` tests that do not, it has lasted 100 milliseconds for each of them at most.
pub interruptible_sleep-slept :
    (total n slept : ℕ)
    → (interruptible_sleep asks sleeps total (record { patience = n; slept = slept })).slept
      ≡ slept + min total (100 * n)
unfolding interruptible_sleep
interruptible_sleep-slept total n slept = sleep_loop-slept total total n slept (omega arith)
