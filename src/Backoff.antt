-- ===== src/Backoff.antt =====
-- include/hamstercam/backoff.hpp. Durations are milliseconds.
pub mod Growth
use hamstercam.Base.{ℕ, ◌*◌, min}

pub record Backoff : Type 0 where
  pub initial : ℕ
  pub ceiling : ℕ
  pub current : ℕ

-- The constructor: `initial_(initial), max_(max), current_(initial)`.
unfoldable pub make : ℕ → ℕ → Backoff
make initial ceiling = record { initial = initial; ceiling = ceiling; current = initial }

unfoldable pub next : Backoff → ℕ × Backoff
next b = (b.current, record b { current = min b.ceiling (b.current * 2) })

unfoldable pub reset : Backoff → Backoff
reset b = record b { current = b.initial }
