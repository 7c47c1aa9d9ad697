-- ===== src/Double.antt =====
-- `double` and the library functions on it. The C++ standard library and the processor implement
-- them, so they are parameters of the model: a type of values with the operations the code uses.
use hamstercam.Base.{ℕ, Bool, Option, Bytes}

pub record Double (F : Type 0) : Type 0 where
  -- `static_cast<double>` of an unsigned integer, and a decimal literal `digits / 10 ^ places`.
  pub of_nat : ℕ → F
  pub literal : ℕ → ℕ → F
  pub add : F → F → F
  pub mul : F → F → F
  pub div : F → F → F
  pub lt : F → F → Bool
  pub le : F → F → Bool
  -- `std::chrono::duration<double>(b - a).count()` for two time points `a` and `b` in nanoseconds.
  pub seconds : ℕ → ℕ → F
  -- `static_cast<std::int64_t>` of a value that is not negative.
  pub truncate : F → ℕ
  -- `ostream << double`, and `std::stod`: the value and the bytes read, or `none` if it throws.
  pub print : F → Bytes
  pub stod : Bytes → Option (F × ℕ)
