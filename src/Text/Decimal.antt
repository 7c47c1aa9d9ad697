-- ===== src/Text/Decimal.antt =====
-- The decimal text of a number.
use native.Mathlib.Nat.{pow-suc}
use hamstercam.Base.{
  ℕ, zero, suc, ◌+◌, ◌-◌, ◌*◌, ◌/◌, ◌%◌, ◌^◌, ◌<◌, ◌≤◌, ◌≡◌, ◌≢◌, ap, ◌∙◌, [], ◌∷◌, ltb, Bytes, All,
  Bool-cases, inl, inr, arith,
}
use hamstercam.Text.{digits_onto, to_string}

abbrev pub IsDigit : ℕ → Type 0
IsDigit c = (b'0' ≤ c) × (c ≤ b'9')

-- The number that follows `value` when the digits are written behind it.
abbrev pub decimal : ℕ → Bytes → ℕ
decimal value [] = value
decimal value (c ∷ s) = decimal (value * 10 + (c - b'0')) s

digits_onto-decimal :
    (fuel n : ℕ) (acc : Bytes) → n < 10 ^ fuel → decimal 0 (digits_onto fuel n acc) ≡ decimal n acc
unfolding digits_onto
digits_onto-decimal zero n acc h = ap (λ v. decimal v acc) (omega arith)
digits_onto-decimal (suc fuel) n acc h = elim (Bool-cases (ltb n 10)) [
  | inl e ↦ rw e (ap (λ v. decimal v acc) (omega arith))
  | inr e ↦ rw e (
      digits_onto-decimal fuel (n / 10) ((b'0' + n % 10) ∷ acc) (omega (arith, pow-suc 10 fuel))
      ∙ ap (λ v. decimal v acc) (omega arith))
]

digits_onto-IsDigit :
    (fuel n : ℕ) (acc : Bytes) → All IsDigit acc → All IsDigit (digits_onto fuel n acc)
unfolding digits_onto
digits_onto-IsDigit zero n acc h = h
digits_onto-IsDigit (suc fuel) n acc h = elim (Bool-cases (ltb n 10)) [
  | inl e ↦ rw e (ground arith, h)
  | inr e ↦ rw e (digits_onto-IsDigit fuel (n / 10) ((b'0' + n % 10) ∷ acc) (omega arith, h))
]

digits_onto-ne_nil : (fuel n d : ℕ) (acc : Bytes) → digits_onto fuel n (d ∷ acc) ≢ []
unfolding digits_onto
digits_onto-ne_nil zero n d acc = λ e. cc
digits_onto-ne_nil (suc fuel) n d acc = elim (Bool-cases (ltb n 10)) [
  | inl b ↦ rw b (λ e. cc)
  | inr b ↦ rw b (digits_onto-ne_nil fuel (n / 10) (b'0' + n % 10) (d ∷ acc))
]

-- No numeral but `0` begins with a zero.
abbrev pub IsProper : Bytes → Type 0
IsProper [] = Unit
IsProper (c ∷ []) = Unit
IsProper (c ∷ d ∷ s) = c ≢ b'0'

abbrev BeginsAbove : Bytes → Type 0
BeginsAbove [] = Unit
BeginsAbove (c ∷ s) = c ≢ b'0'

BeginsAbove-IsProper : (s : Bytes) → BeginsAbove s → IsProper s
BeginsAbove-IsProper [] h = tt
BeginsAbove-IsProper (c ∷ []) h = tt
BeginsAbove-IsProper (c ∷ d ∷ s) h = h

digits_onto-BeginsAbove :
    (fuel n : ℕ) (acc : Bytes) → 0 < n → n < 10 ^ fuel → BeginsAbove (digits_onto fuel n acc)
unfolding digits_onto
digits_onto-BeginsAbove zero n acc p h = absurd (omega arith)
digits_onto-BeginsAbove (suc fuel) n acc p h = elim (Bool-cases (ltb n 10)) [
  | inl e ↦ rw e (ground arith)
  | inr e ↦ rw e (
      digits_onto-BeginsAbove fuel (n / 10) ((b'0' + n % 10) ∷ acc) (ground arith)
        (omega (arith, pow-suc 10 fuel)))
]

pub to_string-IsProper : (n : ℕ) → n < 18_446_744_073_709_551_616 → IsProper (to_string n)
unfolding to_string digits_onto
to_string-IsProper zero h = tt
to_string-IsProper (suc n) h =
    BeginsAbove-IsProper (digits_onto 20 (suc n) [])
      (digits_onto-BeginsAbove 20 (suc n) [] (omega arith) (omega arith))

pub to_string-IsDigit : (n : ℕ) → All IsDigit (to_string n)
unfolding to_string
to_string-IsDigit n = digits_onto-IsDigit 20 n [] tt

-- The text of a 64-bit number is one or more digits, and their number is the number.
pub to_string-decimal :
    (n : ℕ)
    → n < 18_446_744_073_709_551_616
    → (decimal 0 (to_string n) ≡ n) × All IsDigit (to_string n) × (to_string n ≢ [])
unfolding to_string
to_string-decimal n h =
    (digits_onto-decimal 20 n [] (omega arith), digits_onto-IsDigit 20 n [] tt, nonempty)
  where
    nonempty : digits_onto 20 n [] ≢ []
    nonempty =
        unfold digits_onto in
        elim (Bool-cases (ltb n 10)) [
          | inl b ↦ rw b (λ e. cc)
          | inr b ↦ rw b (digits_onto-ne_nil 19 (n / 10) (b'0' + n % 10) [])
        ]
