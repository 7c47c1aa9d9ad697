-- ===== src/Progress/Numbers.antt =====
-- What `parse_u64` of src/progress_parser.cpp accepts, and its value.
use hamstercam.Base.{
  ℕ, ◌+◌, ◌-◌, ◌*◌, ◌%◌, ◌<◌, ◌≡◌, ◌≢◌, ◌↔◌, refl, some, [], ◌∷◌, Bytes, All, ltb, ◌||◌, Bool-cases,
  inl, inr, arith,
}
use hamstercam.Text.{to_string}
use hamstercam.Text.Decimal.{IsDigit, decimal, to_string-decimal}
use hamstercam.Progress.{parse_digits, parse_u64}

abbrev pub words : ℕ
words = 18_446_744_073_709_551_616

-- Only the remainder counts.
decimal-mod :
    (s : Bytes) (a b : ℕ) → a % words ≡ b % words → decimal a s % words ≡ decimal b s % words
decimal-mod [] a b h = h
decimal-mod (c ∷ s) a b h = decimal-mod s _ _ (omega arith)

parse_digits-decimal :
    (s : Bytes) (value : ℕ)
    → value < words
    → All IsDigit s
    → parse_digits value s ≡ some (decimal value s % words)
unfolding parse_digits
parse_digits-decimal [] value h d = ground arith
parse_digits-decimal (c ∷ s) value h (d, ds) =
    let next = (value * 10 + (c - b'0')) % words in
    ground (
      arith,
      parse_digits-decimal s next (omega arith) ds,
      decimal-mod s next (value * 10 + (c - b'0')) (omega arith),
    )

parse_digits-IsDigit :
    (s : Bytes) (value : ℕ) {v : ℕ} → parse_digits value s ≡ some v → All IsDigit s
unfolding parse_digits
parse_digits-IsDigit [] value e = tt
parse_digits-IsDigit (c ∷ s) value {v} e = elim (Bool-cases (ltb c b'0' || ltb b'9' c)) [
  | inl b ↦ absurd (ground arith)
  | inr b ↦ (
    ground arith,
    parse_digits-IsDigit s ((value * 10 + (c - b'0')) % words) {v = v} (ground arith),
  )
]

-- `parse_u64` accepts exactly the texts of one or more decimal digits, and its value is their number
-- modulo 2 ^ 64.
pub parse_u64_lem :
    (s : Bytes) (v : ℕ)
    → (parse_u64 s ≡ some v) ↔ ((s ≢ []) × All IsDigit s × (v ≡ decimal 0 s % words))
unfolding parse_u64
parse_u64_lem [] v = (λ e. cc, λ h. absurd (h.0 refl))
parse_u64_lem (c ∷ s) v = (
  λ e.
      let d : All IsDigit (c ∷ s) = parse_digits-IsDigit (c ∷ s) 0 e in
      (λ k. cc, d, ground (arith, parse_digits-decimal (c ∷ s) 0 (omega arith) d)),
  λ h. ground (arith, parse_digits-decimal (c ∷ s) 0 (omega arith) h.1),
)

-- Every 64-bit number is read back from its decimal text.
pub parse_u64-to_string : (n : ℕ) → n < words → parse_u64 (to_string n) ≡ some n
parse_u64-to_string n h =
    let (value, digits, some_digit) = to_string-decimal n h in
    (parse_u64_lem (to_string n) n).1 (some_digit, digits, omega (arith, value))
