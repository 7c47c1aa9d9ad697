-- ===== src/Cli/Values.antt =====
-- `parse_u32` and `parse_duration_ms` of src/main.cpp: the numbers and durations that flags take.
use hamstercam.Base.{
  ℕ, ◌+◌, ◌-◌, ◌*◌, ◌%◌, ◌<◌, ◌≡◌, ◌≢◌, refl, ap, ◌∙◌, subst, some, [], ◌∷◌, ◌++◌, Bytes, codes,
  length, length-append, drop, take-append, drop-append, All, lt→ltb, bytes_eq, arith,
}
use hamstercam.Text.{to_string}
use hamstercam.Text.Decimal.{IsDigit, decimal, to_string-decimal}
use hamstercam.Cli.{count_digits, digits_value, stoul, parse_u32, parse_duration_ms, times}

count_digits-length : (s : Bytes) → All IsDigit s → count_digits s ≡ length s
unfolding count_digits
count_digits-length [] h = refl
count_digits-length (c ∷ s) h = ground (arith, count_digits-length s h.1)

digits_value-decimal : (s : Bytes) (v : ℕ) → All IsDigit s → digits_value v s ≡ decimal v s
unfolding digits_value
digits_value-decimal [] v h = refl
digits_value-decimal (c ∷ s) v h = ground (arith, digits_value-decimal s (v * 10 + (c - b'0')) h.1)

-- Digits alone are read whole.
stoul-digits :
    (c : ℕ) (s : Bytes)
    → All IsDigit (c ∷ s)
    → decimal 0 (c ∷ s) < 18_446_744_073_709_551_616
    → stoul (c ∷ s) ≡ some (decimal 0 (c ∷ s), length (c ∷ s))
unfolding stoul
stoul-digits c s h small =
    ground (arith, count_digits-length (c ∷ s) h, digits_value-decimal (c ∷ s) 0 h)

parse_u32-digits :
    (s : Bytes)
    → s ≢ []
    → All IsDigit s
    → decimal 0 s < 18_446_744_073_709_551_616
    → parse_u32 s ≡ some (decimal 0 s % 4_294_967_296)
unfolding parse_u32
parse_u32-digits [] n h small = absurd (n refl)
parse_u32-digits (c ∷ s) n h small = ground (arith, stoul-digits c s h small)

-- A number of 64 bits is accepted and cut to its lower 32 bits: it is read back if it fits, and
-- silently becomes another number if it does not.
pub parse_u32-to_string :
    (n : ℕ) → n < 18_446_744_073_709_551_616 → parse_u32 (to_string n) ≡ some (n % 4_294_967_296)
parse_u32-to_string n h =
    let (value, digits, nonempty) = to_string-decimal n h in
    subst (λ v. parse_u32 (to_string n) ≡ some (v % 4_294_967_296)) value
      (parse_u32-digits (to_string n) nonempty digits (omega (arith, value)))

last-IsDigit :
    (c : ℕ) (s t : Bytes)
    → All IsDigit (c ∷ s)
    → (x : ℕ) × IsDigit x × (drop (length s) ((c ∷ s) ++ t) ≡ x ∷ t)
last-IsDigit c [] t h = (c, h.0, refl)
last-IsDigit c (d ∷ s) t h = last-IsDigit d s t h.1

parse_duration_ms-ms : (d : Bytes) → d ≢ [] → parse_duration_ms (d ++ codes "ms") ≡ parse_u32 d
unfolding parse_duration_ms bytes_eq
parse_duration_ms-ms [] h = absurd (h refl)
parse_duration_ms-ms (c ∷ s) h =
    let e : length ((c ∷ s) ++ codes "ms") - 2 ≡ length (c ∷ s) =
      omega (arith, length-append s (codes "ms")) in
    rw (
      lt→ltb 2 (length ((c ∷ s) ++ codes "ms")) (omega (arith, length-append s (codes "ms"))),
      e,
      drop-append (c ∷ s) (codes "ms"),
      take-append (c ∷ s) (codes "ms"),
    )

parse_duration_ms-s :
    (d : Bytes)
    → d ≢ []
    → All IsDigit d
    → parse_duration_ms (d ++ codes "s") ≡ times 1000 (parse_u32 d)
unfolding parse_duration_ms bytes_eq
parse_duration_ms-s [] n h = absurd (n refl)
parse_duration_ms-s (c ∷ s) n h =
    let (x, digit, e) = last-IsDigit c s (codes "s") h in
    let size = length-append s (codes "s") in
    let two : length ((c ∷ s) ++ codes "s") - 2 ≡ length s = omega (arith, size) in
    let one : length ((c ∷ s) ++ codes "s") - 1 ≡ length (c ∷ s) = omega (arith, size) in
    rw
      (
        two,
        one,
        e,
        drop-append (c ∷ s) (codes "s"),
        take-append (c ∷ s) (codes "s"),
        lt→ltb 1 (length ((c ∷ s) ++ codes "s")) (omega (arith, size)),
      )
      (ground arith)

-- A duration in milliseconds or in seconds is read back, if its number fits in 32 bits.
pub parse_duration_ms-to_string :
    (n : ℕ)
    → n < 4_294_967_296
    → (parse_duration_ms (to_string n ++ codes "ms") ≡ some n)
      × (parse_duration_ms (to_string n ++ codes "s") ≡ some (n * 1000))
parse_duration_ms-to_string n h =
    let (value, digits, nonempty) = to_string-decimal n (omega arith) in
    let read : parse_u32 (to_string n) ≡ some n =
      parse_u32-to_string n (omega arith) ∙ ap some (omega arith) in
    (
      parse_duration_ms-ms (to_string n) nonempty ∙ read,
      parse_duration_ms-s (to_string n) nonempty digits ∙ ap (times 1000) read,
    )
