-- ===== src/Text/Digits.antt =====
-- The decimal text of small numbers, digit by digit.
use hamstercam.Base.{ℕ, suc, ◌+◌, ◌/◌, ◌%◌, ◌<◌, ◌≤◌, ◌≡◌, ◌∙◌, [], ◌∷◌, Bytes, arith}
use hamstercam.Text.{digits_onto, to_string}

digits_onto-last : (f n : ℕ) (acc : Bytes) → n < 10 → digits_onto (suc f) n acc ≡ (b'0' + n) ∷ acc
unfolding digits_onto
digits_onto-last f n acc h = ground arith

digits_onto-step :
    (f n : ℕ) (acc : Bytes)
    → 10 ≤ n
    → digits_onto (suc f) n acc ≡ digits_onto f (n / 10) ((b'0' + n % 10) ∷ acc)
unfolding digits_onto
digits_onto-step f n acc h = ground arith

pub to_string-1 : (n : ℕ) → n < 10 → to_string n ≡ (b'0' + n) ∷ []
unfolding to_string
to_string-1 n h = digits_onto-last 19 n [] h

pub to_string-2 : (n : ℕ) → 10 ≤ n → n < 100 → to_string n ≡ (b'0' + n / 10) ∷ (b'0' + n % 10) ∷ []
unfolding to_string
to_string-2 n l h = digits_onto-step 19 n [] l ∙ digits_onto-last 18 (n / 10) _ (omega arith)

pub to_string-3 :
    (n : ℕ)
    → 100 ≤ n
    → n < 1000
    → to_string n ≡ (b'0' + n / 10 / 10) ∷ (b'0' + (n / 10) % 10) ∷ (b'0' + n % 10) ∷ []
unfolding to_string
to_string-3 n l h =
    digits_onto-step 19 n [] (omega arith)
    ∙ digits_onto-step 18 (n / 10) _ (omega arith)
    ∙ digits_onto-last 17 (n / 10 / 10) _ (omega arith)

pub to_string-4 :
    (n : ℕ)
    → 1000 ≤ n
    → n < 10_000
    → to_string n
      ≡ (b'0' + n / 10 / 10 / 10)
        ∷ (b'0' + (n / 10 / 10) % 10)
        ∷ (b'0' + (n / 10) % 10)
        ∷ (b'0' + n % 10)
        ∷ []
unfolding to_string
to_string-4 n l h =
    digits_onto-step 19 n [] (omega arith)
    ∙ digits_onto-step 18 (n / 10) _ (omega arith)
    ∙ digits_onto-step 17 (n / 10 / 10) _ (omega arith)
    ∙ digits_onto-last 16 (n / 10 / 10 / 10) _ (omega arith)
