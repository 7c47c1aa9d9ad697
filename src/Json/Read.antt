-- ===== src/Json/Read.antt =====
-- A strict reader of the lines that src/json_logger.cpp writes: objects with texts and natural numbers in
-- them. It takes only what JSON takes: a text has no control character and no byte above 127, and its
-- escapes are `\"` and `\\`; a number has no leading zero.
pub mod Texts
use hamstercam.Base.{
  ℕ, zero, suc, ◌+◌, ◌-◌, ◌*◌, ◌<◌, ◌≡◌, ◌≢◌, refl, ap, ◌∙◌, ◌&&◌, leb, Bool, true, false, ltb,
  Option, none, some, List, [], ◌∷◌, ◌++◌, ◌==◌, if◌then◌else◌, Bytes, All, length, append_assoc,
  arith, sym,
}
use hamstercam.Text.{to_string}
use hamstercam.Text.Decimal.{IsDigit, decimal, to_string-decimal, IsProper, to_string-IsProper}
use hamstercam.Json.{escape}
use hamstercam.Json.Escape.{read_string, read_string-escape}

pub data Value : Type 0 where
  text : Bytes → Value
  number : ℕ → Value

abbrev pub Member : Type 0
Member = Bytes × Value

abbrev pub is_digit : ℕ → Bool
is_digit c = leb b'0' c && leb c b'9'

abbrev pub starts_with_digit : Bytes → Bool
starts_with_digit [] = false
starts_with_digit (c ∷ s) = is_digit c

-- Every byte is one that may stand in a JSON text as it is or behind a backslash.
abbrev pub clear : Bytes → Bool
clear [] = true
clear (c ∷ s) = let rest = clear s in leb 32 c && ltb c 128 && rest

abbrev pub IsClear : Bytes → Type 0
IsClear s = clear s ≡ true

-- Behind the quote that opens a text.
unfoldable pub read_text : Bytes → Option (Bytes × Bytes)
read_text s = elim (read_string s) [
  | none ↦ none
  | some (t, rest) ↦ if clear t then some (t, rest) else none
]

-- The number that goes on behind `value`, and what stands behind its digits.
unfoldable pub read_number : ℕ → Bytes → ℕ × Bytes
read_number value [] = (value, [])
read_number value (c ∷ s) =
    let more = read_number (value * 10 + (c - b'0')) s in
    if is_digit c then more else (value, c ∷ s)

unfoldable pub read_value : Bytes → Option (Value × Bytes)
read_value [] = none
read_value (c ∷ s) =
    if c == b'"'
    then elim (read_text s) [ none ↦ none | some (t, rest) ↦ some (text t, rest) ]
    else if c == b'0' && starts_with_digit s
    then none
    else if is_digit c
    then some (number (read_number 0 (c ∷ s)).0, (read_number 0 (c ∷ s)).1)
    else none

unfoldable pub expect : ℕ → Bytes → Option Bytes
expect c [] = none
expect c (x ∷ s) = if x == c then some s else none

-- Behind the key.
unfoldable pub read_member_at : Bytes → Bytes → Option (Member × Bytes)
unfolding expect read_value
read_member_at k s = elim (expect b':' s) [
  | none ↦ none
  | some s' ↦ elim (read_value s') [ none ↦ none | some (v, rest) ↦ some ((k, v), rest) ]
]

unfoldable pub read_member : Bytes → Option (Member × Bytes)
unfolding read_member_at
read_member s = elim (expect b'"' s) [
  | none ↦ none
  | some s' ↦ elim (read_text s') [ none ↦ none | some (k, rest) ↦ read_member_at k rest ]
]

-- Behind a member; `more` reads the members that follow a comma.
unfoldable pub separated :
    (Bytes → Option (List Member × Bytes)) → Member → Bytes → Option (List Member × Bytes)
separated more m [] = none
separated more m (c ∷ s) =
    if c == b'}'
    then some (m ∷ [], s)
    else if c == b','
    then elim (more s) [ none ↦ none | some (ms, rest) ↦ some (m ∷ ms, rest) ]
    else none

-- At most as many members as the number says.
unfoldable pub read_members : ℕ → Bytes → Option (List Member × Bytes)
read_members zero s = none
read_members (suc n) s = elim (read_member s) [
  | none ↦ none
  | some (m, rest) ↦ separated (read_members n) m rest
]

unfoldable pub read_line : ℕ → Bytes → Option (List Member × Bytes)
unfolding expect
read_line n s = elim (expect b'{' s) [
  | none ↦ none
  | some s' ↦ elim (read_members n s') [
    | none ↦ none
    | some (ms, rest) ↦ elim (expect b'\n' rest) [ none ↦ none | some r ↦ some (ms, r) ]
  ]
]

-- How a member is written, and a line but for its end.
abbrev pub value_text : Value → Bytes
value_text (text t) = b'"' ∷ (escape t ++ b'"' ∷ [])
value_text (number n) = to_string n

abbrev pub member_text : Member → Bytes
member_text (k, v) = b'"' ∷ (k ++ b'"' ∷ b':' ∷ value_text v)

abbrev pub more_text : List Member → Bytes
more_text [] = []
more_text (m ∷ ms) = b',' ∷ (member_text m ++ more_text ms)

abbrev pub open_text : Member → List Member → Bytes
open_text m ms = b'{' ∷ (member_text m ++ more_text ms)

abbrev pub IsPlain : Bytes → Type 0
IsPlain s = escape s ≡ s

abbrev pub Fits : Value → Type 0
Fits (text t) = IsClear t
Fits (number n) = n < 18_446_744_073_709_551_616

abbrev pub IsWritable : Member → Type 0
IsWritable (k, v) = IsPlain k × IsClear k × Fits v
