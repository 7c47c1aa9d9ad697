-- ===== src/Text.antt =====
-- What the code takes from `std::string` and `std::string_view`: bytes split at a byte, and the
-- decimal text of a number.
pub mod Split
pub mod Decimal
pub mod Digits
use hamstercam.Base.{
  ◌&&◌, ◌||◌, leb, ℕ, zero, suc, ◌+◌, ◌/◌, ◌%◌, Bool, true, false, Option, none, some, List, [],
  ◌∷◌, ◌++◌, ◌==◌, ltb, if◌then◌else◌, Bytes,
}

-- `find(c)` with what stands before the first `c` and behind it, or `none` for `npos`.
unfoldable pub split_at : ℕ → Bytes → Option (Bytes × Bytes)
split_at c [] = none
split_at c (x ∷ xs) =
    let rest = split_at c xs in
    if x == c
    then some ([], xs)
    else elim rest [ none ↦ none | some (before, behind) ↦ some (x ∷ before, behind) ]

-- `if (!s.empty() && s.back() == c) s.remove_suffix(1)`.
unfoldable pub strip_last : ℕ → Bytes → Bytes
strip_last c [] = []
strip_last c (x ∷ []) = if x == c then [] else x ∷ []
strip_last c (x ∷ y ∷ ys) = x ∷ strip_last c (y ∷ ys)

-- `std::to_string` of an unsigned number below `10 ^ fuel`: the decimal digits, with no leading
-- zero. `acc` holds the digits found so far.
digits_onto : ℕ → ℕ → Bytes → Bytes
digits_onto zero n acc = acc
digits_onto (suc fuel) n acc =
    let rest = digits_onto fuel (n / 10) ((b'0' + n % 10) ∷ acc) in
    if ltb n 10 then (b'0' + n) ∷ acc else rest

-- Twenty digits hold every number of 64 bits.
unfoldable pub to_string : ℕ → Bytes
unfolding digits_onto
to_string n = digits_onto 20 n []

-- `std::isspace`.
abbrev pub is_space : ℕ → Bool
is_space c = c == b' ' || leb 9 c && leb c 13
