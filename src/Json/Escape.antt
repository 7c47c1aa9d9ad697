-- ===== src/Json/Escape.antt =====
-- `escape` of src/json_logger.cpp: what stands between the quotes of a JSON string.
use hamstercam.Base.{
  ℕ, ◌≡◌, ◌≢◌, refl, ◌||◌, Option, none, some, [], ◌∷◌, ◌++◌, ◌==◌, if◌then◌else◌, Bytes,
  Bool-cases, inl, inr, arith,
}
use hamstercam.Json.{escape}

-- A reader of a JSON string whose only escapes are `\"` and `\\`: the text up to the closing quote,
-- and what stands behind it.
pub read_string : Bytes → Option (Bytes × Bytes)
read_string [] = none
read_string (c ∷ []) = if c == b'"' then some ([], []) else none
read_string (c ∷ d ∷ s) =
    let plain = read_string (d ∷ s) in
    let escaped = read_string s in
    if c == b'"'
    then some ([], d ∷ s)
    else if c == b'\\'
    then elim escaped [
      | none ↦ none
      | some (t, rest) ↦ if d == b'"' || d == b'\\' then some (d ∷ t, rest) else none
    ]
    else elim plain [ none ↦ none | some (t, rest) ↦ some (c ∷ t, rest) ]

read_string-plain :
    (c : ℕ) (s t rest : Bytes)
    → c ≢ b'"'
    → c ≢ b'\\'
    → read_string s ≡ some (t, rest)
    → read_string (c ∷ s) ≡ some (c ∷ t, rest)
unfolding read_string
read_string-plain c [] t rest q b e = cc
read_string-plain c (d ∷ s) t rest q b e = ground arith

-- A value that is escaped and closed by a quote is read back, whatever follows: no value can end
-- its string early or run on behind it.
pub read_string-escape : (s rest : Bytes) → read_string (escape s ++ b'"' ∷ rest) ≡ some (s, rest)
unfolding read_string escape
read_string-escape [] [] = refl
read_string-escape [] (c ∷ rest) = refl
read_string-escape (c ∷ s) rest = elim (Bool-cases (c == b'"' || c == b'\\')) [
  | inl e ↦ rw e (rw (read_string-escape s rest) (rw e refl))
  | inr e ↦ rw e (
      read_string-plain c (escape s ++ b'"' ∷ rest) s rest (ground arith) (ground arith)
        (read_string-escape s rest))
]
