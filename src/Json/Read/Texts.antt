-- ===== src/Json/Read/Texts.antt =====
-- What the reader of the lines of src/json_logger.cpp makes of lines as they are written.
use hamstercam.Base.{
  ℕ, zero, suc, ◌+◌, ◌-◌, ◌*◌, ◌<◌, ◌≡◌, ◌≢◌, refl, ap, ◌∙◌, false, some, List, [], ◌∷◌, ◌++◌,
  Bytes, All, length, append_assoc, arith, sym,
}
use hamstercam.Text.{to_string}
use hamstercam.Text.Decimal.{IsDigit, decimal, to_string-decimal, IsProper, to_string-IsProper}
use hamstercam.Json.{escape}
use hamstercam.Json.Escape.{read_string-escape}
use hamstercam.Json.Read.{
  Value, text, number, Member, is_digit, IsClear, read_text, read_number, read_value, expect,
  read_member_at, read_member, separated, read_members, read_line, value_text, member_text,
  more_text, open_text, IsPlain, Fits, IsWritable,
}

-- What may stand behind a number.
abbrev IsEnd : ℕ → Type 0
IsEnd c = is_digit c ≡ false

read_number-digits :
    (ds : Bytes) (value c : ℕ) (rest : Bytes)
    → All IsDigit ds
    → IsEnd c
    → read_number value (ds ++ c ∷ rest) ≡ (decimal value ds, c ∷ rest)
unfolding read_number
read_number-digits [] value c rest h e = ground arith
read_number-digits (d ∷ ds) value c rest h e =
    ground (arith, h, read_number-digits ds (value * 10 + (d - b'0')) c rest h.1 e)

read_text-escape :
    (t rest : Bytes) → IsClear t → read_text (escape t ++ b'"' ∷ rest) ≡ some (t, rest)
unfolding read_text
read_text-escape t rest h = rw (read_text, read_string-escape t rest, h) refl

-- A value is read back in front of what cannot be a part of it.
read_value-digits :
    (ds : Bytes) (c : ℕ) (rest : Bytes)
    → All IsDigit ds
    → ds ≢ []
    → IsProper ds
    → IsEnd c
    → read_value (ds ++ c ∷ rest) ≡ some (number (decimal 0 ds), c ∷ rest)
unfolding read_value
read_value-digits [] c rest h ne p e = absurd (ne refl)
read_value-digits (d ∷ []) c rest h ne p e =
    ground (arith, h, read_number-digits (d ∷ []) 0 c rest h e)
read_value-digits (d ∷ d' ∷ ds) c rest h ne p e =
    ground (arith, h, p, read_number-digits (d ∷ d' ∷ ds) 0 c rest h e)

read_value-text :
    (v : Value) (c : ℕ) (rest : Bytes)
    → Fits v
    → IsEnd c
    → read_value (value_text v ++ c ∷ rest) ≡ some (v, c ∷ rest)
read_value-text (text t) c rest h e =
    unfold read_value in simp (append_assoc, read_text-escape t (c ∷ rest) h)
read_value-text (number n) c rest h e =
    let d = to_string-decimal n h in
    read_value-digits (to_string n) c rest d.1 d.2 (to_string-IsProper n h) e
    ∙ ap (λ k. some (number k, c ∷ rest)) d.0

read_text-plain_key :
    (k rest : Bytes) → IsPlain k → IsClear k → read_text (k ++ b'"' ∷ rest) ≡ some (k, rest)
read_text-plain_key k rest p q =
    ap (λ s. read_text (s ++ b'"' ∷ rest)) (sym p) ∙ read_text-escape k rest q

read_member_at-value :
    (k : Bytes) (v : Value) (c : ℕ) (rest : Bytes)
    → Fits v
    → IsEnd c
    → read_member_at k (b':' ∷ (value_text v ++ c ∷ rest)) ≡ some ((k, v), c ∷ rest)
unfolding read_member_at expect
read_member_at-value k v c rest f e = rw (read_value-text v c rest f e, read_member_at) refl

read_member-member_text :
    (m : Member) (c : ℕ) (rest : Bytes)
    → IsWritable m
    → IsEnd c
    → read_member (member_text m ++ c ∷ rest) ≡ some (m, c ∷ rest)
unfolding read_member expect
read_member-member_text (k, v) c rest (p, q, f) e = simp append_assoc (
    rw (read_text-plain_key k (b':' ∷ (value_text v ++ c ∷ rest)) p q, read_member)
      (read_member_at-value k v c rest f e))

read_members-text :
    (ms : List Member) (m : Member) (n : ℕ) (rest : Bytes)
    → length ms < n
    → IsWritable m
    → All IsWritable ms
    → read_members n (member_text m ++ (more_text ms ++ b'}' ∷ rest)) ≡ some (m ∷ ms, rest)
unfolding read_members separated
read_members-text ms m zero rest l w ws = absurd (omega arith)
read_members-text [] m (suc n) rest l w ws =
    rw (read_member-member_text m b'}' rest w refl, read_members) refl
read_members-text (m' ∷ ms) m (suc n) rest l w (w', ws) =
    let behind = member_text m' ++ (more_text ms ++ b'}' ∷ rest) in
    rw
      (
        ap (λ t. b',' ∷ t) (append_assoc (member_text m') (more_text ms) (b'}' ∷ rest)),
        read_member-member_text m b',' behind w refl,
        read_members,
        read_members-text ms m' n rest (omega arith) w' ws,
      )
      refl

-- A line is read back as its members.
pub read_line-text :
    (ms : List Member) (m : Member) (n : ℕ) (rest : Bytes)
    → length ms < n
    → IsWritable m
    → All IsWritable ms
    → read_line n (open_text m ms ++ b'}' ∷ b'\n' ∷ rest) ≡ some (m ∷ ms, rest)
unfolding read_line expect
read_line-text ms m n rest l w ws =
    rw
      (
        append_assoc (member_text m) (more_text ms) (b'}' ∷ b'\n' ∷ rest),
        read_members-text ms m n (b'\n' ∷ rest) l w ws,
        read_line,
      )
      refl
