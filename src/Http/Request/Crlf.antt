-- ===== src/Http/Request/Crlf.antt =====
-- Where a request line of src/http_server.cpp ends, in what has been read of it.
use hamstercam.Base.{
  ℕ, ◌+◌, ◌<◌, ◌≡◌, ◌≢◌, ap, ◌⊎◌, inl, inr, refl, none, some, [], ◌∷◌, ◌++◌, Bytes, length, arith,
}
use hamstercam.Text.Split.{Lacks}
use hamstercam.Http.{split_crlf}

-- The line is not complete, or it is what is found.
abbrev pub Reads : Bytes → Bytes → Type 0
Reads line buf =
    ((split_crlf buf ≡ none) × (length buf < length line + 2))
    ⊎ ((behind : Bytes) × (split_crlf buf ≡ some (line, behind)))

abbrev tail_of : Bytes → Bytes
tail_of [] = []
tail_of (c ∷ s) = s

-- A byte in front of both that is no return.
extend :
    (x : ℕ) (line : Bytes) (c d : ℕ) (s : Bytes)
    → x ≢ b'\r'
    → c ≡ x
    → Reads line (d ∷ s)
    → Reads (x ∷ line) (c ∷ d ∷ s)
unfolding split_crlf
extend x line c d s n h (inl (e, small)) = inl (ground arith, omega arith)
extend x line c d s n h (inr (behind, e)) = inr (behind, ground arith)

-- If the buffer is a beginning of a line without a return, its end, and more.
pub split_crlf-Reads :
    (line buf later rest : Bytes)
    → Lacks b'\r' line
    → buf ++ later ≡ line ++ b'\r' ∷ b'\n' ∷ rest
    → Reads line buf
unfolding split_crlf
split_crlf-Reads line [] later rest l e = inl (refl, omega arith)
split_crlf-Reads line (c ∷ []) later rest l e = inl (refl, omega arith)
split_crlf-Reads [] (c ∷ d ∷ s) later rest l e =
    let h : c ≡ b'\r' = cc in let h' : d ≡ b'\n' = cc in inr (s, ground arith)
split_crlf-Reads (x ∷ line) (c ∷ d ∷ s) later rest l e =
    let h : c ≡ x = cc in
    extend x line c d s l.0 h (split_crlf-Reads line (d ∷ s) later rest l.1 (ap tail_of e))
