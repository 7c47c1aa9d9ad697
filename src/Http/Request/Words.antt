-- ===== src/Http/Request/Words.antt =====
-- The words of a request line of src/http_server.cpp.
use hamstercam.Base.{ℕ, ◌≡◌, ◌≢◌, refl, false, some, [], ◌∷◌, ◌++◌, Bytes, All, arith}
use hamstercam.Text.{is_space}
use hamstercam.Http.{skip_spaces, take_word, next_word, parse_request}

-- Some bytes, none of them white space.
abbrev pub IsWord : Bytes → Type 0
IsWord w = (w ≢ []) × All (λ c. is_space c ≡ false) w

take_word-space :
    (w s : Bytes) → All (λ c. is_space c ≡ false) w → take_word (w ++ b' ' ∷ s) ≡ (w, b' ' ∷ s)
unfolding take_word
take_word-space [] s h = refl
take_word-space (c ∷ w) s h = ground (arith, take_word-space w s h.1)

take_word-end : (w : Bytes) → All (λ c. is_space c ≡ false) w → take_word w ≡ (w, [])
unfolding take_word
take_word-end [] h = refl
take_word-end (c ∷ w) h = ground (arith, take_word-end w h.1)

skip_spaces-word : (c : ℕ) (s : Bytes) → is_space c ≡ false → skip_spaces (c ∷ s) ≡ c ∷ s
unfolding skip_spaces
skip_spaces-word c s h = ground arith

next_word-space : (w s : Bytes) → IsWord w → next_word (w ++ b' ' ∷ s) ≡ some (w, b' ' ∷ s)
unfolding next_word
next_word-space [] s h = absurd (h.0 refl)
next_word-space (c ∷ w) s h =
    rw (skip_spaces-word c (w ++ b' ' ∷ s) h.1.0, take_word-space (c ∷ w) s h.1)

next_word-end : (w : Bytes) → IsWord w → next_word w ≡ some (w, [])
unfolding next_word
next_word-end [] h = absurd (h.0 refl)
next_word-end (c ∷ w) h = rw (skip_spaces-word c w h.1.0, take_word-end (c ∷ w) h.1)

next_word-skip : (s : Bytes) → next_word (b' ' ∷ s) ≡ next_word s
unfolding next_word skip_spaces
next_word-skip s = refl

-- Three words with a space between them are read as the method and the path.
pub parse_request-words :
    (method path version : Bytes)
    → IsWord method
    → IsWord path
    → IsWord version
    → parse_request (method ++ b' ' ∷ (path ++ b' ' ∷ version)) ≡ some (method, path)
unfolding parse_request
parse_request-words method path version m p v = rw (
  next_word-space method (path ++ b' ' ∷ version) m,
  next_word-skip (path ++ b' ' ∷ version),
  next_word-space path version p,
  next_word-skip version,
  next_word-end version v,
  parse_request,
)
