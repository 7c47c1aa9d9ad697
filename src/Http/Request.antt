-- ===== src/Http/Request.antt =====
-- How a request reaches src/http_server.cpp, whatever pieces it is sent in, and its answer.
pub mod Words
mod Crlf
use hamstercam.Base.{
  ℕ, zero, suc, ◌+◌, ◌≤◌, ◌<◌, ◌≡◌, ◌≢◌, ◌⊎◌, inl, inr, refl, sym, ap, ◌∙◌, Bool, true, false,
  Option, none, some, List, [], ◌∷◌, ◌++◌, append_assoc, append-nil, Bytes, length, length-append,
  All, All-append, ltb, lt→ltb, le→ltb, arith,
}
use hamstercam.Sockets.{Received, stopped, received}
use hamstercam.Http.{
  HttpResponse, response_text, write_response, split_crlf, needs_more, request_line, parse_request,
  read_loop, read_request_line, answer_request, respond,
}
use hamstercam.Http.Response.{Peer, receive, write_response-arrives}
use hamstercam.Text.{is_space}
use hamstercam.Text.Split.{Lacks}
use Words.{IsWord, parse_request-words}
use Crlf.{Reads, split_crlf-Reads}

-- All that the other end will send.
abbrev pub flatten : List (ℕ × Bytes) → Bytes
flatten [] = []
flatten ((c, cs) ∷ ps) = (c ∷ cs) ++ flatten ps

-- It sends its pieces one by one, and then nothing.
abbrev pub request_from : ℕ → Peer → Received × Peer
request_from n p = elim p.sends [
  | [] ↦ (stopped, p)
  | (c, cs) ∷ rest ↦ (received c cs, record p { sends = rest })
]

-- The loop of `read_request_line` ends with a text whose first line is `line`.
abbrev EndsWith : Bytes → List ℕ → Bytes → Option Bytes × Peer → Type 0
EndsWith line ks before r =
    (buf : Bytes) × (behind : Bytes) × (ps : List (ℕ × Bytes)) × (r
      ≡ (some buf, record { sends = ps; pieces = ks; arrived = before }))
    × (split_crlf buf ≡ some (line, behind))

module _ (line rest : Bytes) (ks : List ℕ) (before : Bytes) (no_return : Lacks b'\r' line)
    (fits : length line + 2 ≤ 8192) where
  read_loop-more :
      (fuel : ℕ) (buf : Bytes) (c : ℕ) (cs : Bytes) (ps : List (ℕ × Bytes))
      → split_crlf buf ≡ none
      → length buf < 8192
      → read_loop request_from
          (suc fuel)
          buf
          (record { sends = (c, cs) ∷ ps; pieces = ks; arrived = before })
        ≡ read_loop request_from fuel
            (buf ++ c ∷ cs)
            (record { sends = ps; pieces = ks; arrived = before })
  unfolding read_loop needs_more
  read_loop-more fuel buf c cs ps n h = rw (n, lt→ltb (length buf) 8192 h, read_loop, needs_more)

  read_loop-EndsWith :
      (fuel : ℕ) (buf : Bytes) (ps : List (ℕ × Bytes))
      → buf ++ flatten ps ≡ line ++ b'\r' ∷ b'\n' ∷ rest
      → 8192 ≤ fuel + length buf
      → Reads line buf
      → EndsWith line ks before
          (read_loop request_from fuel buf (record { sends = ps; pieces = ks; arrived = before }))
  unfolding read_loop needs_more
  read_loop-EndsWith zero buf ps e f (inl (n, small)) = absurd (omega arith)
  read_loop-EndsWith zero buf ps e f (inr (behind, q)) = (buf, behind, ps, refl, q)
  read_loop-EndsWith (suc fuel) buf ps e f (inr (behind, q)) = (buf, behind, ps, ground arith, q)
  read_loop-EndsWith (suc fuel) buf [] e f (inl (n, small)) =
      absurd (
        omega (arith, ap length e, length-append buf [], length-append line (b'\r' ∷ b'\n' ∷ rest)))
  read_loop-EndsWith (suc fuel) buf ((c, cs) ∷ ps) e f (inl (n, small)) =
      let e' = append_assoc buf (c ∷ cs) (flatten ps) ∙ e in
      let (b, behind, ps', q, found) =
        read_loop-EndsWith fuel (buf ++ c ∷ cs) ps e' (omega (arith, length-append buf (c ∷ cs)))
          (split_crlf-Reads line (buf ++ c ∷ cs) (flatten ps) rest no_return e') in
      (b, behind, ps', read_loop-more fuel buf c cs ps n (omega arith) ∙ q, found)

word-Lacks : (w : Bytes) → All (λ c. is_space c ≡ false) w → Lacks b'\r' w
word-Lacks [] h = tt
word-Lacks (c ∷ w) h = (ground arith, word-Lacks w h.1)

abbrev pub line_of : Bytes → Bytes → Bytes → Bytes
line_of method path version = method ++ b' ' ∷ (path ++ b' ' ∷ version)

line-Lacks :
    (method path version : Bytes)
    → IsWord method
    → IsWord path
    → IsWord version
    → Lacks b'\r' (line_of method path version)
line-Lacks method path version m p v =
    All-append (λ x. x ≢ b'\r') method (b' ' ∷ (path ++ b' ' ∷ version)) (word-Lacks method m.1)
      (
        omega arith,
        All-append (λ x. x ≢ b'\r') path (b' ' ∷ version) (word-Lacks path p.1)
            (omega arith, word-Lacks version v.1),
      )

-- A request line of three words that fits in 8192 bytes with its end is answered by the handler's
-- response to its first two words, in whatever pieces it is sent, whatever follows it, and in
-- whatever pieces the response is taken, if they are at least as many as its bytes.
pub respond-arrives :
    (handler : Bytes → Bytes → HttpResponse) (method path version rest : Bytes)
    (ps : List (ℕ × Bytes)) (ks : List ℕ) (before : Bytes)
    → IsWord method
    → IsWord path
    → IsWord version
    → length (line_of method path version) + 2 ≤ 8192
    → flatten ps ≡ line_of method path version ++ b'\r' ∷ b'\n' ∷ rest
    → length (response_text (handler method path)) ≤ length ks
    → (respond request_from receive
        (λ m p k. (handler m p, k))
        (record { sends = ps; pieces = ks; arrived = before })).arrived
      ≡ before ++ response_text (handler method path)
unfolding respond read_request_line request_line answer_request
respond-arrives handler method path version rest ps ks before m p v fits e enough =
    let line = line_of method path version in
    let l = line-Lacks method path version m p v in
    let (buf, behind, ps', read, found) =
      read_loop-EndsWith line rest ks before l fits 8192 [] ps e (omega arith)
        (split_crlf-Reads line [] (flatten ps) rest l e) in
    rw (read, found, request_line, parse_request-words method path version m p v)
      (write_response-arrives (handler method path) ps' ks before enough)
