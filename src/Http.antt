-- ===== src/Http.antt =====
-- src/http_server.cpp. System calls are parameters; `send` gives, for what is left to send, the number
-- of bytes it takes, or `none` for a result that is not positive.
pub mod Response
pub mod Server
pub mod Lifetime
pub mod Request
use hamstercam.Base.{
  ℕ, zero, suc, ◌+◌, Bool, Option, none, some, List, [], ◌∷◌, ◌++◌, ◌==◌, ltb, ◌&&◌, true, false,
  if◌then◌else◌, Bytes, codes, length, drop,
}
use hamstercam.Text.{to_string, is_space}
use hamstercam.Sockets.{Received, stopped, received}

pub record HttpResponse : Type 0 where
  pub status : ℕ
  pub content_type : Bytes
  pub body : Bytes

-- `rfind(':')` with what stands before and behind; `none` is `false`.
unfoldable pub split_host_port : Bytes → Option (Bytes × Bytes)
split_host_port [] = none
split_host_port (c ∷ s) = elim (split_host_port s) [
  | some (host, port) ↦ some (c ∷ host, port)
  | none ↦ if c == b':' then some ([], s) else none
]

unfoldable pub status_text : ℕ → Bytes
status_text status =
    if status == 200 then codes "OK" else if status == 404 then codes "Not Found" else codes "Error"

-- The text that `write_response` sends.
unfoldable pub response_text : HttpResponse → Bytes
response_text resp =
    codes "HTTP/1.1 "
    ++ to_string resp.status
    ++ codes " "
    ++ status_text resp.status
    ++ codes "\r\nContent-Type: "
    ++ resp.content_type
    ++ codes "\r\nContent-Length: "
    ++ to_string (length resp.body)
    ++ codes "\r\nConnection: close\r\n\r\n"
    ++ resp.body

module _ {W : Type 0} (send : Bytes → W → Option ℕ × W) where
  -- The loop for what is left, with the number of bytes sent before; it stops when the fuel does.
  unfoldable pub send_loop : ℕ → Bytes → ℕ → W → ℕ × W
  send_loop zero s sent w = (sent, w)
  send_loop (suc fuel) [] sent w = (sent, w)
  send_loop (suc fuel) (c ∷ s) sent w =
      let (n, w') = send (c ∷ s) w in
      elim n [ none ↦ (sent, w') | some k ↦ send_loop fuel (drop k (c ∷ s)) (sent + k) w' ]

  -- Each turn sends a byte or stops, so the length is fuel enough.
  unfoldable pub write_response : HttpResponse → W → W
  write_response resp w = (send_loop (length (response_text resp)) (response_text resp) 0 w).1

-- `find("\r\n")` with what stands before and behind.
unfoldable pub split_crlf : Bytes → Option (Bytes × Bytes)
split_crlf [] = none
split_crlf (c ∷ []) = none
split_crlf (c ∷ d ∷ s) =
    let rest = split_crlf (d ∷ s) in
    if c == b'\r' && d == b'\n'
    then some ([], s)
    else elim rest [ none ↦ none | some (line, behind) ↦ some (c ∷ line, behind) ]

-- The test of the loop of `read_request_line`.
unfoldable pub needs_more : Bytes → Bool
needs_more buf = elim (split_crlf buf) [ some line ↦ false | none ↦ ltb (length buf) 8192 ]

unfoldable pub request_line : Bytes → Bytes
request_line buf = elim (split_crlf buf) [ some (line, behind) ↦ line | none ↦ buf ]

-- `iss >> word`: white space is skipped, then the bytes up to the next white space are taken; it
-- fails if there are none.
unfoldable pub skip_spaces : Bytes → Bytes
skip_spaces [] = []
skip_spaces (c ∷ s) = let rest = skip_spaces s in if is_space c then rest else c ∷ s

unfoldable pub take_word : Bytes → Bytes × Bytes
take_word [] = ([], [])
take_word (c ∷ s) =
    let (word, rest) = take_word s in if is_space c then ([], c ∷ s) else (c ∷ word, rest)

abbrev word_of : Bytes × Bytes → Option (Bytes × Bytes)
word_of ([], rest) = none
word_of (c ∷ word, rest) = some (c ∷ word, rest)

unfoldable pub next_word : Bytes → Option (Bytes × Bytes)
unfolding skip_spaces take_word
next_word s = word_of (take_word (skip_spaces s))

-- `iss >> method >> path >> version`; `none` is `false`.
unfoldable pub parse_request : Bytes → Option (Bytes × Bytes)
parse_request line = elim (next_word line) [
  | none ↦ none
  | some (method, s) ↦ elim (next_word s) [
    | none ↦ none
    | some (path, t) ↦ elim (next_word t) [ none ↦ none | some version ↦ some (method, path) ]
  ]
]

-- `if (read_request_line(...)) { ... }` in `run`.
unfoldable pub answer_request :
    {K : Type 0}
    → (Bytes → K → Option ℕ × K)
    → (Bytes → Bytes → K → HttpResponse × K)
    → Option (Bytes × Bytes)
    → K
    → K
answer_request send handler none k = k
answer_request send handler (some (method, path)) k =
    let (resp, k') = handler method path k in write_response send resp k'

module _ {K : Type 0} (recv : ℕ → K → Received × K) where
  -- The loop; `none` if `recv` ends it. Each turn adds a byte, so 8192 turns end it.
  unfoldable pub read_loop : ℕ → Bytes → K → Option Bytes × K
  read_loop zero buf k = (some buf, k)
  read_loop (suc fuel) buf k = elim (needs_more buf) [
    | false ↦ (some buf, k)
    | true ↦
        let (r, k') = recv 512 k in
        elim r [ stopped ↦ (none, k') | received c cs ↦ read_loop fuel (buf ++ c ∷ cs) k' ]
  ]

  abbrev parse_read : Option Bytes → Option (Bytes × Bytes)
  parse_read none = none
  parse_read (some buf) = parse_request (request_line buf)

  unfoldable pub read_request_line : K → Option (Bytes × Bytes) × K
  read_request_line k = let (buf, k') = read_loop 8192 [] k in (parse_read buf, k')

  -- The request and its answer in `run`.
  unfoldable pub respond :
      (Bytes → K → Option ℕ × K) → (Bytes → Bytes → K → HttpResponse × K) → K → K
  respond send handler k =
      let (request, k') = read_request_line k in answer_request send handler request k'
