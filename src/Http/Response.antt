-- ===== src/Http/Response.antt =====
-- What arrives of a response of src/http_server.cpp, over a peer that takes it in pieces.
use hamstercam.Base.{
  ℕ, zero, suc, ◌+◌, ◌≤◌, ◌≡◌, refl, ap, sym, ◌∙◌, Option, none, some, List, [], ◌∷◌, ◌++◌,
  append_assoc, append-nil, Bytes, length, take, drop, arith,
}
use hamstercam.Http.{HttpResponse, response_text, send_loop, write_response}

-- The other end of a connection: the pieces that it will still send, the sizes of the pieces that it
-- will take, and what has arrived.
pub record Peer : Type 0 where
  pub sends : List (ℕ × Bytes)
  pub pieces : List ℕ
  pub arrived : Bytes

-- It takes at least one byte and at most what is offered, and hangs up behind its last piece.
abbrev pub receive : Bytes → Peer → Option ℕ × Peer
receive s p = elim p.pieces [
  | [] ↦ (none, p)
  | k ∷ ks ↦
      let n = length (take (suc k) s) in
      (some n, record p { pieces = ks; arrived = p.arrived ++ take (suc k) s })
]

take-drop-length : (k : ℕ) (s : Bytes) → take k s ++ drop (length (take k s)) s ≡ s
take-drop-length zero s = refl
take-drop-length (suc k) [] = refl
take-drop-length (suc k) (x ∷ s) = ap (λ t. x ∷ t) (take-drop-length k s)

length-drop_le : (n : ℕ) (s : Bytes) → length (drop n s) ≤ length s
length-drop_le zero s = omega arith
length-drop_le (suc n) [] = omega arith
length-drop_le (suc n) (x ∷ s) = omega (arith, length-drop_le n s)

send_loop-receive :
    (fuel : ℕ) (s : Bytes) (sent : ℕ) (is : List (ℕ × Bytes)) (ks : List ℕ) (before : Bytes)
    → length s ≤ fuel
    → length s ≤ length ks
    → (send_loop receive fuel s sent
        (record { sends = is; pieces = ks; arrived = before })).1.arrived
      ≡ before ++ s
unfolding send_loop
send_loop-receive zero [] sent is ks before f l = sym (append-nil before)
send_loop-receive zero (c ∷ s) sent is ks before f l = absurd (omega arith)
send_loop-receive (suc fuel) [] sent is ks before f l = sym (append-nil before)
send_loop-receive (suc fuel) (c ∷ s) sent is [] before f l = absurd (omega arith)
send_loop-receive (suc fuel) (c ∷ s) sent is (k ∷ ks) before f l =
    send_loop-receive fuel (drop (length (take (suc k) (c ∷ s))) (c ∷ s))
      (sent + length (take (suc k) (c ∷ s))) is ks (before ++ take (suc k) (c ∷ s))
      (omega (arith, length-drop_le (length (take k s)) s))
      (omega (arith, length-drop_le (length (take k s)) s))
    ∙ append_assoc before (take (suc k) (c ∷ s)) _
    ∙ ap (λ t. before ++ t) (take-drop-length (suc k) (c ∷ s))

-- If the other end takes at least as many pieces as the response has bytes, of whatever sizes, all
-- of the response arrives, once and in order.
pub write_response-arrives :
    (resp : HttpResponse) (is : List (ℕ × Bytes)) (ks : List ℕ) (before : Bytes)
    → length (response_text resp) ≤ length ks
    → (write_response receive resp (record { sends = is; pieces = ks; arrived = before })).arrived
      ≡ before ++ response_text resp
unfolding write_response
write_response-arrives resp is ks before h =
    send_loop-receive (length (response_text resp)) (response_text resp) 0 is ks before
      (omega arith) h
