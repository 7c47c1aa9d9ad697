-- ===== src/Http/Lifetime.antt =====
-- What the server of src/http_server.cpp acquires and releases while it starts, serves and ends.
use hamstercam.Base.{
  ℕ, zero, suc, ◌+◌, ◌≡◌, refl, ap, ◌∙◌, Bool, true, false, Option, none, some, List, [], ◌∷◌, ◌++◌,
  Bytes, length, drop, listed, arith,
}
use hamstercam.Sockets.{Polled, poll_failed, expired, ready, Sockets}
use hamstercam.Sockets.Ledger.{SameLedger, Watched, watch, pass, found as found_lists}
use hamstercam.Http.{
  HttpResponse, send_loop, write_response, read_loop, read_request_line, answer_request, respond,
  response_text, split_host_port,
}
use hamstercam.Http.Server.{
  HttpServer, give_up, address_bound, socket_made, try_address, try_addresses, addresses_found,
  start, start_at, accepted, polled, turn, run, destroy,
}
use hamstercam.Http.Server

-- Beside `base`, which is open elsewhere, the listening socket is all that is open, and `n` lists of
-- addresses are not freed.
pub record Owns {K : Type 0} (base : List ℕ) (n : ℕ) (s : HttpServer (Watched K)) : Type 0 where
  pub fds : s.kernel.open_fds ≡ listed s.listen_fd ++ base
  pub lists : s.kernel.lists ≡ n

module _ {A K : Type 0} (net : Sockets A K) where
  abbrev seen : Sockets A (Watched K)
  seen = watch net

  read_loop-SameLedger :
      (conn fuel : ℕ) (buf : Bytes) (s : Watched K)
      → SameLedger s (read_loop (seen.recv conn) fuel buf s).1
  unfolding read_loop
  read_loop-SameLedger conn zero buf s = record { fds = refl; lists = refl }
  read_loop-SameLedger conn (suc fuel) buf s =
      let s' = (seen.recv conn 512 s).1 in
      grind (arith, λ (b : Bytes). read_loop-SameLedger conn fuel b s')

  send_loop-SameLedger :
      (conn fuel : ℕ) (bytes : Bytes) (sent : ℕ) (s : Watched K)
      → SameLedger s (send_loop (seen.send conn) fuel bytes sent s).1
  unfolding send_loop
  send_loop-SameLedger conn zero bytes sent s = record { fds = refl; lists = refl }
  send_loop-SameLedger conn (suc fuel) [] sent s = record { fds = refl; lists = refl }
  send_loop-SameLedger conn (suc fuel) (c ∷ bytes) sent s =
      let s' = (seen.send conn (c ∷ bytes) s).1 in
      grind (arith, λ (k : ℕ). send_loop-SameLedger conn fuel (drop k (c ∷ bytes)) (sent + k) s')

  -- What starting keeps: it fails with no listening socket.
  abbrev pub Starts : List ℕ → ℕ → Bool × HttpServer (Watched K) → Type 0
  Starts base n r = Owns base n r.1 × (r.0 ≡ false → r.1.listen_fd ≡ none)

  abbrev pub answer :
      (Bytes → Bytes → K → HttpResponse × K) → Bytes → Bytes → Watched K → HttpResponse × Watched K
  answer handler method path = pass (handler method path)

  module _ (base : List ℕ) where
    give_up-Starts :
        (n fd : ℕ) (s : HttpServer (Watched K))
        → s.kernel.open_fds ≡ fd ∷ base
        → s.kernel.lists ≡ n
        → Starts base n (give_up seen fd s)
    unfolding give_up
    give_up-Starts n fd s f l = ground arith

    address_bound-Starts :
        (n fd : ℕ) (b : Bool) (s : HttpServer (Watched K))
        → s.listen_fd ≡ some fd
        → Owns base n s
        → Starts base n (address_bound seen fd b s)
    unfolding address_bound
    address_bound-Starts n fd false s e o =
        give_up-Starts n fd s (o.fds ∙ ap (λ l. listed l ++ base) e) o.lists
    address_bound-Starts n fd true s e o =
        let s' = record s { kernel = (seen.listen fd 16 s.kernel).1 } in
        ground (arith, give_up-Starts n fd s' (o.fds ∙ ap (λ l. listed l ++ base) e) o.lists)

    socket_made-Starts :
        (n : ℕ) (a : A) (fd : Option ℕ) (s : HttpServer (Watched K))
        → s.listen_fd ≡ fd
        → Owns base n s
        → Starts base n (socket_made seen a fd s)
    unfolding socket_made
    socket_made-Starts n a none s e o = (o, λ _. e)
    socket_made-Starts n a (some fd) s e o =
        let (r, k) = seen.bind_address fd a (seen.reuse_address fd s.kernel) in
        address_bound-Starts n fd r (record s { kernel = k }) e
          (record { fds = o.fds; lists = o.lists })

    try_address-Starts :
        (n : ℕ) (a : A) (s : HttpServer (Watched K))
        → s.listen_fd ≡ none
        → Owns base n s
        → Starts base n (try_address seen a s)
    unfolding try_address
    try_address-Starts n a s e o =
        let (fd, k) = seen.socket_for a s.kernel in
        let empty : s.kernel.open_fds ≡ base = o.fds ∙ ap (λ l. listed l ++ base) e in
        socket_made-Starts n a fd (record s { kernel = k; listen_fd = fd }) refl
          (record { fds = ap (λ l. listed fd ++ l) empty; lists = o.lists })

    try_addresses-Starts :
        (n : ℕ) (found : List A) (s : HttpServer (Watched K))
        → s.listen_fd ≡ none
        → Owns base n s
        → Starts base n (try_addresses seen found s)
    unfolding try_addresses
    try_addresses-Starts n [] s e o = (o, λ _. e)
    try_addresses-Starts n (a ∷ found) s e o =
        ground (
          arith,
          try_address-Starts n a s e o,
          try_addresses-Starts n found (try_address seen a s).1,
        )

    addresses_found-Starts :
        (found : Option (List A)) (s : HttpServer (Watched K))
        → s.listen_fd ≡ none
        → s.kernel.open_fds ≡ base
        → s.kernel.lists ≡ found_lists found
        → Starts base 0 (addresses_found seen found s)
    unfolding addresses_found
    addresses_found-Starts none s e f l = ground arith
    addresses_found-Starts (some found) s e f l = ground (arith, try_addresses-Starts 1 found s e)

    start_at-Starts :
        (where_to : Option (Bytes × Bytes)) (s : HttpServer (Watched K))
        → s.listen_fd ≡ none
        → Owns base 0 s
        → Starts base 0 (start_at seen where_to s)
    start_at-Starts none s e o = (o, λ _. e)
    start_at-Starts (some (host, port)) s e o =
        let (found, k) = seen.getaddrinfo host port s.kernel in
        addresses_found-Starts found (record s { kernel = k }) e
          (o.fds ∙ ap (λ l. listed l ++ base) e) (omega (arith, o.lists))

    pub start-Starts :
        (s : HttpServer (Watched K))
        → s.listen_fd ≡ none
        → Owns base 0 s
        → Starts base 0 (start seen s)
    unfolding start
    start-Starts s e o = start_at-Starts (split_host_port s.address) s e o

    module _ (handler : Bytes → Bytes → K → HttpResponse × K) where
      abbrev ans : Bytes → Bytes → Watched K → HttpResponse × Watched K
      ans = answer handler

      answer_request-SameLedger :
          (conn : ℕ) (request : Option (Bytes × Bytes)) (s : Watched K)
          → SameLedger s (answer_request (seen.send conn) ans request s)
      unfolding answer_request write_response
      answer_request-SameLedger conn none s = record { fds = refl; lists = refl }
      answer_request-SameLedger conn (some (method, path)) s =
          let (resp, s') = ans method path s in
          let t =
            send_loop-SameLedger conn (length (response_text resp)) (response_text resp) 0 s' in
          record { fds = t.fds; lists = t.lists }

      respond-SameLedger :
          (conn : ℕ) (s : Watched K)
          → SameLedger s (respond (seen.recv conn) (seen.send conn) ans s)
      unfolding respond read_request_line
      respond-SameLedger conn s =
          let (request, s') = read_request_line (seen.recv conn) s in
          let r = read_loop-SameLedger conn 8192 [] s in
          let a = answer_request-SameLedger conn request s' in
          record { fds = a.fds ∙ r.fds; lists = a.lists ∙ r.lists }

      accepted-Owns :
          (conn : Option ℕ) (s : HttpServer (Watched K))
          → s.kernel.open_fds ≡ listed conn ++ (listed s.listen_fd ++ base)
          → s.kernel.lists ≡ 0
          → Owns base 0 (accepted seen ans conn s)
      unfolding accepted
      accepted-Owns none s f l = record { fds = f; lists = l }
      accepted-Owns (some conn) s f l = ground (arith, respond-SameLedger conn s.kernel)

      polled-Owns :
          (r : Polled) (s : HttpServer (Watched K))
          → Owns base 0 s
          → Owns base 0 (polled seen ans r s)
      unfolding polled
      polled-Owns poll_failed s o = o
      polled-Owns expired s o = o
      polled-Owns ready s o =
          let (conn, k) = seen.accept s.listen_fd s.kernel in
          accepted-Owns conn (record s { kernel = k }) (ap (λ l. listed conn ++ l) o.fds) o.lists

      turn-Owns : (s : HttpServer (Watched K)) → Owns base 0 s → Owns base 0 (turn seen ans s)
      unfolding turn
      turn-Owns s o =
          let (r, k) = seen.poll s.listen_fd 200 s.kernel in
          polled-Owns r (record s { kernel = k }) (record { fds = o.fds; lists = o.lists })

      run-Owns :
          (turns : ℕ) (s : HttpServer (Watched K))
          → Owns base 0 s
          → Owns base 0 (run seen ans turns s)
      unfolding run
      run-Owns zero s o = o
      run-Owns (suc turns) s o =
          let s' = record s { kernel = (seen.stop_requested s.kernel).1 } in
          ground (
            arith,
            run-Owns turns (turn seen ans s')
                (turn-Owns s' (record { fds = o.fds; lists = o.lists })),
          )

    destroy-releases :
        (s : HttpServer (Watched K)) → Owns base 0 s → (destroy seen s).kernel.open_fds ≡ base
    unfolding destroy
    destroy-releases s o = ground arith

  -- However the kernel answers, a server that starts, serves any number of turns and ends has at no
  -- time between two turns anything open but its listening socket, with every connection closed and
  -- every list of addresses freed; if it fails to start, it has nothing open; and its destructor
  -- closes what is left.
  pub run-start-Owns :
      (handler : Bytes → Bytes → K → HttpResponse × K) (address : Bytes) (k : K) (turns : ℕ)
      → let (listening, s) =
          start seen (Server.make address (record { inner = k; open_fds = []; lists = 0 })) in
        let s' = run seen (answer handler) turns s in
        Owns [] 0 s
        × (listening ≡ false → s.listen_fd ≡ none)
        × Owns [] 0 s'
        × ((destroy seen s').kernel.open_fds ≡ [])
  unfolding Server.make
  run-start-Owns handler address k turns =
      let fresh = Server.make address (record { inner = k; open_fds = []; lists = 0 }) in
      let s = start-Starts [] fresh refl (record { fds = refl; lists = refl }) in
      let r = run-Owns [] handler turns (start seen fresh).1 s.0 in
      (s.0, s.1, r, destroy-releases [] _ r)
