-- ===== src/Http/Server.antt =====
-- `HttpServer` of src/http_server.cpp: the listening socket and the accept loop.
use hamstercam.Base.{ℕ, zero, suc, Bool, true, false, Option, none, some, List, [], ◌∷◌, Bytes}
use hamstercam.Sockets.{Attempt, ok, refused, Polled, poll_failed, expired, ready, Sockets}
use hamstercam.Http.{HttpResponse, split_host_port, respond}

pub record HttpServer (K : Type 0) : Type 0 where
  pub kernel : K
  pub address : Bytes
  pub listen_fd : Option ℕ

-- The constructor; the handler is an argument of `run`.
unfoldable pub make : {K : Type 0} → Bytes → K → HttpServer K
make address k = record { kernel = k; address = address; listen_fd = none }

module _ {A K : Type 0} (net : Sockets A K) where
  -- The server after a call that it makes of the kernel.
  abbrev after : HttpServer K → K → HttpServer K
  after s k = record s { kernel = k }

  -- The end of a turn of the loop that could not listen.
  unfoldable pub give_up : ℕ → HttpServer K → Bool × HttpServer K
  give_up fd s = (false, record s { kernel = net.close_fd fd s.kernel; listen_fd = none })

  abbrev is_ok : Attempt (Unit {0}) → Bool
  is_ok (ok _) = true
  is_ok (refused e) = false

  -- Behind `bind`; `listen` is called only if it succeeded.
  unfoldable pub address_bound : ℕ → Bool → HttpServer K → Bool × HttpServer K
  unfolding give_up
  address_bound fd false s = give_up fd s
  address_bound fd true s =
      let (r, k) = net.listen fd 16 s.kernel in
      elim (is_ok r) [ true ↦ (true, after s k) | false ↦ give_up fd (after s k) ]

  -- Behind `socket`, which has set `listen_fd_`.
  unfoldable pub socket_made : A → Option ℕ → HttpServer K → Bool × HttpServer K
  unfolding address_bound
  socket_made a none s = (false, s)
  socket_made a (some fd) s =
      let (r, k) = net.bind_address fd a (net.reuse_address fd s.kernel) in
      address_bound fd r (after s k)

  unfoldable pub try_address : A → HttpServer K → Bool × HttpServer K
  unfolding socket_made
  try_address a s =
      let (fd, k) = net.socket_for a s.kernel in
      socket_made a fd (record s { kernel = k; listen_fd = fd })

  -- The loop over the addresses that were found.
  unfoldable pub try_addresses : List A → HttpServer K → Bool × HttpServer K
  try_addresses [] s = (false, s)
  try_addresses (a ∷ as') s =
      let (listening, s') = try_address a s in
      elim listening [ true ↦ (true, s') | false ↦ try_addresses as' s' ]

  -- Behind `getaddrinfo`.
  unfoldable pub addresses_found : Option (List A) → HttpServer K → Bool × HttpServer K
  addresses_found none s = (false, s)
  addresses_found (some found) s =
      let (listening, s') = try_addresses found s in
      (listening, after s' (net.freeaddrinfo found s'.kernel))

  abbrev pub start_at : Option (Bytes × Bytes) → HttpServer K → Bool × HttpServer K
  start_at none s = (false, s)
  start_at (some (host, port)) s =
      let (found, k) = net.getaddrinfo host port s.kernel in addresses_found found (after s k)

  unfoldable pub start : HttpServer K → Bool × HttpServer K
  unfolding addresses_found
  start s = start_at (split_host_port s.address) s

  module _ (handler : Bytes → Bytes → K → HttpResponse × K) where
    -- Behind `accept`.
    unfoldable pub accepted : Option ℕ → HttpServer K → HttpServer K
    accepted none s = s
    accepted (some conn) s =
        after s (net.close_fd conn (respond (net.recv conn) (net.send conn) handler s.kernel))

    -- Behind `poll`.
    unfoldable pub polled : Polled → HttpServer K → HttpServer K
    unfolding accepted
    polled poll_failed s = s
    polled expired s = s
    polled ready s = let (conn, k) = net.accept s.listen_fd s.kernel in accepted conn (after s k)

    -- One turn of the loop of `run`.
    unfoldable pub turn : HttpServer K → HttpServer K
    unfolding polled
    turn s = let (r, k) = net.poll s.listen_fd 200 s.kernel in polled r (after s k)

    -- `run` for at most as many turns as the number says.
    unfoldable pub run : ℕ → HttpServer K → HttpServer K
    unfolding turn
    run zero s = s
    run (suc turns) s =
        let (stop, k) = net.stop_requested s.kernel in
        elim stop [ true ↦ after s k | false ↦ run turns (turn (after s k)) ]

  -- The destructor.
  unfoldable pub destroy : HttpServer K → HttpServer K
  destroy s = elim s.listen_fd [ none ↦ s | some fd ↦ after s (net.close_fd fd s.kernel) ]
