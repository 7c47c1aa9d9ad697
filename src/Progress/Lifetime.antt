-- ===== src/Progress/Lifetime.antt =====
-- What the server of src/progress_socket_server.cpp acquires and releases while it starts, serves and
-- ends, and what it says of a failure.
use hamstercam.Base.{
  ℕ, zero, suc, ◌≡◌, ◌≢◌, refl, ap, ◌∙◌, Bool, true, false, Option, none, some, List, [], ◌∷◌, ◌++◌,
  Option-cases, inl, inr, append-nil, Bytes, length, leb, if_cases, listed, arith,
}
use hamstercam.Double.{Double}
use hamstercam.Device.{Clock}
use hamstercam.Text.{split_at, strip_last}
use hamstercam.Sockets.{
  Attempt, ok, refused, Polled, poll_failed, expired, ready, Received, stopped, received, Sockets,
}
use hamstercam.Sockets.Ledger.{SameLedger, Watched, watch, pass, granted}
use hamstercam.Progress.{ProgressParser, parse_line, parse_pair, store_key, stamp, feed_loop, feed}
use hamstercam.Progress.Server.{
  ProgressSocketServer, too_long, fail, listened, path_bound, socket_made, start, destroy,
  chunk_received, connection_polled, connection_turn, read_connection, attached, serve, accepted,
  polled, run,
}
use hamstercam.Progress.Server

-- The clock of the world beside the ledger.
abbrev pub watched_clock : {W : Type 0} → Clock W → Clock (Watched W)
watched_clock clock = record { steady_now = pass clock.steady_now; wall_now = pass clock.wall_now }

-- The listening socket is all that the server has open.
abbrev pub Owns : {W F : Type 0} → ProgressSocketServer (Watched W) F → Type 0
Owns s = s.parser.world.open_fds ≡ listed s.listen_fd

module _ {A W : Type 0} (net : Sockets A W) where
  abbrev seen : Sockets A (Watched W)
  seen = watch net

  module _ {F : Type 0} where
    -- A server that fails to start has no socket, and says why; one that starts says nothing.
    abbrev pub Starts : Bool × ProgressSocketServer (Watched W) F → Type 0
    Starts r =
        Owns r.1
        × (r.0 ≡ false → (r.1.listen_fd ≡ none) × (r.1.last_error ≢ []))
        × (r.0 ≡ true → r.1.last_error ≡ [])

    fail-Starts :
        (c : ℕ) (what : Bytes) (s : ProgressSocketServer (Watched W) F)
        → Owns s
        → Starts (fail seen (c ∷ what) s)
    unfolding fail
    fail-Starts c what s o = ground arith

    listened-Starts :
        (r : Attempt (Unit {0})) (s : ProgressSocketServer (Watched W) F)
        → Owns s
        → Starts (listened seen r s)
    unfolding listened
    listened-Starts (refused e) s o = fail-Starts _ _ s o
    listened-Starts (ok _) s o = (o, (λ e. cc), (λ e. refl))

    path_bound-Starts :
        (fd : ℕ) (r : Attempt (Unit {0})) (s : ProgressSocketServer (Watched W) F)
        → Owns s
        → Starts (path_bound seen fd r s)
    unfolding path_bound
    path_bound-Starts fd (refused e) s o = fail-Starts _ _ s o
    path_bound-Starts fd (ok _) s o =
        let (r, w) = seen.listen fd 4 s.parser.world in
        listened-Starts r (record s { parser = record s.parser { world = w } }) o

    socket_made-Starts :
        (capacity : ℕ) (r : Attempt ℕ) (s : ProgressSocketServer (Watched W) F)
        → s.parser.world.open_fds ≡ listed (granted r)
        → Starts (socket_made seen capacity r s)
    unfolding socket_made too_long
    socket_made-Starts capacity (refused e) s o = fail-Starts _ _ (record s { listen_fd = none }) o
    socket_made-Starts capacity (ok fd) s o =
        let s' = record s { listen_fd = some fd } in
        let (r, w) = seen.bind_path fd s.socket_path (seen.unlink s.socket_path s.parser.world) in
        if_cases Starts (leb capacity (length s.socket_path)) _ _ (λ _. fail-Starts _ _ s' o)
          (λ _. path_bound-Starts fd r (record s' { parser = record s.parser { world = w } }) o)

    pub start-Starts :
        (capacity : ℕ) (s : ProgressSocketServer (Watched W) F)
        → s.parser.world.open_fds ≡ []
        → Starts (start seen capacity s)
    unfolding start
    start-Starts capacity s o =
        let (r, w) = seen.unix_socket s.parser.world in
        socket_made-Starts capacity r (record s { parser = record s.parser { world = w } })
          (ap (λ l. listed (granted r) ++ l) o ∙ append-nil (listed (granted r)))

    pub destroy-releases :
        (s : ProgressSocketServer (Watched W) F)
        → Owns s
        → (destroy seen s).parser.world.open_fds ≡ []
    unfolding destroy
    destroy-releases s o = ground arith

    module _ (clock : Clock W) (fp : Double F) where
      abbrev clk : Clock (Watched W)
      clk = watched_clock clock

      abbrev Parser : Type 0
      Parser = ProgressParser (Watched W) F

      store_key-SameLedger :
          (key value : Bytes) (p : Parser) → SameLedger p.world (store_key clk fp key value p).world
      unfolding store_key stamp
      store_key-SameLedger key value p = ground arith

      parse_pair-SameLedger :
          (pair : Option (Bytes × Bytes)) (p : Parser)
          → SameLedger p.world (parse_pair clk fp pair p).world
      unfolding parse_pair
      parse_pair-SameLedger none p = record { fds = refl; lists = refl }
      parse_pair-SameLedger (some (key, value)) p = store_key-SameLedger key value p

      parse_line-SameLedger :
          (line : Bytes) (p : Parser) → SameLedger p.world (parse_line clk fp line p).world
      unfolding parse_line
      parse_line-SameLedger line p = parse_pair-SameLedger (split_at b'=' (strip_last b'\r' line)) p

      feed_loop-SameLedger :
          (fuel : ℕ) (rest : Bytes) (p : Parser)
          → SameLedger p.world (feed_loop clk fp fuel rest p).world
      unfolding feed_loop
      feed_loop-SameLedger zero rest p = record { fds = refl; lists = refl }
      feed_loop-SameLedger (suc fuel) rest p = elim (Option-cases (split_at b'\n' rest)) [
        | inl e ↦ rw (e, feed_loop) (record { fds = refl; lists = refl })
        | inr ((line, behind), e) ↦
            let a = parse_line-SameLedger line p in
            let b = feed_loop-SameLedger fuel behind (parse_line clk fp line p) in
            rw (e, feed_loop) (record { fds = b.fds ∙ a.fds; lists = b.lists ∙ a.lists })
      ]

      feed-SameLedger :
          (chunk : Bytes) (p : Parser) → SameLedger p.world (feed clk fp chunk p).world
      unfolding feed
      feed-SameLedger chunk p =
          let n = suc (length (p.buffer ++ chunk)) in
          ground (arith, feed_loop-SameLedger n (p.buffer ++ chunk) p)

      chunk_received-SameLedger :
          (r : Received) (p : Parser) → SameLedger p.world (chunk_received seen clk fp r p).1.world
      unfolding chunk_received
      chunk_received-SameLedger stopped p = record { fds = refl; lists = refl }
      chunk_received-SameLedger (received c cs) p = feed-SameLedger (c ∷ cs) p

      connection_polled-SameLedger :
          (conn : ℕ) (r : Polled) (p : Parser)
          → SameLedger p.world (connection_polled seen clk fp conn r p).1.world
      unfolding connection_polled
      connection_polled-SameLedger conn poll_failed p = record { fds = refl; lists = refl }
      connection_polled-SameLedger conn expired p = record { fds = refl; lists = refl }
      connection_polled-SameLedger conn ready p =
          let (r, w) = seen.recv conn 4096 p.world in
          let c = chunk_received-SameLedger r (record p { world = w }) in
          record { fds = c.fds; lists = c.lists }

      connection_turn-SameLedger :
          (conn : ℕ) (p : Parser) → SameLedger p.world (connection_turn seen clk fp conn p).1.world
      unfolding connection_turn
      connection_turn-SameLedger conn p =
          let (r, w) = seen.poll (some conn) 200 p.world in
          let c = connection_polled-SameLedger conn r (record p { world = w }) in
          record { fds = c.fds; lists = c.lists }

      read_connection-SameLedger :
          (turns conn : ℕ) (p : Parser)
          → SameLedger p.world (read_connection seen clk fp turns conn p).world
      unfolding read_connection
      read_connection-SameLedger zero conn p = record { fds = refl; lists = refl }
      read_connection-SameLedger (suc turns) conn p =
          let p' = record p { world = (seen.stop_requested p.world).1 } in
          ground (
            arith,
            connection_turn-SameLedger conn p',
            read_connection-SameLedger turns conn (connection_turn seen clk fp conn p').1,
          )

      accepted-Owns :
          (turns : ℕ) (conn : Option ℕ) (s : ProgressSocketServer (Watched W) F)
          → s.parser.world.open_fds ≡ listed conn ++ listed s.listen_fd
          → Owns (accepted seen clk fp turns conn s)
      unfolding accepted serve attached
      accepted-Owns turns none s o = o
      accepted-Owns turns (some conn) s o =
          let p = s.parser in
          let q = record p { stats = record p.stats { connected = true } } in
          ground (arith, read_connection-SameLedger turns conn q)

      polled-Owns :
          (turns : ℕ) (r : Polled) (s : ProgressSocketServer (Watched W) F)
          → Owns s
          → Owns (polled seen clk fp turns r s)
      unfolding polled
      polled-Owns turns poll_failed s o = o
      polled-Owns turns expired s o = o
      polled-Owns turns ready s o =
          let (conn, w) = seen.accept s.listen_fd s.parser.world in
          accepted-Owns turns conn (record s { parser = record s.parser { world = w } })
            (ap (λ l. listed conn ++ l) o)

      run-Owns :
          (ts : List ℕ) (s : ProgressSocketServer (Watched W) F)
          → Owns s
          → Owns (run seen clk fp ts s)
      unfolding run
      run-Owns [] s o = o
      run-Owns (t ∷ ts) s o =
          let (stop, w) = seen.stop_requested s.parser.world in
          let (r, w') = seen.poll s.listen_fd 200 w in
          let s' = record s { parser = record s.parser { world = w' } } in
          ground (arith, run-Owns ts (polled seen clk fp t r s') (polled-Owns t r s' o))

      -- However the kernel answers, a server that fails to start has nothing open and a message, one
      -- that starts has just its listening socket open and no message; after any turns of `run`,
      -- which may cut connections at any point, every connection is closed; and the destructor closes
      -- what is left.
      pub run-start-Starts :
          (path : Bytes) (capacity : ℕ) (p : ProgressParser (Watched W) F) (ts : List ℕ)
          → p.world.open_fds ≡ []
          → let r = start seen capacity (Server.make path p) in
            let s = run seen clk fp ts r.1 in
            Starts r × Owns s × ((destroy seen s).parser.world.open_fds ≡ [])
      unfolding Server.make
      run-start-Starts path capacity p ts e =
          let r = start-Starts capacity (Server.make path p) e in
          let s = run-Owns ts (start seen capacity (Server.make path p)).1 r.0 in
          (r, s, destroy-releases _ s)
