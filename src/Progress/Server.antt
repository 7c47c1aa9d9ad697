-- ===== src/Progress/Server.antt =====
-- `ProgressSocketServer` of src/progress_socket_server.cpp. The state of the world stands in the parser,
-- whose clock reads it too; `capacity` is `sizeof(sockaddr_un::sun_path)`.
use hamstercam.Base.{
  ℕ, zero, suc, ◌-◌, Bool, true, false, Option, none, some, List, [], ◌∷◌, ◌++◌, leb, if◌then◌else◌,
  Bytes, codes, length,
}
use hamstercam.Double.{Double}
use hamstercam.Device.{Clock}
use hamstercam.Text.{to_string}
use hamstercam.Sockets.{
  Attempt, ok, refused, Polled, poll_failed, expired, ready, Received, stopped, received, Sockets,
}
use hamstercam.Progress.{ProgressParser, feed}

pub record ProgressSocketServer (W F : Type 0) : Type 0 where
  pub socket_path : Bytes
  pub parser : ProgressParser W F
  pub listen_fd : Option ℕ
  pub last_error : Bytes

-- The constructor.
unfoldable pub make : {W F : Type 0} → Bytes → ProgressParser W F → ProgressSocketServer W F
make path p = record { socket_path = path; parser = p; listen_fd = none; last_error = [] }

-- The message for a path that does not fit.
unfoldable pub too_long : ℕ → Bytes → Bytes
too_long capacity path =
    codes "path is "
    ++ (to_string (length path)
        ++ (codes " bytes; the kernel caps a unix socket path at "
            ++ (to_string (capacity - 1) ++ codes ". Use a shorter directory.")))

abbrev pub close_listener : {A W : Type 0} → Sockets A W → Option ℕ → W → W
close_listener net none w = w
close_listener net (some fd) w = net.close_fd fd w

module _ {A W F : Type 0} (net : Sockets A W) where
  abbrev world_of : ProgressSocketServer W F → W
  world_of s = s.parser.world

  -- The server after a call that it makes of the system.
  abbrev after : ProgressSocketServer W F → W → ProgressSocketServer W F
  after s w = record s { parser = record s.parser { world = w } }

  -- The lambda `fail` of `start`.
  unfoldable pub fail : Bytes → ProgressSocketServer W F → Bool × ProgressSocketServer W F
  fail what s = (
    false,
    record (after s (close_listener net s.listen_fd (world_of s))) {
      last_error = what;
      listen_fd = none;
    },
  )

  -- Behind `listen`.
  unfoldable pub listened :
      Attempt (Unit {0}) → ProgressSocketServer W F → Bool × ProgressSocketServer W F
  unfolding fail
  listened (refused e) s = fail (codes "listen(): " ++ e) s
  listened (ok _) s = (true, record s { last_error = [] })

  -- Behind `bind`.
  unfoldable pub path_bound :
      ℕ → Attempt (Unit {0}) → ProgressSocketServer W F → Bool × ProgressSocketServer W F
  unfolding listened
  path_bound fd (refused e) s = fail (codes "bind(): " ++ e) s
  path_bound fd (ok _) s = let (r, w) = net.listen fd 4 (world_of s) in listened r (after s w)

  -- Behind `socket`, which has set `listen_fd_`.
  unfoldable pub socket_made :
      ℕ → Attempt ℕ → ProgressSocketServer W F → Bool × ProgressSocketServer W F
  unfolding path_bound
  socket_made capacity (refused e) s =
      fail (codes "socket(AF_UNIX): " ++ e) (record s { listen_fd = none })
  socket_made capacity (ok fd) s =
      let s' = record s { listen_fd = some fd } in
      let (r, w) = net.bind_path fd s.socket_path (net.unlink s.socket_path (world_of s)) in
      if leb capacity (length s.socket_path)
      then fail (too_long capacity s.socket_path) s'
      else path_bound fd r (after s' w)

  unfoldable pub start : ℕ → ProgressSocketServer W F → Bool × ProgressSocketServer W F
  unfolding socket_made
  start capacity s = let (r, w) = net.unix_socket (world_of s) in socket_made capacity r (after s w)

  -- The destructor.
  unfoldable pub destroy : ProgressSocketServer W F → ProgressSocketServer W F
  destroy s = after s (net.unlink s.socket_path (close_listener net s.listen_fd (world_of s)))

  abbrev set_connected : Bool → ProgressParser W F → ProgressParser W F
  set_connected b p = record p { stats = record p.stats { connected = b } }

  abbrev in_world : ProgressParser W F → W → ProgressParser W F
  in_world p w = record p { world = w }

  module _ (clock : Clock W) (fp : Double F) where
    -- Behind `recv`: whether the connection goes on.
    unfoldable pub chunk_received : Received → ProgressParser W F → Bool × ProgressParser W F
    chunk_received stopped p = (false, p)
    chunk_received (received c cs) p = (true, feed clock fp (c ∷ cs) p)

    -- Behind `poll`.
    unfoldable pub connection_polled : ℕ → Polled → ProgressParser W F → Bool × ProgressParser W F
    unfolding chunk_received
    connection_polled conn poll_failed p = (false, p)
    connection_polled conn expired p = (true, p)
    connection_polled conn ready p =
        let (r, w) = net.recv conn 4096 p.world in chunk_received r (in_world p w)

    -- One turn of the inner loop.
    unfoldable pub connection_turn : ℕ → ProgressParser W F → Bool × ProgressParser W F
    unfolding connection_polled
    connection_turn conn p =
        let (r, w) = net.poll (some conn) 200 p.world in connection_polled conn r (in_world p w)

    -- The inner loop of `run`, for at most as many turns as the number says.
    unfoldable pub read_connection : ℕ → ℕ → ProgressParser W F → ProgressParser W F
    read_connection zero conn p = p
    read_connection (suc turns) conn p =
        let (stop, w) = net.stop_requested p.world in
        let (more, p') = connection_turn conn (in_world p w) in
        elim stop [
          | true ↦ in_world p w
          | false ↦ elim more [ true ↦ read_connection turns conn p' | false ↦ p' ]
        ]

    -- From `accept` to the end of the inner loop.
    unfoldable pub attached : ℕ → ℕ → ProgressParser W F → ProgressParser W F
    attached turns conn p = read_connection turns conn (set_connected true p)

    -- From `accept` to the end of the connection.
    unfoldable pub serve : ℕ → ℕ → ProgressParser W F → ProgressParser W F
    unfolding attached
    serve turns conn p =
        let q = attached turns conn p in
        set_connected false (in_world q (net.close_fd conn q.world))

    -- Behind `accept`.
    unfoldable pub accepted : ℕ → Option ℕ → ProgressSocketServer W F → ProgressSocketServer W F
    accepted turns none s = s
    accepted turns (some conn) s = record s { parser = serve turns conn s.parser }

    -- Behind `poll`.
    unfoldable pub polled : ℕ → Polled → ProgressSocketServer W F → ProgressSocketServer W F
    unfolding accepted
    polled turns poll_failed s = s
    polled turns expired s = s
    polled turns ready s =
        let (conn, w) = net.accept s.listen_fd (world_of s) in accepted turns conn (after s w)

    -- `run`; each number of the list is how many turns a connection may take at most.
    unfoldable pub run : List ℕ → ProgressSocketServer W F → ProgressSocketServer W F
    unfolding polled
    run [] s = s
    run (turns ∷ more) s =
        let (stop, w) = net.stop_requested (world_of s) in
        let (r, w') = net.poll s.listen_fd 200 w in
        elim stop [ true ↦ after s w | false ↦ run more (polled turns r (after s w')) ]
