-- ===== src/Progress/Connection.antt =====
-- What `run` of src/progress_socket_server.cpp parses of one connection, for every order in which data
-- and timeouts can come.
use hamstercam.Base.{
  ℕ, zero, suc, ◌+◌, ◌≤◌, ◌<◌, ◌≡◌, refl, ap, ◌∙◌, Option-cases, inl, inr, Bool, true, false,
  Option, none, some, List, [], ◌∷◌, ◌++◌, Bytes, length, length-append, arith,
}
use hamstercam.Double.{Double}
use hamstercam.Device.{Clock}
use hamstercam.Text.{split_at, strip_last}
use hamstercam.Sockets.{ok, Polled, expired, ready, Received, stopped, received, Sockets}
use hamstercam.Progress.{
  ProgressParser, max_buffered_line, parse_line, parse_pair, store_key, stamp, feed_loop, feed,
}
use hamstercam.Progress.Lines.{feed_all, concat, IsBuffered, feed_all-concat}
use hamstercam.Progress.Server.{connection_turn, read_connection, attached, serve}

-- 200 milliseconds without data, or a piece that is there to be read.
pub data Item : Type 0 where
  wait : Item
  piece : ℕ → Bytes → Item

abbrev pub pieces : List Item → List Bytes
pieces [] = []
pieces (wait ∷ is) = pieces is
pieces (piece c cs ∷ is) = (c ∷ cs) ∷ pieces is

-- The other end of a connection, which closes it behind its last item, and the world beside it.
pub record Line (W : Type 0) : Type 0 where
  pub script : List Item
  pub outside : W

abbrev pub line_clock : {W : Type 0} → Clock W → Clock (Line W)
line_clock clock = record {
  steady_now = λ l. let (t, w) = clock.steady_now l.outside in (t, record l { outside = w });
  wall_now = λ l. let (t, w) = clock.wall_now l.outside in (t, record l { outside = w });
}

abbrev next_poll : {W : Type 0} → Line W → Polled × Line W
next_poll l = elim l.script [
  | [] ↦ (ready, l)
  | wait ∷ rest ↦ (expired, record l { script = rest })
  | piece c cs ∷ rest ↦ (ready, l)
]

abbrev next_recv : {W : Type 0} → Line W → Received × Line W
next_recv l = elim l.script [
  | [] ↦ (stopped, l)
  | wait ∷ rest ↦ (stopped, l)
  | piece c cs ∷ rest ↦ (received c cs, record l { script = rest })
]

-- Only the calls that a connection makes matter; nobody asks to stop.
abbrev pub scripted : {W : Type 0} → Sockets (Unit {0}) (Line W)
scripted = record {
  getaddrinfo = λ host port l. (none, l);
  freeaddrinfo = λ found l. l;
  socket_for = λ a l. (none, l);
  reuse_address = λ fd l. l;
  bind_address = λ fd a l. (false, l);
  unix_socket = λ l. (ok 3, l);
  unlink = λ path l. l;
  bind_path = λ fd path l. (ok tt, l);
  listen = λ fd n l. (ok tt, l);
  poll = λ fd t. next_poll;
  accept = λ fd l. (some 4, l);
  recv = λ fd n. next_recv;
  send = λ fd bytes l. (none, l);
  close_fd = λ fd l. l;
  stop_requested = λ l. (false, l);
}

module _ {W F : Type 0} (clock : Clock W) (fp : Double F) where
  abbrev pub in_script : List Item → ProgressParser (Line W) F → ProgressParser (Line W) F
  in_script is p = record p { world = record p.world { script = is } }

  store_key-in_script :
      (is : List Item) (key value : Bytes) (p : ProgressParser (Line W) F)
      → store_key (line_clock clock) fp key value (in_script is p)
        ≡ in_script is (store_key (line_clock clock) fp key value p)
  unfolding store_key stamp
  store_key-in_script is key value p = ground arith

  parse_pair-in_script :
      (is : List Item) (pair : Option (Bytes × Bytes)) (p : ProgressParser (Line W) F)
      → parse_pair (line_clock clock) fp pair (in_script is p)
        ≡ in_script is (parse_pair (line_clock clock) fp pair p)
  unfolding parse_pair
  parse_pair-in_script is none p = refl
  parse_pair-in_script is (some (key, value)) p = store_key-in_script is key value p

  -- The parser does not touch what is still to come.
  parse_line-in_script :
      (is : List Item) (line : Bytes) (p : ProgressParser (Line W) F)
      → parse_line (line_clock clock) fp line (in_script is p)
        ≡ in_script is (parse_line (line_clock clock) fp line p)
  unfolding parse_line
  parse_line-in_script is line p = parse_pair-in_script is (split_at b'=' (strip_last b'\r' line)) p

  feed_loop-in_script :
      (is : List Item) (fuel : ℕ) (rest : Bytes) (p : ProgressParser (Line W) F)
      → feed_loop (line_clock clock) fp fuel rest (in_script is p)
        ≡ in_script is (feed_loop (line_clock clock) fp fuel rest p)
  unfolding feed_loop
  feed_loop-in_script is zero rest p = refl
  feed_loop-in_script is (suc fuel) rest p = elim (Option-cases (split_at b'\n' rest)) [
    | inl e ↦ rw (e, feed_loop)
    | inr ((line, behind), e) ↦
        rw (e, feed_loop)
          (ap (λ q. feed_loop (line_clock clock) fp fuel behind q) (parse_line-in_script is line p)
            ∙ feed_loop-in_script is fuel behind (parse_line (line_clock clock) fp line p))
  ]

  feed-in_script :
      (is : List Item) (chunk : Bytes) (p : ProgressParser (Line W) F)
      → feed (line_clock clock) fp chunk (in_script is p)
        ≡ in_script is (feed (line_clock clock) fp chunk p)
  unfolding feed
  feed-in_script is chunk p =
      let n = suc (length (p.buffer ++ chunk)) in
      ground (arith, feed_loop-in_script is n (p.buffer ++ chunk) p)

  read_connection-feed_all :
      (turns conn : ℕ) (is : List Item) (p : ProgressParser (Line W) F)
      → length is < turns
      → read_connection scripted (line_clock clock) fp turns conn (in_script is p)
        ≡ in_script [] (feed_all (line_clock clock) fp (pieces is) p)
  unfolding read_connection connection_turn feed_all
  read_connection-feed_all zero conn is p h = absurd (omega arith)
  read_connection-feed_all (suc n) conn [] p h = refl
  read_connection-feed_all (suc n) conn (wait ∷ is) p h =
      read_connection-feed_all n conn is p (omega arith)
  read_connection-feed_all (suc n) conn (piece c cs ∷ is) p h =
      ap (λ q. read_connection scripted (line_clock clock) fp n conn q)
        (feed-in_script is (c ∷ cs) p)
      ∙ read_connection-feed_all n conn is (feed (line_clock clock) fp (c ∷ cs) p) (omega arith)

  abbrev pub connected_as : Bool → ProgressParser (Line W) F → ProgressParser (Line W) F
  connected_as b p = record p { stats = record p.stats { connected = b } }

  pub serve-fed :
      (turns conn : ℕ) (is : List Item) (p : ProgressParser (Line W) F)
      → IsBuffered p
      → length is < turns
      → length p.buffer + length (concat (pieces is)) ≤ max_buffered_line
      → serve scripted (line_clock clock) fp turns conn (in_script is p)
        ≡ in_script [] (
            connected_as false
              (feed (line_clock clock) fp (concat (pieces is)) (connected_as true p)))
  unfolding serve attached
  serve-fed turns conn is p b h small =
      ap (connected_as false) (read_connection-feed_all turns conn is (connected_as true p) h)
      ∙ ap (λ q. in_script [] (connected_as false q))
          (feed_all-concat (line_clock clock) fp (pieces is) (connected_as true p)
            (record { partial = b.partial; within = b.within }) small)

  -- Each item takes a turn of the loop.
  read_connection-begun :
      (conn : ℕ) (past ahead : List Item) (p : ProgressParser (Line W) F)
      → read_connection scripted
          (line_clock clock)
          fp
          (length past)
          conn
          (in_script (past ++ ahead) p)
        ≡ in_script ahead (feed_all (line_clock clock) fp (pieces past) p)
  unfolding read_connection connection_turn feed_all
  read_connection-begun conn [] ahead p = refl
  read_connection-begun conn (wait ∷ past) ahead p = read_connection-begun conn past ahead p
  read_connection-begun conn (piece c cs ∷ past) ahead p =
      ap (λ q. read_connection scripted (line_clock clock) fp (length past) conn q)
        (feed-in_script (past ++ ahead) (c ∷ cs) p)
      ∙ read_connection-begun conn past ahead (feed (line_clock clock) fp (c ∷ cs) p)

  pieces-le :
      (past ahead : List Item)
      → length (concat (pieces past)) ≤ length (concat (pieces (past ++ ahead)))
  pieces-le [] ahead = omega arith
  pieces-le (wait ∷ past) ahead = pieces-le past ahead
  pieces-le (piece c cs ∷ past) ahead = omega (
    arith,
    pieces-le past ahead,
    length-append cs (concat (pieces past)),
    length-append cs (concat (pieces (past ++ ahead))),
  )

  parse_pair-connected :
      (pair : Option (Bytes × Bytes)) (p : ProgressParser (Line W) F)
      → (parse_pair (line_clock clock) fp pair p).stats.connected ≡ p.stats.connected
  unfolding parse_pair store_key stamp
  parse_pair-connected none p = refl
  parse_pair-connected (some (key, value)) p = ground arith

  feed_loop-connected :
      (fuel : ℕ) (rest : Bytes) (p : ProgressParser (Line W) F)
      → (feed_loop (line_clock clock) fp fuel rest p).stats.connected ≡ p.stats.connected
  unfolding feed_loop parse_line
  feed_loop-connected zero rest p = refl
  feed_loop-connected (suc fuel) rest p = elim (Option-cases (split_at b'\n' rest)) [
    | inl e ↦ rw (e, feed_loop) refl
    | inr ((line, behind), e) ↦
        rw (e, feed_loop)
          (feed_loop-connected fuel behind (parse_line (line_clock clock) fp line p)
            ∙ parse_pair-connected (split_at b'=' (strip_last b'\r' line)) p)
  ]

  -- No line changes whether a connection counts.
  feed-connected :
      (chunk : Bytes) (p : ProgressParser (Line W) F)
      → (feed (line_clock clock) fp chunk p).stats.connected ≡ p.stats.connected
  unfolding feed
  feed-connected chunk p =
      let n = suc (length (p.buffer ++ chunk)) in
      ground (arith, feed_loop-connected n (p.buffer ++ chunk) p)

  -- However its data is cut and paced, and with turns for all of it, a connection is parsed as if its
  -- bytes came in one piece behind what was buffered, if these are at most 65536 bytes. So it is
  -- behind any part of its items, one turn for each, and all this time it counts as connected; when
  -- it is closed, it no longer does.
  pub serve-feed :
      (turns conn : ℕ) (past ahead : List Item) (p : ProgressParser (Line W) F)
      → IsBuffered p
      → length (past ++ ahead) < turns
      → length p.buffer + length (concat (pieces (past ++ ahead))) ≤ max_buffered_line
      → let begun = in_script (past ++ ahead) p in
        let q = attached scripted (line_clock clock) fp (length past) conn begun in
        let all = concat (pieces (past ++ ahead)) in
        (q
          ≡ in_script ahead
              (feed (line_clock clock) fp (concat (pieces past)) (connected_as true p)))
        × (q.stats.connected ≡ true)
        × (serve scripted (line_clock clock) fp turns conn begun
            ≡ in_script []
                (connected_as false (feed (line_clock clock) fp all (connected_as true p))))
  unfolding attached
  serve-feed turns conn past ahead p b h small =
      let on = connected_as true p in
      let first =
        read_connection-begun conn past ahead on
        ∙ ap (in_script ahead) (
            feed_all-concat (line_clock clock) fp (pieces past) on
              (record { partial = b.partial; within = b.within })
              (omega (arith, pieces-le past ahead, small))) in
      (
        first,
        ap (λ (q : ProgressParser (Line W) F). q.stats.connected) first
            ∙ feed-connected (concat (pieces past)) on,
        serve-fed turns conn (past ++ ahead) p b h small,
      )
