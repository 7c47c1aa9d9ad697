-- ===== src/Tests/Servers.antt =====
-- The two servers over scripted sockets.
use hamstercam.Base.{
  ℕ, suc, ◌+◌, ◌≡◌, refl, true, false, none, some, List, [], ◌∷◌, Bytes, codes, length, bytes_eq,
  replicate, arith,
}
use hamstercam.Device.{Clock}
use hamstercam.Text.{to_string, split_at, strip_last}
use hamstercam.Sockets.{ok, refused, ready, received, Sockets}
use hamstercam.Sockets.Ledger.{Watched, watch}
use hamstercam.Http.{HttpResponse, response_text, respond, status_text}
use hamstercam.Http.Response.{receive}
use hamstercam.Http.Request.{request_from, respond-arrives}
use hamstercam.Http.Server as HttpSide
use hamstercam.Http.Lifetime as HttpLife
use hamstercam.Http.Lifetime.{run-start-Owns}
use hamstercam.Progress.{
  ProgressParser, ProducerStats, feed, feed_loop, parse_line, parse_pair, store_key, stamp,
  parse_u64, parse_digits, parse_measure, parse_double, max_buffered_line,
}
use hamstercam.Progress.Lines.{concat}
use hamstercam.Progress.Server as ProgressSide
use hamstercam.Progress.Server.{attached, serve}
use hamstercam.Progress.Connection.{
  Item, wait, piece, pieces, Line, line_clock, scripted, in_script, connected_as, serve-feed,
}
use hamstercam.Progress.Lifetime.{Starts, watched_clock, run-start-Starts}
use hamstercam.Progress.Lifetime as ProgressLife
use hamstercam.Metrics.{
  render_exporter_metrics, write_counter, write_gauge, write_metric_header, write_metric_sample,
  labels_text,
}
use hamstercam.Exporter.{exporter_page}
use hamstercam.Exporter.Scrape.{metrics_of, served, fed, scrape-shows}
use hamstercam.Tests.Fake.{micro}

abbrev still : Clock ℕ
still = record { steady_now = λ k. (k, k); wall_now = λ k. (k, k) }

-- Two addresses, the first of which cannot be bound; every call counts, and descriptors are counts.
abbrev net : Sockets ℕ ℕ
net = record {
  getaddrinfo = λ host port k. (some (1 ∷ 2 ∷ []), k + 1);
  freeaddrinfo = λ found k. k + 1;
  socket_for = λ a k. (some k, k + 1);
  reuse_address = λ fd k. k + 1;
  bind_address = λ fd a k. (elim a [ suc (suc n) ↦ true | _ ↦ false ], k + 1);
  unix_socket = λ k. (ok k, k + 1);
  unlink = λ path k. k + 1;
  bind_path = λ fd path k. (refused (codes "Permission denied"), k + 1);
  listen = λ fd n k. (ok tt, k + 1);
  poll = λ fd t k. (ready, k + 1);
  accept = λ fd k. (some k, k + 1);
  recv = λ fd n k. (received b'G' (codes "ET /metrics HTTP/1.1\r\n\r\n"), k + 1);
  send = λ fd bytes k. (some (length bytes), k + 1);
  close_fd = λ fd k. k + 1;
  stop_requested = λ k. (false, k);
}

abbrev page : Bytes → Bytes → HttpResponse
page method path = record { status = 200; content_type = codes "text/plain"; body = path }

run-start-Owns_example :
    let (listening, s) =
      HttpSide.start
        (watch net)
        (HttpSide.make (codes "localhost:9843") (record { inner = 3; open_fds = []; lists = 0 })) in
    let s' = HttpSide.run (watch net) (HttpLife.answer net (λ m p k. (page m p, k))) 2 s in
    HttpLife.Owns [] 0 s
    × (listening ≡ false → s.listen_fd ≡ none)
    × HttpLife.Owns [] 0 s'
    × ((HttpSide.destroy (watch net) s').kernel.open_fds ≡ [])
run-start-Owns_example = run-start-Owns net (λ m p k. (page m p, k)) (codes "localhost:9843") 3 2

abbrev no_stats : ProducerStats ℕ
no_stats = record {
  frames_total = 0;
  fps = 0;
  dropped_frames_total = 0;
  duplicated_frames_total = 0;
  speed_ratio = 0;
  connected = false;
  last_update_unixtime = 0;
}

abbrev idle : ProgressParser (Watched ℕ) ℕ
idle = record {
  stats = no_stats;
  buffer = [];
  world = record { inner = 3; open_fds = []; lists = 0 };
}

abbrev waiting : ProgressParser (Line ℕ) ℕ
waiting = record { stats = no_stats; buffer = []; world = record { script = []; outside = 3 } }

run-start-Starts_example :
    let r = ProgressSide.start (watch net) 108 (ProgressSide.make (codes "/run/p.sock") idle) in
    let s = ProgressSide.run (watch net) (watched_clock still) micro (3 ∷ 3 ∷ []) r.1 in
    Starts net r
    × ProgressLife.Owns s
    × ((ProgressSide.destroy (watch net) s).parser.world.open_fds ≡ [])
run-start-Starts_example =
    run-start-Starts net still micro (codes "/run/p.sock") 108 idle (3 ∷ 3 ∷ []) refl

-- A request in three pieces, and a response taken a byte at a time.
abbrev request : List (ℕ × Bytes)
request =
    (b'G', codes "ET /heal") ∷ (b't', codes "hz HTTP/1.1\r") ∷ (b'\n', codes "Host: x\r\n\r\n") ∷ []

respond-arrives_example :
    (respond request_from receive
      (λ m p k. (page m p, k))
      (record { sends = request; pieces = replicate 200 0; arrived = [] })).arrived
    ≡ response_text (page (codes "GET") (codes "/healthz"))
unfolding response_text status_text to_string
respond-arrives_example =
    respond-arrives page (codes "GET") (codes "/healthz") (codes "HTTP/1.1")
      (codes "Host: x\r\n\r\n") request (replicate 200 0) [] (cc, ground arith) (cc, ground arith)
      (cc, ground arith) (omega arith) refl (omega arith)

-- Two pieces of a block with timeouts around them.
abbrev items : List Item
items = wait ∷ piece b'f' (codes "rame=4") ∷ wait ∷ piece b'2' (codes "\nfps=30") ∷ []

-- Behind its first two items, and at its end.
abbrev later : List Item
later = wait ∷ piece b'2' (codes "\nfps=30") ∷ []

serve-feed_example :
    let q = attached scripted (line_clock still) micro 2 4 (in_script still micro items waiting) in
    (q
      ≡ in_script still micro later
          (feed (line_clock still) micro (codes "frame=4") (connected_as still micro true waiting)))
    × (q.stats.connected ≡ true)
    × (serve scripted (line_clock still) micro 9 4 (in_script still micro items waiting)
        ≡ in_script still micro [] (
            connected_as still micro false (
              feed
                (line_clock still)
                micro
                (concat (pieces items))
                (connected_as still micro true waiting))))
serve-feed_example =
    serve-feed still micro 9 4 (wait ∷ piece b'f' (codes "rame=4") ∷ []) later waiting
      (record { partial = tt; within = omega arith }) (omega arith) (omega arith)

-- The connection above, and a scrape behind it.
abbrev scrape : List (ℕ × Bytes)
scrape = (b'G', codes "ET /met") ∷ (b'r', codes "ics HTTP/1.1\r\n\r\n") ∷ []

scrape-shows_example :
    (respond request_from receive
      (λ m path k. (exporter_page micro (served still micro 9 4 items waiting).stats m path, k))
      (record { sends = scrape; pieces = replicate 4000 0; arrived = [] })).arrived
    ≡ response_text (metrics_of micro (fed still micro 9 4 items waiting))
unfolding response_text status_text to_string render_exporter_metrics write_counter write_gauge
    write_metric_header write_metric_sample labels_text feed feed_loop parse_line parse_pair
    store_key stamp split_at strip_last bytes_eq parse_u64 parse_digits parse_measure parse_double
    max_buffered_line
scrape-shows_example =
    scrape-shows still micro 9 4 items waiting (codes "HTTP/1.1") (codes "\r\n") scrape
      (replicate 4000 0) [] (record { partial = tt; within = omega arith }) (omega arith)
      (omega arith) (cc, ground arith) (omega arith) refl (omega arith)
