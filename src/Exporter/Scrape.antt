-- ===== src/Exporter/Scrape.antt =====
-- What a scrape of src/exporter_main.cpp shows of a connection to its progress socket.
use hamstercam.Base.{
  ℕ, ◌+◌, ◌≤◌, ◌<◌, ◌≡◌, refl, ap, sym, subst, ◌∙◌, List, ◌∷◌, ◌++◌, Bytes, bytes_eq, codes, length,
  true, false, arith,
}
use hamstercam.Double.{Double}
use hamstercam.Device.{Clock}
use hamstercam.Http.{HttpResponse, response_text, respond}
use hamstercam.Http.Response.{receive}
use hamstercam.Http.Request.{line_of, flatten, request_from, respond-arrives}
use hamstercam.Http.Request.Words.{IsWord}
use hamstercam.Metrics.{render_exporter_metrics}
use hamstercam.Progress.{ProgressParser, ProducerStats, max_buffered_line, feed}
use hamstercam.Progress.Lines.{concat, IsBuffered}
use hamstercam.Progress.Server.{serve}
use hamstercam.Progress.Connection.{
  Item, pieces, Line, line_clock, scripted, in_script, connected_as, serve-fed,
}
use hamstercam.Exporter.{exporter_page}

-- The page of metrics for statistics.
abbrev pub metrics_of : {F : Type 0} → Double F → ProducerStats F → HttpResponse
metrics_of fp stats = record {
  status = 200;
  content_type = codes "text/plain; version=0.0.4; charset=utf-8";
  body = render_exporter_metrics fp stats;
}

exporter_page-metrics :
    {F : Type 0} (fp : Double F) (stats : ProducerStats F)
    → exporter_page fp stats (codes "GET") (codes "/metrics") ≡ metrics_of fp stats
unfolding exporter_page bytes_eq
exporter_page-metrics fp stats = refl

module _ {W F : Type 0} (clock : Clock W) (fp : Double F) (turns conn : ℕ) (is : List Item)
    (p : ProgressParser (Line W) F) where
  -- The parser behind the connection.
  abbrev pub served : ProgressParser (Line W) F
  served = serve scripted (line_clock clock) fp turns conn (in_script clock fp is p)

  -- The statistics if the data came in one piece.
  abbrev pub fed : ProducerStats F
  fed =
      (connected_as clock fp false
        (feed (line_clock clock) fp (concat (pieces is)) (connected_as clock fp true p))).stats

  -- When a connection to the progress socket has ended, which had turns for all its data and whose
  -- data and what was buffered are at most 65536 bytes, the answer to GET /metrics that arrives shows
  -- the statistics of the data fed in one piece and no connection, however the data, the request and
  -- the answer were cut and paced, if the other end takes as many pieces as the answer has bytes.
  pub scrape-shows :
      (version rest : Bytes) (ps : List (ℕ × Bytes)) (ks : List ℕ) (before : Bytes)
      → IsBuffered p
      → length is < turns
      → length p.buffer + length (concat (pieces is)) ≤ max_buffered_line
      → IsWord version
      → length (line_of (codes "GET") (codes "/metrics") version) + 2 ≤ 8192
      → flatten ps ≡ line_of (codes "GET") (codes "/metrics") version ++ b'\r' ∷ b'\n' ∷ rest
      → length (response_text (metrics_of fp fed)) ≤ length ks
      → (respond request_from receive
          (λ m path k. (exporter_page fp served.stats m path, k))
          (record { sends = ps; pieces = ks; arrived = before })).arrived
        ≡ before ++ response_text (metrics_of fp fed)
  scrape-shows version rest ps ks before b h small v fits e enough =
      let page =
        ap
          (λ (q : ProgressParser (Line W) F).
            exporter_page fp q.stats (codes "GET") (codes "/metrics"))
          (serve-fed clock fp turns conn is p b h small)
        ∙ exporter_page-metrics fp fed in
      respond-arrives (exporter_page fp served.stats) (codes "GET") (codes "/metrics") version rest
        ps ks before (cc, ground arith) (cc, ground arith) v fits e
        (subst (λ r. length (response_text r) ≤ length ks) (sym page) enough)
      ∙ ap (λ r. before ++ response_text r) page
