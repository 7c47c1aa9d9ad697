-- ===== src/Tests/Pages.antt =====
-- Metrics and responses on concrete inputs.
use hamstercam.Base.{ℕ, ◌≡◌, refl, true, length, some, [], ◌∷◌, codes, arith}
use hamstercam.Histogram.{Histogram}
use hamstercam.Metrics.{write_metric_sample, labels_text, more_labels}
use hamstercam.Text.{to_string}
use hamstercam.Http.{HttpResponse, split_host_port, status_text, response_text}
use hamstercam.Json.{escape}
use hamstercam.Device.{pixel_format_string}
use hamstercam.Stats.{CaptureStats, new_stats, stream_info}
use hamstercam.Progress.{ProducerStats}
use hamstercam.Metrics.{render_metrics, render_exporter_metrics}
use hamstercam.Metrics.Read.{read_page}
use hamstercam.Metrics.Pages.{exporter_entries}
use hamstercam.Metrics.Scraped.{capture_entries, read_page-pages}
use hamstercam.Tests.Fake.{micro, vga}

abbrev observed : Histogram ℕ
observed = record { bounds = 10 ∷ 20 ∷ []; counts = 3 ∷ 4 ∷ 1 ∷ []; sum = 90; total = 8 }

-- Statistics with a stream and an error.
abbrev scraped : CaptureStats ℕ
scraped = record (new_stats micro) {
  frames_received = 8;
  bytes_received = 3_686_400;
  frame_interval_seconds = observed;
  errors = 0 ∷ 0 ∷ 0 ∷ 1 ∷ 0 ∷ 0 ∷ 0 ∷ [];
  stream_info_known = true;
  stream_info_format = vga;
}

abbrev produced : ProducerStats ℕ
produced = record {
  frames_total = 42;
  fps = 15;
  dropped_frames_total = 1;
  duplicated_frames_total = 0;
  speed_ratio = 1;
  connected = true;
  last_update_unixtime = 1_795_665_960;
}

read_page-pages_example :
    let es = capture_entries micro scraped (codes "1.0") (codes "abc") 9 4096 in
    let fs = exporter_entries micro produced in
    (read_page (length es) (render_metrics micro scraped (codes "1.0") (codes "abc") 9 4096)
      ≡ some es)
    × (read_page (length fs) (render_exporter_metrics micro produced) ≡ some fs)
unfolding escape stream_info pixel_format_string
read_page-pages_example =
    read_page-pages micro (λ v. (omega arith, refl)) scraped (codes "1.0") (codes "abc") 9 4096
      produced (record { sized = refl; tallied = refl }) (omega arith) (omega arith, refl)
      (omega arith, refl) (omega arith, refl)

sample :
    write_metric_sample (codes "info") (codes "1") (
      record { name = codes "a"; value = codes "x" }
      ∷ record { name = codes "b"; value = codes "y" }
      ∷ [])
    ≡ codes "info{a=\"x\",b=\"y\"} 1\n"
unfolding write_metric_sample labels_text more_labels
sample = refl

address : split_host_port (codes "[::1]:9843") ≡ some (codes "[::1]", codes "9843")
unfolding split_host_port
address = refl

abbrev not_found : HttpResponse
not_found = record { status = 404; content_type = codes "text/plain"; body = codes "not found\n" }

page :
    response_text not_found
    ≡ codes
        "HTTP/1.1 404 Not Found\r\nContent-Type: text/plain\r\nContent-Length: 10\r\nConnection: close\r\n\r\nnot found\n"
unfolding response_text status_text to_string
page = refl
