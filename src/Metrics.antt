-- ===== src/Metrics.antt =====
-- src/metrics_primitives.cpp, src/metrics.cpp and src/exporter_metrics.cpp. What a function writes to
-- its `std::ostringstream` is its result.
pub mod Buckets
pub mod Read
pub mod Pages
pub mod Samples
pub mod Scraped
use hamstercam.Base.{
  ℕ, zero, suc, Bool, true, false, Option, none, some, List, [], ◌∷◌, ◌++◌, ltb, if◌then◌else◌,
  Bytes, codes, add_u64,
}
use hamstercam.Double.{Double}
use hamstercam.Histogram.{Histogram}
use hamstercam.Text.{to_string}
use hamstercam.Device.{StreamFormat, pixel_format_string}
use hamstercam.Stats.{
  CaptureStats, ErrorReason, open_error, format, buffer, timeout, dequeue, device_lost, geometry,
  reason_name, error_count, stream_info,
}
use hamstercam.Progress.{ProducerStats}

pub record MetricLabel : Type 0 where
  pub name : Bytes
  pub value : Bytes

unfoldable pub write_metric_header : Bytes → Bytes → Bytes → Bytes
write_metric_header name help type =
    codes "# HELP "
    ++ name
    ++ codes " "
    ++ help
    ++ codes "\n"
    ++ codes "# TYPE "
    ++ name
    ++ codes " "
    ++ type
    ++ codes "\n"

abbrev label_text : MetricLabel → Bytes
label_text l = l.name ++ codes "=\"" ++ l.value ++ codes "\""

-- The loop over the labels behind the first one.
unfoldable pub more_labels : List MetricLabel → Bytes
more_labels [] = []
more_labels (l ∷ ls) = codes "," ++ label_text l ++ more_labels ls

unfoldable pub labels_text : List MetricLabel → Bytes
labels_text [] = []
labels_text (l ∷ ls) = codes "{" ++ label_text l ++ more_labels ls ++ codes "}"

unfoldable pub write_metric_sample : Bytes → Bytes → List MetricLabel → Bytes
write_metric_sample name value labels =
    name ++ labels_text labels ++ codes " " ++ value ++ codes "\n"

unfoldable pub write_counter : Bytes → Bytes → ℕ → Bytes
write_counter name help value =
    write_metric_header name help (codes "counter") ++ write_metric_sample name (to_string value) []

unfoldable pub write_gauge : Bytes → Bytes → Bytes → Bytes
write_gauge name help value =
    write_metric_header name help (codes "gauge") ++ write_metric_sample name value []

-- One line of `write_histogram` for the bound `le`.
unfoldable pub bucket_line : Bytes → Bytes → ℕ → Bytes
bucket_line name le cumulative =
    name ++ codes "_bucket{le=\"" ++ le ++ codes "\"} " ++ to_string cumulative ++ codes "\n"

-- `back()`; 0 for no counts, which a histogram never has.
unfoldable pub back : List ℕ → ℕ
back [] = 0
back (c ∷ []) = c
back (c ∷ d ∷ cs) = back (d ∷ cs)

module _ {F : Type 0} (fp : Double F) where
  -- The loop over the bounds: its lines, and `cumulative` behind it. A histogram has a count for
  -- each bound.
  unfoldable pub bucket_lines : Bytes → ℕ → List F → List ℕ → Bytes × ℕ
  bucket_lines name cumulative [] counts = ([], cumulative)
  bucket_lines name cumulative (b ∷ bs) [] = ([], cumulative)
  bucket_lines name cumulative (b ∷ bs) (c ∷ cs) =
      let next = add_u64 cumulative c in
      let (rest, final) = bucket_lines name next bs cs in
      (bucket_line name (fp.print b) next ++ rest, final)

  unfoldable pub write_histogram : Bytes → Bytes → Histogram F → Bytes
  write_histogram name help h =
      let (lines, cumulative) = bucket_lines name 0 h.bounds h.counts in
      write_metric_header name help (codes "histogram")
      ++ lines
      ++ bucket_line name (codes "+Inf") (add_u64 cumulative (back h.counts))
      ++ name
      ++ codes "_sum "
      ++ fp.print h.sum
      ++ codes "\n"
      ++ name
      ++ codes "_count "
      ++ to_string h.total
      ++ codes "\n"

  -- The samples of the errors, in the order of the enumeration.
  abbrev pub error_samples : CaptureStats F → List ErrorReason → Bytes
  error_samples stats [] = []
  error_samples stats (r ∷ rs) =
      write_metric_sample (codes "hamstercam_capture_errors_total")
        (to_string (error_count r stats))
        (record { name = codes "reason"; value = reason_name r } ∷ [])
      ++ error_samples stats rs

  abbrev pub all_reasons : List ErrorReason
  all_reasons = open_error ∷ format ∷ buffer ∷ timeout ∷ dequeue ∷ device_lost ∷ geometry ∷ []

  abbrev pub stream_sample : Option StreamFormat → Bytes
  stream_sample none = []
  stream_sample (some f) =
      write_metric_header (codes "hamstercam_stream_info") (codes "Observed stream format.")
        (codes "gauge")
      ++ write_metric_sample (codes "hamstercam_stream_info") (codes "1") (
          record { name = codes "width"; value = to_string f.width }
          ∷ record { name = codes "height"; value = to_string f.height }
          ∷ record { name = codes "pixel_format"; value = pixel_format_string f }
          ∷ [])

  -- The version and the git SHA are those of the build.
  unfoldable pub render_metrics : CaptureStats F → Bytes → Bytes → F → ℕ → Bytes
  render_metrics stats version git_sha uptime_seconds resident_bytes =
      write_counter (codes "hamstercam_frames_received_total") (codes "Frames dequeued.")
        stats.frames_received
      ++ write_counter (codes "hamstercam_bytes_received_total")
          (codes "Payload bytes across received frames.") stats.bytes_received
      ++ write_histogram (codes "hamstercam_frame_interval_seconds")
          (codes "Observed inter-frame gap.") stats.frame_interval_seconds
      ++ write_gauge (codes "hamstercam_capture_state") (codes "Capture state machine state.")
          (to_string stats.capture_state)
      ++ write_metric_header (codes "hamstercam_capture_errors_total")
          (codes "Capture errors by reason.") (codes "counter")
      ++ error_samples stats all_reasons
      ++ write_counter (codes "hamstercam_reconnects_total") (codes "Successful reconnections.")
          stats.reconnects
      ++ write_counter (codes "hamstercam_stalls_total") (codes "Stall events entered.")
          stats.stalls
      ++ write_gauge (codes "hamstercam_last_frame_unixtime_seconds")
          (codes "Wall-clock time of the last frame.") (to_string stats.last_frame_unixtime)
      ++ stream_sample (stream_info stats)
      ++ write_metric_header (codes "hamstercam_build_info") (codes "Build version and git SHA.")
          (codes "gauge")
      ++ write_metric_sample (codes "hamstercam_build_info") (codes "1") (
          record { name = codes "version"; value = version }
          ∷ record { name = codes "git_sha"; value = git_sha }
          ∷ [])
      ++ write_gauge (codes "hamstercam_process_resident_bytes")
          (codes "Resident memory, for the flatness check.") (to_string resident_bytes)
      ++ write_gauge (codes "hamstercam_uptime_seconds") (codes "Seconds since process start.")
          (fp.print uptime_seconds)

  unfoldable pub render_exporter_metrics : ProducerStats F → Bytes
  render_exporter_metrics stats =
      write_counter (codes "hamstercam_producer_frames_total")
        (codes "Frames ffmpeg has processed.") stats.frames_total
      ++ write_gauge (codes "hamstercam_producer_fps")
          (codes "ffmpeg's reported instantaneous fps.") (fp.print stats.fps)
      ++ write_counter (codes "hamstercam_producer_dropped_frames_total")
          (codes "ffmpeg's drop_frames.") stats.dropped_frames_total
      ++ write_counter (codes "hamstercam_producer_duplicated_frames_total")
          (codes "ffmpeg's dup_frames.") stats.duplicated_frames_total
      ++ write_gauge (codes "hamstercam_producer_speed_ratio")
          (codes "ffmpeg's speed (1.0 = realtime).") (fp.print stats.speed_ratio)
      ++ write_gauge (codes "hamstercam_producer_connected")
          (codes "1 while ffmpeg is attached, else 0.")
          (if stats.connected then codes "1" else codes "0")
      ++ write_gauge (codes "hamstercam_producer_last_update_unixtime_seconds")
          (codes "Wall-clock time of the last progress block.")
          (to_string stats.last_update_unixtime)
