-- ===== src/Metrics/Scraped.antt =====
-- The page of src/metrics.cpp as the comments and samples that are read from it.
use hamstercam.Base.{
  ℕ, ◌<◌, ◌≡◌, refl, ap, ◌∙◌, Option, none, some, List, [], ◌∷◌, ◌++◌, Bytes, codes, length, arith,
}
use hamstercam.Double.{Double}
use hamstercam.Text.{to_string}
use hamstercam.Device.{StreamFormat, pixel_format_string}
use hamstercam.Histogram.Counts.{words, IsTallied}
use hamstercam.Stats.{CaptureStats, ErrorReason, reason_name, error_count, stream_info}
use hamstercam.Progress.{ProducerStats}
use hamstercam.Metrics.{
  render_metrics, render_exporter_metrics, all_reasons, error_samples, stream_sample,
}
use hamstercam.Metrics.Read.{Entry, sample, read_page}
use hamstercam.Metrics.Read.Lines.{read_page-page_text}
use hamstercam.Metrics.Pages.{
  header, single, IsPage, IsPage-append, header-IsPage, sample-IsPage, counter-IsPage, gauge-IsPage,
  to_string-line, PrintsPlain, exporter_entries, exporter-IsPage,
}
use hamstercam.Metrics.Samples.{
  label, le_self, IsPlainText, label-IsPlainLabel, to_string-IsPlainText, reason_name-IsPlainText,
  histogram_entries, histogram-IsPage,
}

module _ {F : Type 0} (fp : Double F) where
  -- The samples of the errors.
  abbrev pub error_entries : CaptureStats F → List ErrorReason → List Entry
  error_entries stats [] = []
  error_entries stats (r ∷ rs) =
      sample (codes "hamstercam_capture_errors_total") (label (codes "reason") (reason_name r) ∷ [])
        (to_string (error_count r stats))
      ∷ error_entries stats rs

  -- The observed format, if there is one.
  abbrev pub stream_entries : Option StreamFormat → List Entry
  stream_entries none = []
  stream_entries (some f) =
      header (codes "hamstercam_stream_info") (codes "Observed stream format.") (codes "gauge")
      ++ sample (codes "hamstercam_stream_info")
          (label (codes "width") (to_string f.width)
            ∷ label (codes "height") (to_string f.height)
            ∷ label (codes "pixel_format") (pixel_format_string f)
            ∷ [])
          (codes "1")
        ∷ []

  -- What the page of the daemon says.
  abbrev pub capture_entries : CaptureStats F → Bytes → Bytes → F → ℕ → List Entry
  capture_entries stats version git_sha uptime resident =
      single (codes "hamstercam_frames_received_total") (codes "Frames dequeued.") (codes "counter")
        (to_string stats.frames_received)
      ++ single (codes "hamstercam_bytes_received_total")
          (codes "Payload bytes across received frames.") (codes "counter")
          (to_string stats.bytes_received)
      ++ histogram_entries fp (codes "hamstercam_frame_interval_seconds")
          (codes "Observed inter-frame gap.") stats.frame_interval_seconds
      ++ single (codes "hamstercam_capture_state") (codes "Capture state machine state.")
          (codes "gauge") (to_string stats.capture_state)
      ++ header (codes "hamstercam_capture_errors_total") (codes "Capture errors by reason.")
          (codes "counter")
      ++ error_entries stats (all_reasons fp)
      ++ single (codes "hamstercam_reconnects_total") (codes "Successful reconnections.")
          (codes "counter") (to_string stats.reconnects)
      ++ single (codes "hamstercam_stalls_total") (codes "Stall events entered.") (codes "counter")
          (to_string stats.stalls)
      ++ single (codes "hamstercam_last_frame_unixtime_seconds")
          (codes "Wall-clock time of the last frame.") (codes "gauge")
          (to_string stats.last_frame_unixtime)
      ++ stream_entries (stream_info stats)
      ++ header (codes "hamstercam_build_info") (codes "Build version and git SHA.") (codes "gauge")
      ++ sample (codes "hamstercam_build_info")
          (label (codes "version") version ∷ label (codes "git_sha") git_sha ∷ []) (codes "1")
        ∷ []
      ++ single (codes "hamstercam_process_resident_bytes")
          (codes "Resident memory, for the flatness check.") (codes "gauge") (to_string resident)
      ++ single (codes "hamstercam_uptime_seconds") (codes "Seconds since process start.")
          (codes "gauge") (fp.print uptime)

  errors-IsPage :
      (stats : CaptureStats F) (rs : List ErrorReason)
      → IsPage (error_samples fp stats rs) (error_entries stats rs)
  errors-IsPage stats [] = record { text = refl; plain = tt }
  errors-IsPage stats (r ∷ rs) =
      IsPage-append _ _
        (sample (codes "hamstercam_capture_errors_total")
            (label (codes "reason") (reason_name r) ∷ []) (to_string (error_count r stats))
          ∷ [])
        _
        (sample-IsPage _ _ _ (λ e. cc) (omega arith)
          (
            label-IsPlainLabel (codes "reason") (reason_name r) (omega arith) (omega arith)
                (reason_name-IsPlainText r),
            tt,
          )
          (omega arith) (to_string-line (error_count r stats)))
        (errors-IsPage stats rs)

  -- The text of the pixel format of a stream has nothing to escape.
  abbrev pub IsPlainStream : Option StreamFormat → Type 0
  IsPlainStream none = Unit
  IsPlainStream (some f) = IsPlainText (pixel_format_string f)

  stream-IsPage :
      (o : Option StreamFormat) → IsPlainStream o → IsPage (stream_sample fp o) (stream_entries o)
  stream-IsPage none h = record { text = refl; plain = tt }
  stream-IsPage (some f) h =
      IsPage-append _ _ _ _
        (header-IsPage _ _ _ ((λ e. cc), omega arith, omega arith) (omega arith))
        (sample-IsPage _ _ _ (λ e. cc) (omega arith)
          (
            label-IsPlainLabel (codes "width") (to_string f.width) (omega arith) (omega arith)
                (to_string-IsPlainText f.width),
            (
              label-IsPlainLabel (codes "height") (to_string f.height) (omega arith) (omega arith)
                  (to_string-IsPlainText f.height),
              (
                label-IsPlainLabel (codes "pixel_format") (pixel_format_string f) (omega arith)
                    (omega arith) h,
                tt,
              ),
            ),
          )
          (omega arith) (omega arith))

  capture-IsPage :
      (prints : PrintsPlain fp) (stats : CaptureStats F) (version git_sha : Bytes) (uptime : F)
      (resident : ℕ)
      → IsTallied fp stats.frame_interval_seconds
      → stats.frame_interval_seconds.total < words
      → IsPlainStream (stream_info stats)
      → IsPlainText version
      → IsPlainText git_sha
      → IsPage
          (render_metrics fp stats version git_sha uptime resident)
          (capture_entries stats version git_sha uptime resident)
  unfolding render_metrics
  capture-IsPage prints stats version git_sha uptime resident t small f v g =
      IsPage-append _ _ _ _
        (IsPage-append _ _ _ _
          (IsPage-append _ _ _ _
            (IsPage-append _ _ _ _
              (IsPage-append _ _ _ _
                (IsPage-append _ _ _ _
                  (IsPage-append _ _ _ _
                    (IsPage-append _ _ _ _
                      (IsPage-append _ _ _ _
                        (IsPage-append _ _ _ _
                          (IsPage-append _ _ _ _
                            (IsPage-append _ _ _ _
                              (IsPage-append _ _ _ _
                                (counter-IsPage _ _ stats.frames_received
                                  ((λ e. cc), omega arith, omega arith))
                                (counter-IsPage _ _ stats.bytes_received
                                  ((λ e. cc), omega arith, omega arith)))
                              (histogram-IsPage fp prints _ _ stats.frame_interval_seconds t small
                                ((λ e. cc), omega arith, omega arith)))
                            (gauge-IsPage _ _ _ ((λ e. cc), omega arith, omega arith)
                              (to_string-line stats.capture_state)))
                          (header-IsPage _ _ _ ((λ e. cc), omega arith, omega arith) (omega arith)))
                        (errors-IsPage stats (all_reasons fp)))
                      (counter-IsPage _ _ stats.reconnects ((λ e. cc), omega arith, omega arith)))
                    (counter-IsPage _ _ stats.stalls ((λ e. cc), omega arith, omega arith)))
                  (gauge-IsPage _ _ _ ((λ e. cc), omega arith, omega arith)
                    (to_string-line stats.last_frame_unixtime)))
                (stream-IsPage (stream_info stats) f))
              (header-IsPage _ _ _ ((λ e. cc), omega arith, omega arith) (omega arith)))
            (sample-IsPage _ _ _ (λ e. cc) (omega arith)
              (
                label-IsPlainLabel (codes "version") version (omega arith) (omega arith) v,
                (label-IsPlainLabel (codes "git_sha") git_sha (omega arith) (omega arith) g, tt),
              )
              (omega arith) (omega arith)))
          (gauge-IsPage _ _ _ ((λ e. cc), omega arith, omega arith) (to_string-line resident)))
        (gauge-IsPage _ _ _ ((λ e. cc), omega arith, omega arith) (prints uptime).0)

  -- A page with as many lines as entries is read back, whatever the statistics: the daemon's, if the
  -- counts of its histogram add up to a total of 64 bits and if the text of the observed format, the
  -- version and the git SHA have no line end and nothing to escape, and the exporter's; provided that
  -- `ostream << double` writes no line end and nothing to escape either.
  pub read_page-pages :
      (prints : PrintsPlain fp) (stats : CaptureStats F) (version git_sha : Bytes) (uptime : F)
      (resident : ℕ) (producer : ProducerStats F)
      → IsTallied fp stats.frame_interval_seconds
      → stats.frame_interval_seconds.total < words
      → IsPlainStream (stream_info stats)
      → IsPlainText version
      → IsPlainText git_sha
      → let es = capture_entries stats version git_sha uptime resident in
        let fs = exporter_entries fp producer in
        (read_page (length es) (render_metrics fp stats version git_sha uptime resident) ≡ some es)
        × (read_page (length fs) (render_exporter_metrics fp producer) ≡ some fs)
  read_page-pages prints stats version git_sha uptime resident producer t small f v g =
      let es = capture_entries stats version git_sha uptime resident in
      let fs = exporter_entries fp producer in
      let p = capture-IsPage prints stats version git_sha uptime resident t small f v g in
      let q = exporter-IsPage fp prints producer in
      (
        ap (read_page (length es)) p.text ∙ read_page-page_text es (length es) le_self p.plain,
        ap (read_page (length fs)) q.text ∙ read_page-page_text fs (length fs) le_self q.plain,
      )
