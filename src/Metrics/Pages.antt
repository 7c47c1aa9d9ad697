-- ===== src/Metrics/Pages.antt =====
-- The pages of src/metrics.cpp and src/exporter_metrics.cpp as the comments and samples that are read
-- from them.
use hamstercam.Base.{
  ℕ, ◌<◌, ◌≡◌, ◌≢◌, refl, sym, Bool, true, false, List, [], ◌∷◌, ◌++◌, if◌then◌else◌, Bytes, codes,
  All, All-append, length, append_assoc, arith,
}
use hamstercam.Double.{Double}
use hamstercam.Text.{to_string}
use hamstercam.Text.Decimal.{IsDigit, to_string-IsDigit}
use hamstercam.Text.Split.{Lacks}
use hamstercam.Json.{escape}
use hamstercam.Progress.{ProducerStats}
use hamstercam.Metrics.{
  MetricLabel, write_metric_header, write_metric_sample, write_counter, write_gauge,
  render_exporter_metrics,
}
use hamstercam.Metrics.Read.Lines.{name-Lacks, Lacks-append}
use hamstercam.Metrics.Read.{
  Entry, comment, sample, IsNameByte, IsPlainLabel, IsPlainEntry, page_text,
}

-- The two comments in front of a metric, and a metric of one sample.
abbrev pub header : Bytes → Bytes → Bytes → List Entry
header name help type =
    comment (codes " HELP " ++ name ++ codes " " ++ help)
    ∷ comment (codes " TYPE " ++ name ++ codes " " ++ type)
    ∷ []

abbrev pub single : Bytes → Bytes → Bytes → Bytes → List Entry
single name help type value = header name help type ++ sample name [] value ∷ []

page_text-append : (a b : List Entry) → page_text (a ++ b) ≡ page_text a ++ page_text b
page_text-append [] b = refl
page_text-append (e ∷ a) b = simp (page_text-append a b, append_assoc)

write_metric_header-page :
    (name help type : Bytes)
    → write_metric_header name help type ≡ page_text (header name help type)
unfolding write_metric_header
write_metric_header-page name help type = simp append_assoc

write_metric_sample-page :
    (name value : Bytes) (ls : List MetricLabel)
    → write_metric_sample name value ls ≡ page_text (sample name ls value ∷ [])
unfolding write_metric_sample
write_metric_sample-page name value ls = simp append_assoc

pub to_string-line : (n : ℕ) → Lacks b'\n' (to_string n)
to_string-line n = go (to_string n) (to_string-IsDigit n)
  where
    go : (s : Bytes) → All IsDigit s → Lacks b'\n' s
    go [] h = tt
    go (c ∷ s) h = (omega (arith, h.0), go s h.1)

-- A text is the page of entries that fit on their lines.
pub record IsPage (s : Bytes) (es : List Entry) : Type 0 where
  pub text : s ≡ page_text es
  pub plain : All IsPlainEntry es

pub IsPage-append :
    (s t : Bytes) (es fs : List Entry) → IsPage s es → IsPage t fs → IsPage (s ++ t) (es ++ fs)
IsPage-append s t es fs p q = record {
  text = rw (p.text, q.text) (sym (page_text-append es fs));
  plain = All-append IsPlainEntry es fs p.plain q.plain;
}

-- The name and the help of a metric.
abbrev pub Titled : Bytes → Bytes → Type 0
Titled name help = (name ≢ []) × All IsNameByte name × Lacks b'\n' help

Titled-Lacks :
    (name help word : Bytes)
    → Titled name help
    → Lacks b'\n' word
    → Lacks b'\n' help
    → Lacks b'\n' (word ++ name ++ codes " " ++ help)
Titled-Lacks name help word t w h =
    Lacks-append (word ++ name ++ codes " ") help
      (Lacks-append (word ++ name) (codes " ") (Lacks-append word name w (name-Lacks name t.1))
        (omega arith))
      h

pub header-IsPage :
    (name help type : Bytes)
    → Titled name help
    → Lacks b'\n' type
    → IsPage (write_metric_header name help type) (header name help type)
header-IsPage name help type t l = record {
  text = write_metric_header-page name help type;
  plain = (
    Titled-Lacks name help (codes " HELP ") t (omega arith) t.2,
    (Titled-Lacks name type (codes " TYPE ") (t.0, t.1, l) (omega arith) l, tt),
  );
}

pub sample-IsPage :
    (name value : Bytes) (ls : List MetricLabel)
    → name ≢ []
    → All IsNameByte name
    → All IsPlainLabel ls
    → length ls < 4
    → Lacks b'\n' value
    → IsPage (write_metric_sample name value ls) (sample name ls value ∷ [])
sample-IsPage name value ls n b p l v = record {
  text = write_metric_sample-page name value ls;
  plain = ((n, b, p, l, v), tt);
}

pub counter-IsPage :
    (name help : Bytes) (n : ℕ)
    → Titled name help
    → IsPage (write_counter name help n) (single name help (codes "counter") (to_string n))
unfolding write_counter
counter-IsPage name help n t =
    IsPage-append (write_metric_header name help (codes "counter"))
      (write_metric_sample name (to_string n) []) _ _
      (header-IsPage name help (codes "counter") t (omega arith))
      (sample-IsPage name (to_string n) [] t.0 t.1 tt (omega arith) (to_string-line n))

pub gauge-IsPage :
    (name help value : Bytes)
    → Titled name help
    → Lacks b'\n' value
    → IsPage (write_gauge name help value) (single name help (codes "gauge") value)
unfolding write_gauge
gauge-IsPage name help value t v =
    IsPage-append (write_metric_header name help (codes "gauge"))
      (write_metric_sample name value []) _ _
      (header-IsPage name help (codes "gauge") t (omega arith))
      (sample-IsPage name value [] t.0 t.1 tt (omega arith) v)

module _ {F : Type 0} (fp : Double F) where
  -- What the page of the exporter says.
  abbrev pub exporter_entries : ProducerStats F → List Entry
  exporter_entries stats =
      single (codes "hamstercam_producer_frames_total") (codes "Frames ffmpeg has processed.")
        (codes "counter") (to_string stats.frames_total)
      ++ single (codes "hamstercam_producer_fps") (codes "ffmpeg's reported instantaneous fps.")
          (codes "gauge") (fp.print stats.fps)
      ++ single (codes "hamstercam_producer_dropped_frames_total") (codes "ffmpeg's drop_frames.")
          (codes "counter") (to_string stats.dropped_frames_total)
      ++ single (codes "hamstercam_producer_duplicated_frames_total") (codes "ffmpeg's dup_frames.")
          (codes "counter") (to_string stats.duplicated_frames_total)
      ++ single (codes "hamstercam_producer_speed_ratio") (codes "ffmpeg's speed (1.0 = realtime).")
          (codes "gauge") (fp.print stats.speed_ratio)
      ++ single (codes "hamstercam_producer_connected")
          (codes "1 while ffmpeg is attached, else 0.") (codes "gauge")
          (if stats.connected then codes "1" else codes "0")
      ++ single (codes "hamstercam_producer_last_update_unixtime_seconds")
          (codes "Wall-clock time of the last progress block.") (codes "gauge")
          (to_string stats.last_update_unixtime)

  -- `ostream << double` writes no line end, and nothing that a label would have to escape.
  abbrev pub PrintsPlain : Type 0
  PrintsPlain = (v : F) → Lacks b'\n' (fp.print v) × (escape (fp.print v) ≡ fp.print v)

  flag-line : (b : Bool) → Lacks b'\n' (if b then codes "1" else codes "0")
  flag-line true = omega arith
  flag-line false = omega arith

  pub exporter-IsPage :
      PrintsPlain
      → (stats : ProducerStats F)
      → IsPage (render_exporter_metrics fp stats) (exporter_entries stats)
  unfolding render_exporter_metrics
  exporter-IsPage prints stats =
      IsPage-append _ _ _ _
        (IsPage-append _ _ _ _
          (IsPage-append _ _ _ _
            (IsPage-append _ _ _ _
              (IsPage-append _ _ _ _
                (IsPage-append _ _ _ _
                  (counter-IsPage _ _ stats.frames_total ((λ e. cc), omega arith, omega arith))
                  (gauge-IsPage _ _ _ ((λ e. cc), omega arith, omega arith) (prints stats.fps).0))
                (counter-IsPage _ _ stats.dropped_frames_total
                  ((λ e. cc), omega arith, omega arith)))
              (counter-IsPage _ _ stats.duplicated_frames_total
                ((λ e. cc), omega arith, omega arith)))
            (gauge-IsPage _ _ _ ((λ e. cc), omega arith, omega arith) (prints stats.speed_ratio).0))
          (gauge-IsPage _ _ _ ((λ e. cc), omega arith, omega arith) (flag-line stats.connected)))
        (gauge-IsPage _ _ _ ((λ e. cc), omega arith, omega arith)
          (to_string-line stats.last_update_unixtime))
