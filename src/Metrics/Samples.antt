-- ===== src/Metrics/Samples.antt =====
-- The lines of a histogram of src/metrics.cpp, and the labels, as the samples that are read from them.
use hamstercam.Base.{
  ℕ, suc, ◌<◌, ◌≤◌, ◌≡◌, ◌≢◌, refl, ◌∙◌, List, [], ◌∷◌, ◌++◌, Bytes, codes, All, All-append,
  append_assoc, arith,
}
use hamstercam.Double.{Double}
use hamstercam.Text.{to_string}
use hamstercam.Text.Decimal.{IsDigit, to_string-IsDigit}
use hamstercam.Text.Split.{Lacks}
use hamstercam.Json.{escape}
use hamstercam.Histogram.{Histogram}
use hamstercam.Histogram.Counts.{words, IsTallied}
use hamstercam.Stats.{
  ErrorReason, open_error, format, buffer, timeout, dequeue, device_lost, geometry, reason_name,
}
use hamstercam.Metrics.{
  MetricLabel, write_metric_header, write_metric_sample, labels_text, more_labels, bucket_line,
  write_histogram,
}
use hamstercam.Metrics.Buckets.{up_to, rungs, write_histogram_lem}
use hamstercam.Metrics.Read.{Entry, sample, IsNameByte, IsPlainLabel}
use hamstercam.Metrics.Pages.{
  header, Titled, IsPage, IsPage-append, header-IsPage, sample-IsPage, to_string-line, PrintsPlain,
}

abbrev pub label : Bytes → Bytes → MetricLabel
label name value = record { name = name; value = value }

plain_inf : escape (codes "+Inf") ≡ codes "+Inf"
unfolding escape
plain_inf = refl

pub le_self : {n : ℕ} → n ≤ n
le_self {n} = omega arith

-- A text that a label shows as it is.
abbrev pub IsPlainText : Bytes → Type 0
IsPlainText s = Lacks b'\n' s × (escape s ≡ s)

pub label-IsPlainLabel :
    (name value : Bytes)
    → Lacks b'=' name
    → Lacks b'\n' name
    → IsPlainText value
    → IsPlainLabel (label name value)
label-IsPlainLabel name value e l v = record {
  name_plain = e;
  name_line = l;
  value_plain = v.1;
  value_line = v.0;
}

digits-IsPlainText : (s : Bytes) → All IsDigit s → IsPlainText s
unfolding escape
digits-IsPlainText [] h = (tt, refl)
digits-IsPlainText (c ∷ s) h =
    let (l, e) = digits-IsPlainText s h.1 in ((omega (arith, h.0), l), ground (arith, h.0, e))

pub to_string-IsPlainText : (n : ℕ) → IsPlainText (to_string n)
to_string-IsPlainText n = digits-IsPlainText (to_string n) (to_string-IsDigit n)

pub reason_name-IsPlainText : (r : ErrorReason) → IsPlainText (reason_name r)
unfolding reason_name escape
reason_name-IsPlainText open_error = (omega arith, refl)
reason_name-IsPlainText format = (omega arith, refl)
reason_name-IsPlainText buffer = (omega arith, refl)
reason_name-IsPlainText timeout = (omega arith, refl)
reason_name-IsPlainText dequeue = (omega arith, refl)
reason_name-IsPlainText device_lost = (omega arith, refl)
reason_name-IsPlainText geometry = (omega arith, refl)
reason_name-IsPlainText ErrorReason.count = (omega arith, refl)

-- The end of `write_histogram` is two samples.
samples_apart :
    (head lines last name sum count : Bytes)
    → head
        ++ lines
        ++ last
        ++ name
        ++ codes "_sum "
        ++ sum
        ++ codes "\n"
        ++ name
        ++ codes "_count "
        ++ count
        ++ codes "\n"
      ≡ (head ++ lines)
        ++ (last
            ++ (write_metric_sample (name ++ codes "_sum") sum []
                ++ write_metric_sample (name ++ codes "_count") count []))
unfolding write_metric_sample labels_text
samples_apart head lines last name sum count = simp append_assoc

module _ {F : Type 0} (fp : Double F) where
  abbrev bucket_entry : Bytes → Bytes → ℕ → Entry
  bucket_entry name le n =
      sample (name ++ codes "_bucket") (label (codes "le") le ∷ []) (to_string n)

  -- A sample for each bound, with the sum of the counts up to it.
  abbrev pub rung_entries : Bytes → List ℕ → ℕ → List F → List Entry
  rung_entries name counts k [] = []
  rung_entries name counts k (b ∷ bs) =
      bucket_entry name (fp.print b) (up_to 0 (suc k) counts) ∷ rung_entries name counts (suc k) bs

  abbrev pub histogram_entries : Bytes → Bytes → Histogram F → List Entry
  histogram_entries name help h =
      header name help (codes "histogram")
      ++ rung_entries name h.counts 0 h.bounds
      ++ (bucket_entry name (codes "+Inf") h.total
          ∷ sample (name ++ codes "_sum") [] (fp.print h.sum)
          ∷ sample (name ++ codes "_count") [] (to_string h.total)
          ∷ [])

  extended-name :
      (name suffix : Bytes)
      → name ≢ []
      → All IsNameByte name
      → All IsNameByte suffix
      → (name ++ suffix ≢ []) × All IsNameByte (name ++ suffix)
  extended-name [] suffix n b s = absurd (n refl)
  extended-name (c ∷ name) suffix n b s = ((λ e. cc), All-append IsNameByte (c ∷ name) suffix b s)

  bucket_line-sample :
      (name le : Bytes) (n : ℕ)
      → bucket_line name le n
        ≡ write_metric_sample (name ++ codes "_bucket") (to_string n) (label (codes "le") le ∷ [])
  unfolding bucket_line write_metric_sample labels_text more_labels
  bucket_line-sample name le n = simp append_assoc

  bucket_line-IsPage :
      (name le : Bytes) (n : ℕ)
      → name ≢ []
      → All IsNameByte name
      → escape le ≡ le
      → Lacks b'\n' le
      → IsPage (bucket_line name le n) (bucket_entry name le n ∷ [])
  bucket_line-IsPage name le n ne b p l =
      let x = extended-name name (codes "_bucket") ne b (omega arith) in
      let s =
        sample-IsPage (name ++ codes "_bucket") (to_string n) (label (codes "le") le ∷ []) x.0 x.1
          (
            record {
              name_plain = omega arith;
              name_line = omega arith;
              value_plain = p;
              value_line = l;
            },
            tt,
          )
          (omega arith) (to_string-line n) in
      record { text = bucket_line-sample name le n ∙ s.text; plain = s.plain }

  rungs-IsPage :
      (prints : PrintsPlain fp) (name : Bytes) (counts : List ℕ) (k : ℕ) (bs : List F)
      → name ≢ []
      → All IsNameByte name
      → IsPage (rungs fp name 0 counts k bs) (rung_entries name counts k bs)
  rungs-IsPage prints name counts k [] n b = record { text = refl; plain = tt }
  rungs-IsPage prints name counts k (v ∷ bs) n b =
      let p = prints v in
      IsPage-append _ _ (bucket_entry name (fp.print v) (up_to 0 (suc k) counts) ∷ []) _
        (bucket_line-IsPage name (fp.print v) (up_to 0 (suc k) counts) n b p.1 p.0)
        (rungs-IsPage prints name counts (suc k) bs n b)

  pub histogram-IsPage :
      (prints : PrintsPlain fp) (name help : Bytes) (h : Histogram F)
      → IsTallied fp h
      → h.total < words
      → Titled name help
      → IsPage (write_histogram fp name help h) (histogram_entries name help h)
  histogram-IsPage prints name help h t small title =
      let sum = extended-name name (codes "_sum") title.0 title.1 (omega arith) in
      let count = extended-name name (codes "_count") title.0 title.1 (omega arith) in
      let tail =
        IsPage-append _ _ _ _
          (bucket_line-IsPage name (codes "+Inf") h.total title.0 title.1 plain_inf (omega arith))
          (IsPage-append _ _ _ _
            (sample-IsPage (name ++ codes "_sum") (fp.print h.sum) [] sum.0 sum.1 tt (omega arith)
              (prints h.sum).0)
            (sample-IsPage (name ++ codes "_count") (to_string h.total) [] count.0 count.1 tt
              (omega arith) (to_string-line h.total))) in
      let page =
        IsPage-append _ _ _ _
          (IsPage-append _ _ _ _ (header-IsPage name help (codes "histogram") title (omega arith))
            (rungs-IsPage prints name h.counts 0 h.bounds title.0 title.1))
          tail in
      record {
        text =
            write_histogram_lem fp name help h t small
            ∙ samples_apart (write_metric_header name help (codes "histogram"))
                (rungs fp name 0 h.counts 0 h.bounds) (bucket_line name (codes "+Inf") h.total) name
                (fp.print h.sum) (to_string h.total)
            ∙ page.text;
        plain = page.plain;
      }
