-- ===== src/Metrics/Buckets.antt =====
-- The lines of `write_histogram` of src/metrics.cpp.
use hamstercam.Base.{
  ℕ, zero, suc, ◌+◌, ◌%◌, ◌≡◌, ◌<◌, refl, ap, List, [], ◌∷◌, ◌++◌, Bytes, codes, length, take,
  add_u64, arith,
}
use hamstercam.Double.{Double}
use hamstercam.Histogram.{Histogram}
use hamstercam.Histogram.Counts.{total_of, words, IsTallied}
use hamstercam.Text.{to_string}
use hamstercam.Metrics.{bucket_line, back, bucket_lines, write_histogram, write_metric_header}

-- The sum of `n` counts behind those that add up to `acc`, in 64 bits.
abbrev pub up_to : ℕ → ℕ → List ℕ → ℕ
up_to acc n counts = (acc + total_of (take n counts)) % words

total_of-back :
    (n : ℕ) (cs : List ℕ) → length cs ≡ n + 1 → total_of (take n cs) + back cs ≡ total_of cs
unfolding back
total_of-back n [] h = absurd (omega arith)
total_of-back zero (c ∷ []) h = omega arith
total_of-back zero (c ∷ d ∷ cs) h = absurd (omega arith)
total_of-back (suc n) (c ∷ []) h = absurd (omega arith)
total_of-back (suc n) (c ∷ d ∷ cs) h = omega (arith, total_of-back n (d ∷ cs) (omega arith))

module _ {F : Type 0} (fp : Double F) where
  -- A line for each bound, the first of which is the bound of the count with index `k`.
  abbrev pub rungs : Bytes → ℕ → List ℕ → ℕ → List F → Bytes
  rungs name acc counts k [] = []
  rungs name acc counts k (b ∷ bs) =
      bucket_line name (fp.print b) (up_to acc (suc k) counts) ++ rungs name acc counts (suc k) bs

  rungs-shift :
      (name : Bytes) (acc c : ℕ) (cs : List ℕ) (k : ℕ) (bs : List F)
      → rungs name (acc + c) cs k bs ≡ rungs name acc (c ∷ cs) (suc k) bs
  rungs-shift name acc c cs k [] = refl
  rungs-shift name acc c cs k (b ∷ bs) =
      let same : up_to (acc + c) (suc k) cs ≡ up_to acc (suc (suc k)) (c ∷ cs) = omega arith in
      rw (same, rungs-shift name acc c cs (suc k) bs)

  bucket_lines-rungs :
      (name : Bytes) (cs : List ℕ) (bs : List F) (acc cum : ℕ)
      → length cs ≡ length bs + 1
      → cum ≡ acc % words
      → bucket_lines fp name cum bs cs ≡ (rungs name acc cs 0 bs, up_to acc (length bs) cs)
  unfolding bucket_lines add_u64
  bucket_lines-rungs name cs [] acc cum h e = ap (λ n. ([], n)) (omega arith)
  bucket_lines-rungs name [] (b ∷ bs) acc cum h e = absurd (omega arith)
  bucket_lines-rungs name (c ∷ cs) (b ∷ bs) acc cum h e =
      let next : (cum + c) % words ≡ up_to acc 1 (c ∷ cs) = omega arith in
      let final : up_to (acc + c) (length bs) cs ≡ up_to acc (suc (length bs)) (c ∷ cs) =
        omega arith in
      rw (
        bucket_lines-rungs name cs bs (acc + c) ((cum + c) % words) (omega arith) (omega arith),
        rungs-shift name acc c cs 0 bs,
        next,
        final,
      )

  -- A histogram whose counts add up to its total, a number of 64 bits, is written as a line for each
  -- bound with the sum of the counts up to it, and the same number for `+Inf` as for `_count`.
  pub write_histogram_lem :
      (name help : Bytes) (h : Histogram F)
      → IsTallied fp h
      → h.total < words
      → write_histogram fp name help h
        ≡ write_metric_header name help (codes "histogram")
          ++ rungs name 0 h.counts 0 h.bounds
          ++ bucket_line name (codes "+Inf") h.total
          ++ name
          ++ codes "_sum "
          ++ fp.print h.sum
          ++ codes "\n"
          ++ name
          ++ codes "_count "
          ++ to_string h.total
          ++ codes "\n"
  unfolding write_histogram add_u64
  write_histogram_lem name help h t small =
      let sums = total_of-back (length h.bounds) h.counts t.sized in
      let all : add_u64 (up_to 0 (length h.bounds) h.counts) (back h.counts) ≡ h.total =
        omega (arith, sums, t.tallied) in
      rw (bucket_lines-rungs name h.counts h.bounds 0 0 t.sized refl, all)
