-- ===== src/Histogram/Counts.antt =====
-- Where `Histogram::observe` of include/hamstercam/histogram.hpp counts, and the sum of its buckets.
use hamstercam.Base.{
  ℕ, zero, suc, ◌+◌, ◌%◌, ◌≤◌, ◌<◌, ◌≡◌, refl, true, false, List, [], ◌∷◌, arith, inl, inr, length,
  length-set, length-replicate, get_or, get_or-set_self, get_or-set_ne, ◌≢◌, set, replicate,
  add_u64, Bool-cases,
}
use hamstercam.Double.{Double}
use hamstercam.Histogram.{Histogram, make, bucket_index, observe}

abbrev pub total_of : List ℕ → ℕ
total_of [] = 0
total_of (n ∷ ns) = n + total_of ns

abbrev pub words : ℕ
words = 18_446_744_073_709_551_616

total_of-set :
    (ns : List ℕ) (i : ℕ)
    → i < length ns
    → total_of (set ns i (add_u64 (get_or ns i 0) 1)) % words ≡ (total_of ns + 1) % words
unfolding add_u64
total_of-set [] i h = absurd (omega arith)
total_of-set (n ∷ ns) zero h = omega arith
total_of-set (n ∷ ns) (suc i) h = omega (arith, total_of-set ns i (omega arith))

module _ {F : Type 0} (fp : Double F) where
  pub bucket_index-le : (v : F) (bs : List F) → bucket_index fp v bs ≤ length bs
  unfolding bucket_index
  bucket_index-le v [] = omega arith
  bucket_index-le v (b ∷ bs) = ground (arith, bucket_index-le v bs)

  -- The value is above every bound in front of the bucket, and not above the bucket's own bound.
  abbrev pub IsFirst : F → ℕ → List F → Type 0
  IsFirst v i [] = i ≡ 0
  IsFirst v zero (b ∷ bs) = fp.le v b ≡ true
  IsFirst v (suc i) (b ∷ bs) = (fp.le v b ≡ false) × IsFirst v i bs

  -- The loop finds the first bucket whose bound is not below the value; if there is none, the
  -- index behind the last bound, which is the overflow bucket.
  pub bucket_index-IsFirst : (v : F) (bs : List F) → IsFirst v (bucket_index fp v bs) bs
  unfolding bucket_index
  bucket_index-IsFirst v [] = refl
  bucket_index-IsFirst v (b ∷ bs) = elim (Bool-cases (fp.le v b)) [
    | inl e ↦ rw (e) e
    | inr e ↦ rw (e) (e, bucket_index-IsFirst v bs)
  ]

  -- One count for each bound and one for the overflow, which add up to the total.
  pub record IsTallied (h : Histogram F) : Type 0 where
    pub sized : length h.counts ≡ length h.bounds + 1
    pub tallied : total_of h.counts % words ≡ h.total % words

  total_of-replicate : (n : ℕ) → total_of (replicate n 0) ≡ 0
  total_of-replicate zero = refl
  total_of-replicate (suc n) = omega (arith, total_of-replicate n)

  pub make-IsTallied : (bs : List F) → IsTallied (make fp bs)
  unfolding make
  make-IsTallied bs = record {
    sized = length-replicate (length bs + 1) 0;
    tallied = omega (arith, total_of-replicate (length bs + 1));
  }

  pub observe-IsTallied : (v : F) (h : Histogram F) → IsTallied h → IsTallied (observe fp v h)
  unfolding observe add_u64
  observe-IsTallied v h t =
      let i = bucket_index fp v h.bounds in
      omega (
        arith,
        bucket_index-le v h.bounds,
        t,
        total_of-set h.counts i (omega (arith, t, bucket_index-le v h.bounds)),
        length-set h.counts i (add_u64 (get_or h.counts i 0) 1),
      )

  -- An observation adds one to the first bucket whose bound is not below the value, or to the overflow
  -- bucket if there is none, and to the total, adds the value to the sum, and leaves the other buckets
  -- and the bounds alone; one count for each bound and one more, which add up to the total modulo
  -- 2^64, stay so.
  pub observe-counts :
      (v : F) (h : Histogram F)
      → IsTallied h
      → let n = observe fp v h in
        let i = bucket_index fp v h.bounds in
        IsFirst v i h.bounds
        × (get_or n.counts i 0 ≡ add_u64 (get_or h.counts i 0) 1)
        × ((j : ℕ) → j ≢ i → get_or n.counts j 0 ≡ get_or h.counts j 0)
        × (n.total ≡ add_u64 h.total 1)
        × (n.sum ≡ fp.add h.sum v)
        × (n.bounds ≡ h.bounds)
        × IsTallied n
  unfolding observe
  observe-counts v h t =
      let i = bucket_index fp v h.bounds in
      (
        bucket_index-IsFirst v h.bounds,
        get_or-set_self h.counts i _ 0 (omega (arith, t, bucket_index-le v h.bounds)),
        (λ j. get_or-set_ne h.counts i j _ 0),
        refl,
        refl,
        refl,
        observe-IsTallied v h t,
      )
