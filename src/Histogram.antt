-- ===== src/Histogram.antt =====
-- include/hamstercam/histogram.hpp. The mutex is left out: each operation is one step.
pub mod Counts
use hamstercam.Base.{
  ℕ, zero, suc, ◌+◌, Bool, List, [], ◌∷◌, if◌then◌else◌, length, get_or, set, replicate, add_u64,
}
use hamstercam.Double.{Double}

pub record Histogram (F : Type 0) : Type 0 where
  pub bounds : List F
  pub counts : List ℕ
  pub sum : F
  pub total : ℕ

module _ {F : Type 0} (fp : Double F) where
  open fp use {literal, le, add}

  unfoldable pub frame_interval_buckets : List F
  frame_interval_buckets =
      literal 5 3
      ∷ literal 1 2
      ∷ literal 2 2
      ∷ literal 33 3
      ∷ literal 5 2
      ∷ literal 667 4
      ∷ literal 1 1
      ∷ literal 15 2
      ∷ literal 25 2
      ∷ literal 5 1
      ∷ literal 1 0
      ∷ literal 2 0
      ∷ literal 5 0
      ∷ []

  -- The constructor: one count for each bound, and the overflow bucket.
  unfoldable pub make : List F → Histogram F
  make upper_bounds = record {
    bounds = upper_bounds;
    counts = replicate (length upper_bounds + 1) 0;
    sum = literal 0 0;
    total = 0;
  }

  -- The loop of `observe`: the first bound that is not below the value, or the overflow bucket.
  unfoldable pub bucket_index : F → List F → ℕ
  bucket_index value [] = 0
  bucket_index value (b ∷ bs) =
      let rest = bucket_index value bs in if le value b then 0 else suc rest

  unfoldable pub observe : F → Histogram F → Histogram F
  observe value h =
      let index = bucket_index value h.bounds in
      record h {
        counts = set h.counts index (add_u64 (get_or h.counts index 0) 1);
        sum = add h.sum value;
        total = add_u64 h.total 1;
      }
