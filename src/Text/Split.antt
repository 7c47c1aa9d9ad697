-- ===== src/Text/Split.antt =====
-- What a split at a byte means.
use hamstercam.Base.{
  ℕ, ◌≡◌, refl, ◌≢◌, Option, none, some, [], ◌∷◌, ◌++◌, ◌==◌, if◌then◌else◌, Bytes, All, Bool-cases,
  inl, inr, arith,
}
use hamstercam.Text.{split_at}

-- No byte of the text is `c`.
abbrev pub Lacks : ℕ → Bytes → Type 0
Lacks c = All λ x. x ≢ c

-- At a text with no `c`, then `c`, the split is there; and with no `c` there is none.
pub split_at-append : (c : ℕ) (s t : Bytes) → Lacks c s → split_at c (s ++ c ∷ t) ≡ some (s, t)
unfolding split_at
split_at-append c [] t h = ground arith
split_at-append c (x ∷ s) t h = ground (arith, split_at-append c s t h.1)

pub split_at-none : (c : ℕ) (s : Bytes) → Lacks c s → split_at c s ≡ none
unfolding split_at
split_at-none c [] h = refl
split_at-none c (x ∷ s) h = ground (arith, split_at-none c s h.1)

-- The other way round.
abbrev pub Splits : ℕ → Bytes → Option (Bytes × Bytes) → Type 0
Splits c s none = Lacks c s
Splits c s (some (before, behind)) = (s ≡ before ++ c ∷ behind) × Lacks c before

pub split_at-Splits : (c : ℕ) (s : Bytes) → Splits c s (split_at c s)
unfolding split_at
split_at-Splits c [] = tt
split_at-Splits c (x ∷ s) = go (split_at c s) (split_at-Splits c s)
  where
    go :
        (r : Option (Bytes × Bytes))
        → Splits c s r
        → Splits c (x ∷ s) (
            if x == c
            then some ([], s)
            else elim r [ none ↦ none | some (before, behind) ↦ some (x ∷ before, behind) ])
    go none h = elim (Bool-cases (x == c)) [
      | inl e ↦ rw e (ground arith, tt)
      | inr e ↦ rw e (ground arith, h)
    ]
    go (some (before, behind)) h = elim (Bool-cases (x == c)) [
      | inl e ↦ rw e (ground arith, tt)
      | inr e ↦ rw e (ground arith, (ground arith, h.1))
    ]
