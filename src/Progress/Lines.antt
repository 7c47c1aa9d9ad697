-- ===== src/Progress/Lines.antt =====
-- How `ProgressParser::feed` of src/progress_parser.cpp cuts chunks into lines.
use hamstercam.Base.{
  ℕ, zero, suc, ◌+◌, ◌≤◌, ◌<◌, ◌≡◌, refl, sym, ap, subst, ◌∙◌, ◌≡⟨◌⟩◌, ◌∎, true, false, Option,
  none, some, List, [], ◌∷◌, ◌++◌, ◌==◌, ltb, Bytes, length, length-append, append_assoc,
  append-nil, Bool-cases, inl, inr, ◌⊎◌, ==_iff, ltb→le, le→ltb, lt→ltb, arith,
}
use hamstercam.Double.{Double}
use hamstercam.Device.{Clock}
use hamstercam.Text.{split_at, strip_last}
use hamstercam.Text.Split.{Lacks, split_at-append, split_at-none}
use hamstercam.Progress.{
  ProgressParser, max_buffered_line, parse_line, parse_pair, store_key, stamp, feed_loop, feed,
}

-- The lines of a text, each without its newline, and what stands behind the last newline.
pub data Cut : Bytes → List Bytes → Bytes → Type 0 where
  last : {s : Bytes} → Lacks b'\n' s → Cut s [] s
  line :
      {t s rest : Bytes} {ls : List Bytes} (l : Bytes)
      → Lacks b'\n' l
      → t ≡ l ++ b'\n' ∷ s
      → Cut s ls rest
      → Cut t (l ∷ ls) rest

module _ {W F : Type 0} (clock : Clock W) (fp : Double F) where
  -- The lines of a list, parsed one after the other.
  unfoldable pub parse_lines : List Bytes → ProgressParser W F → ProgressParser W F
  parse_lines [] p = p
  parse_lines (l ∷ ls) p = parse_lines ls (parse_line clock fp l p)

  feed_loop-Cut :
      (fuel : ℕ) (s : Bytes) {ls : List Bytes} {rest : Bytes} (p : ProgressParser W F)
      → length s < fuel
      → Cut s ls rest
      → feed_loop clock fp fuel s p ≡ record (parse_lines ls p) { buffer = rest }
  unfolding feed_loop parse_lines
  feed_loop-Cut zero s p h c = elim h [ ]
  feed_loop-Cut (suc fuel) s p h (last k) = rw (split_at-none b'\n' s k, feed_loop)
  feed_loop-Cut (suc fuel) t p h (line {s = s} l k e c) =
      rw (ap (split_at b'\n') e ∙ split_at-append b'\n' l s k, feed_loop)
        (feed_loop-Cut fuel s (parse_line clock fp l p)
          (omega (arith, ap length e, length-append l (b'\n' ∷ s))) c)

  store_key-buffer :
      (k v b : Bytes) (p : ProgressParser W F)
      → store_key clock fp k v (record p { buffer = b })
        ≡ record (store_key clock fp k v p) { buffer = b }
  unfolding store_key stamp
  store_key-buffer k v b p = ground arith

  parse_line-buffer :
      (l b : Bytes) (p : ProgressParser W F)
      → parse_line clock fp l (record p { buffer = b })
        ≡ record (parse_line clock fp l p) { buffer = b }
  unfolding parse_line parse_pair
  parse_line-buffer l b p = go (split_at b'=' (strip_last b'\r' l))
    where
      go :
          (r : Option (Bytes × Bytes))
          → parse_pair clock fp r (record p { buffer = b })
            ≡ record (parse_pair clock fp r p) { buffer = b }
      go none = refl
      go (some (k, v)) = store_key-buffer k v b p

  pub parse_lines-buffer :
      (ls : List Bytes) (b : Bytes) (p : ProgressParser W F)
      → parse_lines ls (record p { buffer = b }) ≡ record (parse_lines ls p) { buffer = b }
  unfolding parse_lines
  parse_lines-buffer [] b p = refl
  parse_lines-buffer (l ∷ ls) b p =
      ap (parse_lines ls) (parse_line-buffer l b p)
      ∙ parse_lines-buffer ls b (parse_line clock fp l p)

  pub parse_lines-append :
      (ls ks : List Bytes) (p : ProgressParser W F)
      → parse_lines (ls ++ ks) p ≡ parse_lines ks (parse_lines ls p)
  unfolding parse_lines
  parse_lines-append [] ks p = refl
  parse_lines-append (l ∷ ls) ks p = parse_lines-append ls ks (parse_line clock fp l p)

  -- While the buffer and the chunk together are at most 65536 bytes, `feed` parses exactly the
  -- complete lines of the two, in order, and keeps what stands behind the last newline.
  pub feed-Cut :
      (chunk : Bytes) (p : ProgressParser W F) {ls : List Bytes} {rest : Bytes}
      → length p.buffer + length chunk ≤ max_buffered_line
      → Cut (p.buffer ++ chunk) ls rest
      → feed clock fp chunk p ≡ record (parse_lines ls p) { buffer = rest }
  unfolding feed
  feed-Cut chunk p h c =
      let s = p.buffer ++ chunk in
      rw (le→ltb max_buffered_line (length s) (omega (arith, length-append p.buffer chunk)))
        (feed_loop-Cut (suc (length s)) s p (omega arith) c)

-- Every text can be cut.
pub cut : (s : Bytes) → (ls : List Bytes) × (rest : Bytes) × Cut s ls rest
cut [] = ([], [], last tt)
cut (x ∷ s) = let (ls, rest, c) = cut s in go (Bool-cases (x == b'\n')) c
  where
    go :
        {ls : List Bytes} {rest : Bytes}
        → ((x == b'\n') ≡ true) ⊎ ((x == b'\n') ≡ false)
        → Cut s ls rest
        → (ks : List Bytes) × (r : Bytes) × Cut (x ∷ s) ks r
    go {ls} {rest} (inl e) c =
        ([] ∷ ls, rest, line [] tt (ap (λ y. y ∷ s) ((==_iff x b'\n').0 e)) c)
    go (inr e) (last k) = ([], x ∷ s, last (ground arith, k))
    go {rest} (inr e) (line {ls = ls} l k q c) =
        ((x ∷ l) ∷ ls, rest, line (x ∷ l) (ground arith, k) (ap (λ t. x ∷ t) q) c)

Cut-append :
    {s r r' : Bytes} {ls ks : List Bytes} (t : Bytes)
    → Cut s ls r
    → Cut (r ++ t) ks r'
    → Cut (s ++ t) (ls ++ ks) r'
Cut-append t (last k) d = d
Cut-append t (line {s = s} l k e c) d =
    line l k (ap (λ x. x ++ t) e ∙ append_assoc l (b'\n' ∷ s) t) (Cut-append t c d)

Cut-rest : {s r : Bytes} {ls : List Bytes} → Cut s ls r → Lacks b'\n' r × (length r ≤ length s)
Cut-rest (last k) = (k, omega arith)
Cut-rest (line {s = s} l k e c) =
    let (a, b) = Cut-rest c in (a, omega (arith, b, ap length e, length-append l (b'\n' ∷ s)))

-- The chunks in one piece.
abbrev pub concat : List Bytes → Bytes
concat [] = []
concat (c ∷ cs) = c ++ concat cs

-- The buffer is a part of one line, within the limit.
pub record IsBuffered {W F : Type 0} (p : ProgressParser W F) : Type 0 where
  pub partial : Lacks b'\n' p.buffer
  pub within : length p.buffer ≤ max_buffered_line

module _ {W F : Type 0} (clock : Clock W) (fp : Double F) where
  -- Whatever is fed, the buffer then holds no newline and at most 65536 bytes.
  pub feed-IsBuffered :
      (chunk : Bytes) (p : ProgressParser W F) → IsBuffered (feed clock fp chunk p)
  feed-IsBuffered chunk p = elim (Bool-cases (ltb max_buffered_line (length (p.buffer ++ chunk)))) [
    | inl over ↦ unfold feed in rw over (record { partial = tt; within = omega arith })
    | inr fits ↦
        let (ls, rest, c) = cut (p.buffer ++ chunk) in
        let small = ltb→le max_buffered_line (length (p.buffer ++ chunk)) fits in
        subst IsBuffered
          (sym (feed-Cut clock fp chunk p (omega (arith, small, length-append p.buffer chunk)) c))
          (record { partial = (Cut-rest c).0; within = omega (arith, (Cut-rest c).1, small) })
  ]

  -- Chunks, fed one after the other.
  unfoldable pub feed_all : List Bytes → ProgressParser W F → ProgressParser W F
  feed_all [] p = p
  feed_all (c ∷ cs) p = feed_all cs (feed clock fp c p)

  feed-append :
      (a b : Bytes) (p : ProgressParser W F)
      → length p.buffer + length a + length b ≤ max_buffered_line
      → feed clock fp (a ++ b) p ≡ feed clock fp b (feed clock fp a p)
  feed-append a b p h =
      let (ls, r, c) = cut (p.buffer ++ a) in
      let (ks, r', d) = cut (r ++ b) in
      let q = record (parse_lines clock fp ls p) { buffer = r } in
      let small = (Cut-rest c).1 in
      let first : feed clock fp a p ≡ q = feed-Cut clock fp a p (omega arith) c in
      let second : feed clock fp b q ≡ record (parse_lines clock fp ks q) { buffer = r' } =
        feed-Cut clock fp b q (omega (arith, small, length-append p.buffer a)) d in
      let both : Cut (p.buffer ++ (a ++ b)) (ls ++ ks) r' =
        subst (λ s. Cut s (ls ++ ks) r') (append_assoc p.buffer a b) (Cut-append b c d) in
      feed clock fp (a ++ b) p
      ≡⟨ feed-Cut clock fp (a ++ b) p (omega (arith, length-append a b)) both ⟩
        record (parse_lines clock fp (ls ++ ks) p) { buffer = r' }
      ≡⟨ ap {A = ProgressParser W F} (λ m. record m { buffer = r' })
          (parse_lines-append clock fp ls ks p) ⟩
        record (parse_lines clock fp ks (parse_lines clock fp ls p)) { buffer = r' }
      ≡⟨ ap {A = ProgressParser W F} (λ m. record m { buffer = r' })
          (sym (parse_lines-buffer clock fp ks r (parse_lines clock fp ls p))) ⟩
        record (parse_lines clock fp ks q) { buffer = r' }
      ≡⟨ sym second ∙ ap (feed clock fp b) (sym first) ⟩ feed clock fp b (feed clock fp a p) ∎

  feed-length :
      (c : Bytes) (p : ProgressParser W F)
      → length p.buffer + length c ≤ max_buffered_line
      → length (feed clock fp c p).buffer ≤ length p.buffer + length c
  feed-length c p h =
      let (ls, r, k) = cut (p.buffer ++ c) in
      rw (feed-Cut clock fp c p h k) (omega (arith, (Cut-rest k).1, length-append p.buffer c))

  -- It does not matter how the bytes are cut into chunks, as long as what is buffered and all that
  -- is fed are at most 65536 bytes: the parser ends in the same state as when it is fed in one piece.
  pub feed_all-concat :
      (cs : List Bytes) (p : ProgressParser W F)
      → IsBuffered p
      → length p.buffer + length (concat cs) ≤ max_buffered_line
      → feed_all cs p ≡ feed clock fp (concat cs) p
  unfolding feed_all parse_lines
  feed_all-concat [] p v h = sym (
      feed-Cut clock fp [] p {ls = []} {rest = p.buffer} h
        (subst (λ s. Cut s [] p.buffer) (sym (append-nil p.buffer)) (last v.partial)))
  feed_all-concat (c ∷ cs) p v h =
      let fits = length-append c (concat cs) in
      let shorter = feed-length c p (omega (arith, fits)) in
      feed_all-concat cs (feed clock fp c p) (feed-IsBuffered c p) (omega (arith, fits, shorter))
      ∙ sym (feed-append c (concat cs) p (omega (arith, fits)))

  pub feed-overflow :
      (chunk : Bytes) (p : ProgressParser W F)
      → max_buffered_line < length p.buffer + length chunk
      → feed clock fp chunk p ≡ record p { buffer = [] }
  unfolding feed
  feed-overflow chunk p h = rw (
      lt→ltb max_buffered_line (length (p.buffer ++ chunk))
        (omega (arith, length-append p.buffer chunk)))
