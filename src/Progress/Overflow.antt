-- ===== src/Progress/Overflow.antt =====
-- What `ProgressParser::feed` of src/progress_parser.cpp parses of any chunks, and what it drops.
use hamstercam.Base.{
  ◌+◌, ◌≤◌, ◌<◌, ◌≡◌, refl, sym, ap, ◌∙◌, ltb, ltb→le, Bool-cases, inl, inr, List, [], ◌∷◌, ◌++◌,
  Bytes, length, length-append, arith,
}
use hamstercam.Double.{Double}
use hamstercam.Device.{Clock}
use hamstercam.Progress.{ProgressParser, max_buffered_line}
use hamstercam.Progress.Lines.{
  Cut, cut, parse_lines, parse_lines-buffer, parse_lines-append, feed_all, feed-Cut, feed-overflow,
}

-- `Fed b cs ls r`: of the chunks `cs` behind a buffer `b`, the lines `ls` are parsed, and `r` is buffered
-- in the end. A chunk that fits is cut behind the buffer; one that does not is dropped with the
-- buffer, whole.
pub data Fed : Bytes → List Bytes → List Bytes → Bytes → Type 0 where
  done : {b : Bytes} → Fed b [] [] b
  taken :
      {b c r r' : Bytes} {cs ls ks : List Bytes}
      → length b + length c ≤ max_buffered_line
      → Cut (b ++ c) ls r
      → Fed r cs ks r'
      → Fed b (c ∷ cs) (ls ++ ks) r'
  dropped :
      {b c r : Bytes} {cs ls : List Bytes}
      → max_buffered_line < length b + length c
      → Fed [] cs ls r
      → Fed b (c ∷ cs) ls r

module _ {W F : Type 0} (clock : Clock W) (fp : Double F) where
  -- The parser behind lines, with a buffer.
  abbrev behind : List Bytes → Bytes → ProgressParser W F → ProgressParser W F
  behind ls r p = record (parse_lines clock fp ls p) { buffer = r }

  behind-buffer :
      (ls : List Bytes) (b r : Bytes) (p : ProgressParser W F)
      → behind ls r (record p { buffer = b }) ≡ behind ls r p
  behind-buffer ls b r p =
      ap {A = ProgressParser W F} (λ q. record q { buffer = r })
        (parse_lines-buffer clock fp ls b p)

  -- Whatever chunks are fed, the parser ends as if just the lines of those that are not dropped had been
  -- parsed, one after the other: a chunk that with what is buffered is above 65536 bytes is dropped
  -- with it, its complete lines included, and the next chunk is cut as if a line began there.
  pub feed_all-Fed :
      (cs : List Bytes) (p : ProgressParser W F)
      → (ls : List Bytes) × (r : Bytes) × Fed p.buffer cs ls r
        × (feed_all clock fp cs p ≡ record (parse_lines clock fp ls p) { buffer = r })
  unfolding feed_all parse_lines
  feed_all-Fed [] p = ([], p.buffer, done, refl)
  feed_all-Fed (c ∷ cs) p = elim (Bool-cases (ltb max_buffered_line (length (p.buffer ++ c)))) [
    | inl over ↦
        let (ls, r, f, e) = feed_all-Fed cs (record p { buffer = [] }) in
        let big : max_buffered_line < length p.buffer + length c =
          ground (arith, length-append p.buffer c) in
        (
          ls,
          r,
          dropped big f,
          ap (feed_all clock fp cs) (feed-overflow clock fp c p big) ∙ e ∙ behind-buffer ls [] r p,
        )
    | inr fits ↦
        let (ls, r, k) = cut (p.buffer ++ c) in
        let small = ltb→le max_buffered_line (length (p.buffer ++ c)) fits in
        let room : length p.buffer + length c ≤ max_buffered_line =
          omega (arith, small, length-append p.buffer c) in
        let q = parse_lines clock fp ls p in
        let (ks, r', f, e) = feed_all-Fed cs (record q { buffer = r }) in
        (
          ls ++ ks,
          r',
          taken room k f,
          ap (feed_all clock fp cs) (feed-Cut clock fp c p room k)
              ∙ e
              ∙ behind-buffer ks r r' q
              ∙ ap {A = ProgressParser W F} (λ m. record m { buffer = r' })
                  (sym (parse_lines-append clock fp ls ks p)),
        )
  ]
