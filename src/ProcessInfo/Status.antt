-- ===== src/ProcessInfo/Status.antt =====
-- The line of `/proc/self/status` that src/process_info.cpp looks for.
use hamstercam.Base.{
  ℕ, zero, suc, ◌+◌, ◌-◌, ◌*◌, ◌%◌, ◌<◌, ◌≡◌, ◌≢◌, refl, ap, ◌∙◌, true, false, List, [], ◌∷◌, ◌++◌,
  bytes_eq, codes, Bytes, All, All-append, length, length-append, take, arith,
}
use hamstercam.Text.{is_space, to_string}
use hamstercam.Text.Split.{Lacks, split_at-append}
use hamstercam.Text.Decimal.{IsDigit, decimal, to_string-decimal}
use hamstercam.Http.{skip_spaces}
use hamstercam.Cli.{digits_value}
use hamstercam.ProcessInfo.{read_u64, is_rss, rss_of, find_rss, resident_set_bytes}

skip_spaces-blanks :
    (bs s : Bytes) → All (λ c. is_space c ≡ true) bs → skip_spaces (bs ++ s) ≡ skip_spaces s
unfolding skip_spaces
skip_spaces-blanks [] s h = refl
skip_spaces-blanks (c ∷ bs) s h = ground (arith, skip_spaces-blanks bs s h.1)

digits_value-decimal :
    (ds : Bytes) (v : ℕ) (s : Bytes)
    → All IsDigit ds
    → digits_value v (ds ++ b' ' ∷ s) ≡ decimal v ds
unfolding digits_value
digits_value-decimal [] v s h = ground arith
digits_value-decimal (c ∷ ds) v s h =
    ground (arith, digits_value-decimal ds (v * 10 + (c - b'0')) s h.1)

read_u64-decimal :
    (bs ds s : Bytes)
    → All (λ c. is_space c ≡ true) bs
    → All IsDigit ds
    → ds ≢ []
    → decimal 0 ds < 18_446_744_073_709_551_616
    → read_u64 (bs ++ (ds ++ b' ' ∷ s)) ≡ decimal 0 ds
unfolding read_u64
read_u64-decimal bs [] s b d n h = absurd (n refl)
read_u64-decimal bs (c ∷ ds) s b d n h =
    rw (skip_spaces-blanks bs ((c ∷ ds) ++ b' ' ∷ s) b)
      (ground (arith, digits_value-decimal (c ∷ ds) 0 s d))

-- The lines, and what stands behind them.
abbrev pub lines_then : List Bytes → Bytes → Bytes
lines_then [] s = s
lines_then (l ∷ ls) s = l ++ b'\n' ∷ lines_then ls s

-- A line of another field.
abbrev pub IsOther : Bytes → Type 0
IsOther l = Lacks b'\n' l × (bytes_eq (take 6 l) (codes "VmRSS:") ≡ false)

find_rss-skip :
    (ls : List Bytes) (s : Bytes) (fuel : ℕ)
    → All IsOther ls
    → length (lines_then ls s) < fuel
    → (later : ℕ) × (length s < later) × (find_rss fuel (lines_then ls s) ≡ find_rss later s)
unfolding find_rss
find_rss-skip [] s fuel h f = (fuel, f, refl)
find_rss-skip (l ∷ ls) s zero h f = absurd (omega arith)
find_rss-skip (l ∷ ls) s (suc fuel) h f =
    let behind = lines_then ls s in
    let (later, enough, e) =
      find_rss-skip ls s fuel h.1 (omega (arith, length-append l (b'\n' ∷ behind))) in
    (later, enough, rw (split_at-append b'\n' l behind h.0.0, find_rss, h.0.1) e)

find_rss-here :
    (fuel : ℕ) (line rest : Bytes)
    → Lacks b'\n' line
    → is_rss line ≡ true
    → 0 < fuel
    → find_rss fuel (line ++ b'\n' ∷ rest) ≡ rss_of line
unfolding find_rss
find_rss-here zero line rest l e h = absurd (omega arith)
find_rss-here (suc fuel) line rest l e h = rw (split_at-append b'\n' line rest l, find_rss, e)

-- White space that ends no line.
abbrev pub IsBlank : ℕ → Type 0
IsBlank c = (is_space c ≡ true) × (c ≢ b'\n')

IsBlank-space : (bs : Bytes) → All IsBlank bs → All (λ c. is_space c ≡ true) bs
IsBlank-space [] h = tt
IsBlank-space (c ∷ bs) h = (h.0.0, IsBlank-space bs h.1)

IsBlank-Lacks : (bs : Bytes) → All IsBlank bs → Lacks b'\n' bs
IsBlank-Lacks [] h = tt
IsBlank-Lacks (c ∷ bs) h = (h.0.1, IsBlank-Lacks bs h.1)

IsDigit-Lacks : (ds : Bytes) → All IsDigit ds → Lacks b'\n' ds
IsDigit-Lacks [] h = tt
IsDigit-Lacks (c ∷ ds) h = (omega arith, IsDigit-Lacks ds h.1)

-- The line with the resident size, in kibibytes.
abbrev pub rss_line : Bytes → ℕ → Bytes → Bytes
rss_line blanks kib unit = codes "VmRSS:" ++ (blanks ++ (to_string kib ++ b' ' ∷ unit))

-- Behind any lines of other fields, the number on the line of the resident size is found, whatever
-- blanks stand in front of it and whatever lines follow, and is multiplied by 1024 modulo 2 ^ 64.
pub resident_set_bytes-rss_line :
    (ls : List Bytes) (blanks : Bytes) (kib : ℕ) (unit rest : Bytes)
    → All IsOther ls
    → All IsBlank blanks
    → kib < 18_446_744_073_709_551_616
    → Lacks b'\n' unit
    → resident_set_bytes (lines_then ls (rss_line blanks kib unit ++ b'\n' ∷ rest))
      ≡ (kib * 1024) % 18_446_744_073_709_551_616
unfolding resident_set_bytes find_rss bytes_eq
resident_set_bytes-rss_line ls blanks kib unit rest others b small u =
    let (value, digits, nonempty) = to_string-decimal kib small in
    let line = rss_line blanks kib unit in
    let status = lines_then ls (line ++ b'\n' ∷ rest) in
    let lacks : Lacks b'\n' line =
      All-append (λ x. x ≢ b'\n') (codes "VmRSS:") (blanks ++ (to_string kib ++ b' ' ∷ unit))
        (omega arith)
        (All-append (λ x. x ≢ b'\n') blanks (to_string kib ++ b' ' ∷ unit) (IsBlank-Lacks blanks b)
          (All-append (λ x. x ≢ b'\n') (to_string kib) (b' ' ∷ unit)
            (IsDigit-Lacks (to_string kib) digits) (omega arith, u))) in
    let read =
      read_u64-decimal blanks (to_string kib) unit (IsBlank-space blanks b) digits nonempty
        (omega (arith, value)) in
    let (later, enough, e) =
      find_rss-skip ls (line ++ b'\n' ∷ rest) (suc (length status)) others (omega arith) in
    e
    ∙ find_rss-here later line rest lacks refl (omega arith)
    ∙ ap (λ v. (v * 1024) % 18_446_744_073_709_551_616) (read ∙ value)
