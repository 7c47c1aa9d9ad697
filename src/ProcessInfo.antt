-- ===== src/ProcessInfo.antt =====
-- src/process_info.cpp, for the text of `/proc/self/status` as it can be read; no text if it cannot.
pub mod Status
use hamstercam.Base.{
  ℕ, zero, suc, ◌*◌, ◌%◌, ◌-◌, Bool, true, false, Option, none, some, [], ◌∷◌, leb, ◌==◌,
  if◌then◌else◌, Bytes, bytes_eq, codes, length, take, drop,
}
use hamstercam.Text.{split_at}
use hamstercam.Http.{skip_spaces}
use hamstercam.Cli.{count_digits, digits_value, sign}

-- `iss >> kib`: white space, a sign and digits; without digits it gives 0, and above 64 bits the
-- largest number.
unfoldable pub read_u64 : Bytes → ℕ
unfolding skip_spaces count_digits digits_value sign
read_u64 s =
    let (negative, signs) = sign (skip_spaces s) in
    let digits = drop signs (skip_spaces s) in
    let value = digits_value 0 digits in
    if count_digits digits == 0
    then 0
    else if leb 18_446_744_073_709_551_616 value
    then 18_446_744_073_709_551_615
    else if negative
    then (18_446_744_073_709_551_616 - value) % 18_446_744_073_709_551_616
    else value

-- `line.compare(0, 6, "VmRSS:") == 0`.
abbrev is_rss : Bytes → Bool
is_rss line = bytes_eq (take 6 line) (codes "VmRSS:")

abbrev rss_of : Bytes → ℕ
rss_of line = (read_u64 (drop 6 line) * 1024) % 18_446_744_073_709_551_616

-- The loop over the lines; `getline` gives a last line without a newline too, if it is not empty.
unfoldable pub find_rss : ℕ → Bytes → ℕ
find_rss zero s = 0
find_rss (suc fuel) s = elim (split_at b'\n' s) [
  | none ↦ if is_rss s then rss_of s else 0
  | some (line, rest) ↦ let later = find_rss fuel rest in if is_rss line then rss_of line else later
]

-- Each turn takes a newline, so the length is fuel enough.
unfoldable pub resident_set_bytes : Bytes → ℕ
resident_set_bytes status = find_rss (suc (length status)) status
