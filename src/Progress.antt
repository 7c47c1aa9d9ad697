-- ===== src/Progress.antt =====
-- src/progress_parser.cpp, include/hamstercam/progress_parser.hpp and producer_stats.hpp.
pub mod Lines
pub mod Numbers
pub mod Overflow
pub mod Keys
pub mod Server
pub mod Lifetime
pub mod Connection
use hamstercam.Base.{
  ℕ, zero, suc, ◌+◌, ◌-◌, ◌*◌, ◌/◌, ◌%◌, Bool, true, false, not, ◌&&◌, ◌||◌, Option, none, some,
  List, [], ◌∷◌, ◌++◌, ◌==◌, ltb, if◌then◌else◌, Bytes, bytes_eq, codes, length, ns_per_s,
}
use hamstercam.Double.{Double}
use hamstercam.Device.{Clock}
use hamstercam.Text.{split_at, strip_last}

pub record ProducerStats (F : Type 0) : Type 0 where
  pub frames_total : ℕ
  pub fps : F
  pub dropped_frames_total : ℕ
  pub duplicated_frames_total : ℕ
  pub speed_ratio : F
  pub connected : Bool
  pub last_update_unixtime : ℕ

-- `world` is the state of the clock.
pub record ProgressParser (W F : Type 0) : Type 0 where
  pub stats : ProducerStats F
  pub buffer : Bytes
  pub world : W

abbrev pub max_buffered_line : ℕ
max_buffered_line = 65_536

-- The loop of `parse_u64`; `value` wraps at 64 bits.
unfoldable pub parse_digits : ℕ → Bytes → Option ℕ
parse_digits value [] = some value
parse_digits value (c ∷ s) =
    let rest = parse_digits ((value * 10 + (c - b'0')) % 18_446_744_073_709_551_616) s in
    if ltb c b'0' || ltb b'9' c then none else rest

-- `none` is `false`.
unfoldable pub parse_u64 : Bytes → Option ℕ
unfolding parse_digits
parse_u64 [] = none
parse_u64 (c ∷ s) = parse_digits 0 (c ∷ s)

module _ {F : Type 0} (fp : Double F) where
  -- The value, if `stod` read all of the text.
  abbrev whole : ℕ → Option (F × ℕ) → Option F
  whole size none = none
  whole size (some (v, pos)) = if pos == size then some v else none

  unfoldable pub parse_double : Bytes → Option F
  parse_double [] = none
  parse_double (c ∷ s) = whole (length (c ∷ s)) (fp.stod (c ∷ s))

  -- `value != "N/A" && parse_double(value, v)`.
  unfoldable pub parse_measure : Bytes → Option F
  unfolding parse_double
  parse_measure s = if bytes_eq s (codes "N/A") then none else parse_double s

-- A store that happens only if there is a value.
abbrev pub store_if {ℓ κ} : {A : Type ℓ} {S : Type κ} → Option A → (A → S → S) → S → S
store_if none f s = s
store_if (some v) f s = f v s

module _ {W F : Type 0} (clock : Clock W) (fp : Double F) where
  -- The end of a block.
  unfoldable pub stamp : ProgressParser W F → ProgressParser W F
  stamp p =
      let (wall, w) = clock.wall_now p.world in
      record p { stats = record p.stats { last_update_unixtime = wall / ns_per_s }; world = w }

  -- The chain of tests on the key.
  unfoldable pub store_key : Bytes → Bytes → ProgressParser W F → ProgressParser W F
  store_key key value p =
      if bytes_eq key (codes "frame")
      then record p {
        stats = store_if (parse_u64 value) (λ v s. record s { frames_total = v }) p.stats;
      }
      else if bytes_eq key (codes "fps")
      then record p {
        stats = store_if (parse_measure fp value) (λ v s. record s { fps = v }) p.stats;
      }
      else if bytes_eq key (codes "drop_frames")
      then record p {
        stats = store_if (parse_u64 value) (λ v s. record s { dropped_frames_total = v }) p.stats;
      }
      else if bytes_eq key (codes "dup_frames")
      then record p {
        stats =
            store_if (parse_u64 value) (λ v s. record s { duplicated_frames_total = v }) p.stats;
      }
      else if bytes_eq key (codes "speed")
      then record p {
        stats =
            store_if (parse_measure fp (strip_last b'x' value))
              (λ v s. record s { speed_ratio = v }) p.stats;
      }
      else if bytes_eq key (codes "progress")
      then stamp p
      else p

  -- Behind `line.find('=')`.
  unfoldable pub parse_pair : Option (Bytes × Bytes) → ProgressParser W F → ProgressParser W F
  parse_pair none p = p
  parse_pair (some (key, value)) p = store_key key value p

  unfoldable pub parse_line : Bytes → ProgressParser W F → ProgressParser W F
  parse_line line p = parse_pair (split_at b'=' (strip_last b'\r' line)) p

  -- The loop of `feed` over what is left of the buffer, which is kept if the fuel runs out.
  unfoldable pub feed_loop : ℕ → Bytes → ProgressParser W F → ProgressParser W F
  feed_loop zero rest p = record p { buffer = rest }
  feed_loop (suc fuel) rest p = elim (split_at b'\n' rest) [
    | none ↦ record p { buffer = rest }
    | some (line, behind) ↦ feed_loop fuel behind (parse_line line p)
  ]

  -- Each line that the loop takes shortens the rest, so its length is fuel enough.
  unfoldable pub feed : Bytes → ProgressParser W F → ProgressParser W F
  feed chunk p =
      let buffer = p.buffer ++ chunk in
      if ltb max_buffered_line (length buffer)
      then record p { buffer = [] }
      else feed_loop (suc (length buffer)) buffer p
