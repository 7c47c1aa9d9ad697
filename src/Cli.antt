-- ===== src/Cli.antt =====
-- The command lines of src/main.cpp and src/exporter_main.cpp: flags, environment, numbers and
-- durations. The environment is a function, `std::map` an association list, `std::set` a list.
pub mod Flags
pub mod Values
use hamstercam.Base.{
  ℕ, zero, suc, ◌+◌, ◌-◌, ◌*◌, ◌%◌, Bool, true, false, ◌&&◌, ◌||◌, Option, none, some, List, [],
  ◌∷◌, ◌==◌, ltb, leb, if◌then◌else◌, Bytes, bytes_eq, codes, length, take, drop,
}
use hamstercam.Text.{split_at, is_space}
use hamstercam.Machine.State.{DaemonConfig, default_config}

abbrev pub Flags : Type 0
Flags = List (Bytes × Bytes)

-- `out[name] = value`.
unfoldable pub assign : Bytes → Bytes → Flags → Flags
assign k v [] = (k, v) ∷ []
assign k v ((j, w) ∷ m) = if bytes_eq j k then (j, v) ∷ m else (j, w) ∷ assign k v m

unfoldable pub find : Bytes → Flags → Option Bytes
find k [] = none
find k ((j, v) ∷ m) = if bytes_eq j k then some v else find k m

unfoldable pub contains : List Bytes → Bytes → Bool
contains [] k = false
contains (j ∷ js) k = bytes_eq j k || contains js k

-- `known_flags()` of the daemon and of the exporter.
abbrev pub daemon_flags : List Bytes
daemon_flags =
    codes "--device"
    ∷ codes "--metrics-addr"
    ∷ codes "--expected-fps"
    ∷ codes "--stall-multiple"
    ∷ codes "--buffer-count"
    ∷ codes "--reconnect-max-backoff"
    ∷ codes "--awaiting-producer-max-backoff"
    ∷ codes "--log-level"
    ∷ []

abbrev pub exporter_flags : List Bytes
exporter_flags = codes "--progress-socket" ∷ codes "--metrics-addr" ∷ codes "--log-level" ∷ []

-- The result of `parse_flags`: the map, or the message of a failure.
pub data Parsed : Type 0 where
  ok : Flags → Parsed
  unknown_flag requires_value : Bytes → Parsed

-- The arguments behind the program's name.
unfoldable pub parse_flags : List Bytes → List Bytes → Flags → Parsed
parse_flags known [] out = ok out
parse_flags known (arg ∷ []) out = elim (split_at b'=' arg) [
  | none ↦ if contains known arg then requires_value arg else unknown_flag arg
  | some (name, value) ↦
      if contains known name then ok (assign name value out) else unknown_flag name
]
parse_flags known (arg ∷ next ∷ args) out = elim (split_at b'=' arg) [
  | none ↦
      let rest = parse_flags known args (assign arg next out) in
      if contains known arg then rest else unknown_flag arg
  | some (name, value) ↦
      let rest = parse_flags known (next ∷ args) (assign name value out) in
      if contains known name then rest else unknown_flag name
]

unfoldable pub resolve : (Bytes → Option Bytes) → Flags → Bytes → Bytes → Bytes → Bytes
resolve getenv flags flag_name env_name default_value = elim (find flag_name flags) [
  | some v ↦ v
  | none ↦ elim (getenv env_name) [ some v ↦ v | none ↦ default_value ]
]

-- `std::stoul` in base 10: white space, a sign, digits. The result is the value and the number of
-- bytes read, or `none` where it throws: no digits, or a number above 64 bits.
abbrev is_digit : ℕ → Bool
is_digit c = leb b'0' c && leb c b'9'

unfoldable pub count_spaces : Bytes → ℕ
count_spaces [] = 0
count_spaces (c ∷ s) = let rest = count_spaces s in if is_space c then suc rest else 0

unfoldable pub count_digits : Bytes → ℕ
count_digits [] = 0
count_digits (c ∷ s) = let rest = count_digits s in if is_digit c then suc rest else 0

unfoldable pub digits_value : ℕ → Bytes → ℕ
digits_value v [] = v
digits_value v (c ∷ s) =
    let rest = digits_value (v * 10 + (c - b'0')) s in if is_digit c then rest else v

-- Whether a minus sign is there, and the length of the sign.
unfoldable pub sign : Bytes → Bool × ℕ
sign [] = (false, 0)
sign (c ∷ s) = if c == b'-' then (true, 1) else if c == b'+' then (false, 1) else (false, 0)

unfoldable pub stoul : Bytes → Option (ℕ × ℕ)
unfolding count_spaces count_digits digits_value sign
stoul s =
    let spaces = count_spaces s in
    let (negative, signs) = sign (drop spaces s) in
    let digits = drop (spaces + signs) s in
    let n = count_digits digits in
    let value = digits_value 0 digits in
    if n == 0
    then none
    else if leb 18_446_744_073_709_551_616 value
    then none
    else some (
      if negative then (18_446_744_073_709_551_616 - value) % 18_446_744_073_709_551_616 else value,
      spaces + signs + n,
    )

-- `static_cast<std::uint32_t>`, if `stoul` read all of the text.
abbrev narrow : ℕ → Option (ℕ × ℕ) → Option ℕ
narrow size none = none
narrow size (some (v, pos)) = if pos == size then some (v % 4_294_967_296) else none

unfoldable pub parse_u32 : Bytes → Option ℕ
unfolding stoul
parse_u32 [] = none
parse_u32 (c ∷ s) = narrow (length (c ∷ s)) (stoul (c ∷ s))

abbrev times : ℕ → Option ℕ → Option ℕ
times k none = none
times k (some v) = some (v * k)

-- Milliseconds.
unfoldable pub parse_duration_ms : Bytes → Option ℕ
parse_duration_ms s =
    let n = length s in
    if ltb 2 n && bytes_eq (drop (n - 2) s) (codes "ms")
    then parse_u32 (take (n - 2) s)
    else if ltb 1 n && bytes_eq (drop (n - 1) s) (codes "s")
    then times 1000 (parse_u32 (take (n - 1) s))
    else none
