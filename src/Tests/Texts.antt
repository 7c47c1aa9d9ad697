-- ===== src/Tests/Texts.antt =====
-- Log lines and command lines on concrete inputs.
use hamstercam.Base.{
  ℕ, ◌≡◌, refl, false, Option, none, some, List, [], ◌∷◌, Bytes, bytes_eq, codes, if◌then◌else◌,
  arith,
}
use hamstercam.Text.{to_string, split_at}
use hamstercam.Device.{pixel_format_string, StreamFormat}
use hamstercam.Stats.{reason_name}
use hamstercam.Event.{Event, EventType, plain_event, format_event}
use hamstercam.Json.{info, warn, escape, level_code, level_string}
use hamstercam.Json.Read.{text}
use hamstercam.Json.Lines.{emit_all, objects, read_lines, read_lines-emit_all}
use hamstercam.Json.Stamp.{Tm, padded, rfc3339_now, IsStamp, rfc3339_now-IsStamp}
use hamstercam.Cli.{
  daemon_flags, unknown_flag, contains, parse_flags, parse_u32, stoul, count_spaces, count_digits,
  digits_value, sign,
}
use hamstercam.Cli.Values.{parse_u32-to_string}

abbrev vga : StreamFormat
vga = record {
  width = 640;
  height = 480;
  pixel_format_fourcc = 842_093_913;
  size_image = 460_800;
  bytesperline = 640;
  compressed = false;
}

-- A pixel format whose text is `a"b\`, a stall and a loss.
abbrev quoted : StreamFormat
quoted = record vga { pixel_format_fourcc = 1_550_983_777 }

abbrev log_events : List (Bytes × Event)
log_events =
    (codes "T1", format_event EventType.streaming_started quoted)
    ∷ (codes "T2", plain_event EventType.stall_cleared)
    ∷ (codes "T3", plain_event EventType.device_lost)
    ∷ []

-- At the level of warnings, only the loss is logged.
warnings :
    objects warn log_events
    ≡ ((codes "ts", text (codes "T3"))
        ∷ (codes "level", text (codes "warn"))
        ∷ (codes "event", text (codes "device_lost"))
        ∷ (codes "reason", text (codes "unknown"))
        ∷ [])
      ∷ []
unfolding level_code level_string plain_event format_event reason_name
warnings = refl

read_lines-emit_all_example :
    read_lines 9 3 (emit_all (record { out = []; min_level = info }) log_events).out
    ≡ some (objects info log_events)
unfolding escape plain_event format_event pixel_format_string reason_name
read_lines-emit_all_example = read_lines-emit_all log_events info (
  record { plain = refl; clear_time = refl; fits = (omega arith, (omega arith, (refl, tt))) },
  (
    record { plain = refl; clear_time = refl; fits = tt },
    (record { plain = refl; clear_time = refl; fits = (refl, tt) }, tt),
  ),
)

-- 2026-11-26, with a leap second.
abbrev november : ℕ → Tm
november t = record {
  tm_year = 126;
  tm_mon = 10;
  tm_mday = 26;
  tm_hour = 4;
  tm_min = 5;
  tm_sec = 60;
}

stamped_at : rfc3339_now november 1_795_665_960_007_000_000 ≡ codes "2026-11-26T04:05:60.007Z"
unfolding rfc3339_now padded to_string
stamped_at = refl

rfc3339_now-IsStamp_example :
    IsStamp (november 1_795_665_960) 7 (rfc3339_now november 1_795_665_960_007_000_000)
rfc3339_now-IsStamp_example = rfc3339_now-IsStamp november 1_795_665_960_007_000_000 (record {
  year = omega arith;
  mon = omega arith;
  mday = omega arith;
  hour = omega arith;
  min = omega arith;
  sec = omega arith;
})

-- An unknown flag is refused before a missing value is noticed.
unknown : parse_flags daemon_flags (codes "--help" ∷ []) [] ≡ unknown_flag (codes "--help")
unfolding parse_flags contains bytes_eq split_at
unknown = refl

abbrev environment : Bytes → Option Bytes
environment name =
    if bytes_eq name (codes "HAMSTERCAM_DEVICE") then some (codes "/dev/video7") else none

-- 2 ^ 32 is read as 0.
parse_u32-to_string_example : parse_u32 (to_string 4_294_967_296) ≡ some 0
parse_u32-to_string_example = parse_u32-to_string 4_294_967_296 (omega arith)

-- A minus sign is accepted.
minus_one : parse_u32 (codes "-1") ≡ some 4_294_967_295
unfolding parse_u32 stoul count_spaces count_digits digits_value sign
minus_one = refl
