-- ===== src/Json.antt =====
-- src/json_logger.cpp and include/hamstercam/json_logger.hpp. A line is the text of its buffer, or
-- nothing if its level is below the minimum; what a logger writes is a list of whole lines.
pub mod Escape
pub mod Levels
pub mod Read
pub mod Log
pub mod Lines
pub mod Stamp
use hamstercam.Base.{
  ℕ, Bool, true, false, ◌||◌, Option, none, some, List, [], ◌∷◌, ◌++◌, ◌==◌, ltb, if◌then◌else◌,
  Bytes, bytes_eq, codes,
}
use hamstercam.Text.{to_string}
use hamstercam.Device.{StreamFormat, pixel_format_string}
use hamstercam.Stats.{reason_name}
use hamstercam.Event.{
  Event, EventType, device_opened, awaiting_producer, streaming_started, device_lost, reconnecting,
  stall_detected, stall_cleared, format_changed,
}

pub data LogLevel : Type 0 where
  debug info warn error : LogLevel

-- The values of the enumeration, by which levels are compared.
unfoldable pub level_code : LogLevel → ℕ
level_code debug = 0
level_code info = 1
level_code warn = 2
level_code error = 3

unfoldable pub level_string : LogLevel → Bytes
level_string debug = codes "debug"
level_string info = codes "info"
level_string warn = codes "warn"
level_string error = codes "error"

-- `none` is `false`.
unfoldable pub parse_log_level : Bytes → Option LogLevel
parse_log_level text =
    if bytes_eq text (codes "debug")
    then some debug
    else if bytes_eq text (codes "info")
    then some info
    else if bytes_eq text (codes "warn")
    then some warn
    else if bytes_eq text (codes "error")
    then some error
    else none

unfoldable pub escape : Bytes → Bytes
escape [] = []
escape (c ∷ s) =
    let rest = escape s in if c == b'"' || c == b'\\' then b'\\' ∷ c ∷ rest else c ∷ rest

-- The text that a logger has written, and its level.
pub record JsonLogger : Type 0 where
  pub out : Bytes
  pub min_level : LogLevel

-- A line that is being built; `none` is one with no stream.
abbrev pub Line : Type 0
Line = Option Bytes

-- `JsonLogger::log`; `now` is the text that `rfc3339_now` makes of the system clock.
unfoldable pub log : Bytes → LogLevel → LogLevel → Bytes → Line
log now min_level level event =
    if ltb (level_code level) (level_code min_level)
    then none
    else some (
        codes "{\"ts\":\""
        ++ (now
            ++ (codes "\",\"level\":\""
                ++ (level_string level ++ (codes "\",\"event\":\"" ++ (event ++ codes "\""))))))

-- `Line::field` of a text, and of a number.
unfoldable pub field : Bytes → Bytes → Line → Line
field key value none = none
field key value (some buf) =
    some (buf ++ (codes ",\"" ++ (key ++ (codes "\":\"" ++ (escape value ++ codes "\"")))))

unfoldable pub field_number : Bytes → ℕ → Line → Line
field_number key value none = none
field_number key value (some buf) =
    some (buf ++ (codes ",\"" ++ (key ++ (codes "\":" ++ to_string value))))

-- `Line::~Line`: what is written behind `out`.
unfoldable pub finish : Bytes → Line → Bytes
finish out none = out
finish out (some buf) = out ++ (buf ++ codes "}\n")

-- The line of `JsonEventSink::emit` for each type of event.
unfoldable pub event_line : Bytes → LogLevel → EventType → Event → Line
event_line now min_level device_opened e = log now min_level info (codes "device_opened")
event_line now min_level awaiting_producer e = log now min_level info (codes "awaiting_producer")
event_line now min_level streaming_started e =
    field (codes "pixel_format") (pixel_format_string e.format) (
      field_number (codes "height") e.format.height (
        field_number (codes "width") e.format.width
          (log now min_level info (codes "streaming_started"))))
event_line now min_level device_lost e =
    field (codes "reason") (reason_name e.reason) (log now min_level warn (codes "device_lost"))
event_line now min_level reconnecting e = log now min_level info (codes "reconnecting")
event_line now min_level stall_detected e = log now min_level warn (codes "stall_detected")
event_line now min_level stall_cleared e = log now min_level info (codes "stall_cleared")
event_line now min_level format_changed e =
    field (codes "previous_pixel_format") (pixel_format_string e.previous_format) (
      field_number (codes "previous_height") e.previous_format.height (
        field_number (codes "previous_width") e.previous_format.width (
          field (codes "pixel_format") (pixel_format_string e.format) (
            field_number (codes "height") e.format.height (
              field_number (codes "width") e.format.width
                (log now min_level info (codes "format_changed")))))))

-- `JsonEventSink::emit`; the sink is the logger that it writes to.
unfoldable pub emit : Bytes → JsonLogger → Event → JsonLogger
emit now logger e = record logger {
  out = finish logger.out (event_line now logger.min_level e.type e);
}
