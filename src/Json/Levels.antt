-- ===== src/Json/Levels.antt =====
-- The levels of src/json_logger.cpp, and the events that are written at them.
use hamstercam.Base.{◌<◌, ◌≡◌, refl, none, some, Bytes, bytes_eq, codes, arith}
use hamstercam.Event.{
  Event, EventType, device_opened, awaiting_producer, streaming_started, device_lost, reconnecting,
  stall_detected, stall_cleared, format_changed,
}
use hamstercam.Json.{
  JsonLogger, LogLevel, debug, info, warn, error, level_code, level_string, parse_log_level, log,
  field, field_number, finish, event_line, emit,
}

-- The name of every level is read back as that level.
pub parse_log_level-level_string : (l : LogLevel) → parse_log_level (level_string l) ≡ some l
unfolding parse_log_level level_string bytes_eq
parse_log_level-level_string debug = refl
parse_log_level-level_string info = refl
parse_log_level-level_string warn = refl
parse_log_level-level_string error = refl

-- The level of an event: a warning for a lost device and a stall.
abbrev pub event_level : EventType → LogLevel
event_level device_lost = warn
event_level stall_detected = warn
event_level _ = info

log-none :
    (now event : Bytes) (min_level l : LogLevel)
    → level_code l < level_code min_level
    → log now min_level l event ≡ none
unfolding log
log-none now event min_level l h = ground arith

event_line-none :
    (now : Bytes) (min_level : LogLevel) (t : EventType) (e : Event)
    → level_code (event_level t) < level_code min_level
    → event_line now min_level t e ≡ none
unfolding event_line field field_number
event_line-none now min_level device_opened e h = log-none now _ min_level info h
event_line-none now min_level awaiting_producer e h = log-none now _ min_level info h
event_line-none now min_level streaming_started e h =
    rw (log-none now (codes "streaming_started") min_level info h)
event_line-none now min_level device_lost e h =
    rw (log-none now (codes "device_lost") min_level warn h)
event_line-none now min_level reconnecting e h = log-none now _ min_level info h
event_line-none now min_level stall_detected e h = log-none now _ min_level warn h
event_line-none now min_level stall_cleared e h = log-none now _ min_level info h
event_line-none now min_level format_changed e h =
    rw (log-none now (codes "format_changed") min_level info h)

-- An event whose level is below the minimum writes nothing, whatever its type.
pub emit-below :
    (now : Bytes) (logger : JsonLogger) (e : Event)
    → level_code (event_level e.type) < level_code logger.min_level
    → emit now logger e ≡ logger
unfolding emit finish
emit-below now logger e h = rw (event_line-none now logger.min_level e.type e h) refl
