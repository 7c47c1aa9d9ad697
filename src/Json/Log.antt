-- ===== src/Json/Log.antt =====
-- The log of events that src/json_logger.cpp writes, as the objects that are read from it.
use hamstercam.Base.{
  ℕ, ◌≤◌, ◌≡◌, refl, ltb, some, List, [], ◌∷◌, ◌++◌, Bytes, codes, append_assoc, append-nil,
  Bool-cases, inl, inr, arith,
}
use hamstercam.Device.{pixel_format_string}
use hamstercam.Event.{
  Event, EventType, device_opened, awaiting_producer, streaming_started, device_lost, reconnecting,
  stall_detected, stall_cleared, format_changed,
}
use hamstercam.Stats.{reason_name}
use hamstercam.Json.{
  LogLevel, debug, info, warn, error, level_code, level_string, log, field, field_number, escape,
  event_line,
}
use hamstercam.Json.Levels.{event_level}
use hamstercam.Json.Read.{text, number, Member, member_text, more_text, open_text, IsPlain}

abbrev pub event_name : EventType → Bytes
event_name device_opened = codes "device_opened"
event_name awaiting_producer = codes "awaiting_producer"
event_name streaming_started = codes "streaming_started"
event_name device_lost = codes "device_lost"
event_name reconnecting = codes "reconnecting"
event_name stall_detected = codes "stall_detected"
event_name stall_cleared = codes "stall_cleared"
event_name format_changed = codes "format_changed"

-- What the object of an event says of it.
abbrev pub details : EventType → Event → List Member
details streaming_started e =
    (codes "width", number e.format.width)
    ∷ (codes "height", number e.format.height)
    ∷ (codes "pixel_format", text (pixel_format_string e.format))
    ∷ []
details device_lost e = (codes "reason", text (reason_name e.reason)) ∷ []
details format_changed e =
    (codes "width", number e.format.width)
    ∷ (codes "height", number e.format.height)
    ∷ (codes "pixel_format", text (pixel_format_string e.format))
    ∷ (codes "previous_width", number e.previous_format.width)
    ∷ (codes "previous_height", number e.previous_format.height)
    ∷ (codes "previous_pixel_format", text (pixel_format_string e.previous_format))
    ∷ []
details _ e = []

abbrev pub stamped : Bytes → Member
stamped now = (codes "ts", text now)

abbrev pub described : EventType → Event → List Member
described t e =
    (codes "level", text (level_string (event_level t)))
    ∷ (codes "event", text (event_name t))
    ∷ details t e

-- The object that is logged for an event at a time.
abbrev pub object_of : Bytes → Event → List Member
object_of now e = stamped now ∷ described e.type e

more_text-append :
    (ms : List Member) (m : Member)
    → more_text (ms ++ m ∷ []) ≡ more_text ms ++ (b',' ∷ member_text m)
more_text-append [] m = rw (append-nil (member_text m)) refl
more_text-append (x ∷ ms) m = simp (more_text-append ms m, append_assoc)

open_text-append :
    (m : Member) (ms : List Member) (x : Member)
    → open_text m (ms ++ x ∷ []) ≡ open_text m ms ++ (b',' ∷ member_text x)
open_text-append m ms x = simp (more_text-append ms x, append_assoc)

field-open_text :
    (k v : Bytes) (m : Member) (ms : List Member)
    → field k v (some (open_text m ms)) ≡ some (open_text m (ms ++ (k, text v) ∷ []))
unfolding field
field-open_text k v m ms = rw (open_text-append m ms (k, text v)) refl

field_number-open_text :
    (k : Bytes) (n : ℕ) (m : Member) (ms : List Member)
    → field_number k n (some (open_text m ms)) ≡ some (open_text m (ms ++ (k, number n) ∷ []))
unfolding field_number
field_number-open_text k n m ms = rw (open_text-append m ms (k, number n)) refl

level_string-IsPlain : (l : LogLevel) → IsPlain (level_string l)
unfolding level_string escape
level_string-IsPlain debug = refl
level_string-IsPlain info = refl
level_string-IsPlain warn = refl
level_string-IsPlain error = refl

log-open_text :
    (now event : Bytes) (min_level l : LogLevel)
    → IsPlain now
    → IsPlain event
    → level_code min_level ≤ level_code l
    → log now min_level l event
      ≡ some (
          open_text
            (stamped now)
            ((codes "level", text (level_string l)) ∷ (codes "event", text event) ∷ []))
unfolding log
log-open_text now event min_level l p q h =
    elim (Bool-cases (ltb (level_code l) (level_code min_level))) [
      | inl e ↦ absurd (ground arith)
      | inr e ↦ rw (e, p, q, level_string-IsPlain l) (simp append_assoc)
    ]

codes-IsPlain : (t : EventType) → IsPlain (event_name t)
unfolding escape
codes-IsPlain device_opened = refl
codes-IsPlain awaiting_producer = refl
codes-IsPlain streaming_started = refl
codes-IsPlain device_lost = refl
codes-IsPlain reconnecting = refl
codes-IsPlain stall_detected = refl
codes-IsPlain stall_cleared = refl
codes-IsPlain format_changed = refl

pub event_line-open_text :
    (now : Bytes) (min_level : LogLevel) (t : EventType) (e : Event)
    → IsPlain now
    → level_code min_level ≤ level_code (event_level t)
    → event_line now min_level t e ≡ some (open_text (stamped now) (described t e))
unfolding event_line
event_line-open_text now min_level device_opened e p h =
    log-open_text now _ min_level info p (codes-IsPlain device_opened) h
event_line-open_text now min_level awaiting_producer e p h =
    log-open_text now _ min_level info p (codes-IsPlain awaiting_producer) h
event_line-open_text now min_level streaming_started e p h =
    rw
      (
        log-open_text now (codes "streaming_started") min_level info p
            (codes-IsPlain streaming_started) h,
        field_number-open_text,
        field_number-open_text,
        field-open_text,
      )
      refl
event_line-open_text now min_level device_lost e p h =
    rw
      (
        log-open_text now (codes "device_lost") min_level warn p (codes-IsPlain device_lost) h,
        field-open_text,
      )
      refl
event_line-open_text now min_level reconnecting e p h =
    log-open_text now _ min_level info p (codes-IsPlain reconnecting) h
event_line-open_text now min_level stall_detected e p h =
    log-open_text now _ min_level warn p (codes-IsPlain stall_detected) h
event_line-open_text now min_level stall_cleared e p h =
    log-open_text now _ min_level info p (codes-IsPlain stall_cleared) h
event_line-open_text now min_level format_changed e p h = simp (
  log-open_text now (codes "format_changed") min_level info p (codes-IsPlain format_changed) h,
  field_number-open_text,
  field-open_text,
)
