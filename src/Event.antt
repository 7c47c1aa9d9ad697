-- ===== src/Event.antt =====
-- include/hamstercam/event.hpp.
use hamstercam.Device.{StreamFormat, no_format}
use hamstercam.Stats.{ErrorReason}

pub data EventType : Type 0 where
  device_opened awaiting_producer streaming_started device_lost : EventType
  reconnecting stall_detected stall_cleared format_changed : EventType

pub record Event : Type 0 where
  pub type : EventType
  pub format : StreamFormat
  pub previous_format : StreamFormat
  pub reason : ErrorReason

-- `Event{type}`, `Event{type, format}` and `Event{type, format, previous}`: what is not given has
-- its default.
unfoldable pub plain_event : EventType → Event
plain_event t = record {
  type = t;
  format = no_format;
  previous_format = no_format;
  reason = ErrorReason.count;
}

unfoldable pub format_event : EventType → StreamFormat → Event
unfolding plain_event
format_event t f = record (plain_event t) { format = f }

unfoldable pub change_event : EventType → StreamFormat → StreamFormat → Event
unfolding plain_event
change_event t f previous = record (plain_event t) { format = f; previous_format = previous }
