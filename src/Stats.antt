-- ===== src/Stats.antt =====
-- include/hamstercam/capture_state.hpp, error_reason.hpp and stats.hpp. Each atomic is a field; the
-- 64-bit counters wrap.
use hamstercam.Base.{
  ℕ, Bool, true, false, Option, none, some, List, if◌then◌else◌, get_or, set, replicate, add_u64,
  Bytes, codes,
}
use hamstercam.Double.{Double}
use hamstercam.Histogram.{Histogram, frame_interval_buckets}
use hamstercam.Histogram
use hamstercam.Device.{StreamFormat, no_format}

pub data CaptureState : Type 0 where
  device_absent awaiting_producer configuring streaming stalled : CaptureState

-- The values of the enumeration, which the gauge exports.
unfoldable pub state_code : CaptureState → ℕ
state_code device_absent = 0
state_code awaiting_producer = 1
state_code configuring = 2
state_code streaming = 3
state_code stalled = 4

unfoldable pub state_name : CaptureState → Bytes
state_name device_absent = codes "device_absent"
state_name awaiting_producer = codes "awaiting_producer"
state_name configuring = codes "configuring"
state_name streaming = codes "streaming"
state_name stalled = codes "stalled"

pub data ErrorReason : Type 0 where
  open_error format buffer timeout dequeue device_lost geometry count : ErrorReason

unfoldable pub reason_index : ErrorReason → ℕ
reason_index open_error = 0
reason_index format = 1
reason_index buffer = 2
reason_index timeout = 3
reason_index dequeue = 4
reason_index device_lost = 5
reason_index geometry = 6
reason_index count = 7

abbrev pub error_reason_count : ℕ
error_reason_count = 7

unfoldable pub reason_name : ErrorReason → Bytes
reason_name open_error = codes "open"
reason_name format = codes "format"
reason_name buffer = codes "buffer"
reason_name timeout = codes "timeout"
reason_name dequeue = codes "dequeue"
reason_name device_lost = codes "device_lost"
reason_name geometry = codes "geometry"
reason_name count = codes "unknown"

pub record CaptureStats (F : Type 0) : Type 0 where
  pub frames_received : ℕ
  pub bytes_received : ℕ
  pub capture_state : ℕ
  pub reconnects : ℕ
  pub stalls : ℕ
  pub last_frame_unixtime : ℕ
  pub frame_interval_seconds : Histogram F
  pub errors : List ℕ
  pub stream_info_known : Bool
  pub stream_info_format : StreamFormat

unfoldable pub new_stats : {F : Type 0} → Double F → CaptureStats F
unfolding Histogram.make
new_stats fp = record {
  frames_received = 0;
  bytes_received = 0;
  capture_state = state_code device_absent;
  reconnects = 0;
  stalls = 0;
  last_frame_unixtime = 0;
  frame_interval_seconds = Histogram.make fp (frame_interval_buckets fp);
  errors = replicate error_reason_count 0;
  stream_info_known = false;
  stream_info_format = no_format;
}

module _ {F : Type 0} where
  unfoldable pub record_error : ErrorReason → CaptureStats F → CaptureStats F
  record_error r s = record s {
    errors = set s.errors (reason_index r) (add_u64 (get_or s.errors (reason_index r) 0) 1);
  }

  unfoldable pub error_count : ErrorReason → CaptureStats F → ℕ
  error_count r s = get_or s.errors (reason_index r) 0

  unfoldable pub set_stream_info : StreamFormat → CaptureStats F → CaptureStats F
  set_stream_info f s = record s { stream_info_known = true; stream_info_format = f }

  -- `none` is `false`.
  unfoldable pub stream_info : CaptureStats F → Option StreamFormat
  stream_info s = if s.stream_info_known then some s.stream_info_format else none
