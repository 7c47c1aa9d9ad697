-- ===== src/Machine/State.antt =====
-- The state of the capture state machine (include/hamstercam/capture_state_machine.hpp), its
-- configuration (daemon_config.hpp) and the steps that touch neither the device nor a clock.
use hamstercam.Base.{
  ℕ, ◌+◌, ◌*◌, ◌&&◌, ltb, Bool, true, false, List, ◌∷◌, if◌then◌else◌, add_u32, ns_per_ms, ns_per_s,
}
use hamstercam.Double.{Double}
use hamstercam.Backoff.{Backoff}
use hamstercam.Backoff
use hamstercam.Device.{StreamFormat}
use hamstercam.Stats.{CaptureState, ErrorReason, CaptureStats, state_code}
use hamstercam.Stats
use hamstercam.Event.{Event}

pub record DaemonConfig : Type 0 where
  pub expected_fps : ℕ
  pub stall_multiple : ℕ
  pub buffer_count : ℕ
  pub reconnect_initial_backoff : ℕ
  pub reconnect_max_backoff : ℕ
  pub awaiting_producer_max_backoff : ℕ

abbrev pub default_config : DaemonConfig
default_config = record {
  expected_fps = 15;
  stall_multiple = 10;
  buffer_count = 4;
  reconnect_initial_backoff = 200;
  reconnect_max_backoff = 30_000;
  awaiting_producer_max_backoff = 2_000;
}

-- Time points are nanoseconds, durations milliseconds. `world` is the state of the device and the
-- clocks, `events` holds what was emitted, the last event first.
pub record Machine (W F : Type 0) : Type 0 where
  pub world : W
  pub events : List Event
  pub stats : CaptureStats F
  pub config : DaemonConfig
  pub state : CaptureState
  pub device_absent_backoff : Backoff
  pub awaiting_producer_backoff : Backoff
  pub next_attempt_at : ℕ
  pub last_frame_at : ℕ
  pub have_last_frame : Bool
  pub recovering : Bool
  pub current_format : StreamFormat
  pub has_streamed_before : Bool
  pub stall_threshold : ℕ
  pub rate_window_start : ℕ
  pub rate_window_frame_count : ℕ
  pub rate_anomaly_active : Bool

module _ {W F : Type 0} where
  -- `state_ = s` and the store to the gauge, which always stand together.
  unfoldable pub enter : CaptureState → Machine W F → Machine W F
  enter s m = record m { state = s; stats = record m.stats { capture_state = state_code s } }

  unfoldable pub emit : Event → Machine W F → Machine W F
  emit e m = record m { events = e ∷ m.events }

  unfoldable pub record_error : ErrorReason → Machine W F → Machine W F
  record_error r m = record m { stats = Stats.record_error r m.stats }

  unfoldable pub reset_backoffs : Machine W F → Machine W F
  reset_backoffs m = record m {
    device_absent_backoff = Backoff.reset m.device_absent_backoff;
    awaiting_producer_backoff = Backoff.reset m.awaiting_producer_backoff;
  }

  -- `delay = device_absent_backoff_.next(); next_attempt_at_ = now + delay;`
  unfoldable pub retry_open : ℕ → Machine W F → Machine W F × ℕ
  retry_open now m =
      let (delay, b) = Backoff.next m.device_absent_backoff in
      (record m { device_absent_backoff = b; next_attempt_at = now + delay * ns_per_ms }, delay)

  -- The same with `awaiting_producer_backoff_`.
  unfoldable pub retry_format : ℕ → Machine W F → Machine W F × ℕ
  retry_format now m =
      let (delay, b) = Backoff.next m.awaiting_producer_backoff in
      (record m { awaiting_producer_backoff = b; next_attempt_at = now + delay * ns_per_ms }, delay)

  module _ (fp : Double F) where
    open fp use {of_nat, literal, mul, div, lt, seconds}

    -- `expected_fps > 0 && rate > threshold`, for the window from `rate_window_start_` to `now`.
    unfoldable pub rate_is_anomalous : Machine W F → ℕ → ℕ → Bool
    rate_is_anomalous m frames now =
        ltb 0 m.config.expected_fps
        && lt (mul (of_nat m.config.expected_fps) (literal 5 0))
            (div (of_nat frames) (seconds m.rate_window_start now))

    unfoldable pub flag_anomaly : Bool → Machine W F → Machine W F
    flag_anomaly true m =
        if m.rate_anomaly_active
        then m
        else record (record_error ErrorReason.geometry m) { rate_anomaly_active = true }
    flag_anomaly false m = record m { rate_anomaly_active = false }

    -- The window of two seconds is still open while `now < rate_window_start_ + 2s`.
    unfoldable pub check_arrival_rate : ℕ → Machine W F → Machine W F
    check_arrival_rate now m =
        let frames = add_u32 m.rate_window_frame_count 1 in
        if ltb now (m.rate_window_start + 2 * ns_per_s)
        then record m { rate_window_frame_count = frames }
        else record (flag_anomaly (rate_is_anomalous m frames now) m) {
          rate_window_start = now;
          rate_window_frame_count = 0;
        }
