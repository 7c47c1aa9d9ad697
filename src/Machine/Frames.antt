-- ===== src/Machine/Frames.antt =====
-- The fields that `handle_frame` and `check_arrival_rate` of src/capture_state_machine.cpp leave alone.
use hamstercam.Base.{ℕ, ◌≡◌, Bool, true, false, add_u32, arith}
use hamstercam.Double.{Double}
use hamstercam.Device.{Device, Clock, FrameDescriptor}
use hamstercam.Stats
use hamstercam.Machine.State.{
  Machine, record_error, check_arrival_rate, flag_anomaly, rate_is_anomalous,
}
use hamstercam.Machine.Actions.{handle_frame}

-- The machine is at the same point of its course: only the frame counts, the errors, the arrival
-- window and the time of the last frame may differ.
pub record SameCourse {W F : Type 0} (m n : Machine W F) : Type 0 where
  pub state : n.state ≡ m.state
  pub gauge : n.stats.capture_state ≡ m.stats.capture_state
  pub recovering : n.recovering ≡ m.recovering
  pub streamed : n.has_streamed_before ≡ m.has_streamed_before
  pub config : n.config ≡ m.config
  pub absent_backoff : n.device_absent_backoff ≡ m.device_absent_backoff
  pub awaiting_backoff : n.awaiting_producer_backoff ≡ m.awaiting_producer_backoff
  pub attempt : n.next_attempt_at ≡ m.next_attempt_at
  pub format : n.current_format ≡ m.current_format
  pub events : n.events ≡ m.events
  pub stalls : n.stats.stalls ≡ m.stats.stalls
  pub reconnects : n.stats.reconnects ≡ m.stats.reconnects

module _ {W F : Type 0} (dev : Device W) (clock : Clock W) (fp : Double F) where
  pub handle_frame-SameCourse :
      (f : FrameDescriptor) (m : Machine W F) → SameCourse m (handle_frame dev clock fp f m)
  unfolding handle_frame
  handle_frame-SameCourse f m = ground arith

module _ {W F : Type 0} (fp : Double F) where
  pub flag_anomaly-SameCourse : (b : Bool) (m : Machine W F) → SameCourse m (flag_anomaly fp b m)
  unfolding flag_anomaly record_error Stats.record_error
  flag_anomaly-SameCourse true m = ground arith
  flag_anomaly-SameCourse false m = ground arith

  pub check_arrival_rate-SameCourse :
      (now : ℕ) (m : Machine W F) → SameCourse m (check_arrival_rate fp now m)
  unfolding check_arrival_rate
  check_arrival_rate-SameCourse now m = ground (
    arith,
    flag_anomaly-SameCourse (rate_is_anomalous fp m (add_u32 m.rate_window_frame_count 1) now) m,
  )

  flag_anomaly-world :
      (b : Bool) (m : Machine W F)
      → ((flag_anomaly fp b m).world ≡ m.world)
        × ((flag_anomaly fp b m).have_last_frame ≡ m.have_last_frame)
  unfolding flag_anomaly record_error
  flag_anomaly-world true m = ground arith
  flag_anomaly-world false m = ground arith

  pub check_arrival_rate-world :
      (now : ℕ) (m : Machine W F)
      → ((check_arrival_rate fp now m).world ≡ m.world)
        × ((check_arrival_rate fp now m).have_last_frame ≡ m.have_last_frame)
  unfolding check_arrival_rate
  check_arrival_rate-world now m = ground (
    arith,
    flag_anomaly-world (rate_is_anomalous fp m (add_u32 m.rate_window_frame_count 1) now) m,
  )
