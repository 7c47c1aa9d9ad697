-- ===== src/Machine/Release.antt =====
-- When src/capture_state_machine.cpp releases a streaming device, and what one frame counts.
use hamstercam.Base.{
  ℕ, ◌+◌, ◌*◌, ◌/◌, ◌≤◌, ◌≡◌, ◌≢◌, ◌↔◌, ◌⊎◌, Bool, true, false, ns_per_ms, ns_per_s, add_u64,
  add_u32, arith,
}
use hamstercam.Double.{Double}
use hamstercam.Device.{Device, Clock, FrameDescriptor, frame, timeout}
use hamstercam.Stats.{CaptureState, awaiting_producer, streaming, ErrorReason}
use hamstercam.Stats
use hamstercam.Machine.State.{
  Machine, enter, emit, record_error, check_arrival_rate, flag_anomaly, rate_is_anomalous,
}
use hamstercam.Machine.Actions.{begin_release_cycle, handle_frame}
use hamstercam.Machine.Frames.{
  handle_frame-SameCourse, check_arrival_rate-SameCourse, check_arrival_rate-world,
}
use hamstercam.Machine.{frame_arrived, poll_timed_out, dequeued, step_in, step}

-- The device has been let go, to be reacquired.
abbrev pub IsReleased : {W F : Type 0} → Machine W F → Type 0
IsReleased m = (m.state ≡ awaiting_producer) × (m.recovering ≡ true)

-- What a frame adds to the statistics, whatever follows.
pub record CountsFrame {W F : Type 0} (f : FrameDescriptor) (wall : ℕ) (m n : Machine W F)
    : Type 0 where
  pub frames : n.stats.frames_received ≡ add_u64 m.stats.frames_received 1
  pub bytes : n.stats.bytes_received ≡ add_u64 m.stats.bytes_received f.bytes_used
  pub unixtime : n.stats.last_frame_unixtime ≡ wall / ns_per_s
  pub captured : n.last_frame_at ≡ f.captured_at

module _ {W F : Type 0} (dev : Device W) (clock : Clock W) (fp : Double F) where
  -- A poll that times out while streaming releases the device exactly when a frame has arrived in
  -- this stream and the stall threshold has passed since the last one, and then counts a stall;
  -- otherwise the machine stays as it is but for the world.
  pub step-timeout :
      (t : ℕ) (m : Machine W F)
      → m.state ≡ streaming
      → m.recovering ≡ false
      → (dev.dequeue_frame t m.world).0 ≡ timeout
      → let (now, w) = clock.steady_now (dev.dequeue_frame t m.world).1 in
        let n = (step dev clock fp t m).0 in
        (IsReleased n
          ↔ ((m.have_last_frame ≡ true) × (m.last_frame_at + m.stall_threshold * ns_per_ms ≤ now)))
        × ((IsReleased n × (n.stats.stalls ≡ add_u64 m.stats.stalls 1))
            ⊎ (n ≡ record m { world = w }))
  unfolding step step_in dequeued poll_timed_out begin_release_cycle emit enter record_error
      Stats.record_error
  step-timeout t m s r e = ground arith

  handle_frame-CountsFrame :
      (f : FrameDescriptor) (m : Machine W F)
      → let (wall, w) = clock.wall_now (dev.requeue_frame f.buffer_index m.world) in
        CountsFrame f wall m (handle_frame dev clock fp f m)
        × ((handle_frame dev clock fp f m).have_last_frame ≡ true)
  unfolding handle_frame
  handle_frame-CountsFrame f m = ground arith

  flag_anomaly-counts :
      (b : Bool) (m : Machine W F)
      → let n = flag_anomaly fp b m in
        (n.stats.frames_received ≡ m.stats.frames_received)
        × (n.stats.bytes_received ≡ m.stats.bytes_received)
        × (n.stats.last_frame_unixtime ≡ m.stats.last_frame_unixtime)
        × (n.last_frame_at ≡ m.last_frame_at)
  unfolding flag_anomaly record_error Stats.record_error
  flag_anomaly-counts true m = ground arith
  flag_anomaly-counts false m = ground arith

  check_arrival_rate-counts :
      (now : ℕ) (m : Machine W F)
      → let n = check_arrival_rate fp now m in
        (n.stats.frames_received ≡ m.stats.frames_received)
        × (n.stats.bytes_received ≡ m.stats.bytes_received)
        × (n.stats.last_frame_unixtime ≡ m.stats.last_frame_unixtime)
        × (n.last_frame_at ≡ m.last_frame_at)
  unfolding check_arrival_rate
  check_arrival_rate-counts now m = ground (
    arith,
    flag_anomaly-counts (rate_is_anomalous fp m (add_u32 m.rate_window_frame_count 1) now) m,
  )

  begin_release_cycle-counts :
      (r : ErrorReason) (m : Machine W F)
      → let n = begin_release_cycle dev clock r m in
        IsReleased n
        × (n.stats.frames_received ≡ m.stats.frames_received)
        × (n.stats.bytes_received ≡ m.stats.bytes_received)
        × (n.stats.last_frame_unixtime ≡ m.stats.last_frame_unixtime)
        × (n.last_frame_at ≡ m.last_frame_at)
  unfolding begin_release_cycle emit enter record_error Stats.record_error
  begin_release_cycle-counts r m = ground arith

  -- A frame dequeued while streaming is counted once, with its bytes and the second of its arrival,
  -- and becomes the last frame. The device is released exactly when the format is not compressed
  -- and the frame's size is not the format's; otherwise streaming goes on with no event.
  pub step-frame :
      (t : ℕ) (m : Machine W F) (f : FrameDescriptor)
      → m.state ≡ streaming
      → m.recovering ≡ false
      → (dev.dequeue_frame t m.world).0 ≡ frame f
      → let w = (dev.dequeue_frame t m.world).1 in
        let n = (step dev clock fp t m).0 in
        CountsFrame f (clock.wall_now (dev.requeue_frame f.buffer_index w)).0 m n
        × (IsReleased n ↔ (
            (m.current_format.compressed ≡ false) × (f.bytes_used ≢ m.current_format.size_image)))
        × (IsReleased n
            ⊎ ((n.state ≡ streaming) × (n.have_last_frame ≡ true) × (n.events ≡ m.events)))
  unfolding step step_in dequeued frame_arrived
  step-frame t m f s r e =
      let m0 = record m { world = (dev.dequeue_frame t m.world).1 } in
      let m1 = handle_frame dev clock fp f m0 in
      let m2 = check_arrival_rate fp f.captured_at m1 in
      ground (
        arith,
        handle_frame-SameCourse dev clock fp f m0,
        handle_frame-CountsFrame f m0,
        check_arrival_rate-SameCourse fp f.captured_at m1,
        check_arrival_rate-world fp f.captured_at m1,
        check_arrival_rate-counts f.captured_at m1,
        begin_release_cycle-counts ErrorReason.geometry m2,
      )
