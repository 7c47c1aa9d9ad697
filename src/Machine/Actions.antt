-- ===== src/Machine/Actions.antt =====
-- The private actions of src/capture_state_machine.cpp that use the device or a clock: frames,
-- configuring, the release cycle, and the loss of the device.
use hamstercam.Base.{ℕ, ◌/◌, true, false, if◌then◌else◌, add_u64, ns_per_s}
use hamstercam.Double.{Double}
use hamstercam.Backoff
use hamstercam.Device.{Device, Clock, FrameDescriptor, StreamStartResult, started, buffer_error}
use hamstercam.Stats.{
  ErrorReason, CaptureStats, set_stream_info, awaiting_producer, configuring, streaming, stalled,
  device_absent,
}
use hamstercam.Histogram.{observe}
use hamstercam.Event.{EventType, plain_event}
use hamstercam.Machine.State.{Machine, enter, emit, record_error, reset_backoffs, retry_format}

module _ {W F : Type 0} (dev : Device W) (clock : Clock W) where
  -- After `start_streaming`, and whether it started is known.
  unfoldable pub configured : StreamStartResult → Machine W F → Machine W F × ℕ
  configured buffer_error m =
      let failed = enter awaiting_producer (record_error ErrorReason.buffer m) in
      let (now, w) = clock.steady_now failed.world in retry_format now (record failed { world = w })
  configured started m =
      let ready = reset_backoffs m in
      let (now, w) = clock.steady_now ready.world in
      (
        enter streaming (record ready {
          world = w;
          stats = set_stream_info ready.current_format ready.stats;
          have_last_frame = false;
          rate_window_start = now;
          rate_window_frame_count = 0;
          rate_anomaly_active = false;
        }),
        0,
      )

  unfoldable pub enter_configuring : Machine W F → Machine W F × ℕ
  unfolding configured
  enter_configuring m =
      let busy = enter configuring m in
      let (result, w) = dev.start_streaming busy.config.buffer_count busy.world in
      configured result (record busy { world = w })

  unfoldable pub begin_release_cycle : ErrorReason → Machine W F → Machine W F
  begin_release_cycle reason m =
      let counted = record m { stats = record m.stats { stalls = add_u64 m.stats.stalls 1 } } in
      let noted =
        emit (plain_event EventType.stall_detected) (enter stalled (record_error reason counted)) in
      let released = record noted { world = dev.close (dev.stop_streaming noted.world) } in
      let waiting = enter awaiting_producer released in
      let (now, w) = clock.steady_now waiting.world in
      record waiting {
        world = w;
        recovering = true;
        awaiting_producer_backoff = Backoff.reset waiting.awaiting_producer_backoff;
        next_attempt_at = now;
        have_last_frame = false;
      }

  unfoldable pub lose_device : Machine W F → Machine W F
  lose_device m =
      let noted = record_error ErrorReason.device_lost m in
      let released = record noted { world = dev.close (dev.stop_streaming noted.world) } in
      let gone = enter device_absent (emit (plain_event EventType.device_lost) released) in
      let reset = reset_backoffs (record gone { recovering = false }) in
      let (now, w) = clock.steady_now reset.world in
      record reset { world = w; next_attempt_at = now; have_last_frame = false }

  module _ (fp : Double F) where
    -- The interval to the frame before, if there is one in this stream.
    unfoldable pub observe_interval : FrameDescriptor → Machine W F → CaptureStats F
    observe_interval f m =
        if m.have_last_frame
        then record m.stats {
          frame_interval_seconds =
              observe fp (fp.seconds m.last_frame_at f.captured_at) m.stats.frame_interval_seconds;
        }
        else m.stats

    unfoldable pub handle_frame : FrameDescriptor → Machine W F → Machine W F
    unfolding observe_interval
    handle_frame f m =
        let requeued = record m { world = dev.requeue_frame f.buffer_index m.world } in
        let (wall, w) = clock.wall_now requeued.world in
        let counted = record requeued {
          world = w;
          stats = record requeued.stats {
            frames_received = add_u64 m.stats.frames_received 1;
            bytes_received = add_u64 m.stats.bytes_received f.bytes_used;
            last_frame_unixtime = wall / ns_per_s;
          };
        } in
        record counted {
          stats = observe_interval f counted;
          last_frame_at = f.captured_at;
          have_last_frame = true;
        }
