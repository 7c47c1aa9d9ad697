-- ===== src/Machine.antt =====
-- src/capture_state_machine.cpp: `step` and its cases, over any device, clock and `double`. A step
-- returns the new state and its `recommended_wait` in milliseconds.
pub mod State
pub mod Actions
pub mod Frames
pub mod Resting
pub mod Protocol
pub mod Worlds
pub mod Tallied
pub mod Tally
pub mod Mirror
pub mod Watchers
pub mod Transitions
pub mod Moves
pub mod Log
pub mod Counters
pub mod Waits
pub mod Release
pub mod Recovery
pub mod Arrivals
use hamstercam.Base.{
  ℕ, ◌+◌, ◌-◌, ◌*◌, ◌/◌, Bool, true, false, ◌&&◌, not, if◌then◌else◌, ltb, leb, ◌==◌, add_u64,
  ns_per_ms, List, [], ◌∷◌,
}
use hamstercam.Double.{Double}
use hamstercam.Backoff
use hamstercam.Device.{
  StreamFormat, no_format, format_eq, FrameDescriptor, OpenResult, opened, absent, FormatResult,
  known, no_producer, DequeueResult, frame, timeout, device_lost, Device, Clock,
}
use hamstercam.Stats.{
  CaptureState, device_absent, awaiting_producer, configuring, streaming, stalled, ErrorReason,
  new_stats,
}
use hamstercam.Event.{EventType, plain_event, format_event, change_event}
use State.{
  DaemonConfig, Machine, enter, emit, record_error, reset_backoffs, retry_open, retry_format,
  check_arrival_rate,
}
use Actions.{enter_configuring, begin_release_cycle, lose_device, handle_frame}

abbrev is_streaming : CaptureState → Bool
is_streaming streaming = true
is_streaming _ = false

module _ {W F : Type 0} (dev : Device W) (clock : Clock W) (fp : Double F) where
  open fp use {of_nat, literal, mul, div, truncate}

  -- The stall threshold in milliseconds.
  unfoldable pub stall_threshold_of : DaemonConfig → ℕ
  stall_threshold_of c =
      let interval =
        if ltb 0 c.expected_fps then div (literal 1 0) (of_nat c.expected_fps) else literal 1 0 in
      truncate (mul (mul interval (of_nat c.stall_multiple)) (literal 1000 0))

  -- The constructor.
  unfoldable pub make : DaemonConfig → W → Machine W F
  make c w0 =
      let (now, w) = clock.steady_now w0 in
      enter device_absent (record {
        world = w;
        events = [];
        stats = new_stats fp;
        config = c;
        state = device_absent;
        device_absent_backoff = Backoff.make c.reconnect_initial_backoff c.reconnect_max_backoff;
        awaiting_producer_backoff =
            Backoff.make c.reconnect_initial_backoff c.awaiting_producer_max_backoff;
        next_attempt_at = now;
        last_frame_at = 0;
        have_last_frame = false;
        recovering = false;
        current_format = no_format;
        has_streamed_before = false;
        stall_threshold = stall_threshold_of c;
        rate_window_start = 0;
        rate_window_frame_count = 0;
        rate_anomaly_active = false;
      })

  -- `duration_cast<milliseconds>(next_attempt_at_ - now)` where `now` is earlier.
  abbrev remaining_ms : Machine W F → ℕ → ℕ
  remaining_ms m now = (m.next_attempt_at - now) / ns_per_ms

  -- Behind `device_.open()` in `step_device_absent`.
  unfoldable pub device_opened : ℕ → OpenResult → Machine W F → Machine W F × ℕ
  device_opened now opened m = (
    emit (plain_event EventType.awaiting_producer)
        (emit (plain_event EventType.device_opened) (enter awaiting_producer (reset_backoffs m))),
    0,
  )
  device_opened now absent m = retry_open now (record_error ErrorReason.open_error m)

  unfoldable pub step_device_absent : Machine W F → Machine W F × ℕ
  unfolding device_opened
  step_device_absent m =
      let (now, w) = clock.steady_now m.world in
      if ltb now m.next_attempt_at
      then (record m { world = w }, remaining_ms m now)
      else let (result, w') = dev.open_device w in
        device_opened now result (record m { world = w' })

  -- What `step_awaiting_producer` reports once it streams.
  unfoldable pub report_streaming : Machine W F → Machine W F
  report_streaming m =
      if m.has_streamed_before
      then emit (plain_event EventType.reconnecting)
          (record m { stats = record m.stats { reconnects = add_u64 m.stats.reconnects 1 } })
      else emit (format_event EventType.streaming_started m.current_format)
          (record m { has_streamed_before = true })

  -- Behind `query_format` in `step_awaiting_producer`.
  unfoldable pub producer_queried : ℕ → FormatResult → Machine W F → Machine W F × ℕ
  unfolding report_streaming
  producer_queried now no_producer m = retry_format now m
  producer_queried now FormatResult.error m = retry_format now (record_error ErrorReason.format m)
  producer_queried now (known f) m =
      let (m', wait) = enter_configuring dev clock (record m { current_format = f }) in
      (if is_streaming m'.state then report_streaming m' else m', wait)

  unfoldable pub step_awaiting_producer : Machine W F → Machine W F × ℕ
  unfolding producer_queried
  step_awaiting_producer m =
      let (now, w) = clock.steady_now m.world in
      if ltb now m.next_attempt_at
      then (record m { world = w }, remaining_ms m now)
      else let (result, w') = dev.query_format w in
        producer_queried now result (record m { world = w' })

  -- The end of `step_recovering`, for the format seen and the one before.
  unfoldable pub report_recovery : StreamFormat → StreamFormat → Machine W F → Machine W F
  report_recovery f previous m =
      let cleared = emit (plain_event EventType.stall_cleared) (record m { recovering = false }) in
      let told =
        if not (format_eq f previous)
        then emit (change_event EventType.format_changed f previous) cleared
        else cleared in
      emit (format_event EventType.streaming_started m.current_format) told

  abbrev close_device : Machine W F → Machine W F
  close_device m = record m { world = dev.close m.world }

  -- Behind `query_format` in `step_recovering`.
  unfoldable pub probe_queried : ℕ → FormatResult → Machine W F → Machine W F × ℕ
  unfolding report_recovery
  probe_queried now no_producer m = retry_format now (close_device m)
  probe_queried now FormatResult.error m =
      retry_format now (record_error ErrorReason.format (close_device m))
  probe_queried now (known f) m =
      let (m', wait) = enter_configuring dev clock (record m { current_format = f }) in
      (
        if is_streaming m'.state then report_recovery f m.current_format m' else close_device m',
        wait,
      )

  -- Behind `device_.open()` in `step_recovering`.
  unfoldable pub probe_opened : ℕ → OpenResult → Machine W F → Machine W F × ℕ
  unfolding probe_queried
  probe_opened now absent m = (lose_device dev clock m, 0)
  probe_opened now opened m =
      let (result, w) = dev.query_format m.world in
      probe_queried now result (record m { world = w })

  unfoldable pub step_recovering : Machine W F → Machine W F × ℕ
  unfolding probe_opened
  step_recovering m =
      let (now, w) = clock.steady_now m.world in
      if ltb now m.next_attempt_at
      then (record m { world = w }, remaining_ms m now)
      else let (result, w') = dev.open_device w in probe_opened now result (record m { world = w' })

  -- `case DequeueResult::Frame`.
  unfoldable pub frame_arrived : FrameDescriptor → Machine W F → Machine W F
  frame_arrived f m =
      let m' = check_arrival_rate fp f.captured_at (handle_frame dev clock fp f m) in
      if not m'.current_format.compressed && not (f.bytes_used == m'.current_format.size_image)
      then begin_release_cycle dev clock ErrorReason.geometry m'
      else m'

  -- `case DequeueResult::Timeout`; `now - last >= threshold` as a sum of nanoseconds.
  unfoldable pub poll_timed_out : Machine W F → Machine W F
  poll_timed_out m =
      let (now, w) = clock.steady_now m.world in
      let m' = record m { world = w } in
      if m.have_last_frame && leb (m.last_frame_at + m.stall_threshold * ns_per_ms) now
      then begin_release_cycle dev clock ErrorReason.timeout m'
      else m'

  unfoldable pub dequeued : DequeueResult → Machine W F → Machine W F
  unfolding frame_arrived poll_timed_out
  dequeued (frame f) m = frame_arrived f m
  dequeued timeout m = poll_timed_out m
  dequeued DequeueResult.error m = record_error ErrorReason.dequeue m
  dequeued device_lost m = lose_device dev clock m

  unfoldable pub step_streaming : ℕ → Machine W F → Machine W F × ℕ
  unfolding dequeued
  step_streaming poll_timeout m =
      let (result, w) = dev.dequeue_frame poll_timeout m.world in
      (dequeued result (record m { world = w }), 0)

  -- The switch of `step`.
  unfoldable pub step_in : CaptureState → ℕ → Machine W F → Machine W F × ℕ
  unfolding step_device_absent step_awaiting_producer step_recovering step_streaming
  step_in device_absent poll_timeout m = step_device_absent m
  step_in awaiting_producer poll_timeout m =
      if m.recovering then step_recovering m else step_awaiting_producer m
  step_in configuring poll_timeout m = (m, 0)
  step_in stalled poll_timeout m = (m, 0)
  step_in streaming poll_timeout m = step_streaming poll_timeout m

  unfoldable pub step : ℕ → Machine W F → Machine W F × ℕ
  unfolding step_in
  step poll_timeout m = step_in m.state poll_timeout m

  -- As many steps as the list has poll timeouts.
  unfoldable pub run : List ℕ → Machine W F → Machine W F
  unfolding step
  run [] m = m
  run (t ∷ ts) m = run ts (step t m).0
