-- ===== src/Machine/Mirror.antt =====
-- The state machine of src/capture_state_machine.cpp over two devices and two pairs of clocks that answer
-- alike, such as a device and the same device with a ledger beside it.
pub mod Steps
use hamstercam.Base.{
  ℕ, ◌≡◌, refl, ap, Bool, true, false, List, [], ◌∷◌, if◌then◌else◌, ltb, ◌+◌, ◌*◌, add_u32,
  ns_per_s, arith,
}
use hamstercam.Double.{Double}
use hamstercam.Device.{
  StreamFormat, Device, Clock, FrameDescriptor, OpenResult, opened, absent, FormatResult, known,
  no_producer, StreamStartResult, started, buffer_error, DequeueResult, frame, timeout, device_lost,
}
use hamstercam.Stats.{
  CaptureState, device_absent, awaiting_producer, configuring, streaming, stalled, ErrorReason,
}
use hamstercam.Machine.State.{
  DaemonConfig, Machine, enter, emit, record_error, reset_backoffs, retry_open, retry_format,
  check_arrival_rate, flag_anomaly, rate_is_anomalous,
}
use hamstercam.Machine.Actions.{
  configured, enter_configuring, begin_release_cycle, lose_device, handle_frame, observe_interval,
}
use hamstercam.Machine.{
  make, device_opened, report_streaming, producer_queried, report_recovery, probe_queried,
  probe_opened, frame_arrived, poll_timed_out, dequeued, step_device_absent, step_awaiting_producer,
  step_recovering, step_streaming, step_in, step, run,
}

-- What the first device and clocks do to `V`, the second do to `W`, as `see` shows it.
pub record Mirrors {V W : Type 0} (see : V → W) (seen : Device V) (dev : Device W)
    (seen_clock : Clock V) (clock : Clock W) : Type 0 where
  pub opening :
      (s : V) → dev.open_device (see s) ≡ ((seen.open_device s).0, see (seen.open_device s).1)
  pub closing : (s : V) → dev.close (see s) ≡ see (seen.close s)
  pub querying :
      (s : V) → dev.query_format (see s) ≡ ((seen.query_format s).0, see (seen.query_format s).1)
  pub starting :
      (n : ℕ) (s : V)
      → dev.start_streaming n (see s)
        ≡ ((seen.start_streaming n s).0, see (seen.start_streaming n s).1)
  pub stopping : (s : V) → dev.stop_streaming (see s) ≡ see (seen.stop_streaming s)
  pub dequeuing :
      (t : ℕ) (s : V)
      → dev.dequeue_frame t (see s) ≡ ((seen.dequeue_frame t s).0, see (seen.dequeue_frame t s).1)
  pub requeuing : (i : ℕ) (s : V) → dev.requeue_frame i (see s) ≡ see (seen.requeue_frame i s)
  pub steady :
      (s : V)
      → clock.steady_now (see s) ≡ ((seen_clock.steady_now s).0, see (seen_clock.steady_now s).1)
  pub wall :
      (s : V) → clock.wall_now (see s) ≡ ((seen_clock.wall_now s).0, see (seen_clock.wall_now s).1)

abbrev pub view : {V W F : Type 0} → (V → W) → Machine V F → Machine W F
view see m = record {
  world = see m.world;
  events = m.events;
  stats = m.stats;
  config = m.config;
  state = m.state;
  device_absent_backoff = m.device_absent_backoff;
  awaiting_producer_backoff = m.awaiting_producer_backoff;
  next_attempt_at = m.next_attempt_at;
  last_frame_at = m.last_frame_at;
  have_last_frame = m.have_last_frame;
  recovering = m.recovering;
  current_format = m.current_format;
  has_streamed_before = m.has_streamed_before;
  stall_threshold = m.stall_threshold;
  rate_window_start = m.rate_window_start;
  rate_window_frame_count = m.rate_window_frame_count;
  rate_anomaly_active = m.rate_anomaly_active;
}

module _ {V W F : Type 0} (see : V → W) where
  abbrev pub both : Machine V F × ℕ → Machine W F × ℕ
  both (m, wait) = (view see m, wait)

  pub view-if :
      (b : Bool) (m n : Machine V F)
      → (if b then view see m else view see n) ≡ view see (if b then m else n)
  view-if true m n = refl
  view-if false m n = refl

  pub both-if :
      (b : Bool) (r s : Machine V F × ℕ)
      → (if b then both r else both s) ≡ both (if b then r else s)
  both-if true r s = refl
  both-if false r s = refl

  module _ (seen : Device V) (dev : Device W) (seen_clock : Clock V) (clock : Clock W)
      (fp : Double F) (k : Mirrors see seen dev seen_clock clock) where
    open k use {opening, closing, querying, starting, stopping, dequeuing, requeuing, steady, wall}

    configured-view :
        (r : StreamStartResult) (m : Machine V F)
        → configured dev clock r (view see m) ≡ both (configured seen seen_clock r m)
    unfolding configured enter record_error reset_backoffs retry_format
    configured-view buffer_error m = rw (steady m.world) refl
    configured-view started m = rw (steady m.world) refl

    pub enter_configuring-view :
        (m : Machine V F)
        → enter_configuring dev clock (view see m) ≡ both (enter_configuring seen seen_clock m)
    unfolding enter_configuring enter
    enter_configuring-view m =
        let busy = enter configuring m in
        let (r, w) = seen.start_streaming busy.config.buffer_count busy.world in
        rw (starting m.config.buffer_count m.world) (configured-view r (record busy { world = w }))

    pub begin_release_cycle-view :
        (r : ErrorReason) (m : Machine V F)
        → begin_release_cycle dev clock r (view see m)
          ≡ view see (begin_release_cycle seen seen_clock r m)
    unfolding begin_release_cycle emit enter record_error
    begin_release_cycle-view r m =
        rw
          (
            stopping m.world,
            closing (seen.stop_streaming m.world),
            steady (seen.close (seen.stop_streaming m.world)),
          )
          refl

    pub lose_device-view :
        (m : Machine V F)
        → lose_device dev clock (view see m) ≡ view see (lose_device seen seen_clock m)
    unfolding lose_device emit enter record_error reset_backoffs
    lose_device-view m =
        rw
          (
            stopping m.world,
            closing (seen.stop_streaming m.world),
            steady (seen.close (seen.stop_streaming m.world)),
          )
          refl

    pub handle_frame-view :
        (f : FrameDescriptor) (m : Machine V F)
        → handle_frame dev clock fp f (view see m) ≡ view see (handle_frame seen seen_clock fp f m)
    unfolding handle_frame observe_interval
    handle_frame-view f m =
        rw (requeuing f.buffer_index m.world, wall (seen.requeue_frame f.buffer_index m.world)) refl
