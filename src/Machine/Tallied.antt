-- ===== src/Machine/Tallied.antt =====
-- A device that counts the frames it delivers, and what leaves its counts and those that
-- src/capture_state_machine.cpp exports as they are.
use hamstercam.Base.{ℕ, ◌+◌, ◌%◌, ◌≡◌, Bool, true, false, add_u32, arith}
use hamstercam.Double.{Double}
use hamstercam.Device.{
  StreamFormat, Device, Clock, OpenResult, opened, absent, FormatResult, known, no_producer,
  StreamStartResult, started, buffer_error, DequeueResult, frame,
}
use hamstercam.Stats.{
  CaptureState, device_absent, awaiting_producer, configuring, streaming, stalled, ErrorReason,
  set_stream_info, new_stats,
}
use hamstercam.Stats
use hamstercam.Machine.State.{
  Machine, enter, emit, record_error, reset_backoffs, retry_open, retry_format, check_arrival_rate,
  flag_anomaly, rate_is_anomalous,
}
use hamstercam.Machine.Actions.{configured, enter_configuring, begin_release_cycle, lose_device}
use hamstercam.Machine.{
  device_opened, report_streaming, producer_queried, report_recovery, probe_queried, probe_opened,
}

pub record Tallied (W : Type 0) : Type 0 where
  pub inner : W
  pub frames : ℕ
  pub bytes : ℕ

abbrev pub frames_of : DequeueResult → ℕ
frames_of (frame f) = 1
frames_of _ = 0

abbrev pub bytes_of : DequeueResult → ℕ
bytes_of (frame f) = f.bytes_used
bytes_of _ = 0

-- Every call is passed on, and the frames delivered are counted, with their bytes.
abbrev pub tally : {W : Type 0} → Device W → Device (Tallied W)
tally dev = record {
  open_device = λ s. let (r, w) = dev.open_device s.inner in (r, record s { inner = w });
  close = λ s. record s { inner = dev.close s.inner };
  query_format = λ s. let (r, w) = dev.query_format s.inner in (r, record s { inner = w });
  start_streaming =
      λ n s. let (r, w) = dev.start_streaming n s.inner in (r, record s { inner = w });
  stop_streaming = λ s. record s { inner = dev.stop_streaming s.inner };
  dequeue_frame = λ t s.
      let (r, w) = dev.dequeue_frame t s.inner in
      (r, record { inner = w; frames = s.frames + frames_of r; bytes = s.bytes + bytes_of r });
  requeue_frame = λ i s. record s { inner = dev.requeue_frame i s.inner };
}

abbrev pub tally_clock : {W : Type 0} → Clock W → Clock (Tallied W)
tally_clock clock = record {
  steady_now = λ s. let (t, w) = clock.steady_now s.inner in (t, record s { inner = w });
  wall_now = λ s. let (t, w) = clock.wall_now s.inner in (t, record s { inner = w });
}

-- The exported counters are the numbers delivered, in 64 bits.
pub record IsTallied {W F : Type 0} (m : Machine (Tallied W) F) : Type 0 where
  pub frames : m.stats.frames_received ≡ m.world.frames % 18_446_744_073_709_551_616
  pub bytes : m.stats.bytes_received ≡ m.world.bytes % 18_446_744_073_709_551_616

-- Nothing is counted on either side.
pub record SameTally {W F : Type 0} (m n : Machine (Tallied W) F) : Type 0 where
  pub received : n.stats.frames_received ≡ m.stats.frames_received
  pub received_bytes : n.stats.bytes_received ≡ m.stats.bytes_received
  pub frames : n.world.frames ≡ m.world.frames
  pub bytes : n.world.bytes ≡ m.world.bytes

module _ {W F : Type 0} (raw : Device W) (raw_clock : Clock W) (fp : Double F) where
  abbrev dev : Device (Tallied W)
  dev = tally raw

  abbrev clock : Clock (Tallied W)
  clock = tally_clock raw_clock

  pub begin_release_cycle-SameTally :
      (r : ErrorReason) (m : Machine (Tallied W) F)
      → SameTally m (begin_release_cycle (tally raw) (tally_clock raw_clock) r m)
  unfolding begin_release_cycle emit enter record_error Stats.record_error
  begin_release_cycle-SameTally r m = ground arith

  pub lose_device-SameTally : (m : Machine (Tallied W) F) → SameTally m (lose_device dev clock m)
  unfolding lose_device emit enter record_error reset_backoffs Stats.record_error
  lose_device-SameTally m = ground arith

  pub configured-SameTally :
      (r : StreamStartResult) (m : Machine (Tallied W) F)
      → SameTally m (configured (tally raw) (tally_clock raw_clock) r m).0
  unfolding configured enter record_error reset_backoffs retry_format Stats.record_error
      set_stream_info
  configured-SameTally buffer_error m = ground arith
  configured-SameTally started m = ground arith

  pub enter_configuring-SameTally :
      (m : Machine (Tallied W) F)
      → SameTally m (enter_configuring (tally raw) (tally_clock raw_clock) m).0
  unfolding enter_configuring enter
  enter_configuring-SameTally m =
      let busy = enter configuring m in
      let (r, w) = dev.start_streaming busy.config.buffer_count busy.world in
      let c = configured-SameTally r (record busy { world = w }) in
      record {
        received = c.received;
        received_bytes = c.received_bytes;
        frames = c.frames;
        bytes = c.bytes;
      }

  pub device_opened-SameTally :
      (now : ℕ) (r : OpenResult) (m : Machine (Tallied W) F)
      → SameTally m (device_opened (tally raw) (tally_clock raw_clock) fp now r m).0
  unfolding device_opened emit enter record_error reset_backoffs retry_open Stats.record_error
  device_opened-SameTally now opened m = ground arith
  device_opened-SameTally now absent m = ground arith

  pub producer_queried-SameTally :
      (now : ℕ) (r : FormatResult) (m : Machine (Tallied W) F)
      → SameTally m (producer_queried (tally raw) (tally_clock raw_clock) fp now r m).0
  unfolding producer_queried report_streaming retry_format record_error emit Stats.record_error
  producer_queried-SameTally now (known f) m =
      ground (arith, enter_configuring-SameTally (record m { current_format = f }))
  producer_queried-SameTally now no_producer m = ground arith
  producer_queried-SameTally now FormatResult.error m = ground arith

  pub report_recovery-SameTally :
      (f p : StreamFormat) (m : Machine (Tallied W) F)
      → SameTally m (report_recovery (tally raw) (tally_clock raw_clock) fp f p m)
  unfolding report_recovery emit
  report_recovery-SameTally f p m = ground arith

  pub probe_queried-SameTally :
      (now : ℕ) (r : FormatResult) (m : Machine (Tallied W) F)
      → SameTally m (probe_queried (tally raw) (tally_clock raw_clock) fp now r m).0
  unfolding probe_queried retry_format record_error Stats.record_error
  probe_queried-SameTally now (known f) m =
      let m' = (enter_configuring dev clock (record m { current_format = f })).0 in
      ground (
        arith,
        enter_configuring-SameTally (record m { current_format = f }),
        report_recovery-SameTally f m.current_format m',
      )
  probe_queried-SameTally now no_producer m = ground arith
  probe_queried-SameTally now FormatResult.error m = ground arith

  pub probe_opened-SameTally :
      (now : ℕ) (r : OpenResult) (m : Machine (Tallied W) F)
      → SameTally m (probe_opened (tally raw) (tally_clock raw_clock) fp now r m).0
  unfolding probe_opened
  probe_opened-SameTally now absent m = lose_device-SameTally m
  probe_opened-SameTally now opened m =
      let (r, w) = dev.query_format m.world in
      ground (arith, probe_queried-SameTally now r (record m { world = w }))

  pub flag_anomaly-SameTally :
      (b : Bool) (m : Machine (Tallied W) F) → SameTally m (flag_anomaly fp b m)
  unfolding flag_anomaly record_error Stats.record_error
  flag_anomaly-SameTally true m = ground arith
  flag_anomaly-SameTally false m = ground arith

  pub check_arrival_rate-SameTally :
      (now : ℕ) (m : Machine (Tallied W) F) → SameTally m (check_arrival_rate fp now m)
  unfolding check_arrival_rate add_u32
  check_arrival_rate-SameTally now m = ground (
    arith,
    flag_anomaly-SameTally
        (rate_is_anomalous fp m ((m.rate_window_frame_count + 1) % 4_294_967_296) now) m,
  )
