-- ===== src/Device/Protocol.antt =====
-- The contract of `ICaptureDevice` as its comments state it (include/hamstercam/capture_device.hpp),
-- as a device that passes every call on to another one and watches the order of the calls.
use hamstercam.Base.{ℕ, Bool, true, false, ◌&&◌, ◌==◌}
use hamstercam.Device.{
  Device, Clock, OpenResult, opened, absent, FormatResult, known, StreamStartResult, started,
  buffer_error, DequeueResult, frame,
}

-- `negotiated`: a format was reported and nothing started since. `holding`: a frame was dequeued
-- from this buffer and has not been returned yet.
pub data Phase : Type 0 where
  closed idle negotiated flowing : Phase
  holding : ℕ → Phase

pub record Monitored (W : Type 0) : Type 0 where
  pub inner : W
  pub phase : Phase
  -- No call has broken the contract.
  pub obeyed : Bool

abbrev pub may_open : Phase → Bool
may_open closed = true
may_open _ = false

abbrev pub may_query : Phase → Bool
may_query idle = true
may_query negotiated = true
may_query _ = false

abbrev pub may_start : Phase → Bool
may_start negotiated = true
may_start _ = false

abbrev pub may_dequeue : Phase → Bool
may_dequeue flowing = true
may_dequeue _ = false

abbrev pub may_requeue : ℕ → Phase → Bool
may_requeue i (holding j) = i == j
may_requeue i _ = false

abbrev pub after_open : OpenResult → Phase
after_open opened = idle
after_open absent = closed

abbrev pub after_query : FormatResult → Phase
after_query (known f) = negotiated
after_query _ = idle

abbrev pub after_start : StreamStartResult → Phase
after_start started = flowing
after_start buffer_error = idle

abbrev pub after_stop : Phase → Phase
after_stop closed = closed
after_stop _ = idle

abbrev pub after_dequeue : DequeueResult → Phase
after_dequeue (frame f) = holding f.buffer_index
after_dequeue _ = flowing

module _ {W : Type 0} where
  abbrev check : Bool → Phase → W → Monitored W → Monitored W
  check allowed p w s = record { inner = w; phase = p; obeyed = s.obeyed && allowed }

  abbrev pub monitor : Device W → Device (Monitored W)
  monitor dev = record {
    open_device = λ s.
        let (r, w) = dev.open_device s.inner in (r, check (may_open s.phase) (after_open r) w s);
    close = λ s. check true closed (dev.close s.inner) s;
    query_format = λ s.
        let (r, w) = dev.query_format s.inner in (r, check (may_query s.phase) (after_query r) w s);
    start_streaming = λ n s.
        let (r, w) = dev.start_streaming n s.inner in
        (r, check (may_start s.phase) (after_start r) w s);
    stop_streaming = λ s. check true (after_stop s.phase) (dev.stop_streaming s.inner) s;
    dequeue_frame = λ t s.
        let (r, w) = dev.dequeue_frame t s.inner in
        (r, check (may_dequeue s.phase) (after_dequeue r) w s);
    requeue_frame = λ i s. check (may_requeue i s.phase) flowing (dev.requeue_frame i s.inner) s;
  }

  abbrev pub monitor_clock : Clock W → Clock (Monitored W)
  monitor_clock clock = record {
    steady_now = λ s. let (t, w) = clock.steady_now s.inner in (t, record s { inner = w });
    wall_now = λ s. let (t, w) = clock.wall_now s.inner in (t, record s { inner = w });
  }
