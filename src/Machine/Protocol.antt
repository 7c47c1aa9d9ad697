-- ===== src/Machine/Protocol.antt =====
-- The calls that src/capture_state_machine.cpp makes of its device: it is run over a device that
-- watches their order.
use hamstercam.Base.{ℕ, ◌≡◌, refl, Bool, true, false, List, [], ◌∷◌, arith}
use hamstercam.Double.{Double}
use hamstercam.Device.{
  Device, Clock, FrameDescriptor, OpenResult, opened, absent, FormatResult, known, no_producer,
  DequeueResult, frame, timeout, device_lost,
}
use hamstercam.Device.Protocol.{
  Phase, closed, idle, negotiated, flowing, holding, Monitored, monitor, monitor_clock,
}
use hamstercam.Stats.{
  CaptureState, device_absent, awaiting_producer, configuring, streaming, stalled, ErrorReason,
}
use hamstercam.Machine.State.{
  DaemonConfig, Machine, enter, emit, record_error, reset_backoffs, retry_open, retry_format,
  check_arrival_rate,
}
use hamstercam.Machine.Actions.{enter_configuring, begin_release_cycle, lose_device, handle_frame}
use hamstercam.Machine.Frames.{
  handle_frame-SameCourse, check_arrival_rate-SameCourse, check_arrival_rate-world,
}
use hamstercam.Machine.{
  make, device_opened, producer_queried, probe_queried, probe_opened, frame_arrived, dequeued,
  step_in, step, run,
}

-- Where the device stands between two steps. In `awaiting_producer` it is held open, but for the
-- poll behind a release cycle, which holds nothing.
abbrev pub resting_phase : CaptureState → Bool → Phase
resting_phase device_absent recovering = closed
resting_phase awaiting_producer true = closed
resting_phase awaiting_producer false = idle
resting_phase configuring recovering = idle
resting_phase streaming recovering = flowing
resting_phase stalled recovering = closed

-- Every call so far was allowed, and the device is as the state says.
pub record Conforms {W F : Type 0} (m : Machine (Monitored W) F) : Type 0 where
  pub obeyed : m.world.obeyed ≡ true
  pub phase : m.world.phase ≡ resting_phase m.state m.recovering
  pub recovering : m.recovering ≡ true → m.state ≡ awaiting_producer

module _ {W F : Type 0} (raw : Device W) (raw_clock : Clock W) (fp : Double F) where
  abbrev dev : Device (Monitored W)
  dev = monitor raw

  abbrev clock : Clock (Monitored W)
  clock = monitor_clock raw_clock

  pub make-Conforms :
      (c : DaemonConfig) (w : W)
      → Conforms (make dev clock fp c (record { inner = w; phase = closed; obeyed = true }))
  unfolding make enter
  make-Conforms c w = ground arith

  begin_release_cycle-Conforms :
      (r : ErrorReason) (m : Machine (Monitored W) F)
      → m.world.obeyed ≡ true
      → Conforms (begin_release_cycle dev clock r m)
  unfolding begin_release_cycle emit enter record_error
  begin_release_cycle-Conforms r m h = ground arith

  lose_device-Conforms :
      (m : Machine (Monitored W) F) → m.world.obeyed ≡ true → Conforms (lose_device dev clock m)
  unfolding lose_device emit enter record_error reset_backoffs
  lose_device-Conforms m h = ground arith

  abbrev opened_phase : OpenResult → Phase
  opened_phase opened = idle
  opened_phase absent = closed

  device_opened-Conforms :
      (now : ℕ) (r : OpenResult) (m : Machine (Monitored W) F)
      → m.state ≡ device_absent
      → m.world.obeyed ≡ true
      → m.recovering ≡ false
      → m.world.phase ≡ opened_phase r
      → Conforms (device_opened dev clock fp now r m).0
  unfolding device_opened emit enter record_error reset_backoffs retry_open
  device_opened-Conforms now opened m e o r p = ground arith
  device_opened-Conforms now absent m e o r p = ground arith

  abbrev queried_phase : FormatResult → Phase
  queried_phase (known f) = negotiated
  queried_phase _ = idle

  producer_queried-Conforms :
      (now : ℕ) (r : FormatResult) (m : Machine (Monitored W) F)
      → m.state ≡ awaiting_producer
      → m.world.obeyed ≡ true
      → m.recovering ≡ false
      → m.world.phase ≡ queried_phase r
      → Conforms (producer_queried dev clock fp now r m).0
  unfolding producer_queried enter_configuring retry_format emit enter record_error reset_backoffs
  producer_queried-Conforms now (known f) m e o r p = ground arith
  producer_queried-Conforms now no_producer m e o r p = ground arith
  producer_queried-Conforms now FormatResult.error m e o r p = ground arith

  probe_queried-Conforms :
      (now : ℕ) (r : FormatResult) (m : Machine (Monitored W) F)
      → m.state ≡ awaiting_producer
      → m.recovering ≡ true
      → m.world.obeyed ≡ true
      → m.world.phase ≡ queried_phase r
      → Conforms (probe_queried dev clock fp now r m).0
  unfolding probe_queried enter_configuring retry_format emit enter record_error reset_backoffs
  probe_queried-Conforms now (known f) m e r o p = ground arith
  probe_queried-Conforms now no_producer m e r o p = ground arith
  probe_queried-Conforms now FormatResult.error m e r o p = ground arith

  probe_opened-Conforms :
      (now : ℕ) (r : OpenResult) (m : Machine (Monitored W) F)
      → m.state ≡ awaiting_producer
      → m.recovering ≡ true
      → m.world.obeyed ≡ true
      → m.world.phase ≡ opened_phase r
      → Conforms (probe_opened dev clock fp now r m).0
  unfolding probe_opened
  probe_opened-Conforms now absent m e r o p = lose_device-Conforms m o
  probe_opened-Conforms now opened m e r o p = ground (
    arith,
    probe_queried-Conforms now (dev.query_format m.world).0
        (record m { world = (dev.query_format m.world).1 }),
  )

  handle_frame-Conforms :
      (f : FrameDescriptor) (m : Machine (Monitored W) F)
      → m.world.obeyed ≡ true
      → m.world.phase ≡ holding f.buffer_index
      → ((handle_frame dev clock fp f m).world.obeyed ≡ true)
        × ((handle_frame dev clock fp f m).world.phase ≡ flowing)
  unfolding handle_frame
  handle_frame-Conforms f m o p = ground arith

  frame_arrived-Conforms :
      (f : FrameDescriptor) (m : Machine (Monitored W) F)
      → m.state ≡ streaming
      → m.recovering ≡ false
      → m.world.obeyed ≡ true
      → m.world.phase ≡ holding f.buffer_index
      → Conforms (frame_arrived dev clock fp f m)
  unfolding frame_arrived
  frame_arrived-Conforms f m e r o p =
      let m1 = handle_frame dev clock fp f m in
      let m2 = check_arrival_rate fp f.captured_at m1 in
      ground (
        arith,
        handle_frame-SameCourse dev clock fp f m,
        handle_frame-Conforms f m,
        check_arrival_rate-SameCourse fp f.captured_at m1,
        check_arrival_rate-world fp f.captured_at m1,
        begin_release_cycle-Conforms ErrorReason.geometry m2,
      )

  abbrev dequeued_phase : DequeueResult → Phase
  dequeued_phase (frame f) = holding f.buffer_index
  dequeued_phase _ = flowing

  dequeued-Conforms :
      (r : DequeueResult) (m : Machine (Monitored W) F)
      → m.state ≡ streaming
      → m.recovering ≡ false
      → m.world.obeyed ≡ true
      → m.world.phase ≡ dequeued_phase r
      → Conforms (dequeued dev clock fp r m)
  unfolding dequeued record_error
  dequeued-Conforms (frame f) m e r o p = frame_arrived-Conforms f m e r o p
  dequeued-Conforms timeout m e r o p = ground (
    arith,
    begin_release_cycle-Conforms ErrorReason.timeout
        (record m { world = (clock.steady_now m.world).1 }),
  )
  dequeued-Conforms DequeueResult.error m e r o p = ground arith
  dequeued-Conforms device_lost m e r o p = lose_device-Conforms m o

  pub step_in-Conforms :
      (s : CaptureState) (t : ℕ) (m : Machine (Monitored W) F)
      → m.state ≡ s
      → Conforms m
      → Conforms (step_in dev clock fp s t m).0
  unfolding step_in
  step_in-Conforms device_absent t m e h =
      let (now, w) = clock.steady_now m.world in
      let (r, w') = dev.open_device w in
      ground (arith, device_opened-Conforms now r (record m { world = w' }))
  step_in-Conforms awaiting_producer t m e h =
      let (now, w) = clock.steady_now m.world in
      let (r, w') = dev.query_format w in
      let (o, v) = dev.open_device w in
      ground (
        arith,
        producer_queried-Conforms now r (record m { world = w' }),
        probe_opened-Conforms now o (record m { world = v }),
      )
  step_in-Conforms configuring t m e h = h
  step_in-Conforms stalled t m e h = h
  step_in-Conforms streaming t m e h =
      let (r, w) = dev.dequeue_frame t m.world in
      ground (arith, dequeued-Conforms r (record m { world = w }))

  run-Conforms :
      (ts : List ℕ) (m : Machine (Monitored W) F) → Conforms m → Conforms (run dev clock fp ts m)
  unfolding run step
  run-Conforms [] m h = h
  run-Conforms (t ∷ ts) m h =
      run-Conforms ts (step dev clock fp t m).0 (step_in-Conforms m.state t m refl h)

  -- Whatever the device and the clocks answer, a machine started over a closed device never breaks
  -- the contract of the device: it opens only a closed device, queries a format only on an open one
  -- that is not streaming, starts streaming only after a format was reported, dequeues only while
  -- streaming, and returns every frame's buffer, once, before anything but stopping or closing.
  -- Between two steps the device is closed in `device_absent` and while recovering, open and
  -- without buffers in the ordinary `awaiting_producer`, and streaming in `streaming`.
  pub run-make-Conforms :
      (c : DaemonConfig) (w : W) (ts : List ℕ)
      → Conforms (
          run dev clock fp ts
            (make dev clock fp c (record { inner = w; phase = closed; obeyed = true })))
  run-make-Conforms c w ts = run-Conforms ts _ (make-Conforms c w)
