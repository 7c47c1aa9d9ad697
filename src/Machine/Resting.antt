-- ===== src/Machine/Resting.antt =====
-- The state of src/capture_state_machine.cpp between two steps.
use hamstercam.Base.{ℕ, ◌≡◌, refl, ◌≢◌, true, false, List, [], ◌∷◌, arith}
use hamstercam.Double.{Double}
use hamstercam.Device.{
  Device, Clock, FrameDescriptor, OpenResult, opened, absent, FormatResult, known, no_producer,
  DequeueResult, frame, timeout, device_lost,
}
use hamstercam.Stats.{
  CaptureState, state_code, device_absent, awaiting_producer, configuring, streaming, stalled,
  ErrorReason,
}
use hamstercam.Stats
use hamstercam.Machine.State.{
  DaemonConfig, Machine, enter, emit, record_error, reset_backoffs, retry_open, retry_format,
  check_arrival_rate,
}
use hamstercam.Machine.Actions.{enter_configuring, begin_release_cycle, lose_device, handle_frame}
use hamstercam.Machine.Frames.{handle_frame-SameCourse, check_arrival_rate-SameCourse}
use hamstercam.Machine.{
  make, device_opened, producer_queried, probe_queried, probe_opened, frame_arrived, dequeued,
  step_in, step, run,
}

pub record IsResting {W F : Type 0} (m : Machine W F) : Type 0 where
  pub not_configuring : m.state ≢ configuring
  pub not_stalled : m.state ≢ stalled
  pub gauge : m.stats.capture_state ≡ state_code m.state
  pub recovering_awaits : m.recovering ≡ true → m.state ≡ awaiting_producer
  pub recovering_streamed : m.recovering ≡ true → m.has_streamed_before ≡ true
  pub frame_streams : m.have_last_frame ≡ true → m.state ≡ streaming
  pub streamed : m.state ≡ streaming → m.has_streamed_before ≡ true

module _ {W F : Type 0} (dev : Device W) (clock : Clock W) (fp : Double F) where
  pub make-IsResting : (c : DaemonConfig) (w : W) → IsResting (make dev clock fp c w)
  unfolding make enter
  make-IsResting c w = ground arith

  begin_release_cycle-IsResting :
      (r : ErrorReason) (m : Machine W F)
      → m.has_streamed_before ≡ true
      → IsResting (begin_release_cycle dev clock r m)
  unfolding begin_release_cycle emit enter record_error Stats.record_error
  begin_release_cycle-IsResting r m h = ground arith

  lose_device-IsResting : (m : Machine W F) → IsResting (lose_device dev clock m)
  unfolding lose_device emit enter record_error Stats.record_error reset_backoffs
  lose_device-IsResting m = ground arith

  device_opened-IsResting :
      (now : ℕ) (r : OpenResult) (m : Machine W F)
      → m.state ≡ device_absent
      → IsResting m
      → IsResting (device_opened dev clock fp now r m).0
  unfolding device_opened emit enter record_error Stats.record_error reset_backoffs retry_open
  device_opened-IsResting now opened m e h = ground arith
  device_opened-IsResting now absent m e h = ground arith

  producer_queried-IsResting :
      (now : ℕ) (r : FormatResult) (m : Machine W F)
      → m.state ≡ awaiting_producer
      → m.recovering ≡ false
      → IsResting m
      → IsResting (producer_queried dev clock fp now r m).0
  unfolding producer_queried enter_configuring retry_format emit enter record_error
      Stats.record_error reset_backoffs Stats.set_stream_info
  producer_queried-IsResting now (known f) m e e' h = ground arith
  producer_queried-IsResting now no_producer m e e' h = ground arith
  producer_queried-IsResting now FormatResult.error m e e' h = ground arith

  probe_queried-IsResting :
      (now : ℕ) (r : FormatResult) (m : Machine W F)
      → m.recovering ≡ true
      → IsResting m
      → IsResting (probe_queried dev clock fp now r m).0
  unfolding probe_queried enter_configuring retry_format emit enter record_error Stats.record_error
      reset_backoffs Stats.set_stream_info
  probe_queried-IsResting now (known f) m e h = ground arith
  probe_queried-IsResting now no_producer m e h = ground arith
  probe_queried-IsResting now FormatResult.error m e h = ground arith

  probe_opened-IsResting :
      (now : ℕ) (r : OpenResult) (m : Machine W F)
      → m.recovering ≡ true
      → IsResting m
      → IsResting (probe_opened dev clock fp now r m).0
  unfolding probe_opened
  probe_opened-IsResting now absent m e h = lose_device-IsResting m
  probe_opened-IsResting now opened m e h = ground (
    arith,
    probe_queried-IsResting now (dev.query_format m.world).0
        (record m { world = (dev.query_format m.world).1 }),
  )

  frame_arrived-IsResting :
      (f : FrameDescriptor) (m : Machine W F)
      → m.state ≡ streaming
      → IsResting m
      → IsResting (frame_arrived dev clock fp f m)
  unfolding frame_arrived
  frame_arrived-IsResting f m e h =
      let m1 = handle_frame dev clock fp f m in
      let m2 = check_arrival_rate fp f.captured_at m1 in
      ground (
        arith,
        handle_frame-SameCourse dev clock fp f m,
        check_arrival_rate-SameCourse fp f.captured_at m1,
        begin_release_cycle-IsResting ErrorReason.geometry m2,
      )

  dequeued-IsResting :
      (r : DequeueResult) (m : Machine W F)
      → m.state ≡ streaming
      → IsResting m
      → IsResting (dequeued dev clock fp r m)
  unfolding dequeued record_error Stats.record_error
  dequeued-IsResting (frame f) m e h = frame_arrived-IsResting f m e h
  dequeued-IsResting timeout m e h = ground (
    arith,
    begin_release_cycle-IsResting ErrorReason.timeout
        (record m { world = (clock.steady_now m.world).1 }),
  )
  dequeued-IsResting DequeueResult.error m e h = ground arith
  dequeued-IsResting device_lost m e h = lose_device-IsResting m

  step_in-IsResting :
      (s : CaptureState) (t : ℕ) (m : Machine W F)
      → m.state ≡ s
      → IsResting m
      → IsResting (step_in dev clock fp s t m).0
  unfolding step_in
  step_in-IsResting device_absent t m e h =
      let (now, w) = clock.steady_now m.world in
      let (r, w') = dev.open_device w in
      ground (arith, device_opened-IsResting now r (record m { world = w' }))
  step_in-IsResting awaiting_producer t m e h =
      let (now, w) = clock.steady_now m.world in
      let (r, w') = dev.query_format w in
      let (o, v) = dev.open_device w in
      ground (
        arith,
        producer_queried-IsResting now r (record m { world = w' }),
        probe_opened-IsResting now o (record m { world = v }),
      )
  step_in-IsResting configuring t m e h = h
  step_in-IsResting stalled t m e h = h
  step_in-IsResting streaming t m e h =
      let (r, w) = dev.dequeue_frame t m.world in
      ground (arith, dequeued-IsResting r (record m { world = w }))

  pub step-IsResting : (t : ℕ) (m : Machine W F) → IsResting m → IsResting (step dev clock fp t m).0
  unfolding step
  step-IsResting t m h = step_in-IsResting m.state t m refl h

  pub run-IsResting :
      (ts : List ℕ) (m : Machine W F) → IsResting m → IsResting (run dev clock fp ts m)
  unfolding run
  run-IsResting [] m h = h
  run-IsResting (t ∷ ts) m h = run-IsResting ts (step dev clock fp t m).0 (step-IsResting t m h)

  -- Whatever the device, the clocks and the poll timeouts do, between two steps the machine started
  -- by its constructor is never in the transient states `configuring` and `stalled`, the exported
  -- gauge is the code of its state, it recovers only in `awaiting_producer`, only after it has
  -- streamed, and it remembers a last frame only while it streams.
  pub run-make-IsResting :
      (c : DaemonConfig) (w : W) (ts : List ℕ)
      → IsResting (run dev clock fp ts (make dev clock fp c w))
  run-make-IsResting c w ts = run-IsResting ts (make dev clock fp c w) (make-IsResting c w)
