-- ===== src/Machine/Mirror/Steps.antt =====
-- Each step of src/capture_state_machine.cpp, and a run, over two devices that answer alike.
use hamstercam.Base.{
  ℕ, ◌≡◌, refl, ap, Bool, true, false, List, [], ◌∷◌, ltb, ◌+◌, ◌*◌, add_u32, ns_per_s, arith,
}
use hamstercam.Double.{Double}
use hamstercam.Device.{
  StreamFormat, Device, Clock, FrameDescriptor, OpenResult, opened, absent, FormatResult, known,
  no_producer, DequeueResult, frame, timeout, device_lost,
}
use hamstercam.Stats.{
  CaptureState, device_absent, awaiting_producer, configuring, streaming, stalled, ErrorReason,
}
use hamstercam.Machine.State.{
  DaemonConfig, Machine, enter, emit, record_error, reset_backoffs, retry_open, retry_format,
  check_arrival_rate, flag_anomaly, rate_is_anomalous,
}
use hamstercam.Machine.Actions.{enter_configuring, begin_release_cycle, handle_frame}
use hamstercam.Machine.{
  make, device_opened, report_streaming, producer_queried, report_recovery, probe_queried,
  probe_opened, frame_arrived, poll_timed_out, dequeued, step_device_absent, step_awaiting_producer,
  step_recovering, step_streaming, step_in, step, run,
}
use hamstercam.Machine.Mirror.{
  Mirrors, view, both, view-if, both-if, enter_configuring-view, begin_release_cycle-view,
  lose_device-view, handle_frame-view,
}

module _ {V W F : Type 0} (see : V → W) (seen : Device V) (dev : Device W) (seen_clock : Clock V)
    (clock : Clock W) (fp : Double F) (k : Mirrors see seen dev seen_clock clock) where
  open k use {opening, closing, querying, starting, stopping, dequeuing, requeuing, steady, wall}

  device_opened-view :
      (now : ℕ) (r : OpenResult) (m : Machine V F)
      → device_opened dev clock fp now r (view see m)
        ≡ both see (device_opened seen seen_clock fp now r m)
  unfolding device_opened emit enter record_error reset_backoffs retry_open
  device_opened-view now opened m = refl
  device_opened-view now absent m = refl

  report_streaming-view :
      (m : Machine V F)
      → report_streaming dev clock fp (view see m)
        ≡ view see (report_streaming seen seen_clock fp m)
  unfolding report_streaming emit
  report_streaming-view m = view-if see m.has_streamed_before _ _

  producer_queried-view :
      (now : ℕ) (r : FormatResult) (m : Machine V F)
      → producer_queried dev clock fp now r (view see m)
        ≡ both see (producer_queried seen seen_clock fp now r m)
  unfolding producer_queried retry_format record_error
  producer_queried-view now no_producer m = refl
  producer_queried-view now FormatResult.error m = refl
  producer_queried-view now (known f) m =
      let m' = (enter_configuring seen seen_clock (record m { current_format = f })).0 in
      rw
        (
          enter_configuring-view see seen dev seen_clock clock fp k
              (record m { current_format = f }),
          report_streaming-view m',
          view-if see _ (report_streaming seen seen_clock fp m') m',
        )
        refl

  report_recovery-view :
      (f p : StreamFormat) (m : Machine V F)
      → report_recovery dev clock fp f p (view see m)
        ≡ view see (report_recovery seen seen_clock fp f p m)
  unfolding report_recovery emit
  report_recovery-view f p m = ground arith

  probe_queried-view :
      (now : ℕ) (r : FormatResult) (m : Machine V F)
      → probe_queried dev clock fp now r (view see m)
        ≡ both see (probe_queried seen seen_clock fp now r m)
  unfolding probe_queried retry_format record_error
  probe_queried-view now no_producer m = rw (closing m.world) refl
  probe_queried-view now FormatResult.error m = rw (closing m.world) refl
  probe_queried-view now (known f) m =
      let m' = (enter_configuring seen seen_clock (record m { current_format = f })).0 in
      rw
        (
          enter_configuring-view see seen dev seen_clock clock fp k
              (record m { current_format = f }),
          closing m'.world,
          report_recovery-view f m.current_format m',
          view-if see _ (report_recovery seen seen_clock fp f m.current_format m')
              (record m' { world = seen.close m'.world }),
        )
        refl

  probe_opened-view :
      (now : ℕ) (r : OpenResult) (m : Machine V F)
      → probe_opened dev clock fp now r (view see m)
        ≡ both see (probe_opened seen seen_clock fp now r m)
  unfolding probe_opened
  probe_opened-view now absent m = rw (lose_device-view see seen dev seen_clock clock fp k m) refl
  probe_opened-view now opened m =
      let (r, w) = seen.query_format m.world in
      rw (querying m.world) (probe_queried-view now r (record m { world = w }))

  flag_anomaly-view :
      (b : Bool) (m : Machine V F) → flag_anomaly fp b (view see m) ≡ view see (flag_anomaly fp b m)
  unfolding flag_anomaly record_error
  flag_anomaly-view true m = view-if see m.rate_anomaly_active m _
  flag_anomaly-view false m = refl

  check_arrival_rate-view :
      (now : ℕ) (m : Machine V F)
      → check_arrival_rate fp now (view see m) ≡ view see (check_arrival_rate fp now m)
  unfolding check_arrival_rate rate_is_anomalous
  check_arrival_rate-view now m =
      let frames = add_u32 m.rate_window_frame_count 1 in
      let flagged = flag_anomaly fp (rate_is_anomalous fp m frames now) m in
      rw (flag_anomaly-view (rate_is_anomalous fp m frames now) m) (
        view-if see (ltb now (m.rate_window_start + 2 * ns_per_s))
          (record m { rate_window_frame_count = frames })
          (record flagged { rate_window_start = now; rate_window_frame_count = 0 }))

  frame_arrived-view :
      (f : FrameDescriptor) (m : Machine V F)
      → frame_arrived dev clock fp f (view see m) ≡ view see (frame_arrived seen seen_clock fp f m)
  unfolding frame_arrived
  frame_arrived-view f m =
      let m1 = handle_frame seen seen_clock fp f m in
      let m2 = check_arrival_rate fp f.captured_at m1 in
      rw
        (
          handle_frame-view see seen dev seen_clock clock fp k f m,
          check_arrival_rate-view f.captured_at m1,
          begin_release_cycle-view see seen dev seen_clock clock fp k ErrorReason.geometry m2,
          view-if see _ (begin_release_cycle seen seen_clock ErrorReason.geometry m2) m2,
        )
        refl

  poll_timed_out-view :
      (m : Machine V F)
      → poll_timed_out dev clock fp (view see m) ≡ view see (poll_timed_out seen seen_clock fp m)
  unfolding poll_timed_out
  poll_timed_out-view m =
      let m' = record m { world = (seen_clock.steady_now m.world).1 } in
      rw
        (
          steady m.world,
          begin_release_cycle-view see seen dev seen_clock clock fp k ErrorReason.timeout m',
        )
        (view-if see _ (begin_release_cycle seen seen_clock ErrorReason.timeout m') m')

  dequeued-view :
      (r : DequeueResult) (m : Machine V F)
      → dequeued dev clock fp r (view see m) ≡ view see (dequeued seen seen_clock fp r m)
  unfolding dequeued record_error
  dequeued-view (frame f) m = frame_arrived-view f m
  dequeued-view timeout m = poll_timed_out-view m
  dequeued-view DequeueResult.error m = refl
  dequeued-view device_lost m = lose_device-view see seen dev seen_clock clock fp k m

  step_device_absent-view :
      (m : Machine V F)
      → step_device_absent dev clock fp (view see m)
        ≡ both see (step_device_absent seen seen_clock fp m)
  unfolding step_device_absent
  step_device_absent-view m =
      let (now, w) = seen_clock.steady_now m.world in
      let (r, w') = seen.open_device w in
      let e = device_opened-view now r (record m { world = w' }) in
      rw (steady m.world, opening w, e)
        (both-if see _ _ (device_opened seen seen_clock fp now r (record m { world = w' })))

  step_awaiting_producer-view :
      (m : Machine V F)
      → step_awaiting_producer dev clock fp (view see m)
        ≡ both see (step_awaiting_producer seen seen_clock fp m)
  unfolding step_awaiting_producer
  step_awaiting_producer-view m =
      let (now, w) = seen_clock.steady_now m.world in
      let (r, w') = seen.query_format w in
      let e = producer_queried-view now r (record m { world = w' }) in
      rw (steady m.world, querying w, e)
        (both-if see _ _ (producer_queried seen seen_clock fp now r (record m { world = w' })))

  step_recovering-view :
      (m : Machine V F)
      → step_recovering dev clock fp (view see m) ≡ both see (step_recovering seen seen_clock fp m)
  unfolding step_recovering
  step_recovering-view m =
      let (now, w) = seen_clock.steady_now m.world in
      let (r, w') = seen.open_device w in
      let e = probe_opened-view now r (record m { world = w' }) in
      rw (steady m.world, opening w, e)
        (both-if see _ _ (probe_opened seen seen_clock fp now r (record m { world = w' })))

  step_in-view :
      (s : CaptureState) (t : ℕ) (m : Machine V F)
      → step_in dev clock fp s t (view see m) ≡ both see (step_in seen seen_clock fp s t m)
  unfolding step_in step_streaming
  step_in-view device_absent t m = step_device_absent-view m
  step_in-view awaiting_producer t m =
      rw (step_awaiting_producer-view m, step_recovering-view m)
        (both-if see m.recovering (step_recovering seen seen_clock fp m)
          (step_awaiting_producer seen seen_clock fp m))
  step_in-view configuring t m = refl
  step_in-view stalled t m = refl
  step_in-view streaming t m =
      let (r, w) = seen.dequeue_frame t m.world in
      rw (dequeuing t m.world) (ap (λ n. (n, 0)) (dequeued-view r (record m { world = w })))

  pub step-view :
      (t : ℕ) (m : Machine V F)
      → step dev clock fp t (view see m) ≡ both see (step seen seen_clock fp t m)
  unfolding step
  step-view t m = step_in-view m.state t m

  run-view :
      (ts : List ℕ) (m : Machine V F)
      → run dev clock fp ts (view see m) ≡ view see (run seen seen_clock fp ts m)
  unfolding run
  run-view [] m = refl
  run-view (t ∷ ts) m = rw (step-view t m) (run-view ts (step seen seen_clock fp t m).0)

  pub make-view :
      (c : DaemonConfig) (s : V)
      → make dev clock fp c (see s) ≡ view see (make seen seen_clock fp c s)
  unfolding make enter hamstercam.Machine.stall_threshold_of
  make-view c s = rw (steady s) refl

  -- A run over a device and clocks that another one mirrors is what the run over that one shows.
  pub run-make-view :
      (c : DaemonConfig) (s : V) (ts : List ℕ)
      → run dev clock fp ts (make dev clock fp c (see s))
        ≡ view see (run seen seen_clock fp ts (make seen seen_clock fp c s))
  run-make-view c s ts = rw (make-view c s) (run-view ts (make seen seen_clock fp c s))
