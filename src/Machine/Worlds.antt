-- ===== src/Machine/Worlds.antt =====
-- What a run of src/capture_state_machine.cpp does to the world outside, which it reaches only through
-- its device and its clocks.
use hamstercam.Base.{ℕ, ◌≡◌, List, [], ◌∷◌, if_cases, sym, subst, arith}
use hamstercam.Double.{Double}
use hamstercam.Device.{
  StreamFormat, Device, Clock, FrameDescriptor, OpenResult, opened, absent, FormatResult, known,
  no_producer, StreamStartResult, started, buffer_error, DequeueResult, frame, timeout, device_lost,
}
use hamstercam.Stats.{
  CaptureState, device_absent, awaiting_producer, configuring, streaming, stalled, ErrorReason,
}
use hamstercam.Machine.State.{
  DaemonConfig, Machine, enter, emit, record_error, reset_backoffs, retry_open, retry_format,
  check_arrival_rate,
}
use hamstercam.Machine.Actions.{
  configured, enter_configuring, begin_release_cycle, lose_device, handle_frame,
}
use hamstercam.Machine.Frames.{check_arrival_rate-world}
use hamstercam.Machine.{
  make, device_opened, report_streaming, producer_queried, report_recovery, probe_queried,
  probe_opened, frame_arrived, dequeued, step_in, step, run,
}

-- No call of the device or of a clock breaks `P`.
pub record Keeps {W : Type 0} (dev : Device W) (clock : Clock W) (P : W → Type 0) : Type 0 where
  pub open_keeps : (w : W) → P w → P (dev.open_device w).1
  pub close_keeps : (w : W) → P w → P (dev.close w)
  pub query_keeps : (w : W) → P w → P (dev.query_format w).1
  pub start_keeps : (n : ℕ) (w : W) → P w → P (dev.start_streaming n w).1
  pub stop_keeps : (w : W) → P w → P (dev.stop_streaming w)
  pub dequeue_keeps : (t : ℕ) (w : W) → P w → P (dev.dequeue_frame t w).1
  pub requeue_keeps : (i : ℕ) (w : W) → P w → P (dev.requeue_frame i w)
  pub steady_keeps : (w : W) → P w → P (clock.steady_now w).1
  pub wall_keeps : (w : W) → P w → P (clock.wall_now w).1

module _ {W F : Type 0} (dev : Device W) (clock : Clock W) (fp : Double F) (P : W → Type 0)
    (k : Keeps dev clock P) where
  open k use {
    open_keeps, close_keeps, query_keeps, start_keeps, stop_keeps, dequeue_keeps, requeue_keeps,
    steady_keeps, wall_keeps,
  }

  abbrev Good : Machine W F → Type 0
  Good m = P m.world

  begin_release_cycle-Good :
      (r : ErrorReason) (m : Machine W F) → Good m → Good (begin_release_cycle dev clock r m)
  unfolding begin_release_cycle emit enter record_error
  begin_release_cycle-Good r m h = steady_keeps _ (close_keeps _ (stop_keeps _ h))

  lose_device-Good : (m : Machine W F) → Good m → Good (lose_device dev clock m)
  unfolding lose_device emit enter record_error reset_backoffs
  lose_device-Good m h = steady_keeps _ (close_keeps _ (stop_keeps _ h))

  configured-Good :
      (r : StreamStartResult) (m : Machine W F) → Good m → Good (configured dev clock r m).0
  unfolding configured emit enter record_error reset_backoffs retry_format
  configured-Good buffer_error m h = steady_keeps _ h
  configured-Good started m h = steady_keeps _ h

  enter_configuring-Good : (m : Machine W F) → Good m → Good (enter_configuring dev clock m).0
  unfolding enter_configuring enter
  enter_configuring-Good m h = configured-Good _ _ (start_keeps _ _ h)

  handle_frame-Good :
      (f : FrameDescriptor) (m : Machine W F) → Good m → Good (handle_frame dev clock fp f m)
  unfolding handle_frame
  handle_frame-Good f m h = wall_keeps _ (requeue_keeps _ _ h)

  device_opened-Good :
      (now : ℕ) (r : OpenResult) (m : Machine W F)
      → Good m
      → Good (device_opened dev clock fp now r m).0
  unfolding device_opened emit enter record_error reset_backoffs retry_open
  device_opened-Good now opened m h = h
  device_opened-Good now absent m h = h

  report_streaming-world : (m : Machine W F) → (report_streaming dev clock fp m).world ≡ m.world
  unfolding report_streaming emit
  report_streaming-world m = ground arith

  producer_queried-Good :
      (now : ℕ) (r : FormatResult) (m : Machine W F)
      → Good m
      → Good (producer_queried dev clock fp now r m).0
  unfolding producer_queried retry_format record_error
  producer_queried-Good now (known f) m h =
      let m' = (enter_configuring dev clock (record m { current_format = f })).0 in
      let e = enter_configuring-Good (record m { current_format = f }) h in
      if_cases Good _ _ _ (λ _. subst P (sym (report_streaming-world m')) e) (λ _. e)
  producer_queried-Good now no_producer m h = h
  producer_queried-Good now FormatResult.error m h = h

  report_recovery-world :
      (f p : StreamFormat) (m : Machine W F) → (report_recovery dev clock fp f p m).world ≡ m.world
  unfolding report_recovery emit
  report_recovery-world f p m = ground arith

  probe_queried-Good :
      (now : ℕ) (r : FormatResult) (m : Machine W F)
      → Good m
      → Good (probe_queried dev clock fp now r m).0
  unfolding probe_queried retry_format record_error
  probe_queried-Good now (known f) m h =
      let m' = (enter_configuring dev clock (record m { current_format = f })).0 in
      let e = enter_configuring-Good (record m { current_format = f }) h in
      if_cases Good _ _ _ (λ _. subst P (sym (report_recovery-world f m.current_format m')) e)
        (λ _. close_keeps _ e)
  probe_queried-Good now no_producer m h = close_keeps _ h
  probe_queried-Good now FormatResult.error m h = close_keeps _ h

  probe_opened-Good :
      (now : ℕ) (r : OpenResult) (m : Machine W F)
      → Good m
      → Good (probe_opened dev clock fp now r m).0
  unfolding probe_opened
  probe_opened-Good now absent m h = lose_device-Good m h
  probe_opened-Good now opened m h = probe_queried-Good now _ _ (query_keeps _ h)

  frame_arrived-Good :
      (f : FrameDescriptor) (m : Machine W F) → Good m → Good (frame_arrived dev clock fp f m)
  unfolding frame_arrived
  frame_arrived-Good f m h =
      let m1 = handle_frame dev clock fp f m in
      let m2 = check_arrival_rate fp f.captured_at m1 in
      let e : Good m2 =
        subst P (sym (check_arrival_rate-world fp f.captured_at m1).0) (handle_frame-Good f m h) in
      if_cases Good _ _ _ (λ _. begin_release_cycle-Good ErrorReason.geometry m2 e) (λ _. e)

  dequeued-Good : (r : DequeueResult) (m : Machine W F) → Good m → Good (dequeued dev clock fp r m)
  unfolding dequeued record_error
  dequeued-Good (frame f) m h = frame_arrived-Good f m h
  dequeued-Good timeout m h =
      let m' = record m { world = (clock.steady_now m.world).1 } in
      let e = steady_keeps m.world h in
      ground (arith, e, begin_release_cycle-Good ErrorReason.timeout m' e)
  dequeued-Good DequeueResult.error m h = h
  dequeued-Good device_lost m h = lose_device-Good m h

  pub step_in-Good :
      (s : CaptureState) (t : ℕ) (m : Machine W F) → Good m → Good (step_in dev clock fp s t m).0
  unfolding step_in
  step_in-Good device_absent t m h =
      let (now, w) = clock.steady_now m.world in
      let (r, w') = dev.open_device w in
      let e = steady_keeps m.world h in
      ground (arith, e, device_opened-Good now r (record m { world = w' }) (open_keeps w e))
  step_in-Good awaiting_producer t m h =
      let (now, w) = clock.steady_now m.world in
      let (r, w') = dev.query_format w in
      let (o, v) = dev.open_device w in
      let e = steady_keeps m.world h in
      ground (
        arith,
        e,
        producer_queried-Good now r (record m { world = w' }) (query_keeps w e),
        probe_opened-Good now o (record m { world = v }) (open_keeps w e),
      )
  step_in-Good configuring t m h = h
  step_in-Good stalled t m h = h
  step_in-Good streaming t m h = dequeued-Good _ _ (dequeue_keeps _ _ h)

  -- A property of the world that every call of the device and of the clocks keeps holds after every
  -- run from a machine whose world has it.
  pub run-Good : (ts : List ℕ) (m : Machine W F) → Good m → Good (run dev clock fp ts m)
  unfolding run step
  run-Good [] m h = h
  run-Good (t ∷ ts) m h = run-Good ts (step dev clock fp t m).0 (step_in-Good m.state t m h)

  pub make-Good : (c : DaemonConfig) (w : W) → P w → Good (make dev clock fp c w)
  unfolding make enter
  make-Good c w h = steady_keeps w h
