-- ===== src/Machine/Waits.antt =====
-- The waits that src/capture_state_machine.cpp recommends, against its backoffs.
use hamstercam.Base.{ℕ, ◌+◌, ◌*◌, ◌≤◌, max, List, [], ◌∷◌, ns_per_ms, if_cases, arith}
use hamstercam.Double.{Double}
use hamstercam.Backoff.{Backoff}
use hamstercam.Backoff
use hamstercam.Device.{
  Device, Clock, FrameDescriptor, OpenResult, opened, absent, FormatResult, known, no_producer,
  DequeueResult, frame, timeout, device_lost,
}
use hamstercam.Device.Time.{IsMonotone}
use hamstercam.Stats.{
  CaptureState, device_absent, awaiting_producer, configuring, streaming, stalled, ErrorReason,
}
use hamstercam.Machine.State.{
  DaemonConfig, Machine, enter, emit, record_error, reset_backoffs, retry_open, retry_format,
  check_arrival_rate,
}
use hamstercam.Machine.Actions.{enter_configuring, begin_release_cycle, lose_device, handle_frame}
use hamstercam.Machine.Frames.{check_arrival_rate-SameCourse, check_arrival_rate-world}
use hamstercam.Machine.{
  make, device_opened, producer_queried, probe_queried, probe_opened, frame_arrived, poll_timed_out,
  dequeued, step_in, step, run,
}

-- A backoff all of whose delays are at most `limit`.
pub record IsWithin (limit : ℕ) (b : Backoff) : Type 0 where
  pub initial_le : b.initial ≤ limit
  pub ceiling_le : b.ceiling ≤ limit
  pub current_le : b.current ≤ limit

-- The largest delay that a configuration asks for, in milliseconds.
abbrev pub longest : DaemonConfig → ℕ
longest c =
    max c.reconnect_initial_backoff (max c.reconnect_max_backoff c.awaiting_producer_max_backoff)

module _ {W F : Type 0} (dev : Device W) (clock : Clock W) (fp : Double F)
    (laws : IsMonotone dev clock) (limit : ℕ) where
  -- Both backoffs are within the limit, and so is the time until the next attempt.
  pub record IsPaced (m : Machine W F) : Type 0 where
    pub absent_within : IsWithin limit m.device_absent_backoff
    pub awaiting_within : IsWithin limit m.awaiting_producer_backoff
    pub attempt_le : m.next_attempt_at ≤ laws.time m.world + limit * ns_per_ms

  -- The result of a step: paced, and the wait within the limit.
  abbrev PacedStep : Machine W F × ℕ → Type 0
  PacedStep r = IsPaced r.0 × (r.1 ≤ limit)

  begin_release_cycle-IsPaced :
      (r : ErrorReason) (m : Machine W F) → IsPaced m → IsPaced (begin_release_cycle dev clock r m)
  unfolding begin_release_cycle emit enter record_error Backoff.reset
  begin_release_cycle-IsPaced r m h =
      ground (arith, laws.now_eq (dev.close (dev.stop_streaming m.world)))

  lose_device-IsPaced : (m : Machine W F) → IsPaced m → IsPaced (lose_device dev clock m)
  unfolding lose_device emit enter record_error reset_backoffs Backoff.reset
  lose_device-IsPaced m h = ground (arith, laws.now_eq (dev.close (dev.stop_streaming m.world)))

  device_opened-Paced :
      (now : ℕ) (r : OpenResult) (m : Machine W F)
      → now ≤ laws.time m.world
      → IsPaced m
      → PacedStep (device_opened dev clock fp now r m)
  unfolding device_opened emit enter record_error reset_backoffs retry_open Backoff.reset
      Backoff.next
  device_opened-Paced now opened m e h = ground arith
  device_opened-Paced now absent m e h = ground arith

  enter_configuring-Paced :
      (m : Machine W F) → IsPaced m → PacedStep (enter_configuring dev clock m)
  unfolding enter_configuring enter record_error reset_backoffs retry_format Backoff.reset
      Backoff.next
  enter_configuring-Paced m h =
      let (r, w) = dev.start_streaming m.config.buffer_count m.world in
      ground (arith, laws.now_eq w, laws.now_le w, laws.start_le m.config.buffer_count m.world)

  producer_queried-Paced :
      (now : ℕ) (r : FormatResult) (m : Machine W F)
      → now ≤ laws.time m.world
      → IsPaced m
      → PacedStep (producer_queried dev clock fp now r m)
  unfolding producer_queried emit enter record_error retry_format Backoff.next
  producer_queried-Paced now (known f) m e h =
      ground (arith, enter_configuring-Paced (record m { current_format = f }))
  producer_queried-Paced now no_producer m e h = ground arith
  producer_queried-Paced now FormatResult.error m e h = ground arith

  probe_queried-Paced :
      (now : ℕ) (r : FormatResult) (m : Machine W F)
      → now ≤ laws.time m.world
      → IsPaced m
      → PacedStep (probe_queried dev clock fp now r m)
  unfolding probe_queried emit record_error retry_format Backoff.next
  probe_queried-Paced now (known f) m e h =
      let m' = (enter_configuring dev clock (record m { current_format = f })).0 in
      ground
        (arith, enter_configuring-Paced (record m { current_format = f }), laws.close_le m'.world)
  probe_queried-Paced now no_producer m e h = ground (arith, laws.close_le m.world)
  probe_queried-Paced now FormatResult.error m e h = ground (arith, laws.close_le m.world)

  probe_opened-Paced :
      (now : ℕ) (r : OpenResult) (m : Machine W F)
      → now ≤ laws.time m.world
      → IsPaced m
      → PacedStep (probe_opened dev clock fp now r m)
  unfolding probe_opened
  probe_opened-Paced now absent m e h = (lose_device-IsPaced m h, omega arith)
  probe_opened-Paced now opened m e h =
      let (r, w) = dev.query_format m.world in
      ground (arith, laws.query_le m.world, probe_queried-Paced now r (record m { world = w }))

  handle_frame-IsPaced :
      (f : FrameDescriptor) (m : Machine W F) → IsPaced m → IsPaced (handle_frame dev clock fp f m)
  unfolding handle_frame
  handle_frame-IsPaced f m h = ground (
    arith,
    laws.requeue_le f.buffer_index m.world,
    laws.wall_le (dev.requeue_frame f.buffer_index m.world),
  )

  frame_arrived-IsPaced :
      (f : FrameDescriptor) (m : Machine W F) → IsPaced m → IsPaced (frame_arrived dev clock fp f m)
  unfolding frame_arrived
  frame_arrived-IsPaced f m h =
      let m1 = handle_frame dev clock fp f m in
      let m2 = check_arrival_rate fp f.captured_at m1 in
      let paced : IsPaced m2 = ground (
        arith,
        handle_frame-IsPaced f m h,
        check_arrival_rate-SameCourse fp f.captured_at m1,
        check_arrival_rate-world fp f.captured_at m1,
      ) in
      if_cases IsPaced _ _ _ (λ _. begin_release_cycle-IsPaced ErrorReason.geometry m2 paced)
        (λ _. paced)

  dequeued-IsPaced :
      (r : DequeueResult) (m : Machine W F) → IsPaced m → IsPaced (dequeued dev clock fp r m)
  unfolding dequeued poll_timed_out record_error
  dequeued-IsPaced (frame f) m h = frame_arrived-IsPaced f m h
  dequeued-IsPaced timeout m h =
      let (now, w) = clock.steady_now m.world in
      ground (
        arith,
        laws.now_le m.world,
        laws.now_eq m.world,
        begin_release_cycle-IsPaced ErrorReason.timeout (record m { world = w }),
      )
  dequeued-IsPaced DequeueResult.error m h = ground arith
  dequeued-IsPaced device_lost m h = lose_device-IsPaced m h

  step_in-Paced :
      (s : CaptureState) (t : ℕ) (m : Machine W F)
      → IsPaced m
      → PacedStep (step_in dev clock fp s t m)
  unfolding step_in
  step_in-Paced device_absent t m h =
      let (now, w) = clock.steady_now m.world in
      let (r, w') = dev.open_device w in
      ground (
        arith,
        laws.now_le m.world,
        laws.now_eq m.world,
        laws.open_le w,
        device_opened-Paced now r (record m { world = w' }),
      )
  step_in-Paced awaiting_producer t m h =
      let (now, w) = clock.steady_now m.world in
      let (r, w') = dev.query_format w in
      let (o, v) = dev.open_device w in
      ground (
        arith,
        laws.now_le m.world,
        laws.now_eq m.world,
        laws.open_le w,
        laws.query_le w,
        producer_queried-Paced now r (record m { world = w' }),
        probe_opened-Paced now o (record m { world = v }),
      )
  step_in-Paced configuring t m h = (h, omega arith)
  step_in-Paced stalled t m h = (h, omega arith)
  step_in-Paced streaming t m h =
      let (r, w) = dev.dequeue_frame t m.world in
      ground (arith, laws.dequeue_le t m.world, dequeued-IsPaced r (record m { world = w }))

  run-IsPaced : (ts : List ℕ) (m : Machine W F) → IsPaced m → IsPaced (run dev clock fp ts m)
  unfolding run step
  run-IsPaced [] m h = h
  run-IsPaced (t ∷ ts) m h =
      run-IsPaced ts (step dev clock fp t m).0 (step_in-Paced m.state t m h).0

module _ {W F : Type 0} (dev : Device W) (clock : Clock W) (fp : Double F)
    (laws : IsMonotone dev clock) where
  make-IsPaced :
      (c : DaemonConfig) (w : W) → IsPaced dev clock fp laws (longest c) (make dev clock fp c w)
  unfolding make enter Backoff.make
  make-IsPaced c w = ground (arith, laws.now_eq w)

  -- If the steady clock never goes back, then after any run from the start the next step asks for a
  -- wait of at most the largest of the three backoff settings, and leaves an attempt that is due
  -- within that time.
  pub wait-le :
      (c : DaemonConfig) (w : W) (ts : List ℕ) (t : ℕ)
      → let m = run dev clock fp ts (make dev clock fp c w) in
        let (n, wait) = step dev clock fp t m in
        (wait ≤ longest c) × (n.next_attempt_at ≤ laws.time n.world + longest c * ns_per_ms)
  unfolding step
  wait-le c w ts t =
      let m = run dev clock fp ts (make dev clock fp c w) in
      let h =
        step_in-Paced dev clock fp laws (longest c) m.state t m (
          run-IsPaced dev clock fp laws (longest c) ts (make dev clock fp c w)
            (make-IsPaced c w)) in
      (h.1, h.0.attempt_le)
