-- ===== src/Machine/Moves.antt =====
-- The steps of src/capture_state_machine.cpp against the moves of an abstract transition system.
use hamstercam.Base.{
  ℕ, ◌+◌, ◌*◌, ◌≡◌, refl, ◌⊎◌, inl, inr, true, false, not, ◌&&◌, ◌==◌, ltb, leb, ns_per_ms, arith,
  Bool-cases, if_cases,
}
use hamstercam.Double.{Double}
use hamstercam.Device.{
  StreamFormat, format_eq, Device, Clock, FrameDescriptor, OpenResult, opened, absent, FormatResult,
  known, no_producer, DequeueResult, frame, timeout, device_lost, StreamStartResult, started,
  buffer_error,
}
use hamstercam.Device.FourCc.{format_eq_iff}
use hamstercam.Stats.{
  CaptureState, device_absent, awaiting_producer, configuring, streaming, stalled, ErrorReason,
}
use hamstercam.Stats
use hamstercam.Machine.State.{
  Machine, enter, emit, record_error, reset_backoffs, retry_open, retry_format, check_arrival_rate,
}
use hamstercam.Machine.Actions.{enter_configuring, begin_release_cycle, lose_device, handle_frame}
use hamstercam.Machine.Frames.{SameCourse, handle_frame-SameCourse, check_arrival_rate-SameCourse}
use hamstercam.Machine.{
  device_opened, producer_queried, probe_queried, probe_opened, frame_arrived, poll_timed_out,
  step_recovering, step_awaiting_producer, dequeued, step_in, step,
}
use hamstercam.Machine.Transitions.{
  Move, stay, open_move, first_stream_move, reconnect_move, release_move, resume_move,
  resume_changed_move, lose_move,
}

start_cases : (r : StreamStartResult) → (r ≡ started) ⊎ (r ≡ buffer_error)
start_cases started = inl refl
start_cases buffer_error = inr refl

same_world : {W F : Type 0} (m : Machine W F) (w : W) → SameCourse m (record m { world = w })
same_world m w = ground arith

module _ {W F : Type 0} (dev : Device W) (clock : Clock W) (fp : Double F) where
  lose_device-Move :
      (m n : Machine W F)
      → (m.state ≡ streaming) ⊎ ((m.state ≡ awaiting_producer) × (m.recovering ≡ true))
      → SameCourse m n
      → Move m (lose_device dev clock n)
  unfolding lose_device emit enter record_error Stats.record_error Stats.set_stream_info
      reset_backoffs
  lose_device-Move m n h c =
      lose_move h refl (ground arith) (ground arith) (ground arith) (ground arith)

  begin_release_cycle-Move :
      (r : ErrorReason) (m n : Machine W F)
      → m.state ≡ streaming
      → SameCourse m n
      → Move m (begin_release_cycle dev clock r n)
  unfolding begin_release_cycle emit enter record_error Stats.record_error
  begin_release_cycle-Move r m n h c =
      release_move h refl refl (ground arith) (ground arith) (ground arith) (ground arith)

  device_opened-Move :
      (now : ℕ) (r : OpenResult) (m : Machine W F) (w : W)
      → m.state ≡ device_absent
      → m.recovering ≡ false
      → Move m (device_opened dev clock fp now r (record m { world = w })).0
  unfolding device_opened emit enter record_error Stats.record_error Stats.set_stream_info
      reset_backoffs retry_open
  device_opened-Move now opened m w e r = open_move e refl r refl refl refl refl
  device_opened-Move now absent m w e r = stay refl refl refl refl refl refl

  producer_known-Move :
      (now : ℕ) (f : StreamFormat) (m : Machine W F) (w : W)
      → m.state ≡ awaiting_producer
      → m.recovering ≡ false
      → Move m (producer_queried dev clock fp now (known f) (record m { world = w })).0
  unfolding producer_queried enter_configuring retry_format emit enter record_error
      Stats.record_error Stats.set_stream_info reset_backoffs
  producer_known-Move now f m w e r =
      elim (start_cases (dev.start_streaming m.config.buffer_count w).0) [
        | inl s ↦ elim (Bool-cases m.has_streamed_before) [
          | inl b ↦
              reconnect_move e r b (ground arith) (ground arith) (ground arith) (ground arith)
                (ground arith)
          | inr b ↦
              first_stream_move e r b (ground arith) (ground arith) (ground arith) (ground arith)
                (ground arith)
        ]
        | inr s ↦
            stay (ground arith) (ground arith) (ground arith) (ground arith) (ground arith)
              (ground arith)
      ]

  producer_queried-Move :
      (now : ℕ) (r : FormatResult) (m : Machine W F) (w : W)
      → m.state ≡ awaiting_producer
      → m.recovering ≡ false
      → Move m (producer_queried dev clock fp now r (record m { world = w })).0
  unfolding producer_queried retry_format record_error Stats.record_error
  producer_queried-Move now (known f) m w e r = producer_known-Move now f m w e r
  producer_queried-Move now no_producer m w e r = stay refl refl refl refl refl refl
  producer_queried-Move now FormatResult.error m w e r = stay refl refl refl refl refl refl

  probe_known-Move :
      (now : ℕ) (f : StreamFormat) (m : Machine W F) (w : W)
      → m.state ≡ awaiting_producer
      → m.recovering ≡ true
      → Move m (probe_queried dev clock fp now (known f) (record m { world = w })).0
  unfolding probe_queried enter_configuring retry_format emit enter record_error Stats.record_error
      Stats.set_stream_info reset_backoffs
  probe_known-Move now f m w e r =
      elim (start_cases (dev.start_streaming m.config.buffer_count w).0) [
        | inl s ↦ elim (Bool-cases (format_eq f m.current_format)) [
          | inl b ↦
              resume_move e r (ground arith) (ground arith)
                (ground (arith, format_eq_iff f m.current_format)) (ground arith) (ground arith)
                (ground arith)
          | inr b ↦
              resume_changed_move e r (ground arith) (ground arith)
                (ground (arith, format_eq_iff f m.current_format)) (ground arith) (ground arith)
                (ground arith)
        ]
        | inr s ↦
            stay (ground arith) (ground arith) (ground arith) (ground arith) (ground arith)
              (ground arith)
      ]

  probe_opened-Move :
      (now : ℕ) (r : OpenResult) (m : Machine W F) (w : W)
      → m.state ≡ awaiting_producer
      → m.recovering ≡ true
      → Move m (probe_opened dev clock fp now r (record m { world = w })).0
  unfolding probe_opened
  probe_opened-Move now absent m w e r =
      lose_device-Move m (record m { world = w }) (inr (e, r)) (same_world m w)
  probe_opened-Move now opened m w e r = let (q, v) = dev.query_format w in probe_queried-Move q v
    where
      probe_queried-Move :
          (q : FormatResult) (v : W)
          → Move m (probe_queried dev clock fp now q (record m { world = v })).0
      probe_queried-Move (known f) v = probe_known-Move now f m v e r
      probe_queried-Move no_producer v =
          unfold probe_queried retry_format in stay refl refl refl refl refl refl
      probe_queried-Move FormatResult.error v =
          unfold probe_queried retry_format record_error Stats.record_error in
          stay refl refl refl refl refl refl

  frame_arrived-Move :
      (f : FrameDescriptor) (m : Machine W F) (w : W)
      → m.state ≡ streaming
      → Move m (frame_arrived dev clock fp f (record m { world = w }))
  unfolding frame_arrived
  frame_arrived-Move f m w e =
      let m1 = handle_frame dev clock fp f (record m { world = w }) in
      let m2 = check_arrival_rate fp f.captured_at m1 in
      let c1 = handle_frame-SameCourse dev clock fp f (record m { world = w }) in
      let c2 = check_arrival_rate-SameCourse fp f.captured_at m1 in
      elim (Bool-cases
        (not m2.current_format.compressed && not (f.bytes_used == m2.current_format.size_image))) [
          | inl b ↦ rw b (begin_release_cycle-Move ErrorReason.geometry m m2 e (ground arith))
          | inr b ↦ rw b (
              stay (ground arith) (ground arith) (ground arith) (ground arith) (ground arith)
                (ground arith))
        ]

  poll_timed_out-Move :
      (m : Machine W F) (w : W)
      → m.state ≡ streaming
      → Move m (poll_timed_out dev clock fp (record m { world = w }))
  unfolding poll_timed_out
  poll_timed_out-Move m w e =
      let (now, v) = clock.steady_now w in
      elim (Bool-cases
        (m.have_last_frame && leb (m.last_frame_at + m.stall_threshold * ns_per_ms) now)) [
          | inl b ↦ rw b (
              begin_release_cycle-Move ErrorReason.timeout m (record m { world = v }) e
                (same_world m v))
          | inr b ↦ rw b (stay refl refl refl refl refl refl)
        ]

  dequeued-Move :
      (r : DequeueResult) (m : Machine W F) (w : W)
      → m.state ≡ streaming
      → Move m (dequeued dev clock fp r (record m { world = w }))
  unfolding dequeued record_error Stats.record_error
  dequeued-Move (frame f) m w e = frame_arrived-Move f m w e
  dequeued-Move timeout m w e = poll_timed_out-Move m w e
  dequeued-Move DequeueResult.error m w e = stay refl refl refl refl refl refl
  dequeued-Move device_lost m w e =
      lose_device-Move m (record m { world = w }) (inl e) (same_world m w)

  step_recovering-Move :
      (m : Machine W F)
      → m.state ≡ awaiting_producer
      → m.recovering ≡ true
      → Move m (step_recovering dev clock fp m).0
  unfolding step_recovering
  step_recovering-Move m e r =
      let (now, w) = clock.steady_now m.world in
      let (o, v) = dev.open_device w in
      if_cases {A = Machine W F × ℕ} (λ r. Move m r.0) (ltb now m.next_attempt_at) _ _
        (λ _. stay refl refl refl refl refl refl) (λ _. probe_opened-Move now o m v e r)

  step_awaiting_producer-Move :
      (m : Machine W F)
      → m.state ≡ awaiting_producer
      → m.recovering ≡ false
      → Move m (step_awaiting_producer dev clock fp m).0
  unfolding step_awaiting_producer
  step_awaiting_producer-Move m e r =
      let (now, w) = clock.steady_now m.world in
      let (q, v) = dev.query_format w in
      if_cases {A = Machine W F × ℕ} (λ r. Move m r.0) (ltb now m.next_attempt_at) _ _
        (λ _. stay refl refl refl refl refl refl) (λ _. producer_queried-Move now q m v e r)

  step_in-Move :
      (s : CaptureState) (t : ℕ) (m : Machine W F)
      → m.state ≡ s
      → (m.recovering ≡ true → m.state ≡ awaiting_producer)
      → Move m (step_in dev clock fp s t m).0
  unfolding step_in
  step_in-Move device_absent t m e h =
      let (now, w) = clock.steady_now m.world in
      let (r, w') = dev.open_device w in
      elim (Bool-cases (ltb now m.next_attempt_at)) [
        | inl b ↦ rw b (stay refl refl refl refl refl refl)
        | inr b ↦ rw b (device_opened-Move now r m w' e (ground arith))
      ]
  step_in-Move awaiting_producer t m e h =
      if_cases {A = Machine W F × ℕ} (λ r. Move m r.0) m.recovering _ _ (step_recovering-Move m e)
        (step_awaiting_producer-Move m e)
  step_in-Move configuring t m e h = stay refl refl refl refl refl refl
  step_in-Move stalled t m e h = stay refl refl refl refl refl refl
  step_in-Move streaming t m e h = let (r, w) = dev.dequeue_frame t m.world in dequeued-Move r m w e

  -- Every step of a machine that recovers only in `awaiting_producer` is one move: it leaves the
  -- state, the flags and the events alone, or opens the device, starts the first stream,
  -- reconnects, releases a streaming device, resumes after a release with the events of a format
  -- that is the same or that differs, or loses a streaming or a recovering device; with just the
  -- events of that move.
  pub step-Move :
      (t : ℕ) (m : Machine W F)
      → (m.recovering ≡ true → m.state ≡ awaiting_producer)
      → Move m (step dev clock fp t m).0
  unfolding step
  step-Move t m h = step_in-Move m.state t m refl h
