-- ===== src/Machine/Tally.antt =====
-- What the state machine of src/capture_state_machine.cpp exports of the frames that its device has
-- delivered.
use hamstercam.Base.{ℕ, ◌+◌, ◌%◌, ◌≡◌, refl, List, [], ◌∷◌, if_cases, add_u64, arith}
use hamstercam.Double.{Double}
use hamstercam.Device.{Device, Clock, FrameDescriptor, DequeueResult, frame, timeout, device_lost}
use hamstercam.Stats.{
  CaptureState, device_absent, awaiting_producer, configuring, streaming, stalled, ErrorReason,
  set_stream_info, new_stats,
}
use hamstercam.Stats
use hamstercam.Machine.State.{DaemonConfig, Machine, enter, record_error, check_arrival_rate}
use hamstercam.Machine.Actions.{begin_release_cycle, handle_frame, observe_interval}
use hamstercam.Machine.{make, frame_arrived, dequeued, step_in, step, run}
use hamstercam.Machine.Tallied.{
  Tallied, frames_of, bytes_of, tally, tally_clock, IsTallied, SameTally,
  begin_release_cycle-SameTally, lose_device-SameTally, device_opened-SameTally,
  producer_queried-SameTally, probe_opened-SameTally, check_arrival_rate-SameTally,
}

module _ {W F : Type 0} (raw : Device W) (raw_clock : Clock W) (fp : Double F) where
  abbrev dev : Device (Tallied W)
  dev = tally raw

  abbrev clock : Clock (Tallied W)
  clock = tally_clock raw_clock

  -- The device has counted the frame, and the state machine has not yet.
  record IsBehind (f : FrameDescriptor) (m : Machine (Tallied W) F) : Type 0 where
    frames : add_u64 m.stats.frames_received 1 ≡ m.world.frames % 18_446_744_073_709_551_616
    bytes : add_u64 m.stats.bytes_received f.bytes_used ≡ m.world.bytes % 18_446_744_073_709_551_616

  handle_frame-IsTallied :
      (f : FrameDescriptor) (m : Machine (Tallied W) F)
      → IsBehind f m
      → IsTallied (handle_frame dev clock fp f m)
  unfolding handle_frame observe_interval
  handle_frame-IsTallied f m h = ground arith

  kept-IsTallied : (m n : Machine (Tallied W) F) → SameTally m n → IsTallied m → IsTallied n
  kept-IsTallied m n s t = omega (arith, s, t)

  frame_arrived-IsTallied :
      (f : FrameDescriptor) (m : Machine (Tallied W) F)
      → IsBehind f m
      → IsTallied (frame_arrived dev clock fp f m)
  unfolding frame_arrived
  frame_arrived-IsTallied f m h =
      let m1 = handle_frame dev clock fp f m in
      let m2 = check_arrival_rate fp f.captured_at m1 in
      let t =
        kept-IsTallied m1 m2 (check_arrival_rate-SameTally raw raw_clock fp f.captured_at m1)
          (handle_frame-IsTallied f m h) in
      if_cases IsTallied _ (begin_release_cycle dev clock ErrorReason.geometry m2) m2
        (λ _.
          kept-IsTallied m2 (begin_release_cycle dev clock ErrorReason.geometry m2)
            (begin_release_cycle-SameTally raw raw_clock fp ErrorReason.geometry m2) t)
        (λ _. t)

  step_streaming-IsTallied :
      (r : DequeueResult) (w : W) (m : Machine (Tallied W) F)
      → IsTallied m
      → IsTallied (
          dequeued dev clock fp r (record m {
            world = record {
              inner = w;
              frames = m.world.frames + frames_of r;
              bytes = m.world.bytes + bytes_of r;
            };
          }))
  unfolding dequeued record_error Stats.record_error add_u64
  step_streaming-IsTallied (frame f) w m t =
      frame_arrived-IsTallied f _ (record { frames = omega (arith, t); bytes = omega (arith, t) })
  step_streaming-IsTallied timeout w m t =
      let s : Tallied W = record {
        inner = (raw_clock.steady_now w).1;
        frames = m.world.frames + 0;
        bytes = m.world.bytes + 0;
      } in
      ground (
        arith,
        begin_release_cycle-SameTally raw raw_clock fp ErrorReason.timeout (record m { world = s }),
      )
  step_streaming-IsTallied DequeueResult.error w m t = ground arith
  step_streaming-IsTallied device_lost w m t =
      let s : Tallied W = record {
        inner = w;
        frames = m.world.frames + 0;
        bytes = m.world.bytes + 0;
      } in
      ground (arith, lose_device-SameTally raw raw_clock fp (record m { world = s }))

  step_in-IsTallied :
      (s : CaptureState) (t : ℕ) (m : Machine (Tallied W) F)
      → IsTallied m
      → IsTallied (step_in dev clock fp s t m).0
  unfolding step_in
  step_in-IsTallied device_absent t m h =
      let (now, w) = clock.steady_now m.world in
      let (r, w') = dev.open_device w in
      ground (arith, device_opened-SameTally raw raw_clock fp now r (record m { world = w' }))
  step_in-IsTallied awaiting_producer t m h =
      let (now, w) = clock.steady_now m.world in
      let (r, w') = dev.query_format w in
      let (o, v) = dev.open_device w in
      ground (
        arith,
        producer_queried-SameTally raw raw_clock fp now r (record m { world = w' }),
        probe_opened-SameTally raw raw_clock fp now o (record m { world = v }),
      )
  step_in-IsTallied configuring t m h = h
  step_in-IsTallied streaming t m h =
      let (r, w) = raw.dequeue_frame t m.world.inner in step_streaming-IsTallied r w m h
  step_in-IsTallied stalled t m h = h

  run-IsTallied :
      (ts : List ℕ) (m : Machine (Tallied W) F) → IsTallied m → IsTallied (run dev clock fp ts m)
  unfolding run step
  run-IsTallied [] m h = h
  run-IsTallied (t ∷ ts) m h =
      run-IsTallied ts (step dev clock fp t m).0 (step_in-IsTallied m.state t m h)

  -- After every run from a new machine, the exported frame counter is the number of frames that the
  -- device has delivered, and the exported byte counter the sum of their bytes, both modulo 2^64,
  -- whatever the device has answered in between.
  pub run-make-IsTallied :
      (c : DaemonConfig) (w : W) (ts : List ℕ)
      → IsTallied
          (run dev clock fp ts (make dev clock fp c (record { inner = w; frames = 0; bytes = 0 })))
  unfolding make enter new_stats
  run-make-IsTallied c w ts =
      run-IsTallied ts (make dev clock fp c (record { inner = w; frames = 0; bytes = 0 }))
        (record { frames = refl; bytes = refl })
