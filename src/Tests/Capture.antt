-- ===== src/Tests/Capture.antt =====
-- The capture state machine, its backoffs and its histogram on concrete inputs.
use hamstercam.Base.{
  false, ℕ, ◌%◌, get_or, add_u64, ◌≢◌, ◌*◌, ◌+◌, ◌≤◌, ◌≡◌, refl, ap, true, List, [], ◌∷◌, map,
  ns_per_ms, length, replicate, codes, ◌^◌, min, arith,
}
use hamstercam.Device.{
  opened, absent, known, no_producer, started, buffer_error, FrameDescriptor, frame, timeout,
  pixel_format_string,
}
use hamstercam.Backoff
use hamstercam.Backoff.Growth.{delay, delay-make}
use hamstercam.Histogram.{Histogram, bucket_index, observe}
use hamstercam.Histogram.Counts.{IsFirst, IsTallied, observe-counts}
use hamstercam.Event.{EventType, plain_event, format_event}
use hamstercam.Stats.{awaiting_producer, streaming}
use hamstercam.Machine.State.{Machine, default_config, check_arrival_rate, rate_is_anomalous}
use hamstercam.Machine.{make, step, run, stall_threshold_of}
use hamstercam.Machine.Resting.{IsResting, run-make-IsResting}
use hamstercam.Machine.Protocol.{Conforms}
use hamstercam.Machine.Log.{Logged, run-make-Logged}
use hamstercam.Machine.Counters.{IsCounted, run-make-IsCounted}
use hamstercam.Machine.Mirror.{view}
use hamstercam.Machine.Watchers.{
  unmonitored, untallied, plain_run, monitored_run, tallied_run, plain_run-Conforms,
  plain_run-IsTallied,
}
use hamstercam.Machine.Transitions.{Move}
use hamstercam.Machine.Moves.{step-Move}
use hamstercam.Machine.Waits.{wait-le}
use hamstercam.Machine.Release.{IsReleased, step-timeout, step-frame}
use hamstercam.Machine.Recovery.{
  IsReady, step-recovers, two_steps-stream, format_change_lost, run-stuck,
}
use hamstercam.Machine.Arrivals.{arrivals, arrivals-window}
use hamstercam.Tests.Fake.{
  World, fake, fake_clock, fake-IsMonotone, micro, vga, qvga, fake_run, ready, gone,
  ready-IsMonotone,
}

abbrev frame_at : ℕ → ℕ → FrameDescriptor
frame_at bytes t = record { buffer_index = 1; bytes_used = bytes; captured_at = t }

-- A producer that comes, restarts in another format, and a device that once fails to start.
abbrev restarting : World
restarting = record {
  now = 0;
  opens = absent ∷ opened ∷ [];
  formats = no_producer ∷ known vga ∷ known qvga ∷ known qvga ∷ [];
  starts = started ∷ buffer_error ∷ started ∷ [];
  frames = frame (frame_at 460_800 4_000_000_000) ∷ timeout ∷ [];
}

threshold : stall_threshold_of fake fake_clock micro default_config ≡ 666
unfolding stall_threshold_of
threshold = refl

-- Steps: absent, opened, no producer, streaming, a frame.
abbrev five : List ℕ
five = 200 ∷ 200 ∷ 200 ∷ 200 ∷ 200 ∷ []

-- And then a stall, a failed start, and streaming again.
abbrev eight : List ℕ
eight = 200 ∷ 200 ∷ 200 ∷ 200 ∷ 200 ∷ 200 ∷ 200 ∷ 200 ∷ []

streams : (fake_run five restarting).state ≡ streaming
unfolding fake_run
streams = refl

-- The events of the run, the last one first: the change to the smaller format is not among them.
types_restarting :
    map (λ e. e.type) (fake_run eight restarting).events
    ≡ EventType.streaming_started ∷ EventType.stall_cleared ∷ EventType.stall_detected
      ∷ EventType.streaming_started ∷ EventType.awaiting_producer ∷ EventType.device_opened ∷ []
unfolding fake_run
types_restarting = refl

abbrev flowing : Machine World ℕ
flowing = fake_run five restarting

abbrev fake_step : Machine World ℕ → Machine World ℕ
fake_step m = (step fake fake_clock micro 200 m).0

run-make-IsResting_example :
    IsResting
      (run fake fake_clock micro eight (make fake fake_clock micro default_config restarting))
run-make-IsResting_example =
    run-make-IsResting fake fake_clock micro default_config restarting eight

run-make-Logged_example :
    Logged (run fake fake_clock micro eight (make fake fake_clock micro default_config restarting))
run-make-Logged_example = run-make-Logged fake fake_clock micro default_config restarting eight

run-make-IsCounted_example :
    IsCounted
      (run fake fake_clock micro eight (make fake fake_clock micro default_config restarting))
run-make-IsCounted_example =
    run-make-IsCounted fake fake_clock micro default_config restarting eight

plain_run-Conforms_example :
    (plain_run fake fake_clock micro default_config restarting eight
      ≡ view unmonitored (monitored_run fake fake_clock micro default_config restarting eight))
    × Conforms (monitored_run fake fake_clock micro default_config restarting eight)
plain_run-Conforms_example =
    plain_run-Conforms fake fake_clock micro default_config restarting eight

plain_run-IsTallied_example :
    let plain = plain_run fake fake_clock micro default_config restarting eight in
    let tallied = tallied_run fake fake_clock micro default_config restarting eight in
    (plain ≡ view untallied tallied)
    × (plain.stats.frames_received ≡ tallied.world.frames % 18_446_744_073_709_551_616)
    × (plain.stats.bytes_received ≡ tallied.world.bytes % 18_446_744_073_709_551_616)
plain_run-IsTallied_example =
    plain_run-IsTallied fake fake_clock micro default_config restarting eight

wait-le_example :
    let m = run fake fake_clock micro five (make fake fake_clock micro default_config restarting) in
    let (n, wait) = step fake fake_clock micro 200 m in
    (wait ≤ 30_000) × (n.next_attempt_at ≤ fake-IsMonotone.time n.world + 30_000 * ns_per_ms)
wait-le_example = wait-le fake fake_clock micro fake-IsMonotone default_config restarting five 200

step-Move_example : Move flowing (fake_step flowing)
unfolding fake_run
step-Move_example = step-Move fake fake_clock micro 200 flowing (λ e. cc)

step-timeout_example : IsReleased (fake_step flowing)
unfolding fake_run
step-timeout_example =
    (step-timeout fake fake_clock micro 200 flowing refl refl refl).0.1 (refl, omega arith)

-- The fifth step takes the frame.
step-frame_example :
    let m = fake_run (200 ∷ 200 ∷ 200 ∷ 200 ∷ []) restarting in
    (fake_step m).stats.frames_received ≡ 1
unfolding fake_run
step-frame_example =
    (step-frame fake fake_clock micro 200 (fake_run (200 ∷ 200 ∷ 200 ∷ 200 ∷ []) restarting)
      (frame_at 460_800 4_000_000_000) refl refl refl).0.frames

ready-IsReady : IsReady ready vga
ready-IsReady = record { opens = λ w. refl; answers = λ w. refl; starts = λ n w. refl }

-- Released, before the attempt that fails to start.
abbrev released : Machine World ℕ
released = fake_run (200 ∷ 200 ∷ 200 ∷ 200 ∷ 200 ∷ 200 ∷ []) restarting

step-recovers_example : (step ready fake_clock micro 200 released).0.state ≡ streaming
unfolding fake_run
step-recovers_example =
    (step-recovers ready fake_clock micro vga 200 released ready-IsReady (refl, refl)
      (omega arith)).0

two_steps-stream_example :
    (run ready fake_clock micro (200 ∷ 200 ∷ []) (fake_run [] restarting)).state ≡ streaming
unfolding fake_run
two_steps-stream_example =
    (two_steps-stream ready fake_clock micro vga 200 200 (fake_run [] restarting) ready-IsMonotone
      ready-IsReady refl refl (omega arith)).0

format_change_lost_example :
    (fake_step (fake_step released)).events
    ≡ format_event EventType.streaming_started (fake_step (fake_step released)).current_format
      ∷ plain_event EventType.stall_cleared
      ∷ released.events
unfolding fake_run
format_change_lost_example =
    (format_change_lost fake fake_clock micro 200 200 released (fake_step released)
      (fake_step (fake_step released)) refl refl (refl, refl) (refl, refl)
      (λ e. absurd (omega (arith, ap (λ f. f.width) e))) refl refl).1

-- No call opens the device again: the answers that are left to it stay.
run-stuck_example :
    let m = fake_run (200 ∷ 200 ∷ []) restarting in
    let n = run gone fake_clock micro eight m in
    (n.state ≡ awaiting_producer)
    × (n.recovering ≡ false)
    × (n.events ≡ m.events)
    × (n.world.opens ≡ m.world.opens)
unfolding fake_run
run-stuck_example =
    let m = fake_run (200 ∷ 200 ∷ []) restarting in
    run-stuck gone fake_clock micro (λ w. w.opens ≡ m.world.opens) eight m (λ w h. h) (λ w h. h)
      (λ w. refl) refl refl refl

-- 151 frames in two seconds are too many at 15 frames a second.
abbrev times : List ℕ
times = replicate 150 6_500_000_000

abbrev set_up : Machine World ℕ
set_up = fake_run (200 ∷ 200 ∷ 200 ∷ 200 ∷ []) restarting

arrivals-window_example :
    (check_arrival_rate micro 8_000_000_000 (arrivals micro times set_up)).rate_anomaly_active
    ≡ rate_is_anomalous micro set_up (length times + 1) 8_000_000_000
unfolding fake_run
arrivals-window_example =
    (arrivals-window micro times 8_000_000_000 set_up refl (omega arith) (omega arith)
      (omega arith)).0

storm : rate_is_anomalous micro set_up 151 8_000_000_000 ≡ true
unfolding fake_run
storm = refl

delay-make_example :
    (delay 0 (Backoff.make 200 30_000) ≡ 200)
    × (delay 3 (Backoff.make 200 30_000) ≡ min 30_000 (200 * 2 ^ 3))
delay-make_example = delay-make 200 30_000 2

abbrev buckets : Histogram ℕ
buckets = record { bounds = 5 ∷ 10 ∷ 20 ∷ []; counts = 1 ∷ 0 ∷ 2 ∷ 7 ∷ []; sum = 0; total = 10 }

observe-counts_example :
    let n = observe micro 12 buckets in
    IsFirst micro 12 2 (5 ∷ 10 ∷ 20 ∷ [])
    × (get_or n.counts 2 0 ≡ 3)
    × ((j : ℕ) → j ≢ 2 → get_or n.counts j 0 ≡ get_or buckets.counts j 0)
    × (n.total ≡ 11)
    × (n.sum ≡ buckets.sum + 12)
    × (n.bounds ≡ 5 ∷ 10 ∷ 20 ∷ [])
    × IsTallied micro n
unfolding bucket_index add_u64
observe-counts_example = observe-counts micro 12 buckets (record { sized = refl; tallied = refl })

pixel_format_string-vga : pixel_format_string vga ≡ codes "YU12"
unfolding pixel_format_string
pixel_format_string-vga = refl
