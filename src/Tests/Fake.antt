-- ===== src/Tests/Fake.antt =====
-- A scripted device and clock, as in tests/support, and numbers in millionths for `double`.
use hamstercam.Base.{
  ℕ, ◌+◌, ◌-◌, ◌*◌, ◌/◌, ◌^◌, refl, false, none, List, [], ◌∷◌, ltb, leb, codes, add_u64, add_u32,
  arith,
}
use hamstercam.Double.{Double}
use hamstercam.Device.{
  StreamFormat, OpenResult, opened, FormatResult, known, no_producer, StreamStartResult, started,
  DequeueResult, timeout, Device, Clock,
}
use hamstercam.Device.{format_eq}
use hamstercam.Backoff
use hamstercam.Histogram
use hamstercam.Stats
use hamstercam.Event.{plain_event, format_event, change_event}
use hamstercam.Machine.State.{
  Machine, default_config, enter, emit, record_error, reset_backoffs, retry_open, retry_format,
  check_arrival_rate, flag_anomaly, rate_is_anomalous,
}
use hamstercam.Machine.Actions.{enter_configuring, begin_release_cycle, lose_device, handle_frame}
use hamstercam.Machine.{make, run, stall_threshold_of}
use hamstercam.Device.Time.{IsMonotone}

abbrev pub vga : StreamFormat
vga = record {
  width = 640;
  height = 480;
  pixel_format_fourcc = 842_093_913;
  size_image = 460_800;
  bytesperline = 640;
  compressed = false;
}

-- Each list scripts the next answers; a list that has run out gives the last of them on.
pub record World : Type 0 where
  pub now : ℕ
  pub opens : List OpenResult
  pub formats : List FormatResult
  pub starts : List StreamStartResult
  pub frames : List DequeueResult

abbrev pub answer : {A : Type 0} → A → List A → A × List A
answer d [] = (d, [])
answer d (a ∷ rest) = (a, rest)

abbrev pub fake : Device World
fake = record {
  open_device = λ w. let (r, rest) = answer opened w.opens in (r, record w { opens = rest });
  close = λ w. w;
  query_format =
      λ w. let (r, rest) = answer no_producer w.formats in (r, record w { formats = rest });
  start_streaming =
      λ n w. let (r, rest) = answer started w.starts in (r, record w { starts = rest });
  stop_streaming = λ w. w;
  dequeue_frame = λ t w. let (r, rest) = answer timeout w.frames in (r, record w { frames = rest });
  requeue_frame = λ i w. w;
}

-- A device that is always there, with a producer of `vga`; and one whose queries all fail.
abbrev pub ready : Device World
ready = record fake {
  open_device = λ w. (opened, w);
  query_format = λ w. (known vga, w);
  start_streaming = λ n w. (started, w);
}

abbrev pub gone : Device World
gone = record fake { query_format = λ w. (FormatResult.error, w) }

-- Every reading of the clock takes a second.
abbrev pub fake_clock : Clock World
fake_clock = record {
  steady_now = λ w. (w.now + 1_000_000_000, record w { now = w.now + 1_000_000_000 });
  wall_now = λ w. (w.now, w);
}

pub fake-IsMonotone : IsMonotone fake fake_clock
fake-IsMonotone = record {
  time = λ w. w.now;
  now_le = λ w. omega arith;
  now_eq = λ w. refl;
  wall_le = λ w. omega arith;
  open_le = λ w. omega arith;
  close_le = λ w. omega arith;
  query_le = λ w. omega arith;
  start_le = λ n w. omega arith;
  stop_le = λ w. omega arith;
  dequeue_le = λ t w. omega arith;
  requeue_le = λ i w. omega arith;
}

pub ready-IsMonotone : IsMonotone ready fake_clock
ready-IsMonotone = record {
  time = λ w. w.now;
  now_le = λ w. omega arith;
  now_eq = λ w. refl;
  wall_le = λ w. omega arith;
  open_le = λ w. omega arith;
  close_le = λ w. omega arith;
  query_le = λ w. omega arith;
  start_le = λ n w. omega arith;
  stop_le = λ w. omega arith;
  dequeue_le = λ t w. omega arith;
  requeue_le = λ i w. omega arith;
}

abbrev pub micro : Double ℕ
micro = record {
  of_nat = λ n. n * 1_000_000;
  literal = λ d p. d * 1_000_000 / 10 ^ p;
  add = λ a b. a + b;
  mul = λ a b. a * b / 1_000_000;
  div = λ a b. a * 1_000_000 / b;
  lt = ltb;
  le = leb;
  seconds = λ a b. (b - a) / 1000;
  truncate = λ a. a / 1_000_000;
  print = λ a. codes "0";
  stod = λ s. none;
}

abbrev pub qvga : StreamFormat
qvga = record {
  width = 320;
  height = 240;
  pixel_format_fourcc = 842_093_913;
  size_image = 115_200;
  bytesperline = 320;
  compressed = false;
}

-- A run of the machine over the fakes. The line names all that a run computes with.
unfoldable pub fake_run : List ℕ → World → Machine World ℕ
unfolding run make stall_threshold_of enter emit record_error reset_backoffs retry_open retry_format
    check_arrival_rate flag_anomaly rate_is_anomalous enter_configuring begin_release_cycle
    lose_device handle_frame Backoff.make Backoff.next Backoff.reset format_eq Histogram.make
    Histogram.observe Histogram.bucket_index Histogram.frame_interval_buckets Stats.new_stats
    Stats.record_error Stats.set_stream_info Stats.state_code Stats.reason_index plain_event
    format_event change_event add_u64 add_u32
fake_run ts w = run fake fake_clock micro ts (make fake fake_clock micro default_config w)
