-- ===== src/Daemon.antt =====
-- src/main.cpp: the settings, the pages that are served, the sleep between steps, and the main loop.
-- What reads the environment, sleeps and sets the stop flag is outside, and comes as parameters.
pub mod Settings
pub mod Sleep
pub mod Loop
pub mod Release
pub mod Plain
pub mod Main
pub mod Events
pub mod Ends
use hamstercam.Base.{
  ℕ, zero, suc, ◌-◌, Bool, true, false, not, Option, none, some, List, [], ◌∷◌, ◌++◌, ltb,
  if◌then◌else◌, Bytes, bytes_eq, codes, min,
}
use hamstercam.Double.{Double}
use hamstercam.Device.{Device, Clock}
use hamstercam.Stats.{CaptureStats}
use hamstercam.Json.{LogLevel, info, parse_log_level, log, field}
use hamstercam.Metrics.{render_metrics}
use hamstercam.Http.{HttpResponse}
use hamstercam.Cli.{
  Flags, daemon_flags, Parsed, ok, unknown_flag, requires_value, parse_flags, resolve, parse_u32,
  parse_duration_ms,
}
use hamstercam.Machine.State.{DaemonConfig, Machine}
use hamstercam.Machine.{step}

pub record Setup : Type 0 where
  pub device_path : Bytes
  pub metrics_addr : Bytes
  pub log_level : LogLevel
  pub config : DaemonConfig

-- How `main` gets on: with its settings, or out with exit status 1 and a message.
pub data Startup : Type 0 where
  started : Setup → Startup
  unknown_name missing_value : Bytes → Startup
  invalid_value : Startup
  invalid_level : Bytes → Startup

infixl 5 ◌>>=◌
abbrev ◌>>=◌ : {A B : Type 0} → Option A → (A → Option B) → Option B
none >>= f = none
some a >>= f = f a

module _ (getenv : Bytes → Option Bytes) where
  -- The numbers and durations, in the order of the code.
  unfoldable pub read_config : Flags → Option DaemonConfig
  read_config flags = do
    fps ← parse_u32 (
        resolve getenv flags (codes "--expected-fps") (codes "HAMSTERCAM_EXPECTED_FPS")
          (codes "15"))
    stalls ← parse_u32 (
        resolve getenv flags (codes "--stall-multiple") (codes "HAMSTERCAM_STALL_MULTIPLE")
          (codes "10"))
    buffers ← parse_u32 (
        resolve getenv flags (codes "--buffer-count") (codes "HAMSTERCAM_BUFFER_COUNT") (codes "4"))
    reconnect ← parse_duration_ms (
        resolve getenv flags (codes "--reconnect-max-backoff")
          (codes "HAMSTERCAM_RECONNECT_MAX_BACKOFF") (codes "30s"))
    awaiting ← parse_duration_ms (
        resolve getenv flags (codes "--awaiting-producer-max-backoff")
          (codes "HAMSTERCAM_AWAITING_PRODUCER_MAX_BACKOFF") (codes "2s"))
    some (record {
      expected_fps = fps;
      stall_multiple = stalls;
      buffer_count = buffers;
      reconnect_initial_backoff = 200;
      reconnect_max_backoff = reconnect;
      awaiting_producer_max_backoff = awaiting;
    })

  -- `level` is what the text of the log level is read as.
  abbrev with_level : Bytes → Bytes → Bytes → DaemonConfig → Option LogLevel → Startup
  with_level device addr text c none = invalid_level text
  with_level device addr text c (some level) =
      started (record { device_path = device; metrics_addr = addr; log_level = level; config = c })

  abbrev with_config : Bytes → Bytes → Bytes → Option DaemonConfig → Startup
  with_config device addr text none = invalid_value
  with_config device addr text (some c) = with_level device addr text c (parse_log_level text)

  unfoldable pub configured_by : Parsed → Startup
  unfolding read_config
  configured_by (unknown_flag name) = unknown_name name
  configured_by (requires_value name) = missing_value name
  configured_by (ok flags) =
      with_config
        (resolve getenv flags (codes "--device") (codes "HAMSTERCAM_DEVICE") (codes "/dev/video40"))
        (resolve getenv flags (codes "--metrics-addr") (codes "HAMSTERCAM_METRICS_ADDR")
          (codes "127.0.0.1:9843"))
        (resolve getenv flags (codes "--log-level") (codes "HAMSTERCAM_LOG_LEVEL") (codes "info"))
        (read_config flags)

  -- `main` up to the logger.
  unfoldable pub configure : List Bytes → Startup
  unfolding configured_by
  configure args = configured_by (parse_flags daemon_flags args [])

-- The line "startup" of the log; `now` is the text of the time.
unfoldable pub startup_line : Bytes → LogLevel → Bytes → Bytes → Bytes → Bytes → Option Bytes
startup_line now min_level version git_sha device_path metrics_addr =
    field (codes "metrics_addr") metrics_addr (
      field (codes "device") device_path (
        field (codes "git_sha") git_sha
          (field (codes "version") version (log now min_level info (codes "startup")))))

abbrev not_found : HttpResponse
not_found = record { status = 404; content_type = codes "text/plain"; body = codes "not found\n" }

-- The handler that `main` gives to the server, at an uptime and a resident size.
unfoldable pub daemon_page :
    {F : Type 0} → Double F → CaptureStats F → Bytes → Bytes → F → ℕ → Bytes → Bytes → HttpResponse
daemon_page fp stats version git_sha uptime resident method path =
    if not (bytes_eq method (codes "GET"))
    then not_found
    else if bytes_eq path (codes "/metrics")
    then record {
      status = 200;
      content_type = codes "text/plain; version=0.0.4; charset=utf-8";
      body = render_metrics fp stats version git_sha uptime resident;
    }
    else if bytes_eq path (codes "/healthz")
    then record { status = 200; content_type = codes "text/plain"; body = codes "ok\n" }
    else not_found

module _ {W : Type 0} (stop_requested : W → Bool × W) (sleep_for : ℕ → W → W) where
  -- The loop of `interruptible_sleep`, with milliseconds left.
  unfoldable pub sleep_loop : ℕ → ℕ → W → W
  sleep_loop zero remaining w = w
  sleep_loop (suc fuel) remaining w =
      let (stop, w') = stop_requested w in
      let chunk = min remaining 100 in
      let rest = sleep_loop fuel (remaining - chunk) (sleep_for chunk w') in
      if ltb 0 remaining then (if stop then w' else rest) else w

  -- Each turn sleeps a millisecond or more, or ends.
  unfoldable pub interruptible_sleep : ℕ → W → W
  interruptible_sleep total w = sleep_loop total total w

  -- The main loop for at most as many turns as the number says.
  unfoldable pub main_loop :
      {F : Type 0} → Device W → Clock W → Double F → ℕ → Machine W F → Machine W F
  main_loop dev clock fp zero m = m
  main_loop dev clock fp (suc turns) m =
      let (stop, w) = stop_requested m.world in
      let (m', wait) = step dev clock fp 200 (record m { world = w }) in
      let rest =
        main_loop dev clock fp turns (record m' { world = interruptible_sleep wait m'.world }) in
      if stop then record m { world = w } else rest

-- `main` behind its loop; the device's destructor runs when `main` returns.
unfoldable pub shut_down : {W F : Type 0} → Device W → Machine W F → Machine W F
shut_down dev m = record m { world = dev.close (dev.stop_streaming m.world) }
