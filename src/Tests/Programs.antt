-- ===== src/Tests/Programs.antt =====
-- The two programs' command lines, the sleep between steps and the resident size on concrete inputs.
use hamstercam.Base.{◌≡◌, refl, none, Option, [], ◌∷◌, ◌++◌, Bytes, codes, bytes_eq, arith}
use hamstercam.Json.{info, warn, parse_log_level}
use hamstercam.Machine.State.{default_config}
use hamstercam.Cli.{parse_flags, find, resolve, parse_u32, parse_duration_ms}
use hamstercam.Cli.Flags.{written}
use hamstercam.Daemon.{Setup, started, configure, interruptible_sleep}
use hamstercam.Daemon.Settings.{spelled, configure-spelled}
use hamstercam.Daemon.Sleep.{asks, sleeps, interruptible_sleep-slept}
use hamstercam.ProcessInfo.{resident_set_bytes}
use hamstercam.ProcessInfo.Status.{lines_then, rss_line, resident_set_bytes-rss_line}

abbrev nothing : Bytes → Option Bytes
nothing name = none

abbrev setup : Setup
setup = record {
  device_path = codes "/dev/video7";
  metrics_addr = codes "0.0.0.0:9000";
  log_level = warn;
  config = record default_config { expected_fps = 60; reconnect_max_backoff = 5_000 };
}

configure-spelled_example : configure nothing (written (spelled setup)) ≡ started setup
configure-spelled_example = configure-spelled nothing setup (omega arith)

-- With no flags and no environment the settings are the defaults of `DaemonConfig`.
defaults :
    configure nothing []
    ≡ started (record {
      device_path = codes "/dev/video40";
      metrics_addr = codes "127.0.0.1:9843";
      log_level = info;
      config = default_config;
    })
unfolding configure parse_flags resolve find parse_u32 parse_duration_ms parse_log_level bytes_eq
defaults = refl

interruptible_sleep-slept_example :
    (interruptible_sleep asks sleeps 450 (record { patience = 3; slept = 0 })).slept ≡ 300
interruptible_sleep-slept_example = interruptible_sleep-slept 450 3 0

resident_set_bytes-rss_line_example :
    resident_set_bytes (
      lines_then
        (codes "Name:\thamstercam" ∷ codes "VmSize:\t9000 kB" ∷ [])
        (rss_line (codes "\t  ") 1234 (codes "kB") ++ b'\n' ∷ codes "Threads:\t2\n"))
    ≡ 1_263_616
unfolding bytes_eq
resident_set_bytes-rss_line_example =
    resident_set_bytes-rss_line (codes "Name:\thamstercam" ∷ codes "VmSize:\t9000 kB" ∷ [])
      (codes "\t  ") 1234 (codes "kB") (codes "Threads:\t2\n")
      ((omega arith, refl), ((omega arith, refl), tt))
      ((refl, omega arith), ((refl, omega arith), ((refl, omega arith), tt))) (omega arith)
      (omega arith)
