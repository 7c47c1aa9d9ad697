-- ===== src/Daemon/Settings.antt =====
-- What the daemon of src/main.cpp makes of a command line that spells out its settings.
use hamstercam.Base.{
  ℕ, ◌<◌, ◌≡◌, refl, ap, ◌∙◌, Option, some, List, [], ◌∷◌, ◌++◌, Bytes, bytes_eq, codes, All, arith,
}
use hamstercam.Text.{to_string}
use hamstercam.Json.{level_string}
use hamstercam.Json.Levels.{parse_log_level-level_string}
use hamstercam.Cli.{daemon_flags, resolve, find, assign, contains, parse_u32}
use hamstercam.Cli.Flags.{Setting, joined, written, assigned, IsKnown, parse_flags-written}
use hamstercam.Cli.Values.{parse_u32-to_string, parse_duration_ms-to_string}
use hamstercam.Machine.State.{DaemonConfig}
use hamstercam.Daemon.{Setup, started, read_config, configured_by, configure}

-- The settings as flags, the numbers in decimal and the durations in milliseconds.
abbrev pub spelled : Setup → List Setting
spelled s =
    joined (codes "--device") s.device_path
    ∷ joined (codes "--metrics-addr") s.metrics_addr
    ∷ joined (codes "--expected-fps") (to_string s.config.expected_fps)
    ∷ joined (codes "--stall-multiple") (to_string s.config.stall_multiple)
    ∷ joined (codes "--buffer-count") (to_string s.config.buffer_count)
    ∷ joined (codes "--reconnect-max-backoff")
        (to_string s.config.reconnect_max_backoff ++ codes "ms")
    ∷ joined (codes "--awaiting-producer-max-backoff")
        (to_string s.config.awaiting_producer_max_backoff ++ codes "ms")
    ∷ joined (codes "--log-level") (level_string s.log_level)
    ∷ []

-- Settings that flags can spell: 32-bit numbers, and the first backoff, which no flag sets.
pub record IsSpellable (c : DaemonConfig) : Type 0 where
  pub fps : c.expected_fps < 4_294_967_296
  pub stalls : c.stall_multiple < 4_294_967_296
  pub buffers : c.buffer_count < 4_294_967_296
  pub reconnect : c.reconnect_max_backoff < 4_294_967_296
  pub awaiting : c.awaiting_producer_max_backoff < 4_294_967_296
  pub initial : c.reconnect_initial_backoff ≡ 200

number : (n : ℕ) → n < 4_294_967_296 → parse_u32 (to_string n) ≡ some n
number n h = parse_u32-to_string n (omega arith) ∙ ap some (omega arith)

spelled-IsKnown : (s : Setup) → All (IsKnown daemon_flags) (spelled s)
unfolding contains bytes_eq
spelled-IsKnown s = (
  (refl, omega arith),
  (
    (refl, omega arith),
    (
      (refl, omega arith),
      (
        (refl, omega arith),
        (
          (refl, omega arith),
          ((refl, omega arith), ((refl, omega arith), ((refl, omega arith), tt))),
        ),
      ),
    ),
  ),
)

read_config-spelled :
    (getenv : Bytes → Option Bytes) (s : Setup)
    → IsSpellable s.config
    → read_config getenv (assigned (spelled s) []) ≡ some s.config
unfolding read_config resolve find assign bytes_eq
read_config-spelled getenv s h =
    rw
      (
        number s.config.expected_fps h.fps,
        number s.config.stall_multiple h.stalls,
        number s.config.buffer_count h.buffers,
        (parse_duration_ms-to_string s.config.reconnect_max_backoff h.reconnect).0,
        (parse_duration_ms-to_string s.config.awaiting_producer_max_backoff h.awaiting).0,
      )
      (ground arith)

-- Flags that spell out settings are read back as these settings, whatever the environment holds.
pub configure-spelled :
    (getenv : Bytes → Option Bytes) (s : Setup)
    → IsSpellable s.config
    → configure getenv (written (spelled s)) ≡ started s
unfolding configure resolve find assign bytes_eq
configure-spelled getenv s h =
    rw (parse_flags-written daemon_flags (spelled s) [] (spelled-IsKnown s), configured_by)
      (rw (read_config-spelled getenv s h) (rw (parse_log_level-level_string s.log_level) refl))
