-- ===== src/Exporter.antt =====
-- src/exporter_main.cpp: the command line of the exporter, its exits and the pages that it serves. `parse_flags`
-- and `resolve` there are those of src/main.cpp (Cli), with other known flags.
pub mod Help
pub mod Servers
pub mod Ends
pub mod Scrape
pub mod Main
pub mod Leaves
use hamstercam.Base.{
  ℕ, Bool, true, false, not, ◌||◌, Option, none, some, List, [], ◌∷◌, ◌++◌, if◌then◌else◌, Bytes,
  bytes_eq, codes,
}
use hamstercam.Double.{Double}
use hamstercam.Progress.{ProducerStats}
use hamstercam.Json.{LogLevel, info, parse_log_level, log, field}
use hamstercam.Metrics.{render_exporter_metrics}
use hamstercam.Http.{HttpResponse}
use hamstercam.Cli.{
  Flags, exporter_flags, Parsed, ok, unknown_flag, requires_value, parse_flags, resolve,
}

pub record Setup : Type 0 where
  pub socket_path : Bytes
  pub metrics_addr : Bytes
  pub log_level : LogLevel

-- How `main` gets on: with the usage text and status 0, with its settings, or with a message and
-- status 1.
pub data Startup : Type 0 where
  help : Startup
  started : Setup → Startup
  unknown_name missing_value invalid_level : Bytes → Startup

-- `parse_flags` and `resolve` of this file.
unfoldable pub read_flags : List Bytes → Parsed
read_flags args = parse_flags exporter_flags args []

unfoldable pub setting : (Bytes → Option Bytes) → Flags → Bytes → Bytes → Bytes → Bytes
setting getenv flags flag_name env_name default_value =
    resolve getenv flags flag_name env_name default_value

-- The loop over the arguments before they are parsed.
unfoldable pub wants_help : List Bytes → Bool
wants_help [] = false
wants_help (arg ∷ args) =
    bytes_eq arg (codes "--help") || (bytes_eq arg (codes "-h") || wants_help args)

module _ (getenv : Bytes → Option Bytes) where
  abbrev with_level : Bytes → Bytes → Bytes → Option LogLevel → Startup
  with_level path addr text none = invalid_level text
  with_level path addr text (some level) =
      started (record { socket_path = path; metrics_addr = addr; log_level = level })

  unfoldable pub configured_by : Parsed → Startup
  configured_by (unknown_flag name) = unknown_name name
  configured_by (requires_value name) = missing_value name
  configured_by (ok flags) =
      let text =
        setting getenv flags (codes "--log-level") (codes "HAMSTERCAM_LOG_LEVEL") (codes "info") in
      with_level
        (setting getenv flags (codes "--progress-socket") (codes "HAMSTERCAM_PROGRESS_SOCKET")
          (codes "/run/hamstercam/ffmpeg-progress.sock"))
        (setting getenv flags (codes "--metrics-addr") (codes "HAMSTERCAM_METRICS_ADDR")
          (codes "127.0.0.1:9844"))
        text (parse_log_level text)

  -- `main` up to the logger.
  unfoldable pub configure : List Bytes → Startup
  unfolding configured_by
  configure args = if wants_help args then help else configured_by (read_flags args)

-- `print_usage`.
unfoldable pub usage : Bytes
usage =
    codes "hamstercam-exporter -- exposes an ffmpeg producer's progress as Prometheus metrics.\n"
    ++ (codes "\n"
        ++ (codes
              "ffmpeg writes progress to a unix socket; this listens on that socket and serves\n"
            ++ (codes
                  "what it reports over HTTP. Point ffmpeg at it with -progress unix://<path>.\n"
                ++ (codes "\n"
                    ++ (codes "  --progress-socket PATH   socket to listen on\n"
                        ++ (codes
                              "                           (default /run/hamstercam/ffmpeg-progress.sock)\n"
                            ++ (codes
                                  "  --metrics-addr HOST:PORT where to serve /metrics (default 127.0.0.1:9844)\n"
                                ++ (codes
                                      "  --log-level LEVEL        debug, info, warn, or error (default info)\n"
                                    ++ (codes "  --help                   this text\n"
                                        ++ (codes "\n"
                                            ++ (codes
                                                  "Every flag can also be set by environment variable:\n"
                                                ++ (codes
                                                      "HAMSTERCAM_PROGRESS_SOCKET, HAMSTERCAM_METRICS_ADDR, HAMSTERCAM_LOG_LEVEL.\n"
                                                    ++ (codes
                                                        "A flag wins over the matching variable.\n")))))))))))))

-- The exit status, and what is written to the standard output and to the standard error.
pub record Exit : Type 0 where
  pub status : ℕ
  pub out : Bytes
  pub err : Bytes

unfoldable pub unknown_flag_text : Bytes → Bytes
unknown_flag_text name = codes "unknown flag: " ++ (name ++ (codes "\n\n" ++ usage))

unfoldable pub requires_value_text : Bytes → Bytes
requires_value_text name = codes "flag " ++ (name ++ codes " requires a value\n")

unfoldable pub invalid_level_text : Bytes → Bytes
invalid_level_text text = codes "invalid --log-level: " ++ (text ++ codes "\n")

-- The exit of a start that goes no further; one that goes on has written nothing yet.
unfoldable pub exit_of : Startup → Exit
exit_of help = record { status = 0; out = usage; err = [] }
exit_of (started s) = record { status = 0; out = []; err = [] }
exit_of (unknown_name name) = record { status = 1; out = []; err = unknown_flag_text name }
exit_of (missing_value name) = record { status = 1; out = []; err = requires_value_text name }
exit_of (invalid_level text) = record { status = 1; out = []; err = invalid_level_text text }

-- The line "startup" of the log; `now` is the text of the time.
unfoldable pub startup_line : Bytes → LogLevel → Bytes → Bytes → Option Bytes
startup_line now min_level socket_path metrics_addr =
    field (codes "metrics_addr") metrics_addr
      (field (codes "progress_socket") socket_path (log now min_level info (codes "startup")))

abbrev not_found : HttpResponse
not_found = record { status = 404; content_type = codes "text/plain"; body = codes "not found\n" }

-- The handler that `main` gives to the HTTP server.
unfoldable pub exporter_page :
    {F : Type 0} → Double F → ProducerStats F → Bytes → Bytes → HttpResponse
exporter_page fp stats method path =
    if not (bytes_eq method (codes "GET"))
    then not_found
    else if bytes_eq path (codes "/metrics")
    then record {
      status = 200;
      content_type = codes "text/plain; version=0.0.4; charset=utf-8";
      body = render_exporter_metrics fp stats;
    }
    else not_found
