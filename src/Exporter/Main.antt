-- ===== src/Exporter/Main.antt =====
-- The whole of `main` of src/exporter_main.cpp but for its signal handlers and the threads of its servers.
use hamstercam.Base.{ℕ, zero, suc, Bool, false, Option, List, [], ◌++◌, Bytes, codes, if◌then◌else◌}
use hamstercam.Double.{Double}
use hamstercam.Json.{JsonLogger, finish}
use hamstercam.Sockets.{Sockets}
use hamstercam.Progress.{ProgressParser}
use hamstercam.Exporter.{Setup, Startup, started, Exit, configure, exit_of, startup_line}
use hamstercam.Exporter.Servers.{
  Serving, listening, cannot_listen, failed_to_bind, destroy_both, start_servers,
}
use hamstercam.Daemon.Main.{plain_line}

unfoldable pub cannot_listen_text : Bytes → Bytes → Bytes
cannot_listen_text path what =
    codes "cannot listen on progress socket " ++ (path ++ (codes "\n  " ++ (what ++ codes "\n")))

unfoldable pub bind_text : Bytes → Bytes
bind_text address = codes "failed to bind metrics address: " ++ (address ++ codes "\n")

-- A parser as it is made, on statistics as they are made.
unfoldable pub new_parser : {W F : Type 0} → Double F → W → ProgressParser W F
new_parser fp w = record {
  stats = record {
    frames_total = 0;
    fps = fp.literal 0 1;
    dropped_frames_total = 0;
    duplicated_frames_total = 0;
    speed_ratio = fp.literal 0 1;
    connected = false;
    last_update_unixtime = 0;
  };
  buffer = [];
  world = w;
}

-- The logger behind its first line; `now` is the text of the time.
unfoldable pub new_logger : Bytes → Setup → JsonLogger
new_logger now s = record {
  out = finish [] (startup_line now s.log_level s.socket_path s.metrics_addr);
  min_level = s.log_level;
}

-- `now` gives the texts of the times of the two lines of the log.
module _ {A W F : Type 0} (net : Sockets A W) (stop : W → Bool × W) (sleep : ℕ → W → W)
    (fp : Double F) (now : ℕ → Bytes) (capacity : ℕ) where
  -- The loop that waits for a signal, for at most as many turns as the number says.
  unfoldable pub wait_loop : ℕ → W → W
  wait_loop zero w = w
  wait_loop (suc turns) w =
      let (stopped, w') = stop w in
      let rest = wait_loop turns (sleep 200 w') in if stopped then w' else rest

  -- Behind the servers.
  unfoldable pub served_as : ℕ → Setup → Serving W F → Exit × W
  unfolding wait_loop
  served_as turns s (cannot_listen what w) = (
    record {
      status = 1;
      out = (new_logger (now 0) s).out;
      err = cannot_listen_text s.socket_path what;
    },
    w,
  )
  served_as turns s (failed_to_bind w) =
      (record { status = 1; out = (new_logger (now 0) s).out; err = bind_text s.metrics_addr }, w)
  served_as turns s (listening p h) = (
    record {
      status = 0;
      out = (plain_line (now 1) (codes "shutdown") (new_logger (now 0) s)).out;
      err = [];
    },
    destroy_both net p (record h { kernel = wait_loop turns h.kernel }),
  )

  -- Behind the command line.
  unfoldable pub started_as : ℕ → Startup → W → Exit × W
  unfolding served_as
  started_as turns (started s) w =
      served_as turns s (start_servers net capacity s.socket_path s.metrics_addr (new_parser fp w))
  started_as turns r w = (exit_of r, w)

  -- `main`.
  unfoldable pub run_exporter : (Bytes → Option Bytes) → ℕ → List Bytes → W → Exit × W
  unfolding started_as
  run_exporter getenv turns args w = started_as turns (configure getenv args) w
