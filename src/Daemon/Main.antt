-- ===== src/Daemon/Main.antt =====
-- The whole of `main` of src/main.cpp but for its signal handlers and the thread of its HTTP server.
use hamstercam.Base.{ℕ, suc, Bool, true, false, Option, List, [], ◌∷◌, ◌++◌, Bytes, codes}
use hamstercam.Double.{Double}
use hamstercam.Device.{Clock}
use hamstercam.Event.{Event}
use hamstercam.Json.{JsonLogger, info, log, finish, emit}
use hamstercam.Machine.State.{Machine}
use hamstercam.Machine.{make}
use hamstercam.Sockets.{Sockets}
use hamstercam.Http.Server.{HttpServer}
use hamstercam.Http.Server as Http
use hamstercam.V4l2.System.{Calls}
use hamstercam.V4l2.{V4l2CaptureDevice, v4l2}
use hamstercam.V4l2
use hamstercam.V4l2.Mirror.{kernel_clock}
use hamstercam.Daemon.{
  Setup, Startup, started, unknown_name, missing_value, invalid_value, invalid_level, configure,
  startup_line, main_loop, shut_down,
}
use hamstercam.Daemon.Plain.{through_kernel, past_kernel}

-- How `main` ends: its exit status, the standard output and the standard error, and the kernel.
pub record Ended (K : Type 0) : Type 0 where
  pub status : ℕ
  pub out : Bytes
  pub err : Bytes
  pub kernel : K

-- What is printed for a start that fails.
unfoldable pub complaint : Startup → Bytes
complaint (started s) = []
complaint (unknown_name name) = codes "unknown flag: " ++ (name ++ codes "\n")
complaint (missing_value name) = codes "flag " ++ (name ++ codes " requires a value\n")
complaint invalid_value = codes "invalid flag value\n"
complaint (invalid_level text) = codes "invalid --log-level: " ++ (text ++ codes "\n")

unfoldable pub bind_complaint : Bytes → Bytes
bind_complaint address = codes "failed to bind metrics address: " ++ (address ++ codes "\n")

-- The events, the last one first, as the sink has written them, the times being those from `i` on in
-- the opposite order.
unfoldable pub events_logged : (ℕ → Bytes) → ℕ → List Event → JsonLogger → JsonLogger
events_logged now i [] logger = logger
events_logged now i (e ∷ es) logger = emit (now i) (events_logged now (suc i) es logger) e

-- A line with no fields.
unfoldable pub plain_line : Bytes → Bytes → JsonLogger → JsonLogger
plain_line now event logger = record logger {
  out = finish logger.out (log now logger.min_level info event);
}

module _ {A K F : Type 0} (calls : Calls K) (clock : Clock K) (net : Sockets A K)
    (patience listing : ℕ) (stop : K → Bool × K) (sleep : ℕ → K → K) (fp : Double F)
    (now : ℕ → Bytes) where
  abbrev Daemon : Type 0
  Daemon = Machine (V4l2CaptureDevice K) F

  abbrev over : Daemon → K → Daemon
  over m k = record m { world = record m.world { kernel = k } }

  -- The destructors of the server and, behind it, of the device.
  unfoldable pub destroy_all : HttpServer K → Daemon → K
  destroy_all h m =
      (V4l2.destroy calls patience (record m.world {
        kernel = (Http.destroy net (record h { kernel = m.world.kernel })).kernel;
      })).kernel

  -- Behind `server.start()`, with the text that was written so far.
  unfoldable pub server_started : Bytes → ℕ → JsonLogger → Daemon → Bool × HttpServer K → Ended K
  unfolding destroy_all
  server_started address turns logger m (false, h) = record {
    status = 1;
    out = logger.out;
    err = bind_complaint address;
    kernel = destroy_all h (over m h.kernel);
  }
  server_started address turns logger m (true, h) =
      let device = v4l2 calls patience listing in
      let done = shut_down device (
        main_loop (through_kernel stop) (past_kernel sleep) device (kernel_clock clock) fp turns
          (over m h.kernel)) in
      record {
        status = 0;
        out = (plain_line (now 1) (codes "shutdown") (events_logged now 2 done.events logger)).out;
        err = [];
        kernel = destroy_all h done;
      }

  -- From the logger on.
  unfoldable pub run_setup : Bytes → Bytes → ℕ → Setup → K → Ended K
  unfolding server_started
  run_setup version git_sha turns s k =
      let logger : JsonLogger = record {
        out =
            finish []
              (startup_line (now 0) s.log_level version git_sha s.device_path s.metrics_addr);
        min_level = s.log_level;
      } in
      let device = v4l2 calls patience listing in
      let m = make device (kernel_clock clock) fp s.config (V4l2.make s.device_path k) in
      let (start_time, k') = clock.steady_now m.world.kernel in
      server_started s.metrics_addr turns logger m (Http.start net (Http.make s.metrics_addr k'))

  -- Behind the command line.
  unfoldable pub started_as : Bytes → Bytes → ℕ → Startup → K → Ended K
  unfolding run_setup
  started_as version git_sha turns (started s) k = run_setup version git_sha turns s k
  started_as version git_sha turns r k = record {
    status = 1;
    out = [];
    err = complaint r;
    kernel = k;
  }

  -- `main`, whose loop takes at most as many turns as the number says.
  unfoldable pub run_main : (Bytes → Option Bytes) → Bytes → Bytes → ℕ → List Bytes → K → Ended K
  unfolding started_as
  run_main getenv version git_sha turns args k =
      started_as version git_sha turns (configure getenv args) k
