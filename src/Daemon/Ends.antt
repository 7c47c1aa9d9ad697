-- ===== src/Daemon/Ends.antt =====
-- How `main` of src/main.cpp ends.
use hamstercam.Base.{
  ℕ, ◌≡◌, ◌≢◌, refl, ap, ◌∙◌, ◌⊎◌, inl, inr, Bool, true, false, Option, List, [], ◌++◌, Bytes,
  codes, append_assoc,
}
use hamstercam.Double.{Double}
use hamstercam.Device.{Device, Clock}
use hamstercam.Json.{JsonLogger, LogLevel, info, log, finish}
use hamstercam.Machine.State.{Machine}
use hamstercam.Machine.{make}
use hamstercam.Sockets.{Sockets}
use hamstercam.Http.Server.{HttpServer}
use hamstercam.Http.Server as Http
use hamstercam.V4l2.System.{Calls}
use hamstercam.V4l2.{V4l2CaptureDevice, v4l2}
use hamstercam.V4l2
use hamstercam.V4l2.Mirror.{kernel_clock}
use hamstercam.Daemon.{
  Setup, Startup, started, unknown_name, missing_value, invalid_value, invalid_level, configure,
  startup_line, main_loop, shut_down,
}
use hamstercam.Json.Lines.{emit_all}
use hamstercam.Machine.Resting.{make-IsResting}
use hamstercam.Machine.Log.{Logged, make-Logged}
use hamstercam.Daemon.Events.{
  finish-append, emit_all-out, emit_all-level, timed, events_logged-emit_all, IsTold, moved-IsTold,
  main_loop-IsTold,
}
use hamstercam.Daemon.Plain.{through_kernel, past_kernel}
use hamstercam.Daemon.Main.{
  Ended, complaint, bind_complaint, plain_line, server_started, run_setup, started_as, run_main,
}

module _ {A K F : Type 0} (calls : Calls K) (clock : Clock K) (net : Sockets A K)
    (patience listing : ℕ) (stop : K → Bool × K) (sleep : ℕ → K → K) (fp : Double F)
    (now : ℕ → Bytes) (version git_sha : Bytes) where
  -- The log of `main` from its first line to its last, if it serves.
  abbrev first_line : Setup → Bytes
  first_line s =
      finish [] (startup_line (now 0) s.log_level version git_sha s.device_path s.metrics_addr)

  abbrev last_line : Setup → Bytes
  last_line s = finish [] (log (now 1) s.log_level info (codes "shutdown"))

  abbrev device : Device (V4l2CaptureDevice K)
  device = v4l2 calls patience listing

  -- The state machine as it is made, and what `server.start()` then returns.
  abbrev opening : Setup → K → Machine (V4l2CaptureDevice K) F
  opening s k = make device (kernel_clock clock) fp s.config (V4l2.make s.device_path k)

  abbrev answer : Setup → K → Bool × HttpServer K
  answer s k =
      Http.start net (Http.make s.metrics_addr (clock.steady_now (opening s k).world.kernel).1)

  module _ (turns : ℕ) where
    -- The state machine behind the main loop.
    abbrev looped : K → Machine (V4l2CaptureDevice K) F → Machine (V4l2CaptureDevice K) F
    looped k m =
        main_loop (through_kernel stop) (past_kernel sleep) device (kernel_clock clock) fp turns
          (record m { world = record m.world { kernel = k } })

    -- The lines of the sink for the events of a machine.
    abbrev event_lines : Setup → Machine (V4l2CaptureDevice K) F → Bytes
    event_lines s m =
        (emit_all (record { out = []; min_level = s.log_level }) (timed now 2 m.events)).out

    -- If the server does not start, the end is status 1, the message for the address, and the first line
    -- alone. If it does, the main loop runs, and the end is status 0, no message, and the first line,
    -- the lines of the loop's events, which are a log of the grammar, and the last line.
    abbrev ServesAs :
        Setup → Machine (V4l2CaptureDevice K) F → Bool × HttpServer K → Ended K → Type 0
    ServesAs s m (up, h) e =
        ((up ≡ false)
          × (e.status ≡ 1)
          × (e.err ≡ bind_complaint s.metrics_addr)
          × (e.out ≡ first_line s))
        ⊎ ((up ≡ true)
            × (e.status ≡ 0)
            × (e.err ≡ [])
            × Logged (looped h.kernel m)
            × (e.out ≡ first_line s ++ (event_lines s (looped h.kernel m) ++ last_line s)))

    -- A start that is refused has status 1 and a message, logs nothing, and makes no call of the kernel.
    -- One that is not goes as the server's start says.
    abbrev pub EndsAs : K → Startup → Ended K → Type 0
    EndsAs k (started s) e = ServesAs s (opening s k) (answer s k) e
    EndsAs k r e = (e.status ≡ 1) × (e.err ≢ []) × (e.out ≡ []) × (e.kernel ≡ k)

    server_started-ServesAs :
        (s : Setup) (m : Machine (V4l2CaptureDevice K) F) (r : Bool × HttpServer K)
        → IsTold m
        → ServesAs s m r (
            server_started calls clock net patience listing stop sleep fp now s.metrics_addr turns
              (record { out = first_line s; min_level = s.log_level })
              m
              r)
    unfolding server_started plain_line shut_down
    server_started-ServesAs s m (false, h) t = inl (refl, refl, refl, refl)
    server_started-ServesAs s m (true, h) t =
        let over = record m { world = record m.world { kernel = h.kernel } } in
        let told =
          main_loop-IsTold device (kernel_clock clock) fp (through_kernel stop) (past_kernel sleep)
            turns over (moved-IsTold m over.world t) in
        let es = (looped h.kernel m).events in
        let begun : JsonLogger = record { out = first_line s; min_level = s.log_level } in
        let lines = timed now 2 es in
        let line = λ (l : LogLevel). finish [] (log (now 1) l info (codes "shutdown")) in
        inr (
          refl,
          refl,
          refl,
          told.1,
          ap (λ (b : JsonLogger). finish b.out (log (now 1) b.min_level info (codes "shutdown")))
                (events_logged-emit_all now 2 es begun)
              ∙ finish-append (emit_all begun lines).out
                  (log (now 1) (emit_all begun lines).min_level info (codes "shutdown"))
              ∙ ap (λ l. (emit_all begun lines).out ++ line l) (emit_all-level lines begun)
              ∙ ap (λ o. o ++ last_line s) (emit_all-out lines begun)
              ∙ append_assoc (first_line s) (event_lines s (looped h.kernel m)) (last_line s),
        )

    started_as-EndsAs :
        (r : Startup) (k : K)
        → EndsAs k r (
            started_as calls clock net patience listing stop sleep fp now version git_sha turns r k)
    unfolding started_as run_setup complaint
    started_as-EndsAs (started s) k = server_started-ServesAs s (opening s k) (answer s k) (
      make-IsResting device (kernel_clock clock) fp s.config (V4l2.make s.device_path k),
      make-Logged device (kernel_clock clock) fp s.config (V4l2.make s.device_path k),
    )
    started_as-EndsAs (unknown_name n) k = (refl, (λ e. cc), refl, refl)
    started_as-EndsAs (missing_value n) k = (refl, (λ e. cc), refl, refl)
    started_as-EndsAs invalid_value k = (refl, (λ e. cc), refl, refl)
    started_as-EndsAs (invalid_level t) k = (refl, (λ e. cc), refl, refl)

    -- Whatever its arguments, the environment and the kernel, `main` ends as its settings say: settings
    -- that are refused give status 1 and a message, with nothing logged and no call of the kernel. With
    -- others it logs the line "startup" first, if the level lets it. If then the start of its server
    -- fails, it ends with status 1 and a message for the metrics address, and logs no more; if it
    -- succeeds, `main` ends with status 0 and no message, and logs the events of its main loop, which
    -- are a log of the grammar, and the line "shutdown" last.
    pub run_main-EndsAs :
        (getenv : Bytes → Option Bytes) (args : List Bytes) (k : K)
        → EndsAs k (configure getenv args) (
            run_main calls clock net patience listing stop sleep fp now getenv version git_sha turns
              args k)
    unfolding run_main
    run_main-EndsAs getenv args k = started_as-EndsAs (configure getenv args) k
