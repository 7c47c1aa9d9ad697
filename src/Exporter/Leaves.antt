-- ===== src/Exporter/Leaves.antt =====
-- How `main` of src/exporter_main.cpp ends, and what it leaves open.
use hamstercam.Base.{
  ℕ, zero, suc, ◌≡◌, ◌≢◌, refl, ap, ◌∙◌, ◌⊎◌, inl, inr, true, false, Bool, Option, List, [], ◌++◌,
  Bytes, codes, arith,
}
use hamstercam.Double.{Double}
use hamstercam.Json.{info, log, finish}
use hamstercam.Sockets.{Sockets}
use hamstercam.Sockets.Ledger.{Watched, SameLedger, watch, pass}
use hamstercam.Http.Server.{HttpServer}
use hamstercam.Http.Server as Http
use hamstercam.Progress.Server.{ProgressSocketServer}
use hamstercam.Progress.Server as Progress
use hamstercam.Exporter.{
  Setup, Startup, Exit, help, started, unknown_name, missing_value, invalid_level, configure,
  exit_of, startup_line,
}
use hamstercam.Exporter.Servers.{http_started, progress_started, Serving, start_servers}
use hamstercam.Exporter.Ends.{IsClean, IsHeld, start_servers-IsHeld, destroy_both-IsClean}
use hamstercam.Exporter.Main.{
  cannot_listen_text, bind_text, new_parser, new_logger, wait_loop, served_as, started_as,
  run_exporter,
}
use hamstercam.Daemon.Main.{plain_line}
use hamstercam.Daemon.Events.{finish-append}

module _ {A W F : Type 0} (net : Sockets A W) (stop : W → Bool × W) (sleep : ℕ → W → W)
    (fp : Double F) (now : ℕ → Bytes) (capacity : ℕ) where
  -- The lines "startup" and "shutdown" of the log.
  abbrev first_line : Setup → Bytes
  first_line s = finish [] (startup_line (now 0) s.log_level s.socket_path s.metrics_addr)

  abbrev last_line : Setup → Bytes
  last_line s = finish [] (log (now 1) s.log_level info (codes "shutdown"))

  -- The sleep, below the ledger.
  abbrev past : ℕ → Watched W → Watched W
  past ms w = record w { inner = sleep ms w.inner }

  -- `main` in a world whose ledger is kept.
  abbrev pub run_watched : (Bytes → Option Bytes) → ℕ → List Bytes → Watched W → Exit × Watched W
  run_watched = run_exporter (watch net) (pass stop) past fp now capacity

  -- What the starts of the two servers return, the second one behind the first.
  abbrev first : Setup → Watched W → Bool × ProgressSocketServer (Watched W) F
  first s w = Progress.start (watch net) capacity (Progress.make s.socket_path (new_parser fp w))

  abbrev second : Setup → ProgressSocketServer (Watched W) F → Bool × HttpServer (Watched W)
  second s p = Http.start (watch net) (Http.make s.metrics_addr p.parser.world)

  -- With the progress server: status 1 and the address if the HTTP server does not start; else status 0,
  -- no message, and the last line.
  abbrev ServesAs : Setup → Bool × HttpServer (Watched W) → Exit → Type 0
  ServesAs s (up, h) e =
      ((up ≡ false)
        × (e ≡ record { status = 1; out = first_line s; err = bind_text s.metrics_addr }))
      ⊎ ((up ≡ true) × (e ≡ record { status = 0; out = first_line s ++ last_line s; err = [] }))

  -- Without it: status 1, the path, and the reason that the server gives.
  abbrev ListensAs : Setup → Bool × ProgressSocketServer (Watched W) F → Exit → Type 0
  ListensAs s (up, p) e =
      ((up ≡ false)
        × (p.last_error ≢ [])
        × (e ≡ record {
          status = 1;
          out = first_line s;
          err = cannot_listen_text s.socket_path p.last_error;
        }))
      ⊎ ((up ≡ true) × ServesAs s (second s p) e)

  -- A start that is refused ends as it says, and makes no call. One that is not logs its first line, and
  -- goes as the starts of the servers say.
  abbrev pub LeavesAs : Watched W → Startup → Exit × Watched W → Type 0
  LeavesAs w (started s) (e, w') = IsClean w' × ListensAs s (first s w) e
  LeavesAs w r e = e ≡ (exit_of r, w)

  wait_loop-SameLedger :
      (turns : ℕ) (w : Watched W)
      → SameLedger w (wait_loop (watch net) (pass stop) past fp now capacity turns w)
  unfolding wait_loop
  wait_loop-SameLedger zero w = record { fds = refl; lists = refl }
  wait_loop-SameLedger (suc turns) w =
      let w' = (pass stop w).1 in
      let rest = wait_loop-SameLedger turns (past 200 w') in
      record { fds = ground (arith, rest.fds); lists = ground (arith, rest.lists) }

  abbrev served : ℕ → Setup → Serving (Watched W) F → Exit × Watched W
  served = served_as (watch net) (pass stop) past fp now capacity

  http_started-ServesAs :
      (turns : ℕ) (s : Setup) (p : ProgressSocketServer (Watched W) F)
      (r : Bool × HttpServer (Watched W))
      → IsHeld net (http_started (watch net) p r)
      → let e = served turns s (http_started (watch net) p r) in IsClean e.1 × ServesAs s r e.0
  unfolding served_as new_logger plain_line http_started
  http_started-ServesAs turns s p (false, h) c = (c, inl (refl, refl))
  http_started-ServesAs turns s p (true, h) o =
      let kept = wait_loop-SameLedger turns h.kernel in
      let waited = wait_loop (watch net) (pass stop) past fp now capacity turns h.kernel in
      (
        destroy_both-IsClean net p (record h { kernel = waited })
            (record { fds = kept.fds ∙ o.0; lists = kept.lists ∙ o.1 }),
        inr (
          refl,
          ap (λ (out : Bytes). record { status = 0; out = out; err = [] })
              (finish-append (first_line s) (log (now 1) s.log_level info (codes "shutdown"))),
        ),
      )

  progress_started-ListensAs :
      (turns : ℕ) (s : Setup) (r : Bool × ProgressSocketServer (Watched W) F)
      → IsHeld net (progress_started (watch net) s.metrics_addr r)
      → let e = served turns s (progress_started (watch net) s.metrics_addr r) in
        IsClean e.1 × ListensAs s r e.0
  unfolding served_as new_logger progress_started
  progress_started-ListensAs turns s (false, p) (e, c) = (c, inl (refl, e, refl))
  progress_started-ListensAs turns s (true, p) h =
      let (c, a) = http_started-ServesAs turns s p (second s p) h in (c, inr (refl, a))

  started_as-LeavesAs :
      (turns : ℕ) (r : Startup) (w : Watched W)
      → IsClean w
      → LeavesAs w r (started_as (watch net) (pass stop) past fp now capacity turns r w)
  unfolding started_as new_parser start_servers
  started_as-LeavesAs turns (started s) w c =
      progress_started-ListensAs turns s (first s w)
        (start_servers-IsHeld net capacity s.socket_path s.metrics_addr (new_parser fp w) c)
  started_as-LeavesAs turns help w c = refl
  started_as-LeavesAs turns (unknown_name n) w c = refl
  started_as-LeavesAs turns (missing_value n) w c = refl
  started_as-LeavesAs turns (invalid_level t) w c = refl

  -- With nothing open at first, and whatever its arguments, the environment and the kernel, `main` of the
  -- exporter leaves nothing open and ends as its settings say: a start that is refused has the status
  -- and the texts of its refusal, and no call is made; one that is not logs the line "startup"
  -- first, if the level lets it. If then the start of the progress server fails, it ends with status
  -- 1 and a message with the socket's path and the reason, which is not empty; if that of the HTTP
  -- server fails, with status 1 and a message with the metrics address; and if both succeed, with
  -- status 0, no message and the line "shutdown".
  pub run_exporter-LeavesAs :
      (getenv : Bytes → Option Bytes) (turns : ℕ) (args : List Bytes) (w : Watched W)
      → IsClean w
      → LeavesAs w (configure getenv args) (run_watched getenv turns args w)
  unfolding run_exporter
  run_exporter-LeavesAs getenv turns args w c =
      started_as-LeavesAs turns (configure getenv args) w c
