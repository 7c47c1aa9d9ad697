-- ===== src/Exporter/Servers.antt =====
-- The two servers of `main` of src/exporter_main.cpp: how they are started and how they end. The state of
-- the world stands in the server that was used last.
use hamstercam.Base.{ℕ, Bool, true, false, Bytes}
use hamstercam.Sockets.{Sockets}
use hamstercam.Http.Server.{HttpServer}
use hamstercam.Http.Server as Http
use hamstercam.Progress.{ProgressParser}
use hamstercam.Progress.Server.{ProgressSocketServer}
use hamstercam.Progress.Server as Progress

-- How `main` gets on: with both servers, or without, when the destructors have run, with the error of
-- the progress server if that is the one that does not start.
pub data Serving (W F : Type 0) : Type 0 where
  listening : ProgressSocketServer W F → HttpServer W → Serving W F
  cannot_listen : Bytes → W → Serving W F
  failed_to_bind : W → Serving W F

module _ {A W F : Type 0} (net : Sockets A W) where
  -- The progress server in the world as it is now.
  abbrev in_world : ProgressSocketServer W F → W → ProgressSocketServer W F
  in_world p w = record p { parser = record p.parser { world = w } }

  -- The destructors at the end of `main`, the last server first.
  unfoldable pub destroy_both : ProgressSocketServer W F → HttpServer W → W
  destroy_both p h = (Progress.destroy net (in_world p (Http.destroy net h).kernel)).parser.world

  unfoldable pub http_started : ProgressSocketServer W F → Bool × HttpServer W → Serving W F
  unfolding destroy_both
  http_started p (true, h) = listening p h
  http_started p (false, h) = failed_to_bind (destroy_both p h)

  unfoldable pub progress_started : Bytes → Bool × ProgressSocketServer W F → Serving W F
  unfolding http_started
  progress_started metrics_addr (false, p) =
      cannot_listen p.last_error (Progress.destroy net p).parser.world
  progress_started metrics_addr (true, p) =
      http_started p (Http.start net (Http.make metrics_addr p.parser.world))

  -- `main` from the servers to its threads.
  unfoldable pub start_servers : ℕ → Bytes → Bytes → ProgressParser W F → Serving W F
  unfolding progress_started
  start_servers capacity socket_path metrics_addr parser =
      progress_started metrics_addr (Progress.start net capacity (Progress.make socket_path parser))
