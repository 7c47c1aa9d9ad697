-- ===== src/Exporter/Ends.antt =====
-- What the servers of src/exporter_main.cpp have open when they have started, and when `main` is left.
use hamstercam.Base.{ℕ, ◌≡◌, ◌≢◌, refl, ◌∙◌, Bool, true, false, [], ◌++◌, Bytes, listed, arith}
use hamstercam.Sockets.{Sockets}
use hamstercam.Sockets.Ledger.{Watched, watch}
use hamstercam.Http.Server.{HttpServer}
use hamstercam.Http.Server as Http
use hamstercam.Http.Lifetime as HttpLife
use hamstercam.Progress.{ProgressParser}
use hamstercam.Progress.Server.{ProgressSocketServer}
use hamstercam.Progress.Server as Progress
use hamstercam.Progress.Lifetime as ProgressLife
use hamstercam.Exporter.Servers.{
  Serving, listening, cannot_listen, failed_to_bind, destroy_both, http_started, progress_started,
  start_servers,
}

-- Nothing is open, and every list of addresses is freed.
abbrev pub IsClean : {W : Type 0} → Watched W → Type 0
IsClean w = (w.open_fds ≡ []) × (w.lists ≡ 0)

module _ {A W : Type 0} (net : Sockets A W) where
  abbrev seen : Sockets A (Watched W)
  seen = watch net

  module _ {F : Type 0} where
    -- With both servers just their listening sockets are open, and the destructors close them; without,
    -- nothing is left, and a failure of the progress server has a reason.
    abbrev pub IsHeld : Serving (Watched W) F → Type 0
    IsHeld (listening p h) =
        (h.kernel.open_fds ≡ listed h.listen_fd ++ listed p.listen_fd)
        × (h.kernel.lists ≡ 0)
        × IsClean (destroy_both seen p h)
    IsHeld (cannot_listen what w) = (what ≢ []) × IsClean w
    IsHeld (failed_to_bind w) = IsClean w

    pub destroy_both-IsClean :
        (p : ProgressSocketServer (Watched W) F) (h : HttpServer (Watched W))
        → HttpLife.Owns (listed p.listen_fd) 0 h
        → IsClean (destroy_both seen p h)
    unfolding destroy_both Progress.destroy Http.destroy
    destroy_both-IsClean p h o = ground arith

    http_started-IsHeld :
        (p : ProgressSocketServer (Watched W) F) (r : Bool × HttpServer (Watched W))
        → HttpLife.Owns (listed p.listen_fd) 0 r.1
        → IsHeld (http_started seen p r)
    unfolding http_started
    http_started-IsHeld p (true, h) o = (o.fds, o.lists, destroy_both-IsClean p h o)
    http_started-IsHeld p (false, h) o = destroy_both-IsClean p h o

    progress_started-IsHeld :
        (address : Bytes) (r : Bool × ProgressSocketServer (Watched W) F)
        → ProgressLife.Starts net r
        → r.1.parser.world.lists ≡ 0
        → IsHeld (progress_started seen address r)
    unfolding progress_started Http.make Progress.destroy
    progress_started-IsHeld address (false, p) s l =
        ((s.1 refl).1, (ProgressLife.destroy-releases net p s.0, ground arith))
    progress_started-IsHeld address (true, p) s l =
        let fresh = Http.make address p.parser.world in
        http_started-IsHeld p (Http.start seen fresh)
          (HttpLife.start-Starts net (listed p.listen_fd) fresh refl
            (record { fds = s.0; lists = l })).0

    fail-lists :
        (what : Bytes) (s : ProgressSocketServer (Watched W) F)
        → (Progress.fail seen what s).1.parser.world.lists ≡ s.parser.world.lists
    unfolding Progress.fail
    fail-lists what s = ground arith

    start-lists :
        (capacity : ℕ) (s : ProgressSocketServer (Watched W) F)
        → (Progress.start seen capacity s).1.parser.world.lists ≡ s.parser.world.lists
    unfolding Progress.start Progress.socket_made Progress.path_bound Progress.listened
        Progress.fail
    start-lists capacity s = ground arith

    -- However the kernel answers, the exporter starts with just its two listening sockets open, which the
    -- destructors of the servers close in the end, or it gives up with nothing open and, if the
    -- progress server is the one that fails, with a reason; the address lists are freed in any case.
    pub start_servers-IsHeld :
        (capacity : ℕ) (path address : Bytes) (p : ProgressParser (Watched W) F)
        → IsClean p.world
        → IsHeld (start_servers seen capacity path address p)
    unfolding start_servers Progress.make
    start_servers-IsHeld capacity path address p c =
        progress_started-IsHeld address (Progress.start seen capacity (Progress.make path p))
          (ProgressLife.start-Starts net capacity (Progress.make path p) c.0)
          (start-lists capacity (Progress.make path p) ∙ c.1)
