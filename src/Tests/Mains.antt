-- ===== src/Tests/Mains.antt =====
-- `main` of the two programs over the scripted kernel of the device's tests.
use hamstercam.Base.{ℕ, ◌≡◌, refl, bytes_eq, true, none, some, Option, [], ◌∷◌, Bytes, codes}
use hamstercam.Sockets.{ok, expired, stopped, Sockets}
use hamstercam.Text.{split_at}
use hamstercam.Cli.{parse_flags, contains}
use hamstercam.Daemon.{configure}
use hamstercam.Exporter
use hamstercam.Exporter.{usage, wants_help, unknown_flag_text, exit_of}
use hamstercam.Exporter.Main.{run_exporter}
use hamstercam.Exporter.Leaves.{LeavesAs, run_watched, run_exporter-LeavesAs}
use hamstercam.Sockets.Ledger.{Watched}
use hamstercam.Daemon.Main.{complaint, run_main}
use hamstercam.Daemon.Ends.{EndsAs, run_main-EndsAs}
use hamstercam.Tests.Fake.{micro}
use hamstercam.Tests.Kernel.{Kernel, kernel, kernel_clock, start, stop_late, sleep_for}

-- One address, which can be bound.
abbrev net : Sockets ℕ Kernel
net = record {
  getaddrinfo = λ host port k. (some (1 ∷ []), k);
  freeaddrinfo = λ found k. k;
  socket_for = λ a k. (some 9, k);
  reuse_address = λ fd k. k;
  bind_address = λ fd a k. (true, k);
  unix_socket = λ k. (ok 8, k);
  unlink = λ path k. k;
  bind_path = λ fd path k. (ok tt, k);
  listen = λ fd n k. (ok tt, k);
  poll = λ fd t k. (expired, k);
  accept = λ fd k. (none, k);
  recv = λ fd n k. (stopped, k);
  send = λ fd bytes k. (none, k);
  close_fd = λ fd k. k;
  stop_requested = λ k. stop_late k;
}

abbrev nothing : Bytes → Option Bytes
nothing name = none

abbrev noon : ℕ → Bytes
noon i = codes "2026-11-26T12:00:00.000Z"

run_main-EndsAs_example :
    EndsAs kernel kernel_clock net 4 8 stop_late sleep_for micro noon
      (codes "1.0")
      (codes "abc")
      6
      start
      (configure nothing (codes "--log-level=warn" ∷ []))
      (run_main kernel kernel_clock net 4 8 stop_late sleep_for micro noon nothing
        (codes "1.0")
        (codes "abc")
        6
        (codes "--log-level=warn" ∷ [])
        start)
run_main-EndsAs_example =
    run_main-EndsAs kernel kernel_clock net 4 8 stop_late sleep_for micro noon (codes "1.0")
      (codes "abc") 6 nothing (codes "--log-level=warn" ∷ []) start

-- An unknown flag is refused before the kernel is asked for anything.
refused :
    run_main kernel kernel_clock net 4 8 stop_late sleep_for micro noon nothing
      (codes "1.0")
      (codes "abc")
      6
      (codes "--help" ∷ [])
      start
    ≡ record { status = 1; out = []; err = codes "unknown flag: --help\n"; kernel = start }
unfolding run_main configure parse_flags contains split_at bytes_eq complaint
refused = refl

-- The scripted kernel, with nothing open.
abbrev unopened : Watched Kernel
unopened = record { inner = start; open_fds = []; lists = 0 }

run_exporter-LeavesAs_example :
    LeavesAs net stop_late sleep_for micro noon 108 unopened
      (Exporter.configure nothing (codes "--log-level=warn" ∷ []))
      (run_watched net stop_late sleep_for micro noon 108 nothing 6
        (codes "--log-level=warn" ∷ [])
        unopened)
run_exporter-LeavesAs_example =
    run_exporter-LeavesAs net stop_late sleep_for micro noon 108 nothing 6
      (codes "--log-level=warn" ∷ []) unopened (refl, refl)

-- The exporter knows `--help`, whatever else is there.
helped :
    run_exporter net stop_late sleep_for micro noon 108 nothing 6
      (codes "--bogus" ∷ codes "-h" ∷ [])
      start
    ≡ (record { status = 0; out = usage; err = [] }, start)
unfolding run_exporter Exporter.configure wants_help bytes_eq exit_of
helped = refl
