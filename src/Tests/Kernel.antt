-- ===== src/Tests/Kernel.antt =====
-- The V4L2 device over a scripted kernel.
use hamstercam.Base.{
  ℕ, zero, suc, ◌+◌, ◌*◌, ◌≡◌, ◌≢◌, refl, Bool, ltb, ns_per_ms, true, false, some, List, [], ◌∷◌,
  codes, inr, arith,
}
use hamstercam.Device.{Clock, known}
use hamstercam.Device.Protocol.{Monitored}
use hamstercam.Machine.State.{Machine, default_config}
use hamstercam.Machine.Protocol.{resting_phase}
use hamstercam.V4l2.System.{Calls, Reply, done, failed, eintr, FormatDesc, Polled, expired, ready}
use hamstercam.V4l2.{
  V4l2CaptureDevice, xioctl, find_compressed, query_format, start_streaming, destroy,
}
use hamstercam.V4l2
use hamstercam.V4l2.Ledger.{Watched, watch}
use hamstercam.V4l2.Leaks.{MapsNonzero}
use hamstercam.V4l2.Daemon.{IsTidy, daemon, daemon-IsTidy}
use hamstercam.V4l2.Tries.{xioctl-Settles, entry, listed_compressed, find_compressed-listed}
use hamstercam.Machine.Mirror.{view}
use hamstercam.Machine.Watchers.{unmonitored}
use hamstercam.V4l2.Mirror.{without_ledger}
use hamstercam.Daemon.Plain.{main_over_kernel, main_watched, main-releases}
use hamstercam.Tests.Fake.{micro}

-- Each try and each reading of the clock takes a second. The tries that are still interrupted are
-- counted, and the answers of `poll` are listed.
pub record Kernel : Type 0 where
  pub now : ℕ
  pub interrupts : ℕ
  pub polls : List Polled

abbrev pub tick : Kernel → Kernel
tick k = record k { now = k.now + 1_000_000_000 }

abbrev yuyv : ℕ
yuyv = 1_448_695_129

abbrev mjpg : ℕ
mjpg = 1_196_444_237

abbrev formats : List FormatDesc
formats =
    record { pixelformat = mjpg; compressed = true }
    ∷ record { pixelformat = yuyv; compressed = false }
    ∷ []

abbrev polled_of : List Polled → Polled
polled_of [] = expired
polled_of (p ∷ ps) = p

abbrev tail_of : List Polled → List Polled
tail_of [] = []
tail_of (p ∷ ps) = ps

abbrev interrupted : {A : Type 0} → Reply A → Kernel → Reply A × Kernel
interrupted r k = elim k.interrupts [
  | zero ↦ (r, tick k)
  | suc n ↦ (failed eintr, record k { interrupts = n })
]

abbrev pub kernel : Calls Kernel
kernel = record {
  open_path = λ path k. (some 3, tick k);
  close_fd = λ fd k. k;
  g_fmt = λ fd. interrupted (
      done (record {
        width = 640;
        height = 480;
        pixelformat = yuyv;
        sizeimage = 614_400;
        bytesperline = 1280;
      }));
  enum_fmt = λ fd i k. (entry formats i, k);
  reqbufs = λ fd n k. (done n, k);
  querybuf = λ fd i k. (done (record { length = 614_400; offset = i * 614_400 }), k);
  mmap = λ fd length offset k. (some (4096 + offset), k);
  munmap = λ address length k. k;
  qbuf = λ fd i k. (done tt, k);
  dqbuf = λ fd k. (done (record { index = 0; bytesused = 614_400 }), k);
  streamon = λ fd k. (done tt, k);
  streamoff = λ fd k. (done tt, k);
  poll = λ fd t k. (polled_of k.polls, record (tick k) { polls = tail_of k.polls });
  now = λ k. (k.now, tick k);
}

abbrev pub kernel_clock : Clock Kernel
kernel_clock = record { steady_now = λ k. (k.now, tick k); wall_now = λ k. (k.now, tick k) }

kernel-MapsNonzero : MapsNonzero kernel
kernel-MapsNonzero fd length offset k e = absurd (ground arith)

abbrev pub start : Kernel
start = record {
  now = 5_000_000_000;
  interrupts = 2;
  polls = ready false ∷ expired ∷ ready true ∷ [];
}

abbrev five : List ℕ
five = 200 ∷ 200 ∷ 200 ∷ 200 ∷ 200 ∷ []

daemon-IsTidy_example :
    let m =
      daemon kernel kernel_clock kernel-MapsNonzero 4 8 micro default_config
        (codes "/dev/video0")
        start
        five in
    IsTidy (resting_phase m.state m.recovering) m.world.inner
daemon-IsTidy_example =
    daemon-IsTidy kernel kernel_clock kernel-MapsNonzero 4 8 micro default_config
      (codes "/dev/video0") start five

-- The stop flag is set after some time.
abbrev pub stop_late : Kernel → Bool × Kernel
stop_late k = (ltb 20_000_000_000 k.now, k)

abbrev pub sleep_for : ℕ → Kernel → Kernel
sleep_for n k = record k { now = k.now + n * ns_per_ms }

abbrev watched_main : Machine (Monitored (V4l2CaptureDevice (Watched Kernel))) ℕ
watched_main =
    main_watched kernel kernel_clock kernel-MapsNonzero 4 8 stop_late sleep_for micro default_config
      (codes "/dev/video0") start 6

main-releases_example :
    let e = destroy (watch kernel) 4 watched_main.world.inner in
    (main_over_kernel kernel kernel_clock kernel-MapsNonzero 4 8 stop_late sleep_for micro
        default_config
        (codes "/dev/video0")
        start
        6
      ≡ view (λ s. without_ledger (unmonitored s)) watched_main)
    × (watched_main.world.inner.kernel.open_fds ≡ [])
    × (watched_main.world.inner.kernel.mapped ≡ [])
    × (e.kernel.open_fds ≡ [])
    × (e.kernel.mapped ≡ [])
main-releases_example =
    main-releases kernel kernel_clock kernel-MapsNonzero 4 8 stop_late sleep_for micro
      default_config (codes "/dev/video0") start 6

xioctl-Settles_example :
    ((xioctl 4 (kernel.g_fmt (some 3)) start).0 ≢ failed eintr)
    × (xioctl 4 (kernel.g_fmt (some 3)) start ≡ xioctl 2 (kernel.g_fmt (some 3)) start)
xioctl-Settles_example =
    xioctl-Settles 2 4 (kernel.g_fmt (some 3)) start (omega arith) (inr (inr (λ e. cc)))

find_compressed-listed_example :
    (find_compressed kernel 4 8 (some 3) yuyv 0 start).0 ≡ listed_compressed formats yuyv
find_compressed-listed_example =
    find_compressed-listed kernel 4 (some 3) formats 8 yuyv start (omega arith) (λ j s. refl)

-- The buffers of a stream, and what the format query reads, behind two interrupts.
abbrev device : V4l2CaptureDevice (Watched Kernel)
device = record {
  kernel = record { inner = start; open_fds = 3 ∷ []; mapped = [] };
  device_path = codes "/dev/video0";
  fd = some 3;
  buffers = [];
  streaming = false;
}

two_buffers :
    (start_streaming (watch kernel) 4 2 device).1.kernel.mapped
    ≡ record { address = 4096; length = 614_400 }
      ∷ record { address = 618_496; length = 614_400 }
      ∷ []
unfolding start_streaming V4l2.map_buffers V4l2.map_buffer xioctl
two_buffers = refl

queried :
    (query_format (watch kernel) 4 8 device).0
    ≡ known (record {
      width = 640;
      height = 480;
      pixel_format_fourcc = yuyv;
      size_image = 614_400;
      bytesperline = 1280;
      compressed = false;
    })
unfolding query_format find_compressed xioctl
queried = refl
