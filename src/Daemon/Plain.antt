-- ===== src/Daemon/Plain.antt =====
-- `main` of src/main.cpp over the V4L2 device, with and without what watches it.
use hamstercam.Base.{[], ℕ, zero, suc, ◌-◌, ◌≡◌, refl, ap, ◌∙◌, Bool, Bytes, min, arith}
use hamstercam.Double.{Double}
use hamstercam.Device.{Device, Clock}
use hamstercam.Device.Protocol.{Monitored, monitor_clock}
use hamstercam.Machine.State.{DaemonConfig, Machine}
use hamstercam.Machine.{make, step}
use hamstercam.Machine.Mirror.{Mirrors, view, view-if}
use hamstercam.Machine.Mirror.Steps.{step-view, make-view}
use hamstercam.Machine.Watchers.{unmonitored, both-Mirrors, monitor-Mirrors}
use hamstercam.V4l2.System.{Calls}
use hamstercam.V4l2.{V4l2CaptureDevice, v4l2, destroy}
use hamstercam.V4l2
use hamstercam.V4l2.Ledger.{Watched, watch}
use hamstercam.V4l2.Leaks.{MapsNonzero}
use hamstercam.V4l2.Daemon.{device_clock, dev, raw, fresh}
use hamstercam.V4l2.Mirror.{without_ledger, kernel_clock, watch-Mirrors}
use hamstercam.Daemon.{sleep_loop, interruptible_sleep, main_loop, shut_down}
use hamstercam.Daemon.Loop.{beside, beneath}
use hamstercam.Daemon.Release.{looped, through, past, shut_down-releases}

module _ {V W : Type 0} (see : V → W) (seen_stop : V → Bool × V) (stop : W → Bool × W)
    (seen_sleep : ℕ → V → V) (sleep : ℕ → W → W)
    (stopping : (s : V) → stop (see s) ≡ ((seen_stop s).0, see (seen_stop s).1))
    (sleeping : (n : ℕ) (s : V) → sleep n (see s) ≡ see (seen_sleep n s)) where
  sleep_loop-see :
      (fuel remaining : ℕ) (s : V)
      → sleep_loop stop sleep fuel remaining (see s)
        ≡ see (sleep_loop seen_stop seen_sleep fuel remaining s)
  unfolding sleep_loop
  sleep_loop-see zero remaining s = refl
  sleep_loop-see (suc fuel) remaining s =
      let s' = (seen_stop s).1 in
      let chunk = min remaining 100 in
      ground (
        arith,
        stopping s,
        sleeping chunk s',
        sleep_loop-see fuel (remaining - chunk) (seen_sleep chunk s'),
      )

  module _ {F : Type 0} (seen : Device V) (dev' : Device W) (seen_clock : Clock V) (clock : Clock W)
      (fp : Double F) (k : Mirrors see seen dev' seen_clock clock) where
    main_loop-view :
        (turns : ℕ) (m : Machine V F)
        → main_loop stop sleep dev' clock fp turns (view see m)
          ≡ view see (main_loop seen_stop seen_sleep seen seen_clock fp turns m)
    unfolding main_loop interruptible_sleep
    main_loop-view zero m = refl
    main_loop-view (suc turns) m =
        let m1 = record m { world = (seen_stop m.world).1 } in
        let (n, wait) = step seen seen_clock fp 200 m1 in
        let n1 = record n { world = interruptible_sleep seen_stop seen_sleep wait n.world } in
        rw
          (
            stopping m.world,
            step-view see seen dev' seen_clock clock fp k 200 m1,
            sleep_loop-see wait wait n.world,
            main_loop-view turns n1,
          )
          (view-if see (seen_stop m.world).0 m1
            (main_loop seen_stop seen_sleep seen seen_clock fp turns n1))

module _ {V W F : Type 0} (see : V → W) (seen : Device V) (dev' : Device W) (seen_clock : Clock V)
    (clock : Clock W) (k : Mirrors see seen dev' seen_clock clock) where
  shut_down-view : (m : Machine V F) → shut_down dev' (view see m) ≡ view see (shut_down seen m)
  unfolding shut_down
  shut_down-view m = rw (k.stopping m.world, k.closing (seen.stop_streaming m.world)) refl

-- What the kernel's own operations are on the object over it.
abbrev pub through_kernel :
    {K : Type 0} → (K → Bool × K) → V4l2CaptureDevice K → Bool × V4l2CaptureDevice K
through_kernel f d = let (b, k) = f d.kernel in (b, record d { kernel = k })

abbrev pub past_kernel : {K : Type 0} → (ℕ → K → K) → ℕ → V4l2CaptureDevice K → V4l2CaptureDevice K
past_kernel f n d = record d { kernel = f n d.kernel }

module _ {K F : Type 0} (calls : Calls K) (clock : Clock K) (nonzero : MapsNonzero calls)
    (patience listing : ℕ) (stop : K → Bool × K) (sleep : ℕ → K → K) (fp : Double F)
    (c : DaemonConfig) (path : Bytes) (k : K) where
  -- `main` from the state machine to its last calls, over the kernel alone.
  abbrev pub main_over_kernel : ℕ → Machine (V4l2CaptureDevice K) F
  main_over_kernel turns =
      let device = v4l2 calls patience listing in
      shut_down device (
        main_loop (through_kernel stop) (past_kernel sleep) device (kernel_clock clock) fp turns
          (make device (kernel_clock clock) fp c (V4l2.make path k)))

  -- The same, watched by the ledger of descriptors and mappings and by the monitor of the calls.
  abbrev pub main_watched : ℕ → Machine (Monitored (V4l2CaptureDevice (Watched K))) F
  main_watched turns =
      shut_down (dev calls clock nonzero patience listing)
        (looped calls clock nonzero patience listing stop sleep fp c path k turns)

  main_over_kernel-view :
      (turns : ℕ)
      → main_over_kernel turns ≡ view (λ s. without_ledger (unmonitored s)) (main_watched turns)
  unfolding V4l2.make
  main_over_kernel-view turns =
      let device = v4l2 calls patience listing in
      let seen = dev calls clock nonzero patience listing in
      let clk = monitor_clock (device_clock clock) in
      let see = λ (s : Monitored (V4l2CaptureDevice (Watched K))). without_ledger (unmonitored s) in
      let m =
        both-Mirrors unmonitored without_ledger seen (raw calls clock nonzero patience listing)
          device clk (device_clock clock) (kernel_clock clock)
          (monitor-Mirrors (raw calls clock nonzero patience listing) (device_clock clock))
          (watch-Mirrors calls patience listing clock) in
      let begun = fresh calls clock nonzero patience listing path k in
      let start = make seen clk fp c begun in
      let loop =
        main_loop-view see (beside (through stop)) (through_kernel stop) (beneath (past sleep))
          (past_kernel sleep) (λ s. refl) (λ n s. refl) seen device clk (kernel_clock clock) fp m
          turns start in
      ap
        (λ n. shut_down device (
          main_loop (through_kernel stop) (past_kernel sleep) device (kernel_clock clock) fp turns
            n))
        (make-view see seen device clk (kernel_clock clock) fp m c begun)
      ∙ ap (shut_down device) loop
      ∙ shut_down-view see seen device clk (kernel_clock clock) m
          (looped calls clock nonzero patience listing stop sleep fp c path k turns)

  -- If `mmap` never maps at address 0, then whatever the kernel answers and whenever the stop flag is
  -- set, the two calls behind the main loop leave no descriptor open and nothing mapped, and the
  -- device's destructor, which runs behind them, leaves it at that: so says a ledger of all that the
  -- device acquires and releases, beside which `main` does what it does without.
  pub main-releases :
      (turns : ℕ)
      → let d = (main_watched turns).world.inner in
        let e = destroy (watch calls) patience d in
        (main_over_kernel turns ≡ view (λ s. without_ledger (unmonitored s)) (main_watched turns))
        × (d.kernel.open_fds ≡ [])
        × (d.kernel.mapped ≡ [])
        × (e.kernel.open_fds ≡ [])
        × (e.kernel.mapped ≡ [])
  main-releases turns =
      let r =
        shut_down-releases calls clock nonzero patience listing stop sleep fp c path k turns in
      (main_over_kernel-view turns, r.0, r.1, r.2, r.3)
