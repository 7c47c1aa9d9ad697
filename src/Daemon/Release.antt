-- ===== src/Daemon/Release.antt =====
-- What `main` of src/main.cpp has open and mapped when it ends: its loop over the V4L2 device, with the
-- sleep between steps, and the calls behind it.
use hamstercam.Base.{ℕ, ◌≡◌, ap, ◌∙◌, Bool, [], Bytes, listed}
use hamstercam.Double.{Double}
use hamstercam.Device.{Clock}
use hamstercam.Device.Protocol.{Monitored, monitor_clock}
use hamstercam.Machine.State.{DaemonConfig, Machine}
use hamstercam.Machine.{make}
use hamstercam.Machine.Protocol.{make-Conforms}
use hamstercam.Machine.Worlds.{make-Good}
use hamstercam.V4l2.System.{Calls}
use hamstercam.V4l2.{V4l2CaptureDevice, stop_streaming, close, destroy}
use hamstercam.V4l2.Ledger.{Watched, watch, pass}
use hamstercam.V4l2.Leaks.{MapsNonzero, stop_streaming-HoldsNone, close-releases}
use hamstercam.V4l2.Daemon.{
  device_clock, IsTidy, TidyIfObeyed, dev, raw, dev-Keeps, fresh, fresh-IsTidy,
}
use hamstercam.Daemon.{main_loop, shut_down}
use hamstercam.Daemon.Loop.{beside, beneath, main_loop-keeps, main_loop-Conforms}

abbrev pub through :
    {K : Type 0}
    → (K → Bool × K)
    → V4l2CaptureDevice (Watched K)
    → Bool × V4l2CaptureDevice (Watched K)
through f d = let (b, k) = pass f d.kernel in (b, record d { kernel = k })

abbrev pub past :
    {K : Type 0} → (ℕ → K → K) → ℕ → V4l2CaptureDevice (Watched K) → V4l2CaptureDevice (Watched K)
past f n d = record d { kernel = record d.kernel { inner = f n d.kernel.inner } }

module _ {K F : Type 0} (calls : Calls K) (clock : Clock K) (nonzero : MapsNonzero calls)
    (patience listing : ℕ) (stop : K → Bool × K) (sleep : ℕ → K → K) (fp : Double F)
    (c : DaemonConfig) (path : Bytes) (k : K) where
  -- `main` from the state machine to the end of its loop.
  abbrev pub looped : ℕ → Machine (Monitored (V4l2CaptureDevice (Watched K))) F
  looped turns =
      main_loop (beside (through stop)) (beneath (past sleep))
        (dev calls clock nonzero patience listing) (monitor_clock (device_clock clock)) fp turns
        (make (dev calls clock nonzero patience listing) (monitor_clock (device_clock clock)) fp c
          (fresh calls clock nonzero patience listing path k))

  looped-IsTidy : (turns : ℕ) → IsTidy (looped turns).world.phase (looped turns).world.inner
  looped-IsTidy turns =
      let device = dev calls clock nonzero patience listing in
      let clk = monitor_clock (device_clock clock) in
      let P = TidyIfObeyed calls clock nonzero patience listing in
      let keeps = dev-Keeps calls clock nonzero patience listing in
      let begun = fresh calls clock nonzero patience listing path k in
      let contract =
        main_loop-Conforms (raw calls clock nonzero patience listing) (device_clock clock) fp
          (through stop) (past sleep) turns (make device clk fp c begun)
          (make-Conforms (raw calls clock nonzero patience listing) (device_clock clock) fp c
            begun.inner) in
      main_loop-keeps (beside (through stop)) (beneath (past sleep)) P
        (λ s h o.
          let t = h o in
          record {
            held = record { fds = t.held.fds; maps = t.held.maps; real = t.held.real };
            fd_fits = t.fd_fits;
            buffers_fit = t.buffers_fit;
          })
        (λ n s h o.
          let t = h o in
          record {
            held = record { fds = t.held.fds; maps = t.held.maps; real = t.held.real };
            fd_fits = t.fd_fits;
            buffers_fit = t.buffers_fit;
          })
        device clk fp keeps turns (make device clk fp c begun)
        (make-Good device clk fp P keeps c begun
          (fresh-IsTidy calls clock nonzero patience listing fp c path k []))
        contract.obeyed

  -- If `mmap` never maps at address 0, then whatever the kernel answers and whenever the stop flag is
  -- set, the two calls behind the main loop leave no descriptor open and nothing mapped, and the
  -- device's destructor, which runs behind them, leaves it at that.
  pub shut_down-releases :
      (turns : ℕ)
      → let d = (shut_down (dev calls clock nonzero patience listing) (looped turns)).world.inner in
        let e = destroy (watch calls) patience d in
        (d.kernel.open_fds ≡ [])
        × (d.kernel.mapped ≡ [])
        × (e.kernel.open_fds ≡ [])
        × (e.kernel.mapped ≡ [])
  unfolding shut_down destroy
  shut_down-releases turns =
      let d = (looped turns).world.inner in
      let s = stop_streaming-HoldsNone calls patience d (looped-IsTidy turns).held in
      let (e, n) = close-releases calls (stop_streaming (watch calls) patience d) s.0.0 in
      let closed_d = close (watch calls) (stop_streaming (watch calls) patience d) in
      let s' = stop_streaming-HoldsNone calls patience closed_d e.0 in
      let (e', n') = close-releases calls (stop_streaming (watch calls) patience closed_d) s'.0.0 in
      (e.0.fds ∙ ap listed n, e.0.maps ∙ e.1, e'.0.fds ∙ ap listed n', e'.0.maps ∙ e'.1)
