-- ===== src/V4l2/Daemon.antt =====
-- The capture state machine over the device of src/v4l2_capture_device.cpp, as src/main.cpp runs it.
use hamstercam.Base.{
  ℕ, ◌≡◌, refl, ◌∙◌, subst, Bool, true, ◌&&◌, Option, none, List, [], Bytes, arith,
}
use hamstercam.Double.{Double}
use hamstercam.Device.{
  Device, Clock, OpenResult, opened, absent, FormatResult, known, no_producer, StreamStartResult,
  started, buffer_error, DequeueResult, frame, timeout, device_lost,
}
use hamstercam.Device.Protocol.{
  may_open, may_query, may_start, after_open, after_query, after_start, after_stop, after_dequeue,
  Phase, closed, idle, negotiated, flowing, holding, Monitored, monitor, monitor_clock,
}
use hamstercam.Machine.State.{DaemonConfig, Machine}
use hamstercam.Machine.{make, run}
use hamstercam.Machine.Protocol.{resting_phase, run-make-Conforms}
use hamstercam.Machine.Worlds.{Keeps, run-Good, make-Good}
use hamstercam.V4l2.System.{Calls}
use hamstercam.V4l2.{
  MappedBuffer, V4l2CaptureDevice, v4l2, open_device, close, query_format, start_streaming,
  stop_streaming, dequeue_frame, requeue_frame, destroy,
}
use hamstercam.V4l2
use hamstercam.V4l2.Ledger.{Watched, watch, pass, Holds}
use hamstercam.V4l2.Leaks.{
  MapsNonzero, query_format-Stays, start_streaming-StartsOn, stop_streaming-HoldsNone,
  dequeue_frame-Stays, requeue_frame-Stays, open_device-Holds, close-releases,
}

-- The clocks are the kernel's too.
abbrev pub device_clock : {K : Type 0} → Clock K → Clock (V4l2CaptureDevice (Watched K))
device_clock clock = record {
  steady_now = λ d. let (t, k) = pass clock.steady_now d.kernel in (t, record d { kernel = k });
  wall_now = λ d. let (t, k) = pass clock.wall_now d.kernel in (t, record d { kernel = k });
}

-- What the object can have in a phase of the contract: no descriptor while it is closed, and no
-- mapping while it does not stream.
abbrev FdFits : Phase → Option ℕ → Type 0
FdFits closed fd = fd ≡ none
FdFits _ fd = Unit

abbrev BuffersFit : Phase → List MappedBuffer → Type 0
BuffersFit flowing bs = Unit
BuffersFit (holding i) bs = Unit
BuffersFit _ bs = bs ≡ []

pub record IsTidy {K : Type 0} (p : Phase) (d : V4l2CaptureDevice (Watched K)) : Type 0 where
  pub held : Holds d
  pub fd_fits : FdFits p d.fd
  pub buffers_fit : BuffersFit p d.buffers

and_true : (a b : Bool) → (a && b) ≡ true → (a ≡ true) × (b ≡ true)
and_true a b h = ground arith

module _ {K : Type 0} (calls : Calls K) where
  abbrev Object : Type 0
  Object = V4l2CaptureDevice (Watched K)

  opened-IsTidy :
      (r : OpenResult) (d : Object)
      → Holds d
      → d.buffers ≡ []
      → (r ≡ absent → d.fd ≡ none)
      → IsTidy (after_open r) d
  opened-IsTidy opened d h b f = record { held = h; fd_fits = tt; buffers_fit = b }
  opened-IsTidy absent d h b f = record { held = h; fd_fits = f refl; buffers_fit = b }

  open_device-IsTidy :
      (p : Phase) (d : Object)
      → IsTidy p d
      → may_open p ≡ true
      → let (r, d') = open_device (watch calls) d in IsTidy (after_open r) d'
  open_device-IsTidy closed d t m =
      let (r, d') = open_device (watch calls) d in
      let o = open_device-Holds calls d t.held t.fd_fits in
      opened-IsTidy r d' o.0 (o.1 ∙ t.buffers_fit) o.2
  open_device-IsTidy idle d t m = cc
  open_device-IsTidy negotiated d t m = cc
  open_device-IsTidy flowing d t m = cc
  open_device-IsTidy (holding i) d t m = cc

  close-IsTidy : (d : Object) → Holds d → IsTidy closed (close (watch calls) d)
  close-IsTidy d h =
      let c = close-releases calls d h in
      record { held = c.0.0; fd_fits = c.1; buffers_fit = c.0.1 }

  queried-IsTidy :
      (r : FormatResult) (d : Object) → Holds d → d.buffers ≡ [] → IsTidy (after_query r) d
  queried-IsTidy (known f) d h b = record { held = h; fd_fits = tt; buffers_fit = b }
  queried-IsTidy no_producer d h b = record { held = h; fd_fits = tt; buffers_fit = b }
  queried-IsTidy FormatResult.error d h b = record { held = h; fd_fits = tt; buffers_fit = b }

  started-IsTidy :
      (r : StreamStartResult) (d : Object)
      → Holds d
      → (r ≡ buffer_error → d.buffers ≡ [])
      → IsTidy (after_start r) d
  started-IsTidy started d h b = record { held = h; fd_fits = tt; buffers_fit = tt }
  started-IsTidy buffer_error d h b = record { held = h; fd_fits = tt; buffers_fit = b refl }

  dequeued-IsTidy : (r : DequeueResult) (d : Object) → Holds d → IsTidy (after_dequeue r) d
  dequeued-IsTidy (frame f) d h = record { held = h; fd_fits = tt; buffers_fit = tt }
  dequeued-IsTidy timeout d h = record { held = h; fd_fits = tt; buffers_fit = tt }
  dequeued-IsTidy device_lost d h = record { held = h; fd_fits = tt; buffers_fit = tt }
  dequeued-IsTidy DequeueResult.error d h = record { held = h; fd_fits = tt; buffers_fit = tt }

  module _ (patience : ℕ) where
    query_format-IsTidy :
        (listing : ℕ) (p : Phase) (d : Object)
        → IsTidy p d
        → may_query p ≡ true
        → let (r, d') = query_format (watch calls) patience listing d in IsTidy (after_query r) d'
    query_format-IsTidy listing idle d t m =
        let q = query_format-Stays calls patience listing d t.held in
        queried-IsTidy _ _ q.0 (q.2 ∙ t.buffers_fit)
    query_format-IsTidy listing negotiated d t m =
        let q = query_format-Stays calls patience listing d t.held in
        queried-IsTidy _ _ q.0 (q.2 ∙ t.buffers_fit)
    query_format-IsTidy listing closed d t m = cc
    query_format-IsTidy listing flowing d t m = cc
    query_format-IsTidy listing (holding i) d t m = cc

    stop_streaming-IsTidy :
        (p : Phase) (d : Object)
        → IsTidy p d
        → IsTidy (after_stop p) (stop_streaming (watch calls) patience d)
    stop_streaming-IsTidy closed d t =
        let s = stop_streaming-HoldsNone calls patience d t.held in
        record { held = s.0.0; fd_fits = s.1 ∙ t.fd_fits; buffers_fit = s.0.1 }
    stop_streaming-IsTidy idle d t =
        let s = stop_streaming-HoldsNone calls patience d t.held in
        record { held = s.0.0; fd_fits = tt; buffers_fit = s.0.1 }
    stop_streaming-IsTidy negotiated d t =
        let s = stop_streaming-HoldsNone calls patience d t.held in
        record { held = s.0.0; fd_fits = tt; buffers_fit = s.0.1 }
    stop_streaming-IsTidy flowing d t =
        let s = stop_streaming-HoldsNone calls patience d t.held in
        record { held = s.0.0; fd_fits = tt; buffers_fit = s.0.1 }
    stop_streaming-IsTidy (holding i) d t =
        let s = stop_streaming-HoldsNone calls patience d t.held in
        record { held = s.0.0; fd_fits = tt; buffers_fit = s.0.1 }

    start_streaming-IsTidy :
        (nonzero : MapsNonzero calls) (n : ℕ) (p : Phase) (d : Object)
        → IsTidy p d
        → may_start p ≡ true
        → let (r, d') = start_streaming (watch calls) patience n d in IsTidy (after_start r) d'
    start_streaming-IsTidy nonzero n negotiated d t m =
        let q = start_streaming-StartsOn calls patience nonzero n d (t.held, t.buffers_fit) in
        started-IsTidy _ _ q.0 q.2
    start_streaming-IsTidy nonzero n idle d t m = cc
    start_streaming-IsTidy nonzero n closed d t m = cc
    start_streaming-IsTidy nonzero n flowing d t m = cc
    start_streaming-IsTidy nonzero n (holding i) d t m = cc

module _ {K : Type 0} (calls : Calls K) (clock : Clock K) (nonzero : MapsNonzero calls)
    (patience listing : ℕ) where
  abbrev pub raw : Device (V4l2CaptureDevice (Watched K))
  raw = v4l2 (watch calls) patience listing

  abbrev pub dev : Device (Monitored (V4l2CaptureDevice (Watched K)))
  dev = monitor raw

  abbrev pub TidyIfObeyed : Monitored (V4l2CaptureDevice (Watched K)) → Type 0
  TidyIfObeyed s = s.obeyed ≡ true → IsTidy s.phase s.inner

  pub dev-Keeps : Keeps dev (monitor_clock (device_clock clock)) TidyIfObeyed
  dev-Keeps = record {
    open_keeps =
        λ s h o. let (o', m) = and_true _ _ o in open_device-IsTidy calls s.phase s.inner (h o') m;
    close_keeps = λ s h o. let (o', m) = and_true _ _ o in close-IsTidy calls s.inner (h o').held;
    query_keeps = λ s h o.
        let (o', m) = and_true _ _ o in
        query_format-IsTidy calls patience listing s.phase s.inner (h o') m;
    start_keeps = λ n s h o.
        let (o', m) = and_true _ _ o in
        start_streaming-IsTidy calls patience nonzero n s.phase s.inner (h o') m;
    stop_keeps = λ s h o.
        let (o', m) = and_true _ _ o in stop_streaming-IsTidy calls patience s.phase s.inner (h o');
    dequeue_keeps = λ t s h o.
        let (o', m) = and_true _ _ o in
        dequeued-IsTidy calls _ _ (dequeue_frame-Stays calls patience t s.inner (h o').held).0;
    requeue_keeps = λ i s h o.
        let (o', m) = and_true _ _ o in
        let r = requeue_frame-Stays calls patience i s.inner (h o').held in
        record { held = r.0; fd_fits = tt; buffers_fit = tt };
    steady_keeps = λ s h o.
        let t = h o in
        record {
          held = record { fds = t.held.fds; maps = t.held.maps; real = t.held.real };
          fd_fits = t.fd_fits;
          buffers_fit = t.buffers_fit;
        };
    wall_keeps = λ s h o.
        let t = h o in
        record {
          held = record { fds = t.held.fds; maps = t.held.maps; real = t.held.real };
          fd_fits = t.fd_fits;
          buffers_fit = t.buffers_fit;
        };
  }

  -- An object just made, over a kernel from which the daemon has acquired nothing.
  abbrev pub fresh : Bytes → K → Monitored (V4l2CaptureDevice (Watched K))
  fresh path k = record {
    inner = V4l2.make path (record { inner = k; open_fds = []; mapped = [] });
    phase = closed;
    obeyed = true;
  }

  module _ {F : Type 0} (fp : Double F) (c : DaemonConfig) (path : Bytes) (k : K)
      (ts : List ℕ) where
    -- The daemon's machine after its steps.
    abbrev pub daemon : Machine (Monitored (V4l2CaptureDevice (Watched K))) F
    daemon =
        run dev (monitor_clock (device_clock clock)) fp ts
          (make dev (monitor_clock (device_clock clock)) fp c (fresh path k))

    pub fresh-IsTidy : TidyIfObeyed (fresh path k)
    unfolding V4l2.make
    fresh-IsTidy o = record {
      held = record { fds = refl; maps = refl; real = tt };
      fd_fits = refl;
      buffers_fit = refl;
    }

    -- After any run of the state machine over the V4L2 device, whatever the kernel answers, if `mmap`
    -- never maps at address 0, the descriptors and mappings that were acquired and not released are
    -- just those that the object knows of: no descriptor in `device_absent` or while recovering, and
    -- no mapping but in `streaming`.
    pub daemon-IsTidy : IsTidy (resting_phase daemon.state daemon.recovering) daemon.world.inner
    daemon-IsTidy =
        let h =
          run-make-Conforms raw (device_clock clock) fp c
            (V4l2.make path (record { inner = k; open_fds = []; mapped = [] })) ts in
        let clk = monitor_clock (device_clock clock) in
        let t =
          run-Good dev clk fp TidyIfObeyed dev-Keeps ts _
            (make-Good dev clk fp TidyIfObeyed dev-Keeps c (fresh path k) fresh-IsTidy) h.obeyed in
        subst (λ p. IsTidy p daemon.world.inner) h.phase t
