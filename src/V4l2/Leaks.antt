-- ===== src/V4l2/Leaks.antt =====
-- What each operation of src/v4l2_capture_device.cpp does to the ledger of descriptors and mappings.
use hamstercam.Base.{
  ℕ, zero, suc, ◌+◌, ◌≡◌, ◌≢◌, refl, ap, ◌∙◌, Bool, true, false, Option, none, some, [], ◌∷◌, ◌++◌,
  All, All-append, append-nil, if_cases, listed, arith,
}
use hamstercam.Device.{OpenResult, StreamStartResult}
use hamstercam.V4l2.System.{
  Calls, Reply, done, failed, eintr, einval, eagain, enodev, eio, other, PixFormat, BufferInfo,
  Polled, expired, poll_failed, ready, Dequeued,
}
use hamstercam.V4l2.{
  MappedBuffer, V4l2CaptureDevice, xioctl, unmap_buffers, open_device, close, find_compressed,
  format_queried, query_format, buffer_queued, buffer_mapped, buffer_queried, map_buffer,
  map_buffers, stream_on, all_mapped, buffers_granted, start_streaming, stop_streaming,
  buffer_dequeued, polled, dequeue_frame, requeue_frame, opened_as,
}
use hamstercam.V4l2.Ledger.{
  Watched, watch, SameLedger, Holds, xioctl-pass, unmap_all-releases, mapping,
}

-- `mmap` without a wish for an address never maps at address 0.
abbrev pub MapsNonzero : {K : Type 0} → Calls K → Type 0
MapsNonzero {K} calls =
    (fd : Option ℕ) (length offset : ℕ) (k : K) → (calls.mmap fd length offset k).0 ≢ some 0

module _ {K : Type 0} (calls : Calls K) where
  abbrev seen : Calls (Watched K)
  seen = watch calls

  abbrev Object : Type 0
  Object = V4l2CaptureDevice (Watched K)

  -- It holds what it knows of, and no mapping.
  abbrev pub HoldsNone : V4l2CaptureDevice (Watched K) → Type 0
  HoldsNone d = Holds d × (d.buffers ≡ [])

  after-Holds :
      (d : Object) (k : Watched K)
      → Holds d
      → SameLedger d.kernel k
      → Holds (record d { kernel = k })
  after-Holds d k h s = record { fds = s.fds ∙ h.fds; maps = s.maps ∙ h.maps; real = h.real }

  pub unmap_buffers-HoldsNone : (d : Object) → Holds d → HoldsNone (unmap_buffers seen d)
  unfolding unmap_buffers
  unmap_buffers-HoldsNone d h =
      let u = unmap_all-releases calls d.buffers d.kernel h.maps h.real in
      (record { fds = u.1 ∙ h.fds; maps = u.0; real = tt }, refl)

  unmap_fd : (d : Object) → (unmap_buffers seen d).fd ≡ d.fd
  unfolding unmap_buffers
  unmap_fd d = refl

  find_compressed-SameLedger :
      (p fuel : ℕ) (fd : Option ℕ) (fourcc i : ℕ) (s : Watched K)
      → SameLedger s (find_compressed seen p fuel fd fourcc i s).1
  unfolding find_compressed
  find_compressed-SameLedger p zero fd fourcc i s = record { fds = refl; maps = refl }
  find_compressed-SameLedger p (suc fuel) fd fourcc i s =
      let s' = (xioctl p (seen.enum_fmt fd i) s).1 in
      ground (
        arith,
        xioctl-pass p (calls.enum_fmt fd i) s,
        find_compressed-SameLedger p fuel fd fourcc (i + 1) s',
      )

  -- The same descriptor and mappings, which it still holds.
  abbrev pub Stays : V4l2CaptureDevice (Watched K) → V4l2CaptureDevice (Watched K) → Type 0
  Stays d d' = Holds d' × (d'.fd ≡ d.fd) × (d'.buffers ≡ d.buffers)

  module _ (p : ℕ) where
    format_queried-Stays :
        (listing : ℕ) (r : Reply PixFormat) (d : Object)
        → Holds d
        → Stays d (format_queried seen p listing r d).1
    unfolding format_queried
    format_queried-Stays listing (done pix) d h = (
      after-Holds d (find_compressed seen p listing d.fd pix.pixelformat 0 d.kernel).1 h
          (find_compressed-SameLedger p listing d.fd pix.pixelformat 0 d.kernel),
      refl,
      refl,
    )
    format_queried-Stays listing (failed einval) d h = (h, refl, refl)
    format_queried-Stays listing (failed eintr) d h = (h, refl, refl)
    format_queried-Stays listing (failed eagain) d h = (h, refl, refl)
    format_queried-Stays listing (failed enodev) d h = (h, refl, refl)
    format_queried-Stays listing (failed eio) d h = (h, refl, refl)
    format_queried-Stays listing (failed other) d h = (h, refl, refl)

    pub query_format-Stays :
        (listing : ℕ) (d : Object) → Holds d → Stays d (query_format seen p listing d).1
    unfolding query_format
    query_format-Stays listing d h =
        let (r, k) = xioctl p (seen.g_fmt d.fd) d.kernel in
        format_queried-Stays listing r (record d { kernel = k })
          (after-Holds d k h (xioctl-pass p (calls.g_fmt d.fd) d.kernel))

    -- What the steps of `start_streaming` keep: nothing is mapped once one has failed.
    abbrev MapsOn : V4l2CaptureDevice (Watched K) → Bool × V4l2CaptureDevice (Watched K) → Type 0
    MapsOn d r = Holds r.1 × (r.1.fd ≡ d.fd) × (r.0 ≡ false → r.1.buffers ≡ [])

    buffer_queued-MapsOn :
        (r : Reply (Unit {0})) (d : Object) → Holds d → MapsOn d (buffer_queued seen p r d)
    unfolding buffer_queued
    buffer_queued-MapsOn (failed e) d h =
        let u = unmap_buffers-HoldsNone d h in (u.0, unmap_fd d, λ _. u.1)
    buffer_queued-MapsOn (done _) d h = (h, refl, λ e. cc)

    buffer_mapped-MapsOn :
        (i length : ℕ) (a : Option ℕ) (d : Object)
        → d.kernel.open_fds ≡ listed d.fd
        → d.kernel.mapped ≡ d.buffers ++ mapping length a
        → All (λ b. b.address ≢ 0) d.buffers
        → a ≢ some 0
        → MapsOn d (buffer_mapped seen p i length a d)
    unfolding buffer_mapped
    buffer_mapped-MapsOn i length none d f m r n =
        let u =
          unmap_buffers-HoldsNone d
            (record { fds = f; maps = m ∙ append-nil d.buffers; real = r }) in
        (u.0, unmap_fd d, λ _. u.1)
    buffer_mapped-MapsOn i length (some a) d f m r n =
        let b : MappedBuffer = record { address = a; length = length } in
        let s = xioctl-pass p (calls.qbuf d.fd i) d.kernel in
        let (reply, k) = xioctl p (seen.qbuf d.fd i) d.kernel in
        buffer_queued-MapsOn reply (record d { kernel = k; buffers = d.buffers ++ b ∷ [] })
          (record {
            fds = s.fds ∙ f;
            maps = s.maps ∙ m;
            real = All-append (λ b. b.address ≢ 0) d.buffers (b ∷ []) r ((λ e. n (ap some e)), tt);
          })

    module _ (nonzero : MapsNonzero calls) where
      buffer_queried-MapsOn :
          (i : ℕ) (r : Reply BufferInfo) (d : Object)
          → Holds d
          → MapsOn d (buffer_queried seen p i r d)
      unfolding buffer_queried
      buffer_queried-MapsOn i (failed e) d h =
          let u = unmap_buffers-HoldsNone d h in (u.0, unmap_fd d, λ _. u.1)
      buffer_queried-MapsOn i (done info) d h =
          let (a, k) = seen.mmap d.fd info.length info.offset d.kernel in
          buffer_mapped-MapsOn i info.length a (record d { kernel = k }) h.fds
            (ap (λ ms. ms ++ mapping info.length a) h.maps) h.real
            (nonzero d.fd info.length info.offset d.kernel.inner)

      map_buffer-MapsOn : (i : ℕ) (d : Object) → Holds d → MapsOn d (map_buffer seen p i d)
      unfolding map_buffer
      map_buffer-MapsOn i d h =
          let (r, k) = xioctl p (seen.querybuf d.fd i) d.kernel in
          buffer_queried-MapsOn i r (record d { kernel = k })
            (after-Holds d k h (xioctl-pass p (calls.querybuf d.fd i) d.kernel))

      map_buffers-MapsOn : (n i : ℕ) (d : Object) → Holds d → MapsOn d (map_buffers seen p n i d)
      unfolding map_buffers
      map_buffers-MapsOn zero i d h = (h, refl, λ e. cc)
      map_buffers-MapsOn (suc n) i d h =
          ground
            (arith, map_buffer-MapsOn i d h, map_buffers-MapsOn n (i + 1) (map_buffer seen p i d).1)

      -- Started, or nothing mapped.
      abbrev StartsOn :
          V4l2CaptureDevice (Watched K) → StreamStartResult × V4l2CaptureDevice (Watched K) → Type 0
      StartsOn d r =
          Holds r.1 × (r.1.fd ≡ d.fd) × (r.0 ≡ StreamStartResult.buffer_error → r.1.buffers ≡ [])

      stream_on-StartsOn :
          (r : Reply (Unit {0})) (d : Object) → Holds d → StartsOn d (stream_on seen p r d)
      unfolding stream_on
      stream_on-StartsOn (failed e) d h =
          let u = unmap_buffers-HoldsNone d h in (u.0, unmap_fd d, λ _. u.1)
      stream_on-StartsOn (done _) d h =
          (record { fds = h.fds; maps = h.maps; real = h.real }, refl, λ e. cc)

      all_mapped-StartsOn :
          (ok : Bool) (d : Object)
          → Holds d
          → (ok ≡ false → d.buffers ≡ [])
          → StartsOn d (all_mapped seen p ok d)
      unfolding all_mapped
      all_mapped-StartsOn false d h e = (h, refl, λ _. e refl)
      all_mapped-StartsOn true d h e =
          let (r, k) = xioctl p (seen.streamon d.fd) d.kernel in
          stream_on-StartsOn r (record d { kernel = k })
            (after-Holds d k h (xioctl-pass p (calls.streamon d.fd) d.kernel))

      buffers_granted-StartsOn :
          (r : Reply ℕ) (d : Object) → HoldsNone d → StartsOn d (buffers_granted seen p r d)
      unfolding buffers_granted
      buffers_granted-StartsOn (failed e) d h = (h.0, refl, λ _. h.1)
      buffers_granted-StartsOn (done count) d h =
          let cleared = record d { buffers = [] } in
          let m =
            map_buffers-MapsOn count 0 cleared
              (record { fds = h.0.fds; maps = h.0.maps ∙ h.1; real = tt }) in
          let (ok, d') = map_buffers seen p count 0 cleared in
          let a = all_mapped-StartsOn ok d' m.0 m.2 in (a.0, a.1 ∙ m.1, a.2)

      pub start_streaming-StartsOn :
          (n : ℕ) (d : Object) → HoldsNone d → StartsOn d (start_streaming seen p n d)
      unfolding start_streaming
      start_streaming-StartsOn n d h =
          let (r, k) = xioctl p (seen.reqbufs d.fd n) d.kernel in
          buffers_granted-StartsOn r (record d { kernel = k })
            (after-Holds d k h.0 (xioctl-pass p (calls.reqbufs d.fd n) d.kernel), h.1)

    pub stop_streaming-HoldsNone :
        (d : Object)
        → Holds d
        → HoldsNone (stop_streaming seen p d) × ((stop_streaming seen p d).fd ≡ d.fd)
    unfolding stop_streaming
    stop_streaming-HoldsNone d h =
        let off = record d {
          kernel = (xioctl p (seen.streamoff d.fd) d.kernel).1;
          streaming = false;
        } in
        let s = xioctl-pass p (calls.streamoff d.fd) d.kernel in
        if_cases (λ d'. HoldsNone (unmap_buffers seen d') × ((unmap_buffers seen d').fd ≡ d.fd))
          d.streaming off d
          (λ _. (
            unmap_buffers-HoldsNone off
                (record { fds = s.fds ∙ h.fds; maps = s.maps ∙ h.maps; real = h.real }),
            unmap_fd off,
          ))
          (λ _. (unmap_buffers-HoldsNone d h, unmap_fd d))

    buffer_dequeued-Stays :
        (r : Reply Dequeued) (d : Object) → Holds d → Stays d (buffer_dequeued seen p r d).1
    unfolding buffer_dequeued
    buffer_dequeued-Stays (failed e) d h = (h, refl, refl)
    buffer_dequeued-Stays (done buf) d h =
        (record { fds = h.fds; maps = h.maps; real = h.real }, refl, refl)

    polled-Stays : (r : Polled) (d : Object) → Holds d → Stays d (polled seen p r d).1
    unfolding polled
    polled-Stays expired d h = (h, refl, refl)
    polled-Stays (poll_failed eintr) d h = (h, refl, refl)
    polled-Stays (poll_failed einval) d h = (h, refl, refl)
    polled-Stays (poll_failed eagain) d h = (h, refl, refl)
    polled-Stays (poll_failed enodev) d h = (h, refl, refl)
    polled-Stays (poll_failed eio) d h = (h, refl, refl)
    polled-Stays (poll_failed other) d h = (h, refl, refl)
    polled-Stays (ready true) d h = (h, refl, refl)
    polled-Stays (ready false) d h =
        let (r, k) = xioctl p (seen.dqbuf d.fd) d.kernel in
        buffer_dequeued-Stays r (record d { kernel = k })
          (after-Holds d k h (xioctl-pass p (calls.dqbuf d.fd) d.kernel))

    pub dequeue_frame-Stays : (t : ℕ) (d : Object) → Holds d → Stays d (dequeue_frame seen p t d).1
    unfolding dequeue_frame
    dequeue_frame-Stays t d h =
        let (r, k) = seen.poll d.fd t d.kernel in
        polled-Stays r (record d { kernel = k })
          (record { fds = h.fds; maps = h.maps; real = h.real })

    pub requeue_frame-Stays : (i : ℕ) (d : Object) → Holds d → Stays d (requeue_frame seen p i d)
    unfolding requeue_frame
    requeue_frame-Stays i d h = (
      after-Holds d (xioctl p (seen.qbuf d.fd i) d.kernel).1 h
          (xioctl-pass p (calls.qbuf d.fd i) d.kernel),
      refl,
      refl,
    )

  opened_as-absent : (fd : Option ℕ) → opened_as seen fd ≡ OpenResult.absent → fd ≡ none
  opened_as-absent none e = refl
  opened_as-absent (some fd) e = cc

  -- Opening a closed object, and closing one in whatever state.
  pub open_device-Holds :
      (d : Object)
      → Holds d
      → d.fd ≡ none
      → Holds (open_device seen d).1
        × ((open_device seen d).1.buffers ≡ d.buffers)
        × ((open_device seen d).0 ≡ OpenResult.absent → (open_device seen d).1.fd ≡ none)
  unfolding open_device
  open_device-Holds d h e =
      let (fd, k) = calls.open_path d.device_path d.kernel.inner in
      let empty : d.kernel.open_fds ≡ [] = h.fds ∙ ap listed e in
      (
        record {
          fds = ap (λ l. listed fd ++ l) empty ∙ append-nil (listed fd);
          maps = h.maps;
          real = h.real;
        },
        refl,
        opened_as-absent fd,
      )

  pub close-releases :
      (d : Object) → Holds d → HoldsNone (close seen d) × ((close seen d).fd ≡ none)
  unfolding close
  close-releases d h = ground (arith, unmap_buffers-HoldsNone d h, unmap_fd d)
