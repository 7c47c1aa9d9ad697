-- ===== src/V4l2/Mirror.antt =====
-- The device of src/v4l2_capture_device.cpp does the same whether or not a ledger stands beside its kernel.
use hamstercam.Base.{
  ℕ, zero, suc, ◌+◌, ◌≡◌, refl, Bool, true, false, Option, none, some, List, [], ◌∷◌, ◌++◌, arith,
}
use hamstercam.Device.{Clock}
use hamstercam.Machine.Mirror.{Mirrors}
use hamstercam.V4l2.System.{
  eintr, einval, eagain, enodev, eio, other, Reply, done, failed, PixFormat, BufferInfo, Dequeued,
  Polled, expired, poll_failed, ready, Calls,
}
use hamstercam.V4l2.{
  MappedBuffer, V4l2CaptureDevice, xioctl, unmap_all, unmap_buffers, open_device, close,
  find_compressed, format_queried, query_format, buffer_queued, buffer_mapped, buffer_queried,
  map_buffer, map_buffers, stream_on, all_mapped, buffers_granted, start_streaming, stop_streaming,
  buffer_dequeued, polled, dequeue_frame, requeue_frame, v4l2,
}
use hamstercam.V4l2.Ledger.{Watched, watch, pass}
use hamstercam.V4l2.Daemon.{device_clock}

-- The object without the ledger.
abbrev pub without_ledger : {K : Type 0} → V4l2CaptureDevice (Watched K) → V4l2CaptureDevice K
without_ledger d = record {
  kernel = d.kernel.inner;
  device_path = d.device_path;
  fd = d.fd;
  buffers = d.buffers;
  streaming = d.streaming;
}

-- The clocks of the kernel, read beside the object.
abbrev pub kernel_clock : {K : Type 0} → Clock K → Clock (V4l2CaptureDevice K)
kernel_clock clock = record {
  steady_now = λ d. let (t, k) = clock.steady_now d.kernel in (t, record d { kernel = k });
  wall_now = λ d. let (t, k) = clock.wall_now d.kernel in (t, record d { kernel = k });
}

abbrev inner_of : {K A : Type 0} → A × Watched K → A × K
inner_of (a, s) = (a, s.inner)

abbrev beside_of : {K A : Type 0} → A × V4l2CaptureDevice (Watched K) → A × V4l2CaptureDevice K
beside_of (a, d) = (a, without_ledger d)

xioctl-inner :
    {K A : Type 0} (n : ℕ) (call : K → Reply A × K) (s : Watched K)
    → xioctl n call s.inner ≡ inner_of (xioctl n (pass call) s)
unfolding xioctl
xioctl-inner zero call s = refl
xioctl-inner (suc n) call s =
    ground (arith, xioctl-inner n call (record s { inner = (call s.inner).1 }))

module _ {K : Type 0} (calls : Calls K) where
  unmap_all-inner :
      (bs : List MappedBuffer) (s : Watched K)
      → unmap_all calls bs s.inner ≡ (unmap_all (watch calls) bs s).inner
  unfolding unmap_all
  unmap_all-inner [] s = refl
  unmap_all-inner (b ∷ bs) s =
      ground (
        arith,
        unmap_all-inner bs s,
        unmap_all-inner bs ((watch calls).munmap b.address b.length s),
      )

  abbrev Object : Type 0
  Object = V4l2CaptureDevice (Watched K)

  unmap_buffers-see :
      (d : Object)
      → unmap_buffers calls (without_ledger d) ≡ without_ledger (unmap_buffers (watch calls) d)
  unfolding unmap_buffers
  unmap_buffers-see d = rw (unmap_all-inner d.buffers d.kernel) refl

  open_device-see :
      (d : Object) → open_device calls (without_ledger d) ≡ beside_of (open_device (watch calls) d)
  unfolding open_device
  open_device-see d = refl

  close-see : (d : Object) → close calls (without_ledger d) ≡ without_ledger (close (watch calls) d)
  unfolding close
  close-see d = ground (arith, unmap_all-inner d.buffers d.kernel)

  module _ (patience : ℕ) where
    find_compressed-inner :
        (fuel : ℕ) (fd : Option ℕ) (fourcc index : ℕ) (s : Watched K)
        → find_compressed calls patience fuel fd fourcc index s.inner
          ≡ inner_of (find_compressed (watch calls) patience fuel fd fourcc index s)
    unfolding find_compressed
    find_compressed-inner zero fd fourcc index s = refl
    find_compressed-inner (suc fuel) fd fourcc index s =
        let s' = (xioctl patience ((watch calls).enum_fmt fd index) s).1 in
        ground (
          arith,
          xioctl-inner patience (calls.enum_fmt fd index) s,
          find_compressed-inner fuel fd fourcc (index + 1) s',
        )

    format_queried-see :
        (listing : ℕ) (r : Reply PixFormat) (d : Object)
        → format_queried calls patience listing r (without_ledger d)
          ≡ beside_of (format_queried (watch calls) patience listing r d)
    unfolding format_queried
    format_queried-see listing (failed einval) d = refl
    format_queried-see listing (failed eintr) d = refl
    format_queried-see listing (failed eagain) d = refl
    format_queried-see listing (failed enodev) d = refl
    format_queried-see listing (failed eio) d = refl
    format_queried-see listing (failed other) d = refl
    format_queried-see listing (done pix) d =
        rw (find_compressed-inner listing d.fd pix.pixelformat 0 d.kernel) refl

    query_format-see :
        (listing : ℕ) (d : Object)
        → query_format calls patience listing (without_ledger d)
          ≡ beside_of (query_format (watch calls) patience listing d)
    unfolding query_format
    query_format-see listing d =
        let (r, k) = xioctl patience ((watch calls).g_fmt d.fd) d.kernel in
        rw (xioctl-inner patience (calls.g_fmt d.fd) d.kernel)
          (format_queried-see listing r (record d { kernel = k }))

    buffer_queued-see :
        (r : Reply (Unit {0})) (d : Object)
        → buffer_queued calls patience r (without_ledger d)
          ≡ beside_of (buffer_queued (watch calls) patience r d)
    unfolding buffer_queued
    buffer_queued-see (failed e) d = rw (unmap_buffers-see d) refl
    buffer_queued-see (done _) d = refl

    buffer_mapped-see :
        (i length : ℕ) (a : Option ℕ) (d : Object)
        → buffer_mapped calls patience i length a (without_ledger d)
          ≡ beside_of (buffer_mapped (watch calls) patience i length a d)
    unfolding buffer_mapped
    buffer_mapped-see i length none d = rw (unmap_buffers-see d) refl
    buffer_mapped-see i length (some addr) d =
        let (r, k) = xioctl patience ((watch calls).qbuf d.fd i) d.kernel in
        rw (xioctl-inner patience (calls.qbuf d.fd i) d.kernel) (
          buffer_queued-see r (record d {
            kernel = k;
            buffers = d.buffers ++ record { address = addr; length = length } ∷ [];
          }))

    buffer_queried-see :
        (i : ℕ) (r : Reply BufferInfo) (d : Object)
        → buffer_queried calls patience i r (without_ledger d)
          ≡ beside_of (buffer_queried (watch calls) patience i r d)
    unfolding buffer_queried
    buffer_queried-see i (failed e) d = rw (unmap_buffers-see d) refl
    buffer_queried-see i (done info) d =
        let (addr, k) = (watch calls).mmap d.fd info.length info.offset d.kernel in
        buffer_mapped-see i info.length addr (record d { kernel = k })

    map_buffer-see :
        (i : ℕ) (d : Object)
        → map_buffer calls patience i (without_ledger d)
          ≡ beside_of (map_buffer (watch calls) patience i d)
    unfolding map_buffer
    map_buffer-see i d =
        let (r, k) = xioctl patience ((watch calls).querybuf d.fd i) d.kernel in
        rw (xioctl-inner patience (calls.querybuf d.fd i) d.kernel)
          (buffer_queried-see i r (record d { kernel = k }))

    map_buffers-see :
        (n i : ℕ) (d : Object)
        → map_buffers calls patience n i (without_ledger d)
          ≡ beside_of (map_buffers (watch calls) patience n i d)
    unfolding map_buffers
    map_buffers-see zero i d = refl
    map_buffers-see (suc n) i d = ground (
      arith,
      map_buffer-see i d,
      map_buffers-see n (i + 1) (map_buffer (watch calls) patience i d).1,
    )

    stream_on-see :
        (r : Reply (Unit {0})) (d : Object)
        → stream_on calls patience r (without_ledger d)
          ≡ beside_of (stream_on (watch calls) patience r d)
    unfolding stream_on
    stream_on-see (failed e) d = rw (unmap_buffers-see d) refl
    stream_on-see (done _) d = refl

    all_mapped-see :
        (b : Bool) (d : Object)
        → all_mapped calls patience b (without_ledger d)
          ≡ beside_of (all_mapped (watch calls) patience b d)
    unfolding all_mapped
    all_mapped-see false d = refl
    all_mapped-see true d =
        let (r, k) = xioctl patience ((watch calls).streamon d.fd) d.kernel in
        rw (xioctl-inner patience (calls.streamon d.fd) d.kernel)
          (stream_on-see r (record d { kernel = k }))

    buffers_granted-see :
        (r : Reply ℕ) (d : Object)
        → buffers_granted calls patience r (without_ledger d)
          ≡ beside_of (buffers_granted (watch calls) patience r d)
    unfolding buffers_granted
    buffers_granted-see (failed e) d = refl
    buffers_granted-see (done n) d =
        let (b, d') = map_buffers (watch calls) patience n 0 (record d { buffers = [] }) in
        rw (map_buffers-see n 0 (record d { buffers = [] })) (all_mapped-see b d')

    start_streaming-see :
        (n : ℕ) (d : Object)
        → start_streaming calls patience n (without_ledger d)
          ≡ beside_of (start_streaming (watch calls) patience n d)
    unfolding start_streaming
    start_streaming-see n d =
        let (r, k) = xioctl patience ((watch calls).reqbufs d.fd n) d.kernel in
        rw (xioctl-inner patience (calls.reqbufs d.fd n) d.kernel)
          (buffers_granted-see r (record d { kernel = k }))

    stop_streaming-see :
        (d : Object)
        → stop_streaming calls patience (without_ledger d)
          ≡ without_ledger (stop_streaming (watch calls) patience d)
    unfolding stop_streaming
    stop_streaming-see d =
        let off = record d {
          kernel = (xioctl patience ((watch calls).streamoff d.fd) d.kernel).1;
          streaming = false;
        } in
        ground (
          arith,
          xioctl-inner patience (calls.streamoff d.fd) d.kernel,
          unmap_all-inner d.buffers d.kernel,
          unmap_all-inner d.buffers off.kernel,
        )

    buffer_dequeued-see :
        (r : Reply Dequeued) (d : Object)
        → buffer_dequeued calls patience r (without_ledger d)
          ≡ beside_of (buffer_dequeued (watch calls) patience r d)
    unfolding buffer_dequeued
    buffer_dequeued-see (failed e) d = refl
    buffer_dequeued-see (done b) d = refl

    polled-see :
        (r : Polled) (d : Object)
        → polled calls patience r (without_ledger d) ≡ beside_of (polled (watch calls) patience r d)
    unfolding polled
    polled-see expired d = refl
    polled-see (poll_failed eintr) d = refl
    polled-see (poll_failed einval) d = refl
    polled-see (poll_failed eagain) d = refl
    polled-see (poll_failed enodev) d = refl
    polled-see (poll_failed eio) d = refl
    polled-see (poll_failed other) d = refl
    polled-see (ready true) d = refl
    polled-see (ready false) d =
        let (r, k) = xioctl patience ((watch calls).dqbuf d.fd) d.kernel in
        rw (xioctl-inner patience (calls.dqbuf d.fd) d.kernel)
          (buffer_dequeued-see r (record d { kernel = k }))

    dequeue_frame-see :
        (t : ℕ) (d : Object)
        → dequeue_frame calls patience t (without_ledger d)
          ≡ beside_of (dequeue_frame (watch calls) patience t d)
    unfolding dequeue_frame
    dequeue_frame-see t d =
        let (r, k) = (watch calls).poll d.fd t d.kernel in polled-see r (record d { kernel = k })

    requeue_frame-see :
        (i : ℕ) (d : Object)
        → requeue_frame calls patience i (without_ledger d)
          ≡ without_ledger (requeue_frame (watch calls) patience i d)
    unfolding requeue_frame
    requeue_frame-see i d = rw (xioctl-inner patience (calls.qbuf d.fd i) d.kernel) refl

    -- The device with the ledger is mirrored by the device without.
    pub watch-Mirrors :
        (listing : ℕ) (clock : Clock K)
        → Mirrors without_ledger
            (v4l2 (watch calls) patience listing)
            (v4l2 calls patience listing)
            (device_clock clock)
            (kernel_clock clock)
    watch-Mirrors listing clock = record {
      opening = open_device-see;
      closing = close-see;
      querying = query_format-see listing;
      starting = start_streaming-see;
      stopping = stop_streaming-see;
      dequeuing = dequeue_frame-see;
      requeuing = requeue_frame-see;
      steady = λ d. refl;
      wall = λ d. refl;
    }
