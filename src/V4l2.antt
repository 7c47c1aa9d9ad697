-- ===== src/V4l2.antt =====
-- src/v4l2_capture_device.cpp and its header. `patience` bounds how often an interrupted `ioctl` is
-- tried again, and `listing` how many formats are enumerated; Tries is about both.
pub mod System
pub mod Ledger
pub mod Leaks
pub mod Daemon
pub mod Tries
pub mod Mirror
use hamstercam.Base.{
  ℕ, zero, suc, ◌+◌, Bool, true, false, Option, none, some, List, [], ◌∷◌, ◌++◌, ◌==◌,
  if◌then◌else◌, Bytes,
}
use hamstercam.Device.{
  StreamFormat, FrameDescriptor, OpenResult, opened, absent, FormatResult, known, no_producer,
  StreamStartResult, started, buffer_error, DequeueResult, frame, timeout, device_lost, Device,
}
use System.{
  Errno, eintr, einval, eagain, enodev, eio, other, Reply, done, failed, PixFormat, FormatDesc,
  BufferInfo, Dequeued, Polled, expired, poll_failed, ready, Calls,
}

pub record MappedBuffer : Type 0 where
  pub address : ℕ
  pub length : ℕ

-- The object, and the kernel that it calls.
pub record V4l2CaptureDevice (K : Type 0) : Type 0 where
  pub kernel : K
  pub device_path : Bytes
  pub fd : Option ℕ
  pub buffers : List MappedBuffer
  pub streaming : Bool

-- The constructor.
unfoldable pub make : {K : Type 0} → Bytes → K → V4l2CaptureDevice K
make path k = record { kernel = k; device_path = path; fd = none; buffers = []; streaming = false }

-- The loop of `xioctl`; out of fuel, the last reply is returned.
unfoldable pub xioctl : {K A : Type 0} → ℕ → (K → Reply A × K) → K → Reply A × K
xioctl zero call k = call k
xioctl (suc fuel) call k =
    let (r, k') = call k in
    elim r [
      | failed eintr ↦ xioctl fuel call k'
      | done a ↦ (done a, k')
      | failed einval ↦ (failed einval, k')
      | failed eagain ↦ (failed eagain, k')
      | failed enodev ↦ (failed enodev, k')
      | failed eio ↦ (failed eio, k')
      | failed other ↦ (failed other, k')
    ]

-- The loop over the mappings.
unfoldable pub unmap_all : {K : Type 0} → Calls K → List MappedBuffer → K → K
unmap_all calls [] k = k
unmap_all calls (b ∷ bs) k =
    unmap_all calls bs (if b.address == 0 then k else calls.munmap b.address b.length k)

module _ {K : Type 0} (calls : Calls K) where
  -- The object after a call that it makes of the kernel.
  abbrev after : V4l2CaptureDevice K → K → V4l2CaptureDevice K
  after d k = record d { kernel = k }

  unfoldable pub unmap_buffers : V4l2CaptureDevice K → V4l2CaptureDevice K
  unfolding unmap_all
  unmap_buffers d = record d { kernel = unmap_all calls d.buffers d.kernel; buffers = [] }

  abbrev pub opened_as : Option ℕ → OpenResult
  opened_as none = absent
  opened_as (some fd) = opened

  unfoldable pub open_device : V4l2CaptureDevice K → OpenResult × V4l2CaptureDevice K
  open_device d =
      let (fd, k) = calls.open_path d.device_path d.kernel in
      (opened_as fd, record d { kernel = k; fd = fd })

  abbrev close_fd : Option ℕ → K → K
  close_fd none k = k
  close_fd (some fd) k = calls.close_fd fd k

  unfoldable pub close : V4l2CaptureDevice K → V4l2CaptureDevice K
  unfolding unmap_buffers
  close d = let d' = unmap_buffers d in record d' { kernel = close_fd d'.fd d'.kernel; fd = none }

  module _ (patience : ℕ) where
    -- The loop of `query_compressed` from `index` on; out of fuel, the formats count as exhausted.
    unfoldable pub find_compressed : ℕ → Option ℕ → ℕ → ℕ → K → Bool × K
    find_compressed zero fd fourcc index k = (true, k)
    find_compressed (suc fuel) fd fourcc index k =
        let (r, k') = xioctl patience (calls.enum_fmt fd index) k in
        elim r [
          | failed e ↦ (true, k')
          | done desc ↦
              let rest = find_compressed fuel fd fourcc (index + 1) k' in
              if desc.pixelformat == fourcc then (desc.compressed, k') else rest
        ]

    -- Behind VIDIOC_G_FMT.
    unfoldable pub format_queried :
        ℕ → Reply PixFormat → V4l2CaptureDevice K → FormatResult × V4l2CaptureDevice K
    format_queried listing (failed einval) d = (no_producer, d)
    format_queried listing (failed _) d = (FormatResult.error, d)
    format_queried listing (done pix) d =
        let (compressed, k) = find_compressed listing d.fd pix.pixelformat 0 d.kernel in
        (
          known (record {
            width = pix.width;
            height = pix.height;
            pixel_format_fourcc = pix.pixelformat;
            size_image = pix.sizeimage;
            bytesperline = pix.bytesperline;
            compressed = compressed;
          }),
          after d k,
        )

    unfoldable pub query_format : ℕ → V4l2CaptureDevice K → FormatResult × V4l2CaptureDevice K
    unfolding format_queried
    query_format listing d =
        let (r, k) = xioctl patience (calls.g_fmt d.fd) d.kernel in
        format_queried listing r (after d k)

    -- Behind VIDIOC_QBUF in `start_streaming`; `false` is `BufferError`.
    unfoldable pub buffer_queued :
        Reply (Unit {0}) → V4l2CaptureDevice K → Bool × V4l2CaptureDevice K
    buffer_queued (failed e) d = (false, unmap_buffers d)
    buffer_queued (done _) d = (true, d)

    -- Behind `mmap`.
    unfoldable pub buffer_mapped :
        ℕ → ℕ → Option ℕ → V4l2CaptureDevice K → Bool × V4l2CaptureDevice K
    unfolding buffer_queued
    buffer_mapped i length none d = (false, unmap_buffers d)
    buffer_mapped i length (some addr) d =
        let (r, k) = xioctl patience (calls.qbuf d.fd i) d.kernel in
        buffer_queued r (record d {
          kernel = k;
          buffers = d.buffers ++ record { address = addr; length = length } ∷ [];
        })

    -- Behind VIDIOC_QUERYBUF.
    unfoldable pub buffer_queried :
        ℕ → Reply BufferInfo → V4l2CaptureDevice K → Bool × V4l2CaptureDevice K
    unfolding buffer_mapped
    buffer_queried i (failed e) d = (false, unmap_buffers d)
    buffer_queried i (done info) d =
        let (addr, k) = calls.mmap d.fd info.length info.offset d.kernel in
        buffer_mapped i info.length addr (after d k)

    -- One turn of the loop, and the loop from `i` on.
    unfoldable pub map_buffer : ℕ → V4l2CaptureDevice K → Bool × V4l2CaptureDevice K
    unfolding buffer_queried
    map_buffer i d =
        let (r, k) = xioctl patience (calls.querybuf d.fd i) d.kernel in
        buffer_queried i r (after d k)

    unfoldable pub map_buffers : ℕ → ℕ → V4l2CaptureDevice K → Bool × V4l2CaptureDevice K
    map_buffers zero i d = (true, d)
    map_buffers (suc n) i d =
        let (mapped, d') = map_buffer i d in
        elim mapped [ true ↦ map_buffers n (i + 1) d' | false ↦ (false, d') ]

    -- Behind VIDIOC_STREAMON.
    unfoldable pub stream_on :
        Reply (Unit {0}) → V4l2CaptureDevice K → StreamStartResult × V4l2CaptureDevice K
    stream_on (failed e) d = (buffer_error, unmap_buffers d)
    stream_on (done _) d = (started, record d { streaming = true })

    -- Behind the loop.
    unfoldable pub all_mapped : Bool → V4l2CaptureDevice K → StreamStartResult × V4l2CaptureDevice K
    unfolding stream_on
    all_mapped false d = (buffer_error, d)
    all_mapped true d =
        let (r, k) = xioctl patience (calls.streamon d.fd) d.kernel in stream_on r (after d k)

    -- Behind VIDIOC_REQBUFS, which may grant another number of buffers.
    unfoldable pub buffers_granted :
        Reply ℕ → V4l2CaptureDevice K → StreamStartResult × V4l2CaptureDevice K
    unfolding all_mapped
    buffers_granted (failed e) d = (buffer_error, d)
    buffers_granted (done count) d =
        let (mapped, d') = map_buffers count 0 (record d { buffers = [] }) in all_mapped mapped d'

    unfoldable pub start_streaming :
        ℕ → V4l2CaptureDevice K → StreamStartResult × V4l2CaptureDevice K
    unfolding buffers_granted
    start_streaming buffer_count d =
        let (r, k) = xioctl patience (calls.reqbufs d.fd buffer_count) d.kernel in
        buffers_granted r (after d k)

    -- `if (streaming_)` in `stop_streaming`.
    abbrev stream_off : V4l2CaptureDevice K → V4l2CaptureDevice K
    stream_off d = record d {
      kernel = (xioctl patience (calls.streamoff d.fd) d.kernel).1;
      streaming = false;
    }

    unfoldable pub stop_streaming : V4l2CaptureDevice K → V4l2CaptureDevice K
    unfolding unmap_buffers
    stop_streaming d = unmap_buffers (if d.streaming then stream_off d else d)

    -- The results of VIDIOC_DQBUF but for a frame.
    abbrev dequeue_failed : Errno → DequeueResult
    dequeue_failed eagain = timeout
    dequeue_failed enodev = device_lost
    dequeue_failed eio = device_lost
    dequeue_failed _ = DequeueResult.error

    unfoldable pub buffer_dequeued :
        Reply Dequeued → V4l2CaptureDevice K → DequeueResult × V4l2CaptureDevice K
    buffer_dequeued (failed e) d = (dequeue_failed e, d)
    buffer_dequeued (done buf) d =
        let (t, k) = calls.now d.kernel in
        (
          frame (record { buffer_index = buf.index; bytes_used = buf.bytesused; captured_at = t }),
          after d k,
        )

    -- Behind `poll`.
    unfoldable pub polled : Polled → V4l2CaptureDevice K → DequeueResult × V4l2CaptureDevice K
    unfolding buffer_dequeued
    polled expired d = (timeout, d)
    polled (poll_failed eintr) d = (timeout, d)
    polled (poll_failed _) d = (DequeueResult.error, d)
    polled (ready true) d = (device_lost, d)
    polled (ready false) d =
        let (r, k) = xioctl patience (calls.dqbuf d.fd) d.kernel in buffer_dequeued r (after d k)

    unfoldable pub dequeue_frame : ℕ → V4l2CaptureDevice K → DequeueResult × V4l2CaptureDevice K
    unfolding polled
    dequeue_frame ms d = let (r, k) = calls.poll d.fd ms d.kernel in polled r (after d k)

    unfoldable pub requeue_frame : ℕ → V4l2CaptureDevice K → V4l2CaptureDevice K
    requeue_frame i d = after d (xioctl patience (calls.qbuf d.fd i) d.kernel).1

    -- The destructor.
    unfoldable pub destroy : V4l2CaptureDevice K → V4l2CaptureDevice K
    destroy d = close (stop_streaming d)

    -- The class as an implementation of the interface.
    abbrev pub v4l2 : ℕ → Device (V4l2CaptureDevice K)
    v4l2 listing = record {
      open_device = open_device;
      close = close;
      query_format = query_format listing;
      start_streaming = start_streaming;
      stop_streaming = stop_streaming;
      dequeue_frame = dequeue_frame;
      requeue_frame = requeue_frame;
    }
