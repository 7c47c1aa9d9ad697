-- ===== src/V4l2/System.antt =====
-- The system calls that src/v4l2_capture_device.cpp makes, over the state `K` of the kernel and the
-- driver behind it. They are parameters.
use hamstercam.Base.{ℕ, Bool, Option, Bytes}

-- The values of `errno` that the code tells apart.
pub data Errno : Type 0 where
  eintr einval eagain enodev eio other : Errno

-- What an `ioctl` returns: 0 with what it wrote to its argument, or -1.
pub data Reply (A : Type 0) : Type 0 where
  done : A → Reply A
  failed : Errno → Reply A

pub record PixFormat : Type 0 where
  pub width : ℕ
  pub height : ℕ
  pub pixelformat : ℕ
  pub sizeimage : ℕ
  pub bytesperline : ℕ

-- `flags & V4L2_FMT_FLAG_COMPRESSED` is `compressed`.
pub record FormatDesc : Type 0 where
  pub pixelformat : ℕ
  pub compressed : Bool

pub record BufferInfo : Type 0 where
  pub length : ℕ
  pub offset : ℕ

pub record Dequeued : Type 0 where
  pub index : ℕ
  pub bytesused : ℕ

-- What `poll` returns: 0, -1, or 1 and whether `revents` has POLLERR, POLLHUP or POLLNVAL.
pub data Polled : Type 0 where
  expired : Polled
  poll_failed : Errno → Polled
  ready : Bool → Polled

-- A descriptor is `none` for -1, and so is an address for MAP_FAILED; a null pointer is 0.
pub record Calls (K : Type 0) : Type 0 where
  pub open_path : Bytes → K → Option ℕ × K
  pub close_fd : ℕ → K → K
  pub g_fmt : Option ℕ → K → Reply PixFormat × K
  pub enum_fmt : Option ℕ → ℕ → K → Reply FormatDesc × K
  pub reqbufs : Option ℕ → ℕ → K → Reply ℕ × K
  pub querybuf : Option ℕ → ℕ → K → Reply BufferInfo × K
  pub mmap : Option ℕ → ℕ → ℕ → K → Option ℕ × K
  pub munmap : ℕ → ℕ → K → K
  pub qbuf : Option ℕ → ℕ → K → Reply (Unit {0}) × K
  pub dqbuf : Option ℕ → K → Reply Dequeued × K
  pub streamon : Option ℕ → K → Reply (Unit {0}) × K
  pub streamoff : Option ℕ → K → Reply (Unit {0}) × K
  pub poll : Option ℕ → ℕ → K → Polled × K
  pub now : K → ℕ × K
