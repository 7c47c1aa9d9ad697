-- ===== src/Device.antt =====
-- include/hamstercam/capture_device.hpp, src/capture_device.cpp and clock.hpp: the interfaces to the
-- camera and to the clock. What a device and a clock do to the world outside is a state `W` that
-- their operations take and return.
pub mod FourCc
pub mod Protocol
pub mod Time
use hamstercam.Base.{ℕ, ◌/◌, ◌%◌, ◌&&◌, Bool, true, false, ◌==◌, List, [], ◌∷◌, Bytes}

pub record StreamFormat : Type 0 where
  pub width : ℕ
  pub height : ℕ
  pub pixel_format_fourcc : ℕ
  pub size_image : ℕ
  pub bytesperline : ℕ
  pub compressed : Bool

-- `StreamFormat{}`.
abbrev pub no_format : StreamFormat
no_format = record {
  width = 0;
  height = 0;
  pixel_format_fourcc = 0;
  size_image = 0;
  bytesperline = 0;
  compressed = true;
}

abbrev pub bool_eq : Bool → Bool → Bool
bool_eq true b = b
bool_eq false true = false
bool_eq false false = true

-- The defaulted `operator==`.
unfoldable pub format_eq : StreamFormat → StreamFormat → Bool
format_eq a b =
    a.width == b.width
    && (a.height == b.height
        && (a.pixel_format_fourcc == b.pixel_format_fourcc
            && (a.size_image == b.size_image
                && (a.bytesperline == b.bytesperline && bool_eq a.compressed b.compressed))))

-- `pixel_format_string`: the four bytes, the lowest first.
unfoldable pub pixel_format_string : StreamFormat → Bytes
pixel_format_string f =
    let c = f.pixel_format_fourcc in
    c % 256 ∷ (c / 256) % 256 ∷ (c / 65_536) % 256 ∷ (c / 16_777_216) % 256 ∷ []

pub record FrameDescriptor : Type 0 where
  pub buffer_index : ℕ
  pub bytes_used : ℕ
  pub captured_at : ℕ

pub data OpenResult : Type 0 where
  opened absent : OpenResult

-- The format that `query_format` writes to its argument comes with `known`, the only result after
-- which it is read.
pub data FormatResult : Type 0 where
  known : StreamFormat → FormatResult
  no_producer error : FormatResult

pub data StreamStartResult : Type 0 where
  started buffer_error : StreamStartResult

-- Likewise the descriptor comes with `frame`.
pub data DequeueResult : Type 0 where
  frame : FrameDescriptor → DequeueResult
  timeout device_lost error : DequeueResult

-- `ICaptureDevice`. Timeouts are milliseconds.
pub record Device (W : Type 0) : Type 0 where
  pub open_device : W → OpenResult × W
  pub close : W → W
  pub query_format : W → FormatResult × W
  pub start_streaming : ℕ → W → StreamStartResult × W
  pub stop_streaming : W → W
  pub dequeue_frame : ℕ → W → DequeueResult × W
  pub requeue_frame : ℕ → W → W

-- `Clock`. Both clocks count nanoseconds.
pub record Clock (W : Type 0) : Type 0 where
  pub steady_now : W → ℕ × W
  pub wall_now : W → ℕ × W
