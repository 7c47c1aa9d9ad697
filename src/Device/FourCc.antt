-- ===== src/Device/FourCc.antt =====
-- The equality of formats (include/hamstercam/capture_device.hpp) and the four-character code
-- (src/capture_device.cpp).
use hamstercam.Base.{ℕ, ◌+◌, ◌*◌, ◌<◌, ◌≡◌, ◌↔◌, true, [], ◌∷◌, Bytes, length, All, arith}
use hamstercam.Device.{StreamFormat, format_eq, pixel_format_string}

-- The comparison of formats decides their equality, field by field.
pub format_eq_iff : (a b : StreamFormat) → (format_eq a b ≡ true) ↔ (a ≡ b)
unfolding format_eq
format_eq_iff a b = ground arith

-- `v4l2_fourcc`: the code of four characters, the first one in the lowest byte.
abbrev pub fourcc : Bytes → ℕ
fourcc [] = 0
fourcc (c ∷ cs) = c + 256 * fourcc cs

-- The text of a 32-bit pixel format has four bytes and packs to the code that it came from.
pub fourcc-pixel_format_string :
    (f : StreamFormat)
    → f.pixel_format_fourcc < 4_294_967_296
    → (fourcc (pixel_format_string f) ≡ f.pixel_format_fourcc)
      × (length (pixel_format_string f) ≡ 4)
      × All (λ c. c < 256) (pixel_format_string f)
unfolding pixel_format_string
fourcc-pixel_format_string f h = omega arith
