-- ===== src/Wire.antt =====
-- rust/common/src/lib.rs: `Handshake` and `FrameMeta`, and the bytes in which rust/common/src/socket.rs
-- sends a handshake and a buffer index. `Handshake` is `repr(C)` with six `u32` fields, so that its
-- 24 bytes are theirs in order; the byte order is the machine's.
pub mod RoundTrip
use pub_sub_v4l2_dmabuf_wayl.Base.{ℕ, ◌+◌, ◌*◌, ◌/◌, ◌%◌, ◌^◌, ◌<◌, List, [], ◌∷◌, ◌++◌, get_or}

pub record Handshake : Type 0 where
  pub buf_count : ℕ
  pub width : ℕ
  pub height : ℕ
  pub format : ℕ
  pub stride : ℕ
  pub size : ℕ

pub record FrameMeta : Type 0 where
  pub width : ℕ
  pub height : ℕ
  pub format : ℕ
  pub stride : ℕ
  pub size : ℕ

pub data Endian : Type 0 where
  little big : Endian

-- `u32::to_ne_bytes`, and `u32::from_ne_bytes` of four bytes.
unfoldable pub to_ne_bytes : Endian → ℕ → List ℕ
to_ne_bytes little n = (n % 256) ∷ (n / 256 % 256) ∷ (n / 65536 % 256) ∷ (n / 16777216 % 256) ∷ []
to_ne_bytes big n = (n / 16777216 % 256) ∷ (n / 65536 % 256) ∷ (n / 256 % 256) ∷ (n % 256) ∷ []

unfoldable pub from_ne_bytes : Endian → ℕ → ℕ → ℕ → ℕ → ℕ
from_ne_bytes little a b c d = a + b * 256 + c * 65536 + d * 16777216
from_ne_bytes big a b c d = d + c * 256 + b * 65536 + a * 16777216

abbrev pub handshake_size : ℕ
handshake_size = 24

-- The struct as a slice of bytes.
unfoldable pub handshake_bytes : Endian → Handshake → List ℕ
unfolding to_ne_bytes
handshake_bytes e hs =
    to_ne_bytes e hs.buf_count
    ++ (to_ne_bytes e hs.width
        ++ (to_ne_bytes e hs.height
            ++ (to_ne_bytes e hs.format ++ (to_ne_bytes e hs.stride ++ to_ne_bytes e hs.size))))

-- The field at an offset of a struct that was zero before the bytes were written into it.
unfoldable pub u32_at : Endian → List ℕ → ℕ → ℕ
unfolding from_ne_bytes
u32_at e bytes i =
    from_ne_bytes e (get_or bytes i 0) (get_or bytes (i + 1) 0) (get_or bytes (i + 2) 0)
      (get_or bytes (i + 3) 0)

-- `Handshake::default()` after the bytes have been written into it.
unfoldable pub handshake_of : Endian → List ℕ → Handshake
unfolding u32_at
handshake_of e bytes = record {
  buf_count = u32_at e bytes 0;
  width = u32_at e bytes 4;
  height = u32_at e bytes 8;
  format = u32_at e bytes 12;
  stride = u32_at e bytes 16;
  size = u32_at e bytes 20;
}

-- `FrameMeta` as the subscriber builds it from the handshake.
unfoldable pub frame_meta : Handshake → FrameMeta
frame_meta hs = record {
  width = hs.width;
  height = hs.height;
  format = hs.format;
  stride = hs.stride;
  size = hs.size;
}
