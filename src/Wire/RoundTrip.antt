-- ===== src/Wire/RoundTrip.antt =====
-- rust/common/src/lib.rs and rust/common/src/socket.rs: the bytes of a handshake and of an index, read
-- back.
use pub_sub_v4l2_dmabuf_wayl.Base.{ℕ, ◌^◌, ◌<◌, ◌≡◌, refl, arith, length, take}
use pub_sub_v4l2_dmabuf_wayl.Wire.{
  Handshake, Endian, little, big, to_ne_bytes, handshake_bytes, handshake_of, u32_at,
  handshake_size,
}

-- Every field fits in 32 bits.
pub record FitsU32 (hs : Handshake) : Type 0 where
  pub buf_count : hs.buf_count < 2 ^ 32
  pub width : hs.width < 2 ^ 32
  pub height : hs.height < 2 ^ 32
  pub format : hs.format < 2 ^ 32
  pub stride : hs.stride < 2 ^ 32
  pub size : hs.size < 2 ^ 32

-- An index, or any other `u32`.
pub u32_at-to_ne_bytes : (e : Endian) (n : ℕ) → n < 2 ^ 32 → u32_at e (to_ne_bytes e n) 0 ≡ n
unfolding to_ne_bytes u32_at
u32_at-to_ne_bytes little n h = omega arith
u32_at-to_ne_bytes big n h = omega arith

pub take-to_ne_bytes : (e : Endian) (i : ℕ) → take 4 (to_ne_bytes e i) ≡ to_ne_bytes e i
unfolding to_ne_bytes
take-to_ne_bytes little i = refl
take-to_ne_bytes big i = refl

pub length-to_ne_bytes : (e : Endian) (i : ℕ) → length (to_ne_bytes e i) ≡ 4
unfolding to_ne_bytes
length-to_ne_bytes little i = refl
length-to_ne_bytes big i = refl

pub length-handshake_bytes :
    (e : Endian) (hs : Handshake) → length (handshake_bytes e hs) ≡ handshake_size
unfolding handshake_bytes
length-handshake_bytes little hs = refl
length-handshake_bytes big hs = refl

-- A handshake whose fields fit in 32 bits is read back from its bytes, in either byte order.
pub handshake_of-handshake_bytes :
    (e : Endian) (hs : Handshake) → FitsU32 hs → handshake_of e (handshake_bytes e hs) ≡ hs
unfolding handshake_of handshake_bytes
handshake_of-handshake_bytes little hs f = ground arith
handshake_of-handshake_bytes big hs f = ground arith
