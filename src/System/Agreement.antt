-- ===== src/System/Agreement.antt =====
-- `send_handshake` of rust/publisher/src/main.rs and `recv_handshake` of rust/subscriber/src/main.rs
-- at the two ends of one socket: what the subscriber knows of the capture.
use pub_sub_v4l2_dmabuf_wayl.Base.{
  ℕ, ◌^◌, ◌<◌, ◌≡◌, refl, ap, sym, ◌∙◌, subst, List, [], ◌∷◌, false, arith, length,
}
use pub_sub_v4l2_dmabuf_wayl.Effect.{ret}
use pub_sub_v4l2_dmabuf_wayl.Effect.Triple.{Sat, Sat-weaken}
use pub_sub_v4l2_dmabuf_wayl.Platform.{
  Platform, World, Event, RawFd, done, sent, Received, scm_rights,
}
use pub_sub_v4l2_dmabuf_wayl.V4l2.Ioctl.Termination.{never}
use pub_sub_v4l2_dmabuf_wayl.V4l2.Capture.{Capture, BufInfo, dmabuf_fds}
use pub_sub_v4l2_dmabuf_wayl.Wire.{Handshake, handshake_bytes, handshake_size}
use pub_sub_v4l2_dmabuf_wayl.Wire.RoundTrip.{FitsU32}
use pub_sub_v4l2_dmabuf_wayl.Socket.{send_handshake, max_fds, recv_handshake}
use pub_sub_v4l2_dmabuf_wayl.Socket.Transfer.{
  short, send_handshake-trace, recv_handshake-handshake_bytes,
}
use pub_sub_v4l2_dmabuf_wayl.Publisher.{Device, handshake_for}

length-dmabuf_fds : (bs : List BufInfo) → length (dmabuf_fds bs) ≡ length bs
length-dmabuf_fds [] = refl
length-dmabuf_fds (b ∷ bs) = omega (arith, length-dmabuf_fds bs)

abbrev whole_message : List ℕ → List ℕ → Received
whole_message bytes fds = record { bytes = bytes; cmsgs = scm_rights fds ∷ []; truncated = false }

-- The message that the last event of a trace put on the socket, as the kernel hands it over at the
-- other end: the same bytes, and for each descriptor one of the receiver's own.
pub record Carried (sock : RawFd) (u : List Event) (msg : Received) : Type 0 where
  pub bytes : List ℕ
  pub fds : List ℕ
  pub fds' : List ℕ
  pub before : List Event
  pub at : u ≡ sent sock bytes fds ∷ before
  pub as_many : length fds' ≡ length fds
  pub is : msg ≡ whole_message bytes fds'

-- The bytes and the descriptors of the last event.
last_bytes : List Event → List ℕ
last_bytes (sent s bytes fds ∷ u) = bytes
last_bytes _ = []

last_fds : List Event → List ℕ
last_fds (sent s bytes fds ∷ u) = fds
last_fds _ = []

-- The capture in the terms of the handshake.
abbrev pub described : Capture → ℕ → Handshake
described cap format = record {
  buf_count = length cap.buffers;
  width = cap.width;
  height = cap.height;
  format = format;
  stride = cap.stride;
  size = cap.size_image;
}

module _ (S R : Platform) (order : R.endian ≡ S.endian) (d : Device S) (rounds : ℕ) where
  described-handshake_for :
      (cap : Capture) (format : ℕ)
      → length cap.buffers < 2 ^ 32
      → handshake_for S d rounds cap format ≡ described cap format
  described-handshake_for cap format small =
      ap (λ n. record (described cap format) { buf_count = n })
        (omega (arith, small, length-dmabuf_fds cap.buffers))

  -- What the subscriber learns is what the publisher's capture is: when `send_handshake` has
  -- returned, and the kernel has handed its message over whole, `recv_handshake` returns the
  -- capture's width, height, stride, image size and number of buffers, the format, and as many
  -- descriptors as the capture has buffers. It neither fails nor panics. The two machines have one
  -- byte order, and these numbers fit in 32 bits.
  pub recv_handshake-send_handshake :
      (client sock : RawFd) (cap : Capture) (format : ℕ) (w w' : World S) (v : World R)
      (msg : Received) (s' : R.State)
      → FitsU32 (described cap format)
      → send_handshake S client (handshake_for S d rounds cap format) (dmabuf_fds cap.buffers) w
        ≡ ret tt w'
      → Carried client w'.trace msg
      → R.recvmsg sock handshake_size (max_fds R) v.sys ≡ done msg s'
      → Sat
          (λ r v'. (r.0 ≡ described cap format) × (length r.1 ≡ length cap.buffers))
          never
          (recv_handshake R sock v)
  unfolding last_bytes last_fds
  recv_handshake-send_handshake client sock cap format w w' v msg s' fits returned c arrives =
      let hs = described cap format in
      let fds = dmabuf_fds cap.buffers in
      let done' : send_handshake S client hs fds w ≡ ret tt w' =
        subst (λ h. send_handshake S client h fds w ≡ ret tt w')
          (described-handshake_for cap format fits.buf_count) returned in
      let whole : Sat {A = Unit {0}}
          (λ _ u. u.trace ≡ sent client (handshake_bytes S.endian hs) fds ∷ w.trace)
          (short S client (handshake_bytes S.endian hs) fds w.trace) (ret tt w') =
        subst
          (λ r.
            Sat (λ _ u. u.trace ≡ sent client (handshake_bytes S.endian hs) fds ∷ w.trace)
              (short S client (handshake_bytes S.endian hs) fds w.trace) r)
          done' (send_handshake-trace S client hs fds w) in
      let one_bytes : c.bytes ≡ handshake_bytes R.endian hs =
        ap last_bytes (sym c.at ∙ whole.at) ∙ ap (λ e. handshake_bytes e hs) (sym order) in
      let counted : length c.fds' ≡ length cap.buffers =
        c.as_many
        ∙ ap (λ u. length (last_fds u)) (sym c.at ∙ whole.at)
        ∙ length-dmabuf_fds cap.buffers in
      Sat-weaken {Y = never} _
        (recv_handshake-handshake_bytes R sock hs c.fds' s' v fits counted (
          arrives
          ∙ ap (λ m. done m s')
              (c.is
                ∙ ap (λ b. record { bytes = b; cmsgs = scm_rights c.fds' ∷ []; truncated = false })
                    one_bytes)))
        (λ r _ h. (ap (λ q. q.0) h.0, ap (λ q. length q.1) h.0 ∙ counted)) (λ _ _ h. h) (λ _ h. h)
        (λ _ h. h)
