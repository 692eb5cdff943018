-- ===== src/Subscriber.antt =====
-- rust/subscriber/src/main.rs: `draw_one` and the loop, from the handshake, the window and the
-- context on. The window's state stands beside the world. What is counted and printed is left out.
pub mod Protocol
pub mod Receiving
pub mod Termination
pub mod Frames
pub mod Images
pub mod Main
use pub_sub_v4l2_dmabuf_wayl.Base.{
  ℕ, zero, suc, List, Bool, true, false, ◌&&◌, not, Option, none, some, if◌then◌else◌, get_elem?,
}
use pub_sub_v4l2_dmabuf_wayl.Effect.{
  M, spin, Result, ok, err, pure, panics, ◌>>=◌, ◌>>◌, attempt, lift, state,
}
use pub_sub_v4l2_dmabuf_wayl.Platform.{Platform, World, Io}
use pub_sub_v4l2_dmabuf_wayl.Wire.{FrameMeta}
use pub_sub_v4l2_dmabuf_wayl.Socket.{RecvIdx, idx, peer_closed, recv_err, recv_idx, send_ack}
use pub_sub_v4l2_dmabuf_wayl.Egl.{Gpu, EglContext, import_dmabuf, destroy_image, swap_buffers}
use pub_sub_v4l2_dmabuf_wayl.Egl.Renderer.{QuadRenderer, draw}
use pub_sub_v4l2_dmabuf_wayl.Wayland.{AppState, Connection, dispatch_pending}

-- What the session holds: the context, the renderer, the format, the descriptors and the socket.
pub record Session : Type 0 where
  pub egl : EglContext
  pub renderer : QuadRenderer
  pub frame_meta : FrameMeta
  pub buf_fds : List ℕ
  pub sock : ℕ

module _ (S : Platform) (G : Gpu S) (x : Session) where
  -- `send_ack(sock_raw).is_ok()`
  ack_is_ok : Io S Bool
  ack_is_ok = do
    r ← attempt (send_ack S (some x.sock))
    elim r [ ok u ↦ pure true | err e ↦ pure false ]

  -- With the image, if there is one.
  show_image : Option ℕ → Io S Bool
  unfolding ack_is_ok
  show_image none = pure false
  show_image (some img) = do
    draw S G x.renderer img
    swap_buffers S G x.egl
    destroy_image S G x.egl (some img)
    ack_is_ok

  -- With the element of `buf_fds`; out of range it panics.
  draw_buffer : Option ℕ → Io S Bool
  unfolding show_image
  draw_buffer none = panics
  draw_buffer (some fd) = import_dmabuf S G x.egl fd x.frame_meta >>= show_image

  unfoldable pub draw_one : ℕ → Io S Bool
  unfolding draw_buffer
  draw_one i = draw_buffer (get_elem? x.buf_fds i)

  -- The frame that `recv_idx` has announced, if it has.
  show_frame : RecvIdx → Io S Bool
  unfolding draw_one
  show_frame (idx i) = draw_one i
  show_frame peer_closed = pure false
  show_frame (recv_err e) = pure false

  unfoldable pub receive_frame : Io S Bool
  unfolding show_frame
  receive_frame = recv_idx S (some x.sock) >>= show_frame

module _ (S : Platform) (G : Gpu S) (C : Connection S) (x : Session) where
  -- One round of the loop; `false` is a `break`.
  unfoldable pub round : M (AppState × World S) Bool
  round = do shown ← lift (receive_frame S G x); if shown then dispatch_pending S C else pure false

  round_then : M (AppState × World S) (Unit {0}) → M (AppState × World S) (Unit {0})
  round_then again = do more ← round; if more then again else pure tt

  -- The loop, for so many rounds at most.
  unfoldable pub receive : ℕ → M (AppState × World S) (Unit {0})
  unfolding round_then
  receive zero = spin
  receive (suc rounds) = do
    on ← state (λ (st, w). S.running w.sys && not st.should_close)
    if on then round_then (receive rounds) else pure tt
