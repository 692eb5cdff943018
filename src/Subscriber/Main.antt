-- ===== src/Subscriber/Main.antt =====
-- rust/subscriber/src/main.rs, `main`. What was made last is dropped first.
pub mod Lasting
pub mod Balance
pub mod Release
use pub_sub_v4l2_dmabuf_wayl.Base.{ℕ, List, [], ◌∷◌, some, codes, same_text, if◌then◌else◌}
use pub_sub_v4l2_dmabuf_wayl.Effect.{◌>>=◌, ◌>>◌, pure, finally, starting}
use pub_sub_v4l2_dmabuf_wayl.Platform.{Platform, World, Io, close_fd, close_all}
use pub_sub_v4l2_dmabuf_wayl.Wire.{Handshake, frame_meta}
use pub_sub_v4l2_dmabuf_wayl.Socket.{connect_to_socket, recv_handshake}
use pub_sub_v4l2_dmabuf_wayl.Egl.{Gpu, EglContext}
use pub_sub_v4l2_dmabuf_wayl.Egl.Context as Context
use pub_sub_v4l2_dmabuf_wayl.Egl.Renderer.{QuadRenderer, set_viewport, drop_renderer}
use pub_sub_v4l2_dmabuf_wayl.Egl.Renderer as Renderer
use pub_sub_v4l2_dmabuf_wayl.Wayland.{AppState, new, Connection}
use pub_sub_v4l2_dmabuf_wayl.Wayland.Window.{create}
use pub_sub_v4l2_dmabuf_wayl.CommandLine.{
  default_socket_path, Outcome, go, usage, invalid, Ended, main_with,
}
use pub_sub_v4l2_dmabuf_wayl.Subscriber.{Session, receive}

module _ (S : Platform) (G : Gpu S) (C : Connection S) (rounds : ℕ) where
  -- The loop, in the window that is open.
  unfoldable pub show_frames : Session → AppState → Io S (Unit {0})
  show_frames x st = starting st (receive S G C x rounds) >>= λ _. pure tt

  unfoldable pub with_renderer :
      Handshake → List ℕ → ℕ → AppState → EglContext → QuadRenderer → Io S (Unit {0})
  with_renderer hs buf_fds sock st egl made =
      let r = set_viewport S G hs.width hs.height made in
      finally (drop_renderer S G r) (
        show_frames
          (record {
            egl = egl;
            renderer = r;
            frame_meta = frame_meta hs;
            buf_fds = buf_fds;
            sock = sock;
          })
          st)

  unfoldable pub with_egl : Handshake → List ℕ → ℕ → AppState → EglContext → Io S (Unit {0})
  with_egl hs buf_fds sock st egl =
      Renderer.init S G hs.format >>= with_renderer hs buf_fds sock st egl

  unfoldable pub with_buffers : Handshake × List ℕ → ℕ → Io S (Unit {0})
  with_buffers (hs, buf_fds) sock = do
    (st, win) ← starting new (create S C rounds hs.width hs.height (codes "dmabuf subscriber"))
    egl ← Context.init S G win.display_ptr win.egl_window_ptr
    finally (Context.drop_context S G egl) (with_egl hs buf_fds sock st egl)

  unfoldable pub with_socket : ℕ → Io S (Unit {0})
  with_socket sock = do
    got ← recv_handshake S (some sock)
    finally (close_all S got.1) (with_buffers got sock)

  unfoldable pub subscriber : List ℕ → Io S (Unit {0})
  subscriber socket_path = do
    sock ← connect_to_socket S socket_path
    finally (close_fd S (some sock)) (with_socket sock)

-- The `while let` over the arguments, with the path so far.
unfoldable pub parse_path : List (List ℕ) → List ℕ → Outcome (List ℕ)
parse_path [] path = go path
parse_path (a ∷ []) path = if same_text a (codes "--socket") then invalid else usage
parse_path (a ∷ v ∷ rest) path =
    let later = parse_path rest v in if same_text a (codes "--socket") then later else usage

module _ (S : Platform) (G : Gpu S) (C : Connection S) (rounds : ℕ) where
  -- `main`
  unfoldable pub subscriber_main : List (List ℕ) → Io S Ended
  subscriber_main args = main_with S (subscriber S G C rounds) (parse_path args default_socket_path)
