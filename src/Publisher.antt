-- ===== src/Publisher.antt =====
-- rust/publisher/src/main.rs and rust/publisher/src/publisher_dma.rs, from the parsed options on.
-- The two programs share the text of their session but for the capture type: `Device` holds the
-- methods in which it differs. What the loop counts and prints about frame rates is left out.
pub mod Ownership
pub mod Sessions
pub mod Protocol
pub mod Rounds
pub mod Exchange
pub mod Frames
pub mod Balance
pub mod Arguments
pub mod Termination
pub mod Lasting
use pub_sub_v4l2_dmabuf_wayl.Base.{
  ℕ, zero, suc, List, [], ◌∷◌, Bool, true, false, Option, none, some, if◌then◌else◌, length,
}
use pub_sub_v4l2_dmabuf_wayl.Effect.{
  other, M, ret, spin, Result, ok, err, pure, throw, ◌>>=◌, ◌>>◌, attempt, ignore, lift, scoped,
  finally,
}
use pub_sub_v4l2_dmabuf_wayl.Platform.{Platform, World, Io, syscall, close_fd, is_running}
use pub_sub_v4l2_dmabuf_wayl.V4l2.Format.{v4l2_to_drm_fourcc}
use pub_sub_v4l2_dmabuf_wayl.V4l2.Capture.{Capture, Method, self, dmabuf_fds}
use pub_sub_v4l2_dmabuf_wayl.V4l2.Capture as Mmap
use pub_sub_v4l2_dmabuf_wayl.V4l2.CaptureDma as Dma
use pub_sub_v4l2_dmabuf_wayl.V4l2.CaptureDma.{as_u32}
use pub_sub_v4l2_dmabuf_wayl.V4l2.Heap.{alloc_dma_heap}
use pub_sub_v4l2_dmabuf_wayl.Wire.{Handshake}
use pub_sub_v4l2_dmabuf_wayl.Socket.{
  create_listening_socket, accept_connection, send_handshake, send_idx, wait_for_ack,
}

-- The command line of either program; the last two are those of publisher_dma alone.
pub record Options : Type 0 where
  pub device : List ℕ
  pub width : ℕ
  pub height : ℕ
  pub pixel_fmt : ℕ
  pub socket_path : List ℕ
  pub heap_path : List ℕ
  pub buf_count : ℕ

-- The methods of the capture that the loop calls.
pub record Device (S : Platform) : Type 0 where
  pub dequeue : Method S ℕ
  pub requeue : ℕ → Method S (Unit {0})

abbrev pub mmap_device : (S : Platform) → ℕ → Device S
mmap_device S fuel = record { dequeue = Mmap.dequeue S fuel; requeue = Mmap.requeue S fuel }

abbrev pub dma_device : (S : Platform) → ℕ → Device S
dma_device S fuel = record { dequeue = Dma.dequeue S fuel; requeue = Dma.requeue S fuel }

module _ (S : Platform) (d : Device S) (client : ℕ) where
  -- The buffer goes back to the driver before the loop is left.
  give_back : ℕ → Method S Bool
  give_back idx = ignore (d.requeue idx) >> pure false

  after_ack : ℕ → Method S Bool
  after_ack idx = do r ← attempt (d.requeue idx); elim r [ err e ↦ pure false | ok u ↦ pure true ]

  after_send : ℕ → Method S Bool
  unfolding after_ack
  after_send idx = do
    r ← attempt (lift (wait_for_ack S (some client)))
    elim r [ err e ↦ give_back idx | ok u ↦ after_ack idx ]

  after_dequeue : ℕ → Method S Bool
  unfolding after_send
  after_dequeue idx = do
    r ← attempt (lift (send_idx S (some client) idx))
    elim r [ err e ↦ give_back idx | ok u ↦ after_send idx ]

  -- One round of the loop; `false` is a `break`.
  unfoldable pub frame : Method S Bool
  unfolding after_dequeue give_back
  frame = do r ← attempt d.dequeue; elim r [ err e ↦ pure false | ok idx ↦ after_dequeue idx ]

  -- A round, and the loop again if it was not left by `break`.
  frame_then : Method S (Unit {0}) → Method S (Unit {0})
  frame_then again = do more ← frame; if more then again else pure tt

  -- The loop, for so many rounds at most.
  unfoldable pub serve : ℕ → Method S (Unit {0})
  unfolding frame_then
  serve zero = spin
  serve (suc rounds) = do
    on ← lift (is_running S)
    if on then frame_then (serve rounds) else pure tt

module _ (S : Platform) (d : Device S) (rounds : ℕ) where
  -- The handshake that describes the capture and its buffers.
  abbrev pub handshake_for : Capture → ℕ → Handshake
  handshake_for c format = record {
    buf_count = as_u32 (length (dmabuf_fds c.buffers));
    width = c.width;
    height = c.height;
    format = format;
    stride = c.stride;
    size = c.size_image;
  }

  serve_client : ℕ → ℕ → Method S (Unit {0})
  serve_client format client = do
    c ← self S
    lift (send_handshake S (some client) (handshake_for c format) (dmabuf_fds c.buffers))
    serve S d client rounds

  -- The socket's file is removed when the loop has ended.
  serve_and_remove : List ℕ → ℕ → ℕ → Method S (Unit {0})
  unfolding serve_client
  serve_and_remove socket_path format client = do
    serve_client format client
    _ ← lift (syscall S (S.remove_file socket_path) (λ _. []))
    pure tt

  listen_and_serve : List ℕ → ℕ → ℕ → Method S (Unit {0})
  unfolding serve_and_remove
  listen_and_serve socket_path format listen_fd = do
    client ← lift (accept_connection S listen_fd)
    finally (lift (close_fd S (some client))) (serve_and_remove socket_path format client)

  -- From the listening socket on.
  unfoldable pub publish : List ℕ → ℕ → Method S (Unit {0})
  unfolding listen_and_serve
  publish socket_path format = do
    listen_fd ← lift (create_listening_socket S socket_path)
    finally (lift (close_fd S (some listen_fd))) (listen_and_serve socket_path format listen_fd)

-- `v4l2_to_drm_fourcc(…).ok_or_else(…)?`
abbrev pub or_no_fourcc : {W : Type 0} → Option ℕ → M W ℕ
or_no_fourcc none = throw other
or_no_fourcc (some format) = pure format

module _ (S : Platform) (fuel rounds : ℕ) where
  mmap_session : List ℕ → Method S (Unit {0})
  mmap_session socket_path = do
    Mmap.start S fuel 4
    c ← self S
    format ← or_no_fourcc (v4l2_to_drm_fourcc S.consts c.pixel_format)
    publish S (mmap_device S fuel) rounds socket_path format

  -- `main` of rust/publisher/src/main.rs.
  unfoldable pub publisher : Options → Io S (Unit {0})
  unfolding mmap_session
  publisher o = do
    cap ← Mmap.open_device S fuel o.device o.width o.height o.pixel_fmt
    scoped cap (Mmap.drop_capture S fuel) (mmap_session o.socket_path)

  dma_session : Options → Method S (Unit {0})
  dma_session o = do
    c ← self S
    format ← or_no_fourcc (v4l2_to_drm_fourcc S.consts c.pixel_format)
    fds ← lift (alloc_dma_heap S fuel o.heap_path c.size_image o.buf_count)
    Dma.start S fuel fds
    publish S (dma_device S fuel) rounds o.socket_path format

  -- `main` of rust/publisher/src/publisher_dma.rs.
  unfoldable pub publisher_dma : Options → Io S (Unit {0})
  unfolding dma_session
  publisher_dma o = do
    cap ← Dma.open_device S fuel o.device o.width o.height o.pixel_fmt
    scoped cap (Dma.drop_capture S fuel) (dma_session o)
