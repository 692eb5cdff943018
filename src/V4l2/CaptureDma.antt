-- ===== src/V4l2/CaptureDma.antt =====
-- rust/common/src/v4l2.rs: the methods of `V4l2CaptureDma`. The struct has the fields of
-- `V4l2Capture`, and `open` is the same code, as are `dequeue`, `stop` and `drop` but for the kind
-- of memory.
pub mod Ownership
pub mod Trace
pub mod Quiet
use pub_sub_v4l2_dmabuf_wayl.Base.{
  ℕ, ◌+◌, ◌%◌, ◌^◌, List, [], ◌∷◌, ◌++◌, Option, none, some, ltb, if◌then◌else◌, get_elem?, length,
}
use pub_sub_v4l2_dmabuf_wayl.Effect.{other, pure, throw, panics, ◌>>=◌, ◌>>◌, lift, guarded}
use pub_sub_v4l2_dmabuf_wayl.Platform.{Platform, Io, reqbufs, qbuf, close_all}
use pub_sub_v4l2_dmabuf_wayl.V4l2.Ioctl.{try_ioctl}
use pub_sub_v4l2_dmabuf_wayl.V4l2.Capture.{
  Capture, BufInfo, Method, self, update_self, set_buffers, request_arg, dma_buffer, stream_on,
  dequeue_from, stop_streaming, close_device, open_device as open_mmap,
}

-- `n as u32`
abbrev pub as_u32 : ℕ → ℕ
as_u32 n = n % 2 ^ 32

module _ (S : Platform) (fuel : ℕ) where
  unfoldable pub open_device : List ℕ → ℕ → ℕ → ℕ → Io S Capture
  unfolding open_mmap
  open_device = open_mmap S fuel

  -- One round of the loop in `start`: queue the descriptor, then keep it.
  queue_buffer : ℕ → ℕ → Method S (Unit {0})
  queue_buffer fd i = do
    c ← self S
    _ ← lift (try_ioctl S fuel qbuf c.fd (dma_buffer S (as_u32 i) fd c.size_image))
    pure tt

  keep_buffer : ℕ → ℕ → Method S (Unit {0})
  keep_buffer fd i = update_self S λ d. record d {
    buffers =
        d.buffers
        ++ (record { dmabuf_fd = fd; index = as_u32 i; length = d.size_image; bytesused = 0 } ∷ []);
  }

  -- The descriptors that are not yet kept are dropped if the loop is left early.
  queue_all : List ℕ → ℕ → Method S (Unit {0})
  queue_all [] i = pure tt
  queue_all (fd ∷ fds) i = do
    guarded (lift (close_all S (fd ∷ fds))) (queue_buffer fd i)
    keep_buffer fd i
    queue_all fds (i + 1)

  request_dma : ℕ → Method S (Unit {0})
  request_dma count = do
    c ← self S
    req ← lift (try_ioctl S fuel reqbufs c.fd (request_arg S S.memory_dmabuf count))
    if ltb req.count 2 then throw other else pure tt

  unfoldable pub start : List ℕ → Method S (Unit {0})
  unfolding queue_all queue_buffer keep_buffer request_dma stream_on
  start fds = do
    guarded (lift (close_all S fds)) (request_dma (as_u32 (length fds)))
    set_buffers S []
    queue_all fds 0
    stream_on S fuel

  unfoldable pub dequeue : Method S ℕ
  unfolding dequeue_from
  dequeue = dequeue_from S fuel S.memory_dmabuf

  -- `&self.buffers[index as usize]` panics out of range.
  queue_again : ℕ → Option BufInfo → Method S (Unit {0})
  queue_again index none = panics
  queue_again index (some b) = do
    c ← self S
    _ ← lift (try_ioctl S fuel qbuf c.fd (dma_buffer S index b.dmabuf_fd c.size_image))
    pure tt

  unfoldable pub requeue : ℕ → Method S (Unit {0})
  unfolding queue_again
  requeue index = do c ← self S; queue_again index (get_elem? c.buffers index)

  unfoldable pub stop : Method S (Unit {0})
  unfolding stop_streaming
  stop = stop_streaming S fuel S.memory_dmabuf

  unfoldable pub drop_capture : Method S (Unit {0})
  unfolding stop close_device
  drop_capture = stop >> close_device S fuel
