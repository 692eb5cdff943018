-- ===== src/V4l2/Capture.antt =====
-- rust/common/src/v4l2.rs: `V4l2BufInfo`, `V4l2Capture` and its methods. `V4l2CaptureDma` has the
-- same fields. A method with `&mut self` is a computation whose state is the object beside the
-- world, so that what it has done to the object is there also when it fails.
pub mod Ownership
pub mod Release
pub mod Frames
pub mod Trace
pub mod Termination
pub mod Quiet
pub mod Start
use pub_sub_v4l2_dmabuf_wayl.Base.{
  ℕ, zero, suc, ◌+◌, Option, List, [], ◌∷◌, ◌++◌, map, Bool, true, false, ◌||◌, none, some, bit_and,
  ltb, ◌==◌, if◌then◌else◌, get_elem?, set,
}
use pub_sub_v4l2_dmabuf_wayl.Effect.{
  other, unsupported, timed_out, M, pure, throw, panics, ◌>>=◌, ◌>>◌, state, modify, lift,
}
use pub_sub_v4l2_dmabuf_wayl.Platform.{
  Platform, World, Io, RawFd, opening, calling, querycap, s_fmt, reqbufs, querybuf, expbuf, qbuf,
  dqbuf, streamon, streamoff, o_rdwr, o_nonblock, o_cloexec, last_os_error, close_fd, close_all,
}
use pub_sub_v4l2_dmabuf_wayl.V4l2.Structs.{
  V4l2Format, V4l2RequestBuffers, V4l2Buffer, zeroed_capability, zeroed_format, zeroed_request,
  zeroed_buffer, zeroed_export,
}
use pub_sub_v4l2_dmabuf_wayl.V4l2.Ioctl.{xioctl, try_ioctl, cstring}

pub record BufInfo : Type 0 where
  pub dmabuf_fd : ℕ
  pub index : ℕ
  pub length : ℕ
  pub bytesused : ℕ

pub record Capture : Type 0 where
  pub fd : RawFd
  pub width : ℕ
  pub height : ℕ
  pub stride : ℕ
  pub size_image : ℕ
  pub pixel_format : ℕ
  pub streaming : Bool
  pub buffers : List BufInfo

abbrev pub dmabuf_fds : List BufInfo → List ℕ
dmabuf_fds = map (λ b. b.dmabuf_fd)

-- The object that `open` returns for the format that the driver chose.
abbrev pub capture_of : ℕ → V4l2Format → Capture
capture_of fd fmt = record {
  fd = some fd;
  width = fmt.pix.width;
  height = fmt.pix.height;
  stride = fmt.pix.bytesperline;
  size_image = fmt.pix.sizeimage;
  pixel_format = fmt.pix.pixelformat;
  streaming = false;
  buffers = [];
}

module _ (S : Platform) where
  abbrev pub Method : Type 0 → Type 0
  Method A = M (Capture × World S) A

  abbrev pub self : Method Capture
  self = state (λ s. s.0)

  abbrev pub update_self : (Capture → Capture) → Method (Unit {0})
  update_self f = modify (λ (c, w). (f c, w))

  -- `self.buffers = …` and `self.buffers.clear()` drop the buffers that were there.
  unfoldable pub set_buffers : List BufInfo → Method (Unit {0})
  set_buffers bs = do
    c ← self
    update_self (λ d. record d { buffers = bs })
    lift (close_all S (dmabuf_fds c.buffers))

  abbrev pub format_arg : ℕ → ℕ → ℕ → V4l2Format
  format_arg width height pixel_format = record zeroed_format {
    type_ = S.buf_type_video_capture;
    pix = record (zeroed_format.pix) {
      width = width;
      height = height;
      pixelformat = pixel_format;
      field = S.field_any;
    };
  }

  abbrev pub request_arg : ℕ → ℕ → V4l2RequestBuffers
  request_arg memory count = record zeroed_request {
    count = count;
    type_ = S.buf_type_video_capture;
    memory = memory;
  }

  abbrev pub buffer_arg : ℕ → ℕ → V4l2Buffer
  buffer_arg memory i = record zeroed_buffer {
    type_ = S.buf_type_video_capture;
    memory = memory;
    index = i;
  }

  -- A `V4L2_MEMORY_DMABUF` buffer names its descriptor and its size.
  abbrev pub dma_buffer : ℕ → ℕ → ℕ → V4l2Buffer
  dma_buffer i fd size = record (buffer_arg S.memory_dmabuf i) { m = fd; length = size }

module _ (S : Platform) (fuel : ℕ) where
  -- Each failure after the device is open closes it first, and reads `errno` after that.
  open_negotiate : ℕ → ℕ → ℕ → ℕ → Io S Capture
  open_negotiate width height pixel_format fd = do
    fmt ← xioctl S fuel s_fmt (some fd) (format_arg S width height pixel_format)
    elim fmt [ none ↦ close_fd S (some fd) >> last_os_error S | some f ↦ pure (capture_of fd f) ]

  unfoldable pub open_device : List ℕ → ℕ → ℕ → ℕ → Io S Capture
  unfolding open_negotiate
  open_device device width height pixel_format = do
    path ← cstring device
    fd ← opening S (S.open_file path (o_rdwr ∷ o_nonblock ∷ o_cloexec ∷ []))
    cap ← xioctl S fuel querycap (some fd) zeroed_capability
    elim cap [
      | none ↦ close_fd S (some fd) >> last_os_error S
      | some c ↦
          if bit_and c.capabilities S.cap_video_capture == 0
            || bit_and c.capabilities S.cap_streaming == 0
          then (close_fd S (some fd) >> throw unsupported)
          else open_negotiate width height pixel_format fd
    ]

  -- One round of the loop in `start`: query, export, note and queue buffer `i`.
  export_buffer : ℕ → Method S (Unit {0})
  export_buffer i = do
    c ← self S
    buf ← lift (try_ioctl S fuel querybuf c.fd (buffer_arg S S.memory_mmap i))
    exported ← lift (
        try_ioctl S fuel expbuf c.fd (record zeroed_export {
          type_ = S.buf_type_video_capture;
          index = i;
          flags = S.o_cloexec_rdwr;
        }))
    update_self S (λ d. record d {
      buffers =
          d.buffers
          ++ (record { dmabuf_fd = exported.fd; index = i; length = buf.length; bytesused = 0 }
              ∷ []);
    })
    _ ← lift (try_ioctl S fuel qbuf c.fd (buffer_arg S S.memory_mmap i))
    pure tt

  export_buffers : ℕ → ℕ → Method S (Unit {0})
  export_buffers zero i = pure tt
  export_buffers (suc n) i = export_buffer i >> export_buffers n (i + 1)

  unfoldable pub stream_on : Method S (Unit {0})
  stream_on = do
    c ← self S
    _ ← lift (try_ioctl S fuel streamon c.fd S.buf_type_video_capture)
    update_self S (λ d. record d { streaming = true })

  unfoldable pub start : ℕ → Method S (Unit {0})
  unfolding export_buffers export_buffer stream_on
  start count = do
    c ← self S
    req ← lift (try_ioctl S fuel reqbufs c.fd (request_arg S S.memory_mmap count))
    if ltb req.count 2
        then throw other
        else (do set_buffers S []; export_buffers req.count 0; stream_on)

  -- `select`, with two seconds to wait.
  unfoldable pub wait_readable : RawFd → Io S (Unit {0})
  wait_readable fd = do n ← calling S (S.select fd 2); if n == 0 then throw timed_out else pure tt

  -- `self.buffers[idx].bytesused = n`, with the element that is there.
  write_bytesused : ℕ → ℕ → Option BufInfo → Method S (Unit {0})
  write_bytesused idx n none = panics
  write_bytesused idx n (some b) =
      update_self S λ d. record d { buffers = set d.buffers idx (record b { bytesused = n }) }

  unfoldable pub note_bytesused : ℕ → ℕ → Method S (Unit {0})
  unfolding write_bytesused
  note_bytesused idx n = do c ← self S; write_bytesused idx n (get_elem? c.buffers idx)

  -- `dequeue`, for either kind of memory.
  unfoldable pub dequeue_from : ℕ → Method S ℕ
  unfolding wait_readable note_bytesused
  dequeue_from memory = do
    c ← self S
    lift (wait_readable c.fd)
    buf ← lift (try_ioctl S fuel dqbuf c.fd (buffer_arg S memory 0))
    note_bytesused buf.index buf.bytesused
    pure buf.index

  unfoldable pub dequeue : Method S ℕ
  unfolding dequeue_from
  dequeue = dequeue_from S.memory_mmap

  unfoldable pub requeue : ℕ → Method S (Unit {0})
  requeue index = do
    c ← self S
    _ ← lift (try_ioctl S fuel qbuf c.fd (buffer_arg S S.memory_mmap index))
    pure tt

  stream_off : Method S (Unit {0})
  stream_off = do
    c ← self S
    _ ← lift (xioctl S fuel streamoff c.fd S.buf_type_video_capture)
    update_self S (λ d. record d { streaming = false })

  -- `REQBUFS` with no buffers, if the device is open; its result is not looked at.
  release_buffers : ℕ → Method S (Unit {0})
  release_buffers memory = do
    c ← self S
    elim c.fd [
      | none ↦ pure tt
      | some fd ↦ lift (do _ ← xioctl S fuel reqbufs (some fd) (request_arg S memory 0); pure tt)
    ]

  -- `stop`, for either kind of memory.
  unfoldable pub stop_streaming : ℕ → Method S (Unit {0})
  unfolding stream_off release_buffers
  stop_streaming memory = do
    c ← self S
    if c.streaming then stream_off else pure tt
    set_buffers S []
    release_buffers memory

  unfoldable pub stop : Method S (Unit {0})
  unfolding stop_streaming
  stop = stop_streaming S.memory_mmap

  -- The end of `Drop`: the device is closed, once.
  unfoldable pub close_device : Method S (Unit {0})
  close_device = do
    c ← self S
    elim c.fd [
      | none ↦ pure tt
      | some fd ↦ lift (close_fd S (some fd)) >> update_self S (λ d. record d { fd = none })
    ]

  unfoldable pub drop_capture : Method S (Unit {0})
  unfolding stop close_device
  drop_capture = stop >> close_device
