-- ===== src/Tests.antt =====
-- A small machine on which each theorem is applied to a run of the code: every call succeeds, a
-- driver grants two buffers, and the flag `RUNNING` is cleared once so many frames are dequeued.
mod Viewer
mod Both
mod Ends
mod Build
mod Arguments
mod Window
mod Loops
mod Devices
mod Messages
use pub_sub_v4l2_dmabuf_wayl.Base.{
  ℕ, zero, suc, ◌≡◌, ◌+◌, ◌<◌, ap, refl, List, [], ◌∷◌, ◌++◌, Bool, true, false, none, some, arith,
  length,
}
use pub_sub_v4l2_dmabuf_wayl.Effect.Triple.{Sat}
use pub_sub_v4l2_dmabuf_wayl.Platform.{
  Platform, World, Answer, done, failed, Request, Payload, querycap, s_fmt, reqbufs, querybuf,
  expbuf, qbuf, dqbuf, streamon, streamoff, heap_alloc, Received, scm_rights, Event, opened, sent,
  received,
}
use pub_sub_v4l2_dmabuf_wayl.Platform.Headers.{Consts}
use pub_sub_v4l2_dmabuf_wayl.Platform.Descriptors.{Owns, holding}
use pub_sub_v4l2_dmabuf_wayl.V4l2.Capture.{Capture, BufInfo}
use pub_sub_v4l2_dmabuf_wayl.V4l2.Capture as Mmap
use pub_sub_v4l2_dmabuf_wayl.V4l2.CaptureDma as Dma
use pub_sub_v4l2_dmabuf_wayl.V4l2.Heap.{alloc_dma_heap}
use pub_sub_v4l2_dmabuf_wayl.V4l2.Capture.Ownership.{Holds, held, owning, open_device-Owns}
use pub_sub_v4l2_dmabuf_wayl.V4l2.Capture.Release.{IsStopped, quiet, drop_capture-Owns}
use pub_sub_v4l2_dmabuf_wayl.V4l2.CaptureDma.Ownership.{start-Owns}
use pub_sub_v4l2_dmabuf_wayl.V4l2.Heap.Ownership.{alloc_dma_heap-Owns}
use pub_sub_v4l2_dmabuf_wayl.Wire.{Handshake, little, handshake_bytes, handshake_of, to_ne_bytes}
use pub_sub_v4l2_dmabuf_wayl.Wire.RoundTrip.{FitsU32, handshake_of-handshake_bytes}
use pub_sub_v4l2_dmabuf_wayl.Wire.RoundTrip.{length-handshake_bytes}
use pub_sub_v4l2_dmabuf_wayl.V4l2.Ioctl.{xioctl}
use pub_sub_v4l2_dmabuf_wayl.V4l2.Ioctl.Termination.{Settles, never, NotInterrupted, xioctl-ends}
use pub_sub_v4l2_dmabuf_wayl.V4l2.Capture.Start.{Started, anyhow}
use pub_sub_v4l2_dmabuf_wayl.V4l2.Capture.Trace.{Dequeued, dequeuing, dequeue_from-trace}
use pub_sub_v4l2_dmabuf_wayl.Socket.{
  idx, send_handshake, recv_handshake, recv_idx, create_listening_socket, connect_to_socket,
}
use pub_sub_v4l2_dmabuf_wayl.Socket.Ownership.{create_listening_socket-Owns}
use pub_sub_v4l2_dmabuf_wayl.Socket.Transfer.{
  short, send_handshake-trace, recv_handshake-handshake_bytes, recv_idx-to_ne_bytes,
}
use pub_sub_v4l2_dmabuf_wayl.Socket.Handover.{refusing, recv_handshake-Owns, recv_handshake-leaks}
use pub_sub_v4l2_dmabuf_wayl.Publisher.Balance.{Balanced, balancing, serve-Balanced}
use pub_sub_v4l2_dmabuf_wayl.Publisher.{
  Options, publisher, publisher_dma, serve, frame, mmap_device,
}
use pub_sub_v4l2_dmabuf_wayl.Publisher.Ownership.{publisher-Owns, publisher_dma-Owns}
use pub_sub_v4l2_dmabuf_wayl.Publisher.Protocol.{begin}
use pub_sub_v4l2_dmabuf_wayl.Publisher.Exchange.{mmap_device-IsTraced}
use pub_sub_v4l2_dmabuf_wayl.Publisher.Frames.{AtSome, ending, After, frame-Log, serve-Log}

abbrev pub numbers : Consts
numbers = record {
  buf_type_video_capture = 1;
  memory_mmap = 1;
  memory_dmabuf = 4;
  field_any = 0;
  cap_video_capture = 1;
  cap_streaming = 2;
  pix_fmt_yuyv = 10;
  pix_fmt_uyvy = 11;
  pix_fmt_nv12 = 12;
  pix_fmt_nv21 = 13;
  pix_fmt_rgb24 = 14;
  pix_fmt_bgr24 = 15;
  pix_fmt_abgr32 = 16;
  pix_fmt_xbgr32 = 17;
  drm_yuyv = 20;
  drm_uyvy = 21;
  drm_nv12 = 22;
  drm_nv21 = 23;
  drm_rgb888 = 24;
  drm_bgr888 = 25;
  drm_argb8888 = 26;
  drm_xrgb8888 = 27;
  o_cloexec_rdwr = 30;
  eintr = 4;
}

-- The driver's answers; the state counts the frames to come.
abbrev pub answer : (r : Request) → Payload r → ℕ → Answer ℕ (Payload r)
answer querycap arg n = done (record arg { capabilities = 3 }) n
answer s_fmt arg n =
    done (record arg { pix = record (arg.pix) { bytesperline = 1280; sizeimage = 614400 } }) n
answer reqbufs arg n = done arg n
answer querybuf arg n = done (record arg { length = 614400 }) n
answer expbuf arg n = done (record arg { fd = 10 + arg.index }) n
answer qbuf arg n = done arg n
answer dqbuf arg zero = failed 5 zero
answer dqbuf arg (suc n) = done (record arg { index = 1; bytesused = 100 }) n
answer streamon arg n = done arg n
answer streamoff arg n = done arg n
answer heap_alloc arg n = done (record arg { fd = 20 }) n

abbrev pub is_positive : ℕ → Bool
is_positive zero = false
is_positive (suc n) = true

-- The machine on which this message is the next to arrive, and any `recv` gives these bytes.
abbrev pub machine_with : Received → List ℕ → Platform
machine_with msg bytes = record {
  consts = numbers;
  endian = little;
  State = ℕ;
  open_file = λ path flags n. done 3 n;
  close = λ fd n. done tt n;
  ioctl = λ r fd arg n. answer r arg n;
  select = λ fd seconds n. done 1 n;
  socket = λ n. done 4 n;
  unix_addr = λ path n. done path n;
  bind = λ fd addr n. done tt n;
  listen = λ fd backlog n. done tt n;
  accept4 = λ fd n. done 5 n;
  connect = λ fd addr n. done tt n;
  remove_file = λ path n. done tt n;
  sendmsg = λ fd bytes fds n. done (length bytes) n;
  recvmsg = λ fd size room n. done msg n;
  recv = λ fd size all n. done bytes n;
  running = is_positive;
}

abbrev pub machine : Platform
machine = machine_with (record { bytes = []; cmsgs = []; truncated = false }) (1 ∷ [])

abbrev pub start_world : World machine
start_world = record { sys = 2; errno = 0; trace = [] }

abbrev pub options : Options
options = record {
  device = 47 ∷ 118 ∷ [];
  width = 640;
  height = 480;
  pixel_fmt = 10;
  socket_path = 47 ∷ 115 ∷ [];
  heap_path = 47 ∷ 104 ∷ [];
  buf_count = 2;
}

pub nothing_owned : Owns [] []
nothing_owned = record { at = λ fd. refl }

-- A capture that streams, with two buffers.
abbrev pub streaming_capture : Capture
streaming_capture = record {
  fd = some 3;
  width = 640;
  height = 480;
  stride = 1280;
  size_image = 614400;
  pixel_format = 10;
  streaming = true;
  buffers =
      (record { dmabuf_fd = 10; index = 0; length = 614400; bytesused = 0 })
      ∷ (record { dmabuf_fd = 11; index = 1; length = 614400; bytesused = 0 })
      ∷ [];
}

abbrev pub streaming_trace : List Event
streaming_trace = opened 11 ∷ opened 10 ∷ opened 3 ∷ []

abbrev pub streaming_world : World machine
streaming_world = record { sys = 2; errno = 0; trace = streaming_trace }

-- The same device before it has buffers, and two descriptors that are given to it.
abbrev pub idle_capture : Capture
idle_capture = record streaming_capture { streaming = false; buffers = [] }

pub streaming_owned : Owns (held streaming_capture []) streaming_trace
streaming_owned = record { at = λ fd. omega arith }

pub given_owned : Owns (held idle_capture (10 ∷ 11 ∷ [])) streaming_trace
given_owned = record { at = λ fd. omega arith }

abbrev pub two_buffers : Handshake
two_buffers = record {
  buf_count = 2;
  width = 640;
  height = 480;
  format = 20;
  stride = 1280;
  size = 614400;
}

pub two_buffers-FitsU32 : FitsU32 two_buffers
two_buffers-FitsU32 = record {
  buf_count = omega arith;
  width = omega arith;
  height = omega arith;
  format = omega arith;
  stride = omega arith;
  size = omega arith;
}

-- The machine at which that handshake arrives, with two descriptors, and the index 1 after it.
abbrev pub whole_message : Received
whole_message = record {
  bytes = handshake_bytes little two_buffers;
  cmsgs = scm_rights (6 ∷ 7 ∷ []) ∷ [];
  truncated = false;
}

abbrev pub receiver : Platform
receiver = machine_with whole_message (to_ne_bytes little 1)

abbrev pub receiver_world : World receiver
receiver_world = record { sys = 2; errno = 0; trace = [] }
