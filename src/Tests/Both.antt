-- ===== src/Tests/Both.antt =====
-- The theorems on the two programs together: the small machine publishes, and another receives.
use pub_sub_v4l2_dmabuf_wayl.Base.{ℕ, ◌<◌, ◌≡◌, refl, ◌⊎◌, List, [], ◌∷◌, some, arith, get_elem?}
use pub_sub_v4l2_dmabuf_wayl.Platform.{Event, dequeued, queued, sent, received, imported, destroyed}
use pub_sub_v4l2_dmabuf_wayl.Base.{sym, ◌∙◌}
use pub_sub_v4l2_dmabuf_wayl.Platform.{syscall}
use pub_sub_v4l2_dmabuf_wayl.V4l2.Ioctl.{xioctl}
use pub_sub_v4l2_dmabuf_wayl.V4l2.Capture as Mmap
use pub_sub_v4l2_dmabuf_wayl.Socket.{send_idx, wait_for_ack, recv_idx, send_ack}
use pub_sub_v4l2_dmabuf_wayl.Egl.{gl_calls, import_dmabuf, swap_buffers, destroy_image}
use pub_sub_v4l2_dmabuf_wayl.Egl.Renderer.{draw}
use pub_sub_v4l2_dmabuf_wayl.Wire.{little, to_ne_bytes, u32_at}
use pub_sub_v4l2_dmabuf_wayl.Publisher.{mmap_device, serve, frame}
use pub_sub_v4l2_dmabuf_wayl.Publisher.Exchange.{mmap_device-IsTraced}
use pub_sub_v4l2_dmabuf_wayl.Wayland.{new, dispatch_pending}
use pub_sub_v4l2_dmabuf_wayl.Subscriber.{receive, round, receive_frame}
use pub_sub_v4l2_dmabuf_wayl.System.Streams.{Moment, stream_in, stream_out, append-nil}
use pub_sub_v4l2_dmabuf_wayl.System.Sharing.{Joined}
use pub_sub_v4l2_dmabuf_wayl.System.Exclusion.{
  published, viewed, Withheld, GivenUp, exclusion, index-lt,
}
use pub_sub_v4l2_dmabuf_wayl.Tests.{
  machine, streaming_capture, streaming_world, streaming_trace, receiver, receiver_world,
}
use pub_sub_v4l2_dmabuf_wayl.Tests.Viewer.{gpu, compositor, session}

abbrev pub one : List ℕ
one = 1 ∷ 0 ∷ 0 ∷ 0 ∷ []

-- The publisher has told of its first frame, and waits for the ack.
abbrev pub has_told : List Event
has_told = sent (some 5) one [] ∷ dequeued (some 3) 1 ∷ streaming_trace

pub told_moment :
    Moment streaming_trace
      (published machine
        (mmap_device machine 1)
        (mmap_device-IsTraced machine 1)
        5
        1
        streaming_capture
        streaming_world)
      has_told
unfolding serve frame Mmap.dequeue Mmap.requeue syscall xioctl send_idx wait_for_ack to_ne_bytes
told_moment = record {
  later = queued (some 3) 1 ∷ received (some 5) (1 ∷ []) ∷ [];
  at = refl;
  after = omega arith;
}

-- The subscriber has received the index, and has made its image.
abbrev pub has_received : List Event
has_received = received (some 4) one ∷ []

pub received_all :
    viewed receiver gpu compositor session 1 new receiver_world
    ≡ sent (some 4) (1 ∷ []) [] ∷ destroyed 100 ∷ imported 100 7 ∷ has_received
unfolding receive round receive_frame recv_idx syscall to_ne_bytes u32_at import_dmabuf draw
    gl_calls swap_buffers destroy_image send_ack dispatch_pending
received_all = refl

pub received_moment :
    Moment [] (viewed receiver gpu compositor session 1 new receiver_world) has_received
received_moment = record {
  later = sent (some 4) (1 ∷ []) [] ∷ destroyed 100 ∷ imported 100 7 ∷ [];
  at = received_all;
  after = omega arith;
}

imported_moment :
    Moment []
      (viewed receiver gpu compositor session 1 new receiver_world)
      (imported 100 7 ∷ has_received)
imported_moment = record {
  later = sent (some 4) (1 ∷ []) [] ∷ destroyed 100 ∷ [];
  at = received_all;
  after = omega arith;
}

pub socket_between :
    (b : List Event)
    → stream_in 4 b ≡ one
    → stream_out 4 b ≡ []
    → Joined 5 4 streaming_trace has_told [] b
socket_between b i o = record {
  began_out = refl;
  began_in = refl;
  indices = record { rest = []; at = append-nil (stream_in 4 b) ∙ i };
  acks = record { rest = []; at = sym o };
}

exclusion_example :
    (i : ℕ) × (get_elem? session.buf_fds i ≡ some 7)
    × (i < 2)
    × (Withheld machine
          (mmap_device machine 1)
          (mmap_device-IsTraced machine 1)
          5
          1
          streaming_capture
          streaming_world
          i
          has_told
        ⊎ GivenUp machine
            (mmap_device machine 1)
            (mmap_device-IsTraced machine 1)
            5
            1
            streaming_capture
            streaming_world
            has_told)
exclusion_example =
    exclusion machine receiver refl (mmap_device machine 1) (mmap_device-IsTraced machine 1) 5 1
      streaming_capture streaming_world gpu compositor session 1 new receiver_world has_told
      has_received 100 7 (omega arith)
      (record {
        publisher = told_moment;
        subscriber = imported_moment;
        joined = socket_between (imported 100 7 ∷ has_received) refl refl;
      })
      (omega arith)

index-lt_example : u32_at little one 0 < 2
index-lt_example =
    index-lt machine receiver refl (mmap_device machine 1) (mmap_device-IsTraced machine 1) 5 1
      streaming_capture streaming_world gpu compositor session 1 new receiver_world has_told [] one
      (omega arith)
      (record {
        publisher = told_moment;
        subscriber = received_moment;
        joined = socket_between has_received refl refl;
      })
      refl (omega arith)
