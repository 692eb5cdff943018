-- ===== src/Tests/Ends.antt =====
-- Both ends of the small machine's socket: the handshake, and one index with its ack.
use pub_sub_v4l2_dmabuf_wayl.Base.{
  ℕ, ◌≡◌, ◌≢◌, refl, ap, sym, ◌∙◌, subst, List, [], ◌∷◌, ◌++◌, some, arith, length, length-append,
}
use pub_sub_v4l2_dmabuf_wayl.Effect.{panic}
use pub_sub_v4l2_dmabuf_wayl.Effect.Triple.{Sat}
use pub_sub_v4l2_dmabuf_wayl.Platform.{World, Event, dequeued, sent, received, imported, destroyed}
use pub_sub_v4l2_dmabuf_wayl.V4l2.Ioctl.Termination.{never}
use pub_sub_v4l2_dmabuf_wayl.Wire.{little, to_ne_bytes, handshake_bytes}
use pub_sub_v4l2_dmabuf_wayl.Socket.{send_handshake, recv_handshake}
use pub_sub_v4l2_dmabuf_wayl.Publisher.{mmap_device}
use pub_sub_v4l2_dmabuf_wayl.Publisher.Exchange.{mmap_device-IsTraced}
use pub_sub_v4l2_dmabuf_wayl.System.Waiting.Counts.{Silent}
use pub_sub_v4l2_dmabuf_wayl.System.Waiting.{no_deadlock}
use pub_sub_v4l2_dmabuf_wayl.Wayland.{new}
use pub_sub_v4l2_dmabuf_wayl.Platform.{syscall}
use pub_sub_v4l2_dmabuf_wayl.Wire.{u32_at}
use pub_sub_v4l2_dmabuf_wayl.Socket.{recv_idx, send_ack}
use pub_sub_v4l2_dmabuf_wayl.Egl.{gl_calls, import_dmabuf, swap_buffers, destroy_image}
use pub_sub_v4l2_dmabuf_wayl.Egl.Renderer.{draw}
use pub_sub_v4l2_dmabuf_wayl.Wayland.{dispatch_pending}
use pub_sub_v4l2_dmabuf_wayl.Subscriber.{receive, round, receive_frame}
use pub_sub_v4l2_dmabuf_wayl.System.Exclusion.{Instant, viewed}
use pub_sub_v4l2_dmabuf_wayl.System.Range.{Fed, receive_no_panic}
use pub_sub_v4l2_dmabuf_wayl.System.Agreement.{recv_handshake-send_handshake}
use pub_sub_v4l2_dmabuf_wayl.Tests.{
  streaming_trace, two_buffers, two_buffers-FitsU32, whole_message, machine, streaming_capture,
  streaming_world, receiver, receiver_world,
}
use pub_sub_v4l2_dmabuf_wayl.Tests.Viewer.{gpu, compositor, session}
use pub_sub_v4l2_dmabuf_wayl.Tests.Both.{
  one, has_told, told_moment, has_received, received_all, received_moment, socket_between,
}

-- The run has received once.
only_received :
    (later b : List Event) (bytes : List ℕ)
    → sent (some 4) (1 ∷ []) [] ∷ destroyed 100 ∷ imported 100 7 ∷ has_received
      ≡ later ++ (received (some 4) bytes ∷ b)
    → has_received ≡ received (some 4) bytes ∷ b
only_received [] b bytes e = cc
only_received (x ∷ []) b bytes e = cc
only_received (x ∷ y ∷ []) b bytes e = cc
only_received (x ∷ y ∷ z ∷ []) b bytes e = cc
only_received (x ∷ y ∷ z ∷ x' ∷ later) b bytes e =
    absurd (omega (arith, ap length e, length-append later (received (some 4) bytes ∷ b)))

abbrev AtOnce : List Event → Type 0
AtOnce u =
    Instant machine receiver refl (mmap_device machine 1) (mmap_device-IsTraced machine 1) 5 1
      streaming_capture streaming_world gpu compositor session 1 new receiver_world has_told u

fed :
    Fed machine receiver refl
      (mmap_device machine 1)
      (mmap_device-IsTraced machine 1)
      5
      1
      streaming_capture
      streaming_world
      gpu
      compositor
      session
      1
      new
      receiver_world
fed b bytes m = (
  has_told,
  subst AtOnce (only_received m.later b bytes (sym received_all ∙ m.at)) (record {
    publisher = told_moment;
    subscriber = received_moment;
    joined = socket_between has_received refl refl;
  }),
)

receive_no_panic_example :
    receive receiver gpu compositor session 1 (new, receiver_world) ≢ panic (new, receiver_world)
receive_no_panic_example =
    receive_no_panic machine receiver refl (mmap_device machine 1) (mmap_device-IsTraced machine 1)
      5 1 streaming_capture streaming_world gpu compositor session 1 new receiver_world
      (new, receiver_world) (omega arith) refl fed

-- The publisher's machine once the handshake is out.
abbrev has_described : World machine
has_described = record {
  sys = 2;
  errno = 0;
  trace = sent (some 5) (handshake_bytes little two_buffers) (10 ∷ 11 ∷ []) ∷ streaming_trace;
}

recv_handshake-send_handshake_example :
    Sat
      (λ r v'. (r.0 ≡ two_buffers) × (length r.1 ≡ 2))
      never
      (recv_handshake receiver (some 4) receiver_world)
unfolding send_handshake syscall handshake_bytes to_ne_bytes
recv_handshake-send_handshake_example =
    recv_handshake-send_handshake machine receiver refl (mmap_device machine 1) 1 (some 5) (some 4)
      streaming_capture 20 streaming_world has_described receiver_world whole_message 2
      two_buffers-FitsU32 refl
      (record {
        bytes = handshake_bytes little two_buffers;
        fds = 10 ∷ 11 ∷ [];
        fds' = 6 ∷ 7 ∷ [];
        before = streaming_trace;
        at = refl;
        as_many = refl;
        is = refl;
      })
      refl

-- What the subscriber has done in two rounds, since it received its first index.
abbrev then_acked : List Event
then_acked = sent (some 4) (1 ∷ []) [] ∷ destroyed 100 ∷ imported 100 7 ∷ []

two_rounds :
    viewed receiver gpu compositor session 2 new receiver_world
    ≡ then_acked ++ (received (some 4) one ∷ (then_acked ++ has_received))
unfolding receive round receive_frame recv_idx syscall to_ne_bytes u32_at import_dmabuf draw
    gl_calls swap_buffers destroy_image send_ack dispatch_pending
two_rounds = refl

-- The subscriber has the index that the publisher has told of; it acks before it receives the next.
no_deadlock_example : ¬ Silent 4 then_acked
no_deadlock_example =
    no_deadlock machine receiver refl (mmap_device machine 1) (mmap_device-IsTraced machine 1) 5 1
      streaming_capture streaming_world gpu compositor session 2 new receiver_world
      (dequeued (some 3) 1 ∷ streaming_trace) has_received then_acked one one
      (record {
        instant = record {
          publisher = told_moment;
          subscriber = record {
            later = then_acked ++ (received (some 4) one ∷ then_acked);
            at = two_rounds;
            after = omega arith;
          };
          joined = socket_between has_received refl refl;
        };
        indices = omega arith;
        acks = omega arith;
      })
      refl (omega arith) tt tt (record { later = then_acked; at = two_rounds; after = omega arith })
