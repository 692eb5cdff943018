-- ===== src/Tests/Loops.antt =====
-- The theorems on rust/publisher, applied on the small machine.
use pub_sub_v4l2_dmabuf_wayl.Platform.{
  Answer, done, failed, Request, Payload, querycap, s_fmt, reqbufs, querybuf, expbuf, qbuf, dqbuf,
  streamon, streamoff, heap_alloc,
}
use pub_sub_v4l2_dmabuf_wayl.V4l2.Ioctl.Termination.{Settles}
use pub_sub_v4l2_dmabuf_wayl.Publisher.Termination.{
  Flows, mmap_device-Flows, after_rounds, serve-frames,
}
use pub_sub_v4l2_dmabuf_wayl.Publisher.Lasting.Sessions.{lasting}
use pub_sub_v4l2_dmabuf_wayl.Publisher.Lasting.{publisher-frames, publisher_dma-frames}
use pub_sub_v4l2_dmabuf_wayl.Tests.{answer}
use pub_sub_v4l2_dmabuf_wayl.Base.{ℕ, zero, suc, ◌≡◌, refl, ap, [], some, false, arith, ◌==◌}
use pub_sub_v4l2_dmabuf_wayl.Effect.Triple.{Sat}
use pub_sub_v4l2_dmabuf_wayl.Platform.Descriptors.{Owns, holding}
use pub_sub_v4l2_dmabuf_wayl.Publisher.Balance.{Balanced, balancing, serve-Balanced}
use pub_sub_v4l2_dmabuf_wayl.Publisher.{publisher, publisher_dma, serve, mmap_device}
use pub_sub_v4l2_dmabuf_wayl.Publisher.Ownership.{publisher-Owns, publisher_dma-Owns}
use pub_sub_v4l2_dmabuf_wayl.Publisher.Protocol.{begin}
use pub_sub_v4l2_dmabuf_wayl.Publisher.Exchange.{mmap_device-IsTraced}
use pub_sub_v4l2_dmabuf_wayl.Publisher.Frames.{AtSome, ending, serve-Log}
use pub_sub_v4l2_dmabuf_wayl.Tests.{
  machine, start_world, options, nothing_owned, streaming_capture, streaming_trace, streaming_world,
}

publisher-Owns_example :
    Sat (λ _ w'. Owns [] w'.trace) (holding machine []) (publisher machine 1 3 options start_world)
publisher-Owns_example = publisher-Owns machine [] 1 3 options start_world nothing_owned

publisher_dma-Owns_example :
    Sat
      (λ _ w'. Owns [] w'.trace)
      (holding machine [])
      (publisher_dma machine 1 3 options start_world)
publisher_dma-Owns_example = publisher_dma-Owns machine [] 1 3 options start_world nothing_owned

serve-Log_example :
    Sat
      (λ _ s.
        AtSome machine
          (mmap_device machine 1)
          (mmap_device-IsTraced machine 1)
          (some 3)
          5
          2
          streaming_trace
          s.1.trace)
      (ending machine
        (mmap_device machine 1)
        (mmap_device-IsTraced machine 1)
        (some 3)
        5
        2
        streaming_trace)
      (serve machine (mmap_device machine 1) 5 3 (streaming_capture, streaming_world))
serve-Log_example =
    serve-Log machine (mmap_device machine 1) (mmap_device-IsTraced machine 1) (some 3) 5 2
      streaming_trace 3 streaming_capture streaming_world (refl, refl) begin

serve-Balanced_example :
    Sat
      (λ _ s. Balanced streaming_trace s.1.trace)
      (balancing machine
        (mmap_device machine 1)
        (mmap_device-IsTraced machine 1)
        (some 3)
        5
        streaming_trace)
      (serve machine (mmap_device machine 1) 5 3 (streaming_capture, streaming_world))
serve-Balanced_example =
    serve-Balanced machine (mmap_device machine 1) (mmap_device-IsTraced machine 1) (some 3) 5 3
      streaming_capture streaming_world refl

-- The number of an error, and 0 where there is none.
error_of : {A : Type 0} → Answer ℕ A → ℕ
error_of (done a s) = 0
error_of (failed e s) = e

-- No call is interrupted: the only error is 5.
machine-Settles : Settles machine (λ _. 0)
unfolding error_of
machine-Settles = record {
  lowers = λ r fd arg s s' e p q. absurd (grind (arith, q, ap error_of p, uninterrupted r arg s));
}
  where
    uninterrupted :
        (r : Request) (arg : Payload r) (s : ℕ) → (error_of (answer r arg s) == 4) ≡ false
    uninterrupted querycap arg s = refl
    uninterrupted s_fmt arg s = refl
    uninterrupted reqbufs arg s = refl
    uninterrupted querybuf arg s = refl
    uninterrupted expbuf arg s = refl
    uninterrupted qbuf arg s = refl
    uninterrupted dqbuf arg zero = refl
    uninterrupted dqbuf arg (suc n) = refl
    uninterrupted streamon arg s = refl
    uninterrupted streamoff arg s = refl
    uninterrupted heap_alloc arg s = refl

abbrev flows : Flows machine (mmap_device machine 1)
flows = mmap_device-Flows machine (λ _. 0) 1 machine-Settles (λ s. omega arith)

serve-frames_example :
    Sat
      (λ _ _. Unit)
      (after_rounds machine (mmap_device machine 1) (mmap_device-IsTraced machine 1) flows 5 1 0)
      (serve machine (mmap_device machine 1) 5 1 (streaming_capture, streaming_world))
serve-frames_example =
    serve-frames machine (mmap_device machine 1) (mmap_device-IsTraced machine 1) flows 5 1
      streaming_capture streaming_world

publisher-frames_example :
    Sat (λ _ _. Unit) (lasting machine 1) (publisher machine 1 1 options start_world)
publisher-frames_example =
    publisher-frames machine (λ _. 0) machine-Settles 1 (λ s. omega arith) 1 options start_world

publisher_dma-frames_example :
    Sat (λ _ _. Unit) (lasting machine 1) (publisher_dma machine 1 1 options start_world)
publisher_dma-frames_example =
    publisher_dma-frames machine (λ _. 0) machine-Settles 1 (λ s. omega arith) 1 options start_world
