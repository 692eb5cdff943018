-- ===== src/Tests/Devices.antt =====
-- The theorems on rust/common/src/v4l2.rs, applied on the small machine and on an interrupted one.
use pub_sub_v4l2_dmabuf_wayl.Base.{
  ℕ, zero, suc, ◌≡◌, ◌<◌, ap, [], ◌∷◌, ◌++◌, none, some, arith, length,
}
use pub_sub_v4l2_dmabuf_wayl.Effect.Triple.{Sat}
use pub_sub_v4l2_dmabuf_wayl.Platform.{
  Platform, World, Answer, done, failed, Request, Payload, streamon,
}
use pub_sub_v4l2_dmabuf_wayl.Platform.Descriptors.{Owns, holding}
use pub_sub_v4l2_dmabuf_wayl.V4l2.Capture.{Capture, BufInfo}
use pub_sub_v4l2_dmabuf_wayl.V4l2.Capture as Mmap
use pub_sub_v4l2_dmabuf_wayl.V4l2.CaptureDma as Dma
use pub_sub_v4l2_dmabuf_wayl.V4l2.Heap.{alloc_dma_heap}
use pub_sub_v4l2_dmabuf_wayl.V4l2.Capture.Ownership.{Holds, held, owning, open_device-Owns}
use pub_sub_v4l2_dmabuf_wayl.V4l2.Capture.Release.{IsStopped, quiet, drop_capture-Owns}
use pub_sub_v4l2_dmabuf_wayl.V4l2.CaptureDma.Ownership.{start-Owns}
use pub_sub_v4l2_dmabuf_wayl.V4l2.Heap.Ownership.{alloc_dma_heap-Owns}
use pub_sub_v4l2_dmabuf_wayl.V4l2.Ioctl.{xioctl}
use pub_sub_v4l2_dmabuf_wayl.V4l2.Ioctl.Termination.{Settles, never, NotInterrupted, xioctl-ends}
use pub_sub_v4l2_dmabuf_wayl.V4l2.Capture.Trace.{Dequeued, dequeuing, dequeue_from-trace}
use pub_sub_v4l2_dmabuf_wayl.Tests.{
  machine, start_world, nothing_owned, streaming_capture, streaming_trace, streaming_world,
  idle_capture, streaming_owned, given_owned,
}

open_device-Owns_example :
    Sat
      (λ c w'. Owns (held c []) w'.trace)
      (holding machine [])
      (Mmap.open_device machine 1 (47 ∷ []) 640 480 10 start_world)
open_device-Owns_example =
    open_device-Owns machine [] 1 (47 ∷ []) 640 480 10 start_world nothing_owned

drop_capture-Owns_example :
    Sat
      (λ _ s. IsStopped machine [] 1 none s)
      (quiet machine [] 1)
      (Mmap.drop_capture machine 1 (streaming_capture, streaming_world))
drop_capture-Owns_example =
    drop_capture-Owns machine [] 1 streaming_capture streaming_world streaming_owned

start-Owns_example :
    Sat
      (λ _ s. Holds machine [] s)
      (owning machine [])
      (Dma.start machine 1 (10 ∷ 11 ∷ []) (idle_capture, streaming_world))
start-Owns_example = start-Owns machine [] 1 (10 ∷ 11 ∷ []) idle_capture streaming_world given_owned

alloc_dma_heap-Owns_example :
    Sat
      (λ all w'. (length all ≡ 2) × Owns (all ++ []) w'.trace)
      (holding machine [])
      (alloc_dma_heap machine 1 (47 ∷ []) 614400 2 start_world)
alloc_dma_heap-Owns_example =
    alloc_dma_heap-Owns machine [] 1 (47 ∷ []) 614400 2 start_world nothing_owned

dequeue_from-trace_example :
    Sat
      (λ i s. Dequeued machine streaming_capture streaming_trace i s)
      (dequeuing machine streaming_capture streaming_trace)
      (Mmap.dequeue_from machine 1 1 (streaming_capture, streaming_world))
dequeue_from-trace_example = dequeue_from-trace machine 1 1 streaming_capture streaming_world

-- A machine whose calls are interrupted so many times.
abbrev interrupting : (r : Request) → Payload r → ℕ → Answer ℕ (Payload r)
interrupting r arg zero = done arg zero
interrupting r arg (suc n) = failed 4 n

abbrev restless : Platform
restless = record machine { ioctl = λ r fd arg n. interrupting r arg n }

abbrev restless_world : World restless
restless_world = record { sys = 2; errno = 0; trace = [] }

abbrev state_after : {A : Type 0} → Answer ℕ A → ℕ
state_after (done a n) = n
state_after (failed e n) = n

restless-Settles : Settles restless (λ n. n)
restless-Settles = record { lowers = λ r fd arg s s' e p q. lowered r arg s s' e p }
  where
    lowered :
        (r : Request) (arg : Payload r) (s s' e : ℕ) → interrupting r arg s ≡ failed e s' → s' < s
    lowered r arg zero s' e p = absurd (cc)
    lowered r arg (suc s) s' e p = omega (arith, ap state_after p)

xioctl-ends_example :
    Sat (NotInterrupted restless) never (xioctl restless 3 streamon (some 3) 1 restless_world)
xioctl-ends_example =
    xioctl-ends restless (λ n. n) restless-Settles 3 streamon (some 3) 1 restless_world
      (omega arith)
