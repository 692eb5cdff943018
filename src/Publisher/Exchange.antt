-- ===== src/Publisher/Exchange.antt =====
-- rust/publisher/src/main.rs, one exchange with the subscriber, and what the loop needs of a device.
use pub_sub_v4l2_dmabuf_wayl.Base.{
  ℕ, ◌<◌, ◌≡◌, ◌≢◌, refl, sym, ap, ◌∙◌, subst, List, [], ◌∷◌, true, false, some, arith, ◌==◌,
  length, take, ==_iff,
}
use pub_sub_v4l2_dmabuf_wayl.Effect.{other, unexpected_eof, pure, throw}
use pub_sub_v4l2_dmabuf_wayl.Effect.Triple.{Exits, Sat, Sat-bind, Sat-if}
use pub_sub_v4l2_dmabuf_wayl.Platform.{Platform, World, RawFd, Event, sent}
use pub_sub_v4l2_dmabuf_wayl.V4l2.Ioctl.Trace.{noting-trace, Sat-moved}
use pub_sub_v4l2_dmabuf_wayl.V4l2.Capture.{Capture, Method}
use pub_sub_v4l2_dmabuf_wayl.V4l2.Capture.Trace.{
  HasBuffer, untouched, dequeuing, Dequeued, Requeued, dequeue_from-trace, requeue-trace,
}
use pub_sub_v4l2_dmabuf_wayl.V4l2.Capture as Mmap
use pub_sub_v4l2_dmabuf_wayl.V4l2.CaptureDma as Dma
use pub_sub_v4l2_dmabuf_wayl.V4l2.CaptureDma.Trace as DmaTrace
use pub_sub_v4l2_dmabuf_wayl.Wire.{to_ne_bytes}
use pub_sub_v4l2_dmabuf_wayl.Wire.RoundTrip.{take-to_ne_bytes}
use pub_sub_v4l2_dmabuf_wayl.Socket.{send_bytes, recv_bytes, send_idx, wait_for_ack}
use pub_sub_v4l2_dmabuf_wayl.Publisher.{Device, mmap_device, dma_device}
use pub_sub_v4l2_dmabuf_wayl.Publisher.Protocol.{
  Phase, holding, told, acked, broken, Log, tell, hear, tell_failed, tell_short, hear_failed,
  hung_up,
}

-- What the loop needs of a device: it hands out buffers that it has, and takes those back.
pub record IsTraced (S : Platform) (d : Device S) : Type 0 where
  pub dequeue :
      (c : Capture) (w : World S)
      → Sat (λ i s. Dequeued S c w.trace i s) (dequeuing S c w.trace) (d.dequeue (c, w))
  pub requeue :
      (i : ℕ) (c : Capture) (w : World S)
      → HasBuffer i c
      → Sat (λ _ s. Requeued S c w.trace i s) (untouched S c w.trace) (d.requeue i (c, w))

pub mmap_device-IsTraced : (S : Platform) (fuel : ℕ) → IsTraced S (mmap_device S fuel)
unfolding Mmap.dequeue
mmap_device-IsTraced S fuel = record {
  dequeue = λ c w. dequeue_from-trace S fuel S.memory_mmap c w;
  requeue = λ i c w _. requeue-trace S fuel i c w;
}

pub dma_device-IsTraced : (S : Platform) (fuel : ℕ) → IsTraced S (dma_device S fuel)
unfolding Dma.dequeue
dma_device-IsTraced S fuel = record {
  dequeue = λ c w. dequeue_from-trace S fuel S.memory_dmabuf c w;
  requeue = λ i c w h. DmaTrace.requeue-trace S fuel i c w h;
}

length-ne-zero : (bytes : List ℕ) → (length bytes == 0) ≡ false → bytes ≢ []
length-ne-zero [] e = cc
length-ne-zero (b ∷ bytes) e = λ p. cc

length-eq-zero : (bytes : List ℕ) → (length bytes == 0) ≡ true → bytes ≡ []
length-eq-zero [] e = refl
length-eq-zero (b ∷ bytes) e = ground arith

module _ (S : Platform) (dev : RawFd) (client n : ℕ) (t : List Event) where
  abbrev pub At : Phase → List Event → Type 0
  At = Log dev (some client) S.endian n t

  -- An exchange about a buffer that fails, and one that spins, is broken off.
  abbrev pub breaking : ℕ → Exits (World S)
  breaking i = record {
    failing = λ _ w. At (broken i) w.trace;
    panicking = λ _. ⊥;
    spinning = λ w. At (broken i) w.trace;
  }

  pub send_idx-Log :
      (i : ℕ) (w : World S)
      → i < n
      → At (holding i) w.trace
      → Sat (λ _ w'. At (told i) w'.trace) (breaking i) (send_idx S (some client) i w)
  unfolding send_idx
  send_idx-Log i w b l =
      Sat-bind (send_bytes S (some client) (to_ne_bytes S.endian i) []) _ w
        (Sat-moved w.trace _ (noting-trace S _ _ w) (λ _ w' e. rw e (tell_failed i l))
          (λ w' e. rw e (tell_failed i l)))
        λ m w' e.
          Sat-if (m == 4) (pure tt) (throw other) w'
            (λ four. record {
              at = subst (At (told i)) (sym e) (
                  subst (λ bytes. At (told i) (sent (some client) bytes [] ∷ w.trace))
                    (sym (
                      ap (λ k. take k (to_ne_bytes S.endian i)) ((==_iff m 4).0 four)
                      ∙ take-to_ne_bytes S.endian i))
                    (tell i b l));
            })
            (λ _. record { at = rw e (tell_short i m b l) })

  pub wait_for_ack-Log :
      (i : ℕ) (w : World S)
      → At (told i) w.trace
      → Sat (λ _ w'. At (acked i) w'.trace) (breaking i) (wait_for_ack S (some client) w)
  unfolding wait_for_ack
  wait_for_ack-Log i w l =
      Sat-bind (recv_bytes S (some client) 1 false) _ w
        (Sat-moved w.trace _ (noting-trace S _ _ w) (λ _ w' e. rw e (hear_failed i l))
          (λ w' e. rw e (hear_failed i l)))
        λ bytes w' e.
          Sat-if (length bytes == 0) (throw unexpected_eof) (pure tt) w'
            (λ none'. record { at = rw (e, length-eq-zero bytes none') (hung_up i l) })
            (λ some'. record { at = rw e (hear i bytes (length-ne-zero bytes some') l) })
