-- ===== src/V4l2/CaptureDma/Trace.antt =====
-- `requeue` of `V4l2CaptureDma`, for a buffer that the capture has.
use pub_sub_v4l2_dmabuf_wayl.Base.{ℕ, ◌≡◌, refl, Option, none, some, get_elem?}
use pub_sub_v4l2_dmabuf_wayl.Effect.Triple.{Sat, Sat-bind_lift}
use pub_sub_v4l2_dmabuf_wayl.Platform.{Platform, World, qbuf}
use pub_sub_v4l2_dmabuf_wayl.V4l2.Ioctl.{try_ioctl}
use pub_sub_v4l2_dmabuf_wayl.V4l2.Ioctl.Trace.{Sat-moved, try_ioctl-trace}
use pub_sub_v4l2_dmabuf_wayl.V4l2.Capture.{Capture, BufInfo, dma_buffer}
use pub_sub_v4l2_dmabuf_wayl.V4l2.Capture.Trace.{HasBuffer, untouched, Requeued}
use pub_sub_v4l2_dmabuf_wayl.V4l2.CaptureDma.{queue_again, requeue}

module _ (S : Platform) (fuel : ℕ) where
  queue_again-trace :
      (i : ℕ) (c : Capture) (w : World S) (b : BufInfo) (found : Option BufInfo)
      → found ≡ some b
      → Sat
          (λ _ s. Requeued S c w.trace i s)
          (untouched S c w.trace)
          (queue_again S fuel i found (c, w))
  unfolding queue_again
  queue_again-trace i c w b none e = cc
  queue_again-trace i c w b (some x) e =
      Sat-bind_lift (try_ioctl S fuel qbuf c.fd (dma_buffer S i x.dmabuf_fd c.size_image)) _ c w
        (Sat-moved w.trace (try_ioctl S fuel qbuf c.fd (dma_buffer S i x.dmabuf_fd c.size_image) w)
          (try_ioctl-trace S fuel qbuf c.fd _ w) (λ _ _ e'. ((refl, refl), e'))
          (λ _ e'. ((refl, refl), e')))
        λ _ w' e'. record { at = ((refl, refl), e') }

  pub requeue-trace :
      (i : ℕ) (c : Capture) (w : World S)
      → HasBuffer i c
      → Sat (λ _ s. Requeued S c w.trace i s) (untouched S c w.trace) (requeue S fuel i (c, w))
  unfolding requeue
  requeue-trace i c w (b, e) = queue_again-trace i c w b (get_elem? c.buffers i) e
