-- ===== src/V4l2/CaptureDma/Ownership.antt =====
-- rust/common/src/v4l2.rs, `V4l2CaptureDma`: the descriptors that it is given, and its own.
use pub_sub_v4l2_dmabuf_wayl.Base.{
  ℕ, ◌+◌, List, [], ◌∷◌, ◌++◌, Option, none, some, arith, ltb, count-append, length, get_elem?,
}
use pub_sub_v4l2_dmabuf_wayl.Effect.{other, pure, throw, panics, ◌>>◌, lift, guarded}
use pub_sub_v4l2_dmabuf_wayl.Effect.Triple.{Sat, Sat-bind, Sat-bind_lift, Sat-if}
use pub_sub_v4l2_dmabuf_wayl.Effect.Scopes.{Sat-guarded}
use pub_sub_v4l2_dmabuf_wayl.Platform.{Platform, World, reqbufs, qbuf, close_all}
use pub_sub_v4l2_dmabuf_wayl.Platform.Descriptors.{Owns, Owns-same, holding, close_all-Owns}
use pub_sub_v4l2_dmabuf_wayl.V4l2.Ioctl.{try_ioctl}
use pub_sub_v4l2_dmabuf_wayl.V4l2.Ioctl.Ownership.{try_ioctl-Owns}
use pub_sub_v4l2_dmabuf_wayl.V4l2.Capture.{
  Capture, BufInfo, Method, set_buffers, request_arg, dma_buffer, stop_streaming,
}
use pub_sub_v4l2_dmabuf_wayl.V4l2.Capture.Ownership.{
  held, Holds, owning, count-held, count-push, open_device-Owns as open_mmap-Owns, set_buffers-Owns,
  stream_on-Owns,
}
use pub_sub_v4l2_dmabuf_wayl.V4l2.Capture.Release.{
  quiet, IsStopped, stop_streaming-Owns, close_device-Owns,
}
use pub_sub_v4l2_dmabuf_wayl.V4l2.CaptureDma.{
  as_u32, open_device, queue_buffer, keep_buffer, queue_all, queue_again, requeue, request_dma,
  start, drop_capture,
}

module _ (S : Platform) (fds : List ℕ) (fuel : ℕ) where
  pub open_device-Owns :
      (device : List ℕ) (width height pixel_format : ℕ) (w : World S)
      → Owns fds w.trace
      → Sat
          (λ c w'. Owns (held c fds) w'.trace)
          (holding S fds)
          (open_device S fuel device width height pixel_format w)
  unfolding open_device
  open_device-Owns = open_mmap-Owns S fds fuel

  -- A step of `start` that leaves the descriptors `rest` to be dropped if it fails.
  guarded-Owns :
      (rest : List ℕ) (m : Method S (Unit {0})) (c : Capture) (w : World S)
      → Sat (λ _ s. Owns (held s.0 (rest ++ fds)) s.1.trace) (owning S (rest ++ fds)) (m (c, w))
      → Sat
          (λ _ s. Owns (held s.0 (rest ++ fds)) s.1.trace)
          (owning S fds)
          (guarded (lift (close_all S rest)) m (c, w))
  guarded-Owns rest m c w h =
      Sat-guarded {Y = owning S (rest ++ fds)} (lift (close_all S rest)) m (c, w) h
        (λ e s o. dropping (throw e) s o (λ _ o'. record { at = o' }))
        (λ s o. dropping panics s o (λ _ o'. record { at = o' })) (λ _ _. tt)
    where
      Kept : Unit {0} → Capture × World S → Type 0
      Kept _ s = Owns (held s.0 (rest ++ fds)) s.1.trace

      dropping :
          (k : Method S (Unit {0})) (s : Capture × World S)
          → Owns (held s.0 (rest ++ fds)) s.1.trace
          → ((w' : World S) → Owns (held s.0 fds) w'.trace → Sat Kept (owning S fds) (k (s.0, w')))
          → Sat Kept (owning S fds) ((lift (close_all S rest) >> k) s)
      dropping k s o next =
          Sat-bind_lift (close_all S rest) _ s.0 s.1
            (close_all-Owns S rest (held s.0 fds) s.1 (
              Owns-same
                (λ fd. omega (
                  arith,
                  count-held fd s.0 (rest ++ fds),
                  count-held fd s.0 fds,
                  count-append fd rest fds,
                  count-append fd rest (held s.0 fds),
                ))
                o))
            (λ _ w' o'. next w' o')

  request_dma-Owns :
      (n : ℕ) (c : Capture) (w : World S)
      → Holds S fds (c, w)
      → Sat (λ _ s. Holds S fds s) (owning S fds) (request_dma S fuel n (c, w))
  unfolding request_dma
  request_dma-Owns n c w o =
      Sat-bind_lift (try_ioctl S fuel reqbufs c.fd (request_arg S S.memory_dmabuf n)) _ c w
        (try_ioctl-Owns S (held c fds) fuel reqbufs c.fd _ w o)
        λ req w₁ o₁.
          Sat-if (ltb req.count 2) (throw other) (pure tt) (c, w₁) (λ _. record { at = o₁ })
            (λ _. record { at = o₁ })

  queue_buffer-Owns :
      (fd i : ℕ) (c : Capture) (w : World S)
      → Holds S fds (c, w)
      → Sat (λ _ s. Holds S fds s) (owning S fds) (queue_buffer S fuel fd i (c, w))
  unfolding queue_buffer
  queue_buffer-Owns fd i c w o =
      Sat-bind_lift (try_ioctl S fuel qbuf c.fd (dma_buffer S (as_u32 i) fd c.size_image)) _ c w
        (try_ioctl-Owns S (held c fds) fuel qbuf c.fd _ w o) λ _ w₁ o₁. record { at = o₁ }

module _ (S : Platform) (fds : List ℕ) (fuel : ℕ) where
  queue_all-Owns :
      (gone : List ℕ) (i : ℕ) (c : Capture) (w : World S)
      → Owns (held c (gone ++ fds)) w.trace
      → Sat (λ _ s. Holds S fds s) (owning S fds) (queue_all S fuel gone i (c, w))
  unfolding queue_all keep_buffer
  queue_all-Owns [] i c w o = record { at = o }
  queue_all-Owns (fd ∷ rest) i c w o =
      Sat-bind (guarded (lift (close_all S (fd ∷ rest))) (queue_buffer S fuel fd i)) _ (c, w)
        (guarded-Owns S fds fuel (fd ∷ rest) (queue_buffer S fuel fd i) c w
          (queue_buffer-Owns S (fd ∷ rest ++ fds) fuel fd i c w o))
        λ _ s o'.
          queue_all-Owns rest (i + 1)
            (record s.0 {
              buffers =
                  s.0.buffers
                  ++ (record {
                    dmabuf_fd = fd;
                    index = as_u32 i;
                    length = s.0.size_image;
                    bytesused = 0;
                  }
                      ∷ []);
            })
            s.1
            (Owns-same
              (λ a. omega (
                arith,
                count-held a s.0 (fd ∷ rest ++ fds),
                count-held a
                    (record s.0 {
                      buffers =
                          s.0.buffers
                          ++ (record {
                            dmabuf_fd = fd;
                            index = as_u32 i;
                            length = s.0.size_image;
                            bytesused = 0;
                          }
                              ∷ []);
                    })
                    (rest ++ fds),
                count-push a s.0.buffers (record {
                  dmabuf_fd = fd;
                  index = as_u32 i;
                  length = s.0.size_image;
                  bytesused = 0;
                }),
              ))
              o')

  -- The descriptors given to `start` are its own from then on. If the process held them, the
  -- capture's and `fds`, then at every return, failure or panic it holds those in the capture's
  -- buffer list, its device and `fds`: each one given is in the list or has been closed.
  pub start-Owns :
      (given : List ℕ) (c : Capture) (w : World S)
      → Owns (held c (given ++ fds)) w.trace
      → Sat (λ _ s. Holds S fds s) (owning S fds) (start S fuel given (c, w))
  unfolding start
  start-Owns given c w o =
      Sat-bind (guarded (lift (close_all S given)) (request_dma S fuel (as_u32 (length given)))) _
        (c, w)
        (guarded-Owns S fds fuel given (request_dma S fuel (as_u32 (length given))) c w
          (request_dma-Owns S (given ++ fds) fuel _ c w o))
        λ _ s₁ o₁.
          Sat-bind (set_buffers S []) _ s₁ (set_buffers-Owns S (given ++ fds) fuel s₁.0 s₁.1 o₁)
            λ _ s₂ o₂.
              Sat-bind (queue_all S fuel given 0) _ s₂ (queue_all-Owns given 0 s₂.0 s₂.1 o₂.1)
                λ _ s₃ o₃. stream_on-Owns S fds fuel s₃.0 s₃.1 o₃

  pub drop_capture-Owns :
      (c : Capture) (w : World S)
      → Holds S fds (c, w)
      → Sat (λ _ s. IsStopped S fds fuel none s) (quiet S fds fuel) (drop_capture S fuel (c, w))
  unfolding drop_capture
  drop_capture-Owns c w o =
      Sat-bind (stop_streaming S fuel S.memory_dmabuf) _ (c, w)
        (stop_streaming-Owns S fds fuel S.memory_dmabuf c w o)
        λ _ s h. close_device-Owns S fds fuel c.fd s h

  queue_again-Owns :
      (index : ℕ) (found : Option BufInfo) (c : Capture) (w : World S)
      → Holds S fds (c, w)
      → Sat (λ _ s. Holds S fds s) (owning S fds) (queue_again S fuel index found (c, w))
  unfolding queue_again
  queue_again-Owns index none c w o = record { at = o }
  queue_again-Owns index (some b) c w o =
      Sat-bind_lift (try_ioctl S fuel qbuf c.fd (dma_buffer S index b.dmabuf_fd c.size_image)) _ c w
        (try_ioctl-Owns S (held c fds) fuel qbuf c.fd _ w o) λ _ w' o'. record { at = o' }

  pub requeue-Owns :
      (index : ℕ) (c : Capture) (w : World S)
      → Holds S fds (c, w)
      → Sat (λ _ s. Holds S fds s) (owning S fds) (requeue S fuel index (c, w))
  unfolding requeue
  requeue-Owns index c w o = queue_again-Owns index (get_elem? c.buffers index) c w o
