-- ===== src/V4l2/CaptureDma/Quiet.antt =====
-- rust/common/src/v4l2.rs, V4l2CaptureDma: `start` ends and takes no frame from the driver, and
-- `requeue` ends.
use pub_sub_v4l2_dmabuf_wayl.Base.{
  ℕ, ◌+◌, ◌<◌, refl, List, [], ◌∷◌, Option, none, some, ltb, length, get_elem?,
}
use pub_sub_v4l2_dmabuf_wayl.Effect.{other, throw, pure, lift, guarded}
use pub_sub_v4l2_dmabuf_wayl.Effect.Triple.{Sat, Sat-bind, Sat-bind_lift, Sat-if}
use pub_sub_v4l2_dmabuf_wayl.Platform.{Platform, World, reqbufs, qbuf, close_all}
use pub_sub_v4l2_dmabuf_wayl.V4l2.Ioctl.{try_ioctl}
use pub_sub_v4l2_dmabuf_wayl.V4l2.Ioctl.Termination.{Settles, flowing, try_ioctl-flowing}
use pub_sub_v4l2_dmabuf_wayl.V4l2.Ioctl.Steady.{Sat-never}
use pub_sub_v4l2_dmabuf_wayl.V4l2.Ioctl.Quiet.{try_ioctl-Quiet}
use pub_sub_v4l2_dmabuf_wayl.V4l2.Capture.{Capture, BufInfo, set_buffers, request_arg, dma_buffer}
use pub_sub_v4l2_dmabuf_wayl.V4l2.Capture.Quiet.{
  Calm, set_buffers-Calm, guarded-Calm, stream_on-Calm,
}
use pub_sub_v4l2_dmabuf_wayl.V4l2.CaptureDma.{
  as_u32, queue_buffer, keep_buffer, queue_all, request_dma, start, queue_again, requeue,
}

module _ (S : Platform) (pending : S.State → ℕ) (settles : Settles S pending) (fuel : ℕ)
    (enough : (s : S.State) → pending s < fuel) where
  queue_again-flowing :
      (i : ℕ) (found : Option BufInfo) (c : Capture) (w : World S)
      → Sat (λ _ _. Unit {0}) flowing (queue_again S fuel i found (c, w))
  unfolding queue_again
  queue_again-flowing i none c w = record { at = tt }
  queue_again-flowing i (some b) c w =
      Sat-bind_lift {Q = λ _ _. Unit {0}}
        (try_ioctl S fuel qbuf c.fd (dma_buffer S i b.dmabuf_fd c.size_image)) _ c w
        (try_ioctl-flowing S pending settles fuel qbuf c.fd _ w enough) λ _ _ _. record { at = tt }

  pub requeue-flowing :
      (i : ℕ) (c : Capture) (w : World S) → Sat (λ _ _. Unit {0}) flowing (requeue S fuel i (c, w))
  unfolding requeue
  requeue-flowing i c w = queue_again-flowing i (get_elem? c.buffers i) c w

module _ (S : Platform) (pending : S.State → ℕ) (settles : Settles S pending) (fuel : ℕ)
    (enough : (s : S.State) → pending s < fuel) (n : ℕ) where
  request_dma-Calm :
      (count : ℕ) (s : Capture × World S)
      → Calm S n s
      → Sat (λ _ s'. Calm S n s') flowing (request_dma S fuel count s)
  unfolding request_dma
  request_dma-Calm count (c, w) q =
      Sat-bind_lift (try_ioctl S fuel reqbufs c.fd (request_arg S S.memory_dmabuf count)) _ c w
        (try_ioctl-Quiet S pending settles fuel enough n reqbufs c.fd _ w refl q)
        λ req w' q'.
          Sat-if (ltb req.count 2) (throw other) (pure tt) (c, w') (λ _. record { at = tt })
            (λ _. record { at = q' })

  queue_buffer-Calm :
      (fd i : ℕ) (s : Capture × World S)
      → Calm S n s
      → Sat (λ _ s'. Calm S n s') flowing (queue_buffer S fuel fd i s)
  unfolding queue_buffer
  queue_buffer-Calm fd i (c, w) q =
      Sat-bind_lift (try_ioctl S fuel qbuf c.fd (dma_buffer S (as_u32 i) fd c.size_image)) _ c w
        (try_ioctl-Quiet S pending settles fuel enough n qbuf c.fd _ w refl q)
        λ _ _ q'. record { at = q' }

  queue_all-Calm :
      (fds : List ℕ) (i : ℕ) (s : Capture × World S)
      → Calm S n s
      → Sat (λ _ s'. Calm S n s') flowing (queue_all S fuel fds i s)
  unfolding queue_all keep_buffer
  queue_all-Calm [] i s q = record { at = q }
  queue_all-Calm (fd ∷ fds) i s q =
      Sat-bind (guarded (lift (close_all S (fd ∷ fds))) (queue_buffer S fuel fd i)) _ s
        (guarded-Calm S n (fd ∷ fds) (queue_buffer S fuel fd i) s (queue_buffer-Calm fd i s q))
        λ _ s' q'. queue_all-Calm fds (i + 1) _ q'

  pub start-Calm :
      (fds : List ℕ) (s : Capture × World S)
      → Calm S n s
      → Sat (λ _ s'. Calm S n s') flowing (start S fuel fds s)
  unfolding start
  start-Calm fds s q =
      Sat-bind (guarded (lift (close_all S fds)) (request_dma S fuel (as_u32 (length fds)))) _ s
        (guarded-Calm S n fds (request_dma S fuel (as_u32 (length fds))) s
          (request_dma-Calm (as_u32 (length fds)) s q))
        λ _ s1 q1.
          Sat-bind (set_buffers S []) _ s1 (Sat-never _ (set_buffers-Calm S n [] s1 q1)) λ _ s2 q2.
            Sat-bind (queue_all S fuel fds 0) _ s2 (queue_all-Calm fds 0 s2 q2)
              λ _ s3 q3. stream_on-Calm S pending settles fuel enough n s3 q3
