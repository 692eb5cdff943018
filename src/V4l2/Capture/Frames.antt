-- ===== src/V4l2/Capture/Frames.antt =====
-- rust/common/src/v4l2.rs: the descriptors in `dequeue` and `requeue`.
use pub_sub_v4l2_dmabuf_wayl.Base.{
  ℕ, zero, suc, ◌≡◌, refl, ap, sym, subst, List, [], ◌∷◌, ◌++◌, Option, none, some, ◌==◌, get_elem?,
  set,
}
use pub_sub_v4l2_dmabuf_wayl.Effect.{timed_out, pure, throw}
use pub_sub_v4l2_dmabuf_wayl.Effect.Triple.{Sat, Sat-bind, Sat-bind_lift, Sat-if}
use pub_sub_v4l2_dmabuf_wayl.Platform.{Platform, World, RawFd, dqbuf, qbuf, calling}
use pub_sub_v4l2_dmabuf_wayl.Platform.Descriptors.{Owns, holding}
use pub_sub_v4l2_dmabuf_wayl.V4l2.Ioctl.{try_ioctl}
use pub_sub_v4l2_dmabuf_wayl.V4l2.Ioctl.Ownership.{try_ioctl-Owns, calling-Owns}
use pub_sub_v4l2_dmabuf_wayl.V4l2.Capture.{
  Capture, BufInfo, dmabuf_fds, buffer_arg, wait_readable, write_bytesused, note_bytesused,
  dequeue_from, requeue,
}
use pub_sub_v4l2_dmabuf_wayl.V4l2.Capture.Ownership.{held, raw_fds, Holds, owning}

dmabuf_fds-set :
    (bs : List BufInfo) (i n : ℕ) (b : BufInfo)
    → get_elem? bs i ≡ some b
    → dmabuf_fds (set bs i (record b { bytesused = n })) ≡ dmabuf_fds bs
dmabuf_fds-set [] i n b e = refl
dmabuf_fds-set (x ∷ bs) zero n b e = cc
dmabuf_fds-set (x ∷ bs) (suc i) n b e = ap (λ fds. x.dmabuf_fd ∷ fds) (dmabuf_fds-set bs i n b e)

module _ (S : Platform) (fds : List ℕ) (fuel : ℕ) where
  wait_readable-Owns :
      (fd : RawFd) (w : World S)
      → Owns fds w.trace
      → Sat (λ _ w'. Owns fds w'.trace) (holding S fds) (wait_readable S fuel fd w)
  unfolding wait_readable
  wait_readable-Owns fd w o =
      Sat-bind (calling S (S.select fd 2)) _ w (calling-Owns S fds (S.select fd 2) w o) λ n w' o'.
        Sat-if (n == 0) (throw timed_out) (pure tt) w' (λ _. record { at = o' })
          (λ _. record { at = o' })

module _ (S : Platform) (fds : List ℕ) (fuel : ℕ) where
  write_bytesused-Owns :
      (i n : ℕ) (c : Capture) (w : World S) (found : Option BufInfo)
      → get_elem? c.buffers i ≡ found
      → Holds S fds (c, w)
      → Sat (λ _ s. Holds S fds s) (owning S fds) (write_bytesused S fuel i n found (c, w))
  unfolding write_bytesused
  write_bytesused-Owns i n c w none e o = record { at = o }
  write_bytesused-Owns i n c w (some b) e o = record {
    at =
        subst (λ xs. Owns (raw_fds c.fd ++ (xs ++ fds)) w.trace)
          (sym (dmabuf_fds-set c.buffers i n b e)) o;
  }

  pub dequeue_from-Owns :
      (memory : ℕ) (c : Capture) (w : World S)
      → Holds S fds (c, w)
      → Sat (λ _ s. Holds S fds s) (owning S fds) (dequeue_from S fuel memory (c, w))
  unfolding dequeue_from note_bytesused
  dequeue_from-Owns memory c w o =
      Sat-bind_lift (wait_readable S fuel c.fd) _ c w
        (wait_readable-Owns S (held c fds) fuel c.fd w o)
        λ _ w₁ o₁.
          Sat-bind_lift (try_ioctl S fuel dqbuf c.fd (buffer_arg S memory 0)) _ c w₁
            (try_ioctl-Owns S (held c fds) fuel dqbuf c.fd _ w₁ o₁)
            λ buf w₂ o₂.
              Sat-bind (note_bytesused S fuel buf.index buf.bytesused) _ (c, w₂)
                (write_bytesused-Owns buf.index buf.bytesused c w₂ (get_elem? c.buffers buf.index)
                  refl o₂)
                λ _ s o₃. record { at = o₃ }

  pub requeue-Owns :
      (index : ℕ) (c : Capture) (w : World S)
      → Holds S fds (c, w)
      → Sat (λ _ s. Holds S fds s) (owning S fds) (requeue S fuel index (c, w))
  unfolding requeue
  requeue-Owns index c w o =
      Sat-bind_lift (try_ioctl S fuel qbuf c.fd (buffer_arg S S.memory_mmap index)) _ c w
        (try_ioctl-Owns S (held c fds) fuel qbuf c.fd _ w o) λ _ w' o'. record { at = o' }
