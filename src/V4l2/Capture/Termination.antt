-- ===== src/V4l2/Capture/Termination.antt =====
-- rust/common/src/v4l2.rs, V4l2Capture: the end of `dequeue` and `requeue`.
use pub_sub_v4l2_dmabuf_wayl.Base.{ℕ, ◌<◌, Option, none, some, ◌==◌, get_elem?}
use pub_sub_v4l2_dmabuf_wayl.Effect.{timed_out, pure, throw}
use pub_sub_v4l2_dmabuf_wayl.Effect.Triple.{Sat, Sat-bind, Sat-bind_lift, Sat-if}
use pub_sub_v4l2_dmabuf_wayl.Platform.{Platform, World, RawFd, dqbuf, qbuf, syscall, calling}
use pub_sub_v4l2_dmabuf_wayl.V4l2.Ioctl.{try_ioctl}
use pub_sub_v4l2_dmabuf_wayl.V4l2.Ioctl.Trace.{syscall-trace}
use pub_sub_v4l2_dmabuf_wayl.V4l2.Ioctl.Termination.{Settles, flowing, try_ioctl-flowing}
use pub_sub_v4l2_dmabuf_wayl.V4l2.Capture.{
  Capture, BufInfo, buffer_arg, wait_readable, write_bytesused, note_bytesused, dequeue_from,
  requeue,
}

module _ (S : Platform) (pending : S.State → ℕ) (settles : Settles S pending) (fuel : ℕ)
    (enough : (s : S.State) → pending s < fuel) where
  wait_readable-flowing :
      (fd : RawFd) (w : World S) → Sat (λ _ _. Unit {0}) flowing (wait_readable S fuel fd w)
  unfolding wait_readable
  wait_readable-flowing fd w =
      Sat-bind {Q = λ _ _. Unit {0}} (calling S (S.select fd 2)) _ w
        (Sat-bind (syscall S (S.select fd 2) _) _ w (syscall-trace S (S.select fd 2) _ w)
          (elim [ none ↦ λ _ _. record { at = tt } | some n ↦ λ _ _. record { at = tt } ]))
        λ n w' _.
          Sat-if (n == 0) (throw timed_out) (pure tt) w' (λ _. record { at = tt })
            (λ _. record { at = tt })

  write_bytesused-flowing :
      (i n : ℕ) (b : Option BufInfo) (c : Capture) (w : World S)
      → Sat (λ _ _. Unit {0}) flowing (write_bytesused S fuel i n b (c, w))
  unfolding write_bytesused
  write_bytesused-flowing i n none c w = record { at = tt }
  write_bytesused-flowing i n (some b) c w = record { at = tt }

  pub dequeue_from-flowing :
      (memory : ℕ) (c : Capture) (w : World S)
      → Sat (λ _ _. Unit {0}) flowing (dequeue_from S fuel memory (c, w))
  unfolding dequeue_from note_bytesused
  dequeue_from-flowing memory c w =
      Sat-bind_lift {Q = λ _ _. Unit {0}} (wait_readable S fuel c.fd) _ c w
        (wait_readable-flowing c.fd w)
        λ _ w1 _.
          Sat-bind_lift {Q = λ _ _. Unit {0}} (try_ioctl S fuel dqbuf c.fd (buffer_arg S memory 0))
            _ c w1 (try_ioctl-flowing S pending settles fuel dqbuf c.fd _ w1 enough)
            λ buf w2 _.
              Sat-bind {Q = λ _ _. Unit {0}} (note_bytesused S fuel buf.index buf.bytesused) _
                (c, w2)
                (write_bytesused-flowing buf.index buf.bytesused (get_elem? c.buffers buf.index) c
                  w2)
                λ _ _ _. record { at = tt }

  pub requeue-flowing :
      (i : ℕ) (c : Capture) (w : World S) → Sat (λ _ _. Unit {0}) flowing (requeue S fuel i (c, w))
  unfolding requeue
  requeue-flowing i c w =
      Sat-bind_lift {Q = λ _ _. Unit {0}}
        (try_ioctl S fuel qbuf c.fd (buffer_arg S S.memory_mmap i)) _ c w
        (try_ioctl-flowing S pending settles fuel qbuf c.fd _ w enough) λ _ _ _. record { at = tt }
