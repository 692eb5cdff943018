-- ===== src/V4l2/Heap/Quiet.antt =====
-- rust/common/src/v4l2.rs, alloc_dma_heap: it ends, and takes no frame from the driver.
use pub_sub_v4l2_dmabuf_wayl.Base.{ℕ, zero, suc, ◌<◌, refl, List, [], ◌∷◌, ◌++◌, none, some}
use pub_sub_v4l2_dmabuf_wayl.Effect.Triple.{Sat, Sat-bind}
use pub_sub_v4l2_dmabuf_wayl.Platform.{Platform, World, opening, heap_alloc, close_fd, close_all}
use pub_sub_v4l2_dmabuf_wayl.V4l2.Ioctl.{xioctl, cstring}
use pub_sub_v4l2_dmabuf_wayl.V4l2.Ioctl.Termination.{Settles, flowing}
use pub_sub_v4l2_dmabuf_wayl.V4l2.Ioctl.Steady.{
  Sat-never, close_fd-Level, close_all-ends, opening-Level,
}
use pub_sub_v4l2_dmabuf_wayl.V4l2.Ioctl.Quiet.{Quiet, cstring-Quiet, xioctl-Quiet, frames-Steady}
use pub_sub_v4l2_dmabuf_wayl.Platform.Buffers.{frames}
use pub_sub_v4l2_dmabuf_wayl.V4l2.Heap.{allocation, give_up, alloc_loop, alloc_dma_heap}

module _ (S : Platform) (pending : S.State → ℕ) (settles : Settles S pending) (fuel : ℕ)
    (enough : (s : S.State) → pending s < fuel) (n : ℕ) where
  give_up-Quiet :
      (heap_fd : ℕ) (fds : List ℕ) (w : World S)
      → Quiet S n w
      → Sat (λ _ w'. Quiet S n w') flowing (give_up S fuel heap_fd fds w)
  unfolding give_up
  give_up-Quiet heap_fd fds w q =
      Sat-bind (close_fd S (some heap_fd)) _ w
        (Sat-never _ (close_fd-Level S frames frames-Steady n (some heap_fd) w q))
        λ _ w' _.
          Sat-bind {Q = λ _ _. Unit {0}} (close_all S fds) _ w'
            (Sat-never _ (close_all-ends S fds w')) (λ _ _ _. record { at = tt })

  alloc_loop-Quiet :
      (heap_fd size k : ℕ) (fds : List ℕ) (w : World S)
      → Quiet S n w
      → Sat (λ _ w'. Quiet S n w') flowing (alloc_loop S fuel heap_fd size k fds w)
  unfolding alloc_loop
  alloc_loop-Quiet heap_fd size zero fds w q = record { at = q }
  alloc_loop-Quiet heap_fd size (suc k) fds w q =
      Sat-bind (xioctl S fuel heap_alloc (some heap_fd) (allocation S fuel size)) _ w
        (Sat-never _
          (xioctl-Quiet S pending settles fuel enough n heap_alloc (some heap_fd) _ w refl q))
        (elim [
          | none ↦ λ w' q'. give_up-Quiet heap_fd fds w' q'
          | some a ↦ λ w' q'. alloc_loop-Quiet heap_fd size k (fds ++ (a.fd ∷ [])) w' q'
        ])

  pub alloc_dma_heap-Quiet :
      (path : List ℕ) (size count : ℕ) (w : World S)
      → Quiet S n w
      → Sat (λ _ w'. Quiet S n w') flowing (alloc_dma_heap S fuel path size count w)
  unfolding alloc_dma_heap
  alloc_dma_heap-Quiet path size count w q =
      Sat-bind (cstring path) _ w (cstring-Quiet S n path w q) λ path' w1 q1.
        Sat-bind (opening S (S.open_file path' _)) _ w1
          (opening-Level S frames frames-Steady n (S.open_file path' _) w1 q1)
          λ heap_fd w2 q2.
            Sat-bind (alloc_loop S fuel heap_fd size count []) _ w2
              (alloc_loop-Quiet heap_fd size count [] w2 q2)
              λ fds w3 q3.
                Sat-bind (close_fd S (some heap_fd)) _ w3
                  (Sat-never _ (close_fd-Level S frames frames-Steady n (some heap_fd) w3 q3))
                  (λ _ _ q4. record { at = q4 })
