-- ===== src/V4l2/Heap/Ownership.antt =====
-- rust/common/src/v4l2.rs, `alloc_dma_heap`: the descriptors that it opens.
use pub_sub_v4l2_dmabuf_wayl.Base.{
  ℕ, zero, suc, ◌+◌, ◌≡◌, List, [], ◌∷◌, ◌++◌, none, some, arith, count-append, length,
  length-append,
}
use pub_sub_v4l2_dmabuf_wayl.Effect.Triple.{Sat, Sat-bind, Sat-weaken}
use pub_sub_v4l2_dmabuf_wayl.Platform.{
  Platform, World, opening, heap_alloc, o_rdwr, o_cloexec, close_fd, close_all,
}
use pub_sub_v4l2_dmabuf_wayl.Platform.Descriptors.{
  Owns, Owns-same, holding, close_fd-Owns, close_all-Owns,
}
use pub_sub_v4l2_dmabuf_wayl.V4l2.Ioctl.{xioctl, cstring}
use pub_sub_v4l2_dmabuf_wayl.V4l2.Ioctl.Ownership.{xioctl-Owns, cstring-Owns, opening-Owns}
use pub_sub_v4l2_dmabuf_wayl.V4l2.Heap.{allocation, give_up, alloc_loop, alloc_dma_heap}

module _ (S : Platform) (fds : List ℕ) (fuel : ℕ) where
  give_up-Owns :
      (heap : ℕ) (got : List ℕ) {Q : List ℕ → World S → Type 0} (w : World S)
      → Owns (heap ∷ got ++ fds) w.trace
      → Sat Q (holding S fds) (give_up S fuel heap got w)
  unfolding give_up
  give_up-Owns heap got w o =
      Sat-bind (close_fd S (some heap)) _ w (close_fd-Owns S heap (got ++ fds) w o) λ _ w₁ o₁.
        Sat-bind (close_all S got) _ w₁ (close_all-Owns S got fds w₁ o₁)
          λ _ w₂ o₂. record { at = o₂ }

  alloc_loop-Owns :
      (heap size n : ℕ) (got : List ℕ) (w : World S)
      → Owns (heap ∷ (got ++ fds)) w.trace
      → Sat
          (λ all w'. (length all ≡ length got + n) × Owns (heap ∷ (all ++ fds)) w'.trace)
          (holding S fds)
          (alloc_loop S fuel heap size n got w)
  unfolding alloc_loop
  alloc_loop-Owns heap size zero got w o = record { at = (omega arith, o) }
  alloc_loop-Owns heap size (suc n) got w o =
      Sat-bind (xioctl S fuel heap_alloc (some heap) (allocation S fuel size)) _ w
        (xioctl-Owns S (heap ∷ (got ++ fds)) fuel heap_alloc (some heap) _ w o (λ _. tt))
        (elim [
          | none ↦ λ w' h. give_up-Owns heap got w' h
          | some a ↦ λ w' h.
              Sat-weaken {Y = holding S fds} (alloc_loop S fuel heap size n (got ++ a.fd ∷ []) w')
                (alloc_loop-Owns heap size n (got ++ a.fd ∷ []) w' (
                  Owns-same
                    (λ fd. omega (
                      arith,
                      count-append fd got fds,
                      count-append fd (got ++ a.fd ∷ []) fds,
                      count-append fd got (a.fd ∷ []),
                    ))
                    h))
                (λ all w'' k. (omega (arith, k.0, length-append got (a.fd ∷ [])), k.1)) (λ _ _ k. k)
                (λ _ k. k) (λ _ k. k)
        ])

  -- If the process holds the descriptors `fds`, success adds the returned ones to them, as many as
  -- were asked for, and nothing else: the heap has been closed. After a failure or a panic the
  -- process holds `fds`.
  pub alloc_dma_heap-Owns :
      (heap_path : List ℕ) (size n : ℕ) (w : World S)
      → Owns fds w.trace
      → Sat
          (λ all w'. (length all ≡ n) × Owns (all ++ fds) w'.trace)
          (holding S fds)
          (alloc_dma_heap S fuel heap_path size n w)
  unfolding alloc_dma_heap
  alloc_dma_heap-Owns heap_path size n w o =
      Sat-bind (cstring heap_path) _ w (cstring-Owns S fds heap_path w o) λ path w₁ o₁.
        Sat-bind (opening S (S.open_file path (o_rdwr ∷ o_cloexec ∷ []))) _ w₁
          (opening-Owns S fds _ w₁ o₁)
          λ heap w₂ o₂.
            Sat-bind (alloc_loop S fuel heap size n []) _ w₂ (alloc_loop-Owns heap size n [] w₂ o₂)
              λ all w₃ o₃.
                Sat-bind (close_fd S (some heap)) _ w₃ (close_fd-Owns S heap (all ++ fds) w₃ o₃.1)
                  λ _ w₄ o₄. record { at = (omega (arith, o₃.0), o₄) }
