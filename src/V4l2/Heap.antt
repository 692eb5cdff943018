-- ===== src/V4l2/Heap.antt =====
-- rust/common/src/v4l2.rs: `alloc_dma_heap`.
pub mod Ownership
pub mod Quiet
use pub_sub_v4l2_dmabuf_wayl.Base.{ℕ, zero, suc, List, [], ◌∷◌, ◌++◌, none, some}
use pub_sub_v4l2_dmabuf_wayl.Effect.{os, pure, throw, ◌>>=◌, ◌>>◌, state}
use pub_sub_v4l2_dmabuf_wayl.Platform.{
  Platform, Io, opening, heap_alloc, o_rdwr, o_cloexec, close_fd, close_all,
}
use pub_sub_v4l2_dmabuf_wayl.V4l2.Structs.{DmaHeapAllocationData}
use pub_sub_v4l2_dmabuf_wayl.V4l2.Ioctl.{xioctl, cstring}

module _ (S : Platform) (fuel : ℕ) where
  abbrev allocation : ℕ → DmaHeapAllocationData
  allocation size = record { len = size; fd = 0; fd_flags = S.o_cloexec_rdwr; heap_flags = 0 }

  -- The early return: the error is read first, then the heap and the descriptors so far go.
  give_up : ℕ → List ℕ → Io S (List ℕ)
  give_up heap_fd fds = do
    e ← state (λ w. w.errno)
    close_fd S (some heap_fd)
    close_all S fds
    throw (os e)

  alloc_loop : ℕ → ℕ → ℕ → List ℕ → Io S (List ℕ)
  alloc_loop heap_fd size zero fds = pure fds
  alloc_loop heap_fd size (suc n) fds = do
    r ← xioctl S fuel heap_alloc (some heap_fd) (allocation size)
    elim r [ none ↦ give_up heap_fd fds | some a ↦ alloc_loop heap_fd size n (fds ++ (a.fd ∷ [])) ]

  unfoldable pub alloc_dma_heap : List ℕ → ℕ → ℕ → Io S (List ℕ)
  unfolding alloc_loop give_up
  alloc_dma_heap heap_path size count = do
    path ← cstring heap_path
    heap_fd ← opening S (S.open_file path (o_rdwr ∷ o_cloexec ∷ []))
    fds ← alloc_loop heap_fd size count []
    close_fd S (some heap_fd)
    pure fds
