-- ===== src/Publisher/Ownership.antt =====
-- rust/publisher/src/main.rs and rust/publisher/src/publisher_dma.rs: the descriptors of a whole run.
use pub_sub_v4l2_dmabuf_wayl.Base.{ℕ, List, ◌++◌, Option, none, some, arith, count-append}
use pub_sub_v4l2_dmabuf_wayl.Effect.Triple.{Sat, Sat-bind, Sat-bind_lift, Sat-weaken}
use pub_sub_v4l2_dmabuf_wayl.Effect.Scopes.{Sat-scoped, dropping}
use pub_sub_v4l2_dmabuf_wayl.Platform.{Platform, World}
use pub_sub_v4l2_dmabuf_wayl.Platform.Descriptors.{Owns, Owns-same, holding}
use pub_sub_v4l2_dmabuf_wayl.V4l2.Format.{v4l2_to_drm_fourcc}
use pub_sub_v4l2_dmabuf_wayl.V4l2.Capture.{Capture, Method, self, dmabuf_fds}
use pub_sub_v4l2_dmabuf_wayl.V4l2.Capture as Mmap
use pub_sub_v4l2_dmabuf_wayl.V4l2.CaptureDma as Dma
use pub_sub_v4l2_dmabuf_wayl.V4l2.Capture.Ownership.{
  held, Holds, owning, count-held, open_device-Owns, start-Owns,
}
use pub_sub_v4l2_dmabuf_wayl.V4l2.Capture.Release.{quiet, drop_capture-Owns}
use pub_sub_v4l2_dmabuf_wayl.V4l2.Capture.Frames.{dequeue_from-Owns, requeue-Owns}
use pub_sub_v4l2_dmabuf_wayl.V4l2.CaptureDma.Ownership as DmaOwnership
use pub_sub_v4l2_dmabuf_wayl.V4l2.Heap.{alloc_dma_heap}
use pub_sub_v4l2_dmabuf_wayl.V4l2.Heap.Ownership.{alloc_dma_heap-Owns}
use pub_sub_v4l2_dmabuf_wayl.Publisher.Rounds.{IsOwning}
use pub_sub_v4l2_dmabuf_wayl.Publisher.{
  Options, mmap_device, dma_device, or_no_fourcc, mmap_session, publisher, dma_session,
  publisher_dma,
}
use pub_sub_v4l2_dmabuf_wayl.Publisher.Sessions.{publish-Owns}

module _ (S : Platform) (fds : List ℕ) (fuel rounds : ℕ) where
  or_no_fourcc-Owns :
      (o : Option ℕ) (s : Capture × World S)
      → Holds S fds s
      → Sat (λ _ s'. Holds S fds s') (owning S fds) (or_no_fourcc o s)
  or_no_fourcc-Owns none s h = record { at = h }
  or_no_fourcc-Owns (some f) s h = record { at = h }

  mmap_device-IsOwning : (xs : List ℕ) → IsOwning S xs (mmap_device S fuel)
  unfolding Mmap.dequeue
  mmap_device-IsOwning xs = record {
    dequeue = λ c w h. dequeue_from-Owns S xs fuel S.memory_mmap c w h;
    requeue = λ i c w h. requeue-Owns S xs fuel i c w h;
  }

  dma_device-IsOwning : (xs : List ℕ) → IsOwning S xs (dma_device S fuel)
  unfolding Dma.dequeue
  dma_device-IsOwning xs = record {
    dequeue = λ c w h. dequeue_from-Owns S xs fuel S.memory_dmabuf c w h;
    requeue = λ i c w h. DmaOwnership.requeue-Owns S xs fuel i c w h;
  }

  mmap_session-Owns :
      (path : List ℕ) (s : Capture × World S)
      → Holds S fds s
      → Sat (λ _ s'. Holds S fds s') (owning S fds) (mmap_session S fuel rounds path s)
  unfolding mmap_session
  mmap_session-Owns path s h =
      Sat-bind (Mmap.start S fuel 4) _ s (start-Owns S fds fuel 4 s.0 s.1 h) λ _ s₁ h₁.
        Sat-bind (or_no_fourcc (v4l2_to_drm_fourcc S.consts s₁.0.pixel_format)) _ s₁
          (or_no_fourcc-Owns _ s₁ h₁)
          λ format s₂ h₂.
            publish-Owns S fds (mmap_device S fuel) mmap_device-IsOwning rounds path format s₂ h₂

  -- Whatever the platform answers, if the publisher starts with the descriptors `fds` and returns,
  -- fails or panics, it then holds those and no other: each one that it opened has been closed.
  pub publisher-Owns :
      (o : Options) (w : World S)
      → Owns fds w.trace
      → Sat (λ _ w'. Owns fds w'.trace) (holding S fds) (publisher S fuel rounds o w)
  unfolding publisher
  publisher-Owns o w h =
      Sat-bind (Mmap.open_device S fuel o.device o.width o.height o.pixel_fmt) _ w
        (open_device-Owns S fds fuel o.device o.width o.height o.pixel_fmt w h)
        λ cap w' h'.
          Sat-scoped {Y = owning S fds} cap (Mmap.drop_capture S fuel)
            (mmap_session S fuel rounds o.socket_path) w'
            (mmap_session-Owns o.socket_path (cap, w') h') (λ _ _. tt) (λ _ s k. dropped s k)
            (λ _ s k. dropped s k) (λ s k. dropped s k)
    where
      dropped :
          (s : Capture × World S)
          → Holds S fds s
          → Sat
              (λ _ s'. Owns fds s'.1.trace)
              (dropping (holding S fds))
              (Mmap.drop_capture S fuel s)
      dropped s k =
          Sat-weaken {Y = quiet S fds fuel} (Mmap.drop_capture S fuel s)
            (drop_capture-Owns S fds fuel s.0 s.1 k) (λ _ _ p. p.3) (λ _ _ p. p) (λ _ p. p)
            (λ _ p. p)

module _ (S : Platform) (fds : List ℕ) (fuel rounds : ℕ) where
  dma_session-Owns :
      (o : Options) (s : Capture × World S)
      → Holds S fds s
      → Sat (λ _ s'. Holds S fds s') (owning S fds) (dma_session S fuel rounds o s)
  unfolding dma_session
  dma_session-Owns o s h =
      Sat-bind (or_no_fourcc (v4l2_to_drm_fourcc S.consts s.0.pixel_format)) _ s
        (or_no_fourcc-Owns S fds fuel rounds _ s h)
        λ format s₁ h₁.
          Sat-bind_lift (alloc_dma_heap S fuel o.heap_path s.0.size_image o.buf_count) _ s₁.0 s₁.1
            (alloc_dma_heap-Owns S (held s₁.0 fds) fuel o.heap_path s.0.size_image o.buf_count s₁.1
              h₁)
            λ given w₂ h₂.
              Sat-bind (Dma.start S fuel given) _ (s₁.0, w₂)
                (DmaOwnership.start-Owns S fds fuel given s₁.0 w₂ (given-Owns given s₁.0 w₂ h₂.1))
                λ _ s₃ h₃.
                  publish-Owns S fds (dma_device S fuel) (dma_device-IsOwning S fds fuel rounds)
                    rounds o.socket_path format s₃ h₃
    where
      given-Owns :
          (given : List ℕ) (c : Capture) (w : World S)
          → Owns (given ++ held c fds) w.trace
          → Owns (held c (given ++ fds)) w.trace
      given-Owns given c w h' =
          Owns-same
            (λ a. omega (
              arith,
              count-held a c (given ++ fds),
              count-held a c fds,
              count-append a given fds,
              count-append a given (held c fds),
            ))
            h'

  -- Whatever the platform answers, if publisher_dma starts with the descriptors `fds` and returns,
  -- fails or panics, it then holds those and no other: the device, the sockets, the heap and every
  -- buffer that the heap gave have been closed.
  pub publisher_dma-Owns :
      (o : Options) (w : World S)
      → Owns fds w.trace
      → Sat (λ _ w'. Owns fds w'.trace) (holding S fds) (publisher_dma S fuel rounds o w)
  unfolding publisher_dma
  publisher_dma-Owns o w h =
      Sat-bind (Dma.open_device S fuel o.device o.width o.height o.pixel_fmt) _ w
        (DmaOwnership.open_device-Owns S fds fuel o.device o.width o.height o.pixel_fmt w h)
        λ cap w' h'.
          Sat-scoped {Y = owning S fds} cap (Dma.drop_capture S fuel) (dma_session S fuel rounds o)
            w' (dma_session-Owns o (cap, w') h') (λ _ _. tt) (λ _ s k. dropped s k)
            (λ _ s k. dropped s k) (λ s k. dropped s k)
    where
      dropped :
          (s : Capture × World S)
          → Holds S fds s
          → Sat (λ _ s'. Owns fds s'.1.trace) (dropping (holding S fds)) (Dma.drop_capture S fuel s)
      dropped s k =
          Sat-weaken {Y = quiet S fds fuel} (Dma.drop_capture S fuel s)
            (DmaOwnership.drop_capture-Owns S fds fuel s.0 s.1 k) (λ _ _ p. p.3) (λ _ _ p. p)
            (λ _ p. p) (λ _ p. p)
