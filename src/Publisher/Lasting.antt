-- ===== src/Publisher/Lasting.antt =====
-- rust/publisher/src/main.rs and rust/publisher/src/publisher_dma.rs, whole: how long they run.
pub mod Sessions
use pub_sub_v4l2_dmabuf_wayl.Base.{ℕ, ◌+◌, ◌<◌, refl, List, Option, none, some}
use pub_sub_v4l2_dmabuf_wayl.Effect.{◌>>◌}
use pub_sub_v4l2_dmabuf_wayl.Effect.Triple.{Sat, Sat-bind, Sat-bind_lift, Sat-weaken}
use pub_sub_v4l2_dmabuf_wayl.Effect.Scopes.{Sat-scoped, dropping}
use pub_sub_v4l2_dmabuf_wayl.Platform.{Platform, World}
use pub_sub_v4l2_dmabuf_wayl.Platform.Buffers.{frames}
use pub_sub_v4l2_dmabuf_wayl.V4l2.Format.{v4l2_to_drm_fourcc}
use pub_sub_v4l2_dmabuf_wayl.V4l2.Ioctl.Termination.{Settles, never}
use pub_sub_v4l2_dmabuf_wayl.V4l2.Capture.{Capture}
use pub_sub_v4l2_dmabuf_wayl.V4l2.Capture as Mmap
use pub_sub_v4l2_dmabuf_wayl.V4l2.Capture.Termination.{dequeue_from-flowing}
use pub_sub_v4l2_dmabuf_wayl.V4l2.Capture.Quiet as MmapQuiet
use pub_sub_v4l2_dmabuf_wayl.V4l2.Capture.Quiet.{Calm, dropped-Calm, open_device-Quiet}
use pub_sub_v4l2_dmabuf_wayl.V4l2.CaptureDma as Dma
use pub_sub_v4l2_dmabuf_wayl.V4l2.CaptureDma.Quiet as DmaQuiet
use pub_sub_v4l2_dmabuf_wayl.V4l2.Heap.{alloc_dma_heap}
use pub_sub_v4l2_dmabuf_wayl.V4l2.Heap.Quiet.{alloc_dma_heap-Quiet}
use pub_sub_v4l2_dmabuf_wayl.Publisher.{
  Options, mmap_device, dma_device, or_no_fourcc, mmap_session, publisher, dma_session,
  publisher_dma,
}
use pub_sub_v4l2_dmabuf_wayl.Publisher.Exchange.{mmap_device-IsTraced, dma_device-IsTraced}
use pub_sub_v4l2_dmabuf_wayl.Publisher.Termination.{Flows, mmap_device-Flows}
use pub_sub_v4l2_dmabuf_wayl.Publisher.Lasting.Sessions.{
  lasting, lasting_with, ended_with, ended, publish-lasting,
}

module _ (S : Platform) (pending : S.State → ℕ) (settles : Settles S pending) (fuel : ℕ)
    (enough : (s : S.State) → pending s < fuel) (rounds : ℕ) where
  dma_device-Flows : Flows S (dma_device S fuel)
  unfolding Dma.dequeue
  dma_device-Flows = record {
    dequeue = λ s. dequeue_from-flowing S pending settles fuel enough S.memory_dmabuf s.0 s.1;
    requeue = λ i s. DmaQuiet.requeue-flowing S pending settles fuel enough i s.0 s.1;
  }

  or_no_fourcc-Calm :
      (n : ℕ) (o : Option ℕ) (s : Capture × World S)
      → Calm S n s
      → Sat (λ _ s'. Calm S n s') (lasting_with S (rounds + n)) (or_no_fourcc o s)
  or_no_fourcc-Calm n none s q = record { at = tt }
  or_no_fourcc-Calm n (some f) s q = record { at = q }

  mmap_session-lasting :
      (n : ℕ) (path : List ℕ) (s : Capture × World S)
      → Calm S n s
      → Sat (λ _ _. Unit {0}) (lasting_with S (rounds + n)) (mmap_session S fuel rounds path s)
  unfolding mmap_session
  mmap_session-lasting n path s q =
      Sat-bind (Mmap.start S fuel 4) _ s
        (ended_with S (rounds + n) _ (MmapQuiet.start-Calm S pending settles fuel enough n 4 s q))
        λ _ s1 q1.
          Sat-bind (or_no_fourcc (v4l2_to_drm_fourcc S.consts s1.0.pixel_format)) _ s1
            (or_no_fourcc-Calm n _ s1 q1)
            λ format s2 q2.
              publish-lasting S (mmap_device S fuel) (mmap_device-IsTraced S fuel)
                (mmap_device-Flows S pending fuel settles enough) rounds n path format s2 q2

  dma_session-lasting :
      (n : ℕ) (o : Options) (s : Capture × World S)
      → Calm S n s
      → Sat (λ _ _. Unit {0}) (lasting_with S (rounds + n)) (dma_session S fuel rounds o s)
  unfolding dma_session
  dma_session-lasting n o s q =
      Sat-bind (or_no_fourcc (v4l2_to_drm_fourcc S.consts s.0.pixel_format)) _ s
        (or_no_fourcc-Calm n _ s q)
        λ format s1 q1.
          Sat-bind_lift (alloc_dma_heap S fuel o.heap_path s.0.size_image o.buf_count) _ s1.0 s1.1
            (ended S (rounds + n) _ (
              alloc_dma_heap-Quiet S pending settles fuel enough n o.heap_path s.0.size_image
                o.buf_count s1.1 q1))
            λ given w2 q2.
              Sat-bind (Dma.start S fuel given) _ (s1.0, w2)
                (ended_with S (rounds + n) _
                  (DmaQuiet.start-Calm S pending settles fuel enough n given (s1.0, w2) q2))
                λ _ s3 q3.
                  publish-lasting S (dma_device S fuel) (dma_device-IsTraced S fuel)
                    dma_device-Flows rounds n o.socket_path format s3 q3

  -- The drop of the capture ends.
  dropped-lasting :
      (memory k : ℕ) (s : Capture × World S)
      → Sat
          (λ _ _. Unit {0})
          (dropping (lasting S k))
          ((Mmap.stop_streaming S fuel memory >> Mmap.close_device S fuel) s)
  dropped-lasting memory k s =
      Sat-weaken {Y = never} _
        (dropped-Calm S pending settles fuel enough (frames s.1.trace) memory s refl) (λ _ _ _. tt)
        (λ _ _ x. x) (λ _ x. x) (λ _ x. absurd x)

  -- The publisher as a whole is still running after so many rounds of its loop only if it has taken
  -- as many frames from the driver: everything before the loop and after it ends, drops included,
  -- and each round takes a frame. `ioctl` is interrupted fewer times than there is fuel.
  pub publisher-frames :
      (o : Options) (w : World S)
      → Sat (λ _ _. Unit) (lasting S (rounds + frames w.trace)) (publisher S fuel rounds o w)
  unfolding publisher Mmap.drop_capture Mmap.stop
  publisher-frames o w =
      let n = frames w.trace in
      Sat-bind (Mmap.open_device S fuel o.device o.width o.height o.pixel_fmt) _ w
        (ended S (rounds + n) _ (
          open_device-Quiet S pending settles fuel enough n o.device o.width o.height o.pixel_fmt w
            refl))
        λ cap w' q.
          Sat-scoped {Y = lasting_with S (rounds + n)} cap (Mmap.drop_capture S fuel)
            (mmap_session S fuel rounds o.socket_path) w'
            (mmap_session-lasting n o.socket_path (cap, w') q) (λ _ x. x)
            (λ _ s _. dropped-lasting S.memory_mmap (rounds + n) s)
            (λ _ s _. dropped-lasting S.memory_mmap (rounds + n) s)
            (λ s _. dropped-lasting S.memory_mmap (rounds + n) s)

  -- publisher_dma as a whole is still running after so many rounds of its loop only if it has taken
  -- as many frames from the driver: everything before the loop and after it ends, the allocation of
  -- the buffers and the drops included, and each round takes a frame. `ioctl` is interrupted fewer
  -- times than there is fuel.
  pub publisher_dma-frames :
      (o : Options) (w : World S)
      → Sat (λ _ _. Unit) (lasting S (rounds + frames w.trace)) (publisher_dma S fuel rounds o w)
  unfolding publisher_dma Dma.open_device Dma.drop_capture Dma.stop
  publisher_dma-frames o w =
      let n = frames w.trace in
      Sat-bind (Dma.open_device S fuel o.device o.width o.height o.pixel_fmt) _ w
        (ended S (rounds + n) _ (
          open_device-Quiet S pending settles fuel enough n o.device o.width o.height o.pixel_fmt w
            refl))
        λ cap w' q.
          Sat-scoped {Y = lasting_with S (rounds + n)} cap (Dma.drop_capture S fuel)
            (dma_session S fuel rounds o) w' (dma_session-lasting n o (cap, w') q) (λ _ x. x)
            (λ _ s _. dropped-lasting S.memory_dmabuf (rounds + n) s)
            (λ _ s _. dropped-lasting S.memory_dmabuf (rounds + n) s)
            (λ s _. dropped-lasting S.memory_dmabuf (rounds + n) s)
