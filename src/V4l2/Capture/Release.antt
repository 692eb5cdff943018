-- ===== src/V4l2/Capture/Release.antt =====
-- rust/common/src/v4l2.rs: the descriptors in `stop` and `Drop` of the two capture types.
use pub_sub_v4l2_dmabuf_wayl.Base.{
  ℕ, ◌≡◌, refl, ap, ◌∙◌, subst, Bool, true, false, List, [], ◌∷◌, ◌++◌, none, some, if◌then◌else◌,
}
use pub_sub_v4l2_dmabuf_wayl.Effect.{pure, ◌>>=◌}
use pub_sub_v4l2_dmabuf_wayl.Effect.Triple.{
  Exits, Sat, Sat-bind, Sat-bind_lift, Sat-weaken, Sat-lift,
}
use pub_sub_v4l2_dmabuf_wayl.Platform.{Platform, World, RawFd, reqbufs, streamoff, close_fd}
use pub_sub_v4l2_dmabuf_wayl.Platform.Descriptors.{Owns, close_fd-Owns}
use pub_sub_v4l2_dmabuf_wayl.V4l2.Ioctl.{xioctl}
use pub_sub_v4l2_dmabuf_wayl.V4l2.Ioctl.Ownership.{xioctl-Owns}
use pub_sub_v4l2_dmabuf_wayl.V4l2.Capture.{
  Capture, set_buffers, request_arg, stop_streaming, stream_off, release_buffers, close_device,
  drop_capture,
}
use pub_sub_v4l2_dmabuf_wayl.V4l2.Capture.Ownership.{held, raw_fds, Holds, set_buffers-Owns}

module _ (S : Platform) (fds : List ℕ) (fuel : ℕ) where
  -- What stopping and dropping never do.
  abbrev pub quiet : Exits (Capture × World S)
  quiet = record { failing = λ _ _. ⊥; panicking = λ _. ⊥; spinning = λ _. Unit }

  stream_off-Owns :
      (c : Capture) (w : World S)
      → Holds S fds (c, w)
      → Sat
          (λ _ s. (s.0 ≡ record c { streaming = false }) × Holds S fds s)
          quiet
          (stream_off S fuel (c, w))
  unfolding stream_off
  stream_off-Owns c w o =
      Sat-bind_lift (xioctl S fuel streamoff c.fd S.buf_type_video_capture) _ c w
        (xioctl-Owns S (held c fds) fuel streamoff c.fd _ w o (λ _. tt))
        (elim [
          | none ↦ λ w' h. record { at = (refl, h) }
          | some p ↦ λ w' h. record { at = (refl, h) }
        ])

  release_buffers-Owns :
      (memory : ℕ) (fd : RawFd) (c : Capture) (w : World S)
      → c.fd ≡ fd
      → Owns (raw_fds fd ++ fds) w.trace
      → Sat
          (λ _ s. (s.0 ≡ c) × Owns (raw_fds fd ++ fds) s.1.trace)
          quiet
          (release_buffers S fuel memory (c, w))
  unfolding release_buffers
  release_buffers-Owns memory none c w e o = rw (e, release_buffers) (record { at = (refl, o) })
  release_buffers-Owns memory (some fd) c w e o =
      rw (e, release_buffers)
        (Sat-lift (do _ ← xioctl S fuel reqbufs (some fd) (request_arg S memory 0); pure tt) _ w
          (Sat-bind (xioctl S fuel reqbufs (some fd) (request_arg S memory 0)) _ w
            (xioctl-Owns S (fd ∷ fds) fuel reqbufs (some fd) _ w (o) (λ _. tt))
            (elim [
              | none ↦ λ w' h. record { at = (refl, h) }
              | some p ↦ λ w' h. record { at = (refl, h) }
            ])))

  -- Not streaming, no buffers, and of the descriptors only the device's, which stays open.
  abbrev pub IsStopped : RawFd → Capture × World S → Type 0
  IsStopped fd s =
      (s.0.fd ≡ fd)
      × (s.0.streaming ≡ false)
      × (s.0.buffers ≡ [])
      × Owns (raw_fds fd ++ fds) s.1.trace

  stream_off_if-Owns :
      (b : Bool) (c : Capture) (w : World S)
      → c.streaming ≡ b
      → Holds S fds (c, w)
      → Sat
          (λ _ s. (s.0 ≡ record c { streaming = false }) × Holds S fds s)
          quiet
          ((if b then stream_off S fuel else pure tt) (c, w))
  stream_off_if-Owns true c w e o = stream_off-Owns c w o
  stream_off_if-Owns false c w e o = record { at = (λ i. record c { streaming = e i }, o) }

  pub stop_streaming-Owns :
      (memory : ℕ) (c : Capture) (w : World S)
      → Holds S fds (c, w)
      → Sat (λ _ s. IsStopped c.fd s) quiet (stop_streaming S fuel memory (c, w))
  unfolding stop_streaming
  stop_streaming-Owns memory c w o =
      Sat-bind (if c.streaming then stream_off S fuel else pure tt) _ (c, w)
        (stream_off_if-Owns c.streaming c w refl o)
        λ _ s₁ o₁.
          Sat-bind (set_buffers S []) _ s₁ (set_buffers-Owns S fds fuel s₁.0 s₁.1 o₁.1) λ _ s₂ o₂.
            let stopped : s₂.0 ≡ record c { streaming = false; buffers = [] } =
              o₂.0 ∙ ap (λ (d : Capture). record d { buffers = [] }) o₁.0 in
            Sat-weaken {Y = quiet} (release_buffers S fuel memory s₂)
              (release_buffers-Owns memory c.fd s₂.0 s₂.1 (ap (λ (d : Capture). d.fd) stopped)
                (subst (λ d. Owns (held d fds) s₂.1.trace) stopped o₂.1))
              (λ _ s₃ o₃.
                let final : s₃.0 ≡ record c { streaming = false; buffers = [] } = o₃.0 ∙ stopped in
                (
                  ap (λ (d : Capture). d.fd) final,
                  ap (λ (d : Capture). d.streaming) final,
                  ap (λ (d : Capture). d.buffers) final,
                  o₃.1,
                ))
              (λ _ _ h. h) (λ _ h. h) (λ _ h. h)

  pub close_device-Owns :
      (fd : RawFd) (s : Capture × World S)
      → IsStopped fd s
      → Sat (λ _ s'. IsStopped none s') quiet (close_device S fuel s)
  unfolding close_device
  close_device-Owns none (c, w) (e, off, empty, o) =
      rw (e, close_device) (record { at = (refl, off, empty, o) })
  close_device-Owns (some fd) (c, w) (e, off, empty, o) =
      rw (e, close_device)
        (Sat-bind_lift (close_fd S (some fd)) _ (record c { fd = some fd }) w
          (close_fd-Owns S fd fds w o) λ _ w' o'. record { at = (refl, off, empty, o') })

  -- Dropping a capture never fails or panics. If the process held its descriptors and `fds`, it then
  -- holds `fds`: the device and every buffer have been closed, once each. The object is left not
  -- streaming, with no buffers and no device.
  pub drop_capture-Owns :
      (c : Capture) (w : World S)
      → Holds S fds (c, w)
      → Sat (λ _ s. IsStopped none s) quiet (drop_capture S fuel (c, w))
  unfolding drop_capture
  drop_capture-Owns c w o =
      Sat-bind (stop_streaming S fuel S.memory_mmap) _ (c, w)
        (stop_streaming-Owns S.memory_mmap c w o) λ _ s h. close_device-Owns c.fd s h
