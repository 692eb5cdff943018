-- ===== src/V4l2/Capture/Quiet.antt =====
-- rust/common/src/v4l2.rs, V4l2Capture: what is done before and after the loop ends, and takes no
-- frame from the driver.
use pub_sub_v4l2_dmabuf_wayl.Base.{
  ℕ, zero, suc, ◌+◌, ◌<◌, ◌≡◌, refl, List, [], ◌||◌, none, some, bit_and, ltb, ◌==◌, if◌then◌else◌,
}
use pub_sub_v4l2_dmabuf_wayl.Effect.{other, ◌>>=◌, ◌>>◌, pure, throw, panics, lift, guarded}
use pub_sub_v4l2_dmabuf_wayl.Effect.Triple.{Sat, Sat-bind, Sat-bind_lift, Sat-lift, Sat-if}
use pub_sub_v4l2_dmabuf_wayl.Effect.Scopes.{Sat-guarded}
use pub_sub_v4l2_dmabuf_wayl.Platform.{
  Platform, World, RawFd, querycap, s_fmt, reqbufs, querybuf, expbuf, qbuf, streamon, streamoff,
  opening, close_fd, close_all,
}
use pub_sub_v4l2_dmabuf_wayl.V4l2.Ioctl.{xioctl, try_ioctl, cstring}
use pub_sub_v4l2_dmabuf_wayl.V4l2.Ioctl.Termination.{Settles, never, flowing}
use pub_sub_v4l2_dmabuf_wayl.V4l2.Capture.{
  Capture, Method, BufInfo, dmabuf_fds, set_buffers, export_buffer, export_buffers, stream_on,
  stream_off, release_buffers, stop_streaming, close_device, open_negotiate, open_device, start,
  buffer_arg, request_arg,
}
use pub_sub_v4l2_dmabuf_wayl.V4l2.Ioctl.Steady.{
  Sat-never, close_fd-Level, close_all-Level, close_all-ends, opening-Level,
}
use pub_sub_v4l2_dmabuf_wayl.V4l2.Ioctl.Quiet.{
  Quiet, cstring-Quiet, xioctl-Quiet, try_ioctl-Quiet, frames-Steady,
}
use pub_sub_v4l2_dmabuf_wayl.Platform.Buffers.{frames}

module _ (S : Platform) (n : ℕ) where
  -- So many frames have been taken, whatever the capture.
  abbrev pub Calm : Capture × World S → Type 0
  Calm s = Quiet S n s.1

  pub set_buffers-Calm :
      (bs : List BufInfo) (s : Capture × World S)
      → Calm s
      → Sat (λ _ s'. Calm s') never (set_buffers S bs s)
  unfolding set_buffers
  set_buffers-Calm bs (c, w) q =
      Sat-lift (close_all S (dmabuf_fds c.buffers)) _ w
        (close_all-Level S frames frames-Steady n (dmabuf_fds c.buffers) w q)

  -- The descriptors that are given up where a step fails.
  pub guarded-Calm :
      (fds : List ℕ) (m : Method S (Unit {0})) (s : Capture × World S)
      → Sat (λ _ s'. Calm s') flowing (m s)
      → Sat (λ _ s'. Calm s') flowing (guarded (lift (close_all S fds)) m s)
  guarded-Calm fds m s h =
      Sat-guarded {Y = flowing} (lift (close_all S fds)) m s h
        (λ e s' _. closed (throw e) s' (λ _. record { at = tt }))
        (λ s' _. closed panics s' (λ _. record { at = tt })) (λ _ x. x)
    where
      closed :
          (k : Method S (Unit {0})) (s' : Capture × World S)
          → ((s'' : Capture × World S) → Sat (λ _ s'. Calm s') flowing (k s''))
          → Sat (λ _ s''. Calm s'') flowing ((lift (close_all S fds) >> k) s')
      closed k (c, w) ends =
          Sat-bind_lift {Q = λ _ _. Unit {0}} (close_all S fds) _ c w
            (Sat-never _ (close_all-ends S fds w)) λ _ w' _. ends (c, w')

module _ (S : Platform) (pending : S.State → ℕ) (settles : Settles S pending) (fuel : ℕ)
    (enough : (s : S.State) → pending s < fuel) (n : ℕ) where
  pub stream_on-Calm :
      (s : Capture × World S) → Calm S n s → Sat (λ _ s'. Calm S n s') flowing (stream_on S fuel s)
  unfolding stream_on
  stream_on-Calm (c, w) q =
      Sat-bind_lift (try_ioctl S fuel streamon c.fd S.buf_type_video_capture) _ c w
        (try_ioctl-Quiet S pending settles fuel enough n streamon c.fd _ w refl q)
        λ _ _ q'. record { at = q' }

  export_buffer-Calm :
      (i : ℕ) (s : Capture × World S)
      → Calm S n s
      → Sat (λ _ s'. Calm S n s') flowing (export_buffer S fuel i s)
  unfolding export_buffer
  export_buffer-Calm i (c, w) q =
      Sat-bind_lift (try_ioctl S fuel querybuf c.fd (buffer_arg S S.memory_mmap i)) _ c w
        (try_ioctl-Quiet S pending settles fuel enough n querybuf c.fd _ w refl q)
        λ buf w1 q1.
          Sat-bind_lift (try_ioctl S fuel expbuf c.fd _) _ c w1
            (try_ioctl-Quiet S pending settles fuel enough n expbuf c.fd _ w1 refl q1)
            λ exported w2 q2.
              Sat-bind_lift (try_ioctl S fuel qbuf c.fd (buffer_arg S S.memory_mmap i)) _ _ w2
                (try_ioctl-Quiet S pending settles fuel enough n qbuf c.fd _ w2 refl q2)
                λ _ _ q3. record { at = q3 }

  export_buffers-Calm :
      (k i : ℕ) (s : Capture × World S)
      → Calm S n s
      → Sat (λ _ s'. Calm S n s') flowing (export_buffers S fuel k i s)
  unfolding export_buffers
  export_buffers-Calm zero i s q = record { at = q }
  export_buffers-Calm (suc k) i s q =
      Sat-bind (export_buffer S fuel i) _ s (export_buffer-Calm i s q)
        λ _ s' q'. export_buffers-Calm k (i + 1) s' q'

  pub start-Calm :
      (count : ℕ) (s : Capture × World S)
      → Calm S n s
      → Sat (λ _ s'. Calm S n s') flowing (start S fuel count s)
  unfolding start
  start-Calm count (c, w) q =
      Sat-bind_lift (try_ioctl S fuel reqbufs c.fd (request_arg S S.memory_mmap count)) _ c w
        (try_ioctl-Quiet S pending settles fuel enough n reqbufs c.fd _ w refl q)
        λ req w1 q1.
          Sat-if (ltb req.count 2) (throw other) _ (c, w1) (λ _. record { at = tt })
            (λ _.
              Sat-bind (set_buffers S []) _ (c, w1)
                (Sat-never _ (set_buffers-Calm S n [] (c, w1) q1))
                λ _ s2 q2.
                  Sat-bind (export_buffers S fuel req.count 0) _ s2
                    (export_buffers-Calm req.count 0 s2 q2) λ _ s3 q3. stream_on-Calm s3 q3)

  release_buffers-Calm :
      (memory : ℕ) (fd : RawFd) (c : Capture) (w : World S)
      → c.fd ≡ fd
      → Quiet S n w
      → Sat (λ _ s. Calm S n s) never (release_buffers S fuel memory (c, w))
  unfolding release_buffers
  release_buffers-Calm memory none c w e q = rw (e, release_buffers) (record { at = q })
  release_buffers-Calm memory (some fd) c w e q =
      rw (e, release_buffers)
        (Sat-lift (do _ ← xioctl S fuel reqbufs (some fd) (request_arg S memory 0); pure tt) _ w
          (Sat-bind (xioctl S fuel reqbufs (some fd) (request_arg S memory 0)) _ w
            (xioctl-Quiet S pending settles fuel enough n reqbufs (some fd) _ w refl q)
            (λ _ _ q'. record { at = q' })))

  -- `stop` and `drop` end without failing.
  stop_streaming-Calm :
      (memory : ℕ) (s : Capture × World S)
      → Calm S n s
      → Sat (λ _ s'. Calm S n s') never (stop_streaming S fuel memory s)
  unfolding stop_streaming stream_off
  stop_streaming-Calm memory (c, w) q =
      Sat-bind {Q = λ _ s. Calm S n s} (if c.streaming then stream_off S fuel else pure tt) _ (c, w)
        (Sat-if c.streaming (stream_off S fuel) (pure tt) (c, w)
          (λ _.
            Sat-bind_lift (xioctl S fuel streamoff c.fd S.buf_type_video_capture) _ c w
              (xioctl-Quiet S pending settles fuel enough n streamoff c.fd _ w refl q)
              λ _ _ q'. record { at = q' })
          (λ _. record { at = q }))
        λ _ s1 q1.
          Sat-bind (set_buffers S []) _ s1 (set_buffers-Calm S n [] s1 q1)
            λ _ s2 q2. release_buffers-Calm memory s2.0.fd s2.0 s2.1 refl q2

  close_device-Calm :
      (fd : RawFd) (c : Capture) (w : World S)
      → c.fd ≡ fd
      → Quiet S n w
      → Sat (λ _ s'. Calm S n s') never (close_device S fuel (c, w))
  unfolding close_device
  close_device-Calm none c w e q = rw (e, close_device) (record { at = q })
  close_device-Calm (some fd) c w e q =
      rw (e, close_device)
        (Sat-bind_lift (close_fd S (some fd)) _ (record c { fd = some fd }) w
          (close_fd-Level S frames frames-Steady n (some fd) w q) (λ _ _ q'. record { at = q' }))

  -- The drop of a capture, with either kind of memory.
  pub dropped-Calm :
      (memory : ℕ) (s : Capture × World S)
      → Calm S n s
      → Sat (λ _ s'. Calm S n s') never ((stop_streaming S fuel memory >> close_device S fuel) s)
  dropped-Calm memory s q =
      Sat-bind (stop_streaming S fuel memory) _ s (stop_streaming-Calm memory s q)
        λ _ s' q'. close_device-Calm s'.0.fd s'.0 s'.1 refl q'

  open_negotiate-Quiet :
      (width height format fd : ℕ) (w : World S)
      → Quiet S n w
      → Sat (λ _ w'. Quiet S n w') flowing (open_negotiate S fuel width height format fd w)
  unfolding open_negotiate
  open_negotiate-Quiet width height format fd w q =
      Sat-bind (xioctl S fuel s_fmt (some fd) _) _ w
        (Sat-never _ (xioctl-Quiet S pending settles fuel enough n s_fmt (some fd) _ w refl q))
        (elim [
          | none ↦ λ w' q'.
              Sat-bind (close_fd S (some fd)) _ w'
                (Sat-never _ (close_fd-Level S frames frames-Steady n (some fd) w' q'))
                (λ _ _ _. record { at = tt })
          | some f ↦ λ w' q'. record { at = q' }
        ])

  pub open_device-Quiet :
      (device : List ℕ) (width height format : ℕ) (w : World S)
      → Quiet S n w
      → Sat (λ _ w'. Quiet S n w') flowing (open_device S fuel device width height format w)
  unfolding open_device
  open_device-Quiet device width height format w q =
      Sat-bind (cstring device) _ w (cstring-Quiet S n device w q) λ path w1 q1.
        Sat-bind (opening S (S.open_file path _)) _ w1
          (opening-Level S frames frames-Steady n (S.open_file path _) w1 q1)
          λ fd w2 q2.
            Sat-bind (xioctl S fuel querycap (some fd) _) _ w2
              (Sat-never _
                (xioctl-Quiet S pending settles fuel enough n querycap (some fd) _ w2 refl q2))
              (elim [
                | none ↦ λ w3 q3.
                    Sat-bind (close_fd S (some fd)) _ w3
                      (Sat-never _ (close_fd-Level S frames frames-Steady n (some fd) w3 q3))
                      (λ _ _ _. record { at = tt })
                | some c ↦ λ w3 q3.
                    Sat-if
                      (bit_and c.capabilities S.cap_video_capture == 0
                        || bit_and c.capabilities S.cap_streaming == 0)
                      _ (open_negotiate S fuel width height format fd) w3
                      (λ _.
                        Sat-bind (close_fd S (some fd)) _ w3
                          (Sat-never _ (close_fd-Level S frames frames-Steady n (some fd) w3 q3))
                          (λ _ _ _. record { at = tt }))
                      (λ _. open_negotiate-Quiet width height format fd w3 q3)
              ])
