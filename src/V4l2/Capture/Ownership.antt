-- ===== src/V4l2/Capture/Ownership.antt =====
-- rust/common/src/v4l2.rs, `V4l2Capture`: the descriptors that it holds are the device's, and one for
-- each buffer in the list. Here those of `open` and `start`.
use pub_sub_v4l2_dmabuf_wayl.Base.{
  ℕ, zero, suc, ◌+◌, ◌≡◌, refl, ◌||◌, List, [], ◌∷◌, ◌++◌, none, some, arith, ◌==◌, ltb, count,
  count-append, bit_and,
}
use pub_sub_v4l2_dmabuf_wayl.Effect.{unsupported, other, throw, ◌>>◌}
use pub_sub_v4l2_dmabuf_wayl.Effect.Triple.{
  Exits, Sat, Sat-bind, Sat-bind_lift, Sat-weaken, Sat-if, Sat-lift, beside,
}
use pub_sub_v4l2_dmabuf_wayl.Platform.{
  Platform, World, Io, RawFd, opening, querycap, s_fmt, reqbufs, querybuf, expbuf, qbuf, streamon,
  close_fd, close_all, last_os_error, o_rdwr, o_nonblock, o_cloexec,
}
use pub_sub_v4l2_dmabuf_wayl.Platform.Descriptors.{
  Owns, Owns-same, holding, close_fd-Owns, close_all-Owns,
}
use pub_sub_v4l2_dmabuf_wayl.V4l2.Structs.{zeroed_capability, zeroed_export}
use pub_sub_v4l2_dmabuf_wayl.V4l2.Ioctl.{xioctl, try_ioctl, cstring}
use pub_sub_v4l2_dmabuf_wayl.V4l2.Ioctl.Ownership.{
  xioctl-Owns, try_ioctl-Owns, cstring-Owns, opening-Owns,
}
use pub_sub_v4l2_dmabuf_wayl.V4l2.Capture.{
  Capture, BufInfo, dmabuf_fds, set_buffers, format_arg, buffer_arg, request_arg, open_negotiate,
  open_device, export_buffer, export_buffers, stream_on, start,
}

abbrev pub raw_fds : RawFd → List ℕ
raw_fds none = []
raw_fds (some fd) = fd ∷ []

-- What the object holds, and before it what others hold.
abbrev pub held : Capture → List ℕ → List ℕ
held c fds = raw_fds c.fd ++ (dmabuf_fds c.buffers ++ fds)

pub count-held :
    (fd : ℕ) (c : Capture) (fds : List ℕ)
    → count fd (held c fds)
      ≡ count fd (raw_fds c.fd) + count fd (dmabuf_fds c.buffers) + count fd fds
count-held fd c fds = omega (
  arith,
  count-append fd (raw_fds c.fd) (dmabuf_fds c.buffers ++ fds),
  count-append fd (dmabuf_fds c.buffers) fds,
)

pub count-push :
    (fd : ℕ) (bs : List BufInfo) (b : BufInfo)
    → count fd (dmabuf_fds (bs ++ b ∷ [])) ≡ count fd (b.dmabuf_fd ∷ dmabuf_fds bs)
count-push fd [] b = refl
count-push fd (_ ∷ bs) b = omega (arith, count-push fd bs b)

-- Pushing a buffer moves its descriptor into the object.
pub count-pushed :
    (c : Capture) (b : BufInfo) (fds : List ℕ) (fd : ℕ)
    → count fd (b.dmabuf_fd ∷ held c fds)
      ≡ count fd (held (record c { buffers = c.buffers ++ b ∷ [] }) fds)
count-pushed c b fds fd = omega (
  arith,
  count-held fd c fds,
  count-held fd (record c { buffers = c.buffers ++ b ∷ [] }) fds,
  count-push fd c.buffers b,
)

module _ (S : Platform) (fds : List ℕ) where
  abbrev pub Holds : Capture × World S → Type 0
  Holds s = Owns (held s.0 fds) s.1.trace

  -- At every exit of a method the object holds what it says it holds.
  abbrev pub owning : Exits (Capture × World S)
  owning = record { failing = λ _ s. Holds s; panicking = λ s. Holds s; spinning = λ _. Unit }

module _ (S : Platform) (fds : List ℕ) (fuel : ℕ) where
  closing-Owns :
      (fd : ℕ) (w : World S) (m : Io S Capture)
      → Owns (fd ∷ fds) w.trace
      → ((w' : World S)
          → Owns fds w'.trace
          → Sat (λ c w'. Owns (held c fds) w'.trace) (holding S fds) (m w'))
      → Sat (λ c w'. Owns (held c fds) w'.trace) (holding S fds) ((close_fd S (some fd) >> m) w)
  closing-Owns fd w m o k =
      Sat-bind (close_fd S (some fd)) _ w (close_fd-Owns S fd fds w o) (λ _ w' o'. k w' o')

  open_negotiate-Owns :
      (width height pixel_format fd : ℕ) (w : World S)
      → Owns (fd ∷ fds) w.trace
      → Sat
          (λ c w'. Owns (held c fds) w'.trace)
          (holding S fds)
          (open_negotiate S fuel width height pixel_format fd w)
  unfolding open_negotiate
  open_negotiate-Owns width height pixel_format fd w o =
      Sat-bind (xioctl S fuel s_fmt (some fd) (format_arg S width height pixel_format)) _ w
        (xioctl-Owns S (fd ∷ fds) fuel s_fmt (some fd) _ w o (λ _. tt))
        (elim [
          | none ↦ λ w' h. closing-Owns fd w' (last_os_error S) h (λ _ h'. record { at = h' })
          | some f ↦ λ w' h. record { at = h }
        ])

  -- If the process holds the descriptors `fds`, a capture that is opened adds the device to them, and
  -- nothing else. If opening fails or panics, the process holds `fds` again: the device has been
  -- closed if it was opened.
  pub open_device-Owns :
      (device : List ℕ) (width height pixel_format : ℕ) (w : World S)
      → Owns fds w.trace
      → Sat
          (λ c w'. Owns (held c fds) w'.trace)
          (holding S fds)
          (open_device S fuel device width height pixel_format w)
  unfolding open_device
  open_device-Owns device width height pixel_format w o =
      Sat-bind (cstring device) _ w (cstring-Owns S fds device w o) λ path w₁ o₁.
        Sat-bind (opening S (S.open_file path (o_rdwr ∷ o_nonblock ∷ o_cloexec ∷ []))) _ w₁
          (opening-Owns S fds _ w₁ o₁)
          λ fd w₂ o₂.
            Sat-bind (xioctl S fuel querycap (some fd) zeroed_capability) _ w₂
              (xioctl-Owns S (fd ∷ fds) fuel querycap (some fd) zeroed_capability w₂ o₂ (λ _. tt))
              (elim [
                | none ↦ λ w' h. closing-Owns fd w' (last_os_error S) h (λ _ h'. record { at = h' })
                | some c ↦ λ w' h.
                    Sat-if
                      (bit_and c.capabilities S.cap_video_capture == 0
                        || bit_and c.capabilities S.cap_streaming == 0)
                      (close_fd S (some fd) >> throw unsupported)
                      (open_negotiate S fuel width height pixel_format fd) w'
                      (λ _. closing-Owns fd w' (throw unsupported) h (λ _ h'. record { at = h' }))
                      (λ _. open_negotiate-Owns width height pixel_format fd w' h)
              ])

  pub set_buffers-Owns :
      (c : Capture) (w : World S) {X : Exits (Capture × World S)}
      → Holds S fds (c, w)
      → Sat (λ _ s. (s.0 ≡ record c { buffers = [] }) × Holds S fds s) X (set_buffers S [] (c, w))
  unfolding set_buffers
  set_buffers-Owns c w {X} o = Sat-lift (close_all S (dmabuf_fds c.buffers)) _ w (
      Sat-weaken {Y = beside _ X} (close_all S (dmabuf_fds c.buffers) w)
        (close_all-Owns S (dmabuf_fds c.buffers) (raw_fds c.fd ++ fds) w (
          Owns-same
            (λ fd. omega (
              arith,
              count-held fd c fds,
              count-append fd (dmabuf_fds c.buffers) (raw_fds c.fd ++ fds),
              count-append fd (raw_fds c.fd) fds,
            ))
            o))
        (λ _ w' h. (refl, h)) (λ _ _ h. h) (λ _ h. h) (λ _ h. h))

  export_buffer-Owns :
      (i : ℕ) (c : Capture) (w : World S)
      → Holds S fds (c, w)
      → Sat (λ _ s. Holds S fds s) (owning S fds) (export_buffer S fuel i (c, w))
  unfolding export_buffer
  export_buffer-Owns i c w o =
      Sat-bind_lift (try_ioctl S fuel querybuf c.fd (buffer_arg S S.memory_mmap i)) _ c w
        (try_ioctl-Owns S (held c fds) fuel querybuf c.fd _ w o)
        λ buf w₁ o₁.
          Sat-bind_lift
            (try_ioctl S fuel expbuf c.fd (record zeroed_export {
              type_ = S.buf_type_video_capture;
              index = i;
              flags = S.o_cloexec_rdwr;
            }))
            _ c w₁ (try_ioctl-Owns S (held c fds) fuel expbuf c.fd _ w₁ o₁)
            λ exported w₂ o₂.
              Sat-bind_lift (try_ioctl S fuel qbuf c.fd (buffer_arg S S.memory_mmap i)) _ _ w₂
                (try_ioctl-Owns S _ fuel qbuf c.fd _ w₂ (Owns-same (count-pushed c _ fds) o₂))
                λ _ w₃ o₃. record { at = o₃ }

  export_buffers-Owns :
      (n i : ℕ) (c : Capture) (w : World S)
      → Holds S fds (c, w)
      → Sat (λ _ s. Holds S fds s) (owning S fds) (export_buffers S fuel n i (c, w))
  unfolding export_buffers
  export_buffers-Owns zero i c w o = record { at = o }
  export_buffers-Owns (suc n) i c w o =
      Sat-bind (export_buffer S fuel i) _ (c, w) (export_buffer-Owns i c w o)
        λ _ s h. export_buffers-Owns n (i + 1) s.0 s.1 h

  pub stream_on-Owns :
      (c : Capture) (w : World S)
      → Holds S fds (c, w)
      → Sat (λ _ s. Holds S fds s) (owning S fds) (stream_on S fuel (c, w))
  unfolding stream_on
  stream_on-Owns c w o =
      Sat-bind_lift (try_ioctl S fuel streamon c.fd S.buf_type_video_capture) _ c w
        (try_ioctl-Owns S (held c fds) fuel streamon c.fd _ w o) λ _ w' h. record { at = h }

  -- However far `start` gets, the object then owns every descriptor that was exported.
  pub start-Owns :
      (count : ℕ) (c : Capture) (w : World S)
      → Holds S fds (c, w)
      → Sat (λ _ s. Holds S fds s) (owning S fds) (start S fuel count (c, w))
  unfolding start
  start-Owns count c w o =
      Sat-bind_lift (try_ioctl S fuel reqbufs c.fd (request_arg S S.memory_mmap count)) _ c w
        (try_ioctl-Owns S (held c fds) fuel reqbufs c.fd _ w o)
        λ req w₁ o₁.
          Sat-if (ltb req.count 2) (throw other)
            (set_buffers S [] >> (export_buffers S fuel req.count 0 >> stream_on S fuel)) (c, w₁)
            (λ _. record { at = o₁ })
            λ _.
              Sat-bind (set_buffers S []) _ (c, w₁) (set_buffers-Owns c w₁ o₁)
                λ _ s₂ o₂.
                  Sat-bind (export_buffers S fuel req.count 0) _ s₂
                    (export_buffers-Owns req.count 0 s₂.0 s₂.1 o₂.1)
                    λ _ s₃ o₃. stream_on-Owns s₃.0 s₃.1 o₃
