-- ===== src/V4l2/Ioctl/Quiet.antt =====
-- The calls of rust/common: they end, and take no frame from the driver.
use pub_sub_v4l2_dmabuf_wayl.Base.{
  ℕ, ◌<◌, ◌≡◌, refl, ap, ◌∙◌, List, ◌++◌, Bool, true, false, Option, none, some,
}
use pub_sub_v4l2_dmabuf_wayl.Effect.{pure, panics}
use pub_sub_v4l2_dmabuf_wayl.Effect.Triple.{
  Exits, Sat, Sat-bind, Sat-if, Sat-weaken, Sat-both, both,
}
use pub_sub_v4l2_dmabuf_wayl.Platform.{
  Platform, World, RawFd, Event, Request, Payload, querycap, s_fmt, reqbufs, querybuf, expbuf, qbuf,
  dqbuf, streamon, streamoff, heap_alloc, note_ioctl,
}
use pub_sub_v4l2_dmabuf_wayl.V4l2.Ioctl.{xioctl, try_ioctl, cstring, contains_nul}
use pub_sub_v4l2_dmabuf_wayl.V4l2.Ioctl.Trace.{noted, xioctl-trace}
use pub_sub_v4l2_dmabuf_wayl.V4l2.Ioctl.Termination.{Settles, never, flowing, xioctl-ends}
use pub_sub_v4l2_dmabuf_wayl.V4l2.Ioctl.Steady.{Steady, Sat-never, Level}
use pub_sub_v4l2_dmabuf_wayl.Platform.Buffers.{frames}

abbrev pub takes_frame : Request → Bool
takes_frame dqbuf = true
takes_frame _ = false

frames-noted :
    (r : Request) (fd : RawFd) (arg : Payload r) (o : Option (Payload r)) (t : List Event)
    → takes_frame r ≡ false
    → frames (noted (note_ioctl r fd arg) o ++ t) ≡ frames t
frames-noted r fd arg none t e = refl
frames-noted dqbuf fd arg (some p) t e = absurd (cc e)
frames-noted querycap fd arg (some p) t e = refl
frames-noted s_fmt fd arg (some p) t e = refl
frames-noted reqbufs fd arg (some p) t e = refl
frames-noted querybuf fd arg (some p) t e = refl
frames-noted expbuf fd arg (some p) t e = refl
frames-noted qbuf fd arg (some p) t e = refl
frames-noted streamon fd arg (some p) t e = refl
frames-noted streamoff fd arg (some p) t e = refl
frames-noted heap_alloc fd arg (some p) t e = refl

pub frames-Steady : Steady frames
frames-Steady = record {
  at_opened = λ _ _. refl;
  at_closed = λ _ _. refl;
  at_created = λ _ _ _. refl;
  at_deleted = λ _ _ _. refl;
  at_received = λ _ _ _. refl;
}

module _ (S : Platform) (n : ℕ) where
  -- So many frames have been taken.
  abbrev pub Quiet : World S → Type 0
  Quiet = Level S frames frames-Steady n

  pub cstring-Quiet :
      (path : List ℕ) (w : World S) → Quiet w → Sat (λ _ w'. Quiet w') flowing (cstring path w)
  unfolding cstring
  cstring-Quiet path w q =
      Sat-if (contains_nul path) panics (pure path) w (λ _. record { at = tt })
        (λ _. record { at = q })

module _ (S : Platform) (pending : S.State → ℕ) (settles : Settles S pending) (fuel : ℕ)
    (enough : (s : S.State) → pending s < fuel) (n : ℕ) where
  abbrev spinless : Exits (World S)
  spinless = record { failing = λ _ _. ⊥; panicking = λ _. ⊥; spinning = λ _. Unit }

  pub xioctl-Quiet :
      (r : Request) (fd : RawFd) (arg : Payload r) (w : World S)
      → takes_frame r ≡ false
      → Quiet S n w
      → Sat (λ _ w'. Quiet S n w') never (xioctl S fuel r fd arg w)
  xioctl-Quiet r fd arg w e q =
      Sat-weaken {Y = both spinless never} _
        (Sat-both _ (xioctl-trace S fuel r fd arg w (λ _ _. tt))
          (xioctl-ends S pending settles fuel r fd arg w (enough w.sys)))
        (λ o w' k. ap frames k.0 ∙ frames-noted r fd arg o w.trace e ∙ q) (λ _ _ h. h.1)
        (λ _ h. h.1) (λ _ h. h.1)

  pub try_ioctl-Quiet :
      (r : Request) (fd : RawFd) (arg : Payload r) (w : World S)
      → takes_frame r ≡ false
      → Quiet S n w
      → Sat (λ _ w'. Quiet S n w') flowing (try_ioctl S fuel r fd arg w)
  try_ioctl-Quiet r fd arg w e q =
      Sat-bind (xioctl S fuel r fd arg) _ w (Sat-never _ (xioctl-Quiet r fd arg w e q))
        (elim [ none ↦ λ _ _. record { at = tt } | some p ↦ λ _ q'. record { at = q' } ])
