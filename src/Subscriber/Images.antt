-- ===== src/Subscriber/Images.antt =====
-- rust/subscriber/src/main.rs, the loop: the images that it makes.
use pub_sub_v4l2_dmabuf_wayl.Base.{ℕ, ◌+◌, ◌≡◌, inl, inr, List, arith}
use pub_sub_v4l2_dmabuf_wayl.Effect.Triple.{Exits, Sat, Sat-weaken}
use pub_sub_v4l2_dmabuf_wayl.Platform.{Platform, World, Event}
use pub_sub_v4l2_dmabuf_wayl.Egl.{Gpu}
use pub_sub_v4l2_dmabuf_wayl.Wayland.{AppState, Connection}
use pub_sub_v4l2_dmabuf_wayl.Subscriber.{Session, receive}
use pub_sub_v4l2_dmabuf_wayl.Subscriber.Protocol.{begin, made, unmade, View-alive}
use pub_sub_v4l2_dmabuf_wayl.Subscriber.Frames.{Between, between, OutOfRange-Between, receive-View}

-- From one trace to a later one, each image has been destroyed as often as it was made.
pub record Released (t u : List Event) : Type 0 where
  pub at : (img : ℕ) → made img u + unmade img t ≡ made img t + unmade img u

module _ (S : Platform) (G : Gpu S) (C : Connection S) (x : Session) (t : List Event) where
  abbrev pub releasing : Exits (AppState × World S)
  releasing = record {
    failing = λ _ _. ⊥;
    panicking = λ s. Released t s.1.trace;
    spinning = λ s. Released t s.1.trace;
  }

  Between-Released : (u : List Event) → Between S G C x t u → Released t u
  Between-Released u (inl v) = record { at = λ img. omega (arith, View-alive img v) }
  Between-Released u (inr v) = record { at = λ img. omega (arith, View-alive img v) }

module _ (S : Platform) (G : Gpu S) (C : Connection S) (x : Session) where
  -- However the subscriber's loop is left, a panic over an index out of range and the end of the
  -- rounds included, every image that it made has been destroyed.
  pub receive-Released :
      (rounds : ℕ) (st : AppState) (w : World S)
      → Sat
          (λ _ s. Released w.trace s.1.trace)
          (releasing S G C x w.trace)
          (receive S G C x rounds (st, w))
  receive-Released rounds st w =
      Sat-weaken {Y = between S G C x w.trace} _ (receive-View S G C x w.trace rounds st w begin)
        (λ _ s v. Between-Released S G C x w.trace s.1.trace v) (λ _ _ h. h)
        (λ s o. Between-Released S G C x w.trace s.1.trace (OutOfRange-Between S G C x w.trace o))
        (λ s v. Between-Released S G C x w.trace s.1.trace v)
