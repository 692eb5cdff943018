-- ===== src/Subscriber/Frames.antt =====
-- rust/subscriber/src/main.rs, the loop: its rounds as steps of the protocol.
use pub_sub_v4l2_dmabuf_wayl.Base.{
  ℕ, zero, suc, ◌≡◌, List, Bool, true, false, ◌&&◌, not, ◌⊎◌, inl, inr,
}
use pub_sub_v4l2_dmabuf_wayl.Effect.{pure}
use pub_sub_v4l2_dmabuf_wayl.Effect.Triple.{Exits, Sat, Sat-bind, Sat-bind_lift, Sat-if, Sat-weaken}
use pub_sub_v4l2_dmabuf_wayl.Platform.{Platform, World, Event}
use pub_sub_v4l2_dmabuf_wayl.Egl.{Gpu}
use pub_sub_v4l2_dmabuf_wayl.Wayland.{AppState, Connection}
use pub_sub_v4l2_dmabuf_wayl.Subscriber.{Session, receive_frame, round, round_then, receive}
use pub_sub_v4l2_dmabuf_wayl.Subscriber.Protocol.{waiting, ended}
use pub_sub_v4l2_dmabuf_wayl.Subscriber.Receiving.{
  total, dispatch_pending-trace, Seen, Rests, OutOfRange, OutOfRange-ended, leaving,
  receive_frame-View,
}

-- The loop.
module _ (S : Platform) (G : Gpu S) (C : Connection S) (x : Session) (t : List Event) where
  -- Between two frames, or at the end.
  abbrev pub Between : List Event → Type 0
  Between u = Seen S G x t waiting u ⊎ Seen S G x t ended u

  abbrev pub between : Exits (AppState × World S)
  between = record {
    failing = λ _ _. ⊥;
    panicking = λ s. OutOfRange S G x t s.1.trace;
    spinning = λ s. Between s.1.trace;
  }

  pub OutOfRange-Between : {u : List Event} → OutOfRange S G x t u → Between u
  OutOfRange-Between o = inr (OutOfRange-ended S G x t o)

  -- After a round that goes on, the subscriber waits.
  abbrev Onward : Bool → AppState × World S → Type 0
  Onward true s = Seen S G x t waiting s.1.trace
  Onward false s = Between s.1.trace

  Rests-Between : (b : Bool) (u : List Event) → Rests S G x t b u → Between u
  Rests-Between true u v = inl v
  Rests-Between false u v = inr v

  round-View :
      (st : AppState) (w : World S)
      → Seen S G x t waiting w.trace
      → Sat Onward between (round S G C x (st, w))
  unfolding round
  round-View st w v =
      Sat-bind_lift (receive_frame S G x) _ st w
        (Sat-weaken {Y = leaving S G x t} _ (receive_frame-View S G x t w v) (λ _ _ h. h)
          (λ _ _ h. h) (λ _ h. h) (λ _ h. inr h))
        (elim [
          | true ↦ λ w' v'.
              Sat-weaken {Y = total} _ (dispatch_pending-trace S C st w')
                (λ b s e. onward b s w' v' e) (λ _ _ h. absurd h) (λ _ h. absurd h)
                (λ _ h. absurd h)
          | false ↦ λ w' v'. record { at = inr v' }
        ])
    where
      onward :
          (b : Bool) (s : AppState × World S) (w' : World S)
          → Seen S G x t waiting w'.trace
          → s.1.trace ≡ w'.trace
          → Onward b s
      onward true s w' v' e = rw e v'
      onward false s w' v' e = inl (rw e v')

  -- From a state in which the subscriber waits, and however the loop is left, the events are
  -- those of whole frames: an index of four bytes received, an image of that buffer made, the
  -- image destroyed, and only then the ack sent. A frame that is broken off has no image left.
  -- The loop never ends with an error.
  pub receive-View :
      (rounds : ℕ) (st : AppState) (w : World S)
      → Seen S G x t waiting w.trace
      → Sat (λ _ s. Between s.1.trace) between (receive S G C x rounds (st, w))
  unfolding receive round_then
  receive-View zero st w v = record { at = inl v }
  receive-View (suc rounds) st w v =
      Sat-if (S.running w.sys && not st.should_close) (round_then S G C x (receive S G C x rounds))
        (pure tt) (st, w)
        (λ _.
          Sat-bind (round S G C x) _ (st, w) (round-View st w v)
            (elim [
              | true ↦ λ s v'. receive-View rounds s.0 s.1 v'
              | false ↦ λ s v'. record { at = v' }
            ]))
        (λ _. record { at = inl v })
