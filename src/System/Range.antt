-- ===== src/System/Range.antt =====
-- rust/subscriber/src/main.rs at the other end of rust/publisher/src/main.rs: `buf_fds[idx]` is in
-- range.
use pub_sub_v4l2_dmabuf_wayl.Base.{
  ℕ, zero, suc, ◌^◌, ◌≤◌, ◌<◌, ◌≡◌, ◌≢◌, ap, ◌∙◌, subst, List, [], ◌∷◌, none, some, arith, length,
  get_elem?,
}
use pub_sub_v4l2_dmabuf_wayl.Effect.{Run, panic}
use pub_sub_v4l2_dmabuf_wayl.Effect.Triple.{Sat}
use pub_sub_v4l2_dmabuf_wayl.Platform.{Platform, RawFd, World, Event, received}
use pub_sub_v4l2_dmabuf_wayl.V4l2.Capture.{Capture}
use pub_sub_v4l2_dmabuf_wayl.Wire.{Endian, u32_at}
use pub_sub_v4l2_dmabuf_wayl.Publisher.{Device}
use pub_sub_v4l2_dmabuf_wayl.Publisher.Exchange.{IsTraced}
use pub_sub_v4l2_dmabuf_wayl.Egl.{Gpu}
use pub_sub_v4l2_dmabuf_wayl.Wayland.{AppState, Connection}
use pub_sub_v4l2_dmabuf_wayl.Subscriber.{Session, receive}
use pub_sub_v4l2_dmabuf_wayl.Subscriber.Protocol.{
  Stage, View, begin, choose, import_image, destroy, ack, hang_up, lose, refuse, ack_failed,
}
use pub_sub_v4l2_dmabuf_wayl.Subscriber.Receiving.{OutOfRange}
use pub_sub_v4l2_dmabuf_wayl.Subscriber.Frames.{Between, between, receive-View}
use pub_sub_v4l2_dmabuf_wayl.System.Streams.{Moment, final}
use pub_sub_v4l2_dmabuf_wayl.System.Exclusion.{viewed, Instant, index-lt}

-- An index in range finds an element.
get_elem?-found : (xs : List ℕ) (i : ℕ) → get_elem? xs i ≡ none → i < length xs → ⊥
get_elem?-found [] i e l = omega (arith, l)
get_elem?-found (x ∷ xs) zero e l = cc
get_elem?-found (x ∷ xs) (suc i) e l = get_elem?-found xs i e (omega (arith, l))

-- Each step adds to the trace.
View-length :
    {sock : RawFd} {fds : List ℕ} {e : Endian} {t u : List Event} {q : Stage}
    → View sock fds e t q u
    → length t ≤ length u
View-length begin = omega arith
View-length (choose bytes l v) = omega (arith, View-length v)
View-length (import_image i fd img g v) = omega (arith, View-length v)
View-length (destroy i img v) = omega (arith, View-length v)
View-length (ack n v) = omega (arith, View-length v)
View-length (hang_up bytes b v) = omega (arith, View-length v)
View-length (lose v) = View-length v
View-length (refuse i v) = View-length v
View-length (ack_failed v) = View-length v

module _ (S R : Platform) (order : R.endian ≡ S.endian) (d : Device S) (o : IsTraced S d)
    (client rounds : ℕ) (cap : Capture) (w : World S) (G : Gpu R) (C : Connection R) (x : Session)
    (rounds' : ℕ) (st : AppState) (v : World R) where
  -- Whenever the subscriber has received something, there was a moment of the publisher that the
  -- socket allows.
  abbrev pub Fed : Type 0
  Fed =
      (b : List Event) (bytes : List ℕ)
      → Moment v.trace (viewed R G C x rounds' st v) (received (some x.sock) bytes ∷ b)
      → (a : List Event) × Instant S R order d o client rounds cap w G C x rounds' st v a
          (received (some x.sock) bytes ∷ b)

  in_range :
      (s : AppState × World R)
      → length cap.buffers ≤ 2 ^ 32
      → length x.buf_fds ≡ length cap.buffers
      → Fed
      → viewed R G C x rounds' st v ≡ s.1.trace
      → OutOfRange R G x v.trace s.1.trace
      → ⊥
  in_range s small as_many fed now out =
      let grown = View-length out.waited in
      let (a, at) =
        fed out.before out.bytes
          (record { later = []; at = now ∙ out.at; after = omega (arith, grown) }) in
      let less =
        index-lt S R order d o client rounds cap w G C x rounds' st v a out.before out.bytes small
          at out.four grown in
      get_elem?-found x.buf_fds (u32_at R.endian out.bytes 0) out.missing
        (omega (arith, less, as_many))

  -- The subscriber's loop does not panic, neither over an index out of range nor otherwise: its
  -- session has as many buffers as the publisher's capture, at most 2 ^ 32, and whatever it
  -- receives this publisher has sent before.
  pub receive_no_panic :
      (s : AppState × World R)
      → length cap.buffers ≤ 2 ^ 32
      → length x.buf_fds ≡ length cap.buffers
      → Fed
      → receive R G C x rounds' (st, v) ≢ panic s
  receive_no_panic s small as_many fed panicked =
      let left : Sat {A = Unit {0}} (λ _ s'. Between R G C x v.trace s'.1.trace)
          (between R G C x v.trace) (panic s) =
        subst (λ r. Sat (λ _ s'. Between R G C x v.trace s'.1.trace) (between R G C x v.trace) r)
          panicked (receive-View R G C x v.trace rounds' st v begin) in
      in_range s small as_many fed
        (ap (λ (r : Run (AppState × World R) (Unit {0})). (final r).1.trace) panicked) left.at
