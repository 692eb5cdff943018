-- ===== src/System/Exclusion.antt =====
-- rust/publisher/src/main.rs and rust/subscriber/src/main.rs in their loops, at any two moments that
-- the socket between them allows.
use pub_sub_v4l2_dmabuf_wayl.Base.{
  ℕ, ◌+◌, ◌^◌, ◌≤◌, ◌<◌, ◌≡◌, refl, ap, ◌⊎◌, inl, inr, subst, List, ◌∷◌, some, arith, length,
  get_elem?,
}
use pub_sub_v4l2_dmabuf_wayl.Platform.{Platform, World, Event, received, imported}
use pub_sub_v4l2_dmabuf_wayl.Platform.Buffers.{takes, gives}
use pub_sub_v4l2_dmabuf_wayl.V4l2.Capture.{Capture}
use pub_sub_v4l2_dmabuf_wayl.Wire.{u32_at}
use pub_sub_v4l2_dmabuf_wayl.Publisher.{Device, serve}
use pub_sub_v4l2_dmabuf_wayl.Publisher.Exchange.{IsTraced, At}
use pub_sub_v4l2_dmabuf_wayl.Publisher.Frames.{AtSome, serve-Log}
use pub_sub_v4l2_dmabuf_wayl.Publisher.Protocol.{Phase, told, broken, done, begin, has, Log-balance}
use pub_sub_v4l2_dmabuf_wayl.Egl.{Gpu}
use pub_sub_v4l2_dmabuf_wayl.Wayland.{AppState, Connection}
use pub_sub_v4l2_dmabuf_wayl.Subscriber.{Session, receive}
use pub_sub_v4l2_dmabuf_wayl.Subscriber.Protocol.{Stage, chosen, viewing, View}
use pub_sub_v4l2_dmabuf_wayl.Subscriber.Protocol as Viewing
use pub_sub_v4l2_dmabuf_wayl.Subscriber.Frames.{Between, between, OutOfRange-Between, receive-View}
use pub_sub_v4l2_dmabuf_wayl.Effect.Triple.{Sat-weaken}
use pub_sub_v4l2_dmabuf_wayl.System.Streams.{Moment, final, Sat-final}
use pub_sub_v4l2_dmabuf_wayl.System.Told.{Log-before, Log-Spoken}
use pub_sub_v4l2_dmabuf_wayl.System.Heard.{
  Known, View-Known, View-before, View-imported, View-received,
}
use pub_sub_v4l2_dmabuf_wayl.System.Sharing.{IsOut, Joined, same_buffer}

module _ (S : Platform) (d : Device S) (o : IsTraced S d) (client rounds : ℕ) (cap : Capture)
    (w : World S) where
  -- What the publisher has done when its loop is left.
  abbrev pub published : List Event
  published = (final (serve S d client rounds (cap, w))).1.trace

  serve-final : AtSome S d o cap.fd client (length cap.buffers) w.trace published
  serve-final =
      Sat-final (λ s. AtSome S d o cap.fd client (length cap.buffers) w.trace s.1.trace)
        (serve S d client rounds (cap, w))
        (serve-Log S d o cap.fd client (length cap.buffers) w.trace rounds cap w (refl, refl) begin)

  pub serve-moment :
      (a : List Event)
      → Moment w.trace published a
      → AtSome S d o cap.fd client (length cap.buffers) w.trace a
  serve-moment a m =
      Log-before cap.fd client S.endian (length cap.buffers) w.trace serve-final.1 m.later a m.at
        m.after

  -- The buffer has been taken from the driver once more than it has gone back.
  abbrev pub Withheld : ℕ → List Event → Type 0
  Withheld i a = takes i a + gives i w.trace ≡ takes i w.trace + gives i a + 1

  -- The exchange over a buffer has failed, without an ack, and the publisher has given that buffer
  -- back, which is the last thing that it does in its loop.
  abbrev pub GivenUp : List Event → Type 0
  GivenUp a = At S cap.fd client (length cap.buffers) w.trace done a

module _ (R : Platform) (G : Gpu R) (C : Connection R) (x : Session) (rounds : ℕ) (st : AppState)
    (v : World R) where
  -- What the subscriber has done when its loop is left.
  abbrev pub viewed : List Event
  viewed = (final (receive R G C x rounds (st, v))).1.trace

  receive-final : (q : Stage) × View (some x.sock) x.buf_fds R.endian v.trace q viewed
  receive-final = either (
      Sat-final (λ s. Between R G C x v.trace s.1.trace) (receive R G C x rounds (st, v))
        (Sat-weaken {Y = between R G C x v.trace} _
          (receive-View R G C x v.trace rounds st v Viewing.begin) (λ _ _ h. h) (λ _ _ h. h)
          (λ _ o. OutOfRange-Between R G C x v.trace o) (λ _ h. h)))
    where
      either :
          {u : List Event}
          → Between R G C x v.trace u
          → (q : Stage) × View (some x.sock) x.buf_fds R.endian v.trace q u
      either (inl s) = (Stage.waiting, s)
      either (inr s) = (Stage.ended, s)

  pub receive-moment :
      (b : List Event)
      → Moment v.trace viewed b
      → (q : Stage) × View (some x.sock) x.buf_fds R.endian v.trace q b
  receive-moment b m =
      View-before x.sock x.buf_fds R.endian v.trace receive-final.1 m.later b m.at m.after

-- Both programs. They run on one machine, or on two of one byte order.
module _ (S R : Platform) (order : R.endian ≡ S.endian) (d : Device S) (o : IsTraced S d)
    (client rounds : ℕ) (cap : Capture) (w : World S) (G : Gpu R) (C : Connection R) (x : Session)
    (rounds' : ℕ) (st : AppState) (v : World R) where
  -- A moment of each run, such that the socket carried no byte that was not sent before.
  pub record Instant (a b : List Event) : Type 0 where
    pub publisher : Moment w.trace (published S d o client rounds cap w) a
    pub subscriber : Moment v.trace (viewed R G C x rounds' st v) b
    pub joined : Joined client x.sock w.trace a v.trace b

  balanced :
      (i : ℕ) (p : Phase) (a : List Event)
      → At S cap.fd client (length cap.buffers) w.trace p a
      → IsOut p i
      → Withheld S d o client rounds cap w i a ⊎ GivenUp S d o client rounds cap w a
  balanced i p a l (inl e) = inl (omega (arith, Log-balance i l, ap (has i) e, has-told i))
    where
      has-told : (j : ℕ) → has j (told j) ≡ 1
      has-told j = ground arith
  balanced i p a l (inr (inl e)) = inl (omega (arith, Log-balance i l, ap (has i) e, has-broken i))
    where
      has-broken : (j : ℕ) → has j (broken j) ≡ 1
      has-broken j = ground arith
  balanced i p a l (inr (inr e)) =
      inr (subst (λ q. At S cap.fd client (length cap.buffers) w.trace q a) e l)

  -- In the moment in which the subscriber has made an image of a buffer, and so until the image is
  -- destroyed, that buffer is not with the driver: the publisher has taken it and not given it back,
  -- unless it has done so, as the last thing in its loop, after an exchange that failed without an
  -- ack. The buffer is one of the capture's. The capture has at most
  -- 2 ^ 32 buffers, and the loops began when all bytes sent had been received.
  pub exclusion :
      (a b : List Event) (img fd : ℕ)
      → length cap.buffers ≤ 2 ^ 32
      → Instant a (imported img fd ∷ b)
      → length v.trace ≤ length b
      → (i : ℕ) × (get_elem? x.buf_fds i ≡ some fd)
        × (i < length cap.buffers)
        × (Withheld S d o client rounds cap w i a ⊎ GivenUp S d o client rounds cap w a)
  exclusion a b img fd small at l =
      let (p, log) = serve-moment S d o client rounds cap w a at.publisher in
      let (q, view) = receive-moment R G C x rounds' st v (imported img fd ∷ b) at.subscriber in
      let (i, stage, found) =
        View-imported x.sock x.buf_fds R.endian v.trace img fd b view refl l in
      let known : Known x.sock x.buf_fds R.endian v.trace (viewing i img) (imported img fd ∷ b) =
        View-Known x.sock x.buf_fds R.endian v.trace (
          subst (λ r. View (some x.sock) x.buf_fds R.endian v.trace r (imported img fd ∷ b)) stage
            view) in
      let known' : Known x.sock x.buf_fds S.endian v.trace (viewing i img) (imported img fd ∷ b) =
        subst (λ e. Known x.sock x.buf_fds e v.trace (viewing i img) (imported img fd ∷ b)) order
          known in
      let (less, phase) =
        same_buffer cap.fd client x.sock x.buf_fds S.endian (length cap.buffers) small w.trace a
          v.trace (imported img fd ∷ b) at.joined p i
          (Log-Spoken cap.fd client S.endian (length cap.buffers) w.trace log) known'.0 known'.1 in
      (i, found, less, balanced i p a log phase)

  -- Each index that comes in is that of one of the capture's buffers. The capture has at most 2 ^ 32
  -- buffers, and the loops began when all bytes sent had been received.
  pub index-lt :
      (a b : List Event) (bytes : List ℕ)
      → length cap.buffers ≤ 2 ^ 32
      → Instant a (received (some x.sock) bytes ∷ b)
      → length bytes ≡ 4
      → length v.trace ≤ length b
      → u32_at R.endian bytes 0 < length cap.buffers
  index-lt a b bytes small at four l =
      let (p, log) = serve-moment S d o client rounds cap w a at.publisher in
      let (q, view) =
        receive-moment R G C x rounds' st v (received (some x.sock) bytes ∷ b) at.subscriber in
      let i = u32_at R.endian bytes 0 in
      let known : Known x.sock x.buf_fds R.endian v.trace (chosen i)
          (received (some x.sock) bytes ∷ b) =
        View-Known x.sock x.buf_fds R.endian v.trace
          (View-received x.sock x.buf_fds R.endian v.trace bytes b view refl four l) in
      let known' : Known x.sock x.buf_fds S.endian v.trace (chosen i)
          (received (some x.sock) bytes ∷ b) =
        subst (λ e. Known x.sock x.buf_fds e v.trace (chosen i) (received (some x.sock) bytes ∷ b))
          order known in
      (same_buffer cap.fd client x.sock x.buf_fds S.endian (length cap.buffers) small w.trace a
        v.trace (received (some x.sock) bytes ∷ b) at.joined p i
        (Log-Spoken cap.fd client S.endian (length cap.buffers) w.trace log) known'.0 known'.1).0
