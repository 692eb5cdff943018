-- ===== src/System/Waiting.antt =====
-- Both programs in their loops: they never wait for each other.
pub mod Counts
use pub_sub_v4l2_dmabuf_wayl.Base.{ℕ, ◌≤◌, ◌≡◌, List, [], ◌∷◌, ◌++◌, some, arith, length, refl}
use pub_sub_v4l2_dmabuf_wayl.Platform.{Platform, World, Event, sent, received}
use pub_sub_v4l2_dmabuf_wayl.V4l2.Capture.{Capture}
use pub_sub_v4l2_dmabuf_wayl.Publisher.{Device}
use pub_sub_v4l2_dmabuf_wayl.Publisher.Exchange.{IsTraced}
use pub_sub_v4l2_dmabuf_wayl.Egl.{Gpu}
use pub_sub_v4l2_dmabuf_wayl.Wayland.{AppState, Connection}
use pub_sub_v4l2_dmabuf_wayl.Subscriber.{Session}
use pub_sub_v4l2_dmabuf_wayl.System.Streams.{Moment, stream_out, stream_in, length-IsPrefix}
use pub_sub_v4l2_dmabuf_wayl.System.Exclusion.{Instant, viewed, serve-moment, receive-moment}
use pub_sub_v4l2_dmabuf_wayl.System.Waiting.Counts.{Brief, Prompt, Silent, Log-sent, View-receives}

module _ (S R : Platform) (order : R.endian ≡ S.endian) (d : Device S) (o : IsTraced S d)
    (client rounds : ℕ) (cap : Capture) (w : World S) (G : Gpu R) (C : Connection R) (x : Session)
    (rounds' : ℕ) (st : AppState) (v : World R) where
  -- At a moment at which each end has received all that the other has sent.
  pub record Drained (a b : List Event) : Type 0 where
    pub instant : Instant S R order d o client rounds cap w G C x rounds' st v a b
    pub indices : length (stream_out client a) ≤ length (stream_in x.sock b)
    pub acks : length (stream_out x.sock b) ≤ length (stream_in client a)

  -- The programs never wait for each other. At a moment at which the last thing that the publisher
  -- has done is to send an index, so that it waits for an ack, and each end has received all that
  -- the other has sent, the subscriber does not wait for an index: whatever it receives after that
  -- moment, it has sent something before. No `recv` of one byte brought the publisher more, and each
  -- `sendmsg` of the subscriber took a byte at least.
  pub no_deadlock :
      (a b m : List Event) (bytes bytes' : List ℕ)
      → Drained (sent (some client) bytes [] ∷ a) b
      → length bytes ≡ 4
      → length w.trace ≤ length a
      → Brief client a
      → Prompt x.sock b
      → Moment v.trace (viewed R G C x rounds' st v) (received (some x.sock) bytes' ∷ (m ++ b))
      → ¬ Silent x.sock m
  no_deadlock a b m bytes bytes' still four l brief prompt next silent =
      let (p, log) =
        serve-moment S d o client rounds cap w (sent (some client) bytes [] ∷ a)
          still.instant.publisher in
      let (q, view) =
        receive-moment R G C x rounds' st v (received (some x.sock) bytes' ∷ (m ++ b)) next in
      let h =
        Log-sent cap.fd client S.endian (length cap.buffers) w.trace bytes [] a log refl four l
          brief in
      let (k, answered) =
        View-receives x.sock x.buf_fds R.endian v.trace bytes' m b view refl silent
          still.instant.subscriber.after prompt in
      let j = still.instant.joined in
      omega (
        arith,
        h.out,
        h.come,
        answered.come,
        answered.gone,
        still.indices,
        still.acks,
        j.began_out,
        j.began_in,
        length-IsPrefix j.indices,
        length-IsPrefix j.acks,
      )
