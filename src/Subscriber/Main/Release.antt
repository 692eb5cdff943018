-- ===== src/Subscriber/Main/Release.antt =====
-- rust/subscriber/src/main.rs, the loop and its renderer: the objects of EGL and GLES.
use pub_sub_v4l2_dmabuf_wayl.Base.{ℕ, inl, inr, List, ◌++◌}
use pub_sub_v4l2_dmabuf_wayl.Effect.{pure, starting}
use pub_sub_v4l2_dmabuf_wayl.Effect.Triple.{Exits, Sat, Sat-bind, Sat-weaken}
use pub_sub_v4l2_dmabuf_wayl.Effect.Scopes.{Sat-dropped, Sat-starting}
use pub_sub_v4l2_dmabuf_wayl.Platform.{Platform, World, RawFd, Event, Object, shader}
use pub_sub_v4l2_dmabuf_wayl.Platform.Objects.{Keeps, one_of}
use pub_sub_v4l2_dmabuf_wayl.Wire.{Handshake, Endian, frame_meta}
use pub_sub_v4l2_dmabuf_wayl.Socket.Arrival.{balanced}
use pub_sub_v4l2_dmabuf_wayl.Egl.{Gpu, EglContext}
use pub_sub_v4l2_dmabuf_wayl.Egl.Renderer.{QuadRenderer, set_viewport, drop_renderer}
use pub_sub_v4l2_dmabuf_wayl.Egl.Renderer as Renderer
use pub_sub_v4l2_dmabuf_wayl.Egl.Resources.{leaking}
use pub_sub_v4l2_dmabuf_wayl.Egl.Resources.Quad.{objects, init-Keeps, drop_renderer-Keeps}
use pub_sub_v4l2_dmabuf_wayl.Wayland.{AppState, Connection}
use pub_sub_v4l2_dmabuf_wayl.Subscriber.{Session, receive}
use pub_sub_v4l2_dmabuf_wayl.Subscriber.Protocol.{
  Stage, View, begin, choose, import_image, destroy, ack, hang_up, lose, refuse, ack_failed,
}
use pub_sub_v4l2_dmabuf_wayl.Subscriber.Frames.{Between, between, OutOfRange-Between, receive-View}
use pub_sub_v4l2_dmabuf_wayl.Subscriber.Main.{show_frames, with_renderer, with_egl}

-- The frames touch neither descriptors nor objects.
View-Keeps :
    {sock : RawFd} {bufs : List ℕ} {e : Endian} {t : List Event} {fds : List ℕ}
    {xs : List (Object × ℕ)} (stage : Stage) (u : List Event)
    → View sock bufs e t stage u
    → Keeps fds xs t
    → Keeps fds xs u
View-Keeps stage u begin k = k
View-Keeps stage _ (choose bytes l v) k =
    let before = View-Keeps _ _ v k in
    record { owned = record { at = before.owned.at }; at = before.at }
View-Keeps stage _ (import_image i fd img g v) k =
    let before = View-Keeps _ _ v k in
    record { owned = record { at = before.owned.at }; at = before.at }
View-Keeps stage _ (destroy i img v) k =
    let before = View-Keeps _ _ v k in
    record { owned = record { at = before.owned.at }; at = before.at }
View-Keeps stage _ (ack n v) k =
    let before = View-Keeps _ _ v k in
    record { owned = record { at = before.owned.at }; at = before.at }
View-Keeps stage _ (hang_up bytes l v) k =
    let before = View-Keeps _ _ v k in
    record { owned = record { at = before.owned.at }; at = before.at }
View-Keeps stage u (lose v) k = View-Keeps _ u v k
View-Keeps stage u (refuse i v) k = View-Keeps _ u v k
View-Keeps stage u (ack_failed v) k = View-Keeps _ u v k

module _ (S : Platform) (G : Gpu S) (C : Connection S) (rounds : ℕ) (fds : List ℕ) where
  show_frames-Keeps :
      (x : Session) (st : AppState) (xs : List (Object × ℕ)) (w : World S)
      → Keeps fds xs w.trace
      → Sat (λ _ w'. Keeps fds xs w'.trace) (balanced S fds xs) (show_frames S G C rounds x st w)
  unfolding show_frames
  show_frames-Keeps x st xs w k =
      Sat-bind {Q = λ _ w'. Keeps fds xs w'.trace} (starting st (receive S G C x rounds))
        (λ _. pure tt) w
        (Sat-starting {Y = between S G C x w.trace} st (receive S G C x rounds) w
          (receive-View S G C x w.trace rounds st w begin) (λ _ s b. kept s.1.trace b)
          (λ _ _ h. absurd h) (λ s o. kept s.1.trace (OutOfRange-Between S G C x w.trace o))
          (λ _ _. tt))
        (λ _ _ k'. record { at = k' })
    where
      kept : (u : List Event) → Between S G C x w.trace u → Keeps fds xs u
      kept u (inl v) = View-Keeps _ u v k
      kept u (inr v) = View-Keeps _ u v k

  with_renderer-Keeps :
      (hs : Handshake) (bufs : List ℕ) (sock : ℕ) (st : AppState) (egl : EglContext)
      (made : QuadRenderer) (xs : List (Object × ℕ)) (w : World S)
      → Keeps fds (objects made ++ xs) w.trace
      → Sat
          (λ _ w'. Keeps fds xs w'.trace)
          (balanced S fds xs)
          (with_renderer S G C rounds hs bufs sock st egl made w)
  unfolding with_renderer
  with_renderer-Keeps hs bufs sock st egl made xs w k =
      let r = set_viewport S G hs.width hs.height made in
      let x : Session = record {
        egl = egl;
        renderer = r;
        frame_meta = frame_meta hs;
        buf_fds = bufs;
        sock = sock;
      } in
      Sat-dropped {Y = balanced S fds (objects made ++ xs)} (drop_renderer S G r)
        (show_frames S G C rounds x st) w (show_frames-Keeps x st (objects made ++ xs) w k)
        (λ _ w' k'. drop_renderer-Keeps S G xs r w' k')
        (λ _ w' k'. drop_renderer-Keeps S G xs r w' k')
        (λ w' k'. drop_renderer-Keeps S G xs r w' k') (λ _ _. tt)

  -- A failure may leave one shader more.
  abbrev pub leaky : List (Object × ℕ) → Exits (World S)
  leaky xs = record {
    failing = λ _ w. (v : ℕ) × Keeps fds (one_of shader v ++ xs) w.trace;
    panicking = λ w. Keeps fds xs w.trace;
    spinning = λ _. Unit;
  }

  pub with_egl-Keeps :
      (hs : Handshake) (bufs : List ℕ) (sock : ℕ) (st : AppState) (egl : EglContext)
      (xs : List (Object × ℕ)) (w : World S)
      → Keeps fds xs w.trace
      → Sat (λ _ w'. Keeps fds xs w'.trace) (leaky xs) (with_egl S G C rounds hs bufs sock st egl w)
  unfolding with_egl
  with_egl-Keeps hs bufs sock st egl xs w k =
      Sat-bind (Renderer.init S G hs.format) _ w
        (Sat-weaken {Y = leaking S fds xs} _ (init-Keeps S G xs hs.format w k) (λ _ _ k'. k')
          (λ _ _ k'. k') (λ _ h. absurd h) (λ _ h. absurd h))
        λ made w1 k1.
          Sat-weaken {Y = balanced S fds xs} _
            (with_renderer-Keeps hs bufs sock st egl made xs w1 k1) (λ _ _ k'. k')
            (λ _ _ k'. (0, k')) (λ _ k'. k') (λ _ _. tt)
