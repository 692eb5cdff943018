-- ===== src/Subscriber/Main/Lasting.antt =====
-- rust/subscriber/src/main.rs, `main` as a whole: how long it runs.
use pub_sub_v4l2_dmabuf_wayl.Base.{
  ℕ, ◌+◌, ◌≡◌, ◌⊎◌, inl, inr, refl, ap, ◌∙◌, List, some, arith, codes,
}
use pub_sub_v4l2_dmabuf_wayl.Effect.{Run, pure, starting, finally}
use pub_sub_v4l2_dmabuf_wayl.Effect.Triple.{Exits, Sat, Sat-bind, Sat-weaken}
use pub_sub_v4l2_dmabuf_wayl.Effect.Scopes.{Sat-dropped, Sat-starting}
use pub_sub_v4l2_dmabuf_wayl.Platform.{Platform, World, close_fd, close_all}
use pub_sub_v4l2_dmabuf_wayl.V4l2.Ioctl.Termination.{never, flowing}
use pub_sub_v4l2_dmabuf_wayl.V4l2.Ioctl.Steady.{Steady, Sat-never, close_fd-ends, close_all-ends}
use pub_sub_v4l2_dmabuf_wayl.Wire.{Handshake, frame_meta}
use pub_sub_v4l2_dmabuf_wayl.Socket.{connect_to_socket, recv_handshake}
use pub_sub_v4l2_dmabuf_wayl.Socket.Steady.{connect_to_socket-Level, recv_handshake-Level}
use pub_sub_v4l2_dmabuf_wayl.Egl.{Gpu, EglContext}
use pub_sub_v4l2_dmabuf_wayl.Egl.Context as Context
use pub_sub_v4l2_dmabuf_wayl.Egl.Renderer.{QuadRenderer, set_viewport, drop_renderer}
use pub_sub_v4l2_dmabuf_wayl.Egl.Renderer as Renderer
use pub_sub_v4l2_dmabuf_wayl.Egl.Steady.{init-Level, drop_context-Level}
use pub_sub_v4l2_dmabuf_wayl.Egl.Steady.Drawing.{renderer-Level, drop_renderer-Level}
use pub_sub_v4l2_dmabuf_wayl.Wayland.{AppState, Connection, new}
use pub_sub_v4l2_dmabuf_wayl.Wayland.Window.{create}
use pub_sub_v4l2_dmabuf_wayl.Wayland.Window.Trace.{still, create-trace}
use pub_sub_v4l2_dmabuf_wayl.CommandLine.{Outcome, go, usage, invalid, main_with}
use pub_sub_v4l2_dmabuf_wayl.Subscriber.{Session, receive}
use pub_sub_v4l2_dmabuf_wayl.Subscriber.Termination.{shown, after_rounds, receive-shown}
use pub_sub_v4l2_dmabuf_wayl.Subscriber.Main.{
  show_frames, with_renderer, with_egl, with_buffers, with_socket, subscriber,
}

shown-Steady : Steady shown
shown-Steady = record {
  at_opened = λ _ _. refl;
  at_closed = λ _ _. refl;
  at_created = λ _ _ _. refl;
  at_deleted = λ _ _ _. refl;
  at_received = λ _ _ _. refl;
}

-- A run that goes on has shown as many images as there were rounds, or none yet.
abbrev pub lasting : (S : Platform) → ℕ → ℕ → Exits (World S)
lasting S rounds n = record {
  failing = λ _ _. Unit;
  panicking = λ _. Unit;
  spinning = λ w. (shown w.trace ≡ rounds + n) ⊎ (shown w.trace ≡ n);
}

-- That a drop ends is all that matters of it.
ends_of :
    {W A : Type 0} {Q : A → W → Type 0} {r : Run W A}
    → Sat Q never r
    → Sat (λ _ _. Unit {0}) never r
ends_of {r} h = Sat-weaken {Y = never} r h (λ _ _ _. tt) (λ _ _ x. x) (λ _ x. x) (λ _ x. x)

module _ (S : Platform) (G : Gpu S) (C : Connection S) (rounds n : ℕ) where
  abbrev Dark : World S → Type 0
  Dark w = shown w.trace ≡ n

  abbrev Lasts : {A : Type 0} → Run (World S) A → Type 0
  Lasts r = Sat (λ _ _. Unit {0}) (lasting S rounds n) r

  ended :
      {A : Type 0} {Q : A → World S → Type 0} (r : Run (World S) A)
      → Sat Q flowing r
      → Sat Q (lasting S rounds n) r
  ended r h = Sat-weaken {Y = flowing} r h (λ _ _ q. q) (λ _ _ _. tt) (λ _ _. tt) (λ _ x. absurd x)

  -- What is dropped at the end of a part that lasts.
  dropping-Lasts :
      (drop : World S → Run (World S) (Unit {0})) (m : World S → Run (World S) (Unit {0}))
      (w : World S)
      → ((w' : World S) → Sat (λ _ _. Unit {0}) never (drop w'))
      → Lasts (m w)
      → Lasts (finally drop m w)
  dropping-Lasts drop m w ends h =
      Sat-dropped {Y = lasting S rounds n} drop m w h (λ _ w' _. Sat-never _ (ends w'))
        (λ _ w' _. Sat-never _ (ends w')) (λ w' _. Sat-never _ (ends w')) (λ _ x. x)

  show_frames-Lasts :
      (x : Session) (st : AppState) (w : World S) → Dark w → Lasts (show_frames S G C rounds x st w)
  unfolding show_frames
  show_frames-Lasts x st w q =
      Sat-bind {Q = λ _ _. Unit {0}} (starting st (receive S G C x rounds)) (λ _. pure tt) w
        (Sat-starting {Y = after_rounds S G C x rounds (shown w.trace)} st (receive S G C x rounds)
          w (receive-shown S G C x rounds st w) (λ _ _ _. tt) (λ _ _ _. tt) (λ _ _. tt)
          (λ s e. inl (omega (arith, e, q))))
        (λ _ _ _. record { at = tt })

  with_renderer-Lasts :
      (hs : Handshake) (bufs : List ℕ) (sock : ℕ) (st : AppState) (egl : EglContext)
      (made : QuadRenderer) (w : World S)
      → Dark w
      → Lasts (with_renderer S G C rounds hs bufs sock st egl made w)
  unfolding with_renderer
  with_renderer-Lasts hs bufs sock st egl made w q =
      let r = set_viewport S G hs.width hs.height made in
      let x : Session = record {
        egl = egl;
        renderer = r;
        frame_meta = frame_meta hs;
        buf_fds = bufs;
        sock = sock;
      } in
      dropping-Lasts (drop_renderer S G r) (show_frames S G C rounds x st) w
        (λ w'. ends_of (drop_renderer-Level S G shown shown-Steady (shown w'.trace) r w' refl))
        (show_frames-Lasts x st w q)

  with_egl-Lasts :
      (hs : Handshake) (bufs : List ℕ) (sock : ℕ) (st : AppState) (egl : EglContext) (w : World S)
      → Dark w
      → Lasts (with_egl S G C rounds hs bufs sock st egl w)
  unfolding with_egl
  with_egl-Lasts hs bufs sock st egl w q =
      Sat-bind (Renderer.init S G hs.format) _ w
        (ended _ (renderer-Level S G shown shown-Steady n hs.format w q))
        λ made w1 q1. with_renderer-Lasts hs bufs sock st egl made w1 q1

  with_buffers-Lasts :
      (got : Handshake × List ℕ) (sock : ℕ) (w : World S)
      → Dark w
      → Lasts (with_buffers S G C rounds got sock w)
  unfolding with_buffers
  with_buffers-Lasts (hs, bufs) sock w q =
      Sat-bind {Q = λ _ w'. Dark w'}
        (starting new (create S C rounds hs.width hs.height (codes "dmabuf subscriber"))) _ w
        (Sat-starting {Y = still S C w.trace} new (create S C rounds hs.width hs.height _) w
          (create-trace S C w.trace rounds hs.width hs.height _ (new, w) refl)
          (λ _ _ e. ap shown e ∙ q) (λ _ _ _. tt) (λ _ h. absurd h) (λ _ e. inr (ap shown e ∙ q)))
        λ (st, win) w1 q1.
          Sat-bind (Context.init S G win.display_ptr win.egl_window_ptr) _ w1
            (ended _ (init-Level S G shown shown-Steady n _ _ w1 q1))
            λ egl w2 q2.
              dropping-Lasts (Context.drop_context S G egl)
                (with_egl S G C rounds hs bufs sock st egl) w2
                (λ w'.
                  ends_of (drop_context-Level S G shown shown-Steady (shown w'.trace) egl w' refl))
                (with_egl-Lasts hs bufs sock st egl w2 q2)

  with_socket-Lasts : (sock : ℕ) (w : World S) → Dark w → Lasts (with_socket S G C rounds sock w)
  unfolding with_socket
  with_socket-Lasts sock w q =
      Sat-bind (recv_handshake S (some sock)) _ w
        (ended _ (recv_handshake-Level S shown shown-Steady n (some sock) w q))
        λ got w1 q1.
          dropping-Lasts (close_all S got.1) (with_buffers S G C rounds got sock) w1
            (close_all-ends S got.1) (with_buffers-Lasts got sock w1 q1)

  subscriber-Lasts : (path : List ℕ) (w : World S) → Dark w → Lasts (subscriber S G C rounds path w)
  unfolding subscriber
  subscriber-Lasts path w q =
      Sat-bind (connect_to_socket S path) _ w
        (ended _ (connect_to_socket-Level S shown shown-Steady n path w q))
        λ sock w1 q1.
          dropping-Lasts (close_fd S (some sock)) (with_socket S G C rounds sock) w1
            (close_fd-ends S (some sock)) (with_socket-Lasts sock w1 q1)

  pub outcome-Lasts :
      (out : Outcome (List ℕ)) (w : World S)
      → Dark w
      → Lasts (main_with S (subscriber S G C rounds) out w)
  outcome-Lasts (go path) w q =
      Sat-bind (subscriber S G C rounds path) _ w (subscriber-Lasts path w q)
        (λ _ _ _. record { at = tt })
  outcome-Lasts usage w q = record { at = tt }
  outcome-Lasts invalid w q = record { at = tt }
