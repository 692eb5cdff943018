-- ===== src/Subscriber/Main/Balance.antt =====
-- rust/subscriber/src/main.rs, `main`: what it holds at its end.
use pub_sub_v4l2_dmabuf_wayl.Base.{ℕ, ◌⊎◌, inl, inr, refl, List, [], ◌∷◌, ◌++◌, some, codes, take}
use pub_sub_v4l2_dmabuf_wayl.Effect.{starting, finally}
use pub_sub_v4l2_dmabuf_wayl.Effect.Triple.{Exits, Sat, Sat-bind, Sat-weaken}
use pub_sub_v4l2_dmabuf_wayl.Effect.Scopes.{Sat-dropped, Sat-starting}
use pub_sub_v4l2_dmabuf_wayl.Platform.{Platform, World, Event, Object, shader, close_fd, close_all}
use pub_sub_v4l2_dmabuf_wayl.Platform.Objects.{Keeps, one_of, Keeps-swap}
use pub_sub_v4l2_dmabuf_wayl.Wire.{Handshake}
use pub_sub_v4l2_dmabuf_wayl.Socket.{connect_to_socket, recv_handshake}
use pub_sub_v4l2_dmabuf_wayl.Socket.Arrival.{
  Whole, balanced, close_fd-Keeps, close_all-Keeps, connect_to_socket-Keeps, recv_handshake-Keeps,
}
use pub_sub_v4l2_dmabuf_wayl.Egl.{Gpu, EglContext}
use pub_sub_v4l2_dmabuf_wayl.Egl.Context as Context
use pub_sub_v4l2_dmabuf_wayl.Egl.Resources.Display.{held, unreleased, init-held, drop_context-Keeps}
use pub_sub_v4l2_dmabuf_wayl.Wayland.{AppState, new, Connection}
use pub_sub_v4l2_dmabuf_wayl.Wayland.Window.{create}
use pub_sub_v4l2_dmabuf_wayl.Wayland.Window.Trace.{still, create-trace}
use pub_sub_v4l2_dmabuf_wayl.CommandLine.{
  default_socket_path, Outcome, go, usage, invalid, main_with,
}
use pub_sub_v4l2_dmabuf_wayl.Subscriber.Main.{
  with_egl, with_buffers, with_socket, subscriber, parse_path, subscriber_main,
}
use pub_sub_v4l2_dmabuf_wayl.Subscriber.Main.Release.{leaky, with_egl-Keeps}

-- What a failure may leave besides: of a display, a context and a surface, those made before the
-- failure; or one shader.
abbrev pub Stray : List ℕ → List (Object × ℕ) → List Event → Type 0
Stray fds xs t =
    ((x : EglContext) × (n : ℕ) × Keeps fds (take n (held x) ++ xs) t)
    ⊎ ((v : ℕ) × Keeps fds (one_of shader v ++ xs) t)

abbrev pub straying : (S : Platform) → List ℕ → List (Object × ℕ) → Exits (World S)
straying S fds xs = record {
  failing = λ _ w. Stray fds xs w.trace;
  panicking = λ w. Keeps fds xs w.trace;
  spinning = λ _. Unit;
}

module _ {fds : List ℕ} {xs : List (Object × ℕ)} {t : List Event} where
  Keeps-Stray : Keeps fds xs t → Stray fds xs t
  Keeps-Stray k = inr (0, k)

-- A close that gives up `gone`, whatever the objects.
module _ (S : Platform) (gone fds : List ℕ) (xs : List (Object × ℕ)) where
  close_all-Stray :
      {X : Exits (World S)} (w : World S)
      → Stray (gone ++ fds) xs w.trace
      → Sat (λ _ w'. Stray fds xs w'.trace) X (close_all S gone w)
  close_all-Stray w (inl (x, n, k)) =
      Sat-weaken _ (close_all-Keeps S (take n (held x) ++ xs) gone fds w k)
        (λ _ _ k'. inl (x, n, k')) (λ _ _ h. h) (λ _ h. h) (λ _ h. h)
  close_all-Stray w (inr (v, k)) =
      Sat-weaken _ (close_all-Keeps S (one_of shader v ++ xs) gone fds w k) (λ _ _ k'. inr (v, k'))
        (λ _ _ h. h) (λ _ h. h) (λ _ h. h)

  close_fd-Stray :
      {X : Exits (World S)} (fd : ℕ) (w : World S)
      → Stray (fd ∷ fds) xs w.trace
      → Sat (λ _ w'. Stray fds xs w'.trace) X (close_fd S (some fd) w)
  close_fd-Stray fd w (inl (x, n, k)) =
      Sat-weaken _ (close_fd-Keeps S (take n (held x) ++ xs) fd fds w k) (λ _ _ k'. inl (x, n, k'))
        (λ _ _ h. h) (λ _ h. h) (λ _ h. h)
  close_fd-Stray fd w (inr (v, k)) =
      Sat-weaken _ (close_fd-Keeps S (one_of shader v ++ xs) fd fds w k) (λ _ _ k'. inr (v, k'))
        (λ _ _ h. h) (λ _ h. h) (λ _ h. h)

module _ (S : Platform) (G : Gpu S) (C : Connection S) (rounds : ℕ) (xs : List (Object × ℕ)) where
  abbrev Balanced : List ℕ → Unit {0} → World S → Type 0
  Balanced fds _ w = Keeps fds xs w.trace

  -- The context is dropped however the rest ends.
  under_context :
      (hs : Handshake) (bufs : List ℕ) (sock : ℕ) (st : AppState) (egl : EglContext) (fds : List ℕ)
      (w : World S)
      → Keeps fds (held egl ++ xs) w.trace
      → Sat
          (Balanced fds)
          (straying S fds xs)
          (finally (Context.drop_context S G egl) (with_egl S G C rounds hs bufs sock st egl) w)
  under_context hs bufs sock st egl fds w k =
      Sat-dropped {Y = leaky S G C rounds fds (held egl ++ xs)} (Context.drop_context S G egl)
        (with_egl S G C rounds hs bufs sock st egl) w
        (with_egl-Keeps S G C rounds fds hs bufs sock st egl (held egl ++ xs) w k)
        (λ _ w' k'. drop_context-Keeps S G xs egl w' k')
        (λ _ w' (v, k').
          Sat-weaken _
            (drop_context-Keeps S G (one_of shader v ++ xs) egl w'
              (Keeps-swap (one_of shader v) (held egl) xs k'))
            (λ _ _ k''. inr (v, k'')) (λ _ _ h. h) (λ _ h. h) (λ _ h. h))
        (λ w' k'. drop_context-Keeps S G xs egl w' k') (λ _ _. tt)

  with_buffers-Balanced :
      (got : Handshake × List ℕ) (sock : ℕ) (fds : List ℕ) (w : World S)
      → Keeps fds xs w.trace
      → Sat (Balanced fds) (straying S fds xs) (with_buffers S G C rounds got sock w)
  unfolding with_buffers
  with_buffers-Balanced (hs, bufs) sock fds w k =
      Sat-bind {Q = λ _ w'. Keeps fds xs w'.trace}
        (starting new (create S C rounds hs.width hs.height (codes "dmabuf subscriber"))) _ w
        (Sat-starting {Y = still S C w.trace} new (create S C rounds hs.width hs.height _) w
          (create-trace S C w.trace rounds hs.width hs.height _ (new, w) refl) (λ _ _ e. rw e k)
          (λ _ _ e. rw e (Keeps-Stray k)) (λ _ h. absurd h) (λ _ _. tt))
        λ (st, win) w1 k1.
          Sat-bind (Context.init S G win.display_ptr win.egl_window_ptr) _ w1
            (Sat-weaken {Y = unreleased S fds xs} _ (init-held S G xs _ _ w1 k1) (λ _ _ k'. k')
              (λ _ _ k'. inl k') (λ _ h. absurd h) (λ _ h. absurd h))
            λ egl w2 k2. under_context hs bufs sock st egl fds w2 k2

module _ (S : Platform) (G : Gpu S) (C : Connection S) (rounds : ℕ) (whole : Whole S)
    (xs : List (Object × ℕ)) where
  with_socket-Balanced :
      (sock : ℕ) (fds : List ℕ) (w : World S)
      → Keeps fds xs w.trace
      → Sat (λ _ w'. Keeps fds xs w'.trace) (straying S fds xs) (with_socket S G C rounds sock w)
  unfolding with_socket
  with_socket-Balanced sock fds w k =
      Sat-bind (recv_handshake S (some sock)) _ w
        (Sat-weaken {Y = balanced S fds xs} _ (recv_handshake-Keeps S whole xs (some sock) fds w k)
          (λ _ _ g. g) (λ _ _ k'. Keeps-Stray k') (λ _ k'. k') (λ _ _. tt))
        λ got w1 g.
          Sat-dropped {Y = straying S (got.1 ++ fds) xs} (close_all S got.1)
            (with_buffers S G C rounds got sock) w1
            (with_buffers-Balanced S G C rounds xs got sock (got.1 ++ fds) w1 g.1)
            (λ _ w2 k2. close_all-Keeps S xs got.1 fds w2 k2)
            (λ _ w2 k2. close_all-Stray S got.1 fds xs w2 k2)
            (λ w2 k2. close_all-Keeps S xs got.1 fds w2 k2) (λ _ _. tt)

  -- The same from the connection on.
  pub subscriber-Keeps :
      (path fds : List ℕ) (w : World S)
      → Keeps fds xs w.trace
      → Sat (λ _ w'. Keeps fds xs w'.trace) (straying S fds xs) (subscriber S G C rounds path w)
  unfolding subscriber
  subscriber-Keeps path fds w k =
      Sat-bind (connect_to_socket S path) _ w
        (Sat-weaken {Y = balanced S fds xs} _ (connect_to_socket-Keeps S xs path fds w k)
          (λ _ _ k'. k') (λ _ _ k'. Keeps-Stray k') (λ _ k'. k') (λ _ _. tt))
        λ sock w1 k1.
          Sat-dropped {Y = straying S (sock ∷ fds) xs} (close_fd S (some sock))
            (with_socket S G C rounds sock) w1 (with_socket-Balanced sock (sock ∷ fds) w1 k1)
            (λ _ w2 k2. close_fd-Keeps S xs sock fds w2 k2)
            (λ _ w2 k2. close_fd-Stray S [] fds xs sock w2 k2)
            (λ w2 k2. close_fd-Keeps S xs sock fds w2 k2) (λ _ _. tt)

  under_outcome :
      (out : Outcome (List ℕ)) (fds : List ℕ) (w : World S)
      → Keeps fds xs w.trace
      → Sat
          (λ _ w'. Keeps fds xs w'.trace)
          (straying S fds xs)
          (main_with S (subscriber S G C rounds) out w)
  under_outcome (go path) fds w k =
      Sat-bind (subscriber S G C rounds path) _ w (subscriber-Keeps path fds w k)
        (λ _ _ k'. record { at = k' })
  under_outcome usage fds w k = record { at = k }
  under_outcome invalid fds w k = record { at = Keeps-Stray k }

  -- If every handshake that arrives is whole, and the subscriber starts, with any command line, with
  -- the descriptors `fds` and the objects `xs` of EGL and GLES, then when it returns, exits or panics
  -- it holds those and no other: the socket and the received descriptors have been closed, and the
  -- context and the renderer have been released. When it fails the same holds of the descriptors; of
  -- the objects, those that `EglContext::init` had made when it failed may be left, or one shader.
  pub subscriber_main-Keeps :
      (args : List (List ℕ)) (fds : List ℕ) (w : World S)
      → Keeps fds xs w.trace
      → Sat
          (λ _ w'. Keeps fds xs w'.trace)
          (straying S fds xs)
          (subscriber_main S G C rounds args w)
  unfolding subscriber_main
  subscriber_main-Keeps args fds w k = under_outcome (parse_path args default_socket_path) fds w k
