-- ===== src/Publisher/Lasting/Sessions.antt =====
-- rust/publisher/src/main.rs, from the listening socket on: how long a session runs.
use pub_sub_v4l2_dmabuf_wayl.Base.{ℕ, ◌+◌, ◌≡◌, refl, List, [], some, arith}
use pub_sub_v4l2_dmabuf_wayl.Effect.{Run, lift, finally, pure}
use pub_sub_v4l2_dmabuf_wayl.Effect.Triple.{
  Exits, Sat, Sat-bind, Sat-bind_lift, Sat-lift, Sat-weaken,
}
use pub_sub_v4l2_dmabuf_wayl.Effect.Scopes.{Sat-dropped}
use pub_sub_v4l2_dmabuf_wayl.Platform.{Platform, World, syscall, close_fd}
use pub_sub_v4l2_dmabuf_wayl.Platform.Buffers.{frames}
use pub_sub_v4l2_dmabuf_wayl.V4l2.Ioctl.Termination.{never, flowing}
use pub_sub_v4l2_dmabuf_wayl.V4l2.Ioctl.Steady.{Sat-never, close_fd-Level}
use pub_sub_v4l2_dmabuf_wayl.V4l2.Ioctl.Quiet.{frames-Steady}
use pub_sub_v4l2_dmabuf_wayl.V4l2.Capture.{Capture, Method, dmabuf_fds}
use pub_sub_v4l2_dmabuf_wayl.V4l2.Capture.Quiet.{Calm}
use pub_sub_v4l2_dmabuf_wayl.Socket.{create_listening_socket, accept_connection, send_handshake}
use pub_sub_v4l2_dmabuf_wayl.Socket.Quiet.{
  remove_file-Quiet, create_listening_socket-Quiet, accept_connection-Quiet, send_handshake-Quiet,
}
use pub_sub_v4l2_dmabuf_wayl.Publisher.{
  Device, handshake_for, serve_client, serve_and_remove, listen_and_serve, publish,
}
use pub_sub_v4l2_dmabuf_wayl.Publisher.Exchange.{IsTraced}
use pub_sub_v4l2_dmabuf_wayl.Publisher.Termination.{Flows, after_rounds, serve-frames}

-- A run that goes on after its rounds has taken so many frames.
abbrev pub lasting : (S : Platform) → ℕ → Exits (World S)
lasting S k = record {
  failing = λ _ _. Unit;
  panicking = λ _. Unit;
  spinning = λ w. frames w.trace ≡ k;
}

abbrev pub lasting_with : (S : Platform) → ℕ → Exits (Capture × World S)
lasting_with S k = record {
  failing = λ _ _. Unit;
  panicking = λ _. Unit;
  spinning = λ s. frames s.1.trace ≡ k;
}

module _ (S : Platform) (k : ℕ) where
  -- A step that ends.
  pub ended_with :
      {A : Type 0} {Q : A → Capture × World S → Type 0} (r : Run (Capture × World S) A)
      → Sat Q flowing r
      → Sat Q (lasting_with S k) r
  ended_with r h =
      Sat-weaken {Y = flowing} r h (λ _ _ q. q) (λ _ _ _. tt) (λ _ _. tt) (λ _ x. absurd x)

  pub ended :
      {A : Type 0} {Q : A → World S → Type 0} (r : Run (World S) A)
      → Sat Q flowing r
      → Sat Q (lasting S k) r
  ended r h = Sat-weaken {Y = flowing} r h (λ _ _ q. q) (λ _ _ _. tt) (λ _ _. tt) (λ _ x. absurd x)

  -- A descriptor that is closed at the end.
  closing-lasting :
      (fd : ℕ) (m : Method S (Unit {0})) (s : Capture × World S)
      → Sat (λ _ _. Unit {0}) (lasting_with S k) (m s)
      → Sat (λ _ _. Unit {0}) (lasting_with S k) (finally (lift (close_fd S (some fd))) m s)
  closing-lasting fd m s h =
      Sat-dropped {Y = lasting_with S k} (lift (close_fd S (some fd))) m s h (λ _ s' _. closed s')
        (λ _ s' _. closed s') (λ s' _. closed s') (λ _ x. x)
    where
      closed :
          (s' : Capture × World S)
          → Sat (λ _ _. Unit {0}) (lasting_with S k) (lift (close_fd S (some fd)) s')
      closed (c, w) = Sat-lift (close_fd S (some fd)) c w (
          Sat-weaken {Y = never} _
            (close_fd-Level S frames frames-Steady (frames w.trace) (some fd) w refl) (λ _ _ _. tt)
            (λ _ _ x. absurd x) (λ _ x. absurd x) (λ _ x. absurd x))

module _ (S : Platform) (d : Device S) (o : IsTraced S d) (e : Flows S d) (rounds n : ℕ) where
  serve_client-lasting :
      (format client : ℕ) (s : Capture × World S)
      → Calm S n s
      → Sat
          (λ _ _. Unit {0})
          (lasting_with S (rounds + n))
          (serve_client S d rounds format client s)
  unfolding serve_client
  serve_client-lasting format client (c, w) q =
      Sat-bind_lift
        (send_handshake S (some client) (handshake_for S d rounds c format) (dmabuf_fds c.buffers))
        _ c w (ended S (rounds + n) _ (send_handshake-Quiet S n (some client) _ _ w q))
        λ _ w' q'.
          Sat-weaken {Y = after_rounds S d o e client rounds (frames w'.trace)} _
            (serve-frames S d o e client rounds c w') (λ _ _ h. h) (λ _ _ h. h) (λ _ h. h)
            (λ _ h. omega (arith, h, q'))

  serve_and_remove-lasting :
      (path : List ℕ) (format client : ℕ) (s : Capture × World S)
      → Calm S n s
      → Sat
          (λ _ _. Unit {0})
          (lasting_with S (rounds + n))
          (serve_and_remove S d rounds path format client s)
  unfolding serve_and_remove
  serve_and_remove-lasting path format client s q =
      Sat-bind (serve_client S d rounds format client) _ s (serve_client-lasting format client s q)
        λ _ s' _.
          Sat-bind_lift (syscall S (S.remove_file path) (λ _. [])) (λ _. pure tt) s'.0 s'.1
            (Sat-never _ (remove_file-Quiet S (frames s'.1.trace) path s'.1 refl))
            λ _ _ _. record { at = tt }

  listen_and_serve-lasting :
      (path : List ℕ) (format listen_fd : ℕ) (s : Capture × World S)
      → Calm S n s
      → Sat
          (λ _ _. Unit {0})
          (lasting_with S (rounds + n))
          (listen_and_serve S d rounds path format listen_fd s)
  unfolding listen_and_serve
  listen_and_serve-lasting path format listen_fd (c, w) q =
      Sat-bind_lift (accept_connection S listen_fd) _ c w
        (ended S (rounds + n) _ (accept_connection-Quiet S n listen_fd w q))
        λ client w' q'.
          closing-lasting S (rounds + n) client (serve_and_remove S d rounds path format client)
            (c, w') (serve_and_remove-lasting path format client (c, w') q')

  pub publish-lasting :
      (path : List ℕ) (format : ℕ) (s : Capture × World S)
      → Calm S n s
      → Sat (λ _ _. Unit {0}) (lasting_with S (rounds + n)) (publish S d rounds path format s)
  unfolding publish
  publish-lasting path format (c, w) q =
      Sat-bind_lift (create_listening_socket S path) _ c w
        (ended S (rounds + n) _ (create_listening_socket-Quiet S n path w q))
        λ listen_fd w' q'.
          closing-lasting S (rounds + n) listen_fd
            (listen_and_serve S d rounds path format listen_fd) (c, w')
            (listen_and_serve-lasting path format listen_fd (c, w') q')
