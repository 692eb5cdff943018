-- ===== src/Publisher/Sessions.antt =====
-- rust/publisher/src/main.rs and rust/publisher/src/publisher_dma.rs: the descriptors of a session,
-- from the listening socket on.
use pub_sub_v4l2_dmabuf_wayl.Base.{ℕ, List, [], ◌∷◌, some, arith}
use pub_sub_v4l2_dmabuf_wayl.Effect.{pure, throw, panics, ◌>>◌, lift, finally}
use pub_sub_v4l2_dmabuf_wayl.Effect.Triple.{Sat, Sat-bind, Sat-bind_lift}
use pub_sub_v4l2_dmabuf_wayl.Effect.Scopes.{Sat-finally}
use pub_sub_v4l2_dmabuf_wayl.Platform.{Platform, World, syscall, close_fd}
use pub_sub_v4l2_dmabuf_wayl.Platform.Descriptors.{Owns, Owns-same, close_fd-Owns}
use pub_sub_v4l2_dmabuf_wayl.V4l2.Ioctl.Ownership.{silent-Owns}
use pub_sub_v4l2_dmabuf_wayl.V4l2.Capture.{Capture, Method, dmabuf_fds}
use pub_sub_v4l2_dmabuf_wayl.V4l2.Capture.Ownership.{held, Holds, owning, count-held}
use pub_sub_v4l2_dmabuf_wayl.Socket.{create_listening_socket, accept_connection, send_handshake}
use pub_sub_v4l2_dmabuf_wayl.Socket.Ownership.{
  create_listening_socket-Owns, accept_connection-Owns, send_handshake-Owns,
}
use pub_sub_v4l2_dmabuf_wayl.Publisher.Rounds.{IsOwning, serve-Owns}
use pub_sub_v4l2_dmabuf_wayl.Publisher.{
  Device, handshake_for, serve_client, serve_and_remove, listen_and_serve, publish,
}

-- A descriptor that is held beside the object, closed however `m` ends.
module _ (S : Platform) (fds : List ℕ) where
  closing-Owns :
      (fd : ℕ) (m : Method S (Unit {0})) (s : Capture × World S)
      → Sat (λ _ s'. Holds S (fd ∷ fds) s') (owning S (fd ∷ fds)) (m s)
      → Sat (λ _ s'. Holds S fds s') (owning S fds) (finally (lift (close_fd S (some fd))) m s)
  closing-Owns fd m s h =
      Sat-finally {Y = owning S (fd ∷ fds)} (lift (close_fd S (some fd))) m s h
        (λ a s' o. closed (pure a) s' o (λ w' o'. record { at = o' }))
        (λ e s' o. closed (throw e) s' o (λ w' o'. record { at = o' }))
        (λ s' o. closed panics s' o (λ w' o'. record { at = o' })) (λ _ _. tt)
    where
      Kept : Unit {0} → Capture × World S → Type 0
      Kept _ s' = Holds S fds s'

      closed :
          (k : Method S (Unit {0})) (s' : Capture × World S)
          → Holds S (fd ∷ fds) s'
          → ((w' : World S) → Holds S fds (s'.0, w') → Sat Kept (owning S fds) (k (s'.0, w')))
          → Sat Kept (owning S fds) ((lift (close_fd S (some fd)) >> k) s')
      closed k s' o next =
          Sat-bind_lift (close_fd S (some fd)) _ s'.0 s'.1
            (close_fd-Owns S fd (held s'.0 fds) s'.1 (
              Owns-same (λ a. omega (arith, count-held a s'.0 (fd ∷ fds), count-held a s'.0 fds))
                o))
            (λ _ w' o'. next w' o')

  -- The other way round: a new descriptor stands before what the object holds.
  beside-Owns :
      (fd : ℕ) (c : Capture) (w : World S)
      → Owns (fd ∷ held c fds) w.trace
      → Holds S (fd ∷ fds) (c, w)
  beside-Owns fd c w o =
      Owns-same (λ a. omega (arith, count-held a c (fd ∷ fds), count-held a c fds)) o

module _ (S : Platform) (fds : List ℕ) (mk : Device S) (keeps : (xs : List ℕ) → IsOwning S xs mk)
    (rounds : ℕ) where
  serve_client-Owns :
      (format client : ℕ) (xs : List ℕ) (s : Capture × World S)
      → Holds S xs s
      → Sat (λ _ s'. Holds S xs s') (owning S xs) (serve_client S mk rounds format client s)
  unfolding serve_client
  serve_client-Owns format client xs (c, w) h =
      Sat-bind_lift
        (send_handshake S (some client) (handshake_for S mk rounds c format) (dmabuf_fds c.buffers))
        _ c w (send_handshake-Owns S (held c xs) (some client) _ _ w h)
        λ _ w' h'. serve-Owns S xs mk (keeps xs) client rounds (c, w') h'

  serve_and_remove-Owns :
      (path : List ℕ) (format client : ℕ) (xs : List ℕ) (s : Capture × World S)
      → Holds S xs s
      → Sat
          (λ _ s'. Holds S xs s')
          (owning S xs)
          (serve_and_remove S mk rounds path format client s)
  unfolding serve_and_remove
  serve_and_remove-Owns path format client xs s h =
      Sat-bind (serve_client S mk rounds format client) _ s (serve_client-Owns format client xs s h)
        λ _ s' h'.
          Sat-bind_lift (syscall S (S.remove_file path) (λ _. [])) (λ _. pure tt) s'.0 s'.1
            (silent-Owns S (held s'.0 xs) (S.remove_file path) s'.1 h')
            λ _ w'' h''. record { at = h'' }

  listen_and_serve-Owns :
      (path : List ℕ) (format listen_fd : ℕ) (xs : List ℕ) (s : Capture × World S)
      → Holds S xs s
      → Sat
          (λ _ s'. Holds S xs s')
          (owning S xs)
          (listen_and_serve S mk rounds path format listen_fd s)
  unfolding listen_and_serve
  listen_and_serve-Owns path format listen_fd xs (c, w) h =
      Sat-bind_lift (accept_connection S listen_fd) _ c w
        (accept_connection-Owns S (held c xs) listen_fd w h)
        λ client w' h'.
          closing-Owns S xs client (serve_and_remove S mk rounds path format client) (c, w')
            (serve_and_remove-Owns path format client (client ∷ xs) (c, w')
              (beside-Owns S xs client c w' h'))

  pub publish-Owns :
      (path : List ℕ) (format : ℕ) (s : Capture × World S)
      → Holds S fds s
      → Sat (λ _ s'. Holds S fds s') (owning S fds) (publish S mk rounds path format s)
  unfolding publish
  publish-Owns path format (c, w) h =
      Sat-bind_lift (create_listening_socket S path) _ c w
        (create_listening_socket-Owns S (held c fds) path w h)
        λ listen_fd w' h'.
          closing-Owns S fds listen_fd (listen_and_serve S mk rounds path format listen_fd) (c, w')
            (listen_and_serve-Owns path format listen_fd (listen_fd ∷ fds) (c, w')
              (beside-Owns S fds listen_fd c w' h'))
