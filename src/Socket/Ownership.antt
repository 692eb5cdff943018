-- ===== src/Socket/Ownership.antt =====
-- rust/common/src/socket.rs: the descriptors that its functions open and close.
use pub_sub_v4l2_dmabuf_wayl.Base.{ℕ, Bool, false, List, [], ◌∷◌, some, ◌==◌, length}
use pub_sub_v4l2_dmabuf_wayl.Effect.{other, unexpected_eof, pure, throw, guarded}
use pub_sub_v4l2_dmabuf_wayl.Effect.Triple.{Sat, Sat-bind, Sat-if}
use pub_sub_v4l2_dmabuf_wayl.Effect.Scopes.{Sat-guarded}
use pub_sub_v4l2_dmabuf_wayl.Platform.{
  Platform, World, Io, RawFd, syscall, opening, calling, close_fd,
}
use pub_sub_v4l2_dmabuf_wayl.Platform.Descriptors.{Owns, holding, close_fd-Owns}
use pub_sub_v4l2_dmabuf_wayl.V4l2.Ioctl.Ownership.{
  silent-Owns, noting-Owns, opening-Owns, calling-Owns,
}
use pub_sub_v4l2_dmabuf_wayl.Wire.{Handshake, handshake_bytes, to_ne_bytes, handshake_size}
use pub_sub_v4l2_dmabuf_wayl.Socket.{
  bind_and_listen, create_listening_socket, accept_connection, connect_address, connect_to_socket,
  send_bytes, recv_bytes, send_handshake, send_idx, wait_for_ack,
}

module _ (S : Platform) (fds : List ℕ) where
  -- A socket that is opened is closed again if the rest of the setup fails.
  setup-Owns :
      (m : Io S (Unit {0})) (fd : ℕ) (w : World S)
      → Sat (λ _ w'. Owns (fd ∷ fds) w'.trace) (holding S (fd ∷ fds)) (m w)
      → Sat (λ _ w'. Owns (fd ∷ fds) w'.trace) (holding S fds) (guarded (close_fd S (some fd)) m w)
  setup-Owns m fd w h =
      Sat-guarded {Y = holding S (fd ∷ fds)} (close_fd S (some fd)) m w h
        (λ e w' o.
          Sat-bind (close_fd S (some fd)) _ w' (close_fd-Owns S fd fds w' o)
            λ _ _ o'. record { at = o' })
        (λ w' o.
          Sat-bind (close_fd S (some fd)) _ w' (close_fd-Owns S fd fds w' o)
            λ _ _ o'. record { at = o' })
        (λ _ _. tt)

  -- If the process holds the descriptors `fds`, success adds the listening socket to them; after a
  -- failure or a panic it holds `fds`, so that a socket whose setup failed has been closed.
  pub create_listening_socket-Owns :
      (path : List ℕ) (w : World S)
      → Owns fds w.trace
      → Sat (λ fd w'. Owns (fd ∷ fds) w'.trace) (holding S fds) (create_listening_socket S path w)
  unfolding create_listening_socket
  create_listening_socket-Owns path w o =
      Sat-bind (syscall S (S.remove_file path) (λ _. [])) _ w
        (silent-Owns S fds (S.remove_file path) w o)
        λ _ w₁ o₁.
          Sat-bind (opening S S.socket) _ w₁ (opening-Owns S fds S.socket w₁ o₁) λ fd w₂ o₂.
            Sat-bind (guarded (close_fd S (some fd)) (bind_and_listen S fd path)) _ w₂
              (setup-Owns (bind_and_listen S fd path) fd w₂ (
                Sat-bind (calling S (S.unix_addr path)) _ w₂ (calling-Owns S (fd ∷ fds) _ w₂ o₂)
                  λ addr w₃ o₃.
                    Sat-bind (calling S (S.bind (some fd) addr)) _ w₃
                      (calling-Owns S (fd ∷ fds) _ w₃ o₃)
                      λ _ w₄ o₄. calling-Owns S (fd ∷ fds) _ w₄ o₄))
              λ _ _ o'. record { at = o' }

  pub accept_connection-Owns :
      (listen_fd : ℕ) (w : World S)
      → Owns fds w.trace
      → Sat (λ fd w'. Owns (fd ∷ fds) w'.trace) (holding S fds) (accept_connection S listen_fd w)
  unfolding accept_connection
  accept_connection-Owns listen_fd w o = opening-Owns S fds (S.accept4 (some listen_fd)) w o

  -- If the process holds the descriptors `fds`, success adds the connected socket to them; after a
  -- failure or a panic it holds `fds`, so that a socket whose setup failed has been closed.
  pub connect_to_socket-Owns :
      (path : List ℕ) (w : World S)
      → Owns fds w.trace
      → Sat (λ fd w'. Owns (fd ∷ fds) w'.trace) (holding S fds) (connect_to_socket S path w)
  unfolding connect_to_socket
  connect_to_socket-Owns path w o =
      Sat-bind (opening S S.socket) _ w (opening-Owns S fds S.socket w o) λ fd w₁ o₁.
        Sat-bind (guarded (close_fd S (some fd)) (connect_address S fd path)) _ w₁
          (setup-Owns (connect_address S fd path) fd w₁ (
            Sat-bind (calling S (S.unix_addr path)) _ w₁ (calling-Owns S (fd ∷ fds) _ w₁ o₁)
              λ addr w₂ o₂. calling-Owns S (fd ∷ fds) _ w₂ o₂))
          λ _ _ o'. record { at = o' }

  send_bytes-Owns :
      (sock_fd : RawFd) (bytes sent_fds : List ℕ) (w : World S)
      → Owns fds w.trace
      → Sat (λ _ w'. Owns fds w'.trace) (holding S fds) (send_bytes S sock_fd bytes sent_fds w)
  send_bytes-Owns sock_fd bytes sent_fds w o =
      noting-Owns S fds (S.sendmsg sock_fd bytes sent_fds) _ (λ _. []) w o
        (λ _ _ h. record { at = h.at })

  recv_bytes-Owns :
      (sock_fd : RawFd) (n : ℕ) (all : Bool) (w : World S)
      → Owns fds w.trace
      → Sat (λ _ w'. Owns fds w'.trace) (holding S fds) (recv_bytes S sock_fd n all w)
  recv_bytes-Owns sock_fd n all w o =
      noting-Owns S fds (S.recv sock_fd n all) _ (λ _. []) w o (λ _ _ h. record { at = h.at })

  pub send_handshake-Owns :
      (sock_fd : RawFd) (hs : Handshake) (sent_fds : List ℕ) (w : World S)
      → Owns fds w.trace
      → Sat (λ _ w'. Owns fds w'.trace) (holding S fds) (send_handshake S sock_fd hs sent_fds w)
  unfolding send_handshake
  send_handshake-Owns sock_fd hs sent_fds w o =
      Sat-bind (send_bytes S sock_fd (handshake_bytes S.endian hs) sent_fds) _ w
        (send_bytes-Owns sock_fd _ sent_fds w o)
        λ n w' o'.
          Sat-if (n == handshake_size) (pure tt) (throw other) w' (λ _. record { at = o' })
            (λ _. record { at = o' })

  pub send_idx-Owns :
      (sock_fd : RawFd) (i : ℕ) (w : World S)
      → Owns fds w.trace
      → Sat (λ _ w'. Owns fds w'.trace) (holding S fds) (send_idx S sock_fd i w)
  unfolding send_idx
  send_idx-Owns sock_fd i w o =
      Sat-bind (send_bytes S sock_fd (to_ne_bytes S.endian i) []) _ w
        (send_bytes-Owns sock_fd _ [] w o)
        λ n w' o'.
          Sat-if (n == 4) (pure tt) (throw other) w' (λ _. record { at = o' })
            (λ _. record { at = o' })

  pub wait_for_ack-Owns :
      (sock_fd : RawFd) (w : World S)
      → Owns fds w.trace
      → Sat (λ _ w'. Owns fds w'.trace) (holding S fds) (wait_for_ack S sock_fd w)
  unfolding wait_for_ack
  wait_for_ack-Owns sock_fd w o =
      Sat-bind (recv_bytes S sock_fd 1 false) _ w (recv_bytes-Owns sock_fd 1 false w o)
        λ bytes w' o'.
          Sat-if (length bytes == 0) (throw unexpected_eof) (pure tt) w' (λ _. record { at = o' })
            (λ _. record { at = o' })
