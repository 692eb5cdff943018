-- ===== src/Socket/Quiet.antt =====
-- rust/common/src/socket.rs, as the publishers use it before their loop: each call ends, and takes
-- no frame from the driver.
use pub_sub_v4l2_dmabuf_wayl.Base.{ℕ, refl, ap, ◌∙◌, List, [], ◌∷◌, none, some, take, ◌==◌}
use pub_sub_v4l2_dmabuf_wayl.Effect.{other, throw, pure, panics, ◌>>◌, guarded}
use pub_sub_v4l2_dmabuf_wayl.Effect.Triple.{Sat, Sat-bind, Sat-if, Sat-weaken}
use pub_sub_v4l2_dmabuf_wayl.Effect.Scopes.{Sat-guarded}
use pub_sub_v4l2_dmabuf_wayl.Platform.{
  Platform, World, Io, RawFd, sent, syscall, opening, calling, close_fd,
}
use pub_sub_v4l2_dmabuf_wayl.Platform.Buffers.{frames}
use pub_sub_v4l2_dmabuf_wayl.V4l2.Ioctl.Trace.{syscall-trace}
use pub_sub_v4l2_dmabuf_wayl.V4l2.Ioctl.Termination.{never, flowing}
use pub_sub_v4l2_dmabuf_wayl.V4l2.Ioctl.Steady.{
  Sat-never, close_fd-Level, noting-Level, opening-Level, calling-Level,
}
use pub_sub_v4l2_dmabuf_wayl.V4l2.Ioctl.Quiet.{Quiet, frames-Steady}
use pub_sub_v4l2_dmabuf_wayl.Wire.{Handshake, handshake_bytes, handshake_size}
use pub_sub_v4l2_dmabuf_wayl.Socket.{
  bind_and_listen, create_listening_socket, accept_connection, send_bytes, send_handshake,
}

module _ (S : Platform) (n : ℕ) where
  -- The file of the socket goes; the result is not looked at.
  pub remove_file-Quiet :
      (path : List ℕ) (w : World S)
      → Quiet S n w
      → Sat (λ _ w'. Quiet S n w') never (syscall S (S.remove_file path) (λ _. []) w)
  remove_file-Quiet path w q =
      Sat-weaken {Y = never} _ (syscall-trace S (S.remove_file path) (λ _. []) w)
        (elim [ none ↦ λ w' e. ap frames e ∙ q | some u ↦ λ w' e. ap frames e ∙ q ]) (λ _ _ h. h)
        (λ _ h. h) (λ _ h. h)

  bind_and_listen-Quiet :
      (fd : ℕ) (path : List ℕ) (w : World S)
      → Quiet S n w
      → Sat (λ _ w'. Quiet S n w') flowing (bind_and_listen S fd path w)
  unfolding bind_and_listen
  bind_and_listen-Quiet fd path w q =
      Sat-bind (calling S (S.unix_addr path)) _ w
        (calling-Level S frames frames-Steady n (S.unix_addr path) w q)
        λ addr w1 q1.
          Sat-bind (calling S (S.bind (some fd) addr)) _ w1
            (calling-Level S frames frames-Steady n (S.bind (some fd) addr) w1 q1)
            λ _ w2 q2. calling-Level S frames frames-Steady n (S.listen (some fd) 1) w2 q2

  -- Closed where a step fails.
  closing-Quiet :
      (fd : ℕ) (m : Io S (Unit {0})) (w : World S)
      → Sat (λ _ w'. Quiet S n w') flowing (m w)
      → Sat (λ _ w'. Quiet S n w') flowing (guarded (close_fd S (some fd)) m w)
  closing-Quiet fd m w h =
      Sat-guarded {Y = flowing} (close_fd S (some fd)) m w h
        (λ e w' _. closed (throw e) w' (λ _. record { at = tt }))
        (λ w' _. closed panics w' (λ _. record { at = tt })) (λ _ x. x)
    where
      closed :
          (k : Io S (Unit {0})) (w' : World S)
          → ((w'' : World S) → Sat (λ _ v. Quiet S n v) flowing (k w''))
          → Sat (λ _ v. Quiet S n v) flowing ((close_fd S (some fd) >> k) w')
      closed k w' ends =
          Sat-bind (close_fd S (some fd)) _ w'
            (Sat-never _
              (close_fd-Level S frames frames-Steady (frames w'.trace) (some fd) w' refl))
            λ _ w'' _. ends w''

  pub create_listening_socket-Quiet :
      (path : List ℕ) (w : World S)
      → Quiet S n w
      → Sat (λ _ w'. Quiet S n w') flowing (create_listening_socket S path w)
  unfolding create_listening_socket
  create_listening_socket-Quiet path w q =
      Sat-bind {Q = λ _ w'. Quiet S n w'} (syscall S (S.remove_file path) (λ _. [])) _ w
        (Sat-never _ (remove_file-Quiet path w q))
        λ _ w1 q1.
          Sat-bind (opening S S.socket) _ w1 (opening-Level S frames frames-Steady n S.socket w1 q1)
            λ fd w2 q2.
              Sat-bind (guarded (close_fd S (some fd)) (bind_and_listen S fd path)) _ w2
                (closing-Quiet fd (bind_and_listen S fd path) w2
                  (bind_and_listen-Quiet fd path w2 q2))
                (λ _ _ q3. record { at = q3 })

  pub accept_connection-Quiet :
      (listen_fd : ℕ) (w : World S)
      → Quiet S n w
      → Sat (λ _ w'. Quiet S n w') flowing (accept_connection S listen_fd w)
  unfolding accept_connection
  accept_connection-Quiet listen_fd w q =
      opening-Level S frames frames-Steady n (S.accept4 (some listen_fd)) w q

  pub send_handshake-Quiet :
      (sock : RawFd) (hs : Handshake) (fds : List ℕ) (w : World S)
      → Quiet S n w
      → Sat (λ _ w'. Quiet S n w') flowing (send_handshake S sock hs fds w)
  unfolding send_handshake
  send_handshake-Quiet sock hs fds w q =
      Sat-bind (send_bytes S sock (handshake_bytes S.endian hs) fds) _ w
        (noting-Level S frames frames-Steady n (S.sendmsg sock (handshake_bytes S.endian hs) fds)
          (λ k. sent sock (take k (handshake_bytes S.endian hs)) fds ∷ []) w (λ _ _. refl) q)
        λ k w' q'.
          Sat-if (k == handshake_size) (pure tt) (throw other) w' (λ _. record { at = q' })
            (λ _. record { at = tt })
