-- ===== src/Socket/Steady.antt =====
-- rust/common/src/socket.rs, as the subscriber uses it before its loop, for a count that does not
-- regard descriptors and what is received: each function ends.
use pub_sub_v4l2_dmabuf_wayl.Base.{ℕ, ◌≡◌, ◌∙◌, List, [], ◌∷◌, ◌++◌, some, ◌==◌, length}
use pub_sub_v4l2_dmabuf_wayl.Effect.{other, throw, pure, ◌>>◌, guarded}
use pub_sub_v4l2_dmabuf_wayl.Effect.Triple.{Sat, Sat-bind, Sat-if}
use pub_sub_v4l2_dmabuf_wayl.Effect.Scopes.{Sat-guarded}
use pub_sub_v4l2_dmabuf_wayl.Platform.{
  Platform, World, RawFd, Event, received, Received, descriptors, opened_all, opening, calling,
  close_fd, close_all,
}
use pub_sub_v4l2_dmabuf_wayl.V4l2.Ioctl.Termination.{flowing}
use pub_sub_v4l2_dmabuf_wayl.V4l2.Ioctl.Steady.{
  Steady, Sat-never, Level, close_fd-ends, close_all-ends, noting-Level, opening-Level,
  calling-Level,
}
use pub_sub_v4l2_dmabuf_wayl.Wire.{Handshake, handshake_of, handshake_size}
use pub_sub_v4l2_dmabuf_wayl.Socket.{
  connect_address, connect_to_socket, note_received, recv_message, max_fds, owned_fds, check_count,
  recv_handshake,
}

module _ (S : Platform) (count : List Event → ℕ) (steady : Steady count) (n : ℕ) where
  -- The count stands at `n` where a step returns.
  abbrev On : {A : Type 0} → A → World S → Type 0
  On a w = Level S count steady n w

  pub connect_to_socket-Level :
      (path : List ℕ) (w : World S)
      → Level S count steady n w
      → Sat (λ _ w'. Level S count steady n w') flowing (connect_to_socket S path w)
  unfolding connect_to_socket connect_address
  connect_to_socket-Level path w q =
      Sat-bind (opening S S.socket) _ w (opening-Level S count steady n S.socket w q) λ fd w1 q1.
        Sat-bind {Q = On} (guarded (close_fd S (some fd)) (connect_address S fd path)) _ w1
          (Sat-guarded {Y = flowing} (close_fd S (some fd)) (connect_address S fd path) w1
            (Sat-bind (calling S (S.unix_addr path)) _ w1
              (calling-Level S count steady n (S.unix_addr path) w1 q1)
              λ addr w2 q2. calling-Level S count steady n (S.connect (some fd) addr) w2 q2)
            (λ e w2 _.
              Sat-bind {Q = λ _ _. Unit {0}} (close_fd S (some fd)) _ w2
                (Sat-never _ (close_fd-ends S (some fd) w2)) (λ _ _ _. record { at = tt }))
            (λ w2 _.
              Sat-bind {Q = λ _ _. Unit {0}} (close_fd S (some fd)) _ w2
                (Sat-never _ (close_fd-ends S (some fd) w2)) (λ _ _ _. record { at = tt }))
            (λ _ x. x))
          λ _ _ q2. record { at = q2 }

  note_received-Level :
      (sock : RawFd) (msg : Received) (t : List Event)
      → count (note_received S sock msg ++ t) ≡ count t
  note_received-Level sock msg t = by_fds (descriptors msg.cmsgs)
    where
      by_fds :
          (fds : List ℕ) → count ((opened_all fds ++ (received sock msg.bytes ∷ [])) ++ t) ≡ count t
      by_fds [] = steady.at_received sock msg.bytes t
      by_fds (fd ∷ fds) = steady.at_opened fd _ ∙ by_fds fds

  check_count-Level :
      (hs : Handshake) (fds : List ℕ) (w : World S)
      → Level S count steady n w
      → Sat On flowing (check_count S hs fds w)
  unfolding check_count
  check_count-Level hs fds w q =
      Sat-if (length fds == hs.buf_count) (pure (hs, fds)) (close_all S fds >> throw other) w
        (λ _. record { at = q })
        (λ _.
          Sat-bind {Q = λ _ _. Unit {0}} (close_all S fds) (λ _. throw other) w
            (Sat-never _ (close_all-ends S fds w)) (λ _ _ _. record { at = tt }))

  pub recv_handshake-Level :
      (sock : RawFd) (w : World S)
      → Level S count steady n w
      → Sat (λ _ w'. Level S count steady n w') flowing (recv_handshake S sock w)
  unfolding recv_handshake
  recv_handshake-Level sock w q =
      Sat-bind (recv_message S sock handshake_size (max_fds S)) _ w
        (noting-Level S count steady n (S.recvmsg sock handshake_size (max_fds S))
          (note_received S sock) w (note_received-Level sock) q)
        λ msg w1 q1.
          Sat-if (length msg.bytes == handshake_size) _ (throw other) w1
            (λ _. check_count-Level (handshake_of S.endian msg.bytes) (owned_fds S msg) w1 q1)
            (λ _. record { at = tt })
