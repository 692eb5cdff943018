-- ===== src/Socket/Arrival.antt =====
-- rust/common/src/socket.rs, as the subscriber uses it: its functions touch no object of EGL or GLES.
use pub_sub_v4l2_dmabuf_wayl.Base.{
  ℕ, ◌≡◌, refl, sym, subst, false, List, [], ◌∷◌, ◌++◌, none, some, arith, ◌==◌, if◌then◌else◌,
  length, ==_iff,
}
use pub_sub_v4l2_dmabuf_wayl.Effect.{ret, other, pure, throw, ◌>>=◌, ◌>>◌, guarded}
use pub_sub_v4l2_dmabuf_wayl.Effect.Triple.{Exits, Sat, Sat-bind, Sat-if, Sat-weaken}
use pub_sub_v4l2_dmabuf_wayl.Effect.Scopes.{Sat-guarded}
use pub_sub_v4l2_dmabuf_wayl.Platform.{
  Platform, World, Answer, done, failed, RawFd, Event, opened, closed, received, Object, Received,
  opened_all, descriptors, note_close, opening, calling, close_fd, close_all, syscall, checked,
}
use pub_sub_v4l2_dmabuf_wayl.Platform.Descriptors.{Owns-opened, Owns-closed}
use pub_sub_v4l2_dmabuf_wayl.Platform.Objects.{Keeps}
use pub_sub_v4l2_dmabuf_wayl.V4l2.Ioctl.Trace.{noting-trace}
use pub_sub_v4l2_dmabuf_wayl.Wire.{Handshake, handshake_of, handshake_size}
use pub_sub_v4l2_dmabuf_wayl.Socket.{
  connect_address, connect_to_socket, recv_message, note_received, max_fds, owned_fds, check_count,
  recv_handshake,
}

-- Every message that arrives where a handshake is awaited is whole: it has 24 bytes, and no
-- descriptor was cut off.
pub record Whole (S : Platform) : Type 0 where
  pub at :
      (sock : RawFd) (s s' : S.State) (msg : Received)
      → S.recvmsg sock handshake_size (max_fds S) s ≡ done msg s'
      → (length msg.bytes ≡ handshake_size) × (msg.truncated ≡ false)

-- Nothing has changed where it fails or panics.
abbrev pub balanced : (S : Platform) → List ℕ → List (Object × ℕ) → Exits (World S)
balanced S fds xs = record {
  failing = λ _ w. Keeps fds xs w.trace;
  panicking = λ w. Keeps fds xs w.trace;
  spinning = λ _. Unit;
}

module _ {xs : List (Object × ℕ)} where
  Keeps-opened :
      {fds : List ℕ} {t : List Event} (n : ℕ) → Keeps fds xs t → Keeps (n ∷ fds) xs (opened n ∷ t)
  Keeps-opened n k = record { owned = Owns-opened n k.owned; at = k.at }

  Keeps-closed :
      {fds : List ℕ} {t : List Event} (n : ℕ) → Keeps (n ∷ fds) xs t → Keeps fds xs (closed n ∷ t)
  Keeps-closed n k = record { owned = Owns-closed n k.owned; at = k.at }

  Keeps-arrived :
      (gs fds : List ℕ) (sock : RawFd) (bytes : List ℕ) (t : List Event)
      → Keeps fds xs t
      → Keeps (gs ++ fds) xs ((opened_all gs ++ received sock bytes ∷ []) ++ t)
  Keeps-arrived [] fds sock bytes t k = record { owned = record { at = k.owned.at }; at = k.at }
  Keeps-arrived (g ∷ gs) fds sock bytes t k = Keeps-opened g (Keeps-arrived gs fds sock bytes t k)

module _ (S : Platform) (xs : List (Object × ℕ)) where
  opening-Keeps :
      (f : S.State → Answer S.State ℕ) (fds : List ℕ) (w : World S)
      → Keeps fds xs w.trace
      → Sat (λ fd w'. Keeps (fd ∷ fds) xs w'.trace) (balanced S fds xs) (opening S f w)
  opening-Keeps f fds w k =
      Sat-weaken _ (noting-trace S f (λ fd. opened fd ∷ []) w) (λ fd _ e. rw e (Keeps-opened fd k))
        (λ _ _ e. rw e k) (λ _ h. absurd h) (λ _ _. tt)

  calling-Keeps :
      {A : Type 0} (f : S.State → Answer S.State A) (fds : List ℕ) (w : World S)
      → Keeps fds xs w.trace
      → Sat (λ _ w'. Keeps fds xs w'.trace) (balanced S fds xs) (calling S f w)
  calling-Keeps f fds w k =
      Sat-weaken _ (noting-trace S f (λ _. []) w) (λ _ _ e. rw e k) (λ _ _ e. rw e k)
        (λ _ h. absurd h) (λ _ _. tt)

  pub close_fd-Keeps :
      {X : Exits (World S)} (fd : ℕ) (fds : List ℕ) (w : World S)
      → Keeps (fd ∷ fds) xs w.trace
      → Sat (λ _ w'. Keeps fds xs w'.trace) X (close_fd S (some fd) w)
  unfolding close_fd
  close_fd-Keeps {X} fd fds w k = by_answer (S.close (some fd) w.sys)
    where
      by_answer :
          (a : Answer S.State (Unit {0}))
          → Sat
              (λ _ (w' : World S). Keeps fds xs w'.trace)
              X
              (elim a [
                | done u s ↦ ret tt (record w { sys = s; trace = note_close (some fd) ++ w.trace })
                | failed e s ↦
                    ret tt
                      (record w { sys = s; errno = e; trace = note_close (some fd) ++ w.trace })
              ])
      by_answer (done u s) = record { at = Keeps-closed fd k }
      by_answer (failed e s) = record { at = Keeps-closed fd k }

  pub close_all-Keeps :
      {X : Exits (World S)} (gone fds : List ℕ) (w : World S)
      → Keeps (gone ++ fds) xs w.trace
      → Sat (λ _ w'. Keeps fds xs w'.trace) X (close_all S gone w)
  unfolding close_all
  close_all-Keeps [] fds w k = record { at = k }
  close_all-Keeps (fd ∷ gone) fds w k =
      Sat-bind (close_fd S (some fd)) _ w (close_fd-Keeps fd (gone ++ fds) w k)
        λ _ w' k'. close_all-Keeps gone fds w' k'

  pub connect_to_socket-Keeps :
      (path fds : List ℕ) (w : World S)
      → Keeps fds xs w.trace
      → Sat (λ fd w'. Keeps (fd ∷ fds) xs w'.trace) (balanced S fds xs) (connect_to_socket S path w)
  unfolding connect_to_socket
  connect_to_socket-Keeps path fds w k =
      Sat-bind (opening S S.socket) _ w (opening-Keeps S.socket fds w k) λ fd w1 k1.
        Sat-bind (guarded (close_fd S (some fd)) (connect_address S fd path)) _ w1
          (Sat-guarded {Y = balanced S (fd ∷ fds) xs} (close_fd S (some fd))
            (connect_address S fd path) w1
            (Sat-bind (calling S (S.unix_addr path)) _ w1 (calling-Keeps _ (fd ∷ fds) w1 k1)
              λ addr w2 k2. calling-Keeps _ (fd ∷ fds) w2 k2)
            (λ e w2 k2.
              Sat-bind (close_fd S (some fd)) _ w2 (close_fd-Keeps fd fds w2 k2)
                λ _ _ k3. record { at = k3 })
            (λ w2 k2.
              Sat-bind (close_fd S (some fd)) _ w2 (close_fd-Keeps fd fds w2 k2)
                λ _ _ k3. record { at = k3 })
            (λ _ _. tt))
          λ _ _ k2. record { at = k2 }

-- The handshake, where every message is whole.
module _ (S : Platform) (whole : Whole S) (xs : List (Object × ℕ)) where
  abbrev Arrived : List ℕ → Received → World S → Type 0
  Arrived fds msg w =
      (length msg.bytes ≡ handshake_size)
      × (msg.truncated ≡ false)
      × Keeps (descriptors msg.cmsgs ++ fds) xs w.trace

  recv_message-Keeps :
      (fds : List ℕ) (fd : RawFd) (w : World S)
      → Keeps fds xs w.trace
      → Sat (Arrived fds) (balanced S fds xs) (recv_message S fd handshake_size (max_fds S) w)
  unfolding syscall
  recv_message-Keeps fds fd w k = by_answer (S.recvmsg fd handshake_size (max_fds S) w.sys) refl
    where
      by_answer :
          (a : Answer S.State Received)
          → S.recvmsg fd handshake_size (max_fds S) w.sys ≡ a
          → Sat (Arrived fds) (balanced S fds xs) (
              ((λ (_ : World S). elim a [
                | done b s ↦
                    ret (some b) (record w { sys = s; trace = note_received S fd b ++ w.trace })
                | failed e s ↦ ret none (record w { sys = s; errno = e })
              ])
                  >>= checked S)
                w)
      by_answer (done b s) e =
          let good = whole.at fd w.sys s b e in
          record {
            at = (good.0, good.1, Keeps-arrived (descriptors b.cmsgs) fds fd b.bytes w.trace k);
          }
      by_answer (failed e s) q = record { at = k }

  abbrev pub Given : List ℕ → Handshake × List ℕ → World S → Type 0
  Given fds got w = (length got.1 ≡ got.0.buf_count) × Keeps (got.1 ++ fds) xs w.trace

  check_count-Keeps :
      (hs : Handshake) (gs fds : List ℕ) (w : World S)
      → Keeps (gs ++ fds) xs w.trace
      → Sat (Given fds) (balanced S fds xs) (check_count S hs gs w)
  unfolding check_count
  check_count-Keeps hs gs fds w k =
      Sat-if (length gs == hs.buf_count) (pure (hs, gs)) (close_all S gs >> throw other) w
        (λ e. record { at = ((==_iff (length gs) hs.buf_count).0 e, k) })
        (λ _.
          Sat-bind (close_all S gs) _ w (close_all-Keeps S xs gs fds w k)
            λ _ _ k1. record { at = k1 })

  pub recv_handshake-Keeps :
      (sock : RawFd) (fds : List ℕ) (w : World S)
      → Keeps fds xs w.trace
      → Sat (Given fds) (balanced S fds xs) (recv_handshake S sock w)
  unfolding recv_handshake
  recv_handshake-Keeps sock fds w k =
      Sat-bind (recv_message S sock handshake_size (max_fds S)) _ w
        (recv_message-Keeps fds sock w k)
        λ msg w1 (size, cut, k1).
          Sat-if (length msg.bytes == handshake_size) _ (throw other) w1
            (λ _. check_count-Keeps (handshake_of S.endian msg.bytes) (owned_fds S msg) fds w1 (
              subst (λ b. Keeps ((if b then [] else descriptors msg.cmsgs) ++ fds) xs w1.trace)
                (sym cut) k1))
            (λ n. absurd (grind (arith, n, size)))
