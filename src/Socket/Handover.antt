-- ===== src/Socket/Handover.antt =====
-- rust/common/src/socket.rs, `recv_handshake`: who owns the descriptors that arrive.
use pub_sub_v4l2_dmabuf_wayl.Base.{
  ℕ, ◌≡◌, sym, subst, List, [], ◌∷◌, ◌++◌, false, arith, ◌==◌, if◌then◌else◌, length, ==_iff,
}
use pub_sub_v4l2_dmabuf_wayl.Effect.{other, pure, throw, ◌>>◌}
use pub_sub_v4l2_dmabuf_wayl.Effect.Triple.{Exits, Sat, Sat-bind, Sat-if, Sat-weaken}
use pub_sub_v4l2_dmabuf_wayl.Platform.{
  Platform, World, done, RawFd, Event, received, Received, opened_all, descriptors, close_all,
}
use pub_sub_v4l2_dmabuf_wayl.Platform.Descriptors.{Owns, Owns-opened, close_all-Owns}
use pub_sub_v4l2_dmabuf_wayl.V4l2.Ioctl.Termination.{never}
use pub_sub_v4l2_dmabuf_wayl.Wire.{Handshake, handshake_of, handshake_size}
use pub_sub_v4l2_dmabuf_wayl.Socket.{recv_message, max_fds, owned_fds, check_count, recv_handshake}
use pub_sub_v4l2_dmabuf_wayl.Socket.Transfer.{recv_message-done}

-- Each descriptor of a message is the process's own from its arrival on.
arrived-Owns :
    (gs fds : List ℕ) (sock : RawFd) (bytes : List ℕ) (t : List Event)
    → Owns fds t
    → Owns (gs ++ fds) ((opened_all gs ++ received sock bytes ∷ []) ++ t)
arrived-Owns [] fds sock bytes t o = record { at = o.at }
arrived-Owns (g ∷ gs) fds sock bytes t o = Owns-opened g (arrived-Owns gs fds sock bytes t o)

module _ (S : Platform) (fds : List ℕ) (sock : RawFd) (msg : Received) (s' : S.State) (w : World S)
    (arrives : S.recvmsg sock handshake_size (max_fds S) w.sys ≡ done msg s')
    (owned : Owns fds w.trace) where
  -- What is left when `recv_handshake` fails; it neither panics nor goes on for ever.
  abbrev pub refusing : List ℕ → Exits (World S)
  refusing gs = record { failing = λ _ w'. Owns gs w'.trace; panicking = λ _. ⊥; spinning = λ _. ⊥ }

  -- The code's two tests, after the message has arrived.
  after_message :
      {A : Handshake × List ℕ → World S → Type 0} {X : Exits (World S)}
      → ((w' : World S)
          → Owns (descriptors msg.cmsgs ++ fds) w'.trace
          → Sat A X (
              (if length msg.bytes == handshake_size
                  then check_count S (handshake_of S.endian msg.bytes) (owned_fds S msg)
                  else throw other)
                w'))
      → Sat A X (recv_handshake S sock w)
  unfolding recv_handshake
  after_message {A} {X} k =
      Sat-bind (recv_message S sock handshake_size (max_fds S)) _ w
        (Sat-weaken {Y = never} _ (recv_message-done S sock msg s' w arrives) (λ _ _ h. h)
          (λ _ _ h. absurd h) (λ _ h. absurd h) (λ _ h. absurd h))
        λ m w' h.
          subst
            (λ (m : Received). Sat A X (
              (if length m.bytes == handshake_size
                  then check_count S (handshake_of S.endian m.bytes) (owned_fds S m)
                  else throw other)
                w'))
            (sym h.0)
            (k w' (
              subst (λ t. Owns (descriptors msg.cmsgs ++ fds) t) (sym h.1)
                (arrived-Owns (descriptors msg.cmsgs) fds sock msg.bytes w.trace owned)))

  check_count-Owns :
      (hs : Handshake) (gs : List ℕ) (w' : World S)
      → Owns (gs ++ fds) w'.trace
      → Sat
          (λ r v. (length r.1 ≡ r.0.buf_count) × Owns (r.1 ++ fds) v.trace)
          (refusing fds)
          (check_count S hs gs w')
  unfolding check_count
  check_count-Owns hs gs w' o =
      Sat-if (length gs == hs.buf_count) (pure (hs, gs)) (close_all S gs >> throw other) w'
        (λ e. record { at = ((==_iff (length gs) hs.buf_count).0 e, o) })
        (λ _.
          Sat-bind (close_all S gs) _ w' (close_all-Owns S gs fds w' o)
            λ _ _ o'. record { at = o' })

  -- A whole message leaks nothing: if all 24 bytes arrive and no descriptor was cut off, then
  -- either the handshake is returned with as many descriptors as it names, which the caller then
  -- owns, or the call fails and every descriptor of the message has been closed.
  pub recv_handshake-Owns :
      length msg.bytes ≡ handshake_size
      → msg.truncated ≡ false
      → Sat
          (λ r w'. (length r.1 ≡ r.0.buf_count) × Owns (r.1 ++ fds) w'.trace)
          (refusing fds)
          (recv_handshake S sock w)
  recv_handshake-Owns whole kept = after_message λ w' o.
      Sat-if (length msg.bytes == handshake_size) _ (throw other) w'
        (λ _. check_count-Owns (handshake_of S.endian msg.bytes) (owned_fds S msg) w' (
          subst (λ b. Owns ((if b then [] else descriptors msg.cmsgs) ++ fds) w'.trace) (sym kept)
            o))
        (λ n. absurd (grind (arith, n, whole)))

  -- A message with another number of bytes is refused, but the descriptors that came with it stay
  -- open: the process holds them, and nothing in the program knows of them any more.
  pub recv_handshake-leaks :
      (length msg.bytes == handshake_size) ≡ false
      → Sat (λ _ _. ⊥) (refusing (descriptors msg.cmsgs ++ fds)) (recv_handshake S sock w)
  recv_handshake-leaks part = after_message λ w' o.
      Sat-if (length msg.bytes == handshake_size) _ (throw other) w'
        (λ e. absurd (grind (arith, e, part))) (λ _. record { at = o })
