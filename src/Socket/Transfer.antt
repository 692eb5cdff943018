-- ===== src/Socket/Transfer.antt =====
-- rust/common/src/socket.rs, both ends: the handshake with its descriptors, and an index.
use pub_sub_v4l2_dmabuf_wayl.Base.{
  ℕ, ◌<◌, ◌^◌, ◌≡◌, ◌≢◌, refl, sym, ap, ◌∙◌, subst, ◌⊎◌, inl, inr, List, [], ◌∷◌, ◌++◌, true, false,
  Option, none, some, arith, ◌==◌, if◌then◌else◌, length, take, ==_iff,
}
use pub_sub_v4l2_dmabuf_wayl.Effect.{ret, os, state, other, pure, throw, ◌>>=◌}
use pub_sub_v4l2_dmabuf_wayl.Effect.Triple.{Exits, Sat, Sat-bind, Sat-if, Sat-weaken}
use pub_sub_v4l2_dmabuf_wayl.Platform.{
  Platform, World, Io, Answer, done, failed, RawFd, Event, opened, sent, received, Received,
  scm_rights, opened_all, syscall, checked,
}
use pub_sub_v4l2_dmabuf_wayl.V4l2.Ioctl.Trace.{syscall-trace}
use pub_sub_v4l2_dmabuf_wayl.V4l2.Ioctl.Termination.{never}
use pub_sub_v4l2_dmabuf_wayl.Wire.{
  Handshake, Endian, little, big, to_ne_bytes, handshake_bytes, handshake_of, handshake_size,
  u32_at,
}
use pub_sub_v4l2_dmabuf_wayl.Wire.RoundTrip.{
  FitsU32, length-to_ne_bytes, handshake_of-handshake_bytes, length-handshake_bytes,
  u32_at-to_ne_bytes,
}
use pub_sub_v4l2_dmabuf_wayl.Socket.{
  RecvIdx, idx, recv_err, send_bytes, note_received, recv_message, send_handshake, max_fds,
  owned_fds, check_count, recv_handshake, read_idx, recv_idx,
}

take-handshake_bytes :
    (e : Endian) (hs : Handshake)
    → take handshake_size (handshake_bytes e hs) ≡ handshake_bytes e hs
unfolding handshake_bytes
take-handshake_bytes little hs = refl
take-handshake_bytes big hs = refl

-- A message that was cut short, or none at all.
abbrev pub CutShort : RawFd → List ℕ → List ℕ → List Event → List Event → Type 0
CutShort sock bytes fds t u =
    (u ≡ t) ⊎ ((n : ℕ) × (n ≢ length bytes) × (u ≡ sent sock (take n bytes) fds ∷ t))

module _ (S : Platform) where
  -- One call with the early return of its error; it neither panics nor goes on for ever.
  abbrev once : List Event → Exits (World S)
  once t = record { failing = λ _ w. w.trace ≡ t; panicking = λ _. ⊥; spinning = λ _. ⊥ }

  noting-once :
      {A : Type 0} (f : S.State → Answer S.State A) (note : A → List Event) (w : World S)
      → Sat
          (λ a w'. w'.trace ≡ note a ++ w.trace)
          (once w.trace)
          ((syscall S f note >>= checked S) w)
  noting-once f note w =
      Sat-bind (syscall S f note) _ w (syscall-trace S f note w)
        (elim [ none ↦ λ w' e. record { at = e } | some a ↦ λ w' e. record { at = e } ])

  abbrev pub short : RawFd → List ℕ → List ℕ → List Event → Exits (World S)
  short sock bytes fds t = record {
    failing = λ _ w. CutShort sock bytes fds t w.trace;
    panicking = λ _. ⊥;
    spinning = λ _. ⊥;
  }

  -- `send_handshake` ends. If it returns, the message went out whole: all 24 bytes, with every
  -- descriptor. If it fails, nothing went out, or another number of bytes. It never panics.
  pub send_handshake-trace :
      (sock : RawFd) (hs : Handshake) (fds : List ℕ) (w : World S)
      → Sat
          (λ _ w'. w'.trace ≡ sent sock (handshake_bytes S.endian hs) fds ∷ w.trace)
          (short sock (handshake_bytes S.endian hs) fds w.trace)
          (send_handshake S sock hs fds w)
  unfolding send_handshake
  send_handshake-trace sock hs fds w =
      Sat-bind (send_bytes S sock (handshake_bytes S.endian hs) fds) _ w
        (Sat-weaken {Y = once w.trace} (send_bytes S sock (handshake_bytes S.endian hs) fds w)
          (noting-once (S.sendmsg sock (handshake_bytes S.endian hs) fds)
            (λ n. sent sock (take n (handshake_bytes S.endian hs)) fds ∷ []) w)
          (λ _ _ e. e) (λ _ _ e. inl e) (λ _ h. h) (λ _ h. h))
        λ n w' e.
          Sat-if (n == handshake_size) (pure tt) (throw other) w'
            (λ whole. record {
              at =
                  e
                  ∙ ap (λ bytes. sent sock bytes fds ∷ w.trace)
                      (ap (λ m. take m (handshake_bytes S.endian hs))
                          ((==_iff n handshake_size).0 whole)
                        ∙ take-handshake_bytes S.endian hs);
            })
            (λ part. record { at = inr (n, different n part, e) })
    where
      different : (n : ℕ) → (n == handshake_size) ≡ false → n ≢ length (handshake_bytes S.endian hs)
      different n part p = grind (arith, part, p, length-handshake_bytes S.endian hs)

  -- What the receiving end makes of a whole message.
  abbrev pub message : Handshake → List ℕ → Received
  message hs fds = record {
    bytes = handshake_bytes S.endian hs;
    cmsgs = scm_rights fds ∷ [];
    truncated = false;
  }

  append-nil : (xs : List ℕ) → xs ++ [] ≡ xs
  append-nil [] = refl
  append-nil (x ∷ xs) = ap (λ ys. x ∷ ys) (append-nil xs)

  opened_then :
      (fds : List ℕ) (x : Event) (t : List Event)
      → (opened_all (fds ++ []) ++ x ∷ []) ++ t ≡ opened_all fds ++ x ∷ t
  opened_then [] x t = refl
  opened_then (fd ∷ fds) x t = ap (λ u. opened fd ∷ u) (opened_then fds x t)

  pub recv_message-done :
      (sock : RawFd) (msg : Received) (s' : S.State) (w : World S)
      → S.recvmsg sock handshake_size (max_fds S) w.sys ≡ done msg s'
      → Sat
          (λ m w'. (m ≡ msg) × (w'.trace ≡ note_received S sock msg ++ w.trace))
          never
          (recv_message S sock handshake_size (max_fds S) w)
  unfolding syscall
  recv_message-done sock msg s' w e =
      subst
        (λ (a : Answer S.State Received).
          Sat (λ m w'. (m ≡ msg) × (w'.trace ≡ note_received S sock msg ++ w.trace)) never
            (((λ (v : World S). elim a [
              | done b s ↦
                  ret (some b) (record w { sys = s; trace = note_received S sock b ++ w.trace })
              | failed e s ↦ ret none (record w { sys = s; errno = e })
            ])
                >>= checked S)
              w))
        (sym e) (record { at = (refl, refl) })

  check_count-equal :
      (hs : Handshake) (fds : List ℕ) (w : World S)
      → length fds ≡ hs.buf_count
      → Sat (λ r w'. (r ≡ (hs, fds)) × (w'.trace ≡ w.trace)) never (check_count S hs fds w)
  unfolding check_count
  check_count-equal hs fds w e =
      Sat-if (length fds == hs.buf_count) (pure (hs, fds)) _ w (λ _. record { at = (refl, refl) })
        (λ n. absurd (grind (arith, e, n)))

  accept_message :
      (hs : Handshake) (fds : List ℕ) (w : World S)
      → FitsU32 hs
      → length fds ≡ hs.buf_count
      → Sat
          (λ r w'. (r ≡ (hs, fds)) × (w'.trace ≡ w.trace))
          never
          (check_count S (handshake_of S.endian (handshake_bytes S.endian hs)) (fds ++ []) w)
  accept_message hs fds w fits counted =
      rw (handshake_of-handshake_bytes S.endian hs fits, append-nil fds)
        (check_count-equal hs fds w counted)

  -- The handshake's round trip. If the bytes of a handshake arrive whole, with as many descriptors
  -- as it names, then `recv_handshake` returns that handshake and those descriptors.
  pub recv_handshake-handshake_bytes :
      (sock : RawFd) (hs : Handshake) (fds : List ℕ) (s' : S.State) (w : World S)
      → FitsU32 hs
      → length fds ≡ hs.buf_count
      → S.recvmsg sock handshake_size (max_fds S) w.sys ≡ done (message hs fds) s'
      → Sat
          (λ r w'.
            (r ≡ (hs, fds))
            × (w'.trace ≡ opened_all fds ++ received sock (handshake_bytes S.endian hs) ∷ w.trace))
          never
          (recv_handshake S sock w)
  unfolding recv_handshake
  recv_handshake-handshake_bytes sock hs fds s' w fits counted arrives =
      Sat-bind (recv_message S sock handshake_size (max_fds S)) _ w
        (recv_message-done sock (message hs fds) s' w arrives)
        λ msg w' h.
          subst
            (λ (m : Received). Sat Transferred never (
              (if length m.bytes == handshake_size
                  then check_count S (handshake_of S.endian m.bytes) (owned_fds S m)
                  else throw other)
                w'))
            (sym h.0)
            (Sat-if (length (handshake_bytes S.endian hs) == handshake_size) _ (throw other) w'
              (λ _.
                Sat-weaken {Y = never} _ (accept_message hs fds w' fits counted)
                  (λ _ _ k. (k.0, k.1 ∙ h.1 ∙ opened_then fds _ w.trace)) (λ _ _ k. k) (λ _ k. k)
                  (λ _ k. k))
              (λ n. absurd (grind (arith, n, length-handshake_bytes S.endian hs))))
    where
      Transferred : Handshake × List ℕ → World S → Type 0
      Transferred r w' =
          (r ≡ (hs, fds))
          × (w'.trace ≡ opened_all fds ++ received sock (handshake_bytes S.endian hs) ∷ w.trace)

  -- The index's round trip: if the bytes of an index arrive, `recv_idx` gives that index.
  pub recv_idx-to_ne_bytes :
      (sock : RawFd) (i : ℕ) (s' : S.State) (w : World S)
      → i < 2 ^ 32
      → S.recv sock 4 true w.sys ≡ done (to_ne_bytes S.endian i) s'
      → Sat (λ r w'. r ≡ idx i) never (recv_idx S sock w)
  unfolding recv_idx syscall
  recv_idx-to_ne_bytes sock i s' w fits arrives =
      subst
        (λ (a : Answer S.State (List ℕ)).
          Sat (λ r w'. r ≡ idx i) never
            (((λ (v : World S). elim a [
              | done b s ↦ ret (some b) (record w { sys = s; trace = received sock b ∷ w.trace })
              | failed e s ↦ ret none (record w { sys = s; errno = e })
            ])
                >>= taken)
              w))
        (sym arrives) (record { at = read })
    where
      taken : Option (List ℕ) → Io S RecvIdx
      taken r = elim r [
        | none ↦ state (λ w. recv_err (os w.errno))
        | some bytes ↦ pure (read_idx S bytes)
      ]

      four :
          (bytes : List ℕ)
          → length bytes ≡ 4
          → u32_at S.endian bytes 0 ≡ i
          → read_idx S bytes ≡ idx i
      four bytes l u = grind (arith, l, u)

      read : read_idx S (to_ne_bytes S.endian i) ≡ idx i
      read =
          four (to_ne_bytes S.endian i) (length-to_ne_bytes S.endian i)
            (u32_at-to_ne_bytes S.endian i fits)
