-- ===== src/Subscriber/Termination.antt =====
-- rust/subscriber/src/main.rs, the loop: that it does not stand still.
use pub_sub_v4l2_dmabuf_wayl.Base.{
  ℕ, zero, suc, ◌+◌, ◌≡◌, refl, ap, ◌∙◌, List, [], ◌∷◌, ◌++◌, Bool, true, false, ◌&&◌, not, Option,
  none, some, arith, get_elem?,
}
use pub_sub_v4l2_dmabuf_wayl.Effect.{Result, ok, err, pure, attempt}
use pub_sub_v4l2_dmabuf_wayl.Effect.Triple.{Exits, Sat, Sat-bind, Sat-bind_lift, Sat-if, Sat-weaken}
use pub_sub_v4l2_dmabuf_wayl.Effect.Scopes.{Sat-attempt}
use pub_sub_v4l2_dmabuf_wayl.Platform.{Platform, World, Event, destroyed, received, syscall}
use pub_sub_v4l2_dmabuf_wayl.V4l2.Ioctl.Trace.{syscall-trace}
use pub_sub_v4l2_dmabuf_wayl.V4l2.Ioctl.Termination.{flowing}
use pub_sub_v4l2_dmabuf_wayl.Socket.{idx, peer_closed, recv_err, recv_idx, send_bytes, send_ack}
use pub_sub_v4l2_dmabuf_wayl.Egl.{Gpu, gl_calls, import_dmabuf, destroy_image, swap_buffers}
use pub_sub_v4l2_dmabuf_wayl.Egl.Renderer.{draw}
use pub_sub_v4l2_dmabuf_wayl.Wayland.{AppState, Connection}
use pub_sub_v4l2_dmabuf_wayl.Subscriber.{
  Session, ack_is_ok, show_image, draw_buffer, draw_one, show_frame, receive_frame, round,
  round_then, receive,
}
use pub_sub_v4l2_dmabuf_wayl.Subscriber.Receiving.{
  total, image_note, import_dmabuf-trace, dispatch_pending-trace,
}

-- How many images have been drawn and destroyed.
abbrev pub shown : List Event → ℕ
shown [] = 0
shown (destroyed img ∷ t) = suc (shown t)
shown (_ ∷ t) = shown t

module _ (S : Platform) (G : Gpu S) (x : Session) where
  -- After a step that goes on, so many images have been shown.
  abbrev Shown : ℕ → Bool → World S → Type 0
  Shown n true w = shown w.trace ≡ n
  Shown n false w = Unit

  shown-image_note :
      (fd : ℕ) (made : Option ℕ) (t : List Event) → shown (image_note fd made ++ t) ≡ shown t
  shown-image_note fd none t = refl
  shown-image_note fd (some img) t = refl

  ack_is_ok-shown :
      (n : ℕ) (w : World S) → shown w.trace ≡ n → Sat (Shown n) flowing (ack_is_ok S G x w)
  unfolding ack_is_ok send_ack
  ack_is_ok-shown n w k =
      Sat-bind (attempt (send_ack S (some x.sock))) _ w
        (Sat-attempt {Q = Outcome} {Y = flowing} (send_ack S (some x.sock)) w
          (Sat-bind {Q = λ _ w'. shown w'.trace ≡ n} (send_bytes S (some x.sock) (1 ∷ []) []) _ w
            (Sat-bind (syscall S _ _) _ w (syscall-trace S _ _ w) (elim [
              | none ↦ λ w' q. record { at = tt }
              | some m ↦ λ w' q. record { at = rw q k }
            ]))
            λ _ w' q. record { at = q })
          (λ _ _ q. q) (λ _ _ _. tt) (λ _ _. tt) (λ _ h. h))
        (elim [ ok u ↦ λ w' q. record { at = q } | err e ↦ λ w' q. record { at = tt } ])
    where
      Outcome : Result (Unit {0}) → World S → Type 0
      Outcome (ok u) w' = shown w'.trace ≡ n
      Outcome (err e) w' = Unit

  show_image-shown :
      (n : ℕ) (made : Option ℕ) (w : World S)
      → shown w.trace ≡ n
      → Sat (Shown (suc n)) flowing (show_image S G x made w)
  unfolding show_image draw gl_calls swap_buffers destroy_image
  show_image-shown n none w k = record { at = tt }
  show_image-shown n (some img) w k = ack_is_ok-shown (suc n) _ (ap (λ m. suc m) k)

  draw_buffer-shown :
      (n : ℕ) (found : Option ℕ) (w : World S)
      → shown w.trace ≡ n
      → Sat (Shown (suc n)) flowing (draw_buffer S G x found w)
  unfolding draw_buffer
  draw_buffer-shown n none w k = record { at = tt }
  draw_buffer-shown n (some fd) w k =
      Sat-bind (import_dmabuf S G x.egl fd x.frame_meta) _ w
        (Sat-weaken {Y = total} _ (import_dmabuf-trace S G x.egl fd x.frame_meta w) (λ _ _ e. e)
          (λ _ _ h. absurd h) (λ _ h. absurd h) (λ _ h. absurd h))
        λ made w' e. show_image-shown n made w' (ap shown e ∙ shown-image_note fd made w.trace ∙ k)

  receive_frame-shown :
      (w : World S) → Sat (Shown (suc (shown w.trace))) flowing (receive_frame S G x w)
  unfolding receive_frame show_frame draw_one recv_idx
  receive_frame-shown w =
      Sat-bind {Q = λ _ w'. shown w'.trace ≡ shown w.trace} (recv_idx S (some x.sock)) _ w
        (Sat-bind
          (syscall S (S.recv (some x.sock) 4 true) (λ bytes. received (some x.sock) bytes ∷ [])) _ w
          (syscall-trace S _ _ w)
          (elim [
            | none ↦ λ w' q. record { at = rw q refl }
            | some bytes ↦ λ w' q. record { at = rw q refl }
          ]))
        (elim [
          | idx i ↦ λ w' q. draw_buffer-shown (shown w.trace) (get_elem? x.buf_fds i) w' q
          | peer_closed ↦ λ w' q. record { at = tt }
          | recv_err e ↦ λ w' q. record { at = tt }
        ])

module _ (S : Platform) (G : Gpu S) (C : Connection S) (x : Session) where
  abbrev pub after_rounds : ℕ → ℕ → Exits (AppState × World S)
  after_rounds rounds before = record {
    failing = λ _ _. Unit;
    panicking = λ _. Unit;
    spinning = λ s. shown s.1.trace ≡ rounds + before;
  }

  abbrev Onward : ℕ → Bool → AppState × World S → Type 0
  Onward n true s = shown s.1.trace ≡ n
  Onward n false s = Unit

  round-shown :
      (st : AppState) (w : World S)
      → Sat (Onward (suc (shown w.trace))) flowing (round S G C x (st, w))
  unfolding round
  round-shown st w =
      Sat-bind_lift (receive_frame S G x) _ st w
        (Sat-weaken {Y = flowing} _ (receive_frame-shown S G x w) (λ _ _ q. q) (λ _ _ _. tt)
          (λ _ _. tt) (λ _ h. h))
        (elim [
          | true ↦ λ w' q.
              Sat-weaken {Y = total} _ (dispatch_pending-trace S C st w')
                (λ b s e. onward b s w' q e) (λ _ _ h. absurd h) (λ _ h. absurd h) (λ _ h. absurd h)
          | false ↦ λ w' q. record { at = tt }
        ])
    where
      onward :
          (b : Bool) (s : AppState × World S) (w' : World S)
          → shown w'.trace ≡ suc (shown w.trace)
          → s.1.trace ≡ w'.trace
          → Onward (suc (shown w.trace)) b s
      onward true s w' q e = ap shown e ∙ q
      onward false s w' q e = tt

  pub receive-shown :
      (rounds : ℕ) (st : AppState) (w : World S)
      → Sat (λ _ _. Unit) (after_rounds rounds (shown w.trace)) (receive S G C x rounds (st, w))
  unfolding receive round_then
  receive-shown zero st w = record { at = omega arith }
  receive-shown (suc rounds) st w =
      Sat-if (S.running w.sys && not st.should_close) (round_then S G C x (receive S G C x rounds))
        (pure tt) (st, w)
        (λ _.
          Sat-bind (round S G C x) _ (st, w)
            (Sat-weaken {Y = flowing} _ (round-shown st w) (λ _ _ q. q) (λ _ _ _. tt) (λ _ _. tt)
              (λ _ h. absurd h))
            (elim [
              | true ↦ λ s q.
                  Sat-weaken {Y = after_rounds rounds (shown s.1.trace)} _
                    (receive-shown rounds s.0 s.1) (λ _ _ h. h) (λ _ _ h. h) (λ _ h. h)
                    (λ _ h. omega (arith, h, q))
              | false ↦ λ s q. record { at = tt }
            ]))
        (λ _. record { at = tt })
