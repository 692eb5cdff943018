-- ===== src/Subscriber/Receiving.antt =====
-- rust/subscriber/src/main.rs, one frame: its calls as steps of the protocol.
use pub_sub_v4l2_dmabuf_wayl.Base.{
  ℕ, ◌≡◌, refl, List, [], ◌∷◌, ◌++◌, Bool, true, false, Option, none, some, ◌==◌, if◌then◌else◌,
  length, get_elem?, ==_iff, arith,
}
use pub_sub_v4l2_dmabuf_wayl.Effect.{other, ret, Result, ok, err, attempt}
use pub_sub_v4l2_dmabuf_wayl.Effect.Triple.{Exits, Sat, Sat-bind, Sat-if_run, Sat-weaken}
use pub_sub_v4l2_dmabuf_wayl.Effect.Scopes.{Sat-attempt}
use pub_sub_v4l2_dmabuf_wayl.Platform.{Platform, World, Event, received, imported, syscall}
use pub_sub_v4l2_dmabuf_wayl.V4l2.Ioctl.Trace.{syscall-trace, noting-trace, Sat-moved}
use pub_sub_v4l2_dmabuf_wayl.Wire.{FrameMeta, u32_at}
use pub_sub_v4l2_dmabuf_wayl.Socket.{
  RecvIdx, idx, peer_closed, recv_err, read_idx, recv_idx, send_bytes, send_ack,
}
use pub_sub_v4l2_dmabuf_wayl.Egl.{
  Gpu, EglContext, gl_calls, import_dmabuf, dmabuf_attrs, destroy_image, swap_buffers,
}
use pub_sub_v4l2_dmabuf_wayl.Egl.Renderer.{draw}
use pub_sub_v4l2_dmabuf_wayl.Wayland.{AppState, Connection, dispatch_queue, dispatch_pending}
use pub_sub_v4l2_dmabuf_wayl.Subscriber.{
  Session, ack_is_ok, show_image, draw_buffer, draw_one, show_frame, receive_frame,
}
use pub_sub_v4l2_dmabuf_wayl.Subscriber.Protocol.{
  Stage, waiting, chosen, released, ended, View, begin, choose, import_image, destroy, ack, hang_up,
  lose, refuse, ack_failed,
}

abbrev pub image_note : ℕ → Option ℕ → List Event
image_note fd none = []
image_note fd (some img) = imported img fd ∷ []

-- A step that never fails, panics or spins.
abbrev pub total : {W : Type 0} → Exits W
total = record { failing = λ _ _. ⊥; panicking = λ _. ⊥; spinning = λ _. ⊥ }

pub import_dmabuf-trace :
    (S : Platform) (G : Gpu S) (c : EglContext) (fd : ℕ) (meta : FrameMeta) (w : World S)
    → Sat
        (λ made w'. w'.trace ≡ image_note fd made ++ w.trace)
        total
        (import_dmabuf S G c fd meta w)
unfolding import_dmabuf
import_dmabuf-trace S G c fd meta w =
    noted_image (G.create_image c.display (dmabuf_attrs S G c fd meta) w.sys).0
  where
    noted_image :
        (made : Option ℕ)
        → Sat
            (λ m (w' : World S). w'.trace ≡ image_note fd m ++ w.trace)
            total
            (let s = (G.create_image c.display (dmabuf_attrs S G c fd meta) w.sys).1 in
              elim made [
                | none ↦ ret none (record w { sys = s })
                | some img ↦
                    ret (some img) (record w { sys = s; trace = imported img fd ∷ w.trace })
              ])
    noted_image none = record { at = refl }
    noted_image (some img) = record { at = refl }

-- The window's events touch nothing else.
pub dispatch_pending-trace :
    (S : Platform) (C : Connection S) (st : AppState) (w : World S)
    → Sat (λ _ s. s.1.trace ≡ w.trace) total (dispatch_pending S C (st, w))
unfolding dispatch_pending dispatch_queue
dispatch_pending-trace S C st w =
    Sat-if_run st.should_close (ret false (st, w)) _ (λ _. record { at = refl })
      (λ _. record { at = refl })

module _ (S : Platform) (G : Gpu S) (x : Session) (t : List Event) where
  abbrev pub Seen : Stage → List Event → Type 0
  Seen = View (some x.sock) x.buf_fds S.endian t

  -- No image is there in either of these stages.
  abbrev pub Rests : Bool → List Event → Type 0
  Rests true u = Seen waiting u
  Rests false u = Seen ended u

  -- What came in last is an index of four bytes, and the session has no buffer of that index.
  pub record OutOfRange (u : List Event) : Type 0 where
    pub bytes : List ℕ
    pub before : List Event
    pub at : u ≡ received (some x.sock) bytes ∷ before
    pub four : length bytes ≡ 4
    pub missing : get_elem? x.buf_fds (u32_at S.endian bytes 0) ≡ none
    pub waited : Seen waiting before

  pub OutOfRange-ended : {u : List Event} → OutOfRange u → Seen ended u
  OutOfRange-ended o =
      rw (o.at) (refuse (u32_at S.endian o.bytes 0) (choose o.bytes o.four o.waited))

  chosen-OutOfRange :
      {q : Stage} {u : List Event} (i : ℕ)
      → Seen q u
      → q ≡ chosen i
      → get_elem? x.buf_fds i ≡ none
      → OutOfRange u
  chosen-OutOfRange i begin p m = cc
  chosen-OutOfRange i (choose {u} bytes l v) p m = record {
    bytes = bytes;
    before = u;
    at = refl;
    four = l;
    missing = cc;
    waited = v;
  }
  chosen-OutOfRange i (import_image i' fd img g v) p m = cc
  chosen-OutOfRange i (destroy i' img v) p m = cc
  chosen-OutOfRange i (ack n v) p m = cc
  chosen-OutOfRange i (hang_up bytes b v) p m = cc
  chosen-OutOfRange i (lose v) p m = cc
  chosen-OutOfRange i (refuse i' v) p m = cc
  chosen-OutOfRange i (ack_failed v) p m = cc

  -- It never fails; it panics only over an index out of range, and spins at no exchange.
  abbrev pub leaving : Exits (World S)
  leaving = record {
    failing = λ _ _. ⊥;
    panicking = λ w. OutOfRange w.trace;
    spinning = λ w. Seen ended w.trace;
  }

  send_ack-View :
      (w : World S)
      → Seen released w.trace
      → Sat (λ b w'. Rests b w'.trace) leaving (ack_is_ok S G x w)
  unfolding ack_is_ok send_ack
  send_ack-View w v =
      Sat-bind (attempt (send_ack S (some x.sock))) _ w
        (Sat-attempt {Q = Outcome} {Y = record leaving { failing = λ _ w'. Seen ended w'.trace }}
          (send_ack S (some x.sock)) w
          (Sat-bind (send_bytes S (some x.sock) (1 ∷ []) []) _ w
            (Sat-moved w.trace _ (noting-trace S _ _ w) (λ _ _ e. rw e (ack_failed v))
              (λ _ e. rw e (ack_failed v)))
            λ n w' e. record { at = rw e (ack n v) })
          (λ _ _ h. h) (λ _ _ h. h) (λ _ h. h) (λ _ h. h))
        (elim [ ok u ↦ λ w' h. record { at = h } | err e ↦ λ w' h. record { at = h } ])
    where
      Outcome : Result (Unit {0}) → World S → Type 0
      Outcome (ok u) w' = Seen waiting w'.trace
      Outcome (err e) w' = Seen ended w'.trace

  show_image-View :
      (i fd : ℕ) (made : Option ℕ) (w : World S) (u : List Event)
      → get_elem? x.buf_fds i ≡ some fd
      → Seen (chosen i) u
      → w.trace ≡ image_note fd made ++ u
      → Sat (λ b w'. Rests b w'.trace) leaving (show_image S G x made w)
  unfolding show_image draw gl_calls swap_buffers destroy_image
  show_image-View i fd none w u g v e = record { at = rw e (refuse i v) }
  show_image-View i fd (some img) w u g v e =
      send_ack-View _ (destroy i img (rw e (import_image i fd img g v)))

  draw_buffer-View :
      (i : ℕ) (found : Option ℕ) (w : World S)
      → get_elem? x.buf_fds i ≡ found
      → Seen (chosen i) w.trace
      → Sat (λ b w'. Rests b w'.trace) leaving (draw_buffer S G x found w)
  unfolding draw_buffer
  draw_buffer-View i none w g v = record { at = chosen-OutOfRange i v refl g }
  draw_buffer-View i (some fd) w g v =
      Sat-bind (import_dmabuf S G x.egl fd x.frame_meta) _ w
        (Sat-weaken {Y = total} _ (import_dmabuf-trace S G x.egl fd x.frame_meta w) (λ _ _ e. e)
          (λ _ _ h. absurd h) (λ _ h. absurd h) (λ _ h. absurd h))
        λ made w' e. show_image-View i fd made w' w.trace g v e

  -- What `recv_idx` announces, with the stage that it leads to.
  Announced : RecvIdx → World S → Type 0
  Announced (idx i) w = Seen (chosen i) w.trace
  Announced peer_closed w = Seen ended w.trace
  Announced (recv_err e) w = Seen ended w.trace

  announced :
      (bytes : List ℕ) (w w' : World S)
      → Seen waiting w.trace
      → w'.trace ≡ received (some x.sock) bytes ∷ w.trace
      → Announced (read_idx S bytes) w'
  unfolding Announced
  announced bytes w w' v e = by_length (length bytes == 0) (length bytes == 4) refl refl
    where
      by_length :
          (none' four : Bool)
          → (length bytes == 0) ≡ none'
          → (length bytes == 4) ≡ four
          → Announced
              (if none'
                then peer_closed
                else if four
                then idx (u32_at S.endian bytes 0)
                else recv_err other)
              w'
      by_length true four o q = rw e (hang_up bytes (λ l. grind (arith, o, l)) v)
      by_length false true o q = rw e (choose bytes ((==_iff (length bytes) 4).0 q) v)
      by_length false false o q = rw e (hang_up bytes (λ l. grind (arith, q, l)) v)

  recv_idx-View :
      (w : World S) → Seen waiting w.trace → Sat Announced leaving (recv_idx S (some x.sock) w)
  unfolding recv_idx Announced
  recv_idx-View w v =
      Sat-bind
        (syscall S (S.recv (some x.sock) 4 true) (λ bytes. received (some x.sock) bytes ∷ [])) _ w
        (syscall-trace S _ _ w)
        (elim [
          | none ↦ λ w' e. record { at = rw e (lose v) }
          | some bytes ↦ λ w' e. record { at = announced bytes w w' v e }
        ])

  pub receive_frame-View :
      (w : World S)
      → Seen waiting w.trace
      → Sat (λ b w'. Rests b w'.trace) leaving (receive_frame S G x w)
  unfolding receive_frame show_frame draw_one Announced
  receive_frame-View w v =
      Sat-bind {Q = Announced} (recv_idx S (some x.sock)) _ w (recv_idx-View w v) (elim [
        | idx i ↦ λ w' v'. draw_buffer-View i (get_elem? x.buf_fds i) w' refl v'
        | peer_closed ↦ λ w' v'. record { at = v' }
        | recv_err e ↦ λ w' v'. record { at = v' }
      ])
