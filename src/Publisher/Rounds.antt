-- ===== src/Publisher/Rounds.antt =====
-- rust/publisher/src/main.rs, the loop: the descriptors that are held in it.
use pub_sub_v4l2_dmabuf_wayl.Base.{ℕ, zero, suc, List, some}
use pub_sub_v4l2_dmabuf_wayl.Effect.{ok, err, pure, attempt, ignore, lift}
use pub_sub_v4l2_dmabuf_wayl.Effect.Triple.{Sat, Sat-bind, Sat-lift, Sat-if}
use pub_sub_v4l2_dmabuf_wayl.Effect.Scopes.{Sat-attempt, Sat-ignore}
use pub_sub_v4l2_dmabuf_wayl.Platform.{Platform, World}
use pub_sub_v4l2_dmabuf_wayl.V4l2.Capture.{Capture, Method}
use pub_sub_v4l2_dmabuf_wayl.V4l2.Capture.Ownership.{held, Holds, owning}
use pub_sub_v4l2_dmabuf_wayl.Socket.{send_idx, wait_for_ack}
use pub_sub_v4l2_dmabuf_wayl.Socket.Ownership.{send_idx-Owns, wait_for_ack-Owns}
use pub_sub_v4l2_dmabuf_wayl.Publisher.{
  Device, give_back, after_ack, after_send, after_dequeue, frame, frame_then, serve,
}

-- The methods of a device move no descriptor.
pub record IsOwning (S : Platform) (fds : List ℕ) (d : Device S) : Type 0 where
  pub dequeue :
      (c : Capture) (w : World S)
      → Holds S fds (c, w)
      → Sat (λ _ s. Holds S fds s) (owning S fds) (d.dequeue (c, w))
  pub requeue :
      (i : ℕ) (c : Capture) (w : World S)
      → Holds S fds (c, w)
      → Sat (λ _ s. Holds S fds s) (owning S fds) (d.requeue i (c, w))

module _ (S : Platform) (fds : List ℕ) (d : Device S) (o : IsOwning S fds d) (client : ℕ) where
  -- What a call keeps, it keeps when its error is looked at.
  attempt-Owns :
      {A : Type 0} (m : Method S A) (s : Capture × World S)
      → Sat (λ _ s'. Holds S fds s') (owning S fds) (m s)
      → Sat (λ _ s'. Holds S fds s') (owning S fds) (attempt m s)
  attempt-Owns m s h =
      Sat-attempt {Y = owning S fds} m s h (λ _ _ k. k) (λ _ _ k. k) (λ _ k. k) (λ _ k. k)

  give_back-Owns :
      (i : ℕ) (s : Capture × World S)
      → Holds S fds s
      → Sat (λ _ s'. Holds S fds s') (owning S fds) (give_back S d client i s)
  unfolding give_back
  give_back-Owns i s h =
      Sat-bind (ignore (d.requeue i)) _ s
        (Sat-ignore {Y = owning S fds} (d.requeue i) s (o.requeue i s.0 s.1 h) (λ _ _ k. k)
          (λ _ _ k. k) (λ _ k. k) (λ _ k. k))
        λ _ s' h'. record { at = h' }

  after_ack-Owns :
      (i : ℕ) (s : Capture × World S)
      → Holds S fds s
      → Sat (λ _ s'. Holds S fds s') (owning S fds) (after_ack S d client i s)
  unfolding after_ack
  after_ack-Owns i s h =
      Sat-bind (attempt (d.requeue i)) _ s (attempt-Owns (d.requeue i) s (o.requeue i s.0 s.1 h))
        (elim [ ok u ↦ λ s' h'. record { at = h' } | err e ↦ λ s' h'. record { at = h' } ])

  after_send-Owns :
      (i : ℕ) (s : Capture × World S)
      → Holds S fds s
      → Sat (λ _ s'. Holds S fds s') (owning S fds) (after_send S d client i s)
  unfolding after_send
  after_send-Owns i (c, w) h =
      Sat-bind (attempt (lift (wait_for_ack S (some client)))) _ (c, w)
        (attempt-Owns (lift (wait_for_ack S (some client))) (c, w)
          (Sat-lift (wait_for_ack S (some client)) c w
            (wait_for_ack-Owns S (held c fds) (some client) w h)))
        (elim [ ok u ↦ λ s' h'. after_ack-Owns i s' h' | err e ↦ λ s' h'. give_back-Owns i s' h' ])

  after_dequeue-Owns :
      (i : ℕ) (s : Capture × World S)
      → Holds S fds s
      → Sat (λ _ s'. Holds S fds s') (owning S fds) (after_dequeue S d client i s)
  unfolding after_dequeue
  after_dequeue-Owns i (c, w) h =
      Sat-bind (attempt (lift (send_idx S (some client) i))) _ (c, w)
        (attempt-Owns (lift (send_idx S (some client) i)) (c, w)
          (Sat-lift (send_idx S (some client) i) c w
            (send_idx-Owns S (held c fds) (some client) i w h)))
        (elim [ ok u ↦ λ s' h'. after_send-Owns i s' h' | err e ↦ λ s' h'. give_back-Owns i s' h' ])

  frame-Owns :
      (s : Capture × World S)
      → Holds S fds s
      → Sat (λ _ s'. Holds S fds s') (owning S fds) (frame S d client s)
  unfolding frame
  frame-Owns s h =
      Sat-bind (attempt d.dequeue) _ s (attempt-Owns d.dequeue s (o.dequeue s.0 s.1 h))
        (elim [ ok i ↦ λ s' h'. after_dequeue-Owns i s' h' | err e ↦ λ s' h'. record { at = h' } ])

  pub serve-Owns :
      (rounds : ℕ) (s : Capture × World S)
      → Holds S fds s
      → Sat (λ _ s'. Holds S fds s') (owning S fds) (serve S d client rounds s)
  unfolding serve
  serve-Owns zero s h = record { at = tt }
  serve-Owns (suc rounds) (c, w) h =
      Sat-if (S.running w.sys) (frame_then S d client (serve S d client rounds)) (pure tt) (c, w)
        (λ _.
          Sat-bind (frame S d client) _ (c, w) (frame-Owns (c, w) h)
            λ more s h'.
              Sat-if more (serve S d client rounds) (pure tt) s (λ _. serve-Owns rounds s h')
                (λ _. record { at = h' }))
        (λ _. record { at = h })
