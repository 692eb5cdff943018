-- ===== src/Publisher/Frames.antt =====
-- rust/publisher/src/main.rs, the loop: its rounds as steps of the protocol.
use pub_sub_v4l2_dmabuf_wayl.Base.{
  ℕ, zero, suc, ◌≡◌, sym, ap, ◌∙◌, subst, List, ◌∷◌, ◌<◌, length, arith, get_elem?-lt, Bool, true,
  false, some,
}
use pub_sub_v4l2_dmabuf_wayl.Effect.{M, Result, ok, err, pure, attempt, ignore, lift}
use pub_sub_v4l2_dmabuf_wayl.Effect.Triple.{Exits, Sat, Sat-bind, Sat-lift, Sat-if, Sat-weaken}
use pub_sub_v4l2_dmabuf_wayl.Effect.Scopes.{Sat-attempt, Sat-ignore}
use pub_sub_v4l2_dmabuf_wayl.Platform.{Platform, World, RawFd, Event, dequeued, queued}
use pub_sub_v4l2_dmabuf_wayl.V4l2.Capture.{Capture}
use pub_sub_v4l2_dmabuf_wayl.V4l2.Capture.Trace.{HasBuffer, untouched, dequeuing}
use pub_sub_v4l2_dmabuf_wayl.Socket.{send_idx, wait_for_ack}
use pub_sub_v4l2_dmabuf_wayl.Publisher.{
  Device, mmap_device, dma_device, after_ack, after_send, after_dequeue, frame, frame_then, serve,
}
use pub_sub_v4l2_dmabuf_wayl.Publisher.Exchange.{
  IsTraced, At, breaking, send_idx-Log, wait_for_ack-Log,
}
use pub_sub_v4l2_dmabuf_wayl.Publisher.Protocol.{
  Phase, idle, holding, told, acked, broken, done, Log, begin, take_frame, tell, hear, give,
  tell_failed, tell_short, hear_failed, hung_up,
}
use pub_sub_v4l2_dmabuf_wayl.Publisher.Protocol as Protocol
use pub_sub_v4l2_dmabuf_wayl.Publisher

-- The loop, over a device that keeps its promises.
module _ (S : Platform) (d : Device S) (o : IsTraced S d) (dev : RawFd) (client n : ℕ)
    (t : List Event) where
  -- The device, with its buffers.
  abbrev pub IsCapture : Capture → Type 0
  IsCapture c = (c.fd ≡ dev) × (length c.buffers ≡ n)

  abbrev pub AtSome : List Event → Type 0
  AtSome u = (p : Phase) × At S dev client n t p u

  -- The loop never fails; where it panics or spins, the protocol has reached some phase.
  abbrev pub ending : Exits (Capture × World S)
  ending = record {
    failing = λ _ _. ⊥;
    panicking = λ s. AtSome s.1.trace;
    spinning = λ s. AtSome s.1.trace;
  }

  -- After a round that goes on, no frame is under way.
  abbrev pub After : Bool → Capture × World S → Type 0
  After true s = IsCapture s.0 × At S dev client n t idle s.1.trace
  After false s = AtSome s.1.trace

  -- With a buffer that the capture has, in a phase of the protocol.
  abbrev Ready : (ℕ → Phase) → ℕ → Capture × World S → Type 0
  Ready p i s = IsCapture s.0 × HasBuffer i s.0 × At S dev client n t (p i) s.1.trace

  in_range : (i : ℕ) (c : Capture) → HasBuffer i c → IsCapture c → i < n
  in_range i c (b, e) f = omega (arith, f.1, get_elem?-lt c.buffers i b e)

  -- `requeue` from a phase in which it is due.
  requeue-Log :
      (i : ℕ) (p q : Phase) (c : Capture) (w : World S)
      → IsCapture c
      → HasBuffer i c
      → At S dev client n t p w.trace
      → At S dev client n t q (queued dev i ∷ w.trace)
      → Sat
          (λ _ s. IsCapture s.0 × At S dev client n t q s.1.trace)
          (record ending { failing = λ _ s. AtSome s.1.trace })
          (d.requeue i (c, w))
  requeue-Log i p q c w f b l m =
      Sat-weaken {Y = untouched S c w.trace} (d.requeue i (c, w)) (o.requeue i c w b)
        (λ _ s r. (
          (r.0.0 ∙ f.0, r.0.1 ∙ f.1),
          subst (At S dev client n t q) (sym (r.1 ∙ ap (λ x. queued x i ∷ w.trace) f.0)) m,
        ))
        (λ _ s r. (p, rw r.1 l)) (λ s r. absurd r) (λ s r. (p, rw r.1 l))

  give_back-Log :
      (i : ℕ) (s : Capture × World S)
      → Ready broken i s
      → Sat (λ more s'. After more s') ending (Publisher.give_back S d client i s)
  unfolding Publisher.give_back
  give_back-Log i (c, w) (f, b, l) =
      Sat-bind {Q = λ _ s'. AtSome s'.1.trace} (ignore (d.requeue i)) _ (c, w)
        (Sat-ignore {Y = record ending { failing = λ _ s. AtSome s.1.trace }} (d.requeue i) (c, w)
          (requeue-Log i (broken i) done c w f b l (Protocol.give_back i l)) (λ _ s' r. (done, r.1))
          (λ _ _ r. r) (λ _ r. r) (λ _ r. r))
        λ _ s' r. record { at = r }

  after_ack-Log :
      (i : ℕ) (s : Capture × World S)
      → Ready acked i s
      → Sat (λ more s'. After more s') ending (after_ack S d client i s)
  unfolding after_ack
  after_ack-Log i (c, w) (f, b, l) =
      Sat-bind (attempt (d.requeue i)) _ (c, w)
        (Sat-attempt {Q = Outcome} {Y = record ending { failing = λ _ s. AtSome s.1.trace }}
          (d.requeue i) (c, w) (requeue-Log i (acked i) idle c w f b l (give i l)) (λ _ _ r. r)
          (λ _ _ r. r) (λ _ r. r) (λ _ r. r))
        (elim [ ok u ↦ λ s' r. record { at = r } | err e ↦ λ s' r. record { at = r } ])
    where
      Outcome : Result (Unit {0}) → Capture × World S → Type 0
      Outcome (ok u) s' = IsCapture s'.0 × At S dev client n t idle s'.1.trace
      Outcome (err e) s' = AtSome s'.1.trace

  abbrev Exchanged : (ℕ → Phase) → ℕ → Result (Unit {0}) → Capture × World S → Type 0
  Exchanged p i (ok u) s = Ready p i s
  Exchanged p i (err e) s = Ready broken i s

  -- A step of the exchange with the subscriber, from one phase to the next or to `broken`.
  exchange-Log :
      (m : M (World S) (Unit {0})) (p : ℕ → Phase) (i : ℕ) (c : Capture) (w : World S)
      → IsCapture c
      → HasBuffer i c
      → Sat (λ _ w'. At S dev client n t (p i) w'.trace) (breaking S dev client n t i) (m w)
      → Sat (Exchanged p i) ending (attempt (lift m) (c, w))
  exchange-Log m p i c w f b h =
      Sat-attempt {Y = record ending { failing = λ _ s. Ready broken i s }} (lift m) (c, w)
        (Sat-lift m c w (
          Sat-weaken {Y = breaking S dev client n t i} (m w) h (λ _ _ l. (f, b, l))
            (λ _ _ l. (f, b, l)) (λ _ l. absurd l) (λ _ l. (broken i, l))))
        (λ _ _ r. r) (λ _ _ r. r) (λ _ r. r) (λ _ r. r)

  after_send-Log :
      (i : ℕ) (s : Capture × World S)
      → Ready told i s
      → Sat (λ more s'. After more s') ending (after_send S d client i s)
  unfolding after_send
  after_send-Log i (c, w) (f, b, l) =
      Sat-bind (attempt (lift (wait_for_ack S (some client)))) _ (c, w)
        (exchange-Log (wait_for_ack S (some client)) acked i c w f b
          (wait_for_ack-Log S dev client n t i w l))
        (elim [ ok u ↦ λ s' r. after_ack-Log i s' r | err e ↦ λ s' r. give_back-Log i s' r ])

  after_dequeue-Log :
      (i : ℕ) (s : Capture × World S)
      → Ready holding i s
      → Sat (λ more s'. After more s') ending (after_dequeue S d client i s)
  unfolding after_dequeue
  after_dequeue-Log i (c, w) (f, b, l) =
      Sat-bind (attempt (lift (send_idx S (some client) i))) _ (c, w)
        (exchange-Log (send_idx S (some client) i) told i c w f b
          (send_idx-Log S dev client n t i w (in_range i c b f) l))
        (elim [ ok u ↦ λ s' r. after_send-Log i s' r | err e ↦ λ s' r. give_back-Log i s' r ])

  -- One round. If it goes on, the protocol is idle again and the device is the same; if it breaks,
  -- panics or spins, the protocol has reached some phase; it never fails. The capture must satisfy
  -- `IsTraced`, as both types of it do, and no frame be under way.
  pub frame-Log :
      (c : Capture) (w : World S)
      → IsCapture c
      → At S dev client n t idle w.trace
      → Sat (λ more s. After more s) ending (frame S d client (c, w))
  unfolding frame
  frame-Log c w f l =
      Sat-bind (attempt d.dequeue) _ (c, w)
        (Sat-attempt {Q = Outcome} {Y = dequeuing S c w.trace} d.dequeue (c, w) (o.dequeue c w)
          (λ i s q. ((q.0.0 ∙ f.0, q.0.1 ∙ f.1), q.1, taken i s q.2)) (λ _ _ q. (idle, rw q.1 l))
          (λ s q. (holding q.0, taken q.0 s q.2)) (λ _ q. (idle, rw q.1 l)))
        (elim [ ok i ↦ λ s r. after_dequeue-Log i s r | err e ↦ λ s r. record { at = r } ])
    where
      Outcome : Result ℕ → Capture × World S → Type 0
      Outcome (ok i) s = Ready holding i s
      Outcome (err e) s = AtSome s.1.trace

      taken :
          (i : ℕ) (s : Capture × World S)
          → s.1.trace ≡ dequeued c.fd i ∷ w.trace
          → At S dev client n t (holding i) s.1.trace
      taken i s e =
          subst (At S dev client n t (holding i)) (sym (e ∙ ap (λ x. dequeued x i ∷ w.trace) f.0))
            (take_frame i l)

  -- However the loop is left, the events since its start are a prefix of the protocol: for each
  -- frame DQBUF of one of the capture's buffers, its whole index sent, an ack received and QBUF of
  -- that same buffer, or QBUF of it after an exchange that failed, with nothing after that. Errors
  -- end the loop, never as errors of its own. The capture must satisfy `IsTraced`, as both types of
  -- it do, and no frame be under way.
  pub serve-Log :
      (rounds : ℕ) (c : Capture) (w : World S)
      → IsCapture c
      → At S dev client n t idle w.trace
      → Sat (λ _ s. AtSome s.1.trace) ending (serve S d client rounds (c, w))
  unfolding serve
  serve-Log zero c w f l = record { at = (idle, l) }
  serve-Log (suc rounds) c w f l =
      Sat-if (S.running w.sys) (frame_then S d client (serve S d client rounds)) (pure tt) (c, w)
        (λ _.
          Sat-bind (frame S d client) _ (c, w) (frame-Log c w f l)
            (elim [
              | true ↦ λ s r. serve-Log rounds s.0 s.1 r.0 r.1
              | false ↦ λ s r. record { at = r }
            ]))
        (λ _. record { at = (idle, l) })
