-- ===== src/Publisher/Termination.antt =====
-- rust/publisher/src/main.rs, the loop: that it does not stand still.
use pub_sub_v4l2_dmabuf_wayl.Base.{
  ℕ, zero, suc, ◌+◌, ◌<◌, ◌≡◌, refl, ◌∙◌, [], Bool, true, false, none, some, arith, ◌==◌, length,
}
use pub_sub_v4l2_dmabuf_wayl.Effect.{
  M, Result, ok, err, other, unexpected_eof, pure, throw, attempt, ignore, lift,
}
use pub_sub_v4l2_dmabuf_wayl.Effect.Triple.{
  Exits, Sat, Sat-bind, Sat-if, Sat-lift, Sat-weaken, Sat-both, both,
}
use pub_sub_v4l2_dmabuf_wayl.Effect.Scopes.{Sat-attempt, Sat-ignore}
use pub_sub_v4l2_dmabuf_wayl.Platform.{Platform, World, syscall}
use pub_sub_v4l2_dmabuf_wayl.Platform.Buffers.{frames}
use pub_sub_v4l2_dmabuf_wayl.V4l2.Ioctl.Trace.{syscall-trace}
use pub_sub_v4l2_dmabuf_wayl.V4l2.Ioctl.Termination.{Settles, flowing}
use pub_sub_v4l2_dmabuf_wayl.V4l2.Capture.{Capture}
use pub_sub_v4l2_dmabuf_wayl.V4l2.Capture.Termination.{dequeue_from-flowing, requeue-flowing}
use pub_sub_v4l2_dmabuf_wayl.V4l2.Capture as Mmap
use pub_sub_v4l2_dmabuf_wayl.V4l2.Capture.Trace.{HasBuffer, untouched, dequeuing}
use pub_sub_v4l2_dmabuf_wayl.Socket.{send_bytes, recv_bytes, send_idx, wait_for_ack}
use pub_sub_v4l2_dmabuf_wayl.Publisher.{
  Device, mmap_device, give_back, after_ack, after_send, after_dequeue, frame, frame_then, serve,
}
use pub_sub_v4l2_dmabuf_wayl.Publisher.Exchange.{IsTraced}

-- The calls of the device come to an end.
pub record Flows (S : Platform) (d : Device S) : Type 0 where
  pub dequeue : (s : Capture × World S) → Sat (λ _ _. Unit) flowing (d.dequeue s)
  pub requeue : (i : ℕ) (s : Capture × World S) → Sat (λ _ _. Unit) flowing (d.requeue i s)

-- Those of V4l2Capture do, if `ioctl` is interrupted fewer times than there is fuel.
pub mmap_device-Flows :
    (S : Platform) (pending : S.State → ℕ) (fuel : ℕ)
    → Settles S pending
    → ((s : S.State) → pending s < fuel)
    → Flows S (mmap_device S fuel)
unfolding Mmap.dequeue
mmap_device-Flows S pending fuel settles enough = record {
  dequeue = λ s. dequeue_from-flowing S pending settles fuel enough S.memory_mmap s.0 s.1;
  requeue = λ i s. requeue-flowing S pending settles fuel enough i s.0 s.1;
}

module _ (S : Platform) (d : Device S) (o : IsTraced S d) (e : Flows S d) (client : ℕ) where
  -- After a step that goes on, so many frames have been taken.
  abbrev Taken : ℕ → Bool → Capture × World S → Type 0
  Taken n true s = frames s.1.trace ≡ n
  Taken n false s = Unit

  abbrev Kept : ℕ → ℕ → Capture × World S → Type 0
  Kept n i s = HasBuffer i s.0 × (frames s.1.trace ≡ n)

  send_idx-frames :
      (i : ℕ) (w : World S)
      → Sat (λ _ w'. frames w'.trace ≡ frames w.trace) flowing (send_idx S (some client) i w)
  unfolding send_idx
  send_idx-frames i w =
      Sat-bind {Q = λ _ w'. frames w'.trace ≡ frames w.trace} (send_bytes S (some client) _ []) _ w
        (Sat-bind (syscall S _ _) _ w (syscall-trace S _ _ w)
          (elim [ none ↦ λ w' q. record { at = tt } | some n ↦ λ w' q. record { at = rw q refl } ]))
        λ n w' q.
          Sat-if (n == 4) (pure tt) (throw other) w' (λ _. record { at = q })
            (λ _. record { at = tt })

  wait_for_ack-frames :
      (w : World S)
      → Sat (λ _ w'. frames w'.trace ≡ frames w.trace) flowing (wait_for_ack S (some client) w)
  unfolding wait_for_ack
  wait_for_ack-frames w =
      Sat-bind {Q = λ _ w'. frames w'.trace ≡ frames w.trace} (recv_bytes S (some client) 1 false) _
        w
        (Sat-bind (syscall S _ _) _ w (syscall-trace S _ _ w) (elim [
          | none ↦ λ w' q. record { at = tt }
          | some bytes ↦ λ w' q. record { at = rw q refl }
        ]))
        λ bytes w' q.
          Sat-if (length bytes == 0) (throw unexpected_eof) (pure tt) w' (λ _. record { at = tt })
            (λ _. record { at = q })

  give_back-frames :
      (n i : ℕ) (s : Capture × World S) → Sat (Taken n) flowing (give_back S d client i s)
  unfolding give_back
  give_back-frames n i s =
      Sat-bind {Q = λ _ _. Unit {0}} (ignore (d.requeue i)) _ s
        (Sat-ignore {Q = λ _ _. Unit {0}} {Y = flowing} (d.requeue i) s (e.requeue i s)
          (λ _ _ _. tt) (λ _ _ _. tt) (λ _ _. tt) (λ _ h. h))
        (λ _ _ _. record { at = tt })

  after_ack-frames :
      (n i : ℕ) (s : Capture × World S)
      → Kept n i s
      → Sat (Taken n) flowing (after_ack S d client i s)
  unfolding after_ack
  after_ack-frames n i (c, w) (b, k) =
      Sat-bind (attempt (d.requeue i)) _ (c, w)
        (Sat-attempt {Q = Outcome} {Y = both (untouched S c w.trace) flowing} (d.requeue i) (c, w)
          (Sat-both _ (o.requeue i c w b) (e.requeue i (c, w))) (λ _ s q. rw (q.0.1) k)
          (λ _ _ _. tt) (λ _ _. tt) (λ _ h. h.1))
        (elim [ ok u ↦ λ s' q. record { at = q } | err x ↦ λ s' q. record { at = tt } ])
    where
      Outcome : Result (Unit {0}) → Capture × World S → Type 0
      Outcome (ok u) s' = frames s'.1.trace ≡ n
      Outcome (err x) s' = Unit

  abbrev Exchanged : ℕ → ℕ → Result (Unit {0}) → Capture × World S → Type 0
  Exchanged n i (ok u) s = Kept n i s
  Exchanged n i (err x) s = Unit

  -- A step of the exchange, which takes no frame.
  exchange-frames :
      (m : M (World S) (Unit {0})) (n i : ℕ) (c : Capture) (w : World S)
      → Kept n i (c, w)
      → Sat (λ _ w'. frames w'.trace ≡ frames w.trace) flowing (m w)
      → Sat (Exchanged n i) flowing (attempt (lift m) (c, w))
  exchange-frames m n i c w (b, k) h =
      Sat-attempt {Y = flowing} (lift m) (c, w)
        (Sat-lift {Q = λ _ s. Kept n i s} m c w
          (Sat-weaken {Y = flowing} _ h (λ _ _ q. (b, q ∙ k)) (λ _ _ _. tt) (λ _ _. tt) (λ _ x. x)))
        (λ _ _ r. r) (λ _ _ _. tt) (λ _ _. tt) (λ _ x. x)

  after_send-frames :
      (n i : ℕ) (s : Capture × World S)
      → Kept n i s
      → Sat (Taken n) flowing (after_send S d client i s)
  unfolding after_send
  after_send-frames n i (c, w) k =
      Sat-bind (attempt (lift (wait_for_ack S (some client)))) _ (c, w)
        (exchange-frames (wait_for_ack S (some client)) n i c w k (wait_for_ack-frames w))
        (elim [
          | ok u ↦ λ s' r. after_ack-frames n i s' r
          | err x ↦ λ s' r. give_back-frames n i s'
        ])

  after_dequeue-frames :
      (n i : ℕ) (s : Capture × World S)
      → Kept n i s
      → Sat (Taken n) flowing (after_dequeue S d client i s)
  unfolding after_dequeue
  after_dequeue-frames n i (c, w) k =
      Sat-bind (attempt (lift (send_idx S (some client) i))) _ (c, w)
        (exchange-frames (send_idx S (some client) i) n i c w k (send_idx-frames i w))
        (elim [
          | ok u ↦ λ s' r. after_send-frames n i s' r
          | err x ↦ λ s' r. give_back-frames n i s'
        ])

  frame-frames :
      (c : Capture) (w : World S)
      → Sat (Taken (suc (frames w.trace))) flowing (frame S d client (c, w))
  unfolding frame
  frame-frames c w =
      Sat-bind (attempt d.dequeue) _ (c, w)
        (Sat-attempt {Q = Outcome} {Y = both (dequeuing S c w.trace) flowing} d.dequeue (c, w)
          (Sat-both _ (o.dequeue c w) (e.dequeue (c, w))) (λ i s q. (q.0.1, rw (q.0.2) refl))
          (λ _ _ _. tt) (λ _ _. tt) (λ _ h. h.1))
        (elim [
          | ok i ↦ λ s r. after_dequeue-frames (suc (frames w.trace)) i s r
          | err x ↦ λ s r. record { at = tt }
        ])
    where
      Outcome : Result ℕ → Capture × World S → Type 0
      Outcome (ok i) s = Kept (suc (frames w.trace)) i s
      Outcome (err x) s = Unit

  abbrev pub after_rounds : ℕ → ℕ → Exits (Capture × World S)
  after_rounds rounds before = record {
    failing = λ _ _. Unit;
    panicking = λ _. Unit;
    spinning = λ s. frames s.1.trace ≡ rounds + before;
  }

  -- If the calls of the device come to an end, then the loop is still running at the end of its
  -- rounds only if it has taken as many frames from the driver as there were rounds: each round that
  -- goes on takes one.
  pub serve-frames :
      (rounds : ℕ) (c : Capture) (w : World S)
      → Sat (λ _ _. Unit) (after_rounds rounds (frames w.trace)) (serve S d client rounds (c, w))
  unfolding serve frame_then
  serve-frames zero c w = record { at = omega arith }
  serve-frames (suc rounds) c w =
      Sat-if (S.running w.sys) (frame_then S d client (serve S d client rounds)) (pure tt) (c, w)
        (λ _.
          Sat-bind (frame S d client) _ (c, w)
            (Sat-weaken {Y = flowing} _ (frame-frames c w) (λ _ _ q. q) (λ _ _ _. tt) (λ _ _. tt)
              (λ _ h. absurd h))
            (elim [
              | true ↦ λ s q.
                  Sat-weaken {Y = after_rounds rounds (frames s.1.trace)} _
                    (serve-frames rounds s.0 s.1) (λ _ _ h. h) (λ _ _ h. h) (λ _ h. h)
                    (λ _ h. omega (arith, h, q))
              | false ↦ λ s q. record { at = tt }
            ]))
        (λ _. record { at = tt })
