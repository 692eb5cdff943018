-- ===== src/V4l2/Capture/Trace.antt =====
-- What `dequeue` and `requeue` of either capture type leave in the trace.
use pub_sub_v4l2_dmabuf_wayl.Base.{
  ℕ, zero, suc, ◌≡◌, refl, ap, ◌∙◌, List, [], ◌∷◌, Option, none, some, ◌==◌, get_elem?, set, length,
  arith,
}
use pub_sub_v4l2_dmabuf_wayl.Effect.{timed_out, pure, throw}
use pub_sub_v4l2_dmabuf_wayl.Effect.Triple.{Exits, Sat, Sat-bind, Sat-bind_lift, Sat-if}
use pub_sub_v4l2_dmabuf_wayl.Platform.{
  Platform, World, RawFd, Event, queued, dequeued, dqbuf, qbuf, calling,
}
use pub_sub_v4l2_dmabuf_wayl.V4l2.Ioctl.{try_ioctl}
use pub_sub_v4l2_dmabuf_wayl.V4l2.Ioctl.Trace.{unmoved, Sat-moved, noting-trace, try_ioctl-trace}
use pub_sub_v4l2_dmabuf_wayl.V4l2.Capture.{
  Capture, BufInfo, buffer_arg, wait_readable, note_bytesused, write_bytesused, dequeue_from,
  requeue,
}

-- The capture has a buffer of this index.
abbrev pub HasBuffer : ℕ → Capture → Type 0
HasBuffer i c = (b : BufInfo) × (get_elem? c.buffers i ≡ some b)

-- The same device, and as many buffers.
abbrev pub SameAs : Capture → Capture → Type 0
SameAs c d = (d.fd ≡ c.fd) × (length d.buffers ≡ length c.buffers)

length-set : (bs : List BufInfo) (i : ℕ) (x : BufInfo) → length (set bs i x) ≡ length bs
length-set [] i x = refl
length-set (b ∷ bs) zero x = refl
length-set (b ∷ bs) (suc i) x = omega (arith, length-set bs i x)

get_elem?-set_found :
    (bs : List BufInfo) (i : ℕ) (b x : BufInfo)
    → get_elem? bs i ≡ some b
    → get_elem? (set bs i x) i ≡ some x
get_elem?-set_found [] i b x e = cc
get_elem?-set_found (_ ∷ bs) zero b x e = refl
get_elem?-set_found (_ ∷ bs) (suc i) b x e = get_elem?-set_found bs i b x e

module _ (S : Platform) where
  -- The device stays the same at every exit, and a failure adds nothing to the trace.
  abbrev pub untouched : Capture → List Event → Exits (Capture × World S)
  untouched c t = record {
    failing = λ _ s. SameAs c s.0 × (s.1.trace ≡ t);
    panicking = λ _. ⊥;
    spinning = λ s. SameAs c s.0 × (s.1.trace ≡ t);
  }

  -- The driver gave a buffer that the capture does not have.
  abbrev pub dequeuing : Capture → List Event → Exits (Capture × World S)
  dequeuing c t = record (untouched c t) {
    panicking = λ s. (i : ℕ) × (get_elem? c.buffers i ≡ none) × (s.1.trace ≡ dequeued c.fd i ∷ t);
  }

  abbrev pub Dequeued : Capture → List Event → ℕ → Capture × World S → Type 0
  Dequeued c t i s = SameAs c s.0 × HasBuffer i s.0 × (s.1.trace ≡ dequeued c.fd i ∷ t)

  abbrev pub Requeued : Capture → List Event → ℕ → Capture × World S → Type 0
  Requeued c t i s = SameAs c s.0 × (s.1.trace ≡ queued c.fd i ∷ t)

module _ (S : Platform) (fuel : ℕ) where
  wait_readable-trace :
      (fd : RawFd) (w : World S)
      → Sat (λ _ w'. w'.trace ≡ w.trace) (unmoved S w.trace) (wait_readable S fuel fd w)
  unfolding wait_readable
  wait_readable-trace fd w =
      Sat-bind (calling S (S.select fd 2)) _ w (noting-trace S (S.select fd 2) (λ _. []) w)
        λ n w' e.
          Sat-if (n == 0) (throw timed_out) (pure tt) w' (λ _. record { at = e })
            (λ _. record { at = e })

  write_bytesused-trace :
      (i n : ℕ) (t : List Event) (c : Capture) (w : World S) (found : Option BufInfo)
      → get_elem? c.buffers i ≡ found
      → w.trace ≡ dequeued c.fd i ∷ t
      → Sat (λ _ s. Dequeued S c t i s) (dequeuing S c t) (write_bytesused S fuel i n found (c, w))
  unfolding write_bytesused
  write_bytesused-trace i n t c w none e u = record { at = (i, e, u) }
  write_bytesused-trace i n t c w (some b) e u =
      let b' = record b { bytesused = n } in
      record {
        at = ((refl, length-set c.buffers i b'), (b', get_elem?-set_found c.buffers i b b' e), u);
      }

  -- `dequeue`, of either kind of memory: success is one completed DQBUF and nothing else, of the
  -- index returned, which is that of a buffer of the capture. A failure leaves nothing behind, and a
  -- panic means that the one completed DQBUF gave an index of which the capture has no buffer. The device and the number of buffers
  -- stay the same.
  pub dequeue_from-trace :
      (memory : ℕ) (c : Capture) (w : World S)
      → Sat
          (λ i s. Dequeued S c w.trace i s)
          (dequeuing S c w.trace)
          (dequeue_from S fuel memory (c, w))
  unfolding dequeue_from note_bytesused
  dequeue_from-trace memory c w =
      Sat-bind_lift (wait_readable S fuel c.fd) _ c w
        (Sat-moved w.trace (wait_readable S fuel c.fd w) (wait_readable-trace c.fd w)
          (λ _ _ e. ((refl, refl), e)) (λ _ e. ((refl, refl), e)))
        λ _ w₁ e₁.
          Sat-bind_lift (try_ioctl S fuel dqbuf c.fd (buffer_arg S memory 0)) _ c w₁
            (Sat-moved w₁.trace (try_ioctl S fuel dqbuf c.fd (buffer_arg S memory 0) w₁)
              (try_ioctl-trace S fuel dqbuf c.fd _ w₁) (λ _ _ e. ((refl, refl), e ∙ e₁))
              (λ _ e. ((refl, refl), e ∙ e₁)))
            λ buf w₂ e₂.
              Sat-bind (note_bytesused S fuel buf.index buf.bytesused) _ (c, w₂)
                (write_bytesused-trace buf.index buf.bytesused w.trace c w₂
                  (get_elem? c.buffers buf.index) refl
                  (e₂ ∙ ap (λ t. dequeued c.fd buf.index ∷ t) e₁))
                λ _ s d. record { at = d }

  pub requeue-trace :
      (i : ℕ) (c : Capture) (w : World S)
      → Sat (λ _ s. Requeued S c w.trace i s) (untouched S c w.trace) (requeue S fuel i (c, w))
  unfolding requeue
  requeue-trace i c w =
      Sat-bind_lift (try_ioctl S fuel qbuf c.fd (buffer_arg S S.memory_mmap i)) _ c w
        (Sat-moved w.trace (try_ioctl S fuel qbuf c.fd (buffer_arg S S.memory_mmap i) w)
          (try_ioctl-trace S fuel qbuf c.fd _ w) (λ _ _ e. ((refl, refl), e))
          (λ _ e. ((refl, refl), e)))
        λ _ w' e. record { at = ((refl, refl), e) }
