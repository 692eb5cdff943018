-- ===== src/V4l2/Ioctl/Trace.antt =====
-- rust/common/src/v4l2.rs, xioctl: the notes that calls leave in the trace.
use pub_sub_v4l2_dmabuf_wayl.Base.{
  ℕ, zero, suc, ◌≡◌, refl, ◌∙◌, List, [], ◌++◌, Option, none, some, ◌==◌,
}
use pub_sub_v4l2_dmabuf_wayl.Effect.{IoError, Run, ret, ◌>>=◌}
use pub_sub_v4l2_dmabuf_wayl.Effect.Triple.{Exits, Sat, Sat-bind, Sat-if_run, Sat-weaken}
use pub_sub_v4l2_dmabuf_wayl.Platform.{
  Platform, World, Answer, done, failed, RawFd, Event, Request, Payload, note_ioctl, syscall,
  checked,
}
use pub_sub_v4l2_dmabuf_wayl.V4l2.Ioctl.{xioctl, try_ioctl}

abbrev pub noted : {A : Type 0} → (A → List Event) → Option A → List Event
noted note none = []
noted note (some a) = note a

module _ (S : Platform) {X : Exits (World S)} where
  -- A call of the platform leaves its note in the trace if it succeeds.
  pub syscall-trace :
      {A : Type 0} (f : S.State → Answer S.State A) (note : A → List Event) (w : World S)
      → Sat (λ o w'. w'.trace ≡ noted note o ++ w.trace) X (syscall S f note w)
  unfolding syscall
  syscall-trace {A} f note w = answered (f w.sys)
    where
      answered :
          (a : Answer S.State A)
          → Sat
              (λ o (w' : World S). w'.trace ≡ noted note o ++ w.trace)
              X
              (elim a [
                | done b s ↦ ret (some b) (record w { sys = s; trace = note b ++ w.trace })
                | failed e s ↦ ret none (record w { sys = s; errno = e })
              ])
      answered (done b s) = record { at = refl }
      answered (failed e s) = record { at = refl }

  -- However often it is interrupted, `xioctl` adds the note of one call that succeeds, or none.
  pub xioctl-trace :
      (fuel : ℕ) (r : Request) (fd : RawFd) (arg : Payload r) (w : World S)
      → ((w' : World S) → w'.trace ≡ w.trace → X.spinning w')
      → Sat
          (λ o w'. w'.trace ≡ noted (note_ioctl r fd arg) o ++ w.trace)
          X
          (xioctl S fuel r fd arg w)
  unfolding xioctl syscall
  xioctl-trace zero r fd arg w h = record { at = h w refl }
  xioctl-trace (suc fuel) r fd arg w h =
      answered (λ w' e. xioctl-trace fuel r fd arg w' (λ v q. h v (q ∙ e))) (S.ioctl r fd arg w.sys)
        refl
    where
      Logged : List Event → Option (Payload r) → World S → Type 0
      Logged t o w' = w'.trace ≡ noted (note_ioctl r fd arg) o ++ t

      answered :
          ((w' : World S)
            → w'.trace ≡ w.trace
            → Sat (Logged w'.trace) X (xioctl S fuel r fd arg w'))
          → (a : Answer S.State (Payload r)) → S.ioctl r fd arg w.sys ≡ a
          → Sat (Logged w.trace) X (xioctl S (suc fuel) r fd arg w)
      answered again (done b s) e = rw (e, xioctl, syscall) (record { at = refl })
      answered again (failed b s) e =
          rw (e, xioctl, syscall)
            (Sat-if_run (b == S.eintr) _ _ (λ _. again (record w { sys = s; errno = b }) refl)
              (λ _. record { at = refl }))

-- The exits of a call that has added nothing to the trace; it never panics.
abbrev pub unmoved : (S : Platform) → List Event → Exits (World S)
unmoved S t = record {
  failing = λ _ w. w.trace ≡ t;
  panicking = λ _. ⊥;
  spinning = λ w. w.trace ≡ t;
}

module _ (S : Platform) where
  -- A call with the early return of its error.
  pub noting-trace :
      {A : Type 0} (f : S.State → Answer S.State A) (note : A → List Event) (w : World S)
      → Sat
          (λ a w'. w'.trace ≡ note a ++ w.trace)
          (unmoved S w.trace)
          ((syscall S f note >>= checked S) w)
  noting-trace f note w =
      Sat-bind (syscall S f note) _ w (syscall-trace S f note w)
        (elim [ none ↦ λ w' e. record { at = e } | some a ↦ λ w' e. record { at = e } ])

  pub try_ioctl-trace :
      (fuel : ℕ) (r : Request) (fd : RawFd) (arg : Payload r) (w : World S)
      → Sat
          (λ p w'. w'.trace ≡ note_ioctl r fd arg p ++ w.trace)
          (unmoved S w.trace)
          (try_ioctl S fuel r fd arg w)
  try_ioctl-trace fuel r fd arg w =
      Sat-bind (xioctl S fuel r fd arg) _ w (xioctl-trace S fuel r fd arg w (λ _ e. e))
        (elim [ none ↦ λ w' e. record { at = e } | some p ↦ λ w' e. record { at = e } ])

-- Where a call that has added nothing fails or spins, so does what it is a part of.
pub Sat-moved :
    {S : Platform} {A : Type 0} {Q : A → World S → Type 0} {X : Exits (World S)} (t : List Event)
    (r : Run (World S) A)
    → Sat Q (unmoved S t) r
    → ((e : IoError) (w : World S) → w.trace ≡ t → X.failing e w)
    → ((w : World S) → w.trace ≡ t → X.spinning w)
    → Sat Q X r
Sat-moved {S} t r h f s = Sat-weaken {Y = unmoved S t} r h (λ _ _ k. k) f (λ _ k. absurd k) s
