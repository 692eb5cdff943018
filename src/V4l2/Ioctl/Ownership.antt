-- ===== src/V4l2/Ioctl/Ownership.antt =====
-- rust/common/src/v4l2.rs, xioctl and its uses: the descriptors that they bring.
use pub_sub_v4l2_dmabuf_wayl.Base.{ℕ, List, [], ◌∷◌, ◌++◌, Option, none, some}
use pub_sub_v4l2_dmabuf_wayl.Effect.{panics, pure, ◌>>=◌}
use pub_sub_v4l2_dmabuf_wayl.Effect.Triple.{Exits, Sat, Sat-bind, Sat-if, Sat-weaken}
use pub_sub_v4l2_dmabuf_wayl.Platform.{
  Platform, World, Answer, RawFd, Event, opened, Request, Payload, querycap, expbuf, heap_alloc,
  note_ioctl, syscall, checked, opening, calling,
}
use pub_sub_v4l2_dmabuf_wayl.Platform.Descriptors.{Owns, Owns-opened, holding}
use pub_sub_v4l2_dmabuf_wayl.V4l2.Ioctl.Trace.{noted, syscall-trace, xioctl-trace}
use pub_sub_v4l2_dmabuf_wayl.V4l2.Ioctl.{xioctl, try_ioctl, cstring, contains_nul}

-- The descriptor that a successful request brings.
abbrev pub brings : (r : Request) → Payload r → List ℕ
brings expbuf p = p.fd ∷ []
brings heap_alloc p = p.fd ∷ []
brings _ p = []

abbrev pub acquired : (r : Request) → Option (Payload r) → List ℕ
acquired r none = []
acquired r (some p) = brings r p

Owns-noted :
    (r : Request) (fd : RawFd) (arg : Payload r) (o : Option (Payload r)) (fds : List ℕ)
    (t : List Event)
    → Owns fds t
    → Owns (acquired r o ++ fds) (noted (note_ioctl r fd arg) o ++ t)
Owns-noted expbuf fd arg (some p) fds t o = Owns-opened p.fd o
Owns-noted heap_alloc fd arg (some p) fds t o = Owns-opened p.fd o
Owns-noted querycap fd arg (some p) fds t o = record { at = o.at }
Owns-noted r fd arg none fds t o = record { at = o.at }
Owns-noted r fd arg (some p) fds t o = record { at = o.at }

module _ (S : Platform) {X : Exits (World S)} (fds : List ℕ) where
  pub xioctl-Owns :
      (fuel : ℕ) (r : Request) (fd : RawFd) (arg : Payload r) (w : World S)
      → Owns fds w.trace
      → ((w' : World S) → X.spinning w')
      → Sat (λ o w'. Owns (acquired r o ++ fds) w'.trace) X (xioctl S fuel r fd arg w)
  xioctl-Owns fuel r fd arg w o spins =
      Sat-weaken (xioctl S fuel r fd arg w)
        (xioctl-trace S {X = X} fuel r fd arg w (λ w' _. spins w'))
        (λ a w' e. rw e (Owns-noted r fd arg a fds w.trace o)) (λ _ _ h. h) (λ _ h. h) (λ _ h. h)

module _ (S : Platform) (fds : List ℕ) where
  pub try_ioctl-Owns :
      (fuel : ℕ) (r : Request) (fd : RawFd) (arg : Payload r) (w : World S)
      → Owns fds w.trace
      → Sat
          (λ p w'. Owns (brings r p ++ fds) w'.trace)
          (holding S fds)
          (try_ioctl S fuel r fd arg w)
  try_ioctl-Owns fuel r fd arg w o =
      Sat-bind (xioctl S fuel r fd arg) _ w (xioctl-Owns S fds fuel r fd arg w o (λ _. tt))
        (elim [ none ↦ λ w' h. record { at = h } | some p ↦ λ w' h. record { at = h } ])

  pub cstring-Owns :
      (path : List ℕ) (w : World S)
      → Owns fds w.trace
      → Sat (λ _ w'. Owns fds w'.trace) (holding S fds) (cstring path w)
  unfolding cstring
  cstring-Owns path w o =
      Sat-if (contains_nul path) panics (pure path) w (λ _. record { at = o })
        (λ _. record { at = o })

  -- A call whose note is known to bring the descriptors `got`, with the early return of its error.
  pub noting-Owns :
      {A : Type 0} (f : S.State → Answer S.State A) (note : A → List Event) (got : A → List ℕ)
      (w : World S)
      → Owns fds w.trace
      → ((a : A) (t : List Event) → Owns fds t → Owns (got a ++ fds) (note a ++ t))
      → Sat
          (λ a w'. Owns (got a ++ fds) w'.trace)
          (holding S fds)
          ((syscall S f note >>= checked S) w)
  noting-Owns f note got w o brought =
      Sat-bind (syscall S f note) _ w (syscall-trace S f note w) (elim [
        | none ↦ λ w' e. record { at = rw e o }
        | some a ↦ λ w' e. record { at = rw e (brought a w.trace o) }
      ])

  -- A call without a note, whose result may be an error.
  pub silent-Owns :
      {A : Type 0} {X : Exits (World S)} (f : S.State → Answer S.State A) (w : World S)
      → Owns fds w.trace
      → Sat (λ _ w'. Owns fds w'.trace) X (syscall S f (λ _. []) w)
  silent-Owns {X} f w o =
      Sat-weaken (syscall S f (λ _. []) w) (syscall-trace S {X = X} f (λ _. []) w)
        (elim [ none ↦ λ w' e. rw e o | some a ↦ λ w' e. rw e o ]) (λ _ _ h. h) (λ _ h. h)
        (λ _ h. h)

  -- A call that opens a descriptor, with the early return of its error.
  pub opening-Owns :
      (f : S.State → Answer S.State ℕ) (w : World S)
      → Owns fds w.trace
      → Sat (λ fd w'. Owns (fd ∷ fds) w'.trace) (holding S fds) (opening S f w)
  opening-Owns f w o =
      noting-Owns f (λ fd. opened fd ∷ []) (λ fd. fd ∷ []) w o (λ fd t h. Owns-opened fd h)

  -- A call that changes no descriptor, with the early return of its error.
  pub calling-Owns :
      {A : Type 0} (f : S.State → Answer S.State A) (w : World S)
      → Owns fds w.trace
      → Sat (λ _ w'. Owns fds w'.trace) (holding S fds) (calling S f w)
  calling-Owns f w o = noting-Owns f (λ _. []) (λ _. []) w o (λ _ _ h. h)
