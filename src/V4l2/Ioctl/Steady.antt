-- ===== src/V4l2/Ioctl/Steady.antt =====
-- The calls of rust/common, for anything that is counted in the trace and that they do not count.
use pub_sub_v4l2_dmabuf_wayl.Base.{ℕ, ◌≡◌, refl, ap, ◌∙◌, List, [], ◌∷◌, ◌++◌, none, some}
use pub_sub_v4l2_dmabuf_wayl.Effect.{Run, ret, ◌>>=◌}
use pub_sub_v4l2_dmabuf_wayl.Effect.Triple.{Exits, Sat, Sat-bind, Sat-weaken}
use pub_sub_v4l2_dmabuf_wayl.Platform.{
  Platform, World, Answer, done, failed, RawFd, Event, opened, closed, created, deleted, received,
  Object, note_close, opened_all, syscall, checked, close_fd, close_all, opening, calling,
}
use pub_sub_v4l2_dmabuf_wayl.V4l2.Ioctl.Trace.{syscall-trace}
use pub_sub_v4l2_dmabuf_wayl.V4l2.Ioctl.Termination.{never, flowing}

-- A count that does not regard descriptors, objects of EGL and GLES, and what is received.
pub record Steady (count : List Event → ℕ) : Type 0 where
  pub at_opened : (fd : ℕ) (t : List Event) → count (opened fd ∷ t) ≡ count t
  pub at_closed : (fd : ℕ) (t : List Event) → count (closed fd ∷ t) ≡ count t
  pub at_created : (k : Object) (i : ℕ) (t : List Event) → count (created k i ∷ t) ≡ count t
  pub at_deleted : (k : Object) (i : ℕ) (t : List Event) → count (deleted k i ∷ t) ≡ count t
  pub at_received :
      (s : RawFd) (bytes : List ℕ) (t : List Event) → count (received s bytes ∷ t) ≡ count t

-- What never fails ends as any computation that ends.
pub Sat-never :
    {W A : Type 0} {Q : A → W → Type 0} {X : Exits W} (r : Run W A) → Sat Q never r → Sat Q X r
Sat-never r h =
    Sat-weaken {Y = never} r h (λ _ _ q. q) (λ _ _ x. absurd x) (λ _ x. absurd x) (λ _ x. absurd x)

module _ (S : Platform) (count : List Event → ℕ) (steady : Steady count) (n : ℕ) where
  -- The count stands at `n`.
  abbrev pub Level : World S → Type 0
  Level w = count w.trace ≡ n

  pub opened_all-Level : (fds : List ℕ) (t : List Event) → count (opened_all fds ++ t) ≡ count t
  opened_all-Level [] t = refl
  opened_all-Level (fd ∷ fds) t = steady.at_opened fd (opened_all fds ++ t) ∙ opened_all-Level fds t

  pub close_fd-Level :
      (fd : RawFd) (w : World S) → Level w → Sat (λ _ w'. Level w') never (close_fd S fd w)
  unfolding close_fd
  close_fd-Level fd w q = answered (S.close fd w.sys)
    where
      noted_close : (fd' : RawFd) → count (note_close fd' ++ w.trace) ≡ n
      noted_close none = q
      noted_close (some f) = steady.at_closed f w.trace ∙ q

      answered :
          (a : Answer S.State (Unit {0}))
          → Sat
              (λ _ (w' : World S). Level w')
              never
              (elim a [
                | done u s ↦ ret tt (record w { sys = s; trace = note_close fd ++ w.trace })
                | failed e s ↦
                    ret tt (record w { sys = s; errno = e; trace = note_close fd ++ w.trace })
              ])
      answered (done u s) = record { at = noted_close fd }
      answered (failed e s) = record { at = noted_close fd }

  pub close_all-Level :
      (fds : List ℕ) (w : World S) → Level w → Sat (λ _ w'. Level w') never (close_all S fds w)
  unfolding close_all
  close_all-Level [] w q = record { at = q }
  close_all-Level (fd ∷ fds) w q =
      Sat-bind (close_fd S (some fd)) _ w (close_fd-Level (some fd) w q)
        λ _ w' q'. close_all-Level fds w' q'

  -- A call with the early return of its error.
  pub noting-Level :
      {A : Type 0} (f : S.State → Answer S.State A) (note : A → List Event) (w : World S)
      → ((a : A) (t : List Event) → count (note a ++ t) ≡ count t)
      → Level w
      → Sat (λ _ w'. Level w') flowing ((syscall S f note >>= checked S) w)
  noting-Level f note w unnoted q =
      Sat-bind (syscall S f note) _ w (syscall-trace S f note w) (elim [
        | none ↦ λ w' e. record { at = tt }
        | some a ↦ λ w' e. record { at = ap count e ∙ unnoted a w.trace ∙ q }
      ])

  pub opening-Level :
      (f : S.State → Answer S.State ℕ) (w : World S)
      → Level w
      → Sat (λ _ w'. Level w') flowing (opening S f w)
  opening-Level f w q = noting-Level f (λ fd. opened fd ∷ []) w (λ fd t. steady.at_opened fd t) q

  pub calling-Level :
      {A : Type 0} (f : S.State → Answer S.State A) (w : World S)
      → Level w
      → Sat (λ _ w'. Level w') flowing (calling S f w)
  calling-Level f w q = noting-Level f (λ _. []) w (λ _ _. refl) q

nothing : Steady (λ _. 0)
nothing = record {
  at_opened = λ _ _. refl;
  at_closed = λ _ _. refl;
  at_created = λ _ _ _. refl;
  at_deleted = λ _ _ _. refl;
  at_received = λ _ _ _. refl;
}

-- Whatever is counted, the closing of descriptors ends.
pub close_fd-ends :
    (S : Platform) (fd : RawFd) (w : World S) → Sat (λ _ _. Unit {0}) never (close_fd S fd w)
close_fd-ends S fd w =
    Sat-weaken {Y = never} _ (close_fd-Level S (λ _. 0) nothing 0 fd w refl) (λ _ _ _. tt)
      (λ _ _ h. h) (λ _ h. h) (λ _ h. h)

pub close_all-ends :
    (S : Platform) (fds : List ℕ) (w : World S) → Sat (λ _ _. Unit {0}) never (close_all S fds w)
close_all-ends S fds w =
    Sat-weaken {Y = never} _ (close_all-Level S (λ _. 0) nothing 0 fds w refl) (λ _ _ _. tt)
      (λ _ _ h. h) (λ _ h. h) (λ _ h. h)
