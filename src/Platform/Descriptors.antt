-- ===== src/Platform/Descriptors.antt =====
-- Which descriptors the process holds, read off the trace: those that calls have given it, less
-- those that it has closed.
use pub_sub_v4l2_dmabuf_wayl.Base.{
  ℕ, ◌+◌, ◌≡◌, List, [], ◌∷◌, ◌++◌, some, arith, ◌==◌, if◌then◌else◌, count,
}
use pub_sub_v4l2_dmabuf_wayl.Effect.{ret}
use pub_sub_v4l2_dmabuf_wayl.Effect.Triple.{Exits, Sat, Sat-bind}
use pub_sub_v4l2_dmabuf_wayl.Platform.{
  Platform, World, Answer, done, failed, Event, opened, closed, note_close, close_fd, close_all,
}

abbrev pub opens : ℕ → List Event → ℕ
opens fd [] = 0
opens fd (opened n ∷ t) = (if n == fd then 1 else 0) + opens fd t
opens fd (_ ∷ t) = opens fd t

abbrev pub closes : ℕ → List Event → ℕ
closes fd [] = 0
closes fd (closed n ∷ t) = (if n == fd then 1 else 0) + closes fd t
closes fd (_ ∷ t) = closes fd t

-- The process holds these descriptors and no other, each as often as it stands in the list: every
-- other one that it was given has been closed as often as it was given.
pub record Owns (fds : List ℕ) (t : List Event) : Type 0 where
  pub at : (fd : ℕ) → opens fd t ≡ closes fd t + count fd fds

pub Owns-opened :
    {fds : List ℕ} {t : List Event} (n : ℕ) → Owns fds t → Owns (n ∷ fds) (opened n ∷ t)
Owns-opened n o = record { at = λ fd. omega (arith, o.at fd) }

pub Owns-closed :
    {fds : List ℕ} {t : List Event} (n : ℕ) → Owns (n ∷ fds) t → Owns fds (closed n ∷ t)
Owns-closed n o = record { at = λ fd. omega (arith, o.at fd) }

-- The order of the list does not matter.
pub Owns-same :
    {xs ys : List ℕ} {t : List Event}
    → ((fd : ℕ) → count fd xs ≡ count fd ys)
    → Owns xs t
    → Owns ys t
Owns-same e o = record { at = λ fd. omega (arith, o.at fd, e fd) }

-- The exits of a computation that holds nothing more when it fails or panics.
abbrev pub holding : (S : Platform) → List ℕ → Exits (World S)
holding S fds = record {
  failing = λ _ w. Owns fds w.trace;
  panicking = λ w. Owns fds w.trace;
  spinning = λ _. Unit;
}

-- Closing never fails, so that what holds at another exit is free.
module _ (S : Platform) {X : Exits (World S)} where
  pub close_fd-Owns :
      (fd : ℕ) (fds : List ℕ) (w : World S)
      → Owns (fd ∷ fds) w.trace
      → Sat (λ _ w'. Owns fds w'.trace) X (close_fd S (some fd) w)
  unfolding close_fd
  close_fd-Owns fd fds w o = closed_run (S.close (some fd) w.sys)
    where
      closed_run :
          (a : Answer S.State (Unit {0}))
          → Sat
              (λ _ (w' : World S). Owns fds w'.trace)
              X
              (elim a [
                | done u s ↦ ret tt (record w { sys = s; trace = note_close (some fd) ++ w.trace })
                | failed e s ↦
                    ret tt
                      (record w { sys = s; errno = e; trace = note_close (some fd) ++ w.trace })
              ])
      closed_run (done u s) = record { at = Owns-closed fd o }
      closed_run (failed e s) = record { at = Owns-closed fd o }

  pub close_all-Owns :
      (gone fds : List ℕ) (w : World S)
      → Owns (gone ++ fds) w.trace
      → Sat (λ _ w'. Owns fds w'.trace) X (close_all S gone w)
  unfolding close_all
  close_all-Owns [] fds w o = record { at = o }
  close_all-Owns (fd ∷ gone) fds w o =
      Sat-bind (close_fd S (some fd)) _ w (close_fd-Owns fd (gone ++ fds) w o)
        λ _ w' o'. close_all-Owns gone fds w' o'
