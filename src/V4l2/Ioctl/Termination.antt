-- ===== src/V4l2/Ioctl/Termination.antt =====
-- rust/common/src/v4l2.rs, xioctl: the end of its loop.
use pub_sub_v4l2_dmabuf_wayl.Base.{
  ℕ, zero, suc, ◌<◌, ◌≡◌, refl, true, false, Option, none, some, arith, ◌==◌,
}
use pub_sub_v4l2_dmabuf_wayl.Effect.Triple.{Exits, Sat, Sat-if_run, Sat-bind, Sat-weaken}
use pub_sub_v4l2_dmabuf_wayl.Platform.{
  Platform, World, Answer, done, failed, RawFd, Request, Payload, syscall,
}
use pub_sub_v4l2_dmabuf_wayl.V4l2.Ioctl.{xioctl, try_ioctl}

-- A measure of the platform's state that each interrupted call lowers: the signals to come.
pub record Settles (S : Platform) (pending : S.State → ℕ) : Type 0 where
  pub lowers :
      (r : Request) (fd : RawFd) (arg : Payload r) (s s' : S.State) (e : ℕ)
      → S.ioctl r fd arg s ≡ failed e s'
      → (e == S.eintr) ≡ true
      → pending s' < pending s

-- The exits of a computation that does nothing but return.
abbrev pub never : {W : Type 0} → Exits W
never = record { failing = λ _ _. ⊥; panicking = λ _. ⊥; spinning = λ _. ⊥ }

-- Any exit but the end of the fuel.
abbrev pub flowing : {W : Type 0} → Exits W
flowing = record { failing = λ _ _. Unit; panicking = λ _. Unit; spinning = λ _. ⊥ }

-- A failure is reported with another error than the interruption.
abbrev pub NotInterrupted : (S : Platform) {A : Type 0} → Option A → World S → Type 0
NotInterrupted S none w = (w.errno == S.eintr) ≡ false
NotInterrupted S (some a) w = Unit

module _ (S : Platform) (pending : S.State → ℕ) (settles : Settles S pending) where
  -- If each interrupted call lowers a measure of the platform's state, then fuel above that measure is
  -- enough: `xioctl` returns, and a failure that it reports is not an interruption.
  pub xioctl-ends :
      (fuel : ℕ) (r : Request) (fd : RawFd) (arg : Payload r) (w : World S)
      → pending w.sys < fuel
      → Sat (NotInterrupted S) never (xioctl S fuel r fd arg w)
  unfolding xioctl syscall
  xioctl-ends zero r fd arg w h = absurd (omega (arith, h))
  xioctl-ends (suc fuel) r fd arg w h =
      answered (λ w' l. xioctl-ends fuel r fd arg w' l) (S.ioctl r fd arg w.sys) refl
    where
      answered :
          ((w' : World S)
            → pending w'.sys < fuel
            → Sat (NotInterrupted S) never (xioctl S fuel r fd arg w'))
          → (a : Answer S.State (Payload r)) → S.ioctl r fd arg w.sys ≡ a
          → Sat (NotInterrupted S) never (xioctl S (suc fuel) r fd arg w)
      answered again (done b s) e = rw (e, xioctl, syscall) (record { at = tt })
      answered again (failed b s) e =
          rw (e, xioctl, syscall)
            (Sat-if_run (b == S.eintr) _ _
              (λ i.
                again (record w { sys = s; errno = b })
                  (omega (arith, h, settles.lowers r fd arg w.sys s b e i)))
              (λ n. record { at = n }))

  -- With the early return of its error, and enough fuel in any state.
  pub try_ioctl-flowing :
      (fuel : ℕ) (r : Request) (fd : RawFd) (arg : Payload r) (w : World S)
      → ((s : S.State) → pending s < fuel)
      → Sat (λ _ _. Unit {0}) flowing (try_ioctl S fuel r fd arg w)
  try_ioctl-flowing fuel r fd arg w enough =
      Sat-bind {Q = λ _ _. Unit {0}} (xioctl S fuel r fd arg) _ w
        (Sat-weaken {Y = never} _ (xioctl-ends fuel r fd arg w (enough w.sys)) (λ _ _ _. tt)
          (λ _ _ _. tt) (λ _ _. tt) (λ _ h. h))
        (elim [ none ↦ λ _ _. record { at = tt } | some p ↦ λ _ _. record { at = tt } ])
