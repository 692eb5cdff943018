-- ===== src/V4l2/Ioctl.antt =====
-- rust/common/src/v4l2.rs: `xioctl`, and the ways in which its result is used.
pub mod Ownership
pub mod Trace
pub mod Termination
pub mod Quiet
pub mod Steady
use pub_sub_v4l2_dmabuf_wayl.Base.{
  ℕ, zero, suc, List, [], ◌∷◌, Bool, false, ◌||◌, Option, none, ◌==◌, if◌then◌else◌,
}
use pub_sub_v4l2_dmabuf_wayl.Effect.{ret, spin, M, pure, panics, ◌>>=◌}
use pub_sub_v4l2_dmabuf_wayl.Platform.{
  Platform, Io, RawFd, Request, Payload, note_ioctl, syscall, checked,
}

module _ (S : Platform) where
  -- The loop around `ioctl`: an interrupted call is made again. The fuel bounds the calls.
  unfoldable pub xioctl : ℕ → (r : Request) → RawFd → Payload r → Io S (Option (Payload r))
  xioctl zero r fd arg w = spin w
  xioctl (suc fuel) r fd arg w = elim (syscall S (S.ioctl r fd arg) (note_ioctl r fd arg) w) [
    | ret none w' ↦
        let again = xioctl fuel r fd arg w' in if w'.errno == S.eintr then again else ret none w'
    | out ↦ out
  ]

  -- `if xioctl(…) < 0 { return Err(io::Error::last_os_error()); }`
  abbrev pub try_ioctl : ℕ → (r : Request) → RawFd → Payload r → Io S (Payload r)
  try_ioctl fuel r fd arg = do p ← xioctl fuel r fd arg; checked S p

abbrev pub contains_nul : List ℕ → Bool
contains_nul [] = false
contains_nul (c ∷ cs) = c == 0 || contains_nul cs

-- `CString::new(path).unwrap()`
unfoldable pub cstring : {W : Type 0} → List ℕ → M W (List ℕ)
cstring path = if contains_nul path then panics else pure path
