-- ===== src/Effect.antt =====
-- How a computation of the program ends, and the sequencing of such computations. Rust's
-- `io::Result` with `?` is the outcome `fail`; an index out of range or an `unwrap` of a `None` is
-- `panic`; a loop whose fuel has run out is `spin`, with the state that it has reached.
pub mod Triple
pub mod Scopes
use pub_sub_v4l2_dmabuf_wayl.Base.{ℕ, List, Option, none, some}

-- The kinds of error that the code makes; texts of messages are left out.
pub data IoError : Type 0 where
  -- `io::Error::last_os_error()` and nix's `Errno`, by number
  os : ℕ → IoError
  other unsupported timed_out unexpected_eof : IoError

pub data Run (W : Type 0) (A : Type 0) : Type 0 where
  ret : A → W → Run W A
  fail : IoError → W → Run W A
  panic : W → Run W A
  spin : W → Run W A

-- A computation over the state `W`.
abbrev pub M : Type 0 → Type 0 → Type 0
M W A = W → Run W A

-- `Result<A, io::Error>` as a value, where the code looks at it.
pub data Result (A : Type 0) : Type 0 where
  ok : A → Result A
  err : IoError → Result A

module _ {W : Type 0} where
  abbrev pub pure : {A : Type 0} → A → M W A
  pure a w = ret a w

  abbrev pub throw : {A : Type 0} → IoError → M W A
  throw e w = fail e w

  abbrev pub panics : {A : Type 0} → M W A
  panics w = panic w

  infixl 5 ◌>>=◌ ◌>>◌
  abbrev pub ◌>>=◌ : {A B : Type 0} → M W A → (A → M W B) → M W B
  ◌>>=◌ m f w = elim (m w) [
    | ret a w' ↦ f a w'
    | fail e w' ↦ fail e w'
    | panic w' ↦ panic w'
    | spin w' ↦ spin w'
  ]

  abbrev pub ◌>>◌ : {B : Type 0} → M W (Unit {0}) → M W B → M W B
  m >> k = m >>= λ _. k

  -- `match f() { Ok(a) => …, Err(e) => … }`: the error as a value.
  abbrev pub attempt : {A : Type 0} → M W A → M W (Result A)
  attempt m w = elim (m w) [
    | ret a w' ↦ ret (ok a) w'
    | fail e w' ↦ ret (err e) w'
    | panic w' ↦ panic w'
    | spin w' ↦ spin w'
  ]

  -- `let _ = f();`
  abbrev pub ignore : {A : Type 0} → M W A → M W (Unit {0})
  ignore m w = elim (m w) [
    | ret a w' ↦ ret tt w'
    | fail e w' ↦ ret tt w'
    | panic w' ↦ panic w'
    | spin w' ↦ spin w'
  ]

  abbrev pub state : {A : Type 0} → (W → A) → M W A
  state f w = ret (f w) w

  abbrev pub modify : (W → W) → M W (Unit {0})
  modify f w = ret tt (f w)

-- How a scope ends: by the outcome `k`, after its drop has run.
abbrev pub leave : {W L A : Type 0} → (W → Run W A) → Run (L × W) (Unit {0}) → Run W A
leave k (ret u (l, w)) = k w
leave k (fail e (l, w)) = k w
leave k (panic (l, w)) = panic w
leave k (spin (l, w)) = spin w

-- `drop` runs when its owner goes out of scope: also on an early return and when a panic unwinds.
-- Here the owner's state `L` stands beside the rest, so that a drop sees what `m` made of it.
abbrev pub scoped : {W L A : Type 0} → L → M (L × W) (Unit {0}) → M (L × W) A → M W A
scoped {W} {L} {A} l drop m w = elim (m (l, w)) [
  | ret a s ↦ leave (λ w'. ret a w') (drop s)
  | fail e s ↦ leave (λ w'. fail e w') (drop s)
  | panic s ↦ leave (λ w'. panic w') (drop s)
  | spin (l', w') ↦ spin w'
]

-- A computation that does not touch the object beside the state.
abbrev pub lift : {W L A : Type 0} → M W A → M (L × W) A
lift m (l, w) = elim (m w) [
  | ret a w' ↦ ret a (l, w')
  | fail e w' ↦ fail e (l, w')
  | panic w' ↦ panic (l, w')
  | spin w' ↦ spin (l, w')
]

-- A drop that runs only if `m` fails or panics: what it owns has moved on if `m` returns.
abbrev pub guarded : {W A : Type 0} → M W (Unit {0}) → M W A → M W A
guarded {W} {A} drop m w = elim (m w) [
  | ret a w' ↦ ret a w'
  | fail e w' ↦ (drop >> throw e) w'
  | panic w' ↦ (drop >> panics) w'
  | spin w' ↦ spin w'
]

-- A drop that runs however `m` ends: that of a local that is never moved.
abbrev pub finally : {W A : Type 0} → M W (Unit {0}) → M W A → M W A
finally {W} {A} drop m w = elim (m w) [
  | ret a w' ↦ (drop >> pure a) w'
  | fail e w' ↦ (drop >> throw e) w'
  | panic w' ↦ (drop >> panics) w'
  | spin w' ↦ spin w'
]

-- A computation that makes the object it works on, and gives it back if it returns.
abbrev pub starting : {W L A : Type 0} → L → M (L × W) A → M W (L × A)
starting l m w = elim (m (l, w)) [
  | ret a (l', w') ↦ ret (l', a) w'
  | fail e (l', w') ↦ fail e w'
  | panic (l', w') ↦ panic w'
  | spin (l', w') ↦ spin w'
]
