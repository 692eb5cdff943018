-- ===== src/V4l2/Capture/Start.antt =====
-- rust/common/src/v4l2.rs, `V4l2Capture::start`: the state that it leaves.
use pub_sub_v4l2_dmabuf_wayl.Base.{
  ℕ, ◌+◌, ◌≤◌, ◌≡◌, true, List, [], ◌∷◌, ltb, if◌then◌else◌, length,
}
use pub_sub_v4l2_dmabuf_wayl.Effect.Triple.{Exits}
use pub_sub_v4l2_dmabuf_wayl.Platform.{Platform, World, Event}
use pub_sub_v4l2_dmabuf_wayl.Platform.Buffers.{gives}
use pub_sub_v4l2_dmabuf_wayl.V4l2.Capture.{Capture, BufInfo}

-- The buffers' indices count up from a number.
abbrev pub Numbered : ℕ → List BufInfo → Type 0
Numbered i [] = Unit
Numbered i (b ∷ bs) = (b.index ≡ i) × Numbered (i + 1) bs

-- A computation that never panics; of a failure nothing is asked.
abbrev pub anyhow : {W : Type 0} → Exits W
anyhow = record { failing = λ _ _. Unit; panicking = λ _. ⊥; spinning = λ _. Unit }

-- The first `n` buffers are there in order, and the driver has got each of them once.
pub record Prepared (S : Platform) (t : List Event) (n : ℕ) (s : Capture × World S) : Type 0 where
  pub counted : length s.0.buffers ≡ n
  pub numbered : Numbered 0 s.0.buffers
  pub queued_once : (j : ℕ) → gives j s.1.trace ≡ (if ltb j n then 1 else 0) + gives j t

module _ (S : Platform) (fuel : ℕ) where
  Unchanged : List Event → World S → Type 0
  Unchanged t w = (j : ℕ) → gives j w.trace ≡ gives j t

  -- Streaming, over the buffers that the driver granted.
  abbrev pub Started : List Event → Capture × World S → Type 0
  Started t s = (s.0.streaming ≡ true) × (n : ℕ) × (2 ≤ n) × Prepared S t n s
