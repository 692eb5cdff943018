-- ===== src/Publisher/Balance.antt =====
-- rust/publisher/src/main.rs, the loop: how often it has taken each buffer and given it back.
use pub_sub_v4l2_dmabuf_wayl.Base.{ℕ, ◌+◌, ◌≤◌, ◌<◌, ◌≡◌, refl, length, List, arith}
use pub_sub_v4l2_dmabuf_wayl.Effect.Triple.{Exits, Sat, Sat-weaken}
use pub_sub_v4l2_dmabuf_wayl.Platform.{Platform, World, RawFd, Event}
use pub_sub_v4l2_dmabuf_wayl.Platform.Buffers.{takes, gives}
use pub_sub_v4l2_dmabuf_wayl.V4l2.Capture.{Capture}
use pub_sub_v4l2_dmabuf_wayl.Wire.{Endian}
use pub_sub_v4l2_dmabuf_wayl.Publisher.{Device, serve}
use pub_sub_v4l2_dmabuf_wayl.Publisher.Protocol.{
  Phase, idle, holding, told, acked, broken, done, Log, begin, has, Log-balance,
}
use pub_sub_v4l2_dmabuf_wayl.Publisher.Exchange.{IsTraced}
use pub_sub_v4l2_dmabuf_wayl.Publisher.Frames.{ending, serve-Log}

-- From one trace to a later one, a buffer goes back as often as it was taken, but for one at most,
-- which has been taken once more.
pub record Balanced (t u : List Event) : Type 0 where
  pub given : (j : ℕ) → takes j t + gives j u ≤ takes j u + gives j t
  pub once : (j : ℕ) → takes j u + gives j t ≤ takes j t + gives j u + 1
  pub single :
      (i j : ℕ)
      → takes i t + gives i u < takes i u + gives i t
      → takes j t + gives j u < takes j u + gives j t
      → i ≡ j

has-le_one : (p : Phase) (j : ℕ) → has j p ≤ 1
has-le_one idle j = omega arith
has-le_one (holding i) j = ground arith
has-le_one (told i) j = ground arith
has-le_one (acked i) j = ground arith
has-le_one (broken i) j = ground arith
has-le_one done j = omega arith

has-single : (p : Phase) (i j : ℕ) → 0 < has i p → 0 < has j p → i ≡ j
has-single idle i j a b = absurd (omega (arith, a))
has-single (holding k) i j a b = grind (arith, a, b)
has-single (told k) i j a b = grind (arith, a, b)
has-single (acked k) i j a b = grind (arith, a, b)
has-single (broken k) i j a b = grind (arith, a, b)
has-single done i j a b = absurd (omega (arith, a))

Log-Balanced :
    {dev client : RawFd} {e : Endian} {n : ℕ} {t u : List Event} {p : Phase}
    → Log dev client e n t p u
    → Balanced t u
Log-Balanced {p} l = record {
  given = λ j. omega (arith, Log-balance j l);
  once = λ j. omega (arith, Log-balance j l, has-le_one p j);
  single = λ i j a b.
      has-single p i j (omega (arith, a, Log-balance i l)) (omega (arith, b, Log-balance j l));
}

module _ (S : Platform) (d : Device S) (o : IsTraced S d) (dev : RawFd) (client : ℕ) where
  -- However the loop is left.
  abbrev pub balancing : List Event → Exits (Capture × World S)
  balancing t = record {
    failing = λ _ _. ⊥;
    panicking = λ s. Balanced t s.1.trace;
    spinning = λ s. Balanced t s.1.trace;
  }

  -- However the loop ends, and after each number of rounds, no buffer has been given back to the
  -- driver that the loop had not taken, and at most one that it took has not been given back. The
  -- loop never ends with an error. The capture must satisfy `IsTraced`, as both types of it do.
  pub serve-Balanced :
      (rounds : ℕ) (c : Capture) (w : World S)
      → c.fd ≡ dev
      → Sat (λ _ s. Balanced w.trace s.1.trace) (balancing w.trace) (serve S d client rounds (c, w))
  serve-Balanced rounds c w f =
      Sat-weaken {Y = ending S d o dev client (length c.buffers) w.trace}
        (serve S d client rounds (c, w))
        (serve-Log S d o dev client (length c.buffers) w.trace rounds c w (f, refl) begin)
        (λ _ s k. Log-Balanced k.1) (λ _ _ k. k) (λ s k. Log-Balanced k.1) (λ s k. Log-Balanced k.1)
