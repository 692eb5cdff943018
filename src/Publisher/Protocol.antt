-- ===== src/Publisher/Protocol.antt =====
-- The publisher's side of the protocol as a state machine over the trace: DQBUF, the index sent,
-- the ack received, QBUF. Abstract; it says nothing of how the loop is written.
use pub_sub_v4l2_dmabuf_wayl.Base.{
  ℕ, ◌+◌, ◌<◌, ◌≡◌, ◌≢◌, List, [], ◌∷◌, take, arith, ◌==◌, if◌then◌else◌,
}
use pub_sub_v4l2_dmabuf_wayl.Platform.{RawFd, Event, queued, dequeued, sent, received}
use pub_sub_v4l2_dmabuf_wayl.Platform.Buffers.{takes, gives}
use pub_sub_v4l2_dmabuf_wayl.Wire.{Endian, to_ne_bytes}

-- Where the publisher stands: with no frame under way; with a buffer that it has dequeued, told the
-- subscriber of, or had acked; with a buffer whose exchange has failed; or done after such.
pub data Phase : Type 0 where
  idle : Phase
  holding told acked broken : ℕ → Phase
  done : Phase

-- The events since the trace `t`, up to each phase. `dev` is the capture device,
-- and `n` the number of its buffers.
pub data Log (dev client : RawFd) (e : Endian) (n : ℕ) (t : List Event)
    : Phase → List Event → Type 0 where
  begin : Log dev client e n t idle t
  take_frame :
      {u : List Event} (i : ℕ)
      → Log dev client e n t idle u
      → Log dev client e n t (holding i) (dequeued dev i ∷ u)
  tell :
      {u : List Event} (i : ℕ)
      → i < n
      → Log dev client e n t (holding i) u
      → Log dev client e n t (told i) (sent client (to_ne_bytes e i) [] ∷ u)
  hear :
      {u : List Event} (i : ℕ) (bytes : List ℕ)
      → bytes ≢ []
      → Log dev client e n t (told i) u
      → Log dev client e n t (acked i) (received client bytes ∷ u)
  give :
      {u : List Event} (i : ℕ)
      → Log dev client e n t (acked i) u
      → Log dev client e n t idle (queued dev i ∷ u)
  tell_failed :
      {u : List Event} (i : ℕ)
      → Log dev client e n t (holding i) u
      → Log dev client e n t (broken i) u
  tell_short :
      {u : List Event} (i m : ℕ)
      → i < n
      → Log dev client e n t (holding i) u
      → Log dev client e n t (broken i) (sent client (take m (to_ne_bytes e i)) [] ∷ u)
  hear_failed :
      {u : List Event} (i : ℕ) → Log dev client e n t (told i) u → Log dev client e n t (broken i) u
  hung_up :
      {u : List Event} (i : ℕ)
      → Log dev client e n t (told i) u
      → Log dev client e n t (broken i) (received client [] ∷ u)
  give_back :
      {u : List Event} (i : ℕ)
      → Log dev client e n t (broken i) u
      → Log dev client e n t done (queued dev i ∷ u)

-- Whether the publisher has the buffer in a phase.
abbrev pub has : ℕ → Phase → ℕ
has j idle = 0
has j (holding i) = if i == j then 1 else 0
has j (told i) = if i == j then 1 else 0
has j (acked i) = if i == j then 1 else 0
has j (broken i) = if i == j then 1 else 0
has j done = 0

-- Every buffer goes back as often as it was taken, but for the one that a frame is about.
pub Log-balance :
    {dev client : RawFd} {e : Endian} {n : ℕ} {t u : List Event} {p : Phase} (j : ℕ)
    → Log dev client e n t p u
    → takes j u + gives j t ≡ takes j t + gives j u + has j p
Log-balance j begin = omega arith
Log-balance j (take_frame i l) = omega (arith, Log-balance j l)
Log-balance j (tell i b l) = omega (arith, Log-balance j l)
Log-balance j (hear i bytes b l) = omega (arith, Log-balance j l)
Log-balance j (give i l) = omega (arith, Log-balance j l)
Log-balance j (tell_failed i l) = omega (arith, Log-balance j l)
Log-balance j (tell_short i m b l) = omega (arith, Log-balance j l)
Log-balance j (hear_failed i l) = omega (arith, Log-balance j l)
Log-balance j (hung_up i l) = omega (arith, Log-balance j l)
Log-balance j (give_back i l) = omega (arith, Log-balance j l)
