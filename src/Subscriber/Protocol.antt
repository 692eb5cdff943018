-- ===== src/Subscriber/Protocol.antt =====
-- The subscriber's side of the protocol as a state machine over the trace: the index received, the
-- image made and destroyed, the ack sent. Abstract; it says nothing of how the loop is written.
use pub_sub_v4l2_dmabuf_wayl.Base.{
  ℕ, ◌+◌, ◌≡◌, ◌≢◌, List, [], ◌∷◌, arith, ◌==◌, if◌then◌else◌, length, take, get_elem?, some,
}
use pub_sub_v4l2_dmabuf_wayl.Platform.{RawFd, Event, sent, received, imported, destroyed}
use pub_sub_v4l2_dmabuf_wayl.Wire.{Endian, u32_at}

-- Where the subscriber stands: waiting for an index; with the buffer of an index; with that
-- and an image of it; with the image destroyed and the ack due; or at the end.
pub data Stage : Type 0 where
  waiting : Stage
  chosen : ℕ → Stage
  viewing : ℕ → ℕ → Stage
  released ended : Stage

-- The events since the trace `t`, up to each stage. `fds` are the session's buffers.
pub data View (sock : RawFd) (fds : List ℕ) (e : Endian) (t : List Event)
    : Stage → List Event → Type 0 where
  begin : View sock fds e t waiting t
  choose :
      {u : List Event} (bytes : List ℕ)
      → length bytes ≡ 4
      → View sock fds e t waiting u
      → View sock fds e t (chosen (u32_at e bytes 0)) (received sock bytes ∷ u)
  import_image :
      {u : List Event} (i fd img : ℕ)
      → get_elem? fds i ≡ some fd
      → View sock fds e t (chosen i) u
      → View sock fds e t (viewing i img) (imported img fd ∷ u)
  destroy :
      {u : List Event} (i img : ℕ)
      → View sock fds e t (viewing i img) u
      → View sock fds e t released (destroyed img ∷ u)
  ack :
      {u : List Event} (n : ℕ)
      → View sock fds e t released u
      → View sock fds e t waiting (sent sock (take n (1 ∷ [])) [] ∷ u)
  hang_up :
      {u : List Event} (bytes : List ℕ)
      → length bytes ≢ 4
      → View sock fds e t waiting u
      → View sock fds e t ended (received sock bytes ∷ u)
  lose : {u : List Event} → View sock fds e t waiting u → View sock fds e t ended u
  refuse : {u : List Event} (i : ℕ) → View sock fds e t (chosen i) u → View sock fds e t ended u
  ack_failed : {u : List Event} → View sock fds e t released u → View sock fds e t ended u

-- How often an image has been made, and destroyed.
abbrev pub made : ℕ → List Event → ℕ
made j [] = 0
made j (imported img fd ∷ t) = (if img == j then 1 else 0) + made j t
made j (_ ∷ t) = made j t

abbrev pub unmade : ℕ → List Event → ℕ
unmade j [] = 0
unmade j (destroyed img ∷ t) = (if img == j then 1 else 0) + unmade j t
unmade j (_ ∷ t) = unmade j t

-- Whether the image is there in a stage.
abbrev pub alive : ℕ → Stage → ℕ
alive j waiting = 0
alive j (chosen i) = 0
alive j (viewing i img) = if img == j then 1 else 0
alive j released = 0
alive j ended = 0

-- An image is there only while its buffer is viewed.
pub View-alive :
    {sock : RawFd} {fds : List ℕ} {e : Endian} {t u : List Event} {p : Stage} (j : ℕ)
    → View sock fds e t p u
    → made j u + unmade j t ≡ made j t + unmade j u + alive j p
View-alive j begin = omega arith
View-alive j (choose bytes l v) = omega (arith, View-alive j v)
View-alive j (import_image i fd img g v) = omega (arith, View-alive j v)
View-alive j (destroy i img v) = omega (arith, View-alive j v)
View-alive j (ack n v) = omega (arith, View-alive j v)
View-alive j (hang_up bytes b v) = omega (arith, View-alive j v)
View-alive j (lose v) = omega (arith, View-alive j v)
View-alive j (refuse i v) = omega (arith, View-alive j v)
View-alive j (ack_failed v) = omega (arith, View-alive j v)
