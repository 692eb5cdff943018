-- ===== src/System/Sharing.antt =====
-- No buffer is with the driver while the subscriber has an image of it.
use pub_sub_v4l2_dmabuf_wayl.Base.{
  ℕ, zero, suc, ◌+◌, ◌^◌, ◌≤◌, ◌<◌, ◌≡◌, refl, ap, sym, ◌∙◌, ◌⊎◌, inl, inr, subst, List, [], ◌∷◌,
  arith, length, length-append, take,
}
use pub_sub_v4l2_dmabuf_wayl.Platform.{RawFd, Event}
use pub_sub_v4l2_dmabuf_wayl.Wire.{Endian, to_ne_bytes, u32_at}
use pub_sub_v4l2_dmabuf_wayl.Wire.RoundTrip.{u32_at-to_ne_bytes, length-to_ne_bytes}
use pub_sub_v4l2_dmabuf_wayl.Publisher.Protocol.{Phase, idle, holding, told, acked, broken, done}
use pub_sub_v4l2_dmabuf_wayl.System.Streams.{
  stream_out, stream_in, IsPrefix, length-IsPrefix, IsPrefix-whole, append-same,
}
use pub_sub_v4l2_dmabuf_wayl.System.Told.{Part, Last, Spoken}
use pub_sub_v4l2_dmabuf_wayl.System.Heard.{Counted, LastIndex}

-- The publisher has told of a buffer and not had an ack of it, or its exchange has failed, or it has
-- been given back after that.
abbrev pub IsOut : Phase → ℕ → Type 0
IsOut p j = (p ≡ told j) ⊎ ((p ≡ broken j) ⊎ (p ≡ done))

take-whole : (m : ℕ) (xs : List ℕ) → length xs ≤ length (take m xs) → take m xs ≡ xs
take-whole zero [] h = refl
take-whole zero (x ∷ xs) h = absurd (omega (arith, h))
take-whole (suc m) [] h = refl
take-whole (suc m) (x ∷ xs) h = ap (λ ys. x ∷ ys) (take-whole m xs (omega (arith, h)))

length-take : (m : ℕ) (xs : List ℕ) → length (take m xs) ≤ length xs
length-take zero xs = omega arith
length-take (suc m) [] = omega arith
length-take (suc m) (x ∷ xs) = omega (arith, length-take m xs)

module _ (dev : RawFd) (c : ℕ) (e : Endian) (n : ℕ) (t : List Event) where
  -- The index whose bytes went out last.
  abbrev IsLast : Phase → List ℕ → Type 0
  IsLast p last = (j : ℕ) × (j < n) × (last ≡ to_ne_bytes e j) × IsOut p j

  four_bytes_over :
      (p : Phase) (i : ℕ) (last : List ℕ)
      → IsOut p i
      → Part dev c e n t i last
      → 4 ≤ length last
      → IsLast p last
  four_bytes_over p i last over (b, (m, q)) four = (
    i,
    b,
    q ∙ take-whole m (to_ne_bytes e i) (omega (arith, four, ap length q, length-to_ne_bytes e i)),
    over,
  )

  index_told :
      (p : Phase) (last : List ℕ) → Last dev c e n t p last → 4 ≤ length last → IsLast p last
  index_told idle last l four = absurd (omega (arith, four, ap length l))
  index_told (holding i) last l four = absurd (omega (arith, four, ap length l))
  index_told (told i) last (b, q) four = (i, b, q, inl refl)
  index_told (acked i) last l four = absurd (omega (arith, four, ap length l))
  index_told (broken i) last (inl q) four = absurd (omega (arith, four, ap length q))
  index_told (broken i) last (inr part) four =
      four_bytes_over (broken i) i last (inr (inl refl)) part four
  index_told done last (inl q) four = absurd (omega (arith, four, ap length q))
  index_told done last (inr (i, part)) four = four_bytes_over done i last (inr (inr refl)) part four

-- The two ends of a socket: `c` is its descriptor in the publisher, `s` in the subscriber. The
-- publisher began at the trace `t` and is at `a`, the subscriber began at `t'` and is at `b`.
pub record Joined (c s : ℕ) (t a t' b : List Event) : Type 0 where
  -- The loops began when each end had received what the other had sent.
  pub began_out : length (stream_in s t') ≡ length (stream_out c t)
  pub began_in : length (stream_in c t) ≡ length (stream_out s t')
  -- Since then each end has received a prefix of what the other has sent.
  pub indices : IsPrefix (stream_in s b) (stream_out c a)
  pub acks : IsPrefix (stream_in c a) (stream_out s b)

module _ (dev : RawFd) (c s : ℕ) (fds : List ℕ) (e : Endian) (n : ℕ) (small : n ≤ 2 ^ 32)
    (t a t' b : List Event) (joined : Joined c s t a t' b) where
  -- The buffer whose index came in last is the one that the publisher told of last, and there has
  -- been no ack of it.
  pub same_buffer :
      (p : Phase) (i : ℕ)
      → Spoken dev c e n t p a
      → ((k : ℕ) × Counted s fds e t' (k + 1) k b)
      → LastIndex s fds e t' i b
      → (i < n) × IsOut p i
  same_buffer p i out (k, known) index =
      let four : 4 ≤ length out.last = omega (
        arith,
        known.come,
        known.gone,
        out.whole,
        out.acks,
        joined.began_out,
        joined.began_in,
        length-IsPrefix joined.indices,
        length-IsPrefix joined.acks,
        ap length out.out,
        length-append out.before out.last,
      ) in
      let (j, less, is, phase) = index_told dev c e n t p out.last out.is four in
      let equal : stream_in s b ≡ stream_out c a = IsPrefix-whole joined.indices (
        omega (
          arith,
          known.come,
          known.gone,
          out.whole,
          out.acks,
          joined.began_out,
          joined.began_in,
          length-IsPrefix joined.acks,
          ap length out.out,
          length-append out.before out.last,
          ap length is,
          length-to_ne_bytes e j,
        )) in
      let last : index.last ≡ out.last =
        append-same index.before out.before (sym index.at ∙ equal ∙ out.out) (
          omega (
            arith,
            ap length (sym index.at ∙ equal ∙ out.out),
            length-append index.before index.last,
            length-append out.before out.last,
            index.four,
            ap length is,
            length-to_ne_bytes e j,
          )) in
      let same : j ≡ i =
        sym (u32_at-to_ne_bytes e j (omega (arith, less, small)))
        ∙ ap (λ x. u32_at e x 0) (sym (last ∙ is))
        ∙ index.is in
      (subst (λ x. x < n) same less, subst (IsOut p) same phase)
