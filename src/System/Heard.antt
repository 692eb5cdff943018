-- ===== src/System/Heard.antt =====
-- The subscriber's end at any moment of its loop.
use pub_sub_v4l2_dmabuf_wayl.Base.{
  ℕ, zero, suc, ◌+◌, ◌*◌, ◌≤◌, ◌≡◌, refl, ap, ◌∙◌, subst, List, [], ◌∷◌, ◌++◌, some, arith, length,
  length-append, take, get_elem?,
}
use pub_sub_v4l2_dmabuf_wayl.Platform.{Event, received, imported}
use pub_sub_v4l2_dmabuf_wayl.Wire.{Endian, u32_at}
use pub_sub_v4l2_dmabuf_wayl.Subscriber.Protocol.{
  Stage, waiting, chosen, viewing, released, ended, View, begin, choose, import_image, destroy, ack,
  hang_up, lose, refuse, ack_failed,
}
use pub_sub_v4l2_dmabuf_wayl.System.Streams.{
  stream_out, stream_in, stream_out-sent, stream_in-received, event_tail, began,
}

received_bytes : List Event → List ℕ
received_bytes (received s bytes ∷ u) = bytes
received_bytes _ = []

module _ (c : ℕ) (fds : List ℕ) (e : Endian) (t : List Event) where
  -- So many indices have come in, and at most so many acks have gone out.
  pub record Counted (indices acks : ℕ) (u : List Event) : Type 0 where
    pub come : length (stream_in c u) ≡ length (stream_in c t) + 4 * indices
    pub gone : length (stream_out c u) ≤ length (stream_out c t) + acks

  -- The last four bytes that have come in are an index.
  pub record LastIndex (i : ℕ) (u : List Event) : Type 0 where
    pub before : List ℕ
    pub last : List ℕ
    pub at : stream_in c u ≡ before ++ last
    pub four : length last ≡ 4
    pub is : u32_at e last 0 ≡ i

  abbrev pub Known : Stage → List Event → Type 0
  Known waiting u = (k : ℕ) × Counted k k u
  Known (chosen i) u = ((k : ℕ) × Counted (k + 1) k u) × LastIndex i u
  Known (viewing i img) u = ((k : ℕ) × Counted (k + 1) k u) × LastIndex i u
  Known released u = (k : ℕ) × Counted (k + 1) k u
  Known ended u = Unit {0}

  length-ack : (n : ℕ) → length {A = ℕ} (take n (1 ∷ [])) ≤ 1
  length-ack zero = omega arith
  length-ack (suc zero) = omega arith
  length-ack (suc (suc n)) = omega arith

  pub View-Known : {q : Stage} {u : List Event} → View (some c) fds e t q u → Known q u
  View-Known begin = (0, record { come = omega arith; gone = omega arith })
  View-Known (choose {u} bytes four v) =
      let (k, known) = View-Known v in
      (
        (
          k,
          record {
            come = omega (
              arith,
              ap length (stream_in-received c bytes u),
              length-append (stream_in c u) bytes,
              four,
              known.come,
            );
            gone = known.gone;
          },
        ),
        record {
          before = stream_in c u;
          last = bytes;
          at = stream_in-received c bytes u;
          four = four;
          is = refl;
        },
      )
  View-Known (import_image i fd img g v) =
      let ((k, known), l) = View-Known v in
      (
        (k, record { come = known.come; gone = known.gone }),
        record { before = l.before; last = l.last; at = l.at; four = l.four; is = l.is },
      )
  View-Known (destroy i img v) =
      let ((k, known), l) = View-Known v in (k, record { come = known.come; gone = known.gone })
  View-Known (ack {u} n v) =
      let (k, known) = View-Known v in
      (
        k + 1,
        record {
          come = known.come;
          gone = omega (
            arith,
            ap length (stream_out-sent c (take n (1 ∷ [])) [] u),
            length-append (stream_out c u) (take n (1 ∷ [])),
            length-ack n,
            known.gone,
          );
        },
      )
  View-Known (hang_up bytes b v) = tt
  View-Known (lose v) = tt
  View-Known (refuse i v) = tt
  View-Known (ack_failed v) = tt

  stepped :
      {q : Stage} {x : Event} {u : List Event}
      → View (some c) fds e t q (x ∷ u)
      → ((later now : List Event)
          → u ≡ later ++ now
          → length t ≤ length now
          → (r : Stage) × View (some c) fds e t r now)
      → (later now : List Event) → x ∷ u ≡ later ++ now
      → length t ≤ length now
      → (r : Stage) × View (some c) fds e t r now
  stepped {q} v rec [] now p m = (q, subst (View (some c) fds e t q) p v)
  stepped v rec (y ∷ later) now p m = rec later now (ap event_tail p) m

  -- At each moment since the loop began, the subscriber was in some stage.
  pub View-before :
      {q : Stage} {u : List Event}
      → View (some c) fds e t q u
      → (later now : List Event) → u ≡ later ++ now
      → length t ≤ length now
      → (r : Stage) × View (some c) fds e t r now
  View-before begin later now p l =
      (waiting, subst (View (some c) fds e t waiting) (began later now p l) begin)
  View-before (choose bytes four v) later now p m =
      stepped (choose bytes four v) (λ a b c d. View-before v a b c d) later now p m
  View-before (import_image i fd img g v) later now p m =
      stepped (import_image i fd img g v) (λ a b c d. View-before v a b c d) later now p m
  View-before (destroy i img v) later now p m =
      stepped (destroy i img v) (λ a b c d. View-before v a b c d) later now p m
  View-before (ack n v) later now p m =
      stepped (ack n v) (λ a b c d. View-before v a b c d) later now p m
  View-before (hang_up bytes b v) later now p m =
      stepped (hang_up bytes b v) (λ a b c d. View-before v a b c d) later now p m
  View-before (lose v) later now p m = View-before v later now p m
  View-before (refuse i v) later now p m = View-before v later now p m
  View-before (ack_failed v) later now p m = View-before v later now p m

  -- The stage right after an image has been made.
  pub View-imported :
      {q : Stage} {u : List Event} (img fd : ℕ) (b : List Event)
      → View (some c) fds e t q u
      → u ≡ imported img fd ∷ b
      → length t ≤ length b
      → (i : ℕ) × (q ≡ viewing i img) × (get_elem? fds i ≡ some fd)
  View-imported img fd b begin p l = absurd (omega (arith, l, ap length p))
  View-imported img fd b (choose bytes four v) p l = cc
  View-imported img fd b (import_image i fd' img' g v) p l = (i, cc, cc)
  View-imported img fd b (destroy i img' v) p l = cc
  View-imported img fd b (ack n v) p l = cc
  View-imported img fd b (hang_up bytes x v) p l = cc
  View-imported img fd b (lose v) p l =
      let (i\', s, g) = View-imported img fd b v p l in absurd (cc s)
  View-imported img fd b (refuse i v) p l =
      let (i\', s, g) = View-imported img fd b v p l in absurd (cc s)
  View-imported img fd b (ack_failed v) p l =
      let (i\', s, g) = View-imported img fd b v p l in absurd (cc s)

  -- Right after an index has come in, it is the one that is chosen.
  pub View-received :
      {q : Stage} {u : List Event} (bytes : List ℕ) (b : List Event)
      → View (some c) fds e t q u
      → u ≡ received (some c) bytes ∷ b
      → length bytes ≡ 4
      → length t ≤ length b
      → View (some c) fds e t (chosen (u32_at e bytes 0)) u
  unfolding received_bytes
  View-received bytes b begin p four l = absurd (omega (arith, l, ap length p))
  View-received bytes b (choose {u} bytes' four' v) p four l =
      subst (λ x. View (some c) fds e t (chosen (u32_at e x 0)) (received (some c) bytes' ∷ u))
        (ap received_bytes p) (choose bytes' four' v)
  View-received bytes b (import_image i fd img g v) p four l = cc
  View-received bytes b (destroy i img v) p four l = cc
  View-received bytes b (ack n v) p four l = cc
  View-received bytes b (hang_up bytes' x v) p four l =
      absurd (x (ap length (ap received_bytes p) ∙ four))
  View-received bytes b (lose v) p four l = View-received bytes b v p four l
  View-received bytes b (refuse i v) p four l = View-received bytes b v p four l
  View-received bytes b (ack_failed v) p four l = View-received bytes b v p four l
