-- ===== src/System/Told.antt =====
-- The publisher's end at any moment of its loop.
use pub_sub_v4l2_dmabuf_wayl.Base.{
  ℕ, ◌+◌, ◌*◌, ◌≤◌, ◌<◌, ◌≡◌, refl, ap, sym, ◌∙◌, ◌⊎◌, inl, inr, subst, List, [], ◌∷◌, ◌++◌, some,
  arith, length, length-append, take,
}
use pub_sub_v4l2_dmabuf_wayl.Platform.{RawFd, Event, sent}
use pub_sub_v4l2_dmabuf_wayl.Wire.{Endian, to_ne_bytes}
use pub_sub_v4l2_dmabuf_wayl.Wire.RoundTrip.{take-to_ne_bytes, length-to_ne_bytes}
use pub_sub_v4l2_dmabuf_wayl.Publisher.Protocol.{
  Phase, idle, holding, told, acked, broken, done, Log, begin, take_frame, tell, hear, give,
  tell_failed, tell_short, hear_failed, hung_up, give_back,
}
use pub_sub_v4l2_dmabuf_wayl.System.Streams.{
  stream_out, stream_in, stream_out-sent, stream_in-received, append-nil, event_tail, began,
}

module _ (dev : RawFd) (c : ℕ) (e : Endian) (n : ℕ) (t : List Event) where
  -- The bytes of the last index: whole, none, or cut short where the exchange has failed.
  abbrev pub Part : ℕ → List ℕ → Type 0
  Part i bytes = (i < n) × ((m : ℕ) × (bytes ≡ take m (to_ne_bytes e i)))

  abbrev pub Last : Phase → List ℕ → Type 0
  Last idle bytes = bytes ≡ []
  Last (holding i) bytes = bytes ≡ []
  Last (told i) bytes = (i < n) × (bytes ≡ to_ne_bytes e i)
  Last (acked i) bytes = bytes ≡ []
  Last (broken i) bytes = (bytes ≡ []) ⊎ Part i bytes
  Last done bytes = (bytes ≡ []) ⊎ ((i : ℕ) × Part i bytes)

  -- Four bytes have gone out for each ack that has come in, and then the last index.
  pub record Spoken (p : Phase) (u : List Event) : Type 0 where
    pub heard : ℕ
    pub before : List ℕ
    pub last : List ℕ
    pub out : stream_out c u ≡ before ++ last
    pub whole : length before ≡ length (stream_out c t) + 4 * heard
    pub acks : length (stream_in c t) + heard ≤ length (stream_in c u)
    pub is : Last p last

  nonempty : (bytes : List ℕ) → ¬ (bytes ≡ []) → 1 ≤ length bytes
  nonempty [] h = absurd (h refl)
  nonempty (b ∷ bytes) h = omega arith

  -- The next bytes, where none are pending.
  speak :
      {p : Phase} {u : List Event} (q : Phase) (bytes : List ℕ)
      → (s : Spoken p u) → s.last ≡ []
      → Last q bytes
      → Spoken q (sent (some c) bytes [] ∷ u)
  speak {p} {u} q bytes s none' l = record {
    heard = s.heard;
    before = s.before;
    last = bytes;
    out =
        stream_out-sent c bytes [] u
        ∙ ap (λ x. x ++ bytes) (s.out ∙ ap (λ x. s.before ++ x) none' ∙ append-nil s.before);
    whole = s.whole;
    acks = s.acks;
    is = l;
  }

  -- A step that sends and receives nothing.
  stay :
      {p : Phase} {u : List Event} (q : Phase) (v : List Event)
      → (s : Spoken p u) → stream_out c v ≡ stream_out c u
      → stream_in c v ≡ stream_in c u
      → Last q s.last
      → Spoken q v
  stay q v s o i l = record {
    heard = s.heard;
    before = s.before;
    last = s.last;
    out = o ∙ s.out;
    whole = s.whole;
    acks = omega (arith, s.acks, ap length i);
    is = l;
  }

  pub Log-Spoken : {p : Phase} {u : List Event} → Log dev (some c) e n t p u → Spoken p u
  Log-Spoken begin = record {
    heard = 0;
    before = stream_out c t;
    last = [];
    out = sym (append-nil (stream_out c t));
    whole = omega arith;
    acks = omega arith;
    is = refl;
  }
  Log-Spoken (take_frame i l) = let s = Log-Spoken l in stay (holding i) _ s refl refl s.is
  Log-Spoken (tell i b l) =
      let s = Log-Spoken l in speak (told i) (to_ne_bytes e i) s s.is (b, refl)
  Log-Spoken (hear {u} i bytes b l) =
      let s = Log-Spoken l in
      record {
        heard = s.heard + 1;
        before = s.before ++ s.last;
        last = [];
        out = s.out ∙ sym (append-nil (s.before ++ s.last));
        whole = omega (
          arith,
          s.whole,
          length-append s.before s.last,
          ap length (s.is.1),
          length-to_ne_bytes e i,
        );
        acks = omega (
          arith,
          s.acks,
          ap length (stream_in-received c bytes u),
          length-append (stream_in c u) bytes,
          nonempty bytes b,
        );
        is = refl;
      }
  Log-Spoken (give i l) = let s = Log-Spoken l in stay idle _ s refl refl s.is
  Log-Spoken (tell_failed i l) = let s = Log-Spoken l in stay (broken i) _ s refl refl (inl s.is)
  Log-Spoken (tell_short i m b l) =
      let s = Log-Spoken l in
      speak (broken i) (take m (to_ne_bytes e i)) s s.is (inr (b, (m, refl)))
  Log-Spoken (hear_failed i l) =
      let s = Log-Spoken l in
      stay (broken i) _ s refl refl (inr (s.is.0, (4, s.is.1 ∙ sym (take-to_ne_bytes e i))))
  Log-Spoken (hung_up {u} i l) =
      let s = Log-Spoken l in
      stay (broken i) _ s refl (stream_in-received c [] u ∙ append-nil (stream_in c u))
        (inr (s.is.0, (4, s.is.1 ∙ sym (take-to_ne_bytes e i))))
  Log-Spoken (give_back i l) =
      let s = Log-Spoken l in
      stay done _ s refl refl (elim s.is [ inl none' ↦ inl none' | inr part ↦ inr (i, part) ])

  stepped :
      {p : Phase} {x : Event} {u : List Event}
      → Log dev (some c) e n t p (x ∷ u)
      → ((later now : List Event)
          → u ≡ later ++ now
          → length t ≤ length now
          → (q : Phase) × Log dev (some c) e n t q now)
      → (later now : List Event) → x ∷ u ≡ later ++ now
      → length t ≤ length now
      → (q : Phase) × Log dev (some c) e n t q now
  stepped {p} l rec [] now q m = (p, subst (Log dev (some c) e n t p) q l)
  stepped l rec (y ∷ later) now q m = rec later now (ap event_tail q) m

  -- At each moment since the loop began, the protocol was in some phase.
  pub Log-before :
      {p : Phase} {u : List Event}
      → Log dev (some c) e n t p u
      → (later now : List Event) → u ≡ later ++ now
      → length t ≤ length now
      → (q : Phase) × Log dev (some c) e n t q now
  Log-before begin later now q l =
      (idle, subst (Log dev (some c) e n t idle) (began later now q l) begin)
  Log-before (take_frame i l) later now q m =
      stepped (take_frame i l) (λ a b c d. Log-before l a b c d) later now q m
  Log-before (tell i b l) later now q m =
      stepped (tell i b l) (λ a b c d. Log-before l a b c d) later now q m
  Log-before (hear i bytes b l) later now q m =
      stepped (hear i bytes b l) (λ a b c d. Log-before l a b c d) later now q m
  Log-before (give i l) later now q m =
      stepped (give i l) (λ a b c d. Log-before l a b c d) later now q m
  Log-before (tell_failed i l) later now q m = Log-before l later now q m
  Log-before (tell_short i k b l) later now q m =
      stepped (tell_short i k b l) (λ a b c d. Log-before l a b c d) later now q m
  Log-before (hear_failed i l) later now q m = Log-before l later now q m
  Log-before (hung_up i l) later now q m =
      stepped (hung_up i l) (λ a b c d. Log-before l a b c d) later now q m
  Log-before (give_back i l) later now q m =
      stepped (give_back i l) (λ a b c d. Log-before l a b c d) later now q m
