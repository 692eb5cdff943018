-- ===== src/System/Waiting/Counts.antt =====
-- What each end has counted of indices and acks, where no call on the socket was idle or too long.
use pub_sub_v4l2_dmabuf_wayl.Base.{
  ℕ, ◌+◌, ◌*◌, ◌≤◌, ◌≡◌, ap, List, [], ◌∷◌, true, some, arith, ◌==◌, if◌then◌else◌, length,
  length-append, take, ==_iff, refl, sym, subst, ◌++◌, Bool, false,
}
use pub_sub_v4l2_dmabuf_wayl.Platform.{RawFd, Event, sent, received}
use pub_sub_v4l2_dmabuf_wayl.Wire.{Endian, to_ne_bytes}
use pub_sub_v4l2_dmabuf_wayl.Wire.RoundTrip.{length-to_ne_bytes}
use pub_sub_v4l2_dmabuf_wayl.Publisher.Protocol.{
  Phase, idle, holding, told, acked, broken, done, Log, begin, take_frame, tell, hear, give,
  tell_failed, tell_short, hear_failed, hung_up, give_back,
}
use pub_sub_v4l2_dmabuf_wayl.Subscriber.Protocol.{
  Stage, waiting, chosen, viewing, released, ended, View, choose, import_image, destroy, ack,
  hang_up, lose, refuse, ack_failed,
}
use pub_sub_v4l2_dmabuf_wayl.Subscriber.Protocol as Viewing
use pub_sub_v4l2_dmabuf_wayl.System.Streams.{
  stream_out, stream_in, stream_out-sent, stream_in-received, event_tail, began,
}

-- Each `recv` of one byte on a socket has brought one byte at most.
abbrev pub Brief : ℕ → List Event → Type 0
Brief c [] = Unit
Brief c (received (some s) bytes ∷ u) = (length (if s == c then bytes else []) ≤ 1) × Brief c u
Brief c (_ ∷ u) = Brief c u

-- Each `sendmsg` on a socket has taken one byte at least.
abbrev pub Prompt : ℕ → List Event → Type 0
Prompt s [] = Unit
Prompt s (sent (some c) bytes fds ∷ u) = ((c == s) ≡ true → 1 ≤ length bytes) × Prompt s u
Prompt s (_ ∷ u) = Prompt s u

sent_bytes : List Event → List ℕ
sent_bytes (sent s bytes fds ∷ u) = bytes
sent_bytes _ = []

module _ (dev : RawFd) (c : ℕ) (e : Endian) (n : ℕ) (t : List Event) where
  -- So many acks have been taken note of, each of at most one byte; of the indices so many bytes
  -- are ahead.
  pub record Heard (ahead : ℕ) (u : List Event) : Type 0 where
    pub acks : ℕ
    pub out : length (stream_out c u) ≡ length (stream_out c t) + 4 * acks + ahead
    pub come : length (stream_in c u) ≤ length (stream_in c t) + acks

  Tally : Phase → List Event → Type 0
  Tally idle u = Heard 0 u
  Tally (holding i) u = Heard 0 u
  Tally (told i) u = Heard 4 u
  Tally (acked i) u = Heard 0 u
  Tally (broken i) u = Unit
  Tally done u = Unit

  Log-Tally : {p : Phase} {u : List Event} → Log dev (some c) e n t p u → Brief c u → Tally p u
  unfolding Tally
  Log-Tally begin b = record { acks = 0; out = omega arith; come = omega arith }
  Log-Tally (take_frame i l) b =
      let h = Log-Tally l b in record { acks = h.acks; out = h.out; come = h.come }
  Log-Tally (tell {u} i less l) b =
      let h = Log-Tally l b in
      record {
        acks = h.acks;
        out = omega (
          arith,
          h.out,
          ap length (stream_out-sent c (to_ne_bytes e i) [] u),
          length-append (stream_out c u) (to_ne_bytes e i),
          length-to_ne_bytes e i,
        );
        come = h.come;
      }
  Log-Tally (hear {u} i bytes some' l) (brief, b) =
      let h = Log-Tally l b in
      record {
        acks = h.acks + 1;
        out = omega (arith, h.out);
        come =
            omega
              (arith, h.come, brief, length-append (stream_in c u) (if c == c then bytes else []));
      }
  Log-Tally (give i l) b =
      let h = Log-Tally l b in record { acks = h.acks; out = h.out; come = h.come }
  Log-Tally (tell_failed i l) b = tt
  Log-Tally (tell_short i m less l) b = tt
  Log-Tally (hear_failed i l) b = tt
  Log-Tally (hung_up i l) b = tt
  Log-Tally (give_back i l) b = tt

  -- Right after four bytes have gone out, they are an index.
  pub Log-sent :
      {p : Phase} {u : List Event} (bytes fds : List ℕ) (u' : List Event)
      → Log dev (some c) e n t p u
      → u ≡ sent (some c) bytes fds ∷ u'
      → length bytes ≡ 4
      → length t ≤ length u'
      → Brief c u
      → Heard 4 u
  unfolding Tally sent_bytes
  Log-sent bytes fds u' begin q four l b = absurd (omega (arith, l, ap length q))
  Log-sent bytes fds u' (take_frame i g) q four l b = cc
  Log-sent bytes fds u' (tell i less g) q four l b = Log-Tally (tell i less g) b
  Log-sent bytes fds u' (hear i bs some' g) q four l b = cc
  Log-sent bytes fds u' (give i g) q four l b = cc
  Log-sent bytes fds u' (tell_failed i g) q four l b = Log-sent bytes fds u' g q four l b
  Log-sent bytes fds u' (tell_short {u} i m less g) q four l b =
      let h = Log-Tally g b in
      record {
        acks = h.acks;
        out = omega (
          arith,
          h.out,
          four,
          ap (λ y. length (sent_bytes y)) q,
          ap length (stream_out-sent c (take m (to_ne_bytes e i)) [] u),
          length-append (stream_out c u) (take m (to_ne_bytes e i)),
        );
        come = h.come;
      }
  Log-sent bytes fds u' (hear_failed i g) q four l b = Log-sent bytes fds u' g q four l b
  Log-sent bytes fds u' (hung_up i g) q four l b = cc
  Log-sent bytes fds u' (give_back i g) q four l b = cc

-- No event has to do with a socket.
abbrev pub Silent : ℕ → List Event → Type 0
Silent s [] = Unit
Silent s (received (some c) bytes ∷ u) = ((c == s) ≡ false) × Silent s u
Silent s (sent (some c) bytes fds ∷ u) = ((c == s) ≡ false) × Silent s u
Silent s (_ ∷ u) = Silent s u

-- The first event alone.
event_head : List Event → List Event
event_head [] = []
event_head (x ∷ u) = x ∷ []

first_of : (s : ℕ) (x : Event) (m : List Event) → Silent s (x ∷ m) → Silent s (x ∷ [])
first_of s (received (some c) bytes) m q = (q.0, tt)
first_of s (sent (some c) bytes fds) m q = (q.0, tt)
first_of s _ m q = tt

differ : {b : Bool} → b ≡ true → b ≡ false → ⊥
differ p q = cc

module _ (s : ℕ) (fds : List ℕ) (e : Endian) (t : List Event) where
  -- So many indices have come, and at least so many bytes of acks have gone out.
  pub record Answered (indices acks : ℕ) (u : List Event) : Type 0 where
    pub come : length (stream_in s u) ≡ length (stream_in s t) + 4 * indices
    pub gone : length (stream_out s t) + acks ≤ length (stream_out s u)

  Score : Stage → List Event → Type 0
  Score waiting u = (k : ℕ) × Answered k k u
  Score (chosen i) u = (k : ℕ) × Answered (k + 1) k u
  Score (viewing i img) u = (k : ℕ) × Answered (k + 1) k u
  Score released u = (k : ℕ) × Answered (k + 1) k u
  Score ended u = Unit

  View-Score : {q : Stage} {u : List Event} → View (some s) fds e t q u → Prompt s u → Score q u
  unfolding Score
  View-Score Viewing.begin p = (0, record { come = omega arith; gone = omega arith })
  View-Score (choose {u} bytes four v) p =
      let (k, a) = View-Score v p in
      (
        k,
        record {
          come = omega (
            arith,
            a.come,
            four,
            ap length (stream_in-received s bytes u),
            length-append (stream_in s u) bytes,
          );
          gone = a.gone;
        },
      )
  View-Score (import_image i fd img g v) p =
      let (k, a) = View-Score v p in (k, record { come = a.come; gone = a.gone })
  View-Score (destroy i img v) p =
      let (k, a) = View-Score v p in (k, record { come = a.come; gone = a.gone })
  View-Score (ack {u} m v) (one, p) =
      let (k, a) = View-Score v p in
      (
        k + 1,
        record {
          come = a.come;
          gone = omega (
            arith,
            a.gone,
            one ((==_iff s s).1 refl),
            ap length (stream_out-sent s (take m (1 ∷ [])) [] u),
            length-append (stream_out s u) (take m (1 ∷ [])),
          );
        },
      )
  View-Score (hang_up bytes b v) p = tt
  View-Score (lose v) p = tt
  View-Score (refuse i v) p = tt
  View-Score (ack_failed v) p = tt

  -- Where the subscriber waits, the last thing on the socket was an ack, if it was anything.
  waiting-Answered :
      {q : Stage} {u : List Event} (m b : List Event)
      → View (some s) fds e t q u
      → q ≡ waiting
      → u ≡ m ++ b
      → Silent s m
      → length t ≤ length b
      → Prompt s b
      → (k : ℕ) × Answered k k b
  unfolding Score event_head
  waiting-Answered m b Viewing.begin w p q l prompt =
      let same : t ≡ b = began m b p l in
      (
        0,
        record {
          come = omega (arith, ap (λ y. length (stream_in s y)) same);
          gone = omega (arith, ap (λ y. length (stream_out s y)) same);
        },
      )
  waiting-Answered m b (choose bs four v) w p q l prompt = cc
  waiting-Answered m b (import_image i fd img g v) w p q l prompt = cc
  waiting-Answered m b (destroy i img v) w p q l prompt = cc
  waiting-Answered [] b (ack n v) w p q l prompt =
      View-Score (subst (View (some s) fds e t waiting) p (ack n v)) prompt
  waiting-Answered (x ∷ m) b (ack {u} n v) w p q l prompt =
      absurd (
        differ ((==_iff s s).1 refl)
          (subst (Silent s) (sym (ap event_head p)) (first_of s x m q)).0)
  waiting-Answered m b (hang_up bs x v) w p q l prompt = cc
  waiting-Answered m b (lose v) w p q l prompt = cc
  waiting-Answered m b (refuse i v) w p q l prompt = cc
  waiting-Answered m b (ack_failed v) w p q l prompt = cc

  -- Where the subscriber receives next, it has answered all that has come.
  pub View-receives :
      {q : Stage} {u : List Event} (bytes : List ℕ) (m b : List Event)
      → View (some s) fds e t q u
      → u ≡ received (some s) bytes ∷ (m ++ b)
      → Silent s m
      → length t ≤ length b
      → Prompt s b
      → (k : ℕ) × Answered k k b
  View-receives bytes m b Viewing.begin p q l prompt =
      absurd (omega (arith, l, ap length p, length-append m b))
  View-receives bytes m b (choose bs four v) p q l prompt =
      waiting-Answered m b v refl (ap event_tail p) q l prompt
  View-receives bytes m b (import_image i fd img g v) p q l prompt = cc
  View-receives bytes m b (destroy i img v) p q l prompt = cc
  View-receives bytes m b (ack n v) p q l prompt = cc
  View-receives bytes m b (hang_up bs x v) p q l prompt =
      waiting-Answered m b v refl (ap event_tail p) q l prompt
  View-receives bytes m b (lose v) p q l prompt = View-receives bytes m b v p q l prompt
  View-receives bytes m b (refuse i v) p q l prompt = View-receives bytes m b v p q l prompt
  View-receives bytes m b (ack_failed v) p q l prompt = View-receives bytes m b v p q l prompt
