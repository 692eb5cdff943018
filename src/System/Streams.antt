-- ===== src/System/Streams.antt =====
-- The bytes that have passed a socket, read off a trace, and the moments of a run.
use pub_sub_v4l2_dmabuf_wayl.Base.{
  ℕ, ◌≤◌, ◌≡◌, refl, ap, sym, ◌∙◌, List, [], ◌∷◌, ◌++◌, true, some, arith, ◌==◌, if◌then◌else◌,
  length, length-append, ==_iff,
}
use pub_sub_v4l2_dmabuf_wayl.Effect.{Run, ret, fail, panic, spin}
use pub_sub_v4l2_dmabuf_wayl.Effect.Triple.{Exits, Sat}
use pub_sub_v4l2_dmabuf_wayl.Platform.{Event, sent, received}

-- The bytes that the process has sent on a socket, and those that it has received there, the first
-- first.
abbrev pub stream_out : ℕ → List Event → List ℕ
stream_out c [] = []
stream_out c (sent (some s) bytes fds ∷ t) = stream_out c t ++ (if s == c then bytes else [])
stream_out c (_ ∷ t) = stream_out c t

abbrev pub stream_in : ℕ → List Event → List ℕ
stream_in c [] = []
stream_in c (received (some s) bytes ∷ t) = stream_in c t ++ (if s == c then bytes else [])
stream_in c (_ ∷ t) = stream_in c t

==-refl : (c : ℕ) → (c == c) ≡ true
==-refl c = (==_iff c c).1 refl

pub stream_out-sent :
    (c : ℕ) (bytes fds : List ℕ) (u : List Event)
    → stream_out c (sent (some c) bytes fds ∷ u) ≡ stream_out c u ++ bytes
stream_out-sent c bytes fds u = ap (λ b. stream_out c u ++ (if b then bytes else [])) (==-refl c)

pub stream_in-received :
    (c : ℕ) (bytes : List ℕ) (u : List Event)
    → stream_in c (received (some c) bytes ∷ u) ≡ stream_in c u ++ bytes
stream_in-received c bytes u = ap (λ b. stream_in c u ++ (if b then bytes else [])) (==-refl c)

-- What has been received is a prefix of what has been sent.
pub record IsPrefix (xs ys : List ℕ) : Type 0 where
  pub rest : List ℕ
  pub at : xs ++ rest ≡ ys

pub length-IsPrefix : {xs ys : List ℕ} → IsPrefix xs ys → length xs ≤ length ys
length-IsPrefix {xs} p = omega (arith, ap length p.at, length-append xs p.rest)

pub append-nil : (xs : List ℕ) → xs ++ [] ≡ xs
append-nil [] = refl
append-nil (x ∷ xs) = ap (λ ys. x ∷ ys) (append-nil xs)

nil_of : (xs : List ℕ) → length xs ≡ 0 → xs ≡ []
nil_of [] e = refl
nil_of (x ∷ xs) e = absurd (omega (arith, e))

-- A prefix that is as long is the whole.
pub IsPrefix-whole : {xs ys : List ℕ} → IsPrefix xs ys → length ys ≤ length xs → xs ≡ ys
IsPrefix-whole {xs} p l =
    sym (append-nil xs)
    ∙ ap (λ r. xs ++ r)
        (sym (nil_of p.rest (omega (arith, ap length p.at, length-append xs p.rest, l))))
    ∙ p.at

tail : List ℕ → List ℕ
tail [] = []
tail (x ∷ xs) = xs

-- Two lists that begin with as many elements agree in what follows.
pub append-same :
    (xs ys : List ℕ) {vs ws : List ℕ} → xs ++ vs ≡ ys ++ ws → length xs ≡ length ys → vs ≡ ws
unfolding tail
append-same [] [] e l = e
append-same [] (y ∷ ys) e l = absurd (omega (arith, l))
append-same (x ∷ xs) [] e l = absurd (omega (arith, l))
append-same (x ∷ xs) (y ∷ ys) e l = append-same xs ys (ap tail e) (omega (arith, l))

-- A moment of a run that began at the trace `t` and has come to the trace `u`: what the trace was
-- then.
pub record Moment (t u now : List Event) : Type 0 where
  pub later : List Event
  pub at : u ≡ later ++ now
  pub after : length t ≤ length now

abbrev pub event_tail : List Event → List Event
event_tail [] = []
event_tail (x ∷ u) = u

-- The first moment.
pub began :
    {t : List Event} (later now : List Event) → t ≡ later ++ now → length t ≤ length now → t ≡ now
began [] now q l = q
began (y ∷ later) now q l = absurd (omega (arith, ap length q, l, length-append later now))

-- The state in which a run is left, by a result or by another exit.
abbrev pub final : {W A : Type 0} → Run W A → W
final (ret a w) = w
final (fail e w) = w
final (panic w) = w
final (spin w) = w

-- The exits of a run that does not fail, and is left in a certain state.
abbrev pub leaving_in : {W : Type 0} → (W → Type 0) → Exits W
leaving_in P = record { failing = λ _ _. ⊥; panicking = λ w. P w; spinning = λ w. P w }

final_run :
    {W A : Type 0} (P : W → Type 0) (r : Run W A) → Sat (λ _ w. P w) (leaving_in P) r → P (final r)
final_run P (ret a w) s = s.at
final_run P (fail e w) s = absurd s.at
final_run P (panic w) s = s.at
final_run P (spin w) s = s.at

pub Sat-final :
    {W A : Type 0} (P : W → Type 0) (r : Run W A) → Sat (λ _ w. P w) (leaving_in P) r → P (final r)
Sat-final P r s = final_run P r s
