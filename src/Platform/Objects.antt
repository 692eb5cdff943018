-- ===== src/Platform/Objects.antt =====
-- Which objects of EGL and GLES there are, read off the trace: those that were made, less those that
-- were deleted.
use pub_sub_v4l2_dmabuf_wayl.Base.{
  ℕ, ◌+◌, ◌≡◌, Bool, true, false, ◌&&◌, List, [], ◌∷◌, ◌++◌, arith, ◌==◌, if◌then◌else◌,
}
use pub_sub_v4l2_dmabuf_wayl.Platform.Descriptors.{Owns}
use pub_sub_v4l2_dmabuf_wayl.Platform.{
  Event, Object, display, context, surface, shader, program, vertex_buffer, texture, created,
  deleted,
}

abbrev number : Object → ℕ
number display = 0
number context = 1
number surface = 2
number shader = 3
number program = 4
number vertex_buffer = 5
number texture = 6

abbrev same_object : Object × ℕ → Object → ℕ → Bool
same_object x k i = number (x.0) == number k && x.1 == i

abbrev pub creations : Object → ℕ → List Event → ℕ
creations k i [] = 0
creations k i (created l j ∷ t) = (if same_object (l, j) k i then 1 else 0) + creations k i t
creations k i (_ ∷ t) = creations k i t

abbrev pub deletions : Object → ℕ → List Event → ℕ
deletions k i [] = 0
deletions k i (deleted l j ∷ t) = (if same_object (l, j) k i then 1 else 0) + deletions k i t
deletions k i (_ ∷ t) = deletions k i t

abbrev pub times : Object → ℕ → List (Object × ℕ) → ℕ
times k i [] = 0
times k i (x ∷ xs) = (if same_object x k i then 1 else 0) + times k i xs

-- The process holds these descriptors, and the objects in the list are there, each as often as it
-- stands in the list, and no other.
pub record Keeps (fds : List ℕ) (xs : List (Object × ℕ)) (t : List Event) : Type 0 where
  pub owned : Owns fds t
  pub at : (k : Object) (i : ℕ) → creations k i t ≡ deletions k i t + times k i xs

-- The name 0 is none: GLES gives it where it makes nothing, and passes over its deletion.
abbrev pub note_created : Object → ℕ → List Event
note_created k i = if i == 0 then [] else created k i ∷ []

abbrev pub note_deleted : Object → ℕ → List Event
note_deleted k i = if i == 0 then [] else deleted k i ∷ []

abbrev pub one_of : Object → ℕ → List (Object × ℕ)
one_of k i = if i == 0 then [] else (k, i) ∷ []

pub Keeps-created :
    {fds : List ℕ} {xs : List (Object × ℕ)} {t : List Event} (k : Object) (i : ℕ)
    → Keeps fds xs t
    → Keeps fds ((k, i) ∷ xs) (created k i ∷ t)
Keeps-created k i h = record {
  owned = record { at = h.owned.at };
  at = λ l j. omega (arith, h.at l j);
}

pub Keeps-deleted :
    {fds : List ℕ} {xs : List (Object × ℕ)} {t : List Event} (k : Object) (i : ℕ)
    → Keeps fds ((k, i) ∷ xs) t
    → Keeps fds xs (deleted k i ∷ t)
Keeps-deleted k i h = record {
  owned = record { at = h.owned.at };
  at = λ l j. omega (arith, h.at l j);
}

-- The order of the list does not matter.
pub Keeps-same :
    {fds : List ℕ} {xs ys : List (Object × ℕ)} {t : List Event}
    → ((k : Object) (i : ℕ) → times k i xs ≡ times k i ys)
    → Keeps fds xs t
    → Keeps fds ys t
Keeps-same e h = record {
  owned = record { at = h.owned.at };
  at = λ k i. omega (arith, h.at k i, e k i);
}

pub Keeps-note_created :
    {fds : List ℕ} {xs : List (Object × ℕ)} {t : List Event} (k : Object) (i : ℕ)
    → Keeps fds xs t
    → Keeps fds (one_of k i ++ xs) (note_created k i ++ t)
Keeps-note_created {fds} {xs} {t} k i h = by_test (i == 0)
  where
    by_test :
        (b : Bool)
        → Keeps fds
            ((if b then [] else (k, i) ∷ []) ++ xs)
            ((if b then [] else created k i ∷ []) ++ t)
    by_test true = h
    by_test false = Keeps-created k i h

pub Keeps-note_deleted :
    {fds : List ℕ} {xs : List (Object × ℕ)} {t : List Event} (k : Object) (i : ℕ)
    → Keeps fds (one_of k i ++ xs) t
    → Keeps fds xs (note_deleted k i ++ t)
Keeps-note_deleted {fds} {xs} {t} k i = by_test (i == 0)
  where
    by_test :
        (b : Bool)
        → Keeps fds ((if b then [] else (k, i) ∷ []) ++ xs) t
        → Keeps fds xs ((if b then [] else deleted k i ∷ []) ++ t)
    by_test true h = h
    by_test false h = Keeps-deleted k i h

pub times-append :
    (k : Object) (i : ℕ) (front back : List (Object × ℕ))
    → times k i (front ++ back) ≡ times k i front + times k i back
times-append k i [] back = omega arith
times-append k i (x ∷ front) back = omega (arith, times-append k i front back)

-- Two groups of objects change places before the rest.
pub Keeps-swap :
    {fds : List ℕ} {t : List Event} (a b xs : List (Object × ℕ))
    → Keeps fds (a ++ (b ++ xs)) t
    → Keeps fds (b ++ (a ++ xs)) t
Keeps-swap a b xs = Keeps-same λ k i. omega (
  arith,
  times-append k i a (b ++ xs),
  times-append k i b xs,
  times-append k i b (a ++ xs),
  times-append k i a xs,
)

-- Under a first group, the second group and the third change places.
pub Keeps-under :
    {fds : List ℕ} {t : List Event} (a b c xs : List (Object × ℕ))
    → Keeps fds (a ++ (b ++ (c ++ xs))) t
    → Keeps fds (a ++ (c ++ (b ++ xs))) t
Keeps-under a b c xs = Keeps-same λ k i. omega (
  arith,
  times-append k i a (b ++ (c ++ xs)),
  times-append k i b (c ++ xs),
  times-append k i c xs,
  times-append k i a (c ++ (b ++ xs)),
  times-append k i c (b ++ xs),
  times-append k i b xs,
)

pub Keeps-none :
    {fds : List ℕ} {t : List Event} {xs : List (Object × ℕ)} (k : Object) (i : ℕ)
    → (i == 0) ≡ true
    → Keeps fds (one_of k i ++ xs) t
    → Keeps fds xs t
Keeps-none {fds} {t} {xs} k i = by_test (i == 0)
  where
    by_test :
        (b : Bool) → b ≡ true → Keeps fds ((if b then [] else (k, i) ∷ []) ++ xs) t → Keeps fds xs t
    by_test true e h = h
    by_test false e h = cc

times-joined :
    (k : Object) (i : ℕ) (a b c xs : List (Object × ℕ))
    → times k i (a ++ (b ++ (c ++ xs))) ≡ times k i ((a ++ (b ++ c)) ++ xs)
times-joined k i a b c xs = omega (
  arith,
  times-append k i a (b ++ (c ++ xs)),
  times-append k i b (c ++ xs),
  times-append k i c xs,
  times-append k i (a ++ (b ++ c)) xs,
  times-append k i a (b ++ c),
  times-append k i b c,
)

-- Three groups of objects as one.
pub Keeps-joined :
    {fds : List ℕ} {t : List Event} (a b c xs : List (Object × ℕ))
    → Keeps fds (a ++ (b ++ (c ++ xs))) t
    → Keeps fds ((a ++ (b ++ c)) ++ xs) t
Keeps-joined a b c xs = Keeps-same (λ k i. times-joined k i a b c xs)

pub Keeps-split :
    {fds : List ℕ} {t : List Event} (a b c xs : List (Object × ℕ))
    → Keeps fds ((a ++ (b ++ c)) ++ xs) t
    → Keeps fds (a ++ (b ++ (c ++ xs))) t
Keeps-split a b c xs = Keeps-same (λ k i. omega (arith, times-joined k i a b c xs))
