-- ===== src/Egl/Attributes.antt =====
-- rust/subscriber/src/egl.rs: what EGL reads in the attributes of `import_dmabuf`.
use pub_sub_v4l2_dmabuf_wayl.Base.{
  ℕ, ◌*◌, ◌%◌, ◌^◌, ◌<◌, ◌≤◌, ◌≡◌, ◌≢◌, refl, ap, ◌∙◌, List, [], ◌∷◌, ◌++◌, Bool, true, false,
  Option, none, some, arith, ◌==◌, ◌||◌, if◌then◌else◌, get_or,
}
use pub_sub_v4l2_dmabuf_wayl.Platform.{Platform}
use pub_sub_v4l2_dmabuf_wayl.Wire.{FrameMeta}
use pub_sub_v4l2_dmabuf_wayl.Egl.{EglConsts, Gpu, EglContext, dmabuf_attrs, plane0, plane1}

-- The value of a name in a list of names and values that the name `stop` ends.
abbrev pub attribute : ℕ → ℕ → List ℕ → Option ℕ
attribute stop name [] = none
attribute stop name (n ∷ []) = none
attribute stop name (n ∷ v ∷ rest) =
    let later = attribute stop name rest in
    if n == stop then none else if n == name then some v else later

-- The names of the attributes, by number; the last is `EGL_NONE`.
abbrev pub key : EglConsts → ℕ → ℕ
key E i =
    get_or
      (E.egl_width ∷ E.egl_height ∷ E.egl_linux_drm_fourcc ∷ E.plane0_fd ∷ E.plane0_offset
        ∷ E.plane0_pitch ∷ E.plane0_modifier_lo ∷ E.plane0_modifier_hi ∷ E.plane1_fd
        ∷ E.plane1_offset ∷ E.plane1_pitch ∷ E.plane1_modifier_lo ∷ E.plane1_modifier_hi
        ∷ E.egl_none ∷ [])
      i 0

-- The names differ from each other, as the headers of EGL have it.
pub record Distinct (E : EglConsts) : Type 0 where
  pub at : (i j : ℕ) → i < 14 → j < 14 → key E i ≡ key E j → i ≡ j

==-false : (a b : ℕ) → a ≢ b → (a == b) ≡ false
==-false a b h = ground arith

passed :
    (b c : Bool) (v : ℕ) (later : Option ℕ)
    → b ≡ false
    → c ≡ false
    → (if b then none else if c then some v else later) ≡ later
passed false false v later p q = refl
passed true c v later p q = cc
passed false true v later p q = cc

==-true : (a : ℕ) → (a == a) ≡ true
==-true a = ground arith

taken :
    (b c : Bool) (v : ℕ) (later : Option ℕ)
    → b ≡ false
    → c ≡ true
    → (if b then none else if c then some v else later) ≡ some v
taken false true v later p q = refl
taken true c v later p q = cc
taken false false v later p q = cc

module _ (E : EglConsts) (d : Distinct E) where
  -- Another name is passed over.
  skip :
      (i k v : ℕ) (rest : List ℕ)
      → i < 13
      → k < 13
      → i ≢ k
      → attribute (key E 13) (key E k) (key E i ∷ v ∷ rest) ≡ attribute (key E 13) (key E k) rest
  skip i k v rest a b n =
      passed (key E i == key E 13) (key E i == key E k) v (attribute (key E 13) (key E k) rest)
        (==-false (key E i) (key E 13)
          (λ p. absurd (omega (arith, a, d.at i 13 (omega (arith, a)) (omega arith) p))))
        (==-false (key E i) (key E k) (λ p. n (d.at i k (omega (arith, a)) (omega (arith, b)) p)))

  found :
      (k v : ℕ) (rest : List ℕ)
      → k < 13
      → attribute (key E 13) (key E k) (key E k ∷ v ∷ rest) ≡ some v
  found k v rest b =
      taken (key E k == key E 13) (key E k == key E k) v (attribute (key E 13) (key E k) rest)
        (==-false (key E k) (key E 13)
          (λ p. absurd (omega (arith, b, d.at k 13 (omega (arith, b)) (omega arith) p))))
        (==-true (key E k))

module _ (S : Platform) (G : Gpu S) (ctx : EglContext) (d : Distinct (G.egl)) (fd : ℕ)
    (meta : FrameMeta) where
  -- What is read under a name, by its number.
  abbrev read : ℕ → List ℕ → Option ℕ
  read k attrs = attribute (key (G.egl) 13) (key (G.egl) k) attrs

  other :
      (i k v : ℕ) (rest : List ℕ)
      → i < 13
      → k < 13
      → i ≢ k
      → read k (key (G.egl) i ∷ v ∷ rest) ≡ read k rest
  other = skip (G.egl) d

  -- Attributes by the numbers of their names, before others.
  abbrev named : List (ℕ × ℕ) → List ℕ → List ℕ
  named [] rest = rest
  named (p ∷ ps) rest = key (G.egl) p.0 ∷ p.1 ∷ named ps rest

  abbrev AreFirst : List (ℕ × ℕ) → Type 0
  AreFirst [] = Unit
  AreFirst (p ∷ ps) = (p.0 < 8) × AreFirst ps

  skip_all :
      (ps : List (ℕ × ℕ)) (k : ℕ) (rest : List ℕ)
      → AreFirst ps
      → 8 ≤ k
      → k < 13
      → read k (named ps rest) ≡ read k rest
  skip_all [] k rest a l u = refl
  skip_all (p ∷ ps) k rest a l u =
      other p.0 k p.1 (named ps rest) (omega (arith, a.0)) u
        (λ e. absurd (omega (arith, a.0, l, e)))
      ∙ skip_all ps k rest a.1 l u

  abbrev modifiers : Bool → List (ℕ × ℕ)
  modifiers b = if b then (6, 0) ∷ (7, 0) ∷ [] else []

  modifiers-AreFirst : (b : Bool) → AreFirst (modifiers b)
  modifiers-AreFirst true = (omega arith, (omega arith, tt))
  modifiers-AreFirst false = tt

  named-modifiers :
      (b : Bool) (rest : List ℕ)
      → (if b then key (G.egl) 6 ∷ 0 ∷ key (G.egl) 7 ∷ 0 ∷ [] else []) ++ rest
        ≡ named (modifiers b) rest
  named-modifiers true rest = refl
  named-modifiers false rest = refl

  -- The first plane, with its modifiers if there are any, holds nothing of the second.
  first_plane :
      (on : Bool) (k : ℕ) (rest : List ℕ)
      → 8 ≤ k
      → k < 13
      → read k (
          plane0 S G ctx fd meta
          ++ ((if on then key (G.egl) 6 ∷ 0 ∷ key (G.egl) 7 ∷ 0 ∷ [] else []) ++ rest))
        ≡ read k rest
  first_plane on k rest l u =
      let after = (if on then key (G.egl) 6 ∷ 0 ∷ key (G.egl) 7 ∷ 0 ∷ [] else []) ++ rest in
      skip_all
        ((0, meta.width)
          ∷ (1, meta.height)
          ∷ (2, meta.format)
          ∷ (3, fd)
          ∷ (4, 0)
          ∷ (5, meta.stride)
          ∷ [])
        k after
        (omega arith, (omega arith, (omega arith, (omega arith, (omega arith, (omega arith, tt))))))
        l u
      ∙ ap (read k) (named-modifiers on rest)
      ∙ skip_all (modifiers on) k rest (modifiers-AreFirst on) l u

  -- What the second plane gives under each of its names, if there is one.
  abbrev pub at_second : Bool → ℕ → Option ℕ
  at_second semi v = if semi then some v else none

  second_plane_read :
      (semi : Bool) (rest : List ℕ)
      → (read 8 ((if semi then plane1 S G ctx fd meta ++ rest else []) ++ key (G.egl) 13 ∷ [])
          ≡ at_second semi fd)
        × (read 9 ((if semi then plane1 S G ctx fd meta ++ rest else []) ++ key (G.egl) 13 ∷ [])
            ≡ at_second semi (meta.stride * meta.height % 2 ^ 32))
        × (read 10 ((if semi then plane1 S G ctx fd meta ++ rest else []) ++ key (G.egl) 13 ∷ [])
            ≡ at_second semi meta.stride)
  second_plane_read false rest = (refl, refl, refl)
  second_plane_read true rest =
      let offset = meta.stride * meta.height % 2 ^ 32 in
      let after_pitch = rest ++ key (G.egl) 13 ∷ [] in
      let after_offset = key (G.egl) 10 ∷ meta.stride ∷ after_pitch in
      let after_fd = key (G.egl) 9 ∷ offset ∷ after_offset in
      (
        found (G.egl) d 8 fd after_fd (omega arith),
        other 8 9 fd after_fd (omega arith) (omega arith) (λ p. absurd (omega (arith, p)))
            ∙ found (G.egl) d 9 offset after_offset (omega arith),
        other 8 10 fd after_fd (omega arith) (omega arith) (λ p. absurd (omega (arith, p)))
            ∙ other 9 10 offset after_offset (omega arith) (omega arith)
                (λ p. absurd (omega (arith, p)))
            ∙ found (G.egl) d 10 meta.stride after_pitch (omega arith),
      )

  -- If the names of EGL's attributes differ from each other, then EGL reads a second plane in the
  -- attributes of `import_dmabuf` exactly for NV12 and NV21: of the same descriptor and pitch as the
  -- first, and at the offset where the first plane ends, in 32 bits.
  pub attribute-dmabuf_attrs :
      (attribute G.egl.egl_none G.egl.plane1_fd (dmabuf_attrs S G ctx fd meta)
        ≡ at_second (meta.format == S.drm_nv12 || meta.format == S.drm_nv21) fd)
      × (attribute G.egl.egl_none G.egl.plane1_offset (dmabuf_attrs S G ctx fd meta)
          ≡ at_second
              (meta.format == S.drm_nv12 || meta.format == S.drm_nv21)
              (meta.stride * meta.height % 2 ^ 32))
      × (attribute G.egl.egl_none G.egl.plane1_pitch (dmabuf_attrs S G ctx fd meta)
          ≡ at_second (meta.format == S.drm_nv12 || meta.format == S.drm_nv21) meta.stride)
  unfolding dmabuf_attrs
  attribute-dmabuf_attrs =
      let second = second_plane_read (meta.format == S.drm_nv12 || meta.format == S.drm_nv21) _ in
      (
        first_plane ctx.has_modifiers 8 _ (omega arith) (omega arith) ∙ second.0,
        first_plane ctx.has_modifiers 9 _ (omega arith) (omega arith) ∙ second.1,
        first_plane ctx.has_modifiers 10 _ (omega arith) (omega arith) ∙ second.2,
      )
