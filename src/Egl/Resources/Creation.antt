-- ===== src/Egl/Resources/Creation.antt =====
-- rust/subscriber/src/egl.rs: what `EglContext::init` makes, by the trace.
use pub_sub_v4l2_dmabuf_wayl.Base.{
  ℕ, ◌≡◌, refl, ap, List, [], ◌∷◌, Bool, false, Option, none, some, not, ◌||◌, ltb, take,
}
use pub_sub_v4l2_dmabuf_wayl.Effect.{Run, ret, fail, other, pure, throw}
use pub_sub_v4l2_dmabuf_wayl.Effect.Triple.{Exits, Sat, Sat-bind, Sat-if, Sat-if_run, Sat-weaken}
use pub_sub_v4l2_dmabuf_wayl.Platform.{
  Platform, World, Event, Object, display, context, surface, created,
}
use pub_sub_v4l2_dmabuf_wayl.Egl.{Gpu, EglContext}
use pub_sub_v4l2_dmabuf_wayl.Egl.Context.{
  calling, obtain, checking, choose_display, platform_display, or_default, initialize,
  choose_config, first_config, has_procs, finish, on_display, init,
}
use pub_sub_v4l2_dmabuf_wayl.Egl.Resources.Display.{held}

-- The trace after objects have been made, the first first, and no other event.
abbrev pub after_making : List (Object × ℕ) → List Event → List Event
after_making [] t = t
after_making (o ∷ os) t = after_making os (created o.0 o.1 ∷ t)

-- A failure comes after the first of the objects of a context have been made, possibly none or all
-- of them, and nothing else has happened to objects.
abbrev pub breaking_off : (S : Platform) → List Event → Exits (World S)
breaking_off S t = record {
  failing = λ _ w. (x : EglContext) × (n : ℕ) × (w.trace ≡ after_making (take n (held x)) t);
  panicking = λ _. ⊥;
  spinning = λ _. ⊥;
}

module _ (S : Platform) (G : Gpu S) (u : List Event) where
  -- A failure adds nothing.
  abbrev at_once : Exits (World S)
  at_once = record { failing = λ _ w. w.trace ≡ u; panicking = λ _. ⊥; spinning = λ _. ⊥ }

  abbrev Still : {A : Type 0} → A → World S → Type 0
  Still _ w = w.trace ≡ u

  calling-trace :
      {A : Type 0} (f : S.State → A × S.State) (w : World S)
      → w.trace ≡ u
      → Sat Still at_once (calling S G f w)
  unfolding calling
  calling-trace f w e = record { at = e }

  checking-trace : (b : Bool) (w : World S) → w.trace ≡ u → Sat Still at_once (checking S G b w)
  unfolding checking
  checking-trace b w e =
      Sat-if b (pure tt) (throw other) w (λ _. record { at = e }) (λ _. record { at = e })

  obtain-trace :
      (k : Object) (f : S.State → Option ℕ × S.State) (w : World S)
      → w.trace ≡ u
      → Sat (λ i w'. w'.trace ≡ created k i ∷ u) at_once (obtain S G k f w)
  unfolding obtain
  obtain-trace k f w e = by_handle (f w.sys).0
    where
      by_handle :
          (o : Option ℕ)
          → Sat
              (λ i (w' : World S). w'.trace ≡ created k i ∷ u)
              at_once
              (let s = (f w.sys).1 in
                elim o [
                  | none ↦ fail other (record w { sys = s })
                  | some i ↦ ret i (record w { sys = s; trace = created k i ∷ w.trace })
                ])
      by_handle none = record { at = e }
      by_handle (some i) = record { at = ap (λ t. created k i ∷ t) e }

  or_default-trace :
      (wl : ℕ) (d : Option ℕ) (w : World S)
      → w.trace ≡ u
      → Sat Still at_once (or_default S G wl d w)
  unfolding or_default
  or_default-trace wl (some d) w e = record { at = e }
  or_default-trace wl none w e =
      Sat-bind (calling S G (G.get_display wl)) _ w (calling-trace _ w e)
        (elim [ none ↦ λ w' k. record { at = k } | some d ↦ λ w' k. record { at = k } ])

  platform_display-trace :
      (wl : ℕ) (w : World S) → w.trace ≡ u → Sat Still at_once (platform_display S G wl w)
  unfolding platform_display
  platform_display-trace wl w e =
      Sat-if _ (calling S G (G.get_platform_display wl)) (pure none) w (λ _. calling-trace _ w e)
        (λ _. record { at = e })

  choose_display-trace :
      (wl : ℕ) (w : World S) → w.trace ≡ u → Sat Still at_once (choose_display S G wl w)
  unfolding choose_display
  choose_display-trace wl w e =
      Sat-bind (platform_display S G wl) _ w (platform_display-trace wl w e) (or_default-trace wl)

  initialize-trace :
      (d : ℕ) (w : World S)
      → w.trace ≡ u
      → Sat (λ _ w'. w'.trace ≡ created display d ∷ u) at_once (initialize S G d w)
  unfolding initialize
  initialize-trace d w e =
      Sat-if_run (G.initialize d w.sys).0 _ _
        (λ _. record { at = ap (λ t. created display d ∷ t) e }) (λ _. record { at = e })

  choose_config-trace :
      (d : ℕ) (w : World S) → w.trace ≡ u → Sat Still at_once (choose_config S G d w)
  unfolding choose_config first_config
  choose_config-trace d w e =
      Sat-bind (calling S G _) _ w (calling-trace _ w e) λ (fine, count, config) w' k.
        Sat-if (not fine || ltb count 1) (throw other) (pure config) w' (λ _. record { at = k })
          (λ _. record { at = k })

module _ (S : Platform) (G : Gpu S) (t : List Event) where
  abbrev Whole : EglContext → World S → Type 0
  Whole x w = w.trace ≡ after_making (held x) t

  -- A step after the first objects of a context.
  step :
      {A : Type 0} {Q : A → World S → Type 0} {r : Run (World S) A} (d c f n : ℕ)
      → (let x : EglContext = record {
        display = d;
        context = c;
        surface = f;
        has_modifiers = false;
      } in
          Sat Q (at_once S G (after_making (take n (held x)) t)) r)
      → Sat Q (breaking_off S t) r
  step {r} d c f n h =
      let x : EglContext = record {
        display = d;
        context = c;
        surface = f;
        has_modifiers = false;
      } in
      Sat-weaken {Y = at_once S G (after_making (take n (held x)) t)} r h (λ _ _ k. k)
        (λ _ _ k. (x, n, k)) (λ _ k. absurd k) (λ _ k. absurd k)

  finish-Whole :
      (d c f : ℕ) (w : World S)
      → w.trace ≡ created surface f ∷ created context c ∷ created display d ∷ t
      → Sat Whole (breaking_off S t) (finish S G d c f w)
  unfolding finish
  finish-Whole d c f w e =
      Sat-bind (checking S G (has_procs S G w.sys)) _ w
        (step d c f 3 (checking-trace S G _ (has_procs S G w.sys) w e))
        (λ _ w' k. record { at = k })

  on_display-Whole :
      (window d : ℕ) (w : World S)
      → w.trace ≡ created display d ∷ t
      → Sat Whole (breaking_off S t) (on_display S G window d w)
  unfolding on_display
  on_display-Whole window d w e =
      Sat-bind (calling S G G.bind_api) _ w (step d 0 0 1 (calling-trace S G _ _ w e))
        λ bound w1 e1.
          Sat-bind (checking S G bound) _ w1 (step d 0 0 1 (checking-trace S G _ bound w1 e1))
            λ _ w2 e2.
              Sat-bind (choose_config S G d) _ w2 (step d 0 0 1 (choose_config-trace S G _ d w2 e2))
                λ config w3 e3.
                  Sat-bind (obtain S G context _) _ w3
                    (step d 0 0 1 (obtain-trace S G _ context _ w3 e3))
                    λ c w4 e4.
                      Sat-bind (obtain S G surface _) _ w4
                        (step d c 0 2 (obtain-trace S G _ surface _ w4 e4))
                        λ f w5 e5.
                          Sat-bind (calling S G _) _ w5 (step d c f 3 (calling-trace S G _ _ w5 e5))
                            λ current w6 e6.
                              Sat-bind (checking S G current) _ w6
                                (step d c f 3 (checking-trace S G _ current w6 e6))
                                (λ _ w7 e7. finish-Whole d c f w7 e7)

module _ (S : Platform) (G : Gpu S) where
  -- Where `init` succeeds, a display, a context and a surface have been made, in this order, those of
  -- the context that it gives. Where it fails, the first of such three may have been made; none of
  -- them has been released, and nothing else made.
  pub init-trace :
      (wl window : ℕ) (w : World S)
      → Sat
          (λ x w'. w'.trace ≡ after_making (held x) w.trace)
          (breaking_off S w.trace)
          (init S G wl window w)
  unfolding init
  init-trace wl window w =
      Sat-bind (choose_display S G wl) _ w
        (step S G w.trace 0 0 0 0 (choose_display-trace S G w.trace wl w refl))
        λ d w1 e1.
          Sat-bind (initialize S G d) _ w1
            (step S G w.trace 0 0 0 0 (initialize-trace S G w.trace d w1 e1))
            λ _ w2 e2. on_display-Whole S G w.trace window d w2 e2
