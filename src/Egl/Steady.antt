-- ===== src/Egl/Steady.antt =====
-- rust/subscriber/src/egl.rs, EglContext before and after the loop, for a count that does not
-- regard objects: each function ends.
pub mod Drawing
use pub_sub_v4l2_dmabuf_wayl.Base.{
  ℕ, ◌∙◌, List, ◌∷◌, Bool, Option, none, some, not, ◌||◌, ltb, if◌then◌else◌,
}
use pub_sub_v4l2_dmabuf_wayl.Effect.{ret, fail, other, pure, throw}
use pub_sub_v4l2_dmabuf_wayl.Effect.Triple.{Sat, Sat-bind, Sat-if, Sat-if_run}
use pub_sub_v4l2_dmabuf_wayl.Platform.{
  Platform, World, Event, Object, display, context, surface, created,
}
use pub_sub_v4l2_dmabuf_wayl.V4l2.Ioctl.Termination.{never, flowing}
use pub_sub_v4l2_dmabuf_wayl.V4l2.Ioctl.Steady.{Steady, Level}
use pub_sub_v4l2_dmabuf_wayl.Egl.{Gpu, EglContext}
use pub_sub_v4l2_dmabuf_wayl.Egl.Context.{
  calling, obtain, checking, platform_display, or_default, choose_display, initialize, first_config,
  choose_config, has_procs, finish, on_display, init, destroying, drop_context,
}

module _ (S : Platform) (G : Gpu S) (count : List Event → ℕ) (steady : Steady count) (n : ℕ) where
  -- The count stands at `n` where a step returns.
  abbrev On : {A : Type 0} → A → World S → Type 0
  On a w = Level S count steady n w

  calling-Level :
      {A : Type 0} (f : S.State → A × S.State) (w : World S)
      → Level S count steady n w
      → Sat On flowing (calling S G f w)
  unfolding calling
  calling-Level f w q = record { at = q }

  obtain-Level :
      (k : Object) (f : S.State → Option ℕ × S.State) (w : World S)
      → Level S count steady n w
      → Sat On flowing (obtain S G k f w)
  unfolding obtain
  obtain-Level k f w q = by_handle (f w.sys).0
    where
      by_handle :
          (o : Option ℕ)
          → Sat On flowing (
              let s = (f w.sys).1 in
              elim o [
                | none ↦ fail other (record w { sys = s })
                | some i ↦ ret i (record w { sys = s; trace = created k i ∷ w.trace })
              ])
      by_handle none = record { at = tt }
      by_handle (some i) = record { at = steady.at_created k i w.trace ∙ q }

  checking-Level :
      (b : Bool) (w : World S) → Level S count steady n w → Sat On flowing (checking S G b w)
  unfolding checking
  checking-Level b w q =
      Sat-if b (pure tt) (throw other) w (λ _. record { at = q }) (λ _. record { at = tt })

  or_default-Level :
      (wl : ℕ) (d : Option ℕ) (w : World S)
      → Level S count steady n w
      → Sat On flowing (or_default S G wl d w)
  unfolding or_default
  or_default-Level wl (some d) w q = record { at = q }
  or_default-Level wl none w q =
      Sat-bind {Q = On} (calling S G (G.get_display wl)) _ w (calling-Level (G.get_display wl) w q)
        (elim [ none ↦ λ w' k. record { at = tt } | some d ↦ λ w' k. record { at = k } ])

  choose_display-Level :
      (wl : ℕ) (w : World S) → Level S count steady n w → Sat On flowing (choose_display S G wl w)
  unfolding choose_display platform_display
  choose_display-Level wl w q =
      Sat-bind {Q = On} (platform_display S G wl) _ w
        (Sat-if _ (calling S G (G.get_platform_display wl)) (pure none) w
          (λ _. calling-Level (G.get_platform_display wl) w q) (λ _. record { at = q }))
        (or_default-Level wl)

  initialize-Level :
      (d : ℕ) (w : World S) → Level S count steady n w → Sat On flowing (initialize S G d w)
  unfolding initialize
  initialize-Level d w q =
      Sat-if_run (G.initialize d w.sys).0 _ _
        (λ _. record { at = steady.at_created display d w.trace ∙ q }) (λ _. record { at = tt })

  choose_config-Level :
      (d : ℕ) (w : World S) → Level S count steady n w → Sat On flowing (choose_config S G d w)
  unfolding choose_config first_config
  choose_config-Level d w q =
      Sat-bind {Q = On} (calling S G _) _ w (calling-Level _ w q) λ (fine, found, config) w' k.
        Sat-if (not fine || ltb found 1) (throw other) (pure config) w' (λ _. record { at = tt })
          (λ _. record { at = k })

  on_display-Level :
      (window d : ℕ) (w : World S)
      → Level S count steady n w
      → Sat On flowing (on_display S G window d w)
  unfolding on_display finish
  on_display-Level window d w q =
      Sat-bind {Q = On} (calling S G G.bind_api) _ w (calling-Level G.bind_api w q) λ bound w1 q1.
        Sat-bind (checking S G bound) _ w1 (checking-Level bound w1 q1) λ _ w2 q2.
          Sat-bind (choose_config S G d) _ w2 (choose_config-Level d w2 q2) λ config w3 q3.
            Sat-bind (obtain S G context _) _ w3 (obtain-Level context _ w3 q3) λ c w4 q4.
              Sat-bind (obtain S G surface _) _ w4 (obtain-Level surface _ w4 q4) λ f w5 q5.
                Sat-bind {Q = On} (calling S G _) _ w5 (calling-Level _ w5 q5) λ current w6 q6.
                  Sat-bind (checking S G current) _ w6 (checking-Level current w6 q6) λ _ w7 q7.
                    Sat-bind (checking S G (has_procs S G w7.sys)) _ w7
                      (checking-Level (has_procs S G w7.sys) w7 q7) (λ _ w8 q8. record { at = q8 })

  pub init-Level :
      (wl window : ℕ) (w : World S)
      → Level S count steady n w
      → Sat (λ _ w'. Level S count steady n w') flowing (init S G wl window w)
  unfolding init
  init-Level wl window w q =
      Sat-bind (choose_display S G wl) _ w (choose_display-Level wl w q) λ d w1 q1.
        Sat-bind (initialize S G d) _ w1 (initialize-Level d w1 q1)
          λ _ w2 q2. on_display-Level window d w2 q2

  pub drop_context-Level :
      (x : EglContext) (w : World S)
      → Level S count steady n w
      → Sat (λ _ w'. Level S count steady n w') never (drop_context S G x w)
  unfolding drop_context calling destroying
  drop_context-Level x w q = record {
    at =
        steady.at_deleted display x.display _
        ∙ (steady.at_deleted context x.context _ ∙ (steady.at_deleted surface x.surface _ ∙ q));
  }
