-- ===== src/Egl/Resources/Steps.antt =====
-- rust/subscriber/src/egl.rs: the objects in the steps of `EglContext::init` and its drop.
use pub_sub_v4l2_dmabuf_wayl.Base.{ℕ, List, ◌∷◌, Bool, Option, none, some, not, ◌||◌, ltb}
use pub_sub_v4l2_dmabuf_wayl.Effect.{ret, fail, other, pure, throw}
use pub_sub_v4l2_dmabuf_wayl.Effect.Triple.{Exits, Sat, Sat-bind, Sat-if, Sat-if_run}
use pub_sub_v4l2_dmabuf_wayl.Platform.{Platform, World, Object, display, created}
use pub_sub_v4l2_dmabuf_wayl.Platform.Objects.{Keeps, Keeps-created, Keeps-deleted}
use pub_sub_v4l2_dmabuf_wayl.Egl.{Gpu}
use pub_sub_v4l2_dmabuf_wayl.Egl.Context.{
  calling, obtain, checking, choose_display, platform_display, or_default, initialize,
  choose_config, first_config, destroying,
}
use pub_sub_v4l2_dmabuf_wayl.Egl.Resources.{keeping}

module _ (S : Platform) (G : Gpu S) {X : Exits (World S)} {fds : List ℕ}
    (xs : List (Object × ℕ)) where
  pub calling-Keeps :
      {A : Type 0} (f : S.State → A × S.State) (w : World S)
      → Keeps fds xs w.trace
      → Sat (λ _ w'. Keeps fds xs w'.trace) X (calling S G f w)
  unfolding calling
  calling-Keeps f w h = record { at = h }

  pub destroying-Keeps :
      (k : Object) (i : ℕ) (f : S.State → S.State) (w : World S)
      → Keeps fds ((k, i) ∷ xs) w.trace
      → Sat (λ _ w'. Keeps fds xs w'.trace) X (destroying S G k i f w)
  unfolding destroying
  destroying-Keeps k i f w h = record { at = Keeps-deleted k i h }

module _ (S : Platform) (G : Gpu S) {fds : List ℕ} (xs : List (Object × ℕ)) where
  pub checking-Keeps :
      (b : Bool) (w : World S)
      → Keeps fds xs w.trace
      → Sat (λ _ w'. Keeps fds xs w'.trace) (keeping S fds xs) (checking S G b w)
  unfolding checking
  checking-Keeps b w h =
      Sat-if b (pure tt) (throw other) w (λ _. record { at = h }) (λ _. record { at = h })

  pub obtain-Keeps :
      (k : Object) (f : S.State → Option ℕ × S.State) (w : World S)
      → Keeps fds xs w.trace
      → Sat (λ i w'. Keeps fds ((k, i) ∷ xs) w'.trace) (keeping S fds xs) (obtain S G k f w)
  unfolding obtain
  obtain-Keeps k f w h = by_handle (f w.sys).0
    where
      by_handle :
          (o : Option ℕ)
          → Sat
              (λ i (w' : World S). Keeps fds ((k, i) ∷ xs) w'.trace)
              (keeping S fds xs)
              (let s = (f w.sys).1 in
                elim o [
                  | none ↦ fail other (record w { sys = s })
                  | some i ↦ ret i (record w { sys = s; trace = created k i ∷ w.trace })
                ])
      by_handle none = record { at = h }
      by_handle (some i) = record { at = Keeps-created k i h }

  or_default-Keeps :
      (wl : ℕ) (d : Option ℕ) (w : World S)
      → Keeps fds xs w.trace
      → Sat (λ _ w'. Keeps fds xs w'.trace) (keeping S fds xs) (or_default S G wl d w)
  unfolding or_default
  or_default-Keeps wl (some d) w h = record { at = h }
  or_default-Keeps wl none w h =
      Sat-bind (calling S G (G.get_display wl)) _ w (calling-Keeps S G xs _ w h)
        (elim [ none ↦ λ w' k. record { at = k } | some d ↦ λ w' k. record { at = k } ])

  platform_display-Keeps :
      (wl : ℕ) (w : World S)
      → Keeps fds xs w.trace
      → Sat (λ _ w'. Keeps fds xs w'.trace) (keeping S fds xs) (platform_display S G wl w)
  unfolding platform_display
  platform_display-Keeps wl w h =
      Sat-if _ (calling S G (G.get_platform_display wl)) (pure none) w
        (λ _. calling-Keeps S G xs _ w h) (λ _. record { at = h })

  pub choose_display-Keeps :
      (wl : ℕ) (w : World S)
      → Keeps fds xs w.trace
      → Sat (λ _ w'. Keeps fds xs w'.trace) (keeping S fds xs) (choose_display S G wl w)
  unfolding choose_display
  choose_display-Keeps wl w h =
      Sat-bind (platform_display S G wl) _ w (platform_display-Keeps wl w h) (or_default-Keeps wl)

  pub initialize-Keeps :
      (d : ℕ) (w : World S)
      → Keeps fds xs w.trace
      → Sat (λ _ w'. Keeps fds ((display, d) ∷ xs) w'.trace) (keeping S fds xs) (initialize S G d w)
  unfolding initialize
  initialize-Keeps d w h =
      Sat-if_run (G.initialize d w.sys).0 _ _ (λ _. record { at = Keeps-created display d h })
        (λ _. record { at = h })

  pub choose_config-Keeps :
      (d : ℕ) (w : World S)
      → Keeps fds xs w.trace
      → Sat (λ _ w'. Keeps fds xs w'.trace) (keeping S fds xs) (choose_config S G d w)
  unfolding choose_config first_config
  choose_config-Keeps d w h =
      Sat-bind (calling S G _) _ w (calling-Keeps S G xs _ w h) λ (fine, count, config) w' k.
        Sat-if (not fine || ltb count 1) (throw other) (pure config) w' (λ _. record { at = k })
          (λ _. record { at = k })
