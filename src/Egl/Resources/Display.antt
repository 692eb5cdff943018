-- ===== src/Egl/Resources/Display.antt =====
-- rust/subscriber/src/egl.rs: the objects that `EglContext` holds.
use pub_sub_v4l2_dmabuf_wayl.Base.{ℕ, ◌≡◌, List, [], ◌∷◌, ◌++◌, false, none, some, arith, take}
use pub_sub_v4l2_dmabuf_wayl.Effect.{Run, ◌>>=◌, ◌>>◌}
use pub_sub_v4l2_dmabuf_wayl.Effect.Triple.{Exits, Sat, Sat-bind, Sat-weaken}
use pub_sub_v4l2_dmabuf_wayl.Platform.{Platform, World, Object, display, context, surface}
use pub_sub_v4l2_dmabuf_wayl.Platform.Objects.{Keeps, times, Keeps-same}
use pub_sub_v4l2_dmabuf_wayl.Egl.{Gpu, EglContext}
use pub_sub_v4l2_dmabuf_wayl.Egl.Context.{
  calling, obtain, checking, choose_display, initialize, choose_config, finish, has_procs,
  on_display, init, destroying, drop_context,
}
use pub_sub_v4l2_dmabuf_wayl.Egl.Resources.{keeping}
use pub_sub_v4l2_dmabuf_wayl.Egl.Resources.Steps.{
  calling-Keeps, destroying-Keeps, checking-Keeps, obtain-Keeps, choose_display-Keeps,
  initialize-Keeps, choose_config-Keeps,
}

-- What a context holds, in the order in which it is made.
abbrev pub held : EglContext → List (Object × ℕ)
held x = (display, x.display) ∷ (context, x.context) ∷ (surface, x.surface) ∷ []

-- A failure leaves the first of the objects of a context, possibly none or all of them.
abbrev pub unreleased : (S : Platform) → List ℕ → List (Object × ℕ) → Exits (World S)
unreleased S fds xs = record {
  failing = λ _ w. (x : EglContext) × (n : ℕ) × Keeps fds (take n (held x) ++ xs) w.trace;
  panicking = λ _. ⊥;
  spinning = λ _. ⊥;
}

abbrev some_context : ℕ → ℕ → ℕ → EglContext
some_context d c f = record { display = d; context = c; surface = f; has_modifiers = false }

module _ (S : Platform) (G : Gpu S) {fds : List ℕ} (xs : List (Object × ℕ)) where
  finish-Keeps :
      (d c f : ℕ) (w : World S)
      → Keeps fds ((surface, f) ∷ (context, c) ∷ (display, d) ∷ xs) w.trace
      → Sat
          (λ x w'. Keeps fds (held x ++ xs) w'.trace)
          (keeping S fds ((surface, f) ∷ (context, c) ∷ (display, d) ∷ xs))
          (finish S G d c f w)
  unfolding finish
  finish-Keeps d c f w h =
      Sat-bind (checking S G (has_procs S G w.sys)) _ w
        (checking-Keeps S G _ (has_procs S G w.sys) w h)
        (λ _ w' k. record { at = Keeps-same (λ l i. omega arith) k })

  -- What fails while it keeps the first objects of a context leaves these.
  early :
      {A : Type 0} {Q : A → World S → Type 0} {r : Run (World S) A} {ys : List (Object × ℕ)}
      (x : EglContext) (n : ℕ)
      → ((k : Object) (i : ℕ) → times k i ys ≡ times k i (take n (held x) ++ xs))
      → Sat Q (keeping S fds ys) r
      → Sat Q (unreleased S fds xs) r
  early {r} {ys} x n e h =
      Sat-weaken {Y = keeping S fds ys} r h (λ _ _ k. k) (λ _ _ k. (x, n, Keeps-same e k))
        (λ _ k. absurd k) (λ _ k. absurd k)

  -- Once there is the surface.
  surfaced-Keeps :
      (d c f : ℕ) (w : World S)
      → Keeps fds ((surface, f) ∷ (context, c) ∷ (display, d) ∷ xs) w.trace
      → Sat
          (λ x w'. Keeps fds (held x ++ xs) w'.trace)
          (unreleased S fds xs)
          ((calling S G (G.make_current d (some f) (some c)) >>= λ current.
              checking S G current >> finish S G d c f)
            w)
  surfaced-Keeps d c f w h =
      early (some_context d c f) 3 (λ k i. omega arith)
        (Sat-bind (calling S G _) _ w (calling-Keeps S G _ _ w h) λ current w1 k1.
          Sat-bind (checking S G current) _ w1 (checking-Keeps S G _ current w1 k1)
            (λ _ w2 k2. finish-Keeps d c f w2 k2))

  -- Once there is the display.
  displayed-Keeps :
      (window d : ℕ) (w : World S)
      → Keeps fds ((display, d) ∷ xs) w.trace
      → Sat
          (λ x w'. Keeps fds (held x ++ xs) w'.trace)
          (unreleased S fds xs)
          (on_display S G window d w)
  unfolding on_display
  displayed-Keeps window d w h =
      Sat-bind (calling S G G.bind_api) _ w (calling-Keeps S G _ _ w h) λ bound w1 k1.
        Sat-bind (checking S G bound) _ w1 (displayed (checking-Keeps S G _ bound w1 k1)) λ _ w2 k2.
          Sat-bind (choose_config S G d) _ w2 (displayed (choose_config-Keeps S G _ d w2 k2))
            λ config w3 k3.
              Sat-bind (obtain S G context _) _ w3 (displayed (obtain-Keeps S G _ context _ w3 k3))
                λ c w4 k4.
                  Sat-bind (obtain S G surface _) _ w4
                    (early (some_context d c 0) 2 (λ k i. omega arith)
                      (obtain-Keeps S G _ surface _ w4 k4))
                    (λ f. surfaced-Keeps d c f)
    where
      displayed :
          {A : Type 0} {Q : A → World S → Type 0} {r : Run (World S) A}
          → Sat Q (keeping S fds ((display, d) ∷ xs)) r
          → Sat Q (unreleased S fds xs) r
      displayed = early (some_context d 0 0) 1 (λ k i. omega arith)

  -- Where `init` succeeds, a display, a context and a surface are held, those of the context that it
  -- gives; where it fails, those of them that had been made by then are still there.
  pub init-held :
      (wl window : ℕ) (w : World S)
      → Keeps fds xs w.trace
      → Sat (λ x w'. Keeps fds (held x ++ xs) w'.trace) (unreleased S fds xs) (init S G wl window w)
  unfolding init
  init-held wl window w h =
      Sat-bind (choose_display S G wl) _ w
        (early (some_context 0 0 0) 0 (λ k i. omega arith) (choose_display-Keeps S G xs wl w h))
        λ d w1 k1.
          Sat-bind (initialize S G d) _ w1
            (early (some_context 0 0 0) 0 (λ k i. omega arith) (initialize-Keeps S G xs d w1 k1))
            λ _ w2 k2. displayed-Keeps window d w2 k2

module _ (S : Platform) (G : Gpu S) {X : Exits (World S)} {fds : List ℕ}
    (xs : List (Object × ℕ)) where
  -- The drop of a context releases what it holds.
  pub drop_context-Keeps :
      (x : EglContext) (w : World S)
      → Keeps fds (held x ++ xs) w.trace
      → Sat (λ _ w'. Keeps fds xs w'.trace) X (drop_context S G x w)
  unfolding drop_context
  drop_context-Keeps x w h =
      Sat-bind (calling S G (G.make_current x.display none none)) _ w
        (calling-Keeps S G _ _ w (Keeps-same (λ k i. omega arith) h))
        λ _ w1 k1.
          Sat-bind (destroying S G surface x.surface (G.destroy_surface x.display x.surface)) _ w1
            (destroying-Keeps S G ((context, x.context) ∷ (display, x.display) ∷ xs) surface
              x.surface _ w1 k1)
            λ _ w2 k2.
              Sat-bind (destroying S G context x.context (G.destroy_context x.display x.context)) _
                w2 (destroying-Keeps S G ((display, x.display) ∷ xs) context x.context _ w2 k2)
                λ _ w3. destroying-Keeps S G xs display x.display _ w3
