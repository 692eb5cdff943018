-- ===== src/Egl/Resources.antt =====
-- rust/subscriber/src/egl.rs: the objects that the shaders and the program hold.
pub mod Quad
pub mod Steps
pub mod Display
pub mod Creation
use pub_sub_v4l2_dmabuf_wayl.Base.{
  ℕ, zero, suc, ◌+◌, ◌≡◌, refl, List, [], ◌∷◌, ◌++◌, Bool, true, false, not, Option, none, some,
  ◌⊎◌, inl, inr, arith, ◌==◌, ltb, ◌||◌, if◌then◌else◌,
}
use pub_sub_v4l2_dmabuf_wayl.Effect.{
  other, pure, throw, ◌>>=◌, ◌>>◌, Run, ret, fail, panic, spin, IoError,
}
use pub_sub_v4l2_dmabuf_wayl.Effect.Triple.{
  Exits, Sat, Sat-bind, Sat-bind_known, Sat-if, Sat-weaken,
}
use pub_sub_v4l2_dmabuf_wayl.Platform.{
  Platform, World, Event, Object, display, context, surface, shader, program, vertex_buffer,
  texture,
}
use pub_sub_v4l2_dmabuf_wayl.Platform.Objects.{
  Keeps, one_of, Keeps-swap, Keeps-under, Keeps-none, Keeps-joined, Keeps-split, times,
  times-append, Keeps-same, Keeps-note_created, Keeps-note_deleted,
}
use pub_sub_v4l2_dmabuf_wayl.Egl.{Gpu, GlCall, gl_calls, making, deleting}
use pub_sub_v4l2_dmabuf_wayl.Egl.Shaders.{
  vs, fs_rgb, fs_yuv, check_shader, compile_shader, check_program, link_shaders, link_program,
}
use pub_sub_v4l2_dmabuf_wayl.Egl.Renderer.{
  QuadRenderer, is_yuv, make_quad, init, delete_unless_zero, drop_renderer,
}

-- A failure leaves what there was.
abbrev pub keeping : (S : Platform) → List ℕ → List (Object × ℕ) → Exits (World S)
keeping S fds xs = record {
  failing = λ _ w. Keeps fds xs w.trace;
  panicking = λ _. ⊥;
  spinning = λ _. ⊥;
}

-- A failure leaves what there was and possibly one shader more.
abbrev pub leaking : (S : Platform) → List ℕ → List (Object × ℕ) → Exits (World S)
leaking S fds xs = record {
  failing = λ _ w. (v : ℕ) × Keeps fds (one_of shader v ++ xs) w.trace;
  panicking = λ _. ⊥;
  spinning = λ _. ⊥;
}

-- A failure leaves what there was, and one shader more only if that is a vertex shader which has
-- been compiled, after which the fragment shader was not.
abbrev pub linking :
    (S : Platform)
    → Gpu S
    → (vs_src fs_src : List ℕ) → World S
    → List ℕ
    → List (Object × ℕ)
    → Exits (World S)
linking S G vs_src fs_src w fds xs = record {
  failing = λ e w'.
      Keeps fds xs w'.trace
      ⊎ ((v : ℕ) × (w1 : World S) × (compile_shader S G G.egl.gl_vertex_shader vs_src w ≡ ret v w1)
          × (compile_shader S G G.egl.gl_fragment_shader fs_src w1 ≡ fail e w')
          × Keeps fds (one_of shader v ++ xs) w'.trace);
  panicking = λ _. ⊥;
  spinning = λ _. ⊥;
}

module _ (S : Platform) (G : Gpu S) {X : Exits (World S)} {fds : List ℕ}
    (xs : List (Object × ℕ)) where
  pub making-Keeps :
      (k : Object) (f : S.State → ℕ × S.State) (w : World S)
      → Keeps fds xs w.trace
      → Sat (λ i w'. Keeps fds (one_of k i ++ xs) w'.trace) X (making S G k f w)
  unfolding making
  making-Keeps k f w h = record { at = Keeps-note_created k (f w.sys).0 h }

  pub deleting-Keeps :
      (k : Object) (i : ℕ) (w : World S)
      → Keeps fds (one_of k i ++ xs) w.trace
      → Sat (λ _ w'. Keeps fds xs w'.trace) X (deleting S G k i w)
  unfolding deleting
  deleting-Keeps k i w h = record { at = Keeps-note_deleted k i h }

  pub gl_calls-Keeps :
      (calls : List GlCall) (w : World S)
      → Keeps fds xs w.trace
      → Sat (λ _ w'. Keeps fds xs w'.trace) X (gl_calls S G calls w)
  unfolding gl_calls
  gl_calls-Keeps calls w h = record { at = h }

module _ (S : Platform) (G : Gpu S) {fds : List ℕ} (xs : List (Object × ℕ)) where
  check_shader-Keeps :
      (sh : ℕ) (w : World S)
      → Keeps fds (one_of shader sh ++ xs) w.trace
      → Sat
          (λ sh' w'. Keeps fds (one_of shader sh' ++ xs) w'.trace)
          (keeping S fds xs)
          (check_shader S G sh w)
  unfolding check_shader
  check_shader-Keeps sh w h =
      Sat-if (G.compile_status sh w.sys) (pure sh) (deleting S G shader sh >> throw other) w
        (λ _. record { at = h })
        (λ _.
          Sat-bind (deleting S G shader sh) _ w (deleting-Keeps S G xs shader sh w h)
            (λ _ w' k. record { at = k }))

  compile_shader-Keeps :
      (kind : ℕ) (src : List ℕ) (w : World S)
      → Keeps fds xs w.trace
      → Sat
          (λ sh w'. Keeps fds (one_of shader sh ++ xs) w'.trace)
          (keeping S fds xs)
          (compile_shader S G kind src w)
  unfolding compile_shader
  compile_shader-Keeps kind src w h =
      Sat-bind (making S G shader (G.create_shader kind)) _ w (making-Keeps S G xs shader _ w h)
        λ sh w' k.
          Sat-bind (gl_calls S G _) _ w' (gl_calls-Keeps S G _ _ w' k) (λ _. check_shader-Keeps sh)

  check_program-Keeps :
      (p : ℕ) (w : World S)
      → Keeps fds (one_of program p ++ xs) w.trace
      → Sat
          (λ p' w'. Keeps fds (one_of program p' ++ xs) w'.trace)
          (keeping S fds xs)
          (check_program S G p w)
  unfolding check_program
  check_program-Keeps p w h =
      Sat-if (G.link_status p w.sys) (pure p) (deleting S G program p >> throw other) w
        (λ _. record { at = h })
        (λ _.
          Sat-bind (deleting S G program p) _ w (deleting-Keeps S G xs program p w h)
            (λ _ w' k. record { at = k }))

  link_shaders-Keeps :
      (v f : ℕ) (w : World S)
      → Keeps fds (one_of shader f ++ (one_of shader v ++ xs)) w.trace
      → Sat
          (λ p w'. Keeps fds (one_of program p ++ xs) w'.trace)
          (keeping S fds xs)
          (link_shaders S G v f w)
  unfolding link_shaders
  link_shaders-Keeps v f w h =
      Sat-bind (making S G program G.create_program) _ w (making-Keeps S G _ program _ w h)
        λ p w1 k1. Sat-bind (gl_calls S G _) _ w1 (gl_calls-Keeps S G _ _ w1 k1) λ _ w2 k2.
          Sat-bind (deleting S G shader v) _ w2
            (deleting-Keeps S G _ shader v w2 (
              Keeps-swap (one_of program p) (one_of shader v) _
                (Keeps-under (one_of program p) (one_of shader f) (one_of shader v) xs k2)))
            λ _ w3 k3.
              Sat-bind (deleting S G shader f) _ w3
                (deleting-Keeps S G _ shader f w3
                  (Keeps-swap (one_of program p) (one_of shader f) xs k3))
                (λ _. check_program-Keeps p)

module _ (S : Platform) (G : Gpu S) {fds : List ℕ} (xs : List (Object × ℕ)) where
  pub link_program-Keeps :
      (vs_src fs_src : List ℕ) (w : World S)
      → Keeps fds xs w.trace
      → Sat
          (λ p w'. Keeps fds (one_of program p ++ xs) w'.trace)
          (linking S G vs_src fs_src w fds xs)
          (link_program S G vs_src fs_src w)
  unfolding link_program
  link_program-Keeps vs_src fs_src w h =
      Sat-bind_known (compile_shader S G G.egl.gl_vertex_shader vs_src) _ w
        (Sat-weaken {Y = keeping S fds xs} _ (compile_shader-Keeps S G xs _ vs_src w h) (λ _ _ k. k)
          (λ _ _ k. inl k) (λ _ k. absurd k) (λ _ k. absurd k))
        λ v w' made k.
          Sat-bind (compile_shader S G G.egl.gl_fragment_shader fs_src) _ w'
            (Sat-known (compile_shader S G G.egl.gl_fragment_shader fs_src w')
              (compile_shader-Keeps S G (one_of shader v ++ xs) _ fs_src w' k)
              (λ e w2 failed k'. inr (v, w', made, failed, k')))
            λ f w2 k2.
              Sat-weaken {Y = keeping S fds xs} _ (link_shaders-Keeps S G xs v f w2 k2)
                (λ _ _ k'. k') (λ _ _ k'. inl k') (λ _ k'. absurd k') (λ _ k'. absurd k')
    where
      -- A failure comes with the equation that says of which call it is one.
      Sat-known :
          {Q : ℕ → World S → Type 0} {ys : List (Object × ℕ)} (r : Run (World S) ℕ)
          → Sat Q (keeping S fds ys) r
          → ((e : IoError) (w' : World S)
              → r ≡ fail e w'
              → Keeps fds ys w'.trace
              → (linking S G vs_src fs_src w fds xs).failing e w')
          → Sat Q (linking S G vs_src fs_src w fds xs) r
      Sat-known (ret a w') s f = record { at = s.at }
      Sat-known (fail e w') s f = record { at = f e w' refl s.at }
      Sat-known (panic w') s f = absurd s.at
      Sat-known (spin w') s f = absurd s.at

-- The same of any shader that may be left.
pub linking-leaking :
    (S : Platform) (G : Gpu S) (vs_src fs_src : List ℕ) (w : World S) {fds : List ℕ}
    {xs : List (Object × ℕ)} (e : IoError) (w' : World S)
    → (linking S G vs_src fs_src w fds xs).failing e w'
    → (leaking S fds xs).failing e w'
linking-leaking S G vs_src fs_src w e w' (inl k) = (0, k)
linking-leaking S G vs_src fs_src w e w' (inr (v, w1, made, failed, k)) = (v, k)
