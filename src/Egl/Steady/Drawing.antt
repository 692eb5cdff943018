-- ===== src/Egl/Steady/Drawing.antt =====
-- rust/subscriber/src/egl.rs, QuadRenderer before and after the loop, for a count that does not
-- regard objects: each function ends.
use pub_sub_v4l2_dmabuf_wayl.Base.{
  ℕ, ◌≡◌, refl, ◌∙◌, List, [], ◌∷◌, ◌++◌, Bool, true, false, ◌==◌, if◌then◌else◌,
}
use pub_sub_v4l2_dmabuf_wayl.Effect.{other, pure, throw, ◌>>◌}
use pub_sub_v4l2_dmabuf_wayl.Effect.Triple.{Exits, Sat, Sat-bind, Sat-if}
use pub_sub_v4l2_dmabuf_wayl.Platform.{
  Platform, World, Event, Object, shader, program, vertex_buffer, texture, created, deleted,
}
use pub_sub_v4l2_dmabuf_wayl.Platform.Objects.{note_created, note_deleted}
use pub_sub_v4l2_dmabuf_wayl.V4l2.Ioctl.Termination.{never, flowing}
use pub_sub_v4l2_dmabuf_wayl.V4l2.Ioctl.Steady.{Steady, Level}
use pub_sub_v4l2_dmabuf_wayl.Egl.{Gpu, GlCall, gl_calls, making, deleting}
use pub_sub_v4l2_dmabuf_wayl.Egl.Shaders.{
  check_shader, compile_shader, check_program, link_shaders, link_program,
}
use pub_sub_v4l2_dmabuf_wayl.Egl.Renderer.{
  QuadRenderer, make_quad, delete_unless_zero, drop_renderer,
}
use pub_sub_v4l2_dmabuf_wayl.Egl.Renderer as Renderer

module _ (S : Platform) (G : Gpu S) (count : List Event → ℕ) (steady : Steady count) (n : ℕ) where
  -- The count stands at `n` where a step returns.
  abbrev On : {A : Type 0} → A → World S → Type 0
  On a w = Level S count steady n w

  made : (k : Object) (i : ℕ) (t : List Event) → count (note_created k i ++ t) ≡ count t
  made k i t = by_test (i == 0)
    where
      by_test : (b : Bool) → count ((if b then [] else created k i ∷ []) ++ t) ≡ count t
      by_test true = refl
      by_test false = steady.at_created k i t

  unmade : (k : Object) (i : ℕ) (t : List Event) → count (note_deleted k i ++ t) ≡ count t
  unmade k i t = by_test (i == 0)
    where
      by_test : (b : Bool) → count ((if b then [] else deleted k i ∷ []) ++ t) ≡ count t
      by_test true = refl
      by_test false = steady.at_deleted k i t

  making-Level :
      (k : Object) (f : S.State → ℕ × S.State) (w : World S)
      → Level S count steady n w
      → Sat On flowing (making S G k f w)
  unfolding making
  making-Level k f w q = record { at = made k (f w.sys).0 w.trace ∙ q }

  deleting-Level :
      {X : Exits (World S)} (k : Object) (i : ℕ) (w : World S)
      → Level S count steady n w
      → Sat On X (deleting S G k i w)
  unfolding deleting
  deleting-Level k i w q = record { at = unmade k i w.trace ∙ q }

  gl_calls-Level :
      (cs : List GlCall) (w : World S)
      → Level S count steady n w
      → Sat On flowing (gl_calls S G cs w)
  unfolding gl_calls
  gl_calls-Level cs w q = record { at = q }

  -- What is left where the status is not fine.
  dropped-Level :
      (k : Object) (i : ℕ) (w : World S)
      → Level S count steady n w
      → Sat {A = ℕ} On flowing ((deleting S G k i >> throw other) w)
  dropped-Level k i w q =
      Sat-bind (deleting S G k i) (λ _. throw other) w (deleting-Level k i w q)
        (λ _ _ _. record { at = tt })

  check_shader-Level :
      (sh : ℕ) (w : World S) → Level S count steady n w → Sat On flowing (check_shader S G sh w)
  unfolding check_shader
  check_shader-Level sh w q =
      Sat-if (G.compile_status sh w.sys) (pure sh) (deleting S G shader sh >> throw other) w
        (λ _. record { at = q }) (λ _. dropped-Level shader sh w q)

  check_program-Level :
      (p : ℕ) (w : World S) → Level S count steady n w → Sat On flowing (check_program S G p w)
  unfolding check_program
  check_program-Level p w q =
      Sat-if (G.link_status p w.sys) (pure p) (deleting S G program p >> throw other) w
        (λ _. record { at = q }) (λ _. dropped-Level program p w q)

  compile_shader-Level :
      (kind : ℕ) (src : List ℕ) (w : World S)
      → Level S count steady n w
      → Sat On flowing (compile_shader S G kind src w)
  unfolding compile_shader
  compile_shader-Level kind src w q =
      Sat-bind (making S G shader (G.create_shader kind)) _ w (making-Level shader _ w q)
        λ sh w1 q1.
          Sat-bind {Q = On} (gl_calls S G _) _ w1 (gl_calls-Level _ w1 q1)
            λ _ w2 q2. check_shader-Level sh w2 q2

  link_shaders-Level :
      (v f : ℕ) (w : World S) → Level S count steady n w → Sat On flowing (link_shaders S G v f w)
  unfolding link_shaders
  link_shaders-Level v f w q =
      Sat-bind (making S G program G.create_program) _ w (making-Level program _ w q) λ p w1 q1.
        Sat-bind {Q = On} (gl_calls S G _) _ w1 (gl_calls-Level _ w1 q1) λ _ w2 q2.
          Sat-bind (deleting S G shader v) _ w2 (deleting-Level shader v w2 q2) λ _ w3 q3.
            Sat-bind (deleting S G shader f) _ w3 (deleting-Level shader f w3 q3)
              λ _ w4 q4. check_program-Level p w4 q4

  link_program-Level :
      (vs fs : List ℕ) (w : World S)
      → Level S count steady n w
      → Sat On flowing (link_program S G vs fs w)
  unfolding link_program
  link_program-Level vs fs w q =
      Sat-bind (compile_shader S G G.egl.gl_vertex_shader vs) _ w (compile_shader-Level _ vs w q)
        λ v w1 q1.
          Sat-bind (compile_shader S G G.egl.gl_fragment_shader fs) _ w1
            (compile_shader-Level _ fs w1 q1) λ f w2 q2. link_shaders-Level v f w2 q2

  pub renderer-Level :
      (format : ℕ) (w : World S)
      → Level S count steady n w
      → Sat (λ _ w'. Level S count steady n w') flowing (Renderer.init S G format w)
  unfolding Renderer.init make_quad
  renderer-Level format w q =
      Sat-bind (link_program S G _ _) _ w (link_program-Level _ _ w q) λ p w1 q1.
        Sat-bind (making S G vertex_buffer G.gen_buffer) _ w1 (making-Level vertex_buffer _ w1 q1)
          λ b w2 q2. Sat-bind {Q = On} (gl_calls S G _) _ w2 (gl_calls-Level _ w2 q2) λ _ w3 q3.
            Sat-bind (making S G texture G.gen_texture) _ w3 (making-Level texture _ w3 q3)
              λ t w4 q4.
                Sat-bind {Q = On} (gl_calls S G _) _ w4 (gl_calls-Level _ w4 q4)
                  (λ _ _ q5. record { at = q5 })

  delete_unless_zero-Level :
      (k : Object) (i : ℕ) (w : World S)
      → Level S count steady n w
      → Sat On never (delete_unless_zero S G k i w)
  unfolding delete_unless_zero
  delete_unless_zero-Level k i w q =
      Sat-if (i == 0) (pure tt) (deleting S G k i) w (λ _. record { at = q })
        (λ _. deleting-Level k i w q)

  pub drop_renderer-Level :
      (r : QuadRenderer) (w : World S)
      → Level S count steady n w
      → Sat (λ _ w'. Level S count steady n w') never (drop_renderer S G r w)
  unfolding drop_renderer
  drop_renderer-Level r w q =
      Sat-bind (delete_unless_zero S G texture r.texture) _ w
        (delete_unless_zero-Level texture r.texture w q)
        λ _ w1 q1.
          Sat-bind (delete_unless_zero S G vertex_buffer r.vbo) _ w1
            (delete_unless_zero-Level vertex_buffer r.vbo w1 q1)
            λ _ w2 q2. delete_unless_zero-Level program r.program w2 q2
