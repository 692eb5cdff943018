-- ===== src/Egl/Resources/Quad.antt =====
-- rust/subscriber/src/egl.rs: the objects that the renderer holds.
use pub_sub_v4l2_dmabuf_wayl.Base.{ℕ, List, ◌++◌, ◌==◌, if◌then◌else◌}
use pub_sub_v4l2_dmabuf_wayl.Effect.{pure}
use pub_sub_v4l2_dmabuf_wayl.Effect.Triple.{Exits, Sat, Sat-bind, Sat-if, Sat-weaken}
use pub_sub_v4l2_dmabuf_wayl.Platform.{Platform, World, Object, program, vertex_buffer, texture}
use pub_sub_v4l2_dmabuf_wayl.Platform.Objects.{Keeps, one_of, Keeps-none, Keeps-joined, Keeps-split}
use pub_sub_v4l2_dmabuf_wayl.Egl.{Gpu, gl_calls, making, deleting}
use pub_sub_v4l2_dmabuf_wayl.Egl.Shaders.{vs, fs_rgb, fs_yuv, link_program}
use pub_sub_v4l2_dmabuf_wayl.Egl.Renderer.{
  QuadRenderer, is_yuv, make_quad, init, delete_unless_zero, drop_renderer,
}
use pub_sub_v4l2_dmabuf_wayl.Egl.Resources.{
  making-Keeps, deleting-Keeps, gl_calls-Keeps, leaking, linking, linking-leaking,
  link_program-Keeps,
}

-- The names of what a renderer holds.
abbrev pub objects : QuadRenderer → List (Object × ℕ)
objects r = one_of texture r.texture ++ (one_of vertex_buffer r.vbo ++ one_of program r.program)

module _ (S : Platform) (G : Gpu S) {fds : List ℕ} (xs : List (Object × ℕ)) where
  make_quad-Keeps :
      (format p : ℕ) (w : World S)
      → Keeps fds (one_of program p ++ xs) w.trace
      → Sat
          (λ r w'. Keeps fds (objects r ++ xs) w'.trace)
          (leaking S fds xs)
          (make_quad S G format p w)
  unfolding make_quad
  make_quad-Keeps format p w h =
      Sat-bind (making S G vertex_buffer G.gen_buffer) _ w (making-Keeps S G _ vertex_buffer _ w h)
        λ b w1 k1. Sat-bind (gl_calls S G _) _ w1 (gl_calls-Keeps S G _ _ w1 k1) λ _ w2 k2.
          Sat-bind (making S G texture G.gen_texture) _ w2 (making-Keeps S G _ texture _ w2 k2)
            λ t w3 k3. Sat-bind (gl_calls S G _) _ w3 (gl_calls-Keeps S G _ _ w3 k3) λ _ w4 k4.
              record {
                at =
                    Keeps-joined (one_of texture t) (one_of vertex_buffer b) (one_of program p) xs
                      k4;
              }

  pub init-Keeps :
      (format : ℕ) (w : World S)
      → Keeps fds xs w.trace
      → Sat (λ r w'. Keeps fds (objects r ++ xs) w'.trace) (leaking S fds xs) (init S G format w)
  unfolding init
  init-Keeps format w h =
      Sat-bind (link_program S G vs (if is_yuv S G format then fs_yuv else fs_rgb)) _ w
        (Sat-weaken {Y = linking S G vs (if is_yuv S G format then fs_yuv else fs_rgb) w fds xs} _
          (link_program-Keeps S G xs vs _ w h) (λ _ _ k. k) (linking-leaking S G vs _ w) (λ _ k. k)
          (λ _ k. k))
        (λ p w'. make_quad-Keeps format p w')

module _ (S : Platform) (G : Gpu S) {X : Exits (World S)} {fds : List ℕ}
    (xs : List (Object × ℕ)) where
  delete_unless_zero-Keeps :
      (k : Object) (i : ℕ) (w : World S)
      → Keeps fds (one_of k i ++ xs) w.trace
      → Sat (λ _ w'. Keeps fds xs w'.trace) X (delete_unless_zero S G k i w)
  unfolding delete_unless_zero
  delete_unless_zero-Keeps k i w h =
      Sat-if (i == 0) (pure tt) (deleting S G k i) w (λ e. record { at = Keeps-none k i e h })
        (λ _. deleting-Keeps S G xs k i w h)

module _ (S : Platform) (G : Gpu S) {X : Exits (World S)} {fds : List ℕ}
    (xs : List (Object × ℕ)) where
  -- The renderer's drop deletes what it holds.
  pub drop_renderer-Keeps :
      (r : QuadRenderer) (w : World S)
      → Keeps fds (objects r ++ xs) w.trace
      → Sat (λ _ w'. Keeps fds xs w'.trace) X (drop_renderer S G r w)
  unfolding drop_renderer
  drop_renderer-Keeps r w h =
      Sat-bind (delete_unless_zero S G texture r.texture) _ w
        (delete_unless_zero-Keeps S G _ texture r.texture w (
          Keeps-split (one_of texture r.texture) (one_of vertex_buffer r.vbo)
            (one_of program r.program) xs h))
        λ _ w1 k1.
          Sat-bind (delete_unless_zero S G vertex_buffer r.vbo) _ w1
            (delete_unless_zero-Keeps S G _ vertex_buffer r.vbo w1 k1)
            λ _ w2. delete_unless_zero-Keeps S G xs program r.program w2
