-- ===== src/Egl/Renderer.antt =====
-- rust/subscriber/src/egl.rs: `QuadRenderer`.
use pub_sub_v4l2_dmabuf_wayl.Base.{ℕ, List, [], ◌∷◌, Bool, ◌||◌, ◌==◌, if◌then◌else◌, codes}
use pub_sub_v4l2_dmabuf_wayl.Effect.{pure, ◌>>=◌, ◌>>◌, state}
use pub_sub_v4l2_dmabuf_wayl.Platform.{Platform, Io, Object, program, vertex_buffer, texture}
use pub_sub_v4l2_dmabuf_wayl.Egl.{
  Gpu, GlCall, viewport, clear_black, clear_color_buffer, bind_texture, image_target_texture,
  use_program, active_texture0, uniform1i, bind_array_buffer, enable_vertex_attrib_array,
  disable_vertex_attrib_array, vertex_attrib_pointer, draw_triangle_strip, buffer_data,
  tex_parameter, gl_calls, making, deleting,
}
use pub_sub_v4l2_dmabuf_wayl.Egl.Shaders.{vs, fs_rgb, fs_yuv, link_program}

-- The bits of 1.0 and of -1.0 as `f32`; those of 0.0 are 0.
abbrev one : ℕ
one = 1065353216

abbrev minus_one : ℕ
minus_one = 3212836864

-- Each vertex with its place on the screen and in the texture.
abbrev pub verts : List ℕ
verts =
    minus_one ∷ minus_one ∷ 0 ∷ one ∷ one ∷ minus_one ∷ one ∷ one ∷ minus_one ∷ one ∷ 0 ∷ 0 ∷ one
    ∷ one ∷ one ∷ 0 ∷ []

pub record QuadRenderer : Type 0 where
  pub program : ℕ
  pub texture : ℕ
  pub vbo : ℕ
  pub attr_pos : ℕ
  pub attr_uv : ℕ
  pub uni_tex : ℕ
  pub tex_target : ℕ
  pub viewport_w : ℕ
  pub viewport_h : ℕ

module _ (S : Platform) (G : Gpu S) where
  -- The formats that are sampled as YUV.
  abbrev pub is_yuv : ℕ → Bool
  is_yuv format = format == S.drm_yuyv || format == S.drm_nv12 || format == S.drm_nv21

  abbrev target_of : ℕ → ℕ
  target_of format = if is_yuv format then G.egl.gl_texture_external_oes else G.egl.gl_texture_2d

  abbrev texture_calls : ℕ → ℕ → List GlCall
  texture_calls target t =
      bind_texture target t
      ∷ tex_parameter target G.egl.gl_texture_min_filter G.egl.gl_linear
      ∷ tex_parameter target G.egl.gl_texture_mag_filter G.egl.gl_linear
      ∷ tex_parameter target G.egl.gl_texture_wrap_s G.egl.gl_clamp_to_edge
      ∷ tex_parameter target G.egl.gl_texture_wrap_t G.egl.gl_clamp_to_edge
      ∷ []

  unfoldable pub make_quad : ℕ → ℕ → Io S QuadRenderer
  make_quad format p = do
    ap ← state (λ w. G.attrib_location p (codes "a_pos") w.sys)
    au ← state (λ w. G.attrib_location p (codes "a_uv") w.sys)
    ut ← state (λ w. G.uniform_location p (codes "u_tex") w.sys)
    b ← making S G vertex_buffer G.gen_buffer
    gl_calls S G (bind_array_buffer b ∷ buffer_data verts ∷ [])
    t ← making S G texture G.gen_texture
    gl_calls S G (texture_calls (target_of format) t)
    pure (record {
      program = p;
      texture = t;
      vbo = b;
      attr_pos = ap;
      attr_uv = au;
      uni_tex = ut;
      tex_target = target_of format;
      viewport_w = 0;
      viewport_h = 0;
    })

  unfoldable pub init : ℕ → Io S QuadRenderer
  unfolding link_program make_quad
  init format = do
    p ← link_program S G vs (if is_yuv format then fs_yuv else fs_rgb)
    make_quad format p

  abbrev pub set_viewport : ℕ → ℕ → QuadRenderer → QuadRenderer
  set_viewport w h r = record r { viewport_w = w; viewport_h = h }

  abbrev draw_calls : QuadRenderer → ℕ → List GlCall
  draw_calls r img =
      viewport 0 0 r.viewport_w r.viewport_h
      ∷ clear_black
      ∷ clear_color_buffer
      ∷ bind_texture r.tex_target r.texture
      ∷ image_target_texture r.tex_target img
      ∷ use_program r.program
      ∷ active_texture0
      ∷ bind_texture r.tex_target r.texture
      ∷ uniform1i r.uni_tex 0
      ∷ bind_array_buffer r.vbo
      ∷ enable_vertex_attrib_array r.attr_pos
      ∷ vertex_attrib_pointer r.attr_pos 2 16 0
      ∷ enable_vertex_attrib_array r.attr_uv
      ∷ vertex_attrib_pointer r.attr_uv 2 16 8
      ∷ draw_triangle_strip 0 4
      ∷ disable_vertex_attrib_array r.attr_pos
      ∷ disable_vertex_attrib_array r.attr_uv
      ∷ []

  unfoldable pub draw : QuadRenderer → ℕ → Io S (Unit {0})
  draw r img = gl_calls S G (draw_calls r img)

  unfoldable pub delete_unless_zero : Object → ℕ → Io S (Unit {0})
  delete_unless_zero k i = if i == 0 then pure tt else deleting S G k i

  -- `Drop`.
  unfoldable pub drop_renderer : QuadRenderer → Io S (Unit {0})
  unfolding delete_unless_zero
  drop_renderer r = do
    delete_unless_zero texture r.texture
    delete_unless_zero vertex_buffer r.vbo
    delete_unless_zero program r.program
