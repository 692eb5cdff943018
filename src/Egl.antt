-- ===== src/Egl.antt =====
-- rust/subscriber/src/egl.rs: EGL and GLES, which are parameters, and `EglContext` with
-- `import_dmabuf`, `destroy_image` and `swap_buffers`. An `EGLint` is a number below 2 ^ 32, its bits.
pub mod Steady
pub mod Attributes
pub mod Context
pub mod Shaders
pub mod Renderer
pub mod Resources
use pub_sub_v4l2_dmabuf_wayl.Base.{
  ℕ, ◌*◌, ◌%◌, ◌^◌, List, [], ◌∷◌, ◌++◌, Bool, ◌||◌, Option, none, some, ◌==◌, if◌then◌else◌,
}
use pub_sub_v4l2_dmabuf_wayl.Effect.{ret, pure, modify}
use pub_sub_v4l2_dmabuf_wayl.Platform.{Platform, Io, imported, destroyed, Object}
use pub_sub_v4l2_dmabuf_wayl.Platform.Objects.{note_created, note_deleted}
use pub_sub_v4l2_dmabuf_wayl.Wire.{FrameMeta}

-- The attributes' names.
pub record EglConsts : Type 0 where
  pub egl_width : ℕ
  pub egl_height : ℕ
  pub egl_linux_drm_fourcc : ℕ
  pub plane0_fd : ℕ
  pub plane0_offset : ℕ
  pub plane0_pitch : ℕ
  pub plane0_modifier_lo : ℕ
  pub plane0_modifier_hi : ℕ
  pub plane1_fd : ℕ
  pub plane1_offset : ℕ
  pub plane1_pitch : ℕ
  pub plane1_modifier_lo : ℕ
  pub plane1_modifier_hi : ℕ
  pub egl_none : ℕ
  pub egl_surface_type : ℕ
  pub egl_window_bit : ℕ
  pub egl_renderable_type : ℕ
  pub egl_opengl_es2_bit : ℕ
  pub egl_red_size : ℕ
  pub egl_green_size : ℕ
  pub egl_blue_size : ℕ
  pub egl_alpha_size : ℕ
  pub egl_context_client_version : ℕ
  pub gl_vertex_shader : ℕ
  pub gl_fragment_shader : ℕ
  pub gl_texture_2d : ℕ
  pub gl_texture_external_oes : ℕ
  pub gl_texture_min_filter : ℕ
  pub gl_texture_mag_filter : ℕ
  pub gl_texture_wrap_s : ℕ
  pub gl_texture_wrap_t : ℕ
  pub gl_linear : ℕ
  pub gl_clamp_to_edge : ℕ

-- The calls of GLES that give nothing back, with the arguments that vary. Numbers stand for the bits
-- of what is passed.
pub data GlCall : Type 0 where
  viewport : ℕ → ℕ → ℕ → ℕ → GlCall
  clear_black : GlCall
  clear_color_buffer : GlCall
  bind_texture : ℕ → ℕ → GlCall
  image_target_texture : ℕ → ℕ → GlCall
  use_program : ℕ → GlCall
  active_texture0 : GlCall
  uniform1i : ℕ → ℕ → GlCall
  bind_array_buffer : ℕ → GlCall
  enable_vertex_attrib_array disable_vertex_attrib_array : ℕ → GlCall
  vertex_attrib_pointer : ℕ → ℕ → ℕ → ℕ → GlCall
  draw_triangle_strip : ℕ → ℕ → GlCall
  shader_source : ℕ → List ℕ → GlCall
  compile_shader : ℕ → GlCall
  attach_shader : ℕ → ℕ → GlCall
  link_program : ℕ → GlCall
  -- of `f32`s, by their bits
  buffer_data : List ℕ → GlCall
  tex_parameter : ℕ → ℕ → ℕ → GlCall
  delete_object : Object → ℕ → GlCall

-- The entry points that are looked up by name.
pub data Proc : Type 0 where
  proc_get_platform_display proc_create_image proc_destroy_image proc_image_target : Proc

-- EGL and GLES. A handle is a number, and `none` is EGL's null.
pub record Gpu (S : Platform) : Type 0 where
  pub egl : EglConsts
  -- `eglQueryString` of no display and of a display: the extensions' names
  pub client_extensions : S.State → Option (List ℕ)
  pub extensions : ℕ → S.State → List ℕ
  pub has_proc : Proc → S.State → Bool
  -- of the window system's display
  pub get_platform_display : ℕ → S.State → Option ℕ × S.State
  pub get_display : ℕ → S.State → Option ℕ × S.State
  pub initialize : ℕ → S.State → Bool × S.State
  pub bind_api : S.State → Bool × S.State
  -- with the wanted attributes: whether it succeeds, how many there are, and the first
  pub choose_config : ℕ → List ℕ → S.State → (Bool × ℕ × ℕ) × S.State
  pub create_context : ℕ → ℕ → List ℕ → S.State → Option ℕ × S.State
  -- of a display, a config and the window system's window
  pub create_window_surface : ℕ → ℕ → ℕ → S.State → Option ℕ × S.State
  pub make_current : ℕ → Option ℕ → Option ℕ → S.State → Bool × S.State
  pub destroy_surface : ℕ → ℕ → S.State → S.State
  pub destroy_context : ℕ → ℕ → S.State → S.State
  pub terminate : ℕ → S.State → S.State
  -- `eglCreateImageKHR` with its attributes; `none` is `EGL_NO_IMAGE_KHR`
  pub create_image : ℕ → List ℕ → S.State → Option ℕ × S.State
  pub destroy_image : ℕ → ℕ → S.State → S.State
  pub swap_buffers : ℕ → ℕ → S.State → S.State
  pub gl : GlCall → S.State → S.State
  -- `glCreateShader`, `glCreateProgram`, `glGenBuffers`, `glGenTextures`: a name, or 0
  pub create_shader : ℕ → S.State → ℕ × S.State
  pub create_program : S.State → ℕ × S.State
  pub gen_buffer : S.State → ℕ × S.State
  pub gen_texture : S.State → ℕ × S.State
  pub compile_status : ℕ → S.State → Bool
  pub link_status : ℕ → S.State → Bool
  pub attrib_location : ℕ → List ℕ → S.State → ℕ
  pub uniform_location : ℕ → List ℕ → S.State → ℕ

pub record EglContext : Type 0 where
  pub display : ℕ
  pub context : ℕ
  pub surface : ℕ
  pub has_modifiers : Bool

module _ (S : Platform) (G : Gpu S) (ctx : EglContext) where
  -- The modifier of a plane, if modifiers are known.
  abbrev modifier : ℕ → ℕ → List ℕ
  modifier lo hi = if ctx.has_modifiers then lo ∷ 0 ∷ hi ∷ 0 ∷ [] else []

  abbrev pub plane0 : ℕ → FrameMeta → List ℕ
  plane0 fd meta =
      G.egl.egl_width ∷ meta.width ∷ G.egl.egl_height ∷ meta.height ∷ G.egl.egl_linux_drm_fourcc
      ∷ meta.format ∷ G.egl.plane0_fd ∷ fd ∷ G.egl.plane0_offset ∷ 0 ∷ G.egl.plane0_pitch
      ∷ meta.stride ∷ []

  -- The second plane begins where the first ends; the product wraps.
  abbrev pub plane1 : ℕ → FrameMeta → List ℕ
  plane1 fd meta =
      G.egl.plane1_fd
      ∷ fd
      ∷ G.egl.plane1_offset
      ∷ (meta.stride * meta.height % 2 ^ 32)
      ∷ G.egl.plane1_pitch
      ∷ meta.stride
      ∷ []

  abbrev pub is_semi_planar : ℕ → Bool
  is_semi_planar format = format == S.drm_nv12 || format == S.drm_nv21

  abbrev second_plane : ℕ → FrameMeta → List ℕ
  second_plane fd meta =
      if is_semi_planar meta.format
      then (plane1 fd meta ++ modifier G.egl.plane1_modifier_lo G.egl.plane1_modifier_hi)
      else []

  unfoldable pub dmabuf_attrs : ℕ → FrameMeta → List ℕ
  dmabuf_attrs fd meta =
      plane0 fd meta
      ++ (modifier G.egl.plane0_modifier_lo G.egl.plane0_modifier_hi
          ++ (second_plane fd meta ++ (G.egl.egl_none ∷ [])))

  unfoldable pub import_dmabuf : ℕ → FrameMeta → Io S (Option ℕ)
  unfolding dmabuf_attrs
  import_dmabuf fd meta w =
      let s = (G.create_image ctx.display (dmabuf_attrs fd meta) w.sys).1 in
      elim (G.create_image ctx.display (dmabuf_attrs fd meta) w.sys).0 [
        | none ↦ ret none (record w { sys = s })
        | some img ↦ ret (some img) (record w { sys = s; trace = imported img fd ∷ w.trace })
      ]

  unfoldable pub destroy_image : Option ℕ → Io S (Unit {0})
  destroy_image none = pure tt
  destroy_image (some img) =
      modify λ w. record w {
        sys = G.destroy_image ctx.display img w.sys;
        trace = destroyed img ∷ w.trace;
      }

  unfoldable pub swap_buffers : Io S (Unit {0})
  swap_buffers = modify λ w. record w { sys = G.swap_buffers ctx.display ctx.surface w.sys }

module _ (S : Platform) (G : Gpu S) where
  abbrev pub run_gl : List GlCall → S.State → S.State
  run_gl [] s = s
  run_gl (c ∷ cs) s = run_gl cs (G.gl c s)

  unfoldable pub gl_calls : List GlCall → Io S (Unit {0})
  gl_calls cs = modify λ w. record w { sys = run_gl cs w.sys }

  -- A call that makes an object, whose name may be 0, and one that deletes it.
  unfoldable pub making : Object → (S.State → ℕ × S.State) → Io S ℕ
  making k f w =
      ret (f w.sys).0
        (record w { sys = (f w.sys).1; trace = note_created k (f w.sys).0 ++ w.trace })

  unfoldable pub deleting : Object → ℕ → Io S (Unit {0})
  deleting k i =
      modify
        λ w. record w { sys = G.gl (delete_object k i) w.sys; trace = note_deleted k i ++ w.trace }
